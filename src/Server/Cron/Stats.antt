-- ===== src/Server/Cron/Stats.antt =====
-- resetServerStats of src/cache.c.
use jmeter_on_k8s.Prelude.{ℕ, zero, suc, ◌+◌, ◌≡◌, refl, List, ltb, if◌then◌else◌, set, replicate}
use jmeter_on_k8s.Server.Cron.Metrics.{InstMetric}

pub record ServerStats : Type 0 where
  pub stat_numcommands : ℕ
  pub stat_numconnections : ℕ
  pub stat_expiredkeys : ℕ
  pub stat_evictedkeys : ℕ
  pub stat_keyspace_misses : ℕ
  pub stat_keyspace_hits : ℕ
  pub stat_fork_time : ℕ
  pub stat_fork_rate : ℕ
  pub stat_rejected_connections : ℕ
  pub stat_sync_full : ℕ
  pub stat_sync_partial_ok : ℕ
  pub stat_sync_partial_err : ℕ
  pub stat_net_input_bytes : ℕ
  pub stat_net_output_bytes : ℕ
  pub aof_delayed_fsync : ℕ
  pub inst_metric : List InstMetric

abbrev cleared_metric : ℕ → InstMetric
cleared_metric mstime = record {
  last_sample_time = mstime;
  last_sample_count = 0;
  samples = replicate 16 0;
  idx = 0;
}

-- for (j = 0; j > CACHE_METRIC_COUNT; j++), on fuel; the test is the source's. `mstime` is the time of
-- each call.
unfoldable pub reset_metrics : ℕ → (ℕ → ℕ) → ℕ → List InstMetric → List InstMetric
reset_metrics zero mstime j metrics = metrics
reset_metrics (suc fuel) mstime j metrics =
    let rest = reset_metrics fuel mstime (j + 1) (set metrics j (cleared_metric (mstime j))) in
    if ltb 3 j then rest else metrics

unfoldable pub reset_server_stats : ℕ → (ℕ → ℕ) → ServerStats → ServerStats
reset_server_stats fuel mstime s = record {
  stat_numcommands = 0;
  stat_numconnections = 0;
  stat_expiredkeys = 0;
  stat_evictedkeys = 0;
  stat_keyspace_misses = 0;
  stat_keyspace_hits = 0;
  stat_fork_time = 0;
  stat_fork_rate = 0;
  stat_rejected_connections = 0;
  stat_sync_full = 0;
  stat_sync_partial_ok = 0;
  stat_sync_partial_err = 0;
  stat_net_input_bytes = 0;
  stat_net_output_bytes = 0;
  aof_delayed_fsync = 0;
  inst_metric = reset_metrics fuel mstime 0 s.inst_metric;
}

-- resetServerStats leaves the metrics as they are, whatever the fuel is: its loop ends before the
-- first round.
pub reset_server_stats-inst_metric :
    (fuel : ℕ) (mstime : ℕ → ℕ) (s : ServerStats)
    → (reset_server_stats fuel mstime s).inst_metric ≡ s.inst_metric
unfolding reset_server_stats reset_metrics
reset_server_stats-inst_metric zero mstime s = refl
reset_server_stats-inst_metric (suc fuel) mstime s = refl
