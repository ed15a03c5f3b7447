-- ===== src/Server/Cron/Tests.antt =====
-- The theorems on the periodic work and the limits of src/cache.c at concrete inputs.
use jmeter_on_k8s.Prelude.{
  ℕ, ◌+◌, ◌-◌, ◌<◌, ◌≤◌, ◌^◌, ◌≡◌, refl, ap, ◌∙◌, true, false, Option, none, some, List, [], ◌∷◌,
  ◌==◌, if◌then◌else◌, ◌>>=◌, length, leb, ◌⊎◌, arith,
}
use jmeter_on_k8s.Adlist.{node, list_create, list_del_node}
use jmeter_on_k8s.Adlist.Links.{Holds}
use jmeter_on_k8s.Adlist.Inside.{list_del_node_lem}
use jmeter_on_k8s.Server.Client.{ClientFlags}
use jmeter_on_k8s.Server.Cron.Clients.{
  CronClient, CronConfig, CronState, ClientCalls, is_idle, cron_iterations, clients_cron,
}
use jmeter_on_k8s.Server.Cron.Clients.Visit.{IsWellBehaved}
use jmeter_on_k8s.Server.Cron.Clients.Correct.{clients_cron_lem}
use jmeter_on_k8s.Server.Cron.Metrics.{
  InstMetric, track_readings, fresh_metric, get_instantaneous_metric,
  track_readings-get_instantaneous_metric,
}
use jmeter_on_k8s.Dict.{dict_create}
use jmeter_on_k8s.Dict.Tests.{numbers, sparse, sparse-IsValid}
use jmeter_on_k8s.Dict.Valid.{dict_create-IsValid}
use jmeter_on_k8s.Server.Cron.Databases.{CacheDb, resize_loop}
use jmeter_on_k8s.Server.Cron.Databases.Correct.{IsGood, AreGood, HaveSame, resize_loop_lem}
use jmeter_on_k8s.Server.Limits.{
  maxclients, exits, adjust_open_files_limit, adjust_open_files_limit_lem,
  adjust_open_files_limit-wraps,
}

adjust_open_files_limit_lem_example :
    ((adjust_open_files_limit (λ n. leb n 4096) (some 1024) 700 10000 ≡ some exits)
      × (◌≡◌ {A = ℕ} 1024 32))
    ⊎ ((m : ℕ) × (adjust_open_files_limit (λ n. leb n 4096) (some 1024) 700 10000
          ≡ some (maxclients m))
        × (m ≤ 10000)
        × ((m + 32 ≤ 1024) ⊎ (leb (m + 32) 4096 ≡ true)))
adjust_open_files_limit_lem_example =
    adjust_open_files_limit_lem (λ n. leb n 4096) 1024 700 10000 (omega arith) (omega arith)
      (omega arith)

none_above : (n : ℕ) → 32 ≤ n → leb n 24 ≡ false
none_above n h = ground arith

adjust_open_files_limit-wraps_example :
    (m : ℕ) × (adjust_open_files_limit (λ n. leb n 24) (some 20) 700 10000 ≡ some (maxclients m))
    × (2 ^ 32 - 33 < m)
adjust_open_files_limit-wraps_example =
    adjust_open_files_limit-wraps (λ n. leb n 24) 20 700 10000 (omega arith) none_above
      (omega arith) (omega arith) (omega arith)

track_readings-get_instantaneous_metric_example :
    (m : InstMetric) × (track_readings ((100, 100, 5000) ∷ (200, 201, 9000) ∷ []) fresh_metric
      ≡ some m)
    × (length m.samples ≡ 16)
    × (m.idx < 16)
    × (get_instantaneous_metric m ≡ 0)
track_readings-get_instantaneous_metric_example =
    track_readings-get_instantaneous_metric ((100, 100, 5000) ∷ (200, 201, 9000) ∷ [])

-- Two clients, at 100 and 101; the second one has been quiet for too long.
abbrev cron_config : CronConfig
cron_config = record {
  unixtime = 5000;
  maxidletime = 300;
  hz = 10;
  cluster_enabled = true;
  now_ms = 5000000;
}

abbrev no_flags : ClientFlags
no_flags = record {
  slave = false;
  master = false;
  monitor = false;
  multi = false;
  blocked = false;
  dirty_cas = false;
  close_after_reply = false;
  unblocked = false;
  lua_client = false;
  asking = false;
  close_asap = false;
  unix_socket = false;
  dirty_exec = false;
  master_force_reply = false;
  force_aof = false;
  force_repl = false;
  pre_psync = false;
  readonly = false;
  pubsub = false;
}

abbrev client_since : ℕ → CronClient
client_since t = record {
  flags = no_flags;
  querybuf = record { len = 0; free = 0; buf = 0 ∷ [] };
  querybuf_peak = 10;
  lastinteraction = t;
  timeout = 0;
}

abbrev two_clients : CronState Unit
two_clients = record {
  heap = λ a.
      if a == 10
      then some (node none (some 20) 100)
      else if a == 20
      then some (node (some 10) none 101)
      else none;
  clients = record list_create { head = some 10; tail = some 20; len = 2 };
  store = λ p.
      if p == 100
      then some (client_since 4999)
      else if p == 101
      then some (client_since 2000)
      else none;
  world = tt;
}

-- A freeClient that takes out the head of the list, and other functions that change nothing.
abbrev free_head : CronState Unit → ℕ → Option (CronState Unit)
free_head s p = s.clients.head >>= λ a.
    list_del_node s.heap s.clients a >>= λ (h, l, v). some (record s { heap = h; clients = l })

abbrev plain_calls : ClientCalls Unit
plain_calls = record {
  free_client = free_head;
  reply_timed_out = λ s p. some s;
  unblock_client = λ s p. some s;
  cluster_redirect = λ s p. some (false, s);
}

plain_calls-IsWellBehaved : IsWellBehaved plain_calls cron_config
plain_calls-IsWellBehaved = record {
  frees = λ s a p e l small.
      let (h, l1, run, held, gone) = list_del_node_lem s.heap s.clients [] a p e l small in
      (
        record s { heap = h; clients = l1 },
        ap
              (λ x. x >>= λ b. list_del_node s.heap s.clients b >>= λ (h2, l2, v).
                some (record s { heap = h2; clients = l2 }))
              l.first
            ∙ rw (run, ◌>>=◌) refl,
        held,
        λ q d. refl,
      );
  replies = λ s p e l. (s, refl, (l, λ q d. refl, λ c at. (c, at)));
  unblocks = λ s p e l. (s, refl, (l, λ q d. refl, λ c at. (c, at)));
  redirects = λ s p e l. (false, s, refl, (l, λ q d. refl, λ c at. (c, at)));
}

two_clients-Holds : Holds two_clients.heap two_clients.clients ((10, 100) ∷ (20, 101) ∷ [])
two_clients-Holds = record {
  linked = (refl, (refl, tt));
  distinct = ((refl, tt), (tt, tt));
  first = refl;
  last = refl;
  count = refl;
}

clients_cron_lem_example :
    (s : CronState Unit) × (clients_cron plain_calls cron_config two_clients ≡ some s)
    × Holds s.heap s.clients ((10, 100) ∷ [])
unfolding cron_iterations is_idle
clients_cron_lem_example =
    clients_cron_lem plain_calls cron_config plain_calls-IsWellBehaved (λ p. p == 101)
      ((20, 101) ∷ (10, 100) ∷ []) [] two_clients two_clients-Holds (omega arith) refl
      (refl, (refl, tt)) ((refl, tt), (tt, tt))

-- A database with a table that is worth resizing.
abbrev one_db : CacheDb ℕ ℕ ℕ
one_db = record { dict = sparse; expires = dict_create }

one_db-IsGood : IsGood numbers numbers one_db
one_db-IsGood = record {
  dict_valid = sparse-IsValid;
  dict_fits = omega arith;
  expires_valid = dict_create-IsValid numbers;
  expires_fits = omega arith;
}

resize_loop_lem_example :
    (dbs : List (CacheDb ℕ ℕ ℕ)) × (next : ℕ) × (resize_loop true 1 1 (one_db ∷ []) 7
      ≡ some (dbs, next))
    × AreGood numbers numbers dbs
    × HaveSame numbers numbers (one_db ∷ []) dbs
resize_loop_lem_example =
    resize_loop_lem numbers numbers true 1 (one_db ∷ []) 7 (omega arith) (one_db-IsGood, tt)
