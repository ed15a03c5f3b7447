-- ===== src/Server/Cron/Clients.antt =====
-- clientsCron of src/cache.c with clientsCronHandleTimeout and clientsCronResizeQueryBuffer. The list
-- server.clients stands on a heap, its values are the addresses of the clients in `store`. The
-- functions of other files that a client is handed to are arguments; `world` is what else they change.
pub mod Visit
pub mod Correct
use jmeter_on_k8s.Prelude.{
  ℕ, zero, suc, ◌+◌, ◌*◌, ◌/◌, Bool, true, false, ◌&&◌, ◌||◌, not, Option, none, some, ◌==◌, ltb,
  if◌then◌else◌, ◌>>=◌, take,
}
use jmeter_on_k8s.Prelude.Int.{ℤ, pos, sub_ℕ, ltb_ℤ}
use jmeter_on_k8s.Adlist.{Heap, AdList, load, list_rotate}
use jmeter_on_k8s.Sds.{Sdshdr, sds_remove_free_space, sds_alloc_size}
use jmeter_on_k8s.Server.Client.{ClientFlags}

-- The members of a client that the cron functions read. `timeout` is that of bpop.
pub record CronClient : Type 0 where
  pub flags : ClientFlags
  pub querybuf : Sdshdr
  pub querybuf_peak : ℕ
  pub lastinteraction : ℕ
  pub timeout : ℕ

-- The configuration and the clock. `now_ms` is mstime().
pub record CronConfig : Type 0 where
  pub unixtime : ℕ
  pub maxidletime : ℕ
  pub hz : ℕ
  pub cluster_enabled : Bool
  pub now_ms : ℕ

pub record CronState (W : Type 0) : Type 0 where
  pub heap : Heap ℕ
  pub clients : AdList ℕ
  pub store : ℕ → Option CronClient
  pub world : W

-- The functions of other files: freeClient, replyToBlockedClientTimedOut, unblockClient and
-- clusterRedirectBlockedClientIfNeeded.
pub record ClientCalls (W : Type 0) : Type 0 where
  pub free_client : CronState W → ℕ → Option (CronState W)
  pub reply_timed_out : CronState W → ℕ → Option (CronState W)
  pub unblock_client : CronState W → ℕ → Option (CronState W)
  pub cluster_redirect : CronState W → ℕ → Option (Bool × CronState W)

-- The first test of clientsCronHandleTimeout.
unfoldable pub is_idle : CronConfig → CronClient → Bool
is_idle cfg c =
    not (cfg.maxidletime == 0)
    && not c.flags.slave
    && not c.flags.master
    && not c.flags.blocked
    && not c.flags.pubsub
    && ltb_ℤ (pos cfg.maxidletime) (sub_ℕ cfg.unixtime c.lastinteraction)

-- Both tests of clientsCronResizeQueryBuffer.
abbrev pub wants_trim : CronConfig → CronClient → Bool
wants_trim cfg c =
    let size = sds_alloc_size c.querybuf in
    ((ltb 32768 size && ltb 2 (size / (c.querybuf_peak + 1)))
      || (ltb 1024 size && ltb_ℤ (pos 2) (sub_ℕ cfg.unixtime c.lastinteraction)))
    && ltb 1024 c.querybuf.free

unfoldable pub trimmed : CronConfig → CronClient → CronClient
trimmed cfg c = record c {
  querybuf = if wants_trim cfg c then sds_remove_free_space c.querybuf else c.querybuf;
  querybuf_peak = 0;
}

-- The clients after a write through the pointer p.
abbrev pub store_client : (ℕ → Option CronClient) → ℕ → CronClient → ℕ → Option CronClient
store_client store p c q = if q == p then some c else store q

unfoldable pub cron_iterations : CronConfig → ℕ → ℕ
cron_iterations cfg numclients =
    let iterations = numclients / (cfg.hz * 10) in
    if ltb iterations 50 then (if ltb numclients 50 then numclients else 50) else iterations

module _ {W : Type 0} (calls : ClientCalls W) (cfg : CronConfig) where
  -- The branch of a blocked client.
  unfoldable pub handle_blocked : CronState W → ℕ → CronClient → Option (CronState W)
  handle_blocked s p c =
      if not (c.timeout == 0) && ltb c.timeout cfg.now_ms
      then (calls.reply_timed_out s p >>= λ s1. calls.unblock_client s1 p)
      else if cfg.cluster_enabled
      then (calls.cluster_redirect s p >>= λ (redirected, s1).
          if redirected then calls.unblock_client s1 p else some s1)
      else some s

  unfoldable pub clients_cron_handle_timeout : CronState W → ℕ → Option (Bool × CronState W)
  clients_cron_handle_timeout s p = s.store p >>= λ c.
      if is_idle cfg c
      then (calls.free_client s p >>= λ s1. some (true, s1))
      else if c.flags.blocked
      then (handle_blocked s p c >>= λ s1. some (false, s1))
      else some (false, s)

  unfoldable pub clients_cron_resize_query_buffer : CronState W → ℕ → Option (CronState W)
  clients_cron_resize_query_buffer s p =
      s.store p >>= λ c. some (record s { store = store_client s.store p (trimmed cfg c) })

  -- One round of the loop of clientsCron behind the rotation.
  unfoldable pub visit_client : CronState W → ℕ → Option (CronState W)
  visit_client s p = clients_cron_handle_timeout s p >>= λ (closed, s1).
      if closed then some s1 else clients_cron_resize_query_buffer s1 p

  unfoldable pub cron_loop : ℕ → CronState W → Option (CronState W)
  cron_loop zero s = some s
  cron_loop (suc n) s = elim (s.clients.len == 0) [
    | true ↦ some s
    | false ↦ list_rotate s.heap s.clients >>= λ (h, l). load h l.head >>= λ node.
        visit_client (record s { heap = h; clients = l }) node.value >>= λ s1. cron_loop n s1
  ]

  unfoldable pub clients_cron : CronState W → Option (CronState W)
  clients_cron s = cron_loop (cron_iterations cfg s.clients.len) s
