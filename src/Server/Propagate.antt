-- ===== src/Server/Propagate.antt =====
-- src/cache.c: cacheOpArrayInit, cacheOpArrayAppend, cacheOpArrayFree, propagate, alsoPropagate,
-- forceCommandPropagation and call.
pub mod Correct
use jmeter_on_k8s.Prelude.{
  ℕ, zero, suc, ◌+◌, ◌-◌, ◌/◌, map, Bool, true, false, ◌&&◌, ◌||◌, not, Option, none, some, List,
  [], ◌∷◌, ◌++◌, ◌==◌, ltb, if◌then◌else◌, ◌>>=◌, take, get_elem?, set, bit_and,
}
use jmeter_on_k8s.Prelude.Int.{ℤ, pos, negsuc, sub_ℕ, ◌+ℤ◌}
use text.Mathlib.Text.{◌==◌ as str_eq}
use jmeter_on_k8s.Server.Client.{ClientFlags, CacheClient}
use jmeter_on_k8s.Server.CmdFlag
use jmeter_on_k8s.Server.Command.{CacheCommand}

-- The flags of propagate: CACHE_PROPAGATE_AOF, CACHE_PROPAGATE_REPL, and whether any other bit is set.
pub record PropagateFlags : Type 0 where
  pub aof : Bool
  pub repl : Bool
  pub other : Bool

-- The flags of call.
pub record CallFlags : Type 0 where
  pub slowlog : Bool
  pub stats : Bool
  pub propagate : Bool

-- `cmd` is the row of the command, `argv` names the argument objects.
pub record CacheOp : Type 0 where
  pub cmd : ℕ
  pub db_id : ℕ
  pub argv : List ℕ
  pub argc : ℕ
  pub target : PropagateFlags

-- `ops` is the block behind the pointer, at least `num_ops` entries.
pub record CacheOpArray : Type 0 where
  pub ops : List CacheOp
  pub num_ops : ℕ

abbrev pub cache_op_array_init : CacheOpArray
cache_op_array_init = record { ops = []; num_ops = 0 }

-- zre_alloc keeps the entries, and gives room for one more.
unfoldable pub cache_op_array_append :
    CacheOpArray → ℕ → ℕ → List ℕ → ℕ → PropagateFlags → CacheOpArray × ℕ
cache_op_array_append oa cmd dbid argv argc target = (
  record {
    ops =
        take oa.num_ops oa.ops
        ++ record { cmd = cmd; db_id = dbid; argv = argv; argc = argc; target = target } ∷ [];
    num_ops = oa.num_ops + 1;
  },
  oa.num_ops + 1,
)

-- decrRefCount of an argument object, and zfree of a block of arguments.
pub data Release : Type 0 where
  decr_ref_count : ℕ → Release
  free_argv : List ℕ → Release

-- What a round of cacheOpArrayFree releases, through the operation that `op` points to.
abbrev pub release_op : CacheOp → List Release
release_op op = map decr_ref_count (take op.argc op.argv) ++ free_argv op.argv ∷ []

-- while (oa->num_ops). Nothing sets `op`: `stale` is what it points to in the round that leaves
-- num_ops operations, `none` where reading through it faults.
unfoldable pub free_ops : (ℕ → Option CacheOp) → ℕ → Option (List Release)
free_ops stale zero = some []
free_ops stale (suc num_ops) =
    stale num_ops >>= λ op. free_ops stale num_ops >>= λ rest. some (release_op op ++ rest)

-- The counter is 0 afterwards, and the block is freed.
unfoldable pub cache_op_array_free :
    (ℕ → Option CacheOp) → CacheOpArray → Option (CacheOpArray × List Release)
cache_op_array_free stale oa =
    free_ops stale oa.num_ops >>= λ released. some (record { ops = []; num_ops = 0 }, released)

-- What is sent: a call of feedAppendOnlyFile or of replicationFeedSlaves.
pub data Feed : Type 0 where
  append_only_file slaves : ℕ → ℕ → List ℕ → ℕ → Feed

unfoldable pub propagate : Bool → ℕ → ℕ → List ℕ → ℕ → PropagateFlags → List Feed
propagate aof_on cmd db_id argv argc flags =
    (if aof_on && flags.aof then append_only_file cmd db_id argv argc ∷ [] else [])
    ++ (if flags.repl then slaves cmd db_id argv argc ∷ [] else [])

-- alsoPropagate, on server.also_propagate
unfoldable pub also_propagate : CacheOpArray → ℕ → ℕ → List ℕ → ℕ → PropagateFlags → CacheOpArray
also_propagate oa cmd dbid argv argc target = (cache_op_array_append oa cmd dbid argv argc target).0

unfoldable pub force_command_propagation : CacheClient → PropagateFlags → CacheClient
force_command_propagation c flags = record c {
  flags = record (c.flags) {
    force_repl = flags.repl || c.flags.force_repl;
    force_aof = flags.aof || c.flags.force_aof;
  };
}

-- The members of `server` that call reads and writes; lua_caller with its flags, `none` for NULL.
pub record CallServer : Type 0 where
  pub loading : Bool
  pub aof_on : Bool
  pub lua_caller : Option ClientFlags
  pub also_propagate : CacheOpArray
  pub stat_numcommands : ℕ
  pub table : List CacheCommand

-- duration / 1000, which rounds towards 0
abbrev pub in_milliseconds : ℤ → ℤ
in_milliseconds (pos n) = pos (n / 1000)
in_milliseconds (negsuc n) = sub_ℕ 0 ((n + 1) / 1000)

-- A sample for the latency monitor, or an entry for the slow log.
pub data Sample : Type 0 where
  latency : Bool → ℤ → Sample
  slowlog : List (List ℕ) → ℕ → ℤ → Sample

-- flags &= ~(CACHE_CALL_SLOWLOG | CACHE_CALL_STATS) while a script runs during the loading
abbrev pub call_flags : CallServer → CacheClient → CallFlags → CallFlags
call_flags server c flags =
    if server.loading && c.flags.lua_client
    then record flags { slowlog = false; stats = false }
    else flags

-- The forced flags of a script's client are set on its caller too.
abbrev pub mark_lua_caller : CacheClient → Option ClientFlags → Option ClientFlags
mark_lua_caller c none = none
mark_lua_caller c (some caller) =
    if c.flags.lua_client
    then some (record caller {
      force_repl = c.flags.force_repl || caller.force_repl;
      force_aof = c.flags.force_aof || caller.force_aof;
    })
    else some caller

-- The flags for propagate: CACHE_FORCE_AOF is a bit that propagate does not read, so `force_aof`
-- only makes them differ from CACHE_PROPAGATE_NONE.
abbrev pub propagate_flags : CacheClient → Bool → PropagateFlags
propagate_flags c dirty = record {
  aof = dirty;
  repl = c.flags.force_repl || dirty;
  other = c.flags.force_aof;
}

abbrev pub is_none : PropagateFlags → Bool
is_none f = not (f.aof || f.repl || f.other)

-- for (j = 0; j < server.also_propagate.num_ops; j++) { ... }
unfoldable pub propagate_ops : Bool → List CacheOp → List Feed
propagate_ops aof_on [] = []
propagate_ops aof_on (rop ∷ ops) =
    propagate aof_on rop.cmd rop.db_id rop.argv rop.argc rop.target ++ propagate_ops aof_on ops

-- c->flags &= ~(CACHE_FORCE_AOF | CACHE_FORCE_REPL), then the old ones back.
abbrev pub restore_forced : ClientFlags → CacheClient → CacheClient
restore_forced old c = record c {
  flags = record (c.flags) { force_aof = old.force_aof; force_repl = old.force_repl };
}

abbrev pub count_call : CacheCommand → ℤ → CacheCommand
count_call cmd duration = record cmd {
  microseconds = cmd.microseconds +ℤ duration;
  calls = cmd.calls + 1;
}

pub record CallResult : Type 0 where
  pub server : CallServer
  pub client : CacheClient
  pub samples : List Sample
  pub feeds : List Feed
  pub released : List Release

-- What call samples, and what it sends for the command itself.
abbrev pub call_samples : ℤ → CacheClient → CallFlags → CacheCommand → List Sample
call_samples duration c flags cmd =
    if flags.slowlog && not (str_eq cmd.proc "execCommand")
    then latency (not (bit_and cmd.flags CmdFlag.fast == 0)) (in_milliseconds duration)
      ∷ slowlog c.argv c.argc duration
      ∷ []
    else []

abbrev pub call_feeds : Bool → List ℕ → CallServer → CacheClient → CallFlags → ℕ → List Feed
call_feeds dirty argv server c flags j =
    if flags.propagate && not (is_none (propagate_flags c dirty))
    then propagate server.aof_on j c.db argv c.argc (propagate_flags c dirty)
    else []

-- call up to the test of also_propagate.num_ops, with the counting of the command.
unfoldable pub call_one :
    Bool → ℤ → List ℕ → CallServer → CacheClient → CallFlags → ℕ → CacheCommand → CallResult
call_one dirty duration argv server c flags j cmd = record {
  server = record server {
    lua_caller = mark_lua_caller c server.lua_caller;
    table = if flags.stats then set server.table j (count_call cmd duration) else server.table;
    stat_numcommands = server.stat_numcommands + 1;
  };
  client = restore_forced c.flags c;
  samples = call_samples duration c flags cmd;
  feeds = call_feeds dirty argv server c flags j;
  released = [];
}

-- if (server.also_propagate.num_ops) { ... }
unfoldable pub call_queued : (ℕ → Option CacheOp) → CallResult → Option CallResult
call_queued stale r =
    let oa = r.server.also_propagate in
    if oa.num_ops == 0
    then some r
    else (cache_op_array_free stale oa >>= λ (oa', released). some (record r {
      server = record (r.server) { also_propagate = oa' };
      feeds = r.feeds ++ propagate_ops r.server.aof_on (take oa.num_ops oa.ops);
      released = released;
    }))

-- `dirty` (whether it is not 0) and `duration` are what the uninitialised variables hold, `argv`
-- names the argument objects, `stale` is for cacheOpArrayFree. A NULL c->cmd, or one outside the
-- table, is `none`.
unfoldable pub call :
    (ℕ → Option CacheOp)
    → Bool
    → ℤ
    → List ℕ
    → CallServer
    → CacheClient
    → CallFlags
    → Option CallResult
call stale dirty duration argv server c flags = c.cmd >>= λ j. get_elem? server.table j >>= λ cmd.
    call_queued stale (call_one dirty duration argv server c (call_flags server c flags) j cmd)
