-- ===== src/Server/Process.antt =====
-- src/cache.c: processCommand. The replies and the calls of parts that are not in the repository
-- (flagTransaction, getNodeByQuery, freeMemoryIfNeeded) are recorded or their answers are members of
-- the server record. The function has no return and no call of the command at its end.
pub mod Admitted
use Prim.Native.String.{String}
use text.Mathlib.Text.{◌==◌ as str_eq}
use jmeter_on_k8s.Prelude.{
  ℕ, zero, suc, Bool, true, false, ◌&&◌, ◌||◌, not, Option, none, some, List, [], ◌∷◌, ◌++◌, ◌==◌,
  ltb, if◌then◌else◌, ◌>>=◌, get_elem?, get_or, bit_and,
}
use jmeter_on_k8s.Prelude.Int.{ℤ, pos, negsuc}
use jmeter_on_k8s.Libc.{tolower, same_ignoring_case}
use jmeter_on_k8s.Server.Client.{ClientFlags, CacheClient}
use jmeter_on_k8s.Server.CmdFlag
use jmeter_on_k8s.Server.Command.{CacheCommand, codes}
use jmeter_on_k8s.Server.Command.Populate.{Commands, lookup_command}
use jmeter_on_k8s.Server.Keys.{KeyText}

pub data Reply : Type 0 where
  ok unknown_command wrong_arguments noauth redirect_down redirect_node oom bgsave_error aof_error :
      Reply
  noreplicas readonly_slave pubsub_only masterdown loading_dataset slow_script : Reply

-- What one of the tests says: go on, or flagTransaction (if true) and the reply. `fault` is a read
-- through server.lua_caller while it is NULL.
pub data Guard : Type 0 where
  pass : Guard
  refuse : Bool → Reply → Guard
  fault : Guard

-- The members of `server` that processCommand reads, an int or pointer that is only tested as a
-- Bool. `node_is_myself` is the answer of getNodeByQuery, `memory_ok` that of freeMemoryIfNeeded.
pub record ProcessServer : Type 0 where
  pub requirepass : Bool
  pub cluster_enabled : Bool
  pub cluster_ok : Bool
  pub node_is_myself : Bool
  pub lua_caller : Option ClientFlags
  pub maxmemory : Bool
  pub memory_ok : Bool
  pub stop_writes_on_bgsave_err : Bool
  pub saveparamslen : ℕ
  pub lastbgsave_ok : Bool
  pub aof_last_write_ok : Bool
  pub masterhost : Bool
  pub repl_min_slaves_to_write : ℕ
  pub repl_min_slaves_max_lag : ℕ
  pub repl_good_slaves_count : ℕ
  pub repl_slave_ro : Bool
  pub repl_connected : Bool
  pub repl_serve_stale_data : Bool
  pub loading : Bool
  pub lua_timeout : Bool

-- c->cmd->flags & bit
abbrev pub has : CacheCommand → ℕ → Bool
has cmd bit = not (bit_and cmd.flags bit == 0)

abbrev pub is_proc : CacheCommand → String → Bool
is_proc cmd f = str_eq cmd.proc f

-- (arity > 0 && arity != argc) || argc < -arity
unfoldable pub wrong_arity : ℤ → ℕ → Bool
wrong_arity (pos n) argc = ltb 0 n && not (n == argc)
wrong_arity (negsuc n) argc = ltb argc (suc n)

-- tolower(((char *) c->argv[1]->ptr)[0]), for an argument that is there
abbrev pub first_letter : CacheClient → ℕ
first_letter c = tolower (get_or (get_or c.argv 1 []) 0 0)

module _ (server : ProcessServer) (c : CacheClient) (cmd : CacheCommand) where
  abbrev pub auth_guard : Guard
  auth_guard =
      if server.requirepass && not c.authenticated && not (is_proc cmd "authCommand")
      then refuse true noauth
      else pass

  abbrev pub keyless : Bool
  keyless = elim cmd.getkeys_proc [
    | none ↦ elim cmd.firstkey [ pos n ↦ n == 0 | negsuc n ↦ false ]
    | some f ↦ false
  ]

  abbrev pub node_guard : Guard
  node_guard =
      if not server.cluster_ok
      then refuse true redirect_down
      else if not server.node_is_myself
      then refuse true redirect_node
      else pass

  abbrev pub cluster_guard : Guard
  cluster_guard =
      if server.cluster_enabled && not c.flags.master
      then elim c.flags.lua_client [
        | false ↦ if keyless then pass else node_guard
        | true ↦ elim server.lua_caller [
          | none ↦ fault
          | some caller ↦ if caller.master || keyless then pass else node_guard
        ]
      ]
      else pass

  abbrev pub memory_guard : Guard
  memory_guard =
      if server.maxmemory && has cmd CmdFlag.denyoom && not server.memory_ok
      then refuse true oom
      else pass

  abbrev pub disk_guard : Guard
  disk_guard =
      if (server.stop_writes_on_bgsave_err && ltb 0 server.saveparamslen && not server.lastbgsave_ok
          || not server.aof_last_write_ok)
        && not server.masterhost
        && (has cmd CmdFlag.write || is_proc cmd "pingCommand")
      then refuse true (if server.aof_last_write_ok then bgsave_error else aof_error)
      else pass

  abbrev pub replicas_guard : Guard
  replicas_guard =
      if not server.masterhost
        && not (server.repl_min_slaves_to_write == 0)
        && not (server.repl_min_slaves_max_lag == 0)
        && has cmd CmdFlag.write
        && ltb server.repl_good_slaves_count server.repl_min_slaves_to_write
      then refuse true noreplicas
      else pass

  abbrev pub readonly_guard : Guard
  readonly_guard =
      if server.masterhost && server.repl_slave_ro && not c.flags.master && has cmd CmdFlag.write
      then refuse false readonly_slave
      else pass

  abbrev pub pubsub_guard : Guard
  pubsub_guard =
      if c.flags.pubsub
        && not (is_proc cmd "pingCommand")
        && not (is_proc cmd "subscribeCommand")
        && not (is_proc cmd "unsubscribeCommand")
        && not (is_proc cmd "psubscribeCommand")
        && not (is_proc cmd "punsubscribeCommand")
      then refuse false pubsub_only
      else pass

  abbrev pub stale_guard : Guard
  stale_guard =
      if server.masterhost
        && not server.repl_connected
        && not server.repl_serve_stale_data
        && not (has cmd CmdFlag.stale)
      then refuse true masterdown
      else pass

  abbrev pub loading_guard : Guard
  loading_guard =
      if server.loading && not (has cmd CmdFlag.loading) then refuse false loading_dataset else pass

  -- 10 is '\n'.
  abbrev pub script_guard : Guard
  script_guard =
      if server.lua_timeout
        && not (is_proc cmd "authCommand")
        && not (is_proc cmd "replconfCommand")
        && not (is_proc cmd "shutdownCommand" && (c.argc == 2) && (first_letter c == 10))
        && not (is_proc cmd "scriptCommand" && (c.argc == 2) && (first_letter c == b'k'))
      then refuse true slow_script
      else pass

-- The tests run one after the other, up to the first that does not pass.
unfoldable pub run_guards : List Guard → Guard
run_guards [] = pass
run_guards (pass ∷ gs) = run_guards gs
run_guards (refuse flag r ∷ gs) = refuse flag r
run_guards (fault ∷ gs) = fault

-- The tests behind the lookup, in their order.
unfoldable pub process_guards : ProcessServer → CacheClient → CacheCommand → Guard
process_guards server c cmd = run_guards (
    auth_guard server c cmd
    ∷ cluster_guard server c cmd
    ∷ memory_guard server c cmd
    ∷ disk_guard server c cmd
    ∷ replicas_guard server c cmd
    ∷ readonly_guard server c cmd
    ∷ pubsub_guard server c cmd
    ∷ stale_guard server c cmd
    ∷ loading_guard server c cmd
    ∷ script_guard server c cmd
    ∷ [])

-- How the call ends: with CACHE_ERR and +OK after QUIT, with CACHE_OK and a reply, or at the end of
-- the body with nothing returned.
pub data Outcome : Type 0 where
  quits : Outcome
  refuses : Bool → Reply → Outcome
  falls_off : Outcome

abbrev pub outcome_of : Guard → Option Outcome
outcome_of pass = some falls_off
outcome_of (refuse flag r) = some (refuses flag r)
outcome_of fault = none

-- The part behind the lookup, for the row that it found.
unfoldable pub process_found : ProcessServer → CacheClient → Option CacheCommand → Option Outcome
process_found server c none = some (refuses true unknown_command)
process_found server c (some cmd) =
    if wrong_arity cmd.arity c.argc
    then some (refuses true wrong_arguments)
    else outcome_of (process_guards server c cmd)

-- `name` is c->argv[0]->ptr, a text without a NUL. The result has the client and the dict of the
-- commands after its rehash step.
unfoldable pub process_command :
    ℕ
    → List CacheCommand
    → Commands
    → ProcessServer
    → CacheClient
    → KeyText
    → Option (Outcome × CacheClient × Commands)
process_command seed table commands server c name =
    if same_ignoring_case name.text (codes "quit")
    then some (quits, record c { flags = record (c.flags) { close_after_reply = true } }, commands)
    else (lookup_command seed commands name >>= λ (cmd, commands').
        process_found server c (cmd >>= get_elem? table) >>= λ outcome.
        some (outcome, record c { cmd = cmd; lastcmd = cmd }, commands'))
