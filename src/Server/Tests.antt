-- ===== src/Server/Tests.antt =====
-- The theorems on the server core of src/cache.c at concrete inputs.
use jmeter_on_k8s.Prelude.{
  ℕ, Option, ◌+◌, ◌≡◌, refl, true, false, ◌&&◌, ◌||◌, not, none, some, List, [], ◌∷◌, ◌++◌, arith,
  if◌then◌else◌, get_elem?,
}
use jmeter_on_k8s.Prelude.Int.{pos, negsuc}
use jmeter_on_k8s.Dict.{dict_create}
use jmeter_on_k8s.Server.Client.{ClientFlags, CacheClient}
use jmeter_on_k8s.Server.Command.{CacheCommand, codes, command}
use jmeter_on_k8s.Server.Command.Lookup.{populate_command_table_lem}
use jmeter_on_k8s.Server.Command.Populate.{
  sds_new, Commands, populate_command_table, lookup_command,
}
use jmeter_on_k8s.Server.Command.Populate.Correct.{decode_rows}
use jmeter_on_k8s.Server.Command.Populate.Index.{index_of}
use jmeter_on_k8s.Server.Command.Table.{cache_command_table}
use jmeter_on_k8s.Server.Keys.{KeyText}
use jmeter_on_k8s.Server.Process.{ProcessServer, pass, run_guards, process_guards}
use jmeter_on_k8s.Server.Process.Admitted.{
  is_pass, admits, authorised, disk_is_fine, replicas_are_enough, process_guards_lem,
  process_guards-write,
}
use jmeter_on_k8s.Server.Propagate.{
  PropagateFlags, CallFlags, CacheOp, CacheOpArray, Feed, append_only_file, slaves, CallServer,
  count_call, CallResult, call,
}
use jmeter_on_k8s.Server.Propagate.Correct.{call_lem, call-also_propagate, keep, to_file}

abbrev get_name : KeyText
get_name = sds_new (codes "GeT")

populate_command_table_lem_example :
    (table' : List CacheCommand) × (commands orig_commands commands' orig_commands' : Commands)
    × (populate_command_table 5381 true 0 cache_command_table dict_create dict_create
        ≡ some (table', commands, orig_commands))
    × (decode_rows cache_command_table ≡ some table')
    × (lookup_command 5381 commands get_name
        ≡ some (index_of 0 cache_command_table get_name, commands'))
    × (lookup_command 5381 orig_commands get_name
        ≡ some (index_of 0 cache_command_table get_name, orig_commands'))
populate_command_table_lem_example = populate_command_table_lem 5381 (omega arith) true 0 get_name

abbrev quiet : ClientFlags
quiet = record {
  slave = false;
  master = false;
  monitor = false;
  multi = false;
  blocked = false;
  dirty_cas = false;
  close_after_reply = false;
  unblocked = false;
  lua_client = false;
  asking = false;
  close_asap = false;
  unix_socket = false;
  dirty_exec = false;
  master_force_reply = false;
  force_aof = false;
  force_repl = true;
  pre_psync = false;
  readonly = false;
  pubsub = false;
}

abbrev set_command : CacheCommand
set_command = record (command "set" "setCommand" (negsuc 2) "wm" 0 none (pos 1) (pos 1) (pos 1)) {
  flags = 5;
}

abbrev setter : CacheClient
setter = record {
  flags = quiet;
  authenticated = true;
  cmd = some 0;
  lastcmd = some 0;
  argv = codes "set" ∷ codes "k" ∷ codes "v" ∷ [];
  argc = 3;
  db = 0;
}

abbrev call_server : CallServer
call_server = record {
  loading = false;
  aof_on = true;
  lua_caller = none;
  also_propagate = record { ops = []; num_ops = 0 };
  stat_numcommands = 7;
  table = set_command ∷ [];
}

abbrev full_call : CallFlags
full_call = record { slowlog = true; stats = true; propagate = true }

-- Reading through the pointer that nothing sets faults.
abbrev no_stale : ℕ → Option CacheOp
no_stale n = none

call_lem_example :
    (r : CallResult) × (call no_stale true (pos 12) (1 ∷ 2 ∷ 3 ∷ []) call_server setter full_call
      ≡ some r)
    × (r.client ≡ setter)
    × (r.server.stat_numcommands ≡ 7 + 1)
    × (get_elem? r.server.table 0
        ≡ some
            (if true && not (false && false) then count_call set_command (pos 12) else set_command))
    × (r.feeds
        ≡ (if true && true && true then append_only_file 0 0 (1 ∷ 2 ∷ 3 ∷ []) 3 ∷ [] else [])
          ++ (if true && (true || true) then slaves 0 0 (1 ∷ 2 ∷ 3 ∷ []) 3 ∷ [] else []))
call_lem_example =
    call_lem no_stale true (pos 12) (1 ∷ 2 ∷ 3 ∷ []) call_server setter full_call 0 set_command refl
      refl refl

abbrev to_both : PropagateFlags
to_both = record { aof = true; repl = true; other = false }

abbrev one_op : CacheOpArray
one_op = record {
  ops = record { cmd = 0; db_id = 0; argv = []; argc = 0; target = to_both } ∷ [];
  num_ops = 1;
}

-- What the pointer that nothing sets happens to point to.
abbrev stale_op : CacheOp
stale_op = record { cmd = 3; db_id = 0; argv = 9 ∷ []; argc = 1; target = to_both }

stale_reads : (k : ℕ) → (op : CacheOp) × (some stale_op ≡ some op)
stale_reads k = (stale_op, refl)

abbrev queue_server : CallServer
queue_server = record call_server { also_propagate = one_op }

call-also_propagate_example :
    (r : CallResult) × (queued : List Feed) × (call
        (λ n. some stale_op)
        true
        (pos 12)
        []
        queue_server
        setter
        full_call
      ≡ some r)
    × (r.feeds ≡ (append_only_file 0 0 [] 3 ∷ slaves 0 0 [] 3 ∷ []) ++ queued)
    × (keep to_file queued ≡ append_only_file 0 0 [] 0 ∷ [])
    × (keep (λ f. not (to_file f)) queued ≡ slaves 0 0 [] 0 ∷ [])
    × (r.server.also_propagate.num_ops ≡ 0)
call-also_propagate_example =
    call-also_propagate (λ n. some stale_op) true (pos 12) [] queue_server setter full_call 0
      set_command refl refl refl (ground arith) stale_reads

abbrev process_server : ProcessServer
process_server = record {
  requirepass = true;
  cluster_enabled = false;
  cluster_ok = true;
  node_is_myself = true;
  lua_caller = none;
  maxmemory = true;
  memory_ok = true;
  stop_writes_on_bgsave_err = true;
  saveparamslen = 3;
  lastbgsave_ok = true;
  aof_last_write_ok = true;
  masterhost = false;
  repl_min_slaves_to_write = 1;
  repl_min_slaves_max_lag = 10;
  repl_good_slaves_count = 2;
  repl_slave_ro = true;
  repl_connected = false;
  repl_serve_stale_data = true;
  loading = false;
  lua_timeout = false;
}

process_guards_lem_example :
    is_pass (process_guards process_server setter set_command)
    ≡ admits process_server setter set_command
process_guards_lem_example = process_guards_lem process_server setter set_command

through : process_guards process_server setter set_command ≡ pass
unfolding process_guards run_guards
through = refl

process_guards-write_example :
    (authorised process_server setter set_command ≡ true)
    × ((false && true && not false) ≡ false)
    × ((false
          || disk_is_fine process_server setter set_command
            && replicas_are_enough process_server setter set_command)
        ≡ true)
process_guards-write_example = process_guards-write process_server setter set_command through refl
