-- ===== src/Server/Process/Admitted.antt =====
-- Which commands get through processCommand of src/cache.c.
use jmeter_on_k8s.Prelude.{
  ◌≡◌, refl, sym, ap, ◌∙◌, Bool, true, false, ◌&&◌, ◌||◌, not, none, some, List, [], ◌∷◌, ◌==◌, leb,
  if◌then◌else◌, arith,
}
use jmeter_on_k8s.Server.Client.{CacheClient}
use jmeter_on_k8s.Server.CmdFlag
use jmeter_on_k8s.Server.Command.{CacheCommand}
use jmeter_on_k8s.Server.Process.{
  Guard, pass, refuse, fault, ProcessServer, has, is_proc, first_letter, keyless, auth_guard,
  cluster_guard, memory_guard, disk_guard, replicas_guard, readonly_guard, pubsub_guard,
  stale_guard, loading_guard, script_guard, run_guards, process_guards,
}

abbrev pub is_pass : Guard → Bool
is_pass pass = true
is_pass (refuse flag r) = false
is_pass fault = false

-- Whether every test of a list passes.
all_pass : List Guard → Bool
all_pass [] = true
all_pass (g ∷ gs) = is_pass g && all_pass gs

is_pass-run_guards : (gs : List Guard) → is_pass (run_guards gs) ≡ all_pass gs
unfolding run_guards all_pass
is_pass-run_guards [] = refl
is_pass-run_guards (pass ∷ gs) = is_pass-run_guards gs
is_pass-run_guards (refuse flag r ∷ gs) = refl
is_pass-run_guards (fault ∷ gs) = refl

and_assoc : (a b c r : Bool) → (a && (b && (c && r))) ≡ ((a && b && c) && r)
and_assoc a b c r = ground arith

regroup :
    (a a' b b' m m' d r o w g p p' s s' l l' t t' : Bool)
    → a ≡ a'
    → b ≡ b'
    → m ≡ m'
    → (d && r && o) ≡ (w && g)
    → p ≡ p'
    → s ≡ s'
    → l ≡ l'
    → t ≡ t'
    → (a && (b && (m && (d && (r && (o && (p && (s && (l && (t && true))))))))))
      ≡ (a' && b' && m' && w && g && p' && s' && l' && t')
regroup a a' b b' m m' d r o w g p p' s s' l l' t t' ea eb em ew ep es el et =
    rw (and_assoc d r o (p && (s && (l && (t && true)))), ea, eb, em, ew, ep, es, el, et)
      (ground arith)

module _ (server : ProcessServer) (c : CacheClient) (cmd : CacheCommand) where
  -- The client may speak.
  abbrev pub authorised : Bool
  authorised = not server.requirepass || c.authenticated || is_proc cmd "authCommand"

  -- The keys are served here: no cluster, a master's command, no keys, or this node's slot.
  abbrev pub here_or_keyless : Bool
  here_or_keyless = keyless server c cmd || server.cluster_ok && server.node_is_myself

  abbrev pub served_here : Bool
  served_here = not server.cluster_enabled || c.flags.master || elim c.flags.lua_client [
    | false ↦ here_or_keyless
    | true ↦ elim server.lua_caller [
      | none ↦ false
      | some caller ↦ caller.master || here_or_keyless
    ]
  ]

  -- The last writes reached the disk, or nothing depends on it.
  abbrev pub disk_is_fine : Bool
  disk_is_fine =
      server.aof_last_write_ok
      && (server.lastbgsave_ok || server.saveparamslen == 0 || not server.stop_writes_on_bgsave_err)

  -- There are as many good slaves as a write wants.
  abbrev pub replicas_are_enough : Bool
  replicas_are_enough =
      leb server.repl_min_slaves_to_write server.repl_good_slaves_count
      || server.repl_min_slaves_max_lag == 0

  -- Of the commands that subscribe or unsubscribe, and PING.
  abbrev pub fits_pubsub : Bool
  fits_pubsub =
      is_proc cmd "pingCommand"
      || is_proc cmd "subscribeCommand"
      || is_proc cmd "unsubscribeCommand"
      || is_proc cmd "psubscribeCommand"
      || is_proc cmd "punsubscribeCommand"

  -- AUTH, REPLCONF, and the forms of SHUTDOWN and SCRIPT that the test names.
  abbrev pub fits_slow_script : Bool
  fits_slow_script =
      is_proc cmd "authCommand"
      || is_proc cmd "replconfCommand"
      || is_proc cmd "shutdownCommand" && (c.argc == 2) && (first_letter c == 10)
      || is_proc cmd "scriptCommand" && (c.argc == 2) && (first_letter c == b'k')

  -- What a master's data asks of a command that writes.
  abbrev pub write_is_allowed : Bool
  write_is_allowed =
      if server.masterhost
      then c.flags.master || not server.repl_slave_ro
      else disk_is_fine && replicas_are_enough

  abbrev pub ping_is_allowed : Bool
  ping_is_allowed = server.masterhost || disk_is_fine

  -- The state of the server allows the command.
  unfoldable pub admits : Bool
  admits =
      authorised
      && served_here
      && (not server.maxmemory || server.memory_ok || not (has cmd CmdFlag.denyoom))
      && (write_is_allowed || not (has cmd CmdFlag.write))
      && (ping_is_allowed || not (is_proc cmd "pingCommand"))
      && (not c.flags.pubsub || fits_pubsub)
      && (not server.masterhost
          || server.repl_connected
          || server.repl_serve_stale_data
          || has cmd CmdFlag.stale)
      && (not server.loading || has cmd CmdFlag.loading)
      && (not server.lua_timeout || fits_slow_script)

  auth_passes : is_pass (auth_guard server c cmd) ≡ authorised
  auth_passes = ground arith

  cluster_passes : is_pass (cluster_guard server c cmd) ≡ served_here
  cluster_passes = ground arith

  memory_passes :
      is_pass (memory_guard server c cmd)
      ≡ (not server.maxmemory || server.memory_ok || not (has cmd CmdFlag.denyoom))
  memory_passes = ground arith

  -- The three tests of writes together.
  writes_pass :
      (is_pass (disk_guard server c cmd)
        && is_pass (replicas_guard server c cmd)
        && is_pass (readonly_guard server c cmd))
      ≡ ((write_is_allowed || not (has cmd CmdFlag.write))
          && (ping_is_allowed || not (is_proc cmd "pingCommand")))
  writes_pass = ground arith

  pubsub_passes : is_pass (pubsub_guard server c cmd) ≡ (not c.flags.pubsub || fits_pubsub)
  pubsub_passes = ground arith

  stale_passes : is_pass (stale_guard server c cmd) ≡ (
      not server.masterhost
      || server.repl_connected
      || server.repl_serve_stale_data
      || has cmd CmdFlag.stale)
  stale_passes = ground arith

  loading_passes :
      is_pass (loading_guard server c cmd) ≡ (not server.loading || has cmd CmdFlag.loading)
  loading_passes = ground arith

  script_passes : is_pass (script_guard server c cmd) ≡ (not server.lua_timeout || fits_slow_script)
  script_passes = ground arith

  -- The tests behind the lookup let a command through exactly when the state of the server admits it.
  pub process_guards_lem : is_pass (process_guards server c cmd) ≡ admits
  unfolding process_guards all_pass admits
  process_guards_lem =
      is_pass-run_guards (
        auth_guard server c cmd
        ∷ cluster_guard server c cmd
        ∷ memory_guard server c cmd
        ∷ disk_guard server c cmd
        ∷ replicas_guard server c cmd
        ∷ readonly_guard server c cmd
        ∷ pubsub_guard server c cmd
        ∷ stale_guard server c cmd
        ∷ loading_guard server c cmd
        ∷ script_guard server c cmd
        ∷ [])
      ∙ regroup (is_pass (auth_guard server c cmd)) authorised
          (is_pass (cluster_guard server c cmd)) served_here (is_pass (memory_guard server c cmd))
          (not server.maxmemory || server.memory_ok || not (has cmd CmdFlag.denyoom))
          (is_pass (disk_guard server c cmd)) (is_pass (replicas_guard server c cmd))
          (is_pass (readonly_guard server c cmd)) (write_is_allowed || not (has cmd CmdFlag.write))
          (ping_is_allowed || not (is_proc cmd "pingCommand")) (is_pass (pubsub_guard server c cmd))
          (not c.flags.pubsub || fits_pubsub) (is_pass (stale_guard server c cmd))
          (not server.masterhost
            || server.repl_connected
            || server.repl_serve_stale_data
            || has cmd CmdFlag.stale)
          (is_pass (loading_guard server c cmd)) (not server.loading || has cmd CmdFlag.loading)
          (is_pass (script_guard server c cmd)) (not server.lua_timeout || fits_slow_script)
          auth_passes cluster_passes memory_passes writes_pass pubsub_passes stale_passes
          loading_passes script_passes

  -- A command that writes and gets through: the client is authorised; if the server has a masterhost
  -- and is a read-only slave, the client is the master; if it has no masterhost, its disk is fine and
  -- it has enough slaves.
  pub process_guards-write :
      process_guards server c cmd ≡ pass
      → has cmd CmdFlag.write ≡ true
      → (authorised ≡ true)
        × ((server.masterhost && server.repl_slave_ro && not c.flags.master) ≡ false)
        × ((server.masterhost || disk_is_fine && replicas_are_enough) ≡ true)
  unfolding admits
  process_guards-write h w =
      let ok : admits ≡ true = sym process_guards_lem ∙ ap is_pass h in
      (ground (arith, ok, w), ground (arith, ok, w), ground (arith, ok, w))
