-- ===== src/Server/Propagate/Correct.antt =====
-- What call and the array of operations of src/cache.c do.
use jmeter_on_k8s.Prelude.{
  ℕ, ◌+◌, ◌≡◌, ◌≢◌, refl, ap, ◌∙◌, Bool, true, false, ◌&&◌, ◌||◌, not, Bool-cases, inl, inr, map,
  Option, some, List, [], ◌∷◌, ◌++◌, if◌then◌else◌, ◌>>=◌, arith, length, take, get_elem?, set,
  zero, suc, length-append, ◌==◌,
}
use jmeter_on_k8s.Prelude.Int.{ℤ}
use jmeter_on_k8s.Server.Client.{CacheClient}
use jmeter_on_k8s.Server.Command.{CacheCommand}
use jmeter_on_k8s.Server.Propagate.{
  PropagateFlags, CallFlags, Feed, Release, release_op, propagate_ops, free_ops, CacheOp,
  CacheOpArray, cache_op_array_append, cache_op_array_free, append_only_file, slaves, propagate,
  CallServer, call_flags, count_call, CallResult, call_one, call_queued, call,
}

take-all {ℓ} : {A : Type ℓ} (xs : List A) → take (length xs) xs ≡ xs
take-all [] = refl
take-all (x ∷ xs) = ap (λ l. x ∷ l) (take-all xs)

-- On an array whose counter is the number of its entries, cacheOpArrayAppend puts the operation
-- behind them, counts it, and returns the new counter, which is again the number of the entries.
pub cache_op_array_append_lem :
    (oa : CacheOpArray) (cmd dbid : ℕ) (argv : List ℕ) (argc : ℕ) (target : PropagateFlags)
    → oa.num_ops ≡ length oa.ops
    → (oa' : CacheOpArray) × (cache_op_array_append oa cmd dbid argv argc target
        ≡ (oa', oa'.num_ops))
      × (oa'.ops
          ≡ oa.ops
            ++ record { cmd = cmd; db_id = dbid; argv = argv; argc = argc; target = target } ∷ [])
      × (oa'.num_ops ≡ length oa'.ops)
unfolding cache_op_array_append
cache_op_array_append_lem oa cmd dbid argv argc target h =
    let op : CacheOp = record {
      cmd = cmd;
      db_id = dbid;
      argv = argv;
      argc = argc;
      target = target;
    } in
    let kept : take oa.num_ops oa.ops ≡ oa.ops = ap (λ n. take n oa.ops) h ∙ take-all oa.ops in
    (
      (cache_op_array_append oa cmd dbid argv argc target).0,
      refl,
      ap (λ l. l ++ op ∷ []) kept,
      rw kept (omega (arith, length-append oa.ops (op ∷ []))),
    )

get_elem?-set_found :
    {A : Type 0} (t : List A) (j : ℕ) (a b : A)
    → get_elem? t j ≡ some a
    → get_elem? (set t j b) j ≡ some b
get_elem?-set_found [] j a b h = ground (arith, h)
get_elem?-set_found (x ∷ t) zero a b h = refl
get_elem?-set_found (x ∷ t) (suc j) a b h = get_elem?-set_found t j a b h

counted_row :
    (stats quiet : Bool) (t : List CacheCommand) (j : ℕ) (a b : CacheCommand)
    → get_elem? t j ≡ some a
    → get_elem? (if stats && not quiet then set t j b else t) j
      ≡ some (if stats && not quiet then b else a)
counted_row true true t j a b h = h
counted_row true false t j a b h = get_elem?-set_found t j a b h
counted_row false quiet t j a b h = h

stats_of_call_flags :
    (server : CallServer) (c : CacheClient) (flags : CallFlags)
    → (call_flags server c flags).stats
      ≡ (flags.stats && not (server.loading && c.flags.lua_client))
stats_of_call_flags server c flags = ground arith

propagate_of_call_flags :
    (server : CallServer) (c : CacheClient) (flags : CallFlags)
    → (call_flags server c flags).propagate ≡ flags.propagate
propagate_of_call_flags server c flags = ground arith

-- The feeds as a function of the flags.
sent :
    (p aof dirty repl other : Bool) (j db argc : ℕ) (argv : List ℕ)
    → (if p && not (not (dirty || (repl || dirty) || other))
        then propagate aof j db argv argc
            (record { aof = dirty; repl = repl || dirty; other = other })
        else [])
      ≡ (if p && dirty && aof then append_only_file j db argv argc ∷ [] else [])
        ++ (if p && (dirty || repl) then slaves j db argv argc ∷ [] else [])
unfolding propagate
sent false aof dirty repl other j db argc argv = refl
sent true aof true true other j db argc argv = ground arith
sent true aof true false other j db argc argv = ground arith
sent true aof false true other j db argc argv = ground arith
sent true aof false false other j db argc argv = ground arith

-- With no queued operations and a command of the table, call does not fault, whatever the
-- uninitialised variables hold. The flags of the client are as before, the command counter goes up
-- by one, and the row counts a call exactly when statistics are asked for, which a script of a
-- loading server cannot. With CACHE_CALL_PROPAGATE the command is sent to the append-only file
-- exactly if `dirty` is not 0 and the file is on, and to the slaves exactly if `dirty` is not 0 or
-- the client forces it.
pub call_lem :
    (stale : ℕ → Option CacheOp) (dirty : Bool) (duration : ℤ) (argv : List ℕ) (server : CallServer)
    (c : CacheClient) (flags : CallFlags) (j : ℕ) (cmd : CacheCommand)
    → c.cmd ≡ some j
    → get_elem? server.table j ≡ some cmd
    → server.also_propagate.num_ops ≡ 0
    → (r : CallResult) × (call stale dirty duration argv server c flags ≡ some r)
      × (r.client ≡ c)
      × (r.server.stat_numcommands ≡ server.stat_numcommands + 1)
      × (get_elem? r.server.table j
          ≡ some (
              if flags.stats && not (server.loading && c.flags.lua_client)
              then count_call cmd duration
              else cmd))
      × (r.feeds
          ≡ (if flags.propagate && dirty && server.aof_on
              then append_only_file j c.db argv c.argc ∷ []
              else [])
            ++ (if flags.propagate && (dirty || c.flags.force_repl)
                then slaves j c.db argv c.argc ∷ []
                else []))
unfolding call call_queued call_one
call_lem stale dirty duration argv server c flags j cmd e row idle =
    let flags' = call_flags server c flags in
    (
      call_one dirty duration argv server c flags' j cmd,
      rw (e, ◌>>=◌) (rw (row, ◌>>=◌) (rw idle refl)),
      refl,
      refl,
      rw (stats_of_call_flags server c flags) (
          counted_row flags.stats (server.loading && c.flags.lua_client) server.table j cmd
            (count_call cmd duration) row),
      rw (propagate_of_call_flags server c flags) (
          sent flags.propagate server.aof_on dirty c.flags.force_repl c.flags.force_aof j c.db
            c.argc argv),
    )

abbrev pub to_file : Feed → Bool
to_file (append_only_file j db argv argc) = true
to_file (slaves j db argv argc) = false

abbrev pub keep : (Feed → Bool) → List Feed → List Feed
keep p [] = []
keep p (f ∷ fs) = if p f then f ∷ keep p fs else keep p fs

abbrev pub aimed : (CacheOp → Bool) → List CacheOp → List CacheOp
aimed p [] = []
aimed p (op ∷ ops) = if p op then op ∷ aimed p ops else aimed p ops

abbrev pub file_feed : CacheOp → Feed
file_feed op = append_only_file op.cmd op.db_id op.argv op.argc

abbrev pub slaves_feed : CacheOp → Feed
slaves_feed op = slaves op.cmd op.db_id op.argv op.argc

keep-append : (p : Feed → Bool) (xs ys : List Feed) → keep p (xs ++ ys) ≡ keep p xs ++ keep p ys
keep-append p [] ys = refl
keep-append p (x ∷ xs) ys = elim (Bool-cases (p x)) [
  | inl y ↦ rw y (ap (λ l. x ∷ l) (keep-append p xs ys))
  | inr n ↦ rw n (keep-append p xs ys)
]

-- What one operation sends to the append-only file, and to the slaves.
keep-file :
    (aof_on aof repl : Bool) (cmd db argc : ℕ) (argv : List ℕ) (other : Bool)
    → keep to_file
        (propagate aof_on cmd db argv argc (record { aof = aof; repl = repl; other = other }))
      ≡ (if aof_on && aof then append_only_file cmd db argv argc ∷ [] else [])
unfolding propagate
keep-file aof_on aof repl cmd db argc argv other = elim (Bool-cases (aof_on && aof)) [
  | inl f ↦ elim (Bool-cases repl) [ inl r ↦ rw (f, r) refl | inr r ↦ rw (f, r) refl ]
  | inr f ↦ elim (Bool-cases repl) [ inl r ↦ rw (f, r) refl | inr r ↦ rw (f, r) refl ]
]

keep-slaves :
    (aof_on aof repl : Bool) (cmd db argc : ℕ) (argv : List ℕ) (other : Bool)
    → keep
        (λ f. not (to_file f))
        (propagate aof_on cmd db argv argc (record { aof = aof; repl = repl; other = other }))
      ≡ (if repl then slaves cmd db argv argc ∷ [] else [])
unfolding propagate
keep-slaves aof_on aof repl cmd db argc argv other = elim (Bool-cases (aof_on && aof)) [
  | inl f ↦ elim (Bool-cases repl) [ inl r ↦ rw (f, r) refl | inr r ↦ rw (f, r) refl ]
  | inr f ↦ elim (Bool-cases repl) [ inl r ↦ rw (f, r) refl | inr r ↦ rw (f, r) refl ]
]

keep-propagate_ops-file :
    (ops : List CacheOp)
    → keep to_file (propagate_ops true ops) ≡ map file_feed (aimed (λ op. op.target.aof) ops)
unfolding propagate_ops
keep-propagate_ops-file [] = refl
keep-propagate_ops-file (op ∷ ops) =
    keep-append to_file (propagate true op.cmd op.db_id op.argv op.argc op.target)
      (propagate_ops true ops)
    ∙ ap (λ l. l ++ keep to_file (propagate_ops true ops))
        (keep-file true op.target.aof op.target.repl op.cmd op.db_id op.argc op.argv
          op.target.other)
    ∙ elim (Bool-cases op.target.aof) [
      | inl y ↦ rw y (ap (λ l. file_feed op ∷ l) (keep-propagate_ops-file ops))
      | inr n ↦ rw n (keep-propagate_ops-file ops)
    ]

keep-propagate_ops-off : (ops : List CacheOp) → keep to_file (propagate_ops false ops) ≡ []
unfolding propagate_ops
keep-propagate_ops-off [] = refl
keep-propagate_ops-off (op ∷ ops) =
    keep-append to_file (propagate false op.cmd op.db_id op.argv op.argc op.target)
      (propagate_ops false ops)
    ∙ ap (λ l. l ++ keep to_file (propagate_ops false ops))
        (keep-file false op.target.aof op.target.repl op.cmd op.db_id op.argc op.argv
          op.target.other)
    ∙ keep-propagate_ops-off ops

keep-propagate_ops-slaves :
    (aof_on : Bool) (ops : List CacheOp)
    → keep (λ f. not (to_file f)) (propagate_ops aof_on ops)
      ≡ map slaves_feed (aimed (λ op. op.target.repl) ops)
unfolding propagate_ops
keep-propagate_ops-slaves aof_on [] = refl
keep-propagate_ops-slaves aof_on (op ∷ ops) =
    keep-append (λ f. not (to_file f)) (propagate aof_on op.cmd op.db_id op.argv op.argc op.target)
      (propagate_ops aof_on ops)
    ∙ ap (λ l. l ++ keep (λ f. not (to_file f)) (propagate_ops aof_on ops))
        (keep-slaves aof_on op.target.aof op.target.repl op.cmd op.db_id op.argc op.argv
          op.target.other)
    ∙ elim (Bool-cases op.target.repl) [
      | inl y ↦ rw y (ap (λ l. slaves_feed op ∷ l) (keep-propagate_ops-slaves aof_on ops))
      | inr n ↦ rw n (keep-propagate_ops-slaves aof_on ops)
    ]

free_ops-total :
    (stale : ℕ → Option CacheOp) (n : ℕ)
    → ((k : ℕ) → (op : CacheOp) × (stale k ≡ some op))
    → (released : List Release) × (free_ops stale n ≡ some released)
unfolding free_ops
free_ops-total stale zero reads = ([], refl)
free_ops-total stale (suc n) reads =
    let (op, e) = reads n in
    let (released, rest) = free_ops-total stale n reads in
    (release_op op ++ released, rw (e, ◌>>=◌) (rw (rest, ◌>>=◌) refl))

-- With queued operations, whose counter is the number of the entries, and where reading through the
-- pointer of cacheOpArrayFree that nothing sets does not fault: call first sends what it sends for
-- the command itself, then, of the queued operations in their order, to the append-only file those
-- that aim at it, if it is on, and to the slaves those that aim at them; and the queue is empty.
pub call-also_propagate :
    (stale : ℕ → Option CacheOp) (dirty : Bool) (duration : ℤ) (argv : List ℕ) (server : CallServer)
    (c : CacheClient) (flags : CallFlags) (j : ℕ) (cmd : CacheCommand)
    → c.cmd ≡ some j
    → get_elem? server.table j ≡ some cmd
    → server.also_propagate.num_ops ≡ length server.also_propagate.ops
    → server.also_propagate.num_ops ≢ 0
    → ((k : ℕ) → (op : CacheOp) × (stale k ≡ some op))
    → (r : CallResult) × (queued : List Feed) × (call stale dirty duration argv server c flags
        ≡ some r)
      × (r.feeds
          ≡ ((if flags.propagate && dirty && server.aof_on
                then append_only_file j c.db argv c.argc ∷ []
                else [])
              ++ (if flags.propagate && (dirty || c.flags.force_repl)
                  then slaves j c.db argv c.argc ∷ []
                  else []))
            ++ queued)
      × (keep to_file queued ≡ (
          if server.aof_on
          then map file_feed (aimed (λ op. op.target.aof) server.also_propagate.ops)
          else []))
      × (keep (λ f. not (to_file f)) queued
          ≡ map slaves_feed (aimed (λ op. op.target.repl) server.also_propagate.ops))
      × (r.server.also_propagate.num_ops ≡ 0)
unfolding call call_queued call_one cache_op_array_free
call-also_propagate stale dirty duration argv server c flags j cmd e row counted busy reads =
    let oa = server.also_propagate in
    let one = call_one dirty duration argv server c (call_flags server c flags) j cmd in
    let (released, run) = free_ops-total stale oa.num_ops reads in
    let nz : (oa.num_ops == 0) ≡ false = ground (arith, busy) in
    let all : take oa.num_ops oa.ops ≡ oa.ops = ap (λ n. take n oa.ops) counted ∙ take-all oa.ops in
    (
      record one {
        server = record (one.server) { also_propagate = record { ops = []; num_ops = 0 } };
        feeds = one.feeds ++ propagate_ops server.aof_on (take oa.num_ops oa.ops);
        released = released;
      },
      propagate_ops server.aof_on (take oa.num_ops oa.ops),
      rw (e, ◌>>=◌) (rw (row, ◌>>=◌) (rw nz (rw (run, ◌>>=◌) refl))),
      ap (λ l. l ++ propagate_ops server.aof_on (take oa.num_ops oa.ops))
          (rw (propagate_of_call_flags server c flags) (
            sent flags.propagate server.aof_on dirty c.flags.force_repl c.flags.force_aof j c.db
              c.argc argv)),
      rw all (elim (Bool-cases server.aof_on) [
        | inl on ↦ rw on (keep-propagate_ops-file oa.ops)
        | inr off ↦ rw off (keep-propagate_ops-off oa.ops)
      ]),
      rw all (keep-propagate_ops-slaves server.aof_on oa.ops),
      refl,
    )
