-- ===== src/Server/Limits.antt =====
-- adjustOpenFilesLimit of src/cache.c. setrlimit is the test `allowed` of the limit that is asked
-- for, getrlimit the limit it gives or `none` for its failure.
use jmeter_on_k8s.Prelude.{
  ℕ, zero, suc, ◌+◌, ◌-◌, ◌*◌, ◌%◌, ◌^◌, ◌<◌, ◌≤◌, ◌≡◌, refl, sym, ap, ◌∙◌, Bool, true, false, ◌⊎◌,
  inl, inr, Option, none, some, ltb, leb, Bool-cases, if◌then◌else◌, ◌>>=◌, arith,
}

abbrev pub min_reserved_fds : ℕ
min_reserved_fds = 32

-- The new server.maxclients, or the end of the program.
pub data Adjusted : Type 0 where
  maxclients : ℕ → Adjusted
  exits : Adjusted

-- The loop over bestlimit, on fuel: `none` when the fuel runs out.
unfoldable pub best_limit : (ℕ → Bool) → ℕ → ℕ → ℕ → Option ℕ
best_limit allowed old_limit zero best = none
best_limit allowed old_limit (suc fuel) best =
    let lower = best_limit allowed old_limit fuel (best - 16) in
    if leb best old_limit
    then some best
    else if allowed best
    then some best
    else if ltb best 16
    then some best
    else lower

-- bestlimit is an rlim_t of 64 bits, server.maxclients an unsigned int of 32.
unfoldable pub reduce_maxclients : ℕ → Adjusted
reduce_maxclients best =
    let clients = (best + 2 ^ 64 - min_reserved_fds) % 2 ^ 32 in
    if ltb clients 1 then exits else maxclients clients

abbrev pub at_least : ℕ → ℕ → ℕ
at_least old_limit best = if ltb best old_limit then old_limit else best

unfoldable pub adjust_open_files_limit : (ℕ → Bool) → Option ℕ → ℕ → ℕ → Option Adjusted
adjust_open_files_limit allowed none fuel clients = some (maxclients (1024 - min_reserved_fds))
adjust_open_files_limit allowed (some old_limit) fuel clients =
    let maxfiles = (clients + min_reserved_fds) % 2 ^ 32 in
    if ltb old_limit maxfiles
    then (best_limit allowed old_limit fuel maxfiles >>= λ best.
        let best' = at_least old_limit best in
        some (if ltb best' maxfiles then reduce_maxclients best' else maxclients clients))
    else some (maxclients clients)

-- What the loop leaves: a limit that was allowed, or one that is in force already, or one too low for
-- the reserved files.
best_limit_lem :
    (allowed : ℕ → Bool) (old_limit fuel best : ℕ)
    → best < fuel * 16
    → (r : ℕ) × (best_limit allowed old_limit fuel best ≡ some r)
      × (r ≤ best)
      × ((allowed r ≡ true) ⊎ ((r ≤ old_limit) ⊎ (r < 16)))
unfolding best_limit
best_limit_lem allowed old_limit zero best enough = absurd (omega (arith, enough))
best_limit_lem allowed old_limit (suc fuel) best enough = elim (Bool-cases (leb best old_limit)) [
  | inl in_force ↦ (best, rw in_force refl, omega arith, inr (inl (ground arith)))
  | inr in_force ↦ elim (Bool-cases (allowed best)) [
    | inl granted ↦ (best, rw in_force (rw granted refl), omega arith, inl granted)
    | inr granted ↦ elim (Bool-cases (ltb best 16)) [
      | inl low ↦
          (best, rw in_force (rw granted (rw low refl)), omega arith, inr (inr (ground arith)))
      | inr low ↦
          let (r, run, below, why) =
            best_limit_lem allowed old_limit fuel (best - 16) (ground arith) in
          (r, rw in_force (rw granted (rw low run)), omega (arith, below), why)
    ]
  ]
]

at_least_lem :
    (allowed : ℕ → Bool) (old_limit best : ℕ)
    → 32 ≤ old_limit
    → (allowed best ≡ true) ⊎ ((best ≤ old_limit) ⊎ (best < 16))
    → (old_limit ≤ at_least old_limit best)
      × ((allowed (at_least old_limit best) ≡ true) ⊎ (at_least old_limit best ≤ old_limit))
at_least_lem allowed old_limit best room why = elim (Bool-cases (ltb best old_limit)) [
  | inl e ↦ rw e (omega arith, inr (omega arith))
  | inr e ↦ rw e (
    ground arith,
    elim why [
      | inl granted ↦ inl granted
      | inr (inl below) ↦ inr below
      | inr (inr tiny) ↦ absurd (ground arith)
    ],
  )
]

reduce_maxclients_lem :
    (best : ℕ) → 32 < best → best < 2 ^ 32 → reduce_maxclients best ≡ maxclients (best - 32)
unfolding reduce_maxclients
reduce_maxclients_lem best more small =
    let e : (best + 2 ^ 64 - 32) % 2 ^ 32 ≡ best - 32 = omega (arith, more, small) in
    let f : ltb (best - 32) 1 ≡ false = ground arith in rw (e, f) refl

reduce_maxclients-wraps :
    (best : ℕ) → best < 32 → (m : ℕ) × (reduce_maxclients best ≡ maxclients m) × (2 ^ 32 - 33 < m)
unfolding reduce_maxclients
reduce_maxclients-wraps best low =
    let e : (best + 2 ^ 64 - 32) % 2 ^ 32 ≡ 2 ^ 32 + best - 32 = omega (arith, low) in
    let f : ltb (2 ^ 32 + best - 32) 1 ≡ false = ground arith in
    (2 ^ 32 + best - 32, rw (e, f) refl, omega (arith, low))

-- The run of adjustOpenFilesLimit behind the loop.
adjust_run :
    (allowed : ℕ → Bool) (old_limit fuel clients best : ℕ)
    → clients + 32 < 2 ^ 32
    → ltb old_limit (clients + 32) ≡ true
    → best_limit allowed old_limit fuel (clients + 32) ≡ some best
    → adjust_open_files_limit allowed (some old_limit) fuel clients
      ≡ some (
          if ltb (at_least old_limit best) (clients + 32)
          then reduce_maxclients (at_least old_limit best)
          else maxclients clients)
unfolding adjust_open_files_limit
adjust_run allowed old_limit fuel clients best small e run =
    let fits : (clients + 32) % 2 ^ 32 ≡ clients + 32 = omega (arith, small) in
    rw fits (rw (e, run, ◌>>=◌) refl)

-- The last test of adjustOpenFilesLimit, on a limit that is not below the one in force.
reduced :
    (allowed : ℕ → Bool) (old_limit clients best : ℕ) (run : Option Adjusted)
    → 32 ≤ old_limit
    → clients + 32 < 2 ^ 32
    → old_limit ≤ best
    → best ≤ clients + 32
    → run ≡ some (if ltb best (clients + 32) then reduce_maxclients best else maxclients clients)
    → (allowed best ≡ true) ⊎ (best ≤ old_limit)
    → ((run ≡ some exits) × (old_limit ≡ 32))
      ⊎ ((m : ℕ) × (run ≡ some (maxclients m))
          × (m ≤ clients)
          × ((m + 32 ≤ old_limit) ⊎ (allowed (m + 32) ≡ true)))
unfolding reduce_maxclients
reduced allowed old_limit clients best run room small more below ran why =
    elim (Bool-cases (ltb best (clients + 32))) [
      | inr e ↦
          let same : best ≡ clients + 32 = ground arith in
          inr (
            clients,
            ran ∙ rw e refl,
            omega arith,
            elim why [
              | inl granted ↦ inr (ap allowed (sym same) ∙ granted)
              | inr in_force ↦ inl (omega (arith, same, in_force))
            ],
          )
      | inl e ↦ elim (Bool-cases (ltb 32 best)) [
        | inl f ↦
            let same : best - 32 + 32 ≡ best = ground arith in
            inr (
              best - 32,
              ran ∙ rw e (ap some (reduce_maxclients_lem best (ground arith) (ground arith))),
              ground arith,
              elim why [
                | inl granted ↦ inr (ap allowed same ∙ granted)
                | inr in_force ↦ inl (omega (arith, same, in_force))
              ],
            )
        | inr f ↦
            let is_32 : best ≡ 32 = ground arith in inl (ran ∙ rw e (rw is_32 refl), ground arith)
      ]
    ]

-- adjustOpenFilesLimit, where the limit in force leaves room for the reserved files, ends: either the
-- limit in force is exactly the reserved files and the program exits, or server.maxclients is at most
-- what was asked for and a limit that the system allowed, or that was in force, covers that many
-- clients and the reserved files.
pub adjust_open_files_limit_lem :
    (allowed : ℕ → Bool) (old_limit fuel clients : ℕ)
    → 32 ≤ old_limit
    → clients + 32 < 2 ^ 32
    → clients + 32 < fuel * 16
    → ((adjust_open_files_limit allowed (some old_limit) fuel clients ≡ some exits)
        × (old_limit ≡ 32))
      ⊎ ((m : ℕ) × (adjust_open_files_limit allowed (some old_limit) fuel clients
            ≡ some (maxclients m))
          × (m ≤ clients)
          × ((m + 32 ≤ old_limit) ⊎ (allowed (m + 32) ≡ true)))
unfolding adjust_open_files_limit
adjust_open_files_limit_lem allowed old_limit fuel clients room small enough =
    let fits : (clients + 32) % 2 ^ 32 ≡ clients + 32 = omega (arith, small) in
    elim (Bool-cases (ltb old_limit (clients + 32))) [
      | inr e ↦ inr (clients, rw fits (rw e refl), omega arith, inl (ground arith))
      | inl e ↦
          let (best, run, below, why) =
            best_limit_lem allowed old_limit fuel (clients + 32) enough in
          let ran = adjust_run allowed old_limit fuel clients best small e run in
          let (more, why') = at_least_lem allowed old_limit best room why in
          reduced allowed old_limit clients (at_least old_limit best) _ room small more
            (ground arith) ran why'
    ]

bools_differ : ¬ (true ≡ false)
bools_differ e = cc e

-- Where the limit in force is below the reserved files, and the system grants no limit of the reserved
-- files or more, there are more than 2 ^ 32 - 33 clients afterwards, since the difference wraps around:
-- the program does not exit.
pub adjust_open_files_limit-wraps :
    (allowed : ℕ → Bool) (old_limit fuel clients : ℕ)
    → old_limit < 32
    → ((n : ℕ) → 32 ≤ n → allowed n ≡ false)
    → clients + 32 < 2 ^ 32
    → 0 < clients
    → clients + 32 < fuel * 16
    → (m : ℕ) × (adjust_open_files_limit allowed (some old_limit) fuel clients
        ≡ some (maxclients m))
      × (2 ^ 32 - 33 < m)
adjust_open_files_limit-wraps allowed old_limit fuel clients low refused small any enough =
    let (best, run, below, why) = best_limit_lem allowed old_limit fuel (clients + 32) enough in
    let e : ltb old_limit (clients + 32) ≡ true = ground arith in
    let ran = adjust_run allowed old_limit fuel clients best small e run in
    let tiny : best < 32 = elim why [
      | inl granted ↦ elim (Bool-cases (leb 32 best)) [
        | inl l ↦ absurd (bools_differ (sym granted ∙ refused best (ground arith)))
        | inr g ↦ ground arith
      ]
      | inr (inl x) ↦ omega arith
      | inr (inr x) ↦ omega arith
    ] in
    let b : at_least old_limit best < 32 = ground arith in
    let (m, is_m, big) = reduce_maxclients-wraps (at_least old_limit best) b in
    let f : ltb (at_least old_limit best) (clients + 32) ≡ true = ground arith in
    (m, ran ∙ rw f (ap some is_m), big)
