-- ===== src/Server/Cron/Databases/Correct.antt =====
-- The resizing loop of databaseCron in src/cache.c keeps the databases.
use jmeter_on_k8s.Prelude.{
  ℕ, zero, suc, ◌+◌, ◌%◌, ◌^◌, ◌<◌, ◌≡◌, refl, sym, ap, ◌∙◌, Bool, some, List, [], ◌∷◌, ◌>>=◌,
  length, get_elem?, set, Bool-cases, Option-cases, inl, inr, arith,
}
use mathlib.Core.Logic.{Lift}
use native.Mathlib.Nat.{mod-lt}
use jmeter_on_k8s.Dict.{DictType, Dict, DictHt}
use jmeter_on_k8s.Dict.Expand.Grow.{Fits}
use jmeter_on_k8s.Dict.Expand.Resize.{dict_resize_lem}
use jmeter_on_k8s.Dict.Valid.{IsValid, view}
use jmeter_on_k8s.Server.Cron.Databases.{
  CacheDb, ht_needs_resize, resize_if_sparse, try_resize_hash_tables, resize_loop,
}

module _ {ℓ} {K O T : Type ℓ} (ty : DictType K O) (ety : DictType K T) where
  -- Both tables are valid and of a size that an int can index.
  pub record IsGood (db : CacheDb K O T) : Type ℓ where
    pub dict_valid : IsValid ty db.dict
    pub dict_fits : Fits db.dict
    pub expires_valid : IsValid ety db.expires
    pub expires_fits : Fits db.expires

  -- Both tables have the same entries.
  pub record HasSame (db db' : CacheDb K O T) : Type ℓ where
    pub dict_reads : (k : K) → view ty db'.dict k ≡ view ty db.dict k
    pub expires_reads : (k : K) → view ety db'.expires k ≡ view ety db.expires k

  abbrev pub AreGood : List (CacheDb K O T) → Type ℓ
  AreGood [] = Unit
  AreGood (db ∷ dbs) = IsGood db × AreGood dbs

  abbrev pub HaveSame : List (CacheDb K O T) → List (CacheDb K O T) → Type ℓ
  HaveSame [] [] = Unit
  HaveSame [] (db' ∷ dbs') = Lift ⊥
  HaveSame (db ∷ dbs) [] = Lift ⊥
  HaveSame (db ∷ dbs) (db' ∷ dbs') = HasSame db db' × HaveSame dbs dbs'

resize_if_sparse_lem {ℓ} :
    {K V : Type ℓ} (ty : DictType K V) (can_resize : Bool) (d : Dict K V)
    → IsValid ty d
    → Fits d
    → (d' : Dict K V) × (resize_if_sparse can_resize d ≡ some d')
      × IsValid ty d'
      × Fits d'
      × ((k : K) → view ty d' k ≡ view ty d k)
unfolding ht_needs_resize
resize_if_sparse_lem ty can_resize d ok fits = elim (Bool-cases (ht_needs_resize d)) [
  | inr dense ↦ (d, rw dense refl, ok, fits, λ k. refl)
  | inl sparse ↦
      let sized : 0 < d.ht0.size = elim (Option-cases d.rehashidx) [
        | inr (i, busy) ↦ (ok.busy i busy).0
        | inl idle ↦
            let none1 = ap (λ (t : DictHt _ _). t.size) (ok.idle idle) in
            ground (arith, sparse, none1)
      ] in
      let (b, d', run, res) = dict_resize_lem ty can_resize d ok fits sized in
      (d', rw sparse (rw (run, ◌>>=◌) refl), res.grown.valid, res.fits, res.grown.reads)
]

module _ {ℓ} {K O T : Type ℓ} (ty : DictType K O) (ety : DictType K T) where
  HaveSame-refl : (dbs : List (CacheDb K O T)) → HaveSame ty ety dbs dbs
  HaveSame-refl [] = tt
  HaveSame-refl (db ∷ dbs) =
      (record { dict_reads = λ k. refl; expires_reads = λ k. refl }, HaveSame-refl dbs)

  HaveSame-trans :
      (a b c : List (CacheDb K O T))
      → HaveSame ty ety a b
      → HaveSame ty ety b c
      → HaveSame ty ety a c
  HaveSame-trans [] [] [] p q = tt
  HaveSame-trans [] [] (z ∷ c) p q = q
  HaveSame-trans [] (y ∷ b) c p q = absurd p.lower
  HaveSame-trans (x ∷ a) [] c p q = absurd p.lower
  HaveSame-trans (x ∷ a) (y ∷ b) [] p q = q
  HaveSame-trans (x ∷ a) (y ∷ b) (z ∷ c) (p, ps) (q, qs) = (
    record {
      dict_reads = λ k. q.dict_reads k ∙ p.dict_reads k;
      expires_reads = λ k. q.expires_reads k ∙ p.expires_reads k;
    },
    HaveSame-trans a b c ps qs,
  )

  -- One database is written over by one that is as good and has the same entries.
  replace_one :
      (dbs : List (CacheDb K O T)) (i : ℕ)
      → AreGood ty ety dbs
      → i < length dbs
      → (db : CacheDb K O T) × (get_elem? dbs i ≡ some db)
        × IsGood ty ety db
        × ((db' : CacheDb K O T)
            → IsGood ty ety db'
            → HasSame ty ety db db'
            → AreGood ty ety (set dbs i db')
              × HaveSame ty ety dbs (set dbs i db')
              × (length (set dbs i db') ≡ length dbs))
  replace_one [] i ok h = absurd (omega (arith, h))
  replace_one (db ∷ dbs) zero (ok, oks) h =
      (db, refl, ok, λ db' good same. ((good, oks), (same, HaveSame-refl dbs), refl))
  replace_one (db ∷ dbs) (suc i) (ok, oks) h =
      let (x, at, good, write) = replace_one dbs i oks (omega (arith, h)) in
      (
        x,
        at,
        good,
        λ db' good' same.
            let (g, s, n) = write db' good' same in
            ((ok, g), (record { dict_reads = λ k. refl; expires_reads = λ k. refl }, s), ap suc n),
      )

  try_resize_hash_tables_lem :
      (can_resize : Bool) (dbs : List (CacheDb K O T)) (i : ℕ)
      → AreGood ty ety dbs
      → i < length dbs
      → (dbs' : List (CacheDb K O T)) × (try_resize_hash_tables can_resize dbs i ≡ some dbs')
        × AreGood ty ety dbs'
        × HaveSame ty ety dbs dbs'
        × (length dbs' ≡ length dbs)
  unfolding try_resize_hash_tables
  try_resize_hash_tables_lem can_resize dbs i ok h =
      let (db, at, good, write) = replace_one dbs i ok h in
      let (d, run1, ok1, fits1, same1) =
        resize_if_sparse_lem ty can_resize db.dict good.dict_valid good.dict_fits in
      let (e, run2, ok2, fits2, same2) =
        resize_if_sparse_lem ety can_resize db.expires good.expires_valid good.expires_fits in
      let (g, s, n) =
        write (record { dict = d; expires = e })
          (record {
            dict_valid = ok1;
            dict_fits = fits1;
            expires_valid = ok2;
            expires_fits = fits2;
          })
          (record { dict_reads = same1; expires_reads = same2 }) in
      (
        set dbs i (record { dict = d; expires = e }),
        rw (at, ◌>>=◌) (rw (run1, ◌>>=◌) (rw (run2, ◌>>=◌) refl)),
        g,
        s,
        n,
      )

  -- The resizing loop of databaseCron, whatever resize_db it starts with, on at least one database,
  -- all with valid tables of a size that an int can index: no access is a bad one,
  -- each table stays valid, and each database has the entries that it had.
  pub resize_loop_lem :
      (can_resize : Bool) (n : ℕ) (dbs : List (CacheDb K O T)) (resize_db : ℕ)
      → 0 < length dbs
      → AreGood ty ety dbs
      → (dbs' : List (CacheDb K O T)) × (resize_db' : ℕ) × (resize_loop can_resize
            (length dbs)
            n
            dbs
            resize_db
          ≡ some (dbs', resize_db'))
        × AreGood ty ety dbs'
        × HaveSame ty ety dbs dbs'
  unfolding resize_loop
  resize_loop_lem can_resize zero dbs resize_db some_db ok =
      (dbs, resize_db, refl, ok, HaveSame-refl dbs)
  resize_loop_lem can_resize (suc n) dbs resize_db some_db ok =
      let (dbs1, run1, ok1, same1, len) =
        try_resize_hash_tables_lem can_resize dbs (resize_db % length dbs) ok
          (mod-lt resize_db some_db) in
      let (dbs2, next, run2, ok2, same2) =
        resize_loop_lem can_resize n dbs1 ((resize_db + 1) % 2 ^ 32) (omega (arith, some_db, len))
          ok1 in
      (
        dbs2,
        next,
        rw (run1, ◌>>=◌)
            (ap (λ m. resize_loop can_resize m n dbs1 ((resize_db + 1) % 2 ^ 32)) (sym len) ∙ run2),
        ok2,
        HaveSame-trans dbs dbs1 dbs2 same1 same2,
      )
