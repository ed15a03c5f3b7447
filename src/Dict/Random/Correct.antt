-- ===== src/Dict/Random/Correct.antt =====
-- An entry that dictGetRandomKey of src/dict.c returns is one of the dict.
use mathlib.Core.Option.{or_else, some-injective}
use mathlib.Core.Path.{subst}
use native.Mathlib.Nat.{mod-lt}
use jmeter_on_k8s.Prelude.{
  ℕ, zero, suc, ◌+◌, ◌-◌, ◌%◌, ◌<◌, ◌≤◌, ◌^◌, ◌≡◌, refl, sym, ap, ◌∙◌, ◌⊎◌, inl, inr, Bool, true,
  false, none, some, List, [], ◌∷◌, ◌==◌, ◌>>=◌, length, get_elem?, get_or, bit_and, Bool-cases,
  Option-cases, leb, ltb, ◌&&◌, ◌||◌, arith,
}
use jmeter_on_k8s.Prelude.Bits.{bit_and-le}
use jmeter_on_k8s.Dict.{DictEntry, Chain, DictType, DictHt, Dict, slot, compare_keys, dict_size}
use jmeter_on_k8s.Dict.Chain.{IsLawful, IsDistinct, chain_find}
use jmeter_on_k8s.Dict.Table.{IsHt, ht_view, total, length-le-total}
use jmeter_on_k8s.Dict.Valid.{IsValid, view}
use jmeter_on_k8s.Dict.Rehash.Bucket.{get_or_of_some, Rehashed}
use jmeter_on_k8s.Dict.Rehash.Correct.{step_if_rehashing_lem}
use jmeter_on_k8s.Dict.Rehash.{step_if_rehashing}
use jmeter_on_k8s.Dict.Random.{look_at, busy_bucket, idle_bucket, draw_bucket, dict_get_random_key}

get_elem?-some {ℓ} :
    {A : Type ℓ} (xs : List A) (i : ℕ) → i < length xs → (x : A) × (get_elem? xs i ≡ some x)
get_elem?-some [] i h = absurd (omega (arith, h))
get_elem?-some (x ∷ xs) zero h = (x, refl)
get_elem?-some (x ∷ xs) (suc i) h = get_elem?-some xs i (omega (arith, h))

not_none : {n : ℕ} → 0 < n → (n == 0) ≡ false
not_none h = ground arith

eq_of_== : (a b : ℕ) → (a == b) ≡ true → a ≡ b
eq_of_== a b h = ground arith

some_not_none {ℓ} : {A : Type ℓ} {a : A} → some a ≡ none → ⊥
some_not_none h = ground arith

module _ {ℓ} {K V : Type ℓ} (ty : DictType K V) (law : IsLawful ty) where
  chain_find-none_of :
      (k : K) (c : Chain K V) (j : ℕ) (e : DictEntry K V)
      → chain_find ty k c ≡ none
      → get_elem? c j ≡ some e
      → compare_keys ty k e.key ≡ false
  unfolding chain_find
  chain_find-none_of k [] j e f at = absurd (ground arith)
  chain_find-none_of k (x ∷ c) zero e f at =
      let same = some-injective x e at in
      ap (λ y. compare_keys ty k y.key) (sym same) ∙ ground (arith, f)
  chain_find-none_of k (x ∷ c) (suc j) e f at = chain_find-none_of k c j e (ground (arith, f)) at

  chain_find-get_elem? :
      (c : Chain K V) (j : ℕ) (e : DictEntry K V)
      → IsDistinct ty c
      → get_elem? c j ≡ some e
      → chain_find ty e.key c ≡ some e
  unfolding chain_find
  chain_find-get_elem? [] j e d at = absurd (ground arith)
  chain_find-get_elem? (x ∷ c) zero e d at =
      let same = some-injective x e at in
      rw (ap (λ y. compare_keys ty e.key y.key) same ∙ law.compare_refl e.key) at
  chain_find-get_elem? (x ∷ c) (suc j) e (f, d) at =
      let other = chain_find-none_of x.key c j e f at in
      let differs : compare_keys ty e.key x.key ≡ false =
        ground (arith, other, law.compare_symm e.key x.key) in
      rw differs (chain_find-get_elem? c j e d at)

  -- An entry in a bucket of a table is what its key stands for.
  ht_view-entry :
      (t : DictHt K V) (i : ℕ) (c : Chain K V) (j : ℕ) (e : DictEntry K V)
      → IsHt ty t
      → get_elem? t.table i ≡ some c
      → get_elem? c j ≡ some e
      → ht_view ty t e.key ≡ some e
  ht_view-entry t i c j e ok at in_c =
      let (is_c, in_t) = get_or_of_some ty t.table i c at in
      let found : chain_find ty e.key (get_or t.table i []) ≡ some e =
        rw is_c (chain_find-get_elem? c j e (subst (IsDistinct ty) is_c (ok.distinct i)) in_c) in
      elim (Bool-cases (slot ty t e.key == i)) [
        | inl here ↦ rw (eq_of_== _ _ here) found
        | inr away ↦
            absurd (some_not_none (sym found ∙ ok.placed e.key i (λ h. ground (arith, h, away))))
      ]

  view-entry :
      (d : Dict K V) (e : DictEntry K V)
      → IsValid ty d
      → (ht_view ty d.ht0 e.key ≡ some e) ⊎ (ht_view ty d.ht1 e.key ≡ some e)
      → view ty d e.key ≡ some e
  unfolding view or_else
  view-entry d e ok (inl at) = rw at refl
  view-entry d e ok (inr at) = elim (ok.apart e.key) [
    | inl none0 ↦ rw none0 at
    | inr none1 ↦ absurd (some_not_none (sym at ∙ none1))
  ]

  -- Every entry of a bucket that a round looks at is what its key stands for.
  look_at-view :
      (d : Dict K V) (r : ℕ) (c : Chain K V) (j : ℕ) (e : DictEntry K V)
      → IsValid ty d
      → look_at d r ≡ some c
      → get_elem? c j ≡ some e
      → view ty d e.key ≡ some e
  look_at-view d r c j e ok at in_c = elim (Option-cases d.rehashidx) [
    | inl idle ↦
        let at' : idle_bucket d r ≡ some c = rw idle at at in
        view-entry d e ok
          (inl (ht_view-entry d.ht0 (bit_and r d.ht0.size_mask % 2 ^ 32) c j e ok.first at' in_c))
    | inr (i, busy) ↦
        let h = (i + r % (d.ht0.size + d.ht1.size - i)) % 2 ^ 32 in
        let at' : busy_bucket d i r ≡ some c = rw busy at at in
        elim (Bool-cases (leb d.ht0.size h)) [
          | inl second ↦
              view-entry d e ok
                (inr (ht_view-entry d.ht1 (h - d.ht0.size) c j e ok.second (rw second at at') in_c))
          | inr first ↦
              view-entry d e ok (inl (ht_view-entry d.ht0 h c j e ok.first (rw first at at') in_c))
        ]
  ]

  -- One of the numbers, and not the last one, leads to a bucket with an entry.
  abbrev pub hits : Dict K V → List ℕ → Bool
  hits d [] = false
  hits d (r ∷ rs) =
      (elim (look_at d r) [ none ↦ false | some c ↦ ltb 0 (length c) ] && ltb 0 (length rs))
      || hits d rs

  abbrev Drawn : Dict K V → List ℕ → Type ℓ
  Drawn d rs =
      (r : ℕ) × (x : DictEntry K V) × (c : Chain K V) × (r' : ℕ) × (rs' : List ℕ) × (draw_bucket d
          rs
        ≡ some (x ∷ c, r' ∷ rs'))
      × (look_at d r ≡ some (x ∷ c))

  next_bucket :
      (d : Dict K V) (r : ℕ) (rs : List ℕ) (c : Chain K V)
      → look_at d r ≡ some c
      → hits d (r ∷ rs) ≡ true
      → (hits d rs ≡ true → Drawn d rs)
      → Drawn d (r ∷ rs)
  unfolding draw_bucket
  next_bucket d r rs [] at h rest =
      let (r1, x, c, r', rs', run, at1) = rest (ground (arith, rw at at h)) in
      (r1, x, c, r', rs', rw (at, ◌>>=◌) run, at1)
  next_bucket d r [] (x ∷ c) at h rest = absurd (ground (arith, rw at at h))
  next_bucket d r (r' ∷ rs) (x ∷ c) at h rest = (r, x, c, r', rs, rw (at, ◌>>=◌) refl, at)

  draw_bucket_lem :
      (d : Dict K V) (rs : List ℕ)
      → ((r : ℕ) → (c : Chain K V) × (look_at d r ≡ some c))
      → hits d rs ≡ true
      → Drawn d rs
  draw_bucket_lem d [] looks h = absurd (ground arith)
  draw_bucket_lem d (r ∷ rs) looks h =
      let (c, at) = looks r in next_bucket d r rs c at h (λ h'. draw_bucket_lem d rs looks h')

  total_nil : (t : List (Chain K V)) → length t ≡ 0 → total t ≡ 0
  unfolding total
  total_nil [] e = refl
  total_nil (c ∷ t) e = absurd (omega (arith, e))

  sized_of_filled :
      (d : Dict K V) → IsValid ty d → d.rehashidx ≡ none → 0 < dict_size d → 0 < d.ht0.size
  sized_of_filled d ok idle filled = elim (Bool-cases (d.ht0.size == 0)) [
    | inr e ↦ ground arith
    | inl e ↦
        let none0 : total d.ht0.table ≡ 0 =
          total_nil d.ht0.table (ok.first.width ∙ eq_of_== d.ht0.size 0 e) in
        let none1 = ap (λ (t : DictHt K V). t.used) (ok.idle idle) in
        absurd (omega (arith, filled, ok.first.counted, none0, none1))
  ]

  -- A dict whose rounds look at buckets: they have numbers of 32 bits, and a rehash is inside the
  -- first table.
  pub record IsDrawable (d : Dict K V) : Type ℓ where
    pub first : d.ht0.size ≤ 2 ^ 31
    pub second : d.ht1.size ≤ 2 ^ 31
    pub inside : (i : ℕ) → d.rehashidx ≡ some i → i < d.ht0.size

  -- Every round looks at a bucket.
  look_at-some :
      (d : Dict K V) (r : ℕ)
      → IsValid ty d
      → 0 < dict_size d
      → IsDrawable d
      → (c : Chain K V) × (look_at d r ≡ some c)
  look_at-some d r ok filled fine = elim (Option-cases d.rehashidx) [
    | inl idle ↦
        let some_size = sized_of_filled d ok idle filled in
        let w = ok.first.width in
        let m = ok.first.mask in
        let small = fine.first in
        let fits : bit_and r d.ht0.size_mask % 2 ^ 32 < length d.ht0.table =
          ground (arith, bit_and-le r d.ht0.size_mask) in
        let (c, at) = get_elem?-some d.ht0.table (bit_and r d.ht0.size_mask % 2 ^ 32) fits in
        (c, rw idle at)
    | inr (i, busy) ↦
        let n = d.ht0.size + d.ht1.size - i in
        let h = (i + r % n) % 2 ^ 32 in
        let inside = fine.inside i busy in
        let below : r % n < n = mod-lt r (omega arith) in
        let here : h < d.ht0.size + d.ht1.size =
          omega (arith, below, inside, fine.first, fine.second) in
        elim (Bool-cases (leb d.ht0.size h)) [
          | inl second ↦
              let (c, at) =
                get_elem?-some d.ht1.table (h - d.ht0.size)
                  (ground (arith, here, ok.second.width)) in
              (c, rw busy (rw second at))
          | inr first ↦
              let (c, at) = get_elem?-some d.ht0.table h (ground (arith, here, ok.first.width)) in
              (c, rw busy (rw first at))
        ]
  ]

  bucket_small :
      (t : DictHt K V) (i : ℕ) (c : Chain K V)
      → IsHt ty t
      → get_elem? t.table i ≡ some c
      → length c ≤ t.used
  bucket_small t i c ok at =
      let (is_c, in_t) = get_or_of_some ty t.table i c at in
      omega (arith, ap length is_c, length-le-total t.table i, ok.counted)

  -- A bucket that a round looks at has no more entries than the dict.
  look_at-small :
      (d : Dict K V) (r : ℕ) (c : Chain K V)
      → IsValid ty d
      → look_at d r ≡ some c
      → length c ≤ d.ht0.used + d.ht1.used
  look_at-small d r c ok at = elim (Option-cases d.rehashidx) [
    | inl idle ↦
        let at' : idle_bucket d r ≡ some c = rw idle at at in
        omega (arith, bucket_small d.ht0 (bit_and r d.ht0.size_mask % 2 ^ 32) c ok.first at')
    | inr (i, busy) ↦
        let h = (i + r % (d.ht0.size + d.ht1.size - i)) % 2 ^ 32 in
        let at' : busy_bucket d i r ≡ some c = rw busy at at in
        elim (Bool-cases (leb d.ht0.size h)) [
          | inl second ↦
              omega (arith, bucket_small d.ht1 (h - d.ht0.size) c ok.second (rw second at at'))
          | inr first ↦ omega (arith, bucket_small d.ht0 h c ok.first (rw first at at'))
        ]
  ]

  -- What is known of the dict behind the step of the rehash.
  stepped : (d d' : Dict K V) → IsValid ty d → step_if_rehashing ty d ≡ some d' → Rehashed ty d d'
  stepped d d' ok run =
      let (d1, run1, out) = step_if_rehashing_lem ty law d ok in
      subst (Rehashed ty d) (some-injective d1 d' (sym run1 ∙ run)) out

  -- dictGetRandomKey on a valid dict that has entries, fewer than 2 ^ 31, rehashing or not: where the
  -- dict behind the step of the rehash has at most 2 ^ 31 buckets in each table, and its rehash, if
  -- any, is inside the first table, and random() leads to a bucket with an entry before the last
  -- number that it gives, it makes no bad access, leaves that dict, which is valid, and the entry that
  -- it returns is the one that the dict had under the entry's key.
  pub dict_get_random_key_lem :
      (d d' : Dict K V) (rs : List ℕ)
      → IsValid ty d
      → 0 < dict_size d
      → d.ht0.used + d.ht1.used < 2 ^ 31
      → step_if_rehashing ty d ≡ some d'
      → IsDrawable d'
      → hits d' rs ≡ true
      → (e : DictEntry K V) × (rs' : List ℕ) × (dict_get_random_key ty d rs
          ≡ some (some e, d', rs'))
        × IsValid ty d'
        × (view ty d e.key ≡ some e)
  unfolding dict_get_random_key
  dict_get_random_key_lem d d' rs ok filled few step fine hit =
      let out = stepped d d' ok step in
      let (r, x, c, r', rs', run, at) =
        draw_bucket_lem d' rs (λ r. look_at-some d' r out.valid (omega (arith, out.size)) fine)
          hit in
      let (e, in_c) = get_elem?-some (x ∷ c) (r' % length (x ∷ c)) (mod-lt r' (omega arith)) in
      let short = look_at-small d' r (x ∷ c) out.valid at in
      let fits : ltb (length (x ∷ c)) (2 ^ 31) ≡ true = ground (arith, short, out.size) in
      (
        e,
        rs',
        rw (not_none filled) (rw (step, ◌>>=◌) (rw (run, ◌>>=◌) (rw fits (rw (in_c, ◌>>=◌) refl)))),
        out.valid,
        sym (out.reads e.key) ∙ look_at-view d' r (x ∷ c) (r' % length (x ∷ c)) e out.valid at in_c,
      )
