-- ===== src/Dict/Expand/Grow.antt =====
-- dictExpand and _dictExpandIfNeeded keep the dictionary, and leave a first table to use.
use jmeter_on_k8s.Prelude.{
  ℕ, ◌+◌, ◌*◌, ◌/◌, ◌%◌, ◌^◌, ◌≤◌, ◌<◌, ◌≡◌, ◌⊎◌, inl, inr, refl, sym, ap, ◌∙◌, Bool, true, false,
  ◌||◌, none, some, List, [], ◌∷◌, arith, length, leb, ltb, ◌==◌, Bool-cases, Option-cases,
  if◌then◌else◌, ==_iff, length-replicate, get_or-replicate,
}
use jmeter_on_k8s.Dict.{DictEntry, Chain, DictType, DictHt, Dict}
use jmeter_on_k8s.Dict.Chain.{chain_find}
use jmeter_on_k8s.Dict.Expand.{new_table, is_null, dict_expand, expand_if_needed}
use jmeter_on_k8s.Dict.Expand.Power.{next_power_lem, le-mul-pow}
use jmeter_on_k8s.Dict.Rehash.Correct.{ht_view-none_of_unused}
use jmeter_on_k8s.Dict.Table.{total, total-replicate, ht_view, IsHt}
use jmeter_on_k8s.Dict.Valid.{IsValid, view}

-- Tables whose indices are ints, and whose number of entries is far from that.
abbrev pub Fits {ℓ} : {K V : Type ℓ} → Dict K V → Type 0
Fits d = (d.ht0.used + d.ht1.used < 2 ^ 29) × (d.ht0.size < 2 ^ 31) × (d.ht1.size < 2 ^ 31)

module _ {ℓ} {K V : Type ℓ} (ty : DictType K V) where
  new_table-IsHt : (n : ℕ) → 0 < n → n < 2 ^ 60 → IsHt ty (new_table n)
  unfolding chain_find
  new_table-IsHt n pos small =
      let e : n * 8 % 2 ^ 64 / 8 ≡ n = omega arith in
      record {
        width = rw e (length-replicate n []);
        mask = ground arith;
        counted = rw e (total-replicate (DictEntry K V) n);
        placed = λ q i h. rw get_or-replicate refl;
        distinct = λ i. rw get_or-replicate tt;
      }

  is_null_cases :
      (t : List (Chain K V))
      → ((is_null t ≡ true) × (length t ≡ 0)) ⊎ ((is_null t ≡ false) × (0 < length t))
  is_null_cases [] = inl (refl, refl)
  is_null_cases (c ∷ t) = inr (refl, omega arith)

  pub unused_of_null : (t : DictHt K V) → IsHt ty t → length t.table ≡ 0 → t.used ≡ 0
  unfolding total
  unused_of_null t v h = sym v.counted ∙ total_of_null t.table h
    where
      total_of_null : (l : List (Chain K V)) → length l ≡ 0 → total l ≡ 0
      total_of_null [] h = refl
      total_of_null (c ∷ l) h = absurd (omega arith)

  -- The table that dictExpand installs, on a dict that is not rehashing.
  installed : ℕ → Dict K V → Dict K V
  installed n d =
      if is_null d.ht0.table
      then record d { ht0 = new_table n }
      else record d { ht1 = new_table n; rehashidx = some 0 }

  -- A dict with a first table to use, and the entries of another one.
  pub record Grown (d d' : Dict K V) : Type ℓ where
    pub valid : IsValid ty d'
    pub reads : (q : K) → view ty d' q ≡ view ty d q
    pub size : d'.ht0.used + d'.ht1.used ≡ d.ht0.used + d.ht1.used
    pub iterators : d'.iterators ≡ d.iterators
    pub ready : 0 < d'.ht0.size

  module _ (n : ℕ) (d : Dict K V) (ok : IsValid ty d) (at : d.rehashidx ≡ none) (pos : 0 < n)
      (small : n < 2 ^ 60) where
    no_second : d.ht1.used ≡ 0
    no_second = ap (λ (t : DictHt K V). t.used) (ok.idle at)

    new_view : (q : K) → ht_view ty (new_table n) q ≡ none
    new_view q = ht_view-none_of_unused ty (new_table n) q (new_table-IsHt n pos small) refl

    old_second : (q : K) → ht_view ty d.ht1 q ≡ none
    old_second q = ht_view-none_of_unused ty d.ht1 q ok.second no_second

    installed-first : length d.ht0.table ≡ 0 → Grown d (record d { ht0 = new_table n })
    unfolding view
    installed-first null =
        let unused = unused_of_null d.ht0 ok.first null in
        record {
          valid = record {
            first = new_table-IsHt n pos small;
            second = ok.second;
            apart = λ q. inl (new_view q);
            idle = ok.idle;
            busy = λ i h. ground arith;
            small = omega (arith, ok.small);
          };
          reads = λ q. rw (new_view q, ht_view-none_of_unused ty d.ht0 q ok.first unused) refl;
          size = omega arith;
          iterators = refl;
          ready = pos;
        }

    pub installed-second :
        0 < length d.ht0.table → Grown d (record d { ht1 = new_table n; rehashidx = some 0 })
    unfolding view
    installed-second there = record {
      valid = record {
        first = ok.first;
        second = new_table-IsHt n pos small;
        apart = λ q. inr (new_view q);
        idle = λ h. ground arith;
        busy = λ i h.
            let e : 0 ≡ i = ground arith in
            (omega (arith, ok.first.width), pos, rw (← e) ok.first.counted);
        small = omega (arith, ok.small);
      };
      reads = λ q. rw (new_view q, old_second q) refl;
      size = omega (arith, no_second);
      iterators = refl;
      ready = omega (arith, ok.first.width);
    }

    installed-Grown : Grown d (installed n d)
    unfolding installed
    installed-Grown = elim (is_null_cases d.ht0.table) [
      | inl (null, z) ↦ rw null (installed-first z)
      | inr (there, p) ↦ rw there (installed-second p)
    ]

  pub dict_expand_lem :
      (d : Dict K V) (size : ℕ)
      → IsValid ty d
      → Fits d
      → d.rehashidx ≡ none
      → d.ht0.used ≤ size
      → d.ht0.size < size
      → size ≤ 2 ^ 30
      → (d' : Dict K V) × (dict_expand d size ≡ some (true, d')) × Grown d d' × Fits d'
  unfolding dict_expand installed
  dict_expand_lem d size ok fits at le lt small = elim (next_power_lem size) [
    | inr (big, e) ↦ absurd (omega arith)
    | inl (h, (r, run, dbl)) ↦
        let four : 4 ≤ r = omega (arith, dbl.power, le-mul-pow 4 dbl.k) in
        let bound : r < 2 ^ 31 = ground (arith, dbl.least) in
        (
          installed r d,
          ground (arith, run),
          installed-Grown r d ok at (omega arith) (omega arith),
          ground arith,
        )
  ]

  -- On a well-formed dict of tables that an int can index, _dictExpandIfNeeded does not fail: it
  -- keeps every entry, and there is a first table afterwards.
  pub expand_if_needed_lem :
      (can_resize : Bool) (d : Dict K V)
      → IsValid ty d
      → Fits d
      → (d' : Dict K V) × (expand_if_needed can_resize d ≡ some (true, d')) × Grown d d' × Fits d'
  unfolding expand_if_needed
  expand_if_needed_lem can_resize d ok fits = elim (Option-cases d.rehashidx) [
    | inr (i, at) ↦ (
      d,
      ground arith,
      record {
        valid = ok;
        reads = λ q. refl;
        size = refl;
        iterators = refl;
        ready = (ok.busy i at).0;
      },
      fits,
    )
    | inl at ↦
        let none_used : d.ht0.size ≡ 0 → d.ht0.used ≡ 0 =
          λ z. unused_of_null d.ht0 ok.first (ok.first.width ∙ z) in
        elim (Bool-cases (d.ht0.size == 0)) [
          | inl z ↦
              let empty : d.ht0.size ≡ 0 = (==_iff d.ht0.size 0).0 z in
              let unused = none_used empty in
              let (d', run, grown, fits') =
                dict_expand_lem d 4 ok fits at (omega arith) (omega arith) (omega arith) in
              (d', ground (arith, run), grown, fits')
          | inr nz ↦ elim (Bool-cases (leb d.ht0.size d.ht0.used)) [
            | inr room ↦ (d, ground arith, stay nz, fits)
            | inl full ↦ elim (Bool-cases (can_resize || ltb 5 (d.ht0.used / d.ht0.size))) [
              | inr keep ↦ (d, ground arith, stay nz, fits)
              | inl go ↦
                  let le : d.ht0.size ≤ d.ht0.used = ground arith in
                  let pos : 0 < d.ht0.size = ground arith in
                  let (d', run, grown, fits') =
                    dict_expand_lem d (d.ht0.used * 2 % 2 ^ 64) ok fits at (omega arith)
                      (omega arith) (omega arith) in
                  (d', ground (arith, run), grown, fits')
            ]
          ]
        ]
  ]
    where
      stay : (d.ht0.size == 0) ≡ false → Grown d d
      stay nz = record {
        valid = ok;
        reads = λ q. refl;
        size = refl;
        iterators = refl;
        ready = ground arith;
      }
