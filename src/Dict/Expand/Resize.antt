-- ===== src/Dict/Expand/Resize.antt =====
-- dictResize of src/dict.c keeps the dictionary.
use jmeter_on_k8s.Prelude.{
  ℕ, ◌*◌, ◌^◌, ◌≤◌, ◌<◌, ◌≡◌, ◌⊎◌, inl, inr, refl, Bool, true, false, none, some, List, [], ◌∷◌,
  arith, length, ltb, ◌==◌, Bool-cases, Option-cases,
}
use jmeter_on_k8s.Dict.{Chain, DictType, Dict}
use jmeter_on_k8s.Dict.Expand.{new_table, is_null, dict_expand, dict_resize}
use jmeter_on_k8s.Dict.Expand.Grow.{Fits, Grown, installed-second}
use jmeter_on_k8s.Dict.Expand.Power.{next_power_lem, le-mul-pow}
use jmeter_on_k8s.Dict.Valid.{IsValid}

small_table :
    (r size used : ℕ)
    → (r ≡ 4) ⊎ (r < 2 * size)
    → ((size ≡ 4) × (used < 4)) ⊎ (size ≡ used)
    → (r < 8) ⊎ (r < used * 2)
small_table r size used least which = ground arith

module _ {ℓ} {K V : Type ℓ} (ty : DictType K V) where
  unchanged : (d : Dict K V) → IsValid ty d → 0 < d.ht0.size → Grown ty d d
  unchanged d ok sized = record {
    valid = ok;
    reads = λ q. refl;
    size = refl;
    iterators = refl;
    ready = sized;
  }

  not_null : (t : List (Chain K V)) → 0 < length t → is_null t ≡ false
  not_null [] h = absurd (omega (arith, h))
  not_null (c ∷ t) h = refl

  -- What dictResize does to a dict: it keeps the dictionary, and where it resizes, the second table
  -- is one of at least the entries' number, and of less than twice that number or fewer than eight buckets.
  pub record Resized (d : Dict K V) (answer : Bool) (d' : Dict K V) : Type ℓ where
    pub grown : Grown ty d d'
    pub fits : Fits d'
    pub starts :
        answer ≡ true
        → (d'.rehashidx ≡ some 0)
          × (d'.ht0 ≡ d.ht0)
          × (d.ht0.used ≤ d'.ht1.size)
          × ((d'.ht1.size < 8) ⊎ (d'.ht1.size < d.ht0.used * 2))
    pub refuses : answer ≡ false → d' ≡ d

  still : (d : Dict K V) → IsValid ty d → Fits d → 0 < d.ht0.size → Resized d false d
  still d ok fits sized = record {
    grown = unchanged d ok sized;
    fits = fits;
    starts = λ e. absurd (ground arith);
    refuses = λ e. refl;
  }

  expand_any :
      (d : Dict K V) (size : ℕ)
      → IsValid ty d
      → Fits d
      → d.rehashidx ≡ none
      → 0 < d.ht0.size
      → d.ht0.used ≤ size
      → ((size ≡ 4) × (d.ht0.used < 4)) ⊎ (size ≡ d.ht0.used)
      → (b : Bool) × (d' : Dict K V) × (dict_expand d size ≡ some (b, d')) × Resized d b d'
  unfolding dict_expand
  expand_any d size ok fits at sized le which = elim (next_power_lem size) [
    | inr (big, e) ↦ absurd (ground arith)
    | inl (h, (r, run, dbl)) ↦
        let four : 4 ≤ r = omega (arith, dbl.power, le-mul-pow 4 dbl.k) in
        let bound : r < 2 ^ 31 = ground (arith, dbl.least) in
        let filled : 0 < length d.ht0.table = omega (arith, sized, ok.first.width) in
        let there = not_null d.ht0.table filled in
        elim (Bool-cases (r == d.ht0.size)) [
          | inl same ↦ (false, d, ground (arith, run), still d ok fits sized)
          | inr other ↦ (
            true,
            record d { ht1 = new_table r; rehashidx = some 0 },
            ground (arith, run),
            record {
              grown = installed-second ty r d ok at (omega arith) (omega arith) filled;
              fits = ground arith;
              starts = λ e. (
                refl,
                refl,
                omega (arith, le, dbl.enough),
                small_table r size d.ht0.used dbl.least which,
              );
              refuses = λ e. absurd (ground arith);
            },
          )
        ]
  ]

  pub dict_resize_lem :
      (can_resize : Bool) (d : Dict K V)
      → IsValid ty d
      → Fits d
      → 0 < d.ht0.size
      → (b : Bool) × (d' : Dict K V) × (dict_resize can_resize d ≡ some (b, d')) × Resized d b d'
  unfolding dict_resize
  dict_resize_lem can_resize d ok fits sized = elim (Bool-cases can_resize) [
    | inr off ↦ (false, d, ground (arith, off), still d ok fits sized)
    | inl on ↦ elim (Option-cases d.rehashidx) [
      | inr (i, busy) ↦ (false, d, ground (arith, busy), still d ok fits sized)
      | inl idle ↦ elim (Bool-cases (ltb d.ht0.used 4)) [
        | inl few ↦
            let (b, d', run, res) =
              expand_any d 4 ok fits idle sized (ground arith) (inl (refl, ground arith)) in
            (b, d', ground (arith, run), res)
        | inr more ↦
            let (b, d', run, res) =
              expand_any d d.ht0.used ok fits idle sized (omega arith) (inr refl) in
            (b, d', ground (arith, run), res)
      ]
    ]
  ]
