-- ===== src/Dict/Ops/Find.antt =====
-- dictFind and dictFetchValue return what the key stands for, and keep the dictionary.
use mathlib.Core.Option
use mathlib.Core.Option.{or_else}
use jmeter_on_k8s.Prelude.{
  ◌<◌, ◌≡◌, inl, inr, refl, sym, ap, ◌∙◌, true, false, Option, none, some, arith, ◌==◌, Bool-cases,
  Option-cases, ◌>>=◌,
}
use jmeter_on_k8s.Dict.{DictEntry, DictType, DictHt, Dict, slot}
use jmeter_on_k8s.Dict.Chain.{IsLawful}
use jmeter_on_k8s.Dict.Expand.Grow.{unused_of_null}
use jmeter_on_k8s.Dict.Ops.{Ref, find_in_tables, dict_find, dict_fetch_value}
use jmeter_on_k8s.Dict.Rehash.Bucket.{Rehashed}
use jmeter_on_k8s.Dict.Rehash.Correct.{step_if_rehashing_lem, Rehashed-refl, ht_view-none_of_unused}
use jmeter_on_k8s.Dict.Table.{ht_view, get_elem?-bucket_of}
use jmeter_on_k8s.Dict.Valid.{IsValid, view}

module _ {ℓ} {K V : Type ℓ} (ty : DictType K V) where
  abbrev pub entry_of : Option (Ref × DictEntry K V) → Option (DictEntry K V)
  entry_of none = none
  entry_of (some (ref, he)) = some he

  abbrev pub in_first : Dict K V → K → Ref
  in_first d k = record { second = false; bucket = slot ty d.ht0 k }

  abbrev pub in_second : Dict K V → K → Ref
  in_second d k = record { second = true; bucket = slot ty d.ht1 k }

  -- Where the search for `k` ends.
  pub data Located (d : Dict K V) (k : K) : Option (Ref × DictEntry K V) → Type ℓ where
    nowhere : ht_view ty d.ht0 k ≡ none → ht_view ty d.ht1 k ≡ none → Located d k none
    first : (e : DictEntry K V) → ht_view ty d.ht0 k ≡ some e → Located d k (some (in_first d k, e))
    second :
        (e : DictEntry K V)
        → 0 < d.ht1.size
        → ht_view ty d.ht0 k ≡ none
        → ht_view ty d.ht1 k ≡ some e
        → Located d k (some (in_second d k, e))

  pub view-Located :
      (d : Dict K V) (k : K) (r : Option (Ref × DictEntry K V))
      → Located d k r
      → entry_of r ≡ view ty d k
  unfolding view or_else
  view-Located d k r (nowhere a b) = rw (a, b) refl
  view-Located d k r (first e a) = rw a refl
  view-Located d k r (second e p a b) = rw (a, b) refl

  pub second_idle :
      (d : Dict K V) (k : K) → IsValid ty d → d.rehashidx ≡ none → ht_view ty d.ht1 k ≡ none
  second_idle d k ok at =
      ht_view-none_of_unused ty d.ht1 k ok.second (ap (λ (t : DictHt K V). t.used) (ok.idle at))

  pub view_no_table : (d : Dict K V) (k : K) → IsValid ty d → d.ht0.size ≡ 0 → view ty d k ≡ none
  unfolding view or_else
  view_no_table d k ok z =
      let unused = unused_of_null ty d.ht0 ok.first (ok.first.width ∙ z) in
      elim (Option-cases d.rehashidx) [
        | inl idle ↦
            rw (ht_view-none_of_unused ty d.ht0 k ok.first unused, second_idle d k ok idle) refl
        | inr (i, busy) ↦ absurd (omega (arith, (ok.busy i busy).0))
      ]

  pub find_in_tables_lem :
      (d : Dict K V) (k : K)
      → IsValid ty d
      → 0 < d.ht0.size
      → (r : Option (Ref × DictEntry K V)) × (find_in_tables ty d k ≡ some r) × Located d k r
  unfolding find_in_tables
  find_in_tables_lem d k ok pos =
      let read0 = get_elem?-bucket_of ty d.ht0 k ok.first pos in
      elim (Option-cases (ht_view ty d.ht0 k)) [
        | inr (e, at0) ↦ (some (in_first d k, e), rw (read0, ◌>>=◌) (rw at0 refl), first e at0)
        | inl away ↦ elim (Option-cases d.rehashidx) [
          | inl idle ↦ (none, ground (arith, read0), nowhere away (second_idle d k ok idle))
          | inr (i, busy) ↦
              let pos1 = (ok.busy i busy).1 in
              let read1 = get_elem?-bucket_of ty d.ht1 k ok.second pos1 in
              elim (Option-cases (ht_view ty d.ht1 k)) [
                | inr (e, at1) ↦
                    (some (in_second d k, e), ground (arith, read0, read1), second e pos1 away at1)
                | inl gone ↦ (none, ground (arith, read0, read1), nowhere away gone)
              ]
        ]
      ]

  module _ (law : IsLawful ty) where
    -- On a well-formed dict, dictFind does not fault: it returns the entry that the key stands for,
    -- or NULL if there is none, and the rehash step that it makes on the way keeps the entry of
    -- every key.
    pub dict_find_lem :
        (d : Dict K V) (k : K)
        → IsValid ty d
        → (r : Option (Ref × DictEntry K V)) × (d' : Dict K V) × (dict_find ty d k ≡ some (r, d'))
          × (entry_of r ≡ view ty d k)
          × Rehashed ty d d'
    unfolding dict_find
    dict_find_lem d k ok = elim (Bool-cases (d.ht0.size == 0)) [
      | inl z ↦
          (none, d, rw z refl, sym (view_no_table d k ok (ground arith)), Rehashed-refl ty d ok)
      | inr nz ↦
          let (d', step, keeps) = step_if_rehashing_lem ty law d ok in
          let (r, found, at) = find_in_tables_lem d' k keeps.valid (keeps.sized (ground arith)) in
          (r, d', ground (arith, step, found), view-Located d' k r at ∙ keeps.reads k, keeps)
    ]

    -- dictFetchValue returns the value that the key stands for, or NULL.
    pub dict_fetch_value_lem :
        (d : Dict K V) (k : K)
        → IsValid ty d
        → (d' : Dict K V) × (dict_fetch_value ty d k
            ≡ some (Option.map (λ (e : DictEntry K V). e.val) (view ty d k), d'))
          × Rehashed ty d d'
    unfolding dict_fetch_value
    dict_fetch_value_lem d k ok =
        let (r, d', run, is, keeps) = dict_find_lem d k ok in (d', ground (arith, run, is), keeps)
