-- ===== src/Dict/Ops/Replace.antt =====
-- dictReplace leaves the key with the new value, whether or not it was there.
use jmeter_on_k8s.Prelude.{
  ◌<◌, ◌≡◌, inl, inr, refl, ap, ◌∙◌, Bool, true, false, Option, none, some, List, [], arith, ◌==◌,
  Bool-cases, Option-cases, if◌then◌else◌, not,
}
use jmeter_on_k8s.Dict.{
  DictEntry, DictType, DictHt, Dict, Freed, slot, compare_keys, dup_val, free_val,
}
use jmeter_on_k8s.Dict.Chain.{
  IsLawful, chain_set_val, chain_find-set_val, set_val-IsDistinct, length-set_val,
}
use jmeter_on_k8s.Dict.Expand.Grow.{Fits}
use jmeter_on_k8s.Dict.Ops.{Ref, dict_find, overwrite_found, dict_replace}
use jmeter_on_k8s.Dict.Ops.Add.{dict_add_lem}
use jmeter_on_k8s.Dict.Ops.Delete.{is_found}
use jmeter_on_k8s.Dict.Ops.Find.{
  in_first, in_second, Located, nowhere, first, second, view-Located, find_in_tables_lem,
  view_no_table,
}
use jmeter_on_k8s.Dict.Ops.Insert.{new_entry}
use jmeter_on_k8s.Dict.Ops.Locate.{Rewrites, Updates, rewrite_first, rewrite_second}
use jmeter_on_k8s.Dict.Rehash.Bucket.{Rehashed}
use jmeter_on_k8s.Dict.Rehash.Correct.{step_if_rehashing_lem}
use jmeter_on_k8s.Dict.Table.{ht_view, bucket_of, IsHt, get_elem?-bucket_of, put_bucket}
use jmeter_on_k8s.Dict.Valid.{IsValid, view}

module _ {ℓ} {K V : Type ℓ} (ty : DictType K V) where
  -- The entry that the key has after dictReplace: the old one with the new value, or a new one.
  abbrev pub replaced_entry : Option (DictEntry K V) → K → V → DictEntry K V
  replaced_entry none k v = new_entry ty k v
  replaced_entry (some e) k v = record e { val = dup_val ty v }

  abbrev pub freed_val : Option (DictEntry K V) → List (Freed K V)
  freed_val none = []
  freed_val (some e) = free_val ty e

  pub record Replaced (d : Dict K V) (k : K) (v : V) (out : Bool × Dict K V × List (Freed K V))
      : Type ℓ where
    pub answer : out.0 ≡ not (is_found (view ty d k))
    pub frees : out.2 ≡ freed_val (view ty d k)
    pub updates : Updates ty d out.1 k (some (replaced_entry (view ty d k) k v))

  module _ (law : IsLawful ty) where
    set_val-Rewrites :
        (t : DictHt K V) (k : K) (v : V) (e : DictEntry K V)
        → IsHt ty t
        → ht_view ty t k ≡ some e
        → Rewrites ty t k
            (chain_set_val ty k v (bucket_of ty t k))
            (some (record e { val = v }))
            t.used
    set_val-Rewrites t k v e ok at = record {
      finds = λ q. chain_find-set_val ty law k q v (bucket_of ty t k) e at;
      distinct = set_val-IsDistinct ty law k v (bucket_of ty t k) (ok.distinct (slot ty t k));
      counted = omega (arith, length-set_val ty law k v (bucket_of ty t k));
    }

    overwrite-Located :
        (d : Dict K V) (k : K) (v : V) (e : DictEntry K V) (r : Option (Ref × DictEntry K V))
        → IsValid ty d
        → 0 < d.ht0.size
        → view ty d k ≡ some e
        → Located ty d k r
        → (d' : Dict K V) × (overwrite_found ty v d k r ≡ some (false, d', free_val ty e))
          × Updates ty d d' k (some (record e { val = dup_val ty v }))
    unfolding overwrite_found
    overwrite-Located d k v e r ok pos there (nowhere a b) =
        absurd (ground (arith, view-Located ty d k none (nowhere a b)))
    overwrite-Located d k v e r ok pos there (first e' at) =
        let same : e' ≡ e =
          ground (arith, view-Located ty d k (some (in_first ty d k, e')) (first e' at)) in
        let w = set_val-Rewrites d.ht0 k (dup_val ty v) e ok.first (at ∙ ap some same) in
        (
          record d {
            ht0 =
                put_bucket (d.ht0) (slot ty d.ht0 k)
                  (chain_set_val ty k (dup_val ty v) (bucket_of ty d.ht0 k)) d.ht0.used;
          },
          rw (get_elem?-bucket_of ty d.ht0 k ok.first pos) (rw same refl),
          rewrite_first ty law d ok k (chain_set_val ty k (dup_val ty v) (bucket_of ty d.ht0 k)) e
              (some (record e { val = dup_val ty v })) d.ht0.used pos (at ∙ ap some same) w
              (omega arith),
        )
    overwrite-Located d k v e r ok pos there (second e' pos1 away at) =
        let same : e' ≡ e =
          ground
            (arith, view-Located ty d k (some (in_second ty d k, e')) (second e' pos1 away at)) in
        let w = set_val-Rewrites d.ht1 k (dup_val ty v) e ok.second (at ∙ ap some same) in
        (
          record d {
            ht1 =
                put_bucket (d.ht1) (slot ty d.ht1 k)
                  (chain_set_val ty k (dup_val ty v) (bucket_of ty d.ht1 k)) d.ht1.used;
          },
          rw (get_elem?-bucket_of ty d.ht1 k ok.second pos1) (rw same refl),
          rewrite_second ty law d ok k (chain_set_val ty k (dup_val ty v) (bucket_of ty d.ht1 k)) e
              (some (record e { val = dup_val ty v })) d.ht1.used pos1 (at ∙ ap some same) w
              (omega arith),
        )

    dict_find-Located :
        (d : Dict K V) (k : K) (e : DictEntry K V)
        → IsValid ty d
        → view ty d k ≡ some e
        → (r : Option (Ref × DictEntry K V)) × (d' : Dict K V) × (dict_find ty d k ≡ some (r, d'))
          × Rehashed ty d d'
          × Located ty d' k r
          × (0 < d'.ht0.size)
    unfolding dict_find
    dict_find-Located d k e ok there = elim (Bool-cases (d.ht0.size == 0)) [
      | inl z ↦ absurd (ground (arith, view_no_table ty d k ok))
      | inr nz ↦
          let (d', step, keeps) = step_if_rehashing_lem ty law d ok in
          let pos = keeps.sized (ground arith) in
          let (r, found, at) = find_in_tables_lem ty d' k keeps.valid pos in
          (r, d', ground (arith, step, found), keeps, at, pos)
    ]

    -- On a well-formed dict with fewer than 2 ^ 29 entries in tables of fewer than 2 ^ 31 buckets,
    -- dictReplace does not fault: it returns 1 exactly when the key stood for nothing and 0
    -- otherwise, frees exactly the old value and only in the second case, keeps the dict well
    -- formed, and afterwards the key and its equals stand for the new value, under the old key if
    -- there was one, while every other key stands for what it did.
    pub dict_replace_lem :
        (can_resize : Bool) (junk : V) (d : Dict K V) (k : K) (v : V)
        → IsValid ty d
        → Fits d
        → (out : Bool × Dict K V × List (Freed K V)) × (dict_replace ty can_resize junk d k v
            ≡ some out)
          × Replaced d k v out
    unfolding dict_replace
    dict_replace_lem can_resize junk d k v ok fits =
        let ((b, d1), run, added) = dict_add_lem ty law can_resize junk d k v ok fits in
        elim (Option-cases (view ty d k)) [
          | inl gone ↦
              let yes_added : b ≡ true = added.answer ∙ rw gone refl in
              (
                (true, d1, []),
                ground (arith, run, yes_added),
                record {
                  answer = rw gone refl;
                  frees = rw gone refl;
                  updates = record {
                    valid = added.valid;
                    reads = λ q. rw gone (rw yes_added at (added.reads q));
                  };
                },
              )
          | inr (e, there) ↦
              let not_added : b ≡ false = added.answer ∙ rw there refl in
              let same : view ty d1 k ≡ some e = rw not_added at (added.reads k) ∙ there in
              let (r, d2, find, keeps, at, pos) = dict_find-Located d1 k e added.valid same in
              let (d3, write, up) =
                overwrite-Located d2 k v e r keeps.valid pos (keeps.reads k ∙ same) at in
              (
                (false, d3, free_val ty e),
                ground (arith, run, not_added, find, write),
                record {
                  answer = rw there refl;
                  frees = rw there refl;
                  updates = record {
                    valid = up.valid;
                    reads = λ q. rw there (
                        up.reads q
                        ∙ ap
                            (λ o.
                              if compare_keys ty k q
                              then some (record e { val = dup_val ty v })
                              else o)
                            (keeps.reads q ∙ rw not_added at (added.reads q)));
                  };
                },
              )
        ]
