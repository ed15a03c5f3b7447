-- ===== src/Dict/Ops/Insert.antt =====
-- The insertion of dictAddRaw, and the value that dictAdd then sets: a new head of the key's bucket.
use mathlib.Core.Option.{or_else}
use jmeter_on_k8s.Prelude.{ℕ, ◌<◌, ◌≡◌, inr, sym, ◌∙◌, none, some, arith, if◌then◌else◌}
use jmeter_on_k8s.Dict.{
  DictEntry, DictType, DictHt, Dict, slot, is_rehashing, compare_keys, dup_key, dup_val,
}
use jmeter_on_k8s.Dict.Chain.{IsLawful}
use jmeter_on_k8s.Dict.Expand.Grow.{Fits}
use jmeter_on_k8s.Dict.Ops.Find.{second_idle}
use jmeter_on_k8s.Dict.Ops.Locate.{Updates, ht_view_congr}
use jmeter_on_k8s.Dict.Table.{ht_view, push_entry, push_entry-IsHt, ht_view-push_entry}
use jmeter_on_k8s.Dict.Valid.{IsValid, view}

module _ {ℓ} {K V : Type ℓ} (ty : DictType K V) where
  abbrev pub new_entry : K → V → DictEntry K V
  new_entry k v = record { key = dup_key ty k; val = dup_val ty v }

  -- The index that _dictKeyIndex returns for a new key.
  abbrev pub new_index : Dict K V → K → ℕ
  new_index d k = if is_rehashing d then slot ty d.ht1 k else slot ty d.ht0 k

  module _ (law : IsLawful ty) where
    same_key : (q k : K) → compare_keys ty q (dup_key ty k) ≡ compare_keys ty k q
    same_key q k = ground (
      arith,
      law.dup_same k,
      law.compare_symm k (dup_key ty k),
      law.compare_trans q (dup_key ty k) k,
      law.compare_symm q k,
      law.compare_symm k q,
      law.compare_trans q k (dup_key ty k),
    )

    module _ (d : Dict K V) (k : K) (e : DictEntry K V) (ok : IsValid ty d) (fits : Fits d)
        (named : e.key ≡ dup_key ty k) (gone : view ty d k ≡ none) where
      no_first : ht_view ty d.ht0 k ≡ none
      unfolding view or_else
      no_first = ground (arith, gone)

      no_second_entry : ht_view ty d.ht1 k ≡ none
      unfolding view or_else
      no_second_entry = ground (arith, gone)

      compare_new : (q : K) → compare_keys ty q e.key ≡ compare_keys ty k q
      compare_new q = rw named (same_key q k)

      new_key : (t : DictHt K V) → ht_view ty t k ≡ none → ht_view ty t e.key ≡ none
      new_key t h = rw named (sym (ht_view_congr ty law t k (dup_key ty k) (law.dup_same k)) ∙ h)

      pub pushed_first :
          0 < d.ht0.size
          → d.rehashidx ≡ none
          → Updates ty d (record d { ht0 = push_entry ty e (d.ht0) }) k (some e)
      unfolding view or_else
      pushed_first pos idle = record {
        valid = record {
          first =
              push_entry-IsHt ty law e d.ht0 ok.first pos (omega arith) (new_key d.ht0 no_first);
          second = ok.second;
          apart = λ q. inr (second_idle ty d q ok idle);
          idle = ok.idle;
          busy = λ i h. ground arith;
          small = omega arith;
        };
        reads = λ q.
            rw (ht_view-push_entry ty law e d.ht0 q ok.first pos)
              (rw (compare_new q) (ground arith));
      }

      pub pushed_second :
          (i : ℕ)
          → d.rehashidx ≡ some i
          → Updates ty d (record d { ht1 = push_entry ty e (d.ht1) }) k (some e)
      unfolding view or_else
      pushed_second i busy =
          let pos = (ok.busy i busy).1 in
          record {
            valid = record {
              first = ok.first;
              second =
                  push_entry-IsHt ty law e d.ht1 ok.second pos (omega arith)
                    (new_key d.ht1 no_second_entry);
              apart = λ q. rw (ht_view-push_entry ty law e d.ht1 q ok.second pos) (
                  rw (compare_new q)
                    (ground (arith, ok.apart q, no_first, ht_view_congr ty law d.ht0 k q)));
              idle = λ h. ground arith;
              busy = ok.busy;
              small = omega arith;
            };
            reads = λ q.
                rw (ht_view-push_entry ty law e d.ht1 q ok.second pos)
                  (rw (compare_new q) (ground (arith, no_first, ht_view_congr ty law d.ht0 k q)));
          }
