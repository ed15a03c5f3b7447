-- ===== src/Dict/Ops/Delete.antt =====
-- dictGenericDelete removes the key, and only that.
use jmeter_on_k8s.Prelude.{
  ℕ, ◌+◌, ◌^◌, ◌<◌, ◌≡◌, inl, inr, refl, sym, ◌∙◌, Bool, true, false, Option, none, some, List, [],
  ◌++◌, arith, ◌==◌, Bool-cases, if◌then◌else◌,
}
use jmeter_on_k8s.Dict.{DictEntry, DictType, DictHt, Dict, Freed, slot, free_key, free_val, dec64}
use jmeter_on_k8s.Dict.Chain.{
  IsLawful, chain_unlink, chain_find-unlink, unlink-IsDistinct, length-unlink,
}
use jmeter_on_k8s.Dict.Ops.{Ref, dict_generic_delete, unlink_found}
use jmeter_on_k8s.Dict.Ops.Find.{
  in_first, in_second, Located, nowhere, first, second, view-Located, find_in_tables_lem,
  view_no_table,
}
use jmeter_on_k8s.Dict.Ops.Locate.{Rewrites, Updates, rewrite_first, rewrite_second, view_congr}
use jmeter_on_k8s.Dict.Rehash.Bucket.{Rehashed}
use jmeter_on_k8s.Dict.Rehash.Correct.{step_if_rehashing_lem}
use jmeter_on_k8s.Dict.Table.{
  ht_view, bucket_of, IsHt, get_elem?-bucket_of, put_bucket, length-le-total,
}
use jmeter_on_k8s.Dict.Valid.{IsValid, view}

-- Whether a key stands for an entry.
abbrev pub found_count {ℓ} : {A : Type ℓ} → Option A → ℕ
found_count none = 0
found_count (some e) = 1

abbrev pub is_found {ℓ} : {A : Type ℓ} → Option A → Bool
is_found none = false
is_found (some e) = true

module _ {ℓ} {K V : Type ℓ} (ty : DictType K V) where
  -- What the destructors are called on.
  abbrev pub freed_of : Bool → Option (DictEntry K V) → List (Freed K V)
  freed_of no_free none = []
  freed_of no_free (some e) = if no_free then [] else free_key ty e ++ free_val ty e

  -- The answer, the destructor calls, the count, and the dictionary without `k`.
  pub record Deleted (no_free : Bool) (d : Dict K V) (k : K)
      (r : Bool × Dict K V × List (Freed K V)) : Type ℓ where
    pub answer : r.0 ≡ is_found (view ty d k)
    pub frees : r.2 ≡ freed_of no_free (view ty d k)
    pub size : r.1.ht0.used + r.1.ht1.used + found_count (view ty d k) ≡ d.ht0.used + d.ht1.used
    pub updates : Updates ty d r.1 k none

module _ {ℓ} {K V : Type ℓ} (ty : DictType K V) (law : IsLawful ty) where
  unlinked-Rewrites :
      (t : DictHt K V) (k : K) (e : DictEntry K V)
      → IsHt ty t
      → t.used < 2 ^ 60
      → ht_view ty t k ≡ some e
      → Rewrites ty t k (chain_unlink ty k (bucket_of ty t k)) none (dec64 t.used)
        × (dec64 t.used + 1 ≡ t.used)
  unlinked-Rewrites t k e ok small at =
      let shorter = length-unlink ty law k (bucket_of ty t k) e at in
      let most = length-le-total t.table (slot ty t k) in
      let less : dec64 t.used + 1 ≡ t.used = omega (arith, ok.counted) in
      (
        record {
          finds = λ q. chain_find-unlink ty law k q (bucket_of ty t k) (ok.distinct (slot ty t k));
          distinct = unlink-IsDistinct ty law k (bucket_of ty t k) (ok.distinct (slot ty t k));
          counted = omega arith;
        },
        less,
      )

  absent-Updates :
      (d : Dict K V) (k : K) → IsValid ty d → view ty d k ≡ none → Updates ty d d k none
  absent-Updates d k ok gone = record {
    valid = ok;
    reads = λ q. ground (arith, view_congr ty law d k q);
  }

  -- The part behind the rehash step.
  delete-Located :
      (no_free : Bool) (d : Dict K V) (k : K) (r : Option (Ref × DictEntry K V))
      → IsValid ty d
      → 0 < d.ht0.size
      → Located ty d k r
      → (out : Bool × Dict K V × List (Freed K V)) × (unlink_found ty no_free d k r ≡ some out)
        × Deleted ty no_free d k out
  unfolding unlink_found
  delete-Located no_free d k r ok pos (nowhere a b) =
      let gone : view ty d k ≡ none = sym (view-Located ty d k none (nowhere a b)) in
      (
        (false, d, []),
        refl,
        record {
          answer = rw gone refl;
          frees = rw gone refl;
          size = rw gone (omega arith);
          updates = absent-Updates d k ok gone;
        },
      )
  delete-Located no_free d k r ok pos (first e at) =
      let there : view ty d k ≡ some e =
        sym (view-Located ty d k (some (in_first ty d k, e)) (first e at)) in
      let (w, less) = unlinked-Rewrites d.ht0 k e ok.first (omega (arith, ok.small)) at in
      (
        (
          true,
          record d {
            ht0 =
                put_bucket (d.ht0) (slot ty d.ht0 k) (chain_unlink ty k (bucket_of ty d.ht0 k))
                  (dec64 d.ht0.used);
          },
          freed_of ty no_free (some e),
        ),
        rw (get_elem?-bucket_of ty d.ht0 k ok.first pos) refl,
        record {
          answer = rw there refl;
          frees = rw there refl;
          size = rw there (omega arith);
          updates =
              rewrite_first ty law d ok k (chain_unlink ty k (bucket_of ty d.ht0 k)) e none
                (dec64 d.ht0.used) pos at w (omega arith);
        },
      )
  delete-Located no_free d k r ok pos (second e pos1 away at) =
      let there : view ty d k ≡ some e =
        sym (view-Located ty d k (some (in_second ty d k, e)) (second e pos1 away at)) in
      let (w, less) = unlinked-Rewrites d.ht1 k e ok.second (omega (arith, ok.small)) at in
      (
        (
          true,
          record d {
            ht1 =
                put_bucket (d.ht1) (slot ty d.ht1 k) (chain_unlink ty k (bucket_of ty d.ht1 k))
                  (dec64 d.ht1.used);
          },
          freed_of ty no_free (some e),
        ),
        rw (get_elem?-bucket_of ty d.ht1 k ok.second pos1) refl,
        record {
          answer = rw there refl;
          frees = rw there refl;
          size = rw there (omega arith);
          updates =
              rewrite_second ty law d ok k (chain_unlink ty k (bucket_of ty d.ht1 k)) e none
                (dec64 d.ht1.used) pos1 at w (omega arith);
        },
      )

  -- Seen from the dict before the rehash step.
  Deleted-Rehashed :
      (no_free : Bool) (d d' : Dict K V) (k : K) (out : Bool × Dict K V × List (Freed K V))
      → Rehashed ty d d'
      → Deleted ty no_free d' k out
      → Deleted ty no_free d k out
  Deleted-Rehashed no_free d d' k out keeps del = record {
    answer = rw (← keeps.reads k) del.answer;
    frees = rw (← keeps.reads k) del.frees;
    size = rw (← keeps.reads k) (del.size ∙ keeps.size);
    updates = record {
      valid = del.updates.valid;
      reads = λ q. rw (← keeps.reads q) (del.updates.reads q);
    };
  }

  -- On a well-formed dict, dictGenericDelete does not fault: it returns DICT_OK exactly when the
  -- key stands for an entry, calls the destructors on the key and the value of that entry unless
  -- `no_free` is set, counts one entry less, keeps the dict well formed, and afterwards the key and
  -- its equals stand for nothing while every other key stands for what it did.
  pub dict_generic_delete_lem :
      (no_free : Bool) (d : Dict K V) (k : K)
      → IsValid ty d
      → (out : Bool × Dict K V × List (Freed K V)) × (dict_generic_delete ty no_free d k ≡ some out)
        × Deleted ty no_free d k out
  unfolding dict_generic_delete
  dict_generic_delete_lem no_free d k ok = elim (Bool-cases (d.ht0.size == 0)) [
    | inl z ↦
        let gone = view_no_table ty d k ok (ground arith) in
        (
          (false, d, []),
          rw z refl,
          record {
            answer = rw gone refl;
            frees = rw gone refl;
            size = rw gone (omega arith);
            updates = absent-Updates d k ok gone;
          },
        )
    | inr nz ↦
        let (d', step, keeps) = step_if_rehashing_lem ty law d ok in
        let pos = keeps.sized (ground arith) in
        let (r, found, at) = find_in_tables_lem ty d' k keeps.valid pos in
        let (out, run, del) = delete-Located no_free d' k r keeps.valid pos at in
        (out, ground (arith, step, found, run), Deleted-Rehashed no_free d d' k out keeps del)
  ]
