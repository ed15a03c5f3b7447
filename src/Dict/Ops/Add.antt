-- ===== src/Dict/Ops/Add.antt =====
-- dictAdd adds a new key with its value, and refuses a key that is there.
use jmeter_on_k8s.Prelude.{
  ℕ, ◌+◌, ◌-◌, ◌^◌, ◌<◌, ◌≡◌, inl, inr, refl, sym, ap, ◌∙◌, Bool, true, false, Option, none, some,
  [], ◌∷◌, arith, get_or, set, Option-cases, if◌then◌else◌, ◌>>=◌, get_elem?, set-set,
  get_elem?-set_self, not,
}
use jmeter_on_k8s.Dict.{
  DictEntry, Chain, DictType, DictHt, Dict, slot, compare_keys, dup_key, inc64,
}
use jmeter_on_k8s.Dict.Chain.{IsLawful}
use jmeter_on_k8s.Dict.Expand.Grow.{Fits, expand_if_needed_lem}
use jmeter_on_k8s.Dict.Ops.{
  Ref, insert_at, set_new_val, find_in_tables, free_slot, key_index, dict_add_raw, dict_add,
}
use jmeter_on_k8s.Dict.Ops.Delete.{is_found}
use jmeter_on_k8s.Dict.Ops.Find.{
  in_first, in_second, Located, nowhere, first, second, view-Located, find_in_tables_lem,
}
use jmeter_on_k8s.Dict.Ops.Insert.{new_entry, pushed_first, pushed_second}
use jmeter_on_k8s.Dict.Rehash.Correct.{step_if_rehashing_lem}
use jmeter_on_k8s.Dict.Table.{bucket_of, get_elem?-bucket_of, push_entry, slot-lt, slot_congr}
use jmeter_on_k8s.Dict.Valid.{IsValid, view}

module _ {ℓ} {K V : Type ℓ} (ty : DictType K V) where
  -- What dictAdd makes of the dict `d`.
  pub record Added (d : Dict K V) (k : K) (v : V) (out : Bool × Dict K V) : Type ℓ where
    pub answer : out.0 ≡ not (is_found (view ty d k))
    pub valid : IsValid ty out.1
    pub reads :
        (q : K)
        → view ty out.1 q ≡ (
            if out.0
            then (if compare_keys ty k q then some (new_entry ty k v) else view ty d q)
            else view ty d q)
    pub size : out.1.ht0.used + out.1.ht1.used ≡ d.ht0.used + d.ht1.used + (if out.0 then 1 else 0)
    pub sizes : (out.1.ht0.size < 2 ^ 31) × (out.1.ht1.size < 2 ^ 31)

  module _ (law : IsLawful ty) where
    -- The new head at the index of the key itself.
    abbrev pushed_at : DictEntry K V → DictHt K V → ℕ → DictHt K V
    pushed_at e t i = record t {
      table = set t.table i (e ∷ get_or t.table i []);
      used = inc64 t.used;
    }

    pushed_at-push_entry :
        (e : DictEntry K V) (t : DictHt K V) (k : K)
        → e.key ≡ dup_key ty k
        → pushed_at e t (slot ty t k) ≡ push_entry ty e t
    pushed_at-push_entry e t k h =
        ap (pushed_at e t)
          (slot_congr ty law t k (dup_key ty k) (law.dup_same k) ∙ ap (slot ty t) (sym h))

    module _ (d : Dict K V) (k : K) (junk v : V) (i : ℕ) (b : Chain K V) (lt : i < 2 ^ 31) where
      insert_at_idle :
          d.rehashidx ≡ none
          → get_elem? d.ht0.table i ≡ some b
          → insert_at ty junk d k i
            ≡ some (
              some (record { second = false; bucket = i }),
              record d {
                ht0 = record (d.ht0) {
                  table = set d.ht0.table i (record { key = dup_key ty k; val = junk } ∷ b);
                  used = inc64 d.ht0.used;
                };
              },
            )
      unfolding insert_at
      insert_at_idle idle read = ground arith

      insert_at_busy :
          (j : ℕ)
          → d.rehashidx ≡ some j
          → get_elem? d.ht1.table i ≡ some b
          → insert_at ty junk d k i
            ≡ some (
              some (record { second = true; bucket = i }),
              record d {
                ht1 = record (d.ht1) {
                  table = set d.ht1.table i (record { key = dup_key ty k; val = junk } ∷ b);
                  used = inc64 d.ht1.used;
                };
              },
            )
      unfolding insert_at
      insert_at_busy j busy read = ground arith

    -- The new entry with its value in place of the junk.
    placed_first :
        (d : Dict K V) (k : K) (junk v : V)
        → IsValid ty d
        → d.ht0.size < 2 ^ 31
        → 0 < d.ht0.size
        → d.rehashidx ≡ none
        → (insert_at ty junk d k (slot ty d.ht0 k) >>= λ (r, d'). set_new_val ty v r d')
          ≡ some (true, record d { ht0 = push_entry ty (new_entry ty k v) (d.ht0) })
    unfolding set_new_val
    placed_first d k junk v ok small pos idle =
        let i = slot ty d.ht0 k in
        let b = bucket_of ty d.ht0 k in
        let lt = slot-lt ty d.ht0 k ok.first pos in
        let e0 : DictEntry K V = record { key = dup_key ty k; val = junk } in
        rw
          (insert_at_idle d k junk v i b (omega (arith, ok.first.width)) idle
            (get_elem?-bucket_of ty d.ht0 k ok.first pos))
          (rw (get_elem?-set_self d.ht0.table i (e0 ∷ b) lt) (
            rw (set-set d.ht0.table i (e0 ∷ b) (new_entry ty k v ∷ b)) (
              ap (λ t. some (true, record d { ht0 = t }))
                (pushed_at-push_entry (new_entry ty k v) d.ht0 k refl))))

    placed_second :
        (d : Dict K V) (k : K) (junk v : V) (j : ℕ)
        → IsValid ty d
        → d.ht1.size < 2 ^ 31
        → d.rehashidx ≡ some j
        → (insert_at ty junk d k (slot ty d.ht1 k) >>= λ (r, d'). set_new_val ty v r d')
          ≡ some (true, record d { ht1 = push_entry ty (new_entry ty k v) (d.ht1) })
    unfolding set_new_val
    placed_second d k junk v j ok small busy =
        let i = slot ty d.ht1 k in
        let b = bucket_of ty d.ht1 k in
        let pos = (ok.busy j busy).1 in
        let lt = slot-lt ty d.ht1 k ok.second pos in
        let e0 : DictEntry K V = record { key = dup_key ty k; val = junk } in
        rw
          (insert_at_busy d k junk v i b (omega (arith, ok.second.width)) j busy
            (get_elem?-bucket_of ty d.ht1 k ok.second pos))
          (rw (get_elem?-set_self d.ht1.table i (e0 ∷ b) lt) (
            rw (set-set d.ht1.table i (e0 ∷ b) (new_entry ty k v ∷ b)) (
              ap (λ t. some (true, record d { ht1 = t }))
                (pushed_at-push_entry (new_entry ty k v) d.ht1 k refl))))

    -- dictAddRaw and dictAdd behind the rehash step and the growth.
    abbrev add_grown : Dict K V → K → V → V → Option (Bool × Dict K V)
    add_grown d k junk v = free_slot ty d k >>= λ i.
        elim i [ none ↦ some (none, d) | some index ↦ insert_at ty junk d k index ] >>= λ (r, d').
        set_new_val ty v r d'

    refused :
        (d : Dict K V) (k : K) (v : V) (e : DictEntry K V)
        → IsValid ty d
        → Fits d
        → view ty d k ≡ some e
        → Added d k v (false, d)
    refused d k v e ok fits there = record {
      answer = rw there refl;
      valid = ok;
      reads = λ q. refl;
      size = omega arith;
      sizes = (fits.1, fits.2);
    }

    pushed_used : (n : ℕ) → n < 2 ^ 60 → inc64 n ≡ n + 1
    pushed_used n h = omega arith

    add-Located :
        (d : Dict K V) (k : K) (junk v : V) (r : Option (Ref × DictEntry K V))
        → IsValid ty d
        → Fits d
        → 0 < d.ht0.size
        → find_in_tables ty d k ≡ some r
        → Located ty d k r
        → (out : Bool × Dict K V) × (add_grown d k junk v ≡ some out) × Added d k v out
    unfolding free_slot set_new_val
    add-Located d k junk v r ok fits pos found (first e at) = (
      (false, d),
      rw found refl,
      refused d k v e ok fits (sym (view-Located ty d k (some (in_first ty d k, e)) (first e at))),
    )
    add-Located d k junk v r ok fits pos found (second e pos1 away at) = (
      (false, d),
      rw found refl,
      refused d k v e ok fits
          (sym (view-Located ty d k (some (in_second ty d k, e)) (second e pos1 away at))),
    )
    add-Located d k junk v r ok fits pos found (nowhere a b) =
        let gone : view ty d k ≡ none = sym (view-Located ty d k none (nowhere a b)) in
        let place = λ (i : ℕ). insert_at ty junk d k i >>= λ (r', d'). set_new_val ty v r' d' in
        elim (Option-cases d.rehashidx) [
          | inl idle ↦
              let up = pushed_first ty law d k (new_entry ty k v) ok fits refl gone pos idle in
              (
                (true, record d { ht0 = push_entry ty (new_entry ty k v) (d.ht0) }),
                rw found (ap place (rw idle refl) ∙ placed_first d k junk v ok fits.1 pos idle),
                record {
                  answer = rw gone refl;
                  valid = up.valid;
                  reads = up.reads;
                  size = omega arith;
                  sizes = (fits.1, fits.2);
                },
              )
          | inr (j, busy) ↦
              let up = pushed_second ty law d k (new_entry ty k v) ok fits refl gone j busy in
              (
                (true, record d { ht1 = push_entry ty (new_entry ty k v) (d.ht1) }),
                rw found (ap place (rw busy refl) ∙ placed_second d k junk v j ok fits.2 busy),
                record {
                  answer = rw gone refl;
                  valid = up.valid;
                  reads = up.reads;
                  size = omega arith;
                  sizes = (fits.1, fits.2);
                },
              )
        ]

    -- On a well-formed dict with fewer than 2 ^ 29 entries in tables of fewer than 2 ^ 31 buckets,
    -- dictAdd does not fault, whatever zmalloc leaves in the new entry and whether or not resizing
    -- is allowed: it returns DICT_OK exactly when the key stood for nothing, in that case the key
    -- and its equals stand for the copies of key and value afterwards and there is one entry more,
    -- otherwise the number of entries is unchanged; every other key stands for what it did, the dict is
    -- well formed and its tables have fewer than 2 ^ 31 buckets.
    pub dict_add_lem :
        (can_resize : Bool) (junk : V) (d : Dict K V) (k : K) (v : V)
        → IsValid ty d
        → Fits d
        → (out : Bool × Dict K V) × (dict_add ty can_resize junk d k v ≡ some out) × Added d k v out
    unfolding dict_add dict_add_raw key_index
    dict_add_lem can_resize junk d k v ok fits =
        let (d1, step, keeps) = step_if_rehashing_lem ty law d ok in
        let sizes = keeps.sizes (2 ^ 31 - 1) (omega arith) (omega arith) in
        let fits1 : Fits d1 = (omega (arith, keeps.size), omega arith, omega arith) in
        let (d2, grow, grown, fits2) = expand_if_needed_lem ty can_resize d1 keeps.valid fits1 in
        let (r, found, at) = find_in_tables_lem ty d2 k grown.valid grown.ready in
        let (out, run, added) = add-Located d2 k junk v r grown.valid fits2 grown.ready found at in
        (
          out,
          ground (arith, step, grow, run),
          record {
            answer = rw (← keeps.reads k, ← grown.reads k) added.answer;
            valid = added.valid;
            reads = λ q. rw (← keeps.reads q, ← grown.reads q) (added.reads q);
            size = added.size ∙ ap (λ n. n + (if out.0 then 1 else 0)) (grown.size ∙ keeps.size);
            sizes = added.sizes;
          },
        )
