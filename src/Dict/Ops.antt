-- ===== src/Dict/Ops.antt =====
-- src/dict.c: dictFind, dictFetchValue, _dictKeyIndex, dictAddRaw, dictAdd, dictReplace,
-- dictReplaceRaw, dictGenericDelete with dictDelete and dictDeleteNoFree.
pub mod Locate
pub mod Find
pub mod Insert
pub mod Add
pub mod Delete
pub mod Replace
use jmeter_on_k8s.Prelude.{
  ℕ, ◌+◌, ◌-◌, ◌^◌, Bool, true, false, Option, none, some, List, [], ◌∷◌, ◌++◌, ◌==◌, ltb,
  if◌then◌else◌, ◌>>=◌, get_elem?, set,
}
use jmeter_on_k8s.Dict.{
  DictEntry, Chain, DictType, DictHt, Dict, Freed, slot, inc64, dec64, dup_key, dup_val, free_key,
  free_val, is_rehashing,
}
use jmeter_on_k8s.Dict.Chain.{chain_find, chain_unlink, chain_set_val}
use jmeter_on_k8s.Dict.Expand.{expand_if_needed}
use jmeter_on_k8s.Dict.Rehash.{step_if_rehashing}

-- A pointer to an entry: whether it is in the second table, and the bucket.
pub record Ref : Type 0 where
  pub second : Bool
  pub bucket : ℕ

module _ {ℓ} {K V : Type ℓ} where
  -- &d->ht[table]
  abbrev pub ht_of : Bool → Dict K V → DictHt K V
  ht_of false d = d.ht0
  ht_of true d = d.ht1

  abbrev pub with_ht : Bool → DictHt K V → Dict K V → Dict K V
  with_ht false t d = record d { ht0 = t }
  with_ht true t d = record d { ht1 = t }

module _ {ℓ} {K V : Type ℓ} (ty : DictType K V) where
  -- The loop over the tables that the lookups share: the first entry with the key, with its place.
  unfoldable pub find_in_tables : Dict K V → K → Option (Option (Ref × DictEntry K V))
  find_in_tables d key = get_elem? d.ht0.table (slot ty d.ht0 key) >>= λ b0.
      elim (chain_find ty key b0) [
        | some he ↦ some (some (record { second = false; bucket = slot ty d.ht0 key }, he))
        | none ↦
            if is_rehashing d
            then (get_elem? d.ht1.table (slot ty d.ht1 key) >>= λ b1. elim (chain_find ty key b1) [
              | some he ↦ some (some (record { second = true; bucket = slot ty d.ht1 key }, he))
              | none ↦ some none
            ])
            else some none
      ]

  -- The result is the entry or NULL, and the dict after the rehash step.
  unfoldable pub dict_find : Dict K V → K → Option (Option (Ref × DictEntry K V) × Dict K V)
  dict_find d key =
      if d.ht0.size == 0
      then some (none, d)
      else (step_if_rehashing ty d >>= λ d'. find_in_tables d' key >>= λ r. some (r, d'))

  unfoldable pub dict_fetch_value : Dict K V → K → Option (Option V × Dict K V)
  dict_fetch_value d key = dict_find d key >>= λ (r, d').
      some (elim r [ none ↦ none | some (ref, he) ↦ some he.val ], d')

  -- The loop of _dictKeyIndex: `none` for -1, else the index in the table that was searched last.
  unfoldable pub free_slot : Dict K V → K → Option (Option ℕ)
  free_slot d key = find_in_tables d key >>= λ r. elim r [
    | some he ↦ some none
    | none ↦ some (some (if is_rehashing d then slot ty d.ht1 key else slot ty d.ht0 key))
  ]

  unfoldable pub key_index : Bool → Dict K V → K → Option (Option ℕ × Dict K V)
  key_index can_resize d key = expand_if_needed can_resize d >>= λ (done, d').
      if done then (free_slot d' key >>= λ i. some (i, d')) else some (none, d')

  -- The unsigned index becomes an int: 2 ^ 32 - 1 is the -1 of a key that is there, and other
  -- values from 2 ^ 31 on are negative, outside the table. `junk` is what zmalloc leaves in `v`.
  unfoldable pub insert_at : V → Dict K V → K → ℕ → Option (Option Ref × Dict K V)
  insert_at junk d key index =
      if index == 2 ^ 32 - 1
      then some (none, d)
      else if ltb index (2 ^ 31)
      then (let ht = ht_of (is_rehashing d) d in
          get_elem? ht.table index >>= λ b. some (
            some (record { second = is_rehashing d; bucket = index }),
            with_ht (is_rehashing d)
                (record ht {
                  table = set ht.table index (record { key = dup_key ty key; val = junk } ∷ b);
                  used = inc64 ht.used;
                })
                d,
          ))
      else none

  unfoldable pub dict_add_raw : Bool → V → Dict K V → K → Option (Option Ref × Dict K V)
  dict_add_raw can_resize junk d key = step_if_rehashing ty d >>= λ d1.
      key_index can_resize d1 key >>= λ (i, d2). elim i [
        | none ↦ some (none, d2)
        | some index ↦ insert_at junk d2 key index
      ]

  -- entry->v.val = val, where the entry is the head of its bucket
  abbrev pub set_head_val : V → Chain K V → Chain K V
  set_head_val v [] = []
  set_head_val v (e ∷ c) = record e { val = v } ∷ c

  -- The rest of dictAdd: if (!entry) return DICT_ERR; dictSetVal(d, entry, val); return DICT_OK;
  unfoldable pub set_new_val : V → Option Ref → Dict K V → Option (Bool × Dict K V)
  set_new_val val none d = some (false, d)
  set_new_val val (some ref) d =
      let ht = ht_of ref.second d in
      get_elem? ht.table ref.bucket >>= λ b. some (
        true,
        with_ht ref.second
            (record ht { table = set ht.table ref.bucket (set_head_val (dup_val ty val) b) }) d,
      )

  unfoldable pub dict_add : Bool → V → Dict K V → K → V → Option (Bool × Dict K V)
  dict_add can_resize junk d key val =
      dict_add_raw can_resize junk d key >>= λ (r, d'). set_new_val val r d'

  -- The rest of dictReplace behind dictFind: the new value in place, then the old one freed. A
  -- NULL entry would be read.
  unfoldable pub overwrite_found :
      V → Dict K V → K → Option (Ref × DictEntry K V) → Option (Bool × Dict K V × List (Freed K V))
  overwrite_found val d key none = none
  overwrite_found val d key (some (ref, he)) =
      let ht = ht_of ref.second d in
      get_elem? ht.table ref.bucket >>= λ b. some (
        false,
        with_ht ref.second
            (record ht {
              table = set ht.table ref.bucket (chain_set_val ty key (dup_val ty val) b);
            })
            d,
        free_val ty he,
      )

  -- The answer is true for 1, a key that was added.
  unfoldable pub dict_replace :
      Bool → V → Dict K V → K → V → Option (Bool × Dict K V × List (Freed K V))
  dict_replace can_resize junk d key val = dict_add can_resize junk d key val >>= λ (added, d1).
      if added
      then some (true, d1, [])
      else (dict_find d1 key >>= λ (r, d2). overwrite_found val d2 key r)

  -- The entry of the key, or a new one.
  unfoldable pub dict_replace_raw : Bool → V → Dict K V → K → Option (Option Ref × Dict K V)
  dict_replace_raw can_resize junk d key = dict_find d key >>= λ (r, d1). elim r [
    | some (ref, he) ↦ some (some ref, d1)
    | none ↦ dict_add_raw can_resize junk d1 key
  ]

  -- The entry is unlinked from its bucket, its key and value are freed unless `no_free` is set.
  unfoldable pub unlink_found :
      Bool
      → Dict K V
      → K
      → Option (Ref × DictEntry K V)
      → Option (Bool × Dict K V × List (Freed K V))
  unlink_found no_free d key none = some (false, d, [])
  unlink_found no_free d key (some (ref, he)) =
      let ht = ht_of ref.second d in
      get_elem? ht.table ref.bucket >>= λ b. some (
        true,
        with_ht ref.second
            (record ht {
              table = set ht.table ref.bucket (chain_unlink ty key b);
              used = dec64 ht.used;
            })
            d,
        if no_free then [] else free_key ty he ++ free_val ty he,
      )

  unfoldable pub dict_generic_delete :
      Bool → Dict K V → K → Option (Bool × Dict K V × List (Freed K V))
  dict_generic_delete no_free d key =
      if d.ht0.size == 0
      then some (false, d, [])
      else (step_if_rehashing ty d >>= λ d'.
          find_in_tables d' key >>= λ r. unlink_found no_free d' key r)

  abbrev pub dict_delete : Dict K V → K → Option (Bool × Dict K V × List (Freed K V))
  dict_delete = dict_generic_delete false

  abbrev pub dict_delete_no_free : Dict K V → K → Option (Bool × Dict K V × List (Freed K V))
  dict_delete_no_free = dict_generic_delete true
