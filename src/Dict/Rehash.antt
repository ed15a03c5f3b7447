-- ===== src/Dict/Rehash.antt =====
-- src/dict.c: dictRehash, _dictRehashStep. A read through NULL or past the end of a table, and a
-- failed assert, are `none`.
pub mod Moves
pub mod Bucket
pub mod Correct
use jmeter_on_k8s.Prelude.{
  ℕ, zero, suc, ◌+◌, ◌*◌, Bool, true, false, Option, none, some, List, [], ◌∷◌, get_elem?, set,
  ◌==◌, ltb, if◌then◌else◌, ◌>>=◌,
}
use jmeter_on_k8s.Dict.{
  DictEntry, Chain, DictType, DictHt, Dict, dict_reset, slot, inc64, dec64, is_rehashing,
}

-- How `while (d->ht[0].table[d->rehashidx] == NULL)` ends: at a bucket with entries, with the
-- visits that are left, or by `return 1`.
pub data Skip {ℓ} (K V : Type ℓ) : Type ℓ where
  filled : ℕ → ℕ → Chain K V → Skip K V
  visited : ℕ → Skip K V

module _ {ℓ} {K V : Type ℓ} where
  -- `visits` is empty_visits, positive on entry: n is, whenever the loop is entered.
  unfoldable pub skip_empty : List (Chain K V) → ℕ → ℕ → Option (Skip K V)
  skip_empty t zero i = none
  skip_empty t (suc v) i =
      let rest = skip_empty t v (i + 1) in
      elim (get_elem? t i) [
        | none ↦ none
        | some [] ↦ if v == 0 then some (visited (i + 1)) else rest
        | some (e ∷ c) ↦ some (filled i (suc v) (e ∷ c))
      ]

  -- d->ht[0].table[d->rehashidx] = NULL; d->rehashidx++;
  abbrev pub leave_bucket : ℕ → Dict K V → Dict K V
  leave_bucket j d = record d {
    ht0 = record (d.ht0) { table = set d.ht0.table j [] };
    rehashidx = some (j + 1);
  }

  -- The test behind the loop: the second table takes the place of the first.
  abbrev pub finish_rehash : Bool × Dict K V → Bool × Dict K V
  finish_rehash (true, d) = (true, d)
  finish_rehash (false, d) =
      if d.ht0.used == 0
      then (false, record d { ht0 = d.ht1; ht1 = dict_reset; rehashidx = none })
      else (true, d)

module _ {ℓ} {K V : Type ℓ} (ty : DictType K V) where
  -- while (de) { ... }: the entries of one bucket, one by one, to the head of their new buckets.
  unfoldable pub migrate : Chain K V → Dict K V → Option (Dict K V)
  migrate [] d = some d
  migrate (e ∷ c) d =
      let h = slot ty d.ht1 e.key in
      elim (get_elem? d.ht1.table h) [
        | none ↦ none
        | some b ↦ migrate c (record d {
          ht0 = record (d.ht0) { used = dec64 d.ht0.used };
          ht1 = record (d.ht1) { table = set d.ht1.table h (e ∷ b); used = inc64 d.ht1.used };
        })
      ]

  -- while (n-- && d->ht[0].used != 0) { ... }; true is the `return 1` inside.
  unfoldable pub rehash_loop : ℕ → ℕ → Dict K V → Option (Bool × Dict K V)
  unfolding skip_empty migrate
  rehash_loop zero v d = some (false, d)
  rehash_loop (suc n) v d = elim (d.ht0.used == 0) [
    | true ↦ some (false, d)
    | false ↦ elim d.rehashidx [
      | none ↦ none
      | some i ↦ elim (ltb i d.ht0.size) [
        | false ↦ none
        | true ↦ elim (skip_empty d.ht0.table v i) [
          | none ↦ none
          | some (visited j) ↦ some (true, record d { rehashidx = some j })
          | some (filled j v' c) ↦ elim (migrate c d) [
            | none ↦ none
            | some d' ↦ rehash_loop n v' (leave_bucket j d')
          ]
        ]
      ]
    ]
  ]

  -- `n * 10` is an int: n is 1 or 100 in the callers.
  unfoldable pub dict_rehash : ℕ → Dict K V → Option (Bool × Dict K V)
  unfolding rehash_loop
  dict_rehash n d =
      if is_rehashing d
      then (rehash_loop n (n * 10) d >>= λ r. some (finish_rehash r))
      else some (false, d)

  unfoldable pub rehash_step : Dict K V → Option (Dict K V)
  unfolding dict_rehash
  rehash_step d = if d.iterators == 0 then (dict_rehash 1 d >>= λ (b, d'). some d') else some d

  -- if (dictIsRehashing(d)) _dictRehashStep(d);
  unfoldable pub step_if_rehashing : Dict K V → Option (Dict K V)
  unfolding rehash_step
  step_if_rehashing d = if is_rehashing d then rehash_step d else some d
