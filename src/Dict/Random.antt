-- ===== src/Dict/Random.antt =====
-- dictGetRandomKey of src/dict.c. The list `rs` is what random() returns from here on; the functions
-- give what is left of it, and `none` where it is used up or an access is a bad one. A bucket number
-- is an unsigned int.
pub mod Correct
use jmeter_on_k8s.Prelude.{
  ℕ, ◌+◌, ◌-◌, ◌%◌, ◌^◌, Bool, true, false, Option, none, some, List, [], ◌∷◌, ◌==◌, ltb, leb,
  if◌then◌else◌, ◌>>=◌, length, get_elem?, bit_and,
}
use jmeter_on_k8s.Dict.{DictEntry, Chain, DictType, Dict, dict_size}
use jmeter_on_k8s.Dict.Rehash.{step_if_rehashing}

module _ {ℓ} {K V : Type ℓ} where
  -- The bucket that one round of a do-while loop looks at.
  abbrev pub busy_bucket : Dict K V → ℕ → ℕ → Option (Chain K V)
  busy_bucket d i r =
      let h = (i + r % (d.ht0.size + d.ht1.size - i)) % 2 ^ 32 in
      if leb d.ht0.size h then get_elem? d.ht1.table (h - d.ht0.size) else get_elem? d.ht0.table h

  abbrev pub idle_bucket : Dict K V → ℕ → Option (Chain K V)
  idle_bucket d r = get_elem? d.ht0.table (bit_and r d.ht0.size_mask % 2 ^ 32)

  abbrev pub look_at : Dict K V → ℕ → Option (Chain K V)
  look_at d r = elim d.rehashidx [ some i ↦ busy_bucket d i r | none ↦ idle_bucket d r ]

  -- do { ... } while (he == NULL);
  unfoldable pub draw_bucket : Dict K V → List ℕ → Option (Chain K V × List ℕ)
  draw_bucket d [] = none
  draw_bucket d (r ∷ rs) =
      look_at d r >>= λ c. elim c [ [] ↦ draw_bucket d rs | e ∷ c' ↦ some (e ∷ c', rs) ]

  -- The entry of the bucket at random() % list_len; list_len is an int, whose overflow is `none`.
  abbrev pub draw_entry : Chain K V → List ℕ → Option (DictEntry K V × List ℕ)
  draw_entry c [] = none
  draw_entry c (r ∷ rs) =
      if ltb (length c) (2 ^ 31) then (get_elem? c (r % length c) >>= λ e. some (e, rs)) else none

  unfoldable pub dict_get_random_key :
      DictType K V → Dict K V → List ℕ → Option (Option (DictEntry K V) × Dict K V × List ℕ)
  dict_get_random_key ty d rs =
      if dict_size d == 0
      then some (none, d, rs)
      else (step_if_rehashing ty d >>= λ d'.
          draw_bucket d' rs >>= λ (c, rs1). draw_entry c rs1 >>= λ (e, rs2). some (some e, d', rs2))
