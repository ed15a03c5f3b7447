-- ===== src/Dict/Expand.antt =====
-- src/dict.c: _dictNextPower, dictExpand, _dictExpandIfNeeded, dictResize. `can_resize` is the
-- static variable dict_can_resize.
pub mod Power
pub mod Grow
pub mod Resize
use jmeter_on_k8s.Prelude.{
  ℕ, zero, suc, ◌+◌, ◌-◌, ◌*◌, ◌/◌, ◌%◌, ◌^◌, Bool, true, false, ◌&&◌, ◌||◌, not, Option, none,
  some, List, [], ◌∷◌, ◌==◌, ltb, leb, if◌then◌else◌, ◌>>=◌, replicate,
}
use jmeter_on_k8s.Dict.{Chain, DictHt, Dict, dict_ht_initial_size, is_rehashing}

abbrev long_max : ℕ
long_max = 2 ^ 63 - 1

-- while (1) { if (i >= size) return i; i *= 2; }
unfoldable pub next_power_loop : ℕ → ℕ → ℕ → Option ℕ
next_power_loop zero i size = none
next_power_loop (suc fuel) i size = elim (leb size i) [
  | true ↦ some i
  | false ↦ next_power_loop fuel (i * 2 % 2 ^ 64) size
]

unfoldable pub next_power : ℕ → Option ℕ
unfolding next_power_loop
next_power size =
    if leb long_max size then some long_max else next_power_loop 62 dict_ht_initial_size size

abbrev dict_force_resize_ratio : ℕ
dict_force_resize_ratio = 5

module _ {ℓ} {K V : Type ℓ} where
  -- zcalloc(realsize * sizeof(DictEntry *))
  abbrev pub calloc_buckets : ℕ → List (Chain K V)
  calloc_buckets n = replicate (n * 8 % 2 ^ 64 / 8) []

  abbrev pub new_table : ℕ → DictHt K V
  new_table realsize = record {
    table = calloc_buckets realsize;
    size = realsize;
    size_mask = realsize - 1;
    used = 0;
  }

  -- d->ht[0].table == NULL
  abbrev pub is_null : List (Chain K V) → Bool
  is_null [] = true
  is_null (c ∷ t) = false

  -- The answer is true for DICT_OK.
  unfoldable pub dict_expand : Dict K V → ℕ → Option (Bool × Dict K V)
  dict_expand d size = next_power size >>= λ realsize.
      if is_rehashing d || ltb size d.ht0.used
      then some (false, d)
      else if realsize == d.ht0.size
      then some (false, d)
      else if is_null d.ht0.table
      then some (true, record d { ht0 = new_table realsize })
      else some (true, record d { ht1 = new_table realsize; rehashidx = some 0 })

  unfoldable pub expand_if_needed : Bool → Dict K V → Option (Bool × Dict K V)
  expand_if_needed can_resize d =
      if is_rehashing d
      then some (true, d)
      else if d.ht0.size == 0
      then dict_expand d dict_ht_initial_size
      else if leb d.ht0.size d.ht0.used
          && (can_resize || ltb dict_force_resize_ratio (d.ht0.used / d.ht0.size))
      then dict_expand d (d.ht0.used * 2 % 2 ^ 64)
      else some (true, d)

  -- `minimal` is an int: the number of entries is taken to be below 2 ^ 31.
  unfoldable pub dict_resize : Bool → Dict K V → Option (Bool × Dict K V)
  dict_resize can_resize d =
      if not can_resize || is_rehashing d
      then some (false, d)
      else dict_expand d
          (if ltb d.ht0.used dict_ht_initial_size then dict_ht_initial_size else d.ht0.used)
