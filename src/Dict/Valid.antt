-- ===== src/Dict/Valid.antt =====
-- The invariant of a dict while it is and while it is not rehashing, and what a key stands for.
use mathlib.Core.Option.{or_else}
use jmeter_on_k8s.Prelude.{ℕ, ◌+◌, ◌^◌, ◌<◌, ◌≡◌, ◌⊎◌, Option, none, some, drop, inl, refl, arith}
use jmeter_on_k8s.Dict.{DictEntry, DictType, Dict, dict_reset, dict_create}
use jmeter_on_k8s.Dict.Chain.{chain_find}
use jmeter_on_k8s.Dict.Table.{total, ht_view, IsHt, dict_reset-IsHt}

module _ {ℓ} {K V : Type ℓ} (ty : DictType K V) where
  -- The abstract dictionary: a key stands for the entry that the first table has, or the second.
  unfoldable pub view : Dict K V → K → Option (DictEntry K V)
  view d q = or_else (ht_view ty d.ht0 q) (ht_view ty d.ht1 q)

  -- `apart`: no key is in both tables. `idle`: with no rehashing the second table is the reset one.
  -- `busy`: all entries of the first table stand at or behind `rehashidx`. `small`: the counters
  -- are far from wrapping, since an entry takes 24 bytes.
  pub record IsValid (d : Dict K V) : Type ℓ where
    pub first : IsHt ty d.ht0
    pub second : IsHt ty d.ht1
    pub apart : (q : K) → (ht_view ty d.ht0 q ≡ none) ⊎ (ht_view ty d.ht1 q ≡ none)
    pub idle : d.rehashidx ≡ none → d.ht1 ≡ dict_reset
    pub busy :
        (i : ℕ)
        → d.rehashidx ≡ some i
        → (0 < d.ht0.size) × (0 < d.ht1.size) × (total (drop i d.ht0.table) ≡ d.ht0.used)
    pub small : d.ht0.used + d.ht1.used < 2 ^ 60

  pub dict_create-IsValid : IsValid dict_create
  unfolding chain_find
  dict_create-IsValid = record {
    first = dict_reset-IsHt ty;
    second = dict_reset-IsHt ty;
    apart = λ q. inl refl;
    idle = λ h. refl;
    busy = λ i h. ground arith;
    small = omega arith;
  }
