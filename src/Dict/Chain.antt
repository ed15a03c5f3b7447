-- ===== src/Dict/Chain.antt =====
-- The walks along one bucket that src/dict.c repeats in dictFind, _dictKeyIndex, dictGenericDelete
-- and dictReplace, and what they do to a bucket whose keys differ.
use jmeter_on_k8s.Prelude.{
  ◌+◌, ◌≡◌, refl, true, Option, none, some, [], ◌∷◌, arith, length, if◌then◌else◌, Bool-cases, inl,
  inr,
}
use jmeter_on_k8s.Dict.{DictEntry, Chain, DictType, compare_keys, dup_key}

-- What a `DictType` must promise: the comparison is an equivalence, equal keys hash alike, and a
-- copy of a key is equal to it.
pub record IsLawful {ℓ} {K V : Type ℓ} (ty : DictType K V) : Type ℓ where
  pub compare_refl : (a : K) → compare_keys ty a a ≡ true
  pub compare_symm : (a b : K) → compare_keys ty a b ≡ true → compare_keys ty b a ≡ true
  pub compare_trans :
      (a b c : K)
      → compare_keys ty a b ≡ true
      → compare_keys ty b c ≡ true
      → compare_keys ty a c ≡ true
  pub hash_congr : (a b : K) → compare_keys ty a b ≡ true → ty.hash_function a ≡ ty.hash_function b
  pub dup_same : (a : K) → compare_keys ty a (dup_key ty a) ≡ true

module _ {ℓ} {K V : Type ℓ} (ty : DictType K V) where
  -- while (he) { if (dictCompareKeys(d, key, he->key)) ... ; he = he->next; }
  unfoldable pub chain_find : K → Chain K V → Option (DictEntry K V)
  chain_find k [] = none
  chain_find k (e ∷ c) = if compare_keys ty k e.key then some e else chain_find k c

  -- prev_he->next = he->next, or the head when there is no prev_he
  unfoldable pub chain_unlink : K → Chain K V → Chain K V
  chain_unlink k [] = []
  chain_unlink k (e ∷ c) = if compare_keys ty k e.key then c else e ∷ chain_unlink k c

  -- entry->v.val = val, at the entry that chain_find returns
  unfoldable pub chain_set_val : K → V → Chain K V → Chain K V
  chain_set_val k v [] = []
  chain_set_val k v (e ∷ c) =
      if compare_keys ty k e.key then record e { val = v } ∷ c else e ∷ chain_set_val k v c

  -- No key of the bucket compares equal to a later one.
  abbrev pub IsDistinct : Chain K V → Type ℓ
  IsDistinct [] = Unit
  IsDistinct (e ∷ c) = (chain_find e.key c ≡ none) × IsDistinct c

module _ {ℓ} {K V : Type ℓ} (ty : DictType K V) (law : IsLawful ty) where
  pub chain_find_congr :
      (a b : K) (c : Chain K V) → compare_keys ty a b ≡ true → chain_find ty a c ≡ chain_find ty b c
  unfolding chain_find
  chain_find_congr a b [] h = refl
  chain_find_congr a b (e ∷ c) h = ground (
    arith,
    chain_find_congr a b c h,
    law.compare_trans a b e.key,
    law.compare_trans b a e.key,
    law.compare_symm a b h,
  )

  pub chain_find-compare :
      (k : K) (c : Chain K V) (e : DictEntry K V)
      → chain_find ty k c ≡ some e
      → compare_keys ty k e.key ≡ true
  unfolding chain_find
  chain_find-compare k [] e h = ground arith
  chain_find-compare k (x ∷ c) e h = ground (arith, chain_find-compare k c e)

  pub chain_find-unlink :
      (k q : K) (c : Chain K V)
      → IsDistinct ty c
      → chain_find ty q (chain_unlink ty k c)
        ≡ (if compare_keys ty k q then none else chain_find ty q c)
  unfolding chain_find chain_unlink
  chain_find-unlink k q [] d = ground arith
  chain_find-unlink k q (e ∷ c) d = ground (
    arith,
    chain_find-unlink k q c d.1,
    chain_find_congr q e.key c,
    law.compare_trans k q e.key,
    law.compare_trans q k e.key,
    law.compare_symm k q,
    law.compare_trans k e.key q,
    law.compare_symm q e.key,
  )

  pub chain_find-set_val :
      (k q : K) (v : V) (c : Chain K V) (old : DictEntry K V)
      → chain_find ty k c ≡ some old
      → chain_find ty q (chain_set_val ty k v c)
        ≡ (if compare_keys ty k q then some (record old { val = v }) else chain_find ty q c)
  unfolding chain_find chain_set_val
  chain_find-set_val k q v [] old h = ground arith
  chain_find-set_val k q v (e ∷ c) old h = ground (
    arith,
    chain_find-set_val k q v c old,
    law.compare_trans k q e.key,
    law.compare_trans q k e.key,
    law.compare_symm k q,
    law.compare_trans k e.key q,
    law.compare_symm q e.key,
  )

  chain_find-none-set_val :
      (k q : K) (v : V) (c : Chain K V)
      → chain_find ty q c ≡ none
      → chain_find ty q (chain_set_val ty k v c) ≡ none
  unfolding chain_find chain_set_val
  chain_find-none-set_val k q v [] h = refl
  chain_find-none-set_val k q v (e ∷ c) h = ground (arith, chain_find-none-set_val k q v c)

  pub unlink-IsDistinct :
      (k : K) (c : Chain K V) → IsDistinct ty c → IsDistinct ty (chain_unlink ty k c)
  unfolding chain_unlink
  unlink-IsDistinct k [] d = d
  unlink-IsDistinct k (e ∷ c) d = elim (Bool-cases (compare_keys ty k e.key)) [
    | inl h ↦ rw h d.1
    | inr h ↦ rw h (rw (chain_find-unlink k e.key c d.1, h) d.0, unlink-IsDistinct k c d.1)
  ]

  pub set_val-IsDistinct :
      (k : K) (v : V) (c : Chain K V) → IsDistinct ty c → IsDistinct ty (chain_set_val ty k v c)
  unfolding chain_set_val
  set_val-IsDistinct k v [] d = d
  set_val-IsDistinct k v (e ∷ c) d = elim (Bool-cases (compare_keys ty k e.key)) [
    | inl h ↦ rw h d
    | inr h ↦ rw h (chain_find-none-set_val k e.key v c d.0, set_val-IsDistinct k v c d.1)
  ]

  pub length-unlink :
      (k : K) (c : Chain K V) (old : DictEntry K V)
      → chain_find ty k c ≡ some old
      → length (chain_unlink ty k c) + 1 ≡ length c
  unfolding chain_find chain_unlink
  length-unlink k [] old h = ground arith
  length-unlink k (e ∷ c) old h = ground (arith, length-unlink k c old)

  pub length-set_val : (k : K) (v : V) (c : Chain K V) → length (chain_set_val ty k v c) ≡ length c
  unfolding chain_set_val
  length-set_val k v [] = refl
  length-set_val k v (e ∷ c) = ground (arith, length-set_val k v c)
