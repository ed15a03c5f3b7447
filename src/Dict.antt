-- ===== src/Dict.antt =====
-- The hash table of src/dict.h and src/dict.c: the structures, and the callbacks that a table is
-- given as a `DictType`. The children hold the operations and, below them, their proofs.
pub mod Chain
pub mod Table
pub mod Valid
pub mod Rehash
pub mod Hash
pub mod Expand
pub mod Ops
pub mod Random
pub mod Iterator
pub mod Tests
use jmeter_on_k8s.Prelude.{
  ℕ, ◌+◌, ◌-◌, ◌%◌, ◌^◌, Bool, true, false, Option, none, some, List, [], ◌∷◌, bit_and,
}

-- The member `val` of the union `v` is the one that dict.c itself reads and writes.
pub record DictEntry {ℓ} (K V : Type ℓ) : Type ℓ where
  pub key : K
  pub val : V

-- `he`, `he->next`, ...: the entries of one bucket from its head; the empty list is NULL.
abbrev pub Chain {ℓ} : Type ℓ → Type ℓ → Type ℓ
Chain K V = List (DictEntry K V)

-- The callbacks, `none` for a NULL pointer. `same_pointer` is `==` on two key pointers. Of a
-- destructor the table only sees whether there is one.
pub record DictType {ℓ} (K V : Type ℓ) : Type ℓ where
  pub hash_function : K → ℕ
  pub key_dup : Option (K → K)
  pub val_dup : Option (V → V)
  pub key_compare : Option (K → K → Bool)
  pub same_pointer : K → K → Bool
  pub key_destructor : Bool
  pub val_destructor : Bool

-- A NULL `table` is the empty list.
pub record DictHt {ℓ} (K V : Type ℓ) : Type ℓ where
  pub table : List (Chain K V)
  pub size : ℕ
  pub size_mask : ℕ
  pub used : ℕ

-- `rehashidx` is `none` where the source has -1.
pub record Dict {ℓ} (K V : Type ℓ) : Type ℓ where
  pub ht0 : DictHt K V
  pub ht1 : DictHt K V
  pub rehashidx : Option ℕ
  pub iterators : ℕ

-- A call of a destructor.
pub data Freed {ℓ} (K V : Type ℓ) : Type ℓ where
  key_freed : K → Freed K V
  val_freed : V → Freed K V

-- `used++` and `used--` on an `unsigned long`.
abbrev pub inc64 : ℕ → ℕ
inc64 n = (n + 1) % 2 ^ 64

abbrev pub dec64 : ℕ → ℕ
dec64 n = (n + 2 ^ 64 - 1) % 2 ^ 64

abbrev pub dict_ht_initial_size : ℕ
dict_ht_initial_size = 4

module _ {ℓ} {K V : Type ℓ} where
  -- dictCompareKeys, the search key first
  abbrev pub compare_keys : DictType K V → K → K → Bool
  compare_keys ty a b = elim ty.key_compare [ some f ↦ f a b | none ↦ ty.same_pointer a b ]

  -- dictSetKey and distSetVal
  abbrev pub dup_key : DictType K V → K → K
  dup_key ty k = elim ty.key_dup [ some f ↦ f k | none ↦ k ]

  abbrev pub dup_val : DictType K V → V → V
  dup_val ty v = elim ty.val_dup [ some f ↦ f v | none ↦ v ]

  -- dictFreeKey and dictFreeVal
  abbrev pub free_key : DictType K V → DictEntry K V → List (Freed K V)
  free_key ty e = elim ty.key_destructor [ true ↦ key_freed e.key ∷ [] | false ↦ [] ]

  abbrev pub free_val : DictType K V → DictEntry K V → List (Freed K V)
  free_val ty e = elim ty.val_destructor [ true ↦ val_freed e.val ∷ [] | false ↦ [] ]

  -- dictIsRehashing
  abbrev pub is_rehashing : Dict K V → Bool
  is_rehashing d = elim d.rehashidx [ none ↦ false | some i ↦ true ]

  -- dictSize and dictSlots
  abbrev pub dict_size : Dict K V → ℕ
  dict_size d = (d.ht0.used + d.ht1.used) % 2 ^ 64

  abbrev pub dict_slots : Dict K V → ℕ
  dict_slots d = (d.ht0.size + d.ht1.size) % 2 ^ 64

  -- `h & size_mask`
  abbrev pub slot : DictType K V → DictHt K V → K → ℕ
  slot ty t k = bit_and (ty.hash_function k) t.size_mask

-- _dictReset, and dictCreate through _dictInit
module _ {ℓ} {K V : Type ℓ} where
  abbrev pub dict_reset : DictHt K V
  dict_reset = record { table = []; size = 0; size_mask = 0; used = 0 }

  abbrev pub dict_create : Dict K V
  dict_create = record { ht0 = dict_reset; ht1 = dict_reset; rehashidx = none; iterators = 0 }
