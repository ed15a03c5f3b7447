-- ===== src/Dict/Table.antt =====
-- One table of a dict: what it means for it to be well formed, what a key stands for in it, and
-- the effect of replacing one bucket.
use jmeter_on_k8s.Prelude.Bits.{bit_and-le}
use jmeter_on_k8s.Prelude.{
  ℕ, zero, suc, ◌+◌, ◌-◌, ◌^◌, ◌≤◌, ◌<◌, ◌≡◌, ◌≢◌, inl, inr, refl, ap, ◌∙◌, true, Option, none,
  some, List, [], ◌∷◌, arith, length, get_elem?, get_or, set, replicate, bit_and, if◌then◌else◌,
  Bool-cases, ==_iff, ◌==◌, length-set, get_or-set_self, get_or-set_ne, get_elem?-get_or,
  get_or-set_cases,
}
use jmeter_on_k8s.Dict.{DictEntry, Chain, DictType, DictHt, dict_reset, slot, inc64, compare_keys}
use jmeter_on_k8s.Dict.Chain.{IsLawful, IsDistinct, chain_find}

-- The number of entries in all buckets.
unfoldable pub total {ℓ} : {A : Type ℓ} → List (List A) → ℕ
total [] = 0
total (c ∷ cs) = length c + total cs

pub total-replicate {ℓ} : (A : Type ℓ) (n : ℕ) → total {A = A} (replicate n []) ≡ 0
unfolding total
total-replicate A zero = refl
total-replicate A (suc n) = omega (arith, total-replicate A n)

module _ {ℓ} {A : Type ℓ} where
  pub total-set :
      (t : List (List A)) (i : ℕ) (c : List A)
      → i < length t
      → total (set t i c) + length (get_or t i []) ≡ total t + length c
  unfolding total
  total-set [] i c h = elim h [ ]
  total-set (x ∷ t) zero c h = omega arith
  total-set (x ∷ t) (suc i) c h = omega (arith, total-set t i c (omega arith))

  pub length-le-total : (t : List (List A)) (i : ℕ) → length (get_or t i []) ≤ total t
  unfolding total
  length-le-total [] i = omega arith
  length-le-total (x ∷ t) zero = omega arith
  length-le-total (x ∷ t) (suc i) = omega (arith, length-le-total t i)

  pub eq_nil_of_length : (c : List A) → length c ≡ 0 → c ≡ []
  eq_nil_of_length [] h = refl
  eq_nil_of_length (x ∷ c) h = absurd (omega arith)

-- A write of `c` to bucket `i`, with the count that goes with it.
abbrev pub put_bucket {ℓ} : {K V : Type ℓ} → DictHt K V → ℕ → Chain K V → ℕ → DictHt K V
put_bucket t i c n = record t { table = set t.table i c; used = n }

module _ {ℓ} {K V : Type ℓ} (ty : DictType K V) where
  abbrev pub bucket_of : DictHt K V → K → Chain K V
  bucket_of t k = get_or t.table (slot ty t k) []

  -- What a key stands for in one table.
  abbrev pub ht_view : DictHt K V → K → Option (DictEntry K V)
  ht_view t q = chain_find ty q (bucket_of t q)

  -- `width`, `mask`: the array has `size` buckets, and the mask selects them. `counted`: `used` is
  -- the number of entries. `placed`: a key is found in its own bucket only. `distinct`: no two keys
  -- of a bucket are equal.
  pub record IsHt (t : DictHt K V) : Type ℓ where
    pub width : length t.table ≡ t.size
    pub mask : t.size ≡ (if t.size == 0 then 0 else suc t.size_mask)
    pub counted : total t.table ≡ t.used
    pub placed : (q : K) (i : ℕ) → slot ty t q ≢ i → chain_find ty q (get_or t.table i []) ≡ none
    pub distinct : (i : ℕ) → IsDistinct ty (get_or t.table i [])

  pub slot-lt : (t : DictHt K V) (k : K) → IsHt t → 0 < t.size → slot ty t k < length t.table
  slot-lt t k v h =
      let w = v.width in
      let m = v.mask in ground (arith, bit_and-le (ty.hash_function k) t.size_mask)

  pub get_elem?-bucket_of :
      (t : DictHt K V) (k : K)
      → IsHt t
      → 0 < t.size
      → get_elem? t.table (slot ty t k) ≡ some (bucket_of t k)
  get_elem?-bucket_of t k v h = get_elem?-get_or t.table (slot ty t k) [] (slot-lt t k v h)

  pub dict_reset-IsHt : IsHt dict_reset
  unfolding chain_find total
  dict_reset-IsHt = record {
    width = refl;
    mask = refl;
    counted = refl;
    placed = λ q i h. refl;
    distinct = λ i. tt;
  }

  abbrev pub zero_table : ℕ → DictHt K V
  zero_table n = record { table = replicate n []; size = n; size_mask = n - 1; used = 0 }

  pub put_bucket-IsHt :
      (t : DictHt K V) (i : ℕ) (c : Chain K V) (n : ℕ)
      → IsHt t
      → i < length t.table
      → n + length (get_or t.table i []) ≡ t.used + length c
      → ((q : K) → slot ty t q ≢ i → chain_find ty q c ≡ none)
      → IsDistinct ty c
      → IsHt (put_bucket t i c n)
  put_bucket-IsHt t i c n v h size out d = record {
    width = length-set t.table i c ∙ v.width;
    mask = v.mask;
    counted = omega (arith, total-set t.table i c h, v.counted);
    placed = λ q j ne.
        get_or-set_cases (λ b. chain_find ty q b ≡ none) t.table i j c [] h
          (λ e. out q (λ e'. ne (e' ∙ e))) (λ _. v.placed q j ne);
    distinct =
        λ j. get_or-set_cases (IsDistinct ty) t.table i j c [] h (λ _. d) (λ _. v.distinct j);
  }

  pub ht_view-put_bucket :
      (t : DictHt K V) (i : ℕ) (c : Chain K V) (n : ℕ) (q : K)
      → i < length t.table
      → ht_view (put_bucket t i c n) q
        ≡ (if slot ty t q == i then chain_find ty q c else ht_view t q)
  ht_view-put_bucket t i c n q h = elim (Bool-cases (slot ty t q == i)) [
    | inl e ↦
        let e' = (==_iff (slot ty t q) i).0 e in
        rw e (rw e' (rw (get_or-set_self t.table i c [] h)))
    | inr e ↦ rw e (rw (get_or-set_ne t.table i (slot ty t q) c [] (ground arith)))
  ]

  -- dictAddRaw, and the inner loop of dictRehash: a new head for the bucket of its key.
  abbrev pub push_entry : DictEntry K V → DictHt K V → DictHt K V
  push_entry e t = put_bucket t (slot ty t e.key) (e ∷ bucket_of t e.key) (inc64 t.used)

  module _ (law : IsLawful ty) where
    pub slot_congr :
        (t : DictHt K V) (a b : K) → compare_keys ty a b ≡ true → slot ty t a ≡ slot ty t b
    slot_congr t a b h = ap (λ x. bit_and x t.size_mask) (law.hash_congr a b h)

    pub push_entry-IsHt :
        (e : DictEntry K V) (t : DictHt K V)
        → IsHt t
        → 0 < t.size
        → suc t.used < 2 ^ 64
        → ht_view t e.key ≡ none
        → IsHt (push_entry e t)
    unfolding chain_find
    push_entry-IsHt e t v h small new =
        put_bucket-IsHt t (slot ty t e.key) (e ∷ bucket_of t e.key) (inc64 t.used) v
          (slot-lt t e.key v h) (omega arith)
          (λ q ne. ground (arith, slot_congr t q e.key, v.placed q (slot ty t e.key) ne))
          (new, v.distinct (slot ty t e.key))

    pub ht_view-push_entry :
        (e : DictEntry K V) (t : DictHt K V) (q : K)
        → IsHt t
        → 0 < t.size
        → ht_view (push_entry e t) q ≡ (if compare_keys ty q e.key then some e else ht_view t q)
    unfolding chain_find
    ht_view-push_entry e t q v h =
        rw
          (ht_view-put_bucket t (slot ty t e.key) (e ∷ bucket_of t e.key) (inc64 t.used) q
            (slot-lt t e.key v h))
          (ground (arith, slot_congr t q e.key))
