-- ===== src/Intset/Tests.antt =====
-- The theorems on src/intset.c at a small set: -2, 3 and 300 in 16 bits.
use jmeter_on_k8s.Prelude.{ℕ, zero, suc, ◌<◌, ◌≤◌, ◌≡◌, refl, Bool, some, [], ◌∷◌, arith}
use jmeter_on_k8s.Prelude.Int.{ℤ, pos, negsuc}
use jmeter_on_k8s.Intset.{Intset, get_at, get_encoded, read_bytes, value_encoding}
use jmeter_on_k8s.Intset.Search.{intset_search}
use jmeter_on_k8s.Intset.Search.Correct.{◌<ℤ◌, Stores, Located, intset_search_lem}

abbrev three : Intset
three = record { encodeing = 2; length = 3; contents = 254 ∷ 255 ∷ 3 ∷ 0 ∷ 44 ∷ 1 ∷ [] }

abbrev three_values : ℕ → ℤ
three_values zero = negsuc 1
three_values (suc zero) = pos 3
three_values (suc (suc i)) = pos 300

three-reads : (i : ℕ) → i < 3 → get_at three i ≡ some (three_values i)
unfolding get_at get_encoded read_bytes
three-reads zero h = refl
three-reads (suc zero) h = refl
three-reads (suc (suc zero)) h = refl
three-reads (suc (suc (suc i))) h = absurd (omega arith)

three-sorted : (i j : ℕ) → i < j → j < 3 → three_values i <ℤ three_values j
three-sorted zero (suc zero) h k = omega arith
three-sorted zero (suc (suc j)) h k = omega arith
three-sorted (suc zero) (suc (suc j)) h k = omega arith
three-sorted (suc (suc i)) (suc (suc j)) h k = absurd (omega arith)
three-sorted i zero h k = absurd (omega arith)
three-sorted (suc i) (suc zero) h k = absurd (omega arith)

three-Stores : Stores three three_values
three-Stores = record { reads = three-reads; sorted = three-sorted; short = omega arith }

three-fit : (i : ℕ) → i < 3 → value_encoding (three_values i) ≤ 2
unfolding value_encoding
three-fit zero h = omega arith
three-fit (suc zero) h = omega arith
three-fit (suc (suc i)) h = omega arith

intset_search_lem_example :
    (r : Bool × ℕ) × (intset_search three (pos 300) ≡ some r) × Located three_values 3 (pos 300) r
intset_search_lem_example = intset_search_lem three three_values (pos 300) three-Stores
