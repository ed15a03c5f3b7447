-- ===== src/Sds/Append/Tests.antt =====
-- The theorems on sdsCatLen of src/sds.c at a short string, with a realloc that fills with zeros.
use jmeter_on_k8s.Prelude.{
  ℕ, ◌+◌, ◌^◌, ◌<◌, ◌≡◌, refl, some, List, [], ◌∷◌, ◌++◌, length, take, replicate, arith,
  length-replicate, length-take, length-append,
}
use jmeter_on_k8s.Sds.{Sdshdr}
use jmeter_on_k8s.Sds.Range.{text, IsValid}
use jmeter_on_k8s.Sds.Append.{sds_cat_len}
use jmeter_on_k8s.Sds.Append.Room.{sds_cat_len_lem, sds_cat_len_wraps}

abbrev ab : Sdshdr
ab = record { len = 2; free = 1; buf = b'a' ∷ b'b' ∷ 0 ∷ 0 ∷ [] }

ab-IsValid : IsValid ab
ab-IsValid = record { fits = omega arith; small = omega arith; nul = refl }

abbrev zeros : List ℕ → ℕ → List ℕ
zeros b n = take n (b ++ replicate n 0)

length-zeros : (b : List ℕ) (n : ℕ) → length (zeros b n) ≡ n
length-zeros b n = omega (
  arith,
  length-take n (b ++ replicate n 0),
  length-append b (replicate n 0),
  length-replicate {A = ℕ} n 0,
)

sds_cat_len_lem_example :
    (s' : Sdshdr) × (sds_cat_len zeros ab (b'c' ∷ []) ≡ some s')
    × IsValid s'
    × (text s' ≡ text ab ++ b'c' ∷ [])
    × (length s'.buf ≡ 4)
    × (s'.free + 1 ≡ 1)
sds_cat_len_lem_example = sds_cat_len_lem zeros ab (b'c' ∷ []) ab-IsValid (omega arith)

sds_cat_len_wraps_example :
    (s' : Sdshdr) × (sds_cat_len zeros ab (b'c' ∷ b'd' ∷ []) ≡ some s')
    × (s'.free + 2 ≡ 1 + 2 ^ 32)
    × (length s'.buf < s'.free)
sds_cat_len_wraps_example =
    sds_cat_len_wraps zeros ab (b'c' ∷ b'd' ∷ []) ab-IsValid (omega arith) (omega arith)
      (length-zeros ab.buf)
