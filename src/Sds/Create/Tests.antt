-- ===== src/Sds/Create/Tests.antt =====
-- The theorems on new strings of src/sds.c at a short text and a number, with blocks full of sevens.
use jmeter_on_k8s.Prelude.{
  ℕ, ◌≤◌, ◌≡◌, refl, some, List, [], ◌∷◌, replicate, arith, length-replicate,
}
use jmeter_on_k8s.Prelude.Int.{negsuc}
use jmeter_on_k8s.Sds.{Sdshdr}
use jmeter_on_k8s.Sds.Range.{text, IsValid}
use jmeter_on_k8s.Sds.Create.{sds_from_long_long}
use jmeter_on_k8s.Sds.Create.Fresh.{sds_from_long_long_lem}
use jmeter_on_k8s.Sds.Number.Decimal.{read_number}

abbrev sevens : ℕ → List ℕ
sevens n = replicate n 7

abbrev hi : Sdshdr
hi = record { len = 2; free = 1; buf = b'h' ∷ b'i' ∷ 0 ∷ 0 ∷ [] }

sds_from_long_long_lem_example :
    (s : Sdshdr) × (sds_from_long_long sevens (sevens 21) (negsuc 41) ≡ some s)
    × IsValid s
    × (read_number (text s) ≡ some (negsuc 41))
    × (s.len ≤ 20)
sds_from_long_long_lem_example =
    sds_from_long_long_lem sevens (sevens 21) (negsuc 41) (λ k. length-replicate k 7) refl
      (omega arith)
