-- ===== src/Sds/Edit/Tests.antt =====
-- The theorems on the changes of a string of src/sds.c, at short texts.
use jmeter_on_k8s.Prelude.{ℕ, ◌+◌, ◌≡◌, refl, some, List, [], ◌∷◌, arith}
use jmeter_on_k8s.Sds.{Sdshdr}
use jmeter_on_k8s.Sds.Range.{text, IsValid}
use jmeter_on_k8s.Sds.Edit.{sds_cmp, sds_trim}
use jmeter_on_k8s.Sds.Edit.Compare.{sign, lexicographic, sds_cmp_lem}
use jmeter_on_k8s.Sds.Edit.Trim.{drop_start, drop_end}
use jmeter_on_k8s.Sds.Edit.Trim.Correct.{sds_trim_lem}

abbrev grow : List ℕ → ℕ → List ℕ
grow b n = b

-- a b and a dash on each side
abbrev dashes : Sdshdr
dashes = record { len = 4; free = 2; buf = b'-' ∷ b'a' ∷ b'b' ∷ b'-' ∷ 0 ∷ 0 ∷ 0 ∷ [] }

dashes-IsValid : IsValid dashes
dashes-IsValid = record { fits = omega arith; small = omega arith; nul = refl }

abbrev dash : Sdshdr
dash = record { len = 1; free = 0; buf = b'-' ∷ 0 ∷ [] }

dash-IsValid : IsValid dash
dash-IsValid = record { fits = omega arith; small = omega arith; nul = refl }

sds_trim_lem_example :
    (s : Sdshdr) × (sds_trim dashes (b'-' ∷ []) ≡ some s)
    × IsValid s
    × (text s ≡ drop_end (b'-' ∷ []) (drop_start (b'-' ∷ []) (text dashes)))
    × (s.len + s.free ≡ 6)
sds_trim_lem_example = sds_trim_lem dashes (b'-' ∷ []) dashes-IsValid

sds_cmp_lem_example : sign (sds_cmp dash dashes) ≡ lexicographic (text dash) (text dashes)
sds_cmp_lem_example = sds_cmp_lem dash dashes dash-IsValid dashes-IsValid
