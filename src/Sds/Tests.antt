-- ===== src/Sds/Tests.antt =====
-- The theorem on sdsRange of src/sds.c at one string: the last three bytes of "cache".
use jmeter_on_k8s.Prelude.{◌+◌, ◌-◌, ◌≡◌, refl, some, [], ◌∷◌, take, drop, length, arith}
use jmeter_on_k8s.Prelude.Int.{negsuc}
use jmeter_on_k8s.Sds.{Sdshdr, from_end, sds_range}
use jmeter_on_k8s.Sds.Range.{text, IsValid, sds_range_lem}

abbrev cache_sds : Sdshdr
cache_sds = record { len = 5; free = 1; buf = b'c' ∷ b'a' ∷ b'c' ∷ b'h' ∷ b'e' ∷ 0 ∷ 0 ∷ [] }

cache_sds-IsValid : IsValid cache_sds
cache_sds-IsValid = record { fits = omega arith; small = omega arith; nul = refl }

sds_range_lem_example :
    (s' : Sdshdr) × (sds_range cache_sds (negsuc 2) (negsuc 0) ≡ some s')
    × IsValid s'
    × (text s'
        ≡ take
            (from_end 5 (negsuc 0) + 1 - from_end 5 (negsuc 2))
            (drop (from_end 5 (negsuc 2)) (text cache_sds)))
    × (length s'.buf ≡ 7)
    × (s'.len + s'.free ≡ 6)
sds_range_lem_example = sds_range_lem cache_sds (negsuc 2) (negsuc 0) cache_sds-IsValid
