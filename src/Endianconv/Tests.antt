-- ===== src/Endianconv/Tests.antt =====
-- The theorems on src/endianconv.c at one number each.
use jmeter_on_k8s.Prelude.{ℕ, ◌≡◌, some, arith}
use mathlib.Core.List.{reverse}
use jmeter_on_k8s.Endianconv.{to_bytes, intrev64}
use jmeter_on_k8s.Endianconv.Reverse.{intrev64_lem}

intrev64_lem_example :
    (u : ℕ) × (intrev64 258 ≡ some u)
    × (to_bytes 8 u ≡ reverse (to_bytes 8 258))
    × (intrev64 u ≡ some 258)
intrev64_lem_example = intrev64_lem 258 (omega arith)
