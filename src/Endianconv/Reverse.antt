-- ===== src/Endianconv/Reverse.antt =====
-- What the swaps of src/endianconv.c do, and that a second one undoes the first.
use jmeter_on_k8s.Prelude.{
  ℕ, zero, suc, ◌+◌, ◌*◌, ◌/◌, ◌%◌, ◌^◌, ◌<◌, ◌≡◌, refl, some, List, [], ◌∷◌, ◌>>=◌, arith, length,
}
use mathlib.Core.List.{reverse}
use jmeter_on_k8s.Endianconv.{swap, memrev32, memrev64, to_bytes, from_bytes, intrev32, intrev64}

abbrev pub AllBytes : List ℕ → Type 0
AllBytes [] = Unit
AllBytes (b ∷ x) = (b < 256) × AllBytes x

digit : (b n : ℕ) → b < 256 → (b + 256 * n) % 256 ≡ b
digit b n h = omega arith

rest_digits : (b n : ℕ) → b < 256 → (b + 256 * n) / 256 ≡ n
rest_digits b n h = omega arith

to_bytes-from_bytes : (x : List ℕ) → AllBytes x → to_bytes (length x) (from_bytes x) ≡ x
unfolding to_bytes from_bytes
to_bytes-from_bytes [] h = refl
to_bytes-from_bytes (b ∷ x) (h, k) =
    rw (digit b (from_bytes x) h, rest_digits b (from_bytes x) h, to_bytes-from_bytes x k) refl

from_bytes-to_bytes : (w v : ℕ) → v < 256 ^ w → from_bytes (to_bytes w v) ≡ v
unfolding to_bytes from_bytes
from_bytes-to_bytes zero v h = omega arith
from_bytes-to_bytes (suc w) v h = rw (from_bytes-to_bytes w (v / 256) (omega arith)) (omega arith)

memrev64-to_bytes : (v : ℕ) → memrev64 (to_bytes 8 v) ≡ some (reverse (to_bytes 8 v))
unfolding memrev64 swap to_bytes
memrev64-to_bytes v = refl

memrev64-reverse : (v : ℕ) → memrev64 (reverse (to_bytes 8 v)) ≡ some (to_bytes 8 v)
unfolding memrev64 swap to_bytes
memrev64-reverse v = refl

to_bytes-from_bytes64 :
    (v : ℕ) → to_bytes 8 (from_bytes (reverse (to_bytes 8 v))) ≡ reverse (to_bytes 8 v)
unfolding to_bytes
to_bytes-from_bytes64 v = to_bytes-from_bytes (reverse (to_bytes 8 v)) (
  omega arith,
  (
    omega arith,
    (omega arith, (omega arith, (omega arith, (omega arith, (omega arith, (omega arith, tt)))))),
  ),
)

-- For every 64-bit v, intrev64 v is the number whose bytes in memory are those of v in the reverse
-- order, and intrev64 takes it back to v.
pub intrev64_lem :
    (v : ℕ)
    → v < 2 ^ 64
    → (u : ℕ) × (intrev64 v ≡ some u)
      × (to_bytes 8 u ≡ reverse (to_bytes 8 v))
      × (intrev64 u ≡ some v)
unfolding intrev64
intrev64_lem v h = (
  from_bytes (reverse (to_bytes 8 v)),
  rw (memrev64-to_bytes v, ◌>>=◌) refl,
  to_bytes-from_bytes64 v,
  rw (to_bytes-from_bytes64 v, memrev64-reverse v, ◌>>=◌)
      (rw (from_bytes-to_bytes 8 v (omega arith)) refl),
)

memrev32-to_bytes : (v : ℕ) → memrev32 (to_bytes 4 v) ≡ some (reverse (to_bytes 4 v))
unfolding memrev32 swap to_bytes
memrev32-to_bytes v = refl

memrev32-reverse : (v : ℕ) → memrev32 (reverse (to_bytes 4 v)) ≡ some (to_bytes 4 v)
unfolding memrev32 swap to_bytes
memrev32-reverse v = refl

to_bytes-from_bytes32 :
    (v : ℕ) → to_bytes 4 (from_bytes (reverse (to_bytes 4 v))) ≡ reverse (to_bytes 4 v)
unfolding to_bytes
to_bytes-from_bytes32 v =
    to_bytes-from_bytes (reverse (to_bytes 4 v))
      (omega arith, (omega arith, (omega arith, (omega arith, tt))))

-- For every 32-bit v, intrev32 v is the number whose bytes in memory are those of v in the reverse
-- order, and intrev32 takes it back to v.
pub intrev32_lem :
    (v : ℕ)
    → v < 2 ^ 32
    → (u : ℕ) × (intrev32 v ≡ some u)
      × (to_bytes 4 u ≡ reverse (to_bytes 4 v))
      × (intrev32 u ≡ some v)
unfolding intrev32
intrev32_lem v h = (
  from_bytes (reverse (to_bytes 4 v)),
  rw (memrev32-to_bytes v, ◌>>=◌) refl,
  to_bytes-from_bytes32 v,
  rw (to_bytes-from_bytes32 v, memrev32-reverse v, ◌>>=◌)
      (rw (from_bytes-to_bytes 4 v (omega arith)) refl),
)
