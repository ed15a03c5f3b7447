-- ===== src/Endianconv.antt =====
-- src/endianconv.c. What a pointer points to is the list of the bytes from there on; an access
-- behind its end is `none`. The machine is little-endian.
pub mod Reverse
pub mod Tests
use jmeter_on_k8s.Prelude.{
  ℕ, zero, suc, ◌+◌, ◌*◌, ◌/◌, ◌%◌, Option, none, some, List, [], ◌∷◌, ◌>>=◌, get_elem?, set,
}

-- t = x[i]; x[i] = x[j]; x[j] = t;
unfoldable pub swap : ℕ → ℕ → List ℕ → Option (List ℕ)
swap i j x = get_elem? x i >>= λ t. get_elem? x j >>= λ b. some (set (set x i b) j t)

unfoldable pub memrev16 : List ℕ → Option (List ℕ)
memrev16 x = swap 0 1 x

unfoldable pub memrev32 : List ℕ → Option (List ℕ)
memrev32 x = swap 0 3 x >>= λ x1. swap 1 2 x1

unfoldable pub memrev64 : List ℕ → Option (List ℕ)
memrev64 x = swap 0 7 x >>= λ x1. swap 1 6 x1 >>= λ x2. swap 2 5 x2 >>= λ x3. swap 3 4 x3

-- The bytes of an integer of `width` bytes in memory, and back.
unfoldable pub to_bytes : ℕ → ℕ → List ℕ
to_bytes zero v = []
to_bytes (suc width) v = (v % 256) ∷ to_bytes width (v / 256)

unfoldable pub from_bytes : List ℕ → ℕ
from_bytes [] = 0
from_bytes (b ∷ bytes) = b + 256 * from_bytes bytes

unfoldable pub intrev16 : ℕ → Option ℕ
intrev16 v = memrev16 (to_bytes 2 v) >>= λ x. some (from_bytes x)

unfoldable pub intrev32 : ℕ → Option ℕ
intrev32 v = memrev32 (to_bytes 4 v) >>= λ x. some (from_bytes x)

unfoldable pub intrev64 : ℕ → Option ℕ
intrev64 v = memrev64 (to_bytes 8 v) >>= λ x. some (from_bytes x)
