-- ===== src/Intset.antt =====
-- src/intset.h and src/intset.c: sets of 64-bit integers, kept as a sorted array in the narrowest
-- of three widths. Here are the reads and the choice of a width; Intset/Search has intsetSearch.
-- The contents are the bytes behind the header. The machine is little-endian, where the ...ifbe
-- macros do nothing. A read past the end of the contents is `none`.
pub mod Encoding
pub mod Search
pub mod Tests
use jmeter_on_k8s.Prelude.{
  ℕ, zero, suc, ◌+◌, ◌-◌, ◌*◌, ◌^◌, Bool, true, false, ◌&&◌, ◌||◌, Option, none, some, List, [],
  ◌∷◌, ◌==◌, ltb, if◌then◌else◌, ◌>>=◌, drop, ◌%◌,
}
use jmeter_on_k8s.Prelude.Int.{ℤ, pos, negsuc, ltb_ℤ}

-- `encodeing` is the width of an element in bytes.
pub record Intset : Type 0 where
  pub encodeing : ℕ
  pub length : ℕ
  pub contents : List ℕ

abbrev pub enc_int16 : ℕ
enc_int16 = 2

abbrev pub enc_int32 : ℕ
enc_int32 = 4

abbrev pub enc_int64 : ℕ
enc_int64 = 8

-- INT16_MIN is -(2 ^ 15), and so on.
unfoldable pub value_encoding : ℤ → ℕ
value_encoding v =
    if ltb_ℤ v (negsuc (2 ^ 31 - 1)) || ltb_ℤ (pos (2 ^ 31 - 1)) v
    then enc_int64
    else if ltb_ℤ v (negsuc (2 ^ 15 - 1)) || ltb_ℤ (pos (2 ^ 15 - 1)) v
    then enc_int32
    else enc_int16

-- The number in the first `width` bytes, the lowest byte first.
unfoldable pub read_bytes : ℕ → List ℕ → Option ℕ
read_bytes zero bytes = some 0
read_bytes (suc width) [] = none
read_bytes (suc width) (b ∷ bytes) = read_bytes width bytes >>= λ n. some (b + 256 * n)

-- A number below 2 ^ bits as a two's complement integer.
abbrev pub signed : ℕ → ℕ → ℤ
signed bits n = if ltb n (2 ^ (bits - 1)) then pos n else negsuc (2 ^ bits - 1 - n)

unfoldable pub get_encoded : Intset → ℕ → ℕ → Option ℤ
get_encoded is i enc =
    if enc == enc_int64
    then (read_bytes 8 (drop (8 * i) is.contents) >>= λ n. some (signed 64 n))
    else if enc == enc_int32
    then (read_bytes 4 (drop (4 * i) is.contents) >>= λ n. some (signed 32 n))
    else (read_bytes 2 (drop (2 * i) is.contents) >>= λ n. some (signed 16 n))

unfoldable pub get_at : Intset → ℕ → Option ℤ
get_at is i = get_encoded is i is.encodeing

unfoldable pub intset_new : Intset
intset_new = record { encodeing = enc_int16; length = 0; contents = [] }

-- intsetGet: the outer `none` is a fault, the inner one the answer 0.
unfoldable pub intset_get : Intset → ℕ → Option (Option ℤ)
intset_get is i = if ltb i is.length then (get_at is i >>= λ v. some (some v)) else some none

-- The header has two 32-bit numbers.
unfoldable pub blob_len : Intset → ℕ
blob_len is = 8 + (is.length * is.encodeing) % 2 ^ 32
