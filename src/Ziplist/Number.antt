-- ===== src/Ziplist/Number.antt =====
-- A number that zipSaveInteger writes in the encoding that zipTryEncoding chooses is read back by
-- zipLoadInteger.
use jmeter_on_k8s.Prelude.{
  ℕ, zero, suc, ◌+◌, ◌-◌, ◌*◌, ◌/◌, ◌%◌, ◌^◌, ◌<◌, ◌≡◌, refl, ap, ◌∙◌, true, false, ◌&&◌, some,
  List, [], ◌++◌, ltb, ◌>>=◌, length, drop, Bool-cases, ◌⊎◌, ltb→lt, inl, inr, arith,
}
use jmeter_on_k8s.Prelude.Int.{ℤ, pos, negsuc}
use jmeter_on_k8s.Intset.{read_bytes, signed}
use jmeter_on_k8s.Ziplist.{
  le_bytes, word, magnitude, not_negative, fits, int_encoding, zip_save_integer, zip_load_integer,
  zip_int_size,
}

-- 256 ^ width
abbrev pub byte_bound : ℕ → ℕ
byte_bound zero = 1
byte_bound (suc width) = 256 * byte_bound width

pub read_bytes-le_bytes :
    (width n : ℕ) (rest : List ℕ)
    → n < byte_bound width
    → read_bytes width (le_bytes width n ++ rest) ≡ some n
unfolding read_bytes le_bytes
read_bytes-le_bytes zero n rest h = ap some (omega (arith, h))
read_bytes-le_bytes (suc width) n rest h =
    let below : n / 256 < byte_bound width = omega (arith, h) in
    rw (read_bytes-le_bytes width (n / 256) rest below, ◌>>=◌) (ap some (omega arith))

pub length-le_bytes : (width n : ℕ) → length (le_bytes width n) ≡ width
unfolding le_bytes
length-le_bytes zero n = refl
length-le_bytes (suc width) n = ap suc (length-le_bytes width (n / 256))

signed-word-8 : (v : ℤ) → magnitude v < 2 ^ 7 → signed 8 (word 8 v) ≡ v
signed-word-8 (pos n) h = ground arith
signed-word-8 (negsuc n) h = ground arith

signed-word-16 : (v : ℤ) → magnitude v < 2 ^ 15 → signed 16 (word 16 v) ≡ v
signed-word-16 (pos n) h = ground arith
signed-word-16 (negsuc n) h = ground arith

signed-word-24 : (v : ℤ) → magnitude v < 2 ^ 23 → signed 24 (word 32 v * 2 ^ 8 % 2 ^ 32 / 2 ^ 8) ≡ v
signed-word-24 (pos n) h = ground arith
signed-word-24 (negsuc n) h = ground arith

signed-word-32 : (v : ℤ) → magnitude v < 2 ^ 31 → signed 32 (word 32 v) ≡ v
signed-word-32 (pos n) h = ground arith
signed-word-32 (negsuc n) h = ground arith

signed-word-64 : (v : ℤ) → magnitude v < 2 ^ 63 → signed 64 (word 64 v) ≡ v
signed-word-64 (pos n) h = ground arith
signed-word-64 (negsuc n) h = ground arith

word-lt-8 : (v : ℤ) → word 8 v < 2 ^ 8
word-lt-8 (pos n) = omega arith
word-lt-8 (negsuc n) = omega arith

word-lt-16 : (v : ℤ) → word 16 v < 2 ^ 16
word-lt-16 (pos n) = omega arith
word-lt-16 (negsuc n) = omega arith

word-lt-32 : (v : ℤ) → word 32 v < 2 ^ 32
word-lt-32 (pos n) = omega arith
word-lt-32 (negsuc n) = omega arith

word-lt-64 : (v : ℤ) → word 64 v < 2 ^ 64
word-lt-64 (pos n) = omega arith
word-lt-64 (negsuc n) = omega arith

-- The number is written in this encoding, and read back, whatever follows it.
abbrev pub Stored : ℤ → ℕ → Type 0
Stored v encoding =
    (p : List ℕ) × (zip_save_integer v encoding ≡ some p)
    × ((rest : List ℕ) → zip_load_integer (p ++ rest) encoding ≡ some v)
    × (length p ≡ zip_int_size encoding)

Stored-int_imm_min : (n : ℕ) → n < 13 → Stored (pos n) (241 + n)
unfolding zip_load_integer zip_save_integer zip_int_size
Stored-int_imm_min n h = ([], ground arith, λ rest. ground arith, ground arith)

Stored-int_8b : (v : ℤ) → magnitude v < 2 ^ 7 → Stored v 254
unfolding zip_load_integer zip_save_integer zip_int_size
Stored-int_8b v h = (
  le_bytes 1 (word 8 v),
  refl,
  λ rest.
      rw (read_bytes-le_bytes 1 (word 8 v) rest (word-lt-8 v), ◌>>=◌) (ap some (signed-word-8 v h)),
  length-le_bytes 1 (word 8 v),
)

Stored-int_16b : (v : ℤ) → magnitude v < 2 ^ 15 → Stored v 192
unfolding zip_load_integer zip_save_integer zip_int_size
Stored-int_16b v h = (
  le_bytes 2 (word 16 v),
  refl,
  λ rest.
      rw (read_bytes-le_bytes 2 (word 16 v) rest (word-lt-16 v), ◌>>=◌)
        (ap some (signed-word-16 v h)),
  length-le_bytes 2 (word 16 v),
)

drop_low_byte :
    (n : ℕ) → drop 1 (le_bytes 4 (n * 2 ^ 8 % 2 ^ 32)) ≡ le_bytes 3 (n * 2 ^ 8 % 2 ^ 32 / 2 ^ 8)
unfolding le_bytes
drop_low_byte n = refl

Stored-int_24b : (v : ℤ) → magnitude v < 2 ^ 23 → Stored v 240
unfolding zip_load_integer zip_save_integer zip_int_size
Stored-int_24b v h =
    let n = word 32 v * 2 ^ 8 % 2 ^ 32 / 2 ^ 8 in
    let same : n * 2 ^ 8 / 2 ^ 8 ≡ n = omega arith in
    (
      le_bytes 3 n,
      ap some (drop_low_byte (word 32 v)),
      λ rest.
          rw (read_bytes-le_bytes 3 n rest (omega arith), ◌>>=◌)
            (ap (λ m. some (signed 24 m)) same ∙ ap some (signed-word-24 v h)),
      length-le_bytes 3 n,
    )

Stored-int_32b : (v : ℤ) → magnitude v < 2 ^ 31 → Stored v 208
unfolding zip_load_integer zip_save_integer zip_int_size
Stored-int_32b v h = (
  le_bytes 4 (word 32 v),
  refl,
  λ rest.
      rw (read_bytes-le_bytes 4 (word 32 v) rest (word-lt-32 v), ◌>>=◌)
        (ap some (signed-word-32 v h)),
  length-le_bytes 4 (word 32 v),
)

Stored-int_64b : (v : ℤ) → magnitude v < 2 ^ 63 → Stored v 224
unfolding zip_load_integer zip_save_integer zip_int_size
Stored-int_64b v h = (
  le_bytes 8 (word 64 v),
  refl,
  λ rest.
      rw (read_bytes-le_bytes 8 (word 64 v) rest (word-lt-64 v), ◌>>=◌)
        (ap some (signed-word-64 v h)),
  length-le_bytes 8 (word 64 v),
)

fits_or_not :
    (bits : ℕ) (v : ℤ)
    → ((fits bits v ≡ true) × (magnitude v < 2 ^ (bits - 1))) ⊎ (fits bits v ≡ false)
fits_or_not bits v = elim (Bool-cases (fits bits v)) [
  | inl f ↦ inl (f, ltb→lt (magnitude v) (2 ^ (bits - 1)) f)
  | inr f ↦ inr f
]

wide_number :
    (v : ℤ)
    → (not_negative v && ltb (magnitude v) 13) ≡ false
    → magnitude v < 2 ^ 63
    → Stored v (int_encoding v)
unfolding int_encoding
wide_number v big h = elim (fits_or_not 8 v) [
  | inl (f8, m) ↦ rw big (rw f8 (Stored-int_8b v m))
  | inr n8 ↦ elim (fits_or_not 16 v) [
    | inl (f16, m) ↦ rw big (rw n8 (rw f16 (Stored-int_16b v m)))
    | inr n16 ↦ elim (fits_or_not 24 v) [
      | inl (f24, m) ↦ rw big (rw n8 (rw n16 (rw f24 (Stored-int_24b v m))))
      | inr n24 ↦ elim (fits_or_not 32 v) [
        | inl (f32, m) ↦ rw big (rw n8 (rw n16 (rw n24 (rw f32 (Stored-int_32b v m)))))
        | inr n32 ↦ rw big (rw n8 (rw n16 (rw n24 (rw n32 (Stored-int_64b v h)))))
      ]
    ]
  ]
]

-- zipLoadInteger reads back what zipSaveInteger has written, for every 64-bit number in the encoding
-- that zipTryEncoding chooses for it, whatever bytes follow; zip_int_size bytes are written.
pub zip_load_integer-zip_save_integer :
    (v : ℤ)
    → magnitude v < 2 ^ 63
    → (p : List ℕ) × (zip_save_integer v (int_encoding v) ≡ some p)
      × ((rest : List ℕ) → zip_load_integer (p ++ rest) (int_encoding v) ≡ some v)
      × (length p ≡ zip_int_size (int_encoding v))
unfolding int_encoding
zip_load_integer-zip_save_integer (pos n) h = elim (Bool-cases (ltb n 13)) [
  | inl small ↦ rw small (Stored-int_imm_min n (ltb→lt n 13 small))
  | inr big ↦ wide_number (pos n) big h
]
zip_load_integer-zip_save_integer (negsuc n) h = wide_number (negsuc n) refl h
