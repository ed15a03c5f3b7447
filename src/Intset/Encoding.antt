-- ===== src/Intset/Encoding.antt =====
-- The choice of a width in src/intset.c.
use jmeter_on_k8s.Prelude.{
  ℕ, ◌-◌, ◌*◌, ◌<◌, ◌^◌, ◌≤◌, ◌≡◌, arith, ◌⊎◌, leb, Bool-cases, inl, inr, sym,
}
use jmeter_on_k8s.Prelude.Int.{ℤ, pos, negsuc}
use jmeter_on_k8s.Intset.{enc_int16, enc_int32, enc_int64, value_encoding}

-- A number is in the range -(2 ^ bits) to 2 ^ bits - 1 if this is below 2 ^ bits.
abbrev pub magnitude : ℤ → ℕ
magnitude (pos n) = n
magnitude (negsuc n) = n

-- A two's complement number of `width` bytes.
abbrev pub Fits : ℤ → ℕ → Type 0
Fits v width = magnitude v < 2 ^ (8 * width - 1)

value_encoding_cases :
    (v : ℤ)
    → ((value_encoding v ≡ 8) × (2 ^ 31 ≤ magnitude v))
      ⊎ (((value_encoding v ≡ 4) × (2 ^ 15 ≤ magnitude v) × (magnitude v < 2 ^ 31))
          ⊎ ((value_encoding v ≡ 2) × (magnitude v < 2 ^ 15)))
unfolding value_encoding
value_encoding_cases (pos n) = elim (Bool-cases (leb (2 ^ 31) n)) [
  | inl h ↦ inl (ground arith, ground arith)
  | inr h ↦ elim (Bool-cases (leb (2 ^ 15) n)) [
    | inl g ↦ inr (inl (ground arith, ground arith, ground arith))
    | inr g ↦ inr (inr (ground arith, ground arith))
  ]
]
value_encoding_cases (negsuc n) = elim (Bool-cases (leb (2 ^ 31) n)) [
  | inl h ↦ inl (ground arith, ground arith)
  | inr h ↦ elim (Bool-cases (leb (2 ^ 15) n)) [
    | inl g ↦ inr (inl (ground arith, ground arith, ground arith))
    | inr g ↦ inr (inr (ground arith, ground arith))
  ]
]

same_width : (v : ℤ) (w w' : ℕ) → w ≡ w' → Fits v w → Fits v w'
same_width v w w' e f = rw (sym e) f

-- _intsetValueEncoding of a 64-bit number is the least of the three widths that holds the number.
pub value_encoding_lem :
    (v : ℤ)
    → Fits v enc_int64
    → Fits v (value_encoding v)
      × ((w : ℕ)
          → (w ≡ enc_int16) ⊎ ((w ≡ enc_int32) ⊎ (w ≡ enc_int64))
          → Fits v w
          → value_encoding v ≤ w)
value_encoding_lem v h = elim (value_encoding_cases v) [
  | inl (e, big) ↦ (
    rw e h,
    λ w k f. elim k [
      | inl w2 ↦ absurd (omega (arith, same_width v w 2 w2 f))
      | inr (inl w4) ↦ absurd (omega (arith, same_width v w 4 w4 f))
      | inr (inr w8) ↦ omega arith
    ],
  )
  | inr (inl (e, big, small)) ↦ (
    rw e small,
    λ w k f. elim k [
      | inl w2 ↦ absurd (omega (arith, same_width v w 2 w2 f))
      | inr (inl w4) ↦ omega arith
      | inr (inr w8) ↦ omega arith
    ],
  )
  | inr (inr (e, small)) ↦ (
    rw e small,
    λ w k f. elim k [
      | inl w2 ↦ omega arith
      | inr (inl w4) ↦ omega arith
      | inr (inr w8) ↦ omega arith
    ],
  )
]
