-- ===== src/Ziplist/Header.antt =====
-- The header of an entry of src/ziplist.c: what zipPrevEncodeLength and zipEncodeLength write is read
-- back by the decoding macros.
use jmeter_on_k8s.Prelude.{
  ℕ, ◌+◌, ◌*◌, ◌/◌, ◌%◌, ◌^◌, ◌<◌, ◌≡◌, refl, ap, ◌∙◌, true, false, some, List, ◌∷◌, ◌++◌, ltb, leb,
  if◌then◌else◌, length, Bool-cases, inl, inr, arith,
}
use jmeter_on_k8s.Prelude.Int.{ℤ, pos, negsuc}
use jmeter_on_k8s.Intset.{read_bytes}
use jmeter_on_k8s.Ziplist.{
  le_bytes, zip_is_str, zip_prev_encode_length, prev_len_size, zip_encode_length, decode_length,
  decode_text_length, zip_int_size, int_encoding,
}

-- The class of encodings that a text of this length gets.
abbrev pub text_encoding : ℕ → ℕ
text_encoding raw_len = if leb raw_len 0x3f then 0 else if leb raw_len 0x3fff then 64 else 128

decode_06b :
    (raw_len : ℕ) (rest : List ℕ)
    → leb raw_len 0x3f ≡ true
    → decode_length (raw_len ∷ rest) ≡ some (0, 1, raw_len)
unfolding decode_length decode_text_length
decode_06b raw_len rest h =
    let enc : raw_len / 64 * 64 ≡ 0 = ground arith in
    let low : raw_len % 64 ≡ raw_len = ground arith in
    let text : ltb raw_len 0xc0 ≡ true = ground arith in rw (text, enc, low) refl

decode_14b :
    (raw_len : ℕ) (rest : List ℕ)
    → leb raw_len 0x3f ≡ false
    → leb raw_len 0x3fff ≡ true
    → decode_length ((64 + raw_len / 256 % 64) ∷ (raw_len % 256) ∷ rest) ≡ some (64, 2, raw_len)
unfolding decode_length decode_text_length read_bytes
decode_14b raw_len rest h k =
    let b = 64 + raw_len / 256 % 64 in
    let enc : b / 64 * 64 ≡ 64 = omega arith in
    let text : ltb b 0xc0 ≡ true = ground arith in
    let len : b % 64 * 256 + (raw_len % 256 + 256 * 0) ≡ raw_len = ground arith in
    rw text (rw enc (ap (λ n. some (64, 2, n)) len))

decode_32b :
    (raw_len : ℕ) (rest : List ℕ)
    → raw_len < 2 ^ 32
    → decode_length (
        128
        ∷ (raw_len / 2 ^ 24 % 256)
        ∷ (raw_len / 2 ^ 16 % 256)
        ∷ (raw_len / 2 ^ 8 % 256)
        ∷ (raw_len % 256)
        ∷ rest)
      ≡ some (128, 5, raw_len)
unfolding decode_length decode_text_length
decode_32b raw_len rest h = ap (λ n. some (128, 5, n)) (omega arith)

-- The length of a text.
pub decode_length-zip_encode_length :
    (encoding raw_len : ℕ) (rest : List ℕ)
    → zip_is_str encoding ≡ true
    → raw_len < 2 ^ 32
    → decode_length (zip_encode_length encoding raw_len ++ rest)
      ≡ some (text_encoding raw_len, length (zip_encode_length encoding raw_len), raw_len)
unfolding zip_encode_length
decode_length-zip_encode_length encoding raw_len rest str h = elim (Bool-cases (leb raw_len 0x3f)) [
  | inl short ↦
      rw str (
        rw short (ap (λ n. decode_length (n ∷ rest)) (omega arith) ∙ decode_06b raw_len rest short))
  | inr long ↦ elim (Bool-cases (leb raw_len 0x3fff)) [
    | inl mid ↦ rw str (rw long (rw mid (decode_14b raw_len rest long mid)))
    | inr big ↦ rw str (rw long (rw big (decode_32b raw_len rest h)))
  ]
]

pub int_encoding-ge : (v : ℤ) → ltb (int_encoding v) 0xc0 ≡ false
unfolding int_encoding
int_encoding-ge (pos n) = ground arith
int_encoding-ge (negsuc n) = ground arith

-- The encoding of a number.
pub decode_length-int_encoding :
    (v : ℤ) (rest : List ℕ)
    → decode_length (int_encoding v ∷ rest)
      ≡ some (int_encoding v, 1, zip_int_size (int_encoding v))
unfolding decode_length
decode_length-int_encoding v rest = rw (int_encoding-ge v) (rw (int_encoding-ge v) refl)

pub prev_len_size-zip_prev_encode_length :
    (len : ℕ) (rest : List ℕ)
    → prev_len_size (zip_prev_encode_length len ++ rest)
      ≡ some (length (zip_prev_encode_length len))
unfolding zip_prev_encode_length prev_len_size le_bytes
prev_len_size-zip_prev_encode_length len rest = elim (Bool-cases (ltb len 254)) [
  | inl small ↦ rw small (rw small refl)
  | inr big ↦ rw big refl
]
