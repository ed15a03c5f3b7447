-- ===== src/Ziplist.antt =====
-- src/ziplist.c: the lists in a blob of bytes. Here are the encodings of lengths and numbers, each a
-- function of the value or of the bytes behind the pointer; Ziplist/Walk has the walks over a blob. A
-- pointer into a blob is the list of the bytes from it on. The machine is little-endian. ZIP_STR_MASK
-- is taken without the semicolon that its definition ends with. `none` is a read behind the end.
pub mod Walk
pub mod Number
pub mod Header
pub mod Blob
mod Tests
use jmeter_on_k8s.Prelude.{
  ℕ, zero, suc, ◌+◌, ◌-◌, ◌*◌, ◌/◌, ◌%◌, ◌^◌, Bool, true, false, ◌&&◌, ◌||◌, Option, none, some,
  List, [], ◌∷◌, ◌++◌, ◌==◌, ltb, leb, if◌then◌else◌, ◌>>=◌, length, drop,
}
use jmeter_on_k8s.Prelude.Int.{ℤ, pos, negsuc}
use jmeter_on_k8s.Intset.{read_bytes, signed}

abbrev pub zip_end : ℕ
zip_end = 255

abbrev pub zip_big_len : ℕ
zip_big_len = 254

abbrev pub zip_str_mask : ℕ
zip_str_mask = 0xc0

-- ZIP_STR_06B, ZIP_STR_14B, ZIP_STR_32B, ZIP_INT_16B and so on
abbrev pub str_06b : ℕ
str_06b = 0

abbrev pub str_14b : ℕ
str_14b = 64

abbrev pub str_32b : ℕ
str_32b = 128

abbrev pub int_16b : ℕ
int_16b = 192

abbrev pub int_32b : ℕ
int_32b = 208

abbrev pub int_64b : ℕ
int_64b = 224

abbrev pub int_24b : ℕ
int_24b = 240

abbrev pub int_8b : ℕ
int_8b = 254

abbrev pub int_imm_min : ℕ
int_imm_min = 241

abbrev pub int_imm_max : ℕ
int_imm_max = 253

-- ZIP_IS_STR: enc & 0xc0 < 0xc0, on a byte
abbrev pub zip_is_str : ℕ → Bool
zip_is_str enc = ltb (enc / 64 * 64) zip_str_mask

-- The lowest `width` bytes of a number, the lowest one first.
unfoldable pub le_bytes : ℕ → ℕ → List ℕ
le_bytes zero n = []
le_bytes (suc width) n = (n % 256) ∷ le_bytes width (n / 256)

-- An integer as a word of as many bits.
abbrev pub word : ℕ → ℤ → ℕ
word bits (pos n) = n % 2 ^ bits
word bits (negsuc n) = 2 ^ bits - 1 - n % 2 ^ bits

-- zipPrevEncodeLength: the bytes that it writes; their number is what it returns.
unfoldable pub zip_prev_encode_length : ℕ → List ℕ
unfolding le_bytes
zip_prev_encode_length len = if ltb len zip_big_len then len ∷ [] else zip_big_len ∷ le_bytes 4 len

unfoldable pub zip_prev_encode_length_force_large : ℕ → List ℕ
unfolding le_bytes
zip_prev_encode_length_force_large len = zip_big_len ∷ le_bytes 4 len

-- ZIP_DECODE_PREV_LEN_SIZE
unfoldable pub prev_len_size : List ℕ → Option ℕ
prev_len_size [] = none
prev_len_size (b ∷ p) = some (if ltb b zip_big_len then 1 else 5)

-- The difference may be negative: it is given as the two sizes.
abbrev pub zip_prev_len_byte_diff : List ℕ → ℕ → Option (ℕ × ℕ)
zip_prev_len_byte_diff p len =
    prev_len_size p >>= λ n. some (length (zip_prev_encode_length len), n)

-- ZIP_DECODE_PREV_LEN: the variables prev_len_size and prev_len behind it. Of one byte, the source
-- stores the length itself in prev_len_size, and prev_len stays as it was.
unfoldable pub decode_prev_len : ℕ → List ℕ → Option (ℕ × ℕ)
decode_prev_len before [] = none
decode_prev_len before (b ∷ p) =
    if ltb b zip_big_len then some (b, before) else (read_bytes 4 p >>= λ n. some (5, n))

unfoldable pub zip_int_size : ℕ → ℕ
zip_int_size encoding =
    if encoding == int_8b
    then 1
    else if encoding == int_16b
    then 2
    else if encoding == int_24b
    then 3
    else if encoding == int_32b
    then 4
    else if encoding == int_64b
    then 8
    else 0

-- ZIP_ENTRY_ENCODING
abbrev pub entry_encoding : ℕ → ℕ
entry_encoding b = if ltb b zip_str_mask then b / 64 * 64 else b

-- ((ptr)[1] << 24) | ((ptr)[2] << 16) | ((ptr)[3] << 8) | (ptr)[4]
abbrev pub big_endian : List ℕ → Option ℕ
big_endian (b1 ∷ b2 ∷ b3 ∷ b4 ∷ p) = some (b1 * 2 ^ 24 + b2 * 2 ^ 16 + b3 * 2 ^ 8 + b4)
big_endian _ = none

-- The branch of ZIP_DECODE_LENGTH for a text whose first byte is b: the size of the length, and it.
-- `none` is also the failed assert.
unfoldable pub decode_text_length : ℕ → ℕ → List ℕ → Option (ℕ × ℕ)
decode_text_length encoding b p =
    if encoding == str_06b
    then some (1, b % 64)
    else if encoding == str_14b
    then (read_bytes 1 p >>= λ n. some (2, b % 64 * 256 + n))
    else if encoding == str_32b
    then (big_endian p >>= λ n. some (5, n))
    else none

-- ZIP_DECODE_LENGTH: encoding, len_size and len.
unfoldable pub decode_length : List ℕ → Option (ℕ × ℕ × ℕ)
decode_length [] = none
decode_length (b ∷ p) =
    let encoding = entry_encoding b in
    if ltb encoding zip_str_mask
    then (decode_text_length encoding b p >>= λ (len_size, len). some (encoding, len_size, len))
    else some (encoding, 1, zip_int_size encoding)

-- zipRawEntryLength
unfoldable pub zip_raw_entry_length : List ℕ → Option ℕ
zip_raw_entry_length p = prev_len_size p >>= λ prev.
    decode_length (drop prev p) >>= λ (encoding, len_size, len). some (prev + len_size + len)

-- zipEncodeLength: the bytes that it writes; their number is what it returns.
unfoldable pub zip_encode_length : ℕ → ℕ → List ℕ
zip_encode_length encoding raw_len =
    if zip_is_str encoding
    then if leb raw_len 0x3f
      then (str_06b + raw_len) ∷ []
      else if leb raw_len 0x3fff
      then (str_14b + raw_len / 256 % 64) ∷ (raw_len % 256) ∷ []
      else str_32b
        ∷ (raw_len / 2 ^ 24 % 256)
        ∷ (raw_len / 2 ^ 16 % 256)
        ∷ (raw_len / 2 ^ 8 % 256)
        ∷ (raw_len % 256)
        ∷ []
    else encoding ∷ []

abbrev pub not_negative : ℤ → Bool
not_negative (pos n) = true
not_negative (negsuc n) = false

-- n for both n and -(n + 1)
abbrev pub magnitude : ℤ → ℕ
magnitude (pos n) = n
magnitude (negsuc n) = n

-- INT8_MIN <= value && value <= INT8_MAX, and so on for the other widths
abbrev pub fits : ℕ → ℤ → Bool
fits bits value = ltb (magnitude value) (2 ^ (bits - 1))

-- The encoding that zipTryEncoding chooses for a number.
unfoldable pub int_encoding : ℤ → ℕ
int_encoding value =
    if not_negative value && ltb (magnitude value) 13
    then int_imm_min + magnitude value
    else if fits 8 value
    then int_8b
    else if fits 16 value
    then int_16b
    else if fits 24 value
    then int_24b
    else if fits 32 value
    then int_32b
    else int_64b

-- zipTryEncoding: string2ll, of a file that is not there, gives the number that a text stands for.
unfoldable pub zip_try_encoding : (List ℕ → Option ℤ) → List ℕ → Option (ℤ × ℕ)
zip_try_encoding string2ll entry =
    if leb 32 (length entry) || length entry == 0
    then none
    else (string2ll entry >>= λ value. some (value, int_encoding value))

-- zipSaveInteger: the bytes that it writes. `none` is the failed assert.
unfoldable pub zip_save_integer : ℤ → ℕ → Option (List ℕ)
zip_save_integer value encoding =
    if encoding == int_8b
    then some (le_bytes 1 (word 8 value))
    else if encoding == int_16b
    then some (le_bytes 2 (word 16 value))
    else if encoding == int_24b
    then some (drop 1 (le_bytes 4 (word 32 value * 2 ^ 8 % 2 ^ 32)))
    else if encoding == int_32b
    then some (le_bytes 4 (word 32 value))
    else if encoding == int_64b
    then some (le_bytes 8 (word 64 value))
    else if leb int_imm_min encoding && leb encoding int_imm_max
    then some []
    else none

-- i32 >> 8 of a word of 32 bits, which keeps the sign
abbrev pub shift_right_8 : ℕ → ℤ
shift_right_8 n = signed 24 (n / 2 ^ 8)

-- zipLoadInteger. `none` is also the failed assert.
unfoldable pub zip_load_integer : List ℕ → ℕ → Option ℤ
zip_load_integer p encoding =
    if encoding == int_8b
    then (read_bytes 1 p >>= λ n. some (signed 8 n))
    else if encoding == int_16b
    then (read_bytes 2 p >>= λ n. some (signed 16 n))
    else if encoding == int_32b
    then (read_bytes 4 p >>= λ n. some (signed 32 n))
    else if encoding == int_24b
    then (read_bytes 3 p >>= λ n. some (shift_right_8 (n * 2 ^ 8)))
    else if encoding == int_64b
    then (read_bytes 8 p >>= λ n. some (signed 64 n))
    else if leb int_imm_min encoding && leb encoding int_imm_max
    then some (pos (encoding % 16 - 1))
    else none

-- zipEntry, without the pointer; `before` is what prev_raw_len held.
pub record ZipListEntry : Type 0 where
  pub prev_raw_len_size : ℕ
  pub prev_raw_len : ℕ
  pub len_size : ℕ
  pub len : ℕ
  pub header_size : ℕ
  pub encoding : ℕ

unfoldable pub zip_entry : ℕ → List ℕ → Option ZipListEntry
zip_entry before p = decode_prev_len before p >>= λ (prev_size, prev_len).
    decode_length (drop prev_size p) >>= λ (encoding, len_size, len). some (record {
      prev_raw_len_size = prev_size;
      prev_raw_len = prev_len;
      len_size = len_size;
      len = len;
      header_size = prev_size + len_size;
      encoding = encoding;
    })

abbrev pub zip_list_header_size : ℕ
zip_list_header_size = 10

-- zipListNew
unfoldable pub zip_list_new : List ℕ
unfolding le_bytes
zip_list_new =
    le_bytes 4 (zip_list_header_size + 1)
    ++ (le_bytes 4 zip_list_header_size ++ (le_bytes 2 0 ++ zip_end ∷ []))

-- zipListBlobLen
abbrev pub zip_list_blob_len : List ℕ → Option ℕ
zip_list_blob_len zl = read_bytes 4 zl
