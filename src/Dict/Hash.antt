-- ===== src/Dict/Hash.antt =====
-- src/dict.c: dictIntHashFunction, dictGenHashFunction and dictGenCaseHashFunction, on 32-bit
-- numbers. A key is the list of its bytes, fewer than 2 ^ 31 of them; tolower is a parameter.
pub mod Tail
pub mod Horner
pub mod Tests
use jmeter_on_k8s.Prelude.{ℕ, ◌+◌, ◌-◌, ◌*◌, ◌/◌, ◌%◌, ◌^◌, List, [], ◌∷◌, length, bit_xor}

-- key + ~(key << n)
abbrev add_not_shifted : ℕ → ℕ → ℕ
add_not_shifted key n = (key + (2 ^ 32 - 1 - (key * 2 ^ n) % 2 ^ 32)) % 2 ^ 32

-- key ^ (key >> n)
abbrev pub xor_shifted : ℕ → ℕ → ℕ
xor_shifted key n = bit_xor key (key / 2 ^ n)

unfoldable pub dict_int_hash_function : ℕ → ℕ
dict_int_hash_function key =
    let key1 = add_not_shifted key 15 in
    let key2 = xor_shifted key1 10 in
    let key3 = (key2 + key2 * 8) % 2 ^ 32 in
    let key4 = xor_shifted key3 6 in let key5 = add_not_shifted key4 11 in xor_shifted key5 16

abbrev pub hash_m : ℕ
hash_m = 0x5bd1e995

-- *(uint32_t *)data, the lowest byte first
abbrev pub word_at : ℕ → ℕ → ℕ → ℕ → ℕ
word_at a b c d = a + 256 * b + 65536 * c + 16777216 * d

-- One round of the while: h with the word k mixed in.
unfoldable pub mix_word : ℕ → ℕ → ℕ
mix_word h k =
    let k1 = (k * hash_m) % 2 ^ 32 in
    let k2 = (xor_shifted k1 24 * hash_m) % 2 ^ 32 in bit_xor ((h * hash_m) % 2 ^ 32) k2

-- while (len > 4) { ... }: h, and what is left of the key.
unfoldable pub mix_words : ℕ → List ℕ → ℕ × List ℕ
mix_words h [] = (h, [])
mix_words h (a ∷ []) = (h, a ∷ [])
mix_words h (a ∷ b ∷ []) = (h, a ∷ b ∷ [])
mix_words h (a ∷ b ∷ c ∷ []) = (h, a ∷ b ∷ c ∷ [])
mix_words h (a ∷ b ∷ c ∷ d ∷ []) = (h, a ∷ b ∷ c ∷ d ∷ [])
mix_words h (a ∷ b ∷ c ∷ d ∷ e ∷ rest) = mix_words (mix_word h (word_at a b c d)) (e ∷ rest)

-- switch (len), whose cases fall through.
unfoldable pub mix_tail : ℕ → List ℕ → ℕ
mix_tail h [] = h
mix_tail h (a ∷ []) = (bit_xor h a * hash_m) % 2 ^ 32
mix_tail h (a ∷ b ∷ []) = (bit_xor (bit_xor h (b * 2 ^ 8)) a * hash_m) % 2 ^ 32
mix_tail h (a ∷ b ∷ c ∷ []) =
    (bit_xor (bit_xor (bit_xor h (c * 2 ^ 16)) (b * 2 ^ 8)) a * hash_m) % 2 ^ 32
mix_tail h (a ∷ b ∷ c ∷ d ∷ rest) = h

unfoldable pub finish_hash : ℕ → ℕ
finish_hash h = xor_shifted ((xor_shifted h 13 * hash_m) % 2 ^ 32) 15

unfoldable pub dict_gen_hash_function : ℕ → List ℕ → ℕ
dict_gen_hash_function seed key =
    let (h, rest) = mix_words (bit_xor seed (length key)) key in finish_hash (mix_tail h rest)

-- while (len--) { ... }
unfoldable pub case_loop : (ℕ → ℕ) → ℕ → List ℕ → ℕ
case_loop tolower hash [] = hash
case_loop tolower hash (b ∷ buf) =
    case_loop tolower (((hash * 32) % 2 ^ 32 + hash + tolower b) % 2 ^ 32) buf

unfoldable pub dict_gen_case_hash_function : (ℕ → ℕ) → ℕ → List ℕ → ℕ
dict_gen_case_hash_function tolower seed buf = case_loop tolower seed buf
