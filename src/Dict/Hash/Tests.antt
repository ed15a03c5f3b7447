-- ===== src/Dict/Hash/Tests.antt =====
-- The theorems on the hash functions of src/dict.c at one key each.
use jmeter_on_k8s.Prelude.{ℕ, ◌+◌, ◌%◌, ◌^◌, ◌≡◌, [], ◌∷◌, map, arith, leb, ◌&&◌, if◌then◌else◌}
use jmeter_on_k8s.Dict.Hash.{dict_gen_hash_function, dict_gen_case_hash_function}
use jmeter_on_k8s.Dict.Hash.Tail.{Word, bytes_of, dict_gen_hash_function_lem}
use jmeter_on_k8s.Dict.Hash.Horner.{horner, dict_gen_case_hash_function_lem}

abbrev word_k : ℕ → Word
word_k n = record { b0 = b'k'; b1 = b'e'; b2 = b'y'; b3 = n }

dict_gen_hash_function_lem_example :
    dict_gen_hash_function 5381 (bytes_of (word_k 32 ∷ []) (word_k 1))
    ≡ dict_gen_hash_function 5381 (bytes_of (word_k 32 ∷ []) (word_k 2))
dict_gen_hash_function_lem_example =
    dict_gen_hash_function_lem 5381 (word_k 32 ∷ []) (word_k 1) (word_k 2)

abbrev ascii_lower : ℕ → ℕ
ascii_lower c = if leb 65 c && leb c 90 then c + 32 else c

dict_gen_case_hash_function_lem_example :
    dict_gen_case_hash_function ascii_lower 5381 (b'G' ∷ b'e' ∷ b't' ∷ [])
    ≡ horner 33 5381 (map ascii_lower (b'G' ∷ b'e' ∷ b't' ∷ [])) % 2 ^ 32
dict_gen_case_hash_function_lem_example =
    dict_gen_case_hash_function_lem ascii_lower 5381 (b'G' ∷ b'e' ∷ b't' ∷ []) (omega arith)
