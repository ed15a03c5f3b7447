-- ===== src/Dict/Hash/Horner.antt =====
-- What dictGenCaseHashFunction of src/dict.c computes.
use jmeter_on_k8s.Prelude.{ℕ, ◌+◌, ◌*◌, ◌%◌, ◌^◌, ◌<◌, ◌≡◌, ◌∙◌, List, [], ◌∷◌, map, arith}
use jmeter_on_k8s.Dict.Hash.{case_loop, dict_gen_case_hash_function}

-- Horner's scheme: the digits `ds` behind the number `n`, in the given base.
pub horner : ℕ → ℕ → List ℕ → ℕ
horner base n [] = n
horner base n (d ∷ ds) = horner base (base * n + d) ds

horner-mod :
    (a b : ℕ) (ds : List ℕ)
    → a % 2 ^ 32 ≡ b % 2 ^ 32
    → horner 33 a ds % 2 ^ 32 ≡ horner 33 b ds % 2 ^ 32
unfolding horner
horner-mod a b [] e = e
horner-mod a b (d ∷ ds) e = horner-mod (33 * a + d) (33 * b + d) ds (omega arith)

case_loop_lem :
    (tolower : ℕ → ℕ) (hash : ℕ) (buf : List ℕ)
    → hash < 2 ^ 32
    → case_loop tolower hash buf ≡ horner 33 hash (map tolower buf) % 2 ^ 32
unfolding case_loop horner
case_loop_lem tolower hash [] h = omega arith
case_loop_lem tolower hash (b ∷ buf) h =
    case_loop_lem tolower (((hash * 32) % 2 ^ 32 + hash + tolower b) % 2 ^ 32) buf (omega arith)
    ∙ horner-mod (((hash * 32) % 2 ^ 32 + hash + tolower b) % 2 ^ 32) (33 * hash + tolower b)
        (map tolower buf) (omega arith)

-- For a 32-bit seed, dictGenCaseHashFunction is the number that has the lowered bytes as its digits
-- in base 33 behind the seed, modulo 2 ^ 32.
pub dict_gen_case_hash_function_lem :
    (tolower : ℕ → ℕ) (seed : ℕ) (buf : List ℕ)
    → seed < 2 ^ 32
    → dict_gen_case_hash_function tolower seed buf ≡ horner 33 seed (map tolower buf) % 2 ^ 32
unfolding dict_gen_case_hash_function
dict_gen_case_hash_function_lem tolower seed buf h = case_loop_lem tolower seed buf h
