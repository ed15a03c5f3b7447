-- ===== src/Ziplist/Tests.antt =====
-- The theorems on src/ziplist.c at a blob of a text and two numbers.
use jmeter_on_k8s.Prelude.{
  ℕ, ◌-◌, ◌≡◌, Option, none, some, List, [], ◌∷◌, ◌++◌, ltb, if◌then◌else◌, length, arith,
}
use jmeter_on_k8s.Prelude.Int.{ℤ, pos, negsuc}
use jmeter_on_k8s.Ziplist.{int_encoding, zip_save_integer, zip_load_integer, zip_int_size}
use jmeter_on_k8s.Ziplist.Blob.{text, number, Entry, blob, pointer_to}
use jmeter_on_k8s.Ziplist.Blob.Find.{is_content, first_match, zip_list_find_lem}
use jmeter_on_k8s.Ziplist.Number.{zip_load_integer-zip_save_integer}
use jmeter_on_k8s.Ziplist.Walk.{zip_list_find}

abbrev entries : List Entry
entries =
    record { prev = 0; content = text (b'a' ∷ b'b' ∷ []) }
    ∷ record { prev = 4; content = number (negsuc 299) }
    ∷ record { prev = 4; content = number (pos 7) }
    ∷ []

-- A string2ll that reads one digit.
abbrev one_digit : List ℕ → Option ℤ
one_digit [] = none
one_digit (c ∷ []) = if ltb c 48 then none else if ltb 57 c then none else some (pos (c - 48))
one_digit (c ∷ d ∷ s) = none

zip_load_integer-zip_save_integer_example :
    (p : List ℕ) × (zip_save_integer (negsuc 299) (int_encoding (negsuc 299)) ≡ some p)
    × ((rest : List ℕ)
        → zip_load_integer (p ++ rest) (int_encoding (negsuc 299)) ≡ some (negsuc 299))
    × (length p ≡ zip_int_size (int_encoding (negsuc 299)))
zip_load_integer-zip_save_integer_example =
    zip_load_integer-zip_save_integer (negsuc 299) (omega arith)

zip_list_find_lem_example :
    zip_list_find one_digit 4 (blob entries) (b'7' ∷ []) 0
    ≡ some (pointer_to (first_match (is_content one_digit (b'7' ∷ [])) 0 0 entries))
zip_list_find_lem_example =
    zip_list_find_lem one_digit 4 entries (b'7' ∷ []) 0
      (omega arith, (omega arith, (omega arith, tt))) (omega arith)
