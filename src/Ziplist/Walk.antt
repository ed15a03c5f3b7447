-- ===== src/Ziplist/Walk.antt =====
-- The walks over a blob of src/ziplist.c that go forward: zipListIndex, zipListNext, zipListFind and
-- zipListLen. Their loops are on fuel, and `none` is also the end of the fuel.
use jmeter_on_k8s.Prelude.{
  ℕ, zero, suc, ◌+◌, ◌-◌, ◌%◌, ◌^◌, Bool, true, false, Option, none, some, List, [], ◌∷◌, ◌++◌,
  ◌==◌, ltb, leb, if◌then◌else◌, ◌>>=◌, length, drop, take,
}
use jmeter_on_k8s.Prelude.Int.{ℤ, pos, negsuc}
use jmeter_on_k8s.Intset.{read_bytes}
use jmeter_on_k8s.Libc.{bytes_equal}
use jmeter_on_k8s.Ziplist.{
  zip_end, zip_is_str, prev_len_size, decode_length, zip_raw_entry_length, zip_try_encoding,
  zip_load_integer, zip_list_header_size, le_bytes,
}

-- p[0] == ZIP_END
abbrev pub at_end : List ℕ → Option Bool
at_end [] = none
at_end (b ∷ p) = some (b == zip_end)

-- zipListNext: the outer `none` is a fault, the inner one NULL.
unfoldable pub zip_list_next : List ℕ → Option (Option (List ℕ))
zip_list_next p = at_end p >>= λ stop. elim stop [
  | true ↦ some none
  | false ↦ zip_raw_entry_length p >>= λ n.
      at_end (drop n p) >>= λ stop'. some (if stop' then none else some (drop n p))
]

-- while (p[0] != ZIP_END && index--) p += zipRawEntryLength(p); the last part is index behind it.
unfoldable pub index_loop : ℕ → List ℕ → ℕ → Option (List ℕ × Bool)
index_loop zero p index = none
index_loop (suc fuel) p index = at_end p >>= λ stop. elim stop [
  | true ↦ some (p, true)
  | false ↦ elim (index == 0) [
    | true ↦ some (p, false)
    | false ↦ zip_raw_entry_length p >>= λ n. index_loop fuel (drop n p) (index - 1)
  ]
]

-- zipListIndex for an index that is not negative. Where the loop ends by its index, this is -1, so
-- that `index > 0` does not hold; the Boolean tells whether it ended at the end of the list.
unfoldable pub zip_list_index : ℕ → List ℕ → ℕ → Option (Option (List ℕ))
zip_list_index fuel zl index = index_loop fuel (drop zip_list_header_size zl) index >>= λ (p, stop).
    some (if stop then none else some p)

-- The loop of zipListLen.
unfoldable pub len_loop : ℕ → List ℕ → ℕ → Option ℕ
len_loop zero p len = none
len_loop (suc fuel) p len = at_end p >>= λ stop. elim stop [
  | true ↦ some len
  | false ↦ zip_raw_entry_length p >>= λ n. len_loop fuel (drop n p) ((len + 1) % 2 ^ 32)
]

-- ZIP_LIST_LENGTH, and its bytes set to another length
abbrev pub length_field : List ℕ → Option ℕ
length_field zl = read_bytes 2 (drop 8 zl)

abbrev pub set_length_field : List ℕ → ℕ → List ℕ
set_length_field zl len = take 8 zl ++ (le_bytes 2 len ++ drop 10 zl)

-- zipListLen: the length, and the blob, whose length field it may set.
unfoldable pub zip_list_len : ℕ → List ℕ → Option (ℕ × List ℕ)
zip_list_len fuel zl = length_field zl >>= λ stored. elim (ltb stored 65535) [
  | true ↦ some (stored, zl)
  | false ↦ len_loop fuel (drop zip_list_header_size zl) 0 >>= λ len.
      some (len, if ltb len 65535 then set_length_field zl len else zl)
]

abbrev pub same_int : ℤ → ℤ → Bool
same_int (pos a) (pos b) = a == b
same_int (pos a) (negsuc b) = false
same_int (negsuc a) (pos b) = false
same_int (negsuc a) (negsuc b) = a == b

-- The test of zipListFind on one entry whose content is at q. The number that the text stands for is
-- read once in the source, and kept.
unfoldable pub entry_matches : (List ℕ → Option ℤ) → List ℕ → ℕ → ℕ → List ℕ → Option Bool
entry_matches string2ll v_str encoding len q =
    if zip_is_str encoding
    then if len == length v_str
      then if leb len (length q) then some (bytes_equal (take len q) v_str) else none
      else some false
    else elim (zip_try_encoding string2ll v_str) [
      | none ↦ some false
      | some (vll, ven_coding) ↦ zip_load_integer q encoding >>= λ ll. some (same_int ll vll)
    ]

-- zipListFind, with the loop over p and skip_cnt.
unfoldable pub find_loop :
    (List ℕ → Option ℤ) → List ℕ → ℕ → ℕ → List ℕ → ℕ → Option (Option (List ℕ))
find_loop string2ll v_str skip zero p skip_cnt = none
find_loop string2ll v_str skip (suc fuel) p skip_cnt = at_end p >>= λ stop. elim stop [
  | true ↦ some none
  | false ↦ prev_len_size p >>= λ prev. decode_length (drop prev p) >>= λ (encoding, len_size, len).
      elim (skip_cnt == 0) [
        | true ↦ entry_matches string2ll v_str encoding len (drop (prev + len_size) p) >>= λ hit.
            elim hit [
              | true ↦ some (some p)
              | false ↦ find_loop string2ll v_str skip fuel (drop (prev + len_size + len) p) skip
            ]
        | false ↦
            find_loop string2ll v_str skip fuel (drop (prev + len_size + len) p) (skip_cnt - 1)
      ]
]

unfoldable pub zip_list_find :
    (List ℕ → Option ℤ) → ℕ → List ℕ → List ℕ → ℕ → Option (Option (List ℕ))
zip_list_find string2ll fuel p v_str skip = find_loop string2ll v_str skip fuel p 0
