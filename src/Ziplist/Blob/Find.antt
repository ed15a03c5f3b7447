-- ===== src/Ziplist/Blob/Find.antt =====
-- zipListFind of src/ziplist.c on written entries.
use mathlib.Core.List.{append_assoc}
use jmeter_on_k8s.Prelude.{
  ℕ, zero, suc, ◌+◌, ◌-◌, ◌<◌, ◌≡◌, refl, sym, ap, ◌∙◌, Bool, true, false, Option, none, some, List,
  [], ◌∷◌, ◌++◌, ◌==◌, leb, if◌then◌else◌, ◌>>=◌, length, length-append, drop, take, Bool-cases,
  Option-cases, inl, inr, arith,
}
use jmeter_on_k8s.Prelude.Int.{ℤ}
use jmeter_on_k8s.Libc.{bytes_equal}
use jmeter_on_k8s.Ziplist.{
  zip_is_str, zip_prev_encode_length, zip_encode_length, decode_length, zip_int_size, int_encoding,
  zip_save_integer, zip_load_integer, zip_try_encoding,
}
use jmeter_on_k8s.Ziplist.Blob.{
  Content, text, number, Entry, or_nothing, content_bytes, blob, IsStorable, AreStorable,
  pointer_to, drop-length, drop_more, at_end-entry_bytes,
}
use jmeter_on_k8s.Ziplist.Header.{
  text_encoding, decode_length-zip_encode_length, decode_length-int_encoding,
  prev_len_size-zip_prev_encode_length, int_encoding-ge,
}
use jmeter_on_k8s.Ziplist.Number.{zip_load_integer-zip_save_integer}
use jmeter_on_k8s.Ziplist.Walk.{same_int, entry_matches, find_loop, zip_list_find}

-- A text is found by its bytes, a number by a text that string2ll and the encoder take for it.
abbrev pub is_content : (List ℕ → Option ℤ) → List ℕ → Content → Bool
is_content string2ll v (text t) = bytes_equal t v
is_content string2ll v (number n) = elim (zip_try_encoding string2ll v) [
  | none ↦ false
  | some (w, encoding) ↦ same_int n w
]

-- The entries from the first match on, where `skip` entries are left out after each that is tried,
-- and `skipped` of the first ones.
abbrev pub first_match : (Content → Bool) → ℕ → ℕ → List Entry → List Entry
first_match f skip skipped [] = []
first_match f skip zero (e ∷ es) = if f e.content then e ∷ es else first_match f skip skip es
first_match f skip (suc skipped) (e ∷ es) = first_match f skip skipped es

take-length : (s t : List ℕ) → take (length s) (s ++ t) ≡ s
take-length [] t = refl
take-length (a ∷ s) t = ap (λ r. a ∷ r) (take-length s t)

bytes_equal-length : (s t : List ℕ) → (length s == length t) ≡ false → bytes_equal s t ≡ false
unfolding bytes_equal
bytes_equal-length [] [] h = absurd (ground arith)
bytes_equal-length [] (b ∷ t) h = refl
bytes_equal-length (a ∷ s) [] h = refl
bytes_equal-length (a ∷ s) (b ∷ t) h = ground (arith, bytes_equal-length s t)

text_encoding-zip_is_str : (n : ℕ) → zip_is_str (text_encoding n) ≡ true
text_encoding-zip_is_str n = ground arith

match_text :
    (string2ll : List ℕ → Option ℤ) (v t rest : List ℕ) (encoding : ℕ)
    → zip_is_str encoding ≡ true
    → entry_matches string2ll v encoding (length t) (t ++ rest) ≡ some (bytes_equal t v)
unfolding entry_matches
match_text string2ll v t rest encoding str = elim (Bool-cases (length t == length v)) [
  | inl same ↦
      let there : leb (length t) (length (t ++ rest)) ≡ true =
        ground (arith, length-append t rest) in
      rw str (rw same (rw there (rw (take-length t rest) refl)))
  | inr other ↦ rw str (rw other (ap some (sym (bytes_equal-length t v other))))
]

number_not_text : (v : ℤ) → zip_is_str (int_encoding v) ≡ false
number_not_text v = let e = int_encoding-ge v in ground arith

match_number :
    (string2ll : List ℕ → Option ℤ) (v : List ℕ) (n : ℤ) (p : List ℕ) (len : ℕ)
    → zip_load_integer p (int_encoding n) ≡ some n
    → entry_matches string2ll v (int_encoding n) len p ≡ some (is_content string2ll v (number n))
unfolding entry_matches
match_number string2ll v n p len loads = elim (Option-cases (zip_try_encoding string2ll v)) [
  | inl e ↦ rw (number_not_text n) (rw (e, is_content) refl)
  | inr ((w, enc), e) ↦ rw (number_not_text n) (rw e (rw (loads, ◌>>=◌) (rw (e, is_content) refl)))
]

-- What the loop of zipListFind sees of an entry: its test is the one on the content.
seen :
    (string2ll : List ℕ → Option ℤ) (v rest : List ℕ) (c : Content)
    → IsStorable c
    → (encoding len_size len : ℕ) × (decode_length (content_bytes c ++ rest)
        ≡ some (encoding, len_size, len))
      × (len_size + len ≡ length (content_bytes c))
      × (entry_matches string2ll v encoding len (drop len_size (content_bytes c ++ rest))
          ≡ some (is_content string2ll v c))
seen string2ll v rest (text t) h =
    let head = zip_encode_length 0 (length t) in
    let order = append_assoc head t rest in
    (
      text_encoding (length t),
      length head,
      length t,
      ap decode_length order ∙ decode_length-zip_encode_length 0 (length t) (t ++ rest) refl h,
      sym (length-append head t),
      ap
            (λ p.
              entry_matches string2ll v (text_encoding (length t)) (length t)
                (drop (length head) p))
            order
          ∙ ap (entry_matches string2ll v (text_encoding (length t)) (length t))
              (drop-length head (t ++ rest))
          ∙ match_text string2ll v t rest (text_encoding (length t))
              (text_encoding-zip_is_str (length t)),
    )
seen string2ll v rest (number n) h =
    let (p, saved, loads, size) = zip_load_integer-zip_save_integer n h in
    let stored = or_nothing (zip_save_integer n (int_encoding n)) in
    let is_p : stored ≡ p = ap or_nothing saved in
    (
      int_encoding n,
      1,
      zip_int_size (int_encoding n),
      decode_length-int_encoding n (stored ++ rest),
      omega (arith, size, ap length is_p),
      match_number string2ll v n (stored ++ rest) (zip_int_size (int_encoding n))
          (ap (λ q. zip_load_integer (q ++ rest) (int_encoding n)) is_p ∙ loads rest),
    )

choose :
    (c : Bool) (r : Option (Option (List ℕ))) (p : List ℕ) (e : Entry) (es found : List Entry)
    → p ≡ blob (e ∷ es)
    → r ≡ some (pointer_to found)
    → elim c as (λ b. Option (Option (List ℕ))) [ true ↦ some (some p) | false ↦ r ]
      ≡ some (pointer_to (if c then e ∷ es else found))
choose true r p e es found same run = ap (λ q. some (some q)) same
choose false r p e es found same run = run

find_loop_lem :
    (string2ll : List ℕ → Option ℤ) (v : List ℕ) (skip fuel : ℕ) (es : List Entry) (skipped : ℕ)
    → AreStorable es
    → length es < fuel
    → find_loop string2ll v skip fuel (blob es) skipped
      ≡ some (pointer_to (first_match (is_content string2ll v) skip skipped es))
unfolding find_loop
find_loop_lem string2ll v skip zero es skipped h enough = absurd (omega (arith, enough))
find_loop_lem string2ll v skip (suc fuel) [] skipped h enough = refl
find_loop_lem string2ll v skip (suc fuel) (e ∷ es) zero (h, hs) enough =
    let head = zip_prev_encode_length e.prev in
    let body = content_bytes e.content ++ blob es in
    let order = append_assoc head (content_bytes e.content) (blob es) in
    let (encoding, len_size, len, run, size, test) = seen string2ll v (blob es) e.content h in
    let at_content = drop_more head body len_size (length head + len_size) refl in
    let behind : drop (length head + len_size + len) (head ++ body) ≡ blob es =
      drop_more head body (len_size + len) (length head + len_size + len) (omega arith)
      ∙ ap (λ n. drop n body) size
      ∙ drop-length (content_bytes e.content) (blob es) in
    let next =
      ap (λ q. find_loop string2ll v skip fuel q skip)
        (ap (drop (length head + len_size + len)) order ∙ behind)
      ∙ find_loop_lem string2ll v skip fuel es skip hs (omega (arith, enough)) in
    rw (at_end-entry_bytes e (blob es), ◌>>=◌)
      (rw order (
        rw (prev_len_size-zip_prev_encode_length e.prev body, ◌>>=◌)
          (rw (drop-length head body) (
            rw (run, ◌>>=◌)
              (rw at_content (
                rw (test, ◌>>=◌)
                  (choose (is_content string2ll v e.content) _ _ e es _ refl next)))))))
find_loop_lem string2ll v skip (suc fuel) (e ∷ es) (suc skipped) (h, hs) enough =
    let head = zip_prev_encode_length e.prev in
    let body = content_bytes e.content ++ blob es in
    let order = append_assoc head (content_bytes e.content) (blob es) in
    let (encoding, len_size, len, run, size, test) = seen string2ll v (blob es) e.content h in
    let behind : drop (length head + len_size + len) (head ++ body) ≡ blob es =
      drop_more head body (len_size + len) (length head + len_size + len) (omega arith)
      ∙ ap (λ n. drop n body) size
      ∙ drop-length (content_bytes e.content) (blob es) in
    let rest = find_loop_lem string2ll v skip fuel es skipped hs (omega (arith, enough)) in
    let more : (suc skipped == 0) ≡ false = ground arith in
    let pred : suc skipped - 1 ≡ skipped = omega arith in
    rw (at_end-entry_bytes e (blob es), ◌>>=◌)
      (rw order (
        rw (prev_len_size-zip_prev_encode_length e.prev body, ◌>>=◌)
          (rw (drop-length head body) (
            rw (run, ◌>>=◌)
              (rw more (
                rw pred (
                  ap (λ q. find_loop string2ll v skip fuel q skipped)
                    (ap (drop (length head + len_size + len)) order ∙ behind)
                  ∙ rest)))))))

-- zipListFind gives a pointer to the first entry whose content is the text that is looked for, or a
-- number that it stands for, among those that it tries: the first one, and then each behind `skip`
-- others; NULL if there is none. The fuel is for one more step than there are entries.
pub zip_list_find_lem :
    (string2ll : List ℕ → Option ℤ) (fuel : ℕ) (es : List Entry) (v : List ℕ) (skip : ℕ)
    → AreStorable es
    → length es < fuel
    → zip_list_find string2ll fuel (blob es) v skip
      ≡ some (pointer_to (first_match (is_content string2ll v) skip 0 es))
unfolding zip_list_find
zip_list_find_lem string2ll fuel es v skip h enough =
    find_loop_lem string2ll v skip fuel es 0 h enough
