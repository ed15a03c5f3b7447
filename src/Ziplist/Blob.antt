-- ===== src/Ziplist/Blob.antt =====
-- What a blob of src/ziplist.c stands for: a list of texts and numbers, each written by the source's
-- own encoders, and the byte ZIP_END.
pub mod Find
use mathlib.Core.List.{append_assoc}
use jmeter_on_k8s.Prelude.{
  ℕ, zero, suc, ◌+◌, ◌-◌, ◌%◌, ◌^◌, ◌<◌, ◌≤◌, ◌≡◌, refl, sym, ap, ◌∙◌, Bool, true, false, Option,
  none, some, List, [], ◌∷◌, ◌++◌, ◌==◌, ltb, if◌then◌else◌, ◌>>=◌, length, length-append, drop,
  Bool-cases, inl, inr, arith,
}
use jmeter_on_k8s.Prelude.Int.{ℤ, pos, negsuc}
use jmeter_on_k8s.Ziplist.{
  zip_end, zip_prev_encode_length, prev_len_size, zip_encode_length, decode_length, zip_int_size,
  int_encoding, zip_save_integer, zip_raw_entry_length, magnitude, le_bytes,
}
use jmeter_on_k8s.Ziplist.Header.{
  text_encoding, decode_length-zip_encode_length, decode_length-int_encoding,
  prev_len_size-zip_prev_encode_length,
}
use jmeter_on_k8s.Ziplist.Number.{Stored, read_bytes-le_bytes, zip_load_integer-zip_save_integer}
use jmeter_on_k8s.Ziplist.Walk.{
  at_end, zip_list_next, index_loop, len_loop, zip_list_index, zip_list_len, length_field,
  set_length_field,
}

pub data Content : Type 0 where
  text : List ℕ → Content
  number : ℤ → Content

-- `prev` is the length of the entry before.
pub record Entry : Type 0 where
  pub prev : ℕ
  pub content : Content

abbrev pub or_nothing : Option (List ℕ) → List ℕ
or_nothing none = []
or_nothing (some p) = p

abbrev pub content_bytes : Content → List ℕ
content_bytes (text t) = zip_encode_length 0 (length t) ++ t
content_bytes (number v) = int_encoding v ∷ or_nothing (zip_save_integer v (int_encoding v))

abbrev pub entry_bytes : Entry → List ℕ
entry_bytes e = zip_prev_encode_length e.prev ++ content_bytes e.content

-- The entries as a pointer to the first of them sees them.
abbrev pub blob : List Entry → List ℕ
blob [] = zip_end ∷ []
blob (e ∷ es) = entry_bytes e ++ blob es

-- Texts and numbers that the encoders can write.
abbrev pub IsStorable : Content → Type 0
IsStorable (text t) = length t < 2 ^ 32
IsStorable (number v) = magnitude v < 2 ^ 63

abbrev pub AreStorable : List Entry → Type 0
AreStorable [] = Unit
AreStorable (e ∷ es) = IsStorable e.content × AreStorable es

pub drop-length : (s t : List ℕ) → drop (length s) (s ++ t) ≡ t
drop-length [] t = refl
drop-length (a ∷ s) t = drop-length s t

pub drop_more : (s t : List ℕ) (n m : ℕ) → m ≡ length s + n → drop m (s ++ t) ≡ drop n t
drop_more [] t n m e = let same : m ≡ n = omega (arith, e) in ap (λ k. drop k t) same
drop_more (a ∷ s) t n zero e = absurd (omega (arith, e))
drop_more (a ∷ s) t n (suc m) e = drop_more s t n m (omega (arith, e))

-- What ZIP_DECODE_LENGTH makes of a content.
abbrev pub Decoded : Content → List ℕ → Type 0
Decoded c rest =
    (encoding len_size len : ℕ) × (decode_length (content_bytes c ++ rest)
      ≡ some (encoding, len_size, len))
    × (len_size + len ≡ length (content_bytes c))

decoded : (c : Content) (rest : List ℕ) → IsStorable c → Decoded c rest
decoded (text t) rest h = (
  text_encoding (length t),
  length (zip_encode_length 0 (length t)),
  length t,
  ap decode_length (append_assoc (zip_encode_length 0 (length t)) t rest)
      ∙ decode_length-zip_encode_length 0 (length t) (t ++ rest) refl h,
  sym (length-append (zip_encode_length 0 (length t)) t),
)
decoded (number v) rest h =
    let (p, saved, loads, size) = zip_load_integer-zip_save_integer v h in
    (
      int_encoding v,
      1,
      zip_int_size (int_encoding v),
      decode_length-int_encoding v (or_nothing (zip_save_integer v (int_encoding v)) ++ rest),
      (let q = ap (λ o. length (or_nothing o)) saved in omega (arith, size, q)),
    )

-- zipRawEntryLength of a written entry is its length, whatever follows it.
pub zip_raw_entry_length_lem :
    (e : Entry) (rest : List ℕ)
    → IsStorable e.content
    → zip_raw_entry_length (entry_bytes e ++ rest) ≡ some (length (entry_bytes e))
unfolding zip_raw_entry_length
zip_raw_entry_length_lem e rest h =
    let head = zip_prev_encode_length e.prev in
    let body = content_bytes e.content in
    let order = append_assoc head body rest in
    let (encoding, len_size, len, run, size) = decoded e.content rest h in
    rw order (
      rw (prev_len_size-zip_prev_encode_length e.prev (body ++ rest), ◌>>=◌)
        (rw (drop-length head (body ++ rest))
          (rw (run, ◌>>=◌) (ap some (omega (arith, size, length-append head body))))))

at_end-entry_bytes : (e : Entry) (rest : List ℕ) → at_end (entry_bytes e ++ rest) ≡ some false
unfolding zip_prev_encode_length
at_end-entry_bytes e rest = elim (Bool-cases (ltb e.prev 254)) [
  | inl small ↦ rw small (ap some (ground arith))
  | inr big ↦ rw big refl
]

-- A pointer to the first of the entries, NULL if there is none.
abbrev pub pointer_to : List Entry → Option (List ℕ)
pointer_to [] = none
pointer_to (e ∷ es) = some (blob (e ∷ es))

-- zipListNext from one entry leads to the next one, or is NULL behind the last one.
pub zip_list_next_lem :
    (e : Entry) (es : List Entry)
    → AreStorable (e ∷ es)
    → zip_list_next (blob (e ∷ es)) ≡ some (pointer_to es)
unfolding zip_list_next
zip_list_next_lem e [] (h, hs) =
    let q = drop-length (entry_bytes e) (zip_end ∷ []) in
    rw (at_end-entry_bytes e (blob []), ◌>>=◌)
      (rw (zip_raw_entry_length_lem e (blob []) h, ◌>>=◌) (rw (q, ◌>>=◌) refl))
zip_list_next_lem e (x ∷ xs) (h, hs) =
    let q = drop-length (entry_bytes e) (blob (x ∷ xs)) in
    rw (at_end-entry_bytes e (blob (x ∷ xs)), ◌>>=◌)
      (rw (zip_raw_entry_length_lem e (blob (x ∷ xs)) h, ◌>>=◌)
        (rw (q, ◌>>=◌) (rw (at_end-entry_bytes x (blob xs), ◌>>=◌) refl)))

len_loop_lem :
    (fuel : ℕ) (es : List Entry) (n : ℕ)
    → AreStorable es
    → length es < fuel
    → n + length es < 2 ^ 32
    → len_loop fuel (blob es) n ≡ some (n + length es)
unfolding len_loop
len_loop_lem zero es n h enough small = absurd (omega (arith, enough))
len_loop_lem (suc fuel) [] n h enough small = ap some (omega arith)
len_loop_lem (suc fuel) (e ∷ es) n (h, hs) enough small =
    let next : (n + 1) % 2 ^ 32 ≡ n + 1 = omega (arith, small) in
    rw (at_end-entry_bytes e (blob es), ◌>>=◌)
      (rw (zip_raw_entry_length_lem e (blob es) h, ◌>>=◌)
        (rw (drop-length (entry_bytes e) (blob es)) (
          rw next (
            len_loop_lem fuel es (n + 1) hs (omega (arith, enough)) (omega (arith, small))
            ∙ ap some (omega arith)))))

-- The entries from an index on.
abbrev pub from_index : List Entry → ℕ → List Entry
from_index [] i = []
from_index (e ∷ es) zero = e ∷ es
from_index (e ∷ es) (suc i) = from_index es i

abbrev pub is_empty : List Entry → Bool
is_empty [] = true
is_empty (e ∷ es) = false

index_loop_lem :
    (fuel : ℕ) (es : List Entry) (i : ℕ)
    → AreStorable es
    → length es < fuel
    → index_loop fuel (blob es) i ≡ some (blob (from_index es i), is_empty (from_index es i))
unfolding index_loop
index_loop_lem zero es i h enough = absurd (omega (arith, enough))
index_loop_lem (suc fuel) [] i h enough = refl
index_loop_lem (suc fuel) (e ∷ es) zero h enough = rw (at_end-entry_bytes e (blob es), ◌>>=◌) refl
index_loop_lem (suc fuel) (e ∷ es) (suc i) (h, hs) enough =
    let pred : suc i - 1 ≡ i = omega arith in
    let more : (suc i == 0) ≡ false = ground arith in
    rw (at_end-entry_bytes e (blob es), ◌>>=◌)
      (rw more (
        rw (zip_raw_entry_length_lem e (blob es) h, ◌>>=◌)
          (rw (drop-length (entry_bytes e) (blob es))
            (rw pred (index_loop_lem fuel es i hs (omega (arith, enough)))))))

-- A whole blob: its three header fields, then the entries.
abbrev pub with_header : ℕ → ℕ → ℕ → List Entry → List ℕ
with_header bytes tail len es = le_bytes 4 bytes ++ (le_bytes 4 tail ++ (le_bytes 2 len ++ blob es))

pub drop_header :
    (bytes tail len : ℕ) (es : List Entry) → drop 10 (with_header bytes tail len es) ≡ blob es
unfolding le_bytes
drop_header bytes tail len es = refl

-- zipListIndex, for an index from 0 on, gives a pointer to the entry at it, or NULL behind the last
-- one, with fuel for one more step than there are entries.
pub zip_list_index_lem :
    (fuel bytes tail len : ℕ) (es : List Entry) (i : ℕ)
    → AreStorable es
    → length es < fuel
    → zip_list_index fuel (with_header bytes tail len es) i ≡ some (pointer_to (from_index es i))
unfolding zip_list_index
zip_list_index_lem fuel bytes tail len es i h enough =
    rw (drop_header bytes tail len es)
      (rw (index_loop_lem fuel es i h enough, ◌>>=◌) (pointer (from_index es i)))
  where
    pointer :
        (s : List Entry) → some (if is_empty s then none else some (blob s)) ≡ some (pointer_to s)
    pointer [] = refl
    pointer (e ∷ s) = refl

length_field_lem :
    (bytes tail len : ℕ) (es : List Entry)
    → len < 2 ^ 16
    → length_field (with_header bytes tail len es) ≡ some len
unfolding le_bytes
length_field_lem bytes tail len es h = read_bytes-le_bytes 2 len (blob es) h

set_length_field_lem :
    (bytes tail len n : ℕ) (es : List Entry)
    → set_length_field (with_header bytes tail len es) n ≡ with_header bytes tail n es
unfolding le_bytes
set_length_field_lem bytes tail len n es = refl

field_kept :
    (bytes tail len : ℕ) (es : List Entry) (b : Bool)
    → (if b
        then set_length_field (with_header bytes tail len es) (length es)
        else with_header bytes tail len es)
      ≡ with_header bytes tail (if b then length es else len) es
field_kept bytes tail len es true = set_length_field_lem bytes tail len (length es) es
field_kept bytes tail len es false = refl

-- zipListLen gives the length field below 65535. From there on it counts the entries, with fuel for
-- one more step than there are, and keeps a count below 65535 in the field; fewer than 2 ^ 32 entries.
pub zip_list_len_lem :
    (fuel bytes tail len : ℕ) (es : List Entry)
    → AreStorable es
    → length es < fuel
    → length es < 2 ^ 32
    → len < 2 ^ 16
    → zip_list_len fuel (with_header bytes tail len es) ≡ (
        if ltb len 65535
        then some (len, with_header bytes tail len es)
        else some (
          length es,
          with_header bytes tail (if ltb (length es) 65535 then length es else len) es,
        ))
unfolding zip_list_len
zip_list_len_lem fuel bytes tail len es h enough small field =
    let stored = length_field_lem bytes tail len es field in
    elim (Bool-cases (ltb len 65535)) [
      | inl few ↦ rw (stored, ◌>>=◌) (rw few refl)
      | inr many ↦
          let from_zero : 0 + length es ≡ length es = omega arith in
          let counted =
            ap (λ p. len_loop fuel p 0) (drop_header bytes tail len es)
            ∙ len_loop_lem fuel es 0 h enough (omega (arith, small))
            ∙ ap some from_zero in
          rw (stored, ◌>>=◌)
            (rw many (
              rw (counted, ◌>>=◌)
                (ap (λ z. some (length es, z))
                  (field_kept bytes tail len es (ltb (length es) 65535)))))
    ]
