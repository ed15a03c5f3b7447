-- ===== src/Sds/Args/Split.antt =====
-- Of src/sds.c: what sdsSplitArgs makes of lines with the strings of the source.
use mathlib.Core.Path.{subst}
use jmeter_on_k8s.Prelude.{
  ℕ, suc, ◌+◌, ◌*◌, ◌≤◌, ◌≡◌, refl, sym, ap, ◌∙◌, false, Option, none, some, List, [], ◌∷◌, ◌++◌,
  ◌==◌, ltb, ◌>>=◌, inl, length, map, arith, add-one, le→ltb_false, take, drop,
}
use jmeter_on_k8s.Libc.{isspace}
use jmeter_on_k8s.Sds.{Sdshdr}
use jmeter_on_k8s.Sds.Range.{text}
use jmeter_on_k8s.Sds.Append.{sds_cat_len}
use jmeter_on_k8s.Sds.Append.Room.{le→leb, length-write}
use jmeter_on_k8s.Sds.Create.{sds_new_len, sds_empty}
use jmeter_on_k8s.Sds.Create.Fresh.{copy_init_lem}
use jmeter_on_k8s.Sds.Args.{
  unquoted, skip_spaces, ends_argument, plain_round, arg_loop, split_loop, split_args,
  sds_split_args, vector, at,
}
use jmeter_on_k8s.Sds.Args.RoundTrip.{Bytes, line_of, Fit, split_args_lem}
use jmeter_on_k8s.Sds.Args.Short.{
  Blank, Tiny, cat_in, keeps_buffer, first_block, sds_cat_len-Appends_two,
}

sds_empty-Blank :
    (fresh : ℕ → List ℕ)
    → ((k : ℕ) → length (fresh k) ≡ k)
    → (s : Sdshdr) × (sds_empty fresh ≡ some s) × (text s ≡ []) × Blank s
unfolding sds_empty sds_new_len
sds_empty-Blank fresh sizes =
    let (b, run, same, size, nul) =
      copy_init_lem (fresh (0 + 1)) [] 0 (omega arith) (sizes (0 + 1)) in
    (
      record { len = 0; free = 0; buf = b },
      rw (run, ◌>>=◌) refl,
      same,
      record { none_used = refl; none_free = refl; nul_fits = omega (arith, size) },
    )

-- Texts of at most two bytes each.
abbrev pub Texts : List (List ℕ) → Type 0
Texts [] = Unit
Texts (s ∷ ss) = Bytes s × (length s ≤ 2) × Texts ss

-- A byte that sdsSplitArgs takes as it is, outside quotes.
abbrev pub IsPlain : ℕ → Type 0
IsPlain c = (isspace c ≡ false) × ((c == 0) ≡ false) × ((c == 34) ≡ false) × ((c == 39) ≡ false)

Texts-Fit :
    (grow : List ℕ → ℕ → List ℕ) (sized : (b : List ℕ) (n : ℕ) → length (grow b n) ≡ n)
    (start : Sdshdr) (is : text start ≡ []) (blank : Blank start) (empty : Option Sdshdr)
    (is_start : empty ≡ some start) (ss : List (List ℕ))
    → Texts ss
    → Fit
        (sds_cat_len grow)
        text
        Tiny
        (sds_cat_len-Appends_two grow sized)
        empty
        start
        is_start
        is
        ss
Texts-Fit grow sized start is blank empty is_start [] texts = tt
Texts-Fit grow sized start is blank empty is_start (s ∷ ss) (bytes, short, texts) = (
  bytes,
  record { two = omega (arith, blank.none_used, short); kind = inl blank },
  Texts-Fit grow sized start is blank empty is_start ss texts,
)

-- Where zmalloc and zre_alloc give blocks of the size asked for, sdsSplitArgs cuts a line of quoted
-- texts of at most two bytes each, each one behind a blank, into arguments with these texts, in
-- their order. The vector is NULL for no arguments.
pub sds_split_args_lem :
    (fresh : ℕ → List ℕ) (grow : List ℕ → ℕ → List ℕ) (ss : List (List ℕ))
    → ((k : ℕ) → length (fresh k) ≡ k)
    → ((b : List ℕ) (n : ℕ) → length (grow b n) ≡ n)
    → Texts ss
    → (args : List Sdshdr) × (sds_split_args fresh grow (line_of ss)
        ≡ some (vector (sds_cat_len grow) args))
      × (map text args ≡ ss)
sds_split_args_lem fresh grow ss sizes sized texts =
    let (start, run, is, blank) = sds_empty-Blank fresh sizes in
    split_args_lem (sds_cat_len grow) text Tiny (sds_cat_len-Appends_two grow sized)
      (sds_empty fresh) start run is ss
      (Texts-Fit grow sized start is blank (sds_empty fresh) run ss texts)

-- A round outside quotes that appends a byte.
plain_step :
    (grow : List ℕ → ℕ → List ℕ) (c : ℕ) (p : List ℕ) (s s' : Sdshdr) (fuel : ℕ)
    → IsPlain c
    → sds_cat_len grow s (c ∷ []) ≡ some s'
    → arg_loop (sds_cat_len grow) (suc fuel) unquoted s (c ∷ p)
      ≡ arg_loop (sds_cat_len grow) fuel unquoted s' p
unfolding arg_loop plain_round isspace
plain_step grow c p s s' fuel (ns, nz, nq, ni) run =
    let goes_on : ends_argument c ≡ false = ground arith in
    rw (goes_on, nq, ni) (rw (run, ◌>>=◌) (rw nz refl))

-- A round outside quotes whose byte is written behind the buffer.
plain_fault :
    (grow : List ℕ → ℕ → List ℕ) (c : ℕ) (p : List ℕ) (s : Sdshdr) (fuel : ℕ)
    → IsPlain c
    → sds_cat_len grow s (c ∷ []) ≡ none
    → arg_loop (sds_cat_len grow) (suc fuel) unquoted s (c ∷ p) ≡ none
unfolding arg_loop plain_round isspace
plain_fault grow c p s fuel (ns, nz, nq, ni) run =
    let goes_on : ends_argument c ≡ false = ground arith in
    rw (goes_on, nq, ni) (rw (run, ◌>>=◌) refl)

-- The NUL behind the third byte is written behind a buffer of three bytes.
third_byte :
    (grow : List ℕ → ℕ → List ℕ) (s : Sdshdr) (c : ℕ)
    → s.len ≡ 2
    → 1 ≤ s.free
    → length s.buf ≡ 3
    → sds_cat_len grow s (c ∷ []) ≡ none
unfolding sds_cat_len
third_byte grow s c len free size =
    let w = take s.len s.buf ++ (c ∷ drop (s.len + 1) s.buf) in
    let same : length w ≡ 3 = length-write s.buf (c ∷ []) s.len (omega (arith, len, size)) ∙ size in
    let past : ltb (s.len + 1) (length w) ≡ false =
      le→ltb_false (s.len + 1) (length w) (omega (arith, len, same)) in
    rw (keeps_buffer grow s 1 free) (
      rw (le→leb (s.len + 1) (length s.buf) (omega (arith, len, size)), ◌>>=◌)
        (rw (past, ◌>>=◌) refl))

three_plain :
    (grow : List ℕ → ℕ → List ℕ) (sized : (b : List ℕ) (n : ℕ) → length (grow b n) ≡ n) (s : Sdshdr)
    (a b c : ℕ) (rest : List ℕ) (fuel : ℕ)
    → Blank s
    → IsPlain a
    → IsPlain b
    → IsPlain c
    → arg_loop (sds_cat_len grow) (suc (suc (suc fuel))) unquoted s (a ∷ b ∷ c ∷ rest) ≡ none
three_plain grow sized s a b c rest fuel blank is_a is_b is_c =
    let block = grow s.buf (1 * 2 + 1) in
    let (s1, run1, is1, size1, len1, free1) =
      cat_in grow s (a ∷ []) block (first_block grow s 1 blank (omega arith) (omega arith))
        (omega (arith, blank.none_used, sized s.buf (1 * 2 + 1))) in
    let (s2, run2, is2, size2, len2, free2) =
      cat_in grow s1 (b ∷ []) s1.buf
        (keeps_buffer grow s1 1 (omega (arith, free1, blank.none_free)))
        (omega (arith, size1, len1, blank.none_used, sized s.buf (1 * 2 + 1))) in
    plain_step grow a (b ∷ c ∷ rest) s s1 (suc (suc fuel)) is_a run1
    ∙ plain_step grow b (c ∷ rest) s1 s2 (suc fuel) is_b run2
    ∙ plain_fault grow c rest s2 fuel is_c (
        third_byte grow s2 c (omega (arith, len2, len1, blank.none_used))
          (omega (arith, free2, free1, blank.none_free))
          (omega (arith, size2, size1, sized s.buf (1 * 2 + 1))))

-- A line whose first argument faults.
split_loop-fault :
    (grow : List ℕ → ℕ → List ℕ) (empty : Option Sdshdr) (start : Sdshdr) (p p' : List ℕ) (fuel : ℕ)
    → skip_spaces p ≡ p'
    → (at p' 0 == 0) ≡ false
    → empty ≡ some start
    → arg_loop (sds_cat_len grow) (length p' + 1) unquoted start p' ≡ none
    → split_loop (sds_cat_len grow) empty (suc fuel) p [] ≡ none
unfolding split_loop
split_loop-fault grow empty start p p' fuel skips more is_start run =
    let there = subst (λ q. (at q 0 == 0) ≡ false) (sym skips) more in
    let fault =
      subst (λ q. arg_loop (sds_cat_len grow) (length q + 1) unquoted start q ≡ none) (sym skips)
        run in
    rw (there, split_loop) (rw (is_start, ◌>>=◌) (rw (fault, ◌>>=◌) refl))

first_three-fault :
    (grow : List ℕ → ℕ → List ℕ) (sized : (b : List ℕ) (n : ℕ) → length (grow b n) ≡ n) (s : Sdshdr)
    (a b c : ℕ) (rest : List ℕ)
    → Blank s
    → IsPlain a
    → IsPlain b
    → IsPlain c
    → arg_loop (sds_cat_len grow) (length (a ∷ b ∷ c ∷ rest) + 1) unquoted s (a ∷ b ∷ c ∷ rest)
      ≡ none
first_three-fault grow sized s a b c rest blank is_a is_b is_c =
    let fuel : length (a ∷ b ∷ c ∷ rest) + 1 ≡ suc (suc (suc (length rest + 1))) = omega arith in
    ap (λ n. arg_loop (sds_cat_len grow) n unquoted s (a ∷ b ∷ c ∷ rest)) fuel
    ∙ three_plain grow sized s a b c rest (length rest + 1) blank is_a is_b is_c

skip_spaces-plain : (c : ℕ) (p : List ℕ) → isspace c ≡ false → skip_spaces (c ∷ p) ≡ c ∷ p
unfolding skip_spaces
skip_spaces-plain c p h = rw h refl

-- Where zmalloc and zre_alloc give blocks of the size asked for, and the first three bytes of a line
-- are neither blanks nor quotes nor NUL, sdsSplitArgs writes behind the end of a buffer, whatever
-- follows in the line.
pub sds_split_args-overruns :
    (fresh : ℕ → List ℕ) (grow : List ℕ → ℕ → List ℕ) (a b c : ℕ) (rest : List ℕ)
    → ((k : ℕ) → length (fresh k) ≡ k)
    → ((d : List ℕ) (n : ℕ) → length (grow d n) ≡ n)
    → IsPlain a
    → IsPlain b
    → IsPlain c
    → sds_split_args fresh grow (a ∷ b ∷ c ∷ rest) ≡ none
unfolding split_args
sds_split_args-overruns fresh grow a b c rest sizes sized is_a is_b is_c =
    let (start, run, is, blank) = sds_empty-Blank fresh sizes in
    let (ns, nz, nq, ni) = is_a in
    let line = a ∷ b ∷ c ∷ rest in
    rw (add-one (length line)) (
      split_loop-fault grow (sds_empty fresh) start line line (length line)
        (skip_spaces-plain a (b ∷ c ∷ rest) ns) nz run
        (first_three-fault grow sized start a b c rest blank is_a is_b is_c))
