-- ===== src/Sds/Args/RoundTrip.antt =====
-- Of src/sds.c: sdsSplitArgs reads back the texts that sdsCatRepr quotes.
use mathlib.Core.Path.{subst}
use jmeter_on_k8s.Prelude.{
  ℕ, zero, suc, ◌+◌, ◌≤◌, ◌<◌, ◌≡◌, refl, sym, ap, ◌∙◌, false, Option, none, some, List, [], ◌∷◌,
  ◌++◌, map, ◌>>=◌, length, arith, length-append, add-one,
}
use jmeter_on_k8s.Libc.{isspace}
use jmeter_on_k8s.Sds.Args.{
  escape, double, unquoted, plain_round, arg_loop, split_loop, split_args, runs_on, skip_spaces,
  vector,
}
use jmeter_on_k8s.Sds.Args.Quote.{escape-ReadsByte, closing_quote, open_quote}
use jmeter_on_k8s.Sds.Number.Reversed.{append_assoc}

-- What sdsSplitArgs and sdsCatRepr rely on: a string that has room for n bytes more, besides those
-- that are appended, has room for n afterwards, and its text has grown by them.
pub record Appends {S : Type 0} (cat_len : S → List ℕ → Option S) (text : S → List ℕ)
    (HasRoom : ℕ → S → Type 0) : Type 0 where
  pub cat_len_lem :
      (s : S) (t : List ℕ) (n : ℕ)
      → HasRoom (length t + n) s
      → (s' : S) × (cat_len s t ≡ some s') × (text s' ≡ text s ++ t) × HasRoom n s'

-- Every element is a byte.
abbrev pub Bytes : List ℕ → Type 0
Bytes [] = Unit
Bytes (c ∷ s) = (c < 256) × Bytes s

-- The bytes that sdsCatRepr writes between the quotes.
abbrev pub escapes : List ℕ → List ℕ
escapes [] = []
escapes (c ∷ s) = escape c ++ escapes s

abbrev pub quoted : List ℕ → List ℕ
quoted s = 34 ∷ (escapes s ++ 34 ∷ [])

-- The quoted texts, each one behind a blank.
abbrev pub line_of : List (List ℕ) → List ℕ
line_of [] = []
line_of (s ∷ ss) = 32 ∷ 34 ∷ (escapes s ++ 34 ∷ line_of ss)

pub append-nil {ℓ} : {A : Type ℓ} (s : List A) → s ++ [] ≡ s
append-nil [] = refl
append-nil (c ∷ s) = ap (λ l. c ∷ l) (append-nil s)

length-escape : (c : ℕ) → 1 ≤ length (escape c)
unfolding escape
length-escape c = ground arith

length-escapes : (s : List ℕ) → length s ≤ length (escapes s)
length-escapes [] = omega arith
length-escapes (c ∷ s) =
    omega (arith, length-append (escape c) (escapes s), length-escape c, length-escapes s)

runs_on-line_of : (ss : List (List ℕ)) → runs_on (34 ∷ line_of ss) ≡ false
unfolding isspace
runs_on-line_of [] = refl
runs_on-line_of (s ∷ ss) = refl

module _ {S : Type 0} (cat_len : S → List ℕ → Option S) (text : S → List ℕ)
    (HasRoom : ℕ → S → Type 0) (laws : Appends cat_len text HasRoom) where
  pub same_room : (s : S) (m n : ℕ) → m ≡ n → HasRoom m s → HasRoom n s
  same_room s m n e room = subst (λ k. HasRoom k s) e room

  -- The loop in double quotes reads the quoted bytes up to the closing quote.
  read_escapes :
      (p rest : List ℕ) (s : S) (n fuel : ℕ)
      → Bytes p
      → runs_on (34 ∷ rest) ≡ false
      → HasRoom (length p + n) s
      → length p < fuel
      → (s' : S) × (arg_loop cat_len fuel double s (escapes p ++ 34 ∷ rest)
          ≡ some (some (s', rest)))
        × (text s' ≡ text s ++ p)
        × HasRoom n s'
  read_escapes p rest s n zero bytes ends room long = absurd (omega arith)
  read_escapes [] rest s n (suc fuel) bytes ends room long = (
    s,
    closing_quote cat_len s rest fuel ends,
    sym (append-nil (text s)),
    same_room s (0 + n) n (omega arith) room,
  )
  read_escapes (c ∷ p) rest s n (suc fuel) (byte, bytes) ends room long =
      let (s1, run1, text1, room1) =
        laws.cat_len_lem s (c ∷ []) (length p + n)
          (same_room s (suc (length p) + n) (1 + (length p + n)) (omega arith) room) in
      let (s2, run2, text2, room2) = read_escapes p rest s1 n fuel bytes ends room1 (omega arith) in
      (
        s2,
        ap (λ l. arg_loop cat_len (suc fuel) double s l)
              (append_assoc (escape c) (escapes p) (34 ∷ rest))
            ∙ escape-ReadsByte cat_len c byte s (escapes p ++ 34 ∷ rest) fuel
            ∙ rw (run1, ◌>>=◌) run2,
        text2 ∙ ap (λ t. t ++ p) text1 ∙ append_assoc (text s) (c ∷ []) p,
        room2,
      )

  -- The loop in double quotes comes to the end of the line.
  read_unclosed :
      (p : List ℕ) (s : S) (fuel : ℕ)
      → Bytes p
      → HasRoom (length p) s
      → length p < fuel
      → arg_loop cat_len fuel double s (escapes p) ≡ some none
  read_unclosed p s zero bytes room long = absurd (omega arith)
  read_unclosed [] s (suc fuel) bytes room long = open_quote cat_len s fuel
  read_unclosed (c ∷ p) s (suc fuel) (byte, bytes) room long =
      let (s1, run1, text1, room1) =
        laws.cat_len_lem s (c ∷ []) (length p)
          (same_room s (suc (length p)) (1 + length p) (omega arith) room) in
      escape-ReadsByte cat_len c byte s (escapes p) fuel
      ∙ rw (run1, ◌>>=◌) (read_unclosed p s1 fuel bytes room1 (omega arith))

  module _ (empty : Option S) (start : S) (is_start : empty ≡ some start)
      (is_empty : text start ≡ []) where
    first_quote :
        (p : List ℕ) (fuel : ℕ)
        → arg_loop cat_len (fuel + 1) unquoted start (34 ∷ p) ≡ arg_loop cat_len fuel double start p
    unfolding arg_loop plain_round
    first_quote p fuel = rw (add-one fuel) refl

    -- One argument of the line, and what follows it.
    read_argument :
        (s rest : List ℕ) (fuel : ℕ)
        → Bytes s
        → runs_on (34 ∷ rest) ≡ false
        → HasRoom (length s) start
        → length s + 1 < fuel
        → (a : S) × (arg_loop cat_len fuel unquoted start (34 ∷ (escapes s ++ 34 ∷ rest))
            ≡ some (some (a, rest)))
          × (text a ≡ s)
    unfolding arg_loop plain_round
    read_argument s rest zero bytes ends room long = absurd (omega arith)
    read_argument s rest (suc fuel) bytes ends room long =
        let (a, run, is, left) =
          read_escapes s rest start 0 fuel bytes ends
            (same_room start (length s) (length s + 0) (omega arith) room) (omega arith) in
        (a, run, is ∙ ap (λ t. t ++ s) is_empty)

    abbrev pub Fit : List (List ℕ) → Type 0
    Fit [] = Unit
    Fit (s ∷ ss) = Bytes s × HasRoom (length s) start × Fit ss

    split_loop_lem :
        (ss : List (List ℕ)) (fuel : ℕ) (args : List S)
        → Fit ss
        → length ss < fuel
        → (new : List S) × (split_loop cat_len empty fuel (line_of ss) args
            ≡ some (vector cat_len (args ++ new)))
          × (map text new ≡ ss)
    unfolding split_loop skip_spaces isspace
    split_loop_lem ss zero args fit long = absurd (omega arith)
    split_loop_lem [] (suc fuel) args fit long =
        ([], ap (λ l. some (vector cat_len l)) (sym (append-nil args)), refl)
    split_loop_lem (s ∷ ss) (suc fuel) args (bytes, room, fit) long =
        let (a, run, is) =
          read_argument s (line_of ss) (suc (length (escapes s ++ 34 ∷ line_of ss)) + 1) bytes
            (runs_on-line_of ss) room
            (omega (arith, length-append (escapes s) (34 ∷ line_of ss), length-escapes s)) in
        let (new, runs, are) = split_loop_lem ss fuel (args ++ a ∷ []) fit (omega arith) in
        (
          a ∷ new,
          rw (is_start, ◌>>=◌)
              (rw (run, ◌>>=◌)
                (runs ∙ ap (λ l. some (vector cat_len l)) (append_assoc args (a ∷ []) new))),
          ap (λ t. t ∷ map text new) is ∙ ap (λ l. s ∷ l) are,
        )

    length-line_of : (ss : List (List ℕ)) → length ss ≤ length (line_of ss)
    length-line_of [] = omega arith
    length-line_of (s ∷ ss) =
        omega (arith, length-append (escapes s) (34 ∷ line_of ss), length-line_of ss)

    -- Where appending keeps its contract, and the string that an argument starts with is empty and
    -- has room for each of the texts, sdsSplitArgs cuts a line of quoted texts, each one behind a
    -- blank, into arguments with these texts, in their order. The vector is NULL for no arguments.
    pub split_args_lem :
        (ss : List (List ℕ))
        → Fit ss
        → (args : List S) × (split_args cat_len empty (line_of ss) ≡ some (vector cat_len args))
          × (map text args ≡ ss)
    unfolding split_args
    split_args_lem ss fit =
        split_loop_lem ss (length (line_of ss) + 1) [] fit (omega (arith, length-line_of ss))

    first_unclosed :
        (p : List ℕ) (fuel : ℕ)
        → arg_loop cat_len (length (34 ∷ escapes p)) double start (escapes p) ≡ some none
        → split_loop cat_len empty (suc fuel) (34 ∷ escapes p) [] ≡ some none
    unfolding split_loop skip_spaces isspace
    first_unclosed p fuel run =
        rw (is_start, ◌>>=◌)
          (rw (first_quote (escapes p) (length (34 ∷ escapes p)) ∙ run, ◌>>=◌) refl)

    -- Where appending keeps its contract, and the string that an argument starts with has room for
    -- the text, sdsSplitArgs gives NULL for a quoted text whose quote is not closed.
    pub split_args-unclosed :
        (p : List ℕ)
        → Bytes p
        → HasRoom (length p) start
        → split_args cat_len empty (34 ∷ escapes p) ≡ some none
    unfolding split_args
    split_args-unclosed p bytes room =
        ap (λ n. split_loop cat_len empty n (34 ∷ escapes p) []) (omega arith)
        ∙ first_unclosed p (length (34 ∷ escapes p)) (
            read_unclosed p start (length (34 ∷ escapes p)) bytes room
              (omega (arith, length-escapes p)))
