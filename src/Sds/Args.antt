-- ===== src/Sds/Args.antt =====
-- src/sds.c: sdsSplitArgs, which cuts a line into its arguments, and sdsCatRepr, which quotes a text.
-- A char * is the bytes in front of the NUL; reading at the end gives the NUL, and the code reads no
-- further. The strings that are built, and how bytes are appended to one, are parameters:
-- sds_split_args takes those of the source for them.
pub mod Quote
pub mod RoundTrip
pub mod Repr
pub mod Room
pub mod Short
pub mod Split
pub mod Tests
use jmeter_on_k8s.Prelude.{
  ℕ, zero, suc, ◌+◌, ◌-◌, ◌*◌, ◌/◌, ◌%◌, Bool, true, false, ◌&&◌, ◌||◌, not, Option, none, some,
  List, [], ◌∷◌, ◌++◌, ◌==◌, leb, if◌then◌else◌, ◌>>=◌, length, drop, get_or,
}
use jmeter_on_k8s.Libc.{isspace, isprint}
use jmeter_on_k8s.Sds.{Sdshdr}
use jmeter_on_k8s.Sds.Append.{sds_cat_len}
use jmeter_on_k8s.Sds.Create.{sds_empty}
use jmeter_on_k8s.Sds.Printf.{cat_printf}

unfoldable pub is_hex_digit : ℕ → Bool
is_hex_digit c =
    (leb b'0' c && leb c b'9') || (leb b'a' c && leb c b'f') || (leb b'A' c && leb c b'F')

unfoldable pub hex_digit_to_int : ℕ → ℕ
hex_digit_to_int c =
    if leb b'0' c && leb c b'9'
    then c - b'0'
    else if leb b'a' c && leb c b'f'
    then c - b'a' + 10
    else if leb b'A' c && leb c b'F'
    then c - b'A' + 10
    else 0

-- p[i]
abbrev pub at : List ℕ → ℕ → ℕ
at p i = get_or p i 0

-- while (*p && isspace(*p)) p++;
unfoldable pub skip_spaces : List ℕ → List ℕ
skip_spaces [] = []
skip_spaces (c ∷ p) = let rest = skip_spaces p in if isspace c then rest else c ∷ p

-- if (*p) p++;
abbrev pub advance : List ℕ → List ℕ
advance p = if at p 0 == 0 then p else drop 1 p

-- inq and insq
pub data Quoting : Type 0 where
  unquoted : Quoting
  double : Quoting
  single : Quoting

-- What a round of the loop leaves: the next state and p, the end of the argument, or goto err.
pub data Round (S : Type 0) : Type 0 where
  go : Quoting → S → List ℕ → Round S
  done : S → List ℕ → Round S
  err : Round S

-- The byte that a letter behind a backslash stands for.
unfoldable pub unescape : ℕ → ℕ
unescape c =
    if c == b'n'
    then 10
    else if c == b'r'
    then 13
    else if c == b't'
    then 9
    else if c == b'b'
    then 8
    else if c == b'a'
    then 7
    else c

-- *p == '\\' && *(p + 1) == 'x' && is_hex_digit(*(p + 2)) && is_hex_digit(*(p + 3))
abbrev pub is_hex_escape : List ℕ → Bool
is_hex_escape p =
    (at p 0 == 92) && (at p 1 == b'x') && is_hex_digit (at p 2) && is_hex_digit (at p 3)

-- *(p + 1) && !isspace(*(p + 1))
abbrev pub runs_on : List ℕ → Bool
runs_on p = not (at p 1 == 0) && not (isspace (at p 1))

-- case ' ', '\n', '\r', '\0' and '\t'
abbrev pub ends_argument : ℕ → Bool
ends_argument c = (c == 32) || (c == 10) || (c == 13) || (c == 0) || (c == 9)

abbrev pub hex_digit : ℕ → ℕ
hex_digit n = if leb n 9 then b'0' + n else b'a' + n - 10

-- The formats of sdsCatRepr, as bytes, and what the C library prints by them for one byte: "\\%c",
-- "%c" and "\\x%02x".
pub data Format : Type 0 where
  backslash_char plain_char hex_char : Format

abbrev pub format_text : Format → List ℕ
format_text backslash_char = 92 ∷ b'%' ∷ b'c' ∷ []
format_text plain_char = b'%' ∷ b'c' ∷ []
format_text hex_char = 92 ∷ b'x' ∷ b'%' ∷ b'0' ∷ b'2' ∷ b'x' ∷ []

abbrev pub printed : Format → ℕ → List ℕ
printed backslash_char c = 92 ∷ c ∷ []
printed plain_char c = c ∷ []
printed hex_char c = 92 ∷ b'x' ∷ hex_digit (c / 16) ∷ hex_digit (c % 16) ∷ []

-- The bytes that stand for a byte in a quoted text.
unfoldable pub escape : ℕ → List ℕ
escape c =
    if (c == 92) || (c == 34)
    then 92 ∷ c ∷ []
    else if c == 10
    then 92 ∷ b'n' ∷ []
    else if c == 13
    then 92 ∷ b'r' ∷ []
    else if c == 9
    then 92 ∷ b't' ∷ []
    else if c == 7
    then 92 ∷ b'a' ∷ []
    else if c == 8
    then 92 ∷ b'b' ∷ []
    else if isprint c
    then c ∷ []
    else 92 ∷ b'x' ∷ hex_digit (c / 16) ∷ hex_digit (c % 16) ∷ []

module _ {S : Type 0} (cat_len : S → List ℕ → Option S) where
  -- The body of the loop in double quotes.
  unfoldable pub double_round : S → List ℕ → Option (Round S)
  double_round current p =
      if is_hex_escape p
      then (cat_len current
            ((hex_digit_to_int (at p 2) * 16 + hex_digit_to_int (at p 3)) % 256 ∷ [])
          >>= λ current'. some (go double current' (drop 3 p)))
      else if (at p 0 == 92) && not (at p 1 == 0)
      then (cat_len current (unescape (at p 1) ∷ []) >>= λ current'.
          some (go double current' (drop 1 p)))
      else if at p 0 == 34
      then some (if runs_on p then err else done current p)
      else if at p 0 == 0
      then some err
      else (cat_len current (at p 0 ∷ []) >>= λ current'. some (go double current' p))

  -- The body of the loop in single quotes.
  unfoldable pub single_round : S → List ℕ → Option (Round S)
  single_round current p =
      if (at p 0 == 92) && (at p 1 == 39)
      then (cat_len current (39 ∷ []) >>= λ current'. some (go single current' (drop 1 p)))
      else if at p 0 == 39
      then some (if runs_on p then err else done current p)
      else if at p 0 == 0
      then some err
      else (cat_len current (at p 0 ∷ []) >>= λ current'. some (go single current' p))

  -- The body of the loop outside quotes.
  unfoldable pub plain_round : S → List ℕ → Option (Round S)
  plain_round current p =
      if ends_argument (at p 0)
      then some (done current p)
      else if at p 0 == 34
      then some (go double current p)
      else if at p 0 == 39
      then some (go single current p)
      else (cat_len current (at p 0 ∷ []) >>= λ current'. some (go unquoted current' p))

  abbrev pub round : Quoting → S → List ℕ → Option (Round S)
  round unquoted current p = plain_round current p
  round double current p = double_round current p
  round single current p = single_round current p

  -- while (!done), on fuel: the argument and the p behind it, or the inner `none` for goto err.
  unfoldable pub arg_loop : ℕ → Quoting → S → List ℕ → Option (Option (S × List ℕ))
  arg_loop zero q current p = none
  arg_loop (suc fuel) q current p = round q current p >>= λ r. elim r [
    | go q' current' p' ↦ arg_loop fuel q' current' (advance p')
    | done current' p' ↦ some (some (current', advance p'))
    | err ↦ some none
  ]

  -- The vector, which is NULL as long as no argument was stored.
  abbrev pub vector : List S → Option (List S)
  vector [] = none
  vector (a ∷ args) = some (a ∷ args)

  -- while (1), on fuel: the inner `none` is the result NULL, with *argc 0.
  unfoldable pub split_loop : Option S → ℕ → List ℕ → List S → Option (Option (List S))
  split_loop empty zero p args = none
  split_loop empty (suc fuel) p args =
      let p' = skip_spaces p in
      elim (at p' 0 == 0) [
        | true ↦ some (vector args)
        | false ↦ empty >>= λ current. arg_loop (length p' + 1) unquoted current p' >>= λ r.
            elim r [
              | none ↦ some none
              | some (arg, p'') ↦ split_loop empty fuel p'' (args ++ arg ∷ [])
            ]
      ]

  -- Every argument takes a byte of the line.
  unfoldable pub split_args : Option S → List ℕ → Option (Option (List S))
  split_args empty line = split_loop empty (length line + 1) line []

  module _ (fresh : ℕ → List ℕ) where
    -- The switch of sdsCatRepr; `static_buf` is what stands in the buffer of sdsCatVPrintf.
    unfoldable pub repr_byte : List ℕ → S → ℕ → Option S
    repr_byte static_buf s c =
        let print : Format → Option S =
          λ f. cat_printf cat_len fresh static_buf s (format_text f) (printed f c) in
        if (c == 92) || (c == 34)
        then print backslash_char
        else if c == 10
        then cat_len s (92 ∷ b'n' ∷ [])
        else if c == 13
        then cat_len s (92 ∷ b'r' ∷ [])
        else if c == 9
        then cat_len s (92 ∷ b't' ∷ [])
        else if c == 7
        then cat_len s (92 ∷ b'a' ∷ [])
        else if c == 8
        then cat_len s (92 ∷ b'b' ∷ [])
        else if isprint c
        then print plain_char
        else print hex_char

    -- while (len--); `static_buf` gives the garbage of a call by the number of bytes that follow.
    unfoldable pub repr_loop : (ℕ → List ℕ) → S → List ℕ → Option S
    repr_loop static_buf s [] = some s
    repr_loop static_buf s (c ∷ p) =
        repr_byte (static_buf (length p)) s c >>= λ s'. repr_loop static_buf s' p

    -- sdsCatRepr of the bytes p[0] to p[len - 1]
    unfoldable pub cat_repr : (ℕ → List ℕ) → S → List ℕ → Option S
    cat_repr static_buf s p =
        cat_len s (34 ∷ []) >>= λ s1. repr_loop static_buf s1 p >>= λ s2. cat_len s2 (34 ∷ [])

-- sdsSplitArgs and sdsCatRepr with the strings of src/sds.c
abbrev pub sds_split_args :
    (ℕ → List ℕ) → (List ℕ → ℕ → List ℕ) → List ℕ → Option (Option (List Sdshdr))
sds_split_args fresh grow line = split_args (sds_cat_len grow) (sds_empty fresh) line

abbrev pub sds_cat_repr :
    (ℕ → List ℕ) → (ℕ → List ℕ) → (List ℕ → ℕ → List ℕ) → Sdshdr → List ℕ → Option Sdshdr
sds_cat_repr fresh static_buf grow s p = cat_repr (sds_cat_len grow) fresh static_buf s p
