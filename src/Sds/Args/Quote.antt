-- ===== src/Sds/Args/Quote.antt =====
-- One quoted byte of src/sds.c: sdsSplitArgs reads what sdsCatRepr writes for it.
use mathlib.Core.Path.{subst}
use jmeter_on_k8s.Prelude.{
  ℕ, suc, ◌+◌, ◌*◌, ◌/◌, ◌%◌, ◌<◌, ◌≡◌, refl, sym, ap, true, false, ◌||◌, Option, none, some, List,
  [], ◌∷◌, ◌++◌, ◌==◌, ◌>>=◌, arith, Bool-cases, inl, inr,
}
use jmeter_on_k8s.Libc.{isprint}
use jmeter_on_k8s.Sds.Args.{
  runs_on, is_hex_digit, hex_digit_to_int, unescape, hex_digit, escape, double, go, done, err,
  double_round, arg_loop, advance,
}

hex_digit-IsHex : (n : ℕ) → n < 16 → is_hex_digit (hex_digit n) ≡ true
unfolding is_hex_digit
hex_digit-IsHex n h = ground arith

hex_digit_to_int-hex_digit : (n : ℕ) → n < 16 → hex_digit_to_int (hex_digit n) ≡ n
unfolding hex_digit_to_int
hex_digit_to_int-hex_digit n h = ground arith

hex_digit-nonzero : (n : ℕ) → n < 16 → (hex_digit n == 0) ≡ false
hex_digit-nonzero n h = ground arith

module _ {S : Type 0} (cat_len : S → List ℕ → Option S) where
  -- The round of the loop on the byte c, however it is written.
  abbrev pub ReadsByte : ℕ → List ℕ → Type 0
  ReadsByte c written =
      (current : S) (rest : List ℕ) (fuel : ℕ)
      → arg_loop cat_len (suc fuel) double current (written ++ rest)
        ≡ (cat_len current (c ∷ []) >>= λ current'. arg_loop cat_len fuel double current' rest)

  -- A round that appends a byte and goes on.
  appends :
      (o : Option S) (fuel : ℕ) (p rest : List ℕ)
      → advance p ≡ rest
      → ((o >>= λ current. some (go double current p)) >>= λ r. elim r [
        | go q' current' p' ↦ arg_loop cat_len fuel q' current' (advance p')
        | done current' p' ↦ some (some (current', advance p'))
        | err ↦ some none
      ])
        ≡ (o >>= λ current. arg_loop cat_len fuel double current rest)
  appends none fuel p rest e = refl
  appends (some current) fuel p rest e = ap (λ l. arg_loop cat_len fuel double current l) e

  -- Two bytes, a backslash and a letter, for c.
  reads_letter :
      (c l : ℕ)
      → unescape l ≡ c
      → (l == 0) ≡ false
      → (l == b'x') ≡ false
      → ReadsByte c (92 ∷ l ∷ [])
  unfolding arg_loop double_round
  reads_letter c l e nz nx = λ current rest fuel.
      rw (nx, nz) (rw e (appends (cat_len current (c ∷ [])) fuel (l ∷ rest) rest (rw nz refl)))

  reads_plain :
      (c : ℕ) → (c == 92) ≡ false → (c == 34) ≡ false → (c == 0) ≡ false → ReadsByte c (c ∷ [])
  unfolding arg_loop double_round
  reads_plain c nb nq nz = λ current rest fuel.
      rw (nb, nq, nz) (appends (cat_len current (c ∷ [])) fuel (c ∷ rest) rest (rw nz refl))

  reads_hex :
      (c : ℕ) → c < 256 → ReadsByte c (92 ∷ b'x' ∷ hex_digit (c / 16) ∷ hex_digit (c % 16) ∷ [])
  unfolding arg_loop double_round
  reads_hex c small = λ current rest fuel.
      let hi = hex_digit-IsHex (c / 16) (omega arith) in
      let lo = hex_digit-IsHex (c % 16) (omega arith) in
      let value : (hex_digit_to_int (hex_digit (c / 16)) * 16
              + hex_digit_to_int (hex_digit (c % 16)))
            % 256
          ≡ c =
        omega (
          arith,
          hex_digit_to_int-hex_digit (c / 16) (omega arith),
          hex_digit_to_int-hex_digit (c % 16) (omega arith),
        ) in
      rw (hi, lo, double_round)
        (rw value (
          appends (cat_len current (c ∷ [])) fuel (hex_digit (c % 16) ∷ rest) rest
            (rw (hex_digit-nonzero (c % 16) (omega arith)) refl)))

  named : (c n l : ℕ) → (c == n) ≡ true → ReadsByte n (92 ∷ l ∷ []) → ReadsByte c (92 ∷ l ∷ [])
  named c n l e reads =
      let is : c ≡ n = ground arith in subst (λ m. ReadsByte m (92 ∷ l ∷ [])) (sym is) reads

  reads_self : (c n : ℕ) → (c == n) ≡ true → ReadsByte n (92 ∷ n ∷ []) → ReadsByte c (92 ∷ c ∷ [])
  reads_self c n e reads =
      let is : c ≡ n = ground arith in subst (λ m. ReadsByte m (92 ∷ m ∷ [])) (sym is) reads

  reads_quoted : (c : ℕ) → ((c == 92) || (c == 34)) ≡ true → ReadsByte c (92 ∷ c ∷ [])
  unfolding unescape
  reads_quoted c e = elim (Bool-cases (c == 92)) [
    | inl is ↦ reads_self c 92 is (reads_letter 92 92 refl refl refl)
    | inr isn't ↦ reads_self c 34 (ground arith) (reads_letter 34 34 refl refl refl)
  ]

  -- However sdsCatRepr writes a byte, sdsSplitArgs reads it.
  pub escape-ReadsByte : (c : ℕ) → c < 256 → ReadsByte c (escape c)
  unfolding escape unescape isprint
  escape-ReadsByte c small = elim (Bool-cases ((c == 92) || (c == 34))) [
    | inl is ↦ rw is (reads_quoted c is)
    | inr n0 ↦ rw n0 (elim (Bool-cases (c == 10)) [
      | inl is ↦ rw is (named c 10 b'n' is (reads_letter 10 b'n' refl refl refl))
      | inr n1 ↦ rw n1 (elim (Bool-cases (c == 13)) [
        | inl is ↦ rw is (named c 13 b'r' is (reads_letter 13 b'r' refl refl refl))
        | inr n2 ↦ rw n2 (elim (Bool-cases (c == 9)) [
          | inl is ↦ rw is (named c 9 b't' is (reads_letter 9 b't' refl refl refl))
          | inr n3 ↦ rw n3 (elim (Bool-cases (c == 7)) [
            | inl is ↦ rw is (named c 7 b'a' is (reads_letter 7 b'a' refl refl refl))
            | inr n4 ↦ rw n4 (elim (Bool-cases (c == 8)) [
              | inl is ↦ rw is (named c 8 b'b' is (reads_letter 8 b'b' refl refl refl))
              | inr n5 ↦ rw n5 (elim (Bool-cases (isprint c)) [
                | inl is ↦ rw is (reads_plain c (ground arith) (ground arith) (ground arith))
                | inr n6 ↦ rw n6 (reads_hex c small)
              ])
            ])
          ])
        ])
      ])
    ])
  ]

  -- The closing quote, with a blank or the end of the line behind it.
  pub closing_quote :
      (current : S) (rest : List ℕ) (fuel : ℕ)
      → runs_on (34 ∷ rest) ≡ false
      → arg_loop cat_len (suc fuel) double current (34 ∷ rest) ≡ some (some (current, rest))
  unfolding arg_loop double_round
  closing_quote current rest fuel ends = rw (ends, double_round) refl

  -- The end of the line in quotes.
  pub open_quote :
      (current : S) (fuel : ℕ) → arg_loop cat_len (suc fuel) double current [] ≡ some none
  unfolding arg_loop double_round
  open_quote current fuel = refl
