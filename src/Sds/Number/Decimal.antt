-- ===== src/Sds/Number/Decimal.antt =====
-- Reading a decimal text, and the digits that src/sds.c writes for a number.
use jmeter_on_k8s.Prelude.{
  ℕ, zero, suc, ◌+◌, ◌-◌, ◌*◌, ◌/◌, ◌%◌, ◌≤◌, ◌<◌, ◌≡◌, refl, sym, ap, ◌∙◌, Bool, true, false,
  Option, none, some, List, [], ◌∷◌, ◌++◌, ◌==◌, leb, ◌&&◌, if◌then◌else◌, ◌>>=◌, length, arith,
  length-append, Bool-cases, inl, inr,
}
use jmeter_on_k8s.Prelude.Int.{ℤ, pos, negsuc}
use jmeter_on_k8s.Sds.Number.{write_digits}
use jmeter_on_k8s.Sds.Number.Reversed.{reverse, append_assoc, store_byte-append}

abbrev pub is_digit : ℕ → Bool
is_digit c = leb b'0' c && leb c b'9'

-- The number of a row of digits behind the number `acc`.
unfoldable pub read_digits : ℕ → List ℕ → Option ℕ
read_digits acc [] = some acc
read_digits acc (c ∷ s) = if is_digit c then read_digits (acc * 10 + (c - b'0')) s else none

-- The number of a text of one digit or more, with no zero in front of another digit.
unfoldable pub read_unsigned : List ℕ → Option ℕ
read_unsigned [] = none
read_unsigned (c ∷ []) = read_digits 0 (c ∷ [])
read_unsigned (c ∷ d ∷ s) = if c == b'0' then none else read_digits 0 (c ∷ d ∷ s)

-- The same with a sign in front of a number that is not 0.
unfoldable pub read_number : List ℕ → Option ℤ
read_number [] = none
read_number (c ∷ s) = elim (c == b'-') [
  | true ↦ read_unsigned s >>= λ n. if n == 0 then none else some (negsuc (n - 1))
  | false ↦ read_unsigned (c ∷ s) >>= λ n. some (pos n)
]

abbrev pub power_of_ten : ℕ → ℕ
power_of_ten zero = 1
power_of_ten (suc k) = 10 * power_of_ten k

read_digits-snoc :
    (s : List ℕ) (acc n d : ℕ)
    → d < 10
    → read_digits acc s ≡ some n
    → read_digits acc (s ++ (b'0' + d) ∷ []) ≡ some (n * 10 + d)
unfolding read_digits
read_digits-snoc [] acc n d h e = ground arith
read_digits-snoc (c ∷ s) acc n d h e = elim (Bool-cases (is_digit c)) [
  | inl y ↦ rw y (
      read_digits-snoc s (acc * 10 + (c - b'0')) n d h
        (sym (ap (λ b. if b then read_digits (acc * 10 + (c - b'0')) s else none) y) ∙ e))
  | inr n' ↦ ground arith
]

read_unsigned-snoc :
    (s : List ℕ) (n d : ℕ)
    → d < 10
    → 0 < n
    → read_unsigned s ≡ some n
    → read_unsigned (s ++ (b'0' + d) ∷ []) ≡ some (n * 10 + d)
unfolding read_unsigned read_digits
read_unsigned-snoc [] n d h p e = absurd (cc e)
read_unsigned-snoc (c ∷ []) n d h p e = elim (Bool-cases (c == b'0')) [
  | inl z ↦ ground arith
  | inr nz ↦ rw nz (read_digits-snoc (c ∷ []) 0 n d h e)
]
read_unsigned-snoc (c ∷ x ∷ s) n d h p e = elim (Bool-cases (c == b'0')) [
  | inl z ↦ ground arith
  | inr nz ↦ rw nz (
      read_digits-snoc (c ∷ x ∷ s) 0 n d h
        (sym (ap (λ b. if b then none else read_digits 0 (c ∷ x ∷ s)) nz) ∙ e))
]

-- The first byte of a number is a digit, and so no sign.
pub read_number-read_unsigned :
    (s : List ℕ) (n : ℕ) → read_unsigned s ≡ some n → read_number s ≡ some (pos n)
unfolding read_number read_unsigned read_digits
read_number-read_unsigned [] n e = absurd (cc e)
read_number-read_unsigned (c ∷ []) n e = elim (Bool-cases (c == b'-')) [
  | inl sign ↦ ground arith
  | inr other ↦ rw (other, read_number) (ap (λ o. o >>= λ m. some (pos m)) e)
]
read_number-read_unsigned (c ∷ d ∷ s) n e = elim (Bool-cases (c == b'-')) [
  | inl sign ↦ ground arith
  | inr other ↦ rw (other, read_number) (ap (λ o. o >>= λ m. some (pos m)) e)
]

pub read_number-minus :
    (s : List ℕ) (n : ℕ) → read_unsigned s ≡ some (suc n) → read_number (b'-' ∷ s) ≡ some (negsuc n)
unfolding read_number
read_number-minus s n e = rw (e, ◌>>=◌) (ground arith)

write-last :
    (fuel : ℕ) (before room : List ℕ) (c p v : ℕ)
    → (v / 10 == 0) ≡ true
    → p ≡ length before
    → write_digits (suc fuel) (before ++ c ∷ room) p v
      ≡ some (before ++ (b'0' + v % 10) ∷ room, p + 1)
unfolding write_digits
write-last fuel before room c p v z e =
    rw (store_byte-append before room c (b'0' + v % 10) p e, ◌>>=◌) (rw z refl)

write-more :
    (fuel : ℕ) (before room : List ℕ) (c p v : ℕ)
    → (v / 10 == 0) ≡ false
    → p ≡ length before
    → write_digits (suc fuel) (before ++ c ∷ room) p v
      ≡ write_digits fuel ((before ++ (b'0' + v % 10) ∷ []) ++ room) (p + 1) (v / 10)
unfolding write_digits
write-more fuel before room c p v nz e =
    rw (store_byte-append before room c (b'0' + v % 10) p e, ◌>>=◌)
      (rw nz (
        ap (λ l. write_digits fuel l (p + 1) (v / 10))
          (sym (append_assoc before ((b'0' + v % 10) ∷ []) room))))

two_digits : (k v : ℕ) → v < power_of_ten (suc k) → (v / 10 == 0) ≡ false → 1 ≤ k
two_digits zero v small nz = absurd (ground arith)
two_digits (suc k) v small nz = omega arith

read-one : (v : ℕ) → (v / 10 == 0) ≡ true → read_unsigned ((b'0' + v % 10) ∷ []) ≡ some v
unfolding read_unsigned read_digits
read-one v z = ground arith

read-more :
    (s : List ℕ) (v : ℕ)
    → (v / 10 == 0) ≡ false
    → read_unsigned s ≡ some (v / 10)
    → read_unsigned (s ++ (b'0' + v % 10) ∷ []) ≡ some v
read-more s v nz e =
    read_unsigned-snoc s (v / 10) (v % 10) (omega arith) (ground arith) e ∙ ap some (omega arith)

-- The digits stand behind the bytes of `before`, the low ones first, in at most k bytes.
pub write_digits_lem :
    (fuel k : ℕ) (before room : List ℕ) (p v : ℕ)
    → k ≤ fuel
    → 1 ≤ k
    → v < power_of_ten k
    → k < length room
    → p ≡ length before
    → (ds rest : List ℕ) × (c : ℕ) × (write_digits fuel (before ++ room) p v
        ≡ some (before ++ (ds ++ c ∷ rest), p + length ds))
      × (length ds + suc (length rest) ≡ length room)
      × (1 ≤ length ds)
      × (length ds ≤ k)
      × (read_unsigned (reverse ds) ≡ some v)
unfolding write_digits
write_digits_lem zero k before room p v le one small roomy e = absurd (omega arith)
write_digits_lem (suc fuel) zero before room p v le one small roomy e = absurd (omega arith)
write_digits_lem (suc fuel) (suc k) before [] p v le one small roomy e = absurd (omega arith)
write_digits_lem (suc fuel) (suc k) before (c ∷ []) p v le one small roomy e = absurd (omega arith)
write_digits_lem (suc fuel) (suc k) before (c ∷ c2 ∷ room) p v le one small roomy e =
    elim (Bool-cases (v / 10 == 0)) [
      | inl z ↦ (
        (b'0' + v % 10) ∷ [],
        room,
        c2,
        write-last fuel before (c2 ∷ room) c p v z e,
        omega arith,
        omega arith,
        omega arith,
        read-one v z,
      )
      | inr nz ↦
          let d = b'0' + v % 10 in
          let (ds, rest, c', run, size, some_ds, few, reads) =
            write_digits_lem fuel k (before ++ d ∷ []) (c2 ∷ room) (p + 1) (v / 10) (omega arith)
              (two_digits k v small nz) (omega arith) (omega arith)
              (omega (arith, length-append before (d ∷ []))) in
          (
            d ∷ ds,
            rest,
            c',
            write-more fuel before (c2 ∷ room) c p v nz e
                ∙ run
                ∙ ap (λ l. some (l, p + 1 + length ds))
                    (append_assoc before (d ∷ []) (ds ++ c' ∷ rest))
                ∙ ap (λ n. some (before ++ d ∷ (ds ++ c' ∷ rest), n)) (omega arith),
            omega arith,
            omega arith,
            omega arith,
            read-more (reverse ds) v nz reads,
          )
    ]
