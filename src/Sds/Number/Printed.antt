-- ===== src/Sds/Number/Printed.antt =====
-- The theorems that what sdsU112str and sds112str of src/sds.c print is read back.
use jmeter_on_k8s.Prelude.{
  ℕ, suc, ◌+◌, ◌-◌, ◌^◌, ◌≤◌, ◌<◌, ◌≡◌, refl, sym, ap, ◌∙◌, some, List, [], ◌∷◌, ◌++◌, ◌>>=◌,
  length, take, get_or, arith, length-append,
}
use jmeter_on_k8s.Prelude.Int.{ℤ, pos, negsuc}
use jmeter_on_k8s.Sds.Append.Room.{take-front}
use jmeter_on_k8s.Sds.Number.{write_digits, end_and_swap, sds_u112str, abs, write_sign, sds112str}
use jmeter_on_k8s.Sds.Number.Reversed.{
  reverse, append_assoc, store_byte-append, swap_loop-reverse, length-reverse, reverse-snoc,
}
use jmeter_on_k8s.Sds.Number.Decimal.{
  read_unsigned, read_number, power_of_ten, write_digits_lem, read_number-read_unsigned,
  read_number-minus,
}

-- The digits from the start of a buffer.
digits_lem :
    (k : ℕ) (buf : List ℕ) (v : ℕ)
    → k ≤ 20
    → 1 ≤ k
    → v < power_of_ten k
    → k < length buf
    → (ds rest : List ℕ) × (c : ℕ) × (write_digits 20 buf 0 v ≡ some (ds ++ c ∷ rest, length ds))
      × (length ds + suc (length rest) ≡ length buf)
      × (1 ≤ length ds)
      × (length ds ≤ k)
      × (read_unsigned (reverse ds) ≡ some v)
digits_lem k buf v le one small roomy =
    let (ds, rest, c, run, size, some_ds, few, reads) =
      write_digits_lem 20 k [] buf 0 v le one small roomy refl in
    (ds, rest, c, run ∙ ap (λ n. some (ds ++ c ∷ rest, n)) (omega arith), size, some_ds, few, reads)

get_or-end : (s t : List ℕ) (c d : ℕ) → get_or (s ++ c ∷ t) (length s) d ≡ c
get_or-end [] t c d = refl
get_or-end (a ∷ s) t c d = get_or-end s t c d

-- The text is reversed and ended by a NUL.
end_and_swap_lem :
    (x rest : List ℕ) (c : ℕ)
    → 1 ≤ length x
    → end_and_swap (x ++ c ∷ rest) (length x) ≡ some (reverse x ++ 0 ∷ rest, length x)
unfolding end_and_swap
end_and_swap_lem x rest c some_x =
    rw (store_byte-append x rest c 0 (length x) refl, ◌>>=◌)
      (ap (λ o. o >>= λ b. some (b, length x))
        (swap_loop-reverse (length x) [] x (0 ∷ rest) 0 (length x - 1) some_x (omega arith) refl
          (omega arith)))

-- What a buffer holds in front of its position l, and that a NUL stands there.
Holds : List ℕ → List ℕ → ℕ → Type 0
Holds s buf l = (take l buf ≡ s) × (get_or buf l 1 ≡ 0)

Holds-reverse : (x rest : List ℕ) → Holds (reverse x) (reverse x ++ 0 ∷ rest) (length x)
unfolding Holds
Holds-reverse x rest =
    rw (sym (length-reverse x)) (take-front (reverse x) (0 ∷ rest), get_or-end (reverse x) rest 0 1)

Holds-minus :
    (x rest : List ℕ) → Holds (b'-' ∷ reverse x) (b'-' ∷ (reverse x ++ 0 ∷ rest)) (length x + 1)
unfolding Holds
Holds-minus x rest =
    let (holds, nul) = Holds-reverse x rest in
    let next : length x + 1 ≡ suc (length x) = omega arith in
    rw next (ap (λ l. b'-' ∷ l) holds, nul)

-- In a buffer of 21 bytes or more, sdsU112str prints a number of 64 bits without a fault: at most 20
-- bytes, with a NUL behind them, from which the strict decimal reading gives the number back.
pub sds_u112str_lem :
    (buf : List ℕ) (v : ℕ)
    → v < 2 ^ 64
    → 21 ≤ length buf
    → (buf' : List ℕ) × (l : ℕ) × (sds_u112str buf v ≡ some (buf', l))
      × (read_unsigned (take l buf') ≡ some v)
      × (get_or buf' l 1 ≡ 0)
      × (l ≤ 20)
      × (length buf' ≡ length buf)
unfolding sds_u112str Holds
sds_u112str_lem buf v small roomy =
    let (ds, rest, c, run, size, some_ds, few, reads) =
      digits_lem 20 buf v (omega arith) (omega arith) (omega arith) (omega arith) in
    let (holds, nul) = Holds-reverse ds rest in
    (
      reverse ds ++ 0 ∷ rest,
      length ds,
      rw (run, ◌>>=◌) (end_and_swap_lem ds rest c some_ds),
      ap read_unsigned holds ∙ reads,
      nul,
      few,
      omega (arith, length-append (reverse ds) (0 ∷ rest), length-reverse ds),
    )

write_sign-minus :
    (x rest : List ℕ) (c n : ℕ)
    → write_sign (x ++ c ∷ rest) (length x) (negsuc n) ≡ some (x ++ b'-' ∷ rest, length x + 1)
unfolding write_sign
write_sign-minus x rest c n = rw (store_byte-append x rest c b'-' (length x) refl, ◌>>=◌) refl

-- The digits of a negative number, with the sign behind them, reversed.
minus_lem :
    (x rest : List ℕ) (c n : ℕ)
    → 1 ≤ length rest
    → (rest' : List ℕ) × ((write_sign (x ++ c ∷ rest) (length x) (negsuc n) >>= λ (b, l).
          end_and_swap b l)
        ≡ some (b'-' ∷ (reverse x ++ 0 ∷ rest'), length x + 1))
      × (length rest ≡ suc (length rest'))
minus_lem x [] c n h = absurd (omega arith)
minus_lem x (d ∷ rest) c n h = (
  rest,
  rw (write_sign-minus x (d ∷ rest) c n, ◌>>=◌)
      (sym (ap (λ l. end_and_swap l (length x + 1)) (append_assoc x (b'-' ∷ []) (d ∷ rest)))
        ∙ ap (λ n'. end_and_swap ((x ++ b'-' ∷ []) ++ d ∷ rest) n')
            (omega (arith, length-append x (b'-' ∷ [])))
        ∙ end_and_swap_lem (x ++ b'-' ∷ []) rest d (omega (arith, length-append x (b'-' ∷ [])))
        ∙ ap (λ l. some (l ++ 0 ∷ rest, length (x ++ b'-' ∷ []))) (reverse-snoc x b'-')
        ∙ ap (λ n'. some (b'-' ∷ (reverse x ++ 0 ∷ rest), n')) (length-append x (b'-' ∷ []))),
  refl,
)

-- In a buffer of 21 bytes or more, sds112str prints a number of 64 bits other than the least one
-- without a fault: at most 20 bytes, with a NUL behind them, from which the strict decimal reading
-- with a sign gives the number back.
pub sds112str_lem :
    (buf : List ℕ) (value : ℤ)
    → abs value < 2 ^ 63
    → 21 ≤ length buf
    → (buf' : List ℕ) × (l : ℕ) × (sds112str buf value ≡ some (buf', l))
      × (read_number (take l buf') ≡ some value)
      × (get_or buf' l 1 ≡ 0)
      × (l ≤ 20)
      × (length buf' ≡ length buf)
unfolding sds112str write_sign Holds
sds112str_lem buf (pos v) small roomy =
    let (ds, rest, c, run, size, some_ds, few, reads) =
      digits_lem 19 buf v (omega arith) (omega arith) (omega arith) (omega arith) in
    let (holds, nul) = Holds-reverse ds rest in
    (
      reverse ds ++ 0 ∷ rest,
      length ds,
      rw (run, ◌>>=◌) (end_and_swap_lem ds rest c some_ds),
      ap read_number holds ∙ read_number-read_unsigned (reverse ds) v reads,
      nul,
      omega (arith, few),
      omega (arith, length-append (reverse ds) (0 ∷ rest), length-reverse ds),
    )
sds112str_lem buf (negsuc v) small roomy =
    let (ds, rest, c, run, size, some_ds, few, reads) =
      digits_lem 19 buf (suc v) (omega arith) (omega arith) (omega arith) (omega arith) in
    let (holds, nul) = Holds-minus ds ((minus_lem ds rest c v (omega arith)).0) in
    let (rest', signs, size') = minus_lem ds rest c v (omega arith) in
    (
      b'-' ∷ (reverse ds ++ 0 ∷ rest'),
      length ds + 1,
      rw (run, ◌>>=◌) signs,
      ap read_number holds ∙ read_number-minus (reverse ds) v reads,
      nul,
      omega arith,
      omega (arith, length-append (reverse ds) (0 ∷ rest'), length-reverse ds),
    )
