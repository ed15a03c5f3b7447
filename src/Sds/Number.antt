-- ===== src/Sds/Number.antt =====
-- src/sds.c: sdsU112str and sds112str, which print a number into the caller's buffer. A position is an
-- index into the buffer; a read or write outside it is `none`, and so is the end of the fuel.
pub mod Reversed
pub mod Decimal
pub mod Printed
use jmeter_on_k8s.Prelude.{
  ℕ, zero, suc, ◌+◌, ◌-◌, ◌/◌, ◌%◌, Bool, true, false, Option, none, some, List, [], ◌∷◌, ◌==◌, ltb,
  leb, if◌then◌else◌, ◌>>=◌, get_elem?,
}
use jmeter_on_k8s.Prelude.Int.{ℤ, pos, negsuc}
use jmeter_on_k8s.Sds.{store_byte}

-- do { *p++ = '0' + (v % 10); v /= 10; } while (v); with the position behind the last digit
unfoldable pub write_digits : ℕ → List ℕ → ℕ → ℕ → Option (List ℕ × ℕ)
write_digits zero buf p v = none
write_digits (suc fuel) buf p v = store_byte buf p (b'0' + v % 10) >>= λ buf'. elim (v / 10 == 0) [
  | true ↦ some (buf', p + 1)
  | false ↦ write_digits fuel buf' (p + 1) (v / 10)
]

-- while (s < p) { aux = *s; *s = *p; *p = aux; s++; p--; }
unfoldable pub swap_loop : ℕ → List ℕ → ℕ → ℕ → Option (List ℕ)
swap_loop zero buf s p = none
swap_loop (suc fuel) buf s p = elim (ltb s p) [
  | false ↦ some buf
  | true ↦ get_elem? buf s >>= λ aux. get_elem? buf p >>= λ c. store_byte buf s c >>= λ buf1.
      store_byte buf1 p aux >>= λ buf2. swap_loop fuel buf2 (s + 1) (p - 1)
]

-- l = p - s; *p = '\0'; p--; and the loop that swaps: the buffer and l
unfoldable pub end_and_swap : List ℕ → ℕ → Option (List ℕ × ℕ)
end_and_swap buf l =
    store_byte buf l 0 >>= λ buf'. swap_loop l buf' 0 (l - 1) >>= λ buf''. some (buf'', l)

-- sdsU112str: the buffer that s points to, and the result. A number of 64 bits has at most 20 digits.
unfoldable pub sds_u112str : List ℕ → ℕ → Option (List ℕ × ℕ)
sds_u112str buf v = write_digits 20 buf 0 v >>= λ (buf', l). end_and_swap buf' l

-- (value < 0) ? -value : value, which is undefined for the least number
abbrev pub abs : ℤ → ℕ
abs (pos n) = n
abs (negsuc n) = suc n

abbrev pub is_negative : ℤ → Bool
is_negative (pos n) = false
is_negative (negsuc n) = true

-- if (value < 0) *p++ = '-';
unfoldable pub write_sign : List ℕ → ℕ → ℤ → Option (List ℕ × ℕ)
write_sign buf p value =
    if is_negative value
    then (store_byte buf p b'-' >>= λ buf'. some (buf', p + 1))
    else some (buf, p)

-- sds112str
unfoldable pub sds112str : List ℕ → ℤ → Option (List ℕ × ℕ)
sds112str buf value = write_digits 20 buf 0 (abs value) >>= λ (buf', p).
    write_sign buf' p value >>= λ (buf'', l). end_and_swap buf'' l
