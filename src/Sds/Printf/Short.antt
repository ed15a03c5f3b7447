-- ===== src/Sds/Printf/Short.antt =====
-- sdsCatVPrintf of src/sds.c appends just what a short format prints.
use jmeter_on_k8s.Prelude.{
  ℕ, zero, suc, ◌+◌, ◌*◌, ◌≤◌, ◌<◌, ◌≡◌, refl, ap, ◌∙◌, false, Option, none, some, List, [], ◌∷◌,
  ◌++◌, ◌==◌, ltb, ◌>>=◌, length, take, drop, set, get_elem?, arith, length-append, length-set,
  add-one, lt→ltb, get_elem?-set_self,
}
use jmeter_on_k8s.Libc.{c_string}
use jmeter_on_k8s.Sds.Append.Room.{le→leb}
use jmeter_on_k8s.Sds.Number.Reversed.{append_assoc}
use jmeter_on_k8s.Sds.Printf.{vsnprintf, print_loop, cat_vprintf}

-- No byte is 0.
abbrev pub NoNul : List ℕ → Type 0
NoNul [] = Unit
NoNul (c ∷ s) = ((c == 0) ≡ false) × NoNul s

c_string-append : (s rest : List ℕ) → NoNul s → c_string (s ++ 0 ∷ rest) ≡ s
unfolding c_string
c_string-append [] rest h = refl
c_string-append (c ∷ s) rest (nz, h) = rw nz (ap (λ l. c ∷ l) (c_string-append s rest h))

take-short : (n : ℕ) (s : List ℕ) → length s ≤ n → take n s ≡ s
take-short zero [] h = refl
take-short (suc n) [] h = refl
take-short zero (c ∷ s) h = absurd (omega arith)
take-short (suc n) (c ∷ s) h = ap (λ l. c ∷ l) (take-short n s (omega arith))

get_elem?-past : (x : List ℕ) (i : ℕ) → length x ≤ i → get_elem? (x ++ []) i ≡ none
get_elem?-past [] i h = refl
get_elem?-past (c ∷ x) zero h = absurd (omega arith)
get_elem?-past (c ∷ x) (suc i) h = get_elem?-past x i (omega arith)

-- Behind the bytes that were written stands what stood there.
get_elem?-behind :
    (x b : List ℕ) (i : ℕ) → length x ≤ i → get_elem? (x ++ drop (length x) b) i ≡ get_elem? b i
get_elem?-behind [] b i h = refl
get_elem?-behind (c ∷ x) b zero h = absurd (omega arith)
get_elem?-behind (c ∷ x) [] (suc i) h = get_elem?-past x i (omega arith)
get_elem?-behind (c ∷ x) (d ∷ b) (suc i) h = get_elem?-behind x b i (omega arith)

print_short :
    (fresh : ℕ → List ℕ) (fuel : ℕ) (buf out : List ℕ)
    → length buf ≡ 1024
    → length out < 1022
    → (rest : List ℕ) × (print_loop fresh (suc fuel) buf 1024 out ≡ some (out ++ 0 ∷ rest))
unfolding print_loop vsnprintf
print_short fresh fuel buf out size short =
    let b = set buf 1022 0 in
    let sized : length b ≡ 1024 = length-set buf 1022 0 ∙ size in
    let x = out ++ 0 ∷ [] in
    let long : length x ≡ length out + 1 = length-append out (0 ∷ []) in
    let start : 0 + length x ≡ length x = omega arith in
    let all : take 1023 out ≡ out = take-short 1023 out (omega arith) in
    let tail : get_elem? (x ++ drop (length x) b) 1022 ≡ some 0 =
      get_elem?-behind x b 1022 (omega (arith, long))
      ∙ get_elem?-set_self buf 1022 0 (omega (arith, size)) in
    (
      drop (length x) b,
      rw (lt→ltb 1022 (length buf) (omega (arith, size)), ◌>>=◌)
          (rw all (
            rw (le→leb (0 + length x) (length b) (omega (arith, long, sized)), ◌>>=◌)
              (rw (ap (λ n. get_elem? (x ++ drop n b) 1022) start ∙ tail, ◌>>=◌)
                (ap (λ n. some (x ++ drop n b)) start
                  ∙ ap some (append_assoc out (0 ∷ []) (drop (length x) b)))))),
    )

-- A format of at most 512 bytes that prints fewer than 1022, none of them 0: they are appended.
pub cat_vprintf_lem :
    {S : Type 0} (cat_len : S → List ℕ → Option S) (fresh : ℕ → List ℕ) (static_buf : List ℕ)
    (s : S) (fmt out : List ℕ)
    → length static_buf ≡ 1024
    → length fmt ≤ 512
    → length out < 1022
    → NoNul out
    → cat_vprintf cat_len fresh static_buf s fmt out ≡ cat_len s out
unfolding cat_vprintf
cat_vprintf_lem cat_len fresh static_buf s fmt out size short_fmt short plain =
    let (rest, run) = print_short fresh (length out) static_buf out size short in
    let small : ltb 1024 (length fmt * 2) ≡ false = ground arith in
    rw small (
      rw (ap (λ n. print_loop fresh n static_buf 1024 out) (add-one (length out)) ∙ run, ◌>>=◌)
        (ap (cat_len s) (c_string-append out rest plain)))
