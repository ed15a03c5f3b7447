-- ===== src/Sds/Range.antt =====
-- Correctness of sdsRange of src/sds.c.
use jmeter_on_k8s.Prelude.{
  ℕ, zero, suc, ◌+◌, ◌-◌, ◌%◌, ◌^◌, ◌≤◌, ◌<◌, ◌≡◌, refl, sym, ap, ◌∙◌, false, some, List, [], ◌∷◌,
  ◌++◌, ◌==◌, leb, ◌>>=◌, length, set, take, drop, get_or, arith, length-append, length-take,
  length-drop, length-set, get_or-set_self, Bool-cases, inl, inr, ◌⊎◌, lt→ltb,
}
use jmeter_on_k8s.Prelude.Int.{ℤ}
use jmeter_on_k8s.Sds.{Sdshdr, from_end, range_len, move_down, sds_range}

-- What the string stands for.
abbrev pub text : Sdshdr → List ℕ
text s = take s.len s.buf

-- The length and the free space, with the NUL, fit the buffer; both are ints.
pub record IsValid (s : Sdshdr) : Type 0 where
  pub fits : s.len + s.free < length s.buf
  pub small : s.len + s.free < 2 ^ 31
  pub nul : get_or s.buf s.len 1 ≡ 0

pub take-set : (b : List ℕ) (n c : ℕ) → take n (set b n c) ≡ take n b
take-set [] n c = refl
take-set (a ∷ b) zero c = refl
take-set (a ∷ b) (suc n) c = ap (λ l. a ∷ l) (take-set b n c)

take-append : (b c : List ℕ) (n : ℕ) → n ≤ length b → take n (take n b ++ c) ≡ take n b
take-append b c zero h = refl
take-append [] c (suc n) h = absurd (omega arith)
take-append (a ∷ b) c (suc n) h = ap (λ l. a ∷ l) (take-append b c n (omega arith))

take-take : (b : List ℕ) (n m : ℕ) → n ≤ m → take n (take m b) ≡ take n b
take-take b zero m h = refl
take-take b (suc n) zero h = absurd (omega arith)
take-take [] (suc n) (suc m) h = refl
take-take (a ∷ b) (suc n) (suc m) h = ap (λ l. a ∷ l) (take-take b n m (omega arith))

length-move :
    (b : List ℕ) (i n : ℕ) → i + n ≤ length b → length (take n (drop i b) ++ drop n b) ≡ length b
length-move b i n h = omega (
  arith,
  length-append (take n (drop i b)) (drop n b),
  length-take n (drop i b),
  length-drop i b,
  length-drop n b,
)

-- Taking behind a drop does not see what lies further.
take-drop : (b : List ℕ) (i n m : ℕ) → i + n ≤ m → take n (drop i (take m b)) ≡ take n (drop i b)
take-drop b zero n m h = take-take b n m (omega arith)
take-drop [] (suc i) n zero h = refl
take-drop [] (suc i) n (suc m) h = refl
take-drop (a ∷ b) (suc i) n zero h = absurd (omega arith)
take-drop (a ∷ b) (suc i) n (suc m) h = take-drop b i n m (omega arith)

take-long : (b : List ℕ) (n k : ℕ) → length b ≤ n → n ≤ k → take n b ≡ take k b
take-long [] zero zero h l = refl
take-long [] zero (suc k) h l = refl
take-long [] (suc n) (suc k) h l = refl
take-long [] (suc n) zero h l = absurd (omega arith)
take-long (a ∷ b) zero k h l = absurd (omega arith)
take-long (a ∷ b) (suc n) zero h l = absurd (omega arith)
take-long (a ∷ b) (suc n) (suc k) h l =
    ap (λ c. a ∷ c) (take-long b n k (omega arith) (omega arith))

range_len_cases :
    (len start last : ℕ)
    → 0 < len
    → ((range_len len start last ≡ last + 1 - start) × (range_len len start last ≤ len - start))
      ⊎ ((range_len len start last ≡ len - start) × (range_len len start last ≤ last + 1 - start))
unfolding range_len
range_len_cases len start last h = elim (Bool-cases (leb (last + 1 - start) (len - start))) [
  | inl e ↦ inl (ground arith, ground arith)
  | inr e ↦ inr (ground arith, ground arith)
]

suc_nonzero : (n : ℕ) → (suc n == 0) ≡ false
suc_nonzero n = ground arith

take-nil : (k i : ℕ) → [] ≡ take k (drop {A = ℕ} i [])
take-nil zero i = refl
take-nil (suc k) zero = refl
take-nil (suc k) (suc i) = refl

text_of_empty : (b : List ℕ) (len k i : ℕ) → len ≡ 0 → take len b ≡ take k (drop i (take len b))
text_of_empty b len k i e = rw e (take-nil k i)

take-move_down :
    (b : List ℕ) (start n m : ℕ)
    → n ≤ m - start
    → m ≤ length b
    → take n (move_down b start n) ≡ take n (drop start (take m b))
unfolding move_down
take-move_down b start zero m h k = refl
take-move_down b zero (suc n) m h k = sym (take-drop b 0 (suc n) m (omega arith))
take-move_down b (suc start) (suc n) m h k =
    rw (suc_nonzero start, suc_nonzero n, move_down)
      (take-append (drop (suc start) b) (drop (suc n) b) (suc n)
          (omega (arith, length-drop (suc start) b))
        ∙ sym (take-drop b (suc start) (suc n) m (omega arith)))

length-move_down :
    (b : List ℕ) (start n m : ℕ)
    → n ≤ m - start
    → m ≤ length b
    → length (move_down b start n) ≡ length b
unfolding move_down
length-move_down b zero n m h k = refl
length-move_down b (suc start) zero m h k = rw (suc_nonzero start, move_down) refl
length-move_down b (suc start) (suc n) m h k =
    rw (suc_nonzero start, suc_nonzero n, move_down)
      (length-move b (suc start) (suc n) (omega arith))

take-range_len :
    (t : List ℕ) (len start last : ℕ)
    → length t ≡ len
    → 0 < len
    → take (range_len len start last) (drop start t) ≡ take (last + 1 - start) (drop start t)
take-range_len t len start last e h = elim (range_len_cases len start last h) [
  | inl (r, l) ↦ rw r refl
  | inr (r, l) ↦
      take-long (drop start t) (range_len len start last) (last + 1 - start)
        (omega (arith, length-drop start t)) l
]

range_len-le : (len start last : ℕ) → 0 < len → range_len len start last ≤ len - start
range_len-le len start last h = elim (range_len_cases len start last h) [
  | inl (e, l) ↦ l
  | inr (e, l) ↦ omega arith
]

-- On a valid string, sdsRange stays inside the buffer and leaves a valid string, with its NUL, whose
-- text is the bytes from `start` to `end`, both included, where a negative index counts from the end
-- and one in front of the text is 0. The buffer keeps its size, and the length and the free space
-- their sum.
pub sds_range_lem :
    (s : Sdshdr) (start last : ℤ)
    → IsValid s
    → (s' : Sdshdr) × (sds_range s start last ≡ some s')
      × IsValid s'
      × (text s'
          ≡ take
              (from_end s.len last + 1 - from_end s.len start)
              (drop (from_end s.len start) (text s)))
      × (length s'.buf ≡ length s.buf)
      × (s'.len + s'.free ≡ s.len + s.free)
unfolding sds_range
sds_range_lem s start last ok = elim (Bool-cases (s.len == 0)) [
  | inl z ↦ (
    s,
    rw z refl,
    ok,
    text_of_empty s.buf s.len (from_end s.len last + 1 - from_end s.len start)
        (from_end s.len start) (ground arith),
    refl,
    refl,
  )
  | inr nz ↦
      let i = from_end s.len start in
      let n = range_len s.len i (from_end s.len last) in
      let le = range_len-le s.len i (from_end s.len last) (ground arith) in
      let b = set (move_down s.buf i n) n 0 in
      let same = length-move_down s.buf i n s.len le (omega (arith, ok.fits)) in
      let size = length-set (move_down s.buf i n) n 0 ∙ same in
      (
        record { len = n; free = (s.free + (s.len - n)) % 2 ^ 32; buf = b },
        rw nz (rw (lt→ltb n (length (move_down s.buf i n)) (omega (arith, ok.fits)), ◌>>=◌) refl),
        record {
          fits = omega (arith, ok.fits, ok.small);
          small = omega (arith, ok.small);
          nul = get_or-set_self (move_down s.buf i n) n 0 1 (omega (arith, ok.fits));
        },
        take-set (move_down s.buf i n) n 0
            ∙ take-move_down s.buf i n s.len le (omega (arith, ok.fits))
            ∙ take-range_len (text s) s.len i (from_end s.len last)
                (omega (arith, length-take s.len s.buf, ok.fits)) (ground arith),
        size,
        omega (arith, ok.small),
      )
]
