-- ===== src/Sds/Edit/Compare.antt =====
-- sdsCmp of src/sds.c orders the strings like words in a dictionary.
use Prim.Native.Nat.{compare, Ordering}
use Prim.Native.Nat.compare
use Prim.Native.Nat.Ordering.{lt, eq, gt}
use jmeter_on_k8s.Prelude.{
  ℕ, zero, suc, ◌≤◌, ◌≡◌, refl, sym, ap, ◌∙◌, true, false, ◌==◌, ltb, List, [], ◌∷◌, if◌then◌else◌,
  length, take, arith, inl, inr, ◌⊎◌,
}
use jmeter_on_k8s.Prelude.Int.{ℤ, pos, negsuc, sub_ℕ}
use jmeter_on_k8s.Libc.{memcmp}
use jmeter_on_k8s.Sds.{Sdshdr}
use jmeter_on_k8s.Sds.Range.{text, IsValid}
use jmeter_on_k8s.Sds.Edit.{by_length, sds_cmp}

-- The first byte in which two texts differ decides, and the shorter one of two that agree is less.
unfoldable pub lexicographic : List ℕ → List ℕ → Ordering
lexicographic [] [] = eq
lexicographic [] (b ∷ t) = lt
lexicographic (a ∷ s) [] = gt
lexicographic (a ∷ s) (b ∷ t) = elim (compare a b) [ lt ↦ lt | eq ↦ lexicographic s t | gt ↦ gt ]

abbrev pub sign : ℤ → Ordering
sign (pos zero) = eq
sign (pos (suc n)) = gt
sign (negsuc n) = lt

abbrev shorter : ℕ → ℕ → ℕ
shorter m n = if ltb m n then m else n

shorter-suc : (m n : ℕ) → shorter (suc m) (suc n) ≡ suc (shorter m n)
shorter-suc m n = ground arith

sub_ℕ-suc : (m n : ℕ) → sub_ℕ (suc m) (suc n) ≡ sub_ℕ m n
sub_ℕ-suc m n = ground arith

difference : (m : ℕ) → sub_ℕ (suc m) zero ≡ pos (suc m)
difference m = ground arith

shortfall : (n : ℕ) → sub_ℕ zero (suc n) ≡ negsuc n
shortfall n = ground arith

-- The sign of a difference is the comparison.
sign-sub_ℕ : (m n : ℕ) → sign (sub_ℕ m n) ≡ compare m n
sign-sub_ℕ zero zero = refl
sign-sub_ℕ zero (suc n) = ap sign (shortfall n) ∙ sym (compare.zero-suc n)
sign-sub_ℕ (suc m) zero = ap sign (difference m) ∙ sym (compare.suc-zero m)
sign-sub_ℕ (suc m) (suc n) = ap sign (sub_ℕ-suc m n) ∙ sign-sub_ℕ m n ∙ sym (compare.suc-suc m n)

by_length-suc : (z : ℤ) (m n : ℕ) → by_length z (suc m) (suc n) ≡ by_length z m n
unfolding by_length
by_length-suc (pos zero) m n = sub_ℕ-suc m n
by_length-suc (pos (suc k)) m n = refl
by_length-suc (negsuc k) m n = refl

-- Where the first bytes differ, the sign is that of their difference.
by_length-sign :
    (z : ℤ) (m n : ℕ) (o : Ordering) → sign z ≡ o → ¬ (o ≡ eq) → sign (by_length z m n) ≡ o
unfolding by_length
by_length-sign (pos zero) m n o e ne = absurd (ne (sym e))
by_length-sign (pos (suc k)) m n o e ne = e
by_length-sign (negsuc k) m n o e ne = e

Ordering-cases : (o : Ordering) → (o ≡ lt) ⊎ ((o ≡ eq) ⊎ (o ≡ gt))
Ordering-cases lt = inl refl
Ordering-cases eq = inr (inl refl)
Ordering-cases gt = inr (inr refl)

shorter-zero : (n : ℕ) → shorter zero n ≡ zero
shorter-zero n = ground arith

shorter-zero' : (m : ℕ) → shorter m zero ≡ zero
shorter-zero' m = ground arith

memcmp-differs :
    (m n x y : ℕ) (b c : List ℕ)
    → (x == y) ≡ false
    → memcmp (shorter (suc m) (suc n)) (x ∷ b) (y ∷ c) ≡ sub_ℕ x y
unfolding memcmp
memcmp-differs m n x y b c e =
    ap (λ k. memcmp k (x ∷ b) (y ∷ c)) (shorter-suc m n)
    ∙ ap (λ t. if t then memcmp (shorter m n) b c else sub_ℕ x y) e

memcmp-same :
    (m n x y : ℕ) (b c : List ℕ)
    → (x == y) ≡ true
    → memcmp (shorter (suc m) (suc n)) (x ∷ b) (y ∷ c) ≡ memcmp (shorter m n) b c
unfolding memcmp
memcmp-same m n x y b c e =
    ap (λ k. memcmp k (x ∷ b) (y ∷ c)) (shorter-suc m n)
    ∙ ap (λ t. if t then memcmp (shorter m n) b c else sub_ℕ x y) e

less : ¬ (lt ≡ eq)
less e = cc e

more : ¬ (gt ≡ eq)
more e = cc e

compare_bytes :
    (m n : ℕ) (b c : List ℕ)
    → m ≤ length b
    → n ≤ length c
    → sign (by_length (memcmp (shorter m n) b c) m n) ≡ lexicographic (take m b) (take n c)
unfolding by_length memcmp lexicographic
compare_bytes zero zero b c h k = refl
compare_bytes zero (suc n) b [] h k = absurd (omega arith)
compare_bytes zero (suc n) b (y ∷ c) h k =
    rw (shorter-zero (suc n)) (sign-sub_ℕ zero (suc n) ∙ compare.zero-suc n)
compare_bytes (suc m) n [] c h k = absurd (omega arith)
compare_bytes (suc m) zero (x ∷ b) c h k =
    rw (shorter-zero' (suc m)) (sign-sub_ℕ (suc m) zero ∙ compare.suc-zero m)
compare_bytes (suc m) (suc n) (x ∷ b) [] h k = absurd (omega arith)
compare_bytes (suc m) (suc n) (x ∷ b) (y ∷ c) h k = elim (Ordering-cases (compare x y)) [
  | inl l ↦
      ap (λ z. sign (by_length z (suc m) (suc n))) (memcmp-differs m n x y b c (rw (l, ◌==◌) refl))
      ∙ by_length-sign (sub_ℕ x y) (suc m) (suc n) lt (sign-sub_ℕ x y ∙ l) less
      ∙ rw (l, lexicographic) refl
  | inr (inl e) ↦
      ap (λ z. sign (by_length z (suc m) (suc n))) (memcmp-same m n x y b c (rw (e, ◌==◌) refl))
      ∙ ap sign (by_length-suc (memcmp (shorter m n) b c) m n)
      ∙ compare_bytes m n b c (omega arith) (omega arith)
      ∙ rw (e, lexicographic) refl
  | inr (inr g) ↦
      ap (λ z. sign (by_length z (suc m) (suc n))) (memcmp-differs m n x y b c (rw (g, ◌==◌) refl))
      ∙ by_length-sign (sub_ℕ x y) (suc m) (suc n) gt (sign-sub_ℕ x y ∙ g) more
      ∙ rw (g, lexicographic) refl
]

sds_cmp-by_length :
    (s t : Sdshdr) → sds_cmp s t ≡ by_length (memcmp (shorter s.len t.len) s.buf t.buf) s.len t.len
unfolding sds_cmp
sds_cmp-by_length s t = refl

-- The sign of sdsCmp of two valid strings is the lexicographic order of their texts.
pub sds_cmp_lem :
    (s t : Sdshdr) → IsValid s → IsValid t → sign (sds_cmp s t) ≡ lexicographic (text s) (text t)
sds_cmp_lem s t ok ok' =
    ap sign (sds_cmp-by_length s t)
    ∙ compare_bytes s.len t.len s.buf t.buf (omega (arith, ok.fits)) (omega (arith, ok'.fits))
