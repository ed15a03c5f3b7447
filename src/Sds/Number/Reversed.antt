-- ===== src/Sds/Number/Reversed.antt =====
-- The loop of src/sds.c that turns the digits around: it reverses the bytes between its positions.
use mathlib.Core.Path.{subst}
use jmeter_on_k8s.Prelude.{
  ℕ, zero, suc, ◌+◌, ◌-◌, ◌≤◌, ◌≡◌, refl, sym, ap, ◌∙◌, some, List, [], ◌∷◌, ◌++◌, ◌>>=◌, length,
  get_elem?, set, arith, length-append, lt→ltb, le→ltb_false,
}
use jmeter_on_k8s.Sds.{store_byte}
use jmeter_on_k8s.Sds.Number.{swap_loop}

-- The bytes in the opposite order.
abbrev pub reverse : List ℕ → List ℕ
reverse [] = []
reverse (a ∷ s) = reverse s ++ a ∷ []

pub append_assoc {ℓ} : {A : Type ℓ} (a b c : List A) → (a ++ b) ++ c ≡ a ++ (b ++ c)
append_assoc [] b c = refl
append_assoc (x ∷ a) b c = ap (λ l. x ∷ l) (append_assoc a b c)

pub get_elem?-append : (s t : List ℕ) (c i : ℕ) → i ≡ length s → get_elem? (s ++ c ∷ t) i ≡ some c
get_elem?-append [] t c zero e = refl
get_elem?-append [] t c (suc i) e = absurd (omega arith)
get_elem?-append (a ∷ s) t c zero e = absurd (omega arith)
get_elem?-append (a ∷ s) t c (suc i) e = get_elem?-append s t c i (omega arith)

set-append : (s t : List ℕ) (c d i : ℕ) → i ≡ length s → set (s ++ c ∷ t) i d ≡ s ++ d ∷ t
set-append [] t c d zero e = refl
set-append [] t c d (suc i) e = absurd (omega arith)
set-append (a ∷ s) t c d zero e = absurd (omega arith)
set-append (a ∷ s) t c d (suc i) e = ap (λ l. a ∷ l) (set-append s t c d i (omega arith))

-- A write behind the bytes of `s` replaces the first byte of what follows them.
pub store_byte-append :
    (s t : List ℕ) (c d i : ℕ) → i ≡ length s → store_byte (s ++ c ∷ t) i d ≡ some (s ++ d ∷ t)
store_byte-append s t c d i e =
    rw (lt→ltb i (length (s ++ c ∷ t)) (omega (arith, length-append s (c ∷ t))))
      (ap some (set-append s t c d i e))

-- The bytes of a list that is not empty, as the last one and those in front of it.
front : ℕ → List ℕ → List ℕ
front a [] = []
front a (b ∷ s) = a ∷ front b s

last : ℕ → List ℕ → ℕ
last a [] = a
last a (b ∷ s) = last b s

front-last : (a : ℕ) (s : List ℕ) → a ∷ s ≡ front a s ++ last a s ∷ []
unfolding front last
front-last a [] = refl
front-last a (b ∷ s) = ap (λ l. a ∷ l) (front-last b s)

length-front : (a : ℕ) (s : List ℕ) → length (front a s) ≡ length s
unfolding front
length-front a [] = refl
length-front a (b ∷ s) = ap suc (length-front b s)

pub reverse-snoc : (s : List ℕ) (b : ℕ) → reverse (s ++ b ∷ []) ≡ b ∷ reverse s
reverse-snoc [] b = refl
reverse-snoc (a ∷ s) b = ap (λ l. l ++ a ∷ []) (reverse-snoc s b)

pub length-reverse : (s : List ℕ) → length (reverse s) ≡ length s
length-reverse [] = refl
length-reverse (a ∷ s) = omega (arith, length-append (reverse s) (a ∷ []), length-reverse s)

swap-empty :
    (fuel : ℕ) (buf : List ℕ) (s p : ℕ) → 1 ≤ fuel → p ≤ s → swap_loop fuel buf s p ≡ some buf
unfolding swap_loop
swap-empty zero buf s p h le = absurd (omega arith)
swap-empty (suc fuel) buf s p h le = rw (le→ltb_false s p le, swap_loop) refl

-- One round of the loop on the bytes `a`, `y` and `b`.
swap-round :
    (fuel : ℕ) (pre y post : List ℕ) (a b s p : ℕ)
    → s ≡ length pre
    → p ≡ s + length y + 1
    → swap_loop (suc fuel) (pre ++ a ∷ (y ++ b ∷ post)) s p
      ≡ swap_loop fuel (pre ++ b ∷ (y ++ a ∷ post)) (s + 1) (p - 1)
unfolding swap_loop
swap-round fuel pre y post a b s p es ep =
    let long = length-append pre (a ∷ y) in
    let long' = length-append pre (b ∷ y) in
    let at_p = get_elem?-append (pre ++ a ∷ y) post b p (omega (arith, long)) in
    let wrote = store_byte-append (pre ++ b ∷ y) post b a p (omega (arith, long')) in
    rw (lt→ltb s p (omega arith), swap_loop)
      (rw (get_elem?-append pre (y ++ b ∷ post) a s es, ◌>>=◌)
        (rw (ap (λ l. get_elem? l p) (sym (append_assoc pre (a ∷ y) (b ∷ post))) ∙ at_p, ◌>>=◌)
          (rw (store_byte-append pre (y ++ b ∷ post) a b s es, ◌>>=◌)
            (rw
              (
                ap (λ l. store_byte l p a) (sym (append_assoc pre (b ∷ y) (b ∷ post))) ∙ wrote,
                ◌>>=◌,
              )
              (ap (λ l. swap_loop fuel l (s + 1) (p - 1)) (append_assoc pre (b ∷ y) (a ∷ post)))))))

-- The first and the last byte change places, and the loop goes on between them.
swap-ends :
    (fuel : ℕ) (pre y post : List ℕ) (a b s p : ℕ)
    → s ≡ length pre
    → p ≡ s + length y + 1
    → (swap_loop fuel ((pre ++ b ∷ []) ++ (y ++ a ∷ post)) (s + 1) (p - 1)
        ≡ some ((pre ++ b ∷ []) ++ (reverse y ++ a ∷ post)))
    → swap_loop (suc fuel) (pre ++ ((a ∷ (y ++ b ∷ [])) ++ post)) s p
      ≡ some (pre ++ (reverse (a ∷ (y ++ b ∷ [])) ++ post))
swap-ends fuel pre y post a b s p es ep inner =
    ap (λ l. swap_loop (suc fuel) (pre ++ a ∷ l) s p) (append_assoc y (b ∷ []) post)
    ∙ swap-round fuel pre y post a b s p es ep
    ∙ ap (λ l. swap_loop fuel l (s + 1) (p - 1)) (sym (append_assoc pre (b ∷ []) (y ++ a ∷ post)))
    ∙ inner
    ∙ ap some (append_assoc pre (b ∷ []) (reverse y ++ a ∷ post))
    ∙ ap (λ l. some (pre ++ b ∷ l)) (sym (append_assoc (reverse y) (a ∷ []) post))
    ∙ ap (λ l. some (pre ++ ((l ++ a ∷ []) ++ post))) (sym (reverse-snoc y b))

-- The loop between the first and the last byte of `x` reverses it, and leaves the rest.
pub swap_loop-reverse :
    (fuel : ℕ) (pre x post : List ℕ) (s p : ℕ)
    → 1 ≤ fuel
    → length x ≤ fuel
    → s ≡ length pre
    → p + 1 ≡ s + length x
    → swap_loop fuel (pre ++ (x ++ post)) s p ≡ some (pre ++ (reverse x ++ post))
swap_loop-reverse zero pre x post s p pos long es ep = absurd (omega arith)
swap_loop-reverse (suc fuel) pre [] post s p pos long es ep =
    swap-empty (suc fuel) (pre ++ post) s p pos (omega arith)
swap_loop-reverse (suc fuel) pre (a ∷ []) post s p pos long es ep =
    swap-empty (suc fuel) (pre ++ a ∷ post) s p pos (omega arith)
swap_loop-reverse (suc fuel) pre (a ∷ c ∷ x) post s p pos long es ep =
    subst
      (λ t.
        swap_loop (suc fuel) (pre ++ ((a ∷ t) ++ post)) s p
        ≡ some (pre ++ (reverse (a ∷ t) ++ post)))
      (sym (front-last c x))
      (swap-ends fuel pre (front c x) post a (last c x) s p es (omega (arith, length-front c x)) (
        swap_loop-reverse fuel (pre ++ last c x ∷ []) (front c x) (a ∷ post) (s + 1) (p - 1)
          (omega arith) (omega (arith, length-front c x))
          (omega (arith, length-append pre (last c x ∷ []))) (omega (arith, length-front c x))))
