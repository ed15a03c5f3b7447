-- ===== src/Adlist/Links.antt =====
-- A list of src/adlist.h on the heap: its nodes in order, with their addresses.
use jmeter_on_k8s.Prelude.{
  ℕ, ◌≡◌, refl, sym, ap, ◌∙◌, false, Option, none, some, List, [], ◌∷◌, ◌++◌, ◌==◌, length, arith,
}
use jmeter_on_k8s.Adlist.{Ptr, ListNode, node, Heap, AdList, put_node}

pub ==_sym_false : (a b : ℕ) → (a == b) ≡ false → (b == a) ≡ false
==_sym_false a b e = ground arith

module _ {V : Type 0} where
  abbrev pub first_of : List (ℕ × V) → Ptr
  first_of [] = none
  first_of ((a, v) ∷ s) = some a

  -- The last address, or `p` if there is none.
  abbrev pub last_of : Ptr → List (ℕ × V) → Ptr
  last_of p [] = p
  last_of p ((a, v) ∷ s) = last_of (some a) s

  -- The first address, or `q` if there is none.
  abbrev pub first_or : List (ℕ × V) → Ptr → Ptr
  first_or [] q = q
  first_or ((a, v) ∷ s) q = some a

  -- The nodes of s follow one another in the heap; `p` is before them, `q` behind them.
  abbrev pub Linked : Heap V → Ptr → List (ℕ × V) → Ptr → Type 0
  Linked h p [] q = Unit
  Linked h p ((a, v) ∷ s) q = (h a ≡ some (node p (first_or s q) v)) × Linked h (some a) s q

  -- The address is none of those of s.
  abbrev pub Apart : ℕ → List (ℕ × V) → Type 0
  Apart a [] = Unit
  Apart a ((b, v) ∷ s) = ((b == a) ≡ false) × Apart a s

  abbrev pub IsDistinct : List (ℕ × V) → Type 0
  IsDistinct [] = Unit
  IsDistinct ((a, v) ∷ s) = Apart a s × IsDistinct s

  -- The list `l` has the nodes s.
  pub record Holds (h : Heap V) (l : AdList V) (s : List (ℕ × V)) : Type 0 where
    pub linked : Linked h none s none
    pub distinct : IsDistinct s
    pub first : l.head ≡ first_or s none
    pub last : l.tail ≡ last_of none s
    pub count : l.len ≡ length s

  pub put_same : (h : Heap V) (a : ℕ) (c : Option (ListNode V)) → put_node h a c a ≡ c
  unfolding put_node
  put_same h a c = ground arith

  pub put_other :
      (h : Heap V) (a b : ℕ) (c : Option (ListNode V)) → (b == a) ≡ false → put_node h a c b ≡ h b
  unfolding put_node
  put_other h a b c e = rw e refl

  -- A write elsewhere does not disturb the nodes.
  pub Linked-put_node :
      (h : Heap V) (a : ℕ) (c : Option (ListNode V)) (p : Ptr) (s : List (ℕ × V)) (q : Ptr)
      → Apart a s
      → Linked h p s q
      → Linked (put_node h a c) p s q
  Linked-put_node h a c p [] q d l = tt
  Linked-put_node h a c p ((b, v) ∷ s) q (e, d) (at, l) =
      (put_other h a b c e ∙ at, Linked-put_node h a c (some b) s q d l)

  pub first_or-append :
      (s t : List (ℕ × V)) (q : Ptr) → first_or (s ++ t) q ≡ first_or s (first_or t q)
  first_or-append [] t q = refl
  first_or-append ((a, v) ∷ s) t q = refl

  pub last_of-append : (p : Ptr) (s t : List (ℕ × V)) → last_of p (s ++ t) ≡ last_of (last_of p s) t
  last_of-append p [] t = refl
  last_of-append p ((a, v) ∷ s) t = last_of-append (some a) s t

  pub Linked-append :
      (h : Heap V) (p : Ptr) (s t : List (ℕ × V)) (q : Ptr)
      → Linked h p s (first_or t q)
      → Linked h (last_of p s) t q
      → Linked h p (s ++ t) q
  Linked-append h p [] t q l m = m
  Linked-append h p ((a, v) ∷ s) t q (at, l) m = (
    at ∙ ap (λ x. some (node p x v)) (sym (first_or-append s t q)),
    Linked-append h (some a) s t q l m,
  )

  pub Linked-split :
      (h : Heap V) (p : Ptr) (s t : List (ℕ × V)) (q : Ptr)
      → Linked h p (s ++ t) q
      → Linked h p s (first_or t q) × Linked h (last_of p s) t q
  Linked-split h p [] t q l = (tt, l)
  Linked-split h p ((a, v) ∷ s) t q (at, l) =
      let (m, r) = Linked-split h (some a) s t q l in
      ((at ∙ ap (λ x. some (node p x v)) (first_or-append s t q), m), r)

  pub Apart-append : (a : ℕ) (s t : List (ℕ × V)) → Apart a s → Apart a t → Apart a (s ++ t)
  Apart-append a [] t d e = e
  Apart-append a ((b, v) ∷ s) t (x, d) e = (x, Apart-append a s t d e)

  pub Apart-split : (a : ℕ) (s t : List (ℕ × V)) → Apart a (s ++ t) → Apart a s × Apart a t
  Apart-split a [] t d = (tt, d)
  Apart-split a ((b, v) ∷ s) t (x, d) = let (m, r) = Apart-split a s t d in ((x, m), r)

  -- The addresses of s are those of t apart.
  abbrev pub Disjoint : List (ℕ × V) → List (ℕ × V) → Type 0
  Disjoint [] t = Unit
  Disjoint ((a, v) ∷ s) t = Apart a t × Disjoint s t

  pub IsDistinct-split :
      (s t : List (ℕ × V)) → IsDistinct (s ++ t) → IsDistinct s × IsDistinct t × Disjoint s t
  IsDistinct-split [] t d = (tt, d, tt)
  IsDistinct-split ((a, v) ∷ s) t (x, d) =
      let (m, r, j) = IsDistinct-split s t d in
      let (y, z) = Apart-split a s t x in ((y, m), r, (z, j))

  pub IsDistinct-append :
      (s t : List (ℕ × V)) → IsDistinct s → IsDistinct t → Disjoint s t → IsDistinct (s ++ t)
  IsDistinct-append [] t m r j = r
  IsDistinct-append ((a, v) ∷ s) t (x, m) r (y, j) =
      (Apart-append a s t x y, IsDistinct-append s t m r j)

  -- One address against a list, seen from the other side.
  pub Disjoint-one : (s : List (ℕ × V)) (a : ℕ) (v : V) → Apart a s → Disjoint s ((a, v) ∷ [])
  Disjoint-one [] a v d = tt
  Disjoint-one ((b, w) ∷ s) a v (e, d) = ((==_sym_false b a e, tt), Disjoint-one s a v d)

  pub Apart-Disjoint :
      (s t : List (ℕ × V)) (a : ℕ) (v : V) → Disjoint s ((a, v) ∷ t) → Apart a s × Disjoint s t
  Apart-Disjoint [] t a v d = (tt, tt)
  Apart-Disjoint ((b, w) ∷ s) t a v ((e, x), d) =
      let (y, z) = Apart-Disjoint s t a v d in ((==_sym_false a b e, y), (x, z))
