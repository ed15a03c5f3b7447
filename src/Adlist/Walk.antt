-- ===== src/Adlist/Walk.antt =====
-- The walks over a list of src/adlist.c: listIndex and listSearchKey.
use jmeter_on_k8s.Prelude.{
  ℕ, zero, suc, ◌<◌, ◌≡◌, refl, ap, ◌∙◌, Bool, true, false, Option, none, some, List, [], ◌∷◌,
  if◌then◌else◌, ◌>>=◌, length, arith,
}
use jmeter_on_k8s.Prelude.Int.{ℤ, pos, negsuc}
use jmeter_on_k8s.Adlist.{
  Ptr, node, Heap, AdList, forward, backward, list_index, list_next, key_loop, list_search_key,
  value_matches,
}
use jmeter_on_k8s.Adlist.Links.{first_or, last_of, Linked, Holds}

choose :
    (c : Bool) (r : Option Ptr) (x y : Ptr)
    → r ≡ some y
    → elim c as (λ b. Option Ptr) [ true ↦ some x | false ↦ r ] ≡ some (if c then x else y)
choose true r x y e = refl
choose false r x y e = e

module _ {V : Type 0} where
  -- The address of the i-th node, or NULL.
  abbrev pub address : List (ℕ × V) → ℕ → Ptr
  address [] i = none
  address ((a, v) ∷ s) zero = some a
  address ((a, v) ∷ s) (suc i) = address s i

  -- s in reverse order, in front of r.
  abbrev pub reverse_onto : List (ℕ × V) → List (ℕ × V) → List (ℕ × V)
  reverse_onto [] r = r
  reverse_onto ((a, v) ∷ s) r = reverse_onto s ((a, v) ∷ r)

  -- The nodes of r, the last one first, lead to one another by `prev`.
  abbrev LinkedBack : Heap V → List (ℕ × V) → Type 0
  LinkedBack h [] = Unit
  LinkedBack h ((a, v) ∷ r) =
      ((q : Ptr) × (h a ≡ some (node (first_or r none) q v))) × LinkedBack h r

  reverse_onto-LinkedBack :
      (h : Heap V) (s r : List (ℕ × V)) (q : Ptr)
      → Linked h (first_or r none) s q
      → LinkedBack h r
      → LinkedBack h (reverse_onto s r)
        × (last_of (first_or r none) s ≡ first_or (reverse_onto s r) none)
  reverse_onto-LinkedBack h [] r q l m = (m, refl)
  reverse_onto-LinkedBack h ((a, v) ∷ s) r q (at, l) m =
      reverse_onto-LinkedBack h s ((a, v) ∷ r) q l ((first_or s q, at), m)

  forward-address :
      (h : Heap V) (p : Ptr) (s : List (ℕ × V)) (i : ℕ)
      → Linked h p s none
      → forward h i (first_or s none) ≡ some (address s i)
  unfolding forward
  forward-address h p [] zero l = refl
  forward-address h p [] (suc i) l = refl
  forward-address h p ((a, v) ∷ s) zero l = refl
  forward-address h p ((a, v) ∷ s) (suc i) (at, l) =
      rw (at, ◌>>=◌) (forward-address h (some a) s i l)

  backward-address :
      (h : Heap V) (r : List (ℕ × V)) (i : ℕ)
      → LinkedBack h r
      → backward h i (first_or r none) ≡ some (address r i)
  unfolding backward
  backward-address h [] zero l = refl
  backward-address h [] (suc i) l = refl
  backward-address h ((a, v) ∷ r) zero l = refl
  backward-address h ((a, v) ∷ r) (suc i) ((q, at), l) = rw (at, ◌>>=◌) (backward-address h r i l)

  -- The node that an index names: counted from the head, or from -1 on from the tail.
  abbrev pub indexed : List (ℕ × V) → ℤ → Ptr
  indexed s (pos i) = address s i
  indexed s (negsuc i) = address (reverse_onto s []) i

  -- listIndex gives the node at the index, the negative ones counted from the tail, and NULL past
  -- either end. It goes through no bad pointer.
  pub list_index_lem :
      (h : Heap V) (l : AdList V) (s : List (ℕ × V)) (i : ℤ)
      → Holds h l s
      → list_index h l i ≡ some (indexed s i)
  unfolding list_index
  list_index_lem h l s (pos i) ok = ap (forward h i) ok.first ∙ forward-address h none s i ok.linked
  list_index_lem h l s (negsuc i) ok =
      let (m, e) = reverse_onto-LinkedBack h s [] none ok.linked tt in
      ap (backward h i) (ok.last ∙ e) ∙ backward-address h (reverse_onto s []) i m

  -- The first node whose value matches, or NULL.
  abbrev pub first_match : (V → Bool) → List (ℕ × V) → Ptr
  first_match f [] = none
  first_match f ((a, v) ∷ s) = if f v then some a else first_match f s

  key_loop_lem :
      (same : V → V → Bool) (m : Option (V → V → Bool)) (h : Heap V) (key : V) (fuel : ℕ) (p : Ptr)
      (s : List (ℕ × V))
      → Linked h p s none
      → length s < fuel
      → key_loop same m h key fuel (record { next = first_or s none; from_tail = false })
        ≡ some (first_match (λ v. value_matches same m v key) s)
  unfolding key_loop list_next
  key_loop_lem same m h key zero p s l enough = absurd (omega (arith, enough))
  key_loop_lem same m h key (suc fuel) p [] l enough = refl
  key_loop_lem same m h key (suc fuel) p ((a, v) ∷ s) (at, l) enough =
      let rest = key_loop_lem same m h key fuel (some a) s l (omega (arith, enough)) in
      rw (at, ◌>>=◌) (rw (at, ◌>>=◌) (choose (value_matches same m v key) _ (some a) _ rest))

  -- listSearchKey with fuel for one more step than there are nodes ends, and gives the first node
  -- whose value the match method accepts with the key, or without such a method is the key; NULL if
  -- there is none.
  pub list_search_key_lem :
      (same : V → V → Bool) (h : Heap V) (l : AdList V) (s : List (ℕ × V)) (key : V) (fuel : ℕ)
      → Holds h l s
      → length s < fuel
      → list_search_key same fuel h l key
        ≡ some (first_match (λ v. value_matches same l.match_key v key) s)
  unfolding list_search_key
  list_search_key_lem same h l s key fuel ok enough =
      ap (λ x. key_loop same l.match_key h key fuel (record { next = x; from_tail = false }))
        ok.first
      ∙ key_loop_lem same l.match_key h key fuel none s ok.linked enough
