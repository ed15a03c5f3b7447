-- ===== src/Adlist/Insert.antt =====
-- listInsertNode of src/adlist.c.
use mathlib.Core.Path.{subst}
use jmeter_on_k8s.Prelude.{
  ℕ, ◌-◌, ◌<◌, ◌^◌, ◌≡◌, refl, sym, ap, ◌∙◌, Bool, true, false, none, some, List, [], ◌∷◌, ◌++◌,
  ◌==◌, if◌then◌else◌, ◌>>=◌, length, arith, length-append,
}
use jmeter_on_k8s.Adlist.{
  Ptr, ListNode, node, Heap, AdList, put_node, link_prev, link_next, inc_len, same_ptr,
  list_insert_node,
}
use jmeter_on_k8s.Adlist.Links.{
  first_or, last_of, Linked, Apart, IsDistinct, Disjoint, Holds, put_same, ==_sym_false,
  Linked-put_node, Linked-append, Linked-split, Apart-append, Apart-split, IsDistinct-split,
  Apart-Disjoint, last_of-append, first_or-append,
}
use jmeter_on_k8s.Adlist.Ends.{Linked-SameOff, link_next_lem, link_prev_lem}
use jmeter_on_k8s.Adlist.Inside.{Disjoint-sym}

==_refl : (a : ℕ) → (a == a) ≡ true
==_refl a = ground arith

module _ {V : Type 0} where
  -- A new node between two runs, with its own links set, is linked to both.
  insert_between :
      (h : Heap V) (s t : List (ℕ × V)) (a : ℕ) (v : V)
      → IsDistinct s
      → IsDistinct t
      → Disjoint s t
      → Apart a s
      → Apart a t
      → Linked h none s (first_or t none)
      → Linked h (last_of none s) t none
      → (h1 h2 : Heap V) × (link_prev
            (put_node h a (some (node (last_of none s) (first_or t none) v)))
            (last_of none s)
            a
          ≡ some h1)
        × (link_next h1 (first_or t none) a ≡ some h2)
        × Linked h2 none (s ++ (a, v) ∷ t) none
  insert_between h s t a v ds dt both off_s off_t ls lt =
      let n : ListNode V = node (last_of none s) (first_or t none) v in
      let h0 = put_node h a (some n) in
      let (h1, run1, ls1, same1) =
        link_prev_lem h0 s (first_or t none) a ds
          (Linked-put_node h a (some n) none s (first_or t none) off_s ls) in
      let lt1 =
        Linked-SameOff s t h0 h1 (last_of none s) none same1 (Disjoint-sym s t both)
          (Linked-put_node h a (some n) (last_of none s) t none off_t lt) in
      let (h2, run2, lt2, same2) = link_next_lem h1 (last_of none s) t a dt lt1 in
      (
        h1,
        h2,
        run1,
        run2,
        Linked-append h2 none s ((a, v) ∷ t) none
            (Linked-SameOff t s h1 h2 none (some a) same2 both ls1)
            (same2 a off_t ∙ same1 a off_s ∙ put_same h a (some n), lt2),
      )

  IsDistinct-insert :
      (s t : List (ℕ × V)) (a : ℕ) (v : V)
      → IsDistinct (s ++ t)
      → Apart a (s ++ t)
      → IsDistinct (s ++ (a, v) ∷ t)
  IsDistinct-insert [] t a v d e = (e, d)
  IsDistinct-insert ((b, w) ∷ s) t a v (x, d) (e, f) =
      let (y, z) = Apart-split b s t x in
      (Apart-append b s ((a, v) ∷ t) y (==_sym_false b a e, z), IsDistinct-insert s t a v d f)

  last_of_other :
      (b c : ℕ) (t : List (ℕ × V))
      → (c == b) ≡ false
      → Apart b t
      → same_ptr (last_of (some c) t) (some b) ≡ false
  last_of_other b c [] e d = e
  last_of_other b c ((x, w) ∷ t) e (f, d) = last_of_other b x t f d

  -- The tail is the old node only if nothing is behind it, the head only if nothing is before it.
  new_tail :
      (l : AdList V) (b a : ℕ) (t : List (ℕ × V))
      → Apart b t
      → l.tail ≡ last_of (some b) t
      → (z : Ptr) × ((if same_ptr l.tail (some b) then record l { tail = some a } else l)
          ≡ record l { tail = z })
        × (z ≡ last_of (some a) t)
  new_tail l b a [] d e = (some a, rw e (rw (==_refl b) refl), refl)
  new_tail l b a ((c, x) ∷ t) (d, ds) e = (l.tail, rw (e, last_of_other b c t d ds) refl, e)

  new_head :
      (l : AdList V) (b a : ℕ) (s : List (ℕ × V))
      → Apart b s
      → l.head ≡ first_or s (some b)
      → (z : Ptr) × ((if same_ptr l.head (some b) then record l { head = some a } else l)
          ≡ record l { head = z })
        × (z ≡ first_or s (some a))
  new_head l b a [] d e = (some a, rw e (rw (==_refl b) refl), refl)
  new_head l b a ((c, x) ∷ s) (d, ds) e = (l.head, rw (e, d) refl, e)

  append_one :
      (s : List (ℕ × V)) (b : ℕ) (w : V) (t : List (ℕ × V))
      → (s ++ (b, w) ∷ []) ++ t ≡ s ++ (b, w) ∷ t
  append_one [] b w t = refl
  append_one (x ∷ s) b w t = ap (λ r. x ∷ r) (append_one s b w t)

  Apart-last :
      (s : List (ℕ × V)) (b : ℕ) (w : V) (t : List (ℕ × V))
      → Disjoint (s ++ (b, w) ∷ []) t
      → Apart b t
  Apart-last [] b w t (d, e) = d
  Apart-last (x ∷ s) b w t (d, e) = Apart-last s b w t e

  first_one :
      (s : List (ℕ × V)) (b : ℕ) (w : V) (t : List (ℕ × V)) (q : Ptr)
      → first_or ((s ++ (b, w) ∷ []) ++ t) q ≡ first_or s (some b)
  first_one [] b w t q = refl
  first_one (x ∷ s) b w t q = refl

  insert_after :
      (a : ℕ) (h : Heap V) (l : AdList V) (s : List (ℕ × V)) (b : ℕ) (w : V) (t : List (ℕ × V))
      (v : V)
      → Holds h l ((s ++ (b, w) ∷ []) ++ t)
      → Apart a ((s ++ (b, w) ∷ []) ++ t)
      → length ((s ++ (b, w) ∷ []) ++ t) < 2 ^ 64 - 1
      → (h' : Heap V) × (l' : AdList V) × (list_insert_node a h l (some b) v true ≡ some (h', l'))
        × Holds h' l' ((s ++ (b, w) ∷ []) ++ (a, v) ∷ t)
  unfolding list_insert_node
  insert_after a h l s b w t v ok off small =
      let s1 = s ++ (b, w) ∷ [] in
      let (ls, lt) = Linked-split h none s1 t none ok.linked in
      let (ls0, (at, stop)) = Linked-split h none s ((b, w) ∷ []) (first_or t none) ls in
      let (ds, dt, both) = IsDistinct-split s1 t ok.distinct in
      let (off_s, off_t) = Apart-split a s1 t off in
      let back : last_of none s1 ≡ some b = last_of-append none s ((b, w) ∷ []) in
      let (h1, h2, run1, run2, lk) = insert_between h s1 t a v ds dt both off_s off_t ls lt in
      let (tl, run3, is_tl) =
        new_tail l b a t (Apart-last s b w t both)
          (ok.last ∙ last_of-append none s1 t ∙ ap (λ x. last_of x t) back) in
      (
        h2,
        inc_len (record l { tail = tl }),
        rw (at, ◌>>=◌)
            (rw
              (
                ap (λ x. link_prev (put_node h a (some (node x (first_or t none) v))) x a)
                      (sym back)
                    ∙ run1,
                ◌>>=◌,
              )
              (rw (run2, ◌>>=◌) (rw run3 refl))),
        record {
          linked = lk;
          distinct = IsDistinct-insert s1 t a v ok.distinct off;
          first = ok.first ∙ first_one s b w t none ∙ sym (first_one s b w ((a, v) ∷ t) none);
          last = is_tl ∙ sym (last_of-append none s1 ((a, v) ∷ t));
          count = omega (arith, small, ok.count, length-append s1 t, length-append s1 ((a, v) ∷ t));
        },
      )

  -- The nodes after an insertion behind or in front of (b, w).
  abbrev pub inserted : List (ℕ × V) → ℕ → V → List (ℕ × V) → ℕ → V → Bool → List (ℕ × V)
  inserted s b w t a v true = s ++ (b, w) ∷ (a, v) ∷ t
  inserted s b w t a v false = s ++ (a, v) ∷ (b, w) ∷ t

  -- listInsertNode at a node of a list of fewer than 2 ^ 64 - 1 nodes, with a new node at an address
  -- that is none of theirs: the value stands directly behind or in front of that node, as asked, the
  -- others keep their order, and all links, the ends and the length are right.
  pub list_insert_node_lem :
      (a : ℕ) (h : Heap V) (l : AdList V) (s : List (ℕ × V)) (b : ℕ) (w : V) (t : List (ℕ × V))
      (v : V) (after : Bool)
      → Holds h l (s ++ (b, w) ∷ t)
      → Apart a (s ++ (b, w) ∷ t)
      → length (s ++ (b, w) ∷ t) < 2 ^ 64 - 1
      → (h' : Heap V) × (l' : AdList V) × (list_insert_node a h l (some b) v after ≡ some (h', l'))
        × Holds h' l' (inserted s b w t a v after)
  unfolding list_insert_node
  list_insert_node_lem a h l s b w t v true ok off small =
      let e = sym (append_one s b w t) in
      let (h', l', run, holds) =
        insert_after a h l s b w t v (subst (Holds h l) e ok) (subst (Apart a) e off)
          (subst (λ r. length r < 2 ^ 64 - 1) e small) in
      (h', l', run, subst (Holds h' l') (append_one s b w ((a, v) ∷ t)) holds)
  list_insert_node_lem a h l s b w t v false ok off small =
      let (ls, (at, lt)) = Linked-split h none s ((b, w) ∷ t) none ok.linked in
      let (ds, (away, dt), both) = IsDistinct-split s ((b, w) ∷ t) ok.distinct in
      let (off_s, off_t) = Apart-split a s ((b, w) ∷ t) off in
      let (away', apart) = Apart-Disjoint s t b w both in
      let (h1, h2, run1, run2, lk) =
        insert_between h s ((b, w) ∷ t) a v ds (away, dt) both off_s off_t ls (at, lt) in
      let (hd, run3, is_hd) =
        new_head l b a s away' (ok.first ∙ first_or-append s ((b, w) ∷ t) none) in
      (
        h2,
        inc_len (record l { head = hd }),
        rw (at, ◌>>=◌) (rw (run1, ◌>>=◌) (rw (run2, ◌>>=◌) (rw run3 refl))),
        record {
          linked = lk;
          distinct = IsDistinct-insert s ((b, w) ∷ t) a v ok.distinct off;
          first = is_hd ∙ sym (first_or-append s ((a, v) ∷ (b, w) ∷ t) none);
          last =
              ok.last
              ∙ last_of-append none s ((b, w) ∷ t)
              ∙ sym (last_of-append none s ((a, v) ∷ (b, w) ∷ t));
          count = omega (
            arith,
            small,
            ok.count,
            length-append s ((b, w) ∷ t),
            length-append s ((a, v) ∷ (b, w) ∷ t),
          );
        },
      )
