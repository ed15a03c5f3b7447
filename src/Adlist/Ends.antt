-- ===== src/Adlist/Ends.antt =====
-- The links of a list of src/adlist.c change at one end of a run of nodes; listAddNodeHead and
-- listAddNodeTail.
use jmeter_on_k8s.Prelude.{
  ℕ, suc, ◌-◌, ◌<◌, ◌^◌, ◌≡◌, refl, sym, ap, ◌∙◌, false, none, some, List, [], ◌∷◌, ◌++◌, ◌==◌,
  ◌>>=◌, length, arith,
}
use jmeter_on_k8s.Adlist.{
  Ptr, ListNode, node, Heap, AdList, put_node, set_prev, set_next, link_prev, link_next, inc_len,
  list_add_node_head, list_add_node_tail,
}
use jmeter_on_k8s.Adlist.Links.{
  first_or, last_of, Linked, Apart, IsDistinct, Disjoint, Holds, put_same, put_other, ==_sym_false,
  Linked-put_node, Linked-append,
}

module _ {V : Type 0} where
  -- The two heaps agree away from s.
  abbrev pub SameOff : List (ℕ × V) → Heap V → Heap V → Type 0
  SameOff s h h' = (c : ℕ) → Apart c s → h' c ≡ h c

  pub Linked-SameOff :
      (s t : List (ℕ × V)) (h h' : Heap V) (p q : Ptr)
      → SameOff s h h'
      → Disjoint t s
      → Linked h p t q
      → Linked h' p t q
  Linked-SameOff s [] h h' p q same d l = tt
  Linked-SameOff s ((a, v) ∷ t) h h' p q same (e, d) (at, l) =
      (same a e ∙ at, Linked-SameOff s t h h' (some a) q same d l)

  -- The node in front of a run gets another predecessor.
  pub link_next_lem :
      (h : Heap V) (p : Ptr) (s : List (ℕ × V)) (a : ℕ)
      → IsDistinct s
      → Linked h p s none
      → (h' : Heap V) × (link_next h (first_or s none) a ≡ some h')
        × Linked h' (some a) s none
        × SameOff s h h'
  link_next_lem h p [] a d l = (h, refl, tt, λ c e. refl)
  link_next_lem h p ((b, w) ∷ s) a (d, ds) (at, l) =
      let n : ListNode V = node (some a) (first_or s none) w in
      (
        put_node h b (some n),
        rw (at, ◌>>=◌) refl,
        (put_same h b (some n), Linked-put_node h b (some n) (some b) s none d l),
        λ c e. put_other h b c (some n) (==_sym_false b c e.0),
      )

  -- The last node of a run gets another successor.
  pub set_next_last :
      (h : Heap V) (p : Ptr) (b : ℕ) (w : V) (s : List (ℕ × V)) (q q' : Ptr)
      → IsDistinct ((b, w) ∷ s)
      → Linked h p ((b, w) ∷ s) q
      → (h' : Heap V) × (set_next h (last_of (some b) s) q' ≡ some h')
        × Linked h' p ((b, w) ∷ s) q'
        × SameOff ((b, w) ∷ s) h h'
  set_next_last h p b w [] q q' d (at, l) =
      let n : ListNode V = node p q' w in
      (
        put_node h b (some n),
        rw (at, ◌>>=◌) refl,
        (put_same h b (some n), tt),
        λ c e. put_other h b c (some n) (==_sym_false b c e.0),
      )
  set_next_last h p b w ((c, x) ∷ s) q q' (d, ds) (at, l) =
      let (h', run, l', same) = set_next_last h (some b) c x s q q' ds l in
      (h', run, (same b d ∙ at, l'), λ e off. same e off.1)

  pub last_of-some : (b : ℕ) (s : List (ℕ × V)) → (z : ℕ) × (last_of (some b) s ≡ some z)
  last_of-some b [] = (b, refl)
  last_of-some b ((c, x) ∷ s) = last_of-some c s

  pub link_prev_lem :
      (h : Heap V) (s : List (ℕ × V)) (q : Ptr) (a : ℕ)
      → IsDistinct s
      → Linked h none s q
      → (h' : Heap V) × (link_prev h (last_of none s) a ≡ some h')
        × Linked h' none s (some a)
        × SameOff s h h'
  link_prev_lem h [] q a d l = (h, refl, tt, λ c e. refl)
  link_prev_lem h ((b, w) ∷ s) q a d l =
      let (z, e) = last_of-some b s in
      let (h', run, l', same) = set_next_last h none b w s q (some a) d l in
      (h', rw e (ap (λ x. set_next h x (some a)) (sym e) ∙ run), l', same)

  pub not_empty : (l : AdList V) (n : ℕ) → l.len ≡ suc n → (l.len == 0) ≡ false
  not_empty l n e = ground arith

  -- listAddNodeHead on a list of fewer than 2 ^ 64 - 1 nodes, with a new node at an address that is
  -- none of theirs: the value is in front of the others, and counted. No other address changes.
  pub list_add_node_head_lem :
      (a : ℕ) (h : Heap V) (l : AdList V) (s : List (ℕ × V)) (v : V)
      → Holds h l s
      → Apart a s
      → length s < 2 ^ 64 - 1
      → (h' : Heap V) × (l' : AdList V) × (list_add_node_head a h l v ≡ some (h', l'))
        × Holds h' l' ((a, v) ∷ s)
        × SameOff ((a, v) ∷ s) h h'
  unfolding list_add_node_head
  list_add_node_head_lem a h l [] v ok d small =
      let n : ListNode V = node none none v in
      (
        put_node h a (some n),
        inc_len (record l { head = some a; tail = some a }),
        rw ok.count refl,
        record {
          linked = (put_same h a (some n), tt);
          distinct = (tt, tt);
          first = refl;
          last = refl;
          count = omega (arith, ok.count);
        },
        λ c e. put_other h a c (some n) (==_sym_false a c e.0),
      )
  list_add_node_head_lem a h l ((b, w) ∷ s) v ok d small =
      let n : ListNode V = node none l.head v in
      let h0 = put_node h a (some n) in
      let (h', run, l', same) =
        link_next_lem h0 none ((b, w) ∷ s) a ok.distinct
          (Linked-put_node h a (some n) none ((b, w) ∷ s) none d ok.linked) in
      (
        h',
        inc_len (record l { head = some a }),
        rw (not_empty l (length s) ok.count)
            (rw (ap (λ x. set_prev h0 x (some a)) ok.first ∙ run, ◌>>=◌) refl),
        record {
          linked = (same a d ∙ put_same h a (some n) ∙ ap (λ x. some (node none x v)) ok.first, l');
          distinct = (d, ok.distinct);
          first = refl;
          last = ok.last;
          count = omega (arith, ok.count);
        },
        λ c e. same c e.1 ∙ put_other h a c (some n) (==_sym_false a c e.0),
      )

  -- listAddNodeTail, with a new node at an address that is none of those of the list: the value is
  -- behind the others and the links are right, but the list is not longer by its own count.
  pub list_add_node_tail_lem :
      (a : ℕ) (h : Heap V) (l : AdList V) (b : ℕ) (w : V) (s : List (ℕ × V)) (v : V)
      → Holds h l ((b, w) ∷ s)
      → Apart a ((b, w) ∷ s)
      → (h' : Heap V) × (l' : AdList V) × (list_add_node_tail a h l v ≡ some (h', l'))
        × Linked h' none ((b, w) ∷ (s ++ (a, v) ∷ [])) none
        × (l'.head ≡ some b)
        × (l'.tail ≡ some a)
        × (l'.len ≡ length ((b, w) ∷ s))
        × SameOff ((a, v) ∷ (b, w) ∷ s) h h'
  unfolding list_add_node_tail
  list_add_node_tail_lem a h l b w s v ok d =
      let n : ListNode V = node l.tail none v in
      let h0 = put_node h a (some n) in
      let (h', run, l', same) =
        set_next_last h0 none b w s none (some a) ok.distinct
          (Linked-put_node h a (some n) none ((b, w) ∷ s) none d ok.linked) in
      (
        h',
        record l { tail = some a },
        rw (not_empty l (length s) ok.count)
            (rw (ap (λ x. set_next h0 x (some a)) ok.last ∙ run, ◌>>=◌) refl),
        Linked-append h' none ((b, w) ∷ s) ((a, v) ∷ []) none l'
            (same a d ∙ put_same h a (some n) ∙ ap (λ x. some (node x none v)) ok.last, tt),
        ok.first,
        refl,
        ok.count,
        λ c e. same c e.1 ∙ put_other h a c (some n) (==_sym_false a c e.0),
      )
