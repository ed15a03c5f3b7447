-- ===== src/Adlist/Inside.antt =====
-- listDelNode, listInsertNode and listRotate of src/adlist.c.
use jmeter_on_k8s.Prelude.{
  ℕ, suc, ◌+◌, ◌-◌, ◌%◌, ◌<◌, ◌^◌, ◌≡◌, refl, sym, ap, ◌∙◌, false, Option, none, some, List, [],
  ◌∷◌, ◌++◌, if◌then◌else◌, ◌>>=◌, length, arith, length-append, leb,
}
use jmeter_on_k8s.Adlist.{
  Ptr, ListNode, node, Heap, AdList, put_node, set_next, unlink_prev, unlink_next, list_del_node,
  list_rotate,
}
use jmeter_on_k8s.Adlist.Links.{
  first_or, last_of, Linked, Apart, IsDistinct, Disjoint, Holds, put_same, put_other, ==_sym_false,
  Linked-put_node, Linked-append, Linked-split, IsDistinct-append, IsDistinct-split, Apart-Disjoint,
  last_of-append, first_or-append,
}
use jmeter_on_k8s.Adlist.Ends.{SameOff, Linked-SameOff, link_next_lem, set_next_last, last_of-some}

module _ {V : Type 0} where
  -- The two tests of listDelNode change the end of the run in front of the node, or the head of the
  -- list, and the start of the run behind it, or the tail.
  unlink_prev_lem :
      (h : Heap V) (l : AdList V) (s : List (ℕ × V)) (q : Ptr) (n : ListNode V)
      → IsDistinct s
      → Linked h none s q
      → n.prev ≡ last_of none s
      → l.head ≡ first_or s q
      → (h' : Heap V) × (hd : Ptr) × (unlink_prev h l n ≡ some (h', record l { head = hd }))
        × (hd ≡ first_or s n.next)
        × Linked h' none s n.next
        × SameOff s h h'
  unlink_prev_lem h l [] q n d lk e f = (h, n.next, rw e refl, refl, tt, λ c x. refl)
  unlink_prev_lem h l ((b, w) ∷ s) q n d lk e f =
      let (z, at) = last_of-some b s in
      let (h', run, lk', same) = set_next_last h none b w s q n.next d lk in
      (
        h',
        l.head,
        rw (e ∙ at) (rw (ap (λ x. set_next h x n.next) (sym at) ∙ run, ◌>>=◌) refl),
        f,
        lk',
        same,
      )

  unlink_next_lem :
      (h : Heap V) (l : AdList V) (p : Ptr) (t : List (ℕ × V)) (n : ListNode V)
      → IsDistinct t
      → Linked h p t none
      → n.next ≡ first_or t none
      → l.tail ≡ last_of p t
      → (h' : Heap V) × (tl : Ptr) × (unlink_next h l n ≡ some (h', record l { tail = tl }))
        × (tl ≡ last_of n.prev t)
        × Linked h' n.prev t none
        × SameOff t h h'
  unlink_next_lem h l p [] n d lk e f = (h, n.prev, rw e refl, refl, tt, λ c x. refl)
  unlink_next_lem h l p ((b, w) ∷ t) n (d, ds) (at, lk) e f =
      let m : ListNode V = node n.prev (first_or t none) w in
      (
        put_node h b (some m),
        l.tail,
        rw e (rw (at, ◌>>=◌) refl),
        f,
        (put_same h b (some m), Linked-put_node h b (some m) (some b) t none d lk),
        λ c x. put_other h b c (some m) (==_sym_false b c x.0),
      )

  pub Disjoint-sym : (s t : List (ℕ × V)) → Disjoint s t → Disjoint t s
  Disjoint-sym s [] d = tt
  Disjoint-sym s ((a, v) ∷ t) d = let (x, y) = Apart-Disjoint s t a v d in (x, Disjoint-sym s t y)

  abbrev pub freed_value : AdList V → V → Option V
  freed_value l v = if l.free then some v else none

  -- listDelNode on a node of a list of fewer than 2 ^ 64 nodes: the other nodes stay in their order
  -- with the links closed, the list counts one less, the address of the node holds nothing, and the
  -- free method, if there is one, gets its value.
  pub list_del_node_lem :
      (h : Heap V) (l : AdList V) (s : List (ℕ × V)) (a : ℕ) (v : V) (t : List (ℕ × V))
      → Holds h l (s ++ (a, v) ∷ t)
      → length (s ++ (a, v) ∷ t) < 2 ^ 64
      → (h' : Heap V) × (l' : AdList V) × (list_del_node h l a ≡ some (h', l', freed_value l v))
        × Holds h' l' (s ++ t)
        × (h' a ≡ none)
  unfolding list_del_node
  list_del_node_lem h l s a v t ok small =
      let (ls, (at, lt)) = Linked-split h none s ((a, v) ∷ t) none ok.linked in
      let (ds, (away, dt), both) = IsDistinct-split s ((a, v) ∷ t) ok.distinct in
      let (away', apart) = Apart-Disjoint s t a v both in
      let n = node (last_of none s) (first_or t none) v in
      let (h1, hd, run1, is_hd, ls1, same1) =
        unlink_prev_lem h l s (some a) n ds ls refl
          (ok.first ∙ first_or-append s ((a, v) ∷ t) none) in
      let lt1 = Linked-SameOff s t h h1 (some a) none same1 (Disjoint-sym s t apart) lt in
      let (h2, tl, run2, is_tl, lt2, same2) =
        unlink_next_lem h1 (record l { head = hd }) (some a) t n dt lt1 refl
          (ok.last ∙ last_of-append none s ((a, v) ∷ t)) in
      let ls2 = Linked-SameOff t s h1 h2 none (first_or t none) same2 apart ls1 in
      (
        put_node h2 a none,
        record l { head = hd; tail = tl; len = (l.len + 2 ^ 64 - 1) % 2 ^ 64 },
        rw (at, ◌>>=◌) (rw (run1, ◌>>=◌) (rw (run2, ◌>>=◌) refl)),
        record {
          linked =
              Linked-append (put_node h2 a none) none s t none
                (Linked-put_node h2 a none none s (first_or t none) away' ls2)
                (Linked-put_node h2 a none (last_of none s) t none away lt2);
          distinct = IsDistinct-append s t ds dt apart;
          first = is_hd ∙ sym (first_or-append s t none);
          last = is_tl ∙ sym (last_of-append none s t);
          count = omega (arith, ok.count, length-append s ((a, v) ∷ t), length-append s t);
        },
        put_same h2 a none,
      )

  Linked-back :
      (h : Heap V) (s : List (ℕ × V)) (a : ℕ) (v : V)
      → Linked h none (s ++ (a, v) ∷ []) none
      → Linked h none s (some a) × (h a ≡ some (node (last_of none s) none v))
  Linked-back h s a v l = let (ls, (at, e)) = Linked-split h none s ((a, v) ∷ []) none l in (ls, at)

  Disjoint-back :
      (s : List (ℕ × V)) (a : ℕ) (v : V) → IsDistinct (s ++ (a, v) ∷ []) → IsDistinct s × Apart a s
  Disjoint-back s a v d =
      let (ds, e, both) = IsDistinct-split s ((a, v) ∷ []) d in
      (ds, (Apart-Disjoint s [] a v both).0)

  two_or_more :
      (l : AdList V) (s : List (ℕ × V)) (a : ℕ) (v : V)
      → l.len ≡ suc (length (s ++ (a, v) ∷ []))
      → leb l.len 1 ≡ false
  two_or_more l s a v e = let n = length-append s ((a, v) ∷ []) in ground arith

  -- listRotate on a list of at least two nodes: the last one comes to the front, the others keep
  -- their order, and all links, the ends and the length are right.
  pub list_rotate_lem :
      (h : Heap V) (l : AdList V) (b : ℕ) (w : V) (s : List (ℕ × V)) (a : ℕ) (v : V)
      → Holds h l ((b, w) ∷ (s ++ (a, v) ∷ []))
      → (h' : Heap V) × (l' : AdList V) × (list_rotate h l ≡ some (h', l'))
        × Holds h' l' ((a, v) ∷ (b, w) ∷ s)
  unfolding list_rotate
  list_rotate_lem h l b w s a v ok =
      let (ls, at) = Linked-back h ((b, w) ∷ s) a v ok.linked in
      let (ds, away) = Disjoint-back ((b, w) ∷ s) a v ok.distinct in
      let is_tail : l.tail ≡ some a = ok.last ∙ last_of-append none ((b, w) ∷ s) ((a, v) ∷ []) in
      let n : ListNode V = node (last_of (some b) s) none v in
      let (h1, run1, ls1, same1) = set_next_last h none b w s (some a) none ds ls in
      let (h2, run2, ls2, same2) = link_next_lem h1 none ((b, w) ∷ s) a ds ls1 in
      let n3 : ListNode V = node none none v in
      let n4 : ListNode V = node none (some b) v in
      let h3 = put_node h2 a (some n3) in
      let h4 = put_node h3 a (some n4) in
      let at2 : h2 a ≡ some n = same2 a away ∙ same1 a away ∙ at in
      let at3 = put_same h2 a (some n3) in
      (
        h4,
        record l { tail = last_of (some b) s; head = some a },
        rw (two_or_more l s a v ok.count) (
            rw is_tail (
              rw (at, ◌>>=◌)
                (rw (run1, ◌>>=◌)
                  (rw ok.first (rw (run2, ◌>>=◌) (rw (at2, ◌>>=◌) (rw (at3, ◌>>=◌) refl))))))),
        record {
          linked = (
            put_same h3 a (some n4),
            Linked-put_node h3 a (some n4) (some a) ((b, w) ∷ s) none away
                (Linked-put_node h2 a (some n3) (some a) ((b, w) ∷ s) none away ls2),
          );
          distinct = (away, ds);
          first = refl;
          last = refl;
          count = ok.count ∙ ap suc (length-append s ((a, v) ∷ []) ∙ omega arith);
        },
      )
