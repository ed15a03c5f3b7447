-- ===== src/Dict/Rehash/Correct.antt =====
-- dictRehash keeps the dictionary: no fault, the invariant, the same entry for every key, and an
-- index that moves forward until the first table is empty.
use mathlib.Core.Bool.{false≢true}
use mathlib.Core.Option.{or_else}
use jmeter_on_k8s.Prelude.{
  ℕ, zero, suc, ◌+◌, ◌*◌, ◌≤◌, ◌<◌, ◌≡◌, ◌⊎◌, inl, inr, refl, sym, ◌∙◌, Bool, true, false, Option,
  none, some, List, [], ◌∷◌, arith, length, get_or, drop, Bool-cases, Option-cases, ◌==◌, ltb,
  lt→ltb,
}
use jmeter_on_k8s.Dict.{DictEntry, Chain, DictType, DictHt, Dict, dict_reset, slot, is_rehashing}
use jmeter_on_k8s.Dict.Chain.{IsLawful, chain_find}
use jmeter_on_k8s.Dict.Rehash.{
  Skip, skip_empty, rehash_loop, finish_rehash, dict_rehash, rehash_step, step_if_rehashing,
}
use jmeter_on_k8s.Dict.Rehash.Moves.{
  lt_of_total-drop, Skipped, at_filled, at_visited, skip_empty_lem,
}
use jmeter_on_k8s.Dict.Table.{
  total, ht_view, IsHt, length-le-total, eq_nil_of_length, dict_reset-IsHt,
}
use jmeter_on_k8s.Dict.Valid.{IsValid, view}
use jmeter_on_k8s.Dict.Rehash.Bucket.{
  Rehashed, Rehashed-trans, get_or_of_some, moved, moved-Rehashed, migrate-moved,
}

module _ {ℓ} {K V : Type ℓ} (ty : DictType K V) where
  -- The end of the loop: `forward` and `complete` are its progress.
  record LoopDone (n v i : ℕ) (d : Dict K V) (r : Bool × Dict K V) : Type ℓ where
    keeps : Rehashed ty d r.1
    index : ℕ
    stands : r.1.rehashidx ≡ some index
    behind : i ≤ index
    forward : 0 < n → ((r.0 ≡ false) × (r.1.ht0.used ≡ 0)) ⊎ (i < index)
    complete : d.ht0.size ≤ i + n → d.ht0.size ≤ v + i → (r.0 ≡ false) × (r.1.ht0.used ≡ 0)

  pub Rehashed-refl : (d : Dict K V) → IsValid ty d → Rehashed ty d d
  Rehashed-refl d v = record {
    valid = v;
    reads = λ q. refl;
    size = refl;
    iterators = refl;
    sizes = λ n p q. (p, q);
    sized = λ p. p;
  }

  total-drop_all : (t : List (Chain K V)) (i : ℕ) → length t ≤ i → total (drop i t) ≡ 0
  unfolding total
  total-drop_all [] zero h = refl
  total-drop_all [] (suc i) h = refl
  total-drop_all (x ∷ t) zero h = elim h [ ]
  total-drop_all (x ∷ t) (suc i) h = total-drop_all t i (omega arith)

  module _ (law : IsLawful ty) where
    LoopDone-visited :
        (n v i j : ℕ) (d : Dict K V)
        → IsValid ty d
        → d.rehashidx ≡ some i
        → 0 < v
        → 0 < total (drop i d.ht0.table)
        → total (drop j d.ht0.table) ≡ total (drop i d.ht0.table)
        → j ≡ v + i
        → LoopDone (suc n) v i d (true, record d { rehashidx = some j })
    unfolding view
    LoopDone-visited n v i j d ok at vpos pos same e = record {
      keeps = record {
        valid = record {
          first = ok.first;
          second = ok.second;
          apart = ok.apart;
          idle = λ h. ground arith;
          busy = λ k h.
              let e' : j ≡ k = ground arith in
              ((ok.busy i at).0, (ok.busy i at).1, rw (← e') (same ∙ (ok.busy i at).2));
          small = ok.small;
        };
        reads = λ q. refl;
        size = refl;
        iterators = refl;
        sizes = λ n p q. (p, q);
        sized = λ p. p;
      };
      index = j;
      stands = refl;
      behind = omega arith;
      forward = λ h. inr (omega arith);
      complete = λ p q. absurd (omega (arith, total-drop_all d.ht0.table j, ok.first.width));
    }

    abbrev After : ℕ → ℕ → ℕ → Dict K V → Type ℓ
    After n v i d = (r : Bool × Dict K V) × (rehash_loop ty n v d ≡ some r) × LoopDone n v i d r

    After-stop :
        (n v i : ℕ) (d : Dict K V)
        → IsValid ty d
        → d.rehashidx ≡ some i
        → rehash_loop ty n v d ≡ some (false, d)
        → ((n ≡ 0) ⊎ (d.ht0.used ≡ 0))
        → After n v i d
    After-stop n v i d ok at run why = (
      (false, d),
      run,
      record {
        keeps = Rehashed-refl d ok;
        index = i;
        stands = at;
        behind = omega arith;
        forward = ground arith;
        complete = λ p q.
            (refl, ground (arith, total-drop_all d.ht0.table i, ok.first.width, (ok.busy i at).2));
      },
    )

    -- One round, by what skip_empty has found; `rest` is the loop on the dict after the move.
    After-round :
        (n v i : ℕ) (d : Dict K V)
        → IsValid ty d
        → d.rehashidx ≡ some i
        → (d.ht0.used == 0) ≡ false
        → (ltb i d.ht0.size) ≡ true
        → 0 < v
        → 0 < total (drop i d.ht0.table)
        → (s : Skip K V) → skip_empty d.ht0.table v i ≡ some s
        → Skipped d.ht0.table v i s
        → ((v' j : ℕ) (d' : Dict K V)
            → IsValid ty d'
            → d'.rehashidx ≡ some j
            → (0 < n → 0 < v')
            → After n v' j d')
        → After (suc n) v i d
    unfolding rehash_loop
    After-round n v i d ok at nz lt vpos pos s run (at_visited j same e) rest = (
      (true, record d { rehashidx = some j }),
      ground arith,
      LoopDone-visited n v i j d ok at vpos pos same e,
    )
    After-round n v i d ok at nz lt vpos pos s run (at_filled j v' e c same left v'pos le got)
          rest =
        let (found, inside) = get_or_of_some ty d.ht0.table j (e ∷ c) got in
        let m = moved-Rehashed ty law d ok i j (e ∷ c) at same found inside in
        let (r, go, done) = rest v' (j + 1) (moved ty j (e ∷ c) d) m.valid refl (λ _. v'pos) in
        (
          r,
          rw (nz, rehash_loop)
              (rw (at) (
                rw lt
                  (rw run (rw (migrate-moved ty law d ok i j (e ∷ c) at same found inside) go)))),
          record {
            keeps = Rehashed-trans ty d (moved ty j (e ∷ c) d) r.1 m done.keeps;
            index = done.index;
            stands = done.stands;
            behind = omega (arith, done.behind);
            forward = λ h. inr (omega (arith, done.behind));
            complete = λ p q. done.complete (omega arith) (omega arith);
          },
        )

    rehash_loop_lem :
        (n v i : ℕ) (d : Dict K V)
        → IsValid ty d
        → d.rehashidx ≡ some i
        → (0 < n → 0 < v)
        → After n v i d
    unfolding rehash_loop
    rehash_loop_lem zero v i d ok at vis = After-stop 0 v i d ok at refl (inl refl)
    rehash_loop_lem (suc n) v i d ok at vis = elim (Bool-cases (d.ht0.used == 0)) [
      | inl z ↦ After-stop (suc n) v i d ok at (rw (z, rehash_loop) refl) (inr (ground arith))
      | inr nz ↦
          let pos : 0 < total (drop i d.ht0.table) = rw (ok.busy i at).2 (ground arith) in
          let vpos = vis (omega arith) in
          let (s, run, sk) = skip_empty_lem d.ht0.table v i vpos pos in
          let inside : ltb i d.ht0.size ≡ true =
            lt→ltb i d.ht0.size
              (omega (arith, lt_of_total-drop d.ht0.table i pos, ok.first.width)) in
          After-round n v i d ok at nz inside vpos pos s run sk (rehash_loop_lem n)
    ]

  pub ht_view-none_of_unused :
      (t : DictHt K V) (q : K) → IsHt ty t → t.used ≡ 0 → ht_view ty t q ≡ none
  unfolding chain_find
  ht_view-none_of_unused t q v h =
      let short = length-le-total t.table (slot ty t q) in
      rw (eq_nil_of_length (get_or t.table (slot ty t q) []) (omega (arith, short, v.counted)))

  or_else-none : (o : Option (DictEntry K V)) → or_else o none ≡ o
  unfolding or_else
  or_else-none none = refl
  or_else-none (some e) = refl

  -- The dict once the second table has taken the place of an empty first one.
  abbrev swapped : Dict K V → Dict K V
  swapped d = record d { ht0 = d.ht1; ht1 = dict_reset; rehashidx = none }

  swapped-Rehashed :
      (d : Dict K V) (i : ℕ)
      → IsValid ty d
      → d.rehashidx ≡ some i
      → d.ht0.used ≡ 0
      → Rehashed ty d (swapped d)
  unfolding view or_else chain_find
  swapped-Rehashed d i ok at z = record {
    valid = record {
      first = ok.second;
      second = dict_reset-IsHt ty;
      apart = λ q. inr refl;
      idle = λ h. refl;
      busy = λ i h. ground arith;
      small = omega (arith, ok.small);
    };
    reads = λ q. or_else-none (ht_view ty d.ht1 q) ∙ rw (ht_view-none_of_unused d.ht0 q ok.first z);
    size = omega arith;
    iterators = refl;
    sizes = λ n p q. (q, omega arith);
    sized = λ p. (ok.busy i at).1;
  }

  -- What dictRehash promises.
  pub record RehashOutcome (n : ℕ) (d : Dict K V) (r : Bool × Dict K V) : Type ℓ where
    pub keeps : Rehashed ty d r.1
    pub answer : r.0 ≡ is_rehashing r.1
    pub finished : d.ht0.size ≤ n → r.1.rehashidx ≡ none
    pub moved_on :
        (i : ℕ)
        → d.rehashidx ≡ some i
        → 0 < n
        → (r.1.rehashidx ≡ none) ⊎ ((j : ℕ) × (r.1.rehashidx ≡ some j) × (i < j))

  module _ (law : IsLawful ty) where
    finish_lem :
        (n i : ℕ) (d : Dict K V) (r : Bool × Dict K V)
        → d.rehashidx ≡ some i
        → LoopDone n (n * 10) i d r
        → RehashOutcome n d (finish_rehash r)
    finish_lem n i d (true, d') at done = record {
      keeps = done.keeps;
      answer = rw done.stands refl;
      finished = λ h. absurd (false≢true (sym (done.complete (omega arith) (omega arith)).0));
      moved_on = λ i' e h. inr (done.index, done.stands, ground (arith, done.forward h));
    }
    finish_lem n i d (false, d') at done = elim (Bool-cases (d'.ht0.used == 0)) [
      | inl z ↦ rw z (record {
        keeps =
            Rehashed-trans ty d d' (swapped d') done.keeps
              (swapped-Rehashed d' done.index done.keeps.valid done.stands (ground arith));
        answer = refl;
        finished = λ h. refl;
        moved_on = λ i' e h. inl refl;
      })
      | inr nz ↦ rw nz (record {
        keeps = done.keeps;
        answer = rw done.stands refl;
        finished = λ h. absurd (ground (arith, done.complete));
        moved_on = λ i' e h. inr (done.index, done.stands, ground (arith, done.forward h));
      })
    ]

    -- dictRehash on a well-formed dict, whatever the number of steps `n` and wherever the last
    -- call stopped, reads no bucket out of range, keeps the dict well formed, keeps the entry of
    -- every key and the number of entries, returns 1 exactly when the dict is left rehashing,
    -- has finished if `n` is at least the size of the first table, and has otherwise moved
    -- `rehashidx` forward if `n` is positive.
    pub dict_rehash_lem :
        (n : ℕ) (d : Dict K V)
        → IsValid ty d
        → (r : Bool × Dict K V) × (dict_rehash ty n d ≡ some r) × RehashOutcome n d r
    unfolding dict_rehash
    dict_rehash_lem n d ok = elim (Option-cases d.rehashidx) [
      | inl at ↦ (
        (false, d),
        rw at,
        record {
          keeps = Rehashed-refl d ok;
          answer = rw at refl;
          finished = λ h. at;
          moved_on = λ i e h. inl at;
        },
      )
      | inr (i, at) ↦
          let (r, run, done) = rehash_loop_lem law n (n * 10) i d ok at (λ h. omega arith) in
          (finish_rehash r, ground (arith, run, at), finish_lem n i d r at done)
    ]

    -- dictFind, dictAddRaw and dictGenericDelete begin with this.
    pub step_if_rehashing_lem :
        (d : Dict K V)
        → IsValid ty d
        → (d' : Dict K V) × (step_if_rehashing ty d ≡ some d') × Rehashed ty d d'
    unfolding step_if_rehashing rehash_step
    step_if_rehashing_lem d ok =
        let (r, run, out) = dict_rehash_lem 1 d ok in
        elim (Bool-cases (is_rehashing d)) [
          | inr idle ↦ (d, ground arith, Rehashed-refl d ok)
          | inl busy ↦ elim (Bool-cases (d.iterators == 0)) [
            | inr held ↦ (d, ground arith, Rehashed-refl d ok)
            | inl free ↦ (r.1, ground (arith, run), out.keeps)
          ]
        ]
