-- ===== src/Dict/Rehash/Bucket.antt =====
-- One bucket of dictRehash moved to the second table: the invariant, and the entry of every key.
use mathlib.Core.Option.{or_else}
use jmeter_on_k8s.Prelude.{
  ℕ, zero, suc, ◌+◌, ◌-◌, ◌≤◌, ◌<◌, ◌≡◌, ◌⊎◌, inl, inr, refl, ap, ◌∙◌, none, some, List, [], ◌∷◌,
  arith, length, get_elem?, get_or, drop, Bool-cases, ◌==◌, ==_iff,
}
use jmeter_on_k8s.Dict.{Chain, DictType, Dict, slot}
use jmeter_on_k8s.Dict.Chain.{IsLawful, IsDistinct, chain_find}
use jmeter_on_k8s.Dict.Rehash.{migrate}
use jmeter_on_k8s.Dict.Rehash.Moves.{
  total-drop-set, receive, Received, Apart, receive_lem, migrate_lem,
}
use jmeter_on_k8s.Dict.Table.{
  total, ht_view, IsHt, put_bucket, put_bucket-IsHt, ht_view-put_bucket, length-le-total,
}
use jmeter_on_k8s.Dict.Valid.{IsValid, view}

module _ {ℓ} {K V : Type ℓ} (ty : DictType K V) where
  -- What every part of a rehash keeps.
  pub record Rehashed (d d' : Dict K V) : Type ℓ where
    pub valid : IsValid ty d'
    pub reads : (q : K) → view ty d' q ≡ view ty d q
    pub size : d'.ht0.used + d'.ht1.used ≡ d.ht0.used + d.ht1.used
    pub iterators : d'.iterators ≡ d.iterators
    pub sizes : (n : ℕ) → d.ht0.size ≤ n → d.ht1.size ≤ n → (d'.ht0.size ≤ n) × (d'.ht1.size ≤ n)
    pub sized : 0 < d.ht0.size → 0 < d'.ht0.size

  pub Rehashed-trans : (a b c : Dict K V) → Rehashed a b → Rehashed b c → Rehashed a c
  Rehashed-trans a b c r s = record {
    valid = s.valid;
    reads = λ q. s.reads q ∙ r.reads q;
    size = s.size ∙ r.size;
    iterators = s.iterators ∙ r.iterators;
    sizes = λ n p q. s.sizes n (r.sizes n p q).0 (r.sizes n p q).1;
    sized = λ p. s.sized (r.sized p);
  }

  pub get_or_of_some :
      (t : List (Chain K V)) (j : ℕ) (c : Chain K V)
      → get_elem? t j ≡ some c
      → (get_or t j [] ≡ c) × (j < length t)
  get_or_of_some [] j c h = ground arith
  get_or_of_some (x ∷ t) zero c h = ground arith
  get_or_of_some (x ∷ t) (suc j) c h = ground (arith, get_or_of_some t j c h)

  -- The dict after bucket `j` has been moved.
  abbrev pub moved : ℕ → Chain K V → Dict K V → Dict K V
  moved j c d = record d {
    ht0 = put_bucket (d.ht0) j [] (d.ht0.used - length c);
    ht1 = receive ty c d.ht1;
    rehashidx = some (j + 1);
  }

  module _ (law : IsLawful ty) (d : Dict K V) (v : IsValid ty d) (i j : ℕ) (c : Chain K V)
      (at : d.rehashidx ≡ some i) (same : total (drop j d.ht0.table) ≡ total (drop i d.ht0.table))
      (found : get_or d.ht0.table j [] ≡ c) (inside : j < length d.ht0.table) where
    chain_counted : length c ≤ d.ht0.used
    chain_counted = rw (← found) (omega (arith, length-le-total d.ht0.table j, v.first.counted))

    chain-IsDistinct : IsDistinct ty c
    chain-IsDistinct = rw (← found) (v.first.distinct j)

    chain-Apart : Apart ty c d.ht1
    chain-Apart q = elim (Bool-cases (slot ty d.ht0 q == j)) [
      | inl e ↦ let e' = (==_iff (slot ty d.ht0 q) j).0 e in rw (← found) (rw e' at (v.apart q))
      | inr ne ↦ inl (rw (← found) (v.first.placed q j (ground arith)))
    ]

    received : Received ty c d.ht1 (receive ty c d.ht1)
    received =
        receive_lem ty law c d.ht1 v.second (v.busy i at).1 (omega (arith, chain_counted, v.small))
          chain-IsDistinct chain-Apart

    pub migrate-moved :
        migrate ty c d
        ≡ some (record d {
          ht0 = record (d.ht0) { used = d.ht0.used - length c };
          ht1 = receive ty c d.ht1;
        })
    migrate-moved =
        migrate_lem ty law c d v.second (v.busy i at).1 (omega (arith, chain_counted, v.small))
          chain_counted (omega (arith, v.small)) chain-IsDistinct chain-Apart

    moved_first : IsHt ty (moved j c d).ht0
    unfolding chain_find
    moved_first =
        put_bucket-IsHt ty d.ht0 j [] (d.ht0.used - length c) v.first inside
          (rw found (omega (arith, chain_counted))) (λ q ne. refl) tt

    moved_view :
        (q : K)
        → (ht_view ty (moved j c d).ht0 q ≡ none)
            × (ht_view ty (moved j c d).ht1 q ≡ or_else (ht_view ty d.ht0 q) (ht_view ty d.ht1 q))
          ⊎ (ht_view ty (moved j c d).ht0 q ≡ ht_view ty d.ht0 q)
            × (ht_view ty (moved j c d).ht1 q ≡ ht_view ty d.ht1 q)
    unfolding chain_find or_else
    moved_view q = elim (Bool-cases (slot ty d.ht0 q == j)) [
      | inl e ↦
          let here : ht_view ty d.ht0 q ≡ chain_find ty q c =
            rw ((==_iff (slot ty d.ht0 q) j).0 e) (rw found) in
          inl (
            rw (ht_view-put_bucket ty d.ht0 j [] (d.ht0.used - length c) q inside, e),
            rw here (received.reads q),
          )
      | inr ne ↦
          let away : chain_find ty q c ≡ none = rw (← found) (v.first.placed q j (ground arith)) in
          inr (
            rw (ht_view-put_bucket ty d.ht0 j [] (d.ht0.used - length c) q inside, ne),
            received.reads q ∙ rw away,
          )
    ]

    pub moved-Rehashed : Rehashed d (moved j c d)
    unfolding view or_else
    moved-Rehashed = record {
      valid = record {
        first = moved_first;
        second = received.ht;
        apart = λ q. ground (arith, v.apart q, moved_view q);
        idle = λ h. ground arith;
        busy = λ k h.
            let e : suc j ≡ k = ground arith in
            let left = total-drop-set d.ht0.table j inside in
            (
              (v.busy i at).0,
              rw received.size (v.busy i at).1,
              rw (← e) (omega (arith, ap length found, left, (v.busy i at).2)),
            );
        small = omega (arith, chain_counted, received.used, v.small);
      };
      reads = λ q. ground (arith, moved_view q);
      size = omega (arith, chain_counted, received.used);
      iterators = refl;
      sizes = λ n p q. (p, rw received.size q);
      sized = λ p. p;
    }
