-- ===== src/Dict/Ops/Locate.antt =====
-- Where an entry is, and what rewriting its bucket does to the whole dict.
use mathlib.Core.Option.{or_else}
use jmeter_on_k8s.Prelude.{
  ℕ, zero, suc, ◌+◌, ◌≤◌, ◌<◌, ◌≡◌, sym, ap, ◌∙◌, true, Option, none, some, List, [], ◌∷◌, arith,
  length, get_or, set, drop, if◌then◌else◌,
}
use jmeter_on_k8s.Dict.{DictEntry, Chain, DictType, DictHt, Dict, slot, compare_keys}
use jmeter_on_k8s.Dict.Chain.{IsLawful, IsDistinct, chain_find, chain_find_congr}
use jmeter_on_k8s.Dict.Table.{
  total, ht_view, bucket_of, IsHt, put_bucket, put_bucket-IsHt, ht_view-put_bucket, slot-lt,
  slot_congr,
}
use jmeter_on_k8s.Dict.Valid.{IsValid, view}

module _ {ℓ} {A : Type ℓ} where
  total-drop-le : (t : List (List A)) (i : ℕ) → total (drop i t) ≤ total t
  unfolding total
  total-drop-le t zero = omega arith
  total-drop-le [] (suc i) = omega arith
  total-drop-le (x ∷ t) (suc i) = omega (arith, total-drop-le t i)

  -- If all entries stand at or behind `i`, then so does a bucket that has one.
  behind :
      (t : List (List A)) (i j : ℕ)
      → total (drop i t) ≡ total t
      → 0 < length (get_or t j [])
      → i ≤ j
  unfolding total
  behind t zero j h p = omega arith
  behind [] (suc i) j h p = elim p [ ]
  behind (x ∷ t) (suc i) zero h p = absurd (omega (arith, total-drop-le t i))
  behind (x ∷ t) (suc i) (suc j) h p =
      let e : total (drop i t) ≡ total t = omega (arith, total-drop-le t i) in
      omega (arith, behind t i j e p)

  total-drop-set :
      (t : List (List A)) (i j : ℕ) (c : List A)
      → i ≤ j
      → j < length t
      → total (drop i (set t j c)) + length (get_or t j []) ≡ total (drop i t) + length c
  unfolding total
  total-drop-set [] i j c le h = elim h [ ]
  total-drop-set (x ∷ t) zero zero c le h = omega arith
  total-drop-set (x ∷ t) zero (suc j) c le h =
      omega (arith, total-drop-set t 0 j c (omega arith) (omega arith))
  total-drop-set (x ∷ t) (suc i) zero c le h = elim le [ ]
  total-drop-set (x ∷ t) (suc i) (suc j) c le h = total-drop-set t i j c (omega arith) (omega arith)

module _ {ℓ} {K V : Type ℓ} (ty : DictType K V) where
  -- The bucket of `k` as it is to become: `found` for the keys equal to `k`, the rest as before.
  pub record Rewrites (t : DictHt K V) (k : K) (c : Chain K V) (found : Option (DictEntry K V))
      (n : ℕ) : Type ℓ where
    pub finds :
        (q : K)
        → chain_find ty q c
          ≡ (if compare_keys ty k q then found else chain_find ty q (bucket_of ty t k))
    pub distinct : IsDistinct ty c
    pub counted : n + length (bucket_of ty t k) ≡ t.used + length c

  -- The dict `d'` reads as `d`, but `found` for the keys equal to `k`.
  pub record Updates (d d' : Dict K V) (k : K) (found : Option (DictEntry K V)) : Type ℓ where
    pub valid : IsValid ty d'
    pub reads : (q : K) → view ty d' q ≡ (if compare_keys ty k q then found else view ty d q)

module _ {ℓ} {K V : Type ℓ} (ty : DictType K V) (law : IsLawful ty) where
  length_pos_of_find :
      (k : K) (c : Chain K V) (e : DictEntry K V) → chain_find ty k c ≡ some e → 0 < length c
  unfolding chain_find
  length_pos_of_find k [] e h = ground arith
  length_pos_of_find k (x ∷ c) e h = omega arith

  module _ (t : DictHt K V) (k : K) (c : Chain K V) (found : Option (DictEntry K V)) (n : ℕ)
      (ok : IsHt ty t) (pos : 0 < t.size) (w : Rewrites ty t k c found n) where
    rewritten-IsHt : IsHt ty (put_bucket t (slot ty t k) c n)
    rewritten-IsHt =
        put_bucket-IsHt ty t (slot ty t k) c n ok (slot-lt ty t k ok pos) w.counted
          (λ q ne. ground (arith, w.finds q, slot_congr ty law t k q, ok.placed q (slot ty t k) ne))
          w.distinct

    ht_view-rewritten :
        (q : K)
        → ht_view ty (put_bucket t (slot ty t k) c n) q
          ≡ (if compare_keys ty k q then found else ht_view ty t q)
    ht_view-rewritten q =
        rw (ht_view-put_bucket ty t (slot ty t k) c n q (slot-lt ty t k ok pos))
          (ground (arith, w.finds q, slot_congr ty law t k q))

  pub ht_view_congr :
      (t : DictHt K V) (a b : K) → compare_keys ty a b ≡ true → ht_view ty t a ≡ ht_view ty t b
  ht_view_congr t a b h =
      rw (slot_congr ty law t a b h) (chain_find_congr ty law a b (bucket_of ty t b) h)

  pub view_congr : (d : Dict K V) (a b : K) → compare_keys ty a b ≡ true → view ty d a ≡ view ty d b
  unfolding view
  view_congr d a b h = rw (ht_view_congr d.ht0 a b h, ht_view_congr d.ht1 a b h)

  module _ (d : Dict K V) (ok : IsValid ty d) (k : K) (c : Chain K V) (old : DictEntry K V)
      (found : Option (DictEntry K V)) (n : ℕ) where
    pub rewrite_first :
        0 < d.ht0.size
        → ht_view ty d.ht0 k ≡ some old
        → Rewrites ty d.ht0 k c found n
        → n ≤ d.ht0.used
        → Updates ty d (record d { ht0 = put_bucket (d.ht0) (slot ty d.ht0 k) c n }) k found
    unfolding view or_else
    rewrite_first pos at w few = record {
      valid = record {
        first = rewritten-IsHt d.ht0 k c found n ok.first pos w;
        second = ok.second;
        apart = λ q.
            rw (ht_view-rewritten d.ht0 k c found n ok.first pos w q)
              (ground (arith, ok.apart q, ht_view_congr d.ht0 k q));
        idle = ok.idle;
        busy = λ i h.
            let (p0, p1, rest) = ok.busy i h in
            let there = length_pos_of_find k (bucket_of ty d.ht0 k) old at in
            let lt = slot-lt ty d.ht0 k ok.first pos in
            let after =
              behind d.ht0.table i (slot ty d.ht0 k) (rest ∙ sym ok.first.counted) there in
            (
              p0,
              p1,
              omega (arith, total-drop-set d.ht0.table i (slot ty d.ht0 k) c after lt, w.counted),
            );
        small = omega (arith, ok.small);
      };
      reads = λ q.
          rw (ht_view-rewritten d.ht0 k c found n ok.first pos w q)
            (ground (arith, ok.apart q, ht_view_congr d.ht0 k q));
    }

    pub rewrite_second :
        0 < d.ht1.size
        → ht_view ty d.ht1 k ≡ some old
        → Rewrites ty d.ht1 k c found n
        → n ≤ d.ht1.used
        → Updates ty d (record d { ht1 = put_bucket (d.ht1) (slot ty d.ht1 k) c n }) k found
    unfolding view or_else
    rewrite_second pos at w few =
        let away : ht_view ty d.ht0 k ≡ none = ground (arith, ok.apart k) in
        record {
          valid = record {
            first = ok.first;
            second = rewritten-IsHt d.ht1 k c found n ok.second pos w;
            apart = λ q.
                rw (ht_view-rewritten d.ht1 k c found n ok.second pos w q)
                  (ground (arith, ok.apart q, ht_view_congr d.ht0 k q));
            idle = λ h. absurd (omega (arith, ap (λ (t : DictHt K V). t.size) (ok.idle h)));
            busy = ok.busy;
            small = omega (arith, ok.small);
          };
          reads = λ q.
              rw (ht_view-rewritten d.ht1 k c found n ok.second pos w q)
                (ground (arith, ht_view_congr d.ht0 k q));
        }
