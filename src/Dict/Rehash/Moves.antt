-- ===== src/Dict/Rehash/Moves.antt =====
-- The inner loops of dictRehash: finding the next bucket with entries, and moving one bucket.
use mathlib.Core.Option.{or_else}
use jmeter_on_k8s.Prelude.{
  add-one, ℕ, zero, suc, ◌+◌, ◌-◌, ◌^◌, ◌≤◌, ◌<◌, ◌≡◌, ◌⊎◌, inl, inr, refl, ap, ◌∙◌, none, some,
  List, [], ◌∷◌, arith, length, get_elem?, get_or, set, drop, Bool-cases, ◌==◌,
}
use jmeter_on_k8s.Dict.{DictEntry, Chain, DictType, DictHt, Dict, dec64}
use jmeter_on_k8s.Dict.Chain.{IsLawful, IsDistinct, chain_find, chain_find_congr}
use jmeter_on_k8s.Dict.Rehash.{Skip, filled, visited, skip_empty, migrate}
use jmeter_on_k8s.Dict.Table.{
  total, ht_view, IsHt, push_entry, push_entry-IsHt, ht_view-push_entry, get_elem?-bucket_of,
}

module _ {ℓ} {A : Type ℓ} where
  pub total-drop-set :
      (t : List (List A)) (j : ℕ)
      → j < length t
      → total (drop (suc j) (set t j [])) + length (get_or t j []) ≡ total (drop j t)
  unfolding total
  total-drop-set [] j h = elim h [ ]
  total-drop-set (x ∷ t) zero h = omega arith
  total-drop-set (x ∷ t) (suc j) h = total-drop-set t j (omega arith)

  pub lt_of_total-drop : (t : List (List A)) (i : ℕ) → 0 < total (drop i t) → i < length t
  unfolding total
  lt_of_total-drop [] zero h = h
  lt_of_total-drop [] (suc i) h = absurd (omega arith)
  lt_of_total-drop (x ∷ t) zero h = omega arith
  lt_of_total-drop (x ∷ t) (suc i) h = omega (arith, lt_of_total-drop t i h)

  total-drop_nil :
      (t : List (List A)) (i : ℕ)
      → get_elem? t i ≡ some []
      → total (drop (suc i) t) ≡ total (drop i t)
  unfolding total
  total-drop_nil [] i h = ground arith
  total-drop_nil (x ∷ t) zero h = ground arith
  total-drop_nil (x ∷ t) (suc i) h = total-drop_nil t i h

  get_elem?-some :
      (t : List (List A)) (i : ℕ) → i < length t → (c : List A) × (get_elem? t i ≡ some c)
  get_elem?-some [] i h = elim h [ ]
  get_elem?-some (x ∷ t) zero h = (x, refl)
  get_elem?-some (x ∷ t) (suc i) h = get_elem?-some t i (omega arith)

module _ {ℓ} {K V : Type ℓ} where
  -- What skip_empty has found, from bucket `i` with `v` visits.
  pub data Skipped (t : List (Chain K V)) (v i : ℕ) : Skip K V → Type ℓ where
    at_filled :
        (j v' : ℕ) (e : DictEntry K V) (c : Chain K V)
        → total (drop j t) ≡ total (drop i t)
        → v' + j ≡ v + i
        → 0 < v'
        → i ≤ j
        → get_elem? t j ≡ some (e ∷ c)
        → Skipped t v i (filled j v' (e ∷ c))
    at_visited :
        (j : ℕ) → total (drop j t) ≡ total (drop i t) → j ≡ v + i → Skipped t v i (visited j)

  Skipped-next :
      (t : List (Chain K V)) (v i : ℕ) (s : Skip K V)
      → total (drop (suc i) t) ≡ total (drop i t)
      → Skipped t v (suc i) s
      → Skipped t (suc v) i s
  Skipped-next t v i s same (at_filled j v' e c a b p q g) =
      at_filled j v' e c (a ∙ same) (omega arith) p (omega arith) g
  Skipped-next t v i s same (at_visited j a b) = at_visited j (a ∙ same) (omega arith)

  pub skip_empty_lem :
      (t : List (Chain K V)) (v i : ℕ)
      → 0 < v
      → 0 < total (drop i t)
      → (s : Skip K V) × (skip_empty t v i ≡ some s) × Skipped t v i s
  unfolding skip_empty
  skip_empty_lem t zero i h pos = elim h [ ]
  skip_empty_lem t (suc v) i h pos =
      go (get_elem?-some t i (lt_of_total-drop t i pos)) (skip_empty_lem t v (suc i))
    where
      go :
          (c : Chain K V) × (get_elem? t i ≡ some c)
          → (0 < v
              → 0 < total (drop (suc i) t)
              → (s : Skip K V) × (skip_empty t v (suc i) ≡ some s) × Skipped t v (suc i) s)
          → (s : Skip K V) × (skip_empty t (suc v) i ≡ some s) × Skipped t (suc v) i s
      go (e ∷ c, g) rest = (
        filled i (suc v) (e ∷ c),
        rw (g, skip_empty),
        at_filled i (suc v) e c refl refl (omega arith) (omega arith) g,
      )
      go ([], g) rest =
          let same = total-drop_nil t i g in
          elim (Bool-cases (v == 0)) [
            | inl z ↦ (
              visited (i + 1),
              rw (g, skip_empty) (rw z refl),
              at_visited (i + 1) (rw add-one same) (ground arith),
            )
            | inr nz ↦
                let (s, run, ok) = rest (ground arith) (omega arith) in
                (s, rw (g, skip_empty) (rw (nz, add-one) run), Skipped-next t v i s same ok)
          ]

module _ {ℓ} {K V : Type ℓ} (ty : DictType K V) where
  -- The entries of `c` pushed one by one.
  pub receive : Chain K V → DictHt K V → DictHt K V
  receive [] t = t
  receive (e ∷ c) t = receive c (push_entry ty e t)

  -- The table that has received `c`.
  pub record Received (c : Chain K V) (t t' : DictHt K V) : Type ℓ where
    pub ht : IsHt ty t'
    pub size : t'.size ≡ t.size
    pub used : t'.used ≡ t.used + length c
    pub reads : (q : K) → ht_view ty t' q ≡ or_else (chain_find ty q c) (ht_view ty t q)

  -- A key of the chain is new to the table.
  abbrev pub Apart : Chain K V → DictHt K V → Type ℓ
  Apart c t = (q : K) → (chain_find ty q c ≡ none) ⊎ (ht_view ty t q ≡ none)

  module _ (law : IsLawful ty) where
    Apart-head :
        (e : DictEntry K V) (c : Chain K V) (t : DictHt K V)
        → Apart (e ∷ c) t
        → ht_view ty t e.key ≡ none
    unfolding chain_find
    Apart-head e c t a = ground (arith, a e.key, law.compare_refl e.key)

    Apart-push :
        (e : DictEntry K V) (c : Chain K V) (t : DictHt K V)
        → IsHt ty t
        → 0 < t.size
        → IsDistinct ty (e ∷ c)
        → Apart (e ∷ c) t
        → Apart c (push_entry ty e t)
    unfolding chain_find
    Apart-push e c t v h d a q =
        rw (ht_view-push_entry ty law e t q v h)
          (ground (arith, a q, chain_find_congr ty law q e.key c))

    -- A chain of distinct new keys leaves the table well formed, and adds its entries.
    pub receive_lem :
        (c : Chain K V) (t : DictHt K V)
        → IsHt ty t
        → 0 < t.size
        → t.used + length c < 2 ^ 60
        → IsDistinct ty c
        → Apart c t
        → Received c t (receive c t)
    unfolding receive chain_find or_else
    receive_lem [] t v h small d a = record {
      ht = v;
      size = refl;
      used = omega arith;
      reads = λ q. refl;
    }
    receive_lem (e ∷ c) t v h small d a =
        let new = Apart-head e c t a in
        let v' = push_entry-IsHt ty law e t v h (omega arith) new in
        let r =
          receive_lem c (push_entry ty e t) v' h (omega arith) d.1 (Apart-push e c t v h d a) in
        record {
          ht = r.ht;
          size = r.size;
          used = omega (arith, r.used);
          reads = λ q.
              r.reads q
              ∙ rw (ht_view-push_entry ty law e t q v h)
                  (ground (arith, chain_find_congr ty law q e.key c));
        }

    -- The inner loop does not fault, and its effect is `receive`.
    pub migrate_lem :
        (c : Chain K V) (d : Dict K V)
        → IsHt ty d.ht1
        → 0 < d.ht1.size
        → d.ht1.used + length c < 2 ^ 60
        → length c ≤ d.ht0.used
        → d.ht0.used < 2 ^ 60
        → IsDistinct ty c
        → Apart c d.ht1
        → migrate ty c d
          ≡ some (record d {
            ht0 = record (d.ht0) { used = d.ht0.used - length c };
            ht1 = receive c d.ht1;
          })
    unfolding receive migrate
    migrate_lem [] d v h small enough s0 dis a = ground arith
    migrate_lem (e ∷ c) d v h small enough s0 dis a =
        let new = Apart-head e c d.ht1 a in
        rw (get_elem?-bucket_of ty d.ht1 e.key v h, migrate)
          (migrate_lem c
              (record d {
                ht0 = record (d.ht0) { used = dec64 d.ht0.used };
                ht1 = push_entry ty e d.ht1;
              })
              (push_entry-IsHt ty law e d.ht1 v h (omega arith) new) h (omega arith) (omega arith)
              (omega arith) dis.1 (Apart-push e c d.ht1 v h dis a)
            ∙ ap
                (λ n. some (record d {
                  ht0 = record (d.ht0) { used = n };
                  ht1 = receive c (push_entry ty e d.ht1);
                }))
                (omega arith))
