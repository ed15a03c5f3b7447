-- ===== src/Intset/Search/Member.antt =====
-- Correctness of insertFind of src/intset.c.
use jmeter_on_k8s.Prelude.{
  ℕ, ◌≤◌, ◌<◌, ◌≡◌, refl, sym, ap, Bool, true, false, some, ltb, leb, ◌>>=◌, arith, Bool-cases, inl,
  inr,
}
use jmeter_on_k8s.Prelude.Int.{ℤ, pos_part, neg_part}
use jmeter_on_k8s.Intset.{Intset, value_encoding}
use jmeter_on_k8s.Intset.Search.{insert_find}
use jmeter_on_k8s.Intset.Search.Correct.{◌<ℤ◌, Stores, Located, intset_search_lem}

-- The answer of a membership test.
abbrev pub Answers : (ℕ → ℤ) → ℕ → ℤ → Bool → Type 0
Answers v n value true = (i : ℕ) × (i < n) × (v i ≡ value)
Answers v n value false = (i : ℕ) → i < n → ¬ v i ≡ value

less-differs : (a b : ℤ) → a <ℤ b → ¬ a ≡ b
less-differs a b h e = absurd (omega (arith, ap pos_part e, ap neg_part e))

Located-Answers :
    (v : ℕ → ℤ) (n : ℕ) (value : ℤ) (found : Bool) (p : ℕ)
    → Located v n value (found, p)
    → Answers v n value found
Located-Answers v n value true p (l, e) = (p, l, e)
Located-Answers v n value false p (l, lo, hi) = λ i h e. elim (Bool-cases (ltb i p)) [
  | inl b ↦ less-differs (v i) value (lo i (ground arith)) e
  | inr b ↦ less-differs value (v i) (hi i (ground arith) h) (sym e)
]

-- On a set whose values fit its width, stored in strictly increasing order at positions 0 to
-- length - 1 with a length of at most 2 ^ 31, insertFind answers without a fault: 1 only if the value
-- stands at a position of the set, 0 only if it stands at none.
pub insert_find_lem :
    (is : Intset) (v : ℕ → ℤ) (value : ℤ)
    → Stores is v
    → ((i : ℕ) → i < is.length → value_encoding (v i) ≤ is.encodeing)
    → (found : Bool) × (insert_find is value ≡ some found) × Answers v is.length value found
unfolding insert_find
insert_find_lem is v value st fit = elim (Bool-cases (leb (value_encoding value) is.encodeing)) [
  | inl h ↦
      let ((found, p), run, ok) = intset_search_lem is v value st in
      (found, rw h (rw (run, ◌>>=◌) refl), Located-Answers v is.length value found p ok)
  | inr h ↦ (false, rw h refl, λ i l e. absurd (ground (arith, fit i l, ap value_encoding e)))
]
