-- ===== src/Dict/Iterator/Place.antt =====
-- Of src/dict.c: the buckets that an iterator has in front of it, and where it goes next.
use jmeter_on_k8s.Prelude.{
  ℕ, zero, suc, ◌+◌, ◌≤◌, ◌<◌, ◌≡◌, refl, sym, ap, ◌∙◌, Bool, true, false, ◌&&◌, not, none, some,
  List, [], ◌∷◌, ◌++◌, leb, length, drop, get_elem?, if◌then◌else◌, arith, add-one, Bool-cases, inl,
  inr, ◌⊎◌,
}
use jmeter_on_k8s.Dict.{Dict, DictEntry, Chain, is_rehashing}
use jmeter_on_k8s.Dict.Iterator.{table_of, next_place}

pub not_both : (b : Bool) → (b && false) ≡ false
not_both true = refl
not_both false = refl

module _ {ℓ} {K V : Type ℓ} where
  abbrev pub entries_of : List (Chain K V) → List (DictEntry K V)
  entries_of [] = []
  entries_of (b ∷ bs) = b ++ entries_of bs

  -- What the iterator relies on: the sizes, and a second table to go to while rehashing.
  pub record IsSized (d : Dict K V) : Type ℓ where
    pub first : length d.ht0.table ≡ d.ht0.size
    pub second : length d.ht1.table ≡ d.ht1.size
    pub busy : is_rehashing d ≡ true → 1 ≤ length d.ht1.table

  -- The buckets from an index of a table on.
  abbrev pub upcoming : Dict K V → Bool → ℕ → List (Chain K V)
  upcoming d second i =
      drop i (table_of d second).table ++ (if is_rehashing d && not second then d.ht1.table else [])

  -- The place where the iterator goes is that of the first bucket to come.
  abbrev pub Goes : Dict K V → Bool → ℕ → Type ℓ
  Goes d second i =
      ((next_place d second i ≡ none) × (upcoming d second i ≡ []))
      ⊎ ((second' : Bool) × (j : ℕ) × (b : Chain K V) × (next_place d second i ≡ some (second', j))
          × (get_elem? (table_of d second').table j ≡ some b)
          × (upcoming d second i ≡ b ∷ upcoming d second' (j + 1)))

  drop-get_elem? :
      (t : List (Chain K V)) (j : ℕ)
      → j < length t
      → (b : Chain K V) × (get_elem? t j ≡ some b) × (drop j t ≡ b ∷ drop (suc j) t)
  drop-get_elem? [] j h = absurd (omega arith)
  drop-get_elem? (b ∷ t) zero h = (b, refl, refl)
  drop-get_elem? (b ∷ t) (suc j) h = drop-get_elem? t j (omega arith)

  drop-past : (t : List (Chain K V)) (j : ℕ) → length t ≤ j → drop j t ≡ []
  drop-past [] zero h = refl
  drop-past [] (suc j) h = refl
  drop-past (b ∷ t) zero h = absurd (omega arith)
  drop-past (b ∷ t) (suc j) h = drop-past t j (omega arith)

  length-table_of :
      (d : Dict K V) (second : Bool)
      → IsSized d
      → length (table_of d second).table ≡ (table_of d second).size
  length-table_of d true ok = ok.second
  length-table_of d false ok = ok.first

  append-nil : (t : List (Chain K V)) → t ++ [] ≡ t
  append-nil [] = refl
  append-nil (b ∷ t) = ap (λ l. b ∷ l) (append-nil t)

  -- From the end of the first table the iterator goes to the start of the second one.
  Goes-switch :
      (d : Dict K V) (i : ℕ)
      → IsSized d
      → leb d.ht0.size i ≡ true
      → is_rehashing d ≡ true
      → Goes d false i
  unfolding next_place
  Goes-switch d i ok past busy =
      let (b, got, is) = drop-get_elem? d.ht1.table 0 (ok.busy busy) in
      let gone = drop-past d.ht0.table i (ground (arith, ok.first)) in
      inr (
        true,
        0,
        b,
        rw (past, next_place) (rw busy refl),
        got,
        rw (gone, busy) (is ∙ ap (λ l. b ∷ l) (sym (append-nil (drop 1 d.ht1.table)))),
      )

  Goes-end :
      (d : Dict K V) (second : Bool) (i : ℕ)
      → IsSized d
      → leb (table_of d second).size i ≡ true
      → (is_rehashing d && not second) ≡ false
      → Goes d second i
  unfolding next_place
  Goes-end d second i ok past idle =
      let size = length-table_of d second ok in
      inl (
        rw (past, next_place) (rw idle refl),
        rw idle (rw (drop-past (table_of d second).table i (ground (arith, size))) refl),
      )

  Goes-inside :
      (d : Dict K V) (second : Bool) (i : ℕ)
      → IsSized d
      → leb (table_of d second).size i ≡ false
      → Goes d second i
  unfolding next_place
  Goes-inside d second i ok inside =
      let size = length-table_of d second ok in
      let (b, got, is) = drop-get_elem? (table_of d second).table i (ground (arith, size)) in
      inr (
        second,
        i,
        b,
        rw (inside, next_place) refl,
        got,
        ap (λ l. l ++ (if is_rehashing d && not second then d.ht1.table else []))
            (is ∙ ap (λ n. b ∷ drop n (table_of d second).table) (sym (add-one i))),
      )

  pub next_place_lem : (d : Dict K V) (second : Bool) (i : ℕ) → IsSized d → Goes d second i
  next_place_lem d true i ok = elim (Bool-cases (leb d.ht1.size i)) [
    | inl past ↦ Goes-end d true i ok past (not_both (is_rehashing d))
    | inr inside ↦ Goes-inside d true i ok inside
  ]
  next_place_lem d false i ok = elim (Bool-cases (leb d.ht0.size i)) [
    | inl past ↦ elim (Bool-cases (is_rehashing d)) [
      | inl busy ↦ Goes-switch d i ok past busy
      | inr idle ↦ Goes-end d false i ok past (rw idle refl)
    ]
    | inr inside ↦ Goes-inside d false i ok inside
  ]
