-- ===== src/Intset/Search/Correct.antt =====
-- Correctness of the binary search of src/intset.c.
use jmeter_on_k8s.Prelude.{
  ℕ, zero, suc, ◌+◌, ◌-◌, ◌^◌, ◌/◌, ◌≤◌, ◌<◌, ◌≡◌, refl, sym, ap, Bool, true, false, some, ◌==◌,
  ltb, leb, if◌then◌else◌, ◌>>=◌, arith, Bool-cases, inl, inr, ◌⊎◌,
}
use jmeter_on_k8s.Prelude.Int.{ℤ, pos, negsuc, ltb_ℤ, pos_part, neg_part}
use jmeter_on_k8s.Intset.{Intset, get_at}
use jmeter_on_k8s.Intset.Search.{Stop, search_loop, finish_search, intset_search}

infix 50 ◌<ℤ◌
abbrev pub ◌<ℤ◌ : ℤ → ℤ → Type 0
a <ℤ b = pos_part a + neg_part b < pos_part b + neg_part a

-- The set stores v 0 up to v (length - 1), in strictly increasing order, and its length is one that
-- an int can index.
pub record Stores (is : Intset) (v : ℕ → ℤ) : Type 0 where
  pub reads : (i : ℕ) → i < is.length → get_at is i ≡ some (v i)
  pub sorted : (i j : ℕ) → i < j → j < is.length → v i <ℤ v j
  pub short : is.length ≤ 2 ^ 31

-- What the search says: the place of the value, or where it would have to be.
abbrev pub Located : (ℕ → ℤ) → ℕ → ℤ → Bool × ℕ → Type 0
Located v n value (true, p) = (p < n) × (v p ≡ value)
Located v n value (false, p) =
    (p ≤ n) × ((i : ℕ) → i < p → v i <ℤ value) × ((i : ℕ) → p ≤ i → i < n → value <ℤ v i)

eq_ℤ-sound : (a b : ℤ) → pos_part a + neg_part b ≡ pos_part b + neg_part a → a ≡ b
eq_ℤ-sound (pos a) (pos b) e = ap pos (omega arith)
eq_ℤ-sound (pos a) (negsuc b) e = absurd (omega arith)
eq_ℤ-sound (negsuc a) (pos b) e = absurd (omega arith)
eq_ℤ-sound (negsuc a) (negsuc b) e = ap negsuc (omega arith)

trichotomy_ℤ : (a b : ℤ) → (a <ℤ b) ⊎ ((b <ℤ a) ⊎ (a ≡ b))
trichotomy_ℤ a b = elim (Bool-cases (ltb_ℤ a b)) [
  | inl h ↦ inl (ground arith)
  | inr h ↦ elim (Bool-cases (ltb_ℤ b a)) [
    | inl g ↦ inr (inl (ground arith))
    | inr g ↦ inr (inr (eq_ℤ-sound a b (ground arith)))
  ]
]

-- The value of the last comparison is not the one that is sought.
abbrev Differs : ℤ → ℤ → Type 0
Differs a b = (a <ℤ b) ⊎ (b <ℤ a)

Differs-finish :
    (value : ℤ) (s : Stop) → Differs s.cur value → finish_search value s ≡ (false, s.min)
Differs-finish value s d = elim d [ inl h ↦ ground arith | inr h ↦ ground arith ]

ltb_ℤ-true : (a b : ℤ) → a <ℤ b → ltb_ℤ a b ≡ true
ltb_ℤ-true a b h = ground arith

ltb_ℤ-false : (a b : ℤ) → pos_part b + neg_part a ≤ pos_part a + neg_part b → ltb_ℤ a b ≡ false
ltb_ℤ-false a b h = ground arith

not_less : (a b : ℤ) → a ≡ b → ltb_ℤ a b ≡ false
not_less a b e = rw e (ltb_ℤ-false b b (omega arith))

short_length : (n : ℕ) → n ≤ 2 ^ 31 → (if leb n (2 ^ 31) then n else 0) ≡ n
short_length n h = ground arith

finish_search-same : (value : ℤ) (s : Stop) → s.cur ≡ value → finish_search value s ≡ (true, s.mid)
finish_search-same value s e = rw e (ground arith)

equal : (i j : ℕ) → (i == j) ≡ true → i ≡ j
equal i j e = ground arith

below :
    (is : Intset) (v : ℕ → ℤ) (value : ℤ)
    → Stores is v
    → (mid : ℕ) → mid < is.length
    → v mid <ℤ value
    → (i : ℕ) → i < mid + 1
    → v i <ℤ value
below is v value st mid m less i h = elim (Bool-cases (i == mid)) [
  | inl e ↦ rw (equal i mid e) less
  | inr e ↦ omega (arith, st.sorted i mid (ground arith) m)
]

above :
    (is : Intset) (v : ℕ → ℤ) (value : ℤ)
    → Stores is v
    → (mid : ℕ) → mid < is.length
    → value <ℤ v mid
    → (i : ℕ) → mid ≤ i
    → i < is.length
    → value <ℤ v i
above is v value st mid m more i h k = elim (Bool-cases (i == mid)) [
  | inl e ↦ rw (equal i mid e) more
  | inr e ↦ omega (arith, st.sorted mid i (ground arith) k)
]

search_loop_lem :
    (is : Intset) (v : ℕ → ℤ) (value : ℤ)
    → Stores is v
    → (fuel min bound : ℕ) (s : Stop) → bound < min + fuel
    → bound ≤ is.length
    → min ≤ bound
    → ((i : ℕ) → i < min → v i <ℤ value)
    → ((i : ℕ) → bound ≤ i → i < is.length → value <ℤ v i)
    → (min < bound) ⊎ Differs s.cur value
    → (r : Stop) × (search_loop is value fuel min bound s ≡ some r)
      × Located v is.length value (finish_search value r)
unfolding search_loop
search_loop_lem is v value st zero min bound s f b m lo hi c = absurd (omega arith)
search_loop_lem is v value st (suc fuel) min bound s f b m lo hi c =
    elim (Bool-cases (ltb min bound)) [
      | inr h ↦ elim c [
        | inl l ↦ absurd (ground arith)
        | inr d ↦ (
          record s { min = min },
          rw (h, search_loop) refl,
          rw (Differs-finish value (record s { min = min }) d)
              (omega arith, lo, λ i p q. hi i (ground arith) q),
        )
      ]
      | inl h ↦
          let mid = (min + bound - 1) / 2 in
          let e = st.reads mid (ground arith) in
          elim (trichotomy_ℤ (v mid) value) [
            | inl less ↦
                let (r, run, ok) =
                  search_loop_lem is v value st fuel (mid + 1) bound
                    (record { min = min; mid = mid; cur = v mid }) (ground arith) b (ground arith)
                    (below is v value st mid (ground arith) less) hi (inr (inl less)) in
                (r, rw (h, e, search_loop) (rw (ltb_ℤ-true (v mid) value less) run), ok)
            | inr (inl more) ↦
                let (r, run, ok) =
                  search_loop_lem is v value st fuel min mid
                    (record { min = min; mid = mid; cur = v mid }) (ground arith) (ground arith)
                    (ground arith) lo (above is v value st mid (ground arith) more)
                    (inr (inr more)) in
                (
                  r,
                  rw (h, e, search_loop)
                      (rw (ltb_ℤ-false (v mid) value (omega arith), ltb_ℤ-true value (v mid) more)
                        run),
                  ok,
                )
            | inr (inr same) ↦ (
              record { min = min; mid = mid; cur = v mid },
              rw (h, e, search_loop)
                  (rw (not_less (v mid) value same, not_less value (v mid) (sym same)) refl),
              rw (finish_search-same value (record { min = min; mid = mid; cur = v mid }) same)
                  (ground arith, same),
            )
          ]
    ]

-- On a set that stores the values v 0, ..., v (length - 1) in strictly increasing order, with a
-- length of at most 2 ^ 31, intsetSearch ends without a read outside the contents. Its answer is 1
-- with the position of the value, or 0 with the position at which the value would have to be
-- inserted: everything before it is smaller and everything from it on is larger.
pub intset_search_lem :
    (is : Intset) (v : ℕ → ℤ) (value : ℤ)
    → Stores is v
    → (r : Bool × ℕ) × (intset_search is value ≡ some r) × Located v is.length value r
unfolding intset_search
intset_search_lem is v value st = elim (Bool-cases (is.length == 0)) [
  | inl z ↦ (
    (false, 0),
    rw z refl,
    (omega arith, λ i p. absurd (omega arith), λ i p q. absurd (ground arith)),
  )
  | inr nz ↦
      let n = is.length in
      let top = st.reads (n - 1) (ground arith) in
      let low = st.reads 0 (ground arith) in
      elim (Bool-cases (ltb_ℤ (v (n - 1)) value)) [
        | inl h ↦ (
          (false, n),
          rw (nz, top, ◌>>=◌) (rw h refl),
          (
            omega arith,
            λ i p. below is v value st (n - 1) (ground arith) (ground arith) i (ground arith),
            λ i p q. absurd (omega arith),
          ),
        )
        | inr h ↦ elim (Bool-cases (ltb_ℤ value (v 0))) [
          | inl g ↦ (
            (false, 0),
            rw (nz, top, ◌>>=◌) (rw (h, low, ◌>>=◌) (rw g refl)),
            (
              omega arith,
              λ i p. absurd (omega arith),
              λ i p q. above is v value st 0 (ground arith) (ground arith) i p q,
            ),
          )
          | inr g ↦
              let (r, run, ok) =
                search_loop_lem is v value st (n + 1) 0 n
                  (record { min = 0; mid = 2 ^ 32 - 1; cur = negsuc 0 }) (omega arith) (omega arith)
                  (omega arith) (λ i p. absurd (omega arith)) (λ i p q. absurd (omega arith))
                  (inl (ground arith)) in
              (
                finish_search value r,
                rw (nz, top, ◌>>=◌)
                    (rw (h, low, ◌>>=◌) (rw g (rw (short_length n st.short) (rw run refl)))),
                ok,
              )
        ]
      ]
]
