-- ===== src/Dict/Iterator/Visits.antt =====
-- Of src/dict.c: dictNext gives every entry of the tables once, in their order, and then NULL.
use mathlib.Core.Path.{subst}
use jmeter_on_k8s.Prelude.{
  ℕ, zero, suc, ◌+◌, ◌≤◌, ◌<◌, ◌≡◌, refl, sym, ap, ◌∙◌, Bool, true, false, ◌&&◌, none, some, List,
  [], ◌∷◌, ◌++◌, ◌>>=◌, length, drop, length-append, length-drop, if◌then◌else◌, arith,
  Option-cases, Bool-cases, inl, inr, ◌⊎◌,
}
use jmeter_on_k8s.Dict.{DictType, Dict, DictEntry, Chain, is_rehashing}
use jmeter_on_k8s.Dict.Iterator.{
  DictIterator, not_started, started, next_index, enter, round, dict_next, visit,
}
use jmeter_on_k8s.Dict.Iterator.{dict_get_safe_iterator}
use jmeter_on_k8s.Sds.Number.Reversed.{append_assoc}
use jmeter_on_k8s.Dict.Valid.{IsValid}
use jmeter_on_k8s.Dict.Iterator.Place.{not_both, entries_of, IsSized, upcoming, next_place_lem}

module _ {ℓ} {K V : Type ℓ} where
  ahead : Dict K V → DictIterator K V → List (Chain K V)
  ahead d it = upcoming d it.second (next_index it.index)

  Enters : Dict K V → DictIterator K V → Type ℓ
  Enters d it =
      ((it' : DictIterator K V) × (enter d it ≡ some (d, it', true))
        × (it'.entry ≡ it.entry)
        × (ahead d it ≡ []))
      ⊎ ((it' : DictIterator K V) × (enter d it ≡ some (d, it', false))
          × (ahead d it ≡ it'.entry ∷ ahead d it'))

  enter_lem : (d : Dict K V) (it : DictIterator K V) → IsSized d → Enters d it
  unfolding enter Enters ahead
  enter_lem d it ok = elim (next_place_lem d it.second (next_index it.index) ok) [
    | inl (place, nothing) ↦
        inl
          (record it { index = some (next_index it.index) }, rw (place, enter) refl, refl, nothing)
    | inr (second, j, b, place, got, is) ↦ inr (
      record it { index = some j; second = second; entry = b },
      rw (place, enter) (rw (got, ◌>>=◌) refl),
      is,
    )
  ]

  -- The same tables.
  Same : Dict K V → Dict K V → Type ℓ
  Same d d' = (d'.ht0 ≡ d.ht0) × (d'.ht1 ≡ d.ht1) × (is_rehashing d' ≡ is_rehashing d)

  -- What started gives: the same place in the same tables.
  Starts : (Dict K V → ℕ) → Dict K V → DictIterator K V → Type ℓ
  Starts finger d it =
      (d' : Dict K V) × (it' : DictIterator K V) × (started finger d it ≡ (d', it'))
      × Same d d'
      × IsSized d'
      × (it'.entry ≡ it.entry)
      × (ahead d' it' ≡ ahead d it)

  started_lem :
      (finger : Dict K V → ℕ) (d : Dict K V) (it : DictIterator K V)
      → IsSized d
      → Starts finger d it
  unfolding Starts Same ahead
  started_lem finger d it ok = elim (Bool-cases (not_started it)) [
    | inl first ↦ elim (Bool-cases it.safe) [
      | inl safe ↦ (
        record d { iterators = d.iterators + 1 },
        it,
        rw (first, started) (rw safe refl),
        (refl, refl, refl),
        record { first = ok.first; second = ok.second; busy = ok.busy },
        refl,
        refl,
      )
      | inr unsafe ↦ (
        d,
        record it { finger_print = finger d },
        rw (first, started) (rw unsafe refl),
        (refl, refl, refl),
        ok,
        refl,
        refl,
      )
    ]
    | inr later ↦ (d, it, rw (later, started) refl, (refl, refl, refl), ok, refl, refl)
  ]

  chain-cases : (l : Chain K V) → (l ≡ []) ⊎ ((e : DictEntry K V) × (es : Chain K V) × (l ≡ e ∷ es))
  chain-cases [] = inl refl
  chain-cases (e ∷ es) = inr (e, es, refl)

  -- What the iterator still gives.
  abbrev left : Dict K V → DictIterator K V → List (DictEntry K V)
  left d it = (elim it.entry [ [] ↦ [] | e ∷ es ↦ it.next_entry ]) ++ entries_of (ahead d it)

  Same-trans : (d d1 d2 : Dict K V) → Same d d1 → Same d1 d2 → Same d d2
  unfolding Same
  Same-trans d d1 d2 (a, b, c) (a', b', c') = (a' ∙ a, b' ∙ b, c' ∙ c)

  -- dictNext gives the first entry of l, after which the others are left, or NULL for none.
  Gives : (Dict K V → ℕ) → ℕ → Dict K V → DictIterator K V → List (DictEntry K V) → Type ℓ
  Gives finger fuel d it l =
      (d' : Dict K V) × (it' : DictIterator K V) × (chain : Chain K V) × (dict_next finger fuel d it
        ≡ some (d', it', chain))
      × Same d d'
      × IsSized d'
      × (((chain ≡ []) × (l ≡ []))
          ⊎ ((e : DictEntry K V) × (es : Chain K V) × (chain ≡ e ∷ es) × (l ≡ e ∷ left d' it')))

  -- The end of a round that came to an entry.
  Gives-first :
      (finger : Dict K V → ℕ) (fuel : ℕ) (d d1 : Dict K V) (it it2 : DictIterator K V) (stop : Bool)
      (e : DictEntry K V) (es : Chain K V) (l : List (DictEntry K V))
      → round finger d it ≡ some (d1, it2, stop)
      → it2.entry ≡ e ∷ es
      → Same d d1
      → IsSized d1
      → l ≡ e ∷ (es ++ entries_of (ahead d1 it2))
      → Gives finger (suc fuel) d it l
  unfolding Gives dict_next ahead
  Gives-first finger fuel d d1 it it2 stop e es l run is same ok lists = (
    d1,
    record it2 { next_entry = es },
    e ∷ es,
    rw (run, ◌>>=◌)
        (ap
          (λ c. elim c [
            | e' ∷ es' ↦ some (d1, record it2 { next_entry = es' }, e' ∷ es')
            | [] ↦ elim stop [ true ↦ some (d1, it2, []) | false ↦ dict_next finger fuel d1 it2 ]
          ])
          is),
    same,
    ok,
    inr (e, es, refl, lists ∙ rw is refl),
  )

  -- The end of the loop by its break.
  Gives-null :
      (finger : Dict K V → ℕ) (fuel : ℕ) (d d1 : Dict K V) (it it2 : DictIterator K V)
      (l : List (DictEntry K V))
      → round finger d it ≡ some (d1, it2, true)
      → it2.entry ≡ []
      → Same d d1
      → IsSized d1
      → l ≡ []
      → Gives finger (suc fuel) d it l
  unfolding Gives dict_next
  Gives-null finger fuel d d1 it it2 l run is same ok nothing = (
    d1,
    it2,
    [],
    rw (run, ◌>>=◌)
        (ap
          (λ c. elim c [
            | e' ∷ es' ↦ some (d1, record it2 { next_entry = es' }, e' ∷ es')
            | [] ↦ some (d1, it2, [])
          ])
          is),
    same,
    ok,
    inl (refl, nothing),
  )

  -- The end of a round that came to no entry, and goes on.
  goes_on :
      (finger : Dict K V → ℕ) (fuel : ℕ) (d d1 : Dict K V) (it it2 : DictIterator K V)
      (l : List (DictEntry K V))
      → round finger d it ≡ some (d1, it2, false)
      → it2.entry ≡ []
      → Same d d1
      → Gives finger fuel d1 it2 l
      → Gives finger (suc fuel) d it l
  unfolding Gives dict_next
  goes_on finger fuel d d1 it it2 l run is same (d', it', chain, next, same', ok', lists) =
      (d', it', chain, rw (run, ◌>>=◌) (rw is next), Same-trans d d1 d' same same', ok', lists)

  round-enter :
      (finger : Dict K V → ℕ) (d d1 : Dict K V) (it it1 : DictIterator K V)
      → it.entry ≡ []
      → started finger d it ≡ (d1, it1)
      → round finger d it ≡ enter d1 it1
  unfolding round
  round-enter finger d d1 it it1 empty e = rw (empty, round) (ap (λ (d', it'). enter d' it') e)

  find :
      (finger : Dict K V → ℕ) (fuel : ℕ) (d : Dict K V) (it : DictIterator K V)
      → IsSized d
      → it.entry ≡ []
      → length (ahead d it) < fuel
      → Gives finger fuel d it (entries_of (ahead d it))
  unfolding Enters Starts Gives dict_next
  find finger zero d it ok empty long = absurd (omega arith)
  find finger (suc fuel) d it ok empty long =
      let (d1, it1, starts, same, ok1, as_was, ahead1) = started_lem finger d it ok in
      elim (enter_lem d1 it1 ok1) [
        | inl (it2, run, is, nothing) ↦
            Gives-null finger fuel d d1 it it2 (entries_of (ahead d it))
              (round-enter finger d d1 it it1 empty starts ∙ run) (is ∙ as_was ∙ empty) same ok1
              (ap entries_of (sym ahead1 ∙ nothing))
        | inr (it2, run, is) ↦ elim (chain-cases it2.entry) [
          | inl none_here ↦
              let lists : ahead d it ≡ it2.entry ∷ ahead d1 it2 = sym ahead1 ∙ is in
              let gives = find finger fuel d1 it2 ok1 none_here (omega (arith, ap length lists)) in
              goes_on finger fuel d d1 it it2 (entries_of (ahead d it))
                (round-enter finger d d1 it it1 empty starts ∙ run) none_here same
                (subst (Gives finger fuel d1 it2)
                  (sym (ap entries_of lists ∙ ap (λ b. b ++ entries_of (ahead d1 it2)) none_here))
                  gives)
          | inr (e, es, here) ↦
              Gives-first finger fuel d d1 it it2 false e es (entries_of (ahead d it))
                (round-enter finger d d1 it it1 empty starts ∙ run) here same ok1
                (ap entries_of (sym ahead1 ∙ is) ∙ ap (λ b. b ++ entries_of (ahead d1 it2)) here)
        ]
      ]

  -- A round from an entry goes to the one behind it.
  round-entry :
      (finger : Dict K V → ℕ) (d : Dict K V) (it : DictIterator K V) (e : DictEntry K V)
      (es : Chain K V)
      → it.entry ≡ e ∷ es
      → round finger d it ≡ some (d, record it { entry = it.next_entry }, false)
  unfolding round
  round-entry finger d it e es is =
      ap
        (λ c. elim c [
          | e' ∷ es' ↦ some (d, record it { entry = it.next_entry }, false)
          | [] ↦ (let (d', it') = started finger d it in enter d' it')
        ])
        is

  left-entry :
      (d : Dict K V) (it : DictIterator K V) (c : Chain K V)
      → it.entry ≡ c
      → left d it ≡ (elim c [ [] ↦ [] | e ∷ es ↦ it.next_entry ]) ++ entries_of (ahead d it)
  left-entry d it c is =
      ap (λ c'. (elim c' [ [] ↦ [] | e ∷ es ↦ it.next_entry ]) ++ entries_of (ahead d it)) is

  dict_next_lem :
      (finger : Dict K V → ℕ) (fuel : ℕ) (d : Dict K V) (it : DictIterator K V)
      → IsSized d
      → length (ahead d it) + 1 < fuel
      → Gives finger fuel d it (left d it)
  unfolding Same ahead
  dict_next_lem finger zero d it ok long = absurd (omega arith)
  dict_next_lem finger (suc fuel) d it ok long = elim (chain-cases it.entry) [
    | inl empty ↦
        subst (Gives finger (suc fuel) d it) (sym (left-entry d it [] empty))
          (find finger (suc fuel) d it ok empty (omega arith))
    | inr (e, es, is) ↦
        let it2 = record it { entry = it.next_entry } in
        elim (chain-cases it.next_entry) [
          | inl empty ↦
              goes_on finger fuel d d it it2 (left d it) (round-entry finger d it e es is) empty
                (refl, refl, refl)
                (subst (Gives finger fuel d it2)
                  (sym (left-entry d it (e ∷ es) is ∙ ap (λ c. c ++ entries_of (ahead d it)) empty))
                  (find finger fuel d it2 ok empty (omega arith)))
          | inr (e', es', here) ↦
              Gives-first finger fuel d d it it2 false e' es' (left d it)
                (round-entry finger d it e es is) here (refl, refl, refl) ok
                (left-entry d it (e ∷ es) is ∙ ap (λ c. c ++ entries_of (ahead d it)) here)
        ]
  ]

  length-upcoming :
      (d : Dict K V) (second : Bool) (i : ℕ)
      → length (upcoming d second i) ≤ length d.ht0.table + length d.ht1.table
  length-upcoming d true i =
      rw (not_both (is_rehashing d))
        (omega (arith, length-append (drop i d.ht1.table) [], length-drop i d.ht1.table))
  length-upcoming d false i = elim (Bool-cases (is_rehashing d)) [
    | inl busy ↦
        rw busy
          (omega (arith, length-append (drop i d.ht0.table) d.ht1.table, length-drop i d.ht0.table))
    | inr idle ↦
        rw idle (omega (arith, length-append (drop i d.ht0.table) [], length-drop i d.ht0.table))
  ]

  length-ahead :
      (d : Dict K V) (it : DictIterator K V)
      → length (ahead d it) ≤ length d.ht0.table + length d.ht1.table
  unfolding ahead
  length-ahead d it = length-upcoming d it.second (next_index it.index)

  -- All that is left is given, in its order, and then NULL.
  visit_lem :
      (finger : Dict K V → ℕ) (rounds fuel : ℕ) (d : Dict K V) (it : DictIterator K V)
      → IsSized d
      → length d.ht0.table + length d.ht1.table + 1 < rounds
      → length (left d it) < fuel
      → (d' : Dict K V) × (visit finger rounds fuel d it ≡ some (left d it, d')) × Same d d'
  unfolding visit Gives Same
  visit_lem finger rounds zero d it ok many long = absurd (omega arith)
  visit_lem finger rounds (suc fuel) d it ok many long =
      let (d1, it1, chain, next, same, ok1, gives) =
        dict_next_lem finger rounds d it ok (omega (arith, length-ahead d it)) in
      elim gives [
        | inl (is, nothing) ↦ (d1, rw (next, ◌>>=◌) (rw (is, nothing) refl), same)
        | inr (e, es, is, lists) ↦
            let (same0, same1, busy) = same in
            let (d2, run, same') =
              visit_lem finger rounds fuel d1 it1 ok1
                (omega (arith, ap (λ t. length t.table) same0, ap (λ t. length t.table) same1))
                (omega (arith, ap length lists)) in
            (
              d2,
              rw (next, ◌>>=◌) (rw (is, lists) (rw (run, ◌>>=◌) refl)),
              Same-trans d d1 d2 same same',
            )
      ]

  entries_of-append : (s t : List (Chain K V)) → entries_of (s ++ t) ≡ entries_of s ++ entries_of t
  entries_of-append [] t = refl
  entries_of-append (b ∷ s) t =
      ap (λ l. b ++ l) (entries_of-append s t) ∙ sym (append_assoc b (entries_of s) (entries_of t))

  module _ (ty : DictType K V) where
    IsValid-IsSized : (d : Dict K V) → IsValid ty d → IsSized d
    IsValid-IsSized d ok = record {
      first = ok.first.width;
      second = ok.second.width;
      busy = λ b. elim (Option-cases d.rehashidx) [
        | inl idle ↦ absurd (cc (b, ap (λ r. elim r [ none ↦ false | some i ↦ true ]) idle))
        | inr (i, e) ↦ let (a, c, t) = ok.busy i e in omega (arith, ok.second.width)
      ];
    }

    -- Without a rehash the second table is empty.
    all-ahead :
        (d : Dict K V)
        → IsValid ty d
        → entries_of (upcoming d false 0) ≡ entries_of d.ht0.table ++ entries_of d.ht1.table
    all-ahead d ok =
        entries_of-append d.ht0.table (if is_rehashing d && true then d.ht1.table else [])
        ∙ ap (λ l. entries_of d.ht0.table ++ l)
            (elim (Option-cases d.rehashidx) [
              | inl idle ↦
                  ap
                    (λ r. entries_of (
                      if (elim r [ none ↦ false | some i ↦ true ]) && true
                      then d.ht1.table
                      else []))
                    idle
                  ∙ sym (ap (λ t. entries_of t.table) (ok.idle idle))
              | inr (i, e) ↦
                  ap
                    (λ r. entries_of (
                      if (elim r [ none ↦ false | some i' ↦ true ]) && true
                      then d.ht1.table
                      else []))
                    e
            ])

    -- On a valid dict, with more calls of dictNext than there are entries and enough rounds for each,
    -- a safe iterator gives every entry of the first table and then of the second one, in the order of
    -- the buckets, each once, and then NULL; the tables stay as they are.
    pub visit-dict_get_safe_iterator :
        (finger : Dict K V → ℕ) (garbage rounds fuel : ℕ) (d : Dict K V)
        → IsValid ty d
        → length d.ht0.table + length d.ht1.table + 1 < rounds
        → length (entries_of d.ht0.table ++ entries_of d.ht1.table) < fuel
        → (d' : Dict K V) × (visit finger rounds fuel d (dict_get_safe_iterator garbage)
            ≡ some (entries_of d.ht0.table ++ entries_of d.ht1.table, d'))
          × (d'.ht0 ≡ d.ht0)
          × (d'.ht1 ≡ d.ht1)
          × (is_rehashing d' ≡ is_rehashing d)
    unfolding Same ahead
    visit-dict_get_safe_iterator finger garbage rounds fuel d ok many long =
        let (d', run, (ht0, ht1, busy)) =
          visit_lem finger rounds fuel d (dict_get_safe_iterator garbage) (IsValid-IsSized d ok)
            many (omega (arith, ap length (all-ahead d ok))) in
        (d', run ∙ ap (λ l. some (l, d')) (all-ahead d ok), ht0, ht1, busy)
