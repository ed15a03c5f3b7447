-- ===== src/Sds/Edit/Trim.antt =====
-- The loops of sdsTrim of src/sds.c, and what is left of a text without the bytes of a set.
pub mod Correct
use jmeter_on_k8s.Prelude.{
  ℕ, zero, suc, ◌+◌, ◌-◌, ◌%◌, ◌^◌, ◌≤◌, ◌<◌, ◌≡◌, refl, sym, ap, ◌∙◌, Bool, true, false, ◌==◌,
  some, List, [], ◌∷◌, ◌++◌, ◌>>=◌, length, take, drop, get_elem?, get_or, get_elem?-get_or, arith,
  length-append, length-take, length-drop, Bool-cases, inl, inr, ◌⊎◌, add-one,
}
use jmeter_on_k8s.Libc.{strchr}
use jmeter_on_k8s.Sds.{Sdshdr}
use jmeter_on_k8s.Sds.Range.{text, IsValid}
use jmeter_on_k8s.Sds.Append.Room.{take-front}
use jmeter_on_k8s.Sds.Edit.{trim_start, trim_end, put_text, sds_trim}
use jmeter_on_k8s.Sds.Edit.Bytewise.{take-drop-all}
use jmeter_on_k8s.Sds.Edit.Resize.{put_text_lem}
use jmeter_on_k8s.Sds.Number.Reversed.{append_assoc, get_elem?-append}

-- The text without the bytes of the set at its start, and at its end.
unfoldable pub drop_start : List ℕ → List ℕ → List ℕ
drop_start set [] = []
drop_start set (c ∷ t) = elim (strchr set c) [ true ↦ drop_start set t | false ↦ c ∷ t ]

abbrev pub add_first : Bool → ℕ → List ℕ → List ℕ
add_first true c [] = []
add_first false c [] = c ∷ []
add_first b c (d ∷ t) = c ∷ d ∷ t

unfoldable pub drop_end : List ℕ → List ℕ → List ℕ
drop_end set [] = []
drop_end set (c ∷ t) = add_first (strchr set c) c (drop_end set t)

module _ (set : List ℕ) where
  drop_start-in :
      (c : ℕ) (t : List ℕ) → strchr set c ≡ true → drop_start set (c ∷ t) ≡ drop_start set t
  unfolding drop_start
  drop_start-in c t e = rw (e, drop_start) refl

  drop_start-out : (c : ℕ) (t : List ℕ) → strchr set c ≡ false → drop_start set (c ∷ t) ≡ c ∷ t
  unfolding drop_start
  drop_start-out c t e = rw (e, drop_start) refl

  -- sp stops behind a part f of the text, and what follows f is the text without its start.
  pub trim_start_lem :
      (before x post : List ℕ) (sp : ℕ)
      → sp ≡ length before
      → (f : List ℕ) × (trim_start set (before ++ (x ++ post)) (length x) sp ≡ some (sp + length f))
        × (x ≡ f ++ drop_start set x)
  unfolding trim_start drop_start
  trim_start_lem before [] post sp e = ([], ap some (omega arith), refl)
  trim_start_lem before (c ∷ x) post sp e = elim (Bool-cases (strchr set c)) [
    | inl y ↦
        let (f, run, is) =
          trim_start_lem (before ++ c ∷ []) x post (sp + 1)
            (omega (arith, length-append before (c ∷ []))) in
        (
          c ∷ f,
          rw (get_elem?-append before (x ++ post) c sp e, ◌>>=◌)
              (rw y (
                ap (λ l. trim_start set l (length x) (sp + 1))
                  (sym (append_assoc before (c ∷ []) (x ++ post)))
                ∙ run
                ∙ ap some (omega arith))),
          ap (λ l. c ∷ l) (is ∙ ap (λ l. f ++ l) (sym (drop_start-in c x y))),
        )
    | inr n ↦ (
      [],
      rw (get_elem?-append before (x ++ post) c sp e, ◌>>=◌) (rw n (ap some (omega arith))),
      sym (drop_start-out c x n),
    )
  ]

  -- One round of the second loop.
  end_round :
      (before post : List ℕ) (c : ℕ) (b : Bool)
      → 1 ≤ length before
      → strchr set c ≡ b
      → trim_end set (before ++ c ∷ post) (suc (length before)) ≡ (elim b [
        | true ↦ trim_end set (before ++ c ∷ post) (length before)
        | false ↦ some (suc (length before))
      ])
  unfolding trim_end
  end_round before post c b some_before e =
      let nz : (length before == 0) ≡ false = ground arith in
      rw (nz, trim_end)
        (rw (get_elem?-append before post c (length before) refl, ◌>>=◌) (rw e refl))

  add_first-nonempty : (c : ℕ) (t : List ℕ) (b : Bool) → 1 ≤ length t → add_first b c t ≡ c ∷ t
  add_first-nonempty c [] b h = absurd (omega arith)
  add_first-nonempty c (d ∷ t) true h = refl
  add_first-nonempty c (d ∷ t) false h = refl

  -- What is left of a part x behind the bytes of `before`: nothing, and ep goes on there, or ep stops.
  trim_end_lem :
      (before x post : List ℕ) (ep : ℕ)
      → 1 ≤ length before
      → ep ≡ length before + length x
      → ((drop_end set x ≡ [])
          × (trim_end set (before ++ (x ++ post)) ep
              ≡ trim_end set (before ++ (x ++ post)) (length before)))
        ⊎ ((1 ≤ length (drop_end set x))
            × (trim_end set (before ++ (x ++ post)) ep
                ≡ some (length before + length (drop_end set x))))
  unfolding drop_end
  trim_end_lem before [] post ep some_before e =
      inl (refl, ap (λ n. trim_end set (before ++ post) n) (omega arith))
  trim_end_lem before (c ∷ x) post ep some_before e =
      let one = length-append before (c ∷ []) in
      let here = append_assoc before (c ∷ []) (x ++ post) in
      elim (trim_end_lem (before ++ c ∷ []) x post ep (omega (arith, one)) (omega (arith, one))) [
        | inl (none_left, run) ↦
            let reach : trim_end set (before ++ c ∷ (x ++ post)) ep
                ≡ trim_end set (before ++ c ∷ (x ++ post)) (suc (length before)) =
              ap (λ l. trim_end set l ep) (sym here)
              ∙ run
              ∙ ap (λ l. trim_end set l (length (before ++ c ∷ []))) here
              ∙ ap (λ n. trim_end set (before ++ c ∷ (x ++ post)) n) (omega (arith, one)) in
            elim (Bool-cases (strchr set c)) [
              | inl y ↦ inl (
                rw (none_left, y) refl,
                reach ∙ end_round before (x ++ post) c true some_before y,
              )
              | inr n ↦ inr (
                rw (none_left, n) (omega arith),
                rw (none_left, n)
                    (reach
                      ∙ end_round before (x ++ post) c false some_before n
                      ∙ ap some (omega arith)),
              )
            ]
        | inr (some_left, run) ↦
            let grows = add_first-nonempty c (drop_end set x) (strchr set c) some_left in
            inr (
              rw grows (omega arith),
              rw grows
                  (ap (λ l. trim_end set l ep) (sym here) ∙ run ∙ ap some (omega (arith, one))),
            )
      ]

  -- ep stays inside the text.
  pub trim_end-total :
      (buf : List ℕ) (n : ℕ) → n ≤ length buf → (m : ℕ) × (trim_end set buf n ≡ some m) × (m ≤ n)
  unfolding trim_end
  trim_end-total buf zero h = (0, refl, omega arith)
  trim_end-total buf (suc n) h = elim (Bool-cases (n == 0)) [
    | inl z ↦ (1, rw (z, trim_end) refl, omega arith)
    | inr nz ↦ elim (Bool-cases (strchr set (get_or buf n 0))) [
      | inl y ↦
          let (m, run, le) = trim_end-total buf n (omega arith) in
          (
            m,
            rw (nz, trim_end) (rw (get_elem?-get_or buf n 0 (omega arith), ◌>>=◌) (rw y run)),
            omega arith,
          )
      | inr no' ↦ (
        suc n,
        rw (nz, trim_end) (rw (get_elem?-get_or buf n 0 (omega arith), ◌>>=◌) (rw no' refl)),
        omega arith,
      )
    ]
  ]

  add_first-prefix :
      (b : Bool) (c : ℕ) (t x g : List ℕ)
      → x ≡ t ++ g
      → (g' : List ℕ) × (c ∷ x ≡ add_first b c t ++ g')
  add_first-prefix true c [] x g e = (c ∷ x, refl)
  add_first-prefix false c [] x g e = (x, refl)
  add_first-prefix true c (d ∷ t) x g e = (g, ap (λ l. c ∷ l) e)
  add_first-prefix false c (d ∷ t) x g e = (g, ap (λ l. c ∷ l) e)

  pub drop_end-prefix : (x : List ℕ) → (g : List ℕ) × (x ≡ drop_end set x ++ g)
  unfolding drop_end
  drop_end-prefix [] = ([], refl)
  drop_end-prefix (c ∷ x) =
      let (g, is) = drop_end-prefix x in add_first-prefix (strchr set c) c (drop_end set x) x g is

  -- A text without the bytes at its start is empty or starts with another byte.
  pub drop_start-cases :
      (x : List ℕ)
      → (drop_start set x ≡ [])
        ⊎ ((c : ℕ) × (t : List ℕ) × (drop_start set x ≡ c ∷ t) × (strchr set c ≡ false))
  unfolding drop_start
  drop_start-cases [] = inl refl
  drop_start-cases (c ∷ x) = elim (Bool-cases (strchr set c)) [
    | inl y ↦ rw (drop_start-in c x y) (drop_start-cases x)
    | inr no' ↦ inr (c, x, drop_start-out c x no', no')
  ]

  stops_here :
      (f post : List ℕ) (c : ℕ)
      → strchr set c ≡ false
      → trim_end set (f ++ c ∷ post) (suc (length f)) ≡ some (suc (length f))
  unfolding trim_end
  stops_here [] post c out = refl
  stops_here (a ∷ f) post c out = end_round (a ∷ f) post c false (omega arith) out

  -- ep for a text whose first byte behind `f` is not in the set: just behind the trimmed text.
  pub trim_end-stops :
      (f t post : List ℕ) (c n : ℕ)
      → strchr set c ≡ false
      → n ≡ length f + length (c ∷ t)
      → trim_end set (f ++ ((c ∷ t) ++ post)) n ≡ some (length f + length (drop_end set (c ∷ t)))
  unfolding drop_end
  trim_end-stops f t post c n out e =
      let one = length-append f (c ∷ []) in
      let here = append_assoc f (c ∷ []) (t ++ post) in
      elim (trim_end_lem (f ++ c ∷ []) t post n (omega (arith, one)) (omega (arith, one))) [
        | inl (none_left, run) ↦
            rw (none_left, out)
              (ap (λ l. trim_end set l n) (sym here)
                ∙ run
                ∙ ap (λ l. trim_end set l (length (f ++ c ∷ []))) here
                ∙ ap (λ k. trim_end set (f ++ c ∷ (t ++ post)) k) (omega (arith, one))
                ∙ stops_here f (t ++ post) c out
                ∙ ap some (omega arith))
        | inr (some_left, run) ↦
            rw (add_first-nonempty c (drop_end set t) (strchr set c) some_left)
              (ap (λ l. trim_end set l n) (sym here) ∙ run ∙ ap some (omega (arith, one)))
      ]
