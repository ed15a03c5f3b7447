-- ===== src/Sds/Edit/Trim/Correct.antt =====
-- sdsTrim of src/sds.c takes the bytes of a set off both ends.
use jmeter_on_k8s.Prelude.{
  ℕ, zero, suc, ◌+◌, ◌-◌, ◌%◌, ◌^◌, ◌≤◌, ◌≡◌, refl, sym, ap, ◌∙◌, some, List, [], ◌∷◌, ◌++◌, ◌>>=◌,
  length, take, drop, arith, length-append, length-take, inl, inr,
}
use jmeter_on_k8s.Sds.{Sdshdr}
use jmeter_on_k8s.Sds.Range.{text, IsValid}
use jmeter_on_k8s.Sds.Append.Room.{take-front}
use jmeter_on_k8s.Sds.Edit.{trim_start, trim_end, sds_trim}
use jmeter_on_k8s.Sds.Edit.Bytewise.{take-drop-all}
use jmeter_on_k8s.Sds.Edit.Resize.{put_text_lem}
use jmeter_on_k8s.Sds.Number.Reversed.{append_assoc}
use jmeter_on_k8s.Sds.Edit.Trim.{
  drop_start, drop_end, trim_start_lem, trim_end-total, drop_end-prefix, drop_start-cases,
  trim_end-stops,
}

drop-front : (f y : List ℕ) (n : ℕ) → n ≡ length f → drop n (f ++ y) ≡ y
drop-front [] y zero e = refl
drop-front [] y (suc n) e = absurd (omega arith)
drop-front (a ∷ f) y zero e = absurd (omega arith)
drop-front (a ∷ f) y (suc n) e = drop-front f y n (omega arith)

module _ (set : List ℕ) where
  -- Where the two loops stop on a text x with the bytes `post` behind it, and what stands between.
  trims :
      (x post : List ℕ)
      → (sp ep : ℕ) × (trim_start set (x ++ post) (length x) 0 ≡ some sp)
        × (trim_end set (x ++ post) (length x) ≡ some ep)
        × (take (ep - sp) (drop sp (x ++ post)) ≡ drop_end set (drop_start set x))
        × (ep - sp ≡ length (drop_end set (drop_start set x)))
        × (ep - sp ≤ length x)
  unfolding drop_end
  trims x post =
      let (f, run, is) = trim_start_lem set [] x post 0 refl in
      elim (drop_start-cases set x) [
        | inl nothing ↦
            let (ep, run', le) =
              trim_end-total set (x ++ post) (length x) (omega (arith, length-append x post)) in
            let all : length x ≡ length f + length (drop_start set x) =
              ap length is ∙ length-append f (drop_start set x) in
            let some_f : length x ≡ length f = all ∙ rw nothing (omega arith) in
            let left : ep - (0 + length f) ≡ 0 = omega arith in
            let empty : drop_end set (drop_start set x) ≡ [] = rw nothing refl in
            (
              0 + length f,
              ep,
              run,
              run',
              ap (λ n. take n (drop (0 + length f) (x ++ post))) left ∙ sym empty,
              left ∙ sym (ap length empty),
              omega arith,
            )
        | inr (c, t, starts, out) ↦
            let d = drop_end set (c ∷ t) in
            let (g, cut) = drop_end-prefix set (c ∷ t) in
            let whole : x ≡ f ++ c ∷ t = is ∙ ap (λ l. f ++ l) starts in
            let size : length x ≡ length f + length (c ∷ t) =
              ap length whole ∙ length-append f (c ∷ t) in
            let behind : x ++ post ≡ f ++ ((c ∷ t) ++ post) =
              ap (λ l. l ++ post) whole ∙ append_assoc f (c ∷ t) post in
            let shorter : length (c ∷ t) ≡ length d + length g =
              ap length cut ∙ length-append d g in
            let width : length f + length d - (0 + length f) ≡ length d = omega arith in
            let trimmed : drop_end set (drop_start set x) ≡ d = ap (drop_end set) starts in
            (
              0 + length f,
              length f + length d,
              run,
              ap (λ l. trim_end set l (length x)) behind
                  ∙ trim_end-stops set f t post c (length x) out size,
              ap (λ n. take n (drop (0 + length f) (x ++ post))) width
                  ∙ ap (λ l. take (length d) (drop (0 + length f) l)) behind
                  ∙ ap (take (length d))
                      (drop-front f ((c ∷ t) ++ post) (0 + length f) (omega arith))
                  ∙ ap (λ l. take (length d) (l ++ post)) cut
                  ∙ ap (take (length d)) (append_assoc d g post)
                  ∙ take-front d (g ++ post)
                  ∙ sym trimmed,
              width ∙ sym (ap length trimmed),
              omega arith,
            )
      ]

-- On a valid string, sdsTrim leaves a valid string, in the same buffer, whose text is the old one
-- without the bytes of the set at both ends; the NUL counts as a byte of the set.
pub sds_trim_lem :
    (s : Sdshdr) (c_set : List ℕ)
    → IsValid s
    → (s' : Sdshdr) × (sds_trim s c_set ≡ some s')
      × IsValid s'
      × (text s' ≡ drop_end c_set (drop_start c_set (text s)))
      × (s'.len + s'.free ≡ s.len + s.free)
unfolding sds_trim
sds_trim_lem s c_set ok =
    let rest = drop s.len s.buf in
    let whole : text s ++ rest ≡ s.buf = take-drop-all s.len s.buf in
    let long : length (text s) ≡ s.len = omega (arith, length-take s.len s.buf, ok.fits) in
    let (sp, ep, run, run', is, width, le) = trims c_set (text s) rest in
    let t = take (ep - sp) (drop sp s.buf) in
    let same : t ≡ drop_end c_set (drop_start c_set (text s)) =
      ap (λ l. take (ep - sp) (drop sp l)) (sym whole) ∙ is in
    let size : ep - sp ≡ length t = width ∙ sym (ap length same) in
    let (b, put, kept, sized, nul) =
      put_text_lem s.buf t (ep - sp) size (omega (arith, long, ok.fits)) in
    (
      record { len = ep - sp; free = (s.free + (s.len - (ep - sp))) % 2 ^ 32; buf = b },
      rw
          (
            ap (λ l. trim_start c_set l s.len 0) (sym whole)
                ∙ ap (λ n. trim_start c_set (text s ++ rest) n 0) (sym long)
                ∙ run,
            ◌>>=◌,
          )
          (rw
            (
              ap (λ l. trim_end c_set l s.len) (sym whole)
                  ∙ ap (λ n. trim_end c_set (text s ++ rest) n) (sym long)
                  ∙ run',
              ◌>>=◌,
            )
            (rw (put, ◌>>=◌) refl)),
      record {
        fits = omega (arith, sized, ok.fits, ok.small, long);
        small = omega (arith, ok.small, long);
        nul = nul;
      },
      kept ∙ same,
      omega (arith, ok.small, long),
    )
