-- ===== src/Sds/Args/Short.antt =====
-- Of src/sds.c: sdsSplitArgs with the strings it starts its arguments with. sdsEmpty has no free
-- space, so the first sdsCatLen of an argument grows it, and what it then claims to have is wrong:
-- two bytes fit, a third one is written behind the buffer.
use jmeter_on_k8s.Prelude.{
  ℕ, ◌+◌, ◌-◌, ◌*◌, ◌%◌, ◌^◌, ◌≤◌, ◌<◌, ◌≡◌, refl, sym, ap, ◌∙◌, true, false, some, List, [], ◌∷◌,
  ◌++◌, ltb, leb, ◌>>=◌, ◌⊎◌, inl, inr, length, take, drop, set, arith, length-set, lt→ltb,
}
use jmeter_on_k8s.Sds.{Sdshdr}
use jmeter_on_k8s.Sds.Range.{text, take-set}
use jmeter_on_k8s.Sds.Append.{max_pre_alloc, sds_make_room_for, sds_cat_len}
use jmeter_on_k8s.Sds.Append.Room.{le→leb, gt→leb_false, take-write, length-write}
use jmeter_on_k8s.Sds.Args.RoundTrip.{Appends}

-- A string as sdsEmpty makes it.
pub record Blank (s : Sdshdr) : Type 0 where
  pub none_used : s.len ≡ 0
  pub none_free : s.free ≡ 0
  pub nul_fits : 1 ≤ length s.buf

-- A string that sdsCatLen has grown once: the buffer has three bytes, and `free` has wrapped around.
pub record Wrapped (s : Sdshdr) : Type 0 where
  pub some_used : 1 ≤ s.len
  pub wrapped : s.free + s.len ≡ 2 ^ 32
  pub three_fit : 3 ≤ length s.buf

-- A string of either kind that n bytes may be appended to.
pub record Tiny (n : ℕ) (s : Sdshdr) : Type 0 where
  pub two : s.len + n ≤ 2
  pub kind : Blank s ⊎ Wrapped s

-- sdsCatLen when sdsMakeRoomFor leaves the buffer b.
pub cat_in :
    (grow : List ℕ → ℕ → List ℕ) (s : Sdshdr) (t b : List ℕ)
    → sds_make_room_for grow s (length t) ≡ record s { buf = b }
    → s.len + length t < length b
    → (s' : Sdshdr) × (sds_cat_len grow s t ≡ some s')
      × (text s' ≡ take s.len b ++ t)
      × (length s'.buf ≡ length b)
      × (s'.len ≡ s.len + length t)
      × (s'.free ≡ (s.free + (2 ^ 32 - length t)) % 2 ^ 32)
unfolding sds_cat_len
cat_in grow s t b made fits =
    let n = s.len + length t in
    let w = take s.len b ++ (t ++ drop n b) in
    let size = length-write b t s.len (omega (arith, fits)) in
    (
      record { len = n; free = (s.free + (2 ^ 32 - length t)) % 2 ^ 32; buf = set w n 0 },
      rw made (
          rw (le→leb n (length b) (omega (arith, fits)), ◌>>=◌)
            (rw (lt→ltb n (length w) (omega (arith, fits)), ◌>>=◌) refl)),
      take-set w n 0 ∙ take-write b t (drop n b) s.len (omega (arith, fits)),
      length-set w n 0 ∙ size,
      refl,
      refl,
    )

pub keeps_buffer :
    (grow : List ℕ → ℕ → List ℕ) (s : Sdshdr) (n : ℕ) → n ≤ s.free → sds_make_room_for grow s n ≡ s
unfolding sds_make_room_for
keeps_buffer grow s n h = rw (le→leb n s.free h) refl

-- The block that the first bytes of an argument get.
pub first_block :
    (grow : List ℕ → ℕ → List ℕ) (s : Sdshdr) (n : ℕ)
    → Blank s
    → 1 ≤ n
    → n ≤ 2
    → sds_make_room_for grow s n ≡ record s { buf = grow s.buf (n * 2 + 1) }
unfolding sds_make_room_for
first_block grow s n blank lo hi =
    let full : leb n s.free ≡ false = gt→leb_false n s.free (omega (arith, blank.none_free)) in
    let small : ltb (s.len + n) max_pre_alloc ≡ true =
      lt→ltb (s.len + n) max_pre_alloc (omega (arith, blank.none_used)) in
    let size : (s.len + n) * 2 + 1 ≡ n * 2 + 1 = omega (arith, blank.none_used) in
    rw full (rw small (ap (λ k. record s { buf = grow s.buf k }) size))

module _ (grow : List ℕ → ℕ → List ℕ) (sized : (b : List ℕ) (n : ℕ) → length (grow b n) ≡ n) where
  cat_nothing :
      (s : Sdshdr) (n : ℕ)
      → Tiny (0 + n) s
      → (s' : Sdshdr) × (sds_cat_len grow s [] ≡ some s') × (text s' ≡ text s ++ []) × Tiny n s'
  cat_nothing s n tiny =
      let fits : s.len + 0 < length s.buf = elim tiny.kind [
        | inl blank ↦ omega (arith, blank.none_used, blank.nul_fits)
        | inr wrapped ↦ omega (arith, tiny.two, wrapped.three_fit)
      ] in
      let (s', run, is, size, len, free) =
        cat_in grow s [] s.buf (keeps_buffer grow s 0 (omega arith)) fits in
      (
        s',
        run,
        is,
        record {
          two = omega (arith, len, tiny.two);
          kind = elim tiny.kind [
            | inl blank ↦ inl (record {
              none_used = omega (arith, len, blank.none_used);
              none_free = omega (arith, free, blank.none_free);
              nul_fits = omega (arith, size, blank.nul_fits);
            })
            | inr wrapped ↦ inr (record {
              some_used = omega (arith, len, wrapped.some_used);
              wrapped = omega (arith, free, len, wrapped.wrapped, wrapped.some_used);
              three_fit = omega (arith, size, wrapped.three_fit);
            })
          ];
        },
      )

  sds_cat_len-Blank :
      (s : Sdshdr) (c : ℕ) (t : List ℕ) (n : ℕ)
      → Tiny (length (c ∷ t) + n) s
      → Blank s
      → (s' : Sdshdr) × (sds_cat_len grow s (c ∷ t) ≡ some s')
        × (text s' ≡ text s ++ c ∷ t)
        × Tiny n s'
  sds_cat_len-Blank s c t n tiny blank =
      let k = length (c ∷ t) in
      let b = grow s.buf (k * 2 + 1) in
      let made =
        first_block grow s k blank (omega arith) (omega (arith, tiny.two, blank.none_used)) in
      let (s', run, is, size, len, free) =
        cat_in grow s (c ∷ t) b made (omega (arith, blank.none_used, sized s.buf (k * 2 + 1))) in
      (
        s',
        run,
        is
            ∙ ap (λ i. take i b ++ c ∷ t) blank.none_used
            ∙ ap (λ i. take i s.buf ++ c ∷ t) (sym blank.none_used),
        record {
          two = omega (arith, len, tiny.two);
          kind = inr (record {
            some_used = omega (arith, len);
            wrapped = omega (arith, len, free, tiny.two, blank.none_used, blank.none_free);
            three_fit = omega (arith, size, sized s.buf (k * 2 + 1));
          });
        },
      )

  sds_cat_len-Wrapped :
      (s : Sdshdr) (t : List ℕ) (n : ℕ)
      → Tiny (length t + n) s
      → Wrapped s
      → (s' : Sdshdr) × (sds_cat_len grow s t ≡ some s') × (text s' ≡ text s ++ t) × Tiny n s'
  sds_cat_len-Wrapped s t n tiny wrapped =
      let (s', run, is, size, len, free) =
        cat_in grow s t s.buf
          (keeps_buffer grow s (length t) (omega (arith, tiny.two, wrapped.wrapped)))
          (omega (arith, tiny.two, wrapped.three_fit)) in
      (
        s',
        run,
        is,
        record {
          two = omega (arith, len, tiny.two);
          kind = inr (record {
            some_used = omega (arith, len, wrapped.some_used);
            wrapped = omega (arith, free, len, tiny.two, wrapped.wrapped, wrapped.some_used);
            three_fit = omega (arith, size, wrapped.three_fit);
          });
        },
      )

  -- sdsCatLen keeps its contract as long as an argument has at most two bytes.
  pub sds_cat_len-Appends_two : Appends (sds_cat_len grow) text Tiny
  sds_cat_len-Appends_two = record { cat_len_lem = λ s t n tiny. cat_tiny s t n tiny tiny.kind }
    where
      cat_tiny :
          (s : Sdshdr) (t : List ℕ) (n : ℕ)
          → Tiny (length t + n) s
          → Blank s ⊎ Wrapped s
          → (s' : Sdshdr) × (sds_cat_len grow s t ≡ some s') × (text s' ≡ text s ++ t) × Tiny n s'
      cat_tiny s [] n tiny kind = cat_nothing s n tiny
      cat_tiny s (c ∷ t) n tiny (inl blank) = sds_cat_len-Blank s c t n tiny blank
      cat_tiny s (c ∷ t) n tiny (inr wrapped) = sds_cat_len-Wrapped s (c ∷ t) n tiny wrapped
