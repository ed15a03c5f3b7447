-- ===== src/Sds/Append/Room.antt =====
-- sdsCatLen of src/sds.c with and without enough free space.
use jmeter_on_k8s.Prelude.{
  ℕ, zero, suc, ◌+◌, ◌-◌, ◌*◌, ◌%◌, ◌^◌, ◌≤◌, ◌<◌, ◌≡◌, refl, ap, ◌∙◌, true, false, some, List, [],
  ◌∷◌, ◌++◌, ltb, leb, if◌then◌else◌, ◌>>=◌, length, take, drop, set, arith, length-append,
  length-take, length-drop, length-set, get_or-set_self, lt→ltb,
}
use jmeter_on_k8s.Sds.{Sdshdr}
use jmeter_on_k8s.Sds.Range.{text, IsValid, take-set}
use jmeter_on_k8s.Sds.Append.{max_pre_alloc, sds_make_room_for, sds_cat_len}

pub le→leb : (a b : ℕ) → a ≤ b → leb a b ≡ true
le→leb a b h = ground arith

pub gt→leb_false : (a b : ℕ) → b < a → leb a b ≡ false
gt→leb_false a b h = ground arith

pub take-front : (t c : List ℕ) → take (length t) (t ++ c) ≡ t
take-front [] c = refl
take-front (a ∷ t) c = ap (λ l. a ∷ l) (take-front t c)

take-both :
    (b t c : List ℕ) (i k : ℕ)
    → i ≤ length b
    → k ≡ i + length t
    → take k (take i b ++ (t ++ c)) ≡ take i b ++ t
take-both b t c zero k h e = let k_is : k ≡ length t = omega arith in rw k_is (take-front t c)
take-both [] t c (suc i) k h e = absurd (omega arith)
take-both (a ∷ b) t c (suc i) zero h e = absurd (omega arith)
take-both (a ∷ b) t c (suc i) (suc k) h e =
    ap (λ l. a ∷ l) (take-both b t c i k (omega arith) (omega arith))

pub take-write :
    (b t c : List ℕ) (i : ℕ)
    → i ≤ length b
    → take (i + length t) (take i b ++ (t ++ c)) ≡ take i b ++ t
take-write b t c i h = take-both b t c i (i + length t) h refl

pub length-write :
    (b t : List ℕ) (i : ℕ)
    → i + length t ≤ length b
    → length (take i b ++ (t ++ drop (i + length t) b)) ≡ length b
length-write b t i h = omega (
  arith,
  length-append (take i b) (t ++ drop (i + length t) b),
  length-append t (drop (i + length t) b),
  length-take i b,
  length-drop (i + length t) b,
)

-- On a valid string whose free space holds the bytes, sdsCatLen appends them in place: the result
-- is valid, its text is the old one followed by the bytes, the buffer is as large as before, and the
-- free space is less by their number.
pub sds_cat_len_lem :
    (grow : List ℕ → ℕ → List ℕ) (s : Sdshdr) (t : List ℕ)
    → IsValid s
    → length t ≤ s.free
    → (s' : Sdshdr) × (sds_cat_len grow s t ≡ some s')
      × IsValid s'
      × (text s' ≡ text s ++ t)
      × (length s'.buf ≡ length s.buf)
      × (s'.free + length t ≡ s.free)
unfolding sds_cat_len sds_make_room_for
sds_cat_len_lem grow s t ok h =
    let n = s.len + length t in
    let b = take s.len s.buf ++ (t ++ drop n s.buf) in
    let size = length-write s.buf t s.len (omega (arith, ok.fits)) in
    (
      record { len = n; free = (s.free + (2 ^ 32 - length t)) % 2 ^ 32; buf = set b n 0 },
      rw (le→leb (length t) s.free h, ◌>>=◌)
          (rw (le→leb n (length s.buf) (omega (arith, ok.fits)), ◌>>=◌)
            (rw (lt→ltb n (length b) (omega (arith, ok.fits)), ◌>>=◌) refl)),
      record {
        fits = omega (arith, ok.fits, ok.small, length-set b n 0);
        small = omega (arith, ok.small);
        nul = get_or-set_self b n 0 1 (omega (arith, ok.fits));
      },
      take-set b n 0 ∙ take-write s.buf t (drop n s.buf) s.len (omega (arith, ok.fits)),
      length-set b n 0 ∙ size,
      omega (arith, h, ok.small),
    )

-- When the free space of a valid string does not hold the bytes, and the grown block has the size
-- that was asked for, sdsCatLen writes inside it, but the string it returns claims more free space
-- than the whole buffer has: the old free space less the number of bytes, modulo 2 ^ 32. The lengths
-- add up to less than 2 ^ 29.
pub sds_cat_len_wraps :
    (grow : List ℕ → ℕ → List ℕ) (s : Sdshdr) (t : List ℕ)
    → IsValid s
    → s.free < length t
    → s.len + length t < 2 ^ 29
    → ((n : ℕ) → length (grow s.buf n) ≡ n)
    → (s' : Sdshdr) × (sds_cat_len grow s t ≡ some s')
      × (s'.free + length t ≡ s.free + 2 ^ 32)
      × (length s'.buf < s'.free)
unfolding sds_cat_len sds_make_room_for
sds_cat_len_wraps grow s t ok h small sized =
    let n = s.len + length t in
    let room = (if ltb n max_pre_alloc then n * 2 else n + max_pre_alloc) + 1 in
    let fits : n < room = ground arith in
    let bounded : room < 2 ^ 31 = ground arith in
    let b = take s.len (grow s.buf room) ++ (t ++ drop n (grow s.buf room)) in
    let size = length-write (grow s.buf room) t s.len (omega (arith, sized room)) in
    (
      record { len = n; free = (s.free + (2 ^ 32 - length t)) % 2 ^ 32; buf = set b n 0 },
      rw (gt→leb_false (length t) s.free h, ◌>>=◌)
          (rw (le→leb n (length (grow s.buf room)) (omega (arith, sized room)), ◌>>=◌)
            (rw (lt→ltb n (length b) (omega (arith, sized room)), ◌>>=◌) refl)),
      omega arith,
      omega (arith, length-set b n 0, sized room),
    )
