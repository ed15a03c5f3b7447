-- ===== src/Sds/Edit/Resize.antt =====
-- Of src/sds.c: sdsCopyLen and sdsGrowZero where the buffer has room.
use jmeter_on_k8s.Prelude.{
  ℕ, zero, suc, ◌+◌, ◌-◌, ◌%◌, ◌^◌, ◌≤◌, ◌<◌, ◌≡◌, refl, sym, ap, ◌∙◌, some, List, ◌∷◌, ◌++◌, ◌>>=◌,
  length, take, drop, set, get_or, replicate, arith, length-append, length-take, length-set,
  length-replicate, get_or-set_self, lt→ltb, le→ltb_false, add-one,
}
use jmeter_on_k8s.Sds.{Sdshdr}
use jmeter_on_k8s.Sds.Range.{text, IsValid, take-set}
use jmeter_on_k8s.Sds.Append.{sds_make_room_for}
use jmeter_on_k8s.Sds.Append.Room.{take-front, le→leb, length-write}
use jmeter_on_k8s.Sds.Edit.{put_text, sds_copy_len, sds_grow_zero}
use jmeter_on_k8s.Sds.Number.Reversed.{append_assoc}
use jmeter_on_k8s.Sds.Edit.Bytewise.{get_or-append}

-- A text and its NUL, written to the front of a buffer with room for them.
pub put_text_lem :
    (buf t : List ℕ) (n : ℕ)
    → n ≡ length t
    → n < length buf
    → (b : List ℕ) × (put_text buf t n ≡ some b)
      × (take n b ≡ t)
      × (length b ≡ length buf)
      × (get_or b n 1 ≡ 0)
unfolding put_text
put_text_lem buf t n is room =
    let b = t ++ drop (0 + length t) buf in
    let same : length b ≡ length buf = length-write buf t 0 (omega arith) in
    (
      set b n 0,
      rw (le→leb (0 + length t) (length buf) (omega arith), ◌>>=◌)
          (rw (lt→ltb n (length b) (omega (arith, same))) refl),
      take-set b n 0 ∙ ap (λ k. take k b) is ∙ take-front t (drop (0 + length t) buf),
      length-set b n 0 ∙ same,
      get_or-set_self b n 0 1 (omega (arith, same)),
    )

-- On a valid string whose length and free space together hold the bytes, sdsCopyLen leaves a valid
-- string with just these bytes, in a buffer as large as before.
pub sds_copy_len_lem :
    (grow : List ℕ → ℕ → List ℕ) (s : Sdshdr) (t : List ℕ)
    → IsValid s
    → length t ≤ s.len + s.free
    → (s' : Sdshdr) × (sds_copy_len grow s t ≡ some s')
      × IsValid s'
      × (text s' ≡ t)
      × (s'.len + s'.free ≡ s.len + s.free)
unfolding sds_copy_len
sds_copy_len_lem grow s t ok h =
    let (b, run, is, size, nul) = put_text_lem s.buf t (length t) refl (omega (arith, ok.fits)) in
    (
      record { len = length t; free = (s.free + s.len + (2 ^ 32 - length t)) % 2 ^ 32; buf = b },
      rw (le→ltb_false (s.free + s.len) (length t) (omega arith)) (rw (run, ◌>>=◌) refl),
      record {
        fits = omega (arith, ok.fits, ok.small, size);
        small = omega (arith, ok.small);
        nul = nul;
      },
      is,
      omega (arith, ok.small),
    )

replicate-snoc : (k : ℕ) (rest : List ℕ) → replicate (suc k) 0 ++ rest ≡ replicate k 0 ++ 0 ∷ rest
replicate-snoc zero rest = refl
replicate-snoc (suc k) rest = ap (λ l. 0 ∷ l) (replicate-snoc k rest)

zeros-last :
    (t rest : List ℕ) (k : ℕ)
    → t ++ (replicate (k + 1) 0 ++ rest) ≡ (t ++ replicate k 0) ++ 0 ∷ rest
zeros-last t rest k =
    ap (λ n. t ++ (replicate n 0 ++ rest)) (add-one k)
    ∙ ap (λ l. t ++ l) (replicate-snoc k rest)
    ∙ sym (append_assoc t (replicate k 0) (0 ∷ rest))

-- On a valid string whose free space holds the bytes that are missing, sdsGrowZero leaves a valid
-- string of the length asked for, with zeros behind the old text.
pub sds_grow_zero_lem :
    (grow : List ℕ → ℕ → List ℕ) (s : Sdshdr) (len : ℕ)
    → IsValid s
    → s.len ≤ len
    → len ≤ s.len + s.free
    → (s' : Sdshdr) × (sds_grow_zero grow s len ≡ some s')
      × IsValid s'
      × (text s' ≡ text s ++ replicate (len - s.len) 0)
      × (s'.len + s'.free ≡ s.len + s.free)
unfolding sds_grow_zero sds_make_room_for
sds_grow_zero_lem grow s len ok le room =
    let k = len - s.len in
    let z : List ℕ = replicate (k + 1) 0 in
    let rest = drop (s.len + length z) s.buf in
    let b = text s ++ (z ++ rest) in
    let long : length z ≡ k + 1 = length-replicate {A = ℕ} (k + 1) 0 in
    let size : length b ≡ length s.buf =
      length-write s.buf z s.len (omega (arith, long, ok.fits)) in
    let parts : b ≡ (text s ++ replicate k 0) ++ 0 ∷ rest = zeros-last (text s) rest k in
    let upto : len ≡ length (text s ++ replicate k 0) = omega (
      arith,
      length-append (text s) (replicate k 0),
      length-replicate {A = ℕ} k 0,
      length-take s.len s.buf,
      ok.fits,
    ) in
    (
      record { len = len; free = (s.len + s.free + (2 ^ 32 - len)) % 2 ^ 32; buf = b },
      rw (le→ltb_false len s.len le) (
          rw (le→leb (len - s.len) s.free (omega arith), ◌>>=◌)
            (rw (le→leb (s.len + length z) (length s.buf) (omega (arith, long, ok.fits)), ◌>>=◌)
              refl)),
      record {
        fits = omega (arith, size, ok.fits, ok.small);
        small = omega (arith, ok.small);
        nul =
            ap (λ l. get_or l len 1) parts
            ∙ get_or-append (text s ++ replicate k 0) (0 ∷ rest) len 1 upto;
      },
      ap (λ l. take len l) parts
          ∙ ap (λ n. take n ((text s ++ replicate k 0) ++ 0 ∷ rest)) upto
          ∙ take-front (text s ++ replicate k 0) (0 ∷ rest),
      omega (arith, ok.small),
    )
