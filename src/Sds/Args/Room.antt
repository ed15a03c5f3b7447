-- ===== src/Sds/Args/Room.antt =====
-- Of src/sds.c: sdsCatRepr on a string whose free space holds what it appends.
use jmeter_on_k8s.Prelude.{
  ℕ, ◌+◌, ◌*◌, ◌≤◌, ◌≡◌, some, List, [], ◌∷◌, ◌++◌, length, arith, length-append,
}
use jmeter_on_k8s.Sds.{Sdshdr}
use jmeter_on_k8s.Sds.Range.{text, IsValid}
use jmeter_on_k8s.Sds.Append.{sds_cat_len}
use jmeter_on_k8s.Sds.Append.Room.{sds_cat_len_lem}
use jmeter_on_k8s.Sds.Args.{escape, sds_cat_repr}
use jmeter_on_k8s.Sds.Args.RoundTrip.{Appends, escapes, quoted}
use jmeter_on_k8s.Sds.Args.Repr.{cat_repr_lem}

-- A valid string with n bytes of free space or more.
pub record HasRoom (n : ℕ) (s : Sdshdr) : Type 0 where
  pub valid : IsValid s
  pub room : n ≤ s.free

pub sds_cat_len-Appends : (grow : List ℕ → ℕ → List ℕ) → Appends (sds_cat_len grow) text HasRoom
sds_cat_len-Appends grow = record {
  cat_len_lem = λ s t n has.
      let (s', run, ok, is, size, left) =
        sds_cat_len_lem grow s t has.valid (omega (arith, has.room)) in
      (s', run, is, record { valid = ok; room = omega (arith, has.room) });
}

length-escape-le : (c : ℕ) → length (escape c) ≤ 4
unfolding escape
length-escape-le c = ground arith

length-escapes-le : (p : List ℕ) → length (escapes p) ≤ 4 * length p
length-escapes-le [] = omega arith
length-escapes-le (c ∷ p) =
    omega (arith, length-append (escape c) (escapes p), length-escape-le c, length-escapes-le p)

-- On a valid string with four bytes of free space for each byte of the text, and two more,
-- sdsCatRepr leaves a valid string with the quoted text behind what it held, whatever stands in the
-- 1024 bytes of the buffer that sdsCatVPrintf prints into.
pub sds_cat_repr_lem :
    (fresh static_buf : ℕ → List ℕ) (grow : List ℕ → ℕ → List ℕ) (s : Sdshdr) (p : List ℕ)
    → ((k : ℕ) → length (static_buf k) ≡ 1024)
    → IsValid s
    → 4 * length p + 2 ≤ s.free
    → (s' : Sdshdr) × (sds_cat_repr fresh static_buf grow s p ≡ some s')
      × IsValid s'
      × (text s' ≡ text s ++ quoted p)
sds_cat_repr_lem fresh static_buf grow s p size ok room =
    let (s', run, is, has) =
      cat_repr_lem (sds_cat_len grow) text HasRoom (sds_cat_len-Appends grow) fresh static_buf size
        p s 0 (record { valid = ok; room = omega (arith, length-escapes-le p) }) in
    (s', run, has.valid, is)
