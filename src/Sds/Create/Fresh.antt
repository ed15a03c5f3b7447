-- ===== src/Sds/Create/Fresh.antt =====
-- What the functions of src/sds.c that make a string give, where a new block has the size asked for.
use jmeter_on_k8s.Prelude.{
  ℕ, ◌+◌, ◌≤◌, ◌<◌, ◌^◌, ◌≡◌, refl, sym, ap, ◌∙◌, some, List, ◌++◌, ◌>>=◌, length, take, drop, set,
  get_or, arith, length-take, length-set, get_or-set_self, lt→ltb,
}
use jmeter_on_k8s.Prelude.Int.{ℤ}
use jmeter_on_k8s.Sds.{Sdshdr}
use jmeter_on_k8s.Sds.Range.{text, IsValid, take-set}
use jmeter_on_k8s.Sds.Append.Room.{take-front, le→leb, length-write}
use jmeter_on_k8s.Sds.Create.{copy_init, sds_new_len, sds_dup, sds_from_long_long}
use jmeter_on_k8s.Sds.Number.{abs}
use jmeter_on_k8s.Sds.Number.Decimal.{read_number}
use jmeter_on_k8s.Sds.Number.Printed.{sds112str_lem}

pub copy_init_lem :
    (buf init : List ℕ) (n : ℕ)
    → n ≤ length init
    → length buf ≡ n + 1
    → (b : List ℕ) × (copy_init buf init n ≡ some b)
      × (take n b ≡ take n init)
      × (length b ≡ n + 1)
      × (get_or b n 1 ≡ 0)
unfolding copy_init
copy_init_lem buf init n le size =
    let t = take n init in
    let b = t ++ drop (0 + length t) buf in
    let long : length t ≡ n = omega (arith, length-take n init) in
    let same : length b ≡ n + 1 = omega (arith, length-write buf t 0 (omega (arith, long))) in
    (
      set b n 0,
      rw (le→leb n (length init) le) (
          rw (le→leb (0 + length t) (length buf) (omega (arith, long)), ◌>>=◌)
            (rw (lt→ltb n (length b) (omega (arith, same))) refl)),
      take-set b n 0 ∙ ap (λ k. take k b) (sym long) ∙ take-front t (drop (0 + length t) buf),
      omega (arith, length-set b n 0, same),
      get_or-set_self b n 0 1 (omega (arith, same)),
    )

-- On blocks of the size asked for, sdsNewLen makes a valid string of the first `init_len` bytes.
pub sds_new_len_lem :
    (fresh : ℕ → List ℕ) (init : List ℕ) (n : ℕ)
    → ((k : ℕ) → length (fresh k) ≡ k)
    → n ≤ length init
    → n < 2 ^ 31
    → (s : Sdshdr) × (sds_new_len fresh (some init) n ≡ some s)
      × IsValid s
      × (text s ≡ take n init)
      × (s.len ≡ n)
unfolding sds_new_len
sds_new_len_lem fresh init n sizes le small =
    let (b, run, same, size, nul) = copy_init_lem (fresh (n + 1)) init n le (sizes (n + 1)) in
    (
      record { len = n; free = 0; buf = b },
      rw (run, ◌>>=◌) refl,
      record { fits = omega (arith, size); small = omega arith; nul = nul },
      same,
      refl,
    )

-- sdsDup of a valid string gives a valid string with the same text.
pub sds_dup_lem :
    (fresh : ℕ → List ℕ) (s : Sdshdr)
    → ((k : ℕ) → length (fresh k) ≡ k)
    → IsValid s
    → (t : Sdshdr) × (sds_dup fresh s ≡ some t) × IsValid t × (text t ≡ text s)
unfolding sds_dup
sds_dup_lem fresh s sizes ok =
    let (t, made, ok', same, len) =
      sds_new_len_lem fresh s.buf s.len sizes (omega (arith, ok.fits)) (omega (arith, ok.small)) in
    (t, made, ok', same)

-- sdsFromLongLong gives, for a number of 64 bits other than the least one, a valid string of at most
-- 20 bytes from which the strict decimal reading with a sign gives the number back.
pub sds_from_long_long_lem :
    (fresh : ℕ → List ℕ) (garbage : List ℕ) (value : ℤ)
    → ((k : ℕ) → length (fresh k) ≡ k)
    → length garbage ≡ 21
    → abs value < 2 ^ 63
    → (s : Sdshdr) × (sds_from_long_long fresh garbage value ≡ some s)
      × IsValid s
      × (read_number (text s) ≡ some value)
      × (s.len ≤ 20)
unfolding sds_from_long_long
sds_from_long_long_lem fresh garbage value sizes size small =
    let (buf, l, run, reads, nul, few, same) = sds112str_lem garbage value small (omega arith) in
    let (s, made, ok, is, len) =
      sds_new_len_lem fresh buf l sizes (omega (arith, size)) (omega arith) in
    (s, rw (run, ◌>>=◌) made, ok, ap read_number is ∙ reads, omega arith)
