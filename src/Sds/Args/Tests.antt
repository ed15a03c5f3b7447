-- ===== src/Sds/Args/Tests.antt =====
-- The theorems on the arguments of src/sds.c at two short texts, one of them with special bytes.
use jmeter_on_k8s.Prelude.{
  ℕ, ◌-◌, ◌≡◌, refl, some, none, List, [], ◌∷◌, ◌++◌, map, replicate, length, take, arith,
  length-append, length-replicate, length-take,
}
use jmeter_on_k8s.Libc.{isspace}
use jmeter_on_k8s.Sds.{Sdshdr}
use jmeter_on_k8s.Sds.Range.{text, IsValid}
use jmeter_on_k8s.Sds.Append.{sds_cat_len}
use jmeter_on_k8s.Sds.Args.{sds_cat_repr, sds_split_args, vector}
use jmeter_on_k8s.Sds.Args.RoundTrip.{quoted, line_of}
use jmeter_on_k8s.Sds.Args.Room.{sds_cat_repr_lem}
use jmeter_on_k8s.Sds.Args.Split.{Texts, IsPlain, sds_split_args_lem, sds_split_args-overruns}

-- A block of n bytes that holds what the old one held.
abbrev grow : List ℕ → ℕ → List ℕ
grow b n = take n b ++ replicate (n - length (take n b)) 0

grow_lem : (b : List ℕ) (n : ℕ) → length (grow b n) ≡ n
grow_lem b n = omega (
  arith,
  length-append (take n b) (replicate (n - length (take n b)) 0),
  length-replicate {A = ℕ} (n - length (take n b)) 0,
  length-take n b,
)

abbrev zeros : ℕ → List ℕ
zeros n = replicate n 0

abbrev static_buf : ℕ → List ℕ
static_buf k = replicate 1024 k

abbrev roomy : Sdshdr
roomy = record { len = 0; free = 20; buf = replicate 21 0 }

roomy-IsValid : IsValid roomy
roomy-IsValid = record { fits = omega arith; small = omega arith; nul = refl }

-- a text of a quote, a line feed and the byte 200
abbrev special : List ℕ
special = 34 ∷ 10 ∷ 200 ∷ []

-- s, and a quote with the byte 200
abbrev letter : List ℕ
letter = b's' ∷ []

abbrev pair : List ℕ
pair = 34 ∷ 200 ∷ []

two-Texts : Texts (letter ∷ pair ∷ [])
two-Texts = ((omega arith, tt), omega arith, ((omega arith, (omega arith, tt)), omega arith, tt))

s-IsPlain : IsPlain b's'
unfolding isspace
s-IsPlain = (refl, refl, refl, refl)

e-IsPlain : IsPlain b'e'
unfolding isspace
e-IsPlain = (refl, refl, refl, refl)

t-IsPlain : IsPlain b't'
unfolding isspace
t-IsPlain = (refl, refl, refl, refl)

sds_cat_repr_lem_example :
    (s : Sdshdr) × (sds_cat_repr zeros static_buf grow roomy special ≡ some s)
    × IsValid s
    × (text s ≡ quoted special)
sds_cat_repr_lem_example =
    sds_cat_repr_lem zeros static_buf grow roomy special (λ k. length-replicate 1024 k)
      roomy-IsValid (omega arith)

sds_split_args_lem_example :
    (args : List Sdshdr) × (sds_split_args zeros grow (line_of (letter ∷ pair ∷ []))
      ≡ some (vector (sds_cat_len grow) args))
    × (map text args ≡ letter ∷ pair ∷ [])
sds_split_args_lem_example =
    sds_split_args_lem zeros grow (letter ∷ pair ∷ []) (λ k. length-replicate k 0) grow_lem
      two-Texts

-- set k
sds_split_args-overruns_example :
    sds_split_args zeros grow (b's' ∷ b'e' ∷ b't' ∷ 32 ∷ b'k' ∷ []) ≡ none
sds_split_args-overruns_example =
    sds_split_args-overruns zeros grow b's' b'e' b't' (32 ∷ b'k' ∷ []) (λ k. length-replicate k 0)
      grow_lem s-IsPlain e-IsPlain t-IsPlain
