-- ===== src/Libc.antt =====
-- What the sources use of the C library on texts, in the C locale.
use jmeter_on_k8s.Prelude.Int.{ℤ, pos, sub_ℕ}
use jmeter_on_k8s.Prelude.{
  zero, suc, ◌-◌, ℕ, ◌+◌, ◌≡◌, refl, Bool, true, false, ◌&&◌, ◌||◌, List, [], ◌∷◌, ◌==◌, leb,
  if◌then◌else◌, map, arith,
}

unfoldable pub tolower : ℕ → ℕ
tolower c = if leb b'A' c && leb c b'Z' then c + 32 else c

unfoldable pub toupper : ℕ → ℕ
toupper c = if leb b'a' c && leb c b'z' then c - 32 else c

-- The tests of ctype.h, on the bytes of a text.
unfoldable pub isspace : ℕ → Bool
isspace c = (c == 32) || (leb 9 c && leb c 13)

unfoldable pub isprint : ℕ → Bool
isprint c = leb 32 c && leb c 126

-- Whether memcmp of as many bytes as both have is 0.
unfoldable pub bytes_equal : List ℕ → List ℕ → Bool
bytes_equal [] [] = true
bytes_equal [] (b ∷ t) = false
bytes_equal (a ∷ s) [] = false
bytes_equal (a ∷ s) (b ∷ t) = (a == b) && bytes_equal s t

-- memcmp of the first n bytes of both: only the sign counts.
unfoldable pub memcmp : ℕ → List ℕ → List ℕ → ℤ
memcmp zero s t = pos 0
memcmp (suc n) [] t = pos 0
memcmp (suc n) (a ∷ s) [] = pos 0
memcmp (suc n) (a ∷ s) (b ∷ t) = if a == b then memcmp n s t else sub_ℕ a b

-- strchr(set, c) != NULL, where the NUL that ends the set counts
unfoldable pub strchr : List ℕ → ℕ → Bool
strchr [] c = c == 0
strchr (a ∷ set) c = (c == a) || strchr set c

-- The bytes in front of the first NUL, or all: what a char * to the text stands for.
unfoldable pub c_string : List ℕ → List ℕ
c_string [] = []
c_string (a ∷ s) = if a == 0 then [] else a ∷ c_string s

-- strcasecmp(a, b) == 0
unfoldable pub same_ignoring_case : List ℕ → List ℕ → Bool
same_ignoring_case a b = bytes_equal (map tolower (c_string a)) (map tolower (c_string b))

pub bytes_equal_refl : (s : List ℕ) → bytes_equal s s ≡ true
unfolding bytes_equal
bytes_equal_refl [] = refl
bytes_equal_refl (a ∷ s) = ground (arith, bytes_equal_refl s)

pub bytes_equal_sound : (s t : List ℕ) → bytes_equal s t ≡ true → s ≡ t
unfolding bytes_equal
bytes_equal_sound [] [] h = refl
bytes_equal_sound [] (b ∷ t) h = absurd (ground arith)
bytes_equal_sound (a ∷ s) [] h = absurd (ground arith)
bytes_equal_sound (a ∷ s) (b ∷ t) h = ground (arith, bytes_equal_sound s t)
