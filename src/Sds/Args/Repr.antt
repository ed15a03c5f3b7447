-- ===== src/Sds/Args/Repr.antt =====
-- sdsCatRepr of src/sds.c appends the quoted bytes of a text, through sdsCatPrintf for all but the
-- letters of C's escapes.
use jmeter_on_k8s.Prelude.{
  ℕ, ◌+◌, ◌/◌, ◌%◌, ◌≡◌, refl, sym, ap, ◌∙◌, true, false, ◌||◌, Option, some, List, [], ◌∷◌, ◌++◌,
  ◌==◌, ◌>>=◌, length, arith, length-append,
}
use jmeter_on_k8s.Libc.{isprint}
use jmeter_on_k8s.Sds.Printf.{cat_printf}
use jmeter_on_k8s.Sds.Printf.Short.{NoNul, cat_vprintf_lem}
use jmeter_on_k8s.Sds.Number.Reversed.{append_assoc}
use jmeter_on_k8s.Sds.Args.{
  escape, hex_digit, Format, backslash_char, plain_char, hex_char, format_text, printed, repr_byte,
  repr_loop, cat_repr,
}
use jmeter_on_k8s.Sds.Args.RoundTrip.{Appends, escapes, quoted, append-nil, same_room}

hex_digit-not_nul : (n : ℕ) → (hex_digit n == 0) ≡ false
hex_digit-not_nul n = ground arith

-- A byte that is 0 is not printed.
printed-NoNul : (f : Format) (c : ℕ) → (c == 0) ≡ false → NoNul (printed f c)
printed-NoNul backslash_char c h = (refl, (h, tt))
printed-NoNul plain_char c h = (h, tt)
printed-NoNul hex_char c h =
    (refl, (refl, (hex_digit-not_nul (c / 16), (hex_digit-not_nul (c % 16), tt))))

printed_hex-NoNul : (c : ℕ) → NoNul (printed hex_char c)
printed_hex-NoNul c = (refl, (refl, (hex_digit-not_nul (c / 16), (hex_digit-not_nul (c % 16), tt))))

special_not_nul : (c : ℕ) → ((c == 92) || (c == 34)) ≡ true → (c == 0) ≡ false
special_not_nul c h = ground arith

isprint-not_nul : (c : ℕ) → isprint c ≡ true → (c == 0) ≡ false
unfolding isprint
isprint-not_nul c h = ground arith

module _ {S : Type 0} (cat_len : S → List ℕ → Option S) (fresh : ℕ → List ℕ) where
  print_lem :
      (static_buf : List ℕ) (s : S) (f : Format) (c : ℕ)
      → length static_buf ≡ 1024
      → NoNul (printed f c)
      → cat_printf cat_len fresh static_buf s (format_text f) (printed f c)
        ≡ cat_len s (printed f c)
  print_lem static_buf s backslash_char c size plain =
      cat_vprintf_lem cat_len fresh static_buf s (format_text backslash_char)
        (printed backslash_char c) size (omega arith) (omega arith) plain
  print_lem static_buf s plain_char c size plain =
      cat_vprintf_lem cat_len fresh static_buf s (format_text plain_char) (printed plain_char c)
        size (omega arith) (omega arith) plain
  print_lem static_buf s hex_char c size plain =
      cat_vprintf_lem cat_len fresh static_buf s (format_text hex_char) (printed hex_char c) size
        (omega arith) (omega arith) plain

  -- One byte of a text: its quoted form is appended.
  repr_byte_lem :
      (static_buf : List ℕ) (s : S) (c : ℕ)
      → length static_buf ≡ 1024
      → repr_byte cat_len fresh static_buf s c ≡ cat_len s (escape c)
  unfolding repr_byte escape
  repr_byte_lem static_buf s c size =
      let special : ((c == 92) || (c == 34)) ≡ true
          → cat_printf cat_len fresh static_buf s (format_text backslash_char)
              (printed backslash_char c)
            ≡ cat_len s (printed backslash_char c) =
        λ h.
          print_lem static_buf s backslash_char c size
            (printed-NoNul backslash_char c (special_not_nul c h)) in
      let plain : isprint c ≡ true
          → cat_printf cat_len fresh static_buf s (format_text plain_char) (printed plain_char c)
            ≡ cat_len s (printed plain_char c) =
        λ h.
          print_lem static_buf s plain_char c size
            (printed-NoNul plain_char c (isprint-not_nul c h)) in
      let hex = print_lem static_buf s hex_char c size (printed_hex-NoNul c) in ground arith

module _ {S : Type 0} (cat_len : S → List ℕ → Option S) (text : S → List ℕ)
    (HasRoom : ℕ → S → Type 0) (laws : Appends cat_len text HasRoom) (fresh static_buf : ℕ → List ℕ)
    (size : (k : ℕ) → length (static_buf k) ≡ 1024) where
  repr_loop_lem :
      (p : List ℕ) (s : S) (n : ℕ)
      → HasRoom (length (escapes p) + n) s
      → (s' : S) × (repr_loop cat_len fresh static_buf s p ≡ some s')
        × (text s' ≡ text s ++ escapes p)
        × HasRoom n s'
  unfolding repr_loop
  repr_loop_lem [] s n room = (
    s,
    refl,
    sym (append-nil (text s)),
    same_room cat_len text HasRoom laws s (0 + n) n (omega arith) room,
  )
  repr_loop_lem (c ∷ p) s n room =
      let (s1, run1, text1, room1) = laws.cat_len_lem s (escape c) (length (escapes p) + n) (
        same_room cat_len text HasRoom laws s (length (escapes (c ∷ p)) + n)
          (length (escape c) + (length (escapes p) + n))
          (omega (arith, length-append (escape c) (escapes p))) room) in
      let (s2, run2, text2, room2) = repr_loop_lem p s1 n room1 in
      (
        s2,
        rw (repr_byte_lem cat_len fresh (static_buf (length p)) s c (size (length p)) ∙ run1, ◌>>=◌)
            run2,
        text2 ∙ ap (λ t. t ++ escapes p) text1 ∙ append_assoc (text s) (escape c) (escapes p),
        room2,
      )

  -- On a string with room for them, sdsCatRepr appends the quoted bytes.
  pub cat_repr_lem :
      (p : List ℕ) (s : S) (n : ℕ)
      → HasRoom (length (escapes p) + 2 + n) s
      → (s' : S) × (cat_repr cat_len fresh static_buf s p ≡ some s')
        × (text s' ≡ text s ++ quoted p)
        × HasRoom n s'
  unfolding cat_repr
  cat_repr_lem p s n room =
      let (s1, run1, text1, room1) = laws.cat_len_lem s (34 ∷ []) (length (escapes p) + (1 + n)) (
        same_room cat_len text HasRoom laws s (length (escapes p) + 2 + n)
          (1 + (length (escapes p) + (1 + n))) (omega arith) room) in
      let (s2, run2, text2, room2) = repr_loop_lem p s1 (1 + n) room1 in
      let (s3, run3, text3, room3) = laws.cat_len_lem s2 (34 ∷ []) n room2 in
      (
        s3,
        rw (run1, ◌>>=◌) (rw (run2, ◌>>=◌) run3),
        text3
            ∙ ap (λ t. t ++ 34 ∷ []) (text2 ∙ ap (λ t. t ++ escapes p) text1)
            ∙ append_assoc (text s ++ 34 ∷ []) (escapes p) (34 ∷ [])
            ∙ append_assoc (text s) (34 ∷ []) (escapes p ++ 34 ∷ []),
        room3,
      )
