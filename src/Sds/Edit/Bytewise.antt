-- ===== src/Sds/Edit/Bytewise.antt =====
-- Of src/sds.c: sdstoUpper, sdsToLower and sdsMapChars change each byte of the text by itself.
use jmeter_on_k8s.Prelude.{
  ℕ, zero, suc, ◌+◌, ◌≡◌, refl, sym, ap, ◌∙◌, some, List, [], ◌∷◌, ◌++◌, map, ◌>>=◌, length, take,
  drop, get_or, arith, length-append, length-take, length-drop, length-map,
}
use jmeter_on_k8s.Sds.{Sdshdr}
use jmeter_on_k8s.Sds.Range.{text, IsValid}
use jmeter_on_k8s.Sds.Append.Room.{take-front}
use jmeter_on_k8s.Sds.Edit.{byte_loop, map_char, sds_map_chars}
use jmeter_on_k8s.Sds.Number.Reversed.{append_assoc, get_elem?-append, store_byte-append}

byte_loop_lem :
    (f : ℕ → ℕ) (before x post : List ℕ) (j : ℕ)
    → j ≡ length before
    → byte_loop f (length x) (before ++ (x ++ post)) j ≡ some (before ++ (map f x ++ post))
unfolding byte_loop
byte_loop_lem f before [] post j e = refl
byte_loop_lem f before (c ∷ x) post j e =
    rw (get_elem?-append before (x ++ post) c j e, ◌>>=◌)
      (rw (store_byte-append before (x ++ post) c (f c) j e, ◌>>=◌)
        (ap (λ l. byte_loop f (length x) l (j + 1))
            (sym (append_assoc before (f c ∷ []) (x ++ post)))
          ∙ byte_loop_lem f (before ++ f c ∷ []) x post (j + 1)
              (omega (arith, length-append before (f c ∷ [])))
          ∙ ap some (append_assoc before (f c ∷ []) (map f x ++ post))))

pub take-drop-all : (n : ℕ) (b : List ℕ) → take n b ++ drop n b ≡ b
take-drop-all zero b = refl
take-drop-all (suc n) [] = refl
take-drop-all (suc n) (a ∷ b) = ap (λ l. a ∷ l) (take-drop-all n b)

-- The byte at the end of the first part is the first of the second.
pub get_or-append : (x y : List ℕ) (n d : ℕ) → n ≡ length x → get_or (x ++ y) n d ≡ get_or y 0 d
get_or-append [] y zero d e = refl
get_or-append [] y (suc n) d e = absurd (omega arith)
get_or-append (a ∷ x) y zero d e = absurd (omega arith)
get_or-append (a ∷ x) y (suc n) d e = get_or-append x y n d (omega arith)

-- The buffer after the loop over the whole text.
changed : (ℕ → ℕ) → Sdshdr → List ℕ
changed f s = map f (text s) ++ drop s.len s.buf

Maps : (ℕ → ℕ) → Sdshdr → Sdshdr → Type 0
Maps f s s' = IsValid s' × (text s' ≡ map f (text s)) × (s'.len ≡ s.len) × (s'.free ≡ s.free)

length-text : (s : Sdshdr) → IsValid s → length (text s) ≡ s.len
length-text s ok = omega (arith, length-take s.len s.buf, ok.fits)

byte_loop-text :
    (f : ℕ → ℕ) (s : Sdshdr) → IsValid s → byte_loop f s.len s.buf 0 ≡ some (changed f s)
unfolding changed
byte_loop-text f s ok =
    ap (λ b. byte_loop f s.len b 0) (sym (take-drop-all s.len s.buf))
    ∙ ap (λ n. byte_loop f n (text s ++ drop s.len s.buf) 0) (sym (length-text s ok))
    ∙ byte_loop_lem f [] (text s) (drop s.len s.buf) 0 refl

changed-Maps : (f : ℕ → ℕ) (s : Sdshdr) → IsValid s → Maps f s (record s { buf = changed f s })
unfolding changed Maps
changed-Maps f s ok =
    let long : length (map f (text s)) ≡ s.len = length-map (text s) f ∙ length-text s ok in
    (
      record {
        fits = omega (
          arith,
          ok.fits,
          long,
          length-append (map f (text s)) (drop s.len s.buf),
          length-drop s.len s.buf,
        );
        small = ok.small;
        nul =
            get_or-append (map f (text s)) (drop s.len s.buf) s.len 1 (sym long)
            ∙ sym (get_or-append (text s) (drop s.len s.buf) s.len 1 (sym (length-text s ok)))
            ∙ ap (λ b. get_or b s.len 1) (take-drop-all s.len s.buf)
            ∙ ok.nul;
      },
      ap (λ n. take n (changed f s)) (sym long) ∙ take-front (map f (text s)) (drop s.len s.buf),
      refl,
      refl,
    )

-- On a valid string, sdsMapChars replaces each byte of the text by the one that stands with it in the
-- first pair that has it, if any, and leaves the string valid and as long as it was.
pub sds_map_chars_lem :
    (s : Sdshdr) (pairs : List (ℕ × ℕ))
    → IsValid s
    → (s' : Sdshdr) × (sds_map_chars s pairs ≡ some s')
      × IsValid s'
      × (text s' ≡ map (map_char pairs) (text s))
      × (s'.len ≡ s.len)
      × (s'.free ≡ s.free)
unfolding sds_map_chars Maps
sds_map_chars_lem s pairs ok =
    let (ok', is, len, free) = changed-Maps (map_char pairs) s ok in
    (
      record s { buf = changed (map_char pairs) s },
      rw (byte_loop-text (map_char pairs) s ok, ◌>>=◌) refl,
      ok',
      is,
      len,
      free,
    )
