-- ===== src/Dict/Hash/Tail.antt =====
-- What dictGenHashFunction of src/dict.c leaves out of the hash.
use jmeter_on_k8s.Prelude.{ℕ, suc, ◌≡◌, refl, ap, List, [], ◌∷◌, length, bit_xor}
use jmeter_on_k8s.Dict.Hash.{mix_words, mix_word, word_at, mix_tail, dict_gen_hash_function}

-- Four bytes.
pub record Word : Type 0 where
  pub b0 : ℕ
  pub b1 : ℕ
  pub b2 : ℕ
  pub b3 : ℕ

pub bytes_of : List Word → Word → List ℕ
bytes_of [] l = l.b0 ∷ l.b1 ∷ l.b2 ∷ l.b3 ∷ []
bytes_of (w ∷ ws) l = w.b0 ∷ w.b1 ∷ w.b2 ∷ w.b3 ∷ bytes_of ws l

length-bytes_of : (ws : List Word) (l l' : Word) → length (bytes_of ws l) ≡ length (bytes_of ws l')
unfolding bytes_of
length-bytes_of [] l l' = refl
length-bytes_of (w ∷ ws) l l' = ap (λ n. suc (suc (suc (suc n)))) (length-bytes_of ws l l')

-- h behind the loop
words_hash : ℕ → List Word → ℕ
words_hash h [] = h
words_hash h (w ∷ ws) = words_hash (mix_word h (word_at w.b0 w.b1 w.b2 w.b3)) ws

mix_words-bytes_of :
    (h : ℕ) (ws : List Word) (l : Word)
    → mix_words h (bytes_of ws l) ≡ (words_hash h ws, l.b0 ∷ l.b1 ∷ l.b2 ∷ l.b3 ∷ [])
unfolding mix_words bytes_of words_hash
mix_words-bytes_of h [] l = refl
mix_words-bytes_of h (w ∷ []) l = refl
mix_words-bytes_of h (w ∷ w' ∷ ws) l =
    mix_words-bytes_of (mix_word h (word_at w.b0 w.b1 w.b2 w.b3)) (w' ∷ ws) l

-- Two keys that consist of the same whole words and of one more word each have the same hash,
-- whatever the seed and the two last words are.
pub dict_gen_hash_function_lem :
    (seed : ℕ) (ws : List Word) (l l' : Word)
    → dict_gen_hash_function seed (bytes_of ws l) ≡ dict_gen_hash_function seed (bytes_of ws l')
unfolding dict_gen_hash_function mix_tail
dict_gen_hash_function_lem seed ws l l' =
    rw
      (
        length-bytes_of ws l l',
        mix_words-bytes_of (bit_xor seed (length (bytes_of ws l'))) ws l,
        mix_words-bytes_of (bit_xor seed (length (bytes_of ws l'))) ws l',
      )
      refl
