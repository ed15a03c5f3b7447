-- ===== src/Server/Keys/Lawful.antt =====
-- The callbacks of src/cache.c keep the promises that the hash table relies on.
use jmeter_on_k8s.Prelude.{ℕ, ◌≡◌, refl, sym, ap, ◌∙◌, Bool, true, List, map, arith, ◌^◌, ◌<◌, ◌%◌}
use jmeter_on_k8s.Dict.Chain.{IsLawful}
use jmeter_on_k8s.Dict.Hash.Horner.{horner, dict_gen_case_hash_function_lem}
use jmeter_on_k8s.Libc.{
  tolower, bytes_equal, c_string, same_ignoring_case, bytes_equal_refl, bytes_equal_sound,
}
use jmeter_on_k8s.Server.Keys.{
  dict_sds_key_compare, dict_sds_key_case_compare, KeyText, dict_sds_hash, dict_sds_case_hash,
  sds_keys, command_table_dict_type,
}

key_compare_refl : (a : List ℕ) → dict_sds_key_compare a a ≡ true
unfolding dict_sds_key_compare
key_compare_refl a = ground (arith, bytes_equal_refl a)

key_compare_sound : (a b : List ℕ) → dict_sds_key_compare a b ≡ true → a ≡ b
unfolding dict_sds_key_compare
key_compare_sound a b h = bytes_equal_sound a b (ground arith)

-- A comparison that decides a relation that two hashes agree on.
pub sds_keys-IsLawful :
    {V : Type 0} (seed : ℕ) (kd vd : Bool) → IsLawful (sds_keys seed {V = V} kd vd)
unfolding dict_sds_hash
sds_keys-IsLawful seed kd vd = record {
  compare_refl = key_compare_refl;
  compare_symm = λ a b h. rw (key_compare_sound a b h) (key_compare_refl b);
  compare_trans = λ a b c h k. rw (key_compare_sound a b h) k;
  hash_congr = λ a b h. ap (dict_sds_hash seed) (key_compare_sound a b h);
  dup_same = key_compare_refl;
}

-- A text in lower case.
abbrev pub lowered : KeyText → List ℕ
lowered k = map tolower k.text

pub case_compare_sound :
    (a b : KeyText) → dict_sds_key_case_compare a.text b.text ≡ true → lowered a ≡ lowered b
unfolding dict_sds_key_case_compare same_ignoring_case
case_compare_sound a b h = bytes_equal_sound (lowered a) (lowered b) (
    ap (λ s. bytes_equal (map tolower s) (lowered b)) (sym a.no_nul)
    ∙ ap (λ s. bytes_equal (map tolower (c_string a.text)) (map tolower s)) (sym b.no_nul)
    ∙ h)

pub case_compare_complete :
    (a b : KeyText) → lowered a ≡ lowered b → dict_sds_key_case_compare a.text b.text ≡ true
unfolding dict_sds_key_case_compare same_ignoring_case
case_compare_complete a b h =
    ap (λ s. bytes_equal (map tolower s) (map tolower (c_string b.text))) a.no_nul
    ∙ ap (λ s. bytes_equal (lowered a) (map tolower s)) b.no_nul
    ∙ ap (bytes_equal (lowered a)) (sym h)
    ∙ bytes_equal_refl (lowered a)

case_hash_congr :
    (seed : ℕ) (a b : KeyText)
    → seed < 2 ^ 32
    → lowered a ≡ lowered b
    → dict_sds_case_hash seed a.text ≡ dict_sds_case_hash seed b.text
unfolding dict_sds_case_hash
case_hash_congr seed a b s h =
    dict_gen_case_hash_function_lem tolower seed a.text s
    ∙ ap (λ t. horner 33 seed t % 2 ^ 32) h
    ∙ sym (dict_gen_case_hash_function_lem tolower seed b.text s)

pub command_table_dict_type-IsLawful :
    (seed : ℕ) → seed < 2 ^ 32 → IsLawful (command_table_dict_type seed)
command_table_dict_type-IsLawful seed s = record {
  compare_refl = λ a. case_compare_complete a a refl;
  compare_symm = λ a b h. case_compare_complete b a (sym (case_compare_sound a b h));
  compare_trans =
      λ a b c h k. case_compare_complete a c (case_compare_sound a b h ∙ case_compare_sound b c k);
  hash_congr = λ a b h. case_hash_congr seed a b s (case_compare_sound a b h);
  dup_same = λ a. case_compare_complete a a refl;
}
