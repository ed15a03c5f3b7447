-- ===== src/Server/Keys.antt =====
-- src/cache.c: the callbacks of the server's hash tables on counted strings. A key is the list of
-- its bytes, fewer than 2 ^ 31. `seed` is the seed of the hash functions of src/dict.c.
pub mod Lawful
use jmeter_on_k8s.Prelude.{ℕ, ◌≡◌, Bool, true, false, none, some, List, ◌==◌, if◌then◌else◌, length}
use jmeter_on_k8s.Dict.{DictType}
use jmeter_on_k8s.Dict.Hash.{dict_gen_hash_function, dict_gen_case_hash_function}
use jmeter_on_k8s.Libc.{tolower, bytes_equal, c_string, same_ignoring_case}

unfoldable pub dict_sds_key_compare : List ℕ → List ℕ → Bool
dict_sds_key_compare key1 key2 = if length key1 == length key2 then bytes_equal key1 key2 else false

unfoldable pub dict_sds_key_case_compare : List ℕ → List ℕ → Bool
dict_sds_key_case_compare key1 key2 = same_ignoring_case key1 key2

-- A counted string without a NUL, as sdsNew makes one of a C string.
pub record KeyText : Type 0 where
  pub text : List ℕ
  pub no_nul : c_string text ≡ text

module _ (seed : ℕ) where
  unfoldable pub dict_sds_hash : List ℕ → ℕ
  dict_sds_hash key = dict_gen_hash_function seed key

  unfoldable pub dict_sds_case_hash : List ℕ → ℕ
  dict_sds_case_hash key = dict_gen_case_hash_function tolower seed key

  -- The keys are compared by their bytes, never by their pointers.
  abbrev pub sds_keys : {V : Type 0} → Bool → Bool → DictType (List ℕ) V
  sds_keys key_destructor val_destructor = record {
    hash_function = dict_sds_hash;
    key_dup = none;
    val_dup = none;
    key_compare = some dict_sds_key_compare;
    same_pointer = λ a b. false;
    key_destructor = key_destructor;
    val_destructor = val_destructor;
  }

  abbrev pub db_dict_type : DictType (List ℕ) ℕ
  db_dict_type = sds_keys true true

  abbrev pub keyptr_dict_type : DictType (List ℕ) ℕ
  keyptr_dict_type = sds_keys false false

  abbrev pub cluster_nodes_dict_type : DictType (List ℕ) ℕ
  cluster_nodes_dict_type = sds_keys true false

  abbrev pub migrate_cache_dict_type : DictType (List ℕ) ℕ
  migrate_cache_dict_type = sds_keys true false

  abbrev pub command_table_dict_type : DictType KeyText ℕ
  command_table_dict_type = record {
    hash_function = λ k. dict_sds_case_hash k.text;
    key_dup = none;
    val_dup = none;
    key_compare = some (λ a b. dict_sds_key_case_compare a.text b.text);
    same_pointer = λ a b. false;
    key_destructor = true;
    val_destructor = false;
  }
