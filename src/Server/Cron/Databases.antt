-- ===== src/Server/Cron/Databases.antt =====
-- The resizing of the databases in databaseCron of src/cache.c, on the hash tables of src/dict.c:
-- htNeedsResize, tryResizeHashTables and updateDictResizePolicy.
pub mod Correct
use jmeter_on_k8s.Prelude.{
  ℕ, zero, suc, ◌+◌, ◌*◌, ◌/◌, ◌%◌, ◌^◌, ◌<◌, ◌≤◌, ◌≡◌, refl, sym, ap, ◌∙◌, Bool, true, false, ◌&&◌,
  not, Option, none, some, List, [], ◌∷◌, ◌==◌, ltb, leb, if◌then◌else◌, ◌>>=◌, length, get_elem?,
  set, Bool-cases, Option-cases, inl, inr, arith,
}
use mathlib.Core.Logic.{Lift}
use native.Mathlib.Nat.{mod-lt}
use jmeter_on_k8s.Prelude.Int.{ℤ, pos, negsuc}
use jmeter_on_k8s.Dict.{DictType, Dict, dict_size, dict_slots, DictHt}
use jmeter_on_k8s.Dict.Expand.{dict_resize}
use jmeter_on_k8s.Dict.Expand.Grow.{Fits}
use jmeter_on_k8s.Dict.Expand.Resize.{dict_resize_lem}
use jmeter_on_k8s.Dict.Valid.{IsValid, view}

-- The two tables of a database: the values, and the times at which keys expire.
pub record CacheDb {ℓ} (K O : Type ℓ) (T : Type ℓ) : Type ℓ where
  pub dict : Dict K O
  pub expires : Dict K T

-- dict_can_resize behind updateDictResizePolicy, by the process ids of the two children.
abbrev pub update_dict_resize_policy : ℤ → ℤ → Bool
update_dict_resize_policy (negsuc zero) (negsuc zero) = true
update_dict_resize_policy rdb_child_pid aof_child_pid = false

module _ {ℓ} {K V : Type ℓ} where
  unfoldable pub ht_needs_resize : Dict K V → Bool
  ht_needs_resize d =
      let size = dict_slots d in
      let used = dict_size d in
      not (size == 0) && not (used == 0) && ltb 4 size && ltb (used * 100 / size) 10

  abbrev pub resize_if_sparse : Bool → Dict K V → Option (Dict K V)
  resize_if_sparse can_resize d =
      if ht_needs_resize d then (dict_resize can_resize d >>= λ (b, d'). some d') else some d

module _ {ℓ} {K O T : Type ℓ} where
  unfoldable pub try_resize_hash_tables :
      Bool → List (CacheDb K O T) → ℕ → Option (List (CacheDb K O T))
  try_resize_hash_tables can_resize dbs dbid = get_elem? dbs dbid >>= λ db.
      resize_if_sparse can_resize db.dict >>= λ d. resize_if_sparse can_resize db.expires >>= λ e.
      some (set dbs dbid (record { dict = d; expires = e }))

  -- The loop of databaseCron over resize_db, an unsigned int.
  unfoldable pub resize_loop :
      Bool → ℕ → ℕ → List (CacheDb K O T) → ℕ → Option (List (CacheDb K O T) × ℕ)
  resize_loop can_resize dbnum zero dbs resize_db = some (dbs, resize_db)
  resize_loop can_resize dbnum (suc n) dbs resize_db =
      try_resize_hash_tables can_resize dbs (resize_db % dbnum) >>= λ dbs'.
      resize_loop can_resize dbnum n dbs' ((resize_db + 1) % 2 ^ 32)

abbrev pub dbs_per_call : ℕ → ℕ
dbs_per_call dbnum = if ltb dbnum 16 then dbnum else 16
