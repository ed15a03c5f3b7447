-- ===== src/Server/Command/Lookup.antt =====
-- src/cache.c: the table of commands as populateCommandTable leaves it, and the lookups in it.
use mathlib.Core.Option
use mathlib.Core.Option.{or_else}
use jmeter_on_k8s.Prelude.{
  ℕ, ◌^◌, ◌<◌, ◌≡◌, refl, ap, ◌∙◌, Bool, true, Option, none, some, List, [], ◌∷◌, arith,
  Option-cases, inl, inr, length,
}
use jmeter_on_k8s.Dict.{DictEntry, dict_create}
use jmeter_on_k8s.Dict.Chain.{chain_find}
use jmeter_on_k8s.Dict.Ops.Delete.{is_found}
use jmeter_on_k8s.Dict.Ops.Find.{dict_fetch_value_lem}
use jmeter_on_k8s.Dict.Valid.{IsValid, dict_create-IsValid, view}
use jmeter_on_k8s.Libc.{c_string, tolower, bytes_equal, same_ignoring_case}
use jmeter_on_k8s.Server.Command.{CacheCommand, flags_loop}
use jmeter_on_k8s.Server.Command.Table.{cache_command_table}
use jmeter_on_k8s.Server.Keys.{KeyText, dict_sds_key_case_compare, command_table_dict_type}
use jmeter_on_k8s.Server.Keys.Lawful.{command_table_dict_type-IsLawful}
use jmeter_on_k8s.Server.Command.Populate.{
  sds_new, Commands, populate_command_table, lookup_command,
}
use jmeter_on_k8s.Server.Command.Populate.Correct.{
  decode_rows, value_of, row_at, is_apart, are_distinct, HasRoom, LacksAll, populate_loop_lem,
}
use jmeter_on_k8s.Server.Command.Populate.Index.{index_of}

table_is_distinct : are_distinct cache_command_table ≡ true
unfolding are_distinct is_apart cache_command_table dict_sds_key_case_compare same_ignoring_case
    bytes_equal c_string tolower
table_is_distinct = refl

table_is_supported : is_found (decode_rows cache_command_table) ≡ true
unfolding decode_rows flags_loop cache_command_table
table_is_supported = refl

or_else-none : {A : Type 0} (o : Option A) → or_else o none ≡ o
unfolding or_else
or_else-none none = refl
or_else-none (some a) = refl

map-value_of :
    (o : Option (DictEntry KeyText ℕ))
    → Option.map (λ (e : DictEntry KeyText ℕ). e.val) o ≡ value_of o
map-value_of none = refl
map-value_of (some e) = refl

module _ (seed : ℕ) (bounded : seed < 2 ^ 32) (can_resize : Bool) (junk : ℕ) where
  row_at-dict_create :
      (name : KeyText) → row_at seed bounded can_resize junk dict_create name ≡ none
  unfolding view or_else chain_find
  row_at-dict_create name = refl

  LacksAll-dict_create :
      (rows : List CacheCommand) → LacksAll seed bounded can_resize junk dict_create rows
  unfolding LacksAll
  LacksAll-dict_create [] = tt
  LacksAll-dict_create (c ∷ rows) = (row_at-dict_create (sds_new c.name), LacksAll-dict_create rows)

  dict_create-HasRoom :
      HasRoom seed bounded can_resize junk (length cache_command_table) dict_create
  unfolding cache_command_table
  dict_create-HasRoom = record {
    valid = dict_create-IsValid (command_table_dict_type seed);
    used = omega arith;
    sizes = (omega arith, omega arith);
  }

  lookup_row :
      (d : Commands) (name : KeyText) (r : Option ℕ)
      → IsValid (command_table_dict_type seed) d
      → row_at seed bounded can_resize junk d name ≡ r
      → (d' : Commands) × (lookup_command seed d name ≡ some (r, d'))
  unfolding lookup_command
  lookup_row d name r ok reads =
      let ty = command_table_dict_type seed in
      let (d', run, keeps) =
        dict_fetch_value_lem ty (command_table_dict_type-IsLawful seed bounded) d name ok in
      (d', run ∙ ap (λ x. some (x, d')) (map-value_of (view ty d name) ∙ reads))

  -- For a 32-bit seed, whether or not resizing is allowed: populateCommandTable on the table of the
  -- source and two dicts just created meets no unknown letter, no failed assert and no fault. The
  -- rows keep everything but their flags. Afterwards lookupCommand finds, for every text without a
  -- NUL, the row of that name, whatever the case of its letters, or NULL where no row has it, and
  -- so does a lookup in the dict of the original commands.
  pub populate_command_table_lem :
      (name : KeyText)
      → (table' : List CacheCommand) × (commands orig_commands commands' orig_commands' : Commands)
        × (populate_command_table seed can_resize junk cache_command_table dict_create dict_create
            ≡ some (table', commands, orig_commands))
        × (decode_rows cache_command_table ≡ some table')
        × (lookup_command seed commands name
            ≡ some (index_of 0 cache_command_table name, commands'))
        × (lookup_command seed orig_commands name
            ≡ some (index_of 0 cache_command_table name, orig_commands'))
  unfolding populate_command_table lookup_command
  populate_command_table_lem name = elim (Option-cases (decode_rows cache_command_table)) [
    | inl e ↦ ground (arith, e, table_is_supported)
    | inr (table', e) ↦
        let empty = dict_create-HasRoom in
        let lacks = LacksAll-dict_create cache_command_table in
        let (c, o, run, pop, pop') =
          populate_loop_lem seed bounded can_resize junk 0 cache_command_table table' dict_create
            dict_create e table_is_distinct empty empty lacks lacks in
        let (c', found) = lookup_row c name (index_of 0 cache_command_table name) pop.valid (
          pop.reads name
          ∙ ap (or_else (index_of 0 cache_command_table name)) (row_at-dict_create name)
          ∙ or_else-none (index_of 0 cache_command_table name)) in
        let (o', found') = lookup_row o name (index_of 0 cache_command_table name) pop'.valid (
          pop'.reads name
          ∙ ap (or_else (index_of 0 cache_command_table name)) (row_at-dict_create name)
          ∙ or_else-none (index_of 0 cache_command_table name)) in
        (table', c, o, c', o', run, e, found, found')
  ]
