-- ===== src/Server/Command/Populate.antt =====
-- src/cache.c: populateCommandTable, resetCommandTableStats and the lookups of commands. A value of
-- the dicts is the row that it points to, by its number in the table, so both dicts share the rows.
-- `none` is cachePanic, a failed assert or a fault.
pub mod Index
pub mod Correct
use jmeter_on_k8s.Prelude.{
  ℕ, ◌+◌, ◌≡◌, refl, ap, Bool, true, false, ◌&&◌, Option, none, some, List, [], ◌∷◌, ◌==◌,
  if◌then◌else◌, ◌>>=◌, map, Bool-cases, inl, inr,
}
use jmeter_on_k8s.Prelude.Int.{pos}
use jmeter_on_k8s.Dict.{Dict}
use jmeter_on_k8s.Dict.Ops.{dict_add, dict_fetch_value}
use jmeter_on_k8s.Libc.{c_string}
use jmeter_on_k8s.Server.Command.{CacheCommand, flags_loop}
use jmeter_on_k8s.Server.Keys.{KeyText, command_table_dict_type}

pub c_string_idem : (s : List ℕ) → c_string (c_string s) ≡ c_string s
unfolding c_string
c_string_idem [] = refl
c_string_idem (a ∷ s) = elim (Bool-cases (a == 0)) [
  | inl h ↦ rw h refl
  | inr h ↦ rw h (rw h (ap (λ t. a ∷ t) (c_string_idem s)))
]

-- sdsNew of a C string
abbrev pub sds_new : List ℕ → KeyText
sds_new s = record { text = c_string s; no_nul = c_string_idem s }

abbrev pub Commands : Type 0
Commands = Dict KeyText ℕ

-- `junk` is what zmalloc leaves in a new entry.
module _ (seed : ℕ) (can_resize : Bool) (junk : ℕ) where
  -- dictAdd(server.commands, sdsNew(c->name), c), and whether it returned DICT_OK
  abbrev pub add_command : Commands → CacheCommand → ℕ → Option (Bool × Commands)
  add_command d c j = dict_add (command_table_dict_type seed) can_resize junk d (sds_new c.name) j

  -- The loop from row j on: the rows, server.commands and server.orig_commands.
  unfoldable pub populate_loop :
      ℕ → List CacheCommand → Commands → Commands → Option (List CacheCommand × Commands × Commands)
  populate_loop j [] commands orig_commands = some ([], commands, orig_commands)
  populate_loop j (c ∷ rows) commands orig_commands = flags_loop c.flags c.sflags >>= λ flags.
      add_command commands c j >>= λ (retval1, commands').
      add_command orig_commands c j >>= λ (retval2, orig'). elim (retval1 && retval2) [
        | false ↦ none
        | true ↦ populate_loop (j + 1) rows commands' orig' >>= λ (rows', commands'', orig'').
            some (record c { flags = flags } ∷ rows', commands'', orig'')
      ]

-- The dicts are those of initServerConfig, just created.
unfoldable pub populate_command_table :
    ℕ
    → Bool
    → ℕ
    → List CacheCommand
    → Commands
    → Commands
    → Option (List CacheCommand × Commands × Commands)
populate_command_table seed can_resize junk table commands orig_commands =
    populate_loop seed can_resize junk 0 table commands orig_commands

unfoldable pub reset_command_table_stats : List CacheCommand → List CacheCommand
reset_command_table_stats table =
    map (λ (c : CacheCommand). record c { microseconds = pos 0; calls = 0 }) table

module _ (seed : ℕ) where
  -- lookupCommand: the row or NULL, and the dict after its rehash step.
  unfoldable pub lookup_command : Commands → KeyText → Option (Option ℕ × Commands)
  lookup_command commands name = dict_fetch_value (command_table_dict_type seed) commands name

  unfoldable pub lookup_command_by_c_string : Commands → List ℕ → Option (Option ℕ × Commands)
  lookup_command_by_c_string commands s =
      dict_fetch_value (command_table_dict_type seed) commands (sds_new s)

  -- lookupCmmandOrOriginal
  unfoldable pub lookup_command_or_original :
      Commands → Commands → KeyText → Option (Option ℕ × Commands × Commands)
  lookup_command_or_original commands orig_commands name =
      dict_fetch_value (command_table_dict_type seed) commands name >>= λ (cmd, commands').
      elim cmd [
        | some j ↦ some (some j, commands', orig_commands)
        | none ↦
            dict_fetch_value (command_table_dict_type seed) orig_commands name >>= λ (cmd', orig').
            some (cmd', commands', orig')
      ]
