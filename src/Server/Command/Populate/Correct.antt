-- ===== src/Server/Command/Populate/Correct.antt =====
-- Correctness of populateCommandTable of src/cache.c for any table with distinct names.
use mathlib.Core.Option.{or_else}
use jmeter_on_k8s.Prelude.{
  ℕ, suc, ◌+◌, ◌^◌, ◌<◌, ◌≡◌, refl, ap, ◌∙◌, Bool, true, ◌&&◌, not, Option, none, some, List, [],
  ◌∷◌, if◌then◌else◌, ◌>>=◌, arith, length, Bool-cases, inl, inr, Option-cases,
}
use jmeter_on_k8s.Dict.{DictEntry}
use jmeter_on_k8s.Dict.Ops.Delete.{is_found}
use jmeter_on_k8s.Dict.Ops.Insert.{new_entry}
use jmeter_on_k8s.Dict.Ops.Add.{dict_add_lem}
use jmeter_on_k8s.Dict.Valid.{IsValid, view}
use jmeter_on_k8s.Server.Command.{CacheCommand, flags_loop}
use jmeter_on_k8s.Server.Keys.{KeyText, dict_sds_key_case_compare, command_table_dict_type}
use jmeter_on_k8s.Server.Keys.Lawful.{command_table_dict_type-IsLawful}
use jmeter_on_k8s.Server.Command.Populate.{sds_new, Commands, add_command, populate_loop}
use jmeter_on_k8s.Server.Command.Populate.Index.{index_of}

-- The rows with their letters turned into flags.
unfoldable pub decode_rows : List CacheCommand → Option (List CacheCommand)
decode_rows [] = some []
decode_rows (c ∷ rows) = flags_loop c.flags c.sflags >>= λ flags.
    decode_rows rows >>= λ rows'. some (record c { flags = flags } ∷ rows')

abbrev pub same_name : CacheCommand → CacheCommand → Bool
same_name c c' = dict_sds_key_case_compare (sds_new c.name).text (sds_new c'.name).text

-- No row has the name of c, ignoring case.
unfoldable pub is_apart : CacheCommand → List CacheCommand → Bool
is_apart c [] = true
is_apart c (c' ∷ rows) = not (same_name c c') && is_apart c rows

unfoldable pub are_distinct : List CacheCommand → Bool
are_distinct [] = true
are_distinct (c ∷ rows) = is_apart c rows && are_distinct rows

abbrev pub value_of : Option (DictEntry KeyText ℕ) → Option ℕ
value_of none = none
value_of (some e) = some e.val

module _ (seed : ℕ) (bounded : seed < 2 ^ 32) (can_resize : Bool) (junk : ℕ) where
  -- The number of the row that a name stands for.
  abbrev pub row_at : Commands → KeyText → Option ℕ
  row_at d q = value_of (view (command_table_dict_type seed) d q)

  -- A well-formed dict that has room for n more entries.
  pub record HasRoom (n : ℕ) (d : Commands) : Type 0 where
    pub valid : IsValid (command_table_dict_type seed) d
    pub used : d.ht0.used + d.ht1.used + n < 2 ^ 29
    pub sizes : (d.ht0.size < 2 ^ 31) × (d.ht1.size < 2 ^ 31)

  unfoldable pub LacksAll : Commands → List CacheCommand → Type 0
  LacksAll d [] = Unit
  LacksAll d (c ∷ rows) = (row_at d (sds_new c.name) ≡ none) × LacksAll d rows

  not_found_of_row :
      (d : Commands) (k : KeyText)
      → row_at d k ≡ none
      → not (is_found (view (command_table_dict_type seed) d k)) ≡ true
  not_found_of_row d k h = elim (Option-cases (view (command_table_dict_type seed) d k)) [
    | inl e ↦ rw e refl
    | inr (x, e) ↦ ground (arith, h, e)
  ]

  row_after :
      (b : Bool) (d d' : Commands) (k : KeyText) (j : ℕ) (q : KeyText)
      → b ≡ true
      → view (command_table_dict_type seed) d' q ≡ (
          if b
          then (if dict_sds_key_case_compare k.text q.text
              then some (new_entry (command_table_dict_type seed) k j)
              else view (command_table_dict_type seed) d q)
          else view (command_table_dict_type seed) d q)
      → row_at d' q ≡ (if dict_sds_key_case_compare k.text q.text then some j else row_at d q)
  row_after b d d' k j q e h = elim (Bool-cases (dict_sds_key_case_compare k.text q.text)) [
    | inl y ↦ rw h (rw (e, y) refl)
    | inr n ↦ rw h (rw (e, n) refl)
  ]

  add_command_lem :
      (d : Commands) (c : CacheCommand) (j n : ℕ)
      → HasRoom (suc n) d
      → row_at d (sds_new c.name) ≡ none
      → (d' : Commands) × (add_command seed can_resize junk d c j ≡ some (true, d'))
        × HasRoom n d'
        × ((q : KeyText)
            → row_at d' q ≡ (
                if dict_sds_key_case_compare (sds_new c.name).text q.text
                then some j
                else row_at d q))
  add_command_lem d c j n room lacks =
      let ty = command_table_dict_type seed in
      let ((b, d'), run, added) =
        dict_add_lem ty (command_table_dict_type-IsLawful seed bounded) can_resize junk d
          (sds_new c.name) j room.valid (omega (arith, room.used), room.sizes.0, room.sizes.1) in
      let yes_new : b ≡ true = added.answer ∙ not_found_of_row d (sds_new c.name) lacks in
      (
        d',
        run ∙ ap (λ x. some (x, d')) yes_new,
        record {
          valid = added.valid;
          used = omega (
            arith,
            room.used,
            added.size ∙ ap (λ x. d.ht0.used + d.ht1.used + (if x then 1 else 0)) yes_new,
          );
          sizes = added.sizes;
        },
        λ q. row_after b d d' (sds_new c.name) j q yes_new (added.reads q),
      )

  LacksAll-add :
      (d d' : Commands) (c : CacheCommand) (j : ℕ) (rows : List CacheCommand)
      → ((q : KeyText)
          → row_at d' q ≡ (
              if dict_sds_key_case_compare (sds_new c.name).text q.text
              then some j
              else row_at d q))
      → is_apart c rows ≡ true
      → LacksAll d rows
      → LacksAll d' rows
  unfolding LacksAll is_apart
  LacksAll-add d d' c j [] reads apart lacks = tt
  LacksAll-add d d' c j (c' ∷ rows) reads apart lacks = (
    ground (arith, reads (sds_new c'.name), lacks.0),
    LacksAll-add d d' c j rows reads (ground arith) lacks.1,
  )

  -- A name equal to that of c belongs to no row that is apart from c.
  index_of_apart :
      (c : CacheCommand) (rows : List CacheCommand) (j : ℕ) (q : KeyText)
      → is_apart c rows ≡ true
      → dict_sds_key_case_compare (sds_new c.name).text q.text ≡ true
      → index_of j rows q ≡ none
  unfolding is_apart index_of
  index_of_apart c [] j q apart same = refl
  index_of_apart c (c' ∷ rows) j q apart same =
      let law = command_table_dict_type-IsLawful seed bounded in
      ground (
        arith,
        index_of_apart c rows (j + 1) q,
        law.compare_trans (sds_new c.name) q (sds_new c'.name) same,
        law.compare_symm (sds_new c'.name) q,
      )

  -- What the loop makes of one of the two dicts.
  pub record Populated (j : ℕ) (rows : List CacheCommand) (d d' : Commands) : Type 0 where
    pub valid : IsValid (command_table_dict_type seed) d'
    pub reads : (q : KeyText) → row_at d' q ≡ or_else (index_of j rows q) (row_at d q)

  Populated-step :
      (j : ℕ) (c : CacheCommand) (rows : List CacheCommand) (d d' d'' : Commands)
      → is_apart c rows ≡ true
      → ((q : KeyText)
          → row_at d' q ≡ (
              if dict_sds_key_case_compare (sds_new c.name).text q.text
              then some j
              else row_at d q))
      → Populated (j + 1) rows d' d''
      → Populated j (c ∷ rows) d d''
  unfolding index_of or_else
  Populated-step j c rows d d' d'' apart reads more = record {
    valid = more.valid;
    reads = λ q. elim (Bool-cases (dict_sds_key_case_compare (sds_new c.name).text q.text)) [
      | inl y ↦ rw (more.reads q, index_of_apart c rows (j + 1) q apart y, reads q, y) refl
      | inr n ↦ rw (more.reads q, reads q, n) refl
    ];
  }

  pub populate_loop_lem :
      (j : ℕ) (rows rows' : List CacheCommand) (commands orig_commands : Commands)
      → decode_rows rows ≡ some rows'
      → are_distinct rows ≡ true
      → HasRoom (length rows) commands
      → HasRoom (length rows) orig_commands
      → LacksAll commands rows
      → LacksAll orig_commands rows
      → (commands' orig' : Commands) × (populate_loop seed can_resize junk j rows commands
            orig_commands
          ≡ some (rows', commands', orig'))
        × Populated j rows commands commands'
        × Populated j rows orig_commands orig'
  unfolding populate_loop decode_rows are_distinct LacksAll index_of or_else
  populate_loop_lem j [] rows' commands orig_commands dec dist room room' lacks lacks' = (
    commands,
    orig_commands,
    ground (arith, dec),
    record { valid = room.valid; reads = λ q. refl },
    record { valid = room'.valid; reads = λ q. refl },
  )
  populate_loop_lem j (c ∷ rows) rows' commands orig_commands dec dist room room' lacks lacks' =
      elim (Option-cases (flags_loop c.flags c.sflags)) [
        | inl e ↦ ground (arith, dec, e)
        | inr (flags, e) ↦ elim (Option-cases (decode_rows rows)) [
          | inl f ↦ ground (arith, dec, e, f)
          | inr (rest, f) ↦
              let apart : is_apart c rows ≡ true = ground (arith, dist) in
              let (c1, run1, room1, reads1) =
                add_command_lem commands c j (length rows) room lacks.0 in
              let (o1, run2, room2, reads2) =
                add_command_lem orig_commands c j (length rows) room' lacks'.0 in
              let (c2, o2, run, pop, pop') =
                populate_loop_lem (j + 1) rows rest c1 o1 f (ground (arith, dist)) room1 room2
                  (LacksAll-add commands c1 c j rows reads1 apart lacks.1)
                  (LacksAll-add orig_commands o1 c j rows reads2 apart lacks'.1) in
              (
                c2,
                o2,
                ground (arith, e, run1, run2, run, dec, f),
                Populated-step j c rows commands c1 c2 apart reads1 pop,
                Populated-step j c rows orig_commands o1 o2 apart reads2 pop',
              )
        ]
      ]
