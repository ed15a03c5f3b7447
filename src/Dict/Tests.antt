-- ===== src/Dict/Tests.antt =====
-- Runs of the hash table on a type of number keys, and the theorems at the dicts that they build.
use mathlib.Core.Option.{some-injective}
use mathlib.Core.Path.{subst}
use jmeter_on_k8s.Prelude.{
  ℕ, ◌+◌, ◌%◌, ◌^◌, ◌<◌, ◌≤◌, ◌-◌, ◌⊎◌, ◌≡◌, refl, Bool, true, false, Option, none, some, List, [],
  ◌∷◌, arith, ◌==◌, ◌>>=◌, set, replicate,
}
use jmeter_on_k8s.Dict.{DictEntry, DictType, Dict, Freed, val_freed, dict_create, dict_reset}
use jmeter_on_k8s.Dict.Chain.{IsLawful, chain_find, chain_unlink, chain_set_val}
use jmeter_on_k8s.Dict.Expand.{
  new_table, next_power_loop, next_power, dict_expand, expand_if_needed,
}
use jmeter_on_k8s.Dict.Expand.Grow.{Fits, Grown, expand_if_needed_lem, dict_expand_lem}
use jmeter_on_k8s.Dict.Random.{dict_get_random_key}
use jmeter_on_k8s.Dict.Random.Correct.{IsDrawable, dict_get_random_key_lem}
use jmeter_on_k8s.Dict.Expand.Power.{Doubled, next_power_lem}
use jmeter_on_k8s.Dict.Ops.{
  Ref, find_in_tables, dict_find, dict_fetch_value, free_slot, key_index, insert_at, dict_add_raw,
  set_new_val, dict_add, overwrite_found, dict_replace, unlink_found, dict_generic_delete,
  dict_delete,
}
use jmeter_on_k8s.Dict.Ops.Add.{dict_add_lem, Added}
use jmeter_on_k8s.Dict.Ops.Delete.{Deleted, dict_generic_delete_lem}
use jmeter_on_k8s.Dict.Ops.Find.{entry_of, dict_find_lem}
use jmeter_on_k8s.Dict.Ops.Replace.{Replaced, dict_replace_lem}
use jmeter_on_k8s.Dict.Rehash.Bucket.{Rehashed}
use jmeter_on_k8s.Dict.Rehash.Correct.{RehashOutcome, dict_rehash_lem}
use jmeter_on_k8s.Dict.Rehash.{
  skip_empty, migrate, rehash_loop, dict_rehash, rehash_step, step_if_rehashing,
}
use jmeter_on_k8s.Dict.Valid.{IsValid, view, dict_create-IsValid}

-- Keys are numbers, hashed by themselves, with the pointer comparison and no copies.
abbrev pub numbers : DictType ℕ ℕ
numbers = record {
  hash_function = λ k. k % 2 ^ 32;
  key_dup = none;
  val_dup = none;
  key_compare = none;
  same_pointer = ◌==◌;
  key_destructor = false;
  val_destructor = true;
}

pub numbers-IsLawful : IsLawful numbers
numbers-IsLawful = record {
  compare_refl = ground arith;
  compare_symm = ground arith;
  compare_trans = ground arith;
  hash_congr = ground arith;
  dup_same = ground arith;
}

program : Unit {0}
unfolding chain_find chain_unlink chain_set_val next_power_loop next_power dict_expand
    expand_if_needed find_in_tables dict_find dict_fetch_value free_slot key_index insert_at
    dict_add_raw set_new_val dict_add overwrite_found dict_replace unlink_found dict_generic_delete
    skip_empty migrate rehash_loop dict_rehash rehash_step step_if_rehashing
program = tt

module _ (d d' : Dict ℕ ℕ) (b : Bool) (k v : ℕ) where
  IsValid-after_add :
      dict_add numbers true 7 d k v ≡ some (b, d') → IsValid numbers d → Fits d → IsValid numbers d'
  IsValid-after_add h ok fits =
      let (out, run, added) = dict_add_lem numbers numbers-IsLawful true 7 d k v ok fits in
      let e : out ≡ (b, d') = ground (arith, run, h) in
      subst (λ (o : Bool × Dict ℕ ℕ). IsValid numbers o.1) e added.valid

abbrev one : Dict ℕ ℕ
one = record {
  ht0 = record {
    table = [] ∷ (record { key = 5; val = 50 } ∷ []) ∷ [] ∷ [] ∷ [];
    size = 4;
    size_mask = 3;
    used = 1;
  };
  ht1 = dict_reset;
  rehashidx = none;
  iterators = 0;
}

one-IsValid : IsValid numbers one
unfolding program
one-IsValid =
    IsValid-after_add dict_create one true 5 50 refl (dict_create-IsValid numbers) (omega arith)

abbrev two : Dict ℕ ℕ
two = record {
  ht0 = record {
    table = [] ∷ (record { key = 9; val = 90 } ∷ record { key = 5; val = 50 } ∷ []) ∷ [] ∷ [] ∷ [];
    size = 4;
    size_mask = 3;
    used = 2;
  };
  ht1 = dict_reset;
  rehashidx = none;
  iterators = 0;
}

two-IsValid : IsValid numbers two
unfolding program
two-IsValid = IsValid-after_add one two true 9 90 refl one-IsValid (omega arith)

abbrev three : Dict ℕ ℕ
three = record {
  ht0 = record {
    table =
        []
        ∷ (record { key = 9; val = 90 } ∷ record { key = 5; val = 50 } ∷ [])
        ∷ (record { key = 6; val = 60 } ∷ [])
        ∷ []
        ∷ [];
    size = 4;
    size_mask = 3;
    used = 3;
  };
  ht1 = dict_reset;
  rehashidx = none;
  iterators = 0;
}

three-IsValid : IsValid numbers three
unfolding program
three-IsValid = IsValid-after_add two three true 6 60 refl two-IsValid (omega arith)

abbrev four : Dict ℕ ℕ
four = record {
  ht0 = record {
    table =
        []
        ∷ (record { key = 1; val = 10 }
            ∷ record { key = 9; val = 90 }
            ∷ record { key = 5; val = 50 }
            ∷ [])
        ∷ (record { key = 6; val = 60 } ∷ [])
        ∷ []
        ∷ [];
    size = 4;
    size_mask = 3;
    used = 4;
  };
  ht1 = dict_reset;
  rehashidx = none;
  iterators = 0;
}

four-IsValid : IsValid numbers four
unfolding program
four-IsValid = IsValid-after_add three four true 1 10 refl three-IsValid (omega arith)

-- The fifth key has made the table grow: four entries wait in the first table, one is in the second.
abbrev pub five : Dict ℕ ℕ
five = record {
  ht0 = record {
    table =
        []
        ∷ (record { key = 1; val = 10 }
            ∷ record { key = 9; val = 90 }
            ∷ record { key = 5; val = 50 }
            ∷ [])
        ∷ (record { key = 6; val = 60 } ∷ [])
        ∷ []
        ∷ [];
    size = 4;
    size_mask = 3;
    used = 4;
  };
  ht1 = record {
    table = [] ∷ [] ∷ [] ∷ [] ∷ (record { key = 4; val = 40 } ∷ []) ∷ [] ∷ [] ∷ [] ∷ [];
    size = 8;
    size_mask = 7;
    used = 1;
  };
  rehashidx = some 0;
  iterators = 0;
}

pub five-IsValid : IsValid numbers five
unfolding program
five-IsValid = IsValid-after_add four five true 4 40 refl four-IsValid (omega arith)

-- A lookup while the table rehashes: the step that it makes has moved bucket 1 on the way.
abbrev after_find : Option (Option ℕ × ℕ × ℕ)
after_find = dict_find numbers five 9 >>= λ (r, d). some (d.rehashidx, d.ht0.used, d.ht1.used)

find_nine : after_find ≡ some (some 2, 1, 4)
unfolding program
find_nine = refl

abbrev after_delete : Option (Bool × ℕ × List (Freed ℕ ℕ))
after_delete =
    dict_delete numbers five 6 >>= λ (done, d, freed). some (done, d.ht0.used + d.ht1.used, freed)

delete_six : after_delete ≡ some (true, 4, val_freed 60 ∷ [])
unfolding program
delete_six = refl

dict_add_lem_example :
    (out : Bool × Dict ℕ ℕ) × (dict_add numbers true 7 five 13 130 ≡ some out)
    × Added numbers five 13 130 out
dict_add_lem_example =
    dict_add_lem numbers numbers-IsLawful true 7 five 13 130 five-IsValid (omega arith)

dict_find_lem_example :
    (r : Option (Ref × DictEntry ℕ ℕ)) × (d' : Dict ℕ ℕ) × (dict_find numbers five 9 ≡ some (r, d'))
    × (entry_of numbers r ≡ view numbers five 9)
    × Rehashed numbers five d'
dict_find_lem_example = dict_find_lem numbers numbers-IsLawful five 9 five-IsValid

dict_generic_delete_lem_example :
    (out : Bool × Dict ℕ ℕ × List (Freed ℕ ℕ)) × (dict_generic_delete numbers false five 6
      ≡ some out)
    × Deleted numbers false five 6 out
dict_generic_delete_lem_example =
    dict_generic_delete_lem numbers numbers-IsLawful false five 6 five-IsValid

dict_replace_lem_example :
    (out : Bool × Dict ℕ ℕ × List (Freed ℕ ℕ)) × (dict_replace numbers true 7 five 9 91 ≡ some out)
    × Replaced numbers five 9 91 out
dict_replace_lem_example =
    dict_replace_lem numbers numbers-IsLawful true 7 five 9 91 five-IsValid (omega arith)

dict_rehash_lem_example :
    (r : Bool × Dict ℕ ℕ) × (dict_rehash numbers 100 five ≡ some r)
    × RehashOutcome numbers 100 five r
dict_rehash_lem_example = dict_rehash_lem numbers numbers-IsLawful 100 five five-IsValid

expand_if_needed_lem_example :
    (d' : Dict ℕ ℕ) × (expand_if_needed false four ≡ some (true, d'))
    × Grown numbers four d'
    × Fits d'
expand_if_needed_lem_example = expand_if_needed_lem numbers false four four-IsValid (omega arith)

next_power_lem_example :
    ((1000 < 2 ^ 63 - 1) × ((r : ℕ) × (next_power 1000 ≡ some r) × Doubled 4 1000 r))
    ⊎ ((2 ^ 63 - 1 ≤ 1000) × (next_power 1000 ≡ some (2 ^ 63 - 1)))
next_power_lem_example = next_power_lem 1000

-- A table of 64 buckets, and one with a single entry.
abbrev wide : Dict ℕ ℕ
wide = record { ht0 = new_table 64; ht1 = dict_reset; rehashidx = none; iterators = 0 }

wide-IsValid : IsValid numbers wide
unfolding program
wide-IsValid =
    let (d, run, grown, fits) =
      dict_expand_lem numbers dict_create 64 (dict_create-IsValid numbers) (omega arith) refl
        (omega arith) (omega arith) (omega arith) in
    let e : d ≡ wide = ground (arith, run) in subst (IsValid numbers) e grown.valid

abbrev pub sparse : Dict ℕ ℕ
sparse = record {
  ht0 = record {
    table = set (replicate 64 []) 5 (record { key = 5; val = 50 } ∷ []);
    size = 64;
    size_mask = 63;
    used = 1;
  };
  ht1 = dict_reset;
  rehashidx = none;
  iterators = 0;
}

pub sparse-IsValid : IsValid numbers sparse
unfolding program
sparse-IsValid = IsValid-after_add wide sparse true 5 50 refl wide-IsValid (omega arith)

-- The step of dictGetRandomKey moves the three entries of the first bucket that has any.
abbrev five_stepped : Dict ℕ ℕ
five_stepped = record {
  ht0 = record {
    table = [] ∷ [] ∷ (record { key = 6; val = 60 } ∷ []) ∷ [] ∷ [];
    size = 4;
    size_mask = 3;
    used = 1;
  };
  ht1 = record {
    table =
        []
        ∷ (record { key = 9; val = 90 } ∷ record { key = 1; val = 10 } ∷ [])
        ∷ []
        ∷ []
        ∷ (record { key = 4; val = 40 } ∷ [])
        ∷ (record { key = 5; val = 50 } ∷ [])
        ∷ []
        ∷ []
        ∷ [];
    size = 8;
    size_mask = 7;
    used = 4;
  };
  rehashidx = some 2;
  iterators = 0;
}

five_steps : step_if_rehashing numbers five ≡ some five_stepped
unfolding program
five_steps = refl

five_stepped-IsDrawable : IsDrawable numbers numbers-IsLawful five_stepped
five_stepped-IsDrawable = record {
  first = omega arith;
  second = omega arith;
  inside = λ i e. omega (arith, some-injective 2 i e);
}

dict_get_random_key_lem_example :
    (e : DictEntry ℕ ℕ) × (rs : List ℕ) × (dict_get_random_key numbers five (1 ∷ 3 ∷ 1 ∷ [])
      ≡ some (some e, five_stepped, rs))
    × IsValid numbers five_stepped
    × (view numbers five e.key ≡ some e)
dict_get_random_key_lem_example =
    dict_get_random_key_lem numbers numbers-IsLawful five five_stepped (1 ∷ 3 ∷ 1 ∷ []) five-IsValid
      (omega arith) (omega arith) five_steps five_stepped-IsDrawable refl
