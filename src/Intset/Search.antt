-- ===== src/Intset/Search.antt =====
-- src/intset.c: intsetSearch and insertFind.
pub mod Correct
pub mod Member
use jmeter_on_k8s.Prelude.{
  ℕ, zero, suc, ◌+◌, ◌-◌, ◌^◌, ◌/◌, ◌*◌, Bool, true, false, Option, none, some, ◌==◌, ltb, leb,
  if◌then◌else◌, ◌>>=◌,
}
use jmeter_on_k8s.Prelude.Int.{ℤ, negsuc, ltb_ℤ, pos_part, neg_part}
use jmeter_on_k8s.Intset.{Intset, get_at, value_encoding}

-- The test == of two integers.
abbrev pub eq_ℤ : ℤ → ℤ → Bool
eq_ℤ a b = pos_part a + neg_part b == pos_part b + neg_part a

-- min, mid and cur behind the loop
pub record Stop : Type 0 where
  pub min : ℕ
  pub mid : ℕ
  pub cur : ℤ

-- while (max >= min) { ... } on fuel. `bound` is max + 1, since max may be -1.
unfoldable pub search_loop : Intset → ℤ → ℕ → ℕ → ℕ → Stop → Option Stop
search_loop is value zero min bound s = none
search_loop is value (suc fuel) min bound s = elim (ltb min bound) [
  | false ↦ some (record s { min = min })
  | true ↦ elim (get_at is ((min + bound - 1) / 2)) [
    | none ↦ none
    | some cur ↦
        let mid = (min + bound - 1) / 2 in
        elim (ltb_ℤ cur value) [
          | true ↦
              search_loop is value fuel (mid + 1) bound (record { min = min; mid = mid; cur = cur })
          | false ↦ elim (ltb_ℤ value cur) [
            | true ↦ search_loop is value fuel min mid (record { min = min; mid = mid; cur = cur })
            | false ↦ some (record { min = min; mid = mid; cur = cur })
          ]
        ]
  ]
]

-- The test behind the loop: whether the value is there, and *pos.
abbrev pub finish_search : ℤ → Stop → Bool × ℕ
finish_search value s = if eq_ℤ value s.cur then (true, s.mid) else (false, s.min)

-- Before the loop mid is -1, as a u32 for *pos, and cur is -1. A length above 2 ^ 31 makes the int
-- max negative.
unfoldable pub intset_search : Intset → ℤ → Option (Bool × ℕ)
intset_search is value =
    if is.length == 0
    then some (false, 0)
    else (get_at is (is.length - 1) >>= λ last.
        if ltb_ℤ last value
        then some (false, is.length)
        else (get_at is 0 >>= λ first.
            if ltb_ℤ value first
            then some (false, 0)
            else (search_loop is value (is.length + 1) 0
                  (if leb is.length (2 ^ 31) then is.length else 0)
                  (record { min = 0; mid = 2 ^ 32 - 1; cur = negsuc 0 })
                >>= λ s. some (finish_search value s))))

-- insertFind
unfoldable pub insert_find : Intset → ℤ → Option Bool
insert_find is value =
    if leb (value_encoding value) is.encodeing
    then (intset_search is value >>= λ (found, i). some found)
    else some false
