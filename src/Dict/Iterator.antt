-- ===== src/Dict/Iterator.antt =====
-- src/dict.c: dictGetIterator, dictGetSafeIterator and dictNext. What dictFingerPrint gives for a dict,
-- from the addresses of its tables, is an argument. `none` is a fault or the end of the fuel.
pub mod Place
pub mod Visits
pub mod Tests
use jmeter_on_k8s.Prelude.{
  ℕ, zero, suc, ◌+◌, ◌%◌, ◌^◌, Bool, true, false, ◌&&◌, not, Option, none, some, List, [], ◌∷◌, leb,
  ◌>>=◌, get_elem?, if◌then◌else◌,
}
use jmeter_on_k8s.Dict.{Dict, DictHt, DictEntry, Chain, is_rehashing}

-- `index` is `none` where the source has -1; `second` is the member table. `entry` is the entry with
-- those behind it, and [] for NULL, as is `next_entry`.
pub record DictIterator {ℓ} (K V : Type ℓ) : Type ℓ where
  pub index : Option ℕ
  pub second : Bool
  pub safe : Bool
  pub entry : Chain K V
  pub next_entry : Chain K V
  pub finger_print : ℕ

-- index++
abbrev pub next_index : Option ℕ → ℕ
next_index none = 0
next_index (some i) = i + 1

module _ {ℓ} {K V : Type ℓ} where
  -- dictGetIterator; the fingerprint is not set.
  abbrev pub dict_get_iterator : ℕ → DictIterator K V
  dict_get_iterator garbage = record {
    index = none;
    second = false;
    safe = false;
    entry = [];
    next_entry = [];
    finger_print = garbage;
  }

  abbrev pub dict_get_safe_iterator : ℕ → DictIterator K V
  dict_get_safe_iterator garbage = record (dict_get_iterator garbage) { safe = true }

  abbrev pub not_started : DictIterator K V → Bool
  not_started it = elim it.index [ none ↦ not it.second | some i ↦ false ]

  -- if (iter->index == -1 && iter->table == 0)
  abbrev pub started : (Dict K V → ℕ) → Dict K V → DictIterator K V → Dict K V × DictIterator K V
  started finger d it =
      if not_started it
      then (if it.safe
          then (record d { iterators = d.iterators + 1 }, it)
          else (d, record it { finger_print = finger d }))
      else (d, it)

  abbrev pub table_of : Dict K V → Bool → DictHt K V
  table_of d true = d.ht1
  table_of d false = d.ht0

  -- Where the iterator goes: `none` for the end of the loop, else the table and the index.
  unfoldable pub next_place : Dict K V → Bool → ℕ → Option (Bool × ℕ)
  next_place d second i =
      if leb (table_of d second).size i
      then (if is_rehashing d && not second then some (true, 0) else none)
      else some (second, i)

  -- The round from index++ on; the Boolean is true for the break.
  unfoldable pub enter : Dict K V → DictIterator K V → Option (Dict K V × DictIterator K V × Bool)
  enter d it =
      let i = next_index it.index in
      elim (next_place d it.second i) [
        | none ↦ some (d, record it { index = some i }, true)
        | some (second, j) ↦ get_elem? (table_of d second).table j >>= λ chain.
            some (d, record it { index = some j; second = second; entry = chain }, false)
      ]

  -- The loop up to if (iter->entry).
  unfoldable pub round :
      (Dict K V → ℕ) → Dict K V → DictIterator K V → Option (Dict K V × DictIterator K V × Bool)
  round finger d it = elim it.entry [
    | e ∷ es ↦ some (d, record it { entry = it.next_entry }, false)
    | [] ↦ let (d', it') = started finger d it in enter d' it'
  ]

  -- while (1), on fuel: the dict, the iterator and the entry, [] for NULL.
  unfoldable pub dict_next :
      (Dict K V → ℕ)
      → ℕ
      → Dict K V
      → DictIterator K V
      → Option (Dict K V × DictIterator K V × Chain K V)
  dict_next finger zero d it = none
  dict_next finger (suc fuel) d it = round finger d it >>= λ (d', it', stop). elim it'.entry [
    | e ∷ es ↦ some (d', record it' { next_entry = es }, e ∷ es)
    | [] ↦ elim stop [ true ↦ some (d', it', []) | false ↦ dict_next finger fuel d' it' ]
  ]

  -- dictNext until it gives NULL: the entries that it gave, and the dict.
  unfoldable pub visit :
      (Dict K V → ℕ)
      → ℕ
      → ℕ
      → Dict K V
      → DictIterator K V
      → Option (List (DictEntry K V) × Dict K V)
  visit finger rounds zero d it = none
  visit finger rounds (suc fuel) d it = dict_next finger rounds d it >>= λ (d', it', chain).
      elim chain [
        | [] ↦ some ([], d')
        | e ∷ es ↦ visit finger rounds fuel d' it' >>= λ (rest, d''). some (e ∷ rest, d'')
      ]
