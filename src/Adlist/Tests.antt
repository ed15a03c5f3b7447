-- ===== src/Adlist/Tests.antt =====
-- A list of three nodes on a small heap.
use jmeter_on_k8s.Prelude.{
  ℕ, ◌≡◌, refl, Bool, true, none, some, List, [], ◌∷◌, ◌++◌, ◌==◌, if◌then◌else◌, arith,
}
use jmeter_on_k8s.Adlist.{
  node, Heap, AdList, list_create, list_add_node_tail, list_insert_node, list_del_node, list_rotate,
  list_search_key,
}
use jmeter_on_k8s.Adlist.Links.{Apart, Holds, Linked}
use jmeter_on_k8s.Adlist.Ends.{SameOff, list_add_node_tail_lem}
use jmeter_on_k8s.Adlist.Inside.{list_del_node_lem, list_rotate_lem}
use jmeter_on_k8s.Adlist.Insert.{list_insert_node_lem}
use jmeter_on_k8s.Adlist.Walk.{list_search_key_lem}

abbrev three_nodes : Heap ℕ
three_nodes a =
    if a == 10
    then some (node none (some 20) 7)
    else if a == 20
    then some (node (some 10) (some 30) 8)
    else if a == 30
    then some (node (some 20) none 9)
    else none

abbrev three : AdList ℕ
three = record list_create { head = some 10; tail = some 30; len = 3 }

abbrev entries : List (ℕ × ℕ)
entries = (10, 7) ∷ (20, 8) ∷ (30, 9) ∷ []

abbrev same_number : ℕ → ℕ → Bool
same_number a b = a == b

three-Holds : Holds three_nodes three entries
three-Holds = record {
  linked = (refl, (refl, (refl, tt)));
  distinct = ((refl, (refl, tt)), ((refl, tt), (tt, tt)));
  first = refl;
  last = refl;
  count = refl;
}

off_three : Apart 40 entries
off_three = (refl, (refl, (refl, tt)))

list_add_node_tail_lem_example :
    (h' : Heap ℕ) × (l' : AdList ℕ) × (list_add_node_tail 40 three_nodes three 6 ≡ some (h', l'))
    × Linked h' none (entries ++ (40, 6) ∷ []) none
    × (l'.head ≡ some 10)
    × (l'.tail ≡ some 40)
    × (l'.len ≡ 3)
    × SameOff ((40, 6) ∷ entries) three_nodes h'
list_add_node_tail_lem_example =
    list_add_node_tail_lem 40 three_nodes three 10 7 ((20, 8) ∷ (30, 9) ∷ []) 6 three-Holds
      off_three

list_del_node_lem_example :
    (h' : Heap ℕ) × (l' : AdList ℕ) × (list_del_node three_nodes three 20 ≡ some (h', l', none))
    × Holds h' l' ((10, 7) ∷ (30, 9) ∷ [])
    × (h' 20 ≡ none)
list_del_node_lem_example =
    list_del_node_lem three_nodes three ((10, 7) ∷ []) 20 8 ((30, 9) ∷ []) three-Holds (omega arith)

list_rotate_lem_example :
    (h' : Heap ℕ) × (l' : AdList ℕ) × (list_rotate three_nodes three ≡ some (h', l'))
    × Holds h' l' ((30, 9) ∷ (10, 7) ∷ (20, 8) ∷ [])
list_rotate_lem_example = list_rotate_lem three_nodes three 10 7 ((20, 8) ∷ []) 30 9 three-Holds

list_insert_node_lem_example :
    (h' : Heap ℕ) × (l' : AdList ℕ) × (list_insert_node 40 three_nodes three (some 30) 6 true
      ≡ some (h', l'))
    × Holds h' l' ((10, 7) ∷ (20, 8) ∷ (30, 9) ∷ (40, 6) ∷ [])
list_insert_node_lem_example =
    list_insert_node_lem 40 three_nodes three ((10, 7) ∷ (20, 8) ∷ []) 30 9 [] 6 true three-Holds
      off_three (omega arith)

list_search_key_lem_example : list_search_key same_number 4 three_nodes three 8 ≡ some (some 20)
list_search_key_lem_example =
    list_search_key_lem same_number three_nodes three entries 8 4 three-Holds (omega arith)
