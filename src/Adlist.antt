-- ===== src/Adlist.antt =====
-- The doubly linked lists of src/adlist.h and src/adlist.c, on a heap of nodes at addresses. An
-- access through NULL or to an address that holds no node is `none`. Addresses that zmalloc returns
-- are arguments.
pub mod Links
pub mod Ends
pub mod Inside
pub mod Insert
pub mod Walk
mod Tests
use jmeter_on_k8s.Prelude.{
  ℕ, zero, suc, ◌+◌, ◌-◌, ◌%◌, ◌^◌, Bool, true, false, ◌&&◌, not, Option, none, some, List, [], ◌∷◌,
  ◌==◌, ltb, leb, if◌then◌else◌, ◌>>=◌,
}
use jmeter_on_k8s.Prelude.Int.{ℤ, pos, negsuc}

-- A pointer to a node; `none` is NULL.
abbrev pub Ptr : Type 0
Ptr = Option ℕ

pub record ListNode (V : Type 0) : Type 0 where
  pub prev : Ptr
  pub next : Ptr
  pub value : V

abbrev pub node : {V : Type 0} → Ptr → Ptr → V → ListNode V
node p q v = record { prev = p; next = q; value = v }

abbrev pub Heap : Type 0 → Type 0
Heap V = ℕ → Option (ListNode V)

-- `match` is `none` for NULL; of `free` and `dup` only whether there is one.
pub record AdList (V : Type 0) : Type 0 where
  pub head : Ptr
  pub tail : Ptr
  pub dup : Bool
  pub free : Bool
  pub match_key : Option (V → V → Bool)
  pub len : ℕ

pub record ListIter : Type 0 where
  pub next : Ptr
  pub from_tail : Bool

abbrev pub same_ptr : Ptr → Ptr → Bool
same_ptr none none = true
same_ptr none (some b) = false
same_ptr (some a) none = false
same_ptr (some a) (some b) = a == b

module _ {V : Type 0} where
  unfoldable pub put_node : Heap V → ℕ → Option (ListNode V) → Heap V
  put_node h p c a = if a == p then c else h a

  -- *p
  abbrev pub load : Heap V → Ptr → Option (ListNode V)
  load h none = none
  load h (some a) = h a

  -- p->prev = q and p->next = q
  abbrev pub set_prev : Heap V → Ptr → Ptr → Option (Heap V)
  set_prev h none q = none
  set_prev h (some a) q = h a >>= λ n. some (put_node h a (some (record n { prev = q })))

  abbrev pub set_next : Heap V → Ptr → Ptr → Option (Heap V)
  set_next h none q = none
  set_next h (some a) q = h a >>= λ n. some (put_node h a (some (record n { next = q })))

  abbrev pub inc_len : AdList V → AdList V
  inc_len l = record l { len = (l.len + 1) % 2 ^ 64 }

  abbrev pub list_create : AdList V
  list_create = record {
    head = none;
    tail = none;
    dup = false;
    free = false;
    match_key = none;
    len = 0;
  }

  unfoldable pub list_add_node_head : ℕ → Heap V → AdList V → V → Option (Heap V × AdList V)
  list_add_node_head a h l value =
      if l.len == 0
      then some (
        put_node h a (some (node none none value)),
        inc_len (record l { head = some a; tail = some a }),
      )
      else (set_prev (put_node h a (some (node none l.head value))) l.head (some a) >>= λ h'.
          some (h', inc_len (record l { head = some a })))

  -- The source does not count the new node.
  unfoldable pub list_add_node_tail : ℕ → Heap V → AdList V → V → Option (Heap V × AdList V)
  list_add_node_tail a h l value =
      if l.len == 0
      then some
          (put_node h a (some (node none none value)), record l { head = some a; tail = some a })
      else (set_next (put_node h a (some (node l.tail none value))) l.tail (some a) >>= λ h'.
          some (h', record l { tail = some a }))

  -- if (node->prev != NULL) node->prev->next = node; and its mirror image
  abbrev pub link_prev : Heap V → Ptr → ℕ → Option (Heap V)
  link_prev h none a = some h
  link_prev h (some p) a = set_next h (some p) (some a)

  abbrev pub link_next : Heap V → Ptr → ℕ → Option (Heap V)
  link_next h none a = some h
  link_next h (some q) a = set_prev h (some q) (some a)

  unfoldable pub list_insert_node :
      ℕ → Heap V → AdList V → Ptr → V → Bool → Option (Heap V × AdList V)
  list_insert_node a h l old_node value after = load h old_node >>= λ old. elim after [
    | true ↦ link_prev (put_node h a (some (node old_node old.next value))) old_node a >>= λ h1.
        link_next h1 old.next a >>= λ h2.
        some (h2, inc_len (if same_ptr l.tail old_node then record l { tail = some a } else l))
    | false ↦ link_prev (put_node h a (some (node old.prev old_node value))) old.prev a >>= λ h1.
        link_next h1 old_node a >>= λ h2.
        some (h2, inc_len (if same_ptr l.head old_node then record l { head = some a } else l))
  ]

  -- The two tests at the start of listDelNode.
  abbrev pub unlink_prev : Heap V → AdList V → ListNode V → Option (Heap V × AdList V)
  unlink_prev h l n = elim n.prev [
    | none ↦ some (h, record l { head = n.next })
    | some p ↦ set_next h (some p) n.next >>= λ h'. some (h', l)
  ]

  abbrev pub unlink_next : Heap V → AdList V → ListNode V → Option (Heap V × AdList V)
  unlink_next h l n = elim n.next [
    | none ↦ some (h, record l { tail = n.prev })
    | some q ↦ set_prev h (some q) n.prev >>= λ h'. some (h', l)
  ]

  -- The last part is the value that the list's free method is called with, if any.
  unfoldable pub list_del_node : Heap V → AdList V → ℕ → Option (Heap V × AdList V × Option V)
  list_del_node h l a = h a >>= λ n. unlink_prev h l n >>= λ (h1, l1).
      unlink_next h1 l1 n >>= λ (h2, l2). some (
        put_node h2 a none,
        record l2 { len = (l2.len + 2 ^ 64 - 1) % 2 ^ 64 },
        if l.free then some n.value else none,
      )

  unfoldable pub list_rotate : Heap V → AdList V → Option (Heap V × AdList V)
  list_rotate h l =
      if leb l.len 1
      then some (h, l)
      else (load h l.tail >>= λ n. set_next h n.prev none >>= λ h1.
          set_prev h1 l.head l.tail >>= λ h2. set_prev h2 l.tail none >>= λ h3.
          set_next h3 l.tail l.head >>= λ h4. some (h4, record l { tail = n.prev; head = l.tail }))

  -- while (index-- && node) node = node->next; and its mirror image
  unfoldable pub forward : Heap V → ℕ → Ptr → Option Ptr
  forward h zero p = some p
  forward h (suc i) none = some none
  forward h (suc i) (some a) = h a >>= λ n. forward h i n.next

  unfoldable pub backward : Heap V → ℕ → Ptr → Option Ptr
  backward h zero p = some p
  backward h (suc i) none = some none
  backward h (suc i) (some a) = h a >>= λ n. backward h i n.prev

  unfoldable pub list_index : Heap V → AdList V → ℤ → Option Ptr
  list_index h l (pos i) = forward h i l.head
  list_index h l (negsuc i) = backward h i l.tail

  -- listRewind, listRewindTail and listGetIterator
  abbrev pub list_rewind : AdList V → ListIter
  list_rewind l = record { next = l.head; from_tail = false }

  abbrev pub list_rewind_tail : AdList V → ListIter
  list_rewind_tail l = record { next = l.tail; from_tail = true }

  abbrev pub list_get_iterator : AdList V → Bool → ListIter
  list_get_iterator l from_tail = if from_tail then list_rewind_tail l else list_rewind l

  -- listNext, which the source spells listNode: the node, and the iterator behind it.
  unfoldable pub list_next : Heap V → ListIter → Option (Ptr × ListIter)
  list_next h iter = elim iter.next [
    | none ↦ some (none, iter)
    | some a ↦
        h a >>= λ n. some (some a, record iter { next = if iter.from_tail then n.prev else n.next })
  ]

  -- list->match(node->value, key), or key == node->value, which `same_value` decides
  abbrev pub value_matches : (V → V → Bool) → Option (V → V → Bool) → V → V → Bool
  value_matches same_value none value key = same_value key value
  value_matches same_value (some f) value key = f value key

  -- The loop of listSearchKey on fuel: `none` also when the fuel runs out.
  unfoldable pub key_loop :
      (V → V → Bool) → Option (V → V → Bool) → Heap V → V → ℕ → ListIter → Option Ptr
  key_loop same_value match_key h key zero iter = none
  key_loop same_value match_key h key (suc fuel) iter = list_next h iter >>= λ (p, iter'). elim p [
    | none ↦ some none
    | some a ↦ h a >>= λ n. elim (value_matches same_value match_key n.value key) [
      | true ↦ some (some a)
      | false ↦ key_loop same_value match_key h key fuel iter'
    ]
  ]

  unfoldable pub list_search_key : (V → V → Bool) → ℕ → Heap V → AdList V → V → Option Ptr
  list_search_key same_value fuel h l key =
      key_loop same_value l.match_key h key fuel (list_get_iterator l false)

  -- listRelease: the heap after it, and the arguments of the calls of the free method, which is
  -- taken to leave the nodes alone. The node is freed only where there is a method.
  abbrev pub release_loop : Bool → Heap V → ℕ → Ptr → Option (Heap V × List Ptr)
  release_loop free h zero current = some (h, [])
  release_loop free h (suc len) none = none
  release_loop free h (suc len) (some a) = h a >>= λ n. elim free [
    | true ↦ release_loop free (put_node h a none) len n.next >>= λ (h', calls).
        some (h', n.next ∷ calls)
    | false ↦ release_loop free h len (some a)
  ]

  abbrev pub list_release : Heap V → AdList V → Option (Heap V × List Ptr)
  list_release h l = release_loop l.free h l.len l.head
