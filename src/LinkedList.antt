-- ===== src/LinkedList.antt =====
-- Project 2/code/threads/list.cc and list.h: a list as elements that point to their successors, with
-- pointers to the first and the last. A pointer is an address or null, the heap holds an element at
-- an address that is in use, and `new` takes an address that is not: it is an argument of the operations.
-- A key is not negative here, and an item is a number.
pub mod Chains
pub mod Refines
pub mod Sequences
pub mod Whole
use tree_fiddy.Prelude.{
  ℕ, zero, suc, Bool, true, false, Option, none, some, ltb, ◌==◌, if◌then◌else◌,
}
use tree_fiddy.Prelude.Outcome.{Outcome, ok, fault, ◌>>=◌}

abbrev pub Ptr : Type 0
Ptr = Option ℕ

pub record ListElement : Type 0 where
  pub item : ℕ
  pub key : ℕ
  pub next : Ptr

abbrev pub Heap : Type 0
Heap = ℕ → Option ListElement

pub record LinkedList : Type 0 where
  pub first : Ptr
  pub last : Ptr

abbrev pub is_null : Ptr → Bool
is_null none = true
is_null (some a) = false

abbrev pub same_ptr : Ptr → Ptr → Bool
same_ptr none none = true
same_ptr none (some b) = false
same_ptr (some a) none = false
same_ptr (some a) (some b) = a == b

unfoldable pub assign : ℕ → Option ListElement → Heap → Heap
assign a e h b = if b == a then e else h b

abbrev pub loaded : Option ListElement → Outcome ListElement
loaded none = fault
loaded (some e) = ok e

-- *ptr
abbrev pub deref : Ptr → Heap → Outcome ListElement
deref none h = fault
deref (some a) h = loaded (h a)

-- ptr->next = next
unfoldable pub set_next : Ptr → Ptr → Heap → Outcome Heap
unfolding assign
set_next none next h = fault
set_next (some a) next h = do
  e ← deref (some a) h
  ok (assign a (some (record e { next = next })) h)

-- new ListElement(item, key)
abbrev pub new_element : ℕ → ℕ → ListElement
new_element item key = record { item = item; key = key; next = none }

-- List::IsEmpty
abbrev pub is_empty : LinkedList → Bool
is_empty l = is_null l.first

-- The list with one element.
abbrev pub single : ℕ → LinkedList
single a = record { first = some a; last = some a }

-- List::Append, with the new element at a.
unfoldable pub append : ℕ → ℕ → Heap → LinkedList → Outcome (Heap × LinkedList)
unfolding set_next assign
append a item h l =
    let with_new : Heap = assign a (some (new_element item 0)) h in
    let after_last : Outcome (Heap × LinkedList) = (do
      h' ← set_next l.last (some a) with_new
      ok (h', record l { last = some a })) in
    if is_empty l then ok (with_new, single a) else after_last

-- List::Prepend, with the new element at a.
unfoldable pub prepend : ℕ → ℕ → Heap → LinkedList → Outcome (Heap × LinkedList)
unfolding set_next assign
prepend a item h l =
    let with_new : Heap = assign a (some (new_element item 0)) h in
    let before_first : Outcome (Heap × LinkedList) = (do
      h' ← set_next (some a) l.first with_new
      ok (h', record l { first = some a })) in
    if is_empty l then ok (with_new, single a) else before_first

-- One round of the loop of SortedInsert, at ptr with its `next`: `rest` is the next round.
unfoldable pub insert_step :
    (a key : ℕ) (ptr next : Ptr)
    → Outcome (Heap × LinkedList)
    → Heap
    → LinkedList
    → Outcome (Heap × LinkedList)
unfolding set_next
insert_step a key ptr none rest h l = do
  h' ← set_next l.last (some a) h
  ok (h', record l { last = some a })
insert_step a key ptr (some q) rest h l =
    let between : Outcome (Heap × LinkedList) = (do
      h' ← set_next (some a) (some q) h
      h'' ← set_next ptr (some a) h'
      ok (h'', l)) in
    do e ← deref (some q) h; if ltb key e.key then between else rest

-- The loop of SortedInsert from ptr on, with the rounds allowed, and what follows it.
unfoldable pub insert_loop : ℕ → (a key : ℕ) → Ptr → Heap → LinkedList → Outcome (Heap × LinkedList)
unfolding insert_step
insert_loop zero a key ptr h l = fault
insert_loop (suc n) a key ptr h l = do
  e ← deref ptr h
  let rest = insert_loop n a key e.next h l
  insert_step a key ptr e.next rest h l

-- List::SortedInsert, with the new element at a.
unfoldable pub sorted_insert :
    ℕ → (a item key : ℕ) → Heap → LinkedList → Outcome (Heap × LinkedList)
unfolding set_next assign insert_loop
sorted_insert rounds a item key h l =
    let with_new : Heap = assign a (some (new_element item key)) h in
    let in_front : Outcome (Heap × LinkedList) = (do
      h' ← set_next (some a) l.first with_new
      ok (h', record l { first = some a })) in
    let further : Outcome (Heap × LinkedList) = insert_loop rounds a key l.first with_new l in
    let not_empty : Outcome (Heap × LinkedList) = (do
      e ← deref l.first with_new
      if ltb key e.key then in_front else further) in
    if is_empty l then ok (with_new, single a) else not_empty

-- delete element
unfoldable pub delete : Ptr → Heap → Outcome Heap
unfolding assign
delete none h = ok h
delete (some a) h = ok (assign a none h)

-- List::SortedRemove: the item and the key of the first element, or a null pointer.
unfoldable pub sorted_remove : Heap → LinkedList → Outcome (Option (ℕ × ℕ) × Heap × LinkedList)
unfolding delete
sorted_remove h l =
    let taken : Outcome (Option (ℕ × ℕ) × Heap × LinkedList) = (do
      e ← deref l.first h
      h' ← delete l.first h
      ok (
        some (e.item, e.key),
        h',
        if same_ptr l.first l.last
            then record { first = none; last = none }
            else record l { first = e.next },
      )) in
    if is_empty l then ok (none, h, l) else taken
