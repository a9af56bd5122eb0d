-- ===== src/Examples/Queues.antt =====
-- A list of Project 2/code/threads/list.cc with two elements, at the addresses 3 and 8.
use tree_fiddy.Prelude.{refl, none, some, [], ◌∷◌, ◌==◌, if◌then◌else◌, arith}
use tree_fiddy.LinkedList.{Heap, LinkedList, append, prepend, sorted_insert, sorted_remove}
use tree_fiddy.LinkedList.Chains.{IsList, Chain, has_address, last_ptr}
use tree_fiddy.LinkedList.Refines.{cell, Becomes, insert_cell}
use tree_fiddy.LinkedList.Whole.{Takes, operations-IsList}

abbrev two_elements : Heap
two_elements b =
    if b == 3
    then some (record { item = 10; key = 5; next = some 8 })
    else if b == 8
    then some (record { item = 11; key = 9; next = none })
    else none

abbrev queue : LinkedList
queue = record { first = some 3; last = some 8 }

queue-IsList : IsList two_elements queue (cell 3 10 5 ∷ cell 8 11 9 ∷ [])
unfolding Chain has_address last_ptr
queue-IsList = record { starts = refl; ends = refl; chain = (refl, refl, (refl, refl, tt)) }

operations-IsList_example :
    Becomes 4
      (cell 3 10 5 ∷ cell 8 11 9 ∷ [])
      (cell 3 10 5 ∷ cell 8 11 9 ∷ cell 4 12 0 ∷ [])
      two_elements
      (append 4 12 two_elements queue)
    × Becomes 4
        (cell 3 10 5 ∷ cell 8 11 9 ∷ [])
        (cell 4 12 0 ∷ cell 3 10 5 ∷ cell 8 11 9 ∷ [])
        two_elements
        (prepend 4 12 two_elements queue)
    × Becomes 4
        (cell 3 10 5 ∷ cell 8 11 9 ∷ [])
        (insert_cell (cell 4 12 7) (cell 3 10 5 ∷ cell 8 11 9 ∷ []))
        two_elements
        (sorted_insert 2 4 12 7 two_elements queue)
    × Takes two_elements queue (cell 3 10 5 ∷ cell 8 11 9 ∷ []) (sorted_remove two_elements queue)
operations-IsList_example =
    operations-IsList two_elements queue (cell 3 10 5 ∷ cell 8 11 9 ∷ []) 4 12 7 2 queue-IsList refl
      (omega arith)
