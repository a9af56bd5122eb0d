-- ===== src/LinkedList/Whole.antt =====
-- The operations of Project 2/code/threads/list.cc together, as operations on sequences.
use tree_fiddy.Prelude.{
  ℕ, ◌≤◌, ◌≡◌, ◌≢◌, refl, sym, ap, subst, ◌∙◌, inl, inr, Bool-cases, true, false, Option, none,
  some, List, [], ◌∷◌, ◌++◌, ◌==◌, arith, length,
}
use tree_fiddy.Prelude.Outcome.{Outcome, ok}
use tree_fiddy.LinkedList.{
  Ptr, Heap, LinkedList, assign, append, prepend, sorted_insert, sorted_remove, delete,
}
use tree_fiddy.LinkedList.Chains.{
  Cell, has_address, head_ptr, last_ptr, Chain, IsList, Chain-assign, assign_self, assign_ne,
}
use tree_fiddy.LinkedList.Refines.{cell, insert_cell, Becomes}
use tree_fiddy.LinkedList.Sequences.{list_of, alone, sorted_insert-cons, prepend-cons, append-cons}

-- SortedRemove takes the first element off and gives its item and its key; on an empty list it gives a
-- null pointer.
unfoldable pub Takes :
    Heap → LinkedList → List Cell → Outcome (Option (ℕ × ℕ) × Heap × LinkedList) → Type 0
Takes h l [] r = r ≡ ok (none, h, l)
Takes h l (c ∷ cs) r =
    (h' : Heap) × (l' : LinkedList) × (r ≡ ok (some (c.item, c.key), h', l'))
    × IsList h' l' cs
    × (h' c.at ≡ none)
    × ((b : ℕ) → b ≢ c.at → h' b ≡ h b)

last_within :
    (c : Cell) (cs : List Cell)
    → (z : ℕ) × (last_ptr (c ∷ cs) ≡ some z) × (has_address z (c ∷ cs) ≡ true)
unfolding last_ptr has_address
last_within c [] = (c.at, refl, ground arith)
last_within c (d ∷ cs) = let (z, e, inside) = last_within d cs in (z, e, ground arith)

sorted_remove-cons :
    (h : Heap) (c : Cell) (cs : List Cell) (z : Ptr)
    → z ≡ last_ptr (c ∷ cs)
    → Chain h (c ∷ cs)
    → Takes h (list_of (some c.at) z) (c ∷ cs) (sorted_remove h (list_of (some c.at) z))
unfolding Takes sorted_remove delete Chain last_ptr
sorted_remove-cons h c [] z ends (here, apart, rest) =
    let same : (c.at == c.at) ≡ true = ground arith in
    (
      assign c.at none h,
      list_of none none,
      rw here (rw ends (rw same refl)),
      record { starts = refl; ends = refl; chain = tt },
      assign_self h c.at none,
      λ b p. assign_ne h c.at b none p,
    )
sorted_remove-cons h c (d ∷ ds) z ends (here, apart, rest) =
    let (final, is_last, inside) = last_within d ds in
    let differ : (c.at == final) ≡ false = elim (Bool-cases (c.at == final)) [
      | inl same ↦
          let at : c.at ≡ final = ground arith in
          let clash : has_address c.at (d ∷ ds) ≡ true =
            ap (λ b. has_address b (d ∷ ds)) at ∙ inside in
          absurd (ground arith)
      | inr other ↦ other
    ] in
    (
      assign c.at none h,
      list_of (some d.at) z,
      rw here (rw ends (rw is_last (rw differ refl))),
      record { starts = refl; ends = ends; chain = Chain-assign (d ∷ ds) h c.at none apart rest },
      assign_self h c.at none,
      λ b p. assign_ne h c.at b none p,
    )

on_empty :
    (h : Heap) (z : Ptr) (a item key rounds : ℕ)
    → h a ≡ none
    → Becomes a [] (cell a item 0 ∷ []) h (append a item h (list_of none z))
      × Becomes a [] (cell a item 0 ∷ []) h (prepend a item h (list_of none z))
      × Becomes a []
          (insert_cell (cell a item key) [])
          h
          (sorted_insert rounds a item key h (list_of none z))
      × Takes h (list_of none z) [] (sorted_remove h (list_of none z))
unfolding append prepend sorted_insert sorted_remove insert_cell Takes
on_empty h z a item key rounds unused = (
  alone a item 0 h unused (append a item h (list_of none z)) refl,
  alone a item 0 h unused (prepend a item h (list_of none z)) refl,
  alone a item key h unused (sorted_insert rounds a item key h (list_of none z)) refl,
  refl,
)

-- For a list of distinct elements in the heap, with a new element at an address that is not in use: Append
-- puts it last, Prepend first, and SortedInsert before the first element with a larger key, in at most as
-- many rounds as the list has elements; SortedRemove takes the first one off and deletes it. Each
-- returns, leaves a list of distinct elements and changes no other address than those of the list
-- and of the new element.
pub operations-IsList :
    (h : Heap) (l : LinkedList) (cs : List Cell) (a item key rounds : ℕ)
    → IsList h l cs
    → h a ≡ none
    → length cs ≤ rounds
    → Becomes a cs (cs ++ cell a item 0 ∷ []) h (append a item h l)
      × Becomes a cs (cell a item 0 ∷ cs) h (prepend a item h l)
      × Becomes a cs (insert_cell (cell a item key) cs) h (sorted_insert rounds a item key h l)
      × Takes h l cs (sorted_remove h l)
operations-IsList h l cs a item key rounds is unused enough =
    subst
      (λ f.
        Becomes a cs (cs ++ cell a item 0 ∷ []) h (append a item h (list_of f l.last))
        × Becomes a cs (cell a item 0 ∷ cs) h (prepend a item h (list_of f l.last))
        × Becomes a cs (insert_cell (cell a item key) cs) h
            (sorted_insert rounds a item key h (list_of f l.last))
        × Takes h (list_of f l.last) cs (sorted_remove h (list_of f l.last)))
      (sym is.starts) (on cs is.chain is.ends enough)
  where
    on :
        (cs : List Cell)
        → Chain h cs
        → l.last ≡ last_ptr cs
        → length cs ≤ rounds
        → Becomes a cs (cs ++ cell a item 0 ∷ []) h (append a item h (list_of (head_ptr cs) l.last))
          × Becomes a cs (cell a item 0 ∷ cs) h (prepend a item h (list_of (head_ptr cs) l.last))
          × Becomes a cs
              (insert_cell (cell a item key) cs)
              h
              (sorted_insert rounds a item key h (list_of (head_ptr cs) l.last))
          × Takes h
              (list_of (head_ptr cs) l.last)
              cs
              (sorted_remove h (list_of (head_ptr cs) l.last))
    on [] chain ends enough = on_empty h l.last a item key rounds unused
    on (c ∷ cs) chain ends enough = (
      append-cons a item h unused c cs l.last ends chain,
      prepend-cons a item h unused c cs l.last ends chain,
      sorted_insert-cons a item key h unused c cs l.last ends chain rounds enough,
      sorted_remove-cons h c cs l.last ends chain,
    )
