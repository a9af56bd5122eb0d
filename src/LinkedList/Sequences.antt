-- ===== src/LinkedList/Sequences.antt =====
-- Append, Prepend, SortedInsert and SortedRemove of Project 2/code/threads/list.cc as operations on sequences.
use tree_fiddy.Prelude.{
  ℕ, ◌≤◌, ◌≡◌, ◌≢◌, refl, sym, ap, ◌∙◌, inl, inr, true, false, ◌||◌, Option, none, some, List, [],
  ◌∷◌, ◌++◌, ltb, arith, Bool-cases, length,
}
use tree_fiddy.Prelude.Outcome.{Outcome, ok}
use tree_fiddy.LinkedList.{
  Ptr, ListElement, Heap, LinkedList, assign, set_next, new_element, append, prepend, sorted_insert,
}
use tree_fiddy.LinkedList.Chains.{
  Cell, holding, has_address, last_ptr, Chain, unused-apart, Chain-assign, assign_self, assign_ne,
}
use tree_fiddy.LinkedList.Refines.{
  cell, insert_cell, Becomes, set_next_lem, link_in, insert_loop-Inserts,
}

has_address-append :
    (b : ℕ) (cs ds : List Cell) → has_address b (cs ++ ds) ≡ (has_address b cs || has_address b ds)
unfolding has_address
has_address-append b [] ds = refl
has_address-append b (c ∷ cs) ds = ground (arith, has_address-append b cs ds)

-- The last element, and the sequence with a new one after it.
record Extends (a item : ℕ) (c : Cell) (cs : List Cell) (h : Heap) : Type 0 where
  final : Cell
  is_last : last_ptr (c ∷ cs) ≡ some final.at
  there : h final.at ≡ some (holding final none)
  within : has_address final.at (c ∷ cs) ≡ true
  chain : Chain (assign final.at (some (holding final (some a))) h) (c ∷ cs ++ cell a item 0 ∷ [])
  new_last : last_ptr (c ∷ cs ++ cell a item 0 ∷ []) ≡ some a

extend :
    (a item : ℕ) (c : Cell) (cs : List Cell) (h : Heap)
    → h a ≡ some (new_element item 0)
    → has_address a (c ∷ cs) ≡ false
    → Chain h (c ∷ cs)
    → Extends a item c cs h
unfolding Chain has_address last_ptr
extend a item c [] h new apart (here, out, rest) = record {
  final = c;
  is_last = refl;
  there = here;
  within = ground arith;
  chain = link_in a item 0 c [] h new apart (here, out, rest);
  new_last = refl;
}
extend a item c (d ∷ ds) h new apart (here, out, rest) =
    let e = extend a item d ds h new (ground arith) rest in
    let differ : c.at ≢ e.final.at = λ same.
      let inside : has_address c.at (d ∷ ds) ≡ true =
        ap (λ b. has_address b (d ∷ ds)) same ∙ e.within in
      absurd (ground arith) in
    record {
      final = e.final;
      is_last = e.is_last;
      there = e.there;
      within = ground (arith, e.within);
      chain = (
        assign_ne h e.final.at c.at (some (holding e.final (some a))) differ ∙ here,
        ground (arith, has_address-append c.at (d ∷ ds) (cell a item 0 ∷ [])),
        e.chain,
      );
      new_last = e.new_last;
    }

abbrev pub list_of : Ptr → Ptr → LinkedList
list_of f z = record { first = f; last = z }

module _ (a item key : ℕ) (h : Heap) (unused : h a ≡ none) where
  abbrev with_new : Heap
  with_new = assign a (some (new_element item key)) h

  pub alone :
      (r : Outcome (Heap × LinkedList))
      → r ≡ ok (with_new, list_of (some a) (some a))
      → Becomes a [] (cell a item key ∷ []) h r
  unfolding Chain has_address last_ptr
  alone r done = record {
    heap = with_new;
    list = list_of (some a) (some a);
    done = done;
    is_list = record {
      starts = refl;
      ends = refl;
      chain = (assign_self h a (some (new_element item key)), refl, tt);
    };
    elsewhere = λ b p q. assign_ne h a b (some (new_element item key)) p;
  }

  module _ (c : Cell) (cs : List Cell) (z : Ptr) (ends : z ≡ last_ptr (c ∷ cs))
      (chain : Chain h (c ∷ cs)) where
    abbrev l : LinkedList
    l = list_of (some c.at) z

    apart : has_address a (c ∷ cs) ≡ false
    apart = unused-apart (c ∷ cs) h a unused chain

    still : Chain with_new (c ∷ cs)
    still = Chain-assign (c ∷ cs) h a (some (new_element item key)) apart chain

    new_there : with_new a ≡ some (new_element item key)
    new_there = assign_self h a (some (new_element item key))

    -- The new element before the sequence.
    in_front :
        (r : Outcome (Heap × LinkedList))
        → r
          ≡ ok
              (assign a (some (holding (cell a item key) (some c.at))) with_new, list_of (some a) z)
        → Becomes a (c ∷ cs) (cell a item key ∷ c ∷ cs) h r
    unfolding Chain has_address last_ptr
    in_front r done =
        let e : Option ListElement = some (holding (cell a item key) (some c.at)) in
        record {
          heap = assign a e with_new;
          list = list_of (some a) z;
          done = done;
          is_list = record {
            starts = refl;
            ends = ends;
            chain =
                (assign_self with_new a e, apart, Chain-assign (c ∷ cs) with_new a e apart still);
          };
          elsewhere =
              λ b p q. assign_ne with_new a b e p ∙ assign_ne h a b (some (new_element item key)) p;
        }

    set_new :
        set_next (some a) (some c.at) with_new
        ≡ ok (assign a (some (holding (cell a item key) (some c.at))) with_new)
    set_new = set_next_lem a (some c.at) with_new (new_element item key) new_there

    pub sorted_insert-cons :
        (rounds : ℕ)
        → length (c ∷ cs) ≤ rounds
        → Becomes a
            (c ∷ cs)
            (insert_cell (cell a item key) (c ∷ cs))
            h
            (sorted_insert rounds a item key h l)
    unfolding sorted_insert insert_cell Chain
    sorted_insert-cons rounds enough = elim (Bool-cases (ltb key c.key)) [
      | inl before ↦ rw before (
          in_front (sorted_insert rounds a item key h l)
            (rw (still.0) (rw before (rw set_new refl))))
      | inr after ↦
          let i =
            insert_loop-Inserts a item key rounds c cs with_new l (omega arith) new_there apart
              still ends in
          rw after (record {
            heap = i.heap;
            list = i.list;
            done = rw (still.0) (rw after i.done);
            is_list = record { starts = i.same_first; ends = i.ends; chain = i.chain };
            elsewhere =
                λ b p q. i.elsewhere b p q ∙ assign_ne h a b (some (new_element item key)) p;
          })
    ]

module _ (a item : ℕ) (h : Heap) (unused : h a ≡ none) (c : Cell) (cs : List Cell) (z : Ptr)
    (ends : z ≡ last_ptr (c ∷ cs)) (chain : Chain h (c ∷ cs)) where
  pub prepend-cons :
      Becomes a (c ∷ cs) (cell a item 0 ∷ c ∷ cs) h (prepend a item h (list_of (some c.at) z))
  unfolding prepend
  prepend-cons =
      in_front a item 0 h unused c cs z ends chain (prepend a item h (list_of (some c.at) z))
        (rw (set_new a item 0 h unused c cs z ends chain) refl)

  pub append-cons :
      Becomes a (c ∷ cs) (c ∷ cs ++ cell a item 0 ∷ []) h (append a item h (list_of (some c.at) z))
  unfolding append has_address
  append-cons =
      let with_new' : Heap = assign a (some (new_element item 0)) h in
      let e =
        extend a item c cs with_new' (new_there a item 0 h unused c cs z ends chain)
          (apart a item 0 h unused c cs z ends chain) (still a item 0 h unused c cs z ends chain) in
      record {
        heap = assign e.final.at (some (holding e.final (some a))) with_new';
        list = list_of (some c.at) (some a);
        done = rw ends (
            rw (e.is_last) (
              rw (set_next_lem e.final.at (some a) with_new' (holding e.final none) e.there) refl));
        is_list = record { starts = refl; ends = sym e.new_last; chain = e.chain };
        elsewhere = λ b p q.
            assign_ne with_new' e.final.at b (some (holding e.final (some a)))
              (λ same. absurd (ground (arith, e.within, ap (λ x. has_address x (c ∷ cs)) same)))
            ∙ assign_ne h a b (some (new_element item 0)) p;
      }
