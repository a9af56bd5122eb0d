-- ===== src/LinkedList/Refines.antt =====
-- The operations of Project 2/code/threads/list.cc on the sequence that a list stands for.
use tree_fiddy.Prelude.{
  ℕ, zero, suc, ◌<◌, ◌≡◌, ◌≢◌, refl, sym, ◌∙◌, inl, inr, true, false, ◌||◌, none, some, List, [],
  ◌∷◌, ltb, ◌==◌, if◌then◌else◌, arith, Bool-cases, length,
}
use tree_fiddy.Prelude.Outcome.{Outcome, ok}
use tree_fiddy.LinkedList.{
  Ptr, ListElement, Heap, LinkedList, assign, set_next, new_element, insert_step, insert_loop,
}
use tree_fiddy.LinkedList.Chains.{
  Cell, holding, has_address, head_ptr, last_ptr, Chain, IsList, SameElsewhere, Chain-assign,
  assign_self, assign_ne,
}

abbrev pub cell : ℕ → ℕ → ℕ → Cell
cell a item key = record { at = a; item = item; key = key }

-- Before the first element with a larger key.
unfoldable pub insert_cell : Cell → List Cell → List Cell
insert_cell x [] = x ∷ []
insert_cell x (c ∷ cs) = if ltb x.key c.key then x ∷ c ∷ cs else c ∷ insert_cell x cs

pub set_next_lem :
    (a : ℕ) (q : Ptr) (h : Heap) (e : ListElement)
    → h a ≡ some e
    → set_next (some a) q h ≡ ok (assign a (some (record e { next = q })) h)
unfolding set_next
set_next_lem a q h e there = rw there refl

-- What an operation that makes a sequence of another, with the new element at a, leaves.
pub record Becomes (a : ℕ) (cs cs' : List Cell) (h : Heap) (r : Outcome (Heap × LinkedList))
    : Type 0 where
  pub heap : Heap
  pub list : LinkedList
  pub done : r ≡ ok (heap, list)
  pub is_list : IsList heap list cs'
  pub elsewhere : SameElsewhere a cs h heap

has_address-insert_cell :
    (b : ℕ) (x : Cell) (cs : List Cell)
    → has_address b (insert_cell x cs) ≡ ((b == x.at) || has_address b cs)
unfolding insert_cell has_address
has_address-insert_cell b x [] = refl
has_address-insert_cell b x (c ∷ cs) = ground (arith, has_address-insert_cell b x cs)

module _ (a item key : ℕ) where
  abbrev x : Cell
  x = cell a item key

  -- The element at c gets the new one as its successor, which has the rest as its own.
  pub link_in :
      (c : Cell) (cs : List Cell) (h : Heap)
      → h a ≡ some (holding x (head_ptr cs))
      → has_address a (c ∷ cs) ≡ false
      → Chain h (c ∷ cs)
      → Chain (assign c.at (some (holding c (some a))) h) (c ∷ x ∷ cs)
  unfolding Chain has_address
  link_in c cs h new apart (here, out, rest) =
      let differ : c.at ≢ a = λ e. absurd (ground arith) in
      let differ' : a ≢ c.at = λ e. differ (sym e) in
      (
        assign_self h c.at (some (holding c (some a))),
        ground arith,
        (
          assign_ne h c.at a (some (holding c (some a))) differ' ∙ new,
          ground arith,
          Chain-assign cs h c.at (some (holding c (some a))) out rest,
        ),
      )

  -- What the loop of SortedInsert leaves, from the element at c on.
  pub record Inserts (c : Cell) (cs : List Cell) (h : Heap) (l : LinkedList)
      (r : Outcome (Heap × LinkedList)) : Type 0 where
    pub heap : Heap
    pub list : LinkedList
    pub done : r ≡ ok (heap, list)
    pub same_first : list.first ≡ l.first
    pub ends : list.last ≡ last_ptr (c ∷ insert_cell x cs)
    pub chain : Chain heap (c ∷ insert_cell x cs)
    pub elsewhere : SameElsewhere a (c ∷ cs) h heap

  insert_at_end :
      (n : ℕ) (c : Cell) (h : Heap) (l : LinkedList)
      → h a ≡ some (new_element item key)
      → has_address a (c ∷ []) ≡ false
      → Chain h (c ∷ [])
      → l.last ≡ some c.at
      → Inserts c [] h l (insert_loop (suc n) a key (some c.at) h l)
  unfolding Chain has_address insert_loop insert_step last_ptr insert_cell
  insert_at_end n c h l new apart chain ends = record {
    heap = assign c.at (some (holding c (some a))) h;
    list = record l { last = some a };
    done = rw (chain.0) (rw ends (rw (set_next_lem c.at (some a) h (holding c none) chain.0) refl));
    same_first = refl;
    ends = refl;
    chain = link_in c [] h new apart chain;
    elsewhere =
        λ b p q. assign_ne h c.at b (some (holding c (some a))) (λ e. absurd (ground arith));
  }

  insert_here :
      (n : ℕ) (c d : Cell) (ds : List Cell) (h : Heap) (l : LinkedList)
      → h a ≡ some (new_element item key)
      → has_address a (c ∷ d ∷ ds) ≡ false
      → Chain h (c ∷ d ∷ ds)
      → l.last ≡ last_ptr (c ∷ d ∷ ds)
      → ltb key d.key ≡ true
      → Inserts c (d ∷ ds) h l (insert_loop (suc n) a key (some c.at) h l)
  unfolding Chain has_address insert_loop insert_step last_ptr insert_cell
  insert_here n c d ds h l new apart (here, out, (next, out', rest)) ends before =
      let h1 : Heap = assign a (some (holding x (some d.at))) h in
      let differ : c.at ≢ a = λ e. absurd (ground arith) in
      let here' : h1 c.at ≡ some (holding c (some d.at)) =
        assign_ne h a c.at (some (holding x (some d.at))) differ ∙ here in
      let first_set = set_next_lem a (some d.at) h (new_element item key) new in
      let second_set = set_next_lem c.at (some a) h1 (holding c (some d.at)) here' in
      let chain' : Chain h1 (c ∷ d ∷ ds) =
        Chain-assign (c ∷ d ∷ ds) h a (some (holding x (some d.at))) apart
          (here, out, (next, out', rest)) in
      record {
        heap = assign c.at (some (holding c (some a))) h1;
        list = l;
        done = rw here (rw next (rw before (rw first_set (rw second_set refl))));
        same_first = refl;
        ends = rw before ends;
        chain =
            rw before
              (link_in c (d ∷ ds) h1 (assign_self h a (some (holding x (some d.at)))) apart chain');
        elsewhere = λ b p q.
            assign_ne h1 c.at b (some (holding c (some a))) (λ e. absurd (ground arith))
            ∙ assign_ne h a b (some (holding x (some d.at))) p;
      }

  pub insert_loop-Inserts :
      (n : ℕ) (c : Cell) (cs : List Cell) (h : Heap) (l : LinkedList)
      → length cs < n
      → h a ≡ some (new_element item key)
      → has_address a (c ∷ cs) ≡ false
      → Chain h (c ∷ cs)
      → l.last ≡ last_ptr (c ∷ cs)
      → Inserts c cs h l (insert_loop n a key (some c.at) h l)
  unfolding Chain has_address insert_loop insert_step last_ptr insert_cell
  insert_loop-Inserts zero c cs h l enough new apart chain ends = absurd (omega arith)
  insert_loop-Inserts (suc n) c [] h l enough new apart chain ends =
      insert_at_end n c h l new apart chain ends
  insert_loop-Inserts (suc n) c (d ∷ ds) h l enough new apart (here, out, (next, out', rest)) ends =
      elim (Bool-cases (ltb key d.key)) [
        | inl before ↦
            insert_here n c d ds h l new apart (here, out, (next, out', rest)) ends before
        | inr after ↦
            let i =
              insert_loop-Inserts n d ds h l (omega arith) new (ground arith) (next, out', rest)
                ends in
            let kept : i.heap c.at ≡ h c.at =
              i.elsewhere c.at (λ e. absurd (ground arith)) (ground arith) in
            record {
              heap = i.heap;
              list = i.list;
              done = rw here (rw next (rw after i.done));
              same_first = i.same_first;
              ends = rw after i.ends;
              chain =
                  rw after
                    (kept ∙ here, ground (arith, has_address-insert_cell c.at x ds), i.chain);
              elsewhere = λ b p q. i.elsewhere b p (ground arith);
            }
      ]
