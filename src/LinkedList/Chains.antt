-- ===== src/LinkedList/Chains.antt =====
-- The sequence that the elements of Project 2/code/threads/list.cc stand for.
use tree_fiddy.Prelude.{
  ℕ, ◌≡◌, ◌≢◌, refl, sym, ap, ◌∙◌, ◌⊎◌, inl, inr, Bool, true, false, ◌||◌, Option, none, some, List,
  [], ◌∷◌, ◌==◌, arith, Bool-cases,
}
use tree_fiddy.LinkedList.{Ptr, ListElement, Heap, LinkedList, assign}

-- An element of the sequence, with its address.
pub record Cell : Type 0 where
  pub at : ℕ
  pub item : ℕ
  pub key : ℕ

abbrev pub holding : Cell → Ptr → ListElement
holding c q = record { item = c.item; key = c.key; next = q }

-- The address of an element of the sequence.
unfoldable pub has_address : ℕ → List Cell → Bool
has_address b [] = false
has_address b (c ∷ cs) = (b == c.at) || has_address b cs

abbrev pub head_ptr : List Cell → Ptr
head_ptr [] = none
head_ptr (c ∷ cs) = some c.at

unfoldable pub last_ptr : List Cell → Ptr
last_ptr [] = none
last_ptr (c ∷ []) = some c.at
last_ptr (c ∷ d ∷ cs) = last_ptr (d ∷ cs)

-- The heap holds the elements, each with a pointer to the next and at an address of its own.
unfoldable pub Chain : Heap → List Cell → Type 0
Chain h [] = Unit
Chain h (c ∷ cs) =
    (h c.at ≡ some (holding c (head_ptr cs))) × (has_address c.at cs ≡ false) × Chain h cs

pub record IsList (h : Heap) (l : LinkedList) (cs : List Cell) : Type 0 where
  pub starts : l.first ≡ head_ptr cs
  pub ends : l.last ≡ last_ptr cs
  pub chain : Chain h cs

-- The heap is as before but at the addresses of the sequence and at a.
abbrev pub SameElsewhere : ℕ → List Cell → Heap → Heap → Type 0
SameElsewhere a cs h h' = (b : ℕ) → b ≢ a → has_address b cs ≡ false → h' b ≡ h b

pub Chain-same :
    (cs : List Cell) (h h' : Heap)
    → ((b : ℕ) → has_address b cs ≡ true → h' b ≡ h b)
    → Chain h cs
    → Chain h' cs
unfolding Chain has_address
Chain-same [] h h' same chain = tt
Chain-same (c ∷ cs) h h' same (here, apart, rest) =
    (same c.at (ground arith) ∙ here, apart, Chain-same cs h h' (λ b p. same b (ground arith)) rest)

-- An address in use is no new one.
pub unused-apart :
    (cs : List Cell) (h : Heap) (a : ℕ) → h a ≡ none → Chain h cs → has_address a cs ≡ false
unfolding Chain has_address
unused-apart [] h a unused chain = refl
unused-apart (c ∷ cs) h a unused (here, apart, rest) = elim (Bool-cases (a == c.at)) [
  | inl same ↦
      let at : a ≡ c.at = ground arith in
      let clash : none ≡ some (holding c (head_ptr cs)) = sym unused ∙ ap h at ∙ here in
      absurd (ground arith)
  | inr differ ↦ ground (arith, unused-apart cs h a unused rest)
]

-- A store to another address leaves the sequence.
pub Chain-assign :
    (cs : List Cell) (h : Heap) (a : ℕ) (e : Option ListElement)
    → has_address a cs ≡ false
    → Chain h cs
    → Chain (assign a e h) cs
unfolding assign
Chain-assign cs h a e apart chain =
    Chain-same cs h (assign a e h) (λ b there. go b there (Bool-cases (b == a))) chain
  where
    go :
        (b : ℕ)
        → has_address b cs ≡ true
        → ((b == a) ≡ true) ⊎ ((b == a) ≡ false)
        → assign a e h b ≡ h b
    go b there (inl same) =
        let at : b ≡ a = ground arith in
        let clash : has_address a cs ≡ true = ap (λ x. has_address x cs) (sym at) ∙ there in
        absurd (ground arith)
    go b there (inr differ) = rw differ refl

pub assign_self : (h : Heap) (a : ℕ) (e : Option ListElement) → assign a e h a ≡ e
unfolding assign
assign_self h a e = ground arith

pub assign_ne : (h : Heap) (a b : ℕ) (e : Option ListElement) → b ≢ a → assign a e h b ≡ h b
unfolding assign
assign_ne h a b e ne = ground arith
