-- ===== src/Airport/Tickets.antt =====
-- The loop of LiaisonOfficer::DoWork of Project 2/code/threads/threadtest.cc that draws an airline with a ticket
-- left.
use tree_fiddy.Prelude.{
  ℕ, zero, suc, ◌%◌, ◌==◌, ◌<◌, ◌≡◌, arith, Bool, true, false, some, List, [], ◌∷◌, ltb, Bool-cases,
  if◌then◌else◌, inl, inr,
}
use tree_fiddy.Airport.{Sim, Airport, setup_airport, ticket_loop}
use tree_fiddy.Airport.Sums.{sum_to}
use tree_fiddy.Airport.Day.{Reach}
use tree_fiddy.Airport.Sold.{ticket_loop-some, IsTicketed, Reach-IsTicketed}

-- Whether one of the numbers drawn stands for airline a.
abbrev pub draws : (n a : ℕ) → List ℕ → Bool
draws n a [] = false
draws n a (r ∷ rs) = if r % n == a then true else draws n a rs

module _ (n : ℕ) (total issued : ℕ → ℕ) where
  ticket_loop-ends :
      (rolls : List ℕ) (a : ℕ)
      → issued a < total a
      → draws n a rolls ≡ true
      → (b : ℕ) × (ticket_loop n total issued rolls ≡ some b)
  unfolding ticket_loop
  ticket_loop-ends [] a lt d = cc
  ticket_loop-ends (r ∷ rs) a lt d = elim (Bool-cases (ltb (issued (r % n)) (total (r % n)))) [
    | inl t ↦ (r % n, ground arith)
    | inr f ↦
        let rest : (b : ℕ) × (ticket_loop n total issued rs ≡ some b) =
          ticket_loop-ends rs a lt (ground arith) in
        (rest.0, ground (arith, rest.1))
  ]

-- Below n, f has a term smaller than g's.
abbrev HasSmaller : ℕ → (ℕ → ℕ) → (ℕ → ℕ) → Type 0
HasSmaller n f g = (a : ℕ) × (a < n) × (f a < g a)

HasSmaller-suc : (n : ℕ) (f g : ℕ → ℕ) → HasSmaller n f g → HasSmaller (suc n) f g
HasSmaller-suc n f g (a, lt, less) = (a, omega arith, less)

smaller_term : (n : ℕ) (f g : ℕ → ℕ) → sum_to n f < sum_to n g → HasSmaller n f g
smaller_term zero f g h = elim h [ ]
smaller_term (suc n) f g h = elim (Bool-cases (ltb (f n) (g n))) [
  | inl t ↦ (n, omega arith, ground arith)
  | inr no_less ↦ HasSmaller-suc n f g (smaller_term n f g (ground arith))
]

-- Ends with an airline that has a ticket left.
abbrev pub FindsTicket : List ℕ → Airport → Type 0
FindsTicket rolls s =
    (a : ℕ) × (ticket_loop s.sim.airlines s.total_passengers_of_airline s.tickets_issued rolls
      ≡ some a)
    × (a < s.sim.airlines)
    × (s.tickets_issued a < s.total_passengers_of_airline a)

finds_drawn :
    (rolls : List ℕ) (s : Airport)
    → 0 < s.sim.airlines
    → ((a : ℕ) → a < s.sim.airlines → draws s.sim.airlines a rolls ≡ true)
    → HasSmaller s.sim.airlines s.tickets_issued s.total_passengers_of_airline
    → FindsTicket rolls s
finds_drawn rolls s pos all_drawn (a, lt, room) =
    let n : ℕ = s.sim.airlines in
    let end : (b : ℕ) × (ticket_loop n s.total_passengers_of_airline s.tickets_issued rolls
          ≡ some b) =
      ticket_loop-ends n s.total_passengers_of_airline s.tickets_issued rolls a room
        (all_drawn a lt) in
    let found : (end.0 < n) × (s.tickets_issued end.0 < s.total_passengers_of_airline end.0) =
      ticket_loop-some n s.total_passengers_of_airline s.tickets_issued rolls end.0 pos end.1 in
    (end.0, end.1, found.0, found.1)

-- After any steps from the set-up of at least one airline, while the liaisons have served fewer passengers than
-- there are, the loop of LiaisonOfficer::DoWork ends as soon as every airline has been drawn, and the airline it
-- ends with is one of the airlines and has a ticket left.
pub ticket_loop-FindsTicket :
    (m : Sim) (junk : ℕ → ℕ) (s : Airport) (rolls : List ℕ)
    → 0 < m.airlines
    → Reach (setup_airport m junk) s
    → sum_to s.sim.liaisons (λ l. (s.liaisons l).passenger_count) < s.sim.passengers
    → ((a : ℕ) → a < s.sim.airlines → draws s.sim.airlines a rolls ≡ true)
    → FindsTicket rolls s
ticket_loop-FindsTicket m junk s rolls pos r waiting all_drawn =
    let h : IsTicketed s = Reach-IsTicketed m junk pos r in
    finds_drawn rolls s h.0 all_drawn (
      smaller_term s.sim.airlines s.tickets_issued s.total_passengers_of_airline
        (omega (arith, waiting, h.2, h.3)))
