-- ===== src/Airport/Sold.antt =====
-- The accounts of the liaisons of Project 2/code/threads/threadtest.cc: tickets, passengers and announced bags.
use native.Mathlib.Nat.{mod-lt, div-add-mod}
use tree_fiddy.Prelude.{
  Option, none, ap, ℕ, ◌+◌, ◌*◌, ◌/◌, ◌%◌, ◌==◌, ◌<◌, ◌≤◌, ◌≡◌, refl, sym, ◌∙◌, arith, some, List,
  [], ◌∷◌, if◌then◌else◌,
}
use tree_fiddy.Airport.{
  Baggage, LiaisonPassengerInfo, take_ticket, Sim, Airport, LiaisonOfficer, fill, add_at, assign_at,
  passengers_of_airlines, setup_airport, ticket_loop, issue_ticket,
}
use tree_fiddy.Airport.Sums.{
  sum_to, sum_to-zero, sum_to-assign_at, sum_to-add_at, sum_to-fill, fill_below,
}
use tree_fiddy.Airport.Day.{
  next_in_line_cases, hold_bag_cases, call_boarding_cases, Step, directed, told, joined, left,
  served, helped, dropped, took, loaded, reached, called, Reach, here, next,
}

module _ (n : ℕ) (total issued : ℕ → ℕ) where
  pub ticket_loop-some :
      (rolls : List ℕ) (a : ℕ)
      → 0 < n
      → ticket_loop n total issued rolls ≡ some a
      → (a < n) × (issued a < total a)
  unfolding ticket_loop
  ticket_loop-some [] a pos e = cc
  ticket_loop-some (r ∷ rs) a pos e = ground (arith, mod-lt r pos, ticket_loop-some rs a pos)

passengers_sum :
    (m : Sim) → 0 < m.airlines → sum_to m.airlines (passengers_of_airlines m) ≡ m.passengers
unfolding passengers_of_airlines
passengers_sum m pos =
    let even : ℕ → ℕ = fill m.airlines (m.passengers / m.airlines) (λ _. 0) in
    let shared : sum_to m.airlines even ≡ m.airlines * (m.passengers / m.airlines) =
      sum_to-fill m.airlines (m.passengers / m.airlines) (λ _. 0) in
    ground (
      arith,
      shared,
      div-add-mod m.passengers m.airlines,
      sum_to-add_at m.airlines 0 (m.passengers % m.airlines) even pos,
    )

-- The bags of airline a of which a liaison has told, as far as the passenger has not read it yet.
abbrev pub unread : ℕ → Option LiaisonPassengerInfo → ℕ
unread a none = 0
unread a (some info) = if a == info.airline then info.baggage_count else 0

abbrev pub unread_bags : ℕ → Airport → ℕ
unread_bags a s = sum_to s.sim.liaisons (λ l. unread a (s.lp_info l))

-- No airline has more tickets than passengers, each passenger served has one, all passengers have an airline, and
-- the liaisons' own counts of an airline's bags add up to the shared one, and that to what the passengers have
-- counted and what they have not read yet.
abbrev pub IsTicketed : Airport → Type 0
IsTicketed s =
    (0 < s.sim.airlines)
    × ((a : ℕ) → a < s.sim.airlines → s.tickets_issued a ≤ s.total_passengers_of_airline a)
    × (sum_to s.sim.liaisons (λ l. (s.liaisons l).passenger_count)
        ≡ sum_to s.sim.airlines s.tickets_issued)
    × (sum_to s.sim.airlines s.total_passengers_of_airline ≡ s.sim.passengers)
    × ((a : ℕ)
        → a < s.sim.airlines
        → sum_to s.sim.liaisons (λ l. (s.liaisons l).airline_baggage_count a)
          ≡ s.liaison_baggage_count a)
    × ((a : ℕ)
        → a < s.sim.airlines
        → s.liaison_baggage_count a ≡ s.total_baggage a + unread_bags a s)

issue_ticket-IsTicketed :
    (s : Airport) (l a : ℕ) (info : LiaisonPassengerInfo)
    → l < s.sim.liaisons
    → s.lp_info l ≡ none
    → a < s.sim.airlines
    → s.tickets_issued a < s.total_passengers_of_airline a
    → IsTicketed s
    → IsTicketed (issue_ticket l a info s)
issue_ticket-IsTicketed s l a info lt free airline room
      (pos, sold, served_all, everyone, bags, told_bags) =
    let n : ℕ = info.baggage_count in
    let o : LiaisonOfficer = s.liaisons l in
    let o' : LiaisonOfficer = record o {
      airline = a;
      passenger_count = o.passenger_count + 1;
      airline_baggage_count = add_at a n o.airline_baggage_count;
    } in
    let answer : Option LiaisonPassengerInfo = some (record info { airline = a }) in
    let sold' : (b : ℕ)
        → b < s.sim.airlines
        → add_at a 1 s.tickets_issued b ≤ s.total_passengers_of_airline b =
      λ b below. ground (arith, sold b below) in
    let bags' : (b : ℕ)
        → b < s.sim.airlines
        → sum_to s.sim.liaisons (λ j. (assign_at l o' s.liaisons j).airline_baggage_count b)
          ≡ add_at a n s.liaison_baggage_count b =
      λ b below. ground (
        arith,
        bags b below,
        sum_to-assign_at (λ z. z.airline_baggage_count b) l o' s.liaisons s.sim.liaisons lt,
      ) in
    let told' : (b : ℕ)
        → b < s.sim.airlines
        → add_at a n s.liaison_baggage_count b
          ≡ s.total_baggage b
            + sum_to s.sim.liaisons (λ j. unread b (assign_at l answer s.lp_info j)) =
      λ b below. ground (
        arith,
        told_bags b below,
        ap (unread b) free,
        sum_to-assign_at (unread b) l answer s.lp_info s.sim.liaisons lt,
      ) in
    (
      pos,
      sold',
      omega (
        arith,
        served_all,
        sum_to-add_at s.sim.airlines a 1 s.tickets_issued airline,
        sum_to-assign_at (λ z. z.passenger_count) l o' s.liaisons s.sim.liaisons lt,
      ),
      everyone,
      bags',
      told',
    )

take_ticket-IsTicketed :
    (s : Airport) (l : ℕ) (info : LiaisonPassengerInfo) (bags : List Baggage)
    → l < s.sim.liaisons
    → s.lp_info l ≡ some info
    → IsTicketed s
    → IsTicketed (take_ticket l info bags s)
take_ticket-IsTicketed s l info bags lt e (pos, sold, served_all, everyone, counted, told_bags) =
    let told' : (b : ℕ)
        → b < s.sim.airlines
        → s.liaison_baggage_count b
          ≡ add_at info.airline info.baggage_count s.total_baggage b
            + sum_to s.sim.liaisons (λ j. unread b (assign_at l none s.lp_info j)) =
      λ b below. ground (
        arith,
        told_bags b below,
        ap (unread b) e,
        sum_to-assign_at (unread b) l none s.lp_info s.sim.liaisons lt,
      ) in
    (pos, sold, served_all, everyone, counted, told')

Step-IsTicketed : {s t : Airport} → Step s t → IsTicketed s → IsTicketed t
Step-IsTicketed (directed {s} l a info rolls lt free e) h =
    let found : (a < s.sim.airlines) × (s.tickets_issued a < s.total_passengers_of_airline a) =
      ticket_loop-some s.sim.airlines s.total_passengers_of_airline s.tickets_issued rolls a h.0
        e in
    issue_ticket-IsTicketed s l a info lt free found.0 found.1 h
Step-IsTicketed (told {s} l info bags lt e) h = take_ticket-IsTicketed s l info bags lt e h
Step-IsTicketed (joined i) h = h
Step-IsTicketed (left i) h = h
Step-IsTicketed (served {s} k lt) h = next_in_line_cases IsTicketed k s h h h
Step-IsTicketed (helped k lt) h = h
Step-IsTicketed (dropped k b lt) h = h
Step-IsTicketed (took {s} n lt free) h = hold_bag_cases IsTicketed n s.conveyor s h (λ b bs. h)
Step-IsTicketed (loaded n b lt e) h = h
Step-IsTicketed (reached b) h = h
Step-IsTicketed (called {s} i lt) h = call_boarding_cases IsTicketed i s h h

setup-IsTicketed : (m : Sim) (junk : ℕ → ℕ) → 0 < m.airlines → IsTicketed (setup_airport m junk)
unfolding setup_airport
setup-IsTicketed m junk pos = (
  pos,
  (λ a lt. omega arith),
  sum_to-zero m.liaisons (λ _. 0) (λ i _. refl)
      ∙ sym (sum_to-zero m.airlines (λ _. 0) (λ i _. refl)),
  passengers_sum m pos,
  (λ a lt.
      sum_to-zero m.liaisons (λ _. fill m.airlines 0 junk a)
        (λ i _. fill_below m.airlines a 0 junk lt)),
  (λ a lt. omega (arith, sum_to-zero m.liaisons (λ _. 0) (λ i _. refl))),
)

pub Reach-IsTicketed :
    (m : Sim) (junk : ℕ → ℕ) {s : Airport}
    → 0 < m.airlines
    → Reach (setup_airport m junk) s
    → IsTicketed s
Reach-IsTicketed m junk pos here = setup-IsTicketed m junk pos
Reach-IsTicketed m junk pos (next r st) = Step-IsTicketed st (Reach-IsTicketed m junk pos r)
