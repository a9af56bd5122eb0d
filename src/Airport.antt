-- ===== src/Airport.antt =====
-- The airport of Project 2/code/threads/threadtest.cc and threadtest.h: its set-up, the passengers' choice of a
-- line, and the work of liaisons, check-in staff, cargo handlers, screening officers and the manager on the
-- tickets and the baggage. A C array is a function of its index, and a loop over an array a recursion on its
-- count. Without the timer's random switches a thread runs until it waits, yields or finds a lock taken; what
-- it does between two such places is one function here, or several where it gives a lock back in between, and
-- the children put these in any order. rand() is a list of the numbers it gives. The calls of locks and
-- condition variables, the output and the talk at security are left out.
mod State
pub mod Sums
pub mod Day
pub mod Accounts
pub mod Sold
pub mod Tickets
pub mod Reports
pub mod Boarding
pub mod Lines
pub mod Screening
pub use State.*
use tree_fiddy.Prelude.{
  ℕ, zero, suc, ◌+◌, ◌-◌, ◌*◌, ◌/◌, ◌%◌, Bool, true, false, not, ◌&&◌, Option, none, some, List, [],
  ◌∷◌, ◌++◌, ltb, ◌==◌, if◌then◌else◌,
}
use tree_fiddy.Prelude.Outcome.{Outcome, ok, fault}

-- totalPassengersOfAirline after setupAirlines(simNumOfAirlines)
unfoldable pub passengers_of_airlines : Sim → ℕ → ℕ
passengers_of_airlines m =
    let even : ℕ → ℕ = fill m.airlines (m.passengers / m.airlines) (λ _. 0) in
    if ltb 0 (m.passengers % m.airlines) then add_at 0 (m.passengers % m.airlines) even else even

-- The state after setupAirlines and the constructors, the other global variables being 0 from the start.
unfoldable pub setup_airport : Sim → (ℕ → ℕ) → Airport
unfolding passengers_of_airlines
setup_airport m junk = record {
  sim = m;
  conveyor = [];
  aircraft_baggage_count = fill m.airlines 0 (λ _. 0);
  aircraft_baggage_weight = fill m.airlines 0 (λ _. 0);
  boarding_lounges = fill m.airlines 0 (λ _. 0);
  total_passengers_of_airline = passengers_of_airlines m;
  total_baggage = λ _. 0;
  total_weight = λ _. 0;
  tickets_issued = λ _. 0;
  liaison_baggage_count = λ _. 0;
  lp_info = λ _. none;
  already_boarded = λ _. false;
  plane_count = 0;
  check_in_line = λ _. 0;
  exec_line_needs_help = fill m.airlines true (λ _. false);
  liaisons = new_liaison m junk;
  check_in = new_check_in m;
  cargo_handlers = new_cargo_handler m junk;
  passed_passengers = λ _. 0;
}

-- The search for a shorter line than line `best`, in the `n` lines from `first` on.
unfoldable pub shorter_line : (ℕ → ℕ) → (n first best : ℕ) → ℕ
shorter_line line zero first best = best
shorter_line line (suc n) first best =
    shorter_line line n (suc first) (if ltb (line first) (line best) then first else best)

-- ChooseLiaisonLine: the line of the liaison
abbrev pub liaison_line : Sim → (ℕ → ℕ) → ℕ
liaison_line m line = shorter_line line (m.liaisons - 1) 1 0

-- ChooseLiaisonLine: the line at the check-in
abbrev pub check_in_choice : Sim → (ℕ → ℕ) → (economy : Bool) → (airline : ℕ) → ℕ
check_in_choice m line true airline = shorter_line line m.cios (airline * m.cios) (airline * m.cios)
check_in_choice m line false airline = m.cios * m.airlines + airline

-- LiaisonOfficer::DoWork: the loop for an airline with a ticket left; `none` when the numbers end first.
unfoldable pub ticket_loop : (airlines : ℕ) → (total issued : ℕ → ℕ) → List ℕ → Option ℕ
ticket_loop n total issued [] = none
ticket_loop n total issued (r ∷ rs) =
    let rest : Option ℕ = ticket_loop n total issued rs in
    if ltb (issued (r % n)) (total (r % n)) then some (r % n) else rest

-- LiaisonOfficer::DoWork: liaison l gives a ticket of airline a to the passenger that has written `info`.
abbrev pub issue_ticket : (l a : ℕ) → LiaisonPassengerInfo → Airport → Airport
issue_ticket l a info s =
    let o : LiaisonOfficer = s.liaisons l in
    record s {
      tickets_issued = add_at a 1 s.tickets_issued;
      liaisons =
          assign_at l
            (record o {
              airline = a;
              passenger_count = o.passenger_count + 1;
              airline_baggage_count = add_at a info.baggage_count o.airline_baggage_count;
            })
            s.liaisons;
      lp_info = assign_at l (some (record info { airline = a })) s.lp_info;
      liaison_baggage_count = add_at a info.baggage_count s.liaison_baggage_count;
    }

-- for (int i = 0; i < baggageCount; i++) totalWeight[airline] += bags[i].weight;
abbrev pub add_bag_weights : ℕ → List Baggage → (ℕ → ℕ) → ℕ → ℕ
add_bag_weights a [] t = t
add_bag_weights a (b ∷ bs) t = add_bag_weights a bs (add_at a b.weight t)

-- ChooseLiaisonLine: a passenger with these bags takes over the airline from liaison l.
abbrev pub take_ticket : ℕ → LiaisonPassengerInfo → List Baggage → Airport → Airport
take_ticket l info bags s = record s {
  lp_info = assign_at l none s.lp_info;
  total_baggage = add_at info.airline info.baggage_count s.total_baggage;
  total_weight = add_bag_weights info.airline bags s.total_weight;
}

-- ChooseLiaisonLine: a passenger joins a check-in line, and one leaves it.
abbrev pub join_line : ℕ → Airport → Airport
join_line i s = record s { check_in_line = add_at i 1 s.check_in_line }

abbrev pub leave_line : ℕ → Airport → Airport
leave_line i s = record s { check_in_line = assign_at i (s.check_in_line i - 1) s.check_in_line }

-- CheckInOfficer::DoWork: officer k has a passenger to serve.
abbrev pub count_passenger : ℕ → Airport → Airport
count_passenger k s =
    let o : CheckInOfficer = s.check_in k in
    record s {
      check_in =
          assign_at k (record o { passenger_count = o.passenger_count + 1; on_break = false })
            s.check_in;
    }

-- CheckInOfficer::DoWork: officer k takes a passenger from executive line x.
abbrev pub serve_exec_line : (k x : ℕ) → Airport → Airport
serve_exec_line k x s = count_passenger k (record s {
  exec_line_needs_help = assign_at (s.check_in k).airline false s.exec_line_needs_help;
  check_in_line = add_at k 1 (assign_at x (s.check_in_line x - 1) s.check_in_line);
})

abbrev pub go_on_break : ℕ → Airport → Airport
go_on_break k s = record s {
  check_in = assign_at k (record (s.check_in k) { on_break = true }) s.check_in;
}

-- CheckInOfficer::DoWork: officer k serves its executive line, its own line, or goes on break.
unfoldable pub next_in_line : ℕ → Airport → Airport
next_in_line k s =
    let x : ℕ = s.sim.airlines * s.sim.cios + (s.check_in k).airline in
    if ltb 0 (s.check_in_line x) && s.exec_line_needs_help (s.check_in k).airline
    then serve_exec_line k x s
    else (if ltb 0 (s.check_in_line k) then count_passenger k s else go_on_break k s)

-- CheckInOfficer::DoWork after it has helped the executive line
abbrev pub helped_exec_line : ℕ → Airport → Airport
helped_exec_line k s = record s {
  exec_line_needs_help = assign_at (s.check_in k).airline true s.exec_line_needs_help;
}

-- CheckInOfficer::DoWork: officer k puts one bag on the conveyor.
abbrev pub drop_bag : ℕ → Baggage → Airport → Airport
drop_bag k b s =
    let o : CheckInOfficer = s.check_in k in
    let coded : Baggage = record b { airline_code = o.airline } in
    record s {
      conveyor = s.conveyor ++ (coded ∷ []);
      check_in = assign_at k (record o { total_bags = o.total_bags ++ (coded ∷ []) }) s.check_in;
    }

-- CheckInOfficer::DoWork: the loop over baggageCount bags of the vector; a bag past its end is a fault.
unfoldable pub drop_bags : ℕ → ℕ → List Baggage → Airport → Outcome Airport
drop_bags k zero bags s = ok s
drop_bags k (suc n) [] s = fault
drop_bags k (suc n) (b ∷ bags) s = drop_bags k n bags (drop_bag k b s)

-- CargoHandler::DoWork: handler h takes a bag from the conveyor, or goes on break.
abbrev pub hold_bag : ℕ → List Baggage → Airport → Airport
hold_bag h [] s = record s {
  cargo_handlers = assign_at h (record (s.cargo_handlers h) { on_break = true }) s.cargo_handlers;
}
hold_bag h (b ∷ bs) s =
    let c : CargoHandler = s.cargo_handlers h in
    record s {
      conveyor = bs;
      cargo_handlers = assign_at h (record c { on_break = false; hand = some b }) s.cargo_handlers;
    }

abbrev pub take_bag : ℕ → Airport → Airport
take_bag h s = hold_bag h s.conveyor s

-- CargoHandler::DoWork: handler h puts its bag on the aircraft.
abbrev pub load_bag : ℕ → Baggage → Airport → Airport
load_bag h b s =
    let c : CargoHandler = s.cargo_handlers h in
    record s {
      aircraft_baggage_count = add_at b.airline_code 1 s.aircraft_baggage_count;
      aircraft_baggage_weight = add_at b.airline_code b.weight s.aircraft_baggage_weight;
      cargo_handlers =
          assign_at h
            (record c {
              hand = none;
              weight = add_at b.airline_code b.weight c.weight;
              count = add_at b.airline_code 1 c.count;
            })
            s.cargo_handlers;
    }

-- ChooseLiaisonLine: a passenger reaches the gate.
abbrev pub reach_gate : ℕ → Airport → Airport
reach_gate a s = record s { boarding_lounges = add_at a 1 s.boarding_lounges }

-- AirportManager::DoWork: whether airline i can board
abbrev pub can_board : ℕ → Airport → Bool
can_board i s =
    s.boarding_lounges i == s.total_passengers_of_airline i
    && (s.total_baggage i == s.aircraft_baggage_count i && not (s.already_boarded i))

-- AirportManager::DoWork: the boarding call of airline i
abbrev pub call_boarding : ℕ → Airport → Airport
call_boarding i s =
    let called : Airport = record s {
      already_boarded = assign_at i true s.already_boarded;
      plane_count = s.plane_count + 1;
    } in
    if can_board i s then called else s

-- ScreeningOfficer::DoWork: the look at n security officers from officer i on, where y is whether the one before
-- was free and `officer` is the number kept for the passenger.
unfoldable pub look_for_security :
    (n i : ℕ) (y : Bool) (officer : ℕ) → (ℕ → Bool) → Bool × ℕ × (ℕ → Bool)
look_for_security zero i y officer available = (y, officer, available)
look_for_security (suc n) i y officer available =
    look_for_security n (suc i) (available i) (if available i then i else officer)
      (if available i then assign_at i false available else available)
