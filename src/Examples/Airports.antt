-- ===== src/Examples/Airports.antt =====
-- An airport of Project 2/code/threads/threadtest.cc with two airlines and three passengers, one of whom has a
-- ticket of airline 1, a bag on the aircraft, one in the hand of a cargo handler and one on the conveyor.
use tree_fiddy.Prelude.{
  ℕ, ◌==◌, ◌<◌, ◌≤◌, ◌-◌, ◌*◌, ◌+◌, ◌≡◌, refl, Bool, true, false, [], ◌∷◌, arith,
}
use tree_fiddy.Airport.{
  Baggage, LiaisonPassengerInfo, Sim, Airport, setup_airport, passengers_of_airlines, ticket_loop,
  issue_ticket, take_ticket, drop_bag, take_bag, load_bag, reach_gate, call_boarding,
  look_for_security, liaison_line, check_in_choice,
}
use tree_fiddy.Airport.Day.{
  directed, told, dropped, took, loaded, reached, called, Reach, here, next, end_of_day,
  new_manager,
}
use tree_fiddy.Airport.Sums.{sum_to}
use tree_fiddy.Airport.Reports.{Agrees, end_of_day-reachable-Agrees}
use tree_fiddy.Airport.Tickets.{draws, FindsTicket, ticket_loop-FindsTicket}
use tree_fiddy.Airport.Boarding.{plane_count-AllCalled}
use tree_fiddy.Airport.Lines.{IsShortest, chosen_lines-IsShortest}
use tree_fiddy.Airport.Screening.{IsLook, look_for_security-IsLook}

abbrev small : Sim
small = record {
  passengers = 3;
  airlines = 2;
  liaisons = 2;
  cios = 2;
  cargo_handlers = 2;
  screening_officers = 2;
}

-- What the storage held.
abbrev storage : ℕ → ℕ
storage i = 7

abbrev weighs : ℕ → Baggage
weighs w = record { airline_code = 0; weight = w }

abbrev opened : Airport
opened = setup_airport small storage

abbrev told_info : ℕ → LiaisonPassengerInfo
told_info a = record { baggage_count = 3; airline = a; passenger_name = 0 }

abbrev ticketed : Airport
ticketed =
    take_ticket 0 (told_info 1) (weighs 30 ∷ weighs 40 ∷ weighs 50 ∷ [])
      (issue_ticket 0 1 (told_info 0) opened)

abbrev checked_in : Airport
checked_in = drop_bag 2 (weighs 50) (drop_bag 2 (weighs 40) (drop_bag 2 (weighs 30) ticketed))

abbrev at_work : Airport
at_work = call_boarding 1 (
    reach_gate 1
      (take_bag 1 (load_bag 0 (record { airline_code = 1; weight = 30 }) (take_bag 0 checked_in))))

Reach-ticketed : Reach opened ticketed
unfolding setup_airport ticket_loop passengers_of_airlines
Reach-ticketed =
    next (next here (directed 0 1 (told_info 0) (5 ∷ []) (omega arith) refl refl))
      (told 0 (told_info 1) (weighs 30 ∷ weighs 40 ∷ weighs 50 ∷ []) (omega arith) refl)

Reach-checked_in : Reach opened checked_in
unfolding setup_airport
Reach-checked_in =
    next
      (next (next Reach-ticketed (dropped 2 (weighs 30) (omega arith)))
        (dropped 2 (weighs 40) (omega arith)))
      (dropped 2 (weighs 50) (omega arith))

Reach-at_work : Reach opened at_work
unfolding setup_airport
Reach-at_work =
    next
      (next
        (next
          (next (next Reach-checked_in (took 0 (omega arith) refl)) (loaded 0 _ (omega arith) refl))
          (took 1 (omega arith) refl))
        (reached 1))
      (called 1 (omega arith))

end_of_day-reachable-Agrees_example :
    Agrees (end_of_day at_work (new_manager at_work.sim storage)) 1 at_work
end_of_day-reachable-Agrees_example =
    end_of_day-reachable-Agrees small storage storage at_work 1 Reach-at_work (omega arith)

plane_count-AllCalled_example :
    (at_work.plane_count ≤ at_work.sim.airlines)
    × (at_work.plane_count ≡ at_work.sim.airlines
        → (i : ℕ) → i < at_work.sim.airlines
        → at_work.already_boarded i ≡ true)
plane_count-AllCalled_example = plane_count-AllCalled small storage at_work Reach-at_work

all_drawn : (a : ℕ) → a < at_work.sim.airlines → draws at_work.sim.airlines a (4 ∷ 3 ∷ []) ≡ true
unfolding setup_airport
all_drawn a lt = ground arith

passengers_left :
    sum_to at_work.sim.liaisons (λ l. (at_work.liaisons l).passenger_count) < at_work.sim.passengers
unfolding setup_airport
passengers_left = omega arith

ticket_loop-FindsTicket_example : FindsTicket (4 ∷ 3 ∷ []) at_work
ticket_loop-FindsTicket_example =
    ticket_loop-FindsTicket small storage at_work (4 ∷ 3 ∷ []) (omega arith) Reach-at_work
      passengers_left all_drawn

-- Line i has five people less i.
abbrev falling : ℕ → ℕ
falling i = 5 - i

chosen_lines-IsShortest_example :
    IsShortest falling 0 2 (liaison_line small falling)
    × IsShortest falling (1 * 2) (1 * 2 + 2) (check_in_choice small falling true 1)
chosen_lines-IsShortest_example =
    chosen_lines-IsShortest small falling 1 (omega arith) (omega arith)

-- The first of three security officers is free and the last is not.
abbrev first_free : ℕ → Bool
first_free i = i == 0

look_for_security-IsLook_example : IsLook 0 2 first_free (look_for_security 3 0 false 0 first_free)
look_for_security-IsLook_example = look_for_security-IsLook 2 0 first_free
