-- ===== src/Airport/Reports.antt =====
-- What AirportManager::EndOfDay of Project 2/code/threads/threadtest.cc reports, against what has happened.
use tree_fiddy.Prelude.{
  ℕ, zero, suc, ◌+◌, ◌*◌, ◌<◌, ◌≡◌, refl, ◌∙◌, arith, List, [], ◌∷◌, ltb, if◌then◌else◌,
}
use tree_fiddy.Airport.{Baggage, CheckInOfficer, Sim, Airport, fill, add_at, setup_airport}
use tree_fiddy.Airport.Sums.{sum_to, fill_below}
use tree_fiddy.Airport.Day.{
  add_row, add_rows, add_weights, add_officers, add_counts, end_of_day, new_manager, AirportManager,
  Reach, here, next, Step, directed, told, joined, left, served, helped, dropped, took, loaded,
  reached, called, next_in_line_cases, call_boarding_cases, hold_bag_cases,
}
use tree_fiddy.Airport.Accounts.{tally, held_bags, HasAccounts, Step-HasAccounts, setup-HasAccounts}
use tree_fiddy.Airport.Sold.{unread_bags, Reach-IsTicketed, IsTicketed}

add_row-at :
    (n j : ℕ) (part total : ℕ → ℕ)
    → add_row n part total j ≡ total j + (if ltb j n then part j else 0)
add_row-at zero j part total = ground arith
add_row-at (suc n) j part total = ground (arith, add_row-at n j part total)

add_rows-at :
    (k n j : ℕ) (part : ℕ → ℕ → ℕ) (total : ℕ → ℕ)
    → j < n
    → add_rows k n part total j ≡ total j + sum_to k (λ i. part i j)
add_rows-at zero n j part total lt = omega arith
add_rows-at (suc k) n j part total lt =
    ground
      (arith, add_row-at n j (part k) (add_rows k n part total), add_rows-at k n j part total lt)

add_weights-at :
    (bs : List Baggage) (total : ℕ → ℕ) (j : ℕ)
    → add_weights bs total j ≡ total j + tally (λ b. b.weight) j bs
add_weights-at [] total j = omega arith
add_weights-at (b ∷ bs) total j =
    ground (arith, add_weights-at bs (add_at b.airline_code b.weight total) j)

add_officers-at :
    (k : ℕ) (check_in : ℕ → CheckInOfficer) (total : ℕ → ℕ) (j : ℕ)
    → add_officers k check_in total j
      ≡ total j + sum_to k (λ i. tally (λ b. b.weight) j (check_in i).total_bags)
add_officers-at zero check_in total j = omega arith
add_officers-at (suc k) check_in total j = omega (
  arith,
  add_weights-at (check_in k).total_bags (add_officers k check_in total) j,
  add_officers-at k check_in total j,
)

add_counts-sum :
    (k : ℕ) (part : ℕ → ℕ) (total : ℕ) → add_counts k part total ≡ total + sum_to k part
add_counts-sum zero part total = omega arith
add_counts-sum (suc k) part total = omega (arith, add_counts-sum k part total)

-- What the report says of airline a.
abbrev pub Agrees : AirportManager → ℕ → Airport → Type 0
Agrees r a s =
    (r.cargo_handler_total_count a ≡ s.aircraft_baggage_count a)
    × (r.cargo_handler_total_weight a ≡ s.aircraft_baggage_weight a)
    × (r.cio_total_weight a
        ≡ r.cargo_handler_total_weight a
          + held_bags (λ b. b.weight) a s
          + tally (λ b. b.weight) a s.conveyor)
    × (r.liaison_total_count a ≡ s.liaison_baggage_count a)
    × (r.liaison_total_count a ≡ s.total_baggage a + unread_bags a s)
    × (r.liaison_passenger_count ≡ sum_to s.sim.airlines s.tickets_issued)

end_of_day-Agrees :
    (junk : ℕ → ℕ) (a : ℕ) (s : Airport)
    → a < s.sim.airlines
    → HasAccounts a s
    → IsTicketed s
    → Agrees (end_of_day s (new_manager s.sim junk)) a s
unfolding end_of_day
end_of_day-Agrees junk a s lt h k =
    let n : ℕ = s.sim.airlines in
    let start : ℕ → ℕ = fill n 0 junk in
    let start_zero : start a ≡ 0 = fill_below n a 0 junk lt in
    let loaded_weight : add_rows s.sim.cargo_handlers n (λ i. (s.cargo_handlers i).weight) start a
        ≡ s.aircraft_baggage_weight a =
      omega (
        arith,
        start_zero,
        h.1.1,
        add_rows-at s.sim.cargo_handlers n a (λ i. (s.cargo_handlers i).weight) start lt,
      ) in
    let liaison_row : add_rows s.sim.liaisons n (λ l. (s.liaisons l).airline_baggage_count) start a
        ≡ s.liaison_baggage_count a =
      omega (
        arith,
        start_zero,
        k.4 a lt,
        add_rows-at s.sim.liaisons n a (λ l. (s.liaisons l).airline_baggage_count) start lt,
      ) in
    (
      omega (
        arith,
        start_zero,
        h.0.1,
        add_rows-at s.sim.cargo_handlers n a (λ i. (s.cargo_handlers i).count) start lt,
      ),
      loaded_weight,
      omega (
        arith,
        start_zero,
        loaded_weight,
        h.1.0,
        add_officers-at (s.sim.cios * n) s.check_in start a,
      ),
      liaison_row,
      omega (arith, k.5 a lt, liaison_row),
      omega (arith, k.2, add_counts-sum s.sim.liaisons (λ l. (s.liaisons l).passenger_count) 0),
    )

Step-sim : {s t : Airport} → Step s t → t.sim ≡ s.sim
Step-sim (directed l b info rolls lt free e) = refl
Step-sim (told l info bags lt e) = refl
Step-sim (joined i) = refl
Step-sim (left i) = refl
Step-sim (served {s} k lt) = next_in_line_cases (λ t. t.sim ≡ s.sim) k s refl refl refl
Step-sim (helped k lt) = refl
Step-sim (dropped k b lt) = refl
Step-sim (took {s} n lt free) =
    hold_bag_cases (λ t. t.sim ≡ s.sim) n s.conveyor s refl (λ b bs. refl)
Step-sim (loaded n b lt e) = refl
Step-sim (reached b) = refl
Step-sim (called {s} i lt) = call_boarding_cases (λ t. t.sim ≡ s.sim) i s refl refl

Reach-sim : (m : Sim) (junk : ℕ → ℕ) {s : Airport} → Reach (setup_airport m junk) s → s.sim ≡ m
unfolding setup_airport
Reach-sim m junk here = refl
Reach-sim m junk (next r st) = Step-sim st ∙ Reach-sim m junk r

Reach-HasAccounts :
    (m : Sim) (junk : ℕ → ℕ) (a : ℕ) {s : Airport}
    → a < m.airlines
    → Reach (setup_airport m junk) s
    → HasAccounts a s
Reach-HasAccounts m junk a lt here = setup-HasAccounts m junk a lt
Reach-HasAccounts m junk a lt (next r st) = Step-HasAccounts a st (Reach-HasAccounts m junk a lt r)

-- After any steps from the set-up, EndOfDay of a new manager reports of every airline: as many bags, and as much
-- weight, from the cargo handlers as its aircraft has; from the check-in staff that weight and what the handlers
-- hold and the conveyor carries; from the liaisons the bags of the set-up's count, totalBaggage, and those that a
-- passenger has not read of yet, and for all airlines together a passenger for each ticket.
pub end_of_day-reachable-Agrees :
    (m : Sim) (junk stale : ℕ → ℕ) (s : Airport) (a : ℕ)
    → Reach (setup_airport m junk) s
    → a < m.airlines
    → Agrees (end_of_day s (new_manager s.sim stale)) a s
end_of_day-reachable-Agrees m junk stale s a r lt =
    end_of_day-Agrees stale a s (rw (Reach-sim m junk r) lt) (Reach-HasAccounts m junk a lt r)
      (Reach-IsTicketed m junk (omega arith) r)
