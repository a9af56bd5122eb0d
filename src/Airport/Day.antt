-- ===== src/Airport/Day.antt =====
-- A day at the airport of Project 2/code/threads/threadtest.cc: the orders in which the threads do their work,
-- and AirportManager::EndOfDay, which adds up what the staff have counted.
use tree_fiddy.Prelude.{
  ℕ, zero, suc, ◌+◌, ◌*◌, ◌<◌, ◌≤◌, ◌≡◌, refl, arith, length, none, some, List, [], ◌∷◌, true, ltb,
  ◌&&◌, if◌then◌else◌, if_cases,
}
use tree_fiddy.Prelude.Outcome.{ok}
use tree_fiddy.Airport.{
  LiaisonPassengerInfo, Sim, CheckInOfficer, Baggage, Airport, fill, add_at, ticket_loop,
  issue_ticket, take_ticket, join_line, leave_line, next_in_line, helped_exec_line, drop_bag,
  drop_bags, hold_bag, serve_exec_line, count_passenger, go_on_break, can_board, assign_at,
  take_bag, load_bag, reach_gate, call_boarding,
}

pub record AirportManager : Type 0 where
  pub cargo_handler_total_weight : ℕ → ℕ
  pub cargo_handler_total_count : ℕ → ℕ
  pub cio_total_weight : ℕ → ℕ
  pub liaison_total_count : ℕ → ℕ
  pub liaison_passenger_count : ℕ
  pub check_in_passenger_count : ℕ
  pub security_passenger_count : ℕ

-- AirportManager::AirportManager
abbrev pub new_manager : Sim → (ℕ → ℕ) → AirportManager
new_manager m junk = record {
  cargo_handler_total_weight = fill m.airlines 0 junk;
  cargo_handler_total_count = fill m.airlines 0 junk;
  cio_total_weight = fill m.airlines 0 junk;
  liaison_total_count = fill m.airlines 0 junk;
  liaison_passenger_count = 0;
  check_in_passenger_count = 0;
  security_passenger_count = 0;
}

-- for (int j = 0; j < n; j++) total[j] += part[j];
abbrev pub add_row : ℕ → (ℕ → ℕ) → (ℕ → ℕ) → ℕ → ℕ
add_row zero part total = total
add_row (suc n) part total = add_at n (part n) (add_row n part total)

-- The same for each of the first k members of the staff.
abbrev pub add_rows : (k n : ℕ) → (ℕ → ℕ → ℕ) → (ℕ → ℕ) → ℕ → ℕ
add_rows zero n part total = total
add_rows (suc k) n part total = add_row n (part k) (add_rows k n part total)

-- for (...) CIOTotalWeight[totalBags[j].airlineCode] += totalBags[j].weight;
abbrev pub add_weights : List Baggage → (ℕ → ℕ) → ℕ → ℕ
add_weights [] total = total
add_weights (b ∷ bs) total = add_weights bs (add_at b.airline_code b.weight total)

abbrev pub add_officers : ℕ → (ℕ → CheckInOfficer) → (ℕ → ℕ) → ℕ → ℕ
add_officers zero check_in total = total
add_officers (suc k) check_in total =
    add_weights (check_in k).total_bags (add_officers k check_in total)

-- for (int i = 0; i < k; i++) total += part[i];
abbrev pub add_counts : ℕ → (ℕ → ℕ) → ℕ → ℕ
add_counts zero part total = total
add_counts (suc k) part total = add_counts k part total + part k

-- AirportManager::EndOfDay
unfoldable pub end_of_day : Airport → AirportManager → AirportManager
end_of_day s m =
    let n : ℕ = s.sim.airlines in
    record m {
      cargo_handler_total_weight =
          add_rows s.sim.cargo_handlers n (λ h. (s.cargo_handlers h).weight)
            m.cargo_handler_total_weight;
      cargo_handler_total_count =
          add_rows s.sim.cargo_handlers n (λ h. (s.cargo_handlers h).count)
            m.cargo_handler_total_count;
      cio_total_weight = add_officers (s.sim.cios * n) s.check_in m.cio_total_weight;
      liaison_total_count =
          add_rows s.sim.liaisons n (λ l. (s.liaisons l).airline_baggage_count)
            m.liaison_total_count;
      liaison_passenger_count =
          add_counts s.sim.liaisons (λ l. (s.liaisons l).passenger_count) m.liaison_passenger_count;
      check_in_passenger_count =
          add_counts (s.sim.cios * n) (λ k. (s.check_in k).passenger_count)
            m.check_in_passenger_count;
      security_passenger_count =
          add_counts s.sim.screening_officers s.passed_passengers m.security_passenger_count;
    }

-- What one thread does between two switches, l, k, h and i being numbers of the staff and of airlines.
pub data Step : Airport → Airport → Type 0 where
  directed :
      {s : Airport} (l a : ℕ) (info : LiaisonPassengerInfo) (rolls : List ℕ)
      → l < s.sim.liaisons
      → s.lp_info l ≡ none
      → ticket_loop s.sim.airlines s.total_passengers_of_airline s.tickets_issued rolls ≡ some a
      → Step s (issue_ticket l a info s)
  told :
      {s : Airport} (l : ℕ) (info : LiaisonPassengerInfo) (bags : List Baggage)
      → l < s.sim.liaisons
      → s.lp_info l ≡ some info
      → Step s (take_ticket l info bags s)
  joined : {s : Airport} (i : ℕ) → Step s (join_line i s)
  left : {s : Airport} (i : ℕ) → Step s (leave_line i s)
  served : {s : Airport} (k : ℕ) → k < s.sim.cios * s.sim.airlines → Step s (next_in_line k s)
  helped : {s : Airport} (k : ℕ) → k < s.sim.cios * s.sim.airlines → Step s (helped_exec_line k s)
  dropped :
      {s : Airport} (k : ℕ) (b : Baggage)
      → k < s.sim.cios * s.sim.airlines
      → Step s (drop_bag k b s)
  took :
      {s : Airport} (h : ℕ)
      → h < s.sim.cargo_handlers
      → (s.cargo_handlers h).hand ≡ none
      → Step s (take_bag h s)
  loaded :
      {s : Airport} (h : ℕ) (b : Baggage)
      → h < s.sim.cargo_handlers
      → (s.cargo_handlers h).hand ≡ some b
      → Step s (load_bag h b s)
  reached : {s : Airport} (a : ℕ) → Step s (reach_gate a s)
  called : {s : Airport} (i : ℕ) → i < s.sim.airlines → Step s (call_boarding i s)

pub data Reach (s : Airport) : Airport → Type 0 where
  here : Reach s s
  next : {t u : Airport} → Reach s t → Step t u → Reach s u

-- A property that holds after each branch of a handler holds after the handler.
pub next_in_line_cases :
    (P : Airport → Type 0) (k : ℕ) (s : Airport)
    → P (serve_exec_line k (s.sim.airlines * s.sim.cios + (s.check_in k).airline) s)
    → P (count_passenger k s)
    → P (go_on_break k s)
    → P (next_in_line k s)
unfolding next_in_line
next_in_line_cases P k s exec own rest =
    let x : ℕ = s.sim.airlines * s.sim.cios + (s.check_in k).airline in
    if_cases P (ltb 0 (s.check_in_line x) && s.exec_line_needs_help (s.check_in k).airline)
      (serve_exec_line k x s)
      (if ltb 0 (s.check_in_line k) then count_passenger k s else go_on_break k s) exec
      (if_cases P (ltb 0 (s.check_in_line k)) (count_passenger k s) (go_on_break k s) own rest)

pub hold_bag_cases :
    (P : Airport → Type 0) (h : ℕ) (bs : List Baggage) (s : Airport)
    → P (hold_bag h [] s)
    → ((b : Baggage) (rest : List Baggage) → P (hold_bag h (b ∷ rest) s))
    → P (hold_bag h bs s)
hold_bag_cases P h [] s empty full = empty
hold_bag_cases P h (b ∷ bs) s empty full = full b bs

pub call_boarding_cases :
    (P : Airport → Type 0) (i : ℕ) (s : Airport)
    → P (record s {
      already_boarded = assign_at i true s.already_boarded;
      plane_count = s.plane_count + 1;
    })
    → P s
    → P (call_boarding i s)
call_boarding_cases P i s boards stays =
    if_cases P (can_board i s)
      (record s {
        already_boarded = assign_at i true s.already_boarded;
        plane_count = s.plane_count + 1;
      })
      s boards stays

Reach-before : {s t u : Airport} → Step s t → Reach t u → Reach s u
Reach-before st here = next here st
Reach-before st (next r st') = next (Reach-before st r) st'

-- An officer drops n bags of a vector that has as many in n steps.
drop_bags-Reach :
    (k n : ℕ) (bags : List Baggage) (s : Airport)
    → k < s.sim.cios * s.sim.airlines
    → n ≤ length bags
    → (t : Airport) × (drop_bags k n bags s ≡ ok t) × Reach s t
unfolding drop_bags
drop_bags-Reach k zero bags s lt h = (s, refl, here)
drop_bags-Reach k (suc n) [] s lt h = absurd (omega arith)
drop_bags-Reach k (suc n) (b ∷ bags) s lt h =
    let rest : (t : Airport) × (drop_bags k n bags (drop_bag k b s) ≡ ok t)
        × Reach (drop_bag k b s) t =
      drop_bags-Reach k n bags (drop_bag k b s) lt (omega arith) in
    (rest.0, rest.1, Reach-before (dropped k b lt) rest.2)
