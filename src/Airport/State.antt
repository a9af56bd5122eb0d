-- ===== src/Airport/State.antt =====
-- The data of the airport of Project 2/code/threads/threadtest.cc and threadtest.h: assignments to arrays, the
-- structs and classes, the variables that the threads share, and the constructors of the staff. Members that the
-- functions modelled neither read nor report are left out, as is CIOTotalCount of the manager.
use tree_fiddy.Prelude.{
  ℕ, zero, suc, ◌+◌, ◌/◌, Bool, false, Option, none, List, [], ◌==◌, if◌then◌else◌,
}

-- a[k] = v
abbrev pub assign_at {ℓ} : {A : Type ℓ} → ℕ → A → (ℕ → A) → ℕ → A
assign_at k v a j = if j == k then v else a j

-- a[k] += n
abbrev pub add_at : ℕ → ℕ → (ℕ → ℕ) → ℕ → ℕ
add_at k n a = assign_at k (a k + n) a

-- for (int i = 0; i < n; i++) a[i] = v;
abbrev pub fill {ℓ} : {A : Type ℓ} → ℕ → A → (ℕ → A) → ℕ → A
fill zero v a = a
fill (suc n) v a = assign_at n v (fill n v a)

pub record Baggage : Type 0 where
  pub airline_code : ℕ
  pub weight : ℕ

pub record LiaisonPassengerInfo : Type 0 where
  pub baggage_count : ℕ
  pub airline : ℕ
  pub passenger_name : ℕ

-- The numbers that simNumOf... hold.
pub record Sim : Type 0 where
  pub passengers : ℕ
  pub airlines : ℕ
  pub liaisons : ℕ
  pub cios : ℕ
  pub cargo_handlers : ℕ
  pub screening_officers : ℕ

pub record LiaisonOfficer : Type 0 where
  pub number : ℕ
  pub airline : ℕ
  pub passenger_count : ℕ
  pub airline_baggage_count : ℕ → ℕ

pub record CheckInOfficer : Type 0 where
  pub number : ℕ
  pub airline : ℕ
  pub passenger_count : ℕ
  pub total_bags : List Baggage
  pub on_break : Bool

-- A cargo handler; `hand` is the bag in `temp` between the conveyor and the aircraft.
pub record CargoHandler : Type 0 where
  pub name : ℕ
  pub on_break : Bool
  pub hand : Option Baggage
  pub weight : ℕ → ℕ
  pub count : ℕ → ℕ

-- The variables that the threads share, with the members of the staff. `lp_info` has what a liaison has written
-- for its passenger to read, and `none` when there is nothing to read.
pub record Airport : Type 0 where
  pub sim : Sim
  pub conveyor : List Baggage
  pub aircraft_baggage_count : ℕ → ℕ
  pub aircraft_baggage_weight : ℕ → ℕ
  pub boarding_lounges : ℕ → ℕ
  pub total_passengers_of_airline : ℕ → ℕ
  pub total_baggage : ℕ → ℕ
  pub total_weight : ℕ → ℕ
  pub tickets_issued : ℕ → ℕ
  pub liaison_baggage_count : ℕ → ℕ
  pub lp_info : ℕ → Option LiaisonPassengerInfo
  pub already_boarded : ℕ → Bool
  pub plane_count : ℕ
  pub check_in_line : ℕ → ℕ
  pub exec_line_needs_help : ℕ → Bool
  pub liaisons : ℕ → LiaisonOfficer
  pub check_in : ℕ → CheckInOfficer
  pub cargo_handlers : ℕ → CargoHandler
  pub passed_passengers : ℕ → ℕ  -- of the security officers

-- The constructors; `junk` is what the storage of an array held.
abbrev pub new_liaison : Sim → (ℕ → ℕ) → ℕ → LiaisonOfficer
new_liaison m junk i = record {
  number = i;
  airline = junk 0;
  passenger_count = 0;
  airline_baggage_count = fill m.airlines 0 junk;
}

abbrev pub new_check_in : Sim → ℕ → CheckInOfficer
new_check_in m i = record {
  number = i;
  airline = i / m.cios;
  passenger_count = 0;
  total_bags = [];
  on_break = false;
}

abbrev pub new_cargo_handler : Sim → (ℕ → ℕ) → ℕ → CargoHandler
new_cargo_handler m junk i = record {
  name = i;
  on_break = false;
  hand = none;
  weight = fill m.airlines 0 junk;
  count = fill m.airlines 0 junk;
}
