-- ===== src/Airport/Accounts.antt =====
-- The accounts of the airport of Project 2/code/threads/threadtest.cc: the bags and weights that check-in staff,
-- conveyor, cargo handlers and aircraft have, airline by airline.
use tree_fiddy.Prelude.{
  ℕ, ◌+◌, ◌*◌, ◌<◌, ◌≡◌, refl, sym, ◌∙◌, ap, arith, true, false, Option, none, some, List, [], ◌∷◌,
  ◌++◌, ◌==◌, if◌then◌else◌,
}
use tree_fiddy.Airport.{
  Sim, fill, setup_airport, Baggage, CheckInOfficer, CargoHandler, Airport, add_at, assign_at,
  drop_bag, next_in_line, hold_bag, load_bag,
}
use tree_fiddy.Airport.Sums.{sum_to, sum_to-zero, sum_to-assign_at, fill_below}
use tree_fiddy.Airport.Day.{
  next_in_line_cases, call_boarding_cases, Step, directed, told, joined, left, served, helped,
  dropped, took, loaded, reached, called,
}

-- The sum of m over the bags of airline a; m is 1 for a count.
abbrev pub tally : (Baggage → ℕ) → ℕ → List Baggage → ℕ
tally m a [] = 0
tally m a (b ∷ bs) = (if a == b.airline_code then m b else 0) + tally m a bs

abbrev pub in_hand : Option Baggage → List Baggage
in_hand none = []
in_hand (some b) = b ∷ []

tally-append :
    (m : Baggage → ℕ) (a : ℕ) (bs cs : List Baggage)
    → tally m a (bs ++ cs) ≡ tally m a bs + tally m a cs
tally-append m a [] cs = omega arith
tally-append m a (b ∷ bs) cs = omega (arith, tally-append m a bs cs)

-- What the check-in staff have dropped, what the handlers hold and what they have loaded for airline a.
abbrev pub dropped_bags : (Baggage → ℕ) → ℕ → Airport → ℕ
dropped_bags m a s = sum_to (s.sim.cios * s.sim.airlines) (λ k. tally m a (s.check_in k).total_bags)

abbrev pub held_bags : (Baggage → ℕ) → ℕ → Airport → ℕ
held_bags m a s = sum_to s.sim.cargo_handlers (λ h. tally m a (in_hand (s.cargo_handlers h).hand))

abbrev pub loaded_bags : (CargoHandler → ℕ → ℕ) → ℕ → Airport → ℕ
loaded_bags own a s = sum_to s.sim.cargo_handlers (λ h. own (s.cargo_handlers h) a)

-- In a measure m of bags that a handler and an aircraft add up: what is dropped is on the conveyor, in a hand or
-- on the aircraft, and what the handlers have loaded is on the aircraft.
abbrev pub IsBalanced : (Baggage → ℕ) → (CargoHandler → ℕ → ℕ) → (ℕ → ℕ) → ℕ → Airport → Type 0
IsBalanced m own aircraft a s =
    (dropped_bags m a s ≡ tally m a s.conveyor + held_bags m a s + aircraft a)
    × (loaded_bags own a s ≡ aircraft a)

abbrev pub HasAccounts : ℕ → Airport → Type 0
HasAccounts a s =
    IsBalanced (λ _. 1) (λ c. c.count) s.aircraft_baggage_count a s
    × IsBalanced (λ b. b.weight) (λ c. c.weight) s.aircraft_baggage_weight a s

module _ (m : Baggage → ℕ) (a : ℕ) (s : Airport) where
  drop_dropped :
      (k : ℕ) (b : Baggage)
      → k < s.sim.cios * s.sim.airlines
      → dropped_bags m a (drop_bag k b s)
        ≡ dropped_bags m a s + tally m a (record b { airline_code = (s.check_in k).airline } ∷ [])
  drop_dropped k b lt =
      let o : CheckInOfficer = s.check_in k in
      let coded : Baggage = record b { airline_code = o.airline } in
      let o' : CheckInOfficer = record o { total_bags = o.total_bags ++ (coded ∷ []) } in
      omega (
        arith,
        sum_to-assign_at (λ x. tally m a x.total_bags) k o' s.check_in (s.sim.cios * s.sim.airlines)
            lt,
        tally-append m a o.total_bags (coded ∷ []),
      )

  -- Handler h becomes c, the conveyor bags q, and the aircraft has y where it had x.
  handled :
      (own : CargoHandler → ℕ → ℕ) (h : ℕ) (c : CargoHandler) (q : List Baggage) (x y : ℕ)
      → h < s.sim.cargo_handlers
      → (dropped_bags m a s ≡ tally m a s.conveyor + held_bags m a s + x)
        × (loaded_bags own a s ≡ x)
      → tally m a q + tally m a (in_hand c.hand) + y
        ≡ tally m a s.conveyor + tally m a (in_hand (s.cargo_handlers h).hand) + x
      → own c a + x ≡ own (s.cargo_handlers h) a + y
      → let t : Airport = record s { cargo_handlers = assign_at h c s.cargo_handlers } in
        (dropped_bags m a s ≡ tally m a q + held_bags m a t + y) × (loaded_bags own a t ≡ y)
  handled own h c q x y lt b moved added = (
    omega (
      arith,
      b.0,
      moved,
      sum_to-assign_at (λ z. tally m a (in_hand z.hand)) h c s.cargo_handlers s.sim.cargo_handlers
          lt,
    ),
    omega (
      arith,
      b.1,
      added,
      sum_to-assign_at (λ z. own z a) h c s.cargo_handlers s.sim.cargo_handlers lt,
    ),
  )

module _ (a : ℕ) (s : Airport) (h : HasAccounts a s) where
  same_bags :
      (k : ℕ) (o : CheckInOfficer)
      → k < s.sim.cios * s.sim.airlines
      → o.total_bags ≡ (s.check_in k).total_bags
      → HasAccounts a (record s { check_in = assign_at k o s.check_in })
  same_bags k o lt e =
      let same : (m : Baggage → ℕ)
          → dropped_bags m a (record s { check_in = assign_at k o s.check_in })
            ≡ dropped_bags m a s =
        λ m. omega (
          arith,
          sum_to-assign_at (λ x. tally m a x.total_bags) k o s.check_in
              (s.sim.cios * s.sim.airlines) lt,
          ap (tally m a) e,
        ) in
      ((same (λ _. 1) ∙ h.0.0, h.0.1), (same (λ b. b.weight) ∙ h.1.0, h.1.1))

  next_in_line-HasAccounts :
      (k : ℕ) → k < s.sim.cios * s.sim.airlines → HasAccounts a (next_in_line k s)
  next_in_line-HasAccounts k lt =
      let o : CheckInOfficer = s.check_in k in
      let counted : CheckInOfficer = record o {
        passenger_count = o.passenger_count + 1;
        on_break = false;
      } in
      next_in_line_cases (HasAccounts a) k s (same_bags k counted lt refl)
        (same_bags k counted lt refl) (same_bags k (record o { on_break = true }) lt refl)

  drop_bag-HasAccounts :
      (k : ℕ) (b : Baggage) → k < s.sim.cios * s.sim.airlines → HasAccounts a (drop_bag k b s)
  drop_bag-HasAccounts k b lt =
      let coded : Baggage = record b { airline_code = (s.check_in k).airline } in
      let more : (m : Baggage → ℕ) (x y : ℕ)
          → dropped_bags m a s ≡ tally m a s.conveyor + x + y
          → dropped_bags m a (drop_bag k b s) ≡ tally m a (s.conveyor ++ (coded ∷ [])) + x + y =
        λ m x y e.
          omega (arith, drop_dropped m a s k b lt, tally-append m a s.conveyor (coded ∷ []), e) in
      ((more (λ _. 1) _ _ h.0.0, h.0.1), (more (λ z. z.weight) _ _ h.1.0, h.1.1))

  hold_bag-HasAccounts :
      (n : ℕ) (bs : List Baggage)
      → s.conveyor ≡ bs
      → n < s.sim.cargo_handlers
      → (s.cargo_handlers n).hand ≡ none
      → HasAccounts a (hold_bag n bs s)
  hold_bag-HasAccounts n [] e lt free =
      let c : CargoHandler = record (s.cargo_handlers n) { on_break = true } in
      (
        handled (λ _. 1) a s (λ z. z.count) n c s.conveyor _ _ lt h.0 refl refl,
        handled (λ z. z.weight) a s (λ z. z.weight) n c s.conveyor _ _ lt h.1 refl refl,
      )
  hold_bag-HasAccounts n (b ∷ bs) e lt free =
      let c : CargoHandler = record (s.cargo_handlers n) { on_break = false; hand = some b } in
      let moved : (m : Baggage → ℕ) (x : ℕ)
          → tally m a bs + tally m a (b ∷ []) + x
            ≡ tally m a s.conveyor + tally m a (in_hand (s.cargo_handlers n).hand) + x =
        λ m x. rw e (rw free (omega arith)) in
      (
        handled (λ _. 1) a s (λ z. z.count) n c bs _ _ lt h.0 (moved (λ _. 1) _) refl,
        handled (λ z. z.weight) a s (λ z. z.weight) n c bs _ _ lt h.1 (moved (λ z. z.weight) _)
            refl,
      )

  load_bag-HasAccounts :
      (n : ℕ) (b : Baggage)
      → n < s.sim.cargo_handlers
      → (s.cargo_handlers n).hand ≡ some b
      → HasAccounts a (load_bag n b s)
  load_bag-HasAccounts n b lt e =
      let o : CargoHandler = s.cargo_handlers n in
      let c : CargoHandler = record o {
        hand = none;
        weight = add_at b.airline_code b.weight o.weight;
        count = add_at b.airline_code 1 o.count;
      } in
      let moved : (m : Baggage → ℕ) (f : ℕ → ℕ)
          → tally m a s.conveyor + 0 + add_at b.airline_code (m b) f a
            ≡ tally m a s.conveyor + tally m a (in_hand o.hand) + f a =
        λ m f. rw e (ground arith) in
      let added : (v : ℕ) (f g : ℕ → ℕ)
          → add_at b.airline_code v f a + g a ≡ f a + add_at b.airline_code v g a =
        λ v f g. ground arith in
      (
        handled (λ _. 1) a s (λ z. z.count) n c s.conveyor _ _ lt h.0
            (moved (λ _. 1) s.aircraft_baggage_count) (added 1 o.count s.aircraft_baggage_count),
        handled (λ z. z.weight) a s (λ z. z.weight) n c s.conveyor _ _ lt h.1
            (moved (λ z. z.weight) s.aircraft_baggage_weight)
            (added b.weight o.weight s.aircraft_baggage_weight),
      )

pub Step-HasAccounts : (a : ℕ) {s t : Airport} → Step s t → HasAccounts a s → HasAccounts a t
Step-HasAccounts a (directed l b info rolls lt free e) h = h
Step-HasAccounts a (told l info bags lt e) h = h
Step-HasAccounts a (joined i) h = h
Step-HasAccounts a (left i) h = h
Step-HasAccounts a (served {s} k lt) h = next_in_line-HasAccounts a s h k lt
Step-HasAccounts a (helped k lt) h = h
Step-HasAccounts a (dropped {s} k b lt) h = drop_bag-HasAccounts a s h k b lt
Step-HasAccounts a (took {s} n lt free) h = hold_bag-HasAccounts a s h n s.conveyor refl lt free
Step-HasAccounts a (loaded {s} n b lt e) h = load_bag-HasAccounts a s h n b lt e
Step-HasAccounts a (reached b) h = h
Step-HasAccounts a (called {s} i lt) h = call_boarding_cases (HasAccounts a) i s h h

pub setup-HasAccounts :
    (m : Sim) (junk : ℕ → ℕ) (a : ℕ) → a < m.airlines → HasAccounts a (setup_airport m junk)
unfolding setup_airport
setup-HasAccounts m junk a lt =
    let none_dropped : (f : Baggage → ℕ) → dropped_bags f a (setup_airport m junk) ≡ 0 =
      λ f. sum_to-zero (m.cios * m.airlines) (λ _. 0) (λ i _. refl) in
    let none_held : (f : Baggage → ℕ) → held_bags f a (setup_airport m junk) ≡ 0 =
      λ f. sum_to-zero m.cargo_handlers (λ _. 0) (λ i _. refl) in
    let none_loaded : sum_to m.cargo_handlers (λ _. fill m.airlines 0 junk a) ≡ 0 =
      sum_to-zero m.cargo_handlers (λ _. fill m.airlines 0 junk a)
        (λ i _. fill_below m.airlines a 0 junk lt) in
    let aircraft : fill m.airlines 0 (λ _. 0) a ≡ 0 = fill_below m.airlines a 0 (λ _. 0) lt in
    (
      (
        omega (arith, none_dropped (λ _. 1), none_held (λ _. 1), aircraft),
        none_loaded ∙ sym aircraft,
      ),
      (
        omega (arith, none_dropped (λ b. b.weight), none_held (λ b. b.weight), aircraft),
        none_loaded ∙ sym aircraft,
      ),
    )
