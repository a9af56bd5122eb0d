-- ===== src/Airport/Boarding.antt =====
-- The boarding calls of AirportManager::DoWork of Project 2/code/threads/threadtest.cc.
use tree_fiddy.Prelude.{
  ℕ, zero, suc, ◌<◌, ◌≤◌, ◌≡◌, refl, sym, arith, Bool, true, false, bit, Bool-cases, inl, inr, ap,
  ℕ_discrete,
}
use tree_fiddy.Airport.{Sim, Airport, setup_airport, can_board, call_boarding}
use tree_fiddy.Airport.Sums.{sum_to, sum_to-assign_at, sum_to-zero}
use tree_fiddy.Airport.Day.{
  Step, directed, told, joined, left, served, helped, dropped, took, loaded, reached, called, Reach,
  here, next, next_in_line_cases, hold_bag_cases,
}

-- The planes counted are the airlines that have boarded.
abbrev pub IsCalled : Airport → Type 0
IsCalled s = s.plane_count ≡ sum_to s.sim.airlines (λ i. bit (s.already_boarded i))

can_board_not_yet : (i : ℕ) (s : Airport) → can_board i s ≡ true → s.already_boarded i ≡ false
can_board_not_yet i s e = ground arith

call_boarding-IsCalled :
    (i : ℕ) (s : Airport) → i < s.sim.airlines → IsCalled s → IsCalled (call_boarding i s)
call_boarding-IsCalled i s lt h = elim (Bool-cases (can_board i s)) [
  | inl yes_board ↦ rw yes_board (
      omega (
        arith,
        h,
        ap bit (can_board_not_yet i s yes_board),
        sum_to-assign_at bit i true s.already_boarded s.sim.airlines lt,
      ))
  | inr no_board ↦ rw no_board h
]

Step-IsCalled : {s t : Airport} → Step s t → IsCalled s → IsCalled t
Step-IsCalled (directed l b info rolls lt free e) h = h
Step-IsCalled (told l info bags lt e) h = h
Step-IsCalled (joined i) h = h
Step-IsCalled (left i) h = h
Step-IsCalled (served {s} k lt) h = next_in_line_cases IsCalled k s h h h
Step-IsCalled (helped k lt) h = h
Step-IsCalled (dropped k b lt) h = h
Step-IsCalled (took {s} n lt free) h = hold_bag_cases IsCalled n s.conveyor s h (λ b bs. h)
Step-IsCalled (loaded n b lt e) h = h
Step-IsCalled (reached b) h = h
Step-IsCalled (called {s} i lt) h = call_boarding-IsCalled i s lt h

Reach-IsCalled :
    (m : Sim) (junk : ℕ → ℕ) {s : Airport} → Reach (setup_airport m junk) s → IsCalled s
unfolding setup_airport
Reach-IsCalled m junk here = sym (sum_to-zero m.airlines (λ _. 0) (λ i _. refl))
Reach-IsCalled m junk (next r st) = Step-IsCalled st (Reach-IsCalled m junk r)

-- A sum of n bits is at most n, and is n only when each of them is 1.
bits_at_most : (n : ℕ) (f : ℕ → Bool) → sum_to n (λ i. bit (f i)) ≤ n
bits_at_most zero f = omega arith
bits_at_most (suc n) f = ground (arith, bits_at_most n f)

all_bits : (n : ℕ) (f : ℕ → Bool) → sum_to n (λ i. bit (f i)) ≡ n → (i : ℕ) → i < n → f i ≡ true
all_bits zero f h i lt = elim lt [ ]
all_bits (suc n) f h i lt = elim (ℕ_discrete i n) [
  | yes e ↦ rw e (ground (arith, bits_at_most n f))
  | no i_not_n ↦ all_bits n f (ground (arith, bits_at_most n f)) i (omega arith)
]

-- After any steps from the set-up, planeCount is at most the number of airlines, and when it is that number, the
-- manager's test for the end of the day, every airline has had its boarding call.
pub plane_count-AllCalled :
    (m : Sim) (junk : ℕ → ℕ) (s : Airport)
    → Reach (setup_airport m junk) s
    → (s.plane_count ≤ s.sim.airlines)
      × (s.plane_count ≡ s.sim.airlines → (i : ℕ) → i < s.sim.airlines → s.already_boarded i ≡ true)
plane_count-AllCalled m junk s r =
    let h : IsCalled s = Reach-IsCalled m junk r in
    let all : s.plane_count ≡ s.sim.airlines
        → (i : ℕ) → i < s.sim.airlines
        → s.already_boarded i ≡ true =
      λ full. all_bits s.sim.airlines s.already_boarded (omega (arith, h, full)) in
    (omega (arith, h, bits_at_most s.sim.airlines s.already_boarded), all)
