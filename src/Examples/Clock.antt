-- ===== src/Examples/Clock.antt =====
-- A tick of the interrupts of Project 2/code/machine/interrupt.cc, with a timer and a disk pending.
use tree_fiddy.Prelude.{ℕ, ◌≡◌, refl, Bool, false, [], ◌∷◌, arith}
use tree_fiddy.Prelude.Outcome.{ok}
use tree_fiddy.Kernel.{int_on}
use tree_fiddy.Interrupt.{Interrupts, Pending, timer_int, system_mode, one_tick}
use tree_fiddy.Interrupt.Order.{Sorted, AllFrom}
use tree_fiddy.Interrupt.Ticks.{Ticked, one_tick-Ticked}
use tree_fiddy.Interrupt.Timer.{timer_expired, timer_expired-AllLater}

abbrev event : ℕ → Pending
event t = record { handler = 1; arg = 0; due = t; kind = timer_int }

abbrev busy : Interrupts
busy = record {
  level = int_on;
  pending = event 95 ∷ event 100 ∷ event 140 ∷ [];
  in_handler = false;
  yield_on_return = false;
  status = system_mode;
  total_ticks = 90;
  idle_ticks = 0;
  system_ticks = 90;
  user_ticks = 0;
}

busy-Sorted : Sorted busy.pending
unfolding Sorted AllFrom
busy-Sorted = omega arith

one_tick-Ticked_example :
    (y : Bool) × (c' : Interrupts) × (one_tick (timer_expired false (λ c. 0)) 4 busy ≡ ok (y, c'))
    × Ticked busy c'
one_tick-Ticked_example =
    one_tick-Ticked (timer_expired false (λ c. 0)) 4 busy (timer_expired-AllLater false (λ c. 0))
      refl busy-Sorted (omega arith)
