-- ===== src/Interrupt/Timer.antt =====
-- The timer of Project 2/code/machine/timer.cc, with TimerInterruptHandler of threads/system.cc. Random is
-- a routine of the host, of which each call gives a number.
use tree_fiddy.Prelude.{ℕ, ◌+◌, ◌*◌, ◌%◌, Bool, not, List, [], ◌∷◌, if◌then◌else◌, arith}
use tree_fiddy.Interrupt.{Pending, Request, Interrupts, timer_int, is_idle}
use tree_fiddy.Interrupt.Due.{AllLater}

abbrev pub timer_ticks : ℕ
timer_ticks = 100

-- Timer::TimeOfNextInterrupt
abbrev pub time_of_next_interrupt : Bool → ℕ → ℕ
time_of_next_interrupt randomize random =
    if randomize then 1 + random % (timer_ticks * 2) else timer_ticks

-- Timer::TimerExpired, which schedules the timer again and calls the kernel's handler.
unfoldable pub timer_expired : Bool → (Interrupts → ℕ) → Pending → Interrupts → List Request × Bool
timer_expired randomize random p c = (
  record {
    to_call = p.handler;
    with_arg = p.arg;
    from_now = time_of_next_interrupt randomize (random c);
    device = timer_int;
  }
      ∷ [],
  not (is_idle c.status),
)

pub timer_expired-AllLater :
    (randomize : Bool) (random : Interrupts → ℕ) (p : Pending) (c : Interrupts)
    → AllLater (timer_expired randomize random p c).0
unfolding timer_expired AllLater
timer_expired-AllLater randomize random p c = (ground arith, tt)
