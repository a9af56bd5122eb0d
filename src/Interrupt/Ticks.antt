-- ===== src/Interrupt/Ticks.antt =====
-- A whole tick, Interrupt::OneTick of Project 2/code/machine/interrupt.cc.
use tree_fiddy.Prelude.{
  ℕ, ◌+◌, ◌<◌, ◌≤◌, ◌≡◌, refl, sym, subst, ◌∙◌, ap, Bool, false, not, ◌&&◌, List,
}
use tree_fiddy.Prelude.Outcome.{ok}
use tree_fiddy.Kernel.{int_off, int_on}
use tree_fiddy.Interrupt.{
  Pending, Request, Interrupts, MachineStatus, idle_mode, system_mode, user_mode, system_tick,
  user_tick, is_idle, tick_clock, one_tick,
}
use tree_fiddy.Interrupt.Order.{Sorted, count_if, is_due}
use tree_fiddy.Interrupt.Due.{AllLater, fire_due-Settled}

-- The ticks that a tick of the kernel or of a user program takes.
abbrev pub tick_length : MachineStatus → ℕ
tick_length system_mode = system_tick
tick_length other = user_tick

-- What a tick leaves.
pub record Ticked (c c' : Interrupts) : Type 0 where
  pub time : c'.total_ticks ≡ c.total_ticks + tick_length c.status
  pub enabled : c'.level ≡ int_on
  pub same_status : c'.status ≡ c.status
  pub yielded : c'.yield_on_return ≡ false
  pub sorted : Sorted c'.pending
  pub nothing_due : count_if (is_due c'.total_ticks) c'.pending ≡ 0
  pub kept :
      (f : Pending → Bool)
      → count_if (λ p. f p && not (is_due c'.total_ticks p)) c.pending ≤ count_if f c'.pending

clock_time :
    (s : MachineStatus) (c : Interrupts)
    → (tick_clock s c).total_ticks ≡ c.total_ticks + tick_length s
clock_time idle_mode c = refl
clock_time system_mode c = refl
clock_time user_mode c = refl

clock_pending : (s : MachineStatus) (c : Interrupts) → (tick_clock s c).pending ≡ c.pending
clock_pending idle_mode c = refl
clock_pending system_mode c = refl
clock_pending user_mode c = refl

clock_status : (s : MachineStatus) (c : Interrupts) → (tick_clock s c).status ≡ c.status
clock_status idle_mode c = refl
clock_status system_mode c = refl
clock_status user_mode c = refl

-- A tick of a machine that is not idle, with the pending interrupts in the order of their times and
-- handlers that schedule for later times only, ends within any number of rounds above the number of
-- interrupts that are then due. The time advances by one tick's length; all due interrupts have been
-- taken off, every one that is not due is still pending, the order holds and interrupts are enabled.
pub one_tick-Ticked :
    (act : Pending → Interrupts → List Request × Bool) (rounds : ℕ) (c : Interrupts)
    → ((p : Pending) (c' : Interrupts) → AllLater (act p c').0)
    → is_idle c.status ≡ false
    → Sorted c.pending
    → count_if (is_due (c.total_ticks + tick_length c.status)) c.pending < rounds
    → (y : Bool) × (c' : Interrupts) × (one_tick act rounds c ≡ ok (y, c')) × Ticked c c'
unfolding one_tick
one_tick-Ticked act rounds c later busy sorted room =
    let start : Interrupts = record (tick_clock c.status c) { level = int_off } in
    let now = clock_time c.status c in
    let room' : count_if (is_due start.total_ticks) c.pending < rounds =
      subst (λ t. count_if (is_due t) c.pending < rounds) (sym now) room in
    let (d, loops, s) =
      fire_due-Settled act later rounds start c.pending (clock_pending c.status c) refl
        (ap is_idle (clock_status c.status c) ∙ busy) sorted room' in
    let time : start.total_ticks ≡ d.total_ticks = sym s.same_time in
    (
      d.yield_on_return,
      record d { level = int_on; yield_on_return = false },
      rw loops refl,
      record {
        time = s.same_time ∙ now;
        enabled = refl;
        same_status = s.same_status ∙ clock_status c.status c;
        yielded = refl;
        sorted = s.sorted;
        nothing_due = subst (λ t. count_if (is_due t) d.pending ≡ 0) time s.nothing_due;
        kept = λ f.
            subst
              (λ ps. count_if (λ p. f p && not (is_due d.total_ticks p)) ps ≤ count_if f d.pending)
              (clock_pending c.status c)
              (subst
                (λ t. count_if (λ p. f p && not (is_due t p)) start.pending ≤ count_if f d.pending)
                time (s.kept f));
      },
    )
