-- ===== src/Interrupt.antt =====
-- Project 2/code/machine/interrupt.cc: the pending interrupts and the clock. `pending` is the sequence
-- that the sorted list holds. What a handler does here is the calls of Schedule and of YieldOnReturn that
-- it makes: `act` gives them for the event that it is called with. Ticks are natural numbers. The calls
-- of the processor's DelayedLoad and of Thread::Yield are left to their components: OneTick says whether it
-- yields. What is printed is left out.
pub mod Order
pub mod Due
pub mod Ticks
pub mod Timer
use tree_fiddy.Prelude.{
  ℕ, zero, suc, ◌+◌, ◌-◌, Bool, true, false, not, ◌&&◌, Option, none, some, List, [], ◌∷◌, ltb,
  ◌==◌, if◌then◌else◌,
}
use tree_fiddy.Prelude.Outcome.{Outcome, ok, fault, ◌>>=◌, assert}
use tree_fiddy.Kernel.{IntStatus, int_off, int_on}

pub data IntType : Type 0 where
  timer_int disk_int console_write_int console_read_int network_send_int network_recv_int : IntType

pub data MachineStatus : Type 0 where
  idle_mode system_mode user_mode : MachineStatus

pub record Pending : Type 0 where
  pub handler : ℕ
  pub arg : ℕ
  pub due : ℕ  -- the field `when`
  pub kind : IntType

-- The arguments of a call of Schedule.
pub record Request : Type 0 where
  pub to_call : ℕ
  pub with_arg : ℕ
  pub from_now : ℕ
  pub device : IntType

-- The interrupts, with the ticks of stats.
pub record Interrupts : Type 0 where
  pub level : IntStatus
  pub pending : List Pending
  pub in_handler : Bool
  pub yield_on_return : Bool
  pub status : MachineStatus
  pub total_ticks : ℕ
  pub idle_ticks : ℕ
  pub system_ticks : ℕ
  pub user_ticks : ℕ

abbrev pub system_tick : ℕ
system_tick = 10

abbrev pub user_tick : ℕ
user_tick = 1

-- Interrupt::Interrupt, with a clock that has not started.
abbrev pub new_interrupts : Interrupts
new_interrupts = record {
  level = int_off;
  pending = [];
  in_handler = false;
  yield_on_return = false;
  status = system_mode;
  total_ticks = 0;
  idle_ticks = 0;
  system_ticks = 0;
  user_ticks = 0;
}

-- What List::SortedInsert does to the sequence: the new event stands after those of its time.
unfoldable pub sorted_insert : Pending → List Pending → List Pending
sorted_insert p [] = p ∷ []
sorted_insert p (q ∷ qs) = if ltb p.due q.due then p ∷ q ∷ qs else q ∷ sorted_insert p qs

abbrev pub pending_of : Request → ℕ → Pending
pending_of r now = record {
  handler = r.to_call;
  arg = r.with_arg;
  due = now + r.from_now;
  kind = r.device;
}

-- Interrupt::Schedule
unfoldable pub schedule : Request → Interrupts → Outcome Interrupts
unfolding sorted_insert
schedule r c = do
  u ← assert (ltb 0 r.from_now)
  ok (record c { pending = sorted_insert (pending_of r c.total_ticks) c.pending })

unfoldable pub schedule_all : List Request → Interrupts → Outcome Interrupts
unfolding schedule
schedule_all [] c = ok c
schedule_all (r ∷ rs) c = schedule r c >>= schedule_all rs

abbrev pub is_idle : MachineStatus → Bool
is_idle idle_mode = true
is_idle other = false

abbrev pub is_timer : IntType → Bool
is_timer timer_int = true
is_timer other = false

abbrev pub is_off : IntStatus → Bool
is_off int_off = true
is_off int_on = false

abbrev pub none_left : List Pending → Bool
none_left [] = true
none_left (p ∷ ps) = false

-- The clock moves on to the time of an event that is not due.
abbrev pub advance_to : ℕ → Interrupts → Interrupts
advance_to w c =
    if ltb c.total_ticks w
    then record c { idle_ticks = c.idle_ticks + (w - c.total_ticks); total_ticks = w }
    else c

-- The event goes back to the list.
abbrev pub put_back : Pending → List Pending → Interrupts → Interrupts
put_back p rest c = record c { pending = sorted_insert p rest }

abbrev pub tick_clock : MachineStatus → Interrupts → Interrupts
tick_clock system_mode c = record c {
  total_ticks = c.total_ticks + system_tick;
  system_ticks = c.system_ticks + system_tick;
}
tick_clock other c = record c {
  total_ticks = c.total_ticks + user_tick;
  user_ticks = c.user_ticks + user_tick;
}

module _ (act : Pending → Interrupts → List Request × Bool) where
  -- The call of the handler of an event that is off the list, and what follows it.
  unfoldable pub fire : Pending → List Pending → Interrupts → Outcome Interrupts
  unfolding schedule_all
  fire p rest c = do
    let inside = record c { pending = rest; in_handler = true; status = system_mode }
    c' ← schedule_all (act p inside).0 inside
    ok (record c' {
      yield_on_return = if (act p inside).1 then true else c'.yield_on_return;
      status = c.status;
      in_handler = false;
    })

  -- CheckIfDue with the earliest event, which is due or to which the clock has been moved on.
  unfoldable pub fire_or_stop : Pending → List Pending → Interrupts → Outcome (Bool × Interrupts)
  unfolding fire sorted_insert
  fire_or_stop p rest c =
      let fired : Outcome (Bool × Interrupts) = (do c' ← fire p rest c; ok (true, c')) in
      if is_idle c.status && is_timer p.kind && none_left rest
      then ok (false, put_back p rest c)
      else fired

  unfoldable pub check_pending : Bool → List Pending → Interrupts → Outcome (Bool × Interrupts)
  unfolding fire_or_stop sorted_insert
  check_pending advance_clock [] c = ok (false, c)
  check_pending advance_clock (p ∷ rest) c =
      if advance_clock
      then fire_or_stop p rest (advance_to p.due c)
      else if ltb c.total_ticks p.due
      then ok (false, put_back p rest c)
      else fire_or_stop p rest c

  -- Interrupt::CheckIfDue
  unfoldable pub check_if_due : Bool → Interrupts → Outcome (Bool × Interrupts)
  unfolding check_pending
  check_if_due advance_clock c = do
    u ← assert (is_off c.level)
    check_pending advance_clock c.pending c

  -- while (CheckIfDue(FALSE)), with the rounds allowed.
  unfoldable pub fire_due : ℕ → Interrupts → Outcome Interrupts
  unfolding check_if_due
  fire_due zero c = fault
  fire_due (suc n) c = do
    (again, c') ← check_if_due false c
    let rest = fire_due n c'
    if again then rest else ok c'

  -- Interrupt::OneTick, and whether it calls Yield.
  unfoldable pub one_tick : ℕ → Interrupts → Outcome (Bool × Interrupts)
  unfolding fire_due
  one_tick rounds c = do
    c' ← fire_due rounds (record (tick_clock c.status c) { level = int_off })
    ok (c'.yield_on_return, record c' { level = int_on; yield_on_return = false })

  -- Interrupt::SetLevel, with the old level and whether the tick yields.
  unfoldable pub set_level : ℕ → IntStatus → Interrupts → Outcome (IntStatus × Bool × Interrupts)
  unfolding one_tick
  set_level rounds now c =
      let changed : Interrupts = record c { level = now } in
      let ticks : Outcome (IntStatus × Bool × Interrupts) = (do
        (y, c') ← one_tick rounds changed
        ok (c.level, y, c')) in
      do
        u ← assert (if is_off now then true else not c.in_handler)
        if not (is_off now) && is_off c.level then ticks else ok (c.level, false, changed)

  -- Interrupt::Idle; with nothing to wait for it halts the machine.
  unfoldable pub idle : ℕ → Interrupts → Outcome (Option Interrupts)
  unfolding fire_due check_if_due
  idle rounds c = do
    (fired, c') ← check_if_due true (record c { status = idle_mode })
    let woken : Outcome (Option Interrupts) = (do
      c'' ← fire_due rounds c'
      ok (some (record c'' { yield_on_return = false; status = system_mode })))
    if fired then woken else ok none
