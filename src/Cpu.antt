-- ===== src/Cpu.antt =====
-- The processor of Project 2/code/machine/mipssim.cc: its registers, DelayedLoad, the end of
-- OneInstruction, and RaiseException of machine.cc up to the call of the kernel's handler. The forty
-- registers are a function from their number to a word.
pub mod Execute
pub mod Fine
pub mod Run
pub mod Calls
pub mod Slips
use tree_fiddy.Prelude.{ℕ, ◌+◌, ◌%◌, ltb, ◌==◌, if◌then◌else◌}
use tree_fiddy.Prelude.Outcome.{Outcome, ok, fault, ◌>>=◌}
use tree_fiddy.Memory.{Machine, ExceptionType}
use tree_fiddy.Multiply.{word}

abbrev pub r31 : ℕ
r31 = 31

abbrev pub hi_reg : ℕ
hi_reg = 32

abbrev pub lo_reg : ℕ
lo_reg = 33

abbrev pub pc_reg : ℕ
pc_reg = 34

abbrev pub next_pc_reg : ℕ
next_pc_reg = 35

abbrev pub prev_pc_reg : ℕ
prev_pc_reg = 36

abbrev pub load_reg : ℕ
load_reg = 37

abbrev pub load_value_reg : ℕ
load_value_reg = 38

abbrev pub bad_vaddr_reg : ℕ
bad_vaddr_reg = 39

abbrev pub num_total_regs : ℕ
num_total_regs = 40

pub record Cpu : Type 0 where
  pub registers : ℕ → ℕ
  pub machine : Machine

-- registers[i] = v
abbrev pub write_reg : ℕ → ℕ → Cpu → Cpu
write_reg i v c = record c { registers = λ j. if j == i then v else c.registers j }

-- Machine::DelayedLoad
unfoldable pub delayed_load : ℕ → ℕ → Cpu → Outcome Cpu
delayed_load next_reg next_value c =
    let loaded : Cpu = write_reg (c.registers load_reg) (c.registers load_value_reg) c in
    if ltb (c.registers load_reg) num_total_regs
    then ok
        (write_reg 0 0 (write_reg load_value_reg next_value (write_reg load_reg next_reg loaded)))
    else fault

-- What the switch of OneInstruction comes to: it is left with the next program counter and the load to
-- delay, or an exception is raised with an address.
pub data Step : Type 0 where
  advance : (pc_after next_load_reg next_load_value : ℕ) → Cpu → Step
  trap : ExceptionType → ℕ → Cpu → Step

-- What an instruction comes to: the processor goes on, or the kernel's handler is called.
pub data Result : Type 0 where
  running : Cpu → Result
  trapped : ExceptionType → Cpu → Result

-- Machine::RaiseException
unfoldable pub raise_exception : ExceptionType → ℕ → Cpu → Outcome Result
unfolding delayed_load
raise_exception which bad_vaddr c = do
  c' ← delayed_load 0 0 (write_reg bad_vaddr_reg bad_vaddr c)
  ok (trapped which c')

-- The program counters move on.
abbrev pub advance_pc : ℕ → Cpu → Cpu
advance_pc pc_after c =
    write_reg next_pc_reg pc_after
      (write_reg pc_reg (c.registers next_pc_reg) (write_reg prev_pc_reg (c.registers pc_reg) c))

-- The end of OneInstruction.
unfoldable pub finish_step : Step → Outcome Result
unfolding delayed_load raise_exception
finish_step (advance pc_after next_load_reg next_load_value c) = do
  c' ← delayed_load next_load_reg next_load_value c
  ok (running (advance_pc pc_after c'))
finish_step (trap which bad_vaddr c) = raise_exception which bad_vaddr c
