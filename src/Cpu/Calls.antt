-- ===== src/Cpu/Calls.antt =====
-- A system call seen from the processor: Machine::OneInstruction and RaiseException of Project 2/code/machine/mipssim.cc
-- and machine.cc, then the end of ExceptionHandler in userprog/exception.cc. What the call does in between leaves
-- the registers here.
use tree_fiddy.Prelude.{ℕ, ◌<◌, ◌≡◌, ◌≢◌, refl, subst, arith, true, inr, ltb, ◌==◌, if◌then◌else◌}
use tree_fiddy.Prelude.Outcome.{ok}
use tree_fiddy.Memory.{Machine, syscall_exception, done, read_mem}
use tree_fiddy.Memory.Pages.{StaysReady, read_mem-IsSafe}
use tree_fiddy.Decode.{Instruction, op_syscall, decode}
use tree_fiddy.Alu.{add_word}
use tree_fiddy.Cpu.{
  load_reg, load_value_reg, pc_reg, next_pc_reg, prev_pc_reg, bad_vaddr_reg, Cpu, write_reg,
  trapped, delayed_load, raise_exception, finish_step,
}
use tree_fiddy.Cpu.Execute.{execute, perform, fetched, one_instruction}
use tree_fiddy.Cpu.Run.{IsReady}

-- The end of ExceptionHandler: the result goes to register 2, and the program counters move on.
unfoldable pub end_call : ℕ → Cpu → Cpu
end_call rv c =
    let c' : Cpu = write_reg prev_pc_reg (c.registers pc_reg) (write_reg 2 rv c) in
    let c'' : Cpu = write_reg pc_reg (c'.registers next_pc_reg) c' in
    write_reg next_pc_reg (add_word (c''.registers pc_reg) 4) c''

-- What a call with result rv that began on c leaves.
pub record Returned (c : Cpu) (rv : ℕ) (m : Machine) (c' : Cpu) : Type 0 where
  pub ready : IsReady c'
  pub memory : c'.machine ≡ m
  pub result : c'.registers 2 ≡ rv
  pub came_from : c'.registers prev_pc_reg ≡ c.registers pc_reg
  pub goes_to : c'.registers pc_reg ≡ c.registers next_pc_reg
  pub then_to : c'.registers next_pc_reg ≡ add_word (c.registers next_pc_reg) 4
  pub others :
      (j : ℕ)
      → 0 < j
      → j < 32
      → j ≢ 2
      → c'.registers j
        ≡ (if j == c.registers load_reg then c.registers load_value_reg else c.registers j)

fetched_ready :
    (c : Cpu) (raw : ℕ) (m : Machine)
    → IsReady c
    → read_mem (c.registers pc_reg) 4 c.machine ≡ ok (done raw m)
    → StaysReady (done raw m)
fetched_ready c raw m ready e =
    let (a, e', stays) =
      read_mem-IsSafe (c.registers pc_reg) 4 c.machine ready.can_go.1 (inr (inr refl)) in
    let same : a ≡ done raw m = ground arith in subst StaysReady same stays

-- On a processor that is ready, a SYSCALL raises its exception, and the end of the handler leaves a processor that
-- is ready again: register 2 holds the result, the program counters stand where any instruction that does not jump
-- leaves them, and every other general register holds what it held, or what was being loaded into it.
pub syscall-Returned :
    (c : Cpu) (raw rv : ℕ) (m : Machine) (i : Instruction)
    → IsReady c
    → read_mem (c.registers pc_reg) 4 c.machine ≡ ok (done raw m)
    → decode raw ≡ ok i
    → i.op ≡ op_syscall
    → (c' : Cpu) × (one_instruction c ≡ ok (trapped syscall_exception c'))
      × Returned c rv m (end_call rv c')
unfolding one_instruction fetched perform execute finish_step raise_exception delayed_load end_call
syscall-Returned c raw rv m i ready fetch decoded is_syscall =
    let inside : ltb (c.registers load_reg) 40 ≡ true = ground (arith, ready.can_go.0) in
    let pages = fetched_ready c raw m ready fetch in
    let loaded : Cpu =
      write_reg (c.registers load_reg) (c.registers load_value_reg)
        (write_reg bad_vaddr_reg 0 (record c { machine = m })) in
    let c' : Cpu = write_reg 0 0 (write_reg load_value_reg 0 (write_reg load_reg 0 loaded)) in
    let general : c.registers load_reg < 32 = ready.can_go.0 in
    (
      c',
      rw fetch (rw decoded (rw is_syscall (rw inside refl))),
      record {
        ready = record { zero_reg = refl; can_go = (omega arith, pages) };
        memory = refl;
        result = refl;
        came_from = ground arith;
        goes_to = ground arith;
        then_to = ground arith;
        others = λ j p lt ne. ground arith;
      },
    )
