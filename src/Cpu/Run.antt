-- ===== src/Cpu/Run.antt =====
-- When Machine::OneInstruction of Project 2/code/machine/mipssim.cc comes to a result, and what it keeps.
use tree_fiddy.Prelude.{ℕ, ◌<◌, ◌≡◌, refl, ◌⊎◌, inl, inr, true, false, ltb, arith, Bool-cases}
use tree_fiddy.Prelude.Outcome.{Outcome, ok}
use tree_fiddy.Memory.{Machine, ExceptionType, Access, raises, done, read_mem}
use tree_fiddy.Memory.Pages.{StaysReady, read_mem-IsSafe}
use tree_fiddy.Decode.Fields.{IsDecoded, decode-IsDecoded}
use tree_fiddy.Decode.{Instruction, decode}
use tree_fiddy.Cpu.{
  load_reg, load_value_reg, pc_reg, next_pc_reg, bad_vaddr_reg, Cpu, write_reg, delayed_load, Step,
  advance, trap, Result, running, trapped, raise_exception, advance_pc, finish_step,
}
use tree_fiddy.Cpu.Execute.{perform, fetched, one_instruction}
use tree_fiddy.Alu.{add_word}
use tree_fiddy.Cpu.Fine.{CanGo, Continues, is_partial, execute-IsFine}

-- What OneInstruction needs at its start: register 0 holds 0, the delayed load is for a general
-- register, and the machine has a translation table.
pub record IsReady (c : Cpu) : Type 0 where
  pub zero_reg : c.registers 0 ≡ 0
  pub can_go : CanGo c

-- The processor that an instruction leaves, for the user program or for the kernel's handler.
abbrev pub left_cpu : Result → Cpu
left_cpu (running c) = c
left_cpu (trapped x c) = c

abbrev pub EndsReady : Outcome Result → Type 0
EndsReady o = (r : Result) × (o ≡ ok r) × IsReady (left_cpu r)

delayed_load-IsReady :
    (r v : ℕ) (c : Cpu) → r < 32 → CanGo c → (c' : Cpu) × (delayed_load r v c ≡ ok c') × IsReady c'
unfolding delayed_load
delayed_load-IsReady r v c p (target, pages) =
    let inside : ltb (c.registers load_reg) 40 ≡ true = ground arith in
    let loaded : Cpu = write_reg (c.registers load_reg) (c.registers load_value_reg) c in
    (
      write_reg 0 0 (write_reg load_value_reg v (write_reg load_reg r loaded)),
      rw inside refl,
      record { zero_reg = refl; can_go = (p, pages) },
    )

raise_exception-EndsReady :
    (x : ExceptionType) (a : ℕ) (c : Cpu) → CanGo c → EndsReady (raise_exception x a c)
unfolding raise_exception
raise_exception-EndsReady x a c b =
    let (c', e, ready) = delayed_load-IsReady 0 0 (write_reg bad_vaddr_reg a c) (omega arith) b in
    (trapped x c', rw e refl, ready)

finish_step-EndsReady : (s : Step) → Continues s → EndsReady (finish_step s)
unfolding finish_step
finish_step-EndsReady (advance pc r v c) (p, b) =
    let (c', e, ready) = delayed_load-IsReady r v c p b in
    (
      running (advance_pc pc c'),
      rw e refl,
      record { zero_reg = ready.zero_reg; can_go = ready.can_go },
    )
finish_step-EndsReady (trap x a c) b = raise_exception-EndsReady x a c b

perform-EndsReady :
    (raw : ℕ) (c : Cpu) (i : Instruction)
    → CanGo c
    → decode raw ≡ ok i
    → IsDecoded i
    → is_partial i.op ≡ false
    → EndsReady (perform raw c)
unfolding perform
perform-EndsReady raw c i b e f t =
    let pc : ℕ = add_word (c.registers next_pc_reg) 4 in
    let (s, done_step, continues) = execute-IsFine i.op i pc c f b f.cased t in
    rw e (rw done_step (finish_step-EndsReady s continues))

fetched_ends :
    (c : Cpu) (a : Access ℕ)
    → read_mem (c.registers pc_reg) 4 c.machine ≡ ok a
    → CanGo c
    → StaysReady a
    → EndsReady (fetched c a)
      ⊎ ((raw : ℕ) × (m : Machine) × (i : Instruction) × (read_mem (c.registers pc_reg) 4 c.machine
            ≡ ok (done raw m))
          × (decode raw ≡ ok i)
          × (is_partial i.op ≡ true))
unfolding fetched
fetched_ends c (raises x) e b stays = inl (raise_exception-EndsReady x (c.registers pc_reg) c b)
fetched_ends c (done raw m) e b stays =
    let (i, decoded, fields) = decode-IsDecoded raw in
    elim (Bool-cases (is_partial i.op)) [
      | inl partial ↦ inr (raw, m, i, e, decoded, partial)
      | inr total ↦
          inl (perform-EndsReady raw (record c { machine = m }) i (b.0, stays) decoded fields total)
    ]

-- OneInstruction on a processor that is ready: the instruction ends, or raises an exception, and leaves
-- a processor that is ready; register 0 holds 0 again. Otherwise the word fetched is decoded as LWL, LWR,
-- SWL or SWR, which have an ASSERT on their address, or as DIV.
pub one_instruction-EndsReady :
    (c : Cpu)
    → IsReady c
    → EndsReady (one_instruction c)
      ⊎ ((raw : ℕ) × (m : Machine) × (i : Instruction) × (read_mem (c.registers pc_reg) 4 c.machine
            ≡ ok (done raw m))
          × (decode raw ≡ ok i)
          × (is_partial i.op ≡ true))
unfolding one_instruction
one_instruction-EndsReady c ready =
    let (a, e, stays) =
      read_mem-IsSafe (c.registers pc_reg) 4 c.machine ready.can_go.1 (inr (inr refl)) in
    elim (fetched_ends c a e ready.can_go stays) [
      | inl ends ↦ inl (rw e ends)
      | inr fetched_partial ↦ inr fetched_partial
    ]
