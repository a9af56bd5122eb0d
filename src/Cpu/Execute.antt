-- ===== src/Cpu/Execute.antt =====
-- Machine::OneInstruction of Project 2/code/machine/mipssim.cc. An instruction that reads or writes
-- memory ends with the exception that the access raises. Printing the instruction is left out.
use Prim.Native.Nat.{bit_and, bit_or, bit_xor}
use tree_fiddy.Prelude.{ℕ, ◌+◌, ◌*◌, ◌/◌, ◌%◌, Bool, true, false, not, ltb, ◌==◌, if◌then◌else◌}
use tree_fiddy.Prelude.Outcome.{Outcome, ok, fault, ◌>>=◌, assert}
use tree_fiddy.Memory.{
  syscall_exception, address_error, overflow, illegal_instr, Access, raises, done, read_mem,
  write_mem,
}
use tree_fiddy.Multiply.{word, is_negative, mult}
use tree_fiddy.Decode.{
  OpCode, Instruction, decode, op_add, op_addi, op_addiu, op_addu, op_and, op_andi, op_beq, op_bgez,
  op_bgezal, op_bgtz, op_blez, op_bltz, op_bltzal, op_bne, op_div, op_divu, op_j, op_jal, op_jalr,
  op_jr, op_lb, op_lbu, op_lh, op_lhu, op_lui, op_lw, op_lwl, op_lwr, op_mfhi, op_mflo, op_mthi,
  op_mtlo, op_mult, op_multu, op_nor, op_or, op_ori, op_rfe, op_sb, op_sh, op_sll, op_sllv, op_slt,
  op_slti, op_sltiu, op_sltu, op_sra, op_srav, op_srl, op_srlv, op_sub, op_subu, op_sw, op_swl,
  op_swr, op_xor, op_xori, op_syscall, op_unimp, op_res, special, bcond,
}
use tree_fiddy.Alu.{
  add_word, sub_word, add_overflows, addi_overflows, sub_overflows, signed_lt, div_words,
  divu_words, shift_left, shift_right, nor_word, truth, load_byte, load_half, jump_target,
}
use tree_fiddy.Cpu.{
  r31, hi_reg, lo_reg, pc_reg, next_pc_reg, load_reg, load_value_reg, Cpu, write_reg, Step, advance,
  trap, Result, raise_exception, finish_step,
}

-- The switch is left with no load to delay.
abbrev pub leave : ℕ → Cpu → Outcome Step
leave pc c = ok (advance pc 0 0 c)

abbrev pub set_rd : Instruction → ℕ → ℕ → Cpu → Outcome Step
set_rd i v pc c = leave pc (write_reg i.rd v c)

abbrev pub set_rt : Instruction → ℕ → ℕ → Cpu → Outcome Step
set_rt i v pc c = leave pc (write_reg i.rt v c)

abbrev pub rs_of : Instruction → Cpu → ℕ
rs_of i c = c.registers i.rs

abbrev pub rt_of : Instruction → Cpu → ℕ
rt_of i c = c.registers i.rt

-- registers[NextPCReg] + IndexToAddr(instr->extra), where the branch is taken.
abbrev pub branch : Bool → Instruction → ℕ → Cpu → Outcome Step
branch taken i pc c =
    leave (if taken then add_word (c.registers next_pc_reg) (i.extra * 4 % word) else pc) c

-- The return address of a call.
abbrev pub link : ℕ → Cpu → Cpu
link r c = write_reg r (add_word (c.registers next_pc_reg) 4) c

abbrev pub address_of : Instruction → Cpu → ℕ
address_of i c = add_word (rs_of i c) i.extra

-- After a read for a delayed load.
abbrev pub after_read : Instruction → (ℕ → ℕ) → ℕ → ℕ → Cpu → Access ℕ → Outcome Step
after_read i f addr pc c (raises x) = ok (trap x addr c)
after_read i f addr pc c (done v m) = ok (advance pc i.rt (f v) (record c { machine = m }))

unfoldable pub load_mem : Instruction → (ℕ → ℕ) → ℕ → ℕ → Cpu → Outcome Step
load_mem i f size pc c = do
  a ← read_mem (address_of i c) size c.machine
  after_read i f (address_of i c) pc c a

-- OP_LH, OP_LHU and OP_LW test the address first.
unfoldable pub load_aligned : Instruction → (ℕ → ℕ) → ℕ → ℕ → Cpu → Outcome Step
unfolding load_mem
load_aligned i f size pc c =
    if address_of i c % size == 0
    then load_mem i f size pc c
    else ok (trap address_error (address_of i c) c)

-- The value that a load in the delay slot is about to give to rt.
abbrev pub pending : Instruction → Cpu → ℕ
pending i c = if c.registers load_reg == i.rt then c.registers load_value_reg else rt_of i c

-- OP_LWL and OP_LWR; their ASSERT leaves only the first case of the switch.
unfoldable pub load_partial : Instruction → (ℕ → ℕ) → ℕ → Cpu → Outcome Step
unfolding load_mem
load_partial i f pc c = do u ← assert (address_of i c % 4 == 0); load_mem i f 4 pc c

abbrev pub after_write : ℕ → ℕ → Cpu → Access (Unit {0}) → Outcome Step
after_write addr pc c (raises x) = ok (trap x addr c)
after_write addr pc c (done u m) = leave pc (record c { machine = m })

unfoldable pub store_mem : ℕ → ℕ → ℕ → ℕ → Cpu → Outcome Step
store_mem addr size value pc c = do a ← write_mem addr size value c.machine; after_write addr pc c a

-- OP_SWL and OP_SWR read the word first; their ASSERT leaves only the first case of the switch.
abbrev pub merge_write : ℕ → (ℕ → ℕ) → ℕ → Cpu → Access ℕ → Outcome Step
unfolding store_mem
merge_write addr f pc c (raises x) = ok (trap x addr c)
merge_write addr f pc c (done v m) = store_mem addr 4 (f v) pc (record c { machine = m })

unfoldable pub store_partial : Instruction → (ℕ → ℕ) → ℕ → Cpu → Outcome Step
store_partial i f pc c = do
  u ← assert (address_of i c % 4 == 0)
  a ← read_mem (address_of i c) 4 c.machine
  merge_write (address_of i c) f pc c a

-- The words for LoReg and HiReg.
abbrev pub set_lo_hi : ℕ × ℕ → ℕ → Cpu → Outcome Step
set_lo_hi (lo, hi) pc c = leave pc (write_reg hi_reg hi (write_reg lo_reg lo c))

abbrev pub set_hi_lo : ℕ × ℕ → ℕ → Cpu → Outcome Step
set_hi_lo (hi, lo) pc c = leave pc (write_reg lo_reg lo (write_reg hi_reg hi c))

-- An overflow is raised, or the result goes to a register.
abbrev pub checked : Bool → ℕ → ℕ → ℕ → Cpu → Outcome Step
checked overflows r v pc c =
    if overflows then ok (trap overflow 0 c) else leave pc (write_reg r v c)

-- The switch on opCode, with pcAfter.
unfoldable pub execute : OpCode → Instruction → ℕ → Cpu → Outcome Step
unfolding load_mem load_aligned load_partial store_mem store_partial
execute op_add i pc c =
    checked (add_overflows (rs_of i c) (rt_of i c)) i.rd (add_word (rs_of i c) (rt_of i c)) pc c
execute op_addi i pc c =
    checked (addi_overflows (rs_of i c) i.extra) i.rt (add_word (rs_of i c) i.extra) pc c
execute op_addiu i pc c = set_rt i (add_word (rs_of i c) i.extra) pc c
execute op_addu i pc c = set_rd i (add_word (rs_of i c) (rt_of i c)) pc c
execute op_and i pc c = set_rd i (bit_and (rs_of i c) (rt_of i c)) pc c
execute op_andi i pc c = set_rt i (bit_and (rs_of i c) (i.extra % 65536)) pc c
execute op_beq i pc c = branch (rs_of i c == rt_of i c) i pc c
execute op_bgezal i pc c = branch (not (is_negative (rs_of i (link r31 c)))) i pc (link r31 c)
execute op_bgez i pc c = branch (not (is_negative (rs_of i c))) i pc c
execute op_bgtz i pc c = branch (signed_lt 0 (rs_of i c)) i pc c
execute op_blez i pc c = branch (not (signed_lt 0 (rs_of i c))) i pc c
execute op_bltzal i pc c = branch (is_negative (rs_of i (link r31 c))) i pc (link r31 c)
execute op_bltz i pc c = branch (is_negative (rs_of i c)) i pc c
execute op_bne i pc c = branch (not (rs_of i c == rt_of i c)) i pc c
execute op_div i pc c = do q ← div_words (rs_of i c) (rt_of i c); set_lo_hi q pc c
execute op_divu i pc c = set_lo_hi (divu_words (rs_of i c) (rt_of i c)) pc c
execute op_jal i pc c = leave (jump_target pc i.extra) (link r31 c)
execute op_j i pc c = leave (jump_target pc i.extra) c
execute op_jalr i pc c = leave (rs_of i (link i.rd c)) (link i.rd c)
execute op_jr i pc c = leave (rs_of i c) c
execute op_lb i pc c = load_mem i (load_byte true) 1 pc c
execute op_lbu i pc c = load_mem i (load_byte false) 1 pc c
execute op_lh i pc c = load_aligned i (load_half true) 2 pc c
execute op_lhu i pc c = load_aligned i (load_half false) 2 pc c
execute op_lui i pc c = set_rt i (shift_left i.extra 16) pc c
execute op_lw i pc c = load_aligned i (λ v. v) 4 pc c
execute op_lwl i pc c = load_partial i (λ v. v) pc c
execute op_lwr i pc c = load_partial i (λ v. pending i c / 256 * 256 + v / 16777216 % 256) pc c
execute op_mfhi i pc c = set_rd i (c.registers hi_reg) pc c
execute op_mflo i pc c = set_rd i (c.registers lo_reg) pc c
execute op_mthi i pc c = leave pc (write_reg hi_reg (rs_of i c) c)
execute op_mtlo i pc c = leave pc (write_reg lo_reg (rs_of i c) c)
execute op_mult i pc c = set_hi_lo (mult (rs_of i c) (rt_of i c) true) pc c
execute op_multu i pc c = set_hi_lo (mult (rs_of i c) (rt_of i c) false) pc c
execute op_nor i pc c = set_rd i (nor_word (rs_of i c) (rt_of i c)) pc c
execute op_or i pc c = set_rd i (bit_or (rs_of i c) (rs_of i c)) pc c
execute op_ori i pc c = set_rt i (bit_or (rs_of i c) (i.extra % 65536)) pc c
execute op_sb i pc c = store_mem (address_of i c) 1 (rt_of i c) pc c
execute op_sh i pc c = store_mem (address_of i c) 2 (rt_of i c) pc c
execute op_sll i pc c = set_rd i (shift_left (rt_of i c) i.extra) pc c
execute op_sllv i pc c = set_rd i (shift_left (rt_of i c) (rs_of i c % 32)) pc c
execute op_slt i pc c = set_rd i (truth (signed_lt (rs_of i c) (rt_of i c))) pc c
execute op_slti i pc c = set_rt i (truth (signed_lt (rs_of i c) i.extra)) pc c
execute op_sltiu i pc c = set_rt i (truth (ltb (rs_of i c) i.extra)) pc c
execute op_sltu i pc c = set_rd i (truth (ltb (rs_of i c) (rt_of i c))) pc c
execute op_sra i pc c = set_rd i (shift_right (rt_of i c) i.extra) pc c
execute op_srav i pc c = set_rd i (shift_right (rt_of i c) (rs_of i c % 32)) pc c
execute op_srl i pc c = set_rd i (shift_right (rt_of i c) i.extra) pc c
execute op_srlv i pc c = set_rd i (shift_right (rt_of i c) (rs_of i c % 32)) pc c
execute op_sub i pc c =
    checked (sub_overflows (rs_of i c) (rt_of i c)) i.rd (sub_word (rs_of i c) (rt_of i c)) pc c
execute op_subu i pc c = set_rd i (sub_word (rs_of i c) (rt_of i c)) pc c
execute op_sw i pc c = store_mem (address_of i c) 4 (rt_of i c) pc c
execute op_swl i pc c = store_partial i (λ v. rt_of i c) pc c
execute op_swr i pc c = store_partial i (λ v. v % 16777216 + shift_left (rt_of i c) 24) pc c
execute op_syscall i pc c = ok (trap syscall_exception 0 c)
execute op_xor i pc c = set_rd i (bit_xor (rs_of i c) (rt_of i c)) pc c
execute op_xori i pc c = set_rt i (bit_xor (rs_of i c) (i.extra % 65536)) pc c
execute op_res i pc c = ok (trap illegal_instr 0 c)
execute op_unimp i pc c = ok (trap illegal_instr 0 c)
execute op_rfe i pc c = fault
execute special i pc c = fault
execute bcond i pc c = fault

-- With the instruction fetched.
unfoldable pub perform : ℕ → Cpu → Outcome Result
unfolding execute decode finish_step
perform raw c = do
  i ← decode raw
  s ← execute i.op i (add_word (c.registers next_pc_reg) 4) c
  finish_step s

unfoldable pub fetched : Cpu → Access ℕ → Outcome Result
unfolding perform raise_exception
fetched c (raises x) = raise_exception x (c.registers pc_reg) c
fetched c (done raw m) = perform raw (record c { machine = m })

-- Machine::OneInstruction
unfoldable pub one_instruction : Cpu → Outcome Result
unfolding fetched
one_instruction c = do a ← read_mem (c.registers pc_reg) 4 c.machine; fetched c a
