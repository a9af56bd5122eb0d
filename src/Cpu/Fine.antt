-- ===== src/Cpu/Fine.antt =====
-- The switch in Machine::OneInstruction of Project 2/code/machine/mipssim.cc comes to a step, for most operations.
use tree_fiddy.Prelude.{
  ℕ, ◌%◌, ◌<◌, ◌≡◌, refl, inl, inr, Bool, true, false, ◌==◌, arith, Bool-cases,
}
use tree_fiddy.Prelude.Outcome.{Outcome, ok}
use tree_fiddy.Memory.{address_error, overflow, Access, raises, done}
use tree_fiddy.Memory.Bytes.{IsSize}
use tree_fiddy.Memory.Total.{HasPages}
use tree_fiddy.Memory.Pages.{StaysReady, read_mem-IsSafe, write_mem-IsSafe}
use tree_fiddy.Decode.Fields.{IsDecoded, has_case}
use tree_fiddy.Decode.{
  OpCode, Instruction, op_add, op_addi, op_addiu, op_addu, op_and, op_andi, op_beq, op_bgez,
  op_bgezal, op_bgtz, op_blez, op_bltz, op_bltzal, op_bne, op_div, op_divu, op_j, op_jal, op_jalr,
  op_jr, op_lb, op_lbu, op_lh, op_lhu, op_lui, op_lw, op_lwl, op_lwr, op_mfhi, op_mflo, op_mthi,
  op_mtlo, op_mult, op_multu, op_nor, op_or, op_ori, op_rfe, op_sb, op_sh, op_sll, op_sllv, op_slt,
  op_slti, op_sltiu, op_sltu, op_sra, op_srav, op_srl, op_srlv, op_sub, op_subu, op_sw, op_swl,
  op_swr, op_xor, op_xori, op_syscall, op_unimp, op_res, special, bcond,
}
use tree_fiddy.Cpu.{load_reg, Cpu, write_reg, Step, advance, trap}
use tree_fiddy.Cpu.Execute.{
  leave, link, checked, load_mem, load_aligned, store_mem, after_read, after_write, address_of,
  execute,
}

-- The delayed load is for a general register, and the machine has a translation table.
abbrev pub CanGo : Cpu → Type 0
CanGo c = (c.registers load_reg < 32) × HasPages c.machine

abbrev pub Continues : Step → Type 0
Continues (advance pc r v c) = (r < 32) × CanGo c
Continues (trap x a c) = CanGo c

abbrev pub IsFine : Outcome Step → Type 0
IsFine o = (s : Step) × (o ≡ ok s) × Continues s

write_reg-CanGo : (r v : ℕ) (c : Cpu) → r < 32 → CanGo c → CanGo (write_reg r v c)
write_reg-CanGo r v c p (target, pages) = (ground arith, pages)

link-CanGo : (c : Cpu) → CanGo c → CanGo (link 31 c)
link-CanGo c b = (b.0, b.1)

leave-IsFine : (pc : ℕ) (c : Cpu) → CanGo c → IsFine (leave pc c)
leave-IsFine pc c b = (advance pc 0 0 c, refl, (omega arith, b))

checked-IsFine :
    (r : ℕ)
    → r < 32
    → (pc : ℕ) (c : Cpu) → CanGo c
    → (overflows : Bool) (v : ℕ) → IsFine (checked overflows r v pc c)
checked-IsFine r p pc c b true v = (trap overflow 0 c, refl, b)
checked-IsFine r p pc c b false v = leave-IsFine pc _ (write_reg-CanGo r v c p b)

after_read-IsFine :
    (i : Instruction) (g : ℕ → ℕ) (addr pc : ℕ) (c : Cpu) (a : Access ℕ)
    → IsDecoded i
    → CanGo c
    → StaysReady a
    → IsFine (after_read i g addr pc c a)
after_read-IsFine i g addr pc c (raises x) f b ready = (trap x addr c, refl, b)
after_read-IsFine i g addr pc c (done v m) f b ready =
    (advance pc i.rt (g v) (record c { machine = m }), refl, (f.rt, (b.0, ready)))

load_mem-IsFine :
    (i : Instruction) (g : ℕ → ℕ) (size pc : ℕ) (c : Cpu)
    → IsDecoded i
    → CanGo c
    → IsSize size
    → IsFine (load_mem i g size pc c)
unfolding load_mem
load_mem-IsFine i g size pc c f b is =
    let (a, e, ready) = read_mem-IsSafe (address_of i c) size c.machine b.1 is in
    rw e (after_read-IsFine i g (address_of i c) pc c a f b ready)

load_aligned-IsFine :
    (i : Instruction) (g : ℕ → ℕ) (size pc : ℕ) (c : Cpu)
    → IsDecoded i
    → CanGo c
    → IsSize size
    → IsFine (load_aligned i g size pc c)
unfolding load_aligned
load_aligned-IsFine i g size pc c f b is = elim (Bool-cases (address_of i c % size == 0)) [
  | inl aligned ↦ rw aligned (load_mem-IsFine i g size pc c f b is)
  | inr misaligned ↦ rw misaligned (trap address_error (address_of i c) c, refl, b)
]

after_write-IsFine :
    (addr pc : ℕ) (c : Cpu) (a : Access (Unit {0}))
    → CanGo c
    → StaysReady a
    → IsFine (after_write addr pc c a)
after_write-IsFine addr pc c (raises x) b ready = (trap x addr c, refl, b)
after_write-IsFine addr pc c (done u m) b ready = leave-IsFine pc _ (b.0, ready)

store_mem-IsFine :
    (addr size value pc : ℕ) (c : Cpu)
    → CanGo c
    → IsSize size
    → IsFine (store_mem addr size value pc c)
unfolding store_mem
store_mem-IsFine addr size value pc c b is =
    let (a, e, ready) = write_mem-IsSafe addr size value c.machine b.1 is in
    rw e (after_write-IsFine addr pc c a b ready)

-- The instructions that have an ASSERT on their address, or a division that C leaves undefined.
abbrev pub is_partial : OpCode → Bool
is_partial op_lwl = true
is_partial op_lwr = true
is_partial op_swl = true
is_partial op_swr = true
is_partial op_div = true
is_partial other = false

pub execute-IsFine :
    (op : OpCode) (i : Instruction) (pc : ℕ) (c : Cpu)
    → IsDecoded i
    → CanGo c
    → has_case op ≡ true
    → is_partial op ≡ false
    → IsFine (execute op i pc c)
unfolding execute
execute-IsFine op_add i pc c f b h t = checked-IsFine i.rd f.rd pc c b _ _
execute-IsFine op_addi i pc c f b h t = checked-IsFine i.rt f.rt pc c b _ _
execute-IsFine op_addiu i pc c f b h t = leave-IsFine pc _ (write_reg-CanGo i.rt _ c f.rt b)
execute-IsFine op_addu i pc c f b h t = leave-IsFine pc _ (write_reg-CanGo i.rd _ c f.rd b)
execute-IsFine op_and i pc c f b h t = leave-IsFine pc _ (write_reg-CanGo i.rd _ c f.rd b)
execute-IsFine op_andi i pc c f b h t = leave-IsFine pc _ (write_reg-CanGo i.rt _ c f.rt b)
execute-IsFine op_beq i pc c f b h t = leave-IsFine _ c b
execute-IsFine op_bgez i pc c f b h t = leave-IsFine _ c b
execute-IsFine op_bgezal i pc c f b h t = leave-IsFine _ _ (link-CanGo c b)
execute-IsFine op_bgtz i pc c f b h t = leave-IsFine _ c b
execute-IsFine op_blez i pc c f b h t = leave-IsFine _ c b
execute-IsFine op_bltz i pc c f b h t = leave-IsFine _ c b
execute-IsFine op_bltzal i pc c f b h t = leave-IsFine _ _ (link-CanGo c b)
execute-IsFine op_bne i pc c f b h t = leave-IsFine _ c b
execute-IsFine op_div i pc c f b h t = absurd (ground arith)
execute-IsFine op_divu i pc c f b h t = leave-IsFine pc _ (b.0, b.1)
execute-IsFine op_j i pc c f b h t = leave-IsFine _ _ b
execute-IsFine op_jal i pc c f b h t = leave-IsFine _ _ (link-CanGo c b)
execute-IsFine op_jalr i pc c f b h t = leave-IsFine _ _ (write_reg-CanGo i.rd _ c f.rd b)
execute-IsFine op_jr i pc c f b h t = leave-IsFine _ c b
execute-IsFine op_lb i pc c f b h t = load_mem-IsFine i _ 1 pc c f b (inl refl)
execute-IsFine op_lbu i pc c f b h t = load_mem-IsFine i _ 1 pc c f b (inl refl)
execute-IsFine op_lh i pc c f b h t = load_aligned-IsFine i _ 2 pc c f b (inr (inl refl))
execute-IsFine op_lhu i pc c f b h t = load_aligned-IsFine i _ 2 pc c f b (inr (inl refl))
execute-IsFine op_lui i pc c f b h t = leave-IsFine pc _ (write_reg-CanGo i.rt _ c f.rt b)
execute-IsFine op_lw i pc c f b h t = load_aligned-IsFine i _ 4 pc c f b (inr (inr refl))
execute-IsFine op_lwl i pc c f b h t = absurd (ground arith)
execute-IsFine op_lwr i pc c f b h t = absurd (ground arith)
execute-IsFine op_mfhi i pc c f b h t = leave-IsFine pc _ (write_reg-CanGo i.rd _ c f.rd b)
execute-IsFine op_mflo i pc c f b h t = leave-IsFine pc _ (write_reg-CanGo i.rd _ c f.rd b)
execute-IsFine op_mthi i pc c f b h t = leave-IsFine pc _ (b.0, b.1)
execute-IsFine op_mtlo i pc c f b h t = leave-IsFine pc _ (b.0, b.1)
execute-IsFine op_mult i pc c f b h t = leave-IsFine pc _ (b.0, b.1)
execute-IsFine op_multu i pc c f b h t = leave-IsFine pc _ (b.0, b.1)
execute-IsFine op_nor i pc c f b h t = leave-IsFine pc _ (write_reg-CanGo i.rd _ c f.rd b)
execute-IsFine op_or i pc c f b h t = leave-IsFine pc _ (write_reg-CanGo i.rd _ c f.rd b)
execute-IsFine op_ori i pc c f b h t = leave-IsFine pc _ (write_reg-CanGo i.rt _ c f.rt b)
execute-IsFine op_rfe i pc c f b h t = absurd (ground arith)
execute-IsFine op_sb i pc c f b h t = store_mem-IsFine _ 1 _ pc c b (inl refl)
execute-IsFine op_sh i pc c f b h t = store_mem-IsFine _ 2 _ pc c b (inr (inl refl))
execute-IsFine op_sll i pc c f b h t = leave-IsFine pc _ (write_reg-CanGo i.rd _ c f.rd b)
execute-IsFine op_sllv i pc c f b h t = leave-IsFine pc _ (write_reg-CanGo i.rd _ c f.rd b)
execute-IsFine op_slt i pc c f b h t = leave-IsFine pc _ (write_reg-CanGo i.rd _ c f.rd b)
execute-IsFine op_slti i pc c f b h t = leave-IsFine pc _ (write_reg-CanGo i.rt _ c f.rt b)
execute-IsFine op_sltiu i pc c f b h t = leave-IsFine pc _ (write_reg-CanGo i.rt _ c f.rt b)
execute-IsFine op_sltu i pc c f b h t = leave-IsFine pc _ (write_reg-CanGo i.rd _ c f.rd b)
execute-IsFine op_sra i pc c f b h t = leave-IsFine pc _ (write_reg-CanGo i.rd _ c f.rd b)
execute-IsFine op_srav i pc c f b h t = leave-IsFine pc _ (write_reg-CanGo i.rd _ c f.rd b)
execute-IsFine op_srl i pc c f b h t = leave-IsFine pc _ (write_reg-CanGo i.rd _ c f.rd b)
execute-IsFine op_srlv i pc c f b h t = leave-IsFine pc _ (write_reg-CanGo i.rd _ c f.rd b)
execute-IsFine op_sub i pc c f b h t = checked-IsFine i.rd f.rd pc c b _ _
execute-IsFine op_subu i pc c f b h t = leave-IsFine pc _ (write_reg-CanGo i.rd _ c f.rd b)
execute-IsFine op_sw i pc c f b h t = store_mem-IsFine _ 4 _ pc c b (inr (inr refl))
execute-IsFine op_swl i pc c f b h t = absurd (ground arith)
execute-IsFine op_swr i pc c f b h t = absurd (ground arith)
execute-IsFine op_xor i pc c f b h t = leave-IsFine pc _ (write_reg-CanGo i.rd _ c f.rd b)
execute-IsFine op_xori i pc c f b h t = leave-IsFine pc _ (write_reg-CanGo i.rt _ c f.rt b)
execute-IsFine op_syscall i pc c f b h t = (_, refl, b)
execute-IsFine op_unimp i pc c f b h t = (_, refl, b)
execute-IsFine op_res i pc c f b h t = (_, refl, b)
execute-IsFine special i pc c f b h t = absurd (ground arith)
execute-IsFine bcond i pc c f b h t = absurd (ground arith)
