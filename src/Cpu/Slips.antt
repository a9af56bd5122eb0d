-- ===== src/Cpu/Slips.antt =====
-- Two operations of Project 2/code/machine/mipssim.cc that are not those of the processor simulated.
use Prim.Native.Nat.{bit_or, bit_or-bitwise, digits, max}
use native.Mathlib.Nat.{pow-suc}
use tree_fiddy.Prelude.{ℕ, zero, suc, ◌-◌, ◌*◌, ◌/◌, ◌^◌, ◌≤◌, ◌<◌, ◌≡◌, refl, true, arith}
use tree_fiddy.Prelude.Outcome.{ok}
use tree_fiddy.Multiply.{is_negative}
use tree_fiddy.Decode.{Instruction, op_or, op_srl, op_sra}
use tree_fiddy.Alu.{shift_right}
use tree_fiddy.Cpu.{Cpu, write_reg, advance}
use tree_fiddy.Cpu.Execute.{rs_of, rt_of, execute}

digits_same : (n a : ℕ) → a ≤ n → digits (λ b. b) max n a a ≡ a
digits_same zero zero h = refl
digits_same zero (suc a) h = absurd (omega arith)
digits_same (suc n) zero h = refl
digits_same (suc n) (suc a) h = omega (arith, digits_same n (suc a / 2) (omega arith))

bit_or_same : (a : ℕ) → bit_or a a ≡ a
bit_or_same a = rw (bit_or-bitwise a a) (digits_same a a (omega arith))

-- OR gives the register rd the contents of rs, whatever rt holds.
pub or_copies_rs :
    (i : Instruction) (pc : ℕ) (c : Cpu)
    → execute op_or i pc c ≡ ok (advance pc 0 0 (write_reg i.rd (rs_of i c) c))
unfolding execute
or_copies_rs i pc c = rw (bit_or_same (c.registers i.rs)) refl

pow_two_pos : (n : ℕ) → 0 < 2 ^ n
pow_two_pos zero = omega arith
pow_two_pos (suc n) = omega (arith, pow-suc 2 n, pow_two_pos n)

pow_two_more : (n : ℕ) → 0 < n → 1 < 2 ^ n
pow_two_more zero p = absurd (omega arith)
pow_two_more (suc n) p = omega (arith, pow-suc 2 n, pow_two_pos n)

product_pos : (x y : ℕ) → 0 < x → 0 < y → 0 < x * y
product_pos x y p q = grind arith

shift_right_more : (a s : ℕ) → is_negative a ≡ true → 0 < s → a / 2 ^ s < shift_right a s
shift_right_more a s n p =
    let more = pow_two_more s p in
    let filled : 0 < (2 ^ s - 1) * 2 ^ (32 - s) =
      product_pos (2 ^ s - 1) (2 ^ (32 - s)) (omega arith) (pow_two_pos (32 - s)) in
    rw n (omega arith)

-- SRL of a word with its sign bit set by at least one place does not bring in zeros: it gives rd more
-- than the quotient of rt by the power of two. It does what SRA does.
pub srl_keeps_sign :
    (i : Instruction) (pc : ℕ) (c : Cpu)
    → is_negative (rt_of i c) ≡ true
    → 0 < i.extra
    → (v : ℕ) × (execute op_srl i pc c ≡ ok (advance pc 0 0 (write_reg i.rd v c)))
      × (rt_of i c / 2 ^ i.extra < v)
      × (execute op_srl i pc c ≡ execute op_sra i pc c)
unfolding execute
srl_keeps_sign i pc c n p =
    (shift_right (rt_of i c) i.extra, refl, shift_right_more (rt_of i c) i.extra n p, refl)
