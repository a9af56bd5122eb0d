-- ===== src/Alu.antt =====
-- What the instructions of Project 2/code/machine/mipssim.cc compute from the words of registers. A word
-- is its 32 bits as a natural number, and sums and differences of ints wrap around.
pub mod Signed
use Prim.Native.Nat.{bit_or}
use tree_fiddy.Prelude.{
  ℕ, ◌+◌, ◌-◌, ◌*◌, ◌/◌, ◌%◌, ◌^◌, Bool, true, false, not, ◌&&◌, ltb, ◌==◌, if◌then◌else◌,
}
use tree_fiddy.Prelude.Outcome.{Outcome, ok, fault}
use tree_fiddy.Multiply.{word, half_word, is_negative, negate}

abbrev pub add_word : ℕ → ℕ → ℕ
add_word a b = (a + b) % word

abbrev pub sub_word : ℕ → ℕ → ℕ
sub_word a b = (a + word - b) % word

-- (a ^ b) & SIGN_BIT
abbrev pub signs_differ : ℕ → ℕ → Bool
signs_differ a b = if is_negative a then not (is_negative b) else is_negative b

-- The test for overflow of OP_ADD.
unfoldable pub add_overflows : ℕ → ℕ → Bool
add_overflows a b = not (signs_differ a b) && signs_differ a (add_word a b)

-- The test for overflow of OP_ADDI, with the immediate operand second.
unfoldable pub addi_overflows : ℕ → ℕ → Bool
addi_overflows a b = not (signs_differ a b) && signs_differ b (add_word a b)

-- The test for overflow of OP_SUB.
unfoldable pub sub_overflows : ℕ → ℕ → Bool
sub_overflows a b = signs_differ a b && signs_differ a (sub_word a b)

-- a < b of two ints
unfoldable pub signed_lt : ℕ → ℕ → Bool
signed_lt a b = ltb (add_word a half_word) (add_word b half_word)

abbrev pub absolute : ℕ → ℕ
absolute a = if is_negative a then negate a else a

-- OP_DIV: the words for LoReg and HiReg. The quotient of the least int by -1 is undefined in C; it is
-- taken to end the program.
unfoldable pub div_words : ℕ → ℕ → Outcome (ℕ × ℕ)
div_words a b =
    let q : ℕ = absolute a / absolute b in
    let r : ℕ = absolute a % absolute b in
    let signed : ℕ × ℕ =
      (if signs_differ a b then negate q else q, if is_negative a then negate r else r) in
    if b == 0 then ok (0, 0) else if a == half_word && b == word - 1 then fault else ok signed

-- OP_DIVU
unfoldable pub divu_words : ℕ → ℕ → ℕ × ℕ
divu_words a b = if b == 0 then (0, 0) else (a / b, a % b)

-- a << s
abbrev pub shift_left : ℕ → ℕ → ℕ
shift_left a s = a * 2 ^ s % word

-- a >> s of an int, which the host fills with copies of the sign.
abbrev pub shift_right : ℕ → ℕ → ℕ
shift_right a s = a / 2 ^ s + (if is_negative a then (2 ^ s - 1) * 2 ^ (32 - s) else 0)

-- ~(a | b)
abbrev pub nor_word : ℕ → ℕ → ℕ
nor_word a b = word - 1 - bit_or a b

abbrev pub truth : Bool → ℕ
truth true = 1
truth false = 0

-- The byte and the half word of OP_LB, OP_LBU, OP_LH and OP_LHU.
abbrev pub load_byte : Bool → ℕ → ℕ
load_byte signed v = if not (ltb (v % 256) 128) && signed then v % 256 + 4294967040 else v % 256

abbrev pub load_half : Bool → ℕ → ℕ
load_half signed v =
    if not (ltb (v % 65536) 32768) && signed then v % 65536 + 4294901760 else v % 65536

-- The target of OP_J: the upper four bits of the program counter and the index.
abbrev pub jump_target : ℕ → ℕ → ℕ
jump_target pc extra = pc / 268435456 * 268435456 + extra * 4 % 268435456
