-- ===== src/Multiply.antt =====
-- Mult of Project 2/code/machine/mipssim.cc: the product of two 32-bit words, as two words. A word is
-- its 32 bits as a natural number. The host shifts a negative `int` to the right by copies of its sign.
pub mod Rounds
pub mod Product
use tree_fiddy.Prelude.{
  ℕ, zero, suc, ◌+◌, ◌-◌, ◌*◌, ◌/◌, ◌%◌, ◌^◌, Bool, true, false, not, ◌&&◌, ◌||◌, ltb, leb, ◌==◌,
  if◌then◌else◌,
}

abbrev pub word : ℕ
word = 4294967296  -- 2 ^ 32

abbrev pub half_word : ℕ
half_word = 2147483648  -- SIGN_BIT

-- a < 0, as an int
abbrev pub is_negative : ℕ → Bool
is_negative a = leb half_word a

-- -a, which for the least int is the same word again
abbrev pub negate : ℕ → ℕ
negate a = (word - a) % word

-- a >>= 1
abbrev pub half : ℕ → ℕ
half a = a / 2 + (if is_negative a then half_word else 0)

-- lo += bLo, with the carry into hi, and hi += bHi.
abbrev pub add_lo : ℕ → ℕ → ℕ
add_lo lo b_lo = (lo + b_lo) % word

abbrev pub add_hi : ℕ → ℕ → ℕ → ℕ → ℕ
add_hi lo b_lo hi b_hi = ((if ltb (add_lo lo b_lo) b_lo then (hi + 1) % word else hi) + b_hi) % word

-- bHi and bLo shifted to the left as one number.
abbrev pub shift_hi : ℕ → ℕ → ℕ
shift_hi b_hi b_lo = b_hi * 2 % word + (if is_negative b_lo then 1 else 0)

abbrev pub shift_lo : ℕ → ℕ
shift_lo b_lo = b_lo * 2 % word

-- The main loop, with the rounds left: hi and lo at its end.
unfoldable pub mult_loop : ℕ → ℕ → (b_hi b_lo hi lo : ℕ) → ℕ × ℕ
mult_loop zero a b_hi b_lo hi lo = (hi, lo)
mult_loop (suc n) a b_hi b_lo hi lo =
    let odd = not (a % 2 == 0) in
    let hi' = if odd then add_hi lo b_lo hi b_hi else hi in
    let lo' = if odd then add_lo lo b_lo else lo in
    let rest = mult_loop n (half a) (shift_hi b_hi b_lo) (shift_lo b_lo) hi' lo' in
    if odd && a / 2 == 0 then (hi', lo') else rest

-- The two's complement of hi and lo.
abbrev pub complement : ℕ × ℕ → ℕ × ℕ
complement (hi, lo) =
    let lo' = (word - 1 - lo + 1) % word in
    (if lo' == 0 then (word - 1 - hi + 1) % word else word - 1 - hi, lo')

-- An operand of a signed product is made positive.
abbrev pub magnitude : Bool → ℕ → ℕ
magnitude signed_arith a = if signed_arith && is_negative a then negate a else a

-- Mult: the values of *hiPtr and *loPtr.
unfoldable pub mult : ℕ → ℕ → Bool → ℕ × ℕ
unfolding mult_loop
mult a b signed_arith =
    let negative =
      signed_arith
      && (is_negative a && not (is_negative b) || not (is_negative a) && is_negative b) in
    let product = mult_loop 32 (magnitude signed_arith a) 0 (magnitude signed_arith b) 0 0 in
    if a == 0 || b == 0 then (0, 0) else if negative then complement product else product
