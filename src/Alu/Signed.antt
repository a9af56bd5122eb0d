-- ===== src/Alu/Signed.antt =====
-- The overflow tests and the signed comparison of Project 2/code/machine/mipssim.cc against integers.
use tree_fiddy.Prelude.{ℕ, ◌-◌, ◌<◌, ◌≡◌, ◌⊎◌, Bool, true, false, if◌then◌else◌, arith}
use tree_fiddy.Prelude.Int.{ℤ, pos, negsuc, ◌+ℤ◌, ◌-ℤ◌, ◌≤ℤ◌, ltb_ℤ}
use tree_fiddy.Multiply.{word, half_word, is_negative}
use tree_fiddy.Alu.{add_word, sub_word, add_overflows, addi_overflows, sub_overflows, signed_lt}

-- The int that a word stands for.
abbrev pub signed : ℕ → ℤ
signed a = if is_negative a then negsuc (word - a - 1) else pos a

-- An int can hold it.
abbrev pub Fits : ℤ → Type 0
Fits z = (negsuc (half_word - 1) ≤ℤ z) × (z ≤ℤ pos (half_word - 1))

-- The test finds no overflow and the word is the integer, or it finds one and the integer does not fit.
abbrev pub Exact : Bool → ℕ → ℤ → Type 0
Exact overflows w z =
    ((overflows ≡ false) × (signed w ≡ z) × Fits z) ⊎ ((overflows ≡ true) × ¬ (Fits z))

module _ (a b : ℕ) (p : a < word) (q : b < word) where
  add_overflows-Exact : Exact (add_overflows a b) (add_word a b) (signed a +ℤ signed b)
  unfolding add_overflows ◌+ℤ◌
  add_overflows-Exact = ground arith

  addi_overflows-Exact : Exact (addi_overflows a b) (add_word a b) (signed a +ℤ signed b)
  unfolding addi_overflows ◌+ℤ◌
  addi_overflows-Exact = ground arith

  sub_overflows-Exact : Exact (sub_overflows a b) (sub_word a b) (signed a -ℤ signed b)
  unfolding sub_overflows ◌-ℤ◌
  sub_overflows-Exact = ground arith

  signed_lt_lem : signed_lt a b ≡ ltb_ℤ (signed a) (signed b)
  unfolding signed_lt
  signed_lt_lem = ground arith

-- For all words, the tests of ADD, ADDI and SUB find an overflow exactly when the sum or difference of the
-- two ints does not fit an int, and without one the word is that integer; SLT and SLTI compare the ints.
pub overflow_tests-Exact :
    (a b : ℕ)
    → a < word
    → b < word
    → Exact (add_overflows a b) (add_word a b) (signed a +ℤ signed b)
      × Exact (addi_overflows a b) (add_word a b) (signed a +ℤ signed b)
      × Exact (sub_overflows a b) (sub_word a b) (signed a -ℤ signed b)
      × (signed_lt a b ≡ ltb_ℤ (signed a) (signed b))
overflow_tests-Exact a b p q = (
  add_overflows-Exact a b p q,
  addi_overflows-Exact a b p q,
  sub_overflows-Exact a b p q,
  signed_lt_lem a b p q,
)
