-- ===== src/Prelude/Bits.antt =====
-- The binary digits of a number, and what `&` and `|` do to them.
use Prim.Native.Nat.{bit_and, bit_or, bit_and-bitwise, bit_or-bitwise, digits, min, max}
use native.Mathlib.Nat.{pow-suc}
use tree_fiddy.Prelude.{
  ℕ, zero, suc, ◌+◌, ◌-◌, ◌*◌, ◌/◌, ◌%◌, ◌^◌, ◌≤◌, ◌<◌, ◌≡◌, refl, Bool, true, ◌&&◌, arith, inl,
  inr, ap, Bool-cases, bit, ◌==◌, ==_iff, if◌then◌else◌,
}

-- Digit i of w, 0 or 1.
abbrev pub bit_at : ℕ → ℕ → ℕ
bit_at w zero = w % 2
bit_at w (suc i) = bit_at (w / 2) i

pub bit_at-le : (w i : ℕ) → bit_at w i ≤ 1
bit_at-le w zero = omega arith
bit_at-le w (suc i) = bit_at-le (w / 2) i

pub bit_at_zero : (i : ℕ) → bit_at 0 i ≡ 0
bit_at_zero zero = refl
bit_at_zero (suc i) = bit_at_zero i

-- A digitwise operation acts on each digit.
module _ (z : ℕ → ℕ) (f : ℕ → ℕ → ℕ) (rest : (b i : ℕ) → bit_at (z b) i ≡ f 0 (bit_at b i))
    (digit : (x y : ℕ) → x ≤ 1 → y ≤ 1 → f x y ≤ 1) where
  bit_at-digits : (n a b i : ℕ) → a ≤ n → bit_at (digits z f n a b) i ≡ f (bit_at a i) (bit_at b i)
  bit_at-digits zero zero b i h = rw (bit_at_zero i) (rest b i)
  bit_at-digits zero (suc a) b i h = absurd (omega arith)
  bit_at-digits (suc n) zero b i h = rw (bit_at_zero i) (rest b i)
  bit_at-digits (suc n) (suc a) b zero h =
      omega (arith, digit (suc a % 2) (b % 2) (omega arith) (omega arith))
  bit_at-digits (suc n) (suc a) b (suc i) h =
      let low : f (suc a % 2) (b % 2) ≤ 1 = digit (suc a % 2) (b % 2) (omega arith) (omega arith) in
      let upper : (digits z f n (suc a / 2) (b / 2) * 2 + f (suc a % 2) (b % 2)) / 2
          ≡ digits z f n (suc a / 2) (b / 2) =
        omega arith in
      rw upper (bit_at-digits n (suc a / 2) (b / 2) i (omega arith))

pub bit_at-bit_and : (a b i : ℕ) → bit_at (bit_and a b) i ≡ min (bit_at a i) (bit_at b i)
bit_at-bit_and a b i = rw (bit_and-bitwise a b) (
    bit_at-digits (λ b. 0) min (λ b j. omega (arith, bit_at_zero j)) (λ x y p q. omega arith) a a b
      i (omega arith))

pub bit_at-bit_or : (a b i : ℕ) → bit_at (bit_or a b) i ≡ max (bit_at a i) (bit_at b i)
bit_at-bit_or a b i =
    rw (bit_or-bitwise a b) (
      bit_at-digits (λ b. b) max (λ b j. omega arith) (λ x y p q. omega arith) a a b i
        (omega arith))

pub bit_at-pow : (b i : ℕ) → bit_at (2 ^ b) i ≡ bit (b == i)
bit_at-pow zero zero = refl
bit_at-pow zero (suc i) = ground (arith, bit_at_zero i)
bit_at-pow (suc b) zero = ground (arith, pow-suc 2 b)
bit_at-pow (suc b) (suc i) =
    let e : 2 ^ suc b / 2 ≡ 2 ^ b = omega (arith, pow-suc 2 b) in
    rw e (ground (arith, bit_at-pow b i))

eq_zero_fuel : (n w : ℕ) → w ≤ n → ((i : ℕ) → bit_at w i ≡ 0) → w ≡ 0
eq_zero_fuel zero w h all = omega arith
eq_zero_fuel (suc n) w h all =
    let low : w % 2 ≡ 0 = all 0 in
    let up : w / 2 ≡ 0 = eq_zero_fuel n (w / 2) (omega arith) (λ i. all (suc i)) in omega arith

pub eq_zero_of_bits : (w : ℕ) → ((i : ℕ) → bit_at w i ≡ 0) → w ≡ 0
eq_zero_of_bits w = eq_zero_fuel w w (omega arith)

-- `w & (1 << b)` is not zero exactly where digit b of w is set.
pub test_bit : (w b : ℕ) → (bit_and w (2 ^ b) == 0) ≡ (bit_at w b == 0)
test_bit w b = elim (Bool-cases (bit_at w b == 0)) [
  | inl clear ↦ let e : bit_and w (2 ^ b) ≡ 0 = eq_zero_of_bits _ (none_set clear) in ground arith
  | inr set ↦ elim (Bool-cases (bit_and w (2 ^ b) == 0)) [
    | inl z ↦
        let e : bit_and w (2 ^ b) ≡ 0 = (==_iff _ 0).0 z in
        absurd (
          ground (
            arith,
            ap (λ x. bit_at x b) e,
            bit_at_zero b,
            bit_at-bit_and w (2 ^ b) b,
            bit_at-pow b b,
          ))
    | inr nz ↦ rw (nz, set)
  ]
]
  where
    none_set : (bit_at w b == 0) ≡ true → (i : ℕ) → bit_at (bit_and w (2 ^ b)) i ≡ 0
    none_set clear i = elim (Bool-cases (b == i)) [
      | inl e ↦
          let same : b ≡ i = (==_iff b i).0 e in
          rw (← same) (ground (arith, bit_at-bit_and w (2 ^ b) b))
      | inr e ↦ ground (arith, bit_at-bit_and w (2 ^ b) i, bit_at-pow b i)
    ]

-- `w | (1 << b)` sets digit b and no other.
pub bit_at-set_bit : (w b i : ℕ) → bit_at (bit_or w (2 ^ b)) i ≡ (if b == i then 1 else bit_at w i)
bit_at-set_bit w b i = ground (arith, bit_at-bit_or w (2 ^ b) i, bit_at-pow b i, bit_at-le w i)

-- `~(1 << b)` of a 32-bit word.
abbrev pub not_bit : ℕ → ℕ
not_bit b = 2 ^ 32 - 1 - 2 ^ b

all_below : ℕ → (ℕ → Bool) → Bool
all_below zero p = true
all_below (suc n) p = p n && all_below n p

all_below-eq_true : (n : ℕ) (p : ℕ → Bool) → all_below n p ≡ true → (x : ℕ) → x < n → p x ≡ true
unfolding all_below
all_below-eq_true zero p h x lt = absurd (omega arith)
all_below-eq_true (suc n) p h x lt = elim (Bool-cases (x == n)) [
  | inl e ↦ let same : x ≡ n = (==_iff x n).0 e in rw same (ground arith)
  | inr e ↦ all_below-eq_true n p (ground arith) x (ground arith)
]

mask_row : ℕ → Bool
mask_row b = all_below 32 (λ i. bit_at (not_bit b) i == (if b == i then 0 else 1))

mask_table : all_below 32 mask_row ≡ true
unfolding all_below mask_row
mask_table = refl

bit_at-not_bit : (b i : ℕ) → b < 32 → i < 32 → bit_at (not_bit b) i ≡ (if b == i then 0 else 1)
unfolding mask_row
bit_at-not_bit b i hb hi =
    (==_iff _ _).0 (all_below-eq_true 32 _ (all_below-eq_true 32 mask_row mask_table b hb) i hi)

-- `w & ~(1 << b)` clears digit b, and no other digit of the word.
pub bit_at-clear_bit :
    (w b i : ℕ)
    → b < 32
    → i < 32
    → bit_at (bit_and w (not_bit b)) i ≡ (if b == i then 0 else bit_at w i)
bit_at-clear_bit w b i hb hi =
    ground (arith, bit_at-bit_and w (not_bit b) i, bit_at-not_bit b i hb hi, bit_at-le w i)
