-- ===== src/Multiply/Rounds.antt =====
-- What the rounds of Mult's loop in Project 2/code/machine/mipssim.cc add up to.
use native.Mathlib.Nat.{pow-suc, add-mul-mod_self_left, mod-add-mod, div-add-mod}
use tree_fiddy.Prelude.{
  ℕ, zero, suc, ◌+◌, ◌*◌, ◌/◌, ◌%◌, ◌^◌, ◌≤◌, ◌<◌, ◌≡◌, refl, sym, ap, subst, ◌∙◌, ℕ_discrete,
  arith,
}
use tree_fiddy.Multiply.{word, half_word, half, add_lo, add_hi, shift_hi, shift_lo, mult_loop}

-- The number that two words stand for.
abbrev pub double : ℕ → ℕ → ℕ
double hi lo = hi * word + lo

abbrev pub big : ℕ
big = 18446744073709551616  -- 2 ^ 64

double-add :
    (hi lo b_hi b_lo : ℕ)
    → hi < word
    → lo < word
    → b_hi < word
    → b_lo < word
    → double (add_hi lo b_lo hi b_hi) (add_lo lo b_lo) ≡ (double hi lo + double b_hi b_lo) % big
double-add hi lo b_hi b_lo p q r s = ground arith

double-shift :
    (b_hi b_lo : ℕ)
    → b_hi < word
    → b_lo < word
    → double (shift_hi b_hi b_lo) (shift_lo b_lo) ≡ (2 * double b_hi b_lo) % big
double-shift b_hi b_lo r s = ground arith

-- Multiplying a remainder changes nothing after the next remainder.
mul_mod : (v q y : ℕ) → (v + q * (y % big)) % big ≡ (v + q * y) % big
mul_mod v q y =
    let whole : (v + q * (y % big)) + big * (q * (y / big)) ≡ v + q * y =
      omega (arith, ap (λ (t : ℕ). q * t) (div-add-mod y big)) in
    sym (add-mul-mod_self_left (v + q * (y % big)) big (q * (y / big)))
    ∙ ap (λ (t : ℕ). t % big) whole

-- In n rounds the lowest bits of the shifted `a` are those of x, which has no others.
unfoldable pub Effective : ℕ → ℕ → ℕ → Type 0
Effective zero a x = x ≡ 0
Effective (suc n) a x = (a % 2 ≡ x % 2) × Effective n (half a) (x / 2)

Effective-zero : (n x : ℕ) → Effective n 0 x → x ≡ 0
unfolding Effective
Effective-zero zero x e = e
Effective-zero (suc n) x (low, e) = let rest = Effective-zero n (x / 2) e in omega arith

pub Effective-small : (n a : ℕ) → a < 2 ^ n → a < half_word → Effective n a a
unfolding Effective
Effective-small zero a p q = omega arith
Effective-small (suc n) a p q =
    let shifted : half a ≡ a / 2 = ground arith in
    (refl, rw shifted (Effective-small n (a / 2) (omega (arith, pow-suc 2 n)) (omega arith)))

-- A word with its sign bit set: p is the value of the bit that the sign has come down to.
pub Effective-large :
    (n a c p : ℕ) → 2 * p ≡ 2 ^ n → p ≤ half_word → c < p → a + p ≡ word + c → Effective n a (p + c)
unfolding Effective
Effective-large zero a c p e q r s = absurd (omega arith)
Effective-large (suc zero) a c p e q r s = (omega arith, omega arith)
Effective-large (suc (suc n)) a c p e q r s =
    let even : p ≡ 2 * (p / 2) = omega (arith, pow-suc 2 (suc n), pow-suc 2 n) in
    let shifted : half a ≡ a / 2 + half_word = ground arith in
    let next : (p + c) / 2 ≡ p / 2 + c / 2 = omega arith in
    (
      omega arith,
      rw shifted (
          rw next (
            Effective-large (suc n) (a / 2 + half_word) (c / 2) (p / 2)
              (omega (arith, pow-suc 2 (suc n))) (omega arith) (omega arith) (omega arith))),
    )

-- Two words.
abbrev pub Words : ℕ × ℕ → Type 0
Words (hi, lo) = (hi < word) × (lo < word)

halves : (x b : ℕ) → x * b ≡ x / 2 * (2 * b) + x % 2 * b
halves x b = let e : x ≡ 2 * (x / 2) + x % 2 = omega arith in omega (arith, ap (λ (t : ℕ). t * b) e)

step_even : (v x b : ℕ) → x % 2 ≡ 0 → (v + x / 2 * (2 * b % big)) % big ≡ (v + x * b) % big
step_even v x b e =
    let whole : x * b ≡ x / 2 * (2 * b) = omega (arith, halves x b, ap (λ (t : ℕ). t * b) e) in
    mul_mod v (x / 2) (2 * b) ∙ ap (λ (t : ℕ). (v + t) % big) (sym whole)

step_odd :
    (v x b : ℕ) → x % 2 ≡ 1 → ((v + b) % big + x / 2 * (2 * b % big)) % big ≡ (v + x * b) % big
step_odd v x b e =
    let whole : v + b + x / 2 * (2 * b) ≡ v + x * b =
      omega (arith, halves x b, ap (λ (t : ℕ). t * b) e) in
    mod-add-mod (v + b) big (x / 2 * (2 * b % big))
    ∙ mul_mod (v + b) (x / 2) (2 * b)
    ∙ ap (λ (t : ℕ). t % big) whole

-- What a run of the loop from these values comes to.
abbrev pub Makes : ℕ → ℕ × ℕ → Type 0
Makes v r = Words r × (double r.0 r.1 ≡ v % big)

Makes-now : (v hi lo : ℕ) → hi < word → lo < word → double hi lo ≡ v % big → Makes v (hi, lo)
Makes-now v hi lo p q e = ((p, q), e)

pub Makes-carry : (v w : ℕ) (r : ℕ × ℕ) → v % big ≡ w % big → Makes v r → Makes w r
Makes-carry v w r e (p, q) = (p, q ∙ e)

module _ (n a b_hi b_lo hi lo : ℕ) where
  mult_loop_even :
      a % 2 ≡ 0
      → mult_loop (suc n) a b_hi b_lo hi lo
        ≡ mult_loop n (half a) (shift_hi b_hi b_lo) (shift_lo b_lo) hi lo
  unfolding mult_loop
  mult_loop_even e = ground arith

  mult_loop_odd :
      a % 2 ≡ 1
      → 0 < a / 2
      → mult_loop (suc n) a b_hi b_lo hi lo
        ≡ mult_loop n
            (half a)
            (shift_hi b_hi b_lo)
            (shift_lo b_lo)
            (add_hi lo b_lo hi b_hi)
            (add_lo lo b_lo)
  unfolding mult_loop
  mult_loop_odd e more = ground arith

  mult_loop_last :
      a ≡ 1 → mult_loop (suc n) a b_hi b_lo hi lo ≡ (add_hi lo b_lo hi b_hi, add_lo lo b_lo)
  unfolding mult_loop
  mult_loop_last e = rw e refl

data Parity (a : ℕ) : Type 0 where
  even : a % 2 ≡ 0 → Parity a
  last : a ≡ 1 → Parity a
  odd : a % 2 ≡ 1 → 0 < a / 2 → Parity a

Parity-cases : (a : ℕ) → Parity a
Parity-cases a = elim (ℕ_discrete (a % 2) 0) [
  | yes e ↦ even e
  | no ne ↦ elim (ℕ_discrete a 1) [ yes e ↦ last e | no more ↦ odd (omega arith) (omega arith) ]
]

pub mult_loop-Makes :
    (n a b_hi b_lo hi lo x : ℕ)
    → b_hi < word
    → b_lo < word
    → hi < word
    → lo < word
    → Effective n a x
    → Makes (double hi lo + x * double b_hi b_lo) (mult_loop n a b_hi b_lo hi lo)
unfolding mult_loop Effective
mult_loop-Makes zero a b_hi b_lo hi lo x p q r s e =
    Makes-now (double hi lo + x * double b_hi b_lo) hi lo r s (rw e (omega arith))
mult_loop-Makes (suc n) a b_hi b_lo hi lo x p q r s (low, e) =
    let v : ℕ = double hi lo in
    let b : ℕ = double b_hi b_lo in
    let shifted = double-shift b_hi b_lo p q in
    let added = double-add hi lo b_hi b_lo r s p q in
    elim (Parity-cases a) [
      | even z ↦
          let rest =
            mult_loop-Makes n (half a) (shift_hi b_hi b_lo) (shift_lo b_lo) hi lo (x / 2)
              (ground arith) (ground arith) r s e in
          rw (mult_loop_even n a b_hi b_lo hi lo z) (
            Makes-carry _ (v + x * b) _
              (ap (λ (t : ℕ). (v + x / 2 * t) % big) shifted ∙ step_even v x b (omega arith)) rest)
      | last z ↦
          let done : x / 2 ≡ 0 =
            Effective-zero n (x / 2) (subst (λ (t : ℕ). Effective n t (x / 2)) (ground arith) e) in
          let one : x ≡ 1 = omega arith in
          rw (mult_loop_last n a b_hi b_lo hi lo z) (
            Makes-now (v + x * b) (add_hi lo b_lo hi b_hi) (add_lo lo b_lo) (omega arith)
              (omega arith) (rw one (added ∙ ap (λ (t : ℕ). (v + t) % big) (omega arith))))
      | odd z more ↦
          let rest =
            mult_loop-Makes n (half a) (shift_hi b_hi b_lo) (shift_lo b_lo) (add_hi lo b_lo hi b_hi)
              (add_lo lo b_lo) (x / 2) (ground arith) (ground arith) (omega arith) (omega arith)
              e in
          rw (mult_loop_odd n a b_hi b_lo hi lo z more) (
            Makes-carry _ (v + x * b) _
              (ap (λ (t : ℕ). (t + x / 2 * double (shift_hi b_hi b_lo) (shift_lo b_lo)) % big) added
                ∙ ap (λ (t : ℕ). ((v + b) % big + x / 2 * t) % big) shifted
                ∙ step_odd v x b (omega arith))
              rest)
    ]
