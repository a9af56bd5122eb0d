-- ===== src/Multiply/Product.antt =====
-- What Mult of Project 2/code/machine/mipssim.cc computes.
use tree_fiddy.Prelude.{
  ℕ, ◌+◌, ◌-◌, ◌*◌, ◌%◌, ◌≤◌, ◌<◌, ◌≡◌, refl, sym, ap, subst, ◌∙◌, inl, inr, Bool, true, false,
  ◌&&◌, ◌||◌, ◌==◌, if◌then◌else◌, arith, Bool-cases,
}
use tree_fiddy.Multiply.{word, half_word, is_negative, negate, complement, mult_loop, mult}
use tree_fiddy.Multiply.Rounds.{
  double, big, Effective, Effective-small, Effective-large, Makes, Makes-carry, mult_loop-Makes,
}

-- A word as a number of 64 bits: with its sign extended, or with zeros in front.
abbrev pub extend : Bool → ℕ → ℕ
extend signed_arith a = if signed_arith && is_negative a then big - word + a else a

Effective-word : (a : ℕ) → a < word → Effective 32 a a
Effective-word a p = elim (Bool-cases (is_negative a)) [
  | inl high ↦
      let low : half_word + (a - half_word) ≡ a = ground arith in
      subst (Effective 32 a) low (
        Effective-large 32 a (a - half_word) half_word refl (omega arith) (omega arith)
          (omega arith))
  | inr small ↦ Effective-small 32 a p (ground arith)
]

zero_high : (b : ℕ) → double 0 b ≡ b
zero_high b = omega arith

mult_loop-product : (a b : ℕ) → a < word → b < word → Makes (a * b) (mult_loop 32 a 0 b 0 0)
mult_loop-product a b p q =
    let start : double 0 0 + a * double 0 b ≡ a * b =
      omega (arith, ap (λ (t : ℕ). a * t) (zero_high b)) in
    Makes-carry _ (a * b) _ (ap (λ (t : ℕ). t % big) start) (
      mult_loop-Makes 32 a 0 b 0 0 a (omega arith) q (omega arith) (omega arith)
        (Effective-word a p))

double-complement :
    (hi lo : ℕ)
    → hi < word
    → lo < word
    → double (complement (hi, lo)).0 (complement (hi, lo)).1 ≡ (big - double hi lo) % big
double-complement hi lo p q = ground arith

-- The product with one or two factors taken from 2 ^ 64.
one_negative : (x y : ℕ) → x ≤ big → (big - x) * y % big ≡ (big - x * y % big) % big
one_negative x y p =
    let e : (big - x) + x ≡ big = omega arith in omega (arith, ap (λ (t : ℕ). t * y) e)

two_negative : (x y : ℕ) → x ≤ big → y ≤ big → (big - x) * (big - y) % big ≡ x * y % big
two_negative x y p q =
    let e : (big - x) + x ≡ big = omega arith in
    let f : (big - y) + y ≡ big = omega arith in
    omega (arith, ap (λ (t : ℕ). t * y) e, ap (λ (t : ℕ). (big - x) * t) f)

complement-Makes : (v : ℕ) (r : ℕ × ℕ) → Makes v r → Makes ((big - v % big) % big) (complement r)
complement-Makes v (hi, lo) ((p, q), e) =
    ((ground arith, ground arith), double-complement hi lo p q ∙ ground arith)

twice : (v : ℕ) → v % big % big ≡ v % big
twice v = omega arith

swap : (x y : ℕ) → x * y ≡ y * x
swap x y = omega arith

extend_negate : (a : ℕ) → a < word → is_negative a ≡ true → big - negate a ≡ big - word + a
extend_negate a p n = ground arith

module _ (a b : ℕ) (p : a < word) (q : b < word) (nonzero : (a == 0 || b == 0) ≡ false) where
  mult_unsigned : Makes (a * b) (mult a b false)
  unfolding mult
  mult_unsigned = rw nonzero (mult_loop-product a b p q)

  module _ (na : is_negative a ≡ true) where
    mult_both : is_negative b ≡ true → Makes ((big - word + a) * (big - word + b)) (mult a b true)
    unfolding mult
    mult_both nb =
        let x : ℕ = negate a in
        let y : ℕ = negate b in
        let e : (big - x) * (big - y) ≡ (big - word + a) * (big - word + b) =
          rw (extend_negate a p na) (rw (extend_negate b q nb) refl) in
        let same = two_negative x y (omega arith) (omega arith) in
        rw na (
          rw nb (
            rw nonzero (
              Makes-carry (x * y) _ _ (sym same ∙ ap (λ (t : ℕ). t % big) e)
                (mult_loop-product x y (omega arith) (omega arith)))))

    mult_left : is_negative b ≡ false → Makes ((big - word + a) * b) (mult a b true)
    unfolding mult
    mult_left nb =
        let x : ℕ = negate a in
        let e : (big - x) * b ≡ (big - word + a) * b = rw (extend_negate a p na) refl in
        let turned = one_negative x b (omega arith) in
        rw na (
          rw nb (
            rw nonzero (
              Makes-carry _ _ _ (twice (big - x * b % big) ∙ sym turned ∙ ap (λ (t : ℕ). t % big) e)
                (complement-Makes (x * b) _ (mult_loop-product x b (omega arith) q)))))

  module _ (na : is_negative a ≡ false) where
    mult_right : is_negative b ≡ true → Makes (a * (big - word + b)) (mult a b true)
    unfolding mult
    mult_right nb =
        let y : ℕ = negate b in
        let e : (big - y) * a ≡ a * (big - word + b) = rw (extend_negate b q nb) (omega arith) in
        let turned = one_negative y a (omega arith) in
        rw na (
          rw nb (
            rw nonzero (
              Makes-carry _ _ _
                (twice (big - a * y % big)
                  ∙ ap (λ (t : ℕ). (big - t % big) % big) (swap a y)
                  ∙ sym turned
                  ∙ ap (λ (t : ℕ). t % big) e)
                (complement-Makes (a * y) _ (mult_loop-product a y p (omega arith))))))

    mult_neither : is_negative b ≡ false → Makes (a * b) (mult a b true)
    unfolding mult
    mult_neither nb = rw na (rw nb (rw nonzero (mult_loop-product a b p q)))

mult_nonzero :
    (a b : ℕ) (signed_arith : Bool)
    → a < word
    → b < word
    → (a == 0 || b == 0) ≡ false
    → Makes (extend signed_arith a * extend signed_arith b) (mult a b signed_arith)
mult_nonzero a b false p q nonzero = mult_unsigned a b p q nonzero
mult_nonzero a b true p q nonzero = elim (Bool-cases (is_negative a)) [
  | inl na ↦ elim (Bool-cases (is_negative b)) [
    | inl nb ↦ rw na (rw nb (mult_both a b p q nonzero na nb))
    | inr nb ↦ rw na (rw nb (mult_left a b p q nonzero na nb))
  ]
  | inr na ↦ elim (Bool-cases (is_negative b)) [
    | inl nb ↦ rw na (rw nb (mult_right a b p q nonzero na nb))
    | inr nb ↦ rw na (rw nb (mult_neither a b p q nonzero na nb))
  ]
]

extend_zero : (s : Bool) (a : ℕ) → a ≡ 0 → extend s a ≡ 0
extend_zero true a e = ground arith
extend_zero false a e = e

mult_zero :
    (a b : ℕ) (signed_arith : Bool)
    → (a == 0 || b == 0) ≡ true
    → Makes (extend signed_arith a * extend signed_arith b) (mult a b signed_arith)
unfolding mult
mult_zero a b s zeros =
    let none_left : extend s a * extend s b ≡ 0 = elim (Bool-cases (a == 0)) [
      | inl e ↦ omega (arith, ap (λ (t : ℕ). t * extend s b) (extend_zero s a (ground arith)))
      | inr e ↦ omega (arith, ap (λ (t : ℕ). extend s a * t) (extend_zero s b (ground arith)))
    ] in
    rw zeros (rw none_left ((omega arith, omega arith), omega arith))

-- For all words a and b, Mult gives two words that as one number of 64 bits are the product of a and b
-- modulo 2 ^ 64, where a signed multiplication takes both with their signs extended.
pub mult-extend :
    (a b : ℕ) (signed_arith : Bool)
    → a < word
    → b < word
    → ((mult a b signed_arith).0 < word)
      × ((mult a b signed_arith).1 < word)
      × ((mult a b signed_arith).0 * word + (mult a b signed_arith).1
          ≡ extend signed_arith a * extend signed_arith b % big)
mult-extend a b s p q =
    let ((hi, lo), e) : Makes (extend s a * extend s b) (mult a b s) =
      elim (Bool-cases (a == 0 || b == 0)) [
        | inl zeros ↦ mult_zero a b s zeros
        | inr nonzero ↦ mult_nonzero a b s p q nonzero
      ] in
    (hi, lo, e)
