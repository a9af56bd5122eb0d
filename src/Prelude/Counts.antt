-- ===== src/Prelude/Counts.antt =====
-- How often a number stands in a list, and sums of a measure over a list: both are natural numbers,
-- so that conservation laws over several lists are linear arithmetic.
use Prim.Native.Nat.{ℕ, zero, suc, ◌+◌, ◌≤◌}
use mathlib.Core.Path.{◌≡◌}
use mathlib.Core.Bool.{Bool, true, false}
use mathlib.Core.List.{List, [], ◌∷◌, ◌++◌}
use mathlib.Core.Option.{some}
use native.Mathlib.Omega.{arith}
use tree_fiddy.Prelude.Tests.{◌==◌}
use tree_fiddy.Prelude.Lists.{get_elem?, set}

abbrev pub bit : Bool → ℕ
bit true = 1
bit false = 0

abbrev pub count : ℕ → List ℕ → ℕ
count t [] = 0
count t (x ∷ xs) = bit (x == t) + count t xs

pub count-append : (t : ℕ) (xs ys : List ℕ) → count t (xs ++ ys) ≡ count t xs + count t ys
count-append t [] ys = omega arith
count-append t (x ∷ xs) ys = omega (arith, count-append t xs ys)

module _ {ℓ} {A : Type ℓ} where
  abbrev pub sum_map : (A → ℕ) → List A → ℕ
  sum_map f [] = 0
  sum_map f (x ∷ xs) = f x + sum_map f xs

  pub sum_map-append :
      (f : A → ℕ) (xs ys : List A) → sum_map f (xs ++ ys) ≡ sum_map f xs + sum_map f ys
  sum_map-append f [] ys = omega arith
  sum_map-append f (x ∷ xs) ys = omega (arith, sum_map-append f xs ys)

  -- A write at a valid index trades the measure of the old entry for that of the new one.
  pub sum_map-set :
      (f : A → ℕ) (xs : List A) (i : ℕ) (old new : A)
      → get_elem? xs i ≡ some old
      → sum_map f (set xs i new) + f old ≡ sum_map f xs + f new
  sum_map-set f [] i old new h = ground arith
  sum_map-set f (x ∷ xs) zero old new h = ground arith
  sum_map-set f (x ∷ xs) (suc i) old new h = omega (arith, sum_map-set f xs i old new h)

  pub le-sum_map :
      (f : A → ℕ) (xs : List A) (i : ℕ) (x : A) → get_elem? xs i ≡ some x → f x ≤ sum_map f xs
  le-sum_map f [] i x h = ground arith
  le-sum_map f (y ∷ xs) zero x h = ground arith
  le-sum_map f (y ∷ xs) (suc i) x h = omega (arith, le-sum_map f xs i x h)
