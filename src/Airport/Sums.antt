-- ===== src/Airport/Sums.antt =====
-- Sums over the arrays of the airport of Project 2/code/threads/threadtest.cc, under its assignments.
use native.Mathlib.Nat.{suc-mul, zero-mul}
use tree_fiddy.Prelude.{ℕ, zero, suc, ◌+◌, ◌*◌, ◌<◌, ◌≡◌, refl, arith}
use tree_fiddy.Airport.{assign_at, add_at, fill}

abbrev pub sum_to : ℕ → (ℕ → ℕ) → ℕ
sum_to zero f = 0
sum_to (suc n) f = sum_to n f + f n

pub sum_to-zero : (n : ℕ) (f : ℕ → ℕ) → ((i : ℕ) → i < n → f i ≡ 0) → sum_to n f ≡ 0
sum_to-zero zero f h = refl
sum_to-zero (suc n) f h =
    omega (arith, sum_to-zero n f (λ i lt. h i (omega arith)), h n (omega arith))

sum_to-const : (n v : ℕ) (f : ℕ → ℕ) → ((i : ℕ) → i < n → f i ≡ v) → sum_to n f ≡ n * v
sum_to-const zero v f h = omega (arith, zero-mul v)
sum_to-const (suc n) v f h =
    omega (arith, sum_to-const n v f (λ i lt. h i (omega arith)), h n (omega arith), suc-mul n v)

pub fill_below {ℓ} : {A : Type ℓ} (n j : ℕ) (v : A) (a : ℕ → A) → j < n → fill n v a j ≡ v
fill_below zero j v a h = elim h [ ]
fill_below (suc n) j v a h = ground (arith, fill_below n j v a)

pub sum_to-fill : (n v : ℕ) (a : ℕ → ℕ) → sum_to n (fill n v a) ≡ n * v
sum_to-fill n v a = sum_to-const n v (fill n v a) (λ i lt. fill_below n i v a lt)

module _ {ℓ} {A : Type ℓ} (g : A → ℕ) (k : ℕ) (v : A) (f : ℕ → A) where
  sum_to-put_past :
      (n : ℕ) → n < suc k → sum_to n (λ j. g (assign_at k v f j)) ≡ sum_to n (λ j. g (f j))
  sum_to-put_past zero h = refl
  sum_to-put_past (suc n) h = ground (arith, sum_to-put_past n)

  pub sum_to-assign_at :
      (n : ℕ)
      → k < n
      → sum_to n (λ j. g (assign_at k v f j)) + g (f k) ≡ sum_to n (λ j. g (f j)) + g v
  sum_to-assign_at zero h = elim h [ ]
  sum_to-assign_at (suc n) h = ground (arith, sum_to-assign_at n, sum_to-put_past n)

pub sum_to-add_at : (n k v : ℕ) (a : ℕ → ℕ) → k < n → sum_to n (add_at k v a) ≡ sum_to n a + v
sum_to-add_at n k v a h = omega (arith, sum_to-assign_at (λ x. x) k (a k + v) a n h)
