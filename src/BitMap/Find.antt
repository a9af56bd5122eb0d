-- ===== src/BitMap/Find.antt =====
-- Find takes the first clear bit.
use tree_fiddy.Prelude.{
  ℕ, zero, suc, ◌+◌, ◌≤◌, ◌<◌, ◌≡◌, refl, ◌⊎◌, inl, inr, true, false, Option, some, none,
  Bool-cases, arith, ℕ_discrete,
}
use tree_fiddy.Prelude.Outcome.{Outcome, ok}
use tree_fiddy.BitMap.{BitMap, set_bit, find, find_loop}
use tree_fiddy.BitMap.Members.{has, mark_lem, test_lem}

-- All numbers from `lo` on and below `hi` are in the set.
abbrev pub Full : BitMap → ℕ → ℕ → Type 0
Full m lo hi = (j : ℕ) → lo ≤ j → j < hi → has m j ≡ true

abbrev pub FirstClear : BitMap → ℕ → ℕ → Outcome (Option ℕ × BitMap) → Type 0
FirstClear m lo hi r =
    ((i : ℕ) × (lo ≤ i)
      × (i < hi)
      × (has m i ≡ false)
      × Full m lo i
      × (r ≡ ok (some i, set_bit m i)))
    ⊎ (Full m lo hi × (r ≡ ok (none, m)))

module _ (m : BitMap) (lo hi : ℕ) (first : has m lo ≡ true) where
  Full-cons : Full m (lo + 1) hi → Full m lo hi
  Full-cons full j p q = elim (ℕ_discrete j lo) [
    | yes e ↦ rw e first
    | no ne ↦ full j (omega arith) q
  ]

module _ (m : BitMap) (lo hi : ℕ) (first : has m lo ≡ true) where
  FirstClear-cons :
      (r : Outcome (Option ℕ × BitMap)) → FirstClear m (lo + 1) hi r → FirstClear m lo hi r
  FirstClear-cons r (inl (i, p, q, c, full, e)) =
      inl (i, omega arith, q, c, Full-cons m lo i first full, e)
  FirstClear-cons r (inr (full, e)) = inr (Full-cons m lo hi first full, e)

find_loop-FirstClear :
    (n i : ℕ) (m : BitMap) → i + n ≡ m.num_bits → FirstClear m i m.num_bits (find_loop n i m)
unfolding find_loop
find_loop-FirstClear zero i m e = inr (λ j p q. absurd (omega arith), refl)
find_loop-FirstClear (suc n) i m e = elim (Bool-cases (has m i)) [
  | inl taken ↦
      FirstClear-cons m i m.num_bits taken _
        (rw (test_lem m i (omega arith), taken) (find_loop-FirstClear n (i + 1) m (omega arith)))
  | inr free ↦ inl (
    i,
    omega arith,
    omega arith,
    free,
    λ j p q. absurd (omega arith),
    rw (test_lem m i (omega arith), free, mark_lem m i (omega arith)) refl,
  )
]

-- Find never fails: it marks and returns the least clear number, or returns -1 and changes nothing
-- when every number below the size is marked.
pub find-FirstClear : (m : BitMap) → FirstClear m 0 m.num_bits (find m)
unfolding find
find-FirstClear m = find_loop-FirstClear m.num_bits 0 m (omega arith)
