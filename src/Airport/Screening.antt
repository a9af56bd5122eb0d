-- ===== src/Airport/Screening.antt =====
-- The look for a free security officer in ScreeningOfficer::DoWork of Project 2/code/threads/threadtest.cc.
use tree_fiddy.Prelude.{
  ℕ, zero, suc, ◌⊎◌, ◌∙◌, ℕ_discrete, ◌+◌, ◌<◌, ◌≤◌, ◌≡◌, refl, arith, Bool, true, false,
  if◌then◌else◌, ◌==◌, Bool-cases, inl, inr, subst,
}
use tree_fiddy.Airport.{look_for_security, assign_at}

-- What a look at the officers from i to `last` comes to: whether the last one was free, its number if it was,
-- and each of them marked as taken.
abbrev pub IsLook : (i last : ℕ) → (ℕ → Bool) → Bool × ℕ × (ℕ → Bool) → Type 0
IsLook i last available (y, officer, after) =
    (y ≡ available last)
    × (y ≡ true → officer ≡ last)
    × ((j : ℕ) → i ≤ j → j ≤ last → after j ≡ false)
    × ((j : ℕ) → (j < i) ⊎ (last < j) → after j ≡ available j)

abbrev taken : ℕ → (ℕ → Bool) → ℕ → Bool
taken i available = if available i then assign_at i false available else available

taken-at :
    (i j : ℕ) (available : ℕ → Bool) → taken i available j ≡ (if j == i then false else available j)
taken-at i j available = elim (Bool-cases (available i)) [
  | inl free ↦ rw free refl
  | inr busy ↦ elim (ℕ_discrete j i) [
    | yes e ↦ rw e (ground (arith, busy))
    | no other ↦ ground (arith, busy)
  ]
]

IsLook-back :
    (i last : ℕ) (available : ℕ → Bool) (r : Bool × ℕ × (ℕ → Bool))
    → i < last
    → IsLook (suc i) last (taken i available) r
    → IsLook i last available r
IsLook-back i last available (y, officer, after) lt (free, chosen, marked, others) =
    let marked' : (j : ℕ) → i ≤ j → j ≤ last → after j ≡ false = λ j a b. elim (ℕ_discrete j i) [
      | yes e ↦ rw e (others i (inl (omega arith)) ∙ ground (arith, taken-at i i available))
      | no later ↦ marked j (omega arith) b
    ] in
    let others' : (j : ℕ) → (j < i) ⊎ (last < j) → after j ≡ available j =
      λ j out. others j (omega (arith, out)) ∙ ground (arith, out, taken-at i j available) in
    (free ∙ ground (arith, taken-at i last available), chosen, marked', others')

IsLook-one :
    (i officer : ℕ) (available : ℕ → Bool)
    → IsLook i i available (available i, (if available i then i else officer), taken i available)
IsLook-one i officer available =
    let chosen : available i ≡ true → (if available i then i else officer) ≡ i =
      λ free. rw free refl in
    let marked : (j : ℕ) → i ≤ j → j ≤ i → taken i available j ≡ false =
      λ j a b. ground (arith, taken-at i j available) in
    let others : (j : ℕ) → (j < i) ⊎ (i < j) → taken i available j ≡ available j =
      λ j out. ground (arith, out, taken-at i j available) in
    (refl, chosen, marked, others)

IsLook-from :
    (n i last : ℕ) (y : Bool) (officer : ℕ) (available : ℕ → Bool)
    → i + n ≡ last
    → IsLook i last available (look_for_security (suc n) i y officer available)
unfolding look_for_security
IsLook-from zero i last y officer available e =
    let here : i ≡ last = omega arith in
    subst (λ z. IsLook i z available (look_for_security 1 i y officer available)) here
      (IsLook-one i officer available)
IsLook-from (suc n) i last y officer available e =
    IsLook-back i last available
      (look_for_security (suc n) (suc i) (available i) (if available i then i else officer)
        (taken i available))
      (omega arith)
      (IsLook-from n (suc i) last (available i) (if available i then i else officer)
        (taken i available) (omega arith))

-- Of n + 1 security officers, a look that no other thread breaks into ends with a free one exactly when the last
-- one was free, and then with the last one's number; it marks every one of them as taken, the free ones that it
-- does not choose too, and leaves the flags behind them as they were.
pub look_for_security-IsLook :
    (n officer : ℕ) (available : ℕ → Bool)
    → IsLook 0 n available (look_for_security (suc n) 0 false officer available)
look_for_security-IsLook n officer available =
    IsLook-from n 0 n false officer available (omega arith)
