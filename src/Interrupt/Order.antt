-- ===== src/Interrupt/Order.antt =====
-- The sequence of pending interrupts of Project 2/code/machine/interrupt.cc, by their times.
use tree_fiddy.Prelude.{
  ℕ, ◌+◌, ◌≤◌, ◌<◌, ◌≡◌, refl, Bool, not, List, [], ◌∷◌, ltb, arith, bit, Bool-cases, inl, inr,
  sum_map,
}
use tree_fiddy.Interrupt.{Pending, sorted_insert}

-- Every event is at t or later.
unfoldable pub AllFrom : ℕ → List Pending → Type 0
AllFrom t [] = Unit
AllFrom t (p ∷ ps) = (t ≤ p.due) × AllFrom t ps

unfoldable pub Sorted : List Pending → Type 0
Sorted [] = Unit
Sorted (p ∷ ps) = AllFrom p.due ps × Sorted ps

-- How many events pass a test.
abbrev pub count_if : (Pending → Bool) → List Pending → ℕ
count_if f ps = sum_map (λ p. bit (f p)) ps

-- The event is not later than the clock.
abbrev pub is_due : ℕ → Pending → Bool
is_due now p = not (ltb now p.due)

pub count_if-sorted_insert :
    (f : Pending → Bool) (p : Pending) (ps : List Pending)
    → count_if f (sorted_insert p ps) ≡ bit (f p) + count_if f ps
unfolding sorted_insert
count_if-sorted_insert f p [] = refl
count_if-sorted_insert f p (q ∷ qs) = ground (arith, count_if-sorted_insert f p qs)

pub AllFrom-le : (s t : ℕ) (ps : List Pending) → s ≤ t → AllFrom t ps → AllFrom s ps
unfolding AllFrom
AllFrom-le s t [] h all = tt
AllFrom-le s t (p ∷ ps) h (first, all) = (omega arith, AllFrom-le s t ps h all)

pub AllFrom-sorted_insert :
    (t : ℕ) (p : Pending) (ps : List Pending)
    → t ≤ p.due
    → AllFrom t ps
    → AllFrom t (sorted_insert p ps)
unfolding sorted_insert AllFrom
AllFrom-sorted_insert t p [] h all = (h, tt)
AllFrom-sorted_insert t p (q ∷ qs) h (first, all) = elim (Bool-cases (ltb p.due q.due)) [
  | inl before ↦ rw before (h, (first, all))
  | inr after ↦ rw after (first, AllFrom-sorted_insert t p qs h all)
]

pub Sorted-sorted_insert :
    (p : Pending) (ps : List Pending) → Sorted ps → Sorted (sorted_insert p ps)
unfolding sorted_insert Sorted AllFrom
Sorted-sorted_insert p [] sorted = (tt, tt)
Sorted-sorted_insert p (q ∷ qs) (all, sorted) = elim (Bool-cases (ltb p.due q.due)) [
  | inl before ↦
      let h : p.due ≤ q.due = ground arith in
      rw before ((h, AllFrom-le p.due q.due qs h all), (all, sorted))
  | inr after ↦
      rw after
        (AllFrom-sorted_insert q.due p qs (ground arith) all, Sorted-sorted_insert p qs sorted)
]

-- With no event before a later time, none is due.
pub none_due :
    (now t : ℕ) (ps : List Pending) → now < t → AllFrom t ps → count_if (is_due now) ps ≡ 0
unfolding AllFrom
none_due now t [] h all = refl
none_due now t (p ∷ ps) h (first, all) = ground (arith, none_due now t ps h all)

pub count_if-le :
    (f g : Pending → Bool) (ps : List Pending)
    → ((p : Pending) → bit (f p) ≤ bit (g p))
    → count_if f ps ≤ count_if g ps
count_if-le f g [] h = omega arith
count_if-le f g (p ∷ ps) h = omega (arith, h p, count_if-le f g ps h)
