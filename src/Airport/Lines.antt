-- ===== src/Airport/Lines.antt =====
-- The line that a passenger joins in ChooseLiaisonLine of Project 2/code/threads/threadtest.cc.
use tree_fiddy.Prelude.{
  ℕ, zero, suc, ◌+◌, ◌-◌, ◌*◌, ◌<◌, ◌≤◌, ◌≡◌, arith, subst, true, false, ltb, Bool-cases, inl, inr,
  if◌then◌else◌,
}
use tree_fiddy.Airport.{Sim, shorter_line, liaison_line, check_in_choice}

-- Line r is the first of the shortest among the lines from lo up to, and without, hi.
abbrev pub IsShortest : (ℕ → ℕ) → (lo hi r : ℕ) → Type 0
IsShortest line lo hi r =
    (lo ≤ r)
    × (r < hi)
    × ((j : ℕ) → lo ≤ j → j < hi → line r ≤ line j)
    × ((j : ℕ) → lo ≤ j → j < r → line r < line j)

IsShortest-next :
    (line : ℕ → ℕ) (lo hi r : ℕ)
    → IsShortest line lo hi r
    → IsShortest line lo (suc hi) (if ltb (line hi) (line r) then hi else r)
IsShortest-next line lo hi r (low, high, least, first) =
    elim (Bool-cases (ltb (line hi) (line r))) [
      | inl shorter ↦
          let least' : (j : ℕ) → lo ≤ j → j < suc hi → line hi ≤ line j =
            λ j a b. ground (arith, least j a) in
          let first' : (j : ℕ) → lo ≤ j → j < hi → line hi < line j =
            λ j a b. ground (arith, least j a b) in
          rw shorter (omega arith, omega arith, least', first')
      | inr no_shorter ↦
          let least' : (j : ℕ) → lo ≤ j → j < suc hi → line r ≤ line j =
            λ j a b. ground (arith, least j a) in
          rw no_shorter (low, omega arith, least', first)
    ]

shorter_line-IsShortest :
    (line : ℕ → ℕ) (n lo hi top best : ℕ)
    → hi + n ≡ top
    → IsShortest line lo hi best
    → IsShortest line lo top (shorter_line line n hi best)
unfolding shorter_line
shorter_line-IsShortest line zero lo hi top best e h =
    let reached : hi ≡ top = omega arith in subst (λ t. IsShortest line lo t best) reached h
shorter_line-IsShortest line (suc n) lo hi top best e h =
    shorter_line-IsShortest line n lo (suc hi) top (if ltb (line hi) (line best) then hi else best)
      (omega arith) (IsShortest-next line lo hi best h)

only_line : (line : ℕ → ℕ) (lo : ℕ) → IsShortest line lo (suc lo) lo
only_line line lo =
    let least : (j : ℕ) → lo ≤ j → j < suc lo → line lo ≤ line j = λ j a b.
      let here : lo ≡ j = omega arith in subst (λ z. line lo ≤ line z) here (omega arith) in
    (omega arith, omega arith, least, λ j a b. absurd (omega arith))

-- The search may begin at the line it begins with.
from_itself :
    (line : ℕ → ℕ) (n lo : ℕ) → 0 < n → IsShortest line lo (lo + n) (shorter_line line n lo lo)
unfolding shorter_line
from_itself line zero lo pos = absurd (omega arith)
from_itself line (suc n) lo pos =
    let not_less : ltb (line lo) (line lo) ≡ false = ground arith in
    rw not_less
      (shorter_line-IsShortest line n lo (suc lo) (lo + suc n) lo (omega arith) (only_line line lo))

-- With at least one liaison, and one check-in officer for each airline, a passenger goes to the first of the
-- shortest lines: of the liaisons' lines, and, in economy class, of the lines of the officers of the airline.
pub chosen_lines-IsShortest :
    (m : Sim) (line : ℕ → ℕ) (airline : ℕ)
    → 0 < m.liaisons
    → 0 < m.cios
    → IsShortest line 0 m.liaisons (liaison_line m line)
      × IsShortest line
          (airline * m.cios)
          (airline * m.cios + m.cios)
          (check_in_choice m line true airline)
chosen_lines-IsShortest m line airline liaison officer =
    let lo : ℕ = airline * m.cios in
    let own : IsShortest line lo (lo + m.cios) (shorter_line line m.cios lo lo) =
      from_itself line m.cios lo officer in
    (
      shorter_line-IsShortest line (m.liaisons - 1) 0 1 m.liaisons 0 (omega arith)
          (only_line line 0),
      own,
    )
