-- ===== src/Interrupt/Due.antt =====
-- The loop of Interrupt::OneTick in Project 2/code/machine/interrupt.cc ends, and what it leaves.
use tree_fiddy.Prelude.{
  ℕ, zero, suc, ◌≤◌, ◌<◌, ◌≡◌, refl, sym, ap, subst, ◌∙◌, Bool, true, false, not, ◌&&◌, List, [],
  ◌∷◌, ltb, if◌then◌else◌, arith, bit, Bool-cases, inl, inr,
}
use tree_fiddy.Prelude.Outcome.{ok}
use tree_fiddy.Interrupt.{
  Pending, Request, Interrupts, system_mode, sorted_insert, pending_of, schedule, schedule_all,
  is_off, is_idle, put_back, fire, fire_or_stop, check_pending, check_if_due, fire_due,
}
use tree_fiddy.Interrupt.Order.{
  Sorted, count_if, is_due, count_if-sorted_insert, Sorted-sorted_insert, none_due, count_if-le,
}

-- Every call of Schedule asks for a later time, as its ASSERT wants.
unfoldable pub AllLater : List Request → Type 0
AllLater [] = Unit
AllLater (r ∷ rs) = (0 < r.from_now) × AllLater rs

-- Nothing but new events, which are not due.
pub record Grows (c c' : Interrupts) : Type 0 where
  pub same_time : c'.total_ticks ≡ c.total_ticks
  pub same_level : c'.level ≡ c.level
  pub sorted : Sorted c'.pending
  pub due_same :
      (t : ℕ) → t ≡ c.total_ticks → count_if (is_due t) c'.pending ≡ count_if (is_due t) c.pending
  pub grows : (f : Pending → Bool) → count_if f c.pending ≤ count_if f c'.pending

schedule-Grows :
    (r : Request) (c : Interrupts)
    → 0 < r.from_now
    → Sorted c.pending
    → (c' : Interrupts) × (schedule r c ≡ ok c') × Grows c c'
unfolding schedule
schedule-Grows r c later sorted =
    let p : Pending = pending_of r c.total_ticks in
    let asked : ltb 0 r.from_now ≡ true = ground arith in
    (
      record c { pending = sorted_insert p c.pending },
      rw asked refl,
      record {
        same_time = refl;
        same_level = refl;
        sorted = Sorted-sorted_insert p c.pending sorted;
        due_same = λ t e.
            let new_due : is_due t p ≡ false = ground arith in
            ground (arith, count_if-sorted_insert (is_due t) p c.pending);
        grows = λ f. omega (arith, count_if-sorted_insert f p c.pending);
      },
    )

schedule_all-Grows :
    (rs : List Request) (c : Interrupts)
    → AllLater rs
    → Sorted c.pending
    → (c' : Interrupts) × (schedule_all rs c ≡ ok c') × Grows c c'
unfolding schedule_all AllLater
schedule_all-Grows [] c later sorted = (
  c,
  refl,
  record {
    same_time = refl;
    same_level = refl;
    sorted = sorted;
    due_same = λ t e. refl;
    grows = λ f. omega arith;
  },
)
schedule_all-Grows (r ∷ rs) c (first, later) sorted =
    let (c', e, g) = schedule-Grows r c first sorted in
    let (c'', e', g') = schedule_all-Grows rs c' later g.sorted in
    (
      c'',
      rw e e',
      record {
        same_time = g'.same_time ∙ g.same_time;
        same_level = g'.same_level ∙ g.same_level;
        sorted = g'.sorted;
        due_same = λ t e. g'.due_same t (e ∙ sym g.same_time) ∙ g.due_same t e;
        grows = λ f. omega (arith, g.grows f, g'.grows f);
      },
    )

-- What firing one due event leaves.
pub record Fired (p : Pending) (rest : List Pending) (c c' : Interrupts) : Type 0 where
  pub same_time : c'.total_ticks ≡ c.total_ticks
  pub same_level : c'.level ≡ c.level
  pub same_status : c'.status ≡ c.status
  pub sorted : Sorted c'.pending
  pub due_same : count_if (is_due c.total_ticks) c'.pending ≡ count_if (is_due c.total_ticks) rest
  pub grows : (f : Pending → Bool) → count_if f rest ≤ count_if f c'.pending

-- What the loop leaves: nothing that is due, and every event that is not.
pub record Settled (c c' : Interrupts) : Type 0 where
  pub same_time : c'.total_ticks ≡ c.total_ticks
  pub level_off : is_off c'.level ≡ true
  pub same_status : c'.status ≡ c.status
  pub sorted : Sorted c'.pending
  pub nothing_due : count_if (is_due c.total_ticks) c'.pending ≡ 0
  pub kept :
      (f : Pending → Bool)
      → count_if (λ p. f p && not (is_due c.total_ticks p)) c.pending ≤ count_if f c'.pending

bit_and-le : (a b : Bool) → bit (a && b) ≤ bit a
bit_and-le true true = omega arith
bit_and-le true false = omega arith
bit_and-le false b = omega arith

module _ (act : Pending → Interrupts → List Request × Bool)
    (later : (p : Pending) (c : Interrupts) → AllLater (act p c).0) where
  fire-Fired :
      (p : Pending) (rest : List Pending) (c : Interrupts)
      → Sorted rest
      → (c' : Interrupts) × (fire act p rest c ≡ ok c') × Fired p rest c c'
  unfolding fire
  fire-Fired p rest c sorted =
      let inside : Interrupts = record c {
        pending = rest;
        in_handler = true;
        status = system_mode;
      } in
      let (c', e, g) = schedule_all-Grows (act p inside).0 inside (later p inside) sorted in
      let ended : Interrupts = record c' {
        yield_on_return = if (act p inside).1 then true else c'.yield_on_return;
        status = c.status;
        in_handler = false;
      } in
      (
        ended,
        rw e refl,
        record {
          same_time = g.same_time;
          same_level = g.same_level;
          same_status = refl;
          sorted = g.sorted;
          due_same = g.due_same c.total_ticks refl;
          grows = g.grows;
        },
      )

  Settled-now :
      (c c' : Interrupts)
      → c'.total_ticks ≡ c.total_ticks
      → is_off c'.level ≡ true
      → c'.status ≡ c.status
      → Sorted c'.pending
      → ((f : Pending → Bool) → count_if f c'.pending ≡ count_if f c.pending)
      → count_if (is_due c.total_ticks) c'.pending ≡ 0
      → Settled c c'
  Settled-now c c' t l s sorted same empty = record {
    same_time = t;
    level_off = l;
    same_status = s;
    sorted = sorted;
    nothing_due = empty;
    kept = λ f.
        let fewer =
          count_if-le (λ p. f p && not (is_due c.total_ticks p)) f c.pending
            (λ p. bit_and-le (f p) (not (is_due c.total_ticks p))) in
        omega (arith, same f);
  }

  Settled-after :
      (p : Pending) (rest : List Pending) (c c' c'' : Interrupts)
      → c.pending ≡ p ∷ rest
      → is_due c.total_ticks p ≡ true
      → Fired p rest c c'
      → Settled c' c''
      → Settled c c''
  Settled-after p rest c c' c'' e due f s = record {
    same_time = s.same_time ∙ f.same_time;
    level_off = s.level_off;
    same_status = s.same_status ∙ f.same_status;
    sorted = s.sorted;
    nothing_due = subst (λ t. count_if (is_due t) c''.pending ≡ 0) f.same_time s.nothing_due;
    kept = λ g.
        let first : count_if (λ q. g q && not (is_due c.total_ticks q)) c.pending
            ≡ count_if (λ q. g q && not (is_due c.total_ticks q)) rest =
          ap (count_if (λ q. g q && not (is_due c.total_ticks q))) e ∙ ground arith in
        let later_kept : count_if (λ q. g q && not (is_due c.total_ticks q)) c'.pending
            ≤ count_if g c''.pending =
          subst (λ t. count_if (λ q. g q && not (is_due t q)) c'.pending ≤ count_if g c''.pending)
            f.same_time (s.kept g) in
        omega (arith, first, f.grows (λ q. g q && not (is_due c.total_ticks q)), later_kept);
  }

  check_if_due-pending :
      (c : Interrupts) (ps : List Pending)
      → c.pending ≡ ps
      → is_off c.level ≡ true
      → check_if_due act false c ≡ check_pending act false ps c
  unfolding check_if_due
  check_if_due-pending c ps e off = rw off (ap (λ qs. check_pending act false qs c) e)

  check_due :
      (p : Pending) (rest : List Pending) (c c' : Interrupts)
      → is_idle c.status ≡ false
      → ltb c.total_ticks p.due ≡ false
      → fire act p rest c ≡ ok c'
      → check_pending act false (p ∷ rest) c ≡ ok (true, c')
  unfolding check_pending fire_or_stop
  check_due p rest c c' busy due fired = rw due (rw busy (rw fired refl))

  check_late :
      (p : Pending) (rest : List Pending) (c : Interrupts)
      → ltb c.total_ticks p.due ≡ true
      → check_pending act false (p ∷ rest) c ≡ ok (false, put_back p rest c)
  unfolding check_pending
  check_late p rest c late = rw late refl

  put_back-Settled :
      (p : Pending) (rest : List Pending) (c : Interrupts)
      → c.pending ≡ p ∷ rest
      → is_off c.level ≡ true
      → Sorted (p ∷ rest)
      → ltb c.total_ticks p.due ≡ true
      → Settled c (put_back p rest c)
  unfolding Sorted
  put_back-Settled p rest c e off (from, sorted) late =
      Settled-now c (put_back p rest c) refl off refl (Sorted-sorted_insert p rest sorted)
        (λ f. count_if-sorted_insert f p rest ∙ sym (ap (count_if f) e))
        (ground (
          arith,
          count_if-sorted_insert (is_due c.total_ticks) p rest,
          none_due c.total_ticks p.due rest (ground arith) from,
        ))

  pub fire_due-Settled :
      (n : ℕ) (c : Interrupts) (ps : List Pending)
      → c.pending ≡ ps
      → is_off c.level ≡ true
      → is_idle c.status ≡ false
      → Sorted ps
      → count_if (is_due c.total_ticks) ps < n
      → (c' : Interrupts) × (fire_due act n c ≡ ok c') × Settled c c'
  unfolding fire_due check_pending Sorted
  fire_due-Settled zero c ps e off busy sorted room = absurd (omega arith)
  fire_due-Settled (suc n) c [] e off busy sorted room = (
    c,
    rw (check_if_due-pending c [] e off) refl,
    Settled-now c c refl off refl (subst Sorted (sym e) tt) (λ f. refl)
        (ap (count_if (is_due c.total_ticks)) e),
  )
  fire_due-Settled (suc n) c (p ∷ rest) e off busy (from, sorted) room =
      elim (Bool-cases (ltb c.total_ticks p.due)) [
        | inl late ↦ (
          put_back p rest c,
          rw (check_if_due-pending c (p ∷ rest) e off) (rw (check_late p rest c late) refl),
          put_back-Settled p rest c e off (from, sorted) late,
        )
        | inr due ↦
            let (c1, fired, f) = fire-Fired p rest c sorted in
            let fewer : count_if (is_due c1.total_ticks) c1.pending < n =
              subst (λ t. count_if (is_due t) c1.pending < n) (sym f.same_time)
                (ground (arith, f.due_same)) in
            let (c2, loops, s) =
              fire_due-Settled n c1 c1.pending refl (ap is_off f.same_level ∙ off)
                (ap is_idle f.same_status ∙ busy) f.sorted fewer in
            (
              c2,
              rw (check_if_due-pending c (p ∷ rest) e off)
                  (rw (check_due p rest c c1 busy due fired) loops),
              Settled-after p rest c c1 c2 e (ground arith) f s,
            )
      ]
