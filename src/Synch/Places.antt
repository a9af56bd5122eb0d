-- ===== src/Synch/Places.antt =====
-- No call of synch.cc loses a thread or puts one in two places.
use tree_fiddy.Prelude.{
  ℕ, ◌≤◌, ◌≡◌, refl, ◌≢◌, inl, inr, true, false, some, none, List, [], ◌∷◌, ◌++◌, count,
  count-append, sum_map-set, le-sum_map, ap, get_elem?, arith, Bool-cases,
}
use tree_fiddy.Prelude.Outcome.{Outcome, ok}
use tree_fiddy.Kernel.{Kernel, Lock, running, int_off, set_level, push, ready_to_run}
use tree_fiddy.Kernel.Places.{places, sleep-places, waits}
use tree_fiddy.Synch.{acquire, acquire_at, release, release_at, hand_over, held_by, put_lock}

-- The call ends with every thread in as many places as before.
abbrev pub Trades : Kernel → Outcome Kernel → Type 0
Trades k r = (k' : Kernel) × (r ≡ ok k') × ((t : ℕ) → places t k' ≡ places t k)

-- The current thread has the processor, and no thread is in two places.
pub record Sound (k : Kernel) : Type 0 where
  pub on : k.status k.current ≡ running
  pub sole : (t : ℕ) → places t k ≤ 1

-- The call did not sleep: the same thread goes on.
pub record Goes (k k' : Kernel) : Type 0 where
  pub moved : (t : ℕ) → places t k' ≡ places t k
  pub stays : k'.current ≡ k.current
  pub on : k'.status k'.current ≡ running

-- Nor did it touch a condition variable, or turn interrupts on.
pub record Quiet (k k' : Kernel) : Type 0 where
  pub goes : Goes k k'
  pub open goes use *
  pub same_conditions : k'.conditions ≡ k.conditions
  pub masked : k.level ≡ int_off → k'.level ≡ int_off

module _ (k : Kernel) (s : Sound k) where
  -- A thread on some queue is not the current one.
  pub queued_elsewhere : (t : ℕ) → 1 ≤ waits t k → k.current ≢ t
  queued_elsewhere t q e = ground (arith, s.on, s.sole t)

  module _ (a : ℕ) (l : Lock) (found : get_elem? k.locks a ≡ some l) where
    acquire_at-Trades : Trades k (acquire_at a l k)
    unfolding acquire_at push
    acquire_at-Trades = elim (Bool-cases (held_by k.current l.owner)) [
      | inl mine ↦ (k, ground arith, λ t. refl)
      | inr other ↦ elim (Bool-cases l.available) [
        | inl idle ↦ (
          put_lock a taken k,
          ground arith,
          λ t. ground (arith, sum_map-set (λ l. count t l.waiting_threads) k.locks a l taken found),
        )
        | inr busy ↦
            let (k', e, moved) = sleep-places before refl s.on in
            (
              k',
              ground (arith, e),
              λ t. ground (
                arith,
                moved t,
                s.on,
                count-append t l.waiting_threads (k.current ∷ []),
                sum_map-set (λ l. count t l.waiting_threads) k.locks a l queued found,
              ),
            )
      ]
    ]
      where
        taken : Lock
        taken = record l { available = false; owner = some k.current }

        queued : Lock
        queued = record l { waiting_threads = l.waiting_threads ++ k.current ∷ [] }

        before : Kernel
        before = record (push (set_level k.level) (put_lock a queued k)) { level = int_off }

    pub acquire-Trades : Trades k (acquire a k)
    unfolding acquire
    acquire-Trades = rw found acquire_at-Trades

    hand_over-Quiet : (q : List ℕ) → l.waiting_threads ≡ q → Quiet k (hand_over a l q k)
    unfolding hand_over ready_to_run
    hand_over-Quiet [] e = record {
      goes = record {
        moved = λ t. ground (
          arith,
          sum_map-set (λ l. count t l.waiting_threads) k.locks a l
              (record l { available = true; owner = none }) found,
        );
        stays = refl;
        on = s.on;
      };
      same_conditions = refl;
      masked = λ h. refl;
    }
    hand_over-Quiet (w ∷ rest) e = record {
      goes = record {
        moved = λ t. ground (
          arith,
          elsewhere,
          count-append t k.ready_list (w ∷ []),
          ap (count t) e,
          sum_map-set (λ l. count t l.waiting_threads) k.locks a l
              (record l { waiting_threads = rest; owner = some w }) found,
        );
        stays = refl;
        on = ground (arith, elsewhere, s.on);
      };
      same_conditions = refl;
      masked = λ h. refl;
    }
      where
        elsewhere : k.current ≢ w
        elsewhere = queued_elsewhere w (
            ground (
              arith,
              ap (count w) e,
              le-sum_map (λ l. count w l.waiting_threads) k.locks a l found,
            ))

    pub release-Quiet : (k' : Kernel) × (release a k ≡ ok k') × Quiet k k'
    unfolding release release_at
    release-Quiet = elim (Bool-cases (held_by k.current l.owner)) [
      | inl mine ↦
          (hand_over a l l.waiting_threads k, ground arith, hand_over-Quiet l.waiting_threads refl)
      | inr other ↦ (
        k,
        ground arith,
        record {
          goes = record { moved = λ t. refl; stays = refl; on = s.on };
          same_conditions = refl;
          masked = λ h. h;
        },
      )
    ]
