-- ===== src/Synch/Conditions.antt =====
-- Wait, Signal, Broadcast and the semaphores keep every thread in one place.
use tree_fiddy.Prelude.{
  ℕ, ◌≡◌, refl, ap, ◌≢◌, Option, some, none, List, [], ◌∷◌, ◌++◌, count, count-append, sum_map-set,
  le-sum_map, get_elem?, get_elem?-lt, get_elem?-set_self, arith, if◌then◌else◌, Bool-cases, inl,
  inr,
}
use tree_fiddy.Prelude.Outcome.{ok, fault}
use tree_fiddy.Kernel.{
  Kernel, Lock, Condition, IntStatus, int_off, set_level, acquire_lock, push, ready_to_run,
}
use tree_fiddy.Kernel.Places.{places, sleep-places}
use tree_fiddy.Synch.{
  release, wait, wait_at, wait_release, chosen_lock, wait_sleep, signal, signal_wake, put_condition,
  is_empty, same_address,
}
use tree_fiddy.Synch.Places.{Trades, Sound, Goes, queued_elsewhere, release-Quiet}

module _ (k : Kernel) (s : Sound k) (a : ℕ) (c : Condition)
    (found : get_elem? k.conditions a ≡ some c) where
  signal_wake-Goes :
      (lock : Option ℕ) (q : List ℕ) → c.waiting_cv ≡ q → Goes k (signal_wake a c lock q k)
  unfolding signal_wake ready_to_run
  signal_wake-Goes lock [] e = record { moved = λ t. refl; stays = refl; on = s.on }
  signal_wake-Goes lock (w ∷ rest) e = elim (Bool-cases (same_address lock c.waiting_lock)) [
    | inr wrong ↦ rw wrong (record { moved = λ t. refl; stays = refl; on = s.on })
    | inl right ↦ rw right (record {
      moved = λ t. ground (
        arith,
        elsewhere,
        count-append t k.ready_list (w ∷ []),
        ap (count t) e,
        sum_map-set (λ c. count t c.waiting_cv) k.conditions a c left found,
      );
      stays = refl;
      on = ground (arith, elsewhere, s.on);
    })
  ]
    where
      left : Condition
      left = record {
        waiting_lock = if is_empty rest then none else c.waiting_lock;
        waiting_cv = rest;
      }

      elsewhere : k.current ≢ w
      elsewhere = queued_elsewhere k s w (
          ground
            (arith, ap (count w) e, le-sum_map (λ c. count w c.waiting_cv) k.conditions a c found))

  pub signal-Goes : (lock : Option ℕ) → (k' : Kernel) × (signal a lock k ≡ ok k') × Goes k k'
  unfolding signal
  signal-Goes lock =
      (signal_wake a c lock c.waiting_cv k, rw found, signal_wake-Goes lock c.waiting_cv refl)

  wait_sleep-Trades :
      (lock : ℕ) (inter : IntStatus) → k.level ≡ int_off → Trades k (wait_sleep a lock inter k)
  unfolding wait_sleep push
  wait_sleep-Trades lock inter off =
      let (k', e, moved) = sleep-places before off s.on in
      (
        k',
        ground (arith, e),
        λ t. ground (
          arith,
          moved t,
          s.on,
          count-append t c.waiting_cv (k.current ∷ []),
          sum_map-set (λ c. count t c.waiting_cv) k.conditions a c queued found,
        ),
      )
    where
      queued : Condition
      queued = record c { waiting_cv = c.waiting_cv ++ k.current ∷ [] }

      before : Kernel
      before = push (acquire_lock lock) (push (set_level inter) (put_condition a queued k))

module _ (k : Kernel) (s : Sound k) (a : ℕ) (c : Condition)
    (found : get_elem? k.conditions a ≡ some c) (lock : ℕ) (l : Lock)
    (held : get_elem? k.locks lock ≡ some l) where
  wait_release-Trades :
      (inter : IntStatus) → k.level ≡ int_off → Trades k (wait_release a lock inter k)
  unfolding wait_release
  wait_release-Trades inter off =
      let (r, freed, q) = release-Quiet k s lock l held in
      let (k', e, moved) =
        wait_sleep-Trades r (record { on = q.on; sole = λ t. omega (arith, q.moved t, s.sole t) }) a
          c (rw q.same_conditions found) lock inter (q.masked off) in
      (k', ground (arith, freed, e), λ t. omega (arith, moved t, q.moved t))

module _ (k : Kernel) (s : Sound k) (a : ℕ) (c : Condition)
    (found : get_elem? k.conditions a ≡ some c) (lock : ℕ) (l : Lock)
    (held : get_elem? k.locks lock ≡ some l) where
  pub wait_at-Trades : Trades k (wait_at a lock c k)
  unfolding wait_at
  wait_at-Trades = elim (Bool-cases (same_address (chosen_lock c.waiting_lock lock) (some lock))) [
    | inr wrong ↦ (put_condition a marked k, ground arith, same)
    | inl right ↦
        let (k', e, moved) =
          wait_release-Trades (record masked { level = int_off }) sound a marked
            (get_elem?-set_self k.conditions a marked (get_elem?-lt k.conditions a c found)) lock l
            held k.level refl in
        (k', ground (arith, e), λ t. omega (arith, moved t, same t))
  ]
    where
      marked : Condition
      marked = record c { waiting_lock = chosen_lock c.waiting_lock lock }

      masked : Kernel
      masked = put_condition a marked k

      same : (t : ℕ) → places t masked ≡ places t k
      same t = omega (arith, sum_map-set (λ c. count t c.waiting_cv) k.conditions a c marked found)

      sound : Sound (record masked { level = int_off })
      sound = record { on = s.on; sole = λ t. omega (arith, same t, s.sole t) }

  pub wait-Trades : Trades k (wait a (some lock) k)
  unfolding wait
  wait-Trades = rw found wait_at-Trades

release_missing : (k : Kernel) (a : ℕ) → get_elem? k.locks a ≡ none → release a k ≡ fault
unfolding release
release_missing k a missing = rw missing refl

-- With no lock at the address, Wait only marks the variable, or fails.
pub wait_missing :
    (k : Kernel) (a : ℕ) (c : Condition)
    → get_elem? k.conditions a ≡ some c
    → (lock : ℕ) → get_elem? k.locks lock ≡ none
    → (k' : Kernel) → wait_at a lock c k ≡ ok k'
    → (t : ℕ) → places t k' ≡ places t k
unfolding wait_at wait_release
wait_missing k a c found lock missing k' e t = ground (
  arith,
  release_missing (record (put_condition a marked k) { level = int_off }) lock missing,
  sum_map-set (λ c. count t c.waiting_cv) k.conditions a c marked found,
)
  where
    marked : Condition
    marked = record c { waiting_lock = chosen_lock c.waiting_lock lock }
