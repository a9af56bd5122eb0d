-- ===== src/Synch/Semaphores.antt =====
-- P and V keep every thread in one place, and what they do to the value and the queue.
use tree_fiddy.Prelude.{
  ℕ, ◌+◌, ◌-◌, ◌≡◌, refl, ap, ◌≢◌, some, List, [], ◌∷◌, ◌++◌, ◌==◌, count, count-append,
  sum_map-set, le-sum_map, get_elem?, arith, inl, inr, Bool-cases,
}
use tree_fiddy.Prelude.Outcome.{ok}
use tree_fiddy.Kernel.{Kernel, Semaphore, IntStatus, int_off, int_on, p_loop, push, ready_to_run}
use tree_fiddy.Kernel.Places.{places, sleep-places, sleep_unmasked}
use tree_fiddy.Synch.{v, v_wake, p, p_from_loop, p_test, put_semaphore}
use tree_fiddy.Synch.Places.{Trades, Sound, Goes, queued_elsewhere}

module _ (k : Kernel) (s : Sound k) (a : ℕ) (m : Semaphore)
    (found : get_elem? k.semaphores a ≡ some m) where
  v_wake-Goes : (q : List ℕ) → m.queue ≡ q → Goes k (v_wake a m q k)
  unfolding v_wake ready_to_run
  v_wake-Goes [] e = record {
    moved = λ t. ground (
      arith,
      sum_map-set (λ m. count t m.queue) k.semaphores a m (record m { value = m.value + 1 }) found,
    );
    stays = refl;
    on = s.on;
  }
  v_wake-Goes (w ∷ rest) e = record {
    moved = λ t. ground (
      arith,
      elsewhere,
      count-append t k.ready_list (w ∷ []),
      ap (count t) e,
      sum_map-set (λ m. count t m.queue) k.semaphores a m
          (record { value = m.value + 1; queue = rest }) found,
    );
    stays = refl;
    on = ground (arith, elsewhere, s.on);
  }
    where
      elsewhere : k.current ≢ w
      elsewhere =
          queued_elsewhere k s w (
            ground
              (arith, ap (count w) e, le-sum_map (λ m. count w m.queue) k.semaphores a m found))

  pub v-Goes : (k' : Kernel) × (v a k ≡ ok k') × Goes k k'
  unfolding v
  v-Goes = (v_wake a m m.queue k, rw found, v_wake-Goes m.queue refl)

  p_test-Trades : (inter : IntStatus) → k.level ≡ int_off → Trades k (p_test a inter m k)
  unfolding p_test push
  p_test-Trades inter off = elim (Bool-cases (m.value == 0)) [
    | inr free ↦ (
      record (put_semaphore a (record m { value = m.value - 1 }) k) { level = inter },
      ground arith,
      λ t. ground (
        arith,
        sum_map-set (λ m. count t m.queue) k.semaphores a m (record m { value = m.value - 1 })
            found,
      ),
    )
    | inl none_left ↦
        let (k', e, moved) = sleep-places before off s.on in
        (
          k',
          ground (arith, e),
          λ t. ground (
            arith,
            moved t,
            s.on,
            count-append t m.queue (k.current ∷ []),
            sum_map-set (λ m. count t m.queue) k.semaphores a m queued found,
          ),
        )
  ]
    where
      queued : Semaphore
      queued = record m { queue = m.queue ++ k.current ∷ [] }

      before : Kernel
      before = push (p_loop a inter) (put_semaphore a queued k)

  pub p_from_loop-Trades :
      (inter : IntStatus) → k.level ≡ int_off → Trades k (p_from_loop a inter k)
  unfolding p_from_loop
  p_from_loop-Trades inter off = rw found (p_test-Trades inter off)

pub p-Trades :
    (k : Kernel) (s : Sound k) (a : ℕ) (m : Semaphore)
    → get_elem? k.semaphores a ≡ some m
    → Trades k (p a k)
unfolding p
p-Trades k s a m found =
    p_from_loop-Trades (record k { level = int_off }) (record { on = s.on; sole = s.sole }) a m
      found k.level refl

module _ (k : Kernel) (a : ℕ) (m : Semaphore) (found : get_elem? k.semaphores a ≡ some m)
    (inter : IntStatus) (unmasked : k.level ≡ int_on) where
  p_test_unmasked : (k' : Kernel) → p_test a inter m k ≡ ok k' → (t : ℕ) → places t k' ≡ places t k
  unfolding p_test push
  p_test_unmasked k' e t = ground (
    arith,
    sleep_unmasked (push (p_loop a inter) (put_semaphore a queued k)) unmasked,
    sum_map-set (λ m. count t m.queue) k.semaphores a m (record m { value = m.value - 1 }) found,
  )
    where
      queued : Semaphore
      queued = record m { queue = m.queue ++ k.current ∷ [] }

  -- With interrupts on the loop of P does not sleep: it takes a unit, or fails.
  pub p_from_loop_unmasked :
      (k' : Kernel) → p_from_loop a inter k ≡ ok k' → (t : ℕ) → places t k' ≡ places t k
  unfolding p_from_loop
  p_from_loop_unmasked k' e t = p_test_unmasked k' (rw found at e) t
