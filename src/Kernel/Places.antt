-- ===== src/Kernel/Places.antt =====
-- Where a thread stands: on the processor, on the ready list, or on the queue of some object.
use tree_fiddy.Prelude.{
  ℕ, ◌+◌, ◌≡◌, refl, ◌≢◌, ◌⊎◌, inl, inr, List, [], ◌∷◌, ◌==◌, bit, count, count-append, sum_map,
  arith,
}
use tree_fiddy.Prelude.Outcome.{ok, fault}
use tree_fiddy.Kernel.{
  Kernel, Lock, Condition, Semaphore, ThreadStatus, running, ready, blocked, just_created, int_off,
  int_on, IntStatus, Frame, ready_to_run, dispatch, dispatch_to, sleep, push, update, yield,
  yield_to,
}

abbrev pub is_running : ThreadStatus → ℕ
is_running running = 1
is_running just_created = 0
is_running ready = 0
is_running blocked = 0

abbrev pub on_cpu : ℕ → Kernel → ℕ
on_cpu t k = elim (k.status k.current) [ running ↦ bit (k.current == t) | _ ↦ 0 ]

abbrev pub lock_waits : ℕ → List Lock → ℕ
lock_waits t = sum_map (λ l. count t l.waiting_threads)

abbrev pub cv_waits : ℕ → List Condition → ℕ
cv_waits t = sum_map (λ c. count t c.waiting_cv)

abbrev pub semaphore_waits : ℕ → List Semaphore → ℕ
semaphore_waits t = sum_map (λ s. count t s.queue)

abbrev pub waits : ℕ → Kernel → ℕ
waits t k = lock_waits t k.locks + cv_waits t k.conditions + semaphore_waits t k.semaphores

-- How many places a thread has.
abbrev pub places : ℕ → Kernel → ℕ
places t k = on_cpu t k + count t k.ready_list + waits t k

dispatch_to-places :
    (t : ℕ) (r : List ℕ) (k : Kernel)
    → k.ready_list ≡ r
    → k.status k.current ≡ blocked
    → places t (dispatch_to r k) ≡ places t k
unfolding dispatch_to
dispatch_to-places t [] k e b = refl
dispatch_to-places t (x ∷ rest) k e b = ground arith

-- A thread that sleeps leaves the processor, and the next ready thread takes it.
pub sleep-places :
    (k : Kernel)
    → k.level ≡ int_off
    → k.status k.current ≡ running
    → (k' : Kernel) × (sleep k ≡ ok k')
      × ((t : ℕ) → places t k' + bit (k.current == t) ≡ places t k)
unfolding sleep
sleep-places k off r = (
  dispatch slept,
  ground arith,
  λ t. ground (arith, dispatch_to-places t k.ready_list slept refl (ground arith)),
)
  where
    slept : Kernel
    slept = record k { status = update k.status k.current blocked }

pub ready_to_run-places :
    (t : ℕ) (k : Kernel)
    → k.current ≢ t
    → (u : ℕ) → places u (ready_to_run t k) ≡ places u k + bit (t == u)
unfolding ready_to_run
ready_to_run-places t k ne u = ground (arith, count-append u k.ready_list (t ∷ []))

pub push-places : (f : Frame) (k : Kernel) (t : ℕ) → places t (push f k) ≡ places t k
unfolding push
push-places f k t = refl

yield_to-places :
    (t : ℕ) (r : List ℕ) (k : Kernel)
    → k.ready_list ≡ r
    → k.status k.current ≡ running
    → places t (yield_to r k) ≡ places t k
unfolding yield_to
yield_to-places t [] k e b = refl
yield_to-places t (x ∷ rest) k e b = ground (arith, count-append t rest (k.current ∷ []))

-- Yield only trades places.
pub yield-places :
    (t : ℕ) (k : Kernel) → k.status k.current ≡ running → places t (yield k) ≡ places t k
unfolding yield
yield-places t k r = yield_to-places t k.ready_list k refl r

-- Sleep asserts that interrupts are off.
pub sleep_unmasked : (k : Kernel) → k.level ≡ int_on → sleep k ≡ fault
unfolding sleep
sleep_unmasked k h = ground arith

pub level_cases : (s : IntStatus) → (s ≡ int_off) ⊎ (s ≡ int_on)
level_cases int_off = inl refl
level_cases int_on = inr refl
