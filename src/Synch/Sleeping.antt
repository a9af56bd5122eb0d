-- ===== src/Synch/Sleeping.antt =====
-- What Lock::Acquire of Project 2/code/threads/synch.cc does to the threads when it has to wait.
use tree_fiddy.Prelude.{
  ℕ, ◌≡◌, ◌≢◌, refl, false, some, List, [], ◌∷◌, ◌++◌, get_elem?, set, arith, ◌∙◌,
}
use tree_fiddy.Prelude.Outcome.{ok}
use tree_fiddy.Kernel.{
  Kernel, Lock, Frame, running, blocked, int_off, push, set_level, sleep, dispatch, dispatch_to,
  run, update,
}
use tree_fiddy.Synch.{acquire, acquire_at, held_by, put_lock}
use tree_fiddy.Synch.Places.{Sound}
use tree_fiddy.Synch.LockMachine.{dispatch_to-locks}

-- The thread that had the processor in k sleeps in k', with the calls fs to make when it wakes up, and
-- the first ready thread goes on; without one the machine idles.
pub record Asleep (k k' : Kernel) (fs : List Frame) : Type 0 where
  pub sleeps : k'.status k.current ≡ blocked
  pub left : k'.stack k.current ≡ fs
  pub others : (t : ℕ) → k.current ≢ t → k'.stack t ≡ k.stack t
  pub next :
      (t : ℕ) (rest : List ℕ)
      → k.ready_list ≡ t ∷ rest
      → (k'.current ≡ t) × (k'.status t ≡ running) × (k'.ready_list ≡ rest)
  pub idle : k.ready_list ≡ [] → k'.current ≡ k.current

not_ready :
    (k : Kernel) → Sound k → (t : ℕ) (rest : List ℕ) → k.ready_list ≡ t ∷ rest → t ≢ k.current
not_ready k s t rest e same = ground (arith, s.on, s.sole t)

dispatch_to-Asleep :
    (k : Kernel) (r : List ℕ)
    → k.status k.current ≡ blocked
    → k.ready_list ≡ r
    → ((t : ℕ) (rest : List ℕ) → k.ready_list ≡ t ∷ rest → t ≢ k.current)
    → Asleep k (dispatch_to r k) (k.stack k.current)
unfolding dispatch_to run
dispatch_to-Asleep k [] off e apart = record {
  sleeps = off;
  left = refl;
  others = λ t ne. refl;
  next = λ t rest e'. absurd (ground arith);
  idle = λ e'. refl;
}
dispatch_to-Asleep k (x ∷ r) off e apart = record {
  sleeps = ground (arith, off, apart x r e);
  left = refl;
  others = λ t ne. refl;
  next = λ t rest e'. (ground arith, ground arith, ground arith);
  idle = λ e'. absurd (ground arith);
}

module _ (k : Kernel) (s : Sound k) (a : ℕ) (l : Lock) (found : get_elem? k.locks a ≡ some l)
    (other : held_by k.current l.owner ≡ false) (busy : l.available ≡ false) where
  abbrev queued : Lock
  queued = record l { waiting_threads = l.waiting_threads ++ k.current ∷ [] }

  -- The state in which Sleep looks for the next thread.
  abbrev slept : Kernel
  slept = record (push (set_level k.level) (put_lock a queued k)) {
    level = int_off;
    status = update k.status k.current blocked;
  }

  acquire_sleeps : acquire a k ≡ ok (dispatch slept)
  unfolding acquire acquire_at sleep push
  acquire_sleeps = rw found (rw other (rw busy refl))

  -- Acquire of a lock that another thread has puts the caller at the end of the lock's queue and to
  -- sleep.
  pub acquire-Asleep :
      (k' : Kernel) × (acquire a k ≡ ok k')
      × (k'.locks ≡ set k.locks a queued)
      × Asleep k k' (set_level k.level ∷ k.stack k.current)
  unfolding dispatch push
  acquire-Asleep =
      let z = dispatch_to-Asleep slept k.ready_list (ground arith) refl (not_ready k s) in
      (
        dispatch slept,
        acquire_sleeps,
        dispatch_to-locks k.ready_list slept,
        record {
          sleeps = z.sleeps;
          left = z.left ∙ ground arith;
          others = λ t ne. z.others t ne ∙ ground arith;
          next = z.next;
          idle = z.idle;
        },
      )
