-- ===== src/Examples/Calls.antt =====
-- The system calls of Project 2/code/userprog/exception.cc at concrete inputs.
use tree_fiddy.Prelude.{
  ℕ, suc, zero, ◌≡◌, refl, inr, true, false, none, some, [], ◌∷◌, get_elem?, set, arith,
}
use tree_fiddy.Prelude.Int.{pos}
use tree_fiddy.Prelude.Outcome.{ok}
use tree_fiddy.Kernel.{
  Kernel, Lock, Condition, ThreadStatus, running, ready, blocked, int_on, int_off, set_level,
  release_lock, release_body, broadcast_cv, yield,
}
use tree_fiddy.Kernel.Places.{places}
use tree_fiddy.Synch.Places.{Sound}
use tree_fiddy.Syscall.{acquire_call, release_call, enter, step, steps, lock_table_lock}
use tree_fiddy.Synch.Sleeping.{Asleep}
use tree_fiddy.Syscall.Places.{Sole}
use tree_fiddy.Syscall.Broadcast.{broadcast_spins, broadcast_wakes_all, Woken, Looping, rounds}
use tree_fiddy.Syscall.Deadlock.{acquire_keeps_table_lock, table_lock_blocks, releasing, Contended}
use tree_fiddy.Syscall.Stuck.{Stuck, acquire-release-Stuck}
use tree_fiddy.Syscall.Run.{called, user_ticked, end_of_tick, Reach, here, next, Reach-places}

abbrev free_lock : Lock
free_lock = record { available = true; owner = none; waiting_threads = [] }

-- User lock 0 is the lock at address 4; thread 1, which is ready, has it.
abbrev user_lock : Lock
user_lock = record { available = false; owner = some 1; waiting_threads = [] }

abbrev statuses : ℕ → ThreadStatus
statuses zero = running
statuses (suc zero) = ready
statuses (suc (suc n)) = blocked

-- Threads 2 and 3 wait on the condition variable, with lock 4.
abbrev awaited : Condition
awaited = record { waiting_lock = some 4; waiting_cv = 2 ∷ 3 ∷ [] }

abbrev office : Kernel
office = record {
  current = 0;
  status = statuses;
  ready_list = 1 ∷ [];
  level = int_on;
  stack = λ t. [];
  result = λ t. 0;
  next_thread = 4;
  locks = free_lock ∷ free_lock ∷ free_lock ∷ free_lock ∷ user_lock ∷ [];
  conditions = awaited ∷ [];
  semaphores = [];
  lock_table = record { kernel_lock = some 4; is_deleted = false } ∷ [];
  cv_table = [];
}

office-Sound : Sound office
office-Sound = record { on = refl; sole = λ t. ground arith }

-- The same with LockTableLock in the hands of thread 1.
abbrev taken_lock : Lock
taken_lock = record { available = false; owner = some 1; waiting_threads = [] }

abbrev closed_office : Kernel
closed_office = record office {
  locks = free_lock ∷ free_lock ∷ taken_lock ∷ free_lock ∷ user_lock ∷ [];
}

closed_office-Sound : Sound closed_office
closed_office-Sound = record { on = refl; sole = λ t. ground arith }

office-Contended : Contended office office-Sound free_lock refl (pos 0) 0 4 1 user_lock
office-Contended = record {
  entry = refl;
  kept = refl;
  lock = refl;
  apart = omega arith;
  owner = refl;
  busy = refl;
  other = omega arith;
  table_free = (refl, refl);
}

acquire_keeps_table_lock_example :
    (k' : Kernel) × (steps 2 (enter (acquire_call (pos 0)) office) ≡ ok k')
    × (get_elem? k'.locks lock_table_lock
        ≡ some (record free_lock { available = false; owner = some 0 }))
    × (get_elem? k'.locks 4 ≡ some (record user_lock { waiting_threads = 0 ∷ [] }))
    × Asleep office k' (set_level int_on ∷ release_lock lock_table_lock ∷ [])
acquire_keeps_table_lock_example =
    acquire_keeps_table_lock office office-Sound free_lock refl (pos 0) 0 4 1 user_lock
      office-Contended

acquire-release-Stuck_example :
    (k' k'' : Kernel) × Stuck office office-Sound free_lock refl
      (pos 0)
      (pos 0)
      0
      4
      1
      user_lock
      office-Contended
      []
      refl
      k'
      k''
acquire-release-Stuck_example =
    acquire-release-Stuck office office-Sound free_lock refl (pos 0) (pos 0) 0 4 1 user_lock
      office-Contended [] refl

table_lock_blocks_example :
    (k' : Kernel) × (step (enter (release_call (pos 0)) closed_office) ≡ ok k')
    × (k'.locks
        ≡ set closed_office.locks lock_table_lock (record taken_lock { waiting_threads = 0 ∷ [] }))
    × Asleep closed_office k' (set_level int_on ∷ release_body (pos 0) ∷ [])
table_lock_blocks_example =
    table_lock_blocks closed_office closed_office-Sound taken_lock refl 1 refl refl (omega arith)
      (release_call (pos 0)) (release_body (pos 0)) releasing

-- Thread 0 is in Broadcast with lock 4, and with lock 0.
abbrev broadcasting : ℕ → Kernel
broadcasting lock = record office { stack = λ t. broadcast_cv 0 (some lock) ∷ [] }

broadcast_wakes_all_example :
    (k' : Kernel) × (steps (rounds (2 ∷ 3 ∷ [])) (broadcasting 4) ≡ ok k')
    × Woken 0 4 [] (broadcasting 4) (2 ∷ 3 ∷ []) k'
broadcast_wakes_all_example =
    broadcast_wakes_all 0 4 [] (2 ∷ 3 ∷ []) (broadcasting 4) awaited
      (record { on = refl; frames = refl }) refl refl (inr refl) refl

broadcast_spins_example :
    (k' : Kernel) × (steps 9 (broadcasting 0) ≡ ok k') × Looping 0 (some 0) [] (broadcasting 0) k'
broadcast_spins_example =
    broadcast_spins 0 (some 0) [] (broadcasting 0) awaited (record { on = refl; frames = refl })
      refl refl refl 9

-- Interrupts are off, as a Release leaves them; a tick in user code switches to thread 1.
abbrev masked_office : Kernel
masked_office = record office { level = int_off }

abbrev switched : Kernel
switched = end_of_tick true masked_office

office_run : Reach masked_office (enter (acquire_call (pos 0)) switched)
unfolding yield
office_run = next (next here (user_ticked true refl refl)) (called (acquire_call (pos 0)) refl refl)

Reach-places_example :
    ((t : ℕ) → places t (enter (acquire_call (pos 0)) switched) ≡ places t masked_office)
    × Sole (enter (acquire_call (pos 0)) switched)
Reach-places_example = Reach-places office_run office-Sound.sole
