-- ===== src/Examples/Locks.antt =====
-- The calls of Project 2/code/threads/synch.cc at concrete inputs.
use tree_fiddy.Prelude.{ℕ, suc, zero, ◌≡◌, refl, inr, false, some, [], ◌∷◌, arith}
use tree_fiddy.Prelude.Outcome.{ok}
use tree_fiddy.Kernel.{Kernel, Lock, Condition, ThreadStatus, running, ready, blocked, int_on}
use tree_fiddy.Synch.{acquire, release}
use tree_fiddy.Synch.Places.{Sound, Trades}
use tree_fiddy.Synch.Calls.{call, call-Trades, waits}
use tree_fiddy.Synch.Ownership.{Consistent, OwnedBy, acquire-release-Consistent, owner_keeps_lock}

-- Thread 0 runs and has lock 0, for which thread 2 waits; thread 1 is ready and has lock 1; thread 3
-- waits on the condition variable.
abbrev held_lock : Lock
held_lock = record { available = false; owner = some 0; waiting_threads = 2 ∷ [] }

abbrev other_lock : Lock
other_lock = record { available = false; owner = some 1; waiting_threads = [] }

abbrev awaited : Condition
awaited = record { waiting_lock = some 0; waiting_cv = 3 ∷ [] }

abbrev statuses : ℕ → ThreadStatus
statuses zero = running
statuses (suc zero) = ready
statuses (suc (suc n)) = blocked

abbrev workshop : Kernel
workshop = record {
  current = 0;
  status = statuses;
  ready_list = 1 ∷ [];
  level = int_on;
  stack = λ t. [];
  result = λ t. 0;
  next_thread = 4;
  locks = held_lock ∷ other_lock ∷ [];
  conditions = awaited ∷ [];
  semaphores = [];
  lock_table = [];
  cv_table = [];
}

workshop-Sound : Sound workshop
workshop-Sound = record { on = refl; sole = λ t. ground arith }

workshop-Consistent : Consistent workshop
workshop-Consistent zero m h = inr (0, ground arith, ground arith, ground arith)
workshop-Consistent (suc zero) m h = inr (1, ground arith, ground arith, ground arith)
workshop-Consistent (suc (suc b)) m h = absurd (ground arith)

call-Trades_example : Trades workshop (call (waits 0 0) workshop)
call-Trades_example =
    call-Trades workshop (waits 0 0) workshop-Sound (awaited, held_lock, refl, refl)

acquire-release-Consistent_example :
    ((k' : Kernel) × (acquire 1 workshop ≡ ok k') × Consistent k')
    × ((k' : Kernel) × (release 1 workshop ≡ ok k') × Consistent k')
acquire-release-Consistent_example =
    acquire-release-Consistent workshop workshop-Sound workshop-Consistent 1 other_lock refl

owner_keeps_lock_example : OwnedBy 1 1 (acquire 1 workshop) × OwnedBy 1 1 (release 1 workshop)
owner_keeps_lock_example =
    owner_keeps_lock workshop workshop-Sound workshop-Consistent 1 other_lock refl 1 other_lock 1
      refl refl (omega arith)
