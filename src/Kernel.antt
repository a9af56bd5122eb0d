-- ===== src/Kernel.antt =====
-- The state of the kernel and the thread switch: Project 2/code/threads/thread.cc, scheduler.cc and
-- thread.h, with the objects of synch.h and the tables of threads/system.h and userprog/exception.cc.
-- A thread, a lock or a condition variable is known by a number, its address; objects are never freed.
-- A thread that sleeps leaves on its kernel stack, `stack`, the calls that it still has to make: each
-- `Frame` is one of them. Registers, host stacks and the deletion of finished threads are left out.
pub mod Places
use tree_fiddy.Prelude.{
  ℕ, suc, Bool, true, false, Option, none, some, List, [], ◌∷◌, ◌++◌, ◌==◌, if◌then◌else◌,
}
use tree_fiddy.Prelude.Int.{ℤ}
use tree_fiddy.Prelude.Outcome.{Outcome, ok, fault}

pub data ThreadStatus : Type 0 where
  just_created running ready blocked : ThreadStatus

pub data IntStatus : Type 0 where
  int_off int_on : IntStatus

pub record Lock : Type 0 where
  pub available : Bool
  pub owner : Option ℕ
  pub waiting_threads : List ℕ

pub record Condition : Type 0 where
  pub waiting_lock : Option ℕ
  pub waiting_cv : List ℕ

pub record Semaphore : Type 0 where
  pub value : ℕ
  pub queue : List ℕ

-- The entries of LockTable and CVTable; the field Owner of KernelLock is never read.
pub record KernelLock : Type 0 where
  pub kernel_lock : Option ℕ
  pub is_deleted : Bool

pub record KernelCv : Type 0 where
  pub cv : Option ℕ
  pub is_deleted : Bool

-- A call that a thread still has to make.
pub data Frame : Type 0 where
  set_level : IntStatus → Frame  -- interrupt->SetLevel
  acquire_lock : ℕ → Frame  -- Lock::Acquire
  release_lock : ℕ → Frame  -- Lock::Release
  p_loop : ℕ → IntStatus → Frame  -- the loop of Semaphore::P
  signal_cv : ℕ → Option ℕ → Frame  -- Condition::Signal
  broadcast_cv : ℕ → Option ℕ → Frame  -- the loop of Condition::Broadcast
  -- The rest of each system call, after it has its table's lock.
  acquire_body : ℤ → Frame
  release_body : ℤ → Frame
  release_reap : ℕ → Frame
  wait_body : ℤ → ℤ → Frame
  wait_cv : ℕ → ℕ → Frame
  release_entry : ℤ → Frame
  signal_body : ℤ → ℤ → Frame
  signal_reap : ℕ → Frame
  broadcast_body : ℤ → ℤ → Frame
  create_lock_body : Frame
  destroy_lock_body : ℤ → Frame
  create_cv_body : Frame
  destroy_cv_body : ℤ → Frame

pub record Kernel : Type 0 where
  pub current : ℕ
  pub status : ℕ → ThreadStatus
  pub ready_list : List ℕ
  pub level : IntStatus
  pub stack : ℕ → List Frame
  pub result : ℕ → ℕ  -- what a thread's last system call wrote to register 2
  pub next_thread : ℕ
  pub locks : List Lock
  pub conditions : List Condition
  pub semaphores : List Semaphore
  pub lock_table : List KernelLock
  pub cv_table : List KernelCv

abbrev pub update {ℓ} : {A : Type ℓ} → (ℕ → A) → ℕ → A → ℕ → A
update f t v j = if t == j then v else f j

-- The frame that the current thread goes on with.
unfoldable pub push : Frame → Kernel → Kernel
push f k = record k { stack = update k.stack k.current (f ∷ k.stack k.current) }

-- Scheduler::ReadyToRun
unfoldable pub ready_to_run : ℕ → Kernel → Kernel
ready_to_run t k = record k {
  status = update k.status t ready;
  ready_list = k.ready_list ++ t ∷ [];
}

-- Scheduler::Run
unfoldable pub run : ℕ → Kernel → Kernel
run t k = record k { current = t; status = update k.status t running }

-- FindNextToRun and Run, as in the loop of Thread::Sleep. With nobody ready the machine idles: the
-- current thread stays in the loop until an interrupt handler makes some thread ready.
unfoldable pub dispatch_to : List ℕ → Kernel → Kernel
unfolding run
dispatch_to [] k = k
dispatch_to (t ∷ rest) k = run t (record k { ready_list = rest })

unfoldable pub dispatch : Kernel → Kernel
unfolding dispatch_to
dispatch k = dispatch_to k.ready_list k

-- Thread::Sleep
unfoldable pub sleep : Kernel → Outcome Kernel
unfolding dispatch
sleep k = elim k.level [
  | int_off ↦ ok (dispatch (record k { status = update k.status k.current blocked }))
  | int_on ↦ fault
]

-- Thread::Yield: the old level is restored when the thread runs again, or at once.
unfoldable pub yield_to : List ℕ → Kernel → Kernel
unfolding push ready_to_run run
yield_to [] k = k
yield_to (t ∷ rest) k = run t (
    ready_to_run k.current
      (push (set_level k.level) (record k { ready_list = rest; level = int_off })))

unfoldable pub yield : Kernel → Kernel
unfolding yield_to
yield k = yield_to k.ready_list k

-- Thread::Fork of a new thread, which starts in user code.
unfoldable pub fork : Kernel → Kernel
unfolding ready_to_run
fork k = ready_to_run k.next_thread (record k { next_thread = suc k.next_thread })

-- Thread::Finish: the thread is on no queue, so it never runs again.
unfoldable pub finish : Kernel → Outcome Kernel
unfolding sleep
finish k = sleep (record k { level = int_off })
