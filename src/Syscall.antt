-- ===== src/Syscall.antt =====
-- The lock and condition variable system calls of Project 2/code/userprog/exception.cc, over the tables
-- LockTable and CVTable. A call is entered by pushing its frames, and `step` makes the current thread
-- carry out one frame: between two frames another thread may run. Messages that are printed are left
-- out, and so are the debug names of the objects made.
pub mod Deadlock
pub mod Stuck
pub mod Broadcast
pub mod Places
pub mod Tables
pub mod Run
use tree_fiddy.Prelude.{
  ℕ, suc, ◌+◌, ◌-◌, Bool, true, false, not, ◌||◌, ◌&&◌, Option, none, some, List, [], ◌∷◌, ◌++◌,
  ◌==◌, if◌then◌else◌, get_elem?, set, length,
}
use tree_fiddy.Prelude.Int.{ℤ, pos, negsuc}
use tree_fiddy.Prelude.Outcome.{Outcome, ok, fault, ◌>>=◌}
use tree_fiddy.Kernel.{
  Kernel, Lock, Condition, KernelLock, KernelCv, ThreadStatus, IntStatus, Frame, set_level,
  acquire_lock, release_lock, p_loop, signal_cv, broadcast_cv, acquire_body, release_body,
  release_reap, wait_body, wait_cv, release_entry, signal_body, signal_reap, broadcast_body,
  create_lock_body, destroy_lock_body, create_cv_body, destroy_cv_body, push, update, yield,
}
use tree_fiddy.Synch.{
  at_address, is_empty, acquire, release, p_from_loop, wait, signal, broadcast, new_lock,
}

-- The addresses of the locks that the file makes at its start.
abbrev pub syscall_lock : ℕ
syscall_lock = 0

abbrev pub printf_lock : ℕ
printf_lock = 1

abbrev pub lock_table_lock : ℕ
lock_table_lock = 2

abbrev pub cv_table_lock : ℕ
cv_table_lock = 3

-- The entry with a number, unless it is negative or too large.
abbrev pub entry {ℓ} : {A : Type ℓ} → List A → ℤ → Option (ℕ × A)
entry t (negsuc n) = none
entry t (pos i) = elim (get_elem? t i) [ none ↦ none | some e ↦ some (i, e) ]

-- The entry's object, if the entry is there and its pointer is not null.
abbrev pub live_lock : Kernel → ℤ → Option (ℕ × ℕ)
live_lock k n = elim (entry k.lock_table n) [
  | none ↦ none
  | some (i, e) ↦ elim e.kernel_lock [ none ↦ none | some a ↦ some (i, a) ]
]

abbrev pub live_cv : Kernel → ℤ → Option (ℕ × ℕ)
live_cv k n = elim (entry k.cv_table n) [
  | none ↦ none
  | some (i, e) ↦ elim e.cv [ none ↦ none | some a ↦ some (i, a) ]
]

abbrev pub deleted_lock : Kernel → ℕ → Bool
deleted_lock k i = elim (get_elem? k.lock_table i) [ none ↦ false | some e ↦ e.is_deleted ]

abbrev pub deleted_cv : Kernel → ℕ → Bool
deleted_cv k i = elim (get_elem? k.cv_table i) [ none ↦ false | some e ↦ e.is_deleted ]

abbrev pub put_entry : ℕ → Option ℕ → Bool → Kernel → Kernel
put_entry i a d k = record k {
  lock_table = set k.lock_table i (record { kernel_lock = a; is_deleted = d });
}

abbrev pub put_cv_entry : ℕ → Option ℕ → Bool → Kernel → Kernel
put_cv_entry i a d k = record k { cv_table = set k.cv_table i (record { cv = a; is_deleted = d }) }

-- Acquire_Syscall, once it has LockTableLock, with the entry found.
acquire_entry : Option (ℕ × ℕ) → Kernel → Outcome Kernel
acquire_entry none k = release lock_table_lock k
acquire_entry (some (i, a)) k =
    if deleted_lock k i
    then release lock_table_lock k
    else acquire a (push (release_lock lock_table_lock) k)

exec_acquire : ℤ → Kernel → Outcome Kernel
unfolding acquire_entry
exec_acquire n k = acquire_entry (live_lock k n) k

-- Release_Syscall, once it has LockTableLock, with the entry found.
release_found : Option (ℕ × ℕ) → Kernel → Outcome Kernel
release_found none k = release lock_table_lock k
release_found (some (i, a)) k =
    release a (push (release_lock lock_table_lock) (push (release_reap i) k))

exec_release : ℤ → Kernel → Outcome Kernel
unfolding release_found
exec_release n k = release_found (live_lock k n) k

-- Its last lines, which run without LockTableLock.
exec_release_reap : ℕ → Kernel → Outcome Kernel
exec_release_reap i k =
    let reap : Outcome Kernel = (do
      e ← at_address (get_elem? k.lock_table i)
      a ← at_address e.kernel_lock
      l ← at_address (get_elem? k.locks a)
      ok (if is_empty l.waiting_threads then put_entry i none true k else k)) in
    if deleted_lock k i then reap else ok k

-- LockTable[n].Kernel_Lock->Release() with no test before it.
exec_release_entry : ℤ → Kernel → Outcome Kernel
exec_release_entry n k = do
  e ← at_address (entry k.lock_table n)
  a ← at_address (e.1).kernel_lock
  release a k

-- What Wait, Signal and Broadcast do when one of their two entries is not found.
abbrev refuse : ℤ → Kernel → Outcome Kernel
refuse n k = release cv_table_lock (push (release_entry n) k)

-- Wait_Syscall, once it has CVTableLock, with the entries found.
wait_found : ℤ → Option (ℕ × ℕ) → Option (ℕ × ℕ) → Kernel → Outcome Kernel
wait_found n none l k = refuse n k
wait_found n (some c) none k = refuse n k
wait_found n (some (i, c)) (some (j, a)) k =
    release cv_table_lock (push (wait_cv i j) (push (release_entry n) k))

exec_wait : ℤ → ℤ → Kernel → Outcome Kernel
unfolding wait_found
exec_wait x n k = wait_found n (live_cv k x) (live_lock k n) k

-- CVTable[x].CV->Wait(LockTable[lock].Kernel_Lock)
exec_wait_cv : ℕ → ℕ → Kernel → Outcome Kernel
exec_wait_cv i j k = do
  c ← at_address (get_elem? k.cv_table i)
  a ← at_address c.cv
  e ← at_address (get_elem? k.lock_table j)
  wait a e.kernel_lock k

-- Signal_Syscall, once it has CVTableLock, with the entries found.
signal_found : ℤ → Option (ℕ × ℕ) → Option (ℕ × ℕ) → Kernel → Outcome Kernel
signal_found n none l k = refuse n k
signal_found n (some c) none k = refuse n k
signal_found n (some (i, c)) (some (j, a)) k = signal c (some a) (push (signal_reap i) k)

exec_signal : ℤ → ℤ → Kernel → Outcome Kernel
unfolding signal_found
exec_signal y n k = signal_found n (live_cv k y) (live_lock k n) k

-- Its last lines.
exec_signal_reap : ℕ → Kernel → Outcome Kernel
exec_signal_reap i k =
    let reap : Outcome Kernel = (do
      e ← at_address (get_elem? k.cv_table i)
      a ← at_address e.cv
      c ← at_address (get_elem? k.conditions a)
      release cv_table_lock (if is_empty c.waiting_cv then put_cv_entry i none true k else k)) in
    if deleted_cv k i then reap else release cv_table_lock k

-- Broadcast_Syscall, once it has CVTableLock, with the entries found.
broadcast_found : ℤ → Option (ℕ × ℕ) → Option (ℕ × ℕ) → Kernel → Outcome Kernel
broadcast_found n none l k = refuse n k
broadcast_found n (some c) none k = refuse n k
broadcast_found n (some (i, c)) (some (j, a)) k =
    broadcast c (some a) (push (release_lock cv_table_lock) k)

exec_broadcast : ℤ → ℤ → Kernel → Outcome Kernel
unfolding broadcast_found
exec_broadcast z n k = broadcast_found n (live_cv k z) (live_lock k n) k

-- CreateLock_Syscall, once it has LockTableLock. The new lock's `owner` is never set, so it may hold
-- anything; the storage is taken to be zero.
exec_create_lock : Kernel → Outcome Kernel
exec_create_lock k = release lock_table_lock (record k {
  locks = k.locks ++ new_lock none ∷ [];
  lock_table =
      k.lock_table ++ record { kernel_lock = some (length k.locks); is_deleted = false } ∷ [];
  result = update k.result k.current (length k.lock_table);
})

-- CreateCV_Syscall, once it has CVTableLock.
exec_create_cv : Kernel → Outcome Kernel
exec_create_cv k = release cv_table_lock (record k {
  conditions = k.conditions ++ record { waiting_lock = none; waiting_cv = [] } ∷ [];
  cv_table = k.cv_table ++ record { cv = some (length k.conditions); is_deleted = false } ∷ [];
  result = update k.result k.current (length k.cv_table);
})

-- What DestroyLock and DestroyCV leave of an entry: the object's address, unless nobody waits on it,
-- and the mark.
abbrev pub after_destroy : Bool → Bool → ℕ → Option ℕ × Bool
after_destroy idle deleted a =
    if not idle && not deleted
    then (some a, true)
    else if idle && not deleted
    then (none, true)
    else if idle && deleted
    then (none, true)
    else (some a, deleted)

-- DestroyLock_Syscall, once it has LockTableLock, with the entry found.
destroy_lock_found : Option (ℕ × ℕ) → Kernel → Outcome Kernel
destroy_lock_found none k = release lock_table_lock k
destroy_lock_found (some (i, a)) k = do
  l ← at_address (get_elem? k.locks a)
  let left = after_destroy (is_empty l.waiting_threads) (deleted_lock k i) a
  release lock_table_lock (put_entry i left.0 left.1 k)

exec_destroy_lock : ℤ → Kernel → Outcome Kernel
unfolding destroy_lock_found
exec_destroy_lock n k = destroy_lock_found (live_lock k n) k

-- DestroyCV_Syscall, once it has CVTableLock, with the entry found.
destroy_cv_found : Option (ℕ × ℕ) → Kernel → Outcome Kernel
destroy_cv_found none k = release cv_table_lock k
destroy_cv_found (some (i, a)) k = do
  c ← at_address (get_elem? k.conditions a)
  let left = after_destroy (is_empty c.waiting_cv) (deleted_cv k i) a
  release cv_table_lock (put_cv_entry i left.0 left.1 k)

exec_destroy_cv : ℤ → Kernel → Outcome Kernel
unfolding destroy_cv_found
exec_destroy_cv n k = destroy_cv_found (live_cv k n) k

-- One frame of the current thread.
pub exec : Frame → Kernel → Outcome Kernel
exec (set_level s) k = ok (record k { level = s })
exec (acquire_lock a) k = acquire a k
exec (release_lock a) k = release a k
exec (p_loop a s) k = p_from_loop a s k
exec (signal_cv a l) k = signal a l k
exec (broadcast_cv a l) k = broadcast a l k
exec (acquire_body n) k = exec_acquire n k
exec (release_body n) k = exec_release n k
exec (release_reap i) k = exec_release_reap i k
exec (wait_body x n) k = exec_wait x n k
exec (wait_cv i j) k = exec_wait_cv i j k
exec (release_entry n) k = exec_release_entry n k
exec (signal_body y n) k = exec_signal y n k
exec (signal_reap i) k = exec_signal_reap i k
exec (broadcast_body z n) k = exec_broadcast z n k
exec create_lock_body k = exec_create_lock k
exec (destroy_lock_body n) k = exec_destroy_lock n k
exec create_cv_body k = exec_create_cv k
exec (destroy_cv_body n) k = exec_destroy_cv n k

pub data Call : Type 0 where
  acquire_call release_call destroy_lock_call destroy_cv_call : ℤ → Call
  wait_call signal_call broadcast_call : ℤ → ℤ → Call
  create_lock_call create_cv_call yield_call : Call

abbrev begin : ℕ → Frame → Kernel → Kernel
begin lock body k = push (acquire_lock lock) (push body k)

-- The switch of ExceptionHandler, with 0 in register 2 until a call returns a value.
dispatch_call : Call → Kernel → Kernel
dispatch_call (acquire_call n) k = begin lock_table_lock (acquire_body n) k
dispatch_call (release_call n) k = begin lock_table_lock (release_body n) k
dispatch_call (wait_call x n) k = begin cv_table_lock (wait_body x n) k
dispatch_call (signal_call y n) k = begin cv_table_lock (signal_body y n) k
dispatch_call (broadcast_call z n) k = begin cv_table_lock (broadcast_body z n) k
dispatch_call create_lock_call k = begin lock_table_lock create_lock_body k
dispatch_call (destroy_lock_call n) k = begin lock_table_lock (destroy_lock_body n) k
dispatch_call create_cv_call k = begin cv_table_lock create_cv_body k
dispatch_call (destroy_cv_call n) k = begin cv_table_lock (destroy_cv_body n) k
dispatch_call yield_call k = yield k

pub enter : Call → Kernel → Kernel
unfolding dispatch_call
enter c k = dispatch_call c (record k { result = update k.result k.current 0 })

step_frames : List Frame → Kernel → Outcome Kernel
unfolding exec
step_frames [] k = ok k
step_frames (f ∷ fs) k = exec f (record k { stack = update k.stack k.current fs })

-- One frame of the thread that has the processor. While it is blocked the machine idles.
pub step : Kernel → Outcome Kernel
unfolding step_frames
step k = elim (k.status k.current) [
  | ThreadStatus.running ↦ step_frames (k.stack k.current) k
  | other ↦ ok k
]

pub steps : ℕ → Kernel → Outcome Kernel
steps ℕ.zero k = ok k
steps (suc n) k = step k >>= steps n
