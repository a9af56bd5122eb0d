-- ===== src/Synch.antt =====
-- Project 2/code/threads/synch.cc: semaphores, locks and condition variables, on one processor with
-- interrupts off. A call that sleeps leaves the rest of its body on the thread's stack. An address at
-- which there is no object is a dangling or null pointer, and using it is a fault.
pub mod Places
pub mod Conditions
pub mod Semaphores
pub mod Calls
pub mod LockMachine
pub mod Ownership
pub mod Waking
pub mod Sleeping
use tree_fiddy.Prelude.{
  ℕ, suc, ◌+◌, ◌-◌, Bool, true, false, not, Option, none, some, List, [], ◌∷◌, ◌++◌, ◌==◌,
  if◌then◌else◌, get_elem?, set,
}
use tree_fiddy.Prelude.Outcome.{Outcome, ok, fault, ◌>>=◌}
use tree_fiddy.Kernel.{
  Kernel, Lock, Condition, Semaphore, IntStatus, int_off, int_on, Frame, set_level, acquire_lock,
  p_loop, signal_cv, broadcast_cv, push, ready_to_run, sleep,
}

-- The object at an address.
abbrev pub at_address {ℓ} : {A : Type ℓ} → Option A → Outcome A
at_address none = fault
at_address (some a) = ok a

abbrev pub put_lock : ℕ → Lock → Kernel → Kernel
put_lock a l k = record k { locks = set k.locks a l }

abbrev pub put_condition : ℕ → Condition → Kernel → Kernel
put_condition a c k = record k { conditions = set k.conditions a c }

abbrev pub put_semaphore : ℕ → Semaphore → Kernel → Kernel
put_semaphore a s k = record k { semaphores = set k.semaphores a s }

-- owner == currentThread
abbrev pub held_by : ℕ → Option ℕ → Bool
held_by t none = false
held_by t (some o) = o == t

abbrev pub is_empty : List ℕ → Bool
is_empty [] = true
is_empty (x ∷ xs) = false

abbrev pub same_address : Option ℕ → Option ℕ → Bool
same_address none none = true
same_address none (some b) = false
same_address (some a) none = false
same_address (some a) (some b) = a == b

-- Lock::Lock, which leaves `owner` as the storage holds it.
unfoldable pub new_lock : Option ℕ → Lock
new_lock junk = record { available = true; owner = junk; waiting_threads = [] }

acquire_at : ℕ → Lock → Kernel → Outcome Kernel
acquire_at a l k =
    let queued : Lock = record l { waiting_threads = l.waiting_threads ++ k.current ∷ [] } in
    let waits : Outcome Kernel =
      sleep (record (push (set_level k.level) (put_lock a queued k)) { level = int_off }) in
    if held_by k.current l.owner
    then ok k
    else if l.available
    then ok (put_lock a (record l { available = false; owner = some k.current }) k)
    else waits

-- Lock::Acquire
pub acquire : ℕ → Kernel → Outcome Kernel
unfolding acquire_at
acquire a k = do l ← at_address (get_elem? k.locks a); acquire_at a l k

-- The queue's first thread gets the lock; the interrupt level stays off.
hand_over : ℕ → Lock → List ℕ → Kernel → Kernel
hand_over a l [] k = record (put_lock a (record l { available = true; owner = none }) k) {
  level = int_off;
}
hand_over a l (t ∷ rest) k =
    ready_to_run t (record (put_lock a (record l { waiting_threads = rest; owner = some t }) k) {
      level = int_off;
    })

release_at : ℕ → Lock → Kernel → Outcome Kernel
unfolding hand_over
release_at a l k =
    if not (held_by k.current l.owner) then ok k else ok (hand_over a l l.waiting_threads k)

-- Lock::Release
pub release : ℕ → Kernel → Outcome Kernel
unfolding release_at
release a k = do l ← at_address (get_elem? k.locks a); release_at a l k

-- Semaphore::P from its loop on, with the level to restore.
p_test : ℕ → IntStatus → Semaphore → Kernel → Outcome Kernel
p_test a inter s k =
    let queued : Semaphore = record s { queue = s.queue ++ k.current ∷ [] } in
    let waits : Outcome Kernel = sleep (push (p_loop a inter) (put_semaphore a queued k)) in
    if s.value == 0
    then waits
    else ok (record (put_semaphore a (record s { value = s.value - 1 }) k) { level = inter })

pub p_from_loop : ℕ → IntStatus → Kernel → Outcome Kernel
unfolding p_test
p_from_loop a inter k = do s ← at_address (get_elem? k.semaphores a); p_test a inter s k

-- Semaphore::P
pub p : ℕ → Kernel → Outcome Kernel
unfolding p_from_loop
p a k = p_from_loop a k.level (record k { level = int_off })

v_wake : ℕ → Semaphore → List ℕ → Kernel → Kernel
v_wake a s [] k = put_semaphore a (record s { value = s.value + 1 }) k
v_wake a s (t ∷ rest) k =
    ready_to_run t (put_semaphore a (record { value = s.value + 1; queue = rest }) k)

-- Semaphore::V
pub v : ℕ → Kernel → Outcome Kernel
unfolding v_wake
v a k = do s ← at_address (get_elem? k.semaphores a); ok (v_wake a s s.queue k)

-- Condition::Wait on a lock that is not null, with the lock that the variable then waits with.
wait_sleep : ℕ → ℕ → IntStatus → Kernel → Outcome Kernel
wait_sleep a lock inter k = do
  c ← at_address (get_elem? k.conditions a)
  let k' = put_condition a (record c { waiting_cv = c.waiting_cv ++ k.current ∷ [] }) k
  sleep (push (acquire_lock lock) (push (set_level inter) k'))

-- The lock of the variable's waiters: the first one to wait chooses it.
abbrev pub chosen_lock : Option ℕ → ℕ → Option ℕ
chosen_lock none lock = some lock
chosen_lock (some w) lock = some w

wait_release : ℕ → ℕ → IntStatus → Kernel → Outcome Kernel
wait_release a lock inter k = release lock k >>= wait_sleep a lock inter

pub wait_at : ℕ → ℕ → Condition → Kernel → Outcome Kernel
wait_at a lock c k =
    let chosen = chosen_lock c.waiting_lock lock in
    let k' = put_condition a (record c { waiting_lock = chosen }) k in
    if same_address chosen (some lock)
    then wait_release a lock k.level (record k' { level = int_off })
    else ok k'

-- Condition::Wait
pub wait : ℕ → Option ℕ → Kernel → Outcome Kernel
unfolding wait_at wait_release wait_sleep release
wait a none k = ok k
wait a (some lock) k = do c ← at_address (get_elem? k.conditions a); wait_at a lock c k

-- The waiting lock is forgotten with the last waiter.
signal_wake : ℕ → Condition → Option ℕ → List ℕ → Kernel → Kernel
signal_wake a c lock [] k = k
signal_wake a c lock (t ∷ rest) k =
    let left : Condition = record {
      waiting_lock = if is_empty rest then none else c.waiting_lock;
      waiting_cv = rest;
    } in
    if same_address lock c.waiting_lock then ready_to_run t (put_condition a left k) else k

-- Condition::Signal
pub signal : ℕ → Option ℕ → Kernel → Outcome Kernel
unfolding signal_wake
signal a lock k = do
  c ← at_address (get_elem? k.conditions a)
  ok (signal_wake a c lock c.waiting_cv k)

-- Condition::Broadcast: one test of its loop.
pub broadcast : ℕ → Option ℕ → Kernel → Outcome Kernel
broadcast a lock k = do
  c ← at_address (get_elem? k.conditions a)
  ok (if is_empty c.waiting_cv then k else push (signal_cv a lock) (push (broadcast_cv a lock) k))
