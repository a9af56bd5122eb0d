-- ===== src/Process.antt =====
-- The processes of Project 2/code/userprog/exception.cc: Fork_Syscall, Exec_Syscall and Exit_Syscall over the
-- table of processes of threads/system.cc. A call runs while it has syscallLock, so calls follow each other;
-- a thread that another one keeps out sleeps. Exec_Syscall is modelled from its Acquire on: the program's
-- address space is an argument, and so is each new thread. A process id and a thread's space are numbers,
-- and a count that would become negative is a fault. What a new thread runs is not part of a call.
pub mod Counted
pub mod Stuck
use tree_fiddy.Prelude.{
  ℕ, zero, suc, ◌+◌, Bool, true, false, Option, none, some, List, [], ◌∷◌, ltb, ◌==◌, if◌then◌else◌,
  set,
}
use tree_fiddy.Prelude.Int.{ℤ, pos, negsuc}
use tree_fiddy.Prelude.Outcome.{Outcome, ok, fault, ◌>>=◌}
use tree_fiddy.Table
use tree_fiddy.Table.{Table}

abbrev pub process_table_max_size : ℕ
process_table_max_size = 32

pub record Process : Type 0 where
  pub id : ℕ
  pub active_thread_count : ℕ
  pub inactive_thread_count : ℕ

-- A thread of a user program, with its number, its process, its number in the process and its space.
pub record UserThread : Type 0 where
  pub thread : ℕ
  pub pid : ℕ
  pub number : ℕ
  pub space : ℕ

-- The state that the calls share, with the threads besides the one that calls.
pub record Processes : Type 0 where
  pub process_table : Table Process
  pub syscall_lock : Option ℕ  -- its owner
  pub others : List UserThread

-- What a call comes to: it returns, it sleeps at its Acquire, its thread ends, or the machine halts.
pub data Result : Type 0 where
  returns : ℤ → Processes → Result
  sleeps : Processes → Result
  finishes : Processes → Result
  halts : Result

-- Whether syscallLock->Acquire() returns at once.
abbrev pub can_enter : Option ℕ → ℕ → Bool
can_enter none me = true
can_enter (some t) me = t == me

abbrev pub entered : UserThread → Processes → Processes
entered me s = record s { syscall_lock = some me.thread }

-- syscallLock->Release()
abbrev pub left_free : Processes → Processes
left_free s = record s { syscall_lock = none }

-- An assignment to the process that an entry points to.
unfoldable pub assign_process : ℕ → Process → Table Process → Table Process
assign_process i p t = record t { table = set t.table i (some p) }

abbrev pub new_process : ℕ → Process
new_process i = record { id = i; active_thread_count = 1; inactive_thread_count = 0 }

-- Exec_Syscall after processTable->Put(p), which stands in the table with any id.
unfoldable pub exec_put : ℕ → ℕ → UserThread → Option ℕ × Table Process → Processes → Result
unfolding assign_process
exec_put space thread me (none, t) s = returns (negsuc 0) (record s { process_table = t })
exec_put space thread me (some i, t) s =
    let started : UserThread = record { thread = thread; pid = i; number = 1; space = space } in
    returns (pos i) (
      left_free (record s {
        process_table = assign_process i (new_process i) t;
        others = started ∷ s.others;
      }))

-- Exec_Syscall, with the new process's space, the new thread and what the storage of `id` held.
unfoldable pub exec_process : (space thread junk : ℕ) → UserThread → Processes → Outcome Result
unfolding exec_put
exec_process space thread junk me s =
    let runs : Outcome Result = (do
      put ← Table.put s.process_table (some (new_process junk))
      ok (exec_put space thread me put (entered me s))) in
    if can_enter s.syscall_lock me.thread then runs else ok (sleeps s)

-- Fork_Syscall with the process that Get gives.
unfoldable pub fork_in : ℕ → UserThread → Option Process → Processes → Result
unfolding assign_process
fork_in thread me none s = returns (pos 0) s
fork_in thread me (some p) s =
    let p' : Process = record p { active_thread_count = p.active_thread_count + 1 } in
    let started : UserThread = record {
      thread = thread;
      pid = me.pid;
      number = p'.inactive_thread_count + p'.active_thread_count;
      space = me.space;
    } in
    returns (pos 0) (
      left_free (record s {
        process_table = assign_process me.pid p' s.process_table;
        others = started ∷ s.others;
      }))

-- Fork_Syscall, which gives no answer; ExceptionHandler then gives 0.
unfoldable pub fork_thread : ℕ → UserThread → Processes → Outcome Result
unfolding fork_in
fork_thread thread me s =
    let runs : Outcome Result = (do
      p ← Table.get s.process_table (pos me.pid)
      ok (fork_in thread me p (entered me s))) in
    if can_enter s.syscall_lock me.thread then runs else ok (sleeps s)

-- The thread that ends is one of several of its process.
unfoldable pub end_thread : ℕ → UserThread → Process → Processes → Outcome Result
unfolding assign_process
end_thread zero me p s = fault
end_thread (suc n) me p s =
    let p' : Process = record p {
      active_thread_count = n;
      inactive_thread_count = p.inactive_thread_count + 1;
    } in
    ok
      (finishes (left_free (record s { process_table = assign_process me.pid p' s.process_table })))

-- Exit_Syscall with the process that Get gives; a null pointer is read through.
unfoldable pub exit_in : UserThread → Option Process → Processes → Outcome Result
unfolding end_thread
exit_in me none s = fault
exit_in me (some p) s =
    let removed : Outcome Processes = (do
      (q, t) ← Table.remove s.process_table (pos me.pid)
      ok (record s { process_table = t })) in
    let last_of_many : Outcome Result = (do s' ← removed; ok (finishes (left_free s'))) in
    let last_of_all : Outcome Result = (do s' ← removed; ok halts) in
    let one_of_several : Outcome Result = end_thread p.active_thread_count me p s in
    if p.active_thread_count == 1
    then (if ltb 1 s.process_table.size then last_of_many else last_of_all)
    else one_of_several

-- Exit_Syscall
unfoldable pub exit_thread : UserThread → Processes → Outcome Result
unfolding exit_in
exit_thread me s =
    let runs : Outcome Result = (do
      p ← Table.get s.process_table (pos me.pid)
      exit_in me p (entered me s)) in
    if can_enter s.syscall_lock me.thread then runs else ok (sleeps s)
