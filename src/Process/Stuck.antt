-- ===== src/Process/Stuck.antt =====
-- Exec_Syscall of Project 2/code/userprog/exception.cc on a full table of processes.
use tree_fiddy.Prelude.{ℕ, ◌≡◌, ◌≢◌, ◌<◌, refl, inl, inr, true, false, Option, some, arith}
use tree_fiddy.Prelude.Int.{negsuc}
use tree_fiddy.Prelude.Outcome.{ok}
use tree_fiddy.Table.Laws.{IsValid, slot, put-Puts}
use tree_fiddy.Process.{
  Process, UserThread, Processes, returns, sleeps, can_enter, entered, new_process, exec_put,
  exec_process, fork_thread, exit_thread,
}

kept_out :
    (s : Processes) (me other : UserThread)
    → s.syscall_lock ≡ some me.thread
    → other.thread ≢ me.thread
    → can_enter s.syscall_lock other.thread ≡ false
kept_out s me other owned differ = rw owned (ground arith)

-- With every slot of the table taken, Exec of a thread that gets syscallLock answers -1 and keeps the
-- lock. From then on, while that thread does not give it up, every Exec, Fork and Exit of another thread
-- sleeps.
pub full_table_locks_out :
    (me : UserThread) (s : Processes) (space thread junk : ℕ)
    → IsValid s.process_table
    → ((j : ℕ)
        → j < s.process_table.size
        → (c : Option Process) × (slot s.process_table j ≡ some c))
    → can_enter s.syscall_lock me.thread ≡ true
    → (s' : Processes) × (exec_process space thread junk me s ≡ ok (returns (negsuc 0) s'))
      × (s'.syscall_lock ≡ some me.thread)
      × ((other : UserThread) (later : Processes) (space' thread' junk' : ℕ)
          → later.syscall_lock ≡ some me.thread
          → other.thread ≢ me.thread
          → (exec_process space' thread' junk' other later ≡ ok (sleeps later))
            × (fork_thread thread' other later ≡ ok (sleeps later))
            × (exit_thread other later ≡ ok (sleeps later)))
unfolding exec_process exec_put fork_thread exit_thread
full_table_locks_out me s space thread junk valid full enters =
    elim (put-Puts s.process_table (some (new_process junk)) valid) [
      | inl (taken, e) ↦ (
        entered me s,
        rw enters (rw e refl),
        refl,
        λ other later space' thread' junk' owned differ.
            let out = kept_out later me other owned differ in
            (rw out refl, rw out refl, rw out refl),
      )
      | inr (i, t, e, below, free, valid_t, size, slots) ↦
          let (c, there) = full i below in absurd (ground arith)
    ]
