-- ===== src/Examples/Processes.antt =====
-- A table of Project 2/code/userprog/exception.cc with room for two processes: the first has two threads, the
-- second one.
use tree_fiddy.Prelude.{ℕ, ◌≡◌, ◌≢◌, ◌<◌, refl, Option, none, some, [], ◌∷◌, arith, ℕ_discrete}
use tree_fiddy.Prelude.Int.{negsuc}
use tree_fiddy.Prelude.Outcome.{ok}
use tree_fiddy.BitMap.Members.{has}
use tree_fiddy.Table.{Table}
use tree_fiddy.Table.Laws.{IsValid, slot}
use tree_fiddy.Process.{
  Process, UserThread, Processes, returns, sleeps, exec_process, fork_thread, exit_thread,
}
use tree_fiddy.Process.Counted.{IsCounted, process_at, KeepsCounts, calls-IsCounted}
use tree_fiddy.Process.Stuck.{full_table_locks_out}

abbrev process : ℕ → ℕ → Process
process i n = record { id = i; active_thread_count = n; inactive_thread_count = 0 }

abbrev two_slots : Table Process
two_slots = record {
  map = record { num_bits = 2; num_words = 1; map = 3 ∷ [] };
  table = some (process 0 2) ∷ some (process 1 1) ∷ [];
  size = 2;
}

abbrev user_thread : ℕ → ℕ → UserThread
user_thread t i = record { thread = t; pid = i; number = 1; space = i }

abbrev shared : Processes
shared = record {
  process_table = two_slots;
  syscall_lock = none;
  others = user_thread 11 0 ∷ user_thread 12 1 ∷ [];
}

two_slots-IsValid : IsValid two_slots
two_slots-IsValid = record { room = omega arith; bits = refl; slots = refl }

shared-IsCounted : IsCounted two_slots (user_thread 10 0 ∷ shared.others)
unfolding process_at slot has
shared-IsCounted = record {
  valid = two_slots-IsValid;
  agrees = λ i. elim (ℕ_discrete i 0) [
    | yes e ↦ rw e (refl, refl, omega arith)
    | no not_0 ↦ elim (ℕ_discrete i 1) [
      | yes e ↦ rw e (refl, refl, omega arith)
      | no not_1 ↦ ground arith
    ]
  ];
}

calls-IsCounted_example :
    KeepsCounts (user_thread 10 0) shared (exec_process 7 20 0 (user_thread 10 0) shared)
    × KeepsCounts (user_thread 10 0) shared (fork_thread 20 (user_thread 10 0) shared)
    × KeepsCounts (user_thread 10 0) shared (exit_thread (user_thread 10 0) shared)
calls-IsCounted_example =
    calls-IsCounted (user_thread 10 0) shared 7 20 0 shared-IsCounted (omega arith)

two_slots_full : (j : ℕ) → j < 2 → (c : Option Process) × (slot two_slots j ≡ some c)
unfolding slot has
two_slots_full j below = elim (ℕ_discrete j 0) [
  | yes e ↦ rw e (some (process 0 2), refl)
  | no ne ↦ let one : j ≡ 1 = omega arith in rw one (some (process 1 1), refl)
]

full_table_locks_out_example :
    (s' : Processes) × (exec_process 7 20 0 (user_thread 10 0) shared ≡ ok (returns (negsuc 0) s'))
    × (s'.syscall_lock ≡ some 10)
    × ((other : UserThread) (later : Processes) (space' thread' junk' : ℕ)
        → later.syscall_lock ≡ some 10
        → other.thread ≢ 10
        → (exec_process space' thread' junk' other later ≡ ok (sleeps later))
          × (fork_thread thread' other later ≡ ok (sleeps later))
          × (exit_thread other later ≡ ok (sleeps later)))
full_table_locks_out_example =
    full_table_locks_out (user_thread 10 0) shared 7 20 0 two_slots-IsValid two_slots_full refl
