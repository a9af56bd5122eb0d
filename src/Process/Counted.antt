-- ===== src/Process/Counted.antt =====
-- The thread counts of the processes of Project 2/code/userprog/exception.cc.
use tree_fiddy.Prelude.{
  ℕ, zero, suc, ◌<◌, ◌≡◌, ◌≢◌, refl, sym, ap, subst, ◌∙◌, ◌⊎◌, inl, inr, true, Option, none, some,
  List, ◌∷◌, ltb, ◌==◌, if◌then◌else◌, arith, bit, sum_map, Bool-cases, Option-cases,
}
use tree_fiddy.Prelude.Int.{pos, negsuc}
use tree_fiddy.Prelude.Outcome.{Outcome, ok}
use tree_fiddy.Table
use tree_fiddy.Table.{Table}
use tree_fiddy.Table.Laws.{IsValid, slot, or_null, get-slot, put-Puts, remove-Removes, assign-slot}
use tree_fiddy.Process.{
  Process, UserThread, Processes, Result, returns, sleeps, finishes, halts, can_enter, entered,
  left_free, assign_process, new_process, exec_put, exec_process, fork_in, fork_thread, end_thread,
  exit_in, exit_thread,
}

Nat-cases : (n : ℕ) → (n ≡ 0) ⊎ ((m : ℕ) × (n ≡ suc m))
Nat-cases zero = inl refl
Nat-cases (suc m) = inr (m, refl)

-- How many of the threads belong to a process.
abbrev pub threads_of : ℕ → List UserThread → ℕ
threads_of i ts = sum_map (λ (u : UserThread). bit (u.pid == i)) ts

-- An entry of the table agrees with the number of threads.
abbrev pub Agrees : ℕ → ℕ → Option Process → Type 0
Agrees i n none = n ≡ 0
Agrees i n (some p) = (p.id ≡ i) × (p.active_thread_count ≡ n) × (0 < n)

unfoldable pub process_at : Table Process → ℕ → Option Process
process_at t i = or_null (slot t i)

-- The table has exactly the processes that have threads, each with their number and its own id.
pub record IsCounted (t : Table Process) (ts : List UserThread) : Type 0 where
  pub valid : IsValid t
  pub agrees : (i : ℕ) → Agrees i (threads_of i ts) (process_at t i)

get_lem : (t : Table Process) (i : ℕ) → IsValid t → Table.get t (pos i) ≡ ok (process_at t i)
unfolding process_at
get_lem t i v = let (here, other) = get-slot t v in here i

used :
    (t : Table Process) (i : ℕ) (p : Process) → process_at t i ≡ some p → slot t i ≡ some (some p)
unfolding process_at
used t i p e = go (slot t i) e
  where
    go : (o : Option (Option Process)) → or_null o ≡ some p → o ≡ some (some p)
    go none h = absurd (ground arith)
    go (some c) h = ap (λ (x : Option Process). some x) h

-- Assigning to a process of the table changes that entry alone.
process_at-assign :
    (t : Table Process) (i : ℕ) (c : Option Process) (p : Process)
    → IsValid t
    → slot t i ≡ some c
    → IsValid (assign_process i p t)
      × ((j : ℕ)
          → process_at (assign_process i p t) j ≡ (if i == j then some p else process_at t j))
unfolding assign_process process_at
process_at-assign t i c p v h =
    let (valid, slots) = assign-slot t i c (some p) v h in
    (valid, λ j. ap or_null (slots j) ∙ ground arith)

module _ (t t' : Table Process) (i : ℕ) (ts ts' : List UserThread) (o : Option Process)
    (c : IsCounted t ts) (valid : IsValid t')
    (entry : (j : ℕ) → process_at t' j ≡ (if i == j then o else process_at t j))
    (others : (j : ℕ) → i ≢ j → threads_of j ts' ≡ threads_of j ts) where
  -- Only the entry of one process and its threads have changed.
  IsCounted-change : Agrees i (threads_of i ts') o → IsCounted t' ts'
  IsCounted-change here = record {
    valid = valid;
    agrees = λ j. elim (Bool-cases (i == j)) [
      | inl same ↦
          let at : i ≡ j = ground arith in
          let is : process_at t' j ≡ o = entry j ∙ rw same refl in
          subst (Agrees j (threads_of j ts')) (sym is)
            (subst (λ x. Agrees x (threads_of x ts') o) at here)
      | inr differ ↦
          let is : process_at t' j ≡ process_at t j = entry j ∙ rw differ refl in
          subst (Agrees j (threads_of j ts')) (sym is)
            (subst (λ n. Agrees j n (process_at t j)) (sym (others j (ground arith))) (c.agrees j))
    ];
  }

-- What a call of thread `me` keeps of the counts; it does not halt the machine.
abbrev pub Keeps : UserThread → Processes → Result → Type 0
Keeps me s (returns v s') = IsCounted s'.process_table (me ∷ s'.others)
Keeps me s (sleeps s') = s' ≡ s
Keeps me s (finishes s') = IsCounted s'.process_table s'.others
Keeps me s halts = ⊥

abbrev pub KeepsCounts : UserThread → Processes → Outcome Result → Type 0
KeepsCounts me s r = (q : Result) × (r ≡ ok q) × Keeps me s q

module _ (me : UserThread) (s : Processes) (c : IsCounted s.process_table (me ∷ s.others)) where
  -- The table with a new process, and its first thread.
  new_process-IsCounted :
      (space thread junk i : ℕ) (t : Table Process)
      → IsValid t
      → slot s.process_table i ≡ none
      → ((j : ℕ)
          → slot t j ≡ (if i == j then some (some (new_process junk)) else slot s.process_table j))
      → IsCounted
          (assign_process i (new_process i) t)
          (me ∷ record { thread = thread; pid = i; number = 1; space = space } ∷ s.others)
  unfolding process_at
  new_process-IsCounted space thread junk i t valid free slots =
      let (valid', entries) =
        process_at-assign t i (some (new_process junk)) (new_process i) valid
          (slots i ∙ ground arith) in
      let before = c.agrees i in
      let none_before : threads_of i (me ∷ s.others) ≡ 0 =
        subst (λ o. Agrees i (threads_of i (me ∷ s.others)) (or_null o)) free before in
      IsCounted-change s.process_table (assign_process i (new_process i) t) i (me ∷ s.others)
        (me ∷ record { thread = thread; pid = i; number = 1; space = space } ∷ s.others)
        (some (new_process i)) c valid'
        (λ j. entries j ∙ elim (Bool-cases (i == j)) [
          | inl same ↦ rw same refl
          | inr differ ↦ rw differ (ap or_null (slots j) ∙ rw differ refl)
        ])
        (λ j differ. ground arith) (refl, ground arith, ground arith)

  exec-Keeps : (space thread junk : ℕ) → KeepsCounts me s (exec_process space thread junk me s)
  unfolding exec_process exec_put
  exec-Keeps space thread junk = elim (Bool-cases (can_enter s.syscall_lock me.thread)) [
    | inr kept_out ↦ (sleeps s, rw kept_out refl, refl)
    | inl enters ↦ elim (put-Puts s.process_table (some (new_process junk)) c.valid) [
      | inl (full, e) ↦ (returns (negsuc 0) (entered me s), rw enters (rw e refl), c)
      | inr (i, t, e, below, free, valid, size, slots) ↦ (
        exec_put space thread me (some i, t) (entered me s),
        rw enters (rw e refl),
        new_process-IsCounted space thread junk i t valid free slots,
      )
    ]
  ]

  -- A process of the table gets other counts.
  counts-IsCounted :
      (p p' : Process) (ts : List UserThread)
      → process_at s.process_table me.pid ≡ some p
      → p'.id ≡ p.id
      → p'.active_thread_count ≡ threads_of me.pid ts
      → 0 < threads_of me.pid ts
      → ((j : ℕ) → me.pid ≢ j → threads_of j ts ≡ threads_of j (me ∷ s.others))
      → IsCounted (assign_process me.pid p' s.process_table) ts
  counts-IsCounted p p' ts there same_id count some_thread others =
      let (valid, entries) =
        process_at-assign s.process_table me.pid (some p) p' c.valid
          (used s.process_table me.pid p there) in
      let (id, active, positive) =
        subst (Agrees me.pid (threads_of me.pid (me ∷ s.others))) there (c.agrees me.pid) in
      IsCounted-change s.process_table (assign_process me.pid p' s.process_table) me.pid
        (me ∷ s.others) ts (some p') c valid entries others (same_id ∙ id, count, some_thread)

  fork-Keeps : (thread : ℕ) → KeepsCounts me s (fork_thread thread me s)
  unfolding fork_thread fork_in
  fork-Keeps thread = elim (Bool-cases (can_enter s.syscall_lock me.thread)) [
    | inr kept_out ↦ (sleeps s, rw kept_out refl, refl)
    | inl enters ↦ elim (Option-cases (process_at s.process_table me.pid)) [
      | inl absent ↦ (
        returns (pos 0) (entered me s),
        rw enters (rw (get_lem s.process_table me.pid c.valid) (rw absent refl)),
        c,
      )
      | inr (p, there) ↦
          let (id, active, positive) =
            subst (Agrees me.pid (threads_of me.pid (me ∷ s.others))) there (c.agrees me.pid) in
          (
            fork_in thread me (some p) (entered me s),
            rw enters (rw (get_lem s.process_table me.pid c.valid) (rw there refl)),
            counts-IsCounted p _ _ there refl (ground arith) (ground arith)
                (λ j differ. ground arith),
          )
    ]
  ]

  -- The last thread of a process ends with it.
  removed-IsCounted :
      (t : Table Process)
      → IsValid t
      → ((j : ℕ) → slot t j ≡ (if me.pid == j then none else slot s.process_table j))
      → threads_of me.pid (me ∷ s.others) ≡ 1
      → IsCounted t s.others
  unfolding process_at
  removed-IsCounted t valid slots one =
      IsCounted-change s.process_table t me.pid (me ∷ s.others) s.others none c valid
        (λ j. elim (Bool-cases (me.pid == j)) [
          | inl same ↦ ap or_null (slots j) ∙ rw same refl
          | inr differ ↦ ap or_null (slots j) ∙ rw differ refl
        ])
        (λ j differ. ground arith) (ground arith)

  one_of_several-Keeps :
      (n : ℕ) (p : Process)
      → process_at s.process_table me.pid ≡ some p
      → p.active_thread_count ≡ suc n
      → 0 < n
      → KeepsCounts me s (end_thread (suc n) me p (entered me s))
  unfolding end_thread
  one_of_several-Keeps n p there count more =
      let (id, active, positive) =
        subst (Agrees me.pid (threads_of me.pid (me ∷ s.others))) there (c.agrees me.pid) in
      let left : n ≡ threads_of me.pid s.others = ground arith in
      (
        finishes _,
        refl,
        counts-IsCounted p _ s.others there refl left (omega arith) (λ j differ. ground arith),
      )

  exit_found-Keeps :
      (p : Process)
      → process_at s.process_table me.pid ≡ some p
      → 1 < s.process_table.size
      → KeepsCounts me s (exit_in me (some p) (entered me s))
  unfolding exit_in
  exit_found-Keeps p there many =
      let (id, active, positive) =
        subst (Agrees me.pid (threads_of me.pid (me ∷ s.others))) there (c.agrees me.pid) in
      let several : ltb 1 s.process_table.size ≡ true = ground arith in
      elim (Bool-cases (p.active_thread_count == 1)) [
        | inl last ↦
            let (t, e, valid, size, slots) = remove-Removes s.process_table me.pid c.valid in
            let one : threads_of me.pid (me ∷ s.others) ≡ 1 = ground arith in
            (
              finishes (left_free (record (entered me s) { process_table = t })),
              rw last (rw several (rw e refl)),
              removed-IsCounted t valid slots one,
            )
        | inr more ↦ elim (Nat-cases p.active_thread_count) [
          | inl none_active ↦ absurd (omega arith)
          | inr (n, count) ↦
              let (q, e, kept) = one_of_several-Keeps n p there count (ground arith) in
              (q, rw more (ap (λ (x : ℕ). end_thread x me p (entered me s)) count ∙ e), kept)
        ]
      ]

  exit-Keeps : 1 < s.process_table.size → KeepsCounts me s (exit_thread me s)
  unfolding exit_thread
  exit-Keeps many = elim (Bool-cases (can_enter s.syscall_lock me.thread)) [
    | inr kept_out ↦ (sleeps s, rw kept_out refl, refl)
    | inl enters ↦ elim (Option-cases (process_at s.process_table me.pid)) [
      | inl absent ↦
          let nobody : threads_of me.pid (me ∷ s.others) ≡ 0 =
            subst (Agrees me.pid (threads_of me.pid (me ∷ s.others))) absent (c.agrees me.pid) in
          absurd (ground arith)
      | inr (p, there) ↦
          let (q, e, kept) = exit_found-Keeps p there many in
          (q, rw enters (rw (get_lem s.process_table me.pid c.valid) (rw there e)), kept)
    ]
  ]

-- From a table that has exactly the processes with threads, each with its own id and the number of its
-- threads, and that has more than one slot: Exec, Fork and Exit of any thread come to a result, are no
-- fault and do not halt the machine. A call that returns, and one that ends its thread, leaves a table
-- that agrees with the threads in the same way, and one that sleeps changes nothing.
pub calls-IsCounted :
    (me : UserThread) (s : Processes) (space thread junk : ℕ)
    → IsCounted s.process_table (me ∷ s.others)
    → 1 < s.process_table.size
    → KeepsCounts me s (exec_process space thread junk me s)
      × KeepsCounts me s (fork_thread thread me s)
      × KeepsCounts me s (exit_thread me s)
calls-IsCounted me s space thread junk c many =
    (exec-Keeps me s c space thread junk, fork-Keeps me s c thread, exit-Keeps me s c many)
