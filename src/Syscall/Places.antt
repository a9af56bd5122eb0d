-- ===== src/Syscall/Places.antt =====
-- No system call loses a thread or puts one in two places, however the threads' frames interleave.
use tree_fiddy.Prelude.{
  ℕ, ◌≤◌, ◌≡◌, ◌≢◌, ◌⊎◌, inl, inr, refl, ◌∙◌, Bool, true, false, Option, none, some, List, [], ◌∷◌,
  ◌++◌, if◌then◌else◌, get_elem?, arith, length, sum_map-append, count,
}
use tree_fiddy.Prelude.Int.{ℤ}
use tree_fiddy.Prelude.Outcome.{Outcome, ok, ◌>>=◌}
use tree_fiddy.Kernel.{
  Kernel, Lock, Condition, Frame, ThreadStatus, running, ready, blocked, just_created, push, update,
  release_lock, release_reap, release_entry, wait_cv, signal_reap, set_level, acquire_lock, p_loop,
  signal_cv, broadcast_cv, acquire_body, release_body, wait_body, signal_body, broadcast_body,
  create_lock_body, destroy_lock_body, create_cv_body, destroy_cv_body,
}
use tree_fiddy.Kernel.Places.{places}
use tree_fiddy.Synch.{at_address, is_empty, release, wait, new_lock}
use tree_fiddy.Synch.Places.{Sound}
use tree_fiddy.Synch.Calls.{
  Keeps, at_address-Keeps, acquire-Keeps, release-Keeps, signal-Keeps, broadcast-Keeps,
  p_from_loop-Keeps, wait-Keeps,
}
use tree_fiddy.Syscall.{
  entry, deleted_cv, step, step_frames, exec, lock_table_lock, cv_table_lock, put_entry,
  put_cv_entry, acquire_entry, exec_acquire, release_found, exec_release, exec_release_reap,
  exec_release_entry, wait_found, exec_wait, exec_wait_cv, signal_found, exec_signal,
  exec_signal_reap, broadcast_found, exec_broadcast, exec_create_lock, exec_create_cv,
  destroy_lock_found, exec_destroy_lock, destroy_cv_found, exec_destroy_cv,
}

status_cases : (x : ThreadStatus) → (x ≡ running) ⊎ (x ≢ running)
status_cases running = inl refl
status_cases ready = inr (λ e. cc)
status_cases blocked = inr (λ e. cc)
status_cases just_created = inr (λ e. cc)

Keeps-if :
    (k : Kernel) (b : Bool) (x y : Outcome Kernel)
    → Keeps k x
    → Keeps k y
    → Keeps k (if b then x else y)
Keeps-if k true x y h h' = h
Keeps-if k false x y h h' = h'

ok-Keeps : (k k' : Kernel) → ((t : ℕ) → places t k' ≡ places t k) → Keeps k (ok k')
ok-Keeps k k' h r e t = ground (arith, h t)

push-Sound : (k : Kernel) (f : Frame) → Sound k → Sound (push f k)
unfolding push
push-Sound k f s = record { on = s.on; sole = s.sole }

module _ (k : Kernel) (s : Sound k) where
  acquire_entry-Keeps : (o : Option (ℕ × ℕ)) → Keeps k (acquire_entry o k)
  unfolding acquire_entry push
  acquire_entry-Keeps none = release-Keeps k s lock_table_lock
  acquire_entry-Keeps (some (i, a)) =
      Keeps-if k _ _ _ (release-Keeps k s lock_table_lock)
        (acquire-Keeps (push (release_lock lock_table_lock) k) (push-Sound k _ s) a)

  release_found-Keeps : (o : Option (ℕ × ℕ)) → Keeps k (release_found o k)
  unfolding release_found push
  release_found-Keeps none = release-Keeps k s lock_table_lock
  release_found-Keeps (some (i, a)) =
      release-Keeps (push (release_lock lock_table_lock) (push (release_reap i) k))
        (push-Sound _ _ (push-Sound k _ s)) a

  exec_release_reap-Keeps : (i : ℕ) → Keeps k (exec_release_reap i k)
  unfolding exec_release_reap
  exec_release_reap-Keeps i = λ k' e t. ground arith

  exec_release_entry-Keeps : (n : ℤ) → Keeps k (exec_release_entry n k)
  unfolding exec_release_entry
  exec_release_entry-Keeps n =
      at_address-Keeps k (entry k.lock_table n)
        (λ e. at_address (e.1).kernel_lock >>= λ a. release a k)
        λ e _. at_address-Keeps k (e.1).kernel_lock (λ a. release a k) λ a _. release-Keeps k s a

  refuse-Keeps : (n : ℤ) → Keeps k (release cv_table_lock (push (release_entry n) k))
  unfolding push
  refuse-Keeps n = release-Keeps (push (release_entry n) k) (push-Sound k _ s) cv_table_lock

  wait_found-Keeps : (n : ℤ) (c l : Option (ℕ × ℕ)) → Keeps k (wait_found n c l k)
  unfolding wait_found push
  wait_found-Keeps n none l = refuse-Keeps n
  wait_found-Keeps n (some c) none = refuse-Keeps n
  wait_found-Keeps n (some (i, c)) (some (j, a)) =
      release-Keeps (push (wait_cv i j) (push (release_entry n) k))
        (push-Sound _ _ (push-Sound k _ s)) cv_table_lock

  exec_wait_cv-Keeps : (i j : ℕ) → Keeps k (exec_wait_cv i j k)
  unfolding exec_wait_cv
  exec_wait_cv-Keeps i j =
      at_address-Keeps k (get_elem? k.cv_table i)
        (λ c. at_address c.cv >>= λ a.
          at_address (get_elem? k.lock_table j) >>= λ e. wait a e.kernel_lock k)
        λ c _.
          at_address-Keeps k c.cv
            (λ a. at_address (get_elem? k.lock_table j) >>= λ e. wait a e.kernel_lock k)
            λ a _.
              at_address-Keeps k (get_elem? k.lock_table j) (λ e. wait a e.kernel_lock k)
                λ e _. wait-Keeps k s a e.kernel_lock

  signal_found-Keeps : (n : ℤ) (c l : Option (ℕ × ℕ)) → Keeps k (signal_found n c l k)
  unfolding signal_found push
  signal_found-Keeps n none l = refuse-Keeps n
  signal_found-Keeps n (some c) none = refuse-Keeps n
  signal_found-Keeps n (some (i, c)) (some (j, a)) =
      signal-Keeps (push (signal_reap i) k) (push-Sound k _ s) c (some a)

  -- Changing the tables moves nobody.
  put_cv_entry-Keeps :
      (i : ℕ) (a : Option ℕ) (d : Bool) → Keeps k (release cv_table_lock (put_cv_entry i a d k))
  put_cv_entry-Keeps i a d =
      release-Keeps (put_cv_entry i a d k) (record { on = s.on; sole = s.sole }) cv_table_lock

  put_entry-Keeps :
      (i : ℕ) (a : Option ℕ) (d : Bool) → Keeps k (release lock_table_lock (put_entry i a d k))
  put_entry-Keeps i a d =
      release-Keeps (put_entry i a d k) (record { on = s.on; sole = s.sole }) lock_table_lock

  unless_waited-Keeps :
      (i : ℕ) (b : Bool)
      → Keeps k (release cv_table_lock (if b then put_cv_entry i none true k else k))
  unless_waited-Keeps i true = put_cv_entry-Keeps i none true
  unless_waited-Keeps i false = release-Keeps k s cv_table_lock

  exec_signal_reap-Keeps : (i : ℕ) → Keeps k (exec_signal_reap i k)
  unfolding exec_signal_reap
  exec_signal_reap-Keeps i =
      Keeps-if k (deleted_cv k i) _ _
        (at_address-Keeps k (get_elem? k.cv_table i)
          (λ e. at_address e.cv >>= λ a. at_address (get_elem? k.conditions a) >>= reap)
          λ e _.
            at_address-Keeps k e.cv (λ a. at_address (get_elem? k.conditions a) >>= reap)
              λ a _.
                at_address-Keeps k (get_elem? k.conditions a) reap
                  λ c _. unless_waited-Keeps i (is_empty c.waiting_cv))
        (release-Keeps k s cv_table_lock)
    where
      reap : Condition → Outcome Kernel
      reap c =
          release cv_table_lock (if is_empty c.waiting_cv then put_cv_entry i none true k else k)

  broadcast_found-Keeps : (n : ℤ) (c l : Option (ℕ × ℕ)) → Keeps k (broadcast_found n c l k)
  unfolding broadcast_found push
  broadcast_found-Keeps n none l = refuse-Keeps n
  broadcast_found-Keeps n (some c) none = refuse-Keeps n
  broadcast_found-Keeps n (some (i, c)) (some (j, a)) =
      broadcast-Keeps (push (release_lock cv_table_lock) k) (push-Sound k _ s) c (some a)

  destroy_lock_found-Keeps : (o : Option (ℕ × ℕ)) → Keeps k (destroy_lock_found o k)
  unfolding destroy_lock_found
  destroy_lock_found-Keeps none = release-Keeps k s lock_table_lock
  destroy_lock_found-Keeps (some (i, a)) =
      at_address-Keeps k (get_elem? k.locks a) _ λ l _. put_entry-Keeps i _ _

  destroy_cv_found-Keeps : (o : Option (ℕ × ℕ)) → Keeps k (destroy_cv_found o k)
  unfolding destroy_cv_found
  destroy_cv_found-Keeps none = release-Keeps k s cv_table_lock
  destroy_cv_found-Keeps (some (i, a)) =
      at_address-Keeps k (get_elem? k.conditions a) _ λ l _. put_cv_entry-Keeps i _ _

  exec_create_lock-Keeps : Keeps k (exec_create_lock k)
  unfolding exec_create_lock new_lock
  exec_create_lock-Keeps k' e t =
      release-Keeps made (record { on = s.on; sole = λ u. omega (arith, same u, s.sole u) })
        lock_table_lock k' e t
      ∙ same t
    where
      made : Kernel
      made = record k {
        locks = k.locks ++ record { available = true; owner = none; waiting_threads = [] } ∷ [];
        lock_table =
            k.lock_table ++ record { kernel_lock = some (length k.locks); is_deleted = false } ∷ [];
        result = update k.result k.current (length k.lock_table);
      }

      same : (u : ℕ) → places u made ≡ places u k
      same u = omega (
        arith,
        sum_map-append (λ (l : Lock). count u l.waiting_threads) k.locks
            (record { available = true; owner = none; waiting_threads = [] } ∷ []),
      )

  exec_create_cv-Keeps : Keeps k (exec_create_cv k)
  unfolding exec_create_cv
  exec_create_cv-Keeps k' e t =
      release-Keeps made (record { on = s.on; sole = λ u. omega (arith, same u, s.sole u) })
        cv_table_lock k' e t
      ∙ same t
    where
      made : Kernel
      made = record k {
        conditions = k.conditions ++ record { waiting_lock = none; waiting_cv = [] } ∷ [];
        cv_table =
            k.cv_table ++ record { cv = some (length k.conditions); is_deleted = false } ∷ [];
        result = update k.result k.current (length k.cv_table);
      }

      same : (u : ℕ) → places u made ≡ places u k
      same u = omega (
        arith,
        sum_map-append (λ (c : Condition). count u c.waiting_cv) k.conditions
            (record { waiting_lock = none; waiting_cv = [] } ∷ []),
      )

  exec-Keeps : (f : Frame) → Keeps k (exec f k)
  unfolding exec exec_acquire exec_release exec_wait exec_signal exec_broadcast exec_destroy_lock
      exec_destroy_cv
  exec-Keeps (set_level l) = ok-Keeps k _ (λ t. refl)
  exec-Keeps (acquire_lock a) = acquire-Keeps k s a
  exec-Keeps (release_lock a) = release-Keeps k s a
  exec-Keeps (p_loop a l) = p_from_loop-Keeps k s a l
  exec-Keeps (signal_cv a l) = signal-Keeps k s a l
  exec-Keeps (broadcast_cv a l) = broadcast-Keeps k s a l
  exec-Keeps (acquire_body n) = acquire_entry-Keeps _
  exec-Keeps (release_body n) = release_found-Keeps _
  exec-Keeps (release_reap i) = exec_release_reap-Keeps i
  exec-Keeps (wait_body x n) = wait_found-Keeps n _ _
  exec-Keeps (wait_cv i j) = exec_wait_cv-Keeps i j
  exec-Keeps (release_entry n) = exec_release_entry-Keeps n
  exec-Keeps (signal_body y n) = signal_found-Keeps n _ _
  exec-Keeps (signal_reap i) = exec_signal_reap-Keeps i
  exec-Keeps (broadcast_body z n) = broadcast_found-Keeps n _ _
  exec-Keeps create_lock_body = exec_create_lock-Keeps
  exec-Keeps (destroy_lock_body n) = destroy_lock_found-Keeps _
  exec-Keeps create_cv_body = exec_create_cv-Keeps
  exec-Keeps (destroy_cv_body n) = destroy_cv_found-Keeps _

-- Each thread is in at most one place.
abbrev pub Sole : Kernel → Type 0
Sole k = (t : ℕ) → places t k ≤ 1

-- A step of the machine, whichever frame the current thread is at, leaves every thread in as many
-- places as before.
pub step-Keeps : (k : Kernel) → Sole k → Keeps k (step k)
unfolding step step_frames
step-Keeps k sole k' e t = elim (status_cases (k.status k.current)) [
  | inr idle ↦ ground (arith, idle)
  | inl on ↦ go on (k.stack k.current) (ground arith)
]
  where
    go :
        k.status k.current ≡ running
        → (fs : List Frame) → step_frames fs k ≡ ok k'
        → places t k' ≡ places t k
    go on [] h = ground arith
    go on (f ∷ fs) h =
        exec-Keeps (record k { stack = update k.stack k.current fs })
          (record { on = on; sole = sole }) f k' h t
