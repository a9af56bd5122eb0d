-- ===== src/Syscall/Stuck.antt =====
-- The deadlock of Acquire_Syscall in Project 2/code/userprog/exception.cc: the asking thread and the lock's
-- owner wait for each other.
use tree_fiddy.Prelude.{
  ℕ, zero, suc, ◌≡◌, refl, sym, ◌∙◌, ap, false, some, List, [], ◌∷◌, ◌++◌, get_elem?,
  get_elem?-set_ne, get_elem?-set_self, get_elem?-lt, arith,
}
use tree_fiddy.Prelude.Int.{ℤ}
use tree_fiddy.Prelude.Outcome.{Outcome, ok, fault, ◌>>=◌}
use tree_fiddy.Kernel.{Kernel, Lock, running, blocked, set_level, release_lock, release_body}
use tree_fiddy.Kernel.Places.{places}
use tree_fiddy.Synch.Places.{Sound}
use tree_fiddy.Syscall.{acquire_call, release_call, enter, step, steps, lock_table_lock}
use tree_fiddy.Syscall.Places.{Sole, step-Keeps}
use tree_fiddy.Syscall.Run.{enter-places}
use tree_fiddy.Syscall.Deadlock.{
  Contended, taken, acquire_keeps_table_lock, table_lock_blocks, releasing,
}

steps-Keeps :
    (n : ℕ) (k k' : Kernel) → Sole k → steps n k ≡ ok k' → (t : ℕ) → places t k' ≡ places t k
unfolding steps
steps-Keeps zero k k' sole e t = ground arith
steps-Keeps (suc n) k k' sole e t = go (step k) refl e (steps-Keeps n)
  where
    go :
        (r : Outcome Kernel)
        → step k ≡ r
        → r >>= steps n ≡ ok k'
        → ((k₁ k' : Kernel) → Sole k₁ → steps n k₁ ≡ ok k' → (t : ℕ) → places t k' ≡ places t k₁)
        → places t k' ≡ places t k
    go fault first h later = absurd (ground arith)
    go (ok k₁) first h later =
        let before = step-Keeps k sole k₁ first in
        later k₁ k' (λ u. omega (arith, before u, sole u)) h t ∙ before t

module _ (k : Kernel) (s : Sound k) (lt : Lock)
    (found : get_elem? k.locks lock_table_lock ≡ some lt) (n m : ℤ) (i a o : ℕ) (l : Lock)
    (c : Contended k s lt found n i a o l) (rest : List ℕ) (turn : k.ready_list ≡ o ∷ rest) where
  -- The asking thread sleeps on the queue of lock a with LockTableLock in its hands, and then the owner of
  -- lock a, which still has it, sleeps on the queue of LockTableLock.
  pub record Stuck (k' k'' : Kernel) : Type 0 where
    pub asked : steps 2 (enter (acquire_call n) k) ≡ ok k'
    pub asker_sleeps : k'.status k.current ≡ blocked
    pub owner_next : (k'.current ≡ o) × (k'.status o ≡ running)
    pub released : step (enter (release_call m) k') ≡ ok k''
    pub owner_sleeps : k''.status o ≡ blocked
    pub asker_kept :
        k''.stack k.current ≡ set_level k.level ∷ release_lock lock_table_lock ∷ k.stack k.current
    pub table_lock_kept :
        get_elem? k''.locks lock_table_lock
        ≡ some (record lt {
          available = false;
          owner = some k.current;
          waiting_threads = lt.waiting_threads ++ o ∷ [];
        })
    pub lock_kept :
        get_elem? k''.locks a
        ≡ some (record l { waiting_threads = l.waiting_threads ++ k.current ∷ [] })

  -- With LockTableLock free and the owner of a lock next to run, Acquire_Syscall of that lock by another
  -- thread puts its caller to sleep and the owner on the processor, and a Release_Syscall of the owner, of
  -- any lock, then puts the owner to sleep as well: it waits for LockTableLock, which the first thread
  -- has, and the first thread waits for the owner's lock, which the owner still has.
  pub acquire-release-Stuck : (k' k'' : Kernel) × Stuck k' k''
  acquire-release-Stuck =
      let (k', asks, table, queue, asleep) = acquire_keeps_table_lock k s lt found n i a o l c in
      let (now, on, left) = asleep.next o rest turn in
      let kept =
        steps-Keeps 2 (enter (acquire_call n) k) k'
          (λ t. omega (arith, s.sole t, enter-places (acquire_call n) k s.on t)) asks in
      let sound : Sound k' = record {
        on = rw now on;
        sole = λ t. omega (arith, kept t, s.sole t, enter-places (acquire_call n) k s.on t);
      } in
      let (k'', releases, changed, sleeping) =
        table_lock_blocks k' sound (taken k s lt found) table k.current refl refl
          (λ e. c.other (sym (e ∙ now))) (release_call m) (release_body m) releasing in
      (
        k',
        k'',
        record {
          asked = asks;
          asker_sleeps = asleep.sleeps;
          owner_next = (now, on);
          released = releases;
          owner_sleeps = ap k''.status (sym now) ∙ sleeping.sleeps;
          asker_kept = sleeping.others k.current (λ e. c.other (sym now ∙ e)) ∙ asleep.left;
          table_lock_kept =
              ap (λ ls. get_elem? ls lock_table_lock) changed
              ∙ get_elem?-set_self k'.locks lock_table_lock _
                  (get_elem?-lt k'.locks lock_table_lock _ table)
              ∙ ap
                  (λ u. some (record lt {
                    available = false;
                    owner = some k.current;
                    waiting_threads = lt.waiting_threads ++ u ∷ [];
                  }))
                  now;
          lock_kept =
              ap (λ ls. get_elem? ls a) changed ∙ get_elem?-set_ne k'.locks _ c.apart ∙ queue;
        },
      )
