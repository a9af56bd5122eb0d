-- ===== src/Syscall/Deadlock.antt =====
-- Acquire_Syscall keeps LockTableLock while it waits for the lock asked for.
use tree_fiddy.Prelude.{
  ℕ, ◌≡◌, ◌≢◌, refl, sym, ap, count, sum_map-set, ◌∙◌, true, false, none, some, List, [], ◌∷◌, ◌++◌,
  get_elem?, get_elem?-lt, set, get_elem?-set_self, get_elem?-set_ne, if◌then◌else◌, arith,
}
use tree_fiddy.Prelude.Int.{ℤ}
use tree_fiddy.Prelude.Outcome.{ok}
use tree_fiddy.Kernel.{
  Kernel, Lock, Frame, set_level, acquire_lock, release_lock, acquire_body, release_body,
  create_lock_body, destroy_lock_body, push,
}
use tree_fiddy.Synch.{acquire, release, put_lock}
use tree_fiddy.Synch.Places.{Sound}
use tree_fiddy.Synch.Sleeping.{Asleep, acquire-Asleep}
use tree_fiddy.Synch.Waking.{acquire_free}
use tree_fiddy.Syscall.{
  Call, acquire_call, release_call, create_lock_call, destroy_lock_call, enter, step, steps, exec,
  exec_acquire, acquire_entry, live_lock, deleted_lock, lock_table_lock,
}
use tree_fiddy.Syscall.Broadcast.{GoesOn, popped, step_lem}

-- The calls that begin by acquiring LockTableLock, each with the rest of its body.
pub data LockTableCall : Call → Frame → Type 0 where
  acquiring : {n : ℤ} → LockTableCall (acquire_call n) (acquire_body n)
  releasing : {n : ℤ} → LockTableCall (release_call n) (release_body n)
  creating : LockTableCall create_lock_call create_lock_body
  destroying : {n : ℤ} → LockTableCall (destroy_lock_call n) (destroy_lock_body n)

-- Frame f runs in kernel k as a fresh acquisition of lock a.
acquires_first :
    (k : Kernel) (a : ℕ) (fs : List Frame)
    → GoesOn k (acquire_lock a) fs
    → step k ≡ acquire a (popped k fs)
unfolding exec
acquires_first k a fs g = step_lem k (acquire_lock a) fs g

module _ (k : Kernel) (s : Sound k) (lt : Lock)
    (found : get_elem? k.locks lock_table_lock ≡ some lt) where
  abbrev begun : Frame → (ℕ → ℕ) → Kernel
  begun body res = push (acquire_lock lock_table_lock) (push body (record k { result = res }))

  begun-GoesOn :
      (body : Frame) (res : ℕ → ℕ)
      → GoesOn (begun body res) (acquire_lock lock_table_lock) (body ∷ k.stack k.current)
  unfolding push
  begun-GoesOn body res = record { on = s.on; frames = ground arith }

  begun_acquires :
      (body : Frame) (res : ℕ → ℕ)
      → step (begun body res)
        ≡ acquire lock_table_lock (popped (begun body res) (body ∷ k.stack k.current))
  begun_acquires body res =
      acquires_first (begun body res) lock_table_lock _ (begun-GoesOn body res)

  module _ (t : ℕ) (held : lt.owner ≡ some t) (busy : lt.available ≡ false)
      (other : t ≢ k.current) where
    -- The caller is at the end of the table lock's queue and sleeps, with its whole body still to do.
    abbrev Queued : Frame → Kernel → Type 0
    Queued body k₀ =
        (k' : Kernel) × (step k₀ ≡ ok k')
        × (k'.locks
            ≡ set k.locks lock_table_lock
                (record lt { waiting_threads = lt.waiting_threads ++ k.current ∷ [] }))
        × Asleep k k' (set_level k.level ∷ body ∷ k.stack k.current)

    begun_waits : (body : Frame) (res : ℕ → ℕ) → Queued body (begun body res)
    unfolding push
    begun_waits body res =
        let (k', e, changed, asleep) =
          acquire-Asleep ready_state (record { on = s.on; sole = s.sole }) lock_table_lock lt found
            (ground arith) busy in
        (
          k',
          begun_acquires body res ∙ e,
          changed,
          record {
            sleeps = asleep.sleeps;
            left = asleep.left ∙ ground arith;
            others = λ u ne. asleep.others u ne ∙ ground arith;
            next = asleep.next;
            idle = asleep.idle;
          },
        )
      where
        ready_state : Kernel
        ready_state = popped (begun body res) (body ∷ k.stack k.current)

    -- While another thread has LockTableLock, every call on the lock table, Release included, puts its
    -- caller to the end of that lock's queue and to sleep before it does anything of its body: no other
    -- lock and no other thread's stack changes, and the next ready thread goes on.
    pub table_lock_blocks :
        (c : Call) (body : Frame) → LockTableCall c body → Queued body (enter c k)
    unfolding enter push
    table_lock_blocks c body acquiring = begun_waits body _
    table_lock_blocks c body releasing = begun_waits body _
    table_lock_blocks c body creating = begun_waits body _
    table_lock_blocks c body destroying = begun_waits body _

  -- A thread asks for lock a, number n, which thread o has.
  pub record Contended (n : ℤ) (i a o : ℕ) (l : Lock) : Type 0 where
    pub entry : live_lock k n ≡ some (i, a)
    pub kept : deleted_lock k i ≡ false
    pub lock : get_elem? k.locks a ≡ some l
    pub apart : lock_table_lock ≢ a
    pub owner : l.owner ≡ some o
    pub busy : l.available ≡ false
    pub other : o ≢ k.current
    pub table_free : (lt.available ≡ true) × (lt.owner ≡ none)

  abbrev pub taken : Lock
  taken = record lt { available = false; owner = some k.current }

  module _ (n : ℤ) (i a o : ℕ) (l : Lock) (c : Contended n i a o l) where
    first :
        step (enter (acquire_call n) k)
        ≡ ok (
            put_lock lock_table_lock taken
              (popped (enter (acquire_call n) k) (acquire_body n ∷ k.stack k.current)))
    unfolding enter push
    first =
        begun_acquires (acquire_body n) _
        ∙ acquire_free _ lock_table_lock lt found (ground (arith, c.table_free)) (c.table_free.0)

    abbrev holding : Kernel
    holding =
        put_lock lock_table_lock taken
          (popped (enter (acquire_call n) k) (acquire_body n ∷ k.stack k.current))

    second :
        step holding
        ≡ acquire a (push (release_lock lock_table_lock) (popped holding (k.stack k.current)))
    unfolding enter push exec exec_acquire acquire_entry
    second =
        step_lem holding (acquire_body n) (k.stack k.current)
          (record { on = s.on; frames = ground arith })
        ∙ ap (λ e. acquire_entry e asked) c.entry
        ∙ ap
            (λ b.
              if b
              then release lock_table_lock asked
              else acquire a (push (release_lock lock_table_lock) asked))
            c.kept
      where
        asked : Kernel
        asked = popped holding (k.stack k.current)

    -- With LockTableLock free, asking for a lock that another thread has puts the caller to the end of that lock's queue and to
    -- sleep with LockTableLock in its hands: it gives LockTableLock back only when it runs again. The
    -- next ready thread goes on.
    pub acquire_keeps_table_lock :
        (k' : Kernel) × (steps 2 (enter (acquire_call n) k) ≡ ok k')
        × (get_elem? k'.locks lock_table_lock ≡ some taken)
        × (get_elem? k'.locks a
            ≡ some (record l { waiting_threads = l.waiting_threads ++ k.current ∷ [] }))
        × Asleep k k' (set_level k.level ∷ release_lock lock_table_lock ∷ k.stack k.current)
    unfolding steps push enter
    acquire_keeps_table_lock =
        let (k', e, changed, asleep) =
          acquire-Asleep asking sound a l still (ground (arith, c.owner, c.other)) c.busy in
        (
          k',
          rw (first, second) (rw e refl),
          ap (λ ls. get_elem? ls lock_table_lock) changed
              ∙ get_elem?-set_ne asking.locks queued (λ same. c.apart (sym same))
              ∙ get_elem?-set_self k.locks lock_table_lock taken
                  (get_elem?-lt k.locks lock_table_lock lt found),
          ap (λ ls. get_elem? ls a) changed
              ∙ get_elem?-set_self asking.locks a queued (get_elem?-lt asking.locks a l still),
          record {
            sleeps = asleep.sleeps;
            left = asleep.left ∙ ground arith;
            others = λ u ne. asleep.others u ne ∙ ground arith;
            next = asleep.next;
            idle = asleep.idle;
          },
        )
      where
        asking : Kernel
        asking = push (release_lock lock_table_lock) (popped holding (k.stack k.current))

        queued : Lock
        queued = record l { waiting_threads = l.waiting_threads ++ k.current ∷ [] }

        still : get_elem? asking.locks a ≡ some l
        still = get_elem?-set_ne k.locks taken c.apart ∙ c.lock

        sound : Sound asking
        sound = record {
          on = s.on;
          sole = λ t. omega (
            arith,
            s.sole t,
            sum_map-set (λ l. count t l.waiting_threads) k.locks lock_table_lock lt taken found,
          );
        }
