-- ===== src/Syscall/Tables.antt =====
-- Creating and destroying locks: what the numbers that the calls return mean.
use tree_fiddy.Prelude.{
  ℕ, zero, suc, ◌<◌, ◌≡◌, ◌≢◌, refl, ap, ◌∙◌, Bool, true, false, Option, none, some, List, [], ◌∷◌,
  ◌++◌, get_elem?, get_elem?-lt, set, get_elem?-set_self, get_elem?-set_ne, if◌then◌else◌, arith,
  inl, inr, Option-cases, length, count, sum_map-append,
}
use tree_fiddy.Prelude.Int.{pos}
use tree_fiddy.Prelude.Outcome.{Outcome, ok, ◌>>=◌}
use tree_fiddy.Kernel.{
  Kernel, Lock, KernelLock, acquire_body, create_lock_body, destroy_lock_body, update,
}
use tree_fiddy.Synch.{at_address, is_empty, new_lock, release}
use tree_fiddy.Synch.Places.{Sound, release-Quiet}
use tree_fiddy.Synch.Waking.{release-SameTables}
use tree_fiddy.Syscall.{
  exec, exec_create_lock, exec_destroy_lock, destroy_lock_found, exec_acquire, acquire_entry,
  live_lock, deleted_lock, put_entry, lock_table_lock, after_destroy,
}

module _ {ℓ} {A : Type ℓ} where
  get_elem?-append_last : (xs : List A) (x : A) → get_elem? (xs ++ x ∷ []) (length xs) ≡ some x
  get_elem?-append_last [] x = refl
  get_elem?-append_last (y ∷ xs) x = get_elem?-append_last xs x

  get_elem?-append_left :
      (xs ys : List A) (j : ℕ) → j < length xs → get_elem? (xs ++ ys) j ≡ get_elem? xs j
  get_elem?-append_left [] ys j h = absurd (omega arith)
  get_elem?-append_left (x ∷ xs) ys zero h = refl
  get_elem?-append_left (x ∷ xs) ys (suc j) h = get_elem?-append_left xs ys j (omega arith)

after_destroy_lem :
    (idle deleted : Bool) (a : ℕ)
    → after_destroy idle deleted a ≡ (if idle then none else some a, true)
after_destroy_lem true true a = refl
after_destroy_lem true false a = refl
after_destroy_lem false true a = refl
after_destroy_lem false false a = refl

live-lt : (k : Kernel) (i a : ℕ) → live_lock k (pos i) ≡ some (i, a) → i < length k.lock_table
live-lt k i a live = elim (Option-cases (get_elem? k.lock_table i)) [
  | inl missing ↦ absurd (ground (arith, missing))
  | inr (e, found) ↦ get_elem?-lt k.lock_table i e found
]

-- Acquire on an entry that is marked as deleted.
acquire_deleted :
    (k : Kernel) (i : ℕ) (o : Option ℕ)
    → get_elem? k.lock_table i ≡ some (record { kernel_lock = o; is_deleted = true })
    → acquire_entry (live_lock k (pos i)) k ≡ release lock_table_lock k
unfolding acquire_entry
acquire_deleted k i none h = ground arith
acquire_deleted k i (some a) h = ground arith

live_entry :
    (t : List KernelLock) (i a : ℕ) (d : Bool) (k : Kernel)
    → k.lock_table ≡ t
    → get_elem? t i ≡ some (record { kernel_lock = some a; is_deleted = d })
    → (live_lock k (pos i) ≡ some (i, a)) × (deleted_lock k i ≡ d)
live_entry t i a d k e h = (ground arith, ground arith)

module _ (k : Kernel) (s : Sound k) (lt : Lock)
    (table : get_elem? k.locks lock_table_lock ≡ some lt) where
  -- CreateLock returns the number of a new live entry, not marked as deleted, for a lock that no entry
  -- had, and leaves every older entry as it was. It never fails.
  pub create_lock_fresh :
      (k' : Kernel) × (exec create_lock_body k ≡ ok k')
      × (k'.result k.current ≡ length k.lock_table)
      × (live_lock k' (pos (length k.lock_table)) ≡ some (length k.lock_table, length k.locks))
      × (deleted_lock k' (length k.lock_table) ≡ false)
      × ((j : ℕ) → j < length k.lock_table → get_elem? k'.lock_table j ≡ get_elem? k.lock_table j)
  unfolding exec exec_create_lock new_lock
  create_lock_fresh =
      let (k', e, q) = release-Quiet made sound lock_table_lock lt (
        get_elem?-append_left k.locks _ lock_table_lock
          (get_elem?-lt k.locks lock_table_lock lt table)
        ∙ table) in
      let t = release-SameTables lock_table_lock made k' e in
      let (live, kept) =
        live_entry made.lock_table (length k.lock_table) (length k.locks) false k' t.lock_table
          (get_elem?-append_last k.lock_table _) in
      (
        k',
        e,
        ap (λ f. f k.current) t.result ∙ ground arith,
        live,
        kept,
        λ j h. ap (λ r. get_elem? r j) t.lock_table ∙ get_elem?-append_left k.lock_table _ j h,
      )
    where
      made : Kernel
      made = record k {
        locks = k.locks ++ record { available = true; owner = none; waiting_threads = [] } ∷ [];
        lock_table =
            k.lock_table ++ record { kernel_lock = some (length k.locks); is_deleted = false } ∷ [];
        result = update k.result k.current (length k.lock_table);
      }

      sound : Sound made
      sound = record {
        on = s.on;
        sole = λ u. omega (
          arith,
          s.sole u,
          sum_map-append (λ (l : Lock). count u l.waiting_threads) k.locks
              (record { available = true; owner = none; waiting_threads = [] } ∷ []),
        );
      }

  -- DestroyLock marks the entry of a live lock as deleted and takes its lock away if nobody waits for
  -- it; it changes no other entry; and from then on Acquire on that number acquires nothing, but only
  -- gives LockTableLock back. It never fails.
  pub destroy_lock_refuses :
      (i a : ℕ) (l : Lock)
      → live_lock k (pos i) ≡ some (i, a)
      → get_elem? k.locks a ≡ some l
      → (k' : Kernel) × (exec (destroy_lock_body (pos i)) k ≡ ok k')
        × (get_elem? k'.lock_table i
            ≡ some (record {
              kernel_lock = if is_empty l.waiting_threads then none else some a;
              is_deleted = true;
            }))
        × ((j : ℕ) → i ≢ j → get_elem? k'.lock_table j ≡ get_elem? k.lock_table j)
        × (exec (acquire_body (pos i)) k' ≡ release lock_table_lock k')
  unfolding exec exec_destroy_lock destroy_lock_found exec_acquire acquire_entry
  destroy_lock_refuses i a l live found =
      let (k', e, q) =
        release-Quiet marked (record { on = s.on; sole = s.sole }) lock_table_lock lt table in
      let t = release-SameTables lock_table_lock marked k' e in
      (
        k',
        ap (λ o. destroy_lock_found o k) live
            ∙ ap (λ o. at_address o >>= leave) found
            ∙ ap (release lock_table_lock) left
            ∙ e,
        ap (λ r. get_elem? r i) t.lock_table ∙ written,
        λ j ne. ap (λ r. get_elem? r j) t.lock_table ∙ get_elem?-set_ne k.lock_table _ ne,
        acquire_deleted k' i _ (ap (λ r. get_elem? r i) t.lock_table ∙ written),
      )
    where
      rest : KernelLock
      rest = record {
        kernel_lock = if is_empty l.waiting_threads then none else some a;
        is_deleted = true;
      }

      marked : Kernel
      marked = record k { lock_table = set k.lock_table i rest }

      leave : Lock → Outcome Kernel
      leave m =
          let r = after_destroy (is_empty m.waiting_threads) (deleted_lock k i) a in
          release lock_table_lock (put_entry i r.0 r.1 k)

      left :
          put_entry i
            (after_destroy (is_empty l.waiting_threads) (deleted_lock k i) a).0
            (after_destroy (is_empty l.waiting_threads) (deleted_lock k i) a).1
            k
          ≡ marked
      left = ap (λ r. put_entry i r.0 r.1 k) (after_destroy_lem _ _ a)

      written : get_elem? (set k.lock_table i rest) i ≡ some rest
      written = get_elem?-set_self k.lock_table i rest (live-lt k i a live)
