-- ===== src/Synch/LockMachine.antt =====
-- One lock by itself: an owner and a queue. Acquire and Release act on the lock object as this machine
-- does, whatever else they do to the threads.
use tree_fiddy.Prelude.{
  ℕ, zero, suc, ◌≡◌, refl, ap, ◌⊎◌, true, false, none, some, List, [], ◌∷◌, ◌++◌, count, get_elem?,
  set, if◌then◌else◌, arith,
}
use tree_fiddy.Prelude.Outcome.{ok}
use tree_fiddy.Kernel.{
  Kernel, Lock, int_off, push, set_level, ready_to_run, sleep, dispatch_to, update, blocked,
}
use tree_fiddy.Synch.{acquire, acquire_at, release, release_at, hand_over, held_by, put_lock}

-- Thread t calls Acquire: nothing if it has the lock, the lock if it is free, else the queue's end.
abbrev pub after_acquire : ℕ → Lock → Lock
after_acquire t l =
    if held_by t l.owner
    then l
    else if l.available
    then record l { available = false; owner = some t }
    else record l { waiting_threads = l.waiting_threads ++ t ∷ [] }

abbrev pub hand_on : List ℕ → Lock → Lock
hand_on [] l = record l { available = true; owner = none }
hand_on (w ∷ rest) l = record l { owner = some w; waiting_threads = rest }

-- Thread t calls Release: nothing unless it has the lock, which then goes to the queue's first.
abbrev pub after_release : ℕ → Lock → Lock
after_release t l = if held_by t l.owner then hand_on l.waiting_threads l else l

set_same {ℓ} :
    {A : Type ℓ} (xs : List A) (i : ℕ) (x : A) → get_elem? xs i ≡ some x → xs ≡ set xs i x
set_same [] i x h = refl
set_same (y ∷ xs) zero x h = ground arith
set_same (y ∷ xs) (suc i) x h = ap (λ r. y ∷ r) (set_same xs i x h)

pub dispatch_to-locks : (r : List ℕ) (k : Kernel) → (dispatch_to r k).locks ≡ k.locks
unfolding dispatch_to
dispatch_to-locks [] k = refl
dispatch_to-locks (t ∷ rest) k = refl

pub sleep-locks : (k k' : Kernel) → sleep k ≡ ok k' → k'.locks ≡ k.locks
unfolding sleep
sleep-locks k k' e = ground (
  arith,
  dispatch_to-locks k.ready_list (record k { status = update k.status k.current blocked }),
)

module _ (k k' : Kernel) (a : ℕ) (l : Lock) (found : get_elem? k.locks a ≡ some l) where
  acquire_at-locks : acquire_at a l k ≡ ok k' → k'.locks ≡ set k.locks a (after_acquire k.current l)
  unfolding acquire_at push
  acquire_at-locks e = ground (arith, set_same k.locks a l found, sleep-locks before k')
    where
      before : Kernel
      before =
          record (push (set_level k.level)
            (put_lock a (record l { waiting_threads = l.waiting_threads ++ k.current ∷ [] }) k)) {
              level = int_off;
            }

  -- Acquire acts on the lock as the machine does, and on no other lock.
  pub acquire-locks : acquire a k ≡ ok k' → k'.locks ≡ set k.locks a (after_acquire k.current l)
  unfolding acquire
  acquire-locks e = acquire_at-locks (rw found at e)

  hand_over-locks : (q : List ℕ) → (hand_over a l q k).locks ≡ set k.locks a (hand_on q l)
  unfolding hand_over ready_to_run
  hand_over-locks [] = refl
  hand_over-locks (w ∷ rest) = refl

  release_at-locks : release_at a l k ≡ ok k' → k'.locks ≡ set k.locks a (after_release k.current l)
  unfolding release_at
  release_at-locks e = ground (arith, set_same k.locks a l found, hand_over-locks l.waiting_threads)

  -- So does Release.
  pub release-locks : release a k ≡ ok k' → k'.locks ≡ set k.locks a (after_release k.current l)
  unfolding release
  release-locks e = release_at-locks (rw found at e)

-- A lock is free with nobody waiting, or has an owner that does not wait for it.
abbrev pub IsConsistent : Lock → Type 0
IsConsistent l =
    ((l.available ≡ true) × (l.owner ≡ none) × (l.waiting_threads ≡ []))
    ⊎ ((o : ℕ) × (l.available ≡ false) × (l.owner ≡ some o) × (count o l.waiting_threads ≡ 0))
