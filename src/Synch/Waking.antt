-- ===== src/Synch/Waking.antt =====
-- Who is woken, in which order, and what becomes of the interrupt level.
use tree_fiddy.Prelude.{
  ℕ, ◌≡◌, refl, ap, true, false, Option, none, some, List, [], ◌∷◌, get_elem?, if◌then◌else◌, arith,
  Option-cases, inl, inr,
}
use tree_fiddy.Prelude.Outcome.{ok}
use tree_fiddy.Kernel.{
  Kernel, Lock, Condition, int_off, ready_to_run, push, signal_cv, broadcast_cv,
}
use tree_fiddy.Synch.{
  acquire, acquire_at, release, release_at, hand_over, held_by, put_lock, signal, signal_wake,
  broadcast, put_condition, is_empty, same_address,
}

module _ (k : Kernel) (a : ℕ) (l : Lock) (found : get_elem? k.locks a ≡ some l) where
  pub acquire_free :
      held_by k.current l.owner ≡ false
      → l.available ≡ true
      → acquire a k ≡ ok (put_lock a (record l { available = false; owner = some k.current }) k)
  unfolding acquire acquire_at
  acquire_free other free = rw found (ground arith)

  release_owned : l.owner ≡ some k.current → release a k ≡ ok (hand_over a l l.waiting_threads k)
  unfolding release release_at
  release_owned mine = rw found (ground arith)

  hand_over_masks : (q : List ℕ) → (hand_over a l q k).level ≡ int_off
  unfolding hand_over ready_to_run
  hand_over_masks [] = refl
  hand_over_masks (w ∷ rest) = refl

  -- A Release that gives the lock up never turns interrupts on again, whatever they were before:
  -- it saves the level and returns without restoring it.
  pub release_masks :
      l.owner ≡ some k.current → (k' : Kernel) × (release a k ≡ ok k') × (k'.level ≡ int_off)
  release_masks mine =
      (hand_over a l l.waiting_threads k, release_owned mine, hand_over_masks l.waiting_threads)

module _ (k : Kernel) (a : ℕ) (c : Condition) (found : get_elem? k.conditions a ≡ some c) where
  -- A Signal with another lock than the waiters' changes nothing.
  pub signal_wrong :
      (lock : Option ℕ) → same_address lock c.waiting_lock ≡ false → signal a lock k ≡ ok k
  unfolding signal
  signal_wrong lock wrong = rw found (ap ok (go c.waiting_cv))
    where
      go : (q : List ℕ) → signal_wake a c lock q k ≡ k
      go [] = refl
      go (w ∷ rest) = rw wrong refl

  pub signal_first :
      (lock : Option ℕ) (w : ℕ) (rest : List ℕ)
      → same_address lock c.waiting_lock ≡ true
      → c.waiting_cv ≡ w ∷ rest
      → signal a lock k
        ≡ ok (
            ready_to_run w (
              put_condition a
                (record {
                  waiting_lock = if is_empty rest then none else c.waiting_lock;
                  waiting_cv = rest;
                })
                k))
  unfolding signal signal_wake
  signal_first lock w rest right e = rw (found, e, right) refl

pub broadcast_done :
    (k : Kernel) (a : ℕ) (lock : Option ℕ) (c : Condition)
    → get_elem? k.conditions a ≡ some c
    → is_empty c.waiting_cv ≡ true
    → broadcast a lock k ≡ ok k
unfolding broadcast
broadcast_done k a lock c found e = rw (found, e)

pub broadcast_more :
    (k : Kernel) (a : ℕ) (lock : Option ℕ) (c : Condition)
    → get_elem? k.conditions a ≡ some c
    → is_empty c.waiting_cv ≡ false
    → broadcast a lock k ≡ ok (push (signal_cv a lock) (push (broadcast_cv a lock) k))
unfolding broadcast
broadcast_more k a lock c found e = rw (found, e)

-- What Release leaves alone.
pub record SameTables (k k' : Kernel) : Type 0 where
  pub lock_table : k'.lock_table ≡ k.lock_table
  pub cv_table : k'.cv_table ≡ k.cv_table
  pub result : k'.result ≡ k.result
  pub current : k'.current ≡ k.current

hand_over-SameTables :
    (a : ℕ) (l : Lock) (q : List ℕ) (k : Kernel) → SameTables k (hand_over a l q k)
unfolding hand_over ready_to_run
hand_over-SameTables a l [] k = record {
  lock_table = refl;
  cv_table = refl;
  result = refl;
  current = refl;
}
hand_over-SameTables a l (w ∷ rest) k = record {
  lock_table = refl;
  cv_table = refl;
  result = refl;
  current = refl;
}

release_at-SameTables :
    (a : ℕ) (l : Lock) (k k' : Kernel) → release_at a l k ≡ ok k' → SameTables k k'
unfolding release_at
release_at-SameTables a l k k' e = ground (arith, hand_over-SameTables a l l.waiting_threads k)

pub release-SameTables : (a : ℕ) (k k' : Kernel) → release a k ≡ ok k' → SameTables k k'
unfolding release
release-SameTables a k k' e = elim (Option-cases (get_elem? k.locks a)) [
  | inl missing ↦ absurd (impossible missing)
  | inr (l, f) ↦ release_at-SameTables a l k k' (rw f at e)
]
  where
    impossible : get_elem? k.locks a ≡ none → ⊥
    impossible missing = cc (rw missing at e)
