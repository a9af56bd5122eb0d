-- ===== src/Synch/Calls.antt =====
-- The calls of synch.cc together, up to their first sleep: none loses a thread.
use tree_fiddy.Prelude.{
  ℕ, refl, Option, none, some, get_elem?, Bool-cases, Option-cases, inl, inr, arith, ◌≡◌,
}
use tree_fiddy.Prelude.Outcome.{Outcome, ok, fault, ◌>>=◌}
use tree_fiddy.Kernel.{Kernel, Lock, Condition, Semaphore, push, signal_cv, broadcast_cv, IntStatus}
use tree_fiddy.Synch.{
  at_address, acquire_at, release_at, p_from_loop, acquire, release, wait, signal, broadcast, p, v,
  is_empty,
}
use tree_fiddy.Kernel.Places.{places, level_cases}
use tree_fiddy.Synch.Places.{Trades, Sound, acquire-Trades, release-Quiet}
use tree_fiddy.Synch.Conditions.{signal-Goes, wait-Trades, wait_at-Trades, wait_missing}
use tree_fiddy.Synch.Semaphores.{p-Trades, p_from_loop-Trades, p_from_loop_unmasked, v-Goes}

-- A call up to its end or its first sleep; of Broadcast, a single test of its loop.
pub data Call : Type 0 where
  acquires releases downs ups : ℕ → Call
  waits : ℕ → ℕ → Call
  signals broadcasts : ℕ → Option ℕ → Call

unfoldable pub call : Call → Kernel → Outcome Kernel
call (acquires a) = acquire a
call (releases a) = release a
call (downs a) = p a
call (ups a) = v a
call (waits a lock) = wait a (some lock)
call (signals a lock) = signal a lock
call (broadcasts a lock) = broadcast a lock

-- The objects that a call uses are there.
abbrev pub HasObjects : Kernel → Call → Type 0
HasObjects k (acquires a) = (l : Lock) × (get_elem? k.locks a ≡ some l)
HasObjects k (releases a) = (l : Lock) × (get_elem? k.locks a ≡ some l)
HasObjects k (downs a) = (m : Semaphore) × (get_elem? k.semaphores a ≡ some m)
HasObjects k (ups a) = (m : Semaphore) × (get_elem? k.semaphores a ≡ some m)
HasObjects k (waits a lock) =
    (c : Condition) × (l : Lock) × (get_elem? k.conditions a ≡ some c)
    × (get_elem? k.locks lock ≡ some l)
HasObjects k (signals a lock) = (c : Condition) × (get_elem? k.conditions a ≡ some c)
HasObjects k (broadcasts a lock) = (c : Condition) × (get_elem? k.conditions a ≡ some c)

pub broadcast-Trades :
    (k : Kernel) (a : ℕ) (lock : Option ℕ) (c : Condition)
    → get_elem? k.conditions a ≡ some c
    → Trades k (broadcast a lock k)
unfolding broadcast push
broadcast-Trades k a lock c found = elim (Bool-cases (is_empty c.waiting_cv)) [
  | inl done ↦ (k, rw (found, done), λ t. refl)
  | inr more ↦ (push (signal_cv a lock) (push (broadcast_cv a lock) k), rw (found, more), λ t. refl)
]

-- With their objects there, Acquire, Release, P, V, Wait and Signal, each up to its end or to its first
-- sleep, and a single test of Broadcast's loop meet no fault when the running thread makes them, and
-- leave every thread in exactly as many places (processor, ready list, queues of locks, condition
-- variables and semaphores) as before.
pub call-Trades : (k : Kernel) (c : Call) → Sound k → HasObjects k c → Trades k (call c k)
unfolding call
call-Trades k (acquires a) s (l, f) = acquire-Trades k s a l f
call-Trades k (releases a) s (l, f) = let (k', e, q) = release-Quiet k s a l f in (k', e, q.moved)
call-Trades k (downs a) s (m, f) = p-Trades k s a m f
call-Trades k (ups a) s (m, f) = let (k', e, q) = v-Goes k s a m f in (k', e, q.moved)
call-Trades k (waits a lock) s (c, l, f, g) = wait-Trades k s a c f lock l g
call-Trades k (signals a lock) s (c, f) =
    let (k', e, q) = signal-Goes k s a c f lock in (k', e, q.moved)
call-Trades k (broadcasts a lock) s (c, f) = broadcast-Trades k a lock c f

-- If the call ends, it ends with every thread in as many places as before.
abbrev pub Keeps : Kernel → Outcome Kernel → Type 0
Keeps k r = (k' : Kernel) → r ≡ ok k' → (t : ℕ) → places t k' ≡ places t k

Trades-Keeps : (k : Kernel) (r : Outcome Kernel) → Trades k r → Keeps k r
Trades-Keeps k r (k₁, e, moved) k' e' t = ground (arith, moved t)

pub at_address-Keeps {ℓ} :
    {A : Type ℓ} (k : Kernel) (o : Option A) (f : A → Outcome Kernel)
    → ((x : A) → o ≡ some x → Keeps k (f x))
    → Keeps k (at_address o >>= f)
at_address-Keeps k none f h = λ k' e t. cc
at_address-Keeps k (some x) f h = h x refl

p_missing :
    (k : Kernel) (a : ℕ) (inter : IntStatus)
    → get_elem? k.semaphores a ≡ none
    → p_from_loop a inter k ≡ fault
unfolding p_from_loop
p_missing k a inter missing = rw missing refl

module _ (k : Kernel) (s : Sound k) where
  pub acquire-Keeps : (a : ℕ) → Keeps k (acquire a k)
  unfolding acquire
  acquire-Keeps a =
      at_address-Keeps k (get_elem? k.locks a) (λ l. acquire_at a l k)
        (λ l f. Trades-Keeps k _ (rw f at (acquire-Trades k s a l f)))

  pub release-Keeps : (a : ℕ) → Keeps k (release a k)
  unfolding release call
  release-Keeps a =
      at_address-Keeps k (get_elem? k.locks a) (λ l. release_at a l k)
        (λ l f. Trades-Keeps k _ (rw f at (call-Trades k (releases a) s (l, f))))

  pub signal-Keeps : (a : ℕ) (lock : Option ℕ) → Keeps k (signal a lock k)
  unfolding signal call
  signal-Keeps a lock =
      at_address-Keeps k (get_elem? k.conditions a) _
        (λ c f. Trades-Keeps k _ (rw f at (call-Trades k (signals a lock) s (c, f))))

  pub broadcast-Keeps : (a : ℕ) (lock : Option ℕ) → Keeps k (broadcast a lock k)
  unfolding broadcast call
  broadcast-Keeps a lock =
      at_address-Keeps k (get_elem? k.conditions a) _
        (λ c f. Trades-Keeps k _ (rw f at (call-Trades k (broadcasts a lock) s (c, f))))

  pub p_from_loop-Keeps : (a : ℕ) (inter : IntStatus) → Keeps k (p_from_loop a inter k)
  p_from_loop-Keeps a inter = elim (Option-cases (get_elem? k.semaphores a)) [
    | inl missing ↦ λ k' e t. cc (e, p_missing k a inter missing)
    | inr (m, f) ↦ elim (level_cases k.level) [
      | inl off ↦ Trades-Keeps k _ (p_from_loop-Trades k s a m f inter off)
      | inr on ↦ p_from_loop_unmasked k a m f inter on
    ]
  ]

  pub wait-Keeps : (a : ℕ) (lock : Option ℕ) → Keeps k (wait a lock k)
  unfolding wait
  wait-Keeps a none = λ k' e t. ground arith
  wait-Keeps a (some lock) = at_address-Keeps k (get_elem? k.conditions a) _ (λ c f.
      elim (Option-cases (get_elem? k.locks lock)) [
        | inl missing ↦ wait_missing k a c f lock missing
        | inr (l, g) ↦ Trades-Keeps k _ (wait_at-Trades k s a c f lock l g)
      ])
