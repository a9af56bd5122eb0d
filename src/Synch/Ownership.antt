-- ===== src/Synch/Ownership.antt =====
-- Mutual exclusion: what the calls of Lock keep true of every lock.
use tree_fiddy.Prelude.{
  ℕ, ◌≤◌, ◌≡◌, ◌≢◌, refl, ap, subst, inl, inr, false, some, List, [], ◌∷◌, count, count-append,
  le-sum_map, get_elem?, get_elem?-lt, set, get_elem?-set_self, get_elem?-set_ne, arith, ℕ_discrete,
}
use tree_fiddy.Prelude.Outcome.{Outcome, ok}
use tree_fiddy.Kernel.{Kernel, Lock}
use tree_fiddy.Synch.{acquire, release}
use tree_fiddy.Synch.Places.{Sound, acquire-Trades, release-Quiet}
use tree_fiddy.Synch.LockMachine.{
  after_acquire, after_release, hand_on, IsConsistent, acquire-locks, release-locks,
}

after_acquire-IsConsistent :
    (t : ℕ) (l : Lock)
    → IsConsistent l
    → count t l.waiting_threads ≡ 0
    → IsConsistent (after_acquire t l)
after_acquire-IsConsistent t l (inl (free, nobody, empty)) h =
    inr (t, ground arith, ground arith, ground arith)
after_acquire-IsConsistent t l (inr (o, busy, mine, apart)) h =
    inr (o, ground arith, ground arith, ground (arith, count-append o l.waiting_threads (t ∷ [])))

hand_on-IsConsistent :
    (q : List ℕ) (l : Lock)
    → l.waiting_threads ≡ q
    → l.available ≡ false
    → ((t : ℕ) → count t q ≤ 1)
    → IsConsistent (hand_on q l)
hand_on-IsConsistent [] l e busy once = inl (refl, refl, e)
hand_on-IsConsistent (w ∷ rest) l e busy once = inr (w, busy, refl, ground (arith, once w))

after_release-IsConsistent :
    (t : ℕ) (l : Lock)
    → IsConsistent l
    → ((u : ℕ) → count u l.waiting_threads ≤ 1)
    → IsConsistent (after_release t l)
after_release-IsConsistent t l (inl (free, nobody, empty)) once =
    inl (ground arith, ground arith, ground arith)
after_release-IsConsistent t l (inr (o, busy, mine, apart)) once = elim (ℕ_discrete o t) [
  | yes e ↦ rw (after_release_owner e) (hand_on-IsConsistent l.waiting_threads l refl busy once)
  | no ne ↦ rw (after_release_other ne) (inr (o, busy, mine, apart))
]
  where
    after_release_owner : o ≡ t → after_release t l ≡ hand_on l.waiting_threads l
    after_release_owner e = ground arith

    after_release_other : o ≢ t → after_release t l ≡ l
    after_release_other ne = ground arith

-- Every lock is consistent.
abbrev pub Consistent : Kernel → Type 0
Consistent k = (b : ℕ) (m : Lock) → get_elem? k.locks b ≡ some m → IsConsistent m

set-Consistent :
    (k k' : Kernel) (a : ℕ) (l l' : Lock)
    → get_elem? k.locks a ≡ some l
    → k'.locks ≡ set k.locks a l'
    → IsConsistent l'
    → Consistent k
    → Consistent k'
set-Consistent k k' a l l' found e c all b m h = elim (ℕ_discrete a b) [
  | yes same ↦ subst IsConsistent (written same) c
  | no other ↦
      all b m (ground (arith, ap (λ r. get_elem? r b) e, get_elem?-set_ne k.locks l' other))
]
  where
    written : a ≡ b → l' ≡ m
    written same = ground (
      arith,
      ap (λ r. get_elem? r b) e,
      get_elem?-set_self k.locks a l' (get_elem?-lt k.locks a l found),
    )

abbrev pub HasOwner : Kernel → ℕ → ℕ → Type 0
HasOwner k b o = (m : Lock) × (get_elem? k.locks b ≡ some m) × (m.owner ≡ some o)

-- The call ends with thread o as the owner of lock b.
abbrev pub OwnedBy : ℕ → ℕ → Outcome Kernel → Type 0
OwnedBy b o r = (k' : Kernel) × (r ≡ ok k') × HasOwner k' b o

-- A lock with an owner has it still after a write that leaves the owner of lock a.
set_owner :
    (k k' : Kernel) (a b o : ℕ) (l l' m : Lock)
    → get_elem? k.locks a ≡ some l
    → get_elem? k.locks b ≡ some m
    → m.owner ≡ some o
    → k'.locks ≡ set k.locks a l'
    → (l.owner ≡ some o → l'.owner ≡ some o)
    → HasOwner k' b o
set_owner k k' a b o l l' m found h own e keep = elim (ℕ_discrete a b) [
  | yes same ↦ (
    l',
    ground (
      arith,
      ap (λ r. get_elem? r b) e,
      get_elem?-set_self k.locks a l' (get_elem?-lt k.locks a l found),
    ),
    keep (ground arith),
  )
  | no other ↦
      (m, ground (arith, ap (λ r. get_elem? r b) e, get_elem?-set_ne k.locks l' other), own)
]

module _ (k : Kernel) (s : Sound k) (all : Consistent k) (a : ℕ) (l : Lock)
    (found : get_elem? k.locks a ≡ some l) where
  queued_once : (t : ℕ) → count t l.waiting_threads ≤ 1
  queued_once t =
      ground (arith, s.sole t, le-sum_map (λ l. count t l.waiting_threads) k.locks a l found)

  current_not_queued : count k.current l.waiting_threads ≡ 0
  current_not_queued = ground (
    arith,
    s.on,
    s.sole k.current,
    le-sum_map (λ l. count k.current l.waiting_threads) k.locks a l found,
  )

  acquired-Consistent : (k' : Kernel) → acquire a k ≡ ok k' → Consistent k'
  acquired-Consistent k' e =
      set-Consistent k k' a l _ found (acquire-locks k k' a l found e)
        (after_acquire-IsConsistent k.current l (all a l found) current_not_queued) all

  released-Consistent : (k' : Kernel) → release a k ≡ ok k' → Consistent k'
  released-Consistent k' e =
      set-Consistent k k' a l _ found (release-locks k k' a l found e)
        (after_release-IsConsistent k.current l (all a l found) queued_once) all

  -- Acquire and Release of a lock never fail and keep every lock consistent: free with an empty queue,
  -- or owned by one thread that is not in its queue.
  pub acquire-release-Consistent :
      ((k' : Kernel) × (acquire a k ≡ ok k') × Consistent k')
      × ((k' : Kernel) × (release a k ≡ ok k') × Consistent k')
  acquire-release-Consistent =
      let (k₁, e₁, moved) = acquire-Trades k s a l found in
      let (k₂, e₂, quiet) = release-Quiet k s a l found in
      ((k₁, e₁, acquired-Consistent k₁ e₁), (k₂, e₂, released-Consistent k₂ e₂))

  -- Only its owner gives a lock up: whatever lock another thread acquires or releases, a lock that
  -- has an owner keeps it.
  pub owner_keeps_lock :
      (b : ℕ) (m : Lock) (o : ℕ)
      → get_elem? k.locks b ≡ some m
      → m.owner ≡ some o
      → k.current ≢ o
      → OwnedBy b o (acquire a k) × OwnedBy b o (release a k)
  owner_keeps_lock b m o h own ne =
      let (k₁, e₁, moved) = acquire-Trades k s a l found in
      let (k₂, e₂, quiet) = release-Quiet k s a l found in
      (
        (
          k₁,
          e₁,
          set_owner k k₁ a b o l _ m found h own (acquire-locks k k₁ a l found e₁)
              (λ mine. ground (arith, all a l found)),
        ),
        (
          k₂,
          e₂,
          set_owner k k₂ a b o l _ m found h own (release-locks k k₂ a l found e₂)
              (λ mine. ground (arith, all a l found)),
        ),
      )
