-- ===== src/Syscall/Broadcast.antt =====
-- Condition::Broadcast, frame by frame.
use tree_fiddy.Prelude.{
  ℕ, zero, suc, ◌≡◌, refl, sym, ap, ◌∙◌, ◌⊎◌, inl, inr, false, Option, none, some, List, [], ◌∷◌,
  ◌++◌, get_elem?, get_elem?-lt, get_elem?-set_self, if◌then◌else◌, arith, fun_ext, count,
  ℕ_discrete,
}
use mathlib.Core.List.{append-nil, append_assoc}
use tree_fiddy.Prelude.Outcome.{ok}
use tree_fiddy.Kernel.{
  Kernel, Condition, Frame, running, signal_cv, broadcast_cv, push, update, ready_to_run,
}
use tree_fiddy.Synch.{signal, put_condition, is_empty, same_address}
use tree_fiddy.Synch.Waking.{signal_wrong, signal_first, broadcast_done, broadcast_more}
use tree_fiddy.Syscall.{step, steps, step_frames, exec}

-- The current thread goes on with frame f and then fs.
pub record GoesOn (k : Kernel) (f : Frame) (fs : List Frame) : Type 0 where
  pub on : k.status k.current ≡ running
  pub frames : k.stack k.current ≡ f ∷ fs

abbrev pub popped : Kernel → List Frame → Kernel
popped k fs = record k { stack = update k.stack k.current fs }

pub step_lem :
    (k : Kernel) (f : Frame) (fs : List Frame) → GoesOn k f fs → step k ≡ exec f (popped k fs)
unfolding step step_frames
step_lem k f fs g = rw (g.on, step) (rw (g.frames, step_frames) refl)

module _ (a : ℕ) (lock : Option ℕ) (fs : List Frame) where
  -- The loop with a Signal before it.
  abbrev signalling : Kernel → Kernel
  signalling k = push (signal_cv a lock) (push (broadcast_cv a lock) (popped k fs))

  -- The stack as a Signal of the loop finds it and leaves it.
  abbrev looping : Kernel → Kernel
  looping k = popped k (broadcast_cv a lock ∷ fs)

  first_step :
      (k : Kernel) (c : Condition)
      → GoesOn k (broadcast_cv a lock) fs
      → get_elem? k.conditions a ≡ some c
      → is_empty c.waiting_cv ≡ false
      → step k ≡ ok (signalling k)
  unfolding exec
  first_step k c g found more =
      step_lem k (broadcast_cv a lock) fs g ∙ broadcast_more (popped k fs) a lock c found more

  signalling-GoesOn :
      (k : Kernel)
      → k.status k.current ≡ running
      → GoesOn (signalling k) (signal_cv a lock) (broadcast_cv a lock ∷ fs)
  unfolding push
  signalling-GoesOn k on = record { on = on; frames = ground arith }

  popped-signalling : (k : Kernel) → popped (signalling k) (broadcast_cv a lock ∷ fs) ≡ looping k
  unfolding push
  popped-signalling k = ap (λ st. record k { stack = st }) (fun_ext (λ j. ground arith))

  looping_same : (k : Kernel) → GoesOn k (broadcast_cv a lock) fs → looping k ≡ k
  looping_same k g =
      ap (λ st. record k { stack = st })
        (fun_ext (λ j. elim (ℕ_discrete k.current j) [
          | yes e ↦ rw (← e) (ground arith)
          | no ne ↦ ground arith
        ]))

  second_step :
      (k : Kernel) → k.status k.current ≡ running → step (signalling k) ≡ signal a lock (looping k)
  unfolding exec
  second_step k on =
      step_lem _ _ _ (signalling-GoesOn k on) ∙ ap (signal a lock) (popped-signalling k)

  -- Inside the loop, before its test or before its Signal.
  abbrev pub Looping : Kernel → Kernel → Type 0
  Looping k k' = (k' ≡ k) ⊎ (k' ≡ signalling k)

  -- Broadcast with another lock than the one that the waiters gave never returns: after any number
  -- of steps the thread is still in the loop, and nobody has been woken.
  pub broadcast_spins :
      (k : Kernel) (c : Condition)
      → GoesOn k (broadcast_cv a lock) fs
      → get_elem? k.conditions a ≡ some c
      → is_empty c.waiting_cv ≡ false
      → same_address lock c.waiting_lock ≡ false
      → (n : ℕ) → (k' : Kernel) × (steps n k ≡ ok k') × Looping k k'
  unfolding steps
  broadcast_spins k c g found more wrong zero = (k, refl, inl refl)
  broadcast_spins k c g found more wrong (suc zero) =
      (signalling k, rw (first_step k c g found more) refl, inr refl)
  broadcast_spins k c g found more wrong (suc (suc n)) =
      let (k', e, loops) = broadcast_spins k c g found more wrong n in
      (k', rw (first_step k c g found more, back) e, loops)
    where
      back : step (signalling k) ≡ ok k
      back =
          second_step k g.on
          ∙ signal_wrong (looping k) a c found lock wrong
          ∙ ap ok (looping_same k g)

-- The steps of the loop over a queue: a test and a Signal for each waiter, and a last test.
abbrev pub rounds : List ℕ → ℕ
rounds [] = 1
rounds (w ∷ rest) = suc (suc (rounds rest))

module _ (a lock : ℕ) (fs : List Frame) where
  -- What Broadcast leaves.
  pub record Woken (k : Kernel) (q : List ℕ) (k' : Kernel) : Type 0 where
    pub queued : k'.ready_list ≡ k.ready_list ++ q
    pub stays : k'.current ≡ k.current
    pub returns : k'.stack k'.current ≡ fs
    pub emptied : (c : Condition) × (get_elem? k'.conditions a ≡ some c) × (c.waiting_cv ≡ [])

  Woken-cons :
      (w : ℕ) (rest : List ℕ) (k k₁ k' : Kernel)
      → k₁.ready_list ≡ k.ready_list ++ w ∷ []
      → k₁.current ≡ k.current
      → Woken k₁ rest k'
      → Woken k (w ∷ rest) k'
  Woken-cons w rest k k₁ k' e s r = record {
    queued = r.queued ∙ ap (λ x. x ++ rest) e ∙ append_assoc k.ready_list (w ∷ []) rest;
    stays = r.stays ∙ s;
    returns = r.returns;
    emptied = r.emptied;
  }

  -- Broadcast with the waiters' lock returns, after a test and a Signal for each waiter: all of them
  -- are at the end of the ready list, the longest waiter first, and nobody waits any more.
  pub broadcast_wakes_all :
      (q : List ℕ) (k : Kernel) (c : Condition)
      → GoesOn k (broadcast_cv a (some lock)) fs
      → get_elem? k.conditions a ≡ some c
      → c.waiting_cv ≡ q
      → (q ≡ []) ⊎ (c.waiting_lock ≡ some lock)
      → count k.current q ≡ 0
      → (k' : Kernel) × (steps (rounds q) k ≡ ok k') × Woken k q k'
  unfolding steps exec ready_to_run
  broadcast_wakes_all [] k c g found e h apart = (
    popped k fs,
    rw
        (
          step_lem k (broadcast_cv a (some lock)) fs g,
          broadcast_done (popped k fs) a (some lock) c found (rw e),
        )
        refl,
    record {
      queued = sym (append-nil k.ready_list);
      stays = refl;
      returns = ground arith;
      emptied = (c, found, e);
    },
  )
  broadcast_wakes_all (w ∷ rest) k c g found e h apart =
      let (k', run, woken) =
        broadcast_wakes_all rest woke left
          (record { on = ground (arith, g.on, apart); frames = ground arith })
          (get_elem?-set_self k.conditions a left (get_elem?-lt k.conditions a c found)) refl
          (still rest) (ground (arith, apart)) in
      (
        k',
        rw (first_step a (some lock) fs k c g found (rw e), woken_one) run,
        Woken-cons w rest k woke k' refl refl woken,
      )
    where
      left : Condition
      left = record {
        waiting_lock = if is_empty rest then none else c.waiting_lock;
        waiting_cv = rest;
      }

      woke : Kernel
      woke = ready_to_run w (put_condition a left (looping a (some lock) fs k))

      right : c.waiting_lock ≡ some lock
      right = ground arith

      woken_one : step (signalling a (some lock) fs k) ≡ ok woke
      woken_one =
          second_step a (some lock) fs k g.on
          ∙ signal_first (looping a (some lock) fs k) a c found (some lock) w rest (ground arith) e

      still : (r : List ℕ) → (r ≡ []) ⊎ ((if is_empty r then none else c.waiting_lock) ≡ some lock)
      still [] = inl refl
      still (x ∷ xs) = inr right
