-- ===== src/Syscall/Run.antt =====
-- Executions of the calls on locks and condition variables and of Yield: the current thread's next frame,
-- a new system call, or a tick of Project 2/code/machine/interrupt.cc. Machine::Run ticks after every
-- user instruction, and SetLevel whenever it turns interrupts on. A tick may come anywhere in user code,
-- and in the kernel anywhere that interrupts are on, which is more than the machine does.
use tree_fiddy.Prelude.{ℕ, ◌≡◌, refl, ◌∙◌, Bool, true, false, if◌then◌else◌, [], arith}
use tree_fiddy.Prelude.Outcome.{ok}
use tree_fiddy.Kernel.{Kernel, running, int_on, yield, push, update}
use tree_fiddy.Kernel.Places.{places, yield-places}
use tree_fiddy.Syscall.{Call, enter, yield_call, step}
use tree_fiddy.Syscall.Places.{Sole, step-Keeps}

-- The end of Interrupt::OneTick, with yieldOnReturn: interrupts are on, whatever they were before.
abbrev pub end_of_tick : Bool → Kernel → Kernel
end_of_tick yield_on_return k =
    let on : Kernel = record k { level = int_on } in if yield_on_return then yield on else on

-- A thread with no frames left is in user code.
pub data Move (k : Kernel) : Kernel → Type 0 where
  stepped : {k' : Kernel} → step k ≡ ok k' → Move k k'
  called : (c : Call) → k.status k.current ≡ running → k.stack k.current ≡ [] → Move k (enter c k)
  user_ticked :
      (yield_on_return : Bool)
      → k.status k.current ≡ running
      → k.stack k.current ≡ []
      → Move k (end_of_tick yield_on_return k)
  kernel_ticked :
      (yield_on_return : Bool)
      → k.status k.current ≡ running
      → k.level ≡ int_on
      → Move k (end_of_tick yield_on_return k)

pub data Reach (k : Kernel) : Kernel → Type 0 where
  here : Reach k k
  next : {k₁ k₂ : Kernel} → Reach k k₁ → Move k₁ k₂ → Reach k k₂

pub enter-places :
    (c : Call) (k : Kernel)
    → k.status k.current ≡ running
    → (t : ℕ) → places t (enter c k) ≡ places t k
unfolding enter push
enter-places yield_call k on t =
    yield-places t (record k { result = update k.result k.current 0 }) on
enter-places _ k on t = refl

end_of_tick-places :
    (b : Bool) (k : Kernel)
    → k.status k.current ≡ running
    → (t : ℕ) → places t (end_of_tick b k) ≡ places t k
end_of_tick-places true k on t = yield-places t (record k { level = int_on }) on
end_of_tick-places false k on t = refl

Move-places : {k k' : Kernel} → Move k k' → Sole k → (t : ℕ) → places t k' ≡ places t k
Move-places {k} {k'} (stepped e) sole t = step-Keeps k sole k' e t
Move-places {k} (called c on idle) sole t = enter-places c k on t
Move-places {k} (user_ticked b on idle) sole t = end_of_tick-places b k on t
Move-places {k} (kernel_ticked b on unmasked) sole t = end_of_tick-places b k on t

-- However calls on locks and condition variables, Yield, their frames, and ticks with and without a
-- switch interleave, every thread stays in as many places (processor, ready list and queues together)
-- as at the start, and, if no thread was in two places then, never in two.
pub Reach-places :
    {k k' : Kernel} → Reach k k' → Sole k → ((t : ℕ) → places t k' ≡ places t k) × Sole k'
Reach-places here sole = (λ t. refl, sole)
Reach-places {k} {k'} (next {k₁} r m) sole =
    let before = Reach-places r sole in
    (
      λ t. Move-places m before.1 t ∙ before.0 t,
      λ t. omega (arith, Move-places m before.1 t, before.1 t),
    )
