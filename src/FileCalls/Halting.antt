-- ===== src/FileCalls/Halting.antt =====
-- What the system calls of Project 2/code/userprog/exception.cc on files do with a buffer that does not lie in the
-- program's pages.
use tree_fiddy.Prelude.{
  ℕ, zero, suc, ◌+◌, ◌*◌, ◌/◌, ◌%◌, ◌^◌, ◌<◌, ◌≤◌, ◌≡◌, refl, Bool, true, false, arith, ℕ_discrete,
}
use tree_fiddy.Prelude.Int.{ℤ, pos}
use tree_fiddy.Prelude.Outcome.{ok}
use tree_fiddy.Memory.{
  Machine, refused, address_error, page_size, find_in, use_entry, translate, read_at, write_at,
  read_mem, write_mem,
}
use tree_fiddy.OpenFile.{Buffer}
use tree_fiddy.FileHeader.{FileHeader}
use tree_fiddy.FileCalls.{
  Session, halts, Spare, read_call, copyin_loop, copyout_loop, create_call, open_call, write_call,
  write_copied, is_id,
}
use tree_fiddy.FileCalls.Copying.{IsMapped, AreFrames, read_byte, write_byte}

module _ (frames : ℕ → ℕ) (count : ℕ) (f : AreFrames frames count) where
  -- The first address behind the pages is refused.
  past_refused :
      (w : Bool) (a : ℕ) (m : Machine)
      → IsMapped frames count m
      → count ≤ a / page_size
      → translate a 1 w m ≡ ok (refused address_error)
  unfolding translate find_in use_entry
  past_refused w a m p above = rw p.no_tlb (rw p.table (rw p.long (ground arith)))

  copyin_loop-halts :
      (n v i : ℕ) (buf : Buffer) (m : Machine)
      → IsMapped frames count m
      → v ≤ count * page_size
      → count * page_size < v + n
      → copyin_loop n v i buf m ≡ ok halts
  unfolding copyin_loop read_mem read_at
  copyin_loop-halts zero v i buf m p inside past = absurd (omega arith)
  copyin_loop-halts (suc n) v i buf m p inside past = elim (ℕ_discrete v (count * page_size)) [
    | yes e ↦ rw (past_refused false v m p (omega arith)) refl
    | no e ↦
        let (m', reads, same, p') = read_byte frames count f v m p (omega arith) in
        let next : (v + 1) % 2 ^ 32 ≡ v + 1 = omega (arith, f.small) in
        rw reads (rw next (copyin_loop-halts n (v + 1) (i + 1) _ m' p' (omega arith) (omega arith)))
  ]

  copyout_loop-halts :
      (n v i : ℕ) (buf : Buffer) (m : Machine)
      → IsMapped frames count m
      → v ≤ count * page_size
      → count * page_size < v + n
      → copyout_loop n v i buf m ≡ ok halts
  unfolding copyout_loop write_mem write_at
  copyout_loop-halts zero v i buf m p inside past = absurd (omega arith)
  copyout_loop-halts (suc n) v i buf m p inside past = elim (ℕ_discrete v (count * page_size)) [
    | yes e ↦ rw (past_refused true v m p (omega arith)) refl
    | no e ↦
        let (m', wrote, bytes, p') = write_byte frames count f v (buf i) m p (omega arith) in
        let next : (v + 1) % 2 ^ 32 ≡ v + 1 = omega (arith, f.small) in
        rw wrote
          (rw next (copyout_loop-halts n (v + 1) (i + 1) buf m' p' (omega arith) (omega arith)))
  ]

  -- With a buffer that begins in the program's pages, or right behind them, and ends behind them, Create, Open, and
  -- Write with any other id than ConsoleInput, a negative one too, halt the machine, and so does Read from the keyboard.
  pub bad_buffer_halts :
      (s : Session) (v len : ℕ) (id : ℤ) (buf typed : Buffer) (spare : Spare) (junk : FileHeader)
      → IsMapped frames count s.machine
      → v ≤ count * page_size
      → count * page_size < v + len
      → is_id 0 id ≡ false
      → (create_call v len buf junk s ≡ ok halts)
        × (open_call v len buf s ≡ ok halts)
        × (write_call v len id buf spare s ≡ ok halts)
        × (read_call v len (pos 0) buf typed spare s ≡ ok halts)
  unfolding create_call open_call write_call write_copied read_call
  bad_buffer_halts s v len id buf typed spare junk p inside past other =
      let copied : copyin_loop len v 0 buf s.machine ≡ ok halts =
        copyin_loop-halts len v 0 buf s.machine p inside past in
      let out : copyout_loop len v 0 typed s.machine ≡ ok halts =
        copyout_loop-halts len v 0 typed s.machine p inside past in
      (rw copied refl, rw copied refl, rw other (rw copied refl), rw out refl)
