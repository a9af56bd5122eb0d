-- ===== src/FileCalls/Transfer.antt =====
-- Write_Syscall and Read_Syscall of Project 2/code/userprog/exception.cc through the memory, the table of open
-- files and the disk.
use tree_fiddy.Prelude.{
  ℕ, ◌+◌, ◌-◌, ◌*◌, ◌%◌, ◌<◌, ◌≤◌, ◌≡◌, ◌≢◌, refl, sym, ap, ◌∙◌, false, some, arith, ltb, ◌==◌,
  if◌then◌else◌, inl, inr, Bool-cases,
}
use tree_fiddy.Prelude.Int.{pos}
use tree_fiddy.Prelude.Outcome.{ok}
use tree_fiddy.Memory.{page_size}
use tree_fiddy.Table
use tree_fiddy.Table.{Table}
use tree_fiddy.Table.Laws.{IsValid, slot, or_null, get-slot, assign-slot}
use tree_fiddy.OpenFile.{OpenFile, Buffer, Storage, write, read, move_on}
use tree_fiddy.OpenFile.Sectors.{LaidOut}
use tree_fiddy.OpenFile.Reading.{amount, read_at-Gets}
use tree_fiddy.OpenFile.Writing.{Puts, write_at-Puts}
use tree_fiddy.FileCalls.{
  Session, goes_on, Spare, write_call, write_copied, write_stored, read_call, read_stored,
  assign_file,
}
use tree_fiddy.FileCalls.Copying.{
  place, IsMapped, AreFrames, copyin_loop-copies, copyout_loop-copies,
}

-- How many bytes a call of len bytes moves for an open file.
abbrev pub moved : OpenFile → ℕ → ℕ
moved x len = amount x.hdr len x.seek_position

module _ (x : OpenFile) (w : LaidOut x.hdr) (d : Storage) (buf first last from : Buffer)
    (len : ℕ) where
  write-moves :
      (d' : Storage) × (write x d buf first last from len
        ≡ ok (moved x len, d', move_on (moved x len) x))
      × Puts w (moved x len) x.seek_position from d d'
  unfolding write
  write-moves =
      let (d', wrote, puts) = write_at-Puts x.hdr w d buf first last from len x.seek_position in
      (d', rw wrote refl, puts)

  -- A file that stands where the write began reads the bytes written.
  read-back :
      (d' : Storage) (read_buf into : Buffer)
      → Puts w (moved x len) x.seek_position from d d'
      → (into' : Buffer) × (read x d' read_buf into len
          ≡ ok (moved x len, into', move_on (moved x len) x))
        × ((j : ℕ) → j < moved x len → into' j ≡ from j)
  unfolding read
  read-back d' read_buf into puts =
      let p : ℕ = x.seek_position in
      let (into', has_read, gets) = read_at-Gets x.hdr w d' read_buf 0 into len p in
      let same : (j : ℕ) → j < moved x len → into' j ≡ from j = λ j below.
        let inside : p + (j - 0) < x.hdr.num_bytes = ground arith in
        let at_j : p + (j - 0) - p ≡ j = omega arith in
        gets j ∙ ground (arith, puts.bytes (p + (j - 0)) inside, ap from at_j) in
      (into', rw has_read refl, same)

-- Slot i comes to hold the file moved on by len bytes, and the other slots are as before.
abbrev pub MovesOn : OpenFile → (i len : ℕ) → Table OpenFile → Table OpenFile → Type 0
MovesOn x i len t t' =
    IsValid t'
    × ((j : ℕ) → slot t' j ≡ (if i == j then some (some (move_on (moved x len) x)) else slot t j))

module _ (frames : ℕ → ℕ) (count : ℕ) (f : AreFrames frames count) (x : OpenFile)
    (w : LaidOut x.hdr) where
  write_call-stores :
      (s : Session) (i a len : ℕ) (buf : Buffer) (spare : Spare)
      → IsMapped frames count s.machine
      → IsValid s.file_table
      → 1 < i
      → slot s.file_table i ≡ some (some x)
      → a + len ≤ count * page_size
      → (t : Session) × (from : Buffer) × (write_call a len (pos i) buf spare s ≡ ok (goes_on t))
        × IsMapped frames count t.machine
        × (t.machine.main_memory ≡ s.machine.main_memory)
        × MovesOn x i len s.file_table t.file_table
        × ((j : ℕ) → j < len → from j ≡ s.machine.main_memory (place frames (a + j)) % 256)
        × Puts w (moved x len) x.seek_position from s.disk t.disk
  unfolding write_call write_copied write_stored
  write_call-stores s i a len buf spare mapped valid above here fits =
      let (from, m', copied, mapped', same, bytes, rest) =
        copyin_loop-copies frames count f len a 0 buf s.machine mapped fits in
      let (d', wrote, puts) = write-moves x w s.disk spare.whole spare.first spare.last from len in
      let gets : Table.get s.file_table (pos i) ≡ ok (some x) =
        (get-slot s.file_table valid).0 i ∙ ap (λ c. ok (or_null c)) here in
      let (valid', slots) =
        assign-slot s.file_table i (some x) (some (move_on (moved x len) x)) valid here in
      let t : Session = record s {
        machine = m';
        disk = d';
        file_table = assign_file (pos i) (move_on (moved x len) x) s.file_table;
      } in
      let not_0 : (i == 0) ≡ false = ground arith in
      let not_1 : (i == 1) ≡ false = ground arith in
      let from_bytes : (j : ℕ)
          → j < len
          → from j ≡ s.machine.main_memory (place frames (a + j)) % 256 =
        λ j lt. let at_j : 0 + j ≡ j = omega arith in ap from (sym at_j) ∙ bytes j lt in
      (
        t,
        from,
        rw not_0 (rw copied (rw not_1 (rw gets (rw wrote refl)))),
        mapped',
        same,
        (valid', slots),
        from_bytes,
        puts,
      )

  read_call-loads :
      (t : Session) (d : Storage) (k b len : ℕ) (from buf typed : Buffer) (spare : Spare)
      → IsMapped frames count t.machine
      → IsValid t.file_table
      → 1 < k
      → slot t.file_table k ≡ some (some x)
      → b + len ≤ count * page_size
      → Puts w (moved x len) x.seek_position from d t.disk
      → (u : Session) × (read_call b len (pos k) buf typed spare t
          ≡ ok (goes_on (pos (moved x len), u)))
        × IsMapped frames count u.machine
        × (u.disk ≡ t.disk)
        × MovesOn x k len t.file_table u.file_table
        × ((j : ℕ) → j < moved x len → u.machine.main_memory (place frames (b + j)) ≡ from j % 256)
        × ((q : ℕ)
            → ((j : ℕ) → j < moved x len → q ≢ place frames (b + j))
            → u.machine.main_memory q ≡ t.machine.main_memory q)
  unfolding read_call read_stored
  read_call-loads t d k b len from buf typed spare mapped valid above here fits puts =
      let n : ℕ = moved x len in
      let small : n ≤ len = ground arith in
      let (into, has_read, gives) =
        read-back x w d spare.whole spare.first spare.last from len t.disk spare.whole buf puts in
      let gets : Table.get t.file_table (pos k) ≡ ok (some x) =
        (get-slot t.file_table valid).0 k ∙ ap (λ c. ok (or_null c)) here in
      let (valid', slots) = assign-slot t.file_table k (some x) (some (move_on n x)) valid here in
      let not_0 : (k == 0) ≡ false = ground arith in
      let not_1 : (k == 1) ≡ false = ground arith in
      let (m', copied, mapped', bytes, others) =
        copyout_loop-copies frames count f n b 0 into t.machine mapped
          (omega (arith, fits, small)) in
      let table : Table OpenFile = assign_file (pos k) (move_on n x) t.file_table in
      elim (Bool-cases (ltb 0 n)) [
        | inl some_bytes ↦
            let loaded : (j : ℕ) → j < n → m'.main_memory (place frames (b + j)) ≡ from j % 256 =
              λ j lt.
                let at_j : 0 + j ≡ j = omega arith in
                bytes j lt ∙ ap (λ z. into z % 256) at_j ∙ ap (λ z. z % 256) (gives j lt) in
            (
              record t { machine = m'; file_table = table },
              rw not_1 (rw not_0 (rw gets (rw has_read (rw some_bytes (rw copied refl))))),
              mapped',
              refl,
              (valid', slots),
              loaded,
              others,
            )
        | inr no_byte ↦
            let nothing : n ≡ 0 = ground arith in
            (
              record t { file_table = table },
              rw not_1 (rw not_0 (rw gets (rw has_read (rw no_byte refl)))),
              mapped,
              refl,
              (valid', slots),
              (λ j lt. absurd (omega (arith, lt, nothing))),
              λ q out. refl,
            )
      ]

  -- Two open descriptors of one file stand at one place. What Write of the one takes from len bytes of memory, cut
  -- off at the end of the file, Read of the other gives back: it answers with that count, the bytes are in memory
  -- at the second address, no other byte of memory changes, and both descriptors have moved on by the count.
  pub write_call-read_call :
      (s : Session) (i k a b len : ℕ) (buf buf' typed : Buffer) (spare spare' : Spare)
      → IsMapped frames count s.machine
      → IsValid s.file_table
      → 1 < i
      → 1 < k
      → i ≢ k
      → slot s.file_table i ≡ some (some x)
      → slot s.file_table k ≡ some (some x)
      → a + len ≤ count * page_size
      → b + len ≤ count * page_size
      → (t u : Session) × (write_call a len (pos i) buf spare s ≡ ok (goes_on t))
        × (read_call b len (pos k) buf' typed spare' t ≡ ok (goes_on (pos (moved x len), u)))
        × ((j : ℕ)
            → j < moved x len
            → u.machine.main_memory (place frames (b + j))
              ≡ s.machine.main_memory (place frames (a + j)) % 256)
        × ((q : ℕ)
            → ((j : ℕ) → j < moved x len → q ≢ place frames (b + j))
            → u.machine.main_memory q ≡ s.machine.main_memory q)
        × MovesOn x i len s.file_table t.file_table
        × MovesOn x k len t.file_table u.file_table
  write_call-read_call s i k a b len buf buf' typed spare spare' mapped valid id_i id_k differ
        slot_i slot_k fits_a fits_b =
      let small : moved x len ≤ len = ground arith in
      let (t, from, wrote, mapped', same, moves, from_bytes, puts) =
        write_call-stores s i a len buf spare mapped valid id_i slot_i fits_a in
      let still : slot t.file_table k ≡ some (some x) =
        moves.1 k ∙ ground (arith, differ, slot_k) in
      let (u, has_read, mapped'', disk, moves', loaded, others) =
        read_call-loads t s.disk k b len from buf' typed spare' mapped' (moves.0) id_k still fits_b
          puts in
      let back : (j : ℕ)
          → j < moved x len
          → u.machine.main_memory (place frames (b + j))
            ≡ s.machine.main_memory (place frames (a + j)) % 256 =
        λ j lt. loaded j lt ∙ ground (arith, from_bytes j (omega (arith, lt, small))) in
      let kept : (q : ℕ)
          → ((j : ℕ) → j < moved x len → q ≢ place frames (b + j))
          → u.machine.main_memory q ≡ s.machine.main_memory q =
        λ q out. others q out ∙ ap (λ mem. mem q) same in
      (t, u, wrote, has_read, back, kept, moves, moves')
