-- ===== src/FileCalls.antt =====
-- The system calls of Project 2/code/userprog/exception.cc on files: Create, Open, Write, Read and Close, with
-- copyin and copyout, over the memory of the user program, its table of open files, the file system and the
-- disk. ExceptionHandler halts the machine at an exception of ReadMem or WriteMem, so a copy that meets one does
-- not come back. A length is not negative here. A new buffer holds what its storage held, and the storage is an
-- argument, as is what scanf leaves in a buffer. What is printed is left out.
pub mod Copying
pub mod Transfer
pub mod Descriptors
pub mod Halting
use tree_fiddy.Prelude.{
  ℕ, zero, suc, ◌+◌, ◌%◌, ◌^◌, Bool, true, false, Option, none, some, List, [], ◌∷◌, ltb, ◌==◌,
  if◌then◌else◌, set,
}
use tree_fiddy.Prelude.Int.{ℤ, pos, negsuc}
use tree_fiddy.Prelude.Outcome.{Outcome, ok, fault, ◌>>=◌}
use tree_fiddy.Memory.{Machine, Access, raises, done, read_mem, write_mem}
use tree_fiddy.Table
use tree_fiddy.Table.{Table}
use tree_fiddy.OpenFile
use tree_fiddy.OpenFile.{OpenFile, Buffer, Storage}
use tree_fiddy.FileHeader.{FileHeader}
use tree_fiddy.FileSystem
use tree_fiddy.FileSystem.{FileSystem}

-- What the calls work on: the memory, the file system, the disk's bytes and the space's fileTable.
pub record Session : Type 0 where
  pub machine : Machine
  pub files : FileSystem
  pub disk : Storage
  pub file_table : Table OpenFile

-- What a piece of a call comes to: a value, or the end of the machine.
pub data Run {ℓ} (A : Type ℓ) : Type ℓ where
  goes_on : A → Run A
  halts : Run A

-- The rest of a copy after one access; an exception halts the machine.
abbrev pub after_access :
    {A B : Type 0} → Access A → (A → Machine → Outcome (Run B)) → Outcome (Run B)
after_access (raises x) rest = ok halts
after_access (done a m) rest = rest a m

-- The loop of copyin with n bytes left.
unfoldable pub copyin_loop : (n vaddr i : ℕ) → Buffer → Machine → Outcome (Run (Buffer × Machine))
unfolding read_mem
copyin_loop zero vaddr i buf m = ok (goes_on (buf, m))
copyin_loop (suc n) vaddr i buf m = do
  a ← read_mem vaddr 1 m
  after_access a (λ value m'.
      copyin_loop n ((vaddr + 1) % 2 ^ 32) (i + 1) (λ j. if j == i then value % 256 else buf j) m')

-- copyin
abbrev pub copyin : (vaddr len : ℕ) → Buffer → Machine → Outcome (Run (Buffer × Machine))
copyin vaddr len buf m = copyin_loop len vaddr 0 buf m

-- The loop of copyout with n bytes left.
unfoldable pub copyout_loop : (n vaddr i : ℕ) → Buffer → Machine → Outcome (Run Machine)
unfolding write_mem
copyout_loop zero vaddr i buf m = ok (goes_on m)
copyout_loop (suc n) vaddr i buf m = do
  a ← write_mem vaddr 1 (buf i) m
  after_access a (λ _ m'. copyout_loop n ((vaddr + 1) % 2 ^ 32) (i + 1) buf m')

-- copyout
abbrev pub copyout : (vaddr len : ℕ) → Buffer → Machine → Outcome (Run Machine)
copyout vaddr len buf m = copyout_loop len vaddr 0 buf m

-- The bytes of a C string in a buffer with n bytes before its closing 0.
abbrev pub c_string : (n i : ℕ) → Buffer → List ℕ
c_string zero i buf = []
c_string (suc n) i buf =
    let rest : List ℕ = c_string n (i + 1) buf in if buf i == 0 then [] else buf i ∷ rest

-- The state after a copy, with the result of the call.
abbrev pub with_name :
    {A : Type 0} (len : ℕ)
    → Session
    → (List ℕ → Session → Outcome (A × Session))
    → Run (Buffer × Machine)
    → Outcome (Run (A × Session))
with_name len s rest halts = ok halts
with_name len s rest (goes_on (buf, m)) = do
  r ← rest (c_string len 0 buf) (record s { machine = m })
  ok (goes_on r)

-- Create_Syscall; a new header holds `junk`.
unfoldable pub create_call :
    (vaddr len : ℕ) → Buffer → FileHeader → Session → Outcome (Run (Unit {0} × Session))
unfolding copyin_loop FileSystem.create
create_call vaddr len buf junk s = do
  copied ← copyin vaddr len buf s.machine
  with_name len s
      (λ name s'. do
        (created, files) ← FileSystem.create name 0 junk s'.files
        ok (tt, record s' { files = files }))
      copied

-- Open_Syscall with the file that Open gives.
unfoldable pub open_in : Option OpenFile → Session → Outcome (ℤ × Session)
open_in none s = ok (negsuc 0, s)
open_in (some f) s = do
  (id, table) ← Table.put s.file_table (some f)
  ok (elim id [ none ↦ negsuc 0 | some i ↦ pos i ], record s { file_table = table })

-- Open_Syscall
unfoldable pub open_call : (vaddr len : ℕ) → Buffer → Session → Outcome (Run (ℤ × Session))
unfolding copyin_loop open_in FileSystem.open_file
open_call vaddr len buf s = do
  copied ← copyin vaddr len buf s.machine
  with_name len s (λ name s'. open_in (FileSystem.open_file name s'.files) s') copied

-- An assignment to the open file that slot `id` points to.
abbrev pub assign_file : ℤ → OpenFile → Table OpenFile → Table OpenFile
assign_file (pos i) f t = record t { table = set t.table i (some f) }
assign_file (negsuc n) f t = t

-- The buffers that OpenFile::Read and Write make.
pub record Spare : Type 0 where
  pub whole : Buffer
  pub first : Buffer
  pub last : Buffer

-- id == ConsoleInput, which is 0, and id == ConsoleOutput, which is 1
abbrev pub is_id : ℕ → ℤ → Bool
is_id n (pos i) = i == n
is_id n (negsuc i) = false

-- Write_Syscall of a copied buffer to the open file of `id`.
unfoldable pub write_stored : ℤ → ℕ → Spare → Buffer → Option OpenFile → Session → Outcome Session
unfolding OpenFile.write
write_stored id len spare buf none s = ok s
write_stored id len spare buf (some f) s = do
  (n, disk, f') ← OpenFile.write f s.disk spare.whole spare.first spare.last buf len
  ok (record s { disk = disk; file_table = assign_file id f' s.file_table })

-- Write_Syscall after copyin
unfoldable pub write_copied :
    ℤ → ℕ → Spare → Session → Run (Buffer × Machine) → Outcome (Run Session)
unfolding write_stored
write_copied id len spare s halts = ok halts
write_copied id len spare s (goes_on (buf, m)) =
    let s' : Session = record s { machine = m } in
    let stored : Outcome (Run Session) = (do
      f ← Table.get s.file_table id
      s'' ← write_stored id len spare buf f s'
      ok (goes_on s'')) in
    if is_id 1 id then ok (goes_on s') else stored

-- Write_Syscall, which gives no result
unfoldable pub write_call : (vaddr len : ℕ) → ℤ → Buffer → Spare → Session → Outcome (Run Session)
unfolding copyin_loop write_copied
write_call vaddr len id buf spare s =
    let copies : Outcome (Run Session) = (do
      copied ← copyin vaddr len buf s.machine
      write_copied id len spare s copied) in
    if is_id 0 id then ok (goes_on s) else copies

-- The state after copyout, with the result of the call.
abbrev pub reply : ℤ → Session → Run Machine → Run (ℤ × Session)
reply z s halts = halts
reply z s (goes_on m) = goes_on (z, record s { machine = m })

-- Read_Syscall from the open file of `id`.
unfoldable pub read_stored :
    ℕ → ℕ → ℤ → Buffer → Spare → Option OpenFile → Session → Outcome (Run (ℤ × Session))
unfolding OpenFile.read copyout_loop
read_stored vaddr len id buf spare none s = ok (goes_on (negsuc 0, s))
read_stored vaddr len id buf spare (some f) s = do
  (n, buf', f') ← OpenFile.read f s.disk spare.whole buf len
  let s' : Session = record s { file_table = assign_file id f' s.file_table }
  let copies : Outcome (Run (ℤ × Session)) = (do
    copied ← copyout vaddr n buf' s.machine
    ok (reply (pos n) s' copied))
  if ltb 0 n then copies else ok (goes_on (pos n, s'))

-- Read_Syscall; `typed` is what scanf leaves in the buffer.
unfoldable pub read_call :
    (vaddr len : ℕ) → ℤ → (buf typed : Buffer) → Spare → Session → Outcome (Run (ℤ × Session))
unfolding read_stored copyout_loop
read_call vaddr len id buf typed spare s =
    let keyboard : Outcome (Run (ℤ × Session)) = (do
      copied ← copyout vaddr len typed s.machine
      ok (reply (pos len) s copied)) in
    let stored : Outcome (Run (ℤ × Session)) = (do
      f ← Table.get s.file_table id
      read_stored vaddr len id buf spare f s) in
    if is_id 1 id then ok (goes_on (negsuc 0, s)) else if is_id 0 id then keyboard else stored

-- Close_Syscall
unfoldable pub close_call : ℤ → Session → Outcome Session
close_call id s = do (f, table) ← Table.remove s.file_table id; ok (record s { file_table = table })
