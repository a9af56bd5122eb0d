-- ===== src/AddrSpace.antt =====
-- AddrSpace::AddrSpace of Project 2/code/userprog/addrspace.cc: a page table over frames taken from the map
-- of free frames, and a program read into them from an object file as bin/noff.h describes it. The file
-- is read by OpenFile::ReadAt into the machine's memory. The host stores the least significant byte of an
-- int first, like the simulated machine, so WordToHost changes nothing. A word is its 32 bits as a
-- natural number; an int with its highest bit set would be a negative position, from which nothing is
-- read here. `none` is a machine that has been halted. The memory and every buffer hold what
-- their storage held before.
pub mod Load
pub mod Image
use tree_fiddy.Prelude.{
  ℕ, zero, suc, ◌+◌, ◌-◌, ◌*◌, ◌/◌, ◌%◌, Bool, true, false, Option, none, some, List, [], ◌∷◌, ltb,
  leb, ◌==◌, if◌then◌else◌,
}
use tree_fiddy.Prelude.Outcome.{Outcome, ok, fault, ◌>>=◌, assert}
use tree_fiddy.BitMap
use tree_fiddy.BitMap.{BitMap, div_round_up}
use tree_fiddy.Cpu.{Cpu, write_reg, pc_reg, next_pc_reg, num_total_regs}
use tree_fiddy.FileHeader.{FileHeader}
use tree_fiddy.Memory.{TranslationEntry, Machine, page_size, num_phys_pages}
use tree_fiddy.Multiply.{word, half_word}
use tree_fiddy.OpenFile
use tree_fiddy.OpenFile.{OpenFile, Buffer, Storage}
use tree_fiddy.Table
use tree_fiddy.Table.{Table}

abbrev pub user_stack_size : ℕ
user_stack_size = 1024

abbrev pub max_open_files : ℕ
max_open_files = 256

abbrev pub noff_magic : ℕ
noff_magic = 12246957  -- 0xbadfad

pub record Segment : Type 0 where
  pub virtual_addr : ℕ
  pub in_file_addr : ℕ
  pub size : ℕ

pub record NoffHeader : Type 0 where
  pub magic : ℕ
  pub code : Segment
  pub init_data : Segment
  pub uninit_data : Segment

-- An int at an offset of a buffer.
abbrev pub int_at : Buffer → ℕ → ℕ
int_at b o = b o + 256 * b (o + 1) + 65536 * b (o + 2) + 16777216 * b (o + 3)

abbrev pub segment_at : Buffer → ℕ → Segment
segment_at b o = record {
  virtual_addr = int_at b o;
  in_file_addr = int_at b (o + 4);
  size = int_at b (o + 8);
}

-- The bytes of a NoffHeader.
abbrev pub header_of : Buffer → NoffHeader
header_of b = record {
  magic = int_at b 0;
  code = segment_at b 4;
  init_data = segment_at b 16;
  uninit_data = segment_at b 28;
}

abbrev pub noff_header_size : ℕ
noff_header_size = 40

-- numPages of a program
abbrev pub pages_of : NoffHeader → ℕ
pages_of noff =
    div_round_up ((noff.code.size + noff.init_data.size + noff.uninit_data.size) % word) page_size
    + div_round_up user_stack_size page_size

abbrev pub page_entry : ℕ → ℕ → TranslationEntry
page_entry i ppn = record {
  virtual_page = i;
  physical_page = ppn;
  valid = true;
  is_read_only = false;
  is_used = false;
  is_dirty = false;
}

-- The executable, with its file and the disk, and what the buffer of ReadAt holds at first.
pub record Executable : Type 0 where
  pub file : FileHeader
  pub disk : Storage
  pub buffer : Buffer

-- executable->ReadAt of num_bytes into &into[at], where the int `position` may be negative.
unfoldable pub read_in : Executable → (at : ℕ) → Buffer → (num_bytes position : ℕ) → Outcome Buffer
unfolding OpenFile.read_at
read_in x at into num_bytes position =
    let reads : Outcome Buffer = (do
      (n, into') ← OpenFile.read_at x.file x.disk x.buffer at into num_bytes position
      ok into') in
    if leb half_word position then fault else reads

-- The entries made by the loop, with the map and the memory that it leaves; `none` if it halts.
abbrev pub Loaded : Type 0
Loaded = Option (List TranslationEntry × BitMap × Buffer)

abbrev pub with_entry : TranslationEntry → Loaded → Loaded
with_entry e none = none
with_entry e (some (es, m, mem)) = some (e ∷ es, m, mem)

-- The frame found, or Halt.
abbrev pub with_frame : Option ℕ → (ℕ → Outcome Loaded) → Outcome Loaded
with_frame none f = ok none
with_frame (some ppn) f = f ppn

-- The loop of the constructor at page i, with n rounds left.
unfoldable pub load_loop : ℕ → (i addr : ℕ) → Executable → BitMap → Buffer → Outcome Loaded
unfolding read_in
load_loop zero i addr x m mem = ok (some ([], m, mem))
load_loop (suc n) i addr x m mem = do
  (found, m') ← BitMap.find m
  with_frame found (λ ppn. do
    mem' ← read_in x (ppn * page_size) mem page_size ((addr + i * page_size) % word)
    rest ← load_loop n (i + 1) addr x m' mem'
    ok (with_entry (page_entry i ppn) rest))

pub record AddrSpace : Type 0 where
  pub file_table : Table OpenFile
  pub page_table : List TranslationEntry
  pub num_pages : ℕ

-- The object that the loop has filled in.
abbrev pub built : Table OpenFile → ℕ → Loaded → Option (AddrSpace × BitMap × Buffer)
built t n none = none
built t n (some (es, m, mem)) =
    some (record { file_table = t; page_table = es; num_pages = n }, m, mem)

-- fileTable, with two null pointers in place of the console's files
unfoldable pub new_file_table : (ℕ → ℕ) → List (Option OpenFile) → Outcome (Table OpenFile)
new_file_table bits slots = do
  t ← Table.new_table max_open_files bits slots
  (input, t') ← Table.put t none
  (output, t'') ← Table.put t' none
  ok t''

-- AddrSpace::AddrSpace after the header has been read into `raw`
unfoldable pub load_program :
    Table OpenFile
    → Buffer
    → Executable
    → BitMap
    → Buffer
    → Outcome (Option (AddrSpace × BitMap × Buffer))
unfolding load_loop
load_program t raw x m mem = do
  let noff = header_of raw
  u ← assert (noff.magic == noff_magic)
  v ← assert (leb (pages_of noff) num_phys_pages)
  loaded ← load_loop (pages_of noff) 0 noff.code.in_file_addr x m mem
  ok (built t (pages_of noff) loaded)

-- AddrSpace::AddrSpace
unfoldable pub new_addr_space :
    (ℕ → ℕ)
    → List (Option OpenFile)
    → (raw : Buffer) → Executable
    → BitMap
    → Buffer
    → Outcome (Option (AddrSpace × BitMap × Buffer))
unfolding new_file_table read_in load_program
new_addr_space bits slots raw x m mem = do
  t ← new_file_table bits slots
  raw' ← read_in x 0 raw noff_header_size 0
  load_program t raw' x m mem

abbrev pub stack_reg : ℕ
stack_reg = 29

-- AddrSpace::InitRegisters
unfoldable pub init_registers : AddrSpace → Cpu → Cpu
init_registers s c = write_reg stack_reg (s.num_pages * page_size - 16) (
    write_reg next_pc_reg 4 (
      write_reg pc_reg 0
        (record c { registers = λ r. if ltb r num_total_regs then 0 else c.registers r })))

-- AddrSpace::RestoreState
abbrev pub restore_state : AddrSpace → Machine → Machine
restore_state s m = record m { page_table = some s.page_table; page_table_size = s.num_pages }
