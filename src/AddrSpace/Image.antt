-- ===== src/AddrSpace/Image.antt =====
-- AddrSpace::AddrSpace of Project 2/code/userprog/addrspace.cc as a whole, and the program that the machine
-- of machine/translate.cc then sees.
use tree_fiddy.Prelude.{
  ℕ, ◌+◌, ◌-◌, ◌*◌, ◌/◌, ◌%◌, ◌≤◌, ◌<◌, ◌≡◌, ◌≢◌, refl, sym, ap, ◌∙◌, inl, inr, true, false, Option,
  none, some, List, leb, ◌==◌, if◌then◌else◌, get_elem?, length, arith,
}
use tree_fiddy.Prelude.Outcome.{Outcome, ok}
use tree_fiddy.BitMap.{BitMap, num_clear}
use tree_fiddy.BitMap.Members.{has, HasRoom}
use tree_fiddy.Memory.{
  TranslationEntry, Machine, done, page_size, num_phys_pages, find_entry, at_index, find_in, touch,
  stamp, load, sign_extend, read_mem,
}
use tree_fiddy.Memory.Lookup.{translate-physical}
use tree_fiddy.Memory.RoundTrip.{read_mem-done}
use tree_fiddy.Multiply.{half_word}
use tree_fiddy.OpenFile.{OpenFile, Buffer}
use tree_fiddy.OpenFile.Sectors.{LaidOut, byte_of, between}
use tree_fiddy.OpenFile.Reading.{amount}
use tree_fiddy.Table
use tree_fiddy.Table.{Table}
use tree_fiddy.Table.Laws.{IsValid, slot, new_table-IsValid, put-Puts}
use tree_fiddy.AddrSpace.{
  AddrSpace, page_entry, Executable, NoffHeader, int_at, header_of, pages_of, noff_magic,
  noff_header_size, max_open_files, Loaded, built, new_file_table, load_loop, load_program,
  new_addr_space, read_in, restore_state,
}
use tree_fiddy.AddrSpace.Load.{Loads, load_loop-Loads, read_in-Gets}

-- The header that the file begins with.
abbrev pub noff_of : (x : Executable) → LaidOut x.file → NoffHeader
noff_of x w = header_of (byte_of w x.disk)

int_same :
    (b b' : Buffer) (o : ℕ)
    → ((j : ℕ) → j < noff_header_size → b j ≡ b' j)
    → o + 3 < noff_header_size
    → int_at b o ≡ int_at b' o
int_same b b' o same below = omega (
  arith,
  same o (omega arith),
  same (o + 1) (omega arith),
  same (o + 2) (omega arith),
  same (o + 3) (omega arith),
)

put_free :
    (t : Table OpenFile) (i : ℕ)
    → IsValid t
    → i < t.size
    → slot t i ≡ none
    → (j : ℕ) × (t' : Table OpenFile) × (Table.put t none ≡ ok (some j, t'))
      × IsValid t'
      × (t'.size ≡ t.size)
      × ((k : ℕ) → slot t' k ≡ (if j == k then some none else slot t k))
put_free t i valid below free = elim (put-Puts t none valid) [
  | inl (full, none_left) ↦ let (c, taken) = full i below in absurd (ground arith)
  | inr (j, t', done_put, inside, was_free, valid', size, slots) ↦
      (j, t', done_put, valid', size, slots)
]

new_file_table-IsValid :
    (bits : ℕ → ℕ) (slots : List (Option OpenFile))
    → length slots ≡ max_open_files
    → (t : Table OpenFile) × (new_file_table bits slots ≡ ok t) × IsValid t
unfolding new_file_table
new_file_table-IsValid bits slots long =
    let (t, made, valid, size, free) = new_table-IsValid max_open_files bits slots long in
    let (i, t', put_one, valid', size', slots') = put_free t 0 valid (omega arith) (free 0) in
    let other : ℕ = if i == 0 then 1 else 0 in
    let small : other < 2 = ground arith in
    let differ : (i == other) ≡ false = ground arith in
    let (j, t'', put_two, valid'', size'', slots'') =
      put_free t' other valid' (omega arith) (slots' other ∙ ground (arith, free other)) in
    (t'', rw made (rw put_one (rw put_two refl)), valid'')

module _ (x : Executable) (w : LaidOut x.file) where
  abbrev noff : NoffHeader
  noff = noff_of x w

  abbrev pages : ℕ
  pages = pages_of noff

  abbrev start : ℕ
  start = noff.code.in_file_addr

  header_read :
      (raw : Buffer)
      → noff_header_size ≤ x.file.num_bytes
      → (raw' : Buffer) × (read_in x 0 raw noff_header_size 0 ≡ ok raw')
        × ((j : ℕ) → j < noff_header_size → raw' j ≡ byte_of w x.disk j)
  header_read raw long =
      let (raw', e, gets) = read_in-Gets x w 0 raw noff_header_size 0 (omega arith) in
      (
        raw',
        e,
        λ j below.
            let all : amount x.file noff_header_size 0 ≡ noff_header_size = ground arith in
            let within : between 0 (0 + amount x.file noff_header_size 0) j ≡ true = ground arith in
            let place : 0 + (j - 0) ≡ j = omega arith in
            gets j ∙ ground (arith, ap (byte_of w x.disk) place),
      )

  load_program_lem :
      (t : Table OpenFile) (raw : Buffer) (m : BitMap) (mem : Buffer) (l : Loaded)
      → ((j : ℕ) → j < noff_header_size → raw j ≡ byte_of w x.disk j)
      → noff.magic ≡ noff_magic
      → pages ≤ num_phys_pages
      → load_loop pages 0 start x m mem ≡ ok l
      → load_program t raw x m mem ≡ ok (built t pages l)
  unfolding load_program
  load_program_lem t raw m mem l same magic fits loaded =
      let b = byte_of w x.disk in
      let e0 = int_same raw b 0 same (omega arith) in
      let e1 = int_same raw b 8 same (omega arith) in
      let e2 = int_same raw b 12 same (omega arith) in
      let e3 = int_same raw b 24 same (omega arith) in
      let e4 = int_same raw b 36 same (omega arith) in
      let is_magic : (noff.magic == noff_magic) ≡ true = ground arith in
      let small : leb pages num_phys_pages ≡ true = ground arith in
      rw e0 (rw e1 (rw e2 (rw e3 (rw e4 (rw is_magic (rw small (rw loaded refl)))))))

-- What the constructor leaves when it succeeds: the machine reads the file's bytes from the code segment's
-- place on, in frames that were free and are now marked, different ones for different pages; every frame
-- that was marked is as before.
pub record Runs (x : Executable) (w : LaidOut x.file) (m : BitMap) (mem : Buffer)
    (r : Outcome (Option (AddrSpace × BitMap × Buffer))) : Type 0 where
  pub space : AddrSpace
  pub left : BitMap
  pub memory : Buffer
  pub made : r ≡ ok (some (space, left, memory))
  pub size : space.num_pages ≡ pages_of (noff_of x w)
  pub frames :
      (j : ℕ)
      → j < space.num_pages
      → (e : TranslationEntry) × (get_elem? space.page_table j ≡ some e)
        × (has m e.physical_page ≡ false)
        × (has left e.physical_page ≡ true)
  pub distinct :
      (j l : ℕ) (e f : TranslationEntry)
      → j < l
      → l < space.num_pages
      → get_elem? space.page_table j ≡ some e
      → get_elem? space.page_table l ≡ some f
      → e.physical_page ≢ f.physical_page
  pub others_kept :
      (q o : ℕ)
      → has m q ≡ true
      → o < page_size
      → (has left q ≡ true) × (memory (q * page_size + o) ≡ mem (q * page_size + o))
  pub reads :
      (mach : Machine) (va : ℕ)
      → mach.tlb ≡ none
      → va < space.num_pages * page_size
      → (noff_of x w).code.in_file_addr + va < x.file.num_bytes
      → (after : Machine) × (read_mem va 1
            (restore_state space (record mach { main_memory = memory }))
          ≡ ok (done (sign_extend (byte_of w x.disk ((noff_of x w).code.in_file_addr + va))) after))

-- A byte is read through the page table at its page's frame.
read_byte :
    (m : Machine) (t : List TranslationEntry) (va : ℕ) (e : TranslationEntry)
    → m.tlb ≡ none
    → va / page_size < m.page_table_size
    → get_elem? t (va / page_size) ≡ some e
    → m.page_table ≡ some t
    → e.valid ≡ true
    → e.is_read_only ≡ false
    → e.physical_page < num_phys_pages
    → (after : Machine) × (read_mem va 1 m
        ≡ ok (
            done
              (sign_extend (m.main_memory (e.physical_page * page_size + va % page_size)))
              after))
unfolding find_in load touch
read_byte m t va e no_tlb inside entry table valid writable frame =
    let pa : ℕ = e.physical_page * page_size + va % page_size in
    let m' : Machine = touch (va / page_size) e false m in
    let small : leb m.page_table_size (va / page_size) ≡ false = ground arith in
    let found : find_entry m (va / page_size) ≡ ok (at_index (va / page_size) e) =
      ap (λ b. find_in b m.page_table m.page_table_size (va / page_size)) no_tlb
      ∙ ap (λ b. find_in none b m.page_table_size (va / page_size)) table
      ∙ rw small (rw entry (rw valid refl)) in
    let translated =
      translate-physical va 1 false m (va / page_size) e refl found (ground arith) frame
        (omega arith) in
    (stamp pa m', read_mem-done va 1 pa (sign_extend (m.main_memory pa)) m m' translated refl)

module _ (x : Executable) (w : LaidOut x.file) (k : ℕ) (m : BitMap) (mem : Buffer)
    (bits : m.num_bits ≡ num_phys_pages) (t : Table OpenFile)
    (l : Loads x w
      (pages_of (noff_of x w))
      0
      (noff_of x w).code.in_file_addr
      k
      m
      mem
      (load_loop (pages_of (noff_of x w)) 0 (noff_of x w).code.in_file_addr x m mem)) where
  abbrev loaded_space : AddrSpace
  loaded_space = record { file_table = t; page_table = l.entries; num_pages = pages x w }

  loaded_reads :
      (mach : Machine) (va : ℕ)
      → mach.tlb ≡ none
      → va < pages x w * page_size
      → start x w + va < x.file.num_bytes
      → (after : Machine) × (read_mem va 1
            (restore_state loaded_space (record mach { main_memory = l.memory }))
          ≡ ok (done (sign_extend (byte_of w x.disk (start x w + va))) after))
  loaded_reads mach va no_tlb inside in_file =
      let j : ℕ = va / page_size in
      let below : j < pages x w = omega arith in
      let (after, reads) =
        read_byte (restore_state loaded_space (record mach { main_memory = l.memory })) l.entries va
          (page_entry (0 + j) (l.frames j)) no_tlb below (l.each j below) refl refl refl
          (omega (arith, l.in_map j below)) in
      let place : start x w + (0 + j) * page_size + va % page_size ≡ start x w + va = omega arith in
      let byte = l.image j (va % page_size) below (omega arith) (omega arith) in
      (
        after,
        reads
            ∙ ap (λ (b : ℕ). ok (done (sign_extend b) after)) (byte ∙ ap (byte_of w x.disk) place),
      )

  frame_at :
      (j : ℕ) (e : TranslationEntry)
      → j < pages x w
      → get_elem? l.entries j ≡ some e
      → e.physical_page ≡ l.frames j
  frame_at j e below entry = ground (arith, l.each j below)

  loaded-Runs :
      (r : Outcome (Option (AddrSpace × BitMap × Buffer)))
      → r ≡ ok (some (loaded_space, l.left, l.memory))
      → Runs x w m mem r
  loaded-Runs r made = record {
    space = loaded_space;
    left = l.left;
    memory = l.memory;
    made = made;
    size = refl;
    frames = λ j below.
        (page_entry (0 + j) (l.frames j), l.each j below, l.were_free j below, l.taken j below);
    distinct = λ i j e f before below a b same.
        l.distinct i j before below
          (sym (frame_at i e (omega arith) a) ∙ same ∙ frame_at j f below b);
    others_kept = λ q o marked inside. (l.marks_kept q marked, l.bytes_kept q o marked inside);
    reads = loaded_reads;
  }

-- On a file that begins with the header of an object file, with the magic number and of a size that fits
-- the machine, and with as many free frames as the program has pages, its stack included: the
-- constructor succeeds. The machine then reads, at every virtual address below the end of the file's
-- part, the byte that the file has there, counted from the place of its code. Each page has a frame of
-- its own that was free and is marked, and no frame that was marked is changed.
pub new_addr_space-Runs :
    (bits : ℕ → ℕ) (slots : List (Option OpenFile)) (raw : Buffer) (x : Executable)
    (w : LaidOut x.file) (k : ℕ) (m : BitMap) (mem : Buffer)
    → length slots ≡ max_open_files
    → noff_header_size ≤ x.file.num_bytes
    → (noff_of x w).magic ≡ noff_magic
    → pages_of (noff_of x w) ≤ num_phys_pages
    → (noff_of x w).code.in_file_addr + pages_of (noff_of x w) * page_size ≤ half_word
    → HasRoom m
    → m.num_bits ≡ num_phys_pages
    → num_clear m ≡ ok (pages_of (noff_of x w) + k)
    → Runs x w m mem (new_addr_space bits slots raw x m mem)
unfolding new_addr_space
new_addr_space-Runs bits slots raw x w k m mem long header magic fits small room size count =
    let (t, table, valid) = new_file_table-IsValid bits slots long in
    let (raw', read, same) = header_read x w raw header in
    let l = load_loop-Loads x w (pages x w) 0 (start x w) k m mem room count (omega arith) in
    let built_all = load_program_lem x w t raw' m mem _ same magic fits l.made in
    loaded-Runs x w k m mem size t l (new_addr_space bits slots raw x m mem)
      (rw table (rw read built_all))
