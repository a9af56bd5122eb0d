-- ===== src/Memory.antt =====
-- Project 2/code/machine/translate.cc and translate.h: the memory that a user program sees, through a
-- page table or a TLB. An `int` or `unsigned int` is its 32 bits, read as a natural number. A pointer
-- that may be null is an Option. Memory is a function from a physical address to a byte; the ASSERT at
-- the end of Translate keeps every access inside it. Bytes are stored in the order of the simulated
-- machine, least significant first, and `char` is signed. What Machine::RaiseException does with an
-- exception is left to the caller.
pub mod Lookup
pub mod Bytes
pub mod RoundTrip
pub mod Total
pub mod Pages
use tree_fiddy.Prelude.{
  ℕ, suc, ◌+◌, ◌-◌, ◌*◌, ◌/◌, ◌%◌, ◌^◌, Bool, true, false, not, ◌&&◌, ◌||◌, Option, none, some,
  List, [], ◌∷◌, ltb, leb, ◌==◌, if◌then◌else◌, get_elem?, set,
}
use tree_fiddy.Prelude.Outcome.{Outcome, ok, fault, ◌>>=◌}

abbrev pub page_size : ℕ
page_size = 128

abbrev pub num_phys_pages : ℕ
num_phys_pages = 4096

abbrev pub memory_size : ℕ
memory_size = num_phys_pages * page_size

pub data ExceptionType : Type 0 where
  syscall_exception page_fault read_only bus_error address_error overflow illegal_instr :
      ExceptionType

pub record TranslationEntry : Type 0 where
  pub virtual_page : ℕ
  pub physical_page : ℕ
  pub valid : Bool
  pub is_read_only : Bool
  pub is_used : Bool
  pub is_dirty : Bool

-- The part of the machine that translates and holds memory, with the clock that it reads.
pub record Machine : Type 0 where
  pub tlb : Option (List TranslationEntry)
  pub page_table : Option (List TranslationEntry)
  pub page_table_size : ℕ
  pub main_memory : ℕ → ℕ
  pub last_used : ℕ → ℕ
  pub total_ticks : ℕ

-- What the search for a page comes to.
pub data Found : Type 0 where
  missing : ExceptionType → Found
  at_index : ℕ → TranslationEntry → Found

abbrev pub misaligned : ℕ → ℕ → Bool
misaligned size addr = (size == 4 && not (addr % 4 == 0)) || (size == 2 && not (addr % 2 == 0))

-- The entry that the page number points at, in bounds of the array.
abbrev pub page_entry : Option TranslationEntry → ℕ → Outcome Found
page_entry none vpn = fault
page_entry (some e) vpn = ok (if e.valid then at_index vpn e else missing page_fault)

-- The search loop over the TLB, from entry i on.
unfoldable pub tlb_entry : List TranslationEntry → ℕ → ℕ → Found
tlb_entry [] i vpn = missing page_fault
tlb_entry (e ∷ es) i vpn =
    if e.valid && e.virtual_page == vpn then at_index i e else tlb_entry es (suc i) vpn

-- There must be a TLB or a page table, and not both.
unfoldable pub find_in :
    Option (List TranslationEntry) → Option (List TranslationEntry) → ℕ → ℕ → Outcome Found
unfolding tlb_entry
find_in none none size vpn = fault
find_in (some b) (some t) size vpn = fault
find_in none (some t) size vpn =
    if leb size vpn then ok (missing address_error) else page_entry (get_elem? t vpn) vpn
find_in (some b) none size vpn = ok (tlb_entry b 0 vpn)

abbrev pub find_entry : Machine → ℕ → Outcome Found
find_entry m vpn = find_in m.tlb m.page_table m.page_table_size vpn

-- An assignment through the pointer to the entry found.
abbrev pub write_entry :
    ℕ → TranslationEntry → Option (List TranslationEntry) → Option (List TranslationEntry)
write_entry i e none = none
write_entry i e (some t) = some (set t i e)

abbrev pub touched : Bool → TranslationEntry → TranslationEntry
touched writing e = record e { is_used = true; is_dirty = e.is_dirty || writing }

-- entry->use and entry->dirty are set.
unfoldable pub touch : ℕ → TranslationEntry → Bool → Machine → Machine
touch i e writing m = record m {
  tlb = write_entry i (touched writing e) m.tlb;
  page_table = write_entry i (touched writing e) m.page_table;
}

pub data Translation : Type 0 where
  refused : ExceptionType → Translation
  physical : ℕ → Machine → Translation

unfoldable pub use_entry : Found → ℕ → ℕ → Bool → Machine → Outcome Translation
use_entry (missing x) addr size writing m = ok (refused x)
use_entry (at_index i e) addr size writing m =
    let pa : ℕ = e.physical_page * page_size + addr % page_size in
    if e.is_read_only && writing
    then ok (refused read_only)
    else if leb num_phys_pages e.physical_page
    then ok (refused bus_error)
    else if leb (pa + size) memory_size
    then ok (physical pa (touch i e writing m))
    else fault

-- Machine::Translate
unfoldable pub translate : ℕ → ℕ → Bool → Machine → Outcome Translation
unfolding use_entry
translate addr size writing m =
    let found : Outcome Translation = (do
      f ← find_entry m (addr / page_size)
      use_entry f addr size writing m) in
    if misaligned size addr then ok (refused address_error) else found

-- The assignments to mainMemory of WriteMem.
unfoldable pub store : ℕ → ℕ → ℕ → (ℕ → ℕ) → Outcome (ℕ → ℕ)
store size pa value mem =
    let byte : Outcome (ℕ → ℕ) = ok (λ j. if j == pa then value % 256 else mem j) in
    let half : Outcome (ℕ → ℕ) =
      ok (λ j. if j == pa then value % 256 else if j == pa + 1 then value / 256 % 256 else mem j) in
    let word : Outcome (ℕ → ℕ) = ok (λ j.
      if j == pa
      then value % 256
      else if j == pa + 1
      then value / 256 % 256
      else if j == pa + 2
      then value / 65536 % 256
      else if j == pa + 3
      then value / 16777216 % 256
      else mem j) in
    if size == 1 then byte else if size == 2 then half else if size == 4 then word else fault

-- A char as an int, as 32 bits.
abbrev pub sign_extend : ℕ → ℕ
sign_extend b = if ltb b 128 then b else b + (2 ^ 32 - 256)

-- The value that ReadMem takes from mainMemory.
unfoldable pub load : ℕ → ℕ → (ℕ → ℕ) → Outcome ℕ
load size pa mem =
    if size == 1
    then ok (sign_extend (mem pa))
    else if size == 2
    then ok (mem pa + 256 * mem (pa + 1))
    else if size == 4
    then ok (mem pa + 256 * mem (pa + 1) + 65536 * mem (pa + 2) + 16777216 * mem (pa + 3))
    else fault

-- What ReadMem and WriteMem come to before an exception is raised.
pub data Access (A : Type 0) : Type 0 where
  raises : ExceptionType → Access A
  done : A → Machine → Access A

-- machine->lastUsed of the frame accessed.
abbrev pub stamp : ℕ → Machine → Machine
stamp pa m = record m {
  last_used = λ j. if j == pa / page_size then m.total_ticks else m.last_used j;
}

unfoldable pub read_at : Translation → ℕ → Outcome (Access ℕ)
unfolding load
read_at (refused x) size = ok (raises x)
read_at (physical pa m) size = do value ← load size pa m.main_memory; ok (done value (stamp pa m))

-- Machine::ReadMem
unfoldable pub read_mem : ℕ → ℕ → Machine → Outcome (Access ℕ)
unfolding translate read_at
read_mem addr size m = do t ← translate addr size false m; read_at t size

unfoldable pub write_at : Translation → ℕ → ℕ → Outcome (Access (Unit {0}))
unfolding store
write_at (refused x) size value = ok (raises x)
write_at (physical pa m) size value = do
  mem ← store size pa value m.main_memory
  ok (done tt (stamp pa (record m { main_memory = mem })))

-- Machine::WriteMem
unfoldable pub write_mem : ℕ → ℕ → ℕ → Machine → Outcome (Access (Unit {0}))
unfolding translate write_at
write_mem addr size value m = do t ← translate addr size true m; write_at t size value
