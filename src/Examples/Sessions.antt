-- ===== src/Examples/Sessions.antt =====
-- A program of Project 2/code/userprog/exception.cc with two pages and two descriptors of a file of 200 bytes.
use tree_fiddy.Prelude.{
  ℕ, zero, suc, ◌+◌, ◌%◌, ◌<◌, ◌≡◌, ◌≢◌, refl, true, false, none, some, [], ◌∷◌, arith, ◌==◌,
  if◌then◌else◌,
}
use tree_fiddy.Prelude.Int.{ℤ, pos, negsuc}
use tree_fiddy.Prelude.Outcome.{ok}
use tree_fiddy.BitMap.Members.{has}
use tree_fiddy.Memory.{Machine, TranslationEntry}
use tree_fiddy.Table.{Table}
use tree_fiddy.Table.Laws.{IsValid, slot}
use tree_fiddy.OpenFile.{OpenFile, Buffer}
use tree_fiddy.FileSystem.{open_file}
use tree_fiddy.FileCalls.{
  Session, Spare, goes_on, halts, create_call, open_call, write_call, read_call,
}
use tree_fiddy.FileCalls.Copying.{place, IsMapped, AreFrames, MapsPage}
use tree_fiddy.FileCalls.Transfer.{MovesOn, write_call-read_call}
use tree_fiddy.FileCalls.Descriptors.{Opened, name_at, open_call-Opens}
use tree_fiddy.FileCalls.Halting.{bad_buffer_halts}
use tree_fiddy.Examples.Programs.{object_file, program-LaidOut}

abbrev in_frames : ℕ → ℕ
in_frames v = if v == 0 then 5 else 3

abbrev page : ℕ → TranslationEntry
page v = record {
  virtual_page = v;
  physical_page = in_frames v;
  valid = true;
  is_read_only = false;
  is_used = false;
  is_dirty = false;
}

-- The memory holds the name "a" at the first address, and the numbers of the bytes elsewhere.
abbrev two_pages : Machine
two_pages = record {
  tlb = none;
  page_table = some (page 0 ∷ page 1 ∷ []);
  page_table_size = 2;
  main_memory = λ j. if j == 640 then 97 else if j == 641 then 0 else j;
  last_used = λ _. 0;
  total_ticks = 0;
}

abbrev descriptor : OpenFile
descriptor = record { hdr = object_file; seek_position = 120 }

abbrev six_slots : Table OpenFile
six_slots = record {
  map = record { num_bits = 6; num_words = 1; map = 15 ∷ [] };
  table = none ∷ none ∷ some descriptor ∷ some descriptor ∷ none ∷ none ∷ [];
  size = 6;
}

abbrev begun : Session
begun = record {
  machine = two_pages;
  files = record {
    directory = record { in_use = true; sector = pos 5; name = 97 ∷ [] } ∷ [];
    free_map = record { num_bits = 32; num_words = 1; map = 255 ∷ [] };
    headers = λ _. object_file;
  };
  disk = λ s j. s;
  file_table = six_slots;
}

abbrev empty : Buffer
empty j = 0

abbrev empties : Spare
empties = record { whole = empty; first = empty; last = empty }

six_slots-IsValid : IsValid six_slots
six_slots-IsValid = record { room = omega arith; bits = refl; slots = refl }

both_pages : (v : ℕ) → v < 2 → MapsPage (page 0 ∷ page 1 ∷ []) v (in_frames v)
both_pages zero lt = (page 0, refl, refl, refl, refl)
both_pages (suc zero) lt = (page 1, refl, refl, refl, refl)
both_pages (suc (suc v)) lt = absurd (omega arith)

two_pages-IsMapped : IsMapped in_frames 2 two_pages
two_pages-IsMapped = record {
  no_tlb = refl;
  t = page 0 ∷ page 1 ∷ [];
  table = refl;
  long = refl;
  pages = both_pages;
}

in_frames-AreFrames : AreFrames in_frames 2
in_frames-AreFrames = record {
  inside = λ v lt. ground arith;
  small = omega arith;
  distinct = λ v w a b e. ground arith;
}

-- 100 bytes from address 10 on, of which the file takes 80, come back at address 130.
write_call-read_call_example :
    (t u : Session) × (write_call 10 100 (pos 2) empty empties begun ≡ ok (goes_on t))
    × (read_call 130 100 (pos 3) empty empty empties t ≡ ok (goes_on (pos 80, u)))
    × ((j : ℕ)
        → j < 80
        → u.machine.main_memory (place in_frames (130 + j))
          ≡ two_pages.main_memory (place in_frames (10 + j)) % 256)
    × ((q : ℕ)
        → ((j : ℕ) → j < 80 → q ≢ place in_frames (130 + j))
        → u.machine.main_memory q ≡ two_pages.main_memory q)
    × MovesOn descriptor 2 100 six_slots t.file_table
    × MovesOn descriptor 3 100 t.file_table u.file_table
unfolding slot has
write_call-read_call_example =
    write_call-read_call in_frames 2 in_frames-AreFrames descriptor program-LaidOut begun 2 3 10 130
      100 empty empty empty empties empties two_pages-IsMapped six_slots-IsValid (omega arith)
      (omega arith) (omega arith) refl refl (omega arith) (omega arith)

open_call-Opens_example :
    (z : ℤ) × (t : Session) × (open_call 0 5 empty begun ≡ ok (goes_on (z, t)))
    × Opened (open_file (name_at in_frames 5 0 two_pages.main_memory) begun.files) six_slots z t
    × (t.files ≡ begun.files)
    × (t.disk ≡ begun.disk)
    × (t.machine.main_memory ≡ two_pages.main_memory)
open_call-Opens_example =
    open_call-Opens in_frames 2 in_frames-AreFrames begun 0 5 empty two_pages-IsMapped
      six_slots-IsValid (omega arith)

bad_buffer_halts_example :
    (create_call 250 10 empty object_file begun ≡ ok halts)
    × (open_call 250 10 empty begun ≡ ok halts)
    × (write_call 250 10 (negsuc 4) empty empties begun ≡ ok halts)
    × (read_call 250 10 (pos 0) empty empty empties begun ≡ ok halts)
bad_buffer_halts_example =
    bad_buffer_halts in_frames 2 in_frames-AreFrames begun 250 10 (negsuc 4) empty empty empties
      object_file two_pages-IsMapped (omega arith) (omega arith) refl
