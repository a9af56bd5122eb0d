-- ===== src/Examples/Files.antt =====
-- The file headers of Project 2/code/filesys/filehdr.cc and directory.cc at concrete inputs.
use tree_fiddy.Prelude.{ℕ, ◌/◌, ◌<◌, ◌≡◌, refl, List, true, false, [], ◌∷◌, replicate, arith}
use tree_fiddy.Prelude.Int.{pos}
use tree_fiddy.Prelude.Outcome.{ok, fault}
use tree_fiddy.BitMap.{BitMap, num_clear, test}
use tree_fiddy.BitMap.Members.{has}
use tree_fiddy.FileHeader.{FileHeader, sector_size, allocate, deallocate, byte_to_sector}
use tree_fiddy.Directory.{DirectoryEntry, same_name}
use tree_fiddy.Directory.Laws.{lookup, IsValid}
use tree_fiddy.FileHeader.RoundTrip.{allocate-deallocate, allocate_overruns, allocated_bytes}

-- 40 sectors, of which 0 and 2 are taken.
abbrev sectors : BitMap
sectors = record { num_bits = 40; num_words = 2; map = 5 ∷ 0 ∷ [] }

abbrev blank : FileHeader
blank = record { num_bytes = 0; num_sectors = 0; data_sectors = replicate 30 (pos 0) }

sectors_count : num_clear sectors ≡ ok 38
unfolding num_clear test has
sectors_count = refl

allocate-deallocate_example :
    (h' : FileHeader) × (m' : BitMap) × (m'' : BitMap) × (allocate sectors 300 blank
      ≡ ok (true, h', m'))
    × (deallocate h' m' ≡ ok m'')
    × ((s : ℕ) → has m'' s ≡ has sectors s)
allocate-deallocate_example =
    allocate-deallocate sectors 300 35 blank (omega arith) refl (omega arith) sectors_count

allocate_overruns_example : allocate sectors 3968 blank ≡ fault
allocate_overruns_example =
    allocate_overruns sectors 3968 7 blank (omega arith) refl (omega arith) sectors_count

allocated_bytes_example :
    (h' : FileHeader) × (m' : BitMap) × (allocate sectors 300 blank ≡ ok (true, h', m'))
    × ((o : ℕ)
        → o < 300
        → (s : ℕ) × (byte_to_sector h' o ≡ ok (pos s))
          × (has sectors s ≡ false)
          × (has m' s ≡ true))
    × ((o o' s : ℕ)
        → o < 300
        → o' < 300
        → byte_to_sector h' o ≡ ok (pos s)
        → byte_to_sector h' o' ≡ ok (pos s)
        → o / sector_size ≡ o' / sector_size)
allocated_bytes_example =
    allocated_bytes sectors 300 35 blank (omega arith) refl (omega arith) sectors_count

-- Two entries in use and a free one.
abbrev files : List DirectoryEntry
files =
    record { in_use = true; sector = pos 5; name = 97 ∷ 98 ∷ [] }
    ∷ record { in_use = false; sector = pos 9; name = 97 ∷ [] }
    ∷ record { in_use = true; sector = pos 6; name = 99 ∷ [] }
    ∷ []

files-IsValid : IsValid files
unfolding IsValid lookup same_name
files-IsValid = (λ u. refl, (λ u. refl, (λ u. refl, tt)))

abbrev junk_entry : DirectoryEntry
junk_entry = record { in_use = true; sector = pos 77; name = 98 ∷ [] }
