-- ===== src/FileHeader.antt =====
-- Project 2/code/filesys/filehdr.cc and filehdr.h: the header of a file, which says in which disk
-- sectors its data stand. A file size and an offset are not negative here. An access outside
-- `dataSectors` is a fault. FetchFrom and WriteBack copy the header from and to the disk, and Print
-- only prints.
pub mod Allocation
pub mod Taking
pub mod RoundTrip
use tree_fiddy.Prelude.{
  ℕ, zero, suc, ◌+◌, ◌/◌, Bool, true, false, Option, none, some, List, ltb, if◌then◌else◌,
  get_elem?, set, length,
}
use tree_fiddy.Prelude.Int.{ℤ, pos, negsuc}
use tree_fiddy.Prelude.Outcome.{Outcome, ok, fault, ◌>>=◌, assert}
use tree_fiddy.BitMap.{BitMap, div_round_up, find, num_clear, test, clear}

abbrev pub sector_size : ℕ
sector_size = 128

abbrev pub num_direct : ℕ
num_direct = 30

pub record FileHeader : Type 0 where
  pub num_bytes : ℕ
  pub num_sectors : ℕ
  pub data_sectors : List ℤ

-- The int that BitMap::Find returns.
abbrev pub found_int : Option ℕ → ℤ
found_int none = negsuc 0
found_int (some s) = pos s

-- dataSectors[i] = s
unfoldable pub put_sector : ℕ → ℤ → FileHeader → Outcome FileHeader
put_sector i s h =
    if ltb i (length h.data_sectors)
    then ok (record h { data_sectors = set h.data_sectors i s })
    else fault

abbrev pub sector_in : Option ℤ → Outcome ℤ
sector_in none = fault
sector_in (some s) = ok s

abbrev pub sector_at : FileHeader → ℕ → Outcome ℤ
sector_at h i = sector_in (get_elem? h.data_sectors i)

-- The loop of Allocate, with `n` rounds left at index i.
unfoldable pub allocate_loop : ℕ → ℕ → FileHeader → BitMap → Outcome (FileHeader × BitMap)
unfolding put_sector
allocate_loop zero i h m = ok (h, m)
allocate_loop (suc n) i h m = do
  (s, m') ← find m
  h' ← put_sector i (found_int s) h
  allocate_loop n (i + 1) h' m'

-- The outcome that Allocate reports, with what it has written.
abbrev pub answer : Bool → FileHeader × BitMap → Outcome (Bool × FileHeader × BitMap)
answer b (h, m) = ok (b, h, m)

-- FileHeader::Allocate
unfoldable pub allocate : BitMap → ℕ → FileHeader → Outcome (Bool × FileHeader × BitMap)
unfolding allocate_loop
allocate m size h =
    let n : ℕ = div_round_up size sector_size in
    let sized : FileHeader = record h { num_bytes = size; num_sectors = n } in
    let takes : Outcome (Bool × FileHeader × BitMap) = allocate_loop n 0 sized m >>= answer true in
    do free ← num_clear m; if ltb free n then ok (false, sized, m) else takes

-- The loop of Deallocate.
unfoldable pub deallocate_loop : ℕ → ℕ → FileHeader → BitMap → Outcome BitMap
deallocate_loop zero i h m = ok m
deallocate_loop (suc n) i h m = do
  s ← sector_at h i
  marked ← test m s
  u ← assert marked
  m' ← clear m s
  deallocate_loop n (i + 1) h m'

-- FileHeader::Deallocate
unfoldable pub deallocate : FileHeader → BitMap → Outcome BitMap
unfolding deallocate_loop
deallocate h m = deallocate_loop h.num_sectors 0 h m

-- FileHeader::ByteToSector
unfoldable pub byte_to_sector : FileHeader → ℕ → Outcome ℤ
byte_to_sector h offset = sector_at h (offset / sector_size)

-- FileHeader::FileLength
abbrev pub file_length : FileHeader → ℕ
file_length h = h.num_bytes
