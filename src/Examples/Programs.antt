-- ===== src/Examples/Programs.antt =====
-- A program of 160 bytes of code for Project 2/code/userprog/addrspace.cc, in a file of 200 bytes with its
-- data in the sectors 7 and 8.
use tree_fiddy.Prelude.{
  ℕ, ◌*◌, ◌≡◌, ◌<◌, refl, none, ◌∷◌, ◌==◌, if◌then◌else◌, replicate, arith, ℕ_discrete,
}
use tree_fiddy.Prelude.Int.{pos}
use tree_fiddy.Prelude.Outcome.{ok}
use tree_fiddy.BitMap.{BitMap}
use tree_fiddy.BitMap.Clears.{new_bit_map-Cleared}
use tree_fiddy.Disk.{num_sectors_on_disk}
use tree_fiddy.FileHeader.{FileHeader, sector_size, byte_to_sector}
use tree_fiddy.OpenFile.{Storage}
use tree_fiddy.OpenFile.Sectors.{LaidOut}
use tree_fiddy.AddrSpace.{Executable, new_addr_space}
use tree_fiddy.AddrSpace.Image.{Runs, new_addr_space-Runs}

abbrev pub object_file : FileHeader
object_file = record {
  num_bytes = 200;
  num_sectors = 2;
  data_sectors = pos 7 ∷ pos 8 ∷ replicate 28 (pos 0);
}

-- The magic number, code at byte 40 of the file, and 160 bytes of it.
abbrev object_bytes : Storage
object_bytes s j =
    if s == 7
    then (if j == 0
        then 173
        else if j == 1
        then 223
        else if j == 2
        then 186
        else if j == 8
        then 40
        else if j == 12
        then 160
        else 0)
    else j

abbrev program : Executable
program = record { file = object_file; disk = object_bytes; buffer = λ j. 0 }

abbrev pub program_sectors : ℕ → ℕ
program_sectors b = if b == 0 then 7 else 8

pub program_named :
    (b : ℕ)
    → b * sector_size < 200
    → byte_to_sector object_file (b * sector_size) ≡ ok (pos (program_sectors b))
unfolding byte_to_sector
program_named b below = elim (ℕ_discrete b 0) [
  | yes e ↦ rw e refl
  | no ne ↦ let one : b ≡ 1 = omega arith in rw one refl
]

pub program_on_disk : (b : ℕ) → b * sector_size < 200 → program_sectors b < num_sectors_on_disk
program_on_disk b below = ground arith

pub program_distinct :
    (b c : ℕ)
    → b * sector_size < 200
    → c * sector_size < 200
    → program_sectors b ≡ program_sectors c
    → b ≡ c
program_distinct b c p q e = ground arith

abbrev pub program-LaidOut : LaidOut object_file
program-LaidOut = record {
  sectors = program_sectors;
  named = program_named;
  on_disk = program_on_disk;
  distinct = program_distinct;
}

-- All frames free.
abbrev frames : BitMap
frames = (new_bit_map-Cleared 4096 (λ j. 0)).0

new_addr_space-Runs_example :
    Runs program program-LaidOut frames
      (λ j. 255)
      (new_addr_space (λ j. 0) (replicate 256 none) (λ j. 0) program frames (λ j. 255))
new_addr_space-Runs_example =
    let (m, made, room, size, below, count) = new_bit_map-Cleared 4096 (λ j. 0) in
    new_addr_space-Runs (λ j. 0) (replicate 256 none) (λ j. 0) program program-LaidOut 4086 m
      (λ j. 255) refl (omega arith) refl (omega arith) (omega arith) room size count
