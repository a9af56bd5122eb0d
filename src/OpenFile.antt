-- ===== src/OpenFile.antt =====
-- Project 2/code/filesys/openfile.cc: reads and writes of a file through whole disk sectors, which
-- SynchDisk of synchdisk.cc reads and writes one at a time. A disk holds bytes by sector and offset,
-- and a buffer is its bytes by offset. A new buffer holds what its storage held, which is an argument.
-- A count and a position are not negative here.
pub mod Sectors
pub mod Reading
pub mod Writing
pub mod Whole
use tree_fiddy.Prelude.{
  ℕ, zero, suc, ◌+◌, ◌-◌, ◌*◌, ◌/◌, ◌≡◌, Bool, true, false, not, ◌&&◌, ◌||◌, if◌then◌else◌, ltb,
  leb, ◌==◌,
}
use tree_fiddy.Prelude.Int.{ℤ, pos, negsuc}
use tree_fiddy.Prelude.Outcome.{Outcome, ok, fault, ◌>>=◌}
use tree_fiddy.Disk.{num_sectors_on_disk}
use tree_fiddy.FileHeader.{FileHeader, sector_size, byte_to_sector, file_length}

abbrev pub Buffer : Type 0
Buffer = ℕ → ℕ

abbrev pub Storage : Type 0
Storage = ℕ → Buffer

-- bcopy(from, &into[at], n)
unfoldable pub copy : ℕ → Buffer → ℕ → Buffer → Buffer
copy n from at into j = if leb at j && ltb j (at + n) then from (j - at) else into j

-- &buffer[at]
abbrev pub from_offset : ℕ → Buffer → Buffer
from_offset at b j = b (at + j)

-- SynchDisk::ReadSector, with the ASSERT of Disk::ReadRequest. That it waits its turn and sleeps until the
-- disk is done is left out.
unfoldable pub read_sector : ℤ → Storage → Outcome Buffer
read_sector (pos s) d = if ltb s num_sectors_on_disk then ok (d s) else fault
read_sector (negsuc s) d = fault

-- SynchDisk::WriteSector, with the ASSERT of Disk::WriteRequest.
unfoldable pub write_sector : ℤ → Buffer → Storage → Outcome Storage
write_sector (pos s) b d =
    if ltb s num_sectors_on_disk then ok (λ t. if t == s then b else d t) else fault
write_sector (negsuc s) b d = fault

-- The loop of ReadAt at sector i, with n rounds left.
unfoldable pub read_loop : ℕ → (i first_sector : ℕ) → FileHeader → Storage → Buffer → Outcome Buffer
unfolding byte_to_sector read_sector copy
read_loop zero i first_sector h d buf = ok buf
read_loop (suc n) i first_sector h d buf = do
  z ← byte_to_sector h (i * sector_size)
  s ← read_sector z d
  read_loop n (i + 1) first_sector h d (copy sector_size s ((i - first_sector) * sector_size) buf)

-- The loop of WriteAt at sector i, with n rounds left.
unfoldable pub write_loop :
    ℕ → (i first_sector : ℕ) → FileHeader → Buffer → Storage → Outcome Storage
unfolding byte_to_sector write_sector
write_loop zero i first_sector h buf d = ok d
write_loop (suc n) i first_sector h buf d = do
  z ← byte_to_sector h (i * sector_size)
  d' ← write_sector z (from_offset ((i - first_sector) * sector_size) buf) d
  write_loop n (i + 1) first_sector h buf d'

-- A request for no byte, or from the end of the file on.
abbrev pub is_empty_request : FileHeader → ℕ → ℕ → Bool
is_empty_request h num_bytes position = num_bytes == 0 || leb (file_length h) position

-- The count is cut off at the end of the file.
abbrev pub cut_off : FileHeader → ℕ → ℕ → ℕ
cut_off h num_bytes position =
    if ltb (file_length h) (position + num_bytes) then file_length h - position else num_bytes

abbrev pub first_sector_of : ℕ → ℕ
first_sector_of position = position / sector_size

abbrev pub last_sector_of : ℕ → ℕ → ℕ
last_sector_of n position = (position + n - 1) / sector_size

-- ReadAt of n bytes inside the file, into the buffer from `at` on.
unfoldable pub read_inside :
    (n position : ℕ)
    → FileHeader
    → Storage
    → (buf : Buffer) → (at : ℕ) → Buffer
    → Outcome (ℕ × Buffer)
unfolding read_loop copy
read_inside n position h d buf at into = do
  let first = first_sector_of position
  let last = last_sector_of n position
  whole ← read_loop (1 + last - first) first first h d buf
  ok (n, copy n (from_offset (position - first * sector_size) whole) at into)

-- OpenFile::ReadAt into &into[at]
unfoldable pub read_at :
    FileHeader
    → Storage
    → (buf : Buffer) → (at : ℕ) → Buffer
    → (num_bytes position : ℕ) → Outcome (ℕ × Buffer)
unfolding read_inside
read_at h d buf at into num_bytes position =
    if is_empty_request h num_bytes position
    then ok (0, into)
    else read_inside (cut_off h num_bytes position) position h d buf at into

-- ReadAt of a whole sector into &into[at], where a test asks for it.
unfoldable pub read_if :
    Bool → FileHeader → Storage → (buf : Buffer) → (at : ℕ) → Buffer → (sector : ℕ) → Outcome Buffer
unfolding read_at
read_if needed h d buf at into sector =
    let read : Outcome Buffer = (do
      (n, into') ← read_at h d buf at into sector_size (sector * sector_size)
      ok into') in
    if needed then read else ok into

-- WriteAt of n bytes inside the file. `buf` is its buffer, `first_buf` and `last_buf` those of the calls of ReadAt.
unfoldable pub write_inside :
    (n position : ℕ)
    → FileHeader
    → Storage
    → (buf first_buf last_buf : Buffer) → Buffer
    → Outcome (ℕ × Storage)
unfolding read_if write_loop copy
write_inside n position h d buf first_buf last_buf from = do
  let first = first_sector_of position
  let last = last_sector_of n position
  let first_aligned = position == first * sector_size
  let last_aligned = position + n == (last + 1) * sector_size
  b ← read_if (not first_aligned) h d first_buf 0 buf first
  b' ←
      read_if (not last_aligned && (not (first == last) || first_aligned)) h d last_buf
        ((last - first) * sector_size) b last
  d' ←
      write_loop (1 + last - first) first first h (copy n from (position - first * sector_size) b')
        d
  ok (n, d')

-- OpenFile::WriteAt
unfoldable pub write_at :
    FileHeader
    → Storage
    → (buf first_buf last_buf : Buffer) → Buffer
    → (num_bytes position : ℕ) → Outcome (ℕ × Storage)
unfolding write_inside
write_at h d buf first_buf last_buf from num_bytes position =
    if is_empty_request h num_bytes position
    then ok (0, d)
    else write_inside (cut_off h num_bytes position) position h d buf first_buf last_buf from

pub record OpenFile : Type 0 where
  pub hdr : FileHeader
  pub seek_position : ℕ

-- OpenFile::Seek
abbrev pub seek : ℕ → OpenFile → OpenFile
seek position f = record f { seek_position = position }

-- The position moves on by the bytes read or written.
abbrev pub move_on : ℕ → OpenFile → OpenFile
move_on n f = record f { seek_position = f.seek_position + n }

-- OpenFile::Read
unfoldable pub read : OpenFile → Storage → (buf into : Buffer) → ℕ → Outcome (ℕ × Buffer × OpenFile)
unfolding read_at
read f d buf into num_bytes = do
  (n, into') ← read_at f.hdr d buf 0 into num_bytes f.seek_position
  ok (n, into', move_on n f)

-- OpenFile::Write
unfoldable pub write :
    OpenFile
    → Storage
    → (buf first_buf last_buf from : Buffer) → ℕ
    → Outcome (ℕ × Storage × OpenFile)
unfolding write_at
write f d buf first_buf last_buf from num_bytes = do
  (n, d') ← write_at f.hdr d buf first_buf last_buf from num_bytes f.seek_position
  ok (n, d', move_on n f)
