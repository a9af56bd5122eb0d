-- ===== src/FileSystem.antt =====
-- Project 2/code/filesys/filesys.cc: Create, Open and Remove over the directory, the map of free sectors
-- and the file headers. The record holds what the directory's file, the map's file and each sector, read
-- as a header, hold; FetchFrom and WriteBack copy them whole. A new header holds what its storage
-- held, which is an argument. A file size is not negative here.
pub mod Consistent
pub mod Creating
pub mod Created
pub mod Removing
pub mod Whole
pub mod Apart
use tree_fiddy.Prelude.{
  ℕ, zero, suc, ◌+◌, Bool, true, false, Option, none, some, List, ◌==◌, if◌then◌else◌,
}
use tree_fiddy.Prelude.Int.{ℤ, pos, negsuc}
use tree_fiddy.Prelude.Outcome.{Outcome, ok, fault, ◌>>=◌}
use tree_fiddy.BitMap.{BitMap}
use tree_fiddy.BitMap
use tree_fiddy.Directory.{DirectoryEntry}
use tree_fiddy.Directory
use tree_fiddy.FileHeader.{FileHeader, allocate, deallocate}
use tree_fiddy.OpenFile.{OpenFile}

pub record FileSystem : Type 0 where
  pub directory : List DirectoryEntry
  pub free_map : BitMap
  pub headers : ℕ → FileHeader

-- FileHeader::WriteBack of a header to a sector
abbrev pub write_back : ℕ → FileHeader → (ℕ → FileHeader) → ℕ → FileHeader
write_back s h headers t = if t == s then h else headers t

-- sector != -1 for a result of Directory::Find
abbrev pub is_found : ℤ → Bool
is_found (pos s) = true
is_found (negsuc zero) = false
is_found (negsuc (suc s)) = true

-- What Create does once the name is in the directory.
unfoldable pub create_data :
    ℕ → FileHeader → ℕ → List DirectoryEntry → BitMap → FileSystem → Outcome (Bool × FileSystem)
unfolding allocate
create_data size junk s directory m fs = do
  (done, h, m') ← allocate m size junk
  ok (
    done,
    if done
        then record { directory = directory; free_map = m'; headers = write_back s h fs.headers }
        else fs,
  )

-- What Create does with the sector that BitMap::Find has found for the header.
unfoldable pub create_in :
    Option ℕ → List ℕ → ℕ → FileHeader → BitMap → FileSystem → Outcome (Bool × FileSystem)
unfolding create_data Directory.add
create_in none name size junk m fs = ok (false, fs)
create_in (some s) name size junk m fs =
    let (added, directory) = Directory.add fs.directory name (pos s) in
    let rest : Outcome (Bool × FileSystem) = create_data size junk s directory m fs in
    if added then rest else ok (false, fs)

-- FileSystem::Create
unfoldable pub create : List ℕ → ℕ → FileHeader → FileSystem → Outcome (Bool × FileSystem)
unfolding create_in Directory.find
create name size junk fs =
    let makes : Outcome (Bool × FileSystem) = (do
      (s, m) ← BitMap.find fs.free_map
      create_in s name size junk m fs) in
    if is_found (Directory.find fs.directory name) then ok (false, fs) else makes

-- FileSystem::Open; the result none is a null pointer.
abbrev pub open_at : ℤ → FileSystem → Option OpenFile
open_at (pos s) fs = some (record { hdr = fs.headers s; seek_position = 0 })
open_at (negsuc s) fs = none

unfoldable pub open_file : List ℕ → FileSystem → Option OpenFile
unfolding Directory.find
open_file name fs = open_at (Directory.find fs.directory name) fs

-- What Remove does with the sector of the name; a header cannot be read from a sector that is no sector.
unfoldable pub remove_at : ℤ → List ℕ → FileSystem → Outcome (Bool × FileSystem)
unfolding deallocate Directory.remove
remove_at (pos s) name fs = do
  m ← deallocate (fs.headers s) fs.free_map
  m' ← BitMap.clear m (pos s)
  ok (true, record fs { directory = (Directory.remove fs.directory name).1; free_map = m' })
remove_at (negsuc zero) name fs = ok (false, fs)
remove_at (negsuc (suc s)) name fs = fault

-- FileSystem::Remove
unfoldable pub remove : List ℕ → FileSystem → Outcome (Bool × FileSystem)
unfolding remove_at Directory.find
remove name fs = remove_at (Directory.find fs.directory name) name fs
