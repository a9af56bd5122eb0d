-- ===== src/Directory.antt =====
-- Project 2/code/filesys/directory.cc and directory.h: the table of file names. A name is the bytes of
-- a C string before its end; an entry keeps the first nine of them, and its tenth byte, which only
-- List and Print read, is left out. `tableSize` is the length of the table. FetchFrom and WriteBack copy
-- the table from and to a file; List and Print only print.
pub mod Names
pub mod Laws
use tree_fiddy.Prelude.{
  ℕ, zero, suc, ◌+◌, Bool, true, false, ◌&&◌, Option, none, some, List, [], ◌∷◌, ◌==◌,
  if◌then◌else◌, get_elem?, take,
}
use tree_fiddy.Prelude.Int.{ℤ, pos, negsuc}

abbrev pub file_name_max_len : ℕ
file_name_max_len = 9

pub record DirectoryEntry : Type 0 where
  pub in_use : Bool
  pub sector : ℤ
  pub name : List ℕ

-- !strncmp(a, b, n)
unfoldable pub same_name : ℕ → List ℕ → List ℕ → Bool
same_name zero a b = true
same_name (suc n) [] [] = true
same_name (suc n) [] (y ∷ b) = false
same_name (suc n) (x ∷ a) [] = false
same_name (suc n) (x ∷ a) (y ∷ b) = x == y && same_name n a b

-- Directory::Directory, with what the storage holds in the other fields.
unfoldable pub new_directory : ℕ → (ℕ → DirectoryEntry) → List DirectoryEntry
new_directory zero junk = []
new_directory (suc n) junk = record (junk n) { in_use = false } ∷ new_directory n junk

abbrev pub matches : List ℕ → DirectoryEntry → Bool
matches name e = e.in_use && same_name file_name_max_len e.name name

-- The loop of FindIndex, from index i on.
unfoldable pub find_from : List DirectoryEntry → ℕ → List ℕ → Option ℕ
find_from [] i name = none
find_from (e ∷ t) i name = if matches name e then some i else find_from t (i + 1) name

-- Directory::FindIndex
abbrev pub find_index : List DirectoryEntry → List ℕ → Option ℕ
find_index t name = find_from t 0 name

-- table[i].sector; FindIndex gives no index out of the table.
abbrev pub sector_of : Option DirectoryEntry → ℤ
sector_of none = negsuc 0
sector_of (some e) = e.sector

abbrev pub sector_found : List DirectoryEntry → Option ℕ → ℤ
sector_found t none = negsuc 0
sector_found t (some i) = sector_of (get_elem? t i)

-- Directory::Find
unfoldable pub find : List DirectoryEntry → List ℕ → ℤ
unfolding find_from
find t name = sector_found t (find_index t name)

abbrev pub cons_second : DirectoryEntry → Bool × List DirectoryEntry → Bool × List DirectoryEntry
cons_second e (b, t) = (b, e ∷ t)

-- The loop of Add, which takes the first entry that is not in use.
unfoldable pub add_loop : List DirectoryEntry → List ℕ → ℤ → Bool × List DirectoryEntry
add_loop [] name s = (false, [])
add_loop (e ∷ t) name s =
    let used : DirectoryEntry = record {
      in_use = true;
      sector = s;
      name = take file_name_max_len name;
    } in
    let rest = add_loop t name s in if e.in_use then cons_second e rest else (true, used ∷ t)

unfoldable pub add_unless : Option ℕ → List DirectoryEntry → List ℕ → ℤ → Bool × List DirectoryEntry
unfolding add_loop
add_unless none t name s = add_loop t name s
add_unless (some i) t name s = (false, t)

-- Directory::Add
unfoldable pub add : List DirectoryEntry → List ℕ → ℤ → Bool × List DirectoryEntry
unfolding add_unless find_from
add t name s = add_unless (find_index t name) t name s

-- table[i].inUse = FALSE
unfoldable pub free_at : List DirectoryEntry → ℕ → List DirectoryEntry
free_at [] i = []
free_at (e ∷ t) zero = record e { in_use = false } ∷ t
free_at (e ∷ t) (suc i) = e ∷ free_at t i

unfoldable pub remove_found : Option ℕ → List DirectoryEntry → Bool × List DirectoryEntry
unfolding free_at
remove_found none t = (false, t)
remove_found (some i) t = (true, free_at t i)

-- Directory::Remove
unfoldable pub remove : List DirectoryEntry → List ℕ → Bool × List DirectoryEntry
unfolding remove_found find_from
remove t name = remove_found (find_index t name) t
