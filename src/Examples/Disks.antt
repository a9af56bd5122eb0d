-- ===== src/Examples/Disks.antt =====
-- A disk of Project 2/code/filesys/filesys.cc with two files: "ab" of 200 bytes, with its header in sector 5
-- and its data in 7 and 8, and "c" of 100 bytes, with its header in sector 6 and its data in 9.
use tree_fiddy.Prelude.{
  ℕ, ◌+◌, ◌≤◌, ◌<◌, ◌≡◌, refl, subst, ◌⊎◌, inl, inr, true, false, none, some, List, [], ◌∷◌, ◌==◌,
  if◌then◌else◌, replicate, arith, Bool-cases, ℕ_discrete,
}
use tree_fiddy.Prelude.Int.{ℤ, pos}
use tree_fiddy.Prelude.Outcome.{ok}
use tree_fiddy.BitMap.{BitMap, num_clear, test}
use tree_fiddy.BitMap.Members.{has, HasRoom}
use tree_fiddy.Directory.{DirectoryEntry, same_name}
use tree_fiddy.Directory.Names.{same_name_trans}
use tree_fiddy.Directory.Laws.{lookup, same, has_space, IsValid}
use tree_fiddy.FileHeader.{FileHeader}
use tree_fiddy.FileHeader.Allocation.{Names}
use tree_fiddy.OpenFile.{OpenFile, Buffer, Storage, write, seek, read}
use tree_fiddy.OpenFile.Sectors.{LaidOut, byte_of}
use tree_fiddy.OpenFile.Writing.{Puts}
use tree_fiddy.OpenFile.Whole.{write-seek-read}
use tree_fiddy.FileSystem.{FileSystem, create, remove, open_file}
use tree_fiddy.FileSystem.Consistent.{Holds, IsFile, IsConsistent}
use tree_fiddy.FileSystem.Created.{Answers, create-Answers}
use tree_fiddy.FileSystem.Removing.{RemovesFile, remove-RemovesFile}
use tree_fiddy.FileSystem.Whole.{create-remove, IsFile-LaidOut}
use tree_fiddy.FileSystem.Apart.{write_other_file}

abbrev two_sectors : FileHeader
two_sectors = record {
  num_bytes = 200;
  num_sectors = 2;
  data_sectors = pos 7 ∷ pos 8 ∷ replicate 28 (pos 0);
}

abbrev one_sector : FileHeader
one_sector = record {
  num_bytes = 100;
  num_sectors = 1;
  data_sectors = pos 9 ∷ replicate 29 (pos 0);
}

abbrev headers_on_disk : ℕ → FileHeader
headers_on_disk s = if s == 5 then two_sectors else one_sector

abbrev two_files : List DirectoryEntry
two_files =
    record { in_use = true; sector = pos 5; name = 97 ∷ 98 ∷ [] }
    ∷ record { in_use = true; sector = pos 6; name = 99 ∷ [] }
    ∷ record { in_use = false; sector = pos 4; name = 99 ∷ [] }
    ∷ []

abbrev on_map : BitMap → FileSystem
on_map m = record { directory = two_files; free_map = m; headers = headers_on_disk }

two_files-IsValid : IsValid two_files
unfolding IsValid lookup same_name
two_files-IsValid = (λ u. refl, (λ u. refl, (λ u. refl, tt)))

-- The files that the two names have.
data Of (name : List ℕ) (z : ℤ) : Type 0 where
  first_file : same (97 ∷ 98 ∷ []) name ≡ true → z ≡ pos 5 → Of name z
  second_file : same (99 ∷ []) name ≡ true → z ≡ pos 6 → Of name z

file-Of : (name : List ℕ) (z : ℤ) → lookup two_files name ≡ some z → Of name z
unfolding lookup
file-Of name z e = elim (Bool-cases (same (97 ∷ 98 ∷ []) name)) [
  | inl its ↦ first_file its (ground arith)
  | inr not_its ↦ elim (Bool-cases (same (99 ∷ []) name)) [
    | inl its ↦ second_file its (ground arith)
    | inr none_its ↦ absurd (ground arith)
  ]
]

first-Names : (j s : ℕ) → j < 2 → Names two_sectors j s → s ≡ j + 7
first-Names j s below name = elim (ℕ_discrete j 0) [
  | yes e ↦
      let at : Names two_sectors 0 s = subst (λ x. Names two_sectors x s) e name in
      let is : s ≡ 7 = ground arith in omega arith
  | no ne ↦
      let one : j ≡ 1 = omega arith in
      let at : Names two_sectors 1 s = subst (λ x. Names two_sectors x s) one name in
      let is : s ≡ 8 = ground arith in omega arith
]

second-Names : (j s : ℕ) → j < 1 → Names one_sector j s → s ≡ 9
second-Names j s below name =
    let none_before : j ≡ 0 = omega arith in
    let at : Names one_sector 0 s = subst (λ x. Names one_sector x s) none_before name in
    ground arith

first-Holds : (u : ℕ) → Holds two_sectors 5 u → (u ≡ 5) ⊎ (u ≡ 7) ⊎ (u ≡ 8)
first-Holds u (inl e) = inl e
first-Holds u (inr (j, below, name)) = ground (arith, first-Names j u below name)

second-Holds : (u : ℕ) → Holds one_sector 6 u → (u ≡ 6) ⊎ (u ≡ 9)
second-Holds u (inl e) = inl e
second-Holds u (inr (j, below, name)) = inr (second-Names j u below name)

module _ (m : BitMap) (room : HasRoom m) (size : 9 < m.num_bits)
    (bits : (u : ℕ) → 5 ≤ u → u < 10 → has m u ≡ true) where
  first-IsFile : IsFile two_sectors m 5
  first-IsFile = record {
    in_map = omega arith;
    marked = bits 5 (omega arith) (omega arith);
    owns = record {
      named = λ j p q. elim (ℕ_discrete j 0) [
        | yes e ↦ rw e (7, refl, omega arith, bits 7 (omega arith) (omega arith))
        | no ne ↦
            let one : j ≡ 1 = omega arith in
            rw one (8, refl, omega arith, bits 8 (omega arith) (omega arith))
      ];
      distinct =
          λ j k s p q r a b. omega (arith, first-Names j s (omega arith) a, first-Names k s r b);
    };
    separate = λ j below name. omega (arith, first-Names j 5 below name);
    long_enough = refl;
  }

  second-IsFile : IsFile one_sector m 6
  second-IsFile = record {
    in_map = omega arith;
    marked = bits 6 (omega arith) (omega arith);
    owns = record {
      named = λ j p q.
          let first : j ≡ 0 = omega arith in
          rw first (9, refl, omega arith, bits 9 (omega arith) (omega arith));
      distinct = λ j k s p q r a b. absurd (omega arith);
    };
    separate = λ j below name. omega (arith, second-Names j 6 below name);
    long_enough = refl;
  }

  whole-IsFile :
      (name : List ℕ) (z : ℤ) → Of name z → (s : ℕ) × (z ≡ pos s) × IsFile (headers_on_disk s) m s
  whole-IsFile name z (first_file its e) = (5, e, first-IsFile)
  whole-IsFile name z (second_file its e) = (6, e, second-IsFile)

  files_apart :
      (a b : List ℕ) (s t u : ℕ)
      → Of a (pos s)
      → Of b (pos t)
      → same a b ≡ false
      → Holds (headers_on_disk s) s u
      → ¬ (Holds (headers_on_disk t) t u)
  files_apart a b s t u (first_file i e) (first_file i' e') differ h h' =
      absurd (ground (arith, same_name_trans 9 (97 ∷ 98 ∷ []) a b i))
  files_apart a b s t u (second_file i e) (second_file i' e') differ h h' =
      absurd (ground (arith, same_name_trans 9 (99 ∷ []) a b i))
  files_apart a b s t u (first_file i e) (second_file i' e') differ h h' =
      let five : s ≡ 5 = ground arith in
      let six : t ≡ 6 = ground arith in
      let own = first-Holds u (subst (λ x. Holds (headers_on_disk x) x u) five h) in
      let own' = second-Holds u (subst (λ x. Holds (headers_on_disk x) x u) six h') in ground arith
  files_apart a b s t u (second_file i e) (first_file i' e') differ h h' =
      let six : s ≡ 6 = ground arith in
      let five : t ≡ 5 = ground arith in
      let own = second-Holds u (subst (λ x. Holds (headers_on_disk x) x u) six h) in
      let own' = first-Holds u (subst (λ x. Holds (headers_on_disk x) x u) five h') in ground arith

  on_map-IsConsistent : IsConsistent (on_map m)
  on_map-IsConsistent = record {
    room = room;
    valid = two_files-IsValid;
    whole = λ name z e. whole-IsFile name z (file-Of name z e);
    apart = λ a b s t u e e'. files_apart a b s t u (file-Of a (pos s) e) (file-Of b (pos t) e');
  }

-- Sectors 0 to 3 and 5 to 9 are taken.
abbrev small_map : BitMap
small_map = record { num_bits = 40; num_words = 2; map = 1007 ∷ 0 ∷ [] }

abbrev disk_map : BitMap
disk_map = record { num_bits = 1024; num_words = 32; map = 1007 ∷ replicate 31 0 }

word_bits : (u : ℕ) → 5 ≤ u → u < 10 → (has small_map u ≡ true) × (has disk_map u ≡ true)
unfolding has
word_bits u lo hi = elim (ℕ_discrete u 5) [
  | yes e ↦ rw e (refl, refl)
  | no not_5 ↦ elim (ℕ_discrete u 6) [
    | yes e ↦ rw e (refl, refl)
    | no not_6 ↦ elim (ℕ_discrete u 7) [
      | yes e ↦ rw e (refl, refl)
      | no not_7 ↦ elim (ℕ_discrete u 8) [
        | yes e ↦ rw e (refl, refl)
        | no not_8 ↦ let nine : u ≡ 9 = omega arith in rw nine (refl, refl)
      ]
    ]
  ]
]

small-IsConsistent : IsConsistent (on_map small_map)
small-IsConsistent =
    on_map-IsConsistent small_map (omega arith) (omega arith) (λ u p q. (word_bits u p q).0)

disk-IsConsistent : IsConsistent (on_map disk_map)
disk-IsConsistent =
    on_map-IsConsistent disk_map (omega arith) (omega arith) (λ u p q. (word_bits u p q).1)

small_count : num_clear small_map ≡ ok 31
unfolding num_clear test has
small_count = refl

create-Answers_example :
    Answers
      (on_map small_map)
      (100 ∷ [])
      300
      3
      31
      (create (100 ∷ []) 300 one_sector (on_map small_map))
create-Answers_example =
    create-Answers (100 ∷ []) 300 31 one_sector (on_map small_map) small-IsConsistent refl
      (omega arith) small_count

remove-RemovesFile_example :
    ((s : ℕ) × (lookup two_files (99 ∷ []) ≡ some (pos s))
      × RemovesFile (on_map small_map) (99 ∷ []) s (remove (99 ∷ []) (on_map small_map)))
    ⊎ ((lookup two_files (99 ∷ []) ≡ none)
        × (remove (99 ∷ []) (on_map small_map) ≡ ok (false, on_map small_map)))
remove-RemovesFile_example = remove-RemovesFile (99 ∷ []) (on_map small_map) small-IsConsistent

new_name_absent : lookup two_files (100 ∷ []) ≡ none
unfolding lookup same_name
new_name_absent = refl

entry_left : has_space two_files ≡ true
unfolding has_space
entry_left = refl

create-remove_example :
    (fs' fs'' : FileSystem) × (create (100 ∷ []) 300 one_sector (on_map small_map) ≡ ok (true, fs'))
    × (remove (100 ∷ []) fs' ≡ ok (true, fs''))
    × ((u : ℕ) → has fs''.free_map u ≡ has small_map u)
    × ((other : List ℕ) → lookup fs''.directory other ≡ lookup two_files other)
    × IsConsistent fs''
create-remove_example =
    create-remove (100 ∷ []) 300 31 one_sector (on_map small_map) small-IsConsistent refl
      (omega arith) small_count new_name_absent entry_left (omega arith)

both_there :
    (lookup two_files (97 ∷ 98 ∷ []) ≡ some (pos 5))
    × (lookup two_files (99 ∷ []) ≡ some (pos 6))
    × (same (97 ∷ 98 ∷ []) (99 ∷ []) ≡ false)
unfolding lookup same_name
both_there = (refl, refl, refl)

write_other_file_example :
    (f g : OpenFile) × (open_file (97 ∷ 98 ∷ []) (on_map disk_map) ≡ some f)
    × (open_file (99 ∷ []) (on_map disk_map) ≡ some g)
    × (w : LaidOut g.hdr) × ((position num_bytes : ℕ) (d : Storage)
          (buf first_buf last_buf from : Buffer)
        → (n : ℕ) × (d' : Storage) × (f' : OpenFile) × (write
              (seek position f)
              d
              buf
              first_buf
              last_buf
              from
              num_bytes
            ≡ ok (n, d', f'))
          × ((o : ℕ) → o < g.hdr.num_bytes → byte_of w d' o ≡ byte_of w d o)
          × (d' 5 ≡ d 5)
          × (d' 6 ≡ d 6))
write_other_file_example =
    write_other_file (on_map disk_map) (97 ∷ 98 ∷ []) (99 ∷ []) 5 6 disk-IsConsistent refl
      both_there.0 both_there.1 both_there.2

abbrev at_120 : OpenFile
at_120 = record { hdr = two_sectors; seek_position = 120 }

two_sectors-LaidOut : LaidOut two_sectors
two_sectors-LaidOut =
    IsFile-LaidOut two_sectors disk_map 5 refl
      (first-IsFile disk_map (omega arith) (omega arith) (λ u p q. (word_bits u p q).1))

-- 100 bytes from byte 120 on: the file has 80 of them, in two sectors.
write-seek-read_example :
    (d' : Storage) × (into' : Buffer) × (f' f'' : OpenFile) × (write at_120
        (λ s j. s)
        (λ j. 0)
        (λ j. 0)
        (λ j. 0)
        (λ j. j)
        100
      ≡ ok (80, d', f'))
    × (read (seek 120 f') d' (λ j. 0) (λ j. 0) 100 ≡ ok (80, into', f''))
    × ((j : ℕ) → j < 80 → into' j ≡ j)
    × Puts two_sectors-LaidOut 80 120 (λ j. j) (λ s j. s) d'
write-seek-read_example =
    write-seek-read at_120 two_sectors-LaidOut (λ s j. s) (λ j. 0) (λ j. 0) (λ j. 0) (λ j. j)
      (λ j. 0) (λ j. 0) 100
