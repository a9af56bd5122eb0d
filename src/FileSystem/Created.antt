-- ===== src/FileSystem/Created.antt =====
-- FileSystem::Create of Project 2/code/filesys/filesys.cc, on every branch.
use tree_fiddy.Prelude.{
  ℕ, zero, suc, ◌+◌, ◌-◌, ◌≤◌, ◌<◌, ◌≡◌, ◌≢◌, refl, ap, ◌∙◌, ◌⊎◌, inl, inr, Bool, true, false, ltb,
  none, some, List, length, arith, Bool-cases, Option-cases,
}
use tree_fiddy.Prelude.Int.{ℤ, pos}
use tree_fiddy.Prelude.Outcome.{Outcome, ok}
use tree_fiddy.BitMap.{BitMap, div_round_up, num_clear}
use tree_fiddy.BitMap
use tree_fiddy.BitMap.Clears.{Takes, find-Takes}
use tree_fiddy.Directory
use tree_fiddy.Directory.{DirectoryEntry}
use tree_fiddy.Directory.Laws.{lookup, has_space, find-lookup, add-Adds}
use tree_fiddy.FileHeader.{FileHeader, sector_size, num_direct, allocate}
use tree_fiddy.FileHeader.Taking.{sized, allocate-Fills}
use tree_fiddy.FileSystem.{FileSystem, create, create_in, create_data, is_found, write_back}
use tree_fiddy.FileSystem.Consistent.{IsConsistent}
use tree_fiddy.FileSystem.Creating.{Creates, made-Creates}

pub allocate_refuses :
    (m : BitMap) (size k : ℕ) (h : FileHeader)
    → num_clear m ≡ ok k
    → k < div_round_up size sector_size
    → allocate m size h ≡ ok (false, sized size h, m)
unfolding allocate
allocate_refuses m size k h count few =
    let short : ltb k (div_round_up size sector_size) ≡ true = ground arith in
    rw count (rw short refl)

-- What keeps Create from making a file of n blocks, with k free sectors.
abbrev pub Refused : FileSystem → List ℕ → ℕ → ℕ → Type 0
Refused fs name n k = (lookup fs.directory name ≢ none) ⊎ (has_space fs.directory ≡ false) ⊎ (k ≤ n)

-- What Create comes to, for n blocks and with k free sectors.
abbrev pub Answers : FileSystem → List ℕ → (size n k : ℕ) → Outcome (Bool × FileSystem) → Type 0
Answers fs name size n k r =
    ((lookup fs.directory name ≡ none)
      × (has_space fs.directory ≡ true)
      × (n < k)
      × Creates fs name size r)
    ⊎ (Refused fs name n k × (r ≡ ok (false, fs)))

module _ (name : List ℕ) (size : ℕ) (junk : FileHeader) (fs : FileSystem) (c : IsConsistent fs)
    (long : length junk.data_sectors ≡ num_direct)
    (fits : div_round_up size sector_size ≤ num_direct) where
  abbrev blocks : ℕ
  blocks = div_round_up size sector_size

  module _ (absent : lookup fs.directory name ≡ none) where
    not_found : is_found (Directory.find fs.directory name) ≡ false
    not_found = rw (find-lookup fs.directory name) (rw absent refl)

    create_full :
        (m : BitMap)
        → BitMap.find fs.free_map ≡ ok (none, m)
        → create name size junk fs ≡ ok (false, fs)
    unfolding create create_in
    create_full m e = rw not_found (rw e refl)

    create_with :
        (s : ℕ) (m : BitMap)
        → BitMap.find fs.free_map ≡ ok (some s, m)
        → create name size junk fs ≡ create_in (some s) name size junk m fs
    unfolding create
    create_with s m e = rw not_found (rw e refl)

    -- With a sector for the header and k others left.
    module _ (k s : ℕ) (m : BitMap) (e : BitMap.find fs.free_map ≡ ok (some s, m))
        (count : num_clear m ≡ ok k) where
      create_no_entry :
          Directory.add fs.directory name (pos s) ≡ (false, fs.directory)
          → create name size junk fs ≡ ok (false, fs)
      unfolding create_in
      create_no_entry fails = create_with s m e ∙ rw fails refl

      create_no_room :
          (t : List DirectoryEntry)
          → Directory.add fs.directory name (pos s) ≡ (true, t)
          → k < blocks
          → create name size junk fs ≡ ok (false, fs)
      unfolding create_in create_data
      create_no_room t adds few =
          create_with s m e ∙ rw adds (rw (allocate_refuses m size k junk count few) refl)

      create_done :
          (t : List DirectoryEntry) (h : FileHeader) (m' : BitMap)
          → Directory.add fs.directory name (pos s) ≡ (true, t)
          → allocate m size junk ≡ ok (true, h, m')
          → create name size junk fs
            ≡ ok
                (true, record { directory = t; free_map = m'; headers = write_back s h fs.headers })
      unfolding create_in create_data
      create_done t h m' adds made = create_with s m e ∙ rw adds (rw made refl)

    create_absent :
        (k : ℕ)
        → Takes fs.free_map k (BitMap.find fs.free_map)
        → Answers fs name size blocks k (create name size junk fs)
    create_absent zero e = inr (inr (inr (omega arith)), create_full fs.free_map e)
    create_absent (suc k) (s, m, e, in_map, same_size, room, count, clear, marks) =
        elim (add-Adds fs.directory name (pos s) c.valid) [
          | inl (q, space, adds) ↦ elim (Bool-cases (ltb k blocks)) [
            | inl few ↦
                let less : k < blocks = ground arith in
                inr
                  (inr (inr (omega arith)), create_no_room k s m e count adds.after adds.added less)
            | inr enough ↦
                let at_least : blocks ≤ k = ground arith in
                let left : num_clear m ≡ ok (blocks + (k - blocks)) =
                  count ∙ ap (λ (x : ℕ). ok x) (omega arith) in
                let (f, made) = allocate-Fills m size (k - blocks) junk room long fits left in
                inl (
                  q,
                  space,
                  omega arith,
                  made-Creates fs c name size junk absent s m in_map same_size clear marks
                      (k - blocks) _ f _ adds (create name size junk fs)
                      (create_done k s m e count adds.after f.header f.left adds.added made),
                )
          ]
          | inr (inl there, fails) ↦ absurd (there absent)
          | inr (inr full, fails) ↦ inr (inr (inl full), create_no_entry k s m e count fails)
        ]

  create_there :
      (z : ℤ) → lookup fs.directory name ≡ some z → create name size junk fs ≡ ok (false, fs)
  unfolding create
  create_there z there =
      let (s, e, file) = c.whole name z there in
      let found : is_found (Directory.find fs.directory name) ≡ true =
        rw (find-lookup fs.directory name) (rw there (rw e refl)) in
      rw found refl

-- Create on a disk in order, for a file of at most 30 blocks: it succeeds exactly when the name is new, the
-- directory has a free entry and more sectors are free than the file has blocks. Then the disk is in
-- order again, the name has a file of that size in sectors that were free, and every other name has
-- the file that it had. Otherwise it answers FALSE and changes nothing.
pub create-Answers :
    (name : List ℕ) (size k : ℕ) (junk : FileHeader) (fs : FileSystem)
    → IsConsistent fs
    → length junk.data_sectors ≡ num_direct
    → div_round_up size sector_size ≤ num_direct
    → num_clear fs.free_map ≡ ok k
    → Answers fs name size (div_round_up size sector_size) k (create name size junk fs)
create-Answers name size k junk fs c long fits count =
    elim (Option-cases (lookup fs.directory name)) [
      | inl absent ↦
          create_absent name size junk fs c long fits absent k
            (find-Takes fs.free_map k c.room count)
      | inr (z, there) ↦
          inr (inl (λ e. absurd (ground arith)), create_there name size junk fs c long fits z there)
    ]
