-- ===== src/FileSystem/Whole.antt =====
-- Create, Open and Remove of Project 2/code/filesys/filesys.cc together, and with reads and writes of
-- openfile.cc.
use tree_fiddy.Prelude.{
  ℕ, ◌≤◌, ◌<◌, ◌≡◌, sym, subst, ◌∙◌, inl, inr, Bool, true, none, some, List, length, arith,
  Bool-cases,
}
use tree_fiddy.Prelude.Int.{pos}
use tree_fiddy.Prelude.Outcome.{Outcome, ok}
use tree_fiddy.BitMap.{BitMap, div_round_up, num_clear}
use tree_fiddy.BitMap.Members.{has}
use tree_fiddy.Disk.{num_sectors_on_disk}
use tree_fiddy.Directory.{file_name_max_len}
use tree_fiddy.Directory.Names.{same_name_refl}
use tree_fiddy.Directory.Laws.{lookup, same, has_space, lookup-same}
use tree_fiddy.FileHeader.{FileHeader, sector_size, num_direct}
use tree_fiddy.OpenFile.Sectors.{LaidOut}
use tree_fiddy.OpenFile.Whole.{Owns-LaidOut}
use tree_fiddy.FileSystem.{FileSystem, create, remove}
use tree_fiddy.FileSystem.Consistent.{Holds, IsFile, IsConsistent}
use tree_fiddy.FileSystem.Creating.{Creates}
use tree_fiddy.FileSystem.Created.{create-Answers, Refused}
use tree_fiddy.FileSystem.Removing.{RemovesFile, remove-RemovesFile}

module _ (fs : FileSystem) (name : List ℕ) (size : ℕ) (r : Outcome (Bool × FileSystem))
    (cr : Creates fs name size r) where
  has_new : lookup cr.after.directory name ≡ some (pos cr.sector)
  has_new = cr.finds name ∙ (let self = same_name_refl file_name_max_len name in ground arith)

  module _ (r' : Outcome (Bool × FileSystem)) (rm : RemovesFile cr.after name cr.sector r') where
    bits_back : (u : ℕ) → has rm.after.free_map u ≡ has fs.free_map u
    bits_back u = elim (Bool-cases (has fs.free_map u)) [
      | inl marked ↦
          let out : ¬ (Holds (cr.after.headers cr.sector) cr.sector u) =
            λ h. absurd (ground (arith, cr.were_free u h)) in
          rm.map_kept u out ∙ cr.map_kept u out
      | inr free ↦ elim (Bool-cases (has rm.after.free_map u)) [
        | inl marked ↦
            let out : ¬ (Holds (cr.after.headers cr.sector) cr.sector u) =
              λ h. absurd (ground (arith, rm.freed u h)) in
            rm.map_kept u out ∙ cr.map_kept u out
        | inr still_free ↦ still_free ∙ sym free
      ]
    ]

    names_back :
        lookup fs.directory name ≡ none
        → (other : List ℕ) → lookup rm.after.directory other ≡ lookup fs.directory other
    names_back absent other = elim (Bool-cases (same name other)) [
      | inl its ↦ rm.loses other ∙ ground (arith, lookup-same fs.directory name other its)
      | inr not_its ↦ rm.loses other ∙ ground (arith, cr.finds other)
    ]

-- On a disk in order, with a name that is new, a free entry in the directory, a size of at most 30
-- blocks and more free sectors than blocks, Create and then Remove succeed and leave the map of free
-- sectors and every name of the directory as they were, and the disk in order.
pub create-remove :
    (name : List ℕ) (size k : ℕ) (junk : FileHeader) (fs : FileSystem)
    → IsConsistent fs
    → length junk.data_sectors ≡ num_direct
    → div_round_up size sector_size ≤ num_direct
    → num_clear fs.free_map ≡ ok k
    → lookup fs.directory name ≡ none
    → has_space fs.directory ≡ true
    → div_round_up size sector_size < k
    → (fs' fs'' : FileSystem) × (create name size junk fs ≡ ok (true, fs'))
      × (remove name fs' ≡ ok (true, fs''))
      × ((u : ℕ) → has fs''.free_map u ≡ has fs.free_map u)
      × ((other : List ℕ) → lookup fs''.directory other ≡ lookup fs.directory other)
      × IsConsistent fs''
create-remove name size k junk fs c long fits count absent space room =
    elim (create-Answers name size k junk fs c long fits count) [
      | inr (refused, fails) ↦ absurd (not_refused refused)
      | inl (q, p, r, made) ↦ elim (remove-RemovesFile name made.after made.consistent) [
        | inr (gone, kept) ↦ absurd (let found = has_new fs name size _ made in ground arith)
        | inl (s, there, removed) ↦
            let same_sector : s ≡ made.sector =
              (let found = has_new fs name size _ made in ground arith) in
            let rm : RemovesFile made.after name made.sector (remove name made.after) =
              subst (λ x. RemovesFile made.after name x (remove name made.after)) same_sector
                removed in
            (
              made.after,
              rm.after,
              made.made,
              rm.gone,
              bits_back fs name size _ made _ rm,
              names_back fs name size _ made _ rm absent,
              rm.consistent,
            )
      ]
    ]
  where
    not_refused : Refused fs name (div_round_up size sector_size) k → ⊥
    not_refused (inl there) = there absent
    not_refused (inr (inl full)) = ground arith
    not_refused (inr (inr few)) = omega arith

-- The header of a file of a disk in order is fit for reading and writing.
pub IsFile-LaidOut :
    (h : FileHeader) (m : BitMap) (s : ℕ)
    → m.num_bits ≡ num_sectors_on_disk
    → IsFile h m s
    → LaidOut h
IsFile-LaidOut h m s size file =
    Owns-LaidOut h m h.num_sectors file.owns size (λ b below. ground (arith, file.long_enough))
