-- ===== src/FileSystem/Removing.antt =====
-- FileSystem::Remove of Project 2/code/filesys/filesys.cc, on every branch.
use tree_fiddy.Prelude.{
  ℕ, ◌<◌, ◌≡◌, ◌≢◌, refl, sym, ap, ◌∙◌, ◌⊎◌, inl, inr, Bool, true, false, not, ◌&&◌, ◌==◌, none,
  some, List, if◌then◌else◌, arith, Bool-cases, Option-cases,
}
use tree_fiddy.Prelude.Int.{ℤ, pos}
use tree_fiddy.Prelude.Outcome.{Outcome, ok}
use tree_fiddy.BitMap
use tree_fiddy.BitMap.{BitMap, clear_bit}
use tree_fiddy.BitMap.Members.{has, clear_lem, has-clear_bit, clear_bit-HasRoom, num_bits-clear_bit}
use tree_fiddy.Directory
use tree_fiddy.Directory.{DirectoryEntry}
use tree_fiddy.Directory.Laws.{lookup, same, IsValid, find-lookup, remove-Drops}
use tree_fiddy.FileHeader.{deallocate}
use tree_fiddy.FileHeader.Allocation.{Frees, deallocate-Frees}
use tree_fiddy.FileSystem.{FileSystem, remove, remove_at}
use tree_fiddy.FileSystem.Consistent.{Holds, IsFile, IsConsistent, held_marked, IsFile-map}

-- What a Remove that succeeds leaves: the name is gone and its sectors are free; every other name has the
-- file that it had, and every other sector is as it was.
pub record RemovesFile (fs : FileSystem) (name : List ℕ) (s : ℕ) (r : Outcome (Bool × FileSystem))
    : Type 0 where
  pub after : FileSystem
  pub gone : r ≡ ok (true, after)
  pub loses :
      (other : List ℕ)
      → lookup after.directory other ≡ (if same name other then none else lookup fs.directory other)
  pub headers_kept : after.headers ≡ fs.headers
  pub freed : (u : ℕ) → Holds (fs.headers s) s u → has after.free_map u ≡ false
  pub map_kept : (u : ℕ) → ¬ (Holds (fs.headers s) s u) → has after.free_map u ≡ has fs.free_map u
  pub consistent : IsConsistent after

module _ (fs : FileSystem) (c : IsConsistent fs) (name : List ℕ) (s : ℕ)
    (there : lookup fs.directory name ≡ some (pos s)) (file : IsFile (fs.headers s) fs.free_map s)
    (r : Outcome BitMap) (d : Frees (fs.headers s) fs.free_map 0 (fs.headers s).num_sectors r)
    (t : List DirectoryEntry)
    (loses : (other : List ℕ)
      → lookup t other ≡ (if same name other then none else lookup fs.directory other))
    (valid : IsValid t) where
  abbrev left_map : BitMap
  left_map = clear_bit d.left s

  abbrev left_system : FileSystem
  left_system = record fs { directory = t; free_map = left_map }

  inside : s < d.left.num_bits
  inside = omega (arith, d.size, file.in_map)

  left_bits : (u : ℕ) → has left_map u ≡ (not (s == u) && has d.left u)
  left_bits u = has-clear_bit d.left s d.room inside u

  left_freed : (u : ℕ) → Holds (fs.headers s) s u → has left_map u ≡ false
  left_freed u (inl e) = ground (arith, left_bits u)
  left_freed u (inr (j, below, name)) =
      ground (arith, left_bits u, d.cleared j u (omega arith) below name)

  left_kept : (u : ℕ) → ¬ (Holds (fs.headers s) s u) → has left_map u ≡ has fs.free_map u
  left_kept u out =
      let differ : s ≢ u = λ e. out (inl (sym e)) in
      let same_bit = d.kept u (λ j p q name. out (inr (j, q, name))) in ground (arith, left_bits u)

  old_name :
      (a : List ℕ) (z : ℤ)
      → lookup t a ≡ some z
      → (same name a ≡ false) × (lookup fs.directory a ≡ some z)
  old_name a z e = elim (Bool-cases (same name a)) [
    | inl its ↦ absurd (ground (arith, loses a))
    | inr not_its ↦ (not_its, ground (arith, loses a))
  ]

  left_whole :
      (a : List ℕ) (z : ℤ)
      → lookup t a ≡ some z
      → (u : ℕ) × (z ≡ pos u) × IsFile (fs.headers u) left_map u
  left_whole a z e =
      let (differ, old) = old_name a z e in
      let (u, e', whole) = c.whole a z old in
      let at : lookup fs.directory a ≡ some (pos u) = old ∙ ap (λ (x : ℤ). some x) e' in
      (
        u,
        e',
        IsFile-map (fs.headers u) fs.free_map left_map u (num_bits-clear_bit d.left s ∙ d.size)
            (λ v h.
              left_kept v (λ h'. c.apart name a s u v there at differ h' h)
              ∙ held_marked (fs.headers u) fs.free_map u v whole h)
            whole,
      )

  left_IsConsistent : IsConsistent left_system
  left_IsConsistent = record {
    room = clear_bit-HasRoom d.left s d.room inside;
    valid = valid;
    whole = left_whole;
    apart = λ a b u v x e e'.
        let (na, old) = old_name a (pos u) e in
        let (nb, old') = old_name b (pos v) e' in c.apart a b u v x old old';
  }

  left-RemovesFile :
      (q : Outcome (Bool × FileSystem)) → q ≡ ok (true, left_system) → RemovesFile fs name s q
  left-RemovesFile q e = record {
    after = left_system;
    gone = e;
    loses = loses;
    headers_kept = refl;
    freed = left_freed;
    map_kept = left_kept;
    consistent = left_IsConsistent;
  }

remove_there :
    (name : List ℕ) (fs : FileSystem) (s : ℕ) (m m' : BitMap) (t : List DirectoryEntry)
    → lookup fs.directory name ≡ some (pos s)
    → deallocate (fs.headers s) fs.free_map ≡ ok m
    → BitMap.clear m (pos s) ≡ ok m'
    → Directory.remove fs.directory name ≡ (true, t)
    → remove name fs ≡ ok (true, record fs { directory = t; free_map = m' })
unfolding remove remove_at
remove_there name fs s m m' t there freed cleared dropped = rw (find-lookup fs.directory name) (
    rw there (
      rw freed (
        rw cleared (
          ap
            (λ (x : Bool × List DirectoryEntry).
              ok (true, record fs { directory = x.1; free_map = m' }))
            dropped))))

remove_absent :
    (name : List ℕ) (fs : FileSystem)
    → lookup fs.directory name ≡ none
    → remove name fs ≡ ok (false, fs)
unfolding remove remove_at
remove_absent name fs absent = rw (find-lookup fs.directory name) (rw absent refl)

-- Remove on a disk in order: if the name is there, it succeeds: exactly the sectors of its file become
-- free, the name is gone, every other name has the file that it had, and the disk is in order again.
-- Otherwise it answers FALSE and changes nothing.
pub remove-RemovesFile :
    (name : List ℕ) (fs : FileSystem)
    → IsConsistent fs
    → ((s : ℕ) × (lookup fs.directory name ≡ some (pos s)) × RemovesFile fs name s (remove name fs))
      ⊎ ((lookup fs.directory name ≡ none) × (remove name fs ≡ ok (false, fs)))
remove-RemovesFile name fs c = elim (remove-Drops fs.directory name c.valid) [
  | inr (absent, kept) ↦ inr (absent, remove_absent name fs absent)
  | inl (t, present, dropped, loses, valid) ↦ elim (Option-cases (lookup fs.directory name)) [
    | inl absent ↦ absurd (present absent)
    | inr (z, found) ↦
        let (s, e, file) = c.whole name z found in
        let there : lookup fs.directory name ≡ some (pos s) = found ∙ ap (λ (x : ℤ). some x) e in
        let d = deallocate-Frees (fs.headers s) fs.free_map c.room file.owns in
        let cleared = clear_lem d.left s (omega (arith, d.size, file.in_map)) in
        inl (
          s,
          there,
          left-RemovesFile fs c name s there file _ d t loses valid (remove name fs)
              (remove_there name fs s d.left (clear_bit d.left s) t there d.freed cleared dropped),
        )
  ]
]
