-- ===== src/FileSystem/Consistent.antt =====
-- When the disk of Project 2/code/filesys/filesys.cc is in order: every file's sectors are marked in the
-- map of free sectors, and no two files share one.
use tree_fiddy.Prelude.{ℕ, ◌<◌, ◌≡◌, refl, ap, ◌∙◌, ◌⊎◌, inl, inr, true, false, some, List, arith}
use tree_fiddy.Prelude.Int.{ℤ, pos}
use tree_fiddy.BitMap.{BitMap, div_round_up}
use tree_fiddy.BitMap.Members.{has, HasRoom}
use tree_fiddy.Directory.Laws.{lookup, same, IsValid}
use tree_fiddy.FileHeader.{FileHeader, sector_size}
use tree_fiddy.FileHeader.Allocation.{Names, Owns, Names-unique}
use tree_fiddy.FileSystem.{FileSystem}

-- The file with header h in sector s takes the sector u, for the header or for data.
abbrev pub Holds : FileHeader → ℕ → ℕ → Type 0
Holds h s u = (u ≡ s) ⊎ ((j : ℕ) × (j < h.num_sectors) × Names h j u)

-- A header in sector s with its data, all marked and all different.
pub record IsFile (h : FileHeader) (m : BitMap) (s : ℕ) : Type 0 where
  pub in_map : s < m.num_bits
  pub marked : has m s ≡ true
  pub owns : Owns h m 0 h.num_sectors
  pub separate : (j : ℕ) → j < h.num_sectors → ¬ (Names h j s)
  pub long_enough : h.num_sectors ≡ div_round_up h.num_bytes sector_size

pub record IsConsistent (fs : FileSystem) : Type 0 where
  pub room : HasRoom fs.free_map
  pub valid : IsValid fs.directory
  pub whole :
      (name : List ℕ) (z : ℤ)
      → lookup fs.directory name ≡ some z
      → (s : ℕ) × (z ≡ pos s) × IsFile (fs.headers s) fs.free_map s
  pub apart :
      (a b : List ℕ) (s t u : ℕ)
      → lookup fs.directory a ≡ some (pos s)
      → lookup fs.directory b ≡ some (pos t)
      → same a b ≡ false
      → Holds (fs.headers s) s u
      → ¬ (Holds (fs.headers t) t u)

pub held_marked :
    (h : FileHeader) (m : BitMap) (s u : ℕ) → IsFile h m s → Holds h s u → has m u ≡ true
held_marked h m s u f (inl e) = ap (has m) e ∙ f.marked
held_marked h m s u f (inr (j, below, name)) =
    let (t, name', inside, marked) = f.owns.named j (omega arith) below in
    ap (has m) (Names-unique h j u t name name') ∙ marked

-- A file stays one while the map keeps its sectors marked.
pub IsFile-map :
    (h : FileHeader) (m m' : BitMap) (s : ℕ)
    → m'.num_bits ≡ m.num_bits
    → ((u : ℕ) → Holds h s u → has m' u ≡ true)
    → IsFile h m s
    → IsFile h m' s
IsFile-map h m m' s size keeps f = record {
  in_map = omega (arith, f.in_map);
  marked = keeps s (inl refl);
  owns = record {
    named = λ j p q.
        let (t, name, inside, marked) = f.owns.named j p q in
        (t, name, omega arith, keeps t (inr (j, q, name)));
    distinct = f.owns.distinct;
  };
  separate = f.separate;
  long_enough = f.long_enough;
}

pub pos_of_some : (s t : ℕ) → some (pos s) ≡ some (pos t) → s ≡ t
pos_of_some s t e = ground arith
