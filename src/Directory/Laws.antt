-- ===== src/Directory/Laws.antt =====
-- A directory as a finite map from names to sectors.
use tree_fiddy.Prelude.{
  ℕ, zero, suc, ◌+◌, ◌<◌, ◌≡◌, ◌≢◌, refl, ap, ◌∙◌, ◌⊎◌, inl, inr, Bool, true, false, Option, none,
  some, List, [], ◌∷◌, if◌then◌else◌, get_elem?, take, arith, Bool-cases,
}
use tree_fiddy.Prelude.Int.{ℤ, negsuc}
use tree_fiddy.Directory.{
  DirectoryEntry, file_name_max_len, same_name, new_directory, matches, find_from, find_index, find,
  cons_second, add_loop, add_unless, add, free_at, remove_found, remove,
}
use tree_fiddy.Directory.Names.{same_name_refl, same_name_sym, same_name_trans, same_name-take}

-- Two names are the same file's if they agree in the first nine bytes.
abbrev pub same : List ℕ → List ℕ → Bool
same a b = same_name file_name_max_len a b

-- The sector of a name, if the directory has it.
unfoldable pub lookup : List DirectoryEntry → List ℕ → Option ℤ
lookup [] name = none
lookup (e ∷ t) name = if matches name e then some e.sector else lookup t name

-- No two entries in use have the same name.
unfoldable pub IsValid : List DirectoryEntry → Type 0
IsValid [] = Unit
IsValid (e ∷ t) = (e.in_use ≡ true → lookup t e.name ≡ none) × IsValid t

-- -1 for a name that is not there.
abbrev pub or_minus_one : Option ℤ → ℤ
or_minus_one none = negsuc 0
or_minus_one (some s) = s

-- Some entry is not in use.
unfoldable pub has_space : List DirectoryEntry → Bool
has_space [] = false
has_space (e ∷ t) = if e.in_use then has_space t else true

-- The loop gives the index of the entry that `lookup` reads.
data Search (t : List DirectoryEntry) (k : ℕ) (name : List ℕ) : Type 0 where
  absent : find_from t k name ≡ none → lookup t name ≡ none → Search t k name
  present :
      (i : ℕ) (e : DirectoryEntry)
      → find_from t k name ≡ some (k + i)
      → get_elem? t i ≡ some e
      → lookup t name ≡ some e.sector
      → Search t k name

search : (t : List DirectoryEntry) (k : ℕ) (name : List ℕ) → Search t k name
unfolding find_from lookup
search [] k name = absent refl refl
search (e ∷ t) k name = elim (Bool-cases (matches name e)) [
  | inl hit ↦ present 0 e (ground arith) refl (ground arith)
  | inr miss ↦ elim (search t (k + 1) name) [
    | absent p q ↦ absent (ground arith) (ground arith)
    | present i f p g q ↦ present (suc i) f (ground arith) g (ground arith)
  ]
]

-- Find gives the sector of the name, or -1.
pub find-lookup :
    (t : List DirectoryEntry) (name : List ℕ) → find t name ≡ or_minus_one (lookup t name)
unfolding find
find-lookup t name = elim (search t 0 name) [
  | absent p q ↦ rw p (rw q refl)
  | present i e p g q ↦
      let at : find_from t 0 name ≡ some i = ground arith in rw at (rw g (rw q refl))
]

-- Names that agree are found alike.
pub lookup-same :
    (t : List DirectoryEntry) (a b : List ℕ) → same a b ≡ true → lookup t a ≡ lookup t b
unfolding lookup
lookup-same [] a b h = refl
lookup-same (e ∷ t) a b h =
    let swapped = same_name_sym file_name_max_len e.name a in
    let swapped' = same_name_sym file_name_max_len e.name b in
    let alike = same_name_trans file_name_max_len a b e.name h in
    ground (arith, lookup-same t a b h, swapped, swapped', alike)

-- What Add leaves: the name has the sector, every other name has what it had.
pub record Adds (t : List DirectoryEntry) (name : List ℕ) (s : ℤ) (r : Bool × List DirectoryEntry)
    : Type 0 where
  pub after : List DirectoryEntry
  pub added : r ≡ (true, after)
  pub finds :
      (other : List ℕ) → lookup after other ≡ (if same name other then some s else lookup t other)
  pub valid : IsValid after

module _ (name : List ℕ) (s : ℤ) where
  abbrev new_entry : DirectoryEntry
  new_entry = record { in_use = true; sector = s; name = take file_name_max_len name }

  Adds-here :
      (e : DirectoryEntry) (t : List DirectoryEntry)
      → e.in_use ≡ false
      → lookup (e ∷ t) name ≡ none
      → IsValid (e ∷ t)
      → Adds (e ∷ t) name s (true, new_entry ∷ t)
  unfolding lookup IsValid
  Adds-here e t free fresh valid = record {
    after = new_entry ∷ t;
    added = refl;
    finds = λ other. let short = same_name-take file_name_max_len name other in ground arith;
    valid = (
      λ used.
          let short = same_name-take file_name_max_len name name in
          let self = same_name_refl file_name_max_len name in
          lookup-same t (take file_name_max_len name) name (short ∙ self) ∙ ground arith,
      valid.1,
    );
  }

  Adds-later :
      (e : DirectoryEntry) (t : List DirectoryEntry) (r : Bool × List DirectoryEntry)
      → e.in_use ≡ true
      → lookup (e ∷ t) name ≡ none
      → IsValid (e ∷ t)
      → Adds t name s r
      → Adds (e ∷ t) name s (cons_second e r)
  unfolding lookup IsValid
  Adds-later e t r used fresh valid a = record {
    after = e ∷ a.after;
    added = ap (cons_second e) a.added;
    finds = λ other.
        let swapped = same_name_sym file_name_max_len e.name name in
        let next = a.finds other in
        let alike = same_name_trans file_name_max_len name other e.name in
        let swapped' = same_name_sym file_name_max_len other e.name in ground arith;
    valid = (
      λ u.
          let swapped = same_name_sym file_name_max_len e.name name in
          a.finds e.name ∙ ground (arith, valid.0 u),
      a.valid,
    );
  }

  add_loop-Adds :
      (t : List DirectoryEntry)
      → lookup t name ≡ none
      → has_space t ≡ true
      → IsValid t
      → Adds t name s (add_loop t name s)
  unfolding add_loop has_space lookup IsValid
  add_loop-Adds [] fresh space valid = ground arith
  add_loop-Adds (e ∷ t) fresh space valid = elim (Bool-cases e.in_use) [
    | inl used ↦
        let rest = add_loop-Adds t (ground arith) (ground arith) valid.1 in
        let is : add_loop (e ∷ t) name s ≡ cons_second e (add_loop t name s) = ground arith in
        rw is (Adds-later e t (add_loop t name s) used fresh valid rest)
    | inr free ↦
        let is : add_loop (e ∷ t) name s ≡ (true, new_entry ∷ t) = ground arith in
        rw is (Adds-here e t free fresh valid)
  ]

  add_loop_full : (t : List DirectoryEntry) → has_space t ≡ false → add_loop t name s ≡ (false, t)
  unfolding add_loop has_space
  add_loop_full [] full = refl
  add_loop_full (e ∷ t) full = elim (Bool-cases e.in_use) [
    | inl used ↦
        let is : add_loop (e ∷ t) name s ≡ cons_second e (add_loop t name s) = ground arith in
        is ∙ ap (cons_second e) (add_loop_full t (ground arith))
    | inr free ↦ absurd (ground arith)
  ]

-- Add on a directory without two entries of one name. If the name is not there and an entry is free, it
-- succeeds: the name then has the sector, every other name has what it had, and names stay unique.
-- If the name is there or no entry is free, it fails and changes nothing. Names count as equal
-- when their first nine bytes are.
pub add-Adds :
    (t : List DirectoryEntry) (name : List ℕ) (s : ℤ)
    → IsValid t
    → ((lookup t name ≡ none) × (has_space t ≡ true) × Adds t name s (add t name s))
      ⊎ (((lookup t name ≢ none) ⊎ (has_space t ≡ false)) × (add t name s ≡ (false, t)))
unfolding add add_unless
add-Adds t name s valid = elim (search t 0 name) [
  | absent p q ↦ elim (Bool-cases (has_space t)) [
    | inl space ↦ inl (q, space, rw p (add_loop-Adds name s t q space valid))
    | inr full ↦ inr (inr full, rw p (add_loop_full name s t full))
  ]
  | present i e p g q ↦ inr (inl (λ none_there. ground arith), rw p refl)
]

-- What freeing entry i leaves.
record FreesAt (t t' : List DirectoryEntry) (name : List ℕ) : Type 0 where
  loses : (other : List ℕ) → lookup t' other ≡ (if same name other then none else lookup t other)
  stays : IsValid t'

free_at-FreesAt :
    (t : List DirectoryEntry) (k i : ℕ) (name : List ℕ)
    → find_from t k name ≡ some (k + i)
    → IsValid t
    → FreesAt t (free_at t i) name
unfolding find_from free_at lookup IsValid
free_at-FreesAt [] k i name h valid = ground arith
free_at-FreesAt (e ∷ t) k zero name h valid = elim (Bool-cases (matches name e)) [
  | inl hit ↦
      let used : e.in_use ≡ true = ground arith in
      let its : same e.name name ≡ true = ground arith in
      record {
        loses = λ other.
            let alike = same_name_trans file_name_max_len e.name name other its in
            ground (arith, lookup-same t e.name other, valid.0 used);
        stays = (λ u. absurd (ground arith), valid.1);
      }
  | inr miss ↦ elim (search t (k + 1) name) [
    | absent p q ↦ absurd (ground arith)
    | present i f p g q ↦ absurd (ground arith)
  ]
]
free_at-FreesAt (e ∷ t) k (suc i) name h valid = elim (Bool-cases (matches name e)) [
  | inl hit ↦ absurd (ground arith)
  | inr miss ↦
      let rest = free_at-FreesAt t (k + 1) i name (ground arith) valid.1 in
      record {
        loses = λ other.
            let next = rest.loses other in
            let alike = same_name_trans file_name_max_len name other e.name in
            let swapped = same_name_sym file_name_max_len e.name name in
            let swapped' = same_name_sym file_name_max_len other e.name in ground arith;
        stays = (λ u. let next = rest.loses e.name in ground (arith, valid.0 u), rest.stays);
      }
]

-- Remove on a directory without two entries of one name. If the name is there, it succeeds: the name is
-- then gone, every other name has what it had, and names stay unique. Otherwise it fails and changes
-- nothing.
pub remove-Drops :
    (t : List DirectoryEntry) (name : List ℕ)
    → IsValid t
    → ((t' : List DirectoryEntry) × (lookup t name ≢ none)
        × (remove t name ≡ (true, t'))
        × ((other : List ℕ) → lookup t' other ≡ (if same name other then none else lookup t other))
        × IsValid t')
      ⊎ ((lookup t name ≡ none) × (remove t name ≡ (false, t)))
unfolding remove remove_found
remove-Drops t name valid = elim (search t 0 name) [
  | absent p q ↦ inr (q, rw p refl)
  | present i e p g q ↦
      let f = free_at-FreesAt t 0 i name p valid in
      let at : find_index t name ≡ some i = ground arith in
      inl (free_at t i, λ none_there. ground arith, rw at refl, f.loses, f.stays)
]

-- A new directory has no name, whatever the storage held, and a free entry if its size is not 0.
pub new_directory-IsValid :
    (n : ℕ) (junk : ℕ → DirectoryEntry)
    → IsValid (new_directory n junk)
      × ((name : List ℕ) → lookup (new_directory n junk) name ≡ none)
      × (0 < n → has_space (new_directory n junk) ≡ true)
unfolding new_directory IsValid lookup has_space
new_directory-IsValid zero junk = (tt, λ name. refl, λ p. absurd (omega arith))
new_directory-IsValid (suc n) junk =
    let (valid, empty, space) = new_directory-IsValid n junk in
    ((λ u. absurd (ground arith), valid), λ name. empty name, λ p. refl)
