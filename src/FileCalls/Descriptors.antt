-- ===== src/FileCalls/Descriptors.antt =====
-- Open_Syscall and Close_Syscall of Project 2/code/userprog/exception.cc: the numbers of open files.
use tree_fiddy.Prelude.{
  ℕ, zero, suc, ◌+◌, ◌*◌, ◌%◌, ◌<◌, ◌≤◌, ◌≡◌, ◌⊎◌, refl, sym, ap, subst, ◌∙◌, Option, none, some,
  List, arith, ◌==◌, if◌then◌else◌, inl, inr, ℕ_discrete,
}
use tree_fiddy.Prelude.Int.{ℤ, pos, negsuc}
use tree_fiddy.Prelude.Outcome.{Outcome, ok}
use tree_fiddy.Memory.{page_size}
use tree_fiddy.Table.{Table}
use tree_fiddy.Table.Laws.{IsValid, slot, put-Puts, remove-Removes}
use tree_fiddy.OpenFile.{OpenFile, Buffer}
use tree_fiddy.FileSystem.{open_file}
use tree_fiddy.FileCalls.{Session, goes_on, open_call, open_in, close_call, c_string}
use tree_fiddy.FileCalls.Copying.{place, IsMapped, AreFrames, copyin_loop-copies}

-- The name in memory at address a: the bytes before the first 0, at most len of them.
abbrev pub name_at : (ℕ → ℕ) → (len a : ℕ) → (ℕ → ℕ) → List ℕ
name_at frames len a mem = c_string len 0 (λ j. mem (place frames (a + j)) % 256)

c_string_same :
    (n i : ℕ) (b b' : Buffer)
    → ((j : ℕ) → j < i + n → b j ≡ b' j)
    → c_string n i b ≡ c_string n i b'
c_string_same zero i b b' same = refl
c_string_same (suc n) i b b' same =
    rw (same i (omega arith))
      (rw (c_string_same n (i + 1) b b' (λ j lt. same j (omega arith))) refl)

-- What Open comes to, from the file found, the table before and the state after.
abbrev pub Opened : Option OpenFile → Table OpenFile → ℤ → Session → Type 0
Opened none tab z t = (z ≡ negsuc 0) × (t.file_table ≡ tab)
Opened (some x) tab z t =
    ((z ≡ negsuc 0)
      × (t.file_table ≡ tab)
      × ((j : ℕ) → j < tab.size → (c : Option OpenFile) × (slot tab j ≡ some c)))
    ⊎ ((i : ℕ) × (z ≡ pos i)
        × (slot tab i ≡ none)
        × ((j : ℕ) → slot t.file_table j ≡ (if i == j then some (some x) else slot tab j))
        × (u : Session) × (close_call (pos i) t ≡ ok u)
        × ((j : ℕ) → slot u.file_table j ≡ slot tab j))

-- The call comes to an reply, with the files, the disk and the bytes of memory as before.
abbrev pub Opens : Session → Option OpenFile → Outcome (ℤ × Session) → Type 0
Opens s x r =
    (z : ℤ) × (t : Session) × (r ≡ ok (z, t))
    × Opened x s.file_table z t
    × (t.files ≡ s.files)
    × (t.disk ≡ s.disk)
    × (t.machine ≡ s.machine)

open_in-Opens : (x : Option OpenFile) (s : Session) → IsValid s.file_table → Opens s x (open_in x s)
unfolding open_in close_call
open_in-Opens none s valid = (negsuc 0, s, refl, (refl, refl), refl, refl, refl)
open_in-Opens (some x) s valid = elim (put-Puts s.file_table (some x) valid) [
  | inl (full, none_left) ↦
      (negsuc 0, s, rw none_left refl, inl (refl, refl, full), refl, refl, refl)
  | inr (i, t', placed, inside, was_free, valid', size, slots) ↦
      let (t'', removed, valid'', size', slots') = remove-Removes t' i valid' in
      let t : Session = record s { file_table = t' } in
      let u : Session = record s { file_table = t'' } in
      let closed : close_call (pos i) t ≡ ok u = rw removed refl in
      let back : (j : ℕ) → slot t'' j ≡ slot s.file_table j = λ j. elim (ℕ_discrete i j) [
        | yes e ↦ slots' j ∙ ground (arith, ap (slot s.file_table) e, was_free)
        | no differ ↦ slots' j ∙ ground (arith, slots j)
      ] in
      (pos i, t, rw placed refl, inr (i, refl, was_free, slots, u, closed, back), refl, refl, refl)
]

module _ (frames : ℕ → ℕ) (count : ℕ) (f : AreFrames frames count) where
  -- With the name's bytes in the program's pages, Open comes to an reply and changes neither files, disk nor
  -- memory. For a name without a file, or with every slot taken, it answers -1 and leaves the table. Otherwise it
  -- answers with the number of a slot that was free and now holds the file at its beginning, with every other slot
  -- as before, and Close of that number gives back the slots as they were.
  pub open_call-Opens :
      (s : Session) (a len : ℕ) (buf : Buffer)
      → IsMapped frames count s.machine
      → IsValid s.file_table
      → a + len ≤ count * page_size
      → (z : ℤ) × (t : Session) × (open_call a len buf s ≡ ok (goes_on (z, t)))
        × Opened (open_file (name_at frames len a s.machine.main_memory) s.files) s.file_table z t
        × (t.files ≡ s.files)
        × (t.disk ≡ s.disk)
        × (t.machine.main_memory ≡ s.machine.main_memory)
  unfolding open_call
  open_call-Opens s a len buf mapped valid fits =
      let (buf', m', copied, mapped', same, bytes, rest) =
        copyin_loop-copies frames count f len a 0 buf s.machine mapped fits in
      let name : c_string len 0 buf' ≡ name_at frames len a s.machine.main_memory =
        c_string_same len 0 buf' _ (λ j lt.
          let at_j : 0 + j ≡ j = omega arith in ap buf' (sym at_j) ∙ bytes j (omega (arith, lt))) in
      let s' : Session = record s { machine = m' } in
      let x : Option OpenFile = open_file (c_string len 0 buf') s.files in
      let (z, t, opened, ends, files, disk, machine) = open_in-Opens x s' valid in
      let named : x ≡ open_file (name_at frames len a s.machine.main_memory) s.files =
        ap (λ q. open_file q s.files) name in
      (
        z,
        t,
        rw copied (rw opened refl),
        subst (λ q. Opened q s.file_table z t) named ends,
        files,
        disk,
        ap (λ q. q.main_memory) machine ∙ same,
      )
