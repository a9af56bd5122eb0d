-- ===== src/FileCalls/Copying.antt =====
-- copyin and copyout of Project 2/code/userprog/exception.cc on memory that the program's page table maps.
use tree_fiddy.Prelude.{
  ℕ, zero, suc, ◌+◌, ◌-◌, ◌*◌, ◌/◌, ◌%◌, ◌^◌, ◌<◌, ◌≤◌, ◌≡◌, ◌≢◌, ◌⊎◌, inl, refl, ap, ◌∙◌, Bool,
  true, false, none, some, List, [], ◌∷◌, ◌==◌, if◌then◌else◌, get_elem?, set, arith, ℕ_discrete,
}
use tree_fiddy.Prelude.Outcome.{ok}
use tree_fiddy.Memory.{
  Machine, TranslationEntry, done, at_index, physical, page_size, num_phys_pages, find_in,
  find_entry, touch, touched, translate, load, store, sign_extend, stamp, read_at, write_at,
  read_mem, write_mem, misaligned,
}
use tree_fiddy.Memory.Lookup.{translate-physical}
use tree_fiddy.OpenFile.{Buffer}
use tree_fiddy.FileCalls.{goes_on, copyin_loop, copyout_loop}

-- The place of an address in the frames of the pages.
abbrev pub place : (ℕ → ℕ) → ℕ → ℕ
place frames a = frames (a / page_size) * page_size + a % page_size

-- Page v of a table lies in frame p, to read and to write.
abbrev pub MapsPage : List TranslationEntry → (v p : ℕ) → Type 0
MapsPage t v p =
    (e : TranslationEntry) × (get_elem? t v ≡ some e)
    × (e.valid ≡ true)
    × (e.is_read_only ≡ false)
    × (e.physical_page ≡ p)

-- The machine has a page table of `count` pages, and maps each to its frame.
pub record IsMapped (frames : ℕ → ℕ) (count : ℕ) (m : Machine) : Type 0 where
  pub no_tlb : m.tlb ≡ none
  pub t : List TranslationEntry
  pub table : m.page_table ≡ some t
  pub long : m.page_table_size ≡ count
  pub pages : (v : ℕ) → v < count → MapsPage t v (frames v)

-- The frames are there and differ.
pub record AreFrames (frames : ℕ → ℕ) (count : ℕ) : Type 0 where
  pub inside : (v : ℕ) → v < count → frames v < num_phys_pages
  pub small : count * page_size < 2 ^ 32
  pub distinct : (v w : ℕ) → v < count → w < count → frames v ≡ frames w → v ≡ w

set-MapsPage :
    (t : List TranslationEntry) (i v p : ℕ) (e : TranslationEntry) (w : Bool)
    → get_elem? t i ≡ some e
    → MapsPage t v p
    → MapsPage (set t i (touched w e)) v p
set-MapsPage [] i v p e w at_i h = cc
set-MapsPage (x ∷ xs) zero zero p e w at_i (e', at_v, valid, writable, frame) =
    (touched w e, refl, ground arith, ground arith, ground arith)
set-MapsPage (x ∷ xs) zero (suc v) p e w at_i h = h
set-MapsPage (x ∷ xs) (suc i) zero p e w at_i h = h
set-MapsPage (x ∷ xs) (suc i) (suc v) p e w at_i h = set-MapsPage xs i v p e w at_i h

module _ (frames : ℕ → ℕ) (count : ℕ) (f : AreFrames frames count) where
  -- An access of one byte is at the address's place, and leaves the bytes and the pages.
  translate_byte :
      (w : Bool) (a : ℕ) (m : Machine)
      → IsMapped frames count m
      → a < count * page_size
      → (m' : Machine) × (translate a 1 w m ≡ ok (physical (place frames a) m'))
        × (m'.main_memory ≡ m.main_memory)
        × IsMapped frames count m'
  unfolding touch find_in
  translate_byte w a m p lt =
      let v : ℕ = a / page_size in
      let below : v < count = omega arith in
      let (e, at_v, valid, writable, frame) = p.pages v below in
      let there : frames v < num_phys_pages = f.inside v below in
      let found : find_entry m v ≡ ok (at_index v e) =
        rw p.no_tlb (rw p.table (rw at_v (ground (arith, p.long)))) in
      let aligned : misaligned 1 a ≡ false = refl in
      let hit : translate a 1 w m
          ≡ ok (physical (e.physical_page * page_size + a % page_size) (touch v e w m)) =
        translate-physical a 1 w m v e aligned found (ground arith) (omega (arith, frame, there))
          (omega (arith, frame, there)) in
      let here : e.physical_page * page_size + a % page_size ≡ place frames a =
        ap (λ q. q * page_size + a % page_size) frame in
      let after : IsMapped frames count (touch v e w m) = record {
        no_tlb = rw p.no_tlb refl;
        t = set p.t v (touched w e);
        table = rw p.table refl;
        long = p.long;
        pages = λ u b. set-MapsPage p.t v u (frames u) e w at_v (p.pages u b);
      } in
      (touch v e w m, hit ∙ ap (λ q. ok (physical q (touch v e w m))) here, refl, after)

  -- The same with the bytes and the times changed.
  abbrev with_bytes : (ℕ → ℕ) → (ℕ → ℕ) → Machine → Machine
  with_bytes mem used m = record m { main_memory = mem; last_used = used }

  IsMapped-bytes :
      (m : Machine) (mem used : ℕ → ℕ)
      → IsMapped frames count m
      → IsMapped frames count (with_bytes mem used m)
  IsMapped-bytes m mem used p = record {
    no_tlb = p.no_tlb;
    t = p.t;
    table = p.table;
    long = p.long;
    pages = p.pages;
  }

  pub read_byte :
      (a : ℕ) (m : Machine)
      → IsMapped frames count m
      → a < count * page_size
      → (m' : Machine) × (read_mem a 1 m
          ≡ ok (done (sign_extend (m.main_memory (place frames a))) m'))
        × (m'.main_memory ≡ m.main_memory)
        × IsMapped frames count m'
  unfolding read_mem read_at load
  read_byte a m p lt =
      let (m', hit, same, p') = translate_byte false a m p lt in
      (
        stamp (place frames a) m',
        rw hit (rw same refl),
        same,
        IsMapped-bytes m' m'.main_memory _ p',
      )

  pub write_byte :
      (a value : ℕ) (m : Machine)
      → IsMapped frames count m
      → a < count * page_size
      → (m' : Machine) × (write_mem a 1 value m ≡ ok (done tt m'))
        × ((j : ℕ)
            → m'.main_memory j ≡ (if j == place frames a then value % 256 else m.main_memory j))
        × IsMapped frames count m'
  unfolding write_mem write_at store
  write_byte a value m p lt =
      let (m', hit, same, p') = translate_byte true a m p lt in
      let mem : ℕ → ℕ = λ j. if j == place frames a then value % 256 else m'.main_memory j in
      (
        stamp (place frames a) (record m' { main_memory = mem }),
        rw hit refl,
        (λ j. ap (λ z. if j == place frames a then value % 256 else z j) same),
        IsMapped-bytes m' mem _ p',
      )

  place_apart :
      (a b : ℕ)
      → a < count * page_size
      → b < count * page_size
      → a ≢ b
      → place frames a ≢ place frames b
  place_apart a b la lb differ e =
      let same_frame : frames (a / page_size) ≡ frames (b / page_size) = omega arith in
      let same_page : a / page_size ≡ b / page_size =
        f.distinct (a / page_size) (b / page_size) (omega arith) (omega arith) same_frame in
      differ (omega arith)

  next_address : (v n : ℕ) → v + suc n ≤ count * page_size → (v + 1) % 2 ^ 32 ≡ v + 1
  next_address v n fits = omega (arith, f.small)

  -- copyout of n bytes inside the mapped pages comes back with the bytes in their places and nothing else changed.
  pub copyout_loop-copies :
      (n v i : ℕ) (buf : Buffer) (m : Machine)
      → IsMapped frames count m
      → v + n ≤ count * page_size
      → (m' : Machine) × (copyout_loop n v i buf m ≡ ok (goes_on m'))
        × IsMapped frames count m'
        × ((j : ℕ) → j < n → m'.main_memory (place frames (v + j)) ≡ buf (i + j) % 256)
        × ((q : ℕ)
            → ((j : ℕ) → j < n → q ≢ place frames (v + j))
            → m'.main_memory q ≡ m.main_memory q)
  unfolding copyout_loop
  copyout_loop-copies zero v i buf m p fits = (m, refl, p, (λ j lt. elim lt [ ]), λ q out. refl)
  copyout_loop-copies (suc n) v i buf m p fits =
      let (m₁, wrote, bytes, p₁) = write_byte v (buf i) m p (omega arith) in
      let (m', rest, p', later, others) =
        copyout_loop-copies n (v + 1) (i + 1) buf m₁ p₁ (omega arith) in
      let passed : (j : ℕ) → j < n → place frames v ≢ place frames (v + 1 + j) =
        λ j lt. place_apart v (v + 1 + j) (omega arith) (omega arith) (omega arith) in
      let each : (j : ℕ) → j < suc n → m'.main_memory (place frames (v + j)) ≡ buf (i + j) % 256 =
        λ j lt. elim (ℕ_discrete j 0) [
          | yes e ↦
              let at_v : v + j ≡ v = omega arith in
              let at_i : i + j ≡ i = omega arith in
              rw at_v
                (rw at_i (others (place frames v) passed ∙ ground (arith, bytes (place frames v))))
          | no e ↦
              let at_v : v + j ≡ v + 1 + (j - 1) = omega arith in
              let at_i : i + j ≡ i + 1 + (j - 1) = omega arith in
              rw at_v (rw at_i (later (j - 1) (omega arith)))
        ] in
      let kept : (q : ℕ)
          → ((j : ℕ) → j < suc n → q ≢ place frames (v + j))
          → m'.main_memory q ≡ m.main_memory q =
        λ q out.
          let first : q ≢ place frames v = λ e.
            let at_0 : v ≡ v + 0 = omega arith in
            out 0 (omega arith) (e ∙ ap (place frames) at_0) in
          let after : (j : ℕ) → j < n → q ≢ place frames (v + 1 + j) = λ j lt e.
            let at_j : v + 1 + j ≡ v + suc j = omega arith in
            out (suc j) (omega arith) (e ∙ ap (place frames) at_j) in
          others q after ∙ ground (arith, bytes q) in
      (m', rw wrote (rw (next_address v n fits) rest), p', each, kept)

  -- copyin of n bytes inside the mapped pages comes back with the bytes in the buffer and nothing else changed.
  pub copyin_loop-copies :
      (n v i : ℕ) (buf : Buffer) (m : Machine)
      → IsMapped frames count m
      → v + n ≤ count * page_size
      → (buf' : Buffer) × (m' : Machine) × (copyin_loop n v i buf m ≡ ok (goes_on (buf', m')))
        × IsMapped frames count m'
        × (m'.main_memory ≡ m.main_memory)
        × ((j : ℕ) → j < n → buf' (i + j) ≡ m.main_memory (place frames (v + j)) % 256)
        × ((j : ℕ) → (j < i) ⊎ (i + n ≤ j) → buf' j ≡ buf j)
  unfolding copyin_loop
  copyin_loop-copies zero v i buf m p fits =
      (buf, m, refl, p, refl, (λ j lt. elim lt [ ]), λ j out. refl)
  copyin_loop-copies (suc n) v i buf m p fits =
      let (m₁, reads, same, p₁) = read_byte v m p (omega arith) in
      let byte : ℕ = m.main_memory (place frames v) in
      let buf₁ : Buffer = λ j. if j == i then sign_extend byte % 256 else buf j in
      let (buf', m', rest, p', same', later, others) =
        copyin_loop-copies n (v + 1) (i + 1) buf₁ m₁ p₁ (omega arith) in
      let low : sign_extend byte % 256 ≡ byte % 256 = ground arith in
      let each : (j : ℕ) → j < suc n → buf' (i + j) ≡ m.main_memory (place frames (v + j)) % 256 =
        λ j lt. elim (ℕ_discrete j 0) [
          | yes e ↦
              let at_v : v + j ≡ v = omega arith in
              let at_i : i + j ≡ i = omega arith in
              rw at_v (rw at_i (others i (inl (omega arith)) ∙ ground (arith, low)))
          | no e ↦
              let at_v : v + j ≡ v + 1 + (j - 1) = omega arith in
              let at_i : i + j ≡ i + 1 + (j - 1) = omega arith in
              rw at_v (
                rw at_i (
                  later (j - 1) (omega arith)
                  ∙ ap (λ mem. mem (place frames (v + 1 + (j - 1))) % 256) same))
        ] in
      let kept : (j : ℕ) → (j < i) ⊎ (i + suc n ≤ j) → buf' j ≡ buf j =
        λ j out. others j (omega (arith, out)) ∙ ground (arith, out) in
      (buf', m', rw reads (rw (next_address v n fits) rest), p', same' ∙ same, each, kept)
