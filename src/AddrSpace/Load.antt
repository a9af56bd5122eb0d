-- ===== src/AddrSpace/Load.antt =====
-- The loop of AddrSpace::AddrSpace in Project 2/code/userprog/addrspace.cc: the frames that it takes and
-- what it reads into them.
use tree_fiddy.Prelude.{
  ℕ, zero, suc, ◌+◌, ◌-◌, ◌*◌, ◌%◌, ◌≤◌, ◌<◌, ◌≡◌, ◌≢◌, refl, sym, ap, ◌∙◌, true, false, ◌||◌, none,
  some, List, [], ◌∷◌, leb, ◌==◌, get_elem?, length, arith,
}
use tree_fiddy.Prelude.Outcome.{Outcome, ok}
use tree_fiddy.BitMap
use tree_fiddy.BitMap.{BitMap, num_clear}
use tree_fiddy.BitMap.Members.{has, HasRoom}
use tree_fiddy.BitMap.Clears.{find-Takes}
use tree_fiddy.Memory.{TranslationEntry, page_size}
use tree_fiddy.Multiply.{word, half_word}
use tree_fiddy.OpenFile.{Buffer}
use tree_fiddy.OpenFile.Sectors.{LaidOut, byte_of, between}
use tree_fiddy.OpenFile.Reading.{amount, Gets, read_at-Gets}
use tree_fiddy.AddrSpace.{Executable, page_entry, read_in, Loaded, load_loop}

-- What the loop has made from page i on: n pages in frames of their own, that were free, with the file's
-- bytes from `addr` on; the frames that were taken before are as they were.
pub record Loads (x : Executable) (w : LaidOut x.file) (n i addr k : ℕ) (m : BitMap) (mem : Buffer)
    (r : Outcome Loaded) : Type 0 where
  pub entries : List TranslationEntry
  pub left : BitMap
  pub memory : Buffer
  pub frames : ℕ → ℕ
  pub made : r ≡ ok (some (entries, left, memory))
  pub room : HasRoom left
  pub size : left.num_bits ≡ m.num_bits
  pub count : num_clear left ≡ ok k
  pub long : length entries ≡ n
  pub each : (j : ℕ) → j < n → get_elem? entries j ≡ some (page_entry (i + j) (frames j))
  pub in_map : (j : ℕ) → j < n → frames j < m.num_bits
  pub were_free : (j : ℕ) → j < n → has m (frames j) ≡ false
  pub taken : (j : ℕ) → j < n → has left (frames j) ≡ true
  pub distinct : (j l : ℕ) → j < l → l < n → frames j ≢ frames l
  pub marks_kept : (q : ℕ) → has m q ≡ true → has left q ≡ true
  pub bytes_kept :
      (q o : ℕ)
      → has m q ≡ true
      → o < page_size
      → memory (q * page_size + o) ≡ mem (q * page_size + o)
  pub image :
      (j o : ℕ)
      → j < n
      → o < page_size
      → addr + (i + j) * page_size + o < x.file.num_bytes
      → memory (frames j * page_size + o) ≡ byte_of w x.disk (addr + (i + j) * page_size + o)

pub read_in-Gets :
    (x : Executable) (w : LaidOut x.file) (at : ℕ) (into : Buffer) (num_bytes position : ℕ)
    → position < half_word
    → (into' : Buffer) × (read_in x at into num_bytes position ≡ ok into')
      × Gets w x.disk (amount x.file num_bytes position) position at into into'
unfolding read_in
read_in-Gets x w at into num_bytes position small =
    let (into', e, gets) = read_at-Gets x.file w x.disk x.buffer at into num_bytes position in
    let positive : leb half_word position ≡ false = ground arith in
    (into', rw positive (rw e refl), gets)

abbrev shifted : ℕ → (ℕ → ℕ) → ℕ → ℕ
shifted p f zero = p
shifted p f (suc j) = f j

module _ (x : Executable) (w : LaidOut x.file) (n i addr k : ℕ) (m m' : BitMap) (mem mem' : Buffer)
    (p : ℕ) (below : p < m.num_bits) (same_size : m'.num_bits ≡ m.num_bits)
    (clear : has m p ≡ false) (marks : (j : ℕ) → has m' j ≡ (p == j || has m j))
    (small : addr + i * page_size < half_word)
    (gets : Gets w x.disk
      (amount x.file page_size (addr + i * page_size))
      (addr + i * page_size)
      (p * page_size)
      mem
      mem') where
  others_kept :
      (q o : ℕ)
      → has m q ≡ true
      → o < page_size
      → mem' (q * page_size + o) ≡ mem (q * page_size + o)
  others_kept q o marked inside =
      let differ : q ≢ p = λ e. absurd (ground (arith, ap (has m) e)) in
      let outside : between (p * page_size)
            (p * page_size + amount x.file page_size (addr + i * page_size)) (q * page_size + o)
          ≡ false =
        ground arith in
      gets (q * page_size + o) ∙ ground arith

  page_read :
      (o : ℕ)
      → o < page_size
      → addr + i * page_size + o < x.file.num_bytes
      → mem' (p * page_size + o) ≡ byte_of w x.disk (addr + i * page_size + o)
  page_read o inside in_file =
      let within : between (p * page_size)
            (p * page_size + amount x.file page_size (addr + i * page_size)) (p * page_size + o)
          ≡ true =
        ground arith in
      let place : addr + i * page_size + (p * page_size + o - p * page_size)
          ≡ addr + i * page_size + o =
        omega arith in
      gets (p * page_size + o) ∙ ground (arith, ap (byte_of w x.disk) place)

  Loads-cons :
      (r : Outcome Loaded)
      → Loads x w n (i + 1) addr k m' mem' r
      → (r' : Outcome Loaded)
      → ((es : List TranslationEntry) (b : BitMap) (mem'' : Buffer)
          → r ≡ ok (some (es, b, mem''))
          → r' ≡ ok (some (page_entry i p ∷ es, b, mem'')))
      → Loads x w (suc n) i addr k m mem r'
  Loads-cons r l r' extends = record {
    entries = page_entry i p ∷ l.entries;
    left = l.left;
    memory = l.memory;
    frames = shifted p l.frames;
    made = extends l.entries l.left l.memory l.made;
    room = l.room;
    size = l.size ∙ same_size;
    count = l.count;
    long = ap suc l.long;
    each = each_cons;
    in_map = in_map_cons;
    were_free = were_free_cons;
    taken = taken_cons;
    distinct = distinct_cons;
    marks_kept = λ q h. l.marks_kept q (ground (arith, marks q));
    bytes_kept = λ q o h inside.
        l.bytes_kept q o (ground (arith, marks q)) inside ∙ others_kept q o h inside;
    image = image_cons;
  }
    where
      each_cons :
          (j : ℕ)
          → j < suc n
          → get_elem? (page_entry i p ∷ l.entries) j
            ≡ some (page_entry (i + j) (shifted p l.frames j))
      each_cons zero b = ap (λ (t : ℕ). some (page_entry t p)) (omega arith)
      each_cons (suc j) b =
          l.each j (omega arith) ∙ ap (λ (t : ℕ). some (page_entry t (l.frames j))) (omega arith)

      in_map_cons : (j : ℕ) → j < suc n → shifted p l.frames j < m.num_bits
      in_map_cons zero b = below
      in_map_cons (suc j) b = omega (arith, l.in_map j (omega arith))

      were_free_cons : (j : ℕ) → j < suc n → has m (shifted p l.frames j) ≡ false
      were_free_cons zero b = clear
      were_free_cons (suc j) b = ground (arith, marks (l.frames j), l.were_free j (omega arith))

      taken_cons : (j : ℕ) → j < suc n → has l.left (shifted p l.frames j) ≡ true
      taken_cons zero b = l.marks_kept p (ground (arith, marks p))
      taken_cons (suc j) b = l.taken j (omega arith)

      later : (j : ℕ) → j < n → p ≢ l.frames j
      later j b e = absurd (ground (arith, marks (l.frames j), l.were_free j b))

      distinct_cons : (j t : ℕ) → j < t → t < suc n → shifted p l.frames j ≢ shifted p l.frames t
      distinct_cons j zero a b = absurd (omega arith)
      distinct_cons zero (suc t) a b = later t (omega arith)
      distinct_cons (suc j) (suc t) a b = l.distinct j t (omega arith) (omega arith)

      image_cons :
          (j o : ℕ)
          → j < suc n
          → o < page_size
          → addr + (i + j) * page_size + o < x.file.num_bytes
          → l.memory (shifted p l.frames j * page_size + o)
            ≡ byte_of w x.disk (addr + (i + j) * page_size + o)
      image_cons zero o b inside in_file =
          let here : i + 0 ≡ i = omega arith in
          l.bytes_kept p o (ground (arith, marks p)) inside
          ∙ page_read o inside (omega arith)
          ∙ ap (λ (t : ℕ). byte_of w x.disk (addr + t * page_size + o)) (sym here)
      image_cons (suc j) o b inside in_file =
          let there : i + 1 + j ≡ i + suc j = omega arith in
          l.image j o (omega arith) inside (omega arith)
          ∙ ap (λ (t : ℕ). byte_of w x.disk (addr + t * page_size + o)) there

load_step :
    (x : Executable) (n i addr : ℕ) (m m' : BitMap) (mem mem' : Buffer) (p : ℕ)
    → BitMap.find m ≡ ok (some p, m')
    → addr + i * page_size < half_word
    → read_in x (p * page_size) mem page_size (addr + i * page_size) ≡ ok mem'
    → (es : List TranslationEntry) (b : BitMap) (mem'' : Buffer)
    → load_loop n (i + 1) addr x m' mem' ≡ ok (some (es, b, mem''))
    → load_loop (suc n) i addr x m mem ≡ ok (some (page_entry i p ∷ es, b, mem''))
unfolding load_loop
load_step x n i addr m m' mem mem' p found small reads es b mem'' rest =
    let position : (addr + i * page_size) % word ≡ addr + i * page_size = omega arith in
    rw found (rw position (rw reads (rw rest refl)))

-- With frames enough, the loop makes its pages.
pub load_loop-Loads :
    (x : Executable) (w : LaidOut x.file) (n i addr k : ℕ) (m : BitMap) (mem : Buffer)
    → HasRoom m
    → num_clear m ≡ ok (n + k)
    → addr + (i + n) * page_size ≤ half_word
    → Loads x w n i addr k m mem (load_loop n i addr x m mem)
unfolding load_loop
load_loop-Loads x w zero i addr k m mem room count small = record {
  entries = [];
  left = m;
  memory = mem;
  frames = λ j. 0;
  made = refl;
  room = room;
  size = refl;
  count = count ∙ ap (λ (t : ℕ). ok t) (omega arith);
  long = refl;
  each = λ j b. absurd (omega arith);
  in_map = λ j b. absurd (omega arith);
  were_free = λ j b. absurd (omega arith);
  taken = λ j b. absurd (omega arith);
  distinct = λ j l a b. absurd (omega arith);
  marks_kept = λ q h. h;
  bytes_kept = λ q o h inside. refl;
  image = λ j o b inside in_file. absurd (omega arith);
}
load_loop-Loads x w (suc n) i addr k m mem room count small =
    let (p, m', found, below, size, room', count', clear, marks) =
      find-Takes m (suc (n + k)) room (count ∙ ap (λ (t : ℕ). ok t) (omega arith)) in
    let low : addr + i * page_size < half_word = omega arith in
    let (mem', reads, gets) =
      read_in-Gets x w (p * page_size) mem page_size (addr + i * page_size) low in
    Loads-cons x w n i addr k m m' mem mem' p below size clear marks low gets _
      (load_loop-Loads x w n (i + 1) addr k m' mem' room' count' (omega arith))
      (load_loop (suc n) i addr x m mem) (load_step x n i addr m m' mem mem' p found low reads)

-- With too few frames, the machine is halted.
pub load_loop_halts :
    (x : Executable) (w : LaidOut x.file) (n i addr k : ℕ) (m : BitMap) (mem : Buffer)
    → HasRoom m
    → num_clear m ≡ ok k
    → k < n
    → addr + (i + n) * page_size ≤ half_word
    → load_loop n i addr x m mem ≡ ok none
unfolding load_loop
load_loop_halts x w zero i addr k m mem room count few small = absurd (omega arith)
load_loop_halts x w (suc n) i addr zero m mem room count few small =
    let full = find-Takes m 0 room count in rw full refl
load_loop_halts x w (suc n) i addr (suc k) m mem room count few small =
    let (p, m', found, below, size, room', count', clear, marks) =
      find-Takes m (suc k) room count in
    let (mem', reads, gets) =
      read_in-Gets x w (p * page_size) mem page_size (addr + i * page_size) (omega arith) in
    let position : (addr + i * page_size) % word ≡ addr + i * page_size = omega arith in
    let rest =
      load_loop_halts x w n (i + 1) addr k m' mem' room' count' (omega arith) (omega arith) in
    rw found (rw position (rw reads (rw rest refl)))
