-- ===== src/Memory/Lookup.antt =====
-- The search and the checks of Machine::Translate in Project 2/code/machine/translate.cc.
use tree_fiddy.Prelude.{
  ℕ, zero, suc, ◌+◌, ◌*◌, ◌/◌, ◌%◌, ◌<◌, ◌≤◌, ◌≡◌, refl, inl, inr, Bool, true, false, ◌&&◌, Option,
  none, some, List, [], ◌∷◌, leb, ◌==◌, get_elem?, set, arith, get_elem?-set_self, get_elem?-lt,
  Bool-cases,
}
use tree_fiddy.Prelude.Outcome.{Outcome, ok, fault, ◌>>=◌}
use tree_fiddy.Memory.{
  TranslationEntry, Machine, Found, missing, at_index, physical, page_size, num_phys_pages,
  memory_size, misaligned, tlb_entry, page_entry, find_in, find_entry, write_entry, touched, touch,
  use_entry, translate,
}

-- The loop over the TLB answers with a valid entry of that page, at its index.
pub tlb_entry-index :
    (t : List TranslationEntry) (k j vpn : ℕ) (e : TranslationEntry)
    → tlb_entry t k vpn ≡ at_index j e
    → (i : ℕ) × (j ≡ k + i) × (get_elem? t i ≡ some e)
unfolding tlb_entry
tlb_entry-index [] k j vpn e h = ground arith
tlb_entry-index (x ∷ xs) k j vpn e h = elim (Bool-cases (x.valid && x.virtual_page == vpn)) [
  | inl hit ↦ (0, ground arith, ground arith)
  | inr miss ↦
      let (i, at, found) = tlb_entry-index xs (suc k) j vpn e (ground arith) in
      (suc i, omega arith, found)
]

-- The entry found is still found after an assignment to its use and dirty bits.
pub tlb_entry-set :
    (t : List TranslationEntry) (k i vpn : ℕ) (e : TranslationEntry) (w : Bool)
    → tlb_entry t k vpn ≡ at_index (k + i) e
    → tlb_entry (set t i (touched w e)) k vpn ≡ at_index (k + i) (touched w e)
unfolding tlb_entry
tlb_entry-set [] k i vpn e w h = ground arith
tlb_entry-set (x ∷ xs) k zero vpn e w h = elim (Bool-cases (x.valid && x.virtual_page == vpn)) [
  | inl hit ↦ ground arith
  | inr miss ↦
      let (i, at, found) = tlb_entry-index xs (suc k) (k + 0) vpn e (ground arith) in
      absurd (omega arith)
]
tlb_entry-set (x ∷ xs) k (suc i) vpn e w h = elim (Bool-cases (x.valid && x.virtual_page == vpn)) [
  | inl hit ↦ absurd (ground arith)
  | inr miss ↦ ground (arith, tlb_entry-set xs (suc k) i vpn e w (ground arith))
]

page_entry-index :
    (o : Option TranslationEntry) (vpn i : ℕ) (e : TranslationEntry)
    → page_entry o vpn ≡ ok (at_index i e)
    → (i ≡ vpn) × (o ≡ some e) × (e.valid ≡ true)
page_entry-index none vpn i e h = ground arith
page_entry-index (some x) vpn i e h = ground arith

table-touched :
    (t : List TranslationEntry) (vpn : ℕ) (e : TranslationEntry) (w : Bool)
    → get_elem? t vpn ≡ some e
    → e.valid ≡ true
    → page_entry (get_elem? (set t vpn (touched w e)) vpn) vpn ≡ ok (at_index vpn (touched w e))
table-touched t vpn e w found valid =
    let same = get_elem?-set_self t vpn (touched w e) (get_elem?-lt t vpn e found) in ground arith

pub find_in-touched :
    (b t : Option (List TranslationEntry)) (size vpn i : ℕ) (e : TranslationEntry) (w : Bool)
    → find_in b t size vpn ≡ ok (at_index i e)
    → find_in (write_entry i (touched w e) b) (write_entry i (touched w e) t) size vpn
      ≡ ok (at_index i (touched w e))
unfolding find_in
find_in-touched none none size vpn i e w h = ground arith
find_in-touched (some b) (some t) size vpn i e w h = ground arith
find_in-touched none (some t) size vpn i e w h =
    let small : leb size vpn ≡ false = ground arith in
    let (at, found, valid) = page_entry-index (get_elem? t vpn) vpn i e (ground arith) in
    ground (arith, table-touched t vpn e w found valid)
find_in-touched (some b) none size vpn i e w h = ground (arith, tlb_entry-set b 0 i vpn e w)

-- What a translation that succeeds has found.
pub record Translates (addr size : ℕ) (writing : Bool) (m : Machine) (pa : ℕ) (m' : Machine)
    : Type 0 where
  pub i : ℕ
  pub e : TranslationEntry
  pub aligned : misaligned size addr ≡ false
  pub found : find_entry m (addr / page_size) ≡ ok (at_index i e)
  pub allowed : (e.is_read_only && writing) ≡ false
  pub frame : e.physical_page < num_phys_pages
  pub inside : pa + size ≤ memory_size
  pub place : pa ≡ e.physical_page * page_size + addr % page_size
  pub after : m' ≡ touch i e writing m

use_entry-Translates :
    (f : Found) (addr size : ℕ) (w : Bool) (m : Machine) (pa : ℕ) (m' : Machine)
    → misaligned size addr ≡ false
    → find_entry m (addr / page_size) ≡ ok f
    → use_entry f addr size w m ≡ ok (physical pa m')
    → Translates addr size w m pa m'
unfolding use_entry
use_entry-Translates (missing x) addr size w m pa m' aligned found h = ground arith
use_entry-Translates (at_index i e) addr size w m pa m' aligned found h = record {
  i = i;
  e = e;
  aligned = aligned;
  found = found;
  allowed = ground arith;
  frame = ground arith;
  inside = ground arith;
  place = ground arith;
  after = ground arith;
}

search-Translates :
    (o : Outcome Found) (addr size : ℕ) (w : Bool) (m : Machine) (pa : ℕ) (m' : Machine)
    → misaligned size addr ≡ false
    → find_entry m (addr / page_size) ≡ o
    → (o >>= λ f. use_entry f addr size w m) ≡ ok (physical pa m')
    → Translates addr size w m pa m'
search-Translates fault addr size w m pa m' aligned found h = ground arith
search-Translates (ok f) addr size w m pa m' aligned found h =
    use_entry-Translates f addr size w m pa m' aligned found h

pub translate-Translates :
    (addr size : ℕ) (w : Bool) (m : Machine) (pa : ℕ) (m' : Machine)
    → translate addr size w m ≡ ok (physical pa m')
    → Translates addr size w m pa m'
unfolding translate
translate-Translates addr size w m pa m' h = elim (Bool-cases (misaligned size addr)) [
  | inl bad ↦ absurd (ground arith)
  | inr aligned ↦
      search-Translates (find_entry m (addr / page_size)) addr size w m pa m' aligned refl
        (ground arith)
]

and_false : (b : Bool) → (b && false) ≡ false
and_false true = refl
and_false false = refl

-- The conditions under which a translation succeeds.
pub translate-physical :
    (addr size : ℕ) (w : Bool) (m : Machine) (i : ℕ) (e : TranslationEntry)
    → misaligned size addr ≡ false
    → find_entry m (addr / page_size) ≡ ok (at_index i e)
    → (e.is_read_only && w) ≡ false
    → e.physical_page < num_phys_pages
    → e.physical_page * page_size + addr % page_size + size ≤ memory_size
    → translate addr size w m
      ≡ ok (physical (e.physical_page * page_size + addr % page_size) (touch i e w m))
unfolding translate use_entry
translate-physical addr size w m i e aligned found allowed frame inside =
    let used : use_entry (at_index i e) addr size w m
        ≡ ok (physical (e.physical_page * page_size + addr % page_size) (touch i e w m)) =
      ground arith in
    rw aligned (rw found used)

-- A translation that succeeded for an access succeeds again for a read, at the same place, also when
-- the bytes of the memory and the times have changed.
pub again :
    (addr size : ℕ) (w : Bool) (m : Machine) (pa : ℕ) (m' : Machine) (mem used : ℕ → ℕ)
    → translate addr size w m ≡ ok (physical pa m')
    → (m'' : Machine) × (translate addr size false
          (record m' { main_memory = mem; last_used = used })
        ≡ ok (physical pa m''))
      × (m''.main_memory ≡ mem)
unfolding touch
again addr size w m pa m' mem used h =
    let t = translate-Translates addr size w m pa m' h in
    let old : Machine = record (touch t.i t.e w m) { main_memory = mem; last_used = used } in
    let refound : find_entry old (addr / page_size) ≡ ok (at_index t.i (touched w t.e)) =
      find_in-touched m.tlb m.page_table m.page_table_size (addr / page_size) t.i t.e w t.found in
    let inside : t.e.physical_page * page_size + addr % page_size + size ≤ memory_size =
      omega (arith, t.inside, t.place) in
    let reads =
      translate-physical addr size false old t.i (touched w t.e) t.aligned refound
        (and_false t.e.is_read_only) t.frame inside in
    let place = t.place in
    (touch t.i (touched w t.e) false old, rw (t.after) (rw place reads), refl)
