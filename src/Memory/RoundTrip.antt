-- ===== src/Memory/RoundTrip.antt =====
-- Machine::ReadMem and Machine::WriteMem of Project 2/code/machine/translate.cc as a memory.
use tree_fiddy.Prelude.{
  ℕ, ◌+◌, ◌*◌, ◌/◌, ◌%◌, ◌<◌, ◌≤◌, ◌≡◌, ◌≢◌, refl, sym, ap, ◌∙◌, ◌⊎◌, inl, inr, true, false, Bool,
  arith,
}
use tree_fiddy.Prelude.Outcome.{Outcome, ok, fault, ◌>>=◌}
use tree_fiddy.Memory.{
  Machine, TranslationEntry, at_index, Translation, refused, physical, done, page_size,
  num_phys_pages, misaligned, find_entry, translate, touch, store, load, stamp, read_at, write_at,
  read_mem, write_mem,
}
use tree_fiddy.Memory.Lookup.{translate-Translates, again}
use tree_fiddy.Memory.Bytes.{IsSize, kept, store-Stores}

-- An aligned access stays inside one page.
pub aligned_fits :
    (addr size : ℕ)
    → IsSize size
    → misaligned size addr ≡ false
    → addr % page_size + size ≤ page_size
aligned_fits addr size (inl e) h = omega arith
aligned_fits addr size (inr (inl e)) h = let even : addr % 2 ≡ 0 = ground arith in omega arith
aligned_fits addr size (inr (inr e)) h = let even : addr % 4 ≡ 0 = ground arith in omega arith

-- A translation that succeeds, for 1, 2 or 4 bytes, is at the address's place in the frame of the page
-- found, ends inside that frame, and the frame is one of the machine's.
pub translate_in_frame :
    (addr size : ℕ) (w : Bool) (m : Machine) (pa : ℕ) (m' : Machine)
    → IsSize size
    → translate addr size w m ≡ ok (physical pa m')
    → (i : ℕ) × (e : TranslationEntry) × (find_entry m (addr / page_size) ≡ ok (at_index i e))
      × (pa / page_size ≡ e.physical_page)
      × (pa % page_size ≡ addr % page_size)
      × (pa % page_size + size ≤ page_size)
      × (pa / page_size < num_phys_pages)
translate_in_frame addr size w m pa m' is h =
    let t = translate-Translates addr size w m pa m' h in
    let fits = aligned_fits addr size is t.aligned in
    (
      t.i,
      t.e,
      t.found,
      omega (arith, t.place),
      omega (arith, t.place),
      omega (arith, t.place),
      omega (arith, t.place, t.frame),
    )

-- A write that is done has translated its address and stored the value there.
pub record Wrote (addr size value : ℕ) (m m' : Machine) : Type 0 where
  pa : ℕ
  after : Machine
  mem : ℕ → ℕ
  translated : translate addr size true m ≡ ok (physical pa after)
  stored : store size pa value after.main_memory ≡ ok mem
  ends : m' ≡ stamp pa (record after { main_memory = mem })

module _ (addr size value : ℕ) (m m' : Machine) where
  stored-Wrote :
      (pa : ℕ) (after : Machine) (o : Outcome (ℕ → ℕ))
      → translate addr size true m ≡ ok (physical pa after)
      → store size pa value after.main_memory ≡ o
      → (o >>= λ mem. ok (done tt (stamp pa (record after { main_memory = mem }))))
        ≡ ok (done tt m')
      → Wrote addr size value m m'
  stored-Wrote pa after fault t s h = ground arith
  stored-Wrote pa after (ok mem) t s h = record {
    pa = pa;
    after = after;
    mem = mem;
    translated = t;
    stored = s;
    ends = ground arith;
  }

  translated-Wrote :
      (o : Outcome Translation)
      → translate addr size true m ≡ o
      → (o >>= λ t. write_at t size value) ≡ ok (done tt m')
      → Wrote addr size value m m'
  unfolding write_at
  translated-Wrote fault t h = ground arith
  translated-Wrote (ok (refused x)) t h = ground arith
  translated-Wrote (ok (physical pa after)) t h =
      stored-Wrote pa after (store size pa value after.main_memory) t refl h

  write_mem-Wrote : write_mem addr size value m ≡ ok (done tt m') → Wrote addr size value m m'
  unfolding write_mem
  write_mem-Wrote h = translated-Wrote (translate addr size true m) refl h

-- A read that has translated its address takes the value from there.
pub read_mem-done :
    (addr size pa v : ℕ) (m m' : Machine)
    → translate addr size false m ≡ ok (physical pa m')
    → load size pa m'.main_memory ≡ ok v
    → read_mem addr size m ≡ ok (done v (stamp pa m'))
unfolding read_mem read_at
read_mem-done addr size pa v m m' t l = rw t (rw l refl)

-- After a write that is done, a read of the same size at the same address gives the value back: its
-- low bytes, and for one byte their sign extension.
pub write-read :
    (addr size value : ℕ) (m m' : Machine)
    → IsSize size
    → write_mem addr size value m ≡ ok (done tt m')
    → (m'' : Machine) × (read_mem addr size m' ≡ ok (done (kept size value) m''))
write-read addr size value m m' is h =
    let w = write_mem-Wrote addr size value m m' h in
    let (mem, stored, loads, rest) = store-Stores size w.pa value w.after.main_memory is in
    let same : w.mem ≡ mem = ground (arith, w.stored, stored) in
    let used = (stamp w.pa w.after).last_used in
    let (m'', reads, kept_mem) = again addr size true m w.pa w.after w.mem used w.translated in
    let value_there : load size w.pa m''.main_memory ≡ ok (kept size value) =
      rw kept_mem (rw same loads) in
    (
      stamp w.pa m'',
      rw w.ends (
          read_mem-done addr size w.pa (kept size value)
            (stamp w.pa (record w.after { main_memory = w.mem })) m'' reads value_there),
    )

apart :
    (p frame a o pa size : ℕ)
    → pa ≡ p * page_size + a
    → a + size ≤ page_size
    → o < page_size
    → p ≢ frame
    → (frame * page_size + o < pa) ⊎ (pa + size ≤ frame * page_size + o)
apart p frame a o pa size place fits small other = ground arith

-- A write that is done changes no byte of another frame than its page's.
pub write_other_frame :
    (addr size value frame o : ℕ) (m m' : Machine) (i : ℕ) (e : TranslationEntry)
    → IsSize size
    → write_mem addr size value m ≡ ok (done tt m')
    → find_entry m (addr / page_size) ≡ ok (at_index i e)
    → e.physical_page ≢ frame
    → o < page_size
    → m'.main_memory (frame * page_size + o) ≡ m.main_memory (frame * page_size + o)
unfolding touch
write_other_frame addr size value frame o m m' i e is h found other small =
    let w = write_mem-Wrote addr size value m m' h in
    let t = translate-Translates addr size true m w.pa w.after w.translated in
    let fits = aligned_fits addr size is t.aligned in
    let (mem, stored, loads, rest) = store-Stores size w.pa value w.after.main_memory is in
    let same : w.mem ≡ mem = ground (arith, w.stored, stored) in
    let frames : t.e.physical_page ≡ e.physical_page = ground (arith, t.found) in
    let unchanged : w.after.main_memory ≡ m.main_memory = rw t.after refl in
    let place = t.place in
    let out : (frame * page_size + o < w.pa) ⊎ (w.pa + size ≤ frame * page_size + o) =
      apart t.e.physical_page frame (addr % page_size) o w.pa size place fits small
        (λ q. other (sym frames ∙ q)) in
    rw w.ends
      (rw same (rest (frame * page_size + o) out ∙ ap (λ f. f (frame * page_size + o)) unchanged))
