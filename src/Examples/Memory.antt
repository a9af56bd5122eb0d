-- ===== src/Examples/Memory.antt =====
-- The memory of Project 2/code/machine/translate.cc at a concrete machine.
use tree_fiddy.Prelude.{ℕ, ◌≡◌, refl, inl, inr, true, false, none, some, [], ◌∷◌, arith}
use tree_fiddy.Prelude.Outcome.{Outcome, ok}
use tree_fiddy.Memory.{
  Machine, TranslationEntry, at_index, Translation, physical, Access, done, find_in, find_entry,
  use_entry, translate, store, write_at, read_mem, write_mem,
}
use tree_fiddy.Memory.Bytes.{kept}
use tree_fiddy.Memory.RoundTrip.{write-read}
use tree_fiddy.Memory.Total.{has_table, Answers, access-Answers}

abbrev page : ℕ → ℕ → TranslationEntry
page v p = record {
  virtual_page = v;
  physical_page = p;
  valid = true;
  is_read_only = false;
  is_used = false;
  is_dirty = false;
}

abbrev two_pages : Machine
two_pages = record {
  tlb = none;
  page_table = some (page 0 7 ∷ page 1 5 ∷ []);
  page_table_size = 2;
  main_memory = λ j. 0;
  last_used = λ j. 0;
  total_ticks = 40;
}

translated : Outcome Translation → Machine
translated (ok (physical pa m)) = m
translated other = two_pages

written : Outcome (Access (Unit {0})) → Machine
written (ok (done x m)) = m
written other = two_pages

in_frame :
    translate 132 4 true two_pages ≡ ok (physical 644 (translated (translate 132 4 true two_pages)))
unfolding translate find_in use_entry translated
in_frame = refl

word_written :
    write_mem 132 4 70000 two_pages ≡ ok (done tt (written (write_mem 132 4 70000 two_pages)))
unfolding write_mem written translate find_in use_entry write_at store
word_written = refl

found_page : find_entry two_pages 1 ≡ ok (at_index 1 (page 1 5))
unfolding find_in
found_page = refl

write-read_example :
    (m : Machine) × (read_mem 132 4 (written (write_mem 132 4 70000 two_pages))
      ≡ ok (done (kept 4 70000) m))
write-read_example =
    write-read 132 4 70000 two_pages (written (write_mem 132 4 70000 two_pages)) (inr (inr refl))
      word_written

access-Answers_example : Answers (read_mem 3 2 two_pages) × Answers (write_mem 3 2 9 two_pages)
access-Answers_example =
    access-Answers 3 2 9 two_pages (has_table (page 0 7 ∷ page 1 5 ∷ []) refl refl (omega arith))
      (inr (inl refl))
