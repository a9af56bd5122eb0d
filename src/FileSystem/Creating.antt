-- ===== src/FileSystem/Creating.antt =====
-- FileSystem::Create of Project 2/code/filesys/filesys.cc.
use tree_fiddy.Prelude.{
  ℕ, ◌<◌, ◌≡◌, ◌≢◌, refl, sym, ap, subst, ◌∙◌, inl, inr, Bool, true, false, ◌||◌, ◌==◌, none, some,
  List, if◌then◌else◌, arith, Bool-cases,
}
use tree_fiddy.Prelude.Int.{ℤ, pos}
use tree_fiddy.Prelude.Outcome.{Outcome, ok}
use tree_fiddy.BitMap.{BitMap, div_round_up}
use tree_fiddy.BitMap.Members.{has}
use tree_fiddy.Directory.{DirectoryEntry, file_name_max_len}
use tree_fiddy.Directory.Names.{same_name_trans}
use tree_fiddy.Directory.Laws.{lookup, same, Adds}
use tree_fiddy.FileHeader.{FileHeader, sector_size}
use tree_fiddy.FileHeader.Allocation.{Names, Owns}
use tree_fiddy.FileHeader.Taking.{Fills, sized}
use tree_fiddy.FileSystem.{FileSystem, write_back}
use tree_fiddy.FileSystem.Consistent.{Holds, IsFile, IsConsistent, held_marked, IsFile-map}

-- What a Create that succeeds leaves: the name has a file of the size, in sectors that were free and are
-- the only ones newly marked; every other name has the file that it had.
pub record Creates (fs : FileSystem) (name : List ℕ) (size : ℕ) (r : Outcome (Bool × FileSystem))
    : Type 0 where
  pub after : FileSystem
  pub sector : ℕ
  pub made : r ≡ ok (true, after)
  pub finds :
      (other : List ℕ)
      → lookup after.directory other
        ≡ (if same name other then some (pos sector) else lookup fs.directory other)
  pub long : (after.headers sector).num_bytes ≡ size
  pub old_headers : (t : ℕ) → t ≢ sector → after.headers t ≡ fs.headers t
  pub were_free : (u : ℕ) → Holds (after.headers sector) sector u → has fs.free_map u ≡ false
  pub map_kept :
      (u : ℕ) → ¬ (Holds (after.headers sector) sector u) → has after.free_map u ≡ has fs.free_map u
  pub consistent : IsConsistent after

pub write_back_self : (s : ℕ) (h : FileHeader) (hs : ℕ → FileHeader) → write_back s h hs s ≡ h
write_back_self s h hs = ground arith

pub write_back_ne :
    (s t : ℕ) (h : FileHeader) (hs : ℕ → FileHeader) → t ≢ s → write_back s h hs t ≡ hs t
write_back_ne s t h hs ne = ground arith

module _ (fs : FileSystem) (c : IsConsistent fs) (name : List ℕ) (size : ℕ) (junk : FileHeader)
    (absent : lookup fs.directory name ≡ none) (s : ℕ) (m : BitMap)
    (in_map : s < fs.free_map.num_bits) (same_size : m.num_bits ≡ fs.free_map.num_bits)
    (clear : has fs.free_map s ≡ false) (marks : (j : ℕ) → has m j ≡ (s == j || has fs.free_map j))
    (k : ℕ) (r : Outcome (FileHeader × BitMap))
    (f : Fills (sized size junk) m 0 (div_round_up size sector_size) k r)
    (rd : Bool × List DirectoryEntry) (added : Adds fs.directory name (pos s) rd) where
  abbrev made_system : FileSystem
  made_system = record {
    directory = added.after;
    free_map = f.left;
    headers = write_back s f.header fs.headers;
  }

  was_free : (j u : ℕ) → j < f.header.num_sectors → Names f.header j u → has m u ≡ false
  was_free j u below name = f.were_free j u (omega arith) (omega (arith, f.sectors)) name

  still_marked : (u : ℕ) → has m u ≡ true → has f.left u ≡ true
  still_marked u h = f.kept u (λ j p q name. absurd (ground (arith, f.were_free j u p q name))) ∙ h

  grows : (u : ℕ) → has fs.free_map u ≡ true → has f.left u ≡ true
  grows u h = still_marked u (ground (arith, marks u))

  new_was_free : (u : ℕ) → Holds f.header s u → has fs.free_map u ≡ false
  new_was_free u (inl e) = ap (has fs.free_map) e ∙ clear
  new_was_free u (inr (j, below, name)) = ground (arith, marks u, was_free j u below name)

  others_kept : (u : ℕ) → ¬ (Holds f.header s u) → has f.left u ≡ has fs.free_map u
  others_kept u out =
      let differ : s ≢ u = λ e. out (inl (sym e)) in
      f.kept u (λ j p q name. out (inr (j, omega (arith, f.sectors), name)))
      ∙ ground (arith, marks u)

  new-IsFile : IsFile f.header f.left s
  new-IsFile = record {
    in_map = omega (arith, f.size);
    marked = still_marked s (ground (arith, marks s));
    owns = subst (Owns f.header f.left 0) (sym f.sectors) f.owns;
    separate = λ j below name. ground (arith, marks s, was_free j s below name);
    long_enough = f.sectors ∙ ap (λ b. div_round_up b sector_size) (sym f.bytes);
  }

  -- A name has the new file, or an old one.
  data Which (a : List ℕ) (t : ℕ) : Type 0 where
    new_one : same name a ≡ true → t ≡ s → Which a t
    old_one :
        same name a ≡ false
        → lookup fs.directory a ≡ some (pos t)
        → t ≢ s
        → IsFile (fs.headers t) fs.free_map t
        → Which a t

  old_sector :
      (a : List ℕ) (t : ℕ)
      → lookup fs.directory a ≡ some (pos t)
      → IsFile (fs.headers t) fs.free_map t
  old_sector a t e =
      let (t', e', file) = c.whole a (pos t) e in
      let same_sector : t' ≡ t = ground arith in
      subst (λ x. IsFile (fs.headers x) fs.free_map x) same_sector file

  which : (a : List ℕ) (t : ℕ) → lookup added.after a ≡ some (pos t) → Which a t
  which a t e = elim (Bool-cases (same name a)) [
    | inl its ↦ new_one its (let found = added.finds a in ground arith)
    | inr not_its ↦
        let old : lookup fs.directory a ≡ some (pos t) =
          (let found = added.finds a in ground arith) in
        let file = old_sector a t old in
        old_one not_its old
          (λ same_sector. absurd (ground (arith, file.marked, ap (has fs.free_map) same_sector)))
          file
  ]

  new_header : made_system.headers s ≡ f.header
  new_header = write_back_self s f.header fs.headers

  old_header : (t : ℕ) → t ≢ s → made_system.headers t ≡ fs.headers t
  old_header t ne = write_back_ne s t f.header fs.headers ne

  free_before : (t u : ℕ) → t ≡ s → Holds (made_system.headers t) t u → has fs.free_map u ≡ false
  free_before t u e h =
      new_was_free u
        (subst (λ x. Holds x s u) new_header (subst (λ x. Holds (made_system.headers x) x u) e h))

  old-Holds : (t u : ℕ) → t ≢ s → Holds (made_system.headers t) t u → Holds (fs.headers t) t u
  old-Holds t u ne h = subst (λ x. Holds x t u) (old_header t ne) h

  made_whole : (a : List ℕ) (t : ℕ) → Which a t → IsFile (made_system.headers t) f.left t
  made_whole a t (new_one its e) =
      subst (λ x. IsFile (made_system.headers x) f.left x) (sym e)
        (subst (λ x. IsFile x f.left s) (sym new_header) new-IsFile)
  made_whole a t (old_one not_its found ne file) =
      subst (λ x. IsFile x f.left t) (sym (old_header t ne))
        (IsFile-map (fs.headers t) fs.free_map f.left t (f.size ∙ same_size)
          (λ u h. grows u (held_marked (fs.headers t) fs.free_map t u file h)) file)

  made_apart :
      (a b : List ℕ) (t t' u : ℕ)
      → Which a t
      → Which b t'
      → same a b ≡ false
      → Holds (made_system.headers t) t u
      → ¬ (Holds (made_system.headers t') t' u)
  made_apart a b t t' u (new_one its e) (new_one its' e') differ h h' =
      absurd (ground (arith, same_name_trans file_name_max_len name a b its))
  made_apart a b t t' u (new_one its e) (old_one not_its found ne file) differ h h' =
      let marked = held_marked (fs.headers t') fs.free_map t' u file (old-Holds t' u ne h') in
      let unmarked = free_before t u e h in absurd (ground arith)
  made_apart a b t t' u (old_one not_its found ne file) (new_one its e) differ h h' =
      let marked = held_marked (fs.headers t) fs.free_map t u file (old-Holds t u ne h) in
      let unmarked = free_before t' u e h' in absurd (ground arith)
  made_apart a b t t' u (old_one not_its found ne file) (old_one not_its' found' ne' file') differ h
        h' =
      c.apart a b t t' u found found' differ (old-Holds t u ne h) (old-Holds t' u ne' h')

  pos_sector : (a : List ℕ) (z : ℤ) → lookup added.after a ≡ some z → (t : ℕ) × (z ≡ pos t)
  pos_sector a z e = elim (Bool-cases (same name a)) [
    | inl its ↦ (s, let found = added.finds a in ground arith)
    | inr not_its ↦
        let old : lookup fs.directory a ≡ some z = (let found = added.finds a in ground arith) in
        let (t, e', file) = c.whole a z old in (t, e')
  ]

  made_IsConsistent : IsConsistent made_system
  made_IsConsistent = record {
    room = f.room;
    valid = added.valid;
    whole = λ a z e.
        let (t, e') = pos_sector a z e in
        (t, e', made_whole a t (which a t (e ∙ ap (λ (x : ℤ). some x) e')));
    apart = λ a b t t' u e e'. made_apart a b t t' u (which a t e) (which b t' e');
  }

  pub made-Creates :
      (q : Outcome (Bool × FileSystem)) → q ≡ ok (true, made_system) → Creates fs name size q
  made-Creates q e = record {
    after = made_system;
    sector = s;
    made = e;
    finds = added.finds;
    long = ap (λ (x : FileHeader). x.num_bytes) new_header ∙ f.bytes;
    old_headers = old_header;
    were_free = λ u h. free_before s u refl h;
    map_kept = λ u out. others_kept u (λ h. out (subst (λ x. Holds x s u) (sym new_header) h));
    consistent = made_IsConsistent;
  }
