-- ===== src/Fsutil/Equal/Trees/Spec.antt =====
-- fsutil/equal.go: what a file system shows of a tree, when two trees are the same under the options,
-- and what a visit of `Equal` reports of a pair.
use mathlib.Core.Path.{ap₂}
use musicbox.Prelude.{
  ℕ, ◌≡◌, refl, sym, ap, ◌∙◌, Bool, true, false, Option, none, some, List, ◌∷◌, ◌==◌, if◌then◌else◌,
  length, arith,
}
use musicbox.Prelude.Anywhere.{same_text}
use musicbox.Fsutil.Fs.{FilePath, same_path, opened}
use musicbox.Fsutil.Path.{dot, join}
use musicbox.Fsutil.Walk.{Stop}
use musicbox.Fsutil.Tree.{
  Node, Entries, file, folder, end, entry, node_mode, dirent_of, dirents, names,
}
use musicbox.Fsutil.Equal.{
  FileMode, CopyFsOption, overridden, EqualReport, same_names, ReadFull, same_reader,
}
use musicbox.Fsutil.Equal.Entries.{ModeMatches}
use musicbox.Fsutil.Equal.Contents.{ReadsFully, verdict, same_reader-verdict}
use musicbox.Fsutil.Equal.Trees.{
  SizedInfo, ReadFs, dirent_names, Reports, add, content_report, names_report, visit, visit_opened,
  visit_source, visit_infos, visit_files, visit_dirs, same_file, mode_reported,
}

-- Go's fs.ModeDir.
abbrev pub mode_dir : ℕ
mode_dir = 0o20000000000

module _ {R : Type 0} (contents : R → List ℕ) where
  -- What is opened at a name, with what Stat says of it and what is left to read.
  abbrev pub OpensAs : ReadFs R → FilePath → SizedInfo → (R → Type 0) → Type 0
  OpensAs fs p info P = (r : R) × (fs.open_name p ≡ opened r) × (fs.stat r ≡ opened info) × P r

  -- What the file system has at a name: a regular file with its contents, or a directory with entries
  -- in the order of ReadDir. No entry's name is the walk's root.
  abbrev mutual
    pub Shows : ReadFs R → FilePath → Node → Type 0
    Shows fs p (file m c) =
        (m.type_bits ≡ 0)
        × OpensAs fs p (record { is_dir = false; is_regular = true; mode = m; size = length c })
            (λ r. contents r ≡ c)
    Shows fs p (folder m es) =
        (m.type_bits ≡ mode_dir)
        × ((size : ℕ) × OpensAs fs p
              (record { is_dir = true; is_regular = false; mode = m; size = size }) (λ r. Unit))
        × (fs.read_dir p ≡ (dirents es, none))
        × ShowsEach fs p es

    pub ShowsEach : ReadFs R → FilePath → Entries → Type 0
    ShowsEach fs p end = Unit
    ShowsEach fs p (entry name node es) =
        (same_path (join p name) dot ≡ false) × Shows fs (join p name) node × ShowsEach fs p es

module _ (opt : CopyFsOption) where
  -- Modes that Equal takes for the same: their types are, and apart from those they match.
  abbrev pub Alike : FilePath → FileMode → FileMode → Type 0
  Alike p m m' = (m.type_bits ≡ m'.type_bits) × ModeMatches (overridden opt p) opt.no_chmod m m'

  -- The same names, kinds and contents, and modes that are taken for the same.
  abbrev mutual
    pub Same : FilePath → Node → Node → Type 0
    Same p (file m c) (file m' c') = Alike p m m' × (c ≡ c')
    Same p (file m c) (folder m' es') = ⊥
    Same p (folder m es) (file m' c') = ⊥
    Same p (folder m es) (folder m' es') = Alike p m m' × SameEach p es es'

    pub SameEach : FilePath → Entries → Entries → Type 0
    SameEach p end end = Unit
    SameEach p end (entry name t es') = ⊥
    SameEach p (entry name s es) end = ⊥
    SameEach p (entry name s es) (entry name' t es') =
        (name ≡ name') × Same (join p name) s t × SameEach p es es'

-- What Equal reports of a pair, besides the modes.
abbrev pub content_difference : FilePath → Node → Node → Option EqualReport
content_difference p (file m c) (file m' c') =
    if same_text c c' then none else some (content_report p)
content_difference p (folder m es) (folder m' es') =
    if same_names (names es) (names es') then none else some (names_report p (names es) (names es'))
content_difference p s t = none

dirent_names-dirents : (es : Entries) → dirent_names (dirents es) ≡ names es
unfolding dirent_names
dirent_names-dirents end = refl
dirent_names-dirents (entry name node es) = ap (λ l. name ∷ l) (dirent_names-dirents es)

module _ {R : Type 0} (read_full : ReadFull R) (contents : R → List ℕ) (dst src : ReadFs R)
    (opt : CopyFsOption) (reads : ReadsFully read_full contents) where
  compared :
      (f g : R) (i j : SizedInfo) (c c' : List ℕ)
      → contents f ≡ c
      → contents g ≡ c'
      → dst.stat f ≡ opened i
      → src.stat g ≡ opened j
      → i.size ≡ length c
      → j.size ≡ length c'
      → same_file read_full dst src opt f g ≡ verdict (same_text c c')
  unfolding same_file
  compared f g i j c c' cf cg sf sg si sj =
      rw (sf, sg, si, sj)
        (ap₂ (λ a b. same_reader read_full g f (length b) (length a)) (sym cf) (sym cg)
          ∙ same_reader-verdict g f reads
          ∙ ap₂ (λ a b. verdict (same_text a b)) cf cg)

  visit_verdict :
      (p : FilePath) (b : Bool) (rs : Reports)
      → visit_files read_full dst src opt p (verdict b) rs
        ≡ (none, add (if b then none else some (content_report p)) rs)
  unfolding visit_files
  visit_verdict p true rs = refl
  visit_verdict p false rs = refl

  visit_names :
      (p : FilePath) (b : Bool) (r : EqualReport) (rs : Reports)
      → ◌≡◌ {A = Option Stop × Reports}
          (none, if b then rs else add (some r) rs)
          (none, add (if b then none else some r) rs)
  visit_names p true r rs = refl
  visit_names p false r rs = refl

  -- A visit of a pair reports the difference of the modes and that of the contents.
  pub visit_node :
      (name p : FilePath) (s t : Node) (rs : Reports)
      → Shows contents dst p s
      → Shows contents src p t
      → visit read_full dst src opt p (dirent_of name s) rs ≡ (
        none,
        add (content_difference p s t) (add (mode_reported opt p (node_mode s) (node_mode t)) rs),
      )
  unfolding visit visit_opened visit_source visit_infos visit_files visit_dirs
  visit_node name p (file m c) (file m' c') rs (d, (f, of, sf, cf)) (d', (g, og, sg, cg)) =
      let same_type : (m.type_bits == m'.type_bits) ≡ true = ground (arith, d, d') in
      rw (of, sf, og, sg, same_type, compared f g _ _ c c' cf cg sf sg refl refl)
        (visit_verdict p (same_text c c') (add (mode_reported opt p m m') rs))
  visit_node name p (folder m es) (folder m' es') rs (d, (n, (f, of, sf, uf)), rf, ef)
        (d', (n', (g, og, sg, ug)), rg, eg) =
      let same_type : (m.type_bits == m'.type_bits) ≡ true = ground (arith, d, d') in
      rw (of, sf, og, sg, same_type, rf, rg, dirent_names-dirents es, dirent_names-dirents es')
        (visit_names p (same_names (names es) (names es')) (names_report p (names es) (names es'))
          (add (mode_reported opt p m m') rs))
  visit_node name p (file m c) (folder m' es') rs (d, (f, of, sf, cf))
        (d', (n', (g, og, sg, ug)), rg, eg) =
      let differ : (m.type_bits == m'.type_bits) ≡ false = ground (arith, d, d') in
      rw (of, sf, og, sg, differ) refl
  visit_node name p (folder m es) (file m' c') rs (d, (n, (f, of, sf, uf)), rf, ef)
        (d', (g, og, sg, cg)) =
      let differ : (m.type_bits == m'.type_bits) ≡ false = ground (arith, d, d') in
      rw (of, sf, og, sg, differ) refl
