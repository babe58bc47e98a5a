-- ===== src/Fsutil/Equal/Trees.antt =====
-- fsutil/equal.go: `Equal`, which walks over a destination and compares it with a source. Neither
-- changes meanwhile; `R` is an open file of either one, at its place, and the state of the walk is the
-- result so far.
pub mod Grows
pub mod Spec
pub mod Sound
pub mod Same
mod Tests
use musicbox.Prelude.{
  ℕ, ◌≡◌, Bool, true, false, not, ◌&&◌, Option, none, some, List, [], ◌∷◌, ◌++◌, ◌==◌,
  if◌then◌else◌,
}
use musicbox.Fsutil.Error.{Error, sentinel, bad_input, not_exist, wrap, is}
use musicbox.Fsutil.Fs.{FilePath, same_path, Opened, opened, not_opened}
use musicbox.Fsutil.Path.{dot}
use musicbox.Fsutil.Walk.{Dirent, Stop, fails, skip_all, out_of_fuel, Step, walk, walk_dir}
use musicbox.Fsutil.Equal.{
  FileMode, CopyFsOption, EqualReport, file_content_mismatch, directory_content_mismatch, same_mode,
  same_names, same_reader, ReadFull, Compared, same, different, failed,
}

-- What Equal reads of Go's fs.FileInfo.
pub record SizedInfo : Type 0 where
  pub is_dir : Bool
  pub is_regular : Bool
  pub mode : FileMode
  pub size : ℕ

-- An fs.FS that does not change.
pub record ReadFs (R : Type 0) : Type 0 where
  pub stat_name : FilePath → Opened Dirent
  pub read_dir : FilePath → List Dirent × Option Error
  pub open_name : FilePath → Opened R
  pub stat : R → Opened SizedInfo

-- `direntNames`
pub dirent_names : List Dirent → List FilePath
dirent_names [] = []
dirent_names (d ∷ ds) = d.name ∷ dirent_names ds

abbrev pub Reports : Type 0
Reports = List EqualReport

-- `result = append(result, report)`, if there is one.
abbrev pub add : Option EqualReport → Reports → Reports
add none rs = rs
add (some r) rs = rs ++ (r ∷ [])

abbrev pub content_report : FilePath → EqualReport
content_report p = record { reason = file_content_mismatch; path = p; modes = none; names = none }

abbrev pub names_report : FilePath → List FilePath → List FilePath → EqualReport
names_report p dst src = record {
  reason = directory_content_mismatch;
  path = p;
  modes = none;
  names = some (dst, src);
}

-- There is no comparison of the root's modes.
abbrev pub mode_reported : CopyFsOption → FilePath → FileMode → FileMode → Option EqualReport
mode_reported opt p d s = if same_path p dot then none else same_mode d s p opt

module _ {R : Type 0} (read_full : ReadFull R) (dst src : ReadFs R) (opt : CopyFsOption) where
  -- `sameFile`, which takes the sizes again, and what is made of its result.
  abbrev sized : R → R → Opened SizedInfo → Opened SizedInfo → Compared
  sized r l (not_opened e) ls = failed e
  sized r l (opened rs) (not_opened e) = failed e
  sized r l (opened rs) (opened ls) = same_reader read_full l r ls.size rs.size

  same_file : R → R → Compared
  same_file r l = sized r l (dst.stat r) (src.stat l)

  visit_files : FilePath → Compared → Step Reports
  visit_files p same rs = (none, rs)
  visit_files p different rs = (none, add (some (content_report p)) rs)
  visit_files p (failed e) rs = (some (fails e), rs)
  visit_files p Compared.out_of_fuel rs = (some out_of_fuel, rs)

  visit_dirs : FilePath → List Dirent × Option Error → List Dirent × Option Error → Step Reports
  visit_dirs p (ds, some e) ss rs = (some (fails e), rs)
  visit_dirs p (ds, none) (ss, some e) rs = (some (fails e), rs)
  visit_dirs p (ds, none) (ss, none) rs = (
    none,
    if same_names (dirent_names ds) (dirent_names ss)
        then rs
        else add (some (names_report p (dirent_names ds) (dirent_names ss))) rs,
  )

  -- From the two infos on.
  visit_infos : FilePath → R → R → SizedInfo → Opened SizedInfo → Step Reports
  unfolding visit_files visit_dirs same_file
  visit_infos p f g di (not_opened e) rs = (some (fails e), rs)
  visit_infos p f g di (opened si) rs =
      let rs' = add (mode_reported opt p di.mode si.mode) rs in
      if not (di.mode.type_bits == si.mode.type_bits)
      then (none, rs')
      else if di.is_dir
      then visit_dirs p (dst.read_dir p) (src.read_dir p) rs'
      else if di.is_regular
      then visit_files p (same_file f g) rs'
      else (none, rs')

  -- A name that the source lacks was reported with its directory.
  visit_source : FilePath → R → Opened SizedInfo → Opened R → Step Reports
  unfolding visit_infos
  visit_source p f (not_opened e) g rs = (some (fails e), rs)
  visit_source p f (opened di) (not_opened e) rs =
      if is e not_exist then (none, rs) else (some (fails e), rs)
  visit_source p f (opened di) (opened g) rs = visit_infos p f g di (src.stat g) rs

  visit_opened : FilePath → Opened R → Step Reports
  unfolding visit_source
  visit_opened p (not_opened e) rs = (some (fails e), rs)
  visit_opened p (opened f) rs = visit_source p f (dst.stat f) (src.open_name p) rs

  -- The function that `Equal` walks with.
  unfoldable pub visit : FilePath → Dirent → Step Reports
  unfolding visit_opened
  visit p d rs =
      if not d.is_dir && d.irregular
      then (if opt.ignore_non_regular then (none, rs) else (
        some (fails (wrap "only directories and regular files are supported" (sentinel bad_input))),
        rs,
      ))
      else visit_opened p (dst.open_name p) rs

  abbrev pub on_error : FilePath → Error → Step Reports
  on_error p e rs = (some (fails e), rs)

  abbrev wrapped : Option Stop → Option Stop
  wrapped (some (fails e)) = some (fails (wrap "fsutil.Equal" e))
  wrapped r = r

  -- `Equal`
  unfoldable pub equal_fs : ℕ → Reports × Option Stop
  unfolding visit
  equal_fs fuel =
      let (err, rs) =
        walk_dir (λ p rs. dst.read_dir p) visit on_error fuel (λ p rs. dst.stat_name p) dot [] in
      (rs, wrapped err)
