-- ===== src/Fsutil/Equal/Trees/Grows.antt =====
-- The walk of `Equal` only adds to its result.
use musicbox.Prelude.{
  ℕ, zero, suc, ◌≤◌, Bool, true, false, not, ◌&&◌, Option, none, some, List, [], ◌∷◌, ◌==◌,
  if◌then◌else◌, length, length-append, arith,
}
use musicbox.Fsutil.Error.{Error, is, not_exist}
use musicbox.Fsutil.Fs.{FilePath, Opened, opened, not_opened}
use musicbox.Fsutil.Path.{join}
use musicbox.Fsutil.Walk.{
  Dirent, Stop, fails, skip_all, out_of_fuel, Step, chain, walk, walk_each, walk_below,
  walk_entries,
}
use musicbox.Fsutil.Equal.{CopyFsOption, EqualReport, ReadFull, Compared, same, different, failed}
use musicbox.Fsutil.Equal.Trees.{
  SizedInfo, ReadFs, Reports, add, visit, visit_opened, visit_source, visit_infos, visit_files,
  visit_dirs, mode_reported, on_error,
}

-- The result is not shorter, and the rest of the walk is not skipped without an error.
abbrev pub Longer : Reports → Option Stop × Reports → Type 0
Longer rs (some skip_all, x) = ⊥
Longer rs (some (fails e), x) = length rs ≤ length x
Longer rs (some out_of_fuel, x) = length rs ≤ length x
Longer rs (none, x) = length rs ≤ length x

pub Longer-length :
    (rs : Reports) (r : Option Stop × Reports) → Longer rs r → length rs ≤ length r.1
Longer-length rs (some skip_all, x) h = elim h [ ]
Longer-length rs (some (fails e), x) h = h
Longer-length rs (some out_of_fuel, x) h = h
Longer-length rs (none, x) h = h

Longer-trans :
    (rs x : Reports) (r : Option Stop × Reports) → length rs ≤ length x → Longer x r → Longer rs r
Longer-trans rs x (some skip_all, y) h k = k
Longer-trans rs x (some (fails e), y) h k = omega (arith, h, k)
Longer-trans rs x (some out_of_fuel, y) h k = omega (arith, h, k)
Longer-trans rs x (none, y) h k = omega (arith, h, k)

abbrev pub Grows : Step Reports → Type 0
Grows step = (rs : Reports) → Longer rs (step rs)

pub length-add : (r : Option EqualReport) (rs : Reports) → length rs ≤ length (add r rs)
length-add none rs = omega arith
length-add (some r) rs = omega (arith, length-append rs (r ∷ []))

pub chain-Longer :
    (rs : Reports) (r : Option Stop × Reports) (k : Step Reports)
    → Longer rs r
    → Grows k
    → Longer rs (chain r k)
chain-Longer rs (none, x) k h g = Longer-trans rs x (k x) h (g x)
chain-Longer rs (some s, x) k h g = h

pub walk_each-Grows :
    (step : FilePath → Dirent → Step Reports) (p : FilePath) (ds : List Dirent)
    → ((p : FilePath) (d : Dirent) → Grows (step p d))
    → Grows (walk_each step p ds)
unfolding walk_each
walk_each-Grows step p [] g rs = omega arith
walk_each-Grows step p (d ∷ ds) g rs =
    chain-Longer rs (step (join p d.name) d rs) (walk_each step p ds) (g (join p d.name) d rs)
      (walk_each-Grows step p ds g)

module _ {R : Type 0} (read_full : ReadFull R) (dst src : ReadFs R) (opt : CopyFsOption) where
  visit_files-Grows : (p : FilePath) (c : Compared) → Grows (visit_files read_full dst src opt p c)
  unfolding visit_files
  visit_files-Grows p same rs = omega arith
  visit_files-Grows p different rs = length-add (some _) rs
  visit_files-Grows p (failed e) rs = omega arith
  visit_files-Grows p Compared.out_of_fuel rs = omega arith

  if-Longer :
      (b : Bool) (rs : Reports) (x y : Option Stop × Reports)
      → Longer rs x
      → Longer rs y
      → Longer rs (if b then x else y)
  if-Longer true rs x y h k = h
  if-Longer false rs x y h k = k

  names-Longer :
      (b : Bool) (r : EqualReport) (rs : Reports)
      → length rs ≤ length (if b then rs else add (some r) rs)
  names-Longer true r rs = omega arith
  names-Longer false r rs = length-add (some r) rs

  visit_dirs-Grows :
      (p : FilePath) (ds ss : List Dirent × Option Error)
      → Grows (visit_dirs read_full dst src opt p ds ss)
  unfolding visit_dirs
  visit_dirs-Grows p (ds, some e) ss rs = omega arith
  visit_dirs-Grows p (ds, none) (ss, some e) rs = omega arith
  visit_dirs-Grows p (ds, none) (ss, none) rs = names-Longer _ _ rs

  visit_infos-Grows :
      (p : FilePath) (f g : R) (di : SizedInfo) (si : Opened SizedInfo)
      → Grows (visit_infos read_full dst src opt p f g di si)
  unfolding visit_infos
  visit_infos-Grows p f g di (not_opened e) rs = omega arith
  visit_infos-Grows p f g di (opened si) rs =
      let r = mode_reported opt p di.mode si.mode in
      let more = length-add r rs in
      if-Longer (not (di.mode.type_bits == si.mode.type_bits)) rs _ _ more (
        if-Longer di.is_dir rs _ _
          (Longer-trans rs (add r rs) _ more
            (visit_dirs-Grows p (dst.read_dir p) (src.read_dir p) (add r rs)))
          (if-Longer di.is_regular rs _ _
            (Longer-trans rs (add r rs) _ more (visit_files-Grows p _ (add r rs))) more))

  visit_source-Grows :
      (p : FilePath) (f : R) (di : Opened SizedInfo) (g : Opened R)
      → Grows (visit_source read_full dst src opt p f di g)
  unfolding visit_source
  visit_source-Grows p f (not_opened e) g rs = omega arith
  visit_source-Grows p f (opened di) (not_opened e) rs =
      if-Longer (is e not_exist) rs _ _ (omega arith) (omega arith)
  visit_source-Grows p f (opened di) (opened g) rs = visit_infos-Grows p f g di (src.stat g) rs

  visit_opened-Grows :
      (p : FilePath) (f : Opened R) → Grows (visit_opened read_full dst src opt p f)
  unfolding visit_opened
  visit_opened-Grows p (not_opened e) rs = omega arith
  visit_opened-Grows p (opened f) rs = visit_source-Grows p f (dst.stat f) (src.open_name p) rs

  pub visit-Grows : (p : FilePath) (d : Dirent) → Grows (visit read_full dst src opt p d)
  unfolding visit
  visit-Grows p d rs =
      if-Longer (not d.is_dir && d.irregular) rs _ _
        (if-Longer opt.ignore_non_regular rs _ _ (omega arith) (omega arith))
        (visit_opened-Grows p (dst.open_name p) rs)

  abbrev pub walk_on : ℕ → FilePath → Dirent → Step Reports
  walk_on =
      walk (λ p rs. dst.read_dir p) (visit read_full dst src opt) (on_error read_full dst src opt)

  abbrev pub below : ℕ → FilePath → Dirent → Step Reports
  below fuel =
      walk_below (λ p rs. dst.read_dir p) (visit read_full dst src opt)
        (on_error read_full dst src opt) (walk_on fuel)

  entries-Grows :
      (fuel : ℕ) (p : FilePath) (r : List Dirent × Option Error)
      → ((p : FilePath) (d : Dirent) → Grows (walk_on fuel p d))
      → Grows (
          walk_entries
            (λ p rs. dst.read_dir p)
            (visit read_full dst src opt)
            (on_error read_full dst src opt)
            (walk_on fuel)
            p
            r)
  unfolding walk_entries
  entries-Grows fuel p (ds, none) g rs = walk_each-Grows (walk_on fuel) p ds g rs
  entries-Grows fuel p (ds, some e) g rs = omega arith

  pub below-Grows :
      (fuel : ℕ) (p : FilePath) (d : Dirent)
      → ((p : FilePath) (d : Dirent) → Grows (walk_on fuel p d))
      → Grows (below fuel p d)
  unfolding walk_below
  below-Grows fuel p d g rs =
      if-Longer d.is_dir rs _ _ (entries-Grows fuel p (dst.read_dir p) g rs) (omega arith)

  pub walk-Grows : (fuel : ℕ) (p : FilePath) (d : Dirent) → Grows (walk_on fuel p d)
  unfolding walk
  walk-Grows zero p d rs = omega arith
  walk-Grows (suc fuel) p d rs =
      chain-Longer rs (visit read_full dst src opt p d rs) (below fuel p d) (visit-Grows p d rs)
        (below-Grows fuel p d (walk-Grows fuel))
