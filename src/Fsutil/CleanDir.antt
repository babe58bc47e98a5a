-- ===== src/Fsutil/CleanDir.antt =====
-- fsutil/clean_dir.go: `CleanDir`. `open_name`, `readdir` and `remove_all` are those of the file system
-- and of an open directory `H`, of which Readdir gives the names.
mod Tests
use musicbox.Prelude.{◌≡◌, refl, sym, Option, none, some, List, [], ◌∷◌}
use musicbox.Fsutil.Error.{Error}
use musicbox.Fsutil.Action.{
  Action, ◌>>◌, done, wrapping, for_each, Post, Ensures, Ensures->>, Ensures-wrapping, Ensures-done,
}
use musicbox.Fsutil.Fs.{FilePath, Opened, opened, not_opened}
use musicbox.Fsutil.Path.{join}
use mathlib.Core.Path.{subst}

module _ {W H : Type 0} (open_name : FilePath → W → Opened H × W)
    (readdir : H → W → Opened (List FilePath) × W) (remove_all : FilePath → Action W) where
  remove_each : FilePath → Opened (List FilePath) × W → Option Error × W
  remove_each path (not_opened e, w) = (some e, w)
  remove_each path (opened names, w) = for_each names (λ name. remove_all (join path name)) w

  -- `cleanDir`
  read_and_remove : FilePath → Opened H × W → Option Error × W
  unfolding remove_each
  read_and_remove path (not_opened e, w) = (some e, w)
  read_and_remove path (opened dir, w) = remove_each path (readdir dir w)

  -- `CleanDir`
  pub clean_dir : FilePath → Action W
  unfolding read_and_remove
  clean_dir path = wrapping "fsutil.CleanDir" (λ w. read_and_remove path (open_name path w))

  abbrev Gives : {A : Type 0} → (A → W → Type 0) → (W → Type 0) → Opened A × W → Type 0
  Gives Q R (opened a, w) = Q a w
  Gives Q R (not_opened e, w) = R w

  -- What is asked of the file system at a directory: `Has names` says that it has these entries,
  -- `IsOn` that an open file is on the directory, and `Failed` what holds when an operation has failed.
  -- What is opened by the directory's name is on it, and Readdir of that gives its entries.
  pub record Empties (path : FilePath) (Has : List FilePath → W → Type 0) (IsOn : H → W → Type 0)
      (Failed : W → Type 0) : Type 0 where
    pub opens :
        (names : List FilePath) (w : W)
        → Has names w
        → Gives (λ dir v. IsOn dir v × Has names v) Failed (open_name path w)
    pub reads :
        (names : List FilePath) (dir : H) (w : W)
        → IsOn dir w
        → Has names w
        → Gives (λ found v. (found ≡ names) × Has names v) Failed (readdir dir w)
    pub removes :
        (name : FilePath) (names : List FilePath)
        → Ensures (Has (name ∷ names)) (remove_all (join path name)) (Has names) Failed

  module _ (path : FilePath) (Has : List FilePath → W → Type 0) (IsOn : H → W → Type 0)
      (Failed : W → Type 0) (l : Empties path Has IsOn Failed) where
    remove_names-Ensures :
        (names : List FilePath)
        → Ensures (Has names) (for_each names (λ name. remove_all (join path name))) (Has []) Failed
    unfolding for_each
    remove_names-Ensures [] = Ensures-done
    remove_names-Ensures (name ∷ names) =
        Ensures->> _ _ (l.removes name names) (remove_names-Ensures names)

    remove_each-Post :
        (names : List FilePath) (r : Opened (List FilePath) × W)
        → Gives (λ found v. (found ≡ names) × Has names v) Failed r
        → Post (Has []) Failed (remove_each path r)
    unfolding remove_each
    remove_each-Post names (not_opened e, w) failed = failed
    remove_each-Post names (opened found, w) (same, has) =
        subst (λ ns. Post (Has []) Failed (for_each ns (λ name. remove_all (join path name)) w))
          (sym same) ((remove_names-Ensures names).at w has)

    read_and_remove-Post :
        (names : List FilePath) (r : Opened H × W)
        → Gives (λ dir v. IsOn dir v × Has names v) Failed r
        → Post (Has []) Failed (read_and_remove path r)
    unfolding read_and_remove
    read_and_remove-Post names (not_opened e, w) failed = failed
    read_and_remove-Post names (opened dir, w) (is_on, has) =
        remove_each-Post names (readdir dir w) (l.reads names dir w is_on has)

    -- CleanDir of a directory with any entries leaves it with none if it succeeds, and it fails
    -- only where an operation has failed, over a file system where Readdir of what is opened by the
    -- directory's name gives its entries and RemoveAll removes one.
    pub clean_dir-Ensures :
        (names : List FilePath) → Ensures (Has names) (clean_dir path) (Has []) Failed
    unfolding clean_dir
    clean_dir-Ensures names = Ensures-wrapping _ _ (record {
      at = λ w has. read_and_remove-Post names (open_name path w) (l.opens names w has);
    })
