-- ===== src/Fsutil/CleanDir/Tests.antt =====
-- CleanDir of one of the directories of a file system in memory.
use musicbox.Prelude.{◌≡◌, refl, none, List, [], ◌∷◌, if◌then◌else◌, false}
use musicbox.Prelude.Codes.{codes}
use musicbox.Prelude.Anywhere.{All}
use musicbox.Fsutil.Action.{Action, Ensures}
use musicbox.Fsutil.Fs.{FilePath, same_path, Opened, opened}
use musicbox.Fsutil.Text.{same_path_refl}
use musicbox.Fsutil.Path.{join}
use musicbox.Fsutil.CleanDir.{clean_dir, Empties, clean_dir-Ensures}

-- The entries of each directory.
abbrev Dirs : Type 0
Dirs = FilePath → List FilePath

abbrev open_dir : FilePath → Dirs → Opened FilePath × Dirs
open_dir p w = (opened p, w)

abbrev read_dir : FilePath → Dirs → Opened (List FilePath) × Dirs
read_dir p w = (opened (w p), w)

-- The names without those that are of this path in the directory.
abbrev without : FilePath → FilePath → List FilePath → List FilePath
without p dir [] = []
without p dir (name ∷ names) =
    let rest = without p dir names in if same_path (join dir name) p then rest else name ∷ rest

abbrev remove : FilePath → Action Dirs
remove p w = (none, λ dir. without p dir (w dir))

-- The names in a directory are of different paths.
abbrev Differ : FilePath → List FilePath → Type 0
Differ dir [] = Unit
Differ dir (name ∷ names) =
    All (λ other. same_path (join dir other) (join dir name) ≡ false) names × Differ dir names

abbrev Has : FilePath → List FilePath → Dirs → Type 0
Has dir names w = (w dir ≡ names) × Differ dir names

without_others :
    (p dir : FilePath) (names : List FilePath)
    → All (λ other. same_path (join dir other) p ≡ false) names
    → without p dir names ≡ names
without_others p dir [] h = refl
without_others p dir (name ∷ names) (differs, h) = rw (differs, without_others p dir names h) refl

memory_Empties :
    (dir : FilePath) → Empties open_dir read_dir remove dir (Has dir) (λ h w. h ≡ dir) (λ w. ⊥)
memory_Empties dir = record {
  opens = λ names w has. (refl, has);
  reads = λ names h w is_on has. (rw is_on has.0, has);
  removes = λ name names. record {
    at = λ w has. (
      rw (has.0, same_path_refl (join dir name)) (without_others (join dir name) dir names has.1.0),
      has.1.1,
    );
  };
}

clean_dir-Ensures_example :
    Ensures
      (Has (codes "d") (codes "a" ∷ codes "b" ∷ []))
      (clean_dir open_dir read_dir remove (codes "d"))
      (Has (codes "d") [])
      (λ w. ⊥)
clean_dir-Ensures_example =
    clean_dir-Ensures open_dir read_dir remove (codes "d") (Has (codes "d")) (λ h w. h ≡ codes "d")
      (λ w. ⊥) (memory_Empties (codes "d")) (codes "a" ∷ codes "b" ∷ [])
