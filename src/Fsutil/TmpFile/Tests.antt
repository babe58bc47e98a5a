-- ===== src/Fsutil/TmpFile/Tests.antt =====
-- CleanTmp at concrete directories.
use musicbox.Fsutil.TmpFile.Clean.Names.{TmpPaths, clean_tmp-TmpPaths}
use musicbox.Fsutil.Path.Normal.{no_slash, IsProper}
use musicbox.Fsutil.Path.{dot, dot_dot}
use musicbox.Prelude.{
  inl, ◌≡◌, refl, Bool, true, false, Option, none, some, List, [], ◌∷◌, if◌then◌else◌,
}
use musicbox.Prelude.Codes.{codes}
use musicbox.Fsutil.Error.{Error, sentinel, not_exist, wrap}
use musicbox.Fsutil.Action.{Action, for_each}
use musicbox.Fsutil.Fs.{FilePath, same_path, Opened, opened}
use musicbox.Fsutil.Path.{
  base, root, join, clean, split_slash, join_slash, go_up, clean_step, clean_elements,
}
use musicbox.Fsutil.Text.{has_suffix}
use musicbox.Fsutil.Walk.{Dirent, fails, as_step}
use musicbox.Fsutil.TmpFile.{TmpFileOption, match_tmp_file, is_empty, suffix_or_default}
use musicbox.Fsutil.TmpFile.Clean.{clean_root, clean_tmp, wrapped, clean_tmp-fails_at_folder}

abbrev default_tmp : TmpFileOption
default_tmp = record { tmp_dir_name = []; prefix = []; suffix = []; random_pattern = codes "-*" }

-- The names that were removed, the last one first.
abbrev Removed : Type 0
Removed = List FilePath

abbrev remove : FilePath → Action Removed
remove p w = (none, p ∷ w)

abbrev named : FilePath → Bool → Dirent
named name is_dir = record { name = name; is_dir = is_dir; irregular = is_dir }

abbrev stat_root : FilePath → Removed → Opened Dirent
stat_root p w = opened (named p true)

abbrev files : List Dirent
files = named (codes "a.tmp") false ∷ named (codes "b") false ∷ []

abbrev list_files : FilePath → Removed → List Dirent × Option Error
list_files p w = (files, none)

IsProper-name :
    (name : FilePath)
    → no_slash name ≡ true
    → same_path name [] ≡ false
    → same_path name dot ≡ false
    → same_path name dot_dot ≡ false
    → IsProper name
IsProper-name name whole not_nil not_dot not_dot_dot = record {
  whole = whole;
  not_nil = not_nil;
  not_dot = not_dot;
  not_dot_dot = not_dot_dot;
}

clean_tmp-TmpPaths_example :
    (paths : List FilePath) × TmpPaths default_tmp (clean_root default_tmp) files paths
    × (clean_tmp default_tmp stat_root list_files remove 2 []
        ≡ wrapped default_tmp stat_root list_files remove (as_step (for_each paths remove [])))
unfolding clean_root is_empty join clean split_slash join_slash go_up clean_step clean_elements
clean_tmp-TmpPaths_example =
    clean_tmp-TmpPaths default_tmp stat_root list_files remove 0 (named root true) files []
      (inl refl) refl refl refl
      (
        ((refl, refl), IsProper-name (codes "a.tmp") refl refl refl refl),
        (((refl, refl), IsProper-name (codes "b") refl refl refl refl), tt),
      )

abbrev folder_in : List Dirent
folder_in = named (codes "d.tmp") true ∷ []

-- A directory that is gone is not listed.
abbrev list_folder : FilePath → Removed → List Dirent × Option Error
list_folder p w = if same_path p root then (folder_in, none) else ([], some (sentinel not_exist))

clean_tmp-fails_at_folder_example : clean_tmp default_tmp stat_root list_folder remove 2 [] ≡ (
  some (fails (wrap "CleanTmp" (sentinel not_exist))),
  join (clean_root default_tmp) (codes "d.tmp") ∷ [],
)
unfolding clean_root match_tmp_file is_empty suffix_or_default has_suffix base join clean
    split_slash join_slash go_up clean_step clean_elements
clean_tmp-fails_at_folder_example =
    clean_tmp-fails_at_folder default_tmp stat_root list_folder remove 0 (named root true)
      (named (codes "d.tmp") true) [] [] (join (clean_root default_tmp) (codes "d.tmp") ∷ [])
      (sentinel not_exist) refl refl refl refl refl refl refl refl
