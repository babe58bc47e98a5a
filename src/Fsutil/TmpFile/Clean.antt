-- ===== src/Fsutil/TmpFile/Clean.antt =====
-- fsutil/safe_write.go: `cleanTmp` and `CleanTmp`, which walk over a file system and remove the temporary files
-- in it. `stat_name`, `read_dir` and `remove_all` are those of the file system, on a world `W`.
pub mod Names
use musicbox.Prelude.{
  ℕ, suc, ◌≡◌, refl, sym, ap, ◌∙◌, true, false, ◌&&◌, Option, none, some, List, [], ◌∷◌,
  if◌then◌else◌, Bool-cases, inl, inr, arith,
}
use musicbox.Prelude.Anywhere.{All}
use musicbox.Fsutil.Error.{Error, is, not_exist, wrap}
use musicbox.Fsutil.Action.{Action, done, ◌>>◌, for_each}
use musicbox.Fsutil.Fs.{FilePath, same_path, Opened, opened, not_opened}
use musicbox.Fsutil.Path.{join, root}
use musicbox.Fsutil.Walk.{
  Dirent, Stop, fails, skip_all, Step, chain, finish, walk, walk_each, walk_below, walk_entries,
  walk_dir, as_step, seq_step, chain_ext, finish_step,
}
use musicbox.Fsutil.Text.{same_path_refl}
use musicbox.Fsutil.TmpFile.{TmpFileOption, is_empty, match_tmp_file}

-- The directory of temporary files, or the root.
unfoldable pub clean_root : TmpFileOption → FilePath
clean_root o = if is_empty o.tmp_dir_name then root else o.tmp_dir_name

module _ {W : Type 0} (o : TmpFileOption) (stat_name : FilePath → W → Opened Dirent)
    (read_dir : FilePath → W → List Dirent × Option Error) (remove_all : FilePath → Action W) where
  -- The function that `cleanTmp` walks with.
  unfoldable pub visit_tmp : FilePath → Dirent → Step W
  visit_tmp p d w =
      if same_path p (clean_root o)
      then (none, w)
      else if match_tmp_file o p
      then as_step (remove_all p w)
      else (none, w)

  abbrev pub on_tmp_error : FilePath → Error → Step W
  on_tmp_error p e w =
      if is e not_exist && same_path p (clean_root o)
      then (some skip_all, w)
      else (some (fails e), w)

  abbrev pub wrapped : Option Stop × W → Option Stop × W
  wrapped (some (fails e), w) = (some (fails (wrap "CleanTmp" e)), w)
  wrapped r = r

  -- `CleanTmp`
  unfoldable pub clean_tmp : ℕ → Step W
  unfolding visit_tmp
  clean_tmp fuel w =
      wrapped (walk_dir read_dir visit_tmp on_tmp_error fuel stat_name (clean_root o) w)

  -- The names in a directory that are temporary files'.
  abbrev pub matching : FilePath → List Dirent → List FilePath
  matching p [] = []
  matching p (d ∷ ds) =
      let rest = matching p ds in
      if match_tmp_file o (join p d.name) then join p d.name ∷ rest else rest

  -- A regular file, of another name than the directory's.
  abbrev pub IsFileIn : FilePath → Dirent → Type 0
  IsFileIn p d = (d.is_dir ≡ false) × (same_path (join p d.name) p ≡ false)

  abbrev walks : ℕ → FilePath → Dirent → Step W
  walks = walk read_dir visit_tmp on_tmp_error

  chain_done : (r : Option Stop × W) → chain r (λ v. (none, v)) ≡ r
  chain_done (none, w) = refl
  chain_done (some s, w) = refl

  -- A file is removed if it is a temporary one.
  walk_file :
      (fuel : ℕ) (d : Dirent) (w : W)
      → IsFileIn (clean_root o) d
      → walks (suc fuel) (join (clean_root o) d.name) d w ≡ (
          if match_tmp_file o (join (clean_root o) d.name)
          then as_step (remove_all (join (clean_root o) d.name) w)
          else (none, w))
  unfolding walk walk_below visit_tmp
  walk_file fuel d w (plain, other) = rw (other, plain) (chain_done _)

  walk_files :
      (fuel : ℕ) (ds : List Dirent) (w : W)
      → All (IsFileIn (clean_root o)) ds
      → walk_each (walks (suc fuel)) (clean_root o) ds w
        ≡ as_step (for_each (matching (clean_root o) ds) remove_all w)
  unfolding walk_each for_each done ◌>>◌
  walk_files fuel [] w all = refl
  walk_files fuel (d ∷ ds) w (file, all) =
      let others = walk_each (walks (suc fuel)) (clean_root o) ds in
      elim (Bool-cases (match_tmp_file o (join (clean_root o) d.name))) [
        | inl temporary ↦
            ap (λ r. chain r others) (walk_file fuel d w file)
            ∙ rw temporary (
                chain_ext (as_step (remove_all (join (clean_root o) d.name) w)) others
                  (λ v. as_step (for_each (matching (clean_root o) ds) remove_all v))
                  (λ v. walk_files fuel ds v all)
                ∙ sym (
                    seq_step (remove_all (join (clean_root o) d.name) w)
                      (for_each (matching (clean_root o) ds) remove_all)))
        | inr other ↦
            ap (λ r. chain r others) (walk_file fuel d w file) ∙ rw other (walk_files fuel ds w all)
      ]

  from_root :
      (fuel : ℕ) (root_dir : Dirent) (w : W)
      → stat_name (clean_root o) w ≡ opened root_dir
      → clean_tmp fuel w ≡ wrapped (finish (walks fuel (clean_root o) root_dir w))
  unfolding clean_tmp walk_dir
  from_root fuel root_dir w st =
      ap
        (λ x. wrapped (elim x as (λ x. Option Stop × W) [
          | opened d ↦ finish (walks fuel (clean_root o) d w)
          | not_opened e ↦ finish (on_tmp_error (clean_root o) e w)
        ]))
        st

  -- The root itself is passed by.
  in_root :
      (fuel : ℕ) (root_dir : Dirent) (ds : List Dirent) (w : W)
      → root_dir.is_dir ≡ true
      → read_dir (clean_root o) w ≡ (ds, none)
      → walks (suc fuel) (clean_root o) root_dir w ≡ walk_each (walks fuel) (clean_root o) ds w
  unfolding walk walk_below walk_entries visit_tmp
  in_root fuel root_dir ds w is_dir listed = rw (same_path_refl (clean_root o), is_dir, listed) refl

  -- CleanTmp of a directory that holds no other directories removes the temporary files in it, in order
  -- and until one is not removed, and does nothing else.
  pub clean_tmp-eq-removals :
      (fuel : ℕ) (root_dir : Dirent) (ds : List Dirent) (w : W)
      → stat_name (clean_root o) w ≡ opened root_dir
      → root_dir.is_dir ≡ true
      → read_dir (clean_root o) w ≡ (ds, none)
      → All (IsFileIn (clean_root o)) ds
      → clean_tmp (suc (suc fuel)) w
        ≡ wrapped (as_step (for_each (matching (clean_root o) ds) remove_all w))
  clean_tmp-eq-removals fuel root_dir ds w st is_dir listed all =
      from_root (suc (suc fuel)) root_dir w st
      ∙ ap (λ r. wrapped (finish r))
          (in_root (suc fuel) root_dir ds w is_dir listed ∙ walk_files fuel ds w all)
      ∙ ap wrapped (finish_step (for_each (matching (clean_root o) ds) remove_all w))

  -- A temporary directory is removed, and then its entries are to be read.
  walk_folder :
      (fuel : ℕ) (d : Dirent) (w w' : W) (e : Error)
      → d.is_dir ≡ true
      → same_path (join (clean_root o) d.name) (clean_root o) ≡ false
      → match_tmp_file o (join (clean_root o) d.name) ≡ true
      → remove_all (join (clean_root o) d.name) w ≡ (none, w')
      → read_dir (join (clean_root o) d.name) w' ≡ ([], some e)
      → walks (suc fuel) (join (clean_root o) d.name) d w ≡ (some (fails e), w')
  unfolding walk walk_below walk_entries visit_tmp
  walk_folder fuel d w w' e folder other matches removed gone =
      let no_root : (is e not_exist && same_path (join (clean_root o) d.name) (clean_root o))
          ≡ false =
        ground (arith, other) in
      rw (other, matches, removed, folder, gone) (rw no_root refl)

  -- CleanTmp fails at a temporary directory: it is removed, and then its entries are to be read.
  pub clean_tmp-fails_at_folder :
      (fuel : ℕ) (root_dir d : Dirent) (ds : List Dirent) (w w' : W) (e : Error)
      → stat_name (clean_root o) w ≡ opened root_dir
      → root_dir.is_dir ≡ true
      → read_dir (clean_root o) w ≡ (d ∷ ds, none)
      → d.is_dir ≡ true
      → same_path (join (clean_root o) d.name) (clean_root o) ≡ false
      → match_tmp_file o (join (clean_root o) d.name) ≡ true
      → remove_all (join (clean_root o) d.name) w ≡ (none, w')
      → read_dir (join (clean_root o) d.name) w' ≡ ([], some e)
      → clean_tmp (suc (suc fuel)) w ≡ (some (fails (wrap "CleanTmp" e)), w')
  unfolding walk_each
  clean_tmp-fails_at_folder fuel root_dir d ds w w' e st is_dir listed folder other matches removed
        gone =
      from_root (suc (suc fuel)) root_dir w st
      ∙ ap (λ r. wrapped (finish r))
          (in_root (suc fuel) root_dir (d ∷ ds) w is_dir listed
            ∙ ap (λ r. chain r (walk_each (walks (suc fuel)) (clean_root o) ds))
                (walk_folder fuel d w w' e folder other matches removed gone))
