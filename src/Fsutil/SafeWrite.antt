-- ===== src/Fsutil/SafeWrite.antt =====
-- fsutil/safe_write.go: `SafeWriteOption` and `safeWrite`, which writes a temporary file or directory
-- and renames it to its destination.

pub mod Atomic
pub mod Cleanup
pub mod Options
pub mod Processes
pub mod Validated
use Prim.Native.Nat.{bit_or}
use musicbox.Prelude.{
  ℕ, Bool, true, false, not, ◌&&◌, ◌||◌, Option, none, some, List, [], ◌∷◌, ◌==◌, if◌then◌else◌,
}
use musicbox.Prelude.Signed.{ℤ, negsuc, is_negative, ltb_ℤ}
use musicbox.Prelude.Codes.{codes}
use musicbox.Fsutil.Error.{Error, wrap}
use musicbox.Fsutil.Action.{Action, done, ◌>>◌, when, wrapping, for_each}
use musicbox.Fsutil.Fs.{FilePath, same_path, Opened, opened, not_opened, Fs, perm_bits, mode_perm}
use musicbox.Fsutil.Path.{normalize_path, dir, root, dot}
use musicbox.Fsutil.Once.{Run, start, lift, close_once}
use musicbox.Fsutil.TmpFile.{TmpFileOption, temp_dir}

-- `SafeWritePreProcess` and `SafeWritePostProcess`, on the file system that they are given.
abbrev pub Process : Type 0 → Type 0 → Type 0
Process W H = FilePath → FilePath → H → Action W

pub record SafeWriteOption (W H : Type 0) : Type 0 where
  pub tmp_file_option : TmpFileOption
  pub disable_mkdir : Bool
  pub force_perm : Bool
  pub disable_remove_on_err : Bool
  pub ignore_matched_err : Option (Error → Bool)
  pub uid : ℤ
  pub gid : ℤ
  pub default_pre_process : List (Process W H)
  pub default_post_processes : List (Process W H)
  pub disable_sync : Bool

abbrev max_ℤ : ℤ → ℤ → ℤ
max_ℤ a b = if ltb_ℤ a b then b else a

-- `isEmptyDir`
pub is_empty_dir : FilePath → Bool
is_empty_dir d = same_path d [] || same_path d dot || same_path d root

module _ {W H : Type 0} (fs : Fs W H) where
  -- `mkdirAll`: an error at an empty name is swallowed.
  unfoldable pub mkdir_all : FilePath → ℕ → Action W
  unfolding is_empty_dir
  mkdir_all d perm w =
      let mode = if perm_bits perm == 0 then mode_perm else perm_bits perm in
      let (err, w') = fs.mkdir_all d mode w in
      elim err [ none ↦ (none, w') | some e ↦ if is_empty_dir d then (none, w') else (some e, w') ]

  module _ (o : SafeWriteOption W H) where
    -- The steps from the open temporary file `f` to its renaming.
    unfoldable pub write_steps :
        H
        → FilePath
        → FilePath
        → ℕ
        → (H → FilePath → Action W)
        → List (Process W H)
        → Action (Run W)
    write_steps f tmp_name dst_name perm copy_to post_processes =
        for_each o.default_pre_process
          (λ pp. wrapping "SafeWrite, preprocess" (lift (pp tmp_name dst_name f)))
        >> wrapping "SafeWrite, copy" (lift (copy_to f tmp_name))
        >> when o.force_perm
            (wrapping "SafeWrite, chmod" (lift (fs.chmod tmp_name (bit_or (perm_bits perm) 0o300))))
        >> when (not (is_negative o.uid) || not (is_negative o.gid))
            (wrapping "SafeWrite, chown" (lift (fs.chown tmp_name owner group)))
        >> for_each post_processes
            (λ pp. wrapping "SafeWrite, postprocess" (lift (pp tmp_name dst_name f)))
        >> for_each o.default_post_processes
            (λ pp. wrapping "SafeWrite, postprocess" (lift (pp tmp_name dst_name f)))
        >> when (not o.disable_sync) (wrapping "SafeWrite, sync" (lift (fs.sync f)))
        >> wrapping "SafeWrite, close" (close_once (fs.close f))
        >> when (not o.disable_mkdir)
            (wrapping "SafeWrite, mkdirAll" (lift (mkdir_all (dir dst_name) mode_perm)))
        >> wrapping "SafeWrite, rename" (lift (fs.rename tmp_name dst_name))
      where
        one_negative : Bool
        one_negative = is_negative o.uid || is_negative o.gid

        owner : ℤ
        owner = if one_negative then max_ℤ o.uid o.gid else o.uid

        group : ℤ
        group = if one_negative then max_ℤ o.uid o.gid else o.gid

    abbrev pub ignored : Error → Bool
    ignored e = elim o.ignore_matched_err [ none ↦ false | some matches ↦ matches e ]

    -- The deferred function: the file is closed if it was not, and on an error the temporary file is
    -- removed unless the options say otherwise.
    unfoldable pub deferred : H → FilePath → Option Error → Run W → W
    deferred f tmp_name err s =
        let closed = (close_once (fs.close f) s).1.world in
        elim err [
          | none ↦ closed
          | some e ↦
              if ignored e || o.disable_remove_on_err
              then closed
              else (fs.remove_all tmp_name closed).1
        ]

    -- `safeWrite` once the temporary file is open.
    unfoldable pub write_opened :
        H → FilePath → FilePath → ℕ → (H → FilePath → Action W) → List (Process W H) → Action W
    write_opened f tmp_name dst_name perm copy_to post_processes w =
        let (err, s) = write_steps f tmp_name dst_name perm copy_to post_processes (start w) in
        (err, deferred f tmp_name err s)

    -- What `openTmp` returns: the file and the name of the temporary file.
    abbrev pub OpenTmp : Type 0
    OpenTmp = FilePath → ℕ → W → Opened (H × FilePath) × W

    unfoldable pub write_or_fail :
        FilePath
        → ℕ
        → (H → FilePath → Action W)
        → List (Process W H)
        → Opened (H × FilePath) × W
        → Option Error × W
    write_or_fail dst_name perm copy_to post_processes (not_opened e, w) =
        (some (wrap "SafeWrite" e), w)
    write_or_fail dst_name perm copy_to post_processes (opened (f, tmp_name), w) =
        write_opened f tmp_name dst_name perm copy_to post_processes w

    -- `safeWrite`
    unfoldable pub safe_write :
        FilePath → ℕ → OpenTmp → (H → FilePath → Action W) → List (Process W H) → Action W
    unfolding write_or_fail
    safe_write name perm open_tmp copy_to post_processes =
        let dst_name = normalize_path name in
        when (not o.disable_mkdir) (
          wrapping "SafeWrite, mkdirAll"
            (mkdir_all (temp_dir o.tmp_file_option dst_name) mode_perm))
        >> λ w.
            write_or_fail dst_name perm copy_to post_processes
              (open_tmp dst_name (perm_bits perm) w)
