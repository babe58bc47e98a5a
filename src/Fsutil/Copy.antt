-- ===== src/Fsutil/Copy.antt =====
-- fsutil/copy.go: `copyPath`, which copies one entry of a source to the same name of a destination,
-- `CopyFsPath` and `CopyFS`. `R` is an open file of the source and `H` one of the destination.
pub mod Lands
pub mod Walked
mod Tests
use musicbox.Prelude.{
  ◌&&◌, ◌==◌, ℕ, Bool, true, false, Option, none, some, List, ◌∷◌, if◌then◌else◌,
}
use musicbox.Fsutil.Error.{Error, sentinel, bad_input, not_exist, wrap}
use musicbox.Fsutil.Action.{Action, done, ◌>>◌, wrapping, for_each}
use musicbox.Fsutil.Fs.{FilePath, same_path, Opened, opened, not_opened, mode_perm}
use musicbox.Fsutil.Path.{clean, dir, dot}
use musicbox.Fsutil.Walk.{Dirent, Stop, fails, Step, as_step, walk_dir}
use musicbox.Fsutil.Once.{Run, start, lift, close_once}
use musicbox.Fsutil.Equal.{FileMode, CopyFsOption, overridden}

-- What copyPath reads of Go's fs.FileInfo.
pub record FileInfo : Type 0 where
  pub is_dir : Bool
  pub is_regular : Bool
  pub mode : FileMode

-- The operations of the source, an fs.FS, and of the destination, an afero.Fs: `create` is OpenFile
-- with O_CREATE, O_TRUNC and O_WRONLY. `copy_content` is io.CopyBuffer, through a cancellable reader
-- where there is a context, and `cancelled` is what the context says, if there is one.
pub record CopyFs (W R H : Type 0) : Type 0 where
  pub open_source : FilePath → W → Opened R × W
  pub stat : R → W → Opened FileInfo × W
  pub close_source : R → Action W
  pub mkdir_all : FilePath → ℕ → Action W
  pub create : FilePath → ℕ → W → Opened H × W
  pub chmod : FilePath → FileMode → Action W
  pub copy_content : R → H → Action W
  pub sync : H → Action W
  pub close : H → Action W
  pub cancelled : Action W

-- `strings.HasPrefix(p, "..")`
starts_dot_dot : FilePath → Bool
starts_dot_dot (a ∷ b ∷ p) = a == b'.' && b == b'.'
starts_dot_dot _ = false

module _ {W R H : Type 0} (fs : CopyFs W R H) (opt : CopyFsOption) where
  -- The closure `chmod`, of the overriding mode and whether modes are left alone: a mode that
  -- overrides is set, and else the source's permissions, unless modes are left alone.
  chmod_with : Option FileMode → Bool → FilePath → FileInfo → Action W
  chmod_with (some mode) no_chmod p info = wrapping "failed to chmod created dir" (fs.chmod p mode)
  chmod_with none true p info = done
  chmod_with none false p info =
      wrapping "failed to chmod created dir"
        (fs.chmod p (record { type_bits = 0; perm = info.mode.perm; extra = 0 }))

  chmod_target : FilePath → FileInfo → Action W
  unfolding chmod_with
  chmod_target p info = chmod_with (overridden opt p) opt.no_chmod p info

  -- The steps on the two open files. The outer run is that of closing the destination's file, the
  -- inner one that of closing the source's.
  copy_steps : FilePath → FileInfo → R → H → Action (Run (Run W))
  unfolding chmod_target
  copy_steps p info r h =
      lift (lift (chmod_target p info))
      >> wrapping "copying" (lift (lift (fs.copy_content r h)))
      >> lift (close_once (fs.close_source r))
      >> lift (lift (fs.sync h))
      >> close_once (lift (fs.close h))

  -- From the opening of the destination's file, with its deferred closing.
  copy_created : FilePath → FileInfo → R → Opened H × W → Action (Run W)
  unfolding copy_steps
  copy_created p info r (not_opened e, w) s = (some e, record s { world = w })
  copy_created p info r (opened h, w) s =
      let (err, t) = copy_steps p info r h (start (record s { world = w })) in
      (err, (close_once (lift (fs.close h)) t).1.world)

  copy_info : FilePath → R → FileInfo → Action (Run W)
  unfolding copy_created chmod_target
  copy_info p r info =
      if info.is_dir
      then lift (fs.mkdir_all p mode_perm) >> lift (chmod_target p info)
      else if info.is_regular
      then (λ s. copy_created p info r (fs.create p mode_perm s.world) s)
      else if opt.ignore_non_regular
      then done
      else λ s. (some (wrap "non regular file is not supported" (sentinel bad_input)), s)

  copy_stat : FilePath → R → Opened FileInfo × W → Action (Run W)
  unfolding copy_info
  copy_stat p r (not_opened e, w) s = (some e, record s { world = w })
  copy_stat p r (opened info, w) s = copy_info p r info (record s { world = w })

  -- From the opening of the source's file, with its deferred closing.
  copy_from : FilePath → Opened R × W → Option Error × W
  unfolding copy_stat
  copy_from p (not_opened e, w) = (some e, w)
  copy_from p (opened r, w) =
      let (err, s) = copy_stat p r (fs.stat r w) (start w) in
      (err, (close_once (fs.close_source r) s).1.world)

  -- `copyPath`
  pub copy_path : FilePath → Action W
  unfolding copy_from
  copy_path p w = copy_from p (fs.open_source p w)

  -- One round of `CopyFsPath`.
  copy_one : FilePath → Action W
  unfolding copy_path starts_dot_dot
  copy_one name =
      let p = clean name in
      fs.cancelled
      >> (if starts_dot_dot p
          then (λ w. (some (wrap "fsutil.CopyFsPath: path is out of src" (sentinel not_exist)), w))
          else wrapping "fsutil.CopyFsPath: mkdirAll" (fs.mkdir_all (dir p) mode_perm)
            >> wrapping "fsutil.CopyFsPath" (copy_path p))

  -- `CopyFsPath`
  pub copy_fs_path : List FilePath → Action W
  unfolding copy_one
  copy_fs_path paths = for_each paths copy_one

  -- The function that `CopyFS` walks with.
  unfoldable pub visit_copy : FilePath → Dirent → Step W
  visit_copy p d w =
      if same_path p dot then (none, w) else as_step ((fs.cancelled >> copy_path p) w)

  abbrev pub on_copy_error : FilePath → Error → Step W
  on_copy_error p e w = (some (fails e), w)

  abbrev pub copy_wrapped : Option Stop × W → Option Stop × W
  copy_wrapped (some (fails e), w) = (some (fails (wrap "fsutil.CopyFS" e)), w)
  copy_wrapped r = r

  -- `CopyFS`, where `stat_name` and `read_dir` are those of the source.
  pub copy_fs :
      (FilePath → W → Opened Dirent) → (FilePath → W → List Dirent × Option Error) → ℕ → Step W
  unfolding visit_copy
  copy_fs stat_name read_dir fuel w =
      copy_wrapped (walk_dir read_dir visit_copy on_copy_error fuel stat_name dot w)
