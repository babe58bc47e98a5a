-- ===== src/Fsutil/TmpFile.antt =====
-- fsutil/safe_write.go: `tmpFileOption`, which names, opens and recognises temporary files.
pub mod Match
pub mod Clean
mod Tests
use Prim.Native.Nat.{bit_or}
use musicbox.Prelude.{
  ℕ, Bool, true, false, not, ◌&&◌, ◌||◌, Option, none, some, List, [], ◌∷◌, ◌++◌, if◌then◌else◌,
}
use musicbox.Prelude.Codes.{codes}
use musicbox.Fsutil.Error.{Error, wrap, sentinel, bad_name, bad_pattern}
use musicbox.Fsutil.Fs.{FilePath, same_path, Opened, opened, not_opened, Fs, perm_bits}
use musicbox.Fsutil.Path.{normalize_path, dir, base, join, root, dot, slash}
use musicbox.Fsutil.Text.{star, contains, has_prefix, has_suffix}
use musicbox.Fsutil.OpenRandom.{open_file_random, mkdir_random, mkdir_then_open}

pub record TmpFileOption : Type 0 where
  pub tmp_dir_name : FilePath
  pub prefix : FilePath
  pub suffix : FilePath
  pub random_pattern : FilePath

-- `isEmpty`
unfoldable pub is_empty : FilePath → Bool
is_empty p = same_path p [] || same_path p dot || same_path p root

-- `tempDir`
unfoldable pub temp_dir : TmpFileOption → FilePath → FilePath
temp_dir o p = normalize_path (if is_empty o.tmp_dir_name then dir p else o.tmp_dir_name)

-- `suffixOrDefault`
unfoldable pub suffix_or_default : TmpFileOption → FilePath
suffix_or_default o =
    if not (same_path o.suffix [])
    then o.suffix
    else if is_empty o.tmp_dir_name
    then codes ".tmp"
    else []

-- `matchTmpFile`
unfoldable pub match_tmp_file : TmpFileOption → FilePath → Bool
match_tmp_file o p =
    if not (is_empty o.tmp_dir_name) && not (same_path (normalize_path (dir p)) o.tmp_dir_name)
    then false
    else has_prefix (base p) o.prefix && has_suffix (base p) (suffix_or_default o)

-- `validatePattern`; `none` is a nil error.
pub validate_pattern : FilePath → Option Error
validate_pattern s =
    if contains s star
    then some (wrap "contains '*'" (sentinel bad_pattern))
    else if contains s slash
    then some (wrap "contains path separator" (sentinel bad_name))
    else none

-- The pattern that `open` hands on, with a star in it.
abbrev starred : FilePath → FilePath
starred pat = if not (contains pat star) then pat ++ (star ∷ []) else pat

module _ {W H : Type 0} (fs : Fs W H) where
  -- The end of `open`: the errors are wrapped, and the name is that of the file under the directory.
  tmp_opened : FilePath → Option (Opened H × W) → Option (Opened (H × FilePath) × W)
  tmp_opened tmp_dir none = none
  tmp_opened tmp_dir (some (not_opened e, w)) = some (not_opened (wrap "dir, base" e), w)
  tmp_opened tmp_dir (some (opened f, w)) =
      some (opened (f, join tmp_dir (base (fs.file_name f))), w)

  -- `open`: `open_random` makes a name from a pattern, and `open_plain` opens one as it is.
  pub open_with :
      TmpFileOption
      → (FilePath → FilePath → ℕ → W → Option (Opened H × W))
      → (FilePath → ℕ → W → Opened H × W)
      → FilePath
      → ℕ
      → W
      → Option (Opened (H × FilePath) × W)
  open_with o open_random open_plain p perm w =
      let tmp_dir = temp_dir o p in
      let name = base p in
      if is_empty name
      then some (not_opened (wrap "name is empty" (sentinel bad_name)), w)
      else tmp_opened tmp_dir (
          if not (same_path o.random_pattern [])
          then open_random tmp_dir
              (o.prefix ++ (name ++ (starred o.random_pattern ++ suffix_or_default o)))
              (perm_bits perm) w
          else some (
              open_plain (join tmp_dir (o.prefix ++ (name ++ suffix_or_default o))) (perm_bits perm)
                w))

  -- `openTmp`; `create_excl` and `create` stand for the flags of the two ways to open.
  pub open_tmp :
      TmpFileOption → (ℕ → ℕ) → ℕ → ℕ → FilePath → ℕ → W → Option (Opened (H × FilePath) × W)
  open_tmp o random create_excl create =
      open_with o (open_file_random random fs create_excl)
        (λ name perm. fs.open_file name create perm)

  -- `openTmpDir`: the directory is writable and executable.
  pub open_tmp_dir : TmpFileOption → (ℕ → ℕ) → FilePath → ℕ → W → Option (Opened (H × FilePath) × W)
  open_tmp_dir o random =
      open_with o (mkdir_random random fs)
        (λ name perm. mkdir_then_open fs (bit_or perm 0o300) name)
