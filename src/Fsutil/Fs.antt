-- ===== src/Fsutil/Fs.antt =====
-- What fsutil uses of the package afero: the operations of a file system and of an open file. `W` is
-- the world that they change and `H` an open file. Names are slash-separated bytes and modes are the
-- numbers that Go's fs.FileMode holds.
use musicbox.Prelude.{ℕ, ◌%◌, Bool, true, false, ◌&&◌, List, [], ◌∷◌, ◌==◌}
use musicbox.Prelude.Signed.{ℤ}
use musicbox.Fsutil.Error.{Error}
use musicbox.Fsutil.Action.{Action}

abbrev pub FilePath : Type 0
FilePath = List ℕ

abbrev pub same_path : FilePath → FilePath → Bool
same_path [] [] = true
same_path [] (b ∷ q) = false
same_path (a ∷ p) [] = false
same_path (a ∷ p) (b ∷ q) = a == b && same_path p q

pub data Opened (H : Type 0) : Type 0 where
  opened : H → Opened H
  not_opened : Error → Opened H

pub record Fs (W H : Type 0) : Type 0 where
  pub mkdir : FilePath → ℕ → Action W
  pub mkdir_all : FilePath → ℕ → Action W
  pub open_name : FilePath → W → Opened H × W
  pub open_file : FilePath → ℕ → ℕ → W → Opened H × W
  pub remove_all : FilePath → Action W
  pub rename : FilePath → FilePath → Action W
  pub chmod : FilePath → ℕ → Action W
  pub chown : FilePath → ℤ → ℤ → Action W
  pub close : H → Action W
  pub sync : H → Action W
  pub file_name : H → FilePath

-- `perm.Perm()`, `perm|bits` and `fs.ModePerm`.
abbrev pub perm_bits : ℕ → ℕ
perm_bits mode = mode % 0o1000

abbrev pub mode_perm : ℕ
mode_perm = 0o777
