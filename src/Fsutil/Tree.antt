-- ===== src/Fsutil/Tree.antt =====
-- A tree of files, to say what a file system has: regular files and directories, with their modes.
pub mod Sample
use musicbox.Prelude.{◌≤◌, arith, ℕ, Bool, suc, List, [], ◌∷◌, ltb, if◌then◌else◌, true, false}
use musicbox.Fsutil.Fs.{FilePath}
use musicbox.Fsutil.Equal.{FileMode}
use musicbox.Fsutil.Walk.{Dirent}

mutual
  pub data Node : Type 0 where
    file : FileMode → List ℕ → Node
    folder : FileMode → Entries → Node

  pub data Entries : Type 0 where
    end : Entries
    entry : FilePath → Node → Entries → Entries

abbrev pub node_mode : Node → FileMode
node_mode (file m c) = m
node_mode (folder m es) = m

abbrev pub is_folder : Node → Bool
is_folder (file m c) = false
is_folder (folder m es) = true

abbrev pub dirent_of : FilePath → Node → Dirent
dirent_of name node = record { name = name; is_dir = is_folder node; irregular = is_folder node }

-- What ReadDir returns of a directory, and the names in it.
abbrev pub dirents : Entries → List Dirent
dirents end = []
dirents (entry name node es) = dirent_of name node ∷ dirents es

abbrev pub names : Entries → List FilePath
names end = []
names (entry name node es) = name ∷ names es

abbrev pub larger : ℕ → ℕ → ℕ
larger a b = if ltb a b then b else a

pub larger_left : (a b n : ℕ) → larger a b ≤ n → a ≤ n
larger_left a b n h = ground arith

pub larger_right : (a b n : ℕ) → larger a b ≤ n → b ≤ n
larger_right a b n h = ground arith

-- The number of nested nodes.
unfoldable mutual
  pub height : Node → ℕ
  height (file m c) = 1
  height (folder m es) = suc (height_entries es)

  pub height_entries : Entries → ℕ
  height_entries end = 0
  height_entries (entry name node es) = larger (height node) (height_entries es)
