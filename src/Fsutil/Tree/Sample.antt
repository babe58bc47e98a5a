-- ===== src/Fsutil/Tree/Sample.antt =====
-- A small tree of files.
use musicbox.Prelude.{List, [], false, Option, ◌∷◌, none, some, if◌then◌else◌}
use musicbox.Prelude.Codes.{codes}
use musicbox.Fsutil.Error.{Error, sentinel, not_exist}
use musicbox.Fsutil.Fs.{FilePath, same_path}
use musicbox.Fsutil.Path.{dot}
use musicbox.Fsutil.Walk.{Dirent}
use musicbox.Fsutil.Equal.{FileMode, CopyFsOption}
use musicbox.Fsutil.Tree.{dirents, Node, Entries, file, folder, end, entry}

abbrev pub plain_mode : FileMode
plain_mode = record { type_bits = 0; perm = 0o644; extra = 0 }

abbrev pub dir_mode : FileMode
dir_mode = record { type_bits = 0o20000000000; perm = 0o755; extra = 0 }

abbrev pub inner_entries : Entries
inner_entries = entry (codes "b") (file plain_mode (1 ∷ 2 ∷ [])) end

abbrev pub sample_entries : Entries
sample_entries =
    entry (codes "a") (file plain_mode (7 ∷ []))
      (entry (codes "d") (folder dir_mode inner_entries) end)

abbrev pub sample : Node
sample = folder dir_mode sample_entries

-- The node at a name, or else an empty file.
abbrev pub node_at : FilePath → Node
node_at p =
    if same_path p dot
    then sample
    else if same_path p (codes "a")
    then file plain_mode (7 ∷ [])
    else if same_path p (codes "d")
    then folder dir_mode inner_entries
    else if same_path p (codes "d/b")
    then file plain_mode (1 ∷ 2 ∷ [])
    else file plain_mode []

-- What ReadDir returns of it.
abbrev pub listing : Node → List Dirent × Option Error
listing (folder m es) = (dirents es, none)
listing (file m c) = ([], some (sentinel not_exist))

abbrev pub default_copy : CopyFsOption
default_copy = record { ignore_non_regular = false; chmod_if = none; no_chmod = false }
