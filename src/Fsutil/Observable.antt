-- ===== src/Fsutil/Observable.antt =====
-- fsutil/observable_fs.go: a file system that passes every call on and keeps a record of it. `W` is the
-- base's world, `H` its open files, `I` what Stat returns and `X` what the methods of a file return
-- beside their error. A call of a method is a value of `PathCall`, `OpenCall` or `FileCall`. The mutex makes each record one step.
pub mod Faithful
mod Tests
use musicbox.Prelude.{ℕ, Bool, true, false, Option, none, some, List, [], ◌∷◌, ◌++◌, if◌then◌else◌}
use musicbox.Prelude.Signed.{ℤ}
use musicbox.Fsutil.Error.{Error}
use musicbox.Fsutil.Fs.{FilePath, same_path}
use musicbox.Fsutil.Path.{normalize_path}

pub data FsOpName : Type 0 where
  create mkdir mkdir_all open_name open_file remove remove_all rename stat chmod chown chtimes :
      FsOpName

pub data FileOpName : Type 0 where
  close read read_at seek write write_at readdir readdirnames stat_file sync truncate : FileOpName
  write_string : FileOpName

pub data Arg : Type 0 where
  number : ℕ → Arg
  signed : ℤ → Arg
  text : List ℕ → Arg

-- `ObservableFsOp` and `ObservableFsFileOp`
pub record FsOp : Type 0 where
  pub name : FilePath
  pub op : FsOpName
  pub args : List Arg
  pub err : Option Error

pub record FileOp : Type 0 where
  pub name : FilePath
  pub op : FileOpName
  pub args : List Arg
  pub err : Option Error

-- The methods that return an error only, and Stat.
pub data PathCall : Type 0 where
  call_mkdir call_mkdir_all call_chmod : FilePath → ℕ → PathCall
  call_remove call_remove_all : FilePath → PathCall
  call_rename : FilePath → FilePath → PathCall
  call_chown : FilePath → ℤ → ℤ → PathCall
  call_chtimes : FilePath → ℕ → ℕ → PathCall

-- The methods that open a file.
pub data OpenCall : Type 0 where
  call_create call_open : FilePath → OpenCall
  call_open_file : FilePath → ℕ → ℕ → OpenCall

-- The methods of a file; a slice to read into is its length.
pub data FileCall : Type 0 where
  call_close call_stat_file call_sync : FileCall
  call_read : ℕ → FileCall
  call_read_at : ℕ → ℕ → FileCall
  call_seek : ℕ → ℕ → FileCall
  call_write : List ℕ → FileCall
  call_write_at : List ℕ → ℕ → FileCall
  call_readdir call_readdirnames : ℤ → FileCall
  call_truncate : ℕ → FileCall
  call_write_string : List ℕ → FileCall

-- The base file system and its files.
pub record Base (W H I X : Type 0) : Type 0 where
  pub base_create : FilePath → W → (Option H × Option Error) × W
  pub base_open : FilePath → W → (Option H × Option Error) × W
  pub base_open_file : FilePath → ℕ → ℕ → W → (Option H × Option Error) × W
  pub base_mkdir : FilePath → ℕ → W → Option Error × W
  pub base_mkdir_all : FilePath → ℕ → W → Option Error × W
  pub base_chmod : FilePath → ℕ → W → Option Error × W
  pub base_remove : FilePath → W → Option Error × W
  pub base_remove_all : FilePath → W → Option Error × W
  pub base_rename : FilePath → FilePath → W → Option Error × W
  pub base_stat : FilePath → W → (I × Option Error) × W
  pub base_chown : FilePath → ℤ → ℤ → W → Option Error × W
  pub base_chtimes : FilePath → ℕ → ℕ → W → Option Error × W
  pub file_close : H → W → (X × Option Error) × W
  pub file_stat : H → W → (X × Option Error) × W
  pub file_sync : H → W → (X × Option Error) × W
  pub file_read : H → ℕ → W → (X × Option Error) × W
  pub file_truncate : H → ℕ → W → (X × Option Error) × W
  pub file_read_at : H → ℕ → ℕ → W → (X × Option Error) × W
  pub file_seek : H → ℕ → ℕ → W → (X × Option Error) × W
  pub file_write : H → List ℕ → W → (X × Option Error) × W
  pub file_write_string : H → List ℕ → W → (X × Option Error) × W
  pub file_write_at : H → List ℕ → ℕ → W → (X × Option Error) × W
  pub file_readdir : H → ℤ → W → (X × Option Error) × W
  pub file_readdirnames : H → ℤ → W → (X × Option Error) × W

-- `observableFile`
pub record ObservableFile (H : Type 0) : Type 0 where
  pub path : FilePath
  pub f : H

-- The records of an `ObservableFs`, and the base's world. The map of the files' records is a list of
-- its entries.
pub record ObservableFs (W : Type 0) : Type 0 where
  pub world : W
  pub fsys_op : List FsOp
  pub file_ops : List (FilePath × List FileOp)

unfoldable pub lookup_ops : FilePath → List (FilePath × List FileOp) → List FileOp
lookup_ops name [] = []
lookup_ops name ((key, ops) ∷ entries) = if same_path key name then ops else lookup_ops name entries

-- `m[name] = append(m[name], op)`
unfoldable pub append_op :
    FilePath → FileOp → List (FilePath × List FileOp) → List (FilePath × List FileOp)
append_op name op [] = (name, op ∷ []) ∷ []
append_op name op ((key, ops) ∷ entries) =
    let rest = append_op name op entries in
    if same_path key name then (key, ops ++ (op ∷ [])) ∷ entries else (key, ops) ∷ rest

module _ {W : Type 0} where
  pub new_observable_fs : W → ObservableFs W
  new_observable_fs w = record { world = w; fsys_op = []; file_ops = [] }

  -- `recordFsOp`
  unfoldable pub record_fs_op :
      FilePath × FsOpName × List Arg → Option Error → ObservableFs W → ObservableFs W
  record_fs_op (name, op, args) err s = record s {
    fsys_op =
        s.fsys_op ++ (record { name = normalize_path name; op = op; args = args; err = err } ∷ []);
  }

  -- `recordFileOp`
  unfoldable pub record_file_op :
      FilePath → FileOpName × List Arg → Option Error → ObservableFs W → ObservableFs W
  unfolding append_op
  record_file_op name (op, args) err s =
      let name = normalize_path name in
      record s {
        file_ops =
            append_op name (record { name = name; op = op; args = args; err = err }) s.file_ops;
      }

  -- `readFsOp`, `readFileOp` and `readFileOps`, which return copies.
  pub read_fs_op : ObservableFs W → List FsOp
  read_fs_op s = s.fsys_op

  unfoldable pub read_file_op : FilePath → ObservableFs W → List FileOp
  unfolding lookup_ops
  read_file_op name s = lookup_ops (normalize_path name) s.file_ops

  pub read_file_ops : ObservableFs W → List (FilePath × List FileOp)
  read_file_ops s = s.file_ops

-- `newObservableFile`: with an error there is no file. A base that returns neither leaves a file
-- that every call panics on, here none.
unfoldable pub new_observable_file :
    {H : Type 0} → FilePath → Option H → Option Error → Option (ObservableFile H) × Option Error
new_observable_file path f (some e) = (none, some e)
new_observable_file path none none = (none, none)
new_observable_file path (some f) none = (some (record { path = path; f = f }), none)

module _ {W : Type 0} where
  -- The end of a method: the call on the base is recorded with its error, which is returned.
  unfoldable pub recorded :
      FilePath
      → FsOpName
      → List Arg
      → Option Error × W
      → ObservableFs W
      → Option Error × ObservableFs W
  unfolding record_fs_op
  recorded name op args (err, w) s =
      (err, record_fs_op (name, op, args) err (record s { world = w }))

  unfoldable pub recorded_open :
      {H : Type 0}
      → FilePath
      → FsOpName
      → List Arg
      → (Option H × Option Error) × W
      → ObservableFs W
      → (Option (ObservableFile H) × Option Error) × ObservableFs W
  unfolding record_fs_op new_observable_file
  recorded_open name op args ((f, err), w) s = (
    new_observable_file (normalize_path name) f err,
    record_fs_op (name, op, args) err (record s { world = w }),
  )

  unfoldable pub recorded_file :
      {X : Type 0}
      → FilePath
      → FileOpName
      → List Arg
      → (X × Option Error) × W
      → ObservableFs W
      → (X × Option Error) × ObservableFs W
  unfolding record_file_op
  recorded_file path op args (answer, w) s =
      (answer, record_file_op path (op, args) answer.1 (record s { world = w }))

module _ {W H I X : Type 0} (base : Base W H I X) where
  -- The methods that return an error only.
  unfoldable pub path_method : PathCall → ObservableFs W → Option Error × ObservableFs W
  unfolding recorded
  path_method (call_mkdir name perm) s =
      recorded name mkdir (number perm ∷ []) (base.base_mkdir name perm s.world) s
  path_method (call_mkdir_all path perm) s =
      recorded path mkdir_all (number perm ∷ []) (base.base_mkdir_all path perm s.world) s
  path_method (call_remove name) s = recorded name remove [] (base.base_remove name s.world) s
  path_method (call_remove_all path) s =
      recorded path remove_all [] (base.base_remove_all path s.world) s
  path_method (call_rename oldname newname) s =
      recorded oldname rename (text newname ∷ []) (base.base_rename oldname newname s.world) s
  path_method (call_chmod name mode) s =
      recorded name chmod (number mode ∷ []) (base.base_chmod name mode s.world) s
  path_method (call_chown name uid gid) s =
      recorded name chown (signed uid ∷ signed gid ∷ []) (base.base_chown name uid gid s.world) s
  path_method (call_chtimes name atime mtime) s =
      recorded name chtimes (number atime ∷ number mtime ∷ [])
        (base.base_chtimes name atime mtime s.world) s

  -- `Create`, `Open` and `OpenFile`
  unfoldable pub open_method :
      OpenCall → ObservableFs W → (Option (ObservableFile H) × Option Error) × ObservableFs W
  unfolding recorded_open
  open_method (call_create name) s = recorded_open name create [] (base.base_create name s.world) s
  open_method (call_open name) s = recorded_open name open_name [] (base.base_open name s.world) s
  open_method (call_open_file name flag perm) s =
      recorded_open name open_file (number flag ∷ number perm ∷ [])
        (base.base_open_file name flag perm s.world) s

  -- `Stat`
  unfoldable pub stat_method : FilePath → ObservableFs W → (I × Option Error) × ObservableFs W
  unfolding record_fs_op
  stat_method name s =
      let (answer, w) = base.base_stat name s.world in
      (answer, record_fs_op (name, stat, []) answer.1 (record s { world = w }))

  -- The methods of a file.
  unfoldable pub file_method :
      ObservableFile H → FileCall → ObservableFs W → (X × Option Error) × ObservableFs W
  unfolding recorded_file
  file_method f call_close s = recorded_file f.path close [] (base.file_close f.f s.world) s
  file_method f (call_read n) s = recorded_file f.path read [] (base.file_read f.f n s.world) s
  file_method f (call_read_at n off) s =
      recorded_file f.path read_at (number off ∷ []) (base.file_read_at f.f n off s.world) s
  file_method f (call_seek offset whence) s =
      recorded_file f.path seek (number offset ∷ number whence ∷ [])
        (base.file_seek f.f offset whence s.world) s
  file_method f (call_write p) s = recorded_file f.path write [] (base.file_write f.f p s.world) s
  file_method f (call_write_at p off) s =
      recorded_file f.path write_at (number off ∷ []) (base.file_write_at f.f p off s.world) s
  file_method f (call_readdir count) s =
      recorded_file f.path readdir (signed count ∷ []) (base.file_readdir f.f count s.world) s
  file_method f (call_readdirnames n) s =
      recorded_file f.path readdirnames (signed n ∷ []) (base.file_readdirnames f.f n s.world) s
  file_method f call_stat_file s = recorded_file f.path stat_file [] (base.file_stat f.f s.world) s
  file_method f call_sync s = recorded_file f.path sync [] (base.file_sync f.f s.world) s
  file_method f (call_truncate size) s =
      recorded_file f.path truncate (number size ∷ []) (base.file_truncate f.f size s.world) s
  file_method f (call_write_string t) s =
      recorded_file f.path write_string (text t ∷ []) (base.file_write_string f.f t s.world) s
