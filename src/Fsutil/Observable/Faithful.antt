-- ===== src/Fsutil/Observable/Faithful.antt =====
-- A client of an observable file system gets the base's answers, and the records are its calls.
use musicbox.Prelude.{ℕ, ◌≡◌, Option, none, some, List, [], ◌∷◌, ◌++◌, if◌then◌else◌, get_elem?}
use musicbox.Fsutil.Error.{Error}
use musicbox.Fsutil.Fs.{FilePath, same_path}
use musicbox.Fsutil.Path.{normalize_path}
use musicbox.Fsutil.Observable.{
  FsOpName, create, mkdir, mkdir_all, open_name, open_file, remove, remove_all, rename, stat, chmod,
  chown, chtimes, FileOpName, close, read, read_at, seek, write, write_at, readdir, readdirnames,
  stat_file, sync, truncate, write_string, Arg, number, signed, text, FsOp, FileOp, PathCall,
  call_mkdir, call_mkdir_all, call_chmod, call_remove, call_remove_all, call_rename, call_chown,
  call_chtimes, OpenCall, call_create, call_open, call_open_file, FileCall, call_close,
  call_stat_file, call_sync, call_read, call_read_at, call_seek, call_write, call_write_at,
  call_readdir, call_readdirnames, call_truncate, call_write_string, Base, ObservableFile,
  ObservableFs, read_file_op, path_method, new_observable_file, open_method, stat_method,
  file_method,
}

-- What is to be recorded of a call: the name it is on, the method, and its other parameters but for
-- the bytes that are read or written.
abbrev pub path_op : PathCall → FilePath × FsOpName × List Arg
path_op (call_mkdir p perm) = (p, mkdir, number perm ∷ [])
path_op (call_mkdir_all p perm) = (p, mkdir_all, number perm ∷ [])
path_op (call_chmod p mode) = (p, chmod, number mode ∷ [])
path_op (call_remove p) = (p, remove, [])
path_op (call_remove_all p) = (p, remove_all, [])
path_op (call_rename p q) = (p, rename, text q ∷ [])
path_op (call_chown p uid gid) = (p, chown, signed uid ∷ signed gid ∷ [])
path_op (call_chtimes p atime mtime) = (p, chtimes, number atime ∷ number mtime ∷ [])

abbrev pub open_op : OpenCall → FilePath × FsOpName × List Arg
open_op (call_create p) = (p, create, [])
open_op (call_open p) = (p, open_name, [])
open_op (call_open_file p flag perm) = (p, open_file, number flag ∷ number perm ∷ [])

abbrev pub file_op : FileCall → FileOpName × List Arg
file_op call_close = (close, [])
file_op call_stat_file = (stat_file, [])
file_op call_sync = (sync, [])
file_op (call_read n) = (read, [])
file_op (call_read_at n off) = (read_at, number off ∷ [])
file_op (call_seek offset whence) = (seek, number offset ∷ number whence ∷ [])
file_op (call_write p) = (write, [])
file_op (call_write_at p off) = (write_at, number off ∷ [])
file_op (call_readdir count) = (readdir, signed count ∷ [])
file_op (call_readdirnames n) = (readdirnames, signed n ∷ [])
file_op (call_truncate size) = (truncate, number size ∷ [])
file_op (call_write_string s) = (write_string, text s ∷ [])

-- The call on the base.
module _ {W H I X : Type 0} (base : Base W H I X) where
  abbrev pub base_path : PathCall → W → Option Error × W
  base_path (call_mkdir p perm) = base.base_mkdir p perm
  base_path (call_mkdir_all p perm) = base.base_mkdir_all p perm
  base_path (call_chmod p mode) = base.base_chmod p mode
  base_path (call_remove p) = base.base_remove p
  base_path (call_remove_all p) = base.base_remove_all p
  base_path (call_rename p q) = base.base_rename p q
  base_path (call_chown p uid gid) = base.base_chown p uid gid
  base_path (call_chtimes p atime mtime) = base.base_chtimes p atime mtime

  abbrev pub base_open_call : OpenCall → W → (Option H × Option Error) × W
  base_open_call (call_create p) = base.base_create p
  base_open_call (call_open p) = base.base_open p
  base_open_call (call_open_file p flag perm) = base.base_open_file p flag perm

  abbrev pub base_file : H → FileCall → W → (X × Option Error) × W
  base_file f call_close = base.file_close f
  base_file f call_stat_file = base.file_stat f
  base_file f call_sync = base.file_sync f
  base_file f (call_read n) = base.file_read f n
  base_file f (call_read_at n off) = base.file_read_at f n off
  base_file f (call_seek offset whence) = base.file_seek f offset whence
  base_file f (call_write p) = base.file_write f p
  base_file f (call_write_at p off) = base.file_write_at f p off
  base_file f (call_readdir count) = base.file_readdir f count
  base_file f (call_readdirnames n) = base.file_readdirnames f n
  base_file f (call_truncate size) = base.file_truncate f size
  base_file f (call_write_string t) = base.file_write_string f t

-- A call of a client: a method of the file system, or one of the file that it opened as number `i`, the
-- last one being number 0.
pub data Call : Type 0 where
  on_path : PathCall → Call
  on_open : OpenCall → Call
  on_stat : FilePath → Call
  on_file : ℕ → FileCall → Call

pub data Answer (I X : Type 0) : Type 0 where
  path_answer open_answer : Option Error → Answer I X
  stat_answer : I × Option Error → Answer I X
  file_answer : X × Option Error → Answer I X
  no_file : Answer I X

abbrev pub also_open : {H : Type 0} → Option H → List H → List H
also_open none files = files
also_open (some f) files = f ∷ files

module _ {W H I X : Type 0} (base : Base W H I X) where
  -- A call on the base. Of the opened files it keeps the names that they were opened by.
  pub base_step : Call → List (ObservableFile H) → W → Answer I X × (List (ObservableFile H) × W)
  unfolding new_observable_file
  base_step (on_path c) files w =
      let (err, w') = base_path base c w in (path_answer err, (files, w'))
  base_step (on_open c) files w =
      let ((f, err), w') = base_open_call base c w in
      (
        open_answer err,
        (also_open (new_observable_file (normalize_path (open_op c).0) f err).0 files, w'),
      )
  base_step (on_stat name) files w =
      let (answer, w') = base.base_stat name w in (stat_answer answer, (files, w'))
  base_step (on_file i c) files w = elim (get_elem? files i) [
    | none ↦ (no_file, (files, w))
    | some f ↦ let (answer, w') = base_file base f.f c w in (file_answer answer, (files, w'))
  ]

  -- What is to be recorded of a call, by the base's answer; of a file's calls, those on files that were
  -- opened by the name `q`.
  abbrev pub fs_entry : FilePath × FsOpName × List Arg → Option Error → List FsOp
  fs_entry (name, op, args) err =
      record { name = normalize_path name; op = op; args = args; err = err } ∷ []

  abbrev pub file_entry : FilePath → FileOpName × List Arg → Option Error → List FileOp
  file_entry name (op, args) err =
      record { name = normalize_path name; op = op; args = args; err = err } ∷ []

  pub fs_log : Call → W → List FsOp
  fs_log (on_path c) w = fs_entry (path_op c) (base_path base c w).0
  fs_log (on_open c) w = fs_entry (open_op c) (base_open_call base c w).0.1
  fs_log (on_stat name) w = fs_entry (name, stat, []) (base.base_stat name w).0.1
  fs_log (on_file i c) w = []

  pub file_log : FilePath → Call → List (ObservableFile H) → W → List FileOp
  file_log q (on_path c) files w = []
  file_log q (on_open c) files w = []
  file_log q (on_stat name) files w = []
  file_log q (on_file i c) files w = elim (get_elem? files i) [
    | none ↦ []
    | some f ↦
        if same_path (normalize_path f.path) (normalize_path q)
        then file_entry f.path (file_op c) (base_file base f.f c w).0.1
        else []
  ]

  -- The same call on the observable file system.
  pub observed_step :
      Call
      → List (ObservableFile H)
      → ObservableFs W
      → Answer I X × (List (ObservableFile H) × ObservableFs W)
  unfolding path_method open_method stat_method file_method
  observed_step (on_path c) files s =
      let (err, s') = path_method base c s in (path_answer err, (files, s'))
  observed_step (on_open c) files s =
      let (opened, s') = open_method base c s in
      (open_answer opened.1, (also_open opened.0 files, s'))
  observed_step (on_stat name) files s =
      let (answer, s') = stat_method base name s in (stat_answer answer, (files, s'))
  observed_step (on_file i c) files s = elim (get_elem? files i) [
    | none ↦ (no_file, (files, s))
    | some f ↦ let (answer, s') = file_method base f c s in (file_answer answer, (files, s'))
  ]

  pub base_run :
      List Call → List (ObservableFile H) → W → List (Answer I X) × (List (ObservableFile H) × W)
  base_run [] files w = ([], (files, w))
  base_run (call ∷ calls) files w =
      let (a, (files', w')) = base_step call files w in
      let (answers, end) = base_run calls files' w' in (a ∷ answers, end)

  pub observed_run :
      List Call
      → List (ObservableFile H)
      → ObservableFs W
      → List (Answer I X) × (List (ObservableFile H) × ObservableFs W)
  observed_run [] files s = ([], (files, s))
  observed_run (call ∷ calls) files s =
      let (a, (files', s')) = observed_step call files s in
      let (answers, end) = observed_run calls files' s' in (a ∷ answers, end)

  pub fs_logs : List Call → List (ObservableFile H) → W → List FsOp
  fs_logs [] files w = []
  fs_logs (call ∷ calls) files w =
      let (files', w') = (base_step call files w).1 in fs_log call w ++ fs_logs calls files' w'

  pub file_logs : FilePath → List Call → List (ObservableFile H) → W → List FileOp
  file_logs q [] files w = []
  file_logs q (call ∷ calls) files w =
      let (files', w') = (base_step call files w).1 in
      file_log q call files w ++ file_logs q calls files' w'

abbrev pub with_world : {A F W : Type 0} → A × (F × ObservableFs W) → A × (F × W)
with_world (a, (files, s)) = (a, (files, s.world))

-- What the observable file system does of a call, next to what the base does.
record Follows {W H I X : Type 0} (base : Base W H I X) (q : FilePath) (call : Call)
    (files : List (ObservableFile H)) (s : ObservableFs W) : Type 0 where
  same : with_world (observed_step base call files s) ≡ base_step base call files s.world
  fs_ops : (observed_step base call files s).1.1.fsys_op ≡ s.fsys_op ++ fs_log base call s.world
  file_ops :
      read_file_op q (observed_step base call files s).1.1
      ≡ read_file_op q s ++ file_log base q call files s.world
