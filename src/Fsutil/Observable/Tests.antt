-- ===== src/Fsutil/Observable/Tests.antt =====
-- An observable file system over a toy base.
use musicbox.Prelude.{ℕ, suc, Option, none, some, List, [], ◌∷◌}
use musicbox.Prelude.Codes.{codes}
use musicbox.Fsutil.Error.{Error, sentinel, not_exist}
use musicbox.Fsutil.Observable.{
  call_mkdir, call_open, call_read, call_close, Base, new_observable_fs, ObservableFs,
}
use musicbox.Fsutil.Observable.Faithful.{Call, on_path, on_open, on_file}

-- A base that counts its calls; making a directory fails.
abbrev counted : ℕ → (ℕ × Option Error) × ℕ
counted w = ((w, none), suc w)

abbrev opens : ℕ → (Option ℕ × Option Error) × ℕ
opens w = ((some w, none), suc w)

abbrev fails : ℕ → Option Error × ℕ
fails w = (some (sentinel not_exist), suc w)

abbrev counting_base : Base ℕ ℕ ℕ ℕ
counting_base = record {
  base_create = λ a. opens;
  base_open = λ a. opens;
  base_open_file = λ a b c. opens;
  base_mkdir = λ a b. fails;
  base_mkdir_all = λ a b. fails;
  base_chmod = λ a b. fails;
  base_remove = λ a. fails;
  base_remove_all = λ a. fails;
  base_rename = λ a b. fails;
  base_chown = λ a b c. fails;
  base_chtimes = λ a b c. fails;
  base_stat = λ a. counted;
  file_close = λ a. counted;
  file_stat = λ a. counted;
  file_sync = λ a. counted;
  file_read = λ a b. counted;
  file_truncate = λ a b. counted;
  file_read_at = λ a b c. counted;
  file_seek = λ a b c. counted;
  file_write = λ a b. counted;
  file_write_string = λ a b. counted;
  file_write_at = λ a b c. counted;
  file_readdir = λ a b. counted;
  file_readdirnames = λ a b. counted;
}

abbrev calls : List Call
calls =
    on_path (call_mkdir (codes "a/../b") 0o755)
    ∷ on_open (call_open (codes "b/c"))
    ∷ on_file 0 (call_read 10)
    ∷ on_file 0 call_close
    ∷ []

abbrev initial : ObservableFs ℕ
initial = new_observable_fs 0
