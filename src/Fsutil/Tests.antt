-- ===== src/Fsutil/Tests.antt =====
-- The theorems of the package fsutil at concrete inputs.
use musicbox.Prelude.{
  ℕ, suc, ◌+◌, ◌≡◌, ◌↔◌, ◌⊎◌, refl, ap, true, false, Option, none, some, List, [], ◌∷◌, arith,
  if◌then◌else◌, inr, length, ◌==◌, inl,
}
use musicbox.Prelude.Signed.{negsuc}
use musicbox.Prelude.Codes.{codes}
use musicbox.Fsutil.Error.{
  wrap, sentinel, bad_name, bad_input, bad_pattern, max_retry, hash_sum_mismatch, is_package_err,
  Names, is_package_err_iff, exist, unexpected_eof,
}
use musicbox.Fsutil.Action.{Action, Ensures}
use musicbox.Fsutil.Fs.{FilePath, same_path, Opened, opened, not_opened, Fs}
use musicbox.Fsutil.Path.{slash, join_slash, clean, normalize_path, join}
use musicbox.Fsutil.Path.Normal.{IsProper, AllProper, normalize_path-AllProper}
use musicbox.Fsutil.Text.{same_path_refl}
use musicbox.Fsutil.OpenRandom.{
  open_random_loop, max_attempts, random_uint32_padded, length-random_uint32_padded,
}
use musicbox.Fsutil.OpenRandom.Attempts.{Tries, open_random_loop-Tries}
use musicbox.Fsutil.TmpFile.{TmpFileOption, is_empty, temp_dir, suffix_or_default, match_tmp_file}
use musicbox.Fsutil.TmpFile.Match.{tmp_name, match_tmp_file_joined}
use musicbox.Fsutil.SafeWrite.Processes.{post_process_validate_check_sum}
use musicbox.Fsutil.SafeWrite.Validated.{validator-passes, safe_write-validated}
use musicbox.Fsutil.SafeWrite.{Process, SafeWriteOption, safe_write, write_opened}
use musicbox.Fsutil.SafeWrite.Atomic.{Publishes, safe_write-Ensures}
use musicbox.Fsutil.SafeWrite.Cleanup.{Counts, write_opened-closes_once, safe_write-removes}

-- A file system of files in one directory, which counts how often a file is closed.
record Disk : Type 0 where
  at : FilePath → Option (List ℕ)
  closes : ℕ

abbrev put : FilePath → Option (List ℕ) → Disk → Disk
put p c w = record w { at = λ q. if same_path q p then c else w.at q }

abbrev disk_fs : Fs Disk FilePath
disk_fs = record {
  mkdir = λ p m w. (none, w);
  mkdir_all = λ p m w. (none, w);
  open_name = λ p w. (opened p, w);
  open_file = λ p flags m w. (opened p, w);
  remove_all = λ p w. (none, put p none w);
  rename = λ p q w. (none, put q (w.at p) (put p none w));
  chmod = λ p m w. (none, w);
  chown = λ p uid gid w. (none, w);
  close = λ f w. (none, record w { closes = suc w.closes });
  sync = λ f w. (none, w);
  file_name = λ f. f;
}

abbrev default_option : SafeWriteOption Disk FilePath
default_option = record {
  tmp_file_option = record {
    tmp_dir_name = [];
    prefix = [];
    suffix = [];
    random_pattern = codes "-*";
  };
  disable_mkdir = false;
  force_perm = false;
  disable_remove_on_err = false;
  ignore_matched_err = none;
  uid = negsuc 0;
  gid = negsuc 0;
  default_pre_process = [];
  default_post_processes = [];
  disable_sync = false;
}

abbrev tmp : FilePath
tmp = codes "/d-0000000001.tmp"

abbrev dst : FilePath
dst = normalize_path (codes "d")

abbrev open_at_tmp : FilePath → ℕ → Disk → Opened (FilePath × FilePath) × Disk
open_at_tmp p perm w = (opened (tmp, tmp), w)

abbrev copy_seven : FilePath → FilePath → Action Disk
copy_seven f t w = (none, put t (some (7 ∷ [])) w)

-- The destination does not exist yet; the temporary file is written; the destination is.
abbrev Untouched : Disk → Type 0
Untouched w = w.at dst ≡ none

abbrev Written : Disk → Type 0
Written w = (w.at tmp ≡ some (7 ∷ [])) × (w.at dst ≡ none)

abbrev Published : Disk → Type 0
Published w = w.at dst ≡ some (7 ∷ [])

apart : same_path dst tmp ≡ false
unfolding normalize_path clean
apart = refl

disk_Publishes :
    Publishes disk_fs default_option copy_seven [] dst tmp tmp Untouched Written Published
disk_Publishes = record {
  untouched = record {
    mkdir_all = λ d m. record { at = λ w h. h };
    chmod = λ m. record { at = λ w h. h };
    chown = λ u g. record { at = λ w h. h };
    sync = λ f. record { at = λ w h. h };
    close = λ f. record { at = λ w h. h };
  };
  written = record {
    mkdir_all = λ d m. record { at = λ w h. h };
    chmod = λ m. record { at = λ w h. h };
    chown = λ u g. record { at = λ w h. h };
    sync = λ f. record { at = λ w h. h };
    close = λ f. record { at = λ w h. h };
  };
  still = λ w h. h.1;
  pre = tt;
  copy = record { at = λ w h. (refl, rw apart h) };
  post = tt;
  default_post = tt;
  rename = record { at = λ w h. rw (same_path_refl dst) h.0 };
  remove_all = record { at = λ w h. rw apart h };
}

safe_write-Ensures_example :
    Ensures Untouched
      (safe_write disk_fs default_option (codes "d") 0o644 open_at_tmp copy_seven [])
      Published
      Untouched
safe_write-Ensures_example =
    safe_write-Ensures disk_fs default_option copy_seven [] (codes "d") 0o644 open_at_tmp Untouched
      Written Published (λ d m. record { at = λ w h. h }) (λ w h. (disk_Publishes, h))

-- A hash that is the bytes themselves, of the temporary file.
abbrev sum : Disk → List ℕ
sum w = elim (w.at tmp) [ none ↦ [] | some c ↦ c ]

abbrev check : Process Disk FilePath
check = post_process_validate_check_sum sum (7 ∷ [])

summed : (w : Disk) → Written w → sum w ≡ 7 ∷ []
summed w h = ap (λ o. elim o [ none ↦ [] | some c ↦ c ]) h.0

disk_Publishes_checked :
    Publishes disk_fs default_option copy_seven (check ∷ []) dst tmp tmp Untouched Written Published
disk_Publishes_checked = record {
  untouched = disk_Publishes.untouched;
  written = disk_Publishes.written;
  still = disk_Publishes.still;
  pre = tt;
  copy = disk_Publishes.copy;
  post = (validator-passes sum (7 ∷ []) Written Untouched tmp dst tmp summed, tt);
  default_post = tt;
  rename = disk_Publishes.rename;
  remove_all = disk_Publishes.remove_all;
}

safe_write-validated_example :
    Ensures Untouched
      (safe_write disk_fs default_option (codes "d") 0o644 open_at_tmp copy_seven (check ∷ []))
      (λ w. Published w × ◌≡◌ {A = List ℕ} (7 ∷ []) (7 ∷ []))
      Untouched
safe_write-validated_example =
    safe_write-validated disk_fs default_option copy_seven (check ∷ []) sum (7 ∷ []) (7 ∷ [])
      Untouched Written Published summed (inl refl) (codes "d") 0o644 open_at_tmp
      (λ d m. record { at = λ w h. h }) (λ w h. (disk_Publishes_checked, h))

abbrev NoTmp : Disk → Type 0
NoTmp w = w.at tmp ≡ none

-- The temporary file is there once it is open, and the copy fails when a part is written.
abbrev create_tmp : FilePath → ℕ → Disk → Opened (FilePath × FilePath) × Disk
create_tmp p perm w = (opened (tmp, tmp), put tmp (some []) w)

abbrev copy_part : FilePath → FilePath → Action Disk
copy_part f t w = (some (sentinel unexpected_eof), put t (some (7 ∷ [])) w)

safe_write-removes_example :
    Ensures NoTmp
      (safe_write disk_fs default_option (codes "d") 0o644 create_tmp copy_part [])
      (λ _. Unit)
      NoTmp
safe_write-removes_example =
    safe_write-removes disk_fs default_option copy_part [] (codes "d") 0o644 create_tmp NoTmp NoTmp
      (λ w h. h) (λ e. refl) (λ d m. record { at = λ w h. h }) (λ w h w'. refl)

abbrev ClosedTimes : ℕ → Disk → Type 0
ClosedTimes n w = w.closes ≡ n

disk_Counts : Counts disk_fs default_option copy_seven [] dst tmp tmp ClosedTimes
disk_Counts = record {
  mkdir_all = λ n d m. record { at = λ w h. h };
  chmod = λ n m. record { at = λ w h. h };
  chown = λ n u g. record { at = λ w h. h };
  sync = λ n. record { at = λ w h. h };
  rename = λ n. record { at = λ w h. h };
  remove_all = λ n. record { at = λ w h. h };
  copy = λ n. record { at = λ w h. h };
  pre = tt;
  post = tt;
  default_post = tt;
  close = λ n. record { at = λ w h. ap suc h };
}

abbrev empty_disk : Disk
empty_disk = record { at = λ p. none; closes = 0 }

write_opened-closes_once_example :
    (write_opened disk_fs default_option tmp tmp dst 0o644 copy_seven [] empty_disk).1.closes ≡ 1
write_opened-closes_once_example =
    write_opened-closes_once disk_fs default_option copy_seven [] dst tmp tmp 0o644 ClosedTimes
      disk_Counts empty_disk refl

normalize_path-AllProper_example :
    (es : List FilePath) × AllProper es
    × (normalize_path (codes "../a//b/.") ≡ slash ∷ join_slash es)
normalize_path-AllProper_example = normalize_path-AllProper (codes "../a//b/.")

is_package_err_iff_example : (is_package_err (wrap "SafeWrite" (sentinel bad_name)) ≡ true) ↔ (
    Names (wrap "SafeWrite" (sentinel bad_name)) bad_input
    ⊎ Names (wrap "SafeWrite" (sentinel bad_name)) bad_name
    ⊎ Names (wrap "SafeWrite" (sentinel bad_name)) bad_pattern
    ⊎ Names (wrap "SafeWrite" (sentinel bad_name)) max_retry
    ⊎ Names (wrap "SafeWrite" (sentinel bad_name)) hash_sum_mismatch)
is_package_err_iff_example = is_package_err_iff (wrap "SafeWrite" (sentinel bad_name))

length-random_uint32_padded_example : length (random_uint32_padded 42) ≡ 10
length-random_uint32_padded_example = length-random_uint32_padded 42

padded : random_uint32_padded 42 ≡ codes "0000000042"
unfolding random_uint32_padded
padded = refl

-- A directory in which the names of one byte exist.
abbrev open_long : FilePath → ℕ → Opened FilePath × ℕ
open_long (c ∷ []) w = (not_opened (sentinel exist), w)
open_long p w = (opened p, w + 1)

open_random_loop-Tries_example :
    (r : Opened FilePath × ℕ) × (open_random_loop max_attempts open_long
        (λ i. if i == 0 then codes "a" else codes "ab")
        0
        0
      ≡ some r)
    × Tries open_long (λ i. if i == 0 then codes "a" else codes "ab") 0 0 r
open_random_loop-Tries_example =
    open_random_loop-Tries open_long (λ i. if i == 0 then codes "a" else codes "ab") max_attempts 0
      0 (omega arith) (omega arith)

abbrev in_tmp : TmpFileOption
in_tmp = record {
  tmp_dir_name = codes "/tmp";
  prefix = codes "pre-";
  suffix = [];
  random_pattern = codes "-*";
}

match_tmp_file_joined_example :
    match_tmp_file in_tmp
      (join (temp_dir in_tmp (codes "/a/b")) (tmp_name in_tmp (codes "b-0000000042")))
    ≡ true
unfolding suffix_or_default is_empty
match_tmp_file_joined_example =
    match_tmp_file_joined in_tmp (codes "/a/b") (codes "b-0000000042") (inr normal_tmp) proper_name
  where
    normal_tmp : normalize_path (codes "/tmp") ≡ codes "/tmp"
    normal_tmp = unfold normalize_path clean in refl

    proper_name : IsProper (tmp_name in_tmp (codes "b-0000000042"))
    proper_name = record { whole = refl; not_nil = refl; not_dot = refl; not_dot_dot = refl }
