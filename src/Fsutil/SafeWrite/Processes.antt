-- ===== src/Fsutil/SafeWrite/Processes.antt =====
-- fsutil/safe_write.go: the processes that the package offers to run before and after the copy. The
-- operations of the file, of the reader and of the hash are those that they are given: `sum` is the
-- hash's `Sum(nil)` in a world, and `tee_reader` Go's io.TeeReader into the hash.
use musicbox.Prelude.{ℕ, Option, none, some, List, not, ◌==◌, if◌then◌else◌}
use musicbox.Prelude.Anywhere.{same_text}
use musicbox.Fsutil.Error.{Error, wrap, sentinel, bad_input, hash_sum_mismatch}
use musicbox.Fsutil.Action.{Action}
use musicbox.Fsutil.Fs.{Opened, opened, not_opened}
use musicbox.Fsutil.SafeWrite.{Process}

-- Go's io.SeekEnd.
abbrev seek_end : ℕ
seek_end = 2

abbrev size_zero : {W : Type 0} → Opened ℕ × W → Option Error × W
size_zero (not_opened e, w) = (some e, w)
size_zero (opened size, w) =
    if not (size == 0)
    then (some (wrap "expected the file to be empty" (sentinel bad_input)), w)
    else (none, w)

module _ {W H : Type 0} where
  -- `PreProcessSeek` and `PreProcessSeekEnd`, of an int64's bits and a whence.
  abbrev pub pre_process_seek : (H → ℕ → ℕ → Action W) → ℕ → ℕ → Process W H
  pre_process_seek seek offset whence tmp_name dst_name file = seek file offset whence

  abbrev pub pre_process_seek_end : (H → ℕ → ℕ → Action W) → Process W H
  pre_process_seek_end seek = pre_process_seek seek 0 seek_end

  -- `PreProcessAssertSizeZero`, where `stat` gives the size of a file.
  abbrev pub pre_process_assert_size_zero : (H → W → Opened ℕ × W) → Process W H
  pre_process_assert_size_zero stat tmp_name dst_name file w = size_zero (stat file w)

  -- `PostProcessClose`
  abbrev pub post_process_close : Action W → Process W H
  post_process_close close tmp_name dst_name file = close

  -- `PostProcessValidateCheckSum`
  unfoldable pub post_process_validate_check_sum : (W → List ℕ) → List ℕ → Process W H
  post_process_validate_check_sum sum expected tmp_name dst_name file w =
      if same_text expected (sum w)
      then (none, w)
      else (some (wrap "expected, actual" (sentinel hash_sum_mismatch)), w)

  -- `TeeHasher`
  abbrev pub tee_hasher : {R : Type 0} → (R → R) → R → (W → List ℕ) → List ℕ → R × Process W H
  tee_hasher tee_reader r sum expected =
      (tee_reader r, post_process_validate_check_sum sum expected)
