-- ===== src/Fsutil/SafeWrite/Options.antt =====
-- fsutil/safe_write.go: the functions that set a SafeWriteOption's fields, and how an option is made
-- of them.
use musicbox.Prelude.{
  Bool, true, false, ◌||◌, Option, none, some, List, [], ◌∷◌, ◌==◌, if◌then◌else◌, length,
}
use musicbox.Prelude.Signed.{ℤ, negsuc}
use musicbox.Prelude.Codes.{codes}
use musicbox.Fsutil.Error.{Error, sentinel, bad_name, wrap}
use musicbox.Fsutil.Fs.{FilePath}
use musicbox.Fsutil.Path.{clean, slash}
use musicbox.Fsutil.Text.{contains}
use musicbox.Fsutil.TmpFile.{TmpFileOption, validate_pattern}
use musicbox.Fsutil.SafeWrite.{Process, SafeWriteOption}

-- `SafeWriteOptionOption`
abbrev pub Setter : Type 0 → Type 0 → Type 0
Setter W H = SafeWriteOption W H → SafeWriteOption W H

-- A setter, or the errors that are wrapped into the one of the function that makes it.
pub data Made (W H : Type 0) : Type 0 where
  made : Setter W H → Made W H
  refused : Option Error → Option Error → Made W H

abbrev is_err : Option Error → Bool
is_err none = false
is_err (some e) = true

module _ {W H : Type 0} where
  abbrev with_tmp_file_option : (TmpFileOption → TmpFileOption) → Setter W H
  with_tmp_file_option set o = record o { tmp_file_option = set o.tmp_file_option }

  pub with_tmp_dir : FilePath → Setter W H
  with_tmp_dir name =
      with_tmp_file_option
        (λ t. record t { tmp_dir_name = if length name == 0 then name else clean name })

  pub with_disable_mkdir : Bool → Setter W H
  with_disable_mkdir b o = record o { disable_mkdir = b }

  pub with_force_perm : Bool → Setter W H
  with_force_perm b o = record o { force_perm = b }

  pub with_disable_remove_on_err : Bool → Setter W H
  with_disable_remove_on_err b o = record o { disable_remove_on_err = b }

  pub with_ignore_matched_err : Option (Error → Bool) → Setter W H
  with_ignore_matched_err matches o = record o { ignore_matched_err = matches }

  pub with_owner : ℤ → ℤ → Setter W H
  with_owner uid gid o = record o { uid = uid; gid = gid }

  pub with_default_pre_processes : List (Process W H) → Setter W H
  with_default_pre_processes processes o = record o { default_pre_process = processes }

  pub with_default_post_processes : List (Process W H) → Setter W H
  with_default_post_processes processes o = record o { default_post_processes = processes }

  pub with_disable_sync : Bool → Setter W H
  with_disable_sync b o = record o { disable_sync = b }

  pub with_prefix_suffix : FilePath → FilePath → Made W H
  with_prefix_suffix prefix suffix =
      let err_pre = validate_pattern prefix in
      let err_suf = validate_pattern suffix in
      if is_err err_pre || is_err err_suf
      then refused err_pre err_suf
      else made (with_tmp_file_option (λ t. record t { prefix = prefix; suffix = suffix }))

  pub with_random_pattern : FilePath → Made W H
  with_random_pattern pattern =
      if contains pattern slash
      then refused (some (wrap "contains path separator" (sentinel bad_name))) none
      else made (with_tmp_file_option (λ t. record t { random_pattern = pattern }))

  initial_option : SafeWriteOption W H
  initial_option = record {
    tmp_file_option = record {
      tmp_dir_name = [];
      prefix = [];
      suffix = [];
      random_pattern = codes "-*";
    };
    disable_mkdir = false;
    force_perm = false;
    disable_remove_on_err = false;
    ignore_matched_err = none;
    uid = negsuc 0;
    gid = negsuc 0;
    default_pre_process = [];
    default_post_processes = [];
    disable_sync = false;
  }

  -- `SafeWriteOption.Apply`: a copy with the options set, in order.
  unfoldable pub apply : List (Setter W H) → SafeWriteOption W H → SafeWriteOption W H
  apply [] o = o
  apply (opt ∷ opts) o = apply opts (opt o)

  -- `NewSafeWriteOption`
  pub new_safe_write_option : List (Setter W H) → SafeWriteOption W H
  unfolding initial_option apply
  new_safe_write_option opts = apply opts initial_option
