-- ===== src/Fsutil/TmpFile/Match.antt =====
-- `matchTmpFile`, by which `CleanTmp` finds temporary files, against the names that `open` makes.
use mathlib.Core.List.{append_assoc}
use musicbox.Prelude.{
  ◌≡◌, refl, sym, ap, ◌∙◌, true, false, not, ◌&&◌, List, [], ◌∷◌, ◌++◌, arith, Bool-cases, inl, inr,
  ◌⊎◌,
}
use musicbox.Fsutil.Fs.{FilePath, same_path}
use musicbox.Fsutil.Path.{slash, is_rooted, join_slash, normalize_path, dir, join}
use musicbox.Fsutil.Path.Normal.{
  IsProper, AllProper, normalize_path-AllProper, normalize_path_proper,
}
use musicbox.Fsutil.Path.Parts.{behind, join_proper, base-join, dir-join}
use musicbox.Fsutil.Text.{
  has_prefix, has_suffix, same_path_refl, has_prefix-append, has_suffix-append,
}
use musicbox.Fsutil.TmpFile.{TmpFileOption, is_empty, temp_dir, suffix_or_default, match_tmp_file}

-- A name of the form that `open` makes, whatever stands between the prefix and the suffix.
abbrev pub tmp_name : TmpFileOption → FilePath → FilePath
tmp_name o middle = o.prefix ++ (middle ++ suffix_or_default o)

module _ (o : TmpFileOption) (p : FilePath) where
  in_place :
      (is_empty o.tmp_dir_name ≡ true) ⊎ (normalize_path o.tmp_dir_name ≡ o.tmp_dir_name)
      → (not (is_empty o.tmp_dir_name) && not (same_path (temp_dir o p) o.tmp_dir_name)) ≡ false
  unfolding temp_dir
  in_place place = elim (Bool-cases (is_empty o.tmp_dir_name)) [
    | inl empty ↦ rw empty
    | inr named ↦ elim place [
      | inl empty ↦ cc (named, empty)
      | inr normal ↦ rw (named, normal, same_path_refl o.tmp_dir_name)
    ]
  ]

  -- With no directory of its own, or with a normal one, a configuration recognises every temporary
  -- file that it names: those that `CleanTmp` is to remove.
  pub match_tmp_file_joined :
      (middle : FilePath)
      → (is_empty o.tmp_dir_name ≡ true) ⊎ (normalize_path o.tmp_dir_name ≡ o.tmp_dir_name)
      → IsProper (tmp_name o middle)
      → match_tmp_file o (join (temp_dir o p) (tmp_name o middle)) ≡ true
  unfolding match_tmp_file
  match_tmp_file_joined middle place proper =
      let (es, h, form) = temp_dir-AllProper in
      let name = tmp_name o middle in
      let at : join (temp_dir o p) name ≡ behind es ++ (slash ∷ name) =
        ap (λ d. join d name) form ∙ join_proper es name h proper in
      let under : normalize_path (dir (behind es ++ (slash ∷ name))) ≡ temp_dir o p =
        ap normalize_path (dir-join es name h proper) ∙ normalize_path_proper es h ∙ sym form in
      rw (at, match_tmp_file, base-join es name proper, under, in_place place) (matches middle)
    where
      temp_dir-AllProper :
          (es : List FilePath) × AllProper es × (temp_dir o p ≡ slash ∷ join_slash es)
      temp_dir-AllProper = unfold temp_dir in normalize_path-AllProper _

      matches :
          (middle : FilePath)
          → (has_prefix (tmp_name o middle) o.prefix
              && has_suffix (tmp_name o middle) (suffix_or_default o))
            ≡ true
      matches middle = rw (
        has_prefix-append o.prefix (middle ++ suffix_or_default o),
        ← append_assoc o.prefix middle (suffix_or_default o),
        has_suffix-append (o.prefix ++ middle) (suffix_or_default o),
      )

first_byte : (q r : FilePath) → is_rooted r ≡ false → same_path (slash ∷ q) r ≡ false
first_byte q [] h = refl
first_byte q (c ∷ r) h = ground arith

-- A directory for temporary files that is not rooted, such as "tmp", matches no name at all: `CleanTmp`
-- then removes nothing.
pub match_tmp_file_relative :
    (o : TmpFileOption)
    → is_empty o.tmp_dir_name ≡ false
    → is_rooted o.tmp_dir_name ≡ false
    → (p : FilePath) → match_tmp_file o p ≡ false
unfolding match_tmp_file
match_tmp_file_relative o named relative p =
    let (es, h, form) = normalize_path-AllProper (dir p) in
    rw (named, form, first_byte (join_slash es) o.tmp_dir_name relative)
