-- ===== src/Fsutil/TmpFile/Clean/Names.antt =====
-- fsutil/safe_write.go: which entries of a directory `CleanTmp` removes.
use musicbox.Prelude.{
  ℕ, suc, ◌≡◌, ◌↔◌, ◌⊎◌, inl, inr, refl, sym, ap, ◌∙◌, Bool, true, false, not, ◌&&◌, Option, none,
  List, [], ◌∷◌, ◌++◌, if◌then◌else◌, Bool-cases, arith,
}
use musicbox.Prelude.Codes.{codes}
use musicbox.Prelude.Anywhere.{All, and_iff}
use musicbox.Fsutil.Error.{Error}
use musicbox.Fsutil.Action.{Action, for_each}
use musicbox.Fsutil.Fs.{FilePath, same_path, Opened, opened}
use musicbox.Fsutil.Text.{
  has_prefix, has_suffix, same_path_refl, same_path_sound, has_prefix-append, has_suffix-append,
}
use musicbox.Fsutil.Path.{slash, join_slash, normalize_path, dir, join}
use musicbox.Fsutil.Path.Normal.{
  IsProper, AllProper, normalize_path-AllProper, normalize_path_proper,
}
use musicbox.Fsutil.Path.Parts.{behind, join_proper, base-join, dir-join}
use musicbox.Fsutil.Walk.{Dirent, as_step}
use musicbox.Fsutil.TmpFile.{TmpFileOption, is_empty, suffix_or_default, match_tmp_file}
use musicbox.Fsutil.TmpFile.Clean.{
  clean_root, clean_tmp, wrapped, matching, IsFileIn, clean_tmp-eq-removals,
}

-- The suffix of a temporary file: the one that is given, or else ".tmp" if the files have no directory
-- of their own.
abbrev pub the_suffix : FilePath → Bool → FilePath
the_suffix (c ∷ suffix) no_dir = c ∷ suffix
the_suffix [] true = codes ".tmp"
the_suffix [] false = []

suffix_lem :
    (o : TmpFileOption) → suffix_or_default o ≡ the_suffix o.suffix (is_empty o.tmp_dir_name)
unfolding suffix_or_default
suffix_lem o = chosen o.suffix (is_empty o.tmp_dir_name)
  where
    chosen :
        (s : FilePath) (b : Bool)
        → (if not (same_path s []) then s else if b then codes ".tmp" else []) ≡ the_suffix s b
    chosen [] true = refl
    chosen [] false = refl
    chosen (c ∷ s) b = refl

-- A name that starts with the prefix and ends with the suffix.
abbrev pub IsTmpName : TmpFileOption → FilePath → Type 0
IsTmpName o name =
    ((rest : FilePath) × (name ≡ o.prefix ++ rest))
    × ((front : FilePath) × (name ≡ front ++ the_suffix o.suffix (is_empty o.tmp_dir_name)))

has_prefix_iff :
    (s pre : FilePath) → (has_prefix s pre ≡ true) ↔ ((rest : FilePath) × (s ≡ pre ++ rest))
has_prefix_iff s pre = (sound s pre, λ h. rw h.1 (has_prefix-append pre h.0))
  where
    sound : (s pre : FilePath) → has_prefix s pre ≡ true → (rest : FilePath) × (s ≡ pre ++ rest)
    sound s [] h = (s, refl)
    sound [] (c ∷ pre) h = absurd (ground (arith, h))
    sound (d ∷ s) (c ∷ pre) h =
        let (rest, same) = sound s pre (ground (arith, h)) in
        let first : d ≡ c = ground (arith, h) in (rest, rw (first, same) refl)

has_suffix_iff :
    (s suf : FilePath) → (has_suffix s suf ≡ true) ↔ ((front : FilePath) × (s ≡ front ++ suf))
unfolding has_suffix
has_suffix_iff s suf = (sound s suf, λ h. rw h.1 (has_suffix-append h.0 suf))
  where
    sound : (s suf : FilePath) → has_suffix s suf ≡ true → (front : FilePath) × (s ≡ front ++ suf)
    sound [] suf h = ([], same_path_sound [] suf h)
    sound (c ∷ s) suf h = elim (Bool-cases (same_path (c ∷ s) suf)) [
      | inl whole ↦ ([], same_path_sound (c ∷ s) suf whole)
      | inr part ↦
          let (front, same) = sound s suf (ground (arith, h, part)) in
          (c ∷ front, ap (λ t. c ∷ t) same)
    ]

-- The files have no directory of their own, or a normal one.
abbrev pub InPlace : TmpFileOption → Type 0
InPlace o =
    (is_empty o.tmp_dir_name ≡ true)
    ⊎ ((is_empty o.tmp_dir_name ≡ false) × (normalize_path o.tmp_dir_name ≡ o.tmp_dir_name))

root_form :
    (o : TmpFileOption)
    → InPlace o
    → (es : List FilePath) × AllProper es × (clean_root o ≡ slash ∷ join_slash es)
unfolding clean_root join_slash
root_form o (inl empty) = ([], tt, rw empty refl)
root_form o (inr (named, normal)) =
    let (es, h, form) = normalize_path-AllProper o.tmp_dir_name in
    (es, h, rw named (sym normal ∙ form))

at_root :
    (o : TmpFileOption)
    → (not (is_empty o.tmp_dir_name) && not (same_path (clean_root o) o.tmp_dir_name)) ≡ false
unfolding clean_root
at_root o = elim (Bool-cases (is_empty o.tmp_dir_name)) [
  | inl empty ↦ rw empty refl
  | inr named ↦ rw (named, same_path_refl o.tmp_dir_name) refl
]

match_entry :
    (o : TmpFileOption) (name : FilePath)
    → InPlace o
    → IsProper name
    → match_tmp_file o (join (clean_root o) name)
      ≡ (has_prefix name o.prefix && has_suffix name (suffix_or_default o))
unfolding match_tmp_file
match_entry o name place proper =
    let (es, h, form) = root_form o place in
    let at : join (clean_root o) name ≡ behind es ++ (slash ∷ name) =
      ap (λ d. join d name) form ∙ join_proper es name h proper in
    let under : normalize_path (dir (behind es ++ (slash ∷ name))) ≡ clean_root o =
      ap normalize_path (dir-join es name h proper) ∙ normalize_path_proper es h ∙ sym form in
    rw (at, match_tmp_file, base-join es name proper, under, at_root o) refl

match_entry_iff :
    (o : TmpFileOption) (name : FilePath)
    → InPlace o
    → IsProper name
    → (match_tmp_file o (join (clean_root o) name) ≡ true) ↔ IsTmpName o name
match_entry_iff o name place proper =
    rw (match_entry o name place proper, suffix_lem o)
      (and_iff (has_prefix name o.prefix)
        (has_suffix name (the_suffix o.suffix (is_empty o.tmp_dir_name)))
        ((rest : FilePath) × (name ≡ o.prefix ++ rest))
        ((front : FilePath) × (name ≡ front ++ the_suffix o.suffix (is_empty o.tmp_dir_name)))
        (has_prefix_iff name o.prefix)
        (has_suffix_iff name (the_suffix o.suffix (is_empty o.tmp_dir_name))))

-- The paths are those of the entries that are temporary files, in order.
abbrev pub TmpPaths : TmpFileOption → FilePath → List Dirent → List FilePath → Type 0
TmpPaths o p [] [] = Unit
TmpPaths o p [] (q ∷ paths) = ⊥
TmpPaths o p (d ∷ ds) [] = (IsTmpName o d.name → ⊥) × TmpPaths o p ds []
TmpPaths o p (d ∷ ds) (q ∷ paths) =
    (IsTmpName o d.name × (q ≡ join p d.name) × TmpPaths o p ds paths)
    ⊎ ((IsTmpName o d.name → ⊥) × TmpPaths o p ds (q ∷ paths))

passed :
    (o : TmpFileOption) (p : FilePath) (d : Dirent) (ds : List Dirent) (paths : List FilePath)
    → (IsTmpName o d.name → ⊥)
    → TmpPaths o p ds paths
    → TmpPaths o p (d ∷ ds) paths
passed o p d ds [] other h = (other, h)
passed o p d ds (q ∷ paths) other h = inr (other, h)

module _ {W : Type 0} (o : TmpFileOption) (stat_name : FilePath → W → Opened Dirent)
    (read_dir : FilePath → W → List Dirent × Option Error) (remove_all : FilePath → Action W) where
  -- A regular file with a proper name.
  abbrev pub IsPlain : Dirent → Type 0
  IsPlain d = IsFileIn o stat_name read_dir remove_all (clean_root o) d × IsProper d.name

  only_files :
      (ds : List Dirent)
      → All IsPlain ds
      → All (IsFileIn o stat_name read_dir remove_all (clean_root o)) ds
  only_files [] all = tt
  only_files (d ∷ ds) all = (all.0.0, only_files ds all.1)

  matching-TmpPaths :
      (ds : List Dirent)
      → InPlace o
      → All IsPlain ds
      → TmpPaths o (clean_root o) ds (matching o stat_name read_dir remove_all (clean_root o) ds)
  matching-TmpPaths [] place all = tt
  matching-TmpPaths (d ∷ ds) place ((file, proper), all) =
      let matches = match_entry_iff o d.name place proper in
      let rest = matching-TmpPaths ds place all in
      elim (Bool-cases (match_tmp_file o (join (clean_root o) d.name))) [
        | inl e ↦ rw e (inl (matches.0 e, refl, rest))
        | inr e ↦ rw e (passed o (clean_root o) d ds _ (λ t. absurd (cc (e, matches.1 t))) rest)
      ]

  -- CleanTmp of a directory of regular files with proper names, for a configuration with no directory
  -- of its own or with a normal one, removes exactly those whose names start with the prefix and end
  -- with the suffix, in order and until one is not removed, and does nothing else.
  pub clean_tmp-TmpPaths :
      (fuel : ℕ) (root_dir : Dirent) (ds : List Dirent) (w : W)
      → InPlace o
      → stat_name (clean_root o) w ≡ opened root_dir
      → root_dir.is_dir ≡ true
      → read_dir (clean_root o) w ≡ (ds, none)
      → All IsPlain ds
      → (paths : List FilePath) × TmpPaths o (clean_root o) ds paths
        × (clean_tmp o stat_name read_dir remove_all (suc (suc fuel)) w
            ≡ wrapped o stat_name read_dir remove_all (as_step (for_each paths remove_all w)))
  clean_tmp-TmpPaths fuel root_dir ds w place st is_dir listed all = (
    matching o stat_name read_dir remove_all (clean_root o) ds,
    matching-TmpPaths ds place all,
    clean_tmp-eq-removals o stat_name read_dir remove_all fuel root_dir ds w st is_dir listed
        (only_files ds all),
  )
