-- ===== src/Fsutil/Equal/Entries.antt =====
-- `sameNames` and `sameMode` decide what they say.
use musicbox.Prelude.{
  ◌≡◌, ◌↔◌, refl, Bool, true, false, Option, none, some, List, [], ◌∷◌, ◌==◌, ==_iff, Bool-cases,
  Option-cases, inl, inr, length, arith,
}
use musicbox.Prelude.Anywhere.{Text, same_text, same_text_refl, same_text_sound, and_iff}
use musicbox.Fsutil.Fs.{FilePath}
use musicbox.Fsutil.Equal.{
  FileMode, CopyFsOption, overridden, same_file_mode, same_mode, same_each, same_names,
}

same_each_refl : (names : List Text) → same_each names names ≡ true
unfolding same_each
same_each_refl [] = refl
same_each_refl (n ∷ names) = rw (same_text_refl n, same_each_refl names) refl

same_each_sound :
    (dst src : List Text) → length dst ≡ length src → same_each dst src ≡ true → dst ≡ src
unfolding same_each
same_each_sound [] [] h e = refl
same_each_sound [] (s ∷ src) h e = absurd (omega (arith, h))
same_each_sound (d ∷ dst) [] h e = absurd (omega (arith, h))
same_each_sound (d ∷ dst) (s ∷ src) h e =
    let both =
      (and_iff (same_text d s) (same_each dst src) (same_text d s ≡ true) (same_each dst src ≡ true)
          (λ x. x, λ x. x) (λ x. x, λ x. x)).0
        e in
    rw (same_text_sound d s both.0, same_each_sound dst src (omega (arith, h)) both.1) refl

-- sameNames holds exactly if the two lists are equal.
pub same_names_iff : (dst src : List Text) → (same_names dst src ≡ true) ↔ (dst ≡ src)
unfolding same_names
same_names_iff dst src = (
  (λ h. elim (Bool-cases (length dst == length src)) [
    | inl equal ↦
        same_each_sound dst src ((==_iff (length dst) (length src)).0 equal) (ground (arith, h))
    | inr unequal ↦ ground (arith, h)
  ]),
  λ h. rw h (ground (arith, same_each_refl src)),
)

same_file_mode_iff : (a b : FileMode) → (same_file_mode a b ≡ true) ↔ (a ≡ b)
unfolding same_file_mode
same_file_mode_iff a b = ((λ h. ground (arith, h)), λ h. rw h (ground arith))

-- The modes match apart from their types: the permissions are those that the options override, or the
-- options keep the copy from changing modes, or all bits are equal.
abbrev pub ModeMatches : Option FileMode → Bool → FileMode → FileMode → Type 0
ModeMatches (some mode) no_chmod dst src = dst.perm ≡ mode.perm
ModeMatches none true dst src = Unit
ModeMatches none false dst src = dst ≡ src

-- sameMode reports nothing exactly if the types are equal and the modes match under the options.
pub same_mode_iff :
    (dst src : FileMode) (path : FilePath) (opt : CopyFsOption)
    → (same_mode dst src path opt ≡ none)
      ↔ ((dst.type_bits ≡ src.type_bits) × ModeMatches (overridden opt path) opt.no_chmod dst src)
unfolding same_mode
same_mode_iff dst src path opt = elim (Option-cases (overridden opt path)) [
  | inr (mode, given) ↦ rw given (ground arith)
  | inl unset ↦ rw unset (elim (Bool-cases opt.no_chmod) [
    | inl kept ↦ rw kept (ground arith)
    | inr changed ↦ rw changed (
        let iff = same_file_mode_iff dst src in
        ((λ h. ground (arith, h, iff.0)), λ h. ground (arith, h, iff.1)))
  ])
]
