-- ===== src/Fsutil/Text.antt =====
-- What fsutil uses of Go's package strings, on names as bytes.
use musicbox.Prelude.{
  ℕ, ◌≡◌, refl, Bool, true, false, ◌&&◌, ◌||◌, Option, none, some, [], ◌∷◌, ◌++◌, ◌==◌, arith,
  if◌then◌else◌, Option-cases, inl, inr,
}
use musicbox.Fsutil.Fs.{FilePath, same_path}

abbrev pub star : ℕ
star = b'*'

-- `strings.Contains(s, c)` for a single byte.
abbrev pub contains : FilePath → ℕ → Bool
contains [] c = false
contains (d ∷ s) c = d == c || contains s c

-- `strings.HasPrefix`
abbrev pub has_prefix : FilePath → FilePath → Bool
has_prefix s [] = true
has_prefix [] (c ∷ pre) = false
has_prefix (d ∷ s) (c ∷ pre) = d == c && has_prefix s pre

-- `strings.HasSuffix`
unfoldable pub has_suffix : FilePath → FilePath → Bool
has_suffix [] suf = same_path [] suf
has_suffix (c ∷ s) suf = same_path (c ∷ s) suf || has_suffix s suf

-- The text before the last `c` and the text behind it, which `strings.LastIndex` finds.
unfoldable pub split_at_last : FilePath → ℕ → Option (FilePath × FilePath)
split_at_last [] c = none
split_at_last (d ∷ s) c = elim (split_at_last s c) [
  | some (a, b) ↦ some (d ∷ a, b)
  | none ↦ if d == c then some ([], s) else none
]

pub same_path_refl : (p : FilePath) → same_path p p ≡ true
same_path_refl [] = refl
same_path_refl (c ∷ p) = ground (arith, same_path_refl p)

pub same_path_sound : (p q : FilePath) → same_path p q ≡ true → p ≡ q
same_path_sound [] [] h = refl
same_path_sound [] (c ∷ q) h = cc
same_path_sound (c ∷ p) [] h = cc
same_path_sound (c ∷ p) (d ∷ q) h = ground (arith, same_path_sound p q)

pub has_prefix-append : (p s : FilePath) → has_prefix (p ++ s) p ≡ true
has_prefix-append [] s = refl
has_prefix-append (c ∷ p) s = ground (arith, has_prefix-append p s)

pub has_suffix_self : (s : FilePath) → has_suffix s s ≡ true
unfolding has_suffix
has_suffix_self [] = refl
has_suffix_self (c ∷ s) = ground (arith, same_path_refl (c ∷ s))

pub has_suffix-append : (p s : FilePath) → has_suffix (p ++ s) s ≡ true
unfolding has_suffix
has_suffix-append [] s = has_suffix_self s
has_suffix-append (c ∷ p) s = ground (arith, has_suffix-append p s)

split_at_last-none : (s : FilePath) (c : ℕ) → split_at_last s c ≡ none → contains s c ≡ false
unfolding split_at_last
split_at_last-none [] c h = refl
split_at_last-none (d ∷ s) c h = ground (arith, split_at_last-none s c)

-- Joined again round the byte, the two parts are the text; the second holds no such byte.
pub split_at_last-append :
    (s : FilePath) (c : ℕ) (a b : FilePath)
    → split_at_last s c ≡ some (a, b)
    → (s ≡ a ++ (c ∷ b)) × (contains b c ≡ false)
unfolding split_at_last
split_at_last-append [] c a b h = cc
split_at_last-append (d ∷ s) c a b h = elim (Option-cases (split_at_last s c)) [
  | inl last ↦ ground (arith, split_at_last-none s c, last)
  | inr ((a', b'), later) ↦ ground (arith, later, split_at_last-append s c a' b' later)
]
