-- ===== src/Fsutil/Copy/Lands.antt =====
-- fsutil/copy.go: what `copyPath` relies on, and what a copy puts into the destination.
pub mod Steps
use mathlib.Core.Path.{subst}
use musicbox.Prelude.{
  ℕ, ◌≡◌, refl, sym, ap, ◌∙◌, Bool, true, false, Option, none, some, List, [], ◌∷◌, if◌then◌else◌,
  Bool-cases, Option-cases, inl, inr, arith,
}
use musicbox.Prelude.Anywhere.{All}
use musicbox.Fsutil.Error.{Error}
use musicbox.Fsutil.Action.{
  Action, done, ◌>>◌, wrapping, Post, Ensures, Ensures->>, Ensures-wrapping, Ensures-done,
  Ensures-weaken, weaken-Post,
}
use musicbox.Fsutil.Fs.{FilePath, same_path, Opened, opened, not_opened, mode_perm}
use musicbox.Fsutil.Once.{
  Run, start, lift, close_once, close_once_called, close_once_keeps, At, World, Ensures-lift,
  Ensures-close_once,
}
use musicbox.Fsutil.Equal.{FileMode, CopyFsOption, overridden}
use musicbox.Fsutil.Tree.{Node, Entries, file, folder, node_mode}
use musicbox.Fsutil.Copy.{
  FileInfo, CopyFs, chmod_with, chmod_target, copy_steps, copy_created, copy_info, copy_stat,
  copy_from, copy_path,
}

-- What the destination has at a name.
pub record Placed : Type 0 where
  pub is_dir : Bool
  pub mode : FileMode
  pub content : List ℕ

-- The destination has these entries.
abbrev pub Kept :
    {W : Type 0} → (W → FilePath → Option Placed) → List (FilePath × Placed) → W → Type 0
Kept at ps w = All (λ k. at w k.0 ≡ some k.1) ps

-- None of them is at the name.
abbrev pub Clear : FilePath → List (FilePath × Placed) → Type 0
Clear p ps = All (λ k. same_path k.0 p ≡ false) ps

abbrev pub Unstated : {W : Type 0} → W → Type 0
Unstated w = Unit

-- What holds of what a call has opened, and if it has opened nothing.
abbrev pub OnOpened : {A W : Type 0} → (A → W → Type 0) → (W → Type 0) → Opened A × W → Type 0
OnOpened Q R (opened a, w) = Q a w
OnOpened Q R (not_opened e, w) = R w

-- What the copy relies on: each operation on the destination changes what is at its own name only, and
-- those on the source change nothing of the destination. `file_of` is the name that a file was created
-- by, `bytes_of` what is read of a source's file, and `Failed` what holds when an operation has failed.
pub record Lays {W R H : Type 0} (fs : CopyFs W R H) (at : W → FilePath → Option Placed)
    (file_of : H → FilePath) (bytes_of : R → List ℕ) (Failed : W → Type 0) : Type 0 where
  pub mkdir_all :
      (p : FilePath) (mode : ℕ) (ps : List (FilePath × Placed))
      → Clear p ps
      → Ensures
          (Kept at ps)
          (fs.mkdir_all p mode)
          (λ w. Kept at ps w × ((x : Placed) × (at w p ≡ some x) × (x.is_dir ≡ true)))
          Failed
  pub create :
      (p : FilePath) (mode : ℕ) (ps : List (FilePath × Placed)) (w : W)
      → Clear p ps
      → Kept at ps w
      → OnOpened
          (λ h v.
            Kept at ps v
            × (file_of h ≡ p)
            × ((x : Placed) × (at v p ≡ some x) × (x.is_dir ≡ false) × (x.content ≡ [])))
          Failed
          (fs.create p mode w)
  pub chmod :
      (p : FilePath) (mode : FileMode) (x : Placed) (ps : List (FilePath × Placed))
      → Clear p ps
      → Ensures
          (Kept at ((p, x) ∷ ps))
          (fs.chmod p mode)
          (Kept at ((p, record x { mode = mode }) ∷ ps))
          Failed
  pub copy_content :
      (r : R) (h : H) (x : Placed) (ps : List (FilePath × Placed))
      → Clear (file_of h) ps
      → x.content ≡ []
      → Ensures
          (Kept at ((file_of h, x) ∷ ps))
          (fs.copy_content r h)
          (Kept at ((file_of h, record x { content = bytes_of r }) ∷ ps))
          Failed
  pub sync :
      (h : H) (ps : List (FilePath × Placed)) → Ensures (Kept at ps) (fs.sync h) (Kept at ps) Failed
  pub close :
      (h : H) (ps : List (FilePath × Placed))
      → Ensures (Kept at ps) (fs.close h) (Kept at ps) Failed
  pub close_source :
      (r : R) (ps : List (FilePath × Placed))
      → Ensures (Kept at ps) (fs.close_source r) (Kept at ps) (λ w. Kept at ps w × Failed w)
  pub close_failed : (h : H) → Ensures Failed (fs.close h) Failed Failed
  pub close_source_failed : (r : R) → Ensures Failed (fs.close_source r) Failed Failed
  pub stat :
      (r : R) (ps : List (FilePath × Placed)) (w : W)
      → Kept at ps w
      → OnOpened (λ i v. Kept at ps v) Failed (fs.stat r w)
  pub open_source :
      (p : FilePath) (ps : List (FilePath × Placed)) (w : W)
      → Kept at ps w
      → OnOpened (λ r v. Kept at ps v) Failed (fs.open_source p w)
  pub cancelled :
      (ps : List (FilePath × Placed)) → Ensures (Kept at ps) fs.cancelled (Kept at ps) Failed

abbrev pub info_of : Node → FileInfo
info_of (file m c) = record { is_dir = false; is_regular = true; mode = m }
info_of (folder m es) = record { is_dir = true; is_regular = false; mode = m }

abbrev pub HasBytes : {R : Type 0} → (R → List ℕ) → Node → R → Type 0
HasBytes bytes_of (file m c) r = bytes_of r ≡ c
HasBytes bytes_of (folder m es) r = Unit

-- The source has the node at the name.
abbrev pub Serves : {W R H : Type 0} → CopyFs W R H → (R → List ℕ) → FilePath → Node → Type 0
Serves {W} fs bytes_of p node =
    (w : W)
    → OnOpened
        (λ r v.
          OnOpened (λ info u. info ≡ info_of node) Unstated (fs.stat r v)
          × HasBytes bytes_of node r)
        Unstated (fs.open_source p w)

-- The mode that a copy is given, if it is given one.
abbrev pub given_mode : Option FileMode → Bool → FileMode → Option FileMode
given_mode (some mode) no_chmod m = some mode
given_mode none true m = none
given_mode none false m = some (record { type_bits = 0; perm = m.perm; extra = 0 })

abbrev pub mode_given : CopyFsOption → FilePath → FileMode → Option FileMode
mode_given opt p m = given_mode (overridden opt p) opt.no_chmod m

abbrev pub HasMode : Option FileMode → FileMode → Type 0
HasMode none m = Unit
HasMode (some mode) m = m ≡ mode

-- The kind, the content and the mode of what was copied.
abbrev pub Landed : CopyFsOption → FilePath → Node → Placed → Type 0
Landed opt p (file m c) x =
    (x.is_dir ≡ false) × (x.content ≡ c) × HasMode (mode_given opt p m) x.mode
Landed opt p (folder m es) x = (x.is_dir ≡ true) × HasMode (mode_given opt p m) x.mode

abbrev pub with_mode : Option FileMode → Placed → Placed
with_mode none x = x
with_mode (some mode) x = record x { mode = mode }

abbrev pub moded : CopyFsOption → FilePath → FileMode → Placed → Placed
moded opt p m x = with_mode (mode_given opt p m) x
