-- ===== src/Fsutil/Equal.antt =====
-- fsutil/equal.go: the comparisons of modes, of names and of contents that `Equal` makes, and the
-- options that it shares with the copies of fsutil/copy.go.
pub mod Contents
pub mod Entries
pub mod Trees
use musicbox.Prelude.{
  ℕ, zero, suc, ◌-◌, ◌≡◌, ◌↔◌, ◌≤◌, ◌<◌, refl, ap, ◌∙◌, Bool, true, false, not, ◌&&◌, ◌||◌, Option,
  none, some, List, [], ◌∷◌, ◌==◌, if◌then◌else◌, Bool-cases, Option-cases, inl, inr, length, take,
  drop, min, arith,
}
use musicbox.Prelude.Anywhere.{Text, same_text, same_text_iff}
use musicbox.Fsutil.Error.{Error}
use musicbox.Fsutil.Fs.{FilePath}

-- Go's fs.FileMode: the bits of its type, its permissions, and the others such as setuid.
pub record FileMode : Type 0 where
  pub type_bits : ℕ
  pub perm : ℕ
  pub extra : ℕ

-- `copyFsOption`, but for the context: `ignore_non_regular` is nonRegularFileHandlingIgnore.
pub record CopyFsOption : Type 0 where
  pub ignore_non_regular : Bool
  pub chmod_if : Option (FilePath → Option FileMode)
  pub no_chmod : Bool

-- `if opt.chmodIf != nil { overridden, ok = opt.chmodIf(path) }`
unfoldable pub overridden : CopyFsOption → FilePath → Option FileMode
overridden opt path = elim opt.chmod_if [ none ↦ none | some chmod_if ↦ chmod_if path ]

pub data EqualReason : Type 0 where
  mode_mismatch file_content_mismatch directory_content_mismatch : EqualReason

-- A report of a mode carries the two modes, one of a directory its names.
pub record EqualReport : Type 0 where
  pub reason : EqualReason
  pub path : FilePath
  pub modes : Option (FileMode × FileMode)
  pub names : Option (List Text × List Text)

-- `EqualResult.Equal` and `EqualResult.Select`
unfoldable pub equal : List EqualReport → Bool
equal r = length r == 0

unfoldable pub select : (EqualReport → Bool) → List EqualReport → List EqualReport
select filter_fn [] = []
select filter_fn (rep ∷ r) =
    let rest = select filter_fn r in if filter_fn rep then rep ∷ rest else rest

same_file_mode : FileMode → FileMode → Bool
same_file_mode a b = a.type_bits == b.type_bits && (a.perm == b.perm && a.extra == b.extra)

mode_report : FileMode → FileMode → FilePath → EqualReport
mode_report dst src path = record {
  reason = mode_mismatch;
  path = path;
  modes = some (dst, src);
  names = none;
}

-- `sameMode`: none if the modes are taken for equal, and the report otherwise.
pub same_mode : FileMode → FileMode → FilePath → CopyFsOption → Option EqualReport
unfolding overridden same_file_mode mode_report
same_mode dst src path opt =
    if not (dst.type_bits == src.type_bits)
    then some (mode_report dst src path)
    else elim (overridden opt path) [
      | some mode ↦
          if dst.perm == mode.perm
          then none
          else some (
              mode_report dst (record { type_bits = src.type_bits; perm = mode.perm; extra = 0 })
                path)
      | none ↦
          if not opt.no_chmod && not (same_file_mode dst src)
          then some (mode_report dst src path)
          else none
    ]

-- The loop of `sameNames`, over lists of one length.
same_each : List Text → List Text → Bool
unfolding same_text
same_each [] src = true
same_each (d ∷ dst) [] = false
same_each (d ∷ dst) (s ∷ src) = same_text d s && same_each dst src

-- `sameNames`
pub same_names : List Text → List Text → Bool
unfolding same_each
same_names dst src = if length dst == length src then same_each dst src else false

-- How `sameReader` ends.
pub data Compared : Type 0 where
  same different out_of_fuel : Compared
  failed : Error → Compared

-- `io.ReadFull` on a buffer of the given length: its error, and the bytes.
abbrev pub ReadFull : Type 0 → Type 0
ReadFull S = ℕ → S → (Option Error × List ℕ) × S

-- The length of the package's buffers, 64 KiB.
abbrev pub buf_size : ℕ
buf_size = 65536

module _ {S : Type 0} (read_full : ReadFull S) where
  -- The loop of `sameReader`: the buffers have the length `buf`, and `size` bytes are left.
  same_reader_loop : ℕ → ℕ → ℕ → S → S → Compared
  unfolding same_text
  same_reader_loop zero buf size l r = if size == 0 then same else out_of_fuel
  same_reader_loop (suc fuel) buf size l r =
      let n = min buf size in
      let ((err_r, buf_r), r') = read_full n r in
      let ((err_l, buf_l), l') = read_full n l in
      let rest = same_reader_loop fuel n (size - n) l' r' in
      if size == 0 then same else elim err_r [
        | some e ↦ failed e
        | none ↦ elim err_l [
          | some e ↦ failed e
          | none ↦ if same_text buf_r buf_l then rest else different
        ]
      ]

  -- `sameReader`: each round consumes a byte or more, so `size` rounds are enough.
  unfoldable pub same_reader : S → S → ℕ → ℕ → Compared
  unfolding same_reader_loop
  same_reader l r l_size r_size =
      if r_size == l_size then same_reader_loop r_size buf_size r_size l r else different
