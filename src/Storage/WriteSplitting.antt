-- ===== src/Storage/WriteSplitting.antt =====
-- storage/splitting.go: `PathModifierAppendIndex` and `WriteSplitting`, which writes the pieces of a
-- reader to files of their own. `T` is what a trapper makes of a piece, `wrap` the trapper and `inner`
-- the piece in it; without a trapper both are the identity. `safe_write` is SafeWrite with the file
-- system and the option that WriteSplitting is given, on a world `W`: it returns its error, the reader
-- as it leaves it, and the world.
pub mod Files
use musicbox.Prelude.{
  ℕ, zero, suc, ◌-◌, Bool, true, false, ◌||◌, Option, none, some, List, [], ◌∷◌, ◌++◌, ltb, ◌==◌,
  if◌then◌else◌, length,
}
use musicbox.Prelude.Codes.{codes}
use musicbox.Fsutil.Error.{Error}
use musicbox.Fsutil.Fs.{FilePath, same_path}
use musicbox.Fsutil.Path.{clean, slash}
use musicbox.Fsutil.OpenRandom.{decimal, zeros}
use musicbox.Stream.Reader.{Reader}
use musicbox.Storage.Splitter.{FusedReader, Splitter, Piece, next}

-- `strings.CutSuffix(path, "/")`
cut_slash : FilePath → FilePath
cut_slash [] = []
cut_slash (c ∷ p) = if same_path (c ∷ p) (slash ∷ []) then [] else c ∷ cut_slash p

-- `%03d` of an index that is not negative; an int has nineteen digits at most.
padded : ℕ → FilePath
unfolding decimal zeros
padded i = let s = decimal 19 i in zeros (3 - length s) ++ s

unfoldable pub path_modifier_append_index : FilePath → ℕ → FilePath
unfolding cut_slash padded
path_modifier_append_index path i = cut_slash path ++ (codes "_" ++ padded i)

pub data WriteError : Type 0 where
  duplicate_name : FilePath → WriteError
  write_failed : Error → WriteError

-- How WriteSplitting ends: the names of the files that it has written, its error, the readers that
-- the trapper made, the reader as it is left, and the world.
pub data Outcome (S T W : Type 0) : Type 0 where
  finished : List FilePath → Option WriteError → List T → FusedReader S → W → Outcome S T W
  panic out_of_fuel : Outcome S T W

abbrev pub seen_before : FilePath → List FilePath → Bool
seen_before p [] = false
seen_before p (q ∷ seen) = same_path q p || seen_before p seen

-- One more file has been written.
abbrev pub push : {S T W : Type 0} → FilePath → T → Outcome S T W → Outcome S T W
push p t (finished paths err sets r w) = finished (p ∷ paths) err (t ∷ sets) r w
push p t panic = panic
push p t out_of_fuel = out_of_fuel

-- `SafeWrite` of a path and a reader.
abbrev pub SafeWrite : Type 0 → Type 0 → Type 0
SafeWrite T W = FilePath → T → W → Option Error × (T × W)

module _ {S T W : Type 0} (read : Reader S) (wrap : FilePath → Piece S → T) (inner : T → Piece S)
    (safe_write : SafeWrite T W) (modifier : FilePath → ℕ → FilePath) (path : FilePath) where
  -- The loop at index `i`, on fuel.
  unfoldable pub write_loop : ℕ → ℕ → List FilePath → Splitter S → W → Outcome S T W
  unfolding next
  write_loop zero i seen s w = out_of_fuel
  write_loop (suc fuel) i seen s w = elim (next read s).0 [
    | none ↦ finished [] none [] (next read s).1.r w
    | some piece ↦
        let next_path = clean (modifier path i) in
        let t = wrap next_path piece in
        let (err, (t', w')) = safe_write next_path t w in
        let rest = write_loop fuel (suc i) (next_path ∷ seen) (record s { r = (inner t').r }) w' in
        if seen_before next_path seen
        then finished [] (some (duplicate_name next_path)) [] (next read s).1.r w
        else elim err [
          | some e ↦ finished [] (some (write_failed e)) (t' ∷ []) (inner t').r w'
          | none ↦ push next_path t' rest
        ]
  ]

  -- `WriteSplitting`; `SplitReader` panics on the size 0.
  unfoldable pub write_splitting : ℕ → S → ℕ → W → Outcome S T W
  unfolding write_loop
  write_splitting fuel r size w =
      if size == 0
      then panic
      else write_loop fuel 0 [] (record { r = record { r = r; err = none }; size = size }) w
