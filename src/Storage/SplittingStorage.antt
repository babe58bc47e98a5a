-- ===== src/Storage/SplittingStorage.antt =====
-- storage/splitting.go: `SplittingStorage`, which writes contents in parts with a file of metadata,
-- and reads them back as one. `Backend` is what its two writers, Go's JSON and its hash give it; `W`
-- is the world, `F` an open file of metadata, `R` an open file of a part and `B` what JSON
-- makes of metadata.
pub mod Counts
pub mod RoundTrip
use musicbox.Prelude.{
  ℕ, ◌/◌, ◌%◌, ◌+◌, Bool, Option, none, some, List, [], ◌∷◌, ◌++◌, map, ltb, if◌then◌else◌,
}
use musicbox.Prelude.Codes.{codes}
use musicbox.Fsutil.Error.{Error}
use musicbox.Fsutil.Fs.{FilePath, Opened, opened, not_opened}
use musicbox.Fsutil.Path.{clean}
use musicbox.Stream.Reader.{Reader}
use musicbox.Storage.Splitter.{FusedReader, Piece, piece_read, Counted, counted_read}
use musicbox.Storage.WriteSplitting.{
  path_modifier_append_index, WriteError, write_failed, Outcome, finished, panic, out_of_fuel,
  SafeWrite, write_splitting,
}

pub record SplittedFileHash : Type 0 where
  pub path : FilePath
  pub size : ℕ
  pub hash_sum : List ℕ
  pub hash_algo : List ℕ

pub record SplittedFileMetadata : Type 0 where
  pub total : SplittedFileHash
  pub splitted : List SplittedFileHash

-- `crypto.Hash`: the sum of what was written to it, and its name.
pub record HashAlgo : Type 0 where
  pub sum : List ℕ → List ℕ
  pub name : List ℕ

-- `hex.EncodeToString`
hex_digit : ℕ → ℕ
hex_digit d = if ltb d 10 then b'0' + d else b'W' + d

hex : List ℕ → List ℕ
unfolding hex_digit
hex [] = []
hex (b ∷ bytes) = hex_digit (b / 16) ∷ hex_digit (b % 16) ∷ hex bytes

abbrev pub meta_suffix : FilePath
meta_suffix = codes ".meta.json"

pub record Backend (W F R B : Type 0) : Type 0 where
  pub open_meta : FilePath → W → (Option F × Option Error) × W
  pub decode_meta : F → W → Opened SplittedFileMetadata × W
  pub close_meta : F → W → W
  pub marshal : SplittedFileMetadata → B
  pub write_meta : FilePath → B → W → Option Error × W
  pub open_file : FilePath → W → Opened R × W
  pub close_file : R → W → W

-- A reader that the trapper makes: the piece, counted and hashed, with its path.
pub record SplittedDataSet (S : Type 0) : Type 0 where
  pub path : FilePath
  pub counted : Counted (Piece (Counted S))

pub data WriteOutcome (W : Type 0) : Type 0 where
  returned : List FilePath → Option WriteError → W → WriteOutcome W
  panicked no_fuel : WriteOutcome W

pub data ReadOutcome (R W : Type 0) : Type 0 where
  joined_files : List R → ℕ → W → ReadOutcome R W
  not_read : Error → W → ReadOutcome R W
  read_panicked : ReadOutcome R W

abbrev pub start_count : {S : Type 0} → S → Counted S
start_count s = record { inner = s; hashed = []; count = 0 }

abbrev pub trap : {S : Type 0} → FilePath → Piece (Counted S) → SplittedDataSet S
trap p piece = record { path = clean p; counted = start_count piece }

abbrev pub trapped_piece : {S : Type 0} → SplittedDataSet S → Piece (Counted S)
trapped_piece t = t.counted.inner

module _ {S : Type 0} (read_inner : Reader S) where
  -- Read of what the trapper makes.
  unfoldable pub data_set_read : Reader (SplittedDataSet S)
  unfolding counted_read piece_read
  data_set_read t n =
      let (got, counted) = counted_read (piece_read (counted_read read_inner)) t.counted n in
      (got, record t { counted = counted })

unfoldable pub hash_of : {S : Type 0} → HashAlgo → FilePath → Counted S → SplittedFileHash
unfolding hex
hash_of algo p c = record {
  path = p;
  size = c.count;
  hash_sum = hex (algo.sum c.hashed);
  hash_algo = algo.name;
}

-- `mapToSplittedFileHash`
unfoldable pub map_to_splitted_file_hash :
    {S : Type 0} → HashAlgo → List (SplittedDataSet S) → List SplittedFileHash
unfolding hash_of
map_to_splitted_file_hash algo [] = []
map_to_splitted_file_hash algo (set ∷ sets) =
    hash_of algo set.path set.counted ∷ map_to_splitted_file_hash algo sets

abbrev pub paths_of : List SplittedFileHash → List FilePath
paths_of [] = []
paths_of (s ∷ splitted) = s.path ∷ paths_of splitted

abbrev as_error : Option Error → Option WriteError
as_error none = none
as_error (some e) = some (write_failed e)

-- The modifier, where nil stands for PathModifierAppendIndex.
abbrev pub modifier : Option (FilePath → ℕ → FilePath) → FilePath → ℕ → FilePath
modifier none = path_modifier_append_index
modifier (some m) = m

unfoldable pub meta_of :
    {S : Type 0} → HashAlgo → FilePath → Counted S → List (SplittedDataSet S) → SplittedFileMetadata
unfolding hash_of map_to_splitted_file_hash
meta_of a path total sets = record {
  total = hash_of a path total;
  splitted = map_to_splitted_file_hash a sets;
}

module _ {S W F R B : Type 0} (backend : Backend W F R B) (algo : Option HashAlgo)
    (read_inner : Reader S) (safe_write : SafeWrite (SplittedDataSet S) W)
    (path_modifier : Option (FilePath → ℕ → FilePath)) (split_size : ℕ) where
  -- From the end of WriteSplitting on.
  write_metadata : HashAlgo → FilePath → Outcome (Counted S) (SplittedDataSet S) W → WriteOutcome W
  unfolding meta_of
  write_metadata a path panic = panicked
  write_metadata a path out_of_fuel = no_fuel
  write_metadata a path (finished paths (some e) sets r w) = returned paths (some e) w
  write_metadata a path (finished paths none sets r w) =
      let (err, w') =
        backend.write_meta (path ++ meta_suffix) (backend.marshal (meta_of a path r.r sets)) w in
      returned paths (as_error err) w'

  -- `SplittingStorage.Write` of contents that are new. Without a hash, `New` panics.
  unfoldable pub write_new : ℕ → FilePath → S → W → WriteOutcome W
  unfolding write_metadata
  write_new fuel path r w = elim algo [
    | none ↦ panicked
    | some a ↦ write_metadata a path (
        write_splitting (counted_read read_inner) trap trapped_piece safe_write
          (modifier path_modifier) path fuel (start_count r) split_size w)
  ]

  -- Of contents that are there: the names that the metadata lists.
  recorded_paths : FilePath → F → W → WriteOutcome W
  recorded_paths path f w =
      let (decoded, w') = backend.decode_meta f w in
      elim decoded [
        | opened meta ↦ returned (paths_of meta.splitted) none (backend.close_meta f w')
        | not_opened e ↦ returned [] (some (write_failed e)) (backend.close_meta f w')
      ]

  -- The three ways that Open of the metadata goes; a call on a nil file panics.
  write_opened_meta : ℕ → FilePath → S → (Option F × Option Error) × W → WriteOutcome W
  unfolding write_new recorded_paths
  write_opened_meta fuel path r ((some f, none), w) = recorded_paths path f w
  write_opened_meta fuel path r ((some f, some e), w) =
      write_new fuel path r (backend.close_meta f w)
  write_opened_meta fuel path r ((none, err), w) = panicked

  -- `SplittingStorage.Write`
  unfoldable pub write : ℕ → FilePath → S → W → WriteOutcome W
  unfolding write_opened_meta
  write fuel path r w =
      let path = clean path in
      write_opened_meta fuel path r (backend.open_meta (path ++ meta_suffix) w)

module _ {W F R B : Type 0} (backend : Backend W F R B) where
  -- `closable.Close`, whose error is ignored here.
  close_files : List R → W → W
  close_files [] w = w
  close_files (r ∷ rs) w = close_files rs (backend.close_file r w)

  -- The loop that opens the parts, in order; `opened_files` are those that are open.
  open_files : List R → List SplittedFileHash → ℕ → W → ReadOutcome R W
  unfolding close_files
  open_files opened_files [] size w = joined_files opened_files size w
  open_files opened_files (s ∷ splitted) size w =
      let (got, w') = backend.open_file s.path w in
      elim got [
        | opened r ↦ open_files (opened_files ++ (r ∷ [])) splitted size w'
        | not_opened e ↦ not_read e (close_files opened_files w')
      ]

  -- The deferred close of the metadata.
  after_close : F → ReadOutcome R W → ReadOutcome R W
  after_close f (joined_files rs size w) = joined_files rs size (backend.close_meta f w)
  after_close f (not_read e w) = not_read e (backend.close_meta f w)
  after_close f read_panicked = read_panicked

  -- From the open metadata on, which is closed before the parts are opened, and again at the end.
  read_parts : F → Opened SplittedFileMetadata × W → ReadOutcome R W
  unfolding open_files after_close
  read_parts f (not_opened e, w) = after_close f (not_read e (backend.close_meta f w))
  read_parts f (opened meta, w) =
      after_close f (open_files [] meta.splitted meta.total.size (backend.close_meta f w))

  read_opened_meta : (Option F × Option Error) × W → ReadOutcome R W
  unfolding read_parts
  read_opened_meta ((f, some e), w) = not_read e w
  read_opened_meta ((none, none), w) = read_panicked
  read_opened_meta ((some f, none), w) = read_parts f (backend.decode_meta f w)

  -- `SplittingStorage.Read`: the files whose joined contents are read, and their size.
  unfoldable pub read : FilePath → W → ReadOutcome R W
  unfolding read_opened_meta
  read path w = read_opened_meta (backend.open_meta (clean path ++ meta_suffix) w)
