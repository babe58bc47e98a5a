-- ===== src/Lib.antt =====
-- Verification of the Go module family `musicbox`: readers joined into one, writing files and trees
-- safely, and helpers round docker compose.
--
-- The program's parts and how they interact. `stream` joins readers and makes them cancellable.
-- `fsutil` writes a file or a tree to a temporary name beside its destination and renames it there,
-- copies trees and compares them; its copies read through `stream`'s cancellable reader. `storage`
-- splits contents into files that `fsutil` writes and `stream` reads back as one. `compose` loads,
-- compares and drives projects of docker compose.
--
-- Which file models which part (paths from the repository's root):
-- - Prelude: numbers, lists and options that the parts share. Prelude/Int64 has Go's int64 as its
--   bit patterns, natural numbers below 2 ^ 64, with the wrap-around of its sums and differences and
--   the signed comparison. Prelude/Signed has Go's int where it may be negative, as ids of owners.
-- - Stream/SizedReaders, its children: stream/multi_read_closer.go, the offsets that
--   NewMultiReadAtSeekCloser adds up, `search` and `binarySearch`. A reader is its size and the
--   function ReadAt. SizedReaders/Chain says that readers lie end to end, SizedReaders/Contents that
--   they keep io.ReaderAt's contract on given contents.
-- - Stream/MultiReadAt, its children: Read, ReadAt and Seek of `multiReadAtSeekCloser`, specified by
--   slices of the joined contents. A panic of the code is a value of `Outcome`.
-- - Stream/MultiReadCloser: the two Close methods. Stream/MultiError: stream/multi_error.go.
--   Stream/Cancellable: stream/cancellable.go, as a state machine over calls.
-- - Fsutil/Error: fsutil/error.go. Fsutil/Action: steps that fail, and rules for what they ensure.
--   Fsutil/Fs: the file system of the package afero, a record of operations that the code is given.
-- - Fsutil/Once: `once` of fsutil/copy.go. Fsutil/Copy: `copyPath`, `CopyFsPath` and `CopyFS` there;
--   Copy/Lands says what the copies rely on and Copy/Walked what CopyFS of a tree does.
--   Fsutil/Equal: the comparisons of fsutil/equal.go. Equal/Trees: `Equal`, with the trees that it
--   takes for the same. Fsutil/Walk: Go's fs.WalkDir, as its documentation describes it, which CopyFS,
--   Equal and cleanTmp call. Fsutil/Tree: trees of files, to state what a file system has.
-- - Fsutil/Path, Fsutil/Text: what the code uses of Go's packages path and strings, and
--   `normalizePath`. Fsutil/Observable: fsutil/observable_fs.go, one clause for each method, which
--   Observable/Faithful compares with tables of the operations. Fsutil/TmpFile, Fsutil/OpenRandom:
--   the names of temporary files and the search for a free one, fsutil/safe_write.go. TmpFile/Clean:
--   `cleanTmp` and `CleanTmp` there, with TmpFile/Clean/Names for which files those remove.
-- - Fsutil/SafeWrite: `safeWrite` of that file, with its deferred function. SafeWrite/Atomic and
--   SafeWrite/Cleanup prove it over a file system with named laws, which Fsutil/Tests meets with a
--   file system of its own. SafeWrite/Processes, SafeWrite/Validated: the processes that the package
--   offers, with a check sum among them. Fsutil/CleanDir: fsutil/clean_dir.go.
-- - Stream/Reader, Stream/MultiReader: what the code uses of io.Reader, its contract, and
--   io.MultiReader. Storage/Splitter, Storage/WriteSplitting, Storage/SplittingStorage:
--   storage/splitting.go, the splitter and its pieces, WriteSplitting, and Write and Read of the
--   storage. There SafeWrite, the metadata's JSON, the hash and the opening of files are parameters;
--   Storage/Disk meets the laws with the `safeWrite` of Fsutil/SafeWrite.
-- - Storage/Contents: storage/copy_content.go. Storage/Prepare: storage/prepare.go. What Go's package
--   reflect says of a value is data there, a panic is an outcome, and CopyFS is a parameter.
-- - Compose/OutputLine, Compose/ParseInt, Compose/Output, its children: compose/service/output.go,
--   the decoder of docker compose's lines and ParseOutput. Compose/Service: compose/service/service.go,
--   over a store of the buffers and streams that services share; docker compose is a parameter.
--   Compose/Preload, Compose/Loader: compose/service/loader.go and loader_proxy.go; Preload/Files says
--   what is made of each file.
-- - Compose, its other children: compose/service/compare.go and filter_by_label.go, compose/controller.
--
-- Bounds and fuel. The loop of ReadAt has one round more than bytes asked for: each round but the
-- last consumes one. sort.Find halves its range, so the number of readers is enough. openRandom stops
-- after 10000 attempts and the loop's fuel is the attempts that are left. A uint32 has ten digits
-- at most, an int nineteen. The loop of WriteSplitting has one round for each piece, and is given more
-- rounds than the contents have bytes; io.Copy has as many. A walk's fuel bounds the depth of the
-- tree: the tree's height is enough, and a walk that had too little would end in a way of its own.
-- Slices have lengths below 2 ^ 63, as in Go.
--
-- Names are bytes, with the slash as separator and no volume names, as on Unix. Random numbers, the
-- answers of contexts, the file systems and the readers are parameters.
--
-- Not modelled: goroutines (no part starts any; the locks of compose guard whole methods), pools of
-- buffers (a buffer is reset or overwritten before it is read), logging, the texts of wrapped errors
-- beyond their message, changes of a tree by others while it is walked, the methods SafeWrite and
-- SafeWriteFs, which give safeWrite its copy, and the set-up of docker's cli.
pub mod Compose
pub mod Prelude
pub mod Storage
pub mod Stream
pub mod Fsutil
