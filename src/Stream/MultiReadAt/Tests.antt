-- ===== src/Stream/MultiReadAt/Tests.antt =====
-- Runs of the joined reader on small inputs, and its theorems at them.
use musicbox.Prelude.{
  ℕ, ◌+◌, ◌-◌, ◌<◌, ◌≤◌, ◌≡◌, ◌≢◌, refl, Option, none, some, List, [], ◌∷◌, ◌++◌, ◌⊎◌, ◌^◌, arith,
  ltb, leb, if◌then◌else◌, length, take, drop, take_all, drop_all,
}
use musicbox.Prelude.Int64
use musicbox.Stream.SizedReaders.Chain.{total}
use musicbox.Stream.Io.{Error, eof, ReaderAt}
use musicbox.Stream.SizedReaders.{
  SizedReaderAt, translate, search, linear_search, binary_search, holds_offset,
}
use musicbox.Stream.SizedReaders.Search.{binary_search-eq-linear_search}
use musicbox.Stream.SizedReaders.Contents.{IsReaderOf, joined, HasContents, translate-Chain}
use musicbox.Stream.MultiReadAt.{
  MultiReadAtSeekCloser, new_multi_read_at_seek_closer, returned, read_at, read, seek, read_at_loop,
  read_one, read_one_from, settle, is_failure, is_eof, index_or_out, seek_target, seek_start,
  seek_current,
}
use musicbox.Stream.MultiReadAt.ReadAt.{read_at-eq-slice}
use musicbox.Stream.MultiReadAt.Read.{IsAt, Reads, read-Reads}
use musicbox.Stream.MultiReadAt.ReadAll.{read_all, read_all-eq-drop}
use musicbox.Stream.MultiReadAt.Seek.{new-IsAt, seek-IsAt}

-- `ReadAt` of Go's bytes.Reader.
abbrev bytes_reader : List ℕ → ReaderAt
bytes_reader c n off =
    if leb (length c) off
    then ([], some eof)
    else (take n (drop off c), (if ltb (length c) (off + n) then some eof else none))

bytes_reader-bytes :
    (c : List ℕ) (n off : ℕ) → off ≤ length c → (bytes_reader c n off).0 ≡ take n (drop off c)
bytes_reader-bytes c n off h = ground (arith, drop_all off c, take_all {A = ℕ} n [])

IsReaderOf-bytes_reader : (c : List ℕ) → IsReaderOf c (bytes_reader c)
IsReaderOf-bytes_reader c = record {
  bytes = bytes_reader-bytes c;
  ends = λ n off h. ground arith;
  inside = λ n off h. ground arith;
  short = λ n off h k. ground arith;
}

abbrev texts : List (List ℕ)
texts = (1 ∷ 2 ∷ 3 ∷ []) ∷ [] ∷ (4 ∷ 5 ∷ []) ∷ []

abbrev sized : List ℕ → SizedReaderAt
sized c = record { r = bytes_reader c; size = length c }

abbrev readers : List SizedReaderAt
readers = sized (1 ∷ 2 ∷ 3 ∷ []) ∷ sized [] ∷ sized (4 ∷ 5 ∷ []) ∷ []

texts-HasContents : HasContents texts readers
texts-HasContents = (
  IsReaderOf-bytes_reader (1 ∷ 2 ∷ 3 ∷ []),
  refl,
  (IsReaderOf-bytes_reader [], refl, (IsReaderOf-bytes_reader (4 ∷ 5 ∷ []), refl, tt)),
)

abbrev fresh : MultiReadAtSeekCloser
fresh = new_multi_read_at_seek_closer readers

fresh-IsAt : IsAt texts fresh × (fresh.off ≡ 0)
fresh-IsAt = new-IsAt texts readers texts-HasContents (omega arith)

read_at_runs : read_at fresh 3 1 ≡ returned (2 ∷ 3 ∷ 4 ∷ []) none
unfolding new_multi_read_at_seek_closer translate read_at read_at_loop read_one read_one_from search
    settle is_failure is_eof Int64.add Int64.sub Int64.lt Int64.le holds_offset
read_at_runs = refl

read_at-eq-slice_example :
    (err : Option Error) × (read_at fresh 3 1 ≡ returned (take 3 (drop 1 (joined texts))) err)
    × (length (joined texts) < 1 + 3 → err ≡ some eof)
    × (1 + 3 < length (joined texts) → err ≡ none)
    × ((err ≡ none) ⊎ (err ≡ some eof))
read_at-eq-slice_example =
    read_at-eq-slice texts fresh fresh-IsAt.0.parts 3 1 (omega arith) (omega arith)

read-Reads_example : Reads texts fresh 2 (read fresh 2)
read-Reads_example = read-Reads texts fresh 2 fresh-IsAt.0 (omega (arith, fresh-IsAt.1))

read_all-eq-drop_example :
    read_all 100 (λ _. 2) fresh [] ≡ returned ([] ++ drop fresh.off (joined texts)) none
read_all-eq-drop_example =
    read_all-eq-drop texts (λ _. 2) (λ _. omega arith) 100 fresh [] fresh-IsAt.0
      (omega (arith, fresh-IsAt.1))

new-IsAt_example : IsAt texts fresh × (fresh.off ≡ 0)
new-IsAt_example = new-IsAt texts readers texts-HasContents (omega arith)

-- 4 from the start, in the last reader.
seek-IsAt_example :
    ((seek fresh 4 seek_start).0 ≡ (4, none))
    × ((seek fresh 4 seek_start).1.off ≡ 4)
    × IsAt texts (seek fresh 4 seek_start).1
seek-IsAt_example = seek-IsAt texts fresh 4 seek_start 4 fresh-IsAt.0 seeks_to_four (omega arith)
  where
    seeks_to_four : seek_target fresh 4 seek_start ≡ some 4
    seeks_to_four = unfold seek_target in refl

-- A step of 2 ^ 63 - 1 from behind the head wraps to a negative offset, which is refused.
seek_wraps : (seek (seek fresh 4 seek_start).1 (2 ^ 63 - 1) seek_current).0.1 ≢ none
unfolding new_multi_read_at_seek_closer translate seek seek_target search index_or_out Int64.add
    Int64.lt Int64.le
seek_wraps h = cc h

binary_search-eq-linear_search_example :
    binary_search 3 (translate 0 readers).0 ≡ linear_search 0 3 (translate 0 readers).0
binary_search-eq-linear_search_example =
    binary_search-eq-linear_search 0 3 (translate 0 readers).0
      (translate-Chain 0 texts readers texts-HasContents (omega arith)).0 readers_small
      (omega arith) (omega arith)
  where
    readers_small : 0 + total (translate 0 readers).0 < Int64.sign_bit
    readers_small = unfold translate Int64.add in omega arith
