-- ===== src/Stream/MultiReadAt.antt =====
-- stream/multi_read_closer.go: `multiReadAtSeekCloser`, sized readers joined into one reader.
pub mod Serve
pub mod Rounds
pub mod ReadAt
pub mod Read
pub mod Seek
pub mod ReadAll
mod Tests
use musicbox.Prelude.{
  ℕ, zero, suc, ◌+◌, ◌-◌, Bool, true, false, ◌&&◌, ◌||◌, Option, none, some, List, [], ◌++◌, ltb,
  ◌==◌, if◌then◌else◌, length, get_elem?, drop,
}
use musicbox.Prelude.Int64
use musicbox.Stream.Io.{
  Error, eof, unexpected_eof, invalid_size, bad_whence, bad_offset, wrap, ReadResult,
}
use musicbox.Stream.SizedReaders.{SizedReaderAt, TranslatedReaderAt, translate, search}

pub record MultiReadAtSeekCloser : Type 0 where
  pub idx : ℕ
  pub off : ℕ
  pub upper_limit : ℕ
  pub r : List TranslatedReaderAt

pub new_multi_read_at_seek_closer : List SizedReaderAt → MultiReadAtSeekCloser
unfolding translate
new_multi_read_at_seek_closer readers =
    let (translated, upper) = translate 0 readers in
    record { idx = 0; off = 0; upper_limit = upper; r = translated }

pub is_eof : Option Error → Bool
is_eof (some eof) = true
is_eof _ = false

-- `err != nil && err != io.EOF`
pub is_failure : Option Error → Bool
is_failure none = false
is_failure (some eof) = false
is_failure (some _) = true

-- The switch at the end of `Read` and of `readAt`: `more` is `len(r.r)-1 > i`.
pub settle : ℕ → Bool → ReadResult → ReadResult
unfolding is_eof
settle rem more (bytes, err) =
    if Int64.lt rem (length bytes)
    then (bytes, some (wrap "MultiReadAtSeekCloser.Read" invalid_size))
    else if is_eof err && (length bytes == 0 && Int64.lt 0 rem)
    then (bytes, some (wrap "MultiReadAtSeekCloser.Read" unexpected_eof))
    else if is_eof err && more
    then (bytes, none)
    else (bytes, err)

-- `readAt` once it has found its reader, at index `i`.
pub read_one_from : MultiReadAtSeekCloser → ℕ → ℕ → ℕ → TranslatedReaderAt → ReadResult
read_one_from m n off i rr =
    let reader_off = Int64.sub off rr.accum in
    let got = rr.sized.r n reader_off in
    if is_failure got.1
    then got
    else settle (Int64.sub rr.size reader_off) (ltb i (length m.r - 1)) got

-- `readAt`, which reads from the one reader that holds the offset.
pub read_one : MultiReadAtSeekCloser → ℕ → ℕ → ReadResult
read_one m n off =
    if Int64.lt off 0 || Int64.le m.upper_limit off then ([], some eof) else elim (search off m.r) [
      | none ↦ ([], some eof)
      | some i ↦ elim (get_elem? m.r i) [
        | none ↦ ([], some eof)
        | some rr ↦ read_one_from m n off i rr
      ]
    ]

-- How a call ends. `panic` is a slice or an index out of range.
pub data Outcome : Type 0 where
  returned : List ℕ → Option Error → Outcome
  panic out_of_fuel : Outcome

-- The loop of `ReadAt`: `done` is what it has read, `n` is `len(p)`.
pub read_at_loop : ℕ → MultiReadAtSeekCloser → Bool → List ℕ → ℕ → ℕ → Outcome
read_at_loop zero m max_exceeded done n off = out_of_fuel
read_at_loop (suc fuel) m max_exceeded done n off =
    let (bytes, err) = read_one m n off in
    let nn = length bytes in
    let rest = read_at_loop fuel m max_exceeded (done ++ bytes) (n - nn) (Int64.add off nn) in
    elim err [
      | some e ↦ returned (done ++ bytes) (some e)
      | none ↦
          if nn == n
          then returned (done ++ bytes) (if max_exceeded then some eof else none)
          else if ltb n nn
          then panic
          else rest
    ]

-- Each round but the last consumes a byte of the slice, so `n + 1` rounds are enough.
pub read_at : MultiReadAtSeekCloser → ℕ → ℕ → Outcome
read_at m n off =
    if Int64.lt off 0 || Int64.le m.upper_limit off
    then returned [] (some eof)
    else let max = Int64.sub m.upper_limit off in
      if Int64.lt max n
      then read_at_loop (max + 1) m true [] max off
      else read_at_loop (n + 1) m false [] n off

-- `if n > 0 || err == io.EOF { r.idx += i; r.off += int64(n) }`
pub advance : MultiReadAtSeekCloser → ℕ → ReadResult → MultiReadAtSeekCloser
advance m i (bytes, err) =
    if ltb 0 (length bytes) || is_eof err
    then record m { idx = m.idx + i; off = Int64.add m.off (length bytes) }
    else m

-- `Read` once it has found its reader, `i` places behind `idx`.
pub read_from : MultiReadAtSeekCloser → ℕ → ℕ → TranslatedReaderAt → Outcome × MultiReadAtSeekCloser
read_from m n i rr =
    let reader_off = Int64.sub m.off rr.accum in
    let got = rr.sized.r n reader_off in
    let m' = advance m i got in
    if is_failure got.1
    then (returned got.0 got.1, m')
    else let (bytes, err) =
        settle (Int64.sub rr.size reader_off) (ltb m'.idx (length m.r - 1)) got in
      (returned bytes err, m')

-- `Read`: `r.r[r.idx:]` and its element at `i` panic out of range.
pub read : MultiReadAtSeekCloser → ℕ → Outcome × MultiReadAtSeekCloser
read m n =
    if Int64.le m.upper_limit m.off
    then (returned [] (some eof), m)
    else if ltb (length m.r) m.idx
    then (panic, m)
    else elim (search m.off (drop m.idx m.r)) [
      | none ↦ (panic, m)
      | some i ↦ elim (get_elem? (drop m.idx m.r) i) [
        | none ↦ (panic, m)
        | some rr ↦ read_from m n i rr
      ]
    ]

-- The values of `io.SeekStart`, `io.SeekCurrent` and `io.SeekEnd`.
pub data Whence : Type 0 where
  seek_start seek_current seek_end : Whence
  unknown_whence : ℕ → Whence

-- The offset that `Seek` moves to, an int64 that may be negative.
pub seek_target : MultiReadAtSeekCloser → ℕ → Whence → Option ℕ
seek_target m offset seek_start = some offset
seek_target m offset seek_current = some (Int64.add offset m.off)
seek_target m offset seek_end = some (Int64.add offset m.upper_limit)
seek_target m offset (unknown_whence w) = none

-- The index that `Seek` sets: `none` is -1, on which a later `r.r[r.idx:]` panics. It is kept as
-- an index out of range.
pub index_or_out : Option ℕ → ℕ → ℕ
index_or_out none out = out
index_or_out (some i) out = i

-- `Seek`: the returned offset, and its error.
pub seek : MultiReadAtSeekCloser → ℕ → Whence → (ℕ × Option Error) × MultiReadAtSeekCloser
unfolding seek_target search index_or_out
seek m offset whence = elim (seek_target m offset whence) [
  | none ↦ ((0, some (wrap "Seek" bad_whence)), m)
  | some target ↦
      if Int64.lt target 0
      then ((0, some (wrap "Seek" (wrap "negative" bad_offset))), m)
      else if Int64.le m.upper_limit target
      then ((target, none), record m { idx = length m.r; off = target })
      else (
        (target, none),
        record m { idx = index_or_out (search target m.r) (length m.r + 1); off = target },
      )
]
