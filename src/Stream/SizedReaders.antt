-- ===== src/Stream/SizedReaders.antt =====
-- stream/multi_read_closer.go: sized readers laid end to end, and the search for the reader that
-- holds an offset. Offsets and sizes are int64 bit patterns (Prelude/Int64.antt); indices and slice
-- lengths are Go ints that are never negative, so plain numbers.
pub mod Chain
pub mod Search
pub mod Contents
use musicbox.Prelude.{
  ℕ, zero, suc, ◌+◌, ◌/◌, Bool, true, false, ◌&&◌, Option, none, some, List, [], ◌∷◌, ltb,
  if◌then◌else◌, length, get_elem?,
}
use musicbox.Prelude.Int64
use musicbox.Stream.Io.{ReaderAt}

pub record SizedReaderAt : Type 0 where
  pub r : ReaderAt
  pub size : ℕ

-- `sizedReaderAt`: a sized reader with its offset from the head of the readers.
pub record TranslatedReaderAt : Type 0 where
  pub sized : SizedReaderAt
  pub open sized use *
  pub accum : ℕ

-- The loop of `NewMultiReadAtSeekCloser`: the translated readers, and the final `accum`.
unfoldable pub translate : ℕ → List SizedReaderAt → List TranslatedReaderAt × ℕ
translate accum [] = ([], accum)
translate accum (rr ∷ readers) =
    let (translated, upper) = translate (Int64.add accum rr.size) readers in
    (record { sized = rr; accum = accum } ∷ translated, upper)

abbrev pub search_threshold : ℕ
search_threshold = 32

-- `rr.accum <= off && off < rr.accum+rr.Size`
unfoldable pub holds_offset : ℕ → TranslatedReaderAt → Bool
holds_offset off rr = Int64.le rr.accum off && Int64.lt off (Int64.add rr.accum rr.size)

-- The loop of `search`, from index `i` on; `none` stands for -1.
unfoldable pub linear_search : ℕ → ℕ → List TranslatedReaderAt → Option ℕ
linear_search i off [] = none
linear_search i off (rr ∷ readers) =
    let rest = linear_search (i + 1) off readers in if holds_offset off rr then some i else rest

-- The result of the comparison that `sort.Find` is given.
pub data Comparison : Type 0 where
  before here after : Comparison

unfoldable pub compare_at : ℕ → Option TranslatedReaderAt → Comparison
compare_at off none = before
compare_at off (some rr) =
    if Int64.lt off rr.accum then before else if holds_offset off rr then here else after

abbrev pub is_after : Comparison → Bool
is_after after = true
is_after _ = false

abbrev pub is_here : Comparison → Bool
is_here here = true
is_here _ = false

-- `sort.Find`: the loop `for i < j`, on fuel (`none` when it runs out), and its final test.
unfoldable pub find_loop : ℕ → (ℕ → Comparison) → ℕ → ℕ → Option ℕ
find_loop zero cmp i j = if ltb i j then none else some i
find_loop (suc fuel) cmp i j =
    let h = (i + j) / 2 in
    let right = find_loop fuel cmp (h + 1) j in
    let left = find_loop fuel cmp i h in
    if ltb i j then (if is_after (cmp h) then right else left) else some i

unfoldable pub find : ℕ → (ℕ → Comparison) → Option ℕ
unfolding find_loop
find n cmp = elim (find_loop n cmp 0 n) [
  | none ↦ none
  | some i ↦ if ltb i n && is_here (cmp i) then some i else none
]

unfoldable pub binary_search : ℕ → List TranslatedReaderAt → Option ℕ
unfolding find compare_at
binary_search off readers = find (length readers) (λ i. compare_at off (get_elem? readers i))

unfoldable pub search : ℕ → List TranslatedReaderAt → Option ℕ
unfolding binary_search linear_search
search off readers =
    if ltb search_threshold (length readers)
    then binary_search off readers
    else linear_search 0 off readers
