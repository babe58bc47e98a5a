-- ===== src/Stream/SizedReaders/Search.antt =====
-- The two searches find the same reader, the first that is not skipped.
use musicbox.Prelude.{
  ℕ, zero, suc, ◌+◌, ◌-◌, ◌/◌, ◌≤◌, ◌<◌, ◌≡◌, ap, ◌∙◌, none, some, List, [], ◌∷◌, arith, ltb,
  if◌then◌else◌, length, get_elem?,
}
use musicbox.Prelude.Int64
use musicbox.Stream.SizedReaders.{
  TranslatedReaderAt, Comparison, here, compare_at, is_after, linear_search, find_loop, find,
  binary_search, search,
}
use musicbox.Stream.SizedReaders.Chain.{
  Chain, total, skip, holds_offset-small, compare_at-small, skip-le-length, skip-lt-length,
  get_elem?-skip, skip_eq_zero, end_of_reader, skip_eq_length,
}

linear_search-eq-skip :
    (i a off : ℕ) (xs : List TranslatedReaderAt)
    → Chain a xs
    → a + total xs < Int64.sign_bit
    → a ≤ off
    → off < Int64.sign_bit
    → linear_search i off xs ≡ (if ltb off (a + total xs) then some (i + skip off xs) else none)
unfolding linear_search skip
linear_search-eq-skip i a off [] c s h k = ground arith
linear_search-eq-skip i a off (x ∷ xs) c s h k =
    ground (arith, holds_offset-small off x, linear_search-eq-skip (i + 1) (a + x.size) off xs c.1)

-- The comparison is `after` exactly at the skipped readers.
is_after-compare_at :
    (h a off : ℕ) (xs : List TranslatedReaderAt)
    → Chain a xs
    → a + total xs < Int64.sign_bit
    → off < Int64.sign_bit
    → h < length xs
    → is_after (compare_at off (get_elem? xs h)) ≡ ltb h (skip off xs)
unfolding skip
is_after-compare_at h a off [] c s k l = absurd (omega arith)
is_after-compare_at zero a off (x ∷ xs) c s k l = ground (arith, compare_at-small off x)
is_after-compare_at (suc h) a off (x ∷ xs) c s k l =
    ground
      (arith, is_after-compare_at h (a + x.size) off xs c.1, skip_eq_zero (a + x.size) off xs c.1)

-- `sort.Find` lands on the least index at which the comparison is not `after`.
find_loop-eq :
    (fuel p i j : ℕ) (cmp : ℕ → Comparison)
    → ((h : ℕ) → h < j → is_after (cmp h) ≡ ltb h p)
    → i ≤ p
    → p ≤ j
    → j - i ≤ fuel
    → find_loop fuel cmp i j ≡ some p
unfolding find_loop
find_loop-eq zero p i j cmp t h k f = ground arith
find_loop-eq (suc fuel) p i j cmp t h k f = ground (
  arith,
  t ((i + j) / 2),
  find_loop-eq fuel p ((i + j) / 2 + 1) j cmp t,
  find_loop-eq fuel p i ((i + j) / 2) cmp (λ m l. t m (omega arith)),
)

find-eq :
    (n p : ℕ) (cmp : ℕ → Comparison)
    → find_loop n cmp 0 n ≡ some p
    → p < n
    → cmp p ≡ here
    → find n cmp ≡ some p
unfolding find
find-eq n p cmp e h k = ground arith

find-none : (n : ℕ) (cmp : ℕ → Comparison) → find_loop n cmp 0 n ≡ some n → find n cmp ≡ none
unfolding find
find-none n cmp e = ground arith

module _ (a off : ℕ) (xs : List TranslatedReaderAt) (c : Chain a xs) where
  pub linear_search-eq :
      a + total xs < Int64.sign_bit
      → a ≤ off
      → off < a + total xs
      → linear_search 0 off xs ≡ some (skip off xs)
  linear_search-eq s h k = ground (arith, linear_search-eq-skip 0 a off xs c)

  here_at_skip :
      a + total xs < Int64.sign_bit
      → a ≤ off
      → off < a + total xs
      → compare_at off (get_elem? xs (skip off xs)) ≡ here
  here_at_skip s h k =
      let (x, at, lo, hi) = get_elem?-skip a off xs c k h in
      rw at (ground (arith, compare_at-small off x, end_of_reader a (skip off xs) xs x c at))

  pub binary_search-eq :
      a + total xs < Int64.sign_bit
      → a ≤ off
      → off < a + total xs
      → binary_search off xs ≡ some (skip off xs)
  unfolding binary_search
  binary_search-eq s h k =
      find-eq (length xs) (skip off xs) _
        (find_loop-eq (length xs) (skip off xs) 0 (length xs) _
          (λ i l. is_after-compare_at i a off xs c s (omega arith) l) (omega arith)
          (skip-le-length off xs) (omega arith))
        (skip-lt-length a off xs c k h) (here_at_skip s h k)

  -- On either side of the threshold the search finds the reader that holds the offset.
  pub search-eq :
      a + total xs < Int64.sign_bit
      → a ≤ off
      → off < a + total xs
      → search off xs ≡ some (skip off xs)
  unfolding search
  search-eq s h k = ground (arith, linear_search-eq s h k, binary_search-eq s h k)

  binary_search_past :
      a + total xs < Int64.sign_bit
      → off < Int64.sign_bit
      → a + total xs ≤ off
      → binary_search off xs ≡ none
  unfolding binary_search
  binary_search_past s o h = find-none (length xs) _ (
      find_loop-eq (length xs) (length xs) 0 (length xs) _
        (λ i l. is_after-compare_at i a off xs c s o l ∙ ap (ltb i) (skip_eq_length a off xs c h))
        (omega arith) (omega arith) (omega arith))

  -- For readers that lie end to end, of any number and with empty ones among them, `sort.Find`
  -- and the loop of `search` give the same answer at every offset from the head on.
  pub binary_search-eq-linear_search :
      a + total xs < Int64.sign_bit
      → a ≤ off
      → off < Int64.sign_bit
      → binary_search off xs ≡ linear_search 0 off xs
  binary_search-eq-linear_search s h o =
      ground
        (arith, linear_search-eq-skip 0 a off xs c, binary_search-eq s h, binary_search_past s o)
