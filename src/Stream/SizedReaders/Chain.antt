-- ===== src/Stream/SizedReaders/Chain.antt =====
-- Readers that lie end to end from an offset, and the number of those that end at or before one.
use musicbox.Prelude.{
  ℕ, zero, suc, ◌+◌, ◌≤◌, ◌<◌, ◌≡◌, true, ◌&&◌, some, List, [], ◌∷◌, arith, inl, inr, refl,
  Bool-cases, ltb, leb, if◌then◌else◌, length, get_elem?, drop, ap, true, zero,
}
use musicbox.Prelude.Int64
use musicbox.Stream.SizedReaders.{TranslatedReaderAt, before, here, after, holds_offset, compare_at}

abbrev pub Chain : ℕ → List TranslatedReaderAt → Type 0
Chain a [] = Unit {0}
Chain a (x ∷ xs) = (x.accum ≡ a) × Chain (a + x.size) xs

abbrev pub total : List TranslatedReaderAt → ℕ
total [] = 0
total (x ∷ xs) = x.size + total xs

-- How many leading readers end at or before `off`.
unfoldable pub skip : ℕ → List TranslatedReaderAt → ℕ
skip off [] = 0
skip off (x ∷ xs) = let rest = skip off xs in if leb (x.accum + x.size) off then suc rest else 0

pub holds_offset-small :
    (off : ℕ) (x : TranslatedReaderAt)
    → off < Int64.sign_bit
    → x.accum + x.size < Int64.sign_bit
    → holds_offset off x ≡ (leb x.accum off && ltb off (x.accum + x.size))
unfolding holds_offset Int64.le Int64.lt Int64.add
holds_offset-small off x h k = ground arith

pub compare_at-small :
    (off : ℕ) (x : TranslatedReaderAt)
    → off < Int64.sign_bit
    → x.accum + x.size < Int64.sign_bit
    → compare_at off (some x)
      ≡ (if ltb off x.accum then before else if ltb off (x.accum + x.size) then here else after)
unfolding compare_at Int64.lt
compare_at-small off x h k = ground (arith, holds_offset-small off x)

pub skip-le-length : (off : ℕ) (xs : List TranslatedReaderAt) → skip off xs ≤ length xs
unfolding skip
skip-le-length off [] = omega arith
skip-le-length off (x ∷ xs) = ground (arith, skip-le-length off xs)

-- An offset within the chain has a reader that is not skipped.
pub skip-lt-length :
    (a off : ℕ) (xs : List TranslatedReaderAt)
    → Chain a xs
    → off < a + total xs
    → a ≤ off
    → skip off xs < length xs
unfolding skip
skip-lt-length a off [] c h k = absurd (omega arith)
skip-lt-length a off (x ∷ xs) c h k = ground (arith, skip-lt-length (a + x.size) off xs c.1)

-- The reader at `skip` holds the offset.
pub get_elem?-skip :
    (a off : ℕ) (xs : List TranslatedReaderAt)
    → Chain a xs
    → off < a + total xs
    → a ≤ off
    → (x : TranslatedReaderAt) × (get_elem? xs (skip off xs) ≡ some x)
      × (x.accum ≤ off)
      × (off < x.accum + x.size)
unfolding skip
get_elem?-skip a off [] c h k = absurd (omega arith)
get_elem?-skip a off (x ∷ xs) c h k = elim (Bool-cases (leb (x.accum + x.size) off)) [
  | inl past ↦ rw past (get_elem?-skip (a + x.size) off xs c.1 (omega arith) (ground arith))
  | inr within ↦ rw within (x, refl, omega arith, ground arith)
]

-- Readers past the offset are not skipped.
pub skip_eq_zero :
    (a off : ℕ) (xs : List TranslatedReaderAt) → Chain a xs → off < a → skip off xs ≡ 0
unfolding skip
skip_eq_zero a off [] c h = refl
skip_eq_zero a off (x ∷ xs) c h = ground arith

-- Every reader of a chain ends within it, and starts at or behind its head.
pub end_of_reader :
    (a i : ℕ) (xs : List TranslatedReaderAt) (x : TranslatedReaderAt)
    → Chain a xs
    → get_elem? xs i ≡ some x
    → (a ≤ x.accum) × (x.accum + x.size ≤ a + total xs)
end_of_reader a i [] x c e = cc
end_of_reader a zero (y ∷ xs) x c e = ground arith
end_of_reader a (suc i) (y ∷ xs) x c e = ground (arith, end_of_reader (a + y.size) i xs x c.1 e)

-- At or behind the end of the chain every reader is skipped.
pub skip_eq_length :
    (a off : ℕ) (xs : List TranslatedReaderAt)
    → Chain a xs
    → a + total xs ≤ off
    → skip off xs ≡ length xs
unfolding skip
skip_eq_length a off [] c h = refl
skip_eq_length a off (x ∷ xs) c h = ground (arith, skip_eq_length (a + x.size) off xs c.1)

pub skip_mono : (off k : ℕ) (xs : List TranslatedReaderAt) → off ≤ k → skip off xs ≤ skip k xs
unfolding skip
skip_mono off k [] h = omega arith
skip_mono off k (x ∷ xs) h = ground (arith, skip_mono off k xs h)

-- What is left of a chain behind some readers that are skipped.
pub record Remaining (a off k : ℕ) (xs : List TranslatedReaderAt) : Type 0 where
  pub start : ℕ
  pub chain : Chain start (drop k xs)
  pub from : start ≤ off
  pub same_end : start + total (drop k xs) ≡ a + total xs
  pub skipped : k + skip off (drop k xs) ≡ skip off xs
  pub in_bounds : k ≤ length xs
  pub same_reader : (i : ℕ) → get_elem? (drop k xs) i ≡ get_elem? xs (k + i)

pub remaining :
    (a off k : ℕ) (xs : List TranslatedReaderAt)
    → Chain a xs
    → a ≤ off
    → k ≤ skip off xs
    → Remaining a off k xs
unfolding skip
remaining a off zero xs c h l = record {
  start = a;
  chain = c;
  from = h;
  same_end = refl;
  skipped = omega arith;
  in_bounds = omega arith;
  same_reader = λ i. ap (get_elem? xs) (omega arith);
}
remaining a off (suc k) [] c h l = absurd (omega arith)
remaining a off (suc k) (x ∷ xs) c h l =
    let past : leb (x.accum + x.size) off ≡ true = ground arith in
    let rest = remaining (a + x.size) off k xs c.1 (ground arith) (ground arith) in
    record {
      start = rest.start;
      chain = rest.chain;
      from = rest.from;
      same_end = omega (arith, rest.same_end);
      skipped = rw past (omega (arith, rest.skipped));
      in_bounds = omega (arith, rest.in_bounds);
      same_reader = λ i. let e : suc k + i ≡ suc (k + i) = omega arith in rw e (rest.same_reader i);
    }
