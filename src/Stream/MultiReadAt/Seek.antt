-- ===== src/Stream/MultiReadAt/Seek.antt =====
-- `Seek` moves to any offset from 0 on, and establishes the invariant that `Read` keeps.
use native.Mathlib.Decide.{dec_lt}
use musicbox.Prelude.{
  le→ltb_false, le→leb, lt→leb_false, ℕ, ◌≤◌, ◌<◌, ◌≡◌, refl, ◌∙◌, true, false, none, some, List,
  ◌≢◌, ◌↔◌, Bool-cases, Option-cases, inl, inr, arith, length,
}
use musicbox.Prelude.Int64
use musicbox.Stream.Io.{Error}
use musicbox.Stream.SizedReaders.{SizedReaderAt, search}
use musicbox.Stream.SizedReaders.Chain.{skip}
use musicbox.Stream.SizedReaders.Search.{search-eq}
use musicbox.Stream.SizedReaders.Contents.{joined, HasContents, total-eq-length, translate-Chain}
use musicbox.Stream.MultiReadAt.{
  MultiReadAtSeekCloser, new_multi_read_at_seek_closer, Whence, seek_target, index_or_out, seek,
}
use musicbox.Stream.MultiReadAt.Read.{IsAt}

module _ (cs : List (List ℕ)) (xs : List SizedReaderAt) (has : HasContents cs xs) where
  -- A new joined reader stands at the head of its contents.
  pub new-IsAt :
      length (joined cs) < Int64.sign_bit
      → IsAt cs (new_multi_read_at_seek_closer xs) × ((new_multi_read_at_seek_closer xs).off ≡ 0)
  unfolding new_multi_read_at_seek_closer
  new-IsAt h =
      let t = translate-Chain 0 cs xs has (omega arith) in
      (
        record {
          parts = record { chain = t.0; contents = t.1; limit = t.2 ∙ omega arith; small = h };
          off_small = omega arith;
          behind = λ _. omega arith;
        },
        refl,
      )

module _ (cs : List (List ℕ)) (m : MultiReadAtSeekCloser) (offset : ℕ) (whence : Whence)
    (target : ℕ) (at : IsAt cs m) (aims : seek_target m offset whence ≡ some target) where
  seek_past :
      length (joined cs) ≤ target
      → target < Int64.sign_bit
      → seek m offset whence ≡ ((target, none), record m { idx = length m.r; off = target })
  unfolding seek
  seek_past h k =
      let negative : Int64.lt target 0 ≡ false =
        Int64.lt_small target 0 k (omega arith) ∙ le→ltb_false target 0 (omega arith) in
      let behind : Int64.le m.upper_limit target ≡ true =
        Int64.le_small m.upper_limit target (omega (arith, at.parts.limit, at.parts.small)) k
        ∙ le→leb m.upper_limit target (omega (arith, at.parts.limit)) in
      rw (aims, seek, negative, behind)

  seek_within :
      target < length (joined cs)
      → seek m offset whence ≡ ((target, none), record m { idx = skip target m.r; off = target })
  unfolding seek index_or_out
  seek_within h =
      let k : target < Int64.sign_bit = omega (arith, at.parts.small) in
      let negative : Int64.lt target 0 ≡ false =
        Int64.lt_small target 0 k (omega arith) ∙ le→ltb_false target 0 (omega arith) in
      let behind : Int64.le m.upper_limit target ≡ false =
        Int64.le_small m.upper_limit target (omega (arith, at.parts.limit, at.parts.small)) k
        ∙ lt→leb_false m.upper_limit target (omega (arith, at.parts.limit)) in
      let whole = total-eq-length cs m.r at.parts.contents in
      let found : search target m.r ≡ some (skip target m.r) =
        search-eq 0 target m.r at.parts.chain (omega (arith, at.parts.small)) (omega arith)
          (omega arith) in
      rw (aims, seek, negative, behind, found)

  moved-IsAt :
      (i : ℕ)
      → target < Int64.sign_bit
      → (target < length (joined cs) → i ≤ skip target m.r)
      → IsAt cs (record m { idx = i; off = target })
  moved-IsAt i h k = record {
    parts = record {
      chain = at.parts.chain;
      contents = at.parts.contents;
      limit = at.parts.limit;
      small = at.parts.small;
    };
    off_small = h;
    behind = k;
  }

  -- A target that is not negative is where the reader stands afterwards, also behind the end, and
  -- the invariant of `Read` holds there.
  pub seek-IsAt :
      target < Int64.sign_bit
      → ((seek m offset whence).0 ≡ (target, none))
        × ((seek m offset whence).1.off ≡ target)
        × IsAt cs (seek m offset whence).1
  seek-IsAt h = elim (dec_lt target (length (joined cs))) [
    | no past ↦
        rw (seek_past (omega arith) h)
          (refl, refl, moved-IsAt (length m.r) h (λ k. absurd (omega arith)))
    | yes within ↦
        rw (seek_within within) (refl, refl, moved-IsAt (skip target m.r) h (λ k. omega arith))
  ]

-- A `Seek` that fails leaves the reader as it was.
pub seek_failed :
    (m : MultiReadAtSeekCloser) (offset : ℕ) (whence : Whence) (e : Error)
    → (seek m offset whence).0.1 ≡ some e
    → ((seek m offset whence).1 ≡ m) × ((seek m offset whence).0.0 ≡ 0)
unfolding seek
seek_failed m offset whence e h = ground arith

-- `Seek` fails exactly on an unknown whence and on a target that is negative as an int64.
pub seek_fails_iff :
    (m : MultiReadAtSeekCloser) (offset : ℕ) (whence : Whence)
    → ((seek m offset whence).0.1 ≢ none)
      ↔ ((target : ℕ) → seek_target m offset whence ≡ some target → Int64.lt target 0 ≡ true)
unfolding seek
seek_fails_iff m offset whence = elim (Option-cases (seek_target m offset whence)) [
  | inl unknown ↦ (λ f t e. cc, λ f e. ground (arith, unknown))
  | inr (target, known) ↦ (
    λ f t e. elim (Bool-cases (Int64.lt t 0)) [
      | inl negative ↦ negative
      | inr fine ↦ absurd (f (ground arith))
    ],
    λ f e. ground (arith, f target known),
  )
]
