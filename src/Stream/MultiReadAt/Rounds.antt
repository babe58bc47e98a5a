-- ===== src/Stream/MultiReadAt/Rounds.antt =====
-- `readAt` and the rounds of the loop of `ReadAt`.
use musicbox.Prelude.{
  ℕ, zero, suc, ◌+◌, ◌-◌, ◌≤◌, ◌<◌, ◌≡◌, refl, sym, ap, ◌∙◌, Bool, false, ◌||◌, Option, none, some,
  List, ◌++◌, ◌⊎◌, inl, inr, arith, ltb, if◌then◌else◌, length, take, drop, drop-drop, take-add,
}
use mathlib.Core.List.{append_assoc}
use native.Mathlib.Decide.{dec_lt}
use musicbox.Prelude.Int64
use musicbox.Stream.Io.{Error, eof}
use musicbox.Stream.SizedReaders.Chain.{skip, end_of_reader}
use musicbox.Stream.SizedReaders.Search.{search-eq}
use musicbox.Stream.SizedReaders.Contents.{joined, Located, locate, total-eq-length}
use musicbox.Stream.MultiReadAt.{
  MultiReadAtSeekCloser, read_one, read_one_from, Outcome, returned, read_at_loop,
}
use musicbox.Stream.MultiReadAt.Serve.{Serves, got, no_failure, settle-got, Serves-got, IsJoined}

-- The guard of `readAt` and `ReadAt` passes exactly the offsets within the limit.
pub guard_passes :
    (off limit : ℕ)
    → off < limit
    → limit < Int64.sign_bit
    → (Int64.lt off 0 || Int64.le limit off) ≡ false
unfolding Int64.lt Int64.le
guard_passes off limit h k = ground arith

module _ (cs : List (List ℕ)) (m : MultiReadAtSeekCloser) (j : IsJoined cs m) (n off : ℕ) where
  located : off < length (joined cs) → Located 0 off cs m.r
  located h =
      locate 0 off cs m.r j.chain j.contents (omega arith)
        (omega (arith, total-eq-length cs m.r j.contents))

  read_one_from-Serves :
      (l : Located 0 off cs m.r)
      → off < length (joined cs)
      → Serves n off (joined cs) (read_one_from m n off (skip off m.r) l.reader)
  unfolding read_one_from got
  read_one_from-Serves l h =
      let bound = end_of_reader 0 (skip off m.r) m.r l.reader j.chain l.at in
      let whole = total-eq-length cs m.r j.contents in
      let here : Int64.sub off l.reader.accum ≡ off - l.reader.accum =
        Int64.sub_small off l.reader.accum l.from (omega (arith, j.small)) in
      rw
        (
          here,
          no_failure n off cs m.r l,
          settle-got n off cs m.r l (ltb (skip off m.r) (length m.r - 1)) (omega (arith, j.small)),
        )
        (Serves-got n off cs m.r l (omega arith))

  read_one-Serves : off < length (joined cs) → Serves n off (joined cs) (read_one m n off)
  unfolding read_one
  read_one-Serves h =
      let l = located h in
      let whole = total-eq-length cs m.r j.contents in
      let guard : (Int64.lt off 0 || Int64.le m.upper_limit off) ≡ false =
        guard_passes off m.upper_limit (omega (arith, j.limit)) (omega (arith, j.limit, j.small)) in
      rw
        (
          guard,
          search-eq 0 off m.r j.chain (omega (arith, j.small)) (omega arith) (omega arith),
          l.at,
        )
        (read_one_from-Serves l h)

-- How the loop of `ReadAt` ends: with all `n` bytes behind those it had, and io.EOF at most at the
-- end of the whole or where the slice had been cut.
pub record LoopEnds (exceeded : Bool) (done all : List ℕ) (n off : ℕ) (out : Outcome) : Type 0 where
  pub err : Option Error
  pub out_is : out ≡ returned (done ++ take n (drop off all)) err
  pub err_is :
      (err ≡ (if exceeded then some eof else none)) ⊎ ((err ≡ some eof) × (off + n ≡ length all))

-- A slice is its front, and the slice behind that.
slice_parts :
    (n off : ℕ) (front all : List ℕ)
    → front ≡ take (length front) (drop off all)
    → length front ≤ n
    → front ++ take (n - length front) (drop (off + length front) all) ≡ take n (drop off all)
slice_parts n off front all e h =
    ap (λ b. front ++ take (n - length front) b) (sym (drop-drop (length front) off all))
    ∙ ap (λ b. b ++ take (n - length front) (drop (length front) (drop off all))) e
    ∙ sym (take-add (length front) (n - length front) (drop off all))
    ∙ ap (λ i. take i (drop off all)) (omega arith)

-- The three ways of a round.
module _ (fuel : ℕ) (m : MultiReadAtSeekCloser) (exceeded : Bool) (done : List ℕ) (n off : ℕ) where
  round_fails :
      (e : Error)
      → (read_one m n off).1 ≡ some e
      → read_at_loop (suc fuel) m exceeded done n off
        ≡ returned (done ++ (read_one m n off).0) (some e)
  unfolding read_at_loop
  round_fails e h = ground arith

  round_fills :
      (read_one m n off).1 ≡ none
      → length (read_one m n off).0 ≡ n
      → read_at_loop (suc fuel) m exceeded done n off
        ≡ returned (done ++ (read_one m n off).0) (if exceeded then some eof else none)
  unfolding read_at_loop
  round_fills h k = ground arith

  round_goes_on :
      (read_one m n off).1 ≡ none
      → length (read_one m n off).0 < n
      → read_at_loop (suc fuel) m exceeded done n off
        ≡ read_at_loop fuel m exceeded
            (done ++ (read_one m n off).0)
            (n - length (read_one m n off).0)
            (Int64.add off (length (read_one m n off).0))
  unfolding read_at_loop
  round_goes_on h k = ground arith

module _ (cs : List (List ℕ)) (m : MultiReadAtSeekCloser) (j : IsJoined cs m) where
  pub LoopEnds-read_at_loop :
      (fuel : ℕ) (exceeded : Bool) (done : List ℕ) (n off : ℕ)
      → n < fuel
      → off < length (joined cs)
      → off + n ≤ length (joined cs)
      → LoopEnds exceeded done (joined cs) n off (read_at_loop fuel m exceeded done n off)
  unfolding read_at_loop
  LoopEnds-read_at_loop zero exceeded done n off f h k = absurd (omega arith)
  LoopEnds-read_at_loop (suc fuel) exceeded done n off f h k = elim s.ends [
    | inr (ended, at_end) ↦ record {
      err = some eof;
      out_is =
          round_fails fuel m exceeded done n off eof ended
          ∙ ap (λ b. returned (done ++ b) (some eof)) (all_of_it (omega (arith, at_end, s.bound)));
      err_is = inr (refl, omega (arith, at_end, s.bound, k));
    }
    | inl going ↦ elim (dec_lt (length bytes) n) [
      | no full ↦ record {
        err = if exceeded then some eof else none;
        out_is =
            round_fills fuel m exceeded done n off going (omega (arith, s.bound))
            ∙ ap (λ b. returned (done ++ b) (if exceeded then some eof else none))
                (all_of_it (omega (arith, s.bound)));
        err_is = inl refl;
      }
      | yes partial ↦
          let next =
            LoopEnds-read_at_loop fuel exceeded (done ++ bytes) (n - length bytes)
              (off + length bytes) (omega (arith, s.progress (omega arith))) (omega arith)
              (omega arith) in
          record {
            err = next.err;
            out_is =
                round_goes_on fuel m exceeded done n off going partial
                ∙ ap (read_at_loop fuel m exceeded (done ++ bytes) (n - length bytes))
                    (Int64.add_small off (length bytes) (omega (arith, j.small)))
                ∙ next.out_is
                ∙ ap (λ b. returned b next.err) (two_parts (omega arith));
            err_is = ground (arith, next.err_is);
          }
    ]
  ]
    where
      bytes : List ℕ
      bytes = (read_one m n off).0

      s : Serves n off (joined cs) (read_one m n off)
      s = read_one-Serves cs m j n off h

      all_of_it : length bytes ≡ n → bytes ≡ take n (drop off (joined cs))
      all_of_it e = s.prefix ∙ ap (λ i. take i (drop off (joined cs))) e

      two_parts :
          length bytes ≤ n
          → (done ++ bytes) ++ take (n - length bytes) (drop (off + length bytes) (joined cs))
            ≡ done ++ take n (drop off (joined cs))
      two_parts e =
          append_assoc done bytes _
          ∙ ap (λ b. done ++ b) (slice_parts n off bytes (joined cs) s.prefix e)
