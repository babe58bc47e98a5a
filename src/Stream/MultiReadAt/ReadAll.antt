-- ===== src/Stream/MultiReadAt/ReadAll.antt =====
-- Go's io.ReadAll over the joined reader: `Read` again and again until io.EOF.
use mathlib.Core.List.{append_assoc}
use native.Mathlib.Decide.{dec_lt}
use musicbox.Prelude.{
  ℕ, zero, suc, ◌+◌, ◌-◌, ◌<◌, ◌≡◌, sym, ap, ◌∙◌, none, some, List, [], ◌++◌, inl, inr, arith,
  length, take, drop, drop-drop, take_all, length-drop, drop_all, take-append-drop,
}
use musicbox.Stream.Io.{eof}
use musicbox.Stream.SizedReaders.Contents.{joined}
use musicbox.Stream.MultiReadAt.{MultiReadAtSeekCloser, Outcome, returned, out_of_fuel, read}
use musicbox.Stream.MultiReadAt.Read.{IsAt, read-Reads, read_past}

-- The loop of io.ReadAll, on fuel. The length of the free part of its buffer is any number, which
-- may differ from round to round; `done` is what was read.
pub read_all : ℕ → (ℕ → ℕ) → MultiReadAtSeekCloser → List ℕ → Outcome
read_all zero size m done = out_of_fuel
read_all (suc fuel) size m done =
    let (out, m') = read m (size fuel) in
    elim out [
      | returned bytes none ↦ read_all fuel size m' (done ++ bytes)
      | returned bytes (some eof) ↦ returned (done ++ bytes) none
      | returned bytes err ↦ returned (done ++ bytes) err
      | other ↦ other
    ]

module _ (fuel : ℕ) (size : ℕ → ℕ) (m : MultiReadAtSeekCloser) (done bytes : List ℕ) where
  goes_on :
      (read m (size fuel)).0 ≡ returned bytes none
      → read_all (suc fuel) size m done ≡ read_all fuel size (read m (size fuel)).1 (done ++ bytes)
  unfolding read_all
  goes_on h = rw (h, read_all)

  stops :
      (read m (size fuel)).0 ≡ returned bytes (some eof)
      → read_all (suc fuel) size m done ≡ returned (done ++ bytes) none
  unfolding read_all
  stops h = rw (h, read_all)

module _ (cs : List (List ℕ)) (size : ℕ → ℕ) (positive : (i : ℕ) → 0 < size i) where
  -- From any state that the invariant allows, io.ReadAll ends without an error and returns all that
  -- is left behind the offset, whatever the sizes of its buffers.
  pub read_all-eq-drop :
      (fuel : ℕ) (m : MultiReadAtSeekCloser) (done : List ℕ)
      → IsAt cs m
      → length (joined cs) - m.off + 1 < fuel
      → read_all fuel size m done ≡ returned (done ++ drop m.off (joined cs)) none
  read_all-eq-drop zero m done at f = absurd (omega arith)
  read_all-eq-drop (suc fuel) m done at f = elim (dec_lt m.off (length (joined cs))) [
    | no past ↦
        stops fuel size m done [] (ap (λ p. p.0) (read_past cs m (size fuel) at (omega arith)))
        ∙ ap (λ b. returned (done ++ b) none) (sym (drop_all m.off (joined cs) (omega arith)))
    | yes within ↦
        let r = read-Reads cs m (size fuel) at within in
        let more = r.serves.progress (positive fuel) in
        elim r.serves.ends [
          | inl going ↦
              goes_on fuel size m done r.got.0 (r.out_is ∙ ap (returned r.got.0) going)
              ∙ read_all-eq-drop fuel (read m (size fuel)).1 (done ++ r.got.0) r.keeps
                  (omega (arith, r.moved))
              ∙ ap (λ k. returned ((done ++ r.got.0) ++ drop k (joined cs)) none) r.moved
              ∙ ap (λ b. returned b none)
                  (append_assoc done r.got.0 _
                    ∙ ap (λ b. done ++ b) (front_and_rest r.got.0 m.off r.serves.prefix))
          | inr (ended, at_end) ↦
              stops fuel size m done r.got.0 (r.out_is ∙ ap (returned r.got.0) ended)
              ∙ ap (λ b. returned (done ++ b) none)
                  (r.serves.prefix
                    ∙ take_all (length r.got.0) (drop m.off (joined cs))
                        (omega (arith, length-drop m.off (joined cs))))
        ]
  ]
    where
      front_and_rest :
          (front : List ℕ) (off : ℕ)
          → front ≡ take (length front) (drop off (joined cs))
          → front ++ drop (off + length front) (joined cs) ≡ drop off (joined cs)
      front_and_rest front off e =
          ap (λ b. front ++ b) (sym (drop-drop (length front) off (joined cs)))
          ∙ ap (λ b. b ++ drop (length front) (drop off (joined cs))) e
          ∙ take-append-drop (length front) (drop off (joined cs))
