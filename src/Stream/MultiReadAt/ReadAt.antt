-- ===== src/Stream/MultiReadAt/ReadAt.antt =====
-- `ReadAt` reads from the joined contents, across the bounds between readers.
use musicbox.Prelude.{
  ℕ, ◌+◌, ◌-◌, ◌≤◌, ◌<◌, ◌≡◌, refl, sym, ◌∙◌, take_all, drop_all, length-drop, le→ltb_false, true,
  false, ◌||◌, Option, none, some, List, [], ◌⊎◌, inr, arith, lt→ltb, length, take, drop,
}
use mathlib.Core.Path.{ap₂}
use native.Mathlib.Decide.{dec_lt}
use musicbox.Prelude.Int64
use musicbox.Stream.Io.{Error, eof}
use musicbox.Stream.SizedReaders.Contents.{joined}
use musicbox.Stream.MultiReadAt.{MultiReadAtSeekCloser, returned, read_at_loop, read_at}
use musicbox.Stream.MultiReadAt.Serve.{IsJoined}
use musicbox.Stream.MultiReadAt.Rounds.{guard_passes, LoopEnds-read_at_loop}

guard_stops :
    (off limit : ℕ)
    → limit ≤ off
    → off < Int64.sign_bit
    → (Int64.lt off 0 || Int64.le limit off) ≡ true
unfolding Int64.lt Int64.le
guard_stops off limit h k = ground arith

module _ (cs : List (List ℕ)) (m : MultiReadAtSeekCloser) (j : IsJoined cs m) (n off : ℕ) where
  read_at_cut :
      off < length (joined cs)
      → n < Int64.sign_bit
      → length (joined cs) < off + n
      → read_at m n off ≡ returned (take n (drop off (joined cs))) (some eof)
  unfolding read_at
  read_at_cut h k l =
      let guard : (Int64.lt off 0 || Int64.le m.upper_limit off) ≡ false =
        guard_passes off m.upper_limit (omega (arith, j.limit)) (omega (arith, j.limit, j.small)) in
      let max : Int64.sub m.upper_limit off ≡ length (joined cs) - off =
        Int64.sub_small m.upper_limit off (omega (arith, j.limit)) (omega (arith, j.limit, j.small))
        ∙ omega (arith, j.limit) in
      let longer : Int64.lt (length (joined cs) - off) n ≡ true =
        Int64.lt_small (length (joined cs) - off) n (omega (arith, j.small)) k
        ∙ lt→ltb (length (joined cs) - off) n (omega arith) in
      let run =
        LoopEnds-read_at_loop cs m j (length (joined cs) - off + 1) true []
          (length (joined cs) - off) off (omega arith) h (omega arith) in
      rw (guard, max, longer)
        (run.out_is
          ∙ ap₂ returned
              (take_all _ _ whole ∙ sym (take_all n (drop off (joined cs)) (omega (arith, whole))))
              (ground (arith, run.err_is)))
    where
      whole : length (drop off (joined cs)) ≤ length (joined cs) - off
      whole = omega (arith, length-drop off (joined cs))

  read_at_fits :
      off < length (joined cs)
      → off + n ≤ length (joined cs)
      → (err : Option Error) × (read_at m n off ≡ returned (take n (drop off (joined cs))) err)
        × ((err ≡ none) ⊎ ((err ≡ some eof) × (off + n ≡ length (joined cs))))
  unfolding read_at
  read_at_fits h l =
      let guard : (Int64.lt off 0 || Int64.le m.upper_limit off) ≡ false =
        guard_passes off m.upper_limit (omega (arith, j.limit)) (omega (arith, j.limit, j.small)) in
      let max : Int64.sub m.upper_limit off ≡ length (joined cs) - off =
        Int64.sub_small m.upper_limit off (omega (arith, j.limit)) (omega (arith, j.limit, j.small))
        ∙ omega (arith, j.limit) in
      let shorter : Int64.lt (length (joined cs) - off) n ≡ false =
        Int64.lt_small (length (joined cs) - off) n (omega (arith, j.small))
          (omega (arith, j.small))
        ∙ le→ltb_false (length (joined cs) - off) n (omega arith) in
      let start : read_at m n off ≡ read_at_loop (n + 1) m false [] n off =
        rw (guard, max, shorter) in
      let run = LoopEnds-read_at_loop cs m j (n + 1) false [] n off (omega arith) h l in
      (run.err, start ∙ run.out_is, run.err_is)

  read_at_past :
      length (joined cs) ≤ off
      → off < Int64.sign_bit
      → read_at m n off ≡ returned (take n (drop off (joined cs))) (some eof)
  unfolding read_at
  read_at_past h k = rw (
    guard_stops off m.upper_limit (omega (arith, j.limit)) k,
    drop_all off (joined cs) h,
    take_all {A = ℕ} n [] (omega arith),
  )

  -- Reading at an offset of the joined reader is reading the slice of the joined contents, with
  -- io.EOF as io.ReaderAt has it: always when the slice is cut short, never when bytes are left.
  pub read_at-eq-slice :
      n < Int64.sign_bit
      → off < Int64.sign_bit
      → (err : Option Error) × (read_at m n off ≡ returned (take n (drop off (joined cs))) err)
        × (length (joined cs) < off + n → err ≡ some eof)
        × (off + n < length (joined cs) → err ≡ none)
        × ((err ≡ none) ⊎ (err ≡ some eof))
  read_at-eq-slice h k = elim (dec_lt off (length (joined cs))) [
    | no past ↦
        (some eof, read_at_past (omega arith) k, λ _. refl, λ e. absurd (omega arith), inr refl)
    | yes within ↦ elim (dec_lt (length (joined cs)) (off + n)) [
      | yes cut ↦
          (some eof, read_at_cut within h cut, λ _. refl, λ e. absurd (omega arith), inr refl)
      | no fits ↦
          let (err, run, e) = read_at_fits within (omega arith) in
          (err, run, λ l. absurd (omega arith), λ l. ground (arith, e), ground (arith, e))
    ]
  ]
