-- ===== src/Stream/Tests.antt =====
-- Runs of the stream package on small inputs, and its theorems at them.
use musicbox.Prelude.{
  ℕ, ◌+◌, ◌≡◌, refl, Option, none, some, List, [], ◌∷◌, ◌++◌, map, ◌==◌, ltb, if◌then◌else◌,
}
use musicbox.Stream.Io.{Error, eof, other, ReadResult}
use musicbox.Stream.MultiReadCloser.{close_closers, closers_of, close_closers_log}
use musicbox.Stream.Cancellable
use musicbox.Stream.Cancellable.{Cancellable, run-read_failed}

-- A log of what was closed; closing 2 fails.
abbrev log_close : ℕ → List ℕ → Option ℕ × List ℕ
log_close c w = ((if c == 2 then some 0 else none), w ++ (c ∷ []))

close_closers_log_example :
    (close_closers log_close (λ c. ltb 1 c) (1 ∷ 2 ∷ 3 ∷ []) []).1
    ≡ [] ++ closers_of log_close (λ c. ltb 1 c) (1 ∷ 2 ∷ 3 ∷ [])
close_closers_log_example =
    close_closers_log log_close (λ w. w) (λ c w. refl) (λ c. ltb 1 c) (1 ∷ 2 ∷ 3 ∷ []) []

-- A reader of the numbers from its state on, one byte a call, that fails at 3.
abbrev counting : ℕ → ℕ → ReadResult × ℕ
counting s n = if s == 3 then (([], some (other 9)), s) else ((s ∷ [], none), s + 1)

abbrev two_calls : List (Option Error × ℕ)
two_calls = (none, 1) ∷ (some eof, 2) ∷ []

run-read_failed_example :
    Cancellable.run counting
      (Cancellable.read counting (Cancellable.new_cancellable counting 3) none 1).1
      two_calls
    ≡ (
      map {B = ReadResult} (λ _. ([], some (other 9))) two_calls,
      (Cancellable.read counting (Cancellable.new_cancellable counting 3) none 1).1,
    )
unfolding Cancellable.read Cancellable.new_cancellable
run-read_failed_example =
    run-read_failed counting (Cancellable.new_cancellable counting 3) none 1 (other 9) two_calls
      refl
