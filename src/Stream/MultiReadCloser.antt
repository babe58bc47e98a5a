-- ===== src/Stream/MultiReadCloser.antt =====
-- stream/multi_read_closer.go: the two `Close` methods, which close every reader and join the errors.
-- The world `W` is what closing may change; `close` is the readers' own `Close`.
use mathlib.Core.List.{append-nil, append_assoc}
use musicbox.Prelude.{
  ◌≡◌, refl, sym, ap, ◌∙◌, Bool, Option, List, [], ◌∷◌, ◌++◌, if◌then◌else◌, Bool-cases, inl, inr,
}
use musicbox.Stream.MultiError.{new_multi_error}

module _ {T E W : Type 0} (close : T → W → Option E × W) where
  -- The loop of `multiReadCloser.Close`: the errors, in the order of the readers.
  close_errors : List T → W → List (Option E) × W
  close_errors [] w = ([], w)
  close_errors (c ∷ closers) w =
      let (err, w') = close c w in let (errs, w'') = close_errors closers w' in (err ∷ errs, w'')

  -- `multiReadCloser.Close`
  pub close_all : List T → W → Option (List E) × W
  close_all closers w = let (errs, w') = close_errors closers w in (new_multi_error errs, w')

  -- The loop of `multiReadAtSeekCloser.Close`: only the readers that are an io.Closer are closed.
  close_closers_errors : (T → Bool) → List T → W → List (Option E) × W
  close_closers_errors is_closer [] w = ([], w)
  close_closers_errors is_closer (c ∷ rs) w =
      let skipped = close_closers_errors is_closer rs w in
      let (err, w') = close c w in
      let (errs, w'') = close_closers_errors is_closer rs w' in
      if is_closer c then (err ∷ errs, w'') else skipped

  -- `multiReadAtSeekCloser.Close`
  pub close_closers : (T → Bool) → List T → W → Option (List E) × W
  close_closers is_closer rs w =
      let (errs, w') = close_closers_errors is_closer rs w in (new_multi_error errs, w')

  abbrev pub closers_of : (T → Bool) → List T → List T
  closers_of is_closer [] = []
  closers_of is_closer (c ∷ rs) =
      let rest = closers_of is_closer rs in if is_closer c then c ∷ rest else rest

  close_closers_errors-eq :
      (is_closer : T → Bool) (rs : List T) (w : W)
      → close_closers_errors is_closer rs w ≡ close_errors (closers_of is_closer rs) w
  unfolding close_closers_errors close_errors
  close_closers_errors-eq is_closer [] w = refl
  close_closers_errors-eq is_closer (c ∷ rs) w = elim (Bool-cases (is_closer c)) [
    | inl closer ↦ rw (closer, close_closers_errors-eq is_closer rs (close c w).1)
    | inr plain ↦ rw (plain, close_closers_errors-eq is_closer rs w)
  ]

  -- Closing the readers that are closers is closing the list of just those.
  close_closers-eq-close_all :
      (is_closer : T → Bool) (rs : List T) (w : W)
      → close_closers is_closer rs w ≡ close_all (closers_of is_closer rs) w
  unfolding close_closers close_all
  close_closers-eq-close_all is_closer rs w = rw (close_closers_errors-eq is_closer rs w)

  -- Every reader is closed once, in order, whatever errors the others return.
  pub close_all_log :
      (log : W → List T)
      → ((c : T) (w : W) → log (close c w).1 ≡ log w ++ (c ∷ []))
      → (closers : List T) (w : W) → log (close_all closers w).1 ≡ log w ++ closers
  unfolding close_all close_errors
  close_all_log log h [] w = sym (append-nil (log w))
  close_all_log log h (c ∷ closers) w =
      close_all_log log h closers (close c w).1
      ∙ ap (λ l. l ++ closers) (h c w)
      ∙ append_assoc (log w) (c ∷ []) closers

  -- `multiReadAtSeekCloser.Close` closes exactly the readers that are closers, once and in order.
  pub close_closers_log :
      (log : W → List T)
      → ((c : T) (w : W) → log (close c w).1 ≡ log w ++ (c ∷ []))
      → (is_closer : T → Bool) (rs : List T) (w : W)
      → log (close_closers is_closer rs w).1 ≡ log w ++ closers_of is_closer rs
  close_closers_log log h is_closer rs w =
      ap (λ p. log p.1) (close_closers-eq-close_all is_closer rs w)
      ∙ close_all_log log h (closers_of is_closer rs) w
