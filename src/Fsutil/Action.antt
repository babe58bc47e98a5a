-- ===== src/Fsutil/Action.antt =====
-- Steps that may fail: a step changes the state and returns an error or none. A sequence of them is
-- the code's `err = step(); if err != nil { return ... }`.
use Prim.Native.String.{String}
use musicbox.Prelude.{Bool, true, false, Option, none, some, List, [], ◌∷◌}
use musicbox.Prelude.Anywhere.{All}
use musicbox.Fsutil.Error.{Error, wrap}

abbrev pub Action : Type 0 → Type 0
Action S = S → Option Error × S

module _ {S : Type 0} where
  unfoldable pub done : Action S
  done s = (none, s)

  infixl 5 ◌>>◌
  unfoldable pub ◌>>◌ : Action S → Action S → Action S
  ◌>>◌ m k s = elim (m s).0 [ none ↦ k (m s).1 | some e ↦ (some e, (m s).1) ]

  -- `if b { err = m(); if err != nil { return } }`
  unfoldable pub when : Bool → Action S → Action S
  unfolding done
  when true m = m
  when false m = done

  -- `fmt.Errorf("msg: %w", err)` round the step's error.
  unfoldable pub wrapping : String → Action S → Action S
  wrapping msg m s = elim (m s).0 [ none ↦ (none, (m s).1) | some e ↦ (some (wrap msg e), (m s).1) ]

  -- `for _, x := range xs { err = body(x); if err != nil { return } }`
  unfoldable pub for_each : {T : Type 0} → List T → (T → Action S) → Action S
  unfolding done ◌>>◌
  for_each [] body = done
  for_each (x ∷ xs) body = body x >> for_each xs body

  -- What holds of a result: `Q` of the state if the step succeeded, `R` if it failed.
  abbrev pub Post : (S → Type 0) → (S → Type 0) → Option Error × S → Type 0
  Post Q R (none, s) = Q s
  Post Q R (some e, s) = R s

  -- From `P` the step leads to `Q` if it succeeds, and to `R` if it fails.
  pub record Ensures (P : S → Type 0) (m : Action S) (Q R : S → Type 0) : Type 0 where
    pub at : (s : S) → P s → Post Q R (m s)

-- The rules, one for each way to build a step.
module _ {S : Type 0} where
  seq-Post :
      (Q T R : S → Type 0) (k : Action S) (r : Option Error × S)
      → Post Q R r
      → Ensures Q k T R
      → Post T R (elim r.0 [ none ↦ k r.1 | some e ↦ (some e, r.1) ])
  seq-Post Q T R k (none, s) h hk = hk.at s h
  seq-Post Q T R k (some e, s) h hk = h

  wrapping-Post :
      (Q R : S → Type 0) (msg : String) (r : Option Error × S)
      → Post Q R r
      → Post Q R (elim r.0 [ none ↦ (none, r.1) | some e ↦ (some (wrap msg e), r.1) ])
  wrapping-Post Q R msg (none, s) h = h
  wrapping-Post Q R msg (some e, s) h = h

  pub weaken-Post :
      (Q Q' R R' : S → Type 0) (r : Option Error × S)
      → ((s : S) → Q s → Q' s)
      → ((s : S) → R s → R' s)
      → Post Q R r
      → Post Q' R' r
  weaken-Post Q Q' R R' (none, s) q r h = q s h
  weaken-Post Q Q' R R' (some e, s) q r h = r s h

module _ {S : Type 0} {P Q R : S → Type 0} where
  pub Ensures->> :
      {T : S → Type 0} (m k : Action S) → Ensures P m Q R → Ensures Q k T R → Ensures P (m >> k) T R
  unfolding ◌>>◌
  Ensures->> {T} m k hm hk = record { at = λ s h. seq-Post Q T R k (m s) (hm.at s h) hk }

  pub Ensures-wrapping :
      (msg : String) (m : Action S) → Ensures P m Q R → Ensures P (wrapping msg m) Q R
  unfolding wrapping
  Ensures-wrapping msg m hm = record { at = λ s h. wrapping-Post Q R msg (m s) (hm.at s h) }

module _ {S : Type 0} {P R : S → Type 0} where
  pub Ensures-done : Ensures P done P R
  unfolding done
  Ensures-done = record { at = λ s h. h }

  pub Ensures-when : (b : Bool) (m : Action S) → Ensures P m P R → Ensures P (when b m) P R
  unfolding when
  Ensures-when true m h = h
  Ensures-when false m h = Ensures-done

  pub Ensures-for_each :
      {T : Type 0} (xs : List T) (body : T → Action S)
      → All (λ x. Ensures P (body x) P R) xs
      → Ensures P (for_each xs body) P R
  unfolding for_each
  Ensures-for_each [] body h = Ensures-done
  Ensures-for_each (x ∷ xs) body h =
      Ensures->> (body x) (for_each xs body) h.0 (Ensures-for_each xs body h.1)

module _ {S : Type 0} {P Q R P' Q' R' : S → Type 0} where
  pub Ensures-weaken :
      (m : Action S)
      → ((s : S) → P' s → P s)
      → ((s : S) → Q s → Q' s)
      → ((s : S) → R s → R' s)
      → Ensures P m Q R
      → Ensures P' m Q' R'
  Ensures-weaken m p q r h = record { at = λ s a. weaken-Post Q Q' R R' (m s) q r (h.at s (p s a)) }

pub Post_state : {S : Type 0} (P : S → Type 0) (r : Option Error × S) → Post P P r → P r.1
Post_state P (none, s) h = h
Post_state P (some e, s) h = h
