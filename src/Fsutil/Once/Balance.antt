-- ===== src/Fsutil/Once/Balance.antt =====
-- `once` and a count of the calls: what a step or the closure does to a count of the calls of the
-- function that the closure is made of.
use musicbox.Prelude.{ℕ, suc, ◌≡◌, refl, Bool, true, false, Option, none, some}
use musicbox.Fsutil.Error.{Error}
use musicbox.Fsutil.Action.{Action, Ensures, Post, Post_state}
use musicbox.Fsutil.Once.{Run, lift, close_once, call_or_keep}

-- The count is 1 if the closure of `once` has been called, and 0 if not.
abbrev pub calls : Bool → ℕ
calls true = 1
calls false = 0

abbrev pub Balanced : {W : Type 0} → (ℕ → W → Type 0) → Run W → Type 0
Balanced C s = C (calls s.called) s.world

module _ {W : Type 0} (C : ℕ → W → Type 0) where
  lift-Balanced :
      (s : Run W) (r : Option Error × W)
      → Post (C (calls s.called)) (C (calls s.called)) r
      → Post (Balanced C) (Balanced C) (r.0, record s { world = r.1 })
  lift-Balanced s (none, w) h = h
  lift-Balanced s (some e, w) h = h

  pub Balanced-lift :
      (m : Action W)
      → ((n : ℕ) → Ensures (C n) m (C n) (C n))
      → Ensures (Balanced C) (lift m) (Balanced C) (Balanced C)
  unfolding lift
  Balanced-lift m h = record {
    at = λ s p. lift-Balanced s (m s.world) ((h (calls s.called)).at s.world p);
  }

  closed-Post :
      (r : Option Error × W)
      → Post (C 1) (C 1) r
      → Post (Balanced C) (Balanced C) (r.0, record { world = r.1; called = true; result = r.0 })
  closed-Post (none, w) h = h
  closed-Post (some e, w) h = h

  kept-Post : (r : Option Error) (s : Run W) → Balanced C s → Post (Balanced C) (Balanced C) (r, s)
  kept-Post none s h = h
  kept-Post (some e) s h = h

  call_or_keep-Balanced :
      (close : Action W) (b : Bool) (s : Run W)
      → s.called ≡ b
      → ((n : ℕ) → Ensures (C n) close (C (suc n)) (C (suc n)))
      → C (calls b) s.world
      → Post (Balanced C) (Balanced C) (call_or_keep close b s)
  unfolding call_or_keep
  call_or_keep-Balanced close true s e h p = kept-Post s.result s (rw e p)
  call_or_keep-Balanced close false s e h p = closed-Post (close s.world) ((h 0).at s.world p)

  pub Balanced-close_once :
      (close : Action W)
      → ((n : ℕ) → Ensures (C n) close (C (suc n)) (C (suc n)))
      → Ensures (Balanced C) (close_once close) (Balanced C) (Balanced C)
  unfolding close_once
  Balanced-close_once close h = record {
    at = λ s p. call_or_keep-Balanced close s.called s refl h p;
  }

  -- After a call of the closure the count is 1.
  pub closed_once :
      (close : Action W) (s : Run W)
      → ((n : ℕ) → Ensures (C n) close (C (suc n)) (C (suc n)))
      → Balanced C s
      → C 1 (close_once close s).1.world
  unfolding close_once
  closed_once close s h p = closed_at s.called s refl p
    where
      closed_at :
          (b : Bool) (s : Run W)
          → s.called ≡ b
          → C (calls b) s.world
          → C 1 (call_or_keep close b s).1.world
      closed_at true s e p = unfold call_or_keep in p
      closed_at false s e p =
          unfold call_or_keep in Post_state (C 1) (close s.world) ((h 0).at s.world p)
