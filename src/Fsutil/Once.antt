-- ===== src/Fsutil/Once.antt =====
-- fsutil/copy.go: `once`, which calls a function at most once and keeps its result; here it is made
-- of the Close of an open file. A run keeps the world and the two variables of the closure.
pub mod Balance
use musicbox.Prelude.{◌≡◌, refl, Bool, true, false, Option, none, some}
use musicbox.Fsutil.Error.{Error}
use musicbox.Fsutil.Action.{Action, Ensures, Post, Post_state}

pub record Run (W : Type 0) : Type 0 where
  pub world : W
  pub called : Bool
  pub result : Option Error

module _ {W : Type 0} where
  unfoldable pub start : W → Run W
  start w = record { world = w; called = false; result = none }

  -- A step of the world, in a run.
  unfoldable pub lift : Action W → Action (Run W)
  lift m s = ((m s.world).0, record s { world = (m s.world).1 })

  unfoldable pub call_or_keep : Action W → Bool → Action (Run W)
  call_or_keep close true s = (s.result, s)
  call_or_keep close false s = (
    (close s.world).0,
    record { world = (close s.world).1; called = true; result = (close s.world).0 },
  )

  -- The function that `once` returns for `close`.
  unfoldable pub close_once : Action W → Action (Run W)
  unfolding call_or_keep
  close_once close s = call_or_keep close s.called s

-- The world has `P`, and the function has been called or not.
abbrev pub At : {W : Type 0} → Bool → (W → Type 0) → Run W → Type 0
At b P s = (s.called ≡ b) × P s.world

abbrev pub World : {W : Type 0} → (W → Type 0) → Run W → Type 0
World P s = P s.world

module _ {W : Type 0} where
  lift-Post :
      (b : Bool) (Q R : W → Type 0) (s : Run W) (r : Option Error × W)
      → s.called ≡ b
      → Post Q R r
      → Post (At b Q) (World R) (r.0, record s { world = r.1 })
  lift-Post b Q R s (none, w) c h = (c, h)
  lift-Post b Q R s (some e, w) c h = h

  close-Post :
      (Q R : W → Type 0) (r : Option Error × W)
      → Post Q R r
      → Post (At true Q) (World R) (r.0, record { world = r.1; called = true; result = r.0 })
  close-Post Q R (none, w) h = (refl, h)
  close-Post Q R (some e, w) h = h

module _ {W : Type 0} {P Q R : W → Type 0} where
  pub Ensures-lift :
      (b : Bool) (m : Action W) → Ensures P m Q R → Ensures (At b P) (lift m) (At b Q) (World R)
  unfolding lift
  Ensures-lift b m h = record { at = λ s p. lift-Post b Q R s (m s.world) p.0 (h.at s.world p.1) }

  -- The first call makes the call.
  pub Ensures-close_once :
      (close : Action W)
      → Ensures P close Q R
      → Ensures (At false P) (close_once close) (At true Q) (World R)
  unfolding close_once
  Ensures-close_once close h = record {
    at = λ s p. rw (p.0, call_or_keep) (close-Post Q R (close s.world) (h.at s.world p.1));
  }

module _ {W : Type 0} where
  -- A later call does nothing.
  pub close_once_called :
      (close : Action W) (s : Run W) → s.called ≡ true → close_once close s ≡ (s.result, s)
  unfolding close_once
  close_once_called close s h = rw (h, call_or_keep)

  keep_or_close :
      {P : W → Type 0} (close : Action W) (b : Bool) (s : Run W)
      → Ensures P close P P
      → P s.world
      → P (call_or_keep close b s).1.world
  unfolding call_or_keep
  keep_or_close close true s h p = p
  keep_or_close {P} close false s h p = Post_state P (close s.world) (h.at s.world p)

  pub close_once_keeps :
      {P : W → Type 0} (close : Action W) (s : Run W)
      → Ensures P close P P
      → P s.world
      → P (close_once close s).1.world
  unfolding close_once
  close_once_keeps close s h p = keep_or_close close s.called s h p

module _ {W : Type 0} {P Q R : W → Type 0} where
  pub Ensures-lifted :
      (m : Action W) → Ensures P m Q R → Ensures (World P) (lift m) (World Q) (World R)
  unfolding lift
  Ensures-lifted m h = record { at = λ s p. lifted-Post (m s.world) s (h.at s.world p) }
    where
      lifted-Post :
          (r : Option Error × W) (s : Run W)
          → Post Q R r
          → Post (World Q) (World R) (r.0, record s { world = r.1 })
      lifted-Post (none, w) s h = h
      lifted-Post (some e, w) s h = h
