-- ===== src/Fsutil/Walk.antt =====
-- Go's `fs.WalkDir`, as fsutil/copy.go, fsutil/equal.go and fsutil/safe_write.go call it. Each of their
-- functions first returns on an error that it is given; `on_error` is that part of it, and `visit` the
-- rest. `W` is what the function and the directories depend on. The fuel bounds the depth.
use musicbox.Prelude.{
  ◌++◌, ◌∙◌, sym, ap, ◌≡◌, refl, ℕ, zero, suc, Bool, Option, none, some, List, [], ◌∷◌,
  if◌then◌else◌,
}
use musicbox.Fsutil.Error.{Error}
use musicbox.Fsutil.Action.{Action, for_each, done, ◌>>◌}
use musicbox.Fsutil.Fs.{FilePath, Opened, opened, not_opened}
use musicbox.Fsutil.Path.{join}

-- `fs.DirEntry`: `irregular` is whether its type bits are not 0.
pub record Dirent : Type 0 where
  pub name : FilePath
  pub is_dir : Bool
  pub irregular : Bool

-- How a walk stops early.
pub data Stop : Type 0 where
  fails : Error → Stop
  skip_all out_of_fuel : Stop

abbrev pub Step : Type 0 → Type 0
Step W = W → Option Stop × W

module _ {W : Type 0} where
  abbrev pub chain : Option Stop × W → Step W → Option Stop × W
  chain (none, w) k = k w
  chain (some s, w) k = (some s, w)

  -- The loop over the entries of a directory, where `step` walks one.
  unfoldable pub walk_each : (FilePath → Dirent → Step W) → FilePath → List Dirent → Step W
  walk_each step p [] w = (none, w)
  walk_each step p (d ∷ ds) w = chain (step (join p d.name) d w) (walk_each step p ds)

  -- `SkipAll` ends a walk without an error.
  abbrev pub finish : Option Stop × W → Option Stop × W
  finish (some skip_all, w) = (none, w)
  finish (r, w) = (r, w)

  module _ (read_dir : FilePath → W → List Dirent × Option Error)
      (visit : FilePath → Dirent → Step W) (on_error : FilePath → Error → Step W) where
    unfoldable pub walk_entries :
        (FilePath → Dirent → Step W) → FilePath → List Dirent × Option Error → Step W
    unfolding walk_each
    walk_entries step p (ds, none) w = walk_each step p ds w
    walk_entries step p (ds, some e) w = chain (on_error p e w) (walk_each step p ds)

    unfoldable pub walk_below : (FilePath → Dirent → Step W) → FilePath → Dirent → Step W
    unfolding walk_entries
    walk_below step p d w = if d.is_dir then walk_entries step p (read_dir p w) w else (none, w)

    unfoldable pub walk : ℕ → FilePath → Dirent → Step W
    unfolding walk_below
    walk zero p d w = (some out_of_fuel, w)
    walk (suc fuel) p d w = chain (visit p d w) (walk_below (walk fuel) p d)

    -- `fs.WalkDir`
    unfoldable pub walk_dir : ℕ → (FilePath → W → Opened Dirent) → FilePath → Step W
    unfolding walk
    walk_dir fuel stat root w = elim (stat root w) [
      | opened d ↦ finish (walk fuel root d w)
      | not_opened e ↦ finish (on_error root e w)
    ]

module _ {W : Type 0} where
  -- A step whose error is the walk's.
  abbrev pub as_step : Option Error × W → Option Stop × W
  as_step (none, w) = (none, w)
  as_step (some e, w) = (some (fails e), w)

  pub seq_step :
      (r : Option Error × W) (k : Action W)
      → as_step (elim r.0 [ none ↦ k r.1 | some e ↦ (some e, r.1) ])
        ≡ chain (as_step r) (λ v. as_step (k v))
  seq_step (none, w) k = refl
  seq_step (some e, w) k = refl

  pub chain_ext :
      (r : Option Stop × W) (k k' : Step W) → ((v : W) → k v ≡ k' v) → chain r k ≡ chain r k'
  chain_ext (none, w) k k' h = h w
  chain_ext (some s, w) k k' h = refl

  pub finish_step : (r : Option Error × W) → finish (as_step r) ≡ as_step r
  finish_step (none, w) = refl
  finish_step (some e, w) = refl

  chain_assoc :
      (r : Option Stop × W) (k l : Step W) → chain (chain r k) l ≡ chain r (λ v. chain (k v) l)
  chain_assoc (none, w) k l = refl
  chain_assoc (some s, w) k l = refl

  pub steps_cons :
      {T : Type 0} (x : T) (xs : List T) (body : T → Action W) (w : W)
      → as_step (for_each (x ∷ xs) body w)
        ≡ chain (as_step (body x w)) (λ v. as_step (for_each xs body v))
  unfolding for_each ◌>>◌
  steps_cons x xs body w = seq_step (body x w) (for_each xs body)

  pub steps_nil :
      {T : Type 0} (body : T → Action W) (w : W) → as_step (for_each [] body w) ≡ (none, w)
  unfolding for_each done
  steps_nil body w = refl

  pub steps_append :
      {T : Type 0} (xs ys : List T) (body : T → Action W) (w : W)
      → as_step (for_each (xs ++ ys) body w)
        ≡ chain (as_step (for_each xs body w)) (λ v. as_step (for_each ys body v))
  unfolding for_each done
  steps_append [] ys body w = refl
  steps_append (x ∷ xs) ys body w =
      let rest = λ (v : W). as_step (for_each ys body v) in
      steps_cons x (xs ++ ys) body w
      ∙ chain_ext (as_step (body x w)) _ _ (λ v. steps_append xs ys body v)
      ∙ sym (chain_assoc (as_step (body x w)) (λ v. as_step (for_each xs body v)) rest)
      ∙ sym (ap (λ r. chain r rest) (steps_cons x xs body w))
