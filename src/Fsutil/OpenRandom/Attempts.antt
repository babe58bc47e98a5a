-- ===== src/Fsutil/OpenRandom/Attempts.antt =====
-- `openRandom` ends, after at most its number of attempts, and each name that it passed over exists.
use musicbox.Prelude.{
  ℕ, zero, suc, ◌+◌, ◌≤◌, ◌<◌, ◌≡◌, refl, true, false, some, arith, ltb, ltb→lt, Bool-cases, inl,
  inr,
}
use musicbox.Fsutil.Error.{Error, wrap, sentinel, max_retry}
use musicbox.Fsutil.Fs.{FilePath, Opened, opened, not_opened}
use musicbox.Fsutil.OpenRandom.{is_exist, max_attempts, open_random_loop}

-- What `openRandom` may do from an attempt on: it stops at the first name that opens or fails for
-- another reason than that it exists, and gives up behind the last attempt.
pub data Tries {W H : Type 0} (open_at : FilePath → W → Opened H × W) (name : ℕ → FilePath)
    : ℕ → W → Opened H × W → Type 0 where
  opens :
      {i : ℕ} {w w' : W} {f : H}
      → open_at (name i) w ≡ (opened f, w')
      → Tries open_at name i w (opened f, w')
  fails :
      {i : ℕ} {w w' : W} {e : Error}
      → open_at (name i) w ≡ (not_opened e, w')
      → is_exist e ≡ false
      → Tries open_at name i w (not_opened e, w')
  again :
      {i : ℕ} {w w' : W} {e : Error} {r : Opened H × W}
      → open_at (name i) w ≡ (not_opened e, w')
      → is_exist e ≡ true
      → i + 1 < max_attempts
      → Tries open_at name (i + 1) w' r
      → Tries open_at name i w r
  gives_up :
      {i : ℕ} {w w' : W} {e : Error}
      → open_at (name i) w ≡ (not_opened e, w')
      → is_exist e ≡ true
      → max_attempts ≤ i + 1
      → Tries open_at name i w (not_opened (wrap "max retry exceeded" (sentinel max_retry)), w')

module _ {W H : Type 0} (open_at : FilePath → W → Opened H × W) (name : ℕ → FilePath) where
  abbrev Ends : ℕ → ℕ → W → Type 0
  Ends fuel i w =
      (r : Opened H × W) × (open_random_loop fuel open_at name i w ≡ some r)
      × Tries open_at name i w r

  -- One attempt, by its answer; `rest` is the loop from the next attempt on.
  attempt-Ends :
      (fuel i : ℕ) (w : W) (got : Opened H × W)
      → open_at (name i) w ≡ got
      → (i + 1 < max_attempts → Ends fuel (i + 1) got.1)
      → Ends (suc fuel) i w
  unfolding open_random_loop
  attempt-Ends fuel i w (opened f, w') e rest = ((opened f, w'), ground (arith, e), opens e)
  attempt-Ends fuel i w (not_opened err, w') e rest = elim (Bool-cases (is_exist err)) [
    | inr other ↦ ((not_opened err, w'), ground (arith, e, other), fails e other)
    | inl exists ↦ elim (Bool-cases (ltb (i + 1) max_attempts)) [
      | inl more ↦
          let (r, run, t) = rest (ltb→lt (i + 1) max_attempts more) in
          (r, ground (arith, e, exists, more, run), again e exists (ltb→lt _ _ more) t)
      | inr last ↦ (
        (not_opened (wrap "max retry exceeded" (sentinel max_retry)), w'),
        ground (arith, e, exists, last),
        gives_up e exists (ground arith),
      )
    ]
  ]

  -- With fuel for the attempts that are left the loop ends, as the relation allows.
  pub open_random_loop-Tries :
      (fuel i : ℕ) (w : W) → i < max_attempts → max_attempts ≤ i + fuel → Ends fuel i w
  open_random_loop-Tries zero i w h k = absurd (omega arith)
  open_random_loop-Tries (suc fuel) i w h k =
      attempt-Ends fuel i w (open_at (name i) w) refl
        (λ l. open_random_loop-Tries fuel (i + 1) (open_at (name i) w).1 l (omega arith))
