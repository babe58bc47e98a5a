-- ===== src/Compose/RemovalHook.antt =====
-- compose/controller/removal_hook.go: hooks that are told which services are removed. A hook is what
-- it does to the world `W`, and its error.
use musicbox.Prelude.{◌≡◌, ◌↔◌, refl, Option, none, some, List, [], ◌∷◌, ◌++◌, arith}
use musicbox.Prelude.Anywhere.{Text}

abbrev pub RemovalHook : Type 0 → Type 0 → Type 0
RemovalHook E W = List Text → W → Option E × W

-- `RecorderHook`, whose state is its history.
pub record_removal : {E : Type 0} → RemovalHook E (List (List Text))
record_removal names history = (none, history ++ (names ∷ []))

-- nil if there is no error, and the combined error of all of them otherwise.
combined : {E : Type 0} → List E → Option (List E)
combined [] = none
combined (e ∷ errors) = some (e ∷ errors)

-- `if err != nil { errors = append(errors, err) }`
keep_error : {E : Type 0} → Option E → List E → List E
keep_error none errors = errors
keep_error (some e) errors = e ∷ errors

keep_error-combined :
    {E : Type 0} (err : Option E) (errors : List E)
    → (combined (keep_error err errors) ≡ none) ↔ ((err ≡ none) × (combined errors ≡ none))
unfolding combined keep_error
keep_error-combined none errors = (λ h. (refl, h), λ h. h.1)
keep_error-combined (some e) errors = (λ h. ground arith, λ h. ground (arith, h.0))

module _ {E W : Type 0} where
  -- The loop of `CombinedRemovalHook.OnRemove`: the errors that are not nil.
  hook_errors : List (RemovalHook E W) → List Text → W → List E × W
  unfolding keep_error
  hook_errors [] names w = ([], w)
  hook_errors (hook ∷ hooks) names w =
      let (err, w') = hook names w in
      let (errors, w'') = hook_errors hooks names w' in (keep_error err errors, w'')

  -- `CombinedRemovalHook.OnRemove`
  pub on_remove : List (RemovalHook E W) → List Text → W → Option (List E) × W
  unfolding hook_errors combined
  on_remove hooks names w = let (errors, w') = hook_errors hooks names w in (combined errors, w')

  -- The world after all the hooks, one behind the other, and that none of them fails there.
  pub after_all : List (RemovalHook E W) → List Text → W → W
  after_all [] names w = w
  after_all (hook ∷ hooks) names w = after_all hooks names (hook names w).1

  abbrev pub NoneFails : List (RemovalHook E W) → List Text → W → Type 0
  NoneFails [] names w = Unit
  NoneFails (hook ∷ hooks) names w =
      ((hook names w).0 ≡ none) × NoneFails hooks names (hook names w).1

  hook_errors-after_all :
      (hooks : List (RemovalHook E W)) (names : List Text) (w : W)
      → (hook_errors hooks names w).1 ≡ after_all hooks names w
  unfolding hook_errors after_all
  hook_errors-after_all [] names w = refl
  hook_errors-after_all (hook ∷ hooks) names w = hook_errors-after_all hooks names (hook names w).1

  no_errors_iff :
      (hooks : List (RemovalHook E W)) (names : List Text) (w : W)
      → (combined (hook_errors hooks names w).0 ≡ none) ↔ NoneFails hooks names w
  unfolding hook_errors combined
  no_errors_iff [] names w = (λ h. tt, λ h. refl)
  no_errors_iff (hook ∷ hooks) names w =
      let kept =
        keep_error-combined (hook names w).0 (hook_errors hooks names (hook names w).1).0 in
      let rest = no_errors_iff hooks names (hook names w).1 in
      ((λ h. ((kept.0 h).0, rest.0 (kept.0 h).1)), λ h. kept.1 (h.0, rest.1 h.1))

  -- Every hook is called once and in order, whatever errors the others return; the combined hook
  -- returns nil exactly if all of them do.
  pub on_remove_all :
      (hooks : List (RemovalHook E W)) (names : List Text) (w : W)
      → ((on_remove hooks names w).1 ≡ after_all hooks names w)
        × (((on_remove hooks names w).0 ≡ none) ↔ NoneFails hooks names w)
  unfolding on_remove
  on_remove_all hooks names w = (hook_errors-after_all hooks names w, no_errors_iff hooks names w)
