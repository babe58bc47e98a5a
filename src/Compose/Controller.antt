-- ===== src/Compose/Controller.antt =====
-- compose/controller/create.go: `Create`, which asks a dry run what will be recreated, tells the hook,
-- and only then creates. The whole method runs under the controller's lock. `D` is a handle of
-- service.Service, whose operations are `ServiceApi`; `W` is the world that they change. The map of an
-- output's resources is the list of its lines, in the order that a loop over the map visits them.
use musicbox.Prelude.{
  ◌≡◌, ◌⊎◌, ◌↔◌, Bool-cases, arith, refl, sym, ap, ◌∙◌, Bool, true, false, Option, none, some, List,
  [], ◌∷◌, if◌then◌else◌, inl, inr,
}
use musicbox.Prelude.Anywhere.{Text}
use musicbox.Compose.RemovalHook.{RemovalHook}
use musicbox.Compose.OutputLine.{
  Resource, volume, network, State, error, creating, starting, started, waiting, healthy, exited,
  restarting, restarted, running, created, stopping, stopped, killing, killed, removing, removed,
  skipped, OutputLine, container, recreate, recreated,
}

-- What `DryRunMode` returns: a service or an error.
pub data Result (D E : Type 0) : Type 0 where
  ok : D → Result D E
  failed : E → Result D E

pub record ServiceApi (D E W : Type 0) : Type 0 where
  pub dry_run_mode : D → W → Result D E × W
  -- `UpdateProject(enableAllService)`
  pub enable_all_service : D → W → W
  -- `Create` with orphans removed and diverged services recreated: the values of the map of its
  -- output in some order, and its error.
  pub create : D → W → (List OutputLine × Option E) × W

is_recreate : State → Bool
is_recreate recreate = true
is_recreate recreated = true
is_recreate _ = false

of_container : Resource → State → Bool
unfolding is_recreate
of_container container state = is_recreate state
of_container _ state = false

is_recreated : OutputLine → Bool
unfolding of_container
is_recreated line = of_container line.resource line.state

being_recreated : List OutputLine → List Text
unfolding is_recreated
being_recreated [] = []
being_recreated (line ∷ lines) =
    let rest = being_recreated lines in if is_recreated line then line.name ∷ rest else rest

-- A line says that a container is being recreated, or has been.
abbrev pub Recreates : OutputLine → Type 0
Recreates line = (line.resource ≡ container) × ((line.state ≡ recreate) ⊎ (line.state ≡ recreated))

-- The names are those of the lines that say so, in order.
abbrev pub RecreatedNames : List OutputLine → List Text → Type 0
RecreatedNames [] [] = Unit
RecreatedNames [] (name ∷ names) = ⊥
RecreatedNames (line ∷ lines) [] = (Recreates line → ⊥) × RecreatedNames lines []
RecreatedNames (line ∷ lines) (name ∷ names) =
    (Recreates line × (line.name ≡ name) × RecreatedNames lines names)
    ⊎ ((Recreates line → ⊥) × RecreatedNames lines (name ∷ names))

is_recreate_iff :
    (state : State) → (is_recreate state ≡ true) ↔ ((state ≡ recreate) ⊎ (state ≡ recreated))
unfolding is_recreate
is_recreate_iff error = (λ h. absurd (ground arith), λ h. elim h [ inl e ↦ cc e | inr e ↦ cc e ])
is_recreate_iff creating = (λ h. absurd (ground arith), λ h. elim h [ inl e ↦ cc e | inr e ↦ cc e ])
is_recreate_iff starting = (λ h. absurd (ground arith), λ h. elim h [ inl e ↦ cc e | inr e ↦ cc e ])
is_recreate_iff started = (λ h. absurd (ground arith), λ h. elim h [ inl e ↦ cc e | inr e ↦ cc e ])
is_recreate_iff waiting = (λ h. absurd (ground arith), λ h. elim h [ inl e ↦ cc e | inr e ↦ cc e ])
is_recreate_iff healthy = (λ h. absurd (ground arith), λ h. elim h [ inl e ↦ cc e | inr e ↦ cc e ])
is_recreate_iff exited = (λ h. absurd (ground arith), λ h. elim h [ inl e ↦ cc e | inr e ↦ cc e ])
is_recreate_iff restarting =
    (λ h. absurd (ground arith), λ h. elim h [ inl e ↦ cc e | inr e ↦ cc e ])
is_recreate_iff restarted =
    (λ h. absurd (ground arith), λ h. elim h [ inl e ↦ cc e | inr e ↦ cc e ])
is_recreate_iff running = (λ h. absurd (ground arith), λ h. elim h [ inl e ↦ cc e | inr e ↦ cc e ])
is_recreate_iff created = (λ h. absurd (ground arith), λ h. elim h [ inl e ↦ cc e | inr e ↦ cc e ])
is_recreate_iff stopping = (λ h. absurd (ground arith), λ h. elim h [ inl e ↦ cc e | inr e ↦ cc e ])
is_recreate_iff stopped = (λ h. absurd (ground arith), λ h. elim h [ inl e ↦ cc e | inr e ↦ cc e ])
is_recreate_iff killing = (λ h. absurd (ground arith), λ h. elim h [ inl e ↦ cc e | inr e ↦ cc e ])
is_recreate_iff killed = (λ h. absurd (ground arith), λ h. elim h [ inl e ↦ cc e | inr e ↦ cc e ])
is_recreate_iff removing = (λ h. absurd (ground arith), λ h. elim h [ inl e ↦ cc e | inr e ↦ cc e ])
is_recreate_iff removed = (λ h. absurd (ground arith), λ h. elim h [ inl e ↦ cc e | inr e ↦ cc e ])
is_recreate_iff skipped = (λ h. absurd (ground arith), λ h. elim h [ inl e ↦ cc e | inr e ↦ cc e ])
is_recreate_iff recreate = (λ h. inl refl, λ h. refl)
is_recreate_iff recreated = (λ h. inr refl, λ h. refl)

of_container_iff :
    (resource : Resource) (state : State)
    → (of_container resource state ≡ true)
      ↔ ((resource ≡ container) × ((state ≡ recreate) ⊎ (state ≡ recreated)))
unfolding of_container
of_container_iff container state =
    (λ h. (refl, (is_recreate_iff state).0 h), λ h. (is_recreate_iff state).1 h.1)
of_container_iff volume state = (λ h. absurd (ground arith), λ h. cc h.0)
of_container_iff network state = (λ h. absurd (ground arith), λ h. cc h.0)

is_recreated_iff : (line : OutputLine) → (is_recreated line ≡ true) ↔ Recreates line
unfolding is_recreated
is_recreated_iff line = of_container_iff line.resource line.state

add_name-RecreatedNames :
    (line : OutputLine) (lines : List OutputLine) (names : List Text)
    → RecreatedNames lines names
    → RecreatedNames (line ∷ lines) (if is_recreated line then line.name ∷ names else names)
add_name-RecreatedNames line lines names h = elim (Bool-cases (is_recreated line)) [
  | inl e ↦ rw e (inl ((is_recreated_iff line).0 e, refl, h))
  | inr e ↦ rw e (passed names h (λ r. absurd (cc (e, (is_recreated_iff line).1 r))))
]
  where
    passed :
        (names : List Text)
        → RecreatedNames lines names
        → (Recreates line → ⊥)
        → RecreatedNames (line ∷ lines) names
    passed [] h other = (other, h)
    passed (name ∷ names) h other = inr (other, h)

being_recreated-RecreatedNames :
    (lines : List OutputLine) → RecreatedNames lines (being_recreated lines)
unfolding being_recreated
being_recreated-RecreatedNames [] = tt
being_recreated-RecreatedNames (line ∷ lines) =
    add_name-RecreatedNames line lines (being_recreated lines)
      (being_recreated-RecreatedNames lines)

module _ {D E W : Type 0} (api : ServiceApi D E W) (hook : RemovalHook E W) where
  -- The method from the hook on, and from the dry run on.
  told : D → Option E × W → (List OutputLine × Option E) × W
  told c (some e, w) = (([], some e), w)
  told c (none, w) = api.create c (api.enable_all_service c w)

  dry_run : D → (List OutputLine × Option E) × W → (List OutputLine × Option E) × W
  unfolding told being_recreated
  dry_run c ((lines, some e), w) = (([], some e), w)
  dry_run c ((lines, none), w) = told c (hook (being_recreated lines) w)

  with_dry_service : D → Result D E × W → (List OutputLine × Option E) × W
  unfolding dry_run
  with_dry_service c (failed e, w) = (([], some e), w)
  with_dry_service c (ok d, w) = dry_run c (api.create d (api.enable_all_service d w))

  -- `Controller.Create`
  pub create : D → W → (List OutputLine × Option E) × W
  unfolding with_dry_service
  create c w = with_dry_service c (api.dry_run_mode c w)

  -- What the dry run on the handle `d` does, and what the hook does when told of its result.
  unfoldable pub dry_created : D → W → (List OutputLine × Option E) × W
  dry_created d w = api.create d (api.enable_all_service d w)

  module _ {O : Type 0} (observed : W → O) where
    -- The steps before the real creation leave what is observed alone.
    pub record Quiet (c : D) : Type 0 where
      pub of_dry_run_mode : (w : W) → observed (api.dry_run_mode c w).1 ≡ observed w
      pub of_hook : (names : List Text) (w : W) → observed (hook names w).1 ≡ observed w
      -- On a handle that DryRunMode returned.
      pub of_dry_run :
          (w v : W) (d : D)
          → (api.dry_run_mode c w).0 ≡ ok d
          → observed (dry_created d v).1 ≡ observed v

    abbrev pub Stopped : W → (List OutputLine × Option E) × W → Type 0
    Stopped w result = ((e : E) × (result.0 ≡ ([], some e))) × (observed result.1 ≡ observed w)

    -- The dry run succeeded, the hook returned nil when told of the names in its output, and the result
    -- is that of the real creation from there.
    abbrev pub HookTold :
        D → W → (List OutputLine × Option E) × W → (List OutputLine × Option E) × W → Type 0
    HookTold c w ran result =
        (ran.0.1 ≡ none)
        × ((names : List Text) × RecreatedNames ran.0.0 names
            × ((hook names ran.1).0 ≡ none)
            × (observed (hook names ran.1).1 ≡ observed w)
            × (result ≡ api.create c (api.enable_all_service c (hook names ran.1).1)))

    abbrev pub Created : D → W → (List OutputLine × Option E) × W → Type 0
    Created c w result =
        (d : D) × ((api.dry_run_mode c w).0 ≡ ok d)
        × HookTold c w (dry_created d (api.dry_run_mode c w).1) result

    told_ends :
        (c : D) (w : W) (h : Option E × W)
        → observed h.1 ≡ observed w
        → Stopped w (told c h)
          ⊎ ((h.0 ≡ none) × (told c h ≡ api.create c (api.enable_all_service c h.1)))
    unfolding told
    told_ends c w (some e, v) same = inl ((e, refl), same)
    told_ends c w (none, v) same = inr (refl, refl)

    dry_run_ends :
        (c : D) (w : W) (ran : (List OutputLine × Option E) × W)
        → Quiet c
        → observed ran.1 ≡ observed w
        → Stopped w (dry_run c ran) ⊎ HookTold c w ran (dry_run c ran)
    unfolding dry_run
    dry_run_ends c w ((lines, some e), v) quiet same = inl ((e, refl), same)
    dry_run_ends c w ((lines, none), v) quiet same =
        let names = being_recreated lines in
        let same' = quiet.of_hook names v ∙ same in
        elim (told_ends c w (hook names v) same') [
          | inl early ↦ inl early
          | inr (ok_hook, result) ↦
              inr (refl, (names, being_recreated-RecreatedNames lines, ok_hook, same', result))
        ]

    with_dry_service_ends :
        (c : D) (w : W) (r : Result D E × W)
        → api.dry_run_mode c w ≡ r
        → Quiet c
        → Stopped w (with_dry_service c r) ⊎ Created c w (with_dry_service c r)
    unfolding with_dry_service dry_created
    with_dry_service_ends c w (failed e, v) h quiet =
        inl ((e, refl), ap (λ r. observed r.1) (sym h) ∙ quiet.of_dry_run_mode w)
    with_dry_service_ends c w (ok d, v) h quiet =
        elim (dry_run_ends c w (dry_created d v) quiet (
          quiet.of_dry_run w v d (ap (λ r. r.0) h)
          ∙ ap (λ r. observed r.1) (sym h)
          ∙ quiet.of_dry_run_mode w)) [
            | inl early ↦ inl early
            | inr told_of ↦ inr (rw h (d, refl, told_of))
          ]

    -- Create ends in one of two ways, if the dry run and the hook leave alone what is observed, such as
    -- the running containers. Either it stops before the real creation, with an error, no output and
    -- what is observed unchanged; or the dry run succeeded, the hook returned nil when told of the names
    -- in the lines of its output that say that a container is being recreated or has been, in order, and
    -- the result is that of the real creation from there.
    pub create_ends : (c : D) (w : W) → Quiet c → Stopped w (create c w) ⊎ Created c w (create c w)
    unfolding create
    create_ends c w quiet = with_dry_service_ends c w (api.dry_run_mode c w) refl quiet
