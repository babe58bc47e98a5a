-- ===== src/Compose/Loader.antt =====
-- compose/service/loader.go and loader_proxy.go: `Loader`, which loads projects and services from
-- config files, and the proxy, whose methods hold its lock, so that its state is the loader.
-- `read_file` is os.ReadFile; `parse_yaml`, `load_with_context` and `set_project_name` are compose-go's,
-- `L` an option of its loader.
mod Tests
use musicbox.Prelude.{ℕ, ◌≡◌, refl, ap, Option, none, some, List, [], ◌∷◌, ◌++◌}
use musicbox.Prelude.Anywhere.{Text}
use musicbox.Compose.Controller.{Result, ok, failed}
use musicbox.Compose.Service.{ComposeProject, Backend, Store, Service, new_service}
use musicbox.Compose.Preload.{
  ConfigDetails, LoadError, preload_config_details, preload_config_details-again,
}
use musicbox.Compose.Preload.Files.{DetailsEnd, preload_config_details_end}

pub record Loader (V N L : Type 0) : Type 0 where
  pub docker_cli : ℕ
  pub project_name : Text
  pub config_details : ConfigDetails V N
  pub options : List L

module _ {V N L : Type 0} where
  -- `UpdateDockerCli`, `UpdateProjectName`, `UpdateConfigDetails` and `UpdateOptions`
  abbrev update_docker_cli : ℕ → Loader V N L → Loader V N L
  update_docker_cli cli l = record l { docker_cli = cli }

  abbrev update_project_name : Text → Loader V N L → Loader V N L
  update_project_name name l = record l { project_name = name }

  abbrev update_config_details : ConfigDetails V N → Loader V N L → Loader V N L
  update_config_details details l = record l { config_details = details }

  abbrev update_options : List L → Loader V N L → Loader V N L
  update_options options l = record l { options = options }

module _ {V N L E : Type 0}
    (load_with_context : ConfigDetails V N → List L → Result ComposeProject E)
    (set_project_name : Text → L) where
  -- `Loader.Load`, which sets the project's name last.
  load : Loader V N L → Result ComposeProject E
  load l = load_with_context l.config_details (l.options ++ (set_project_name l.project_name ∷ []))

  -- The loop over the operations, each of which changes the project or fails.
  operated :
      List (ComposeProject → Result ComposeProject E) → ComposeProject → Result ComposeProject E
  operated [] p = ok p
  operated (op ∷ ops) p = elim (op p) [ failed e ↦ failed e | ok p' ↦ operated ops p' ]

  -- `LoadComposeService`
  unfoldable load_compose_service :
      {O A W : Type 0}
      → Backend O E A W
      → Loader V N L
      → List (ComposeProject → Result ComposeProject E)
      → Store W
      → Result Service E × Store W
  unfolding operated load
  load_compose_service backend l ops st = elim (load l) [
    | failed e ↦ (failed e, st)
    | ok p ↦ elim (operated ops p) [
      | failed e ↦ (failed e, st)
      | ok p' ↦ let (s, st') = new_service backend l.project_name p' l.docker_cli st in (ok s, st')
    ]
  ]

module _ {V N L E : Type 0} (read_file : Text → Result Text E)
    (parse_yaml : Text → Result (List (Text × V)) E) where
  kept :
      Loader V N L → Result (ConfigDetails V N) (LoadError E) → Option (LoadError E) × Loader V N L
  kept l (failed e) = (some e, l)
  kept l (ok details) = (none, record l { config_details = details })

  -- `LoaderProxy.PreloadConfigDetails`
  unfoldable pub preload : Loader V N L → Option (LoadError E) × Loader V N L
  unfolding kept
  preload l = kept l (preload_config_details read_file parse_yaml l.config_details)

  -- How preloading a loader ends, by the details that it makes of the loader's.
  abbrev pub PreloadEnds : Loader V N L → Option (LoadError E) × Loader V N L → Type 0
  PreloadEnds l (none, l') =
      DetailsEnd read_file parse_yaml l.config_details l.config_details.config_files
        (ok l'.config_details)
      × (l' ≡ record l { config_details = l'.config_details })
  PreloadEnds l (some e, l') =
      DetailsEnd read_file parse_yaml l.config_details l.config_details.config_files (failed e)
      × (l' ≡ l)

  kept_ends :
      (l : Loader V N L) (r : Result (ConfigDetails V N) (LoadError E))
      → DetailsEnd read_file parse_yaml l.config_details l.config_details.config_files r
      → PreloadEnds l (kept l r)
  unfolding kept
  kept_ends l (failed e) h = (h, refl)
  kept_ends l (ok details) h = (h, refl)

  kept_again :
      (l : Loader V N L) (r : Result (ConfigDetails V N) (LoadError E))
      → preload_config_details read_file parse_yaml l.config_details ≡ r
      → preload (kept l r).1 ≡ kept l r
  unfolding preload kept
  kept_again l (failed e) h = ap (λ r. kept l r) h
  kept_again l (ok details) h =
      ap (λ r. kept (record l { config_details = details }) r)
        (preload_config_details-again read_file parse_yaml l.config_details details h)

  -- Preloading a loader ends in one of three ways. It succeeds: each file of the loader then has the
  -- content that it had or, if that was empty, what is read of it, and the config that it had or, if
  -- that was empty, what that content is parsed to; the working directory is the one given, or that of
  -- the first file behind "./"; nothing else of the loader is changed. Or the loader is unchanged and the
  -- error is that of the first file that cannot be read or parsed, behind files that can be. Or the
  -- loader is unchanged and has no files.
  pub preload-PreloadEnds : (l : Loader V N L) → PreloadEnds l (preload l)
  unfolding preload
  preload-PreloadEnds l =
      kept_ends l (preload_config_details read_file parse_yaml l.config_details)
        (preload_config_details_end read_file parse_yaml l.config_details)

  -- Preloading again gives the same error or none, and leaves the loader as the first time left it:
  -- with its details as they were if there was an error, and else with their files read and parsed.
  pub preload-preload : (l : Loader V N L) → preload (preload l).1 ≡ preload l
  unfolding preload
  preload-preload l =
      kept_again l (preload_config_details read_file parse_yaml l.config_details) refl
