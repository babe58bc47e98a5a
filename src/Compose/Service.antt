-- ===== src/Compose/Service.antt =====
-- compose/service/service.go: `Service`, which has docker compose write to buffers of its own and
-- decodes what is in them. A buffer and a cli are numbers in a store, since services share their cli.
-- `Backend` is docker compose: what it writes goes to the streams that the cli has at that time. `O` is
-- a call's options without their project, `E` an error, `A` what Ps finds, `W` the rest of the world.
pub mod Streams
mod Tests
use musicbox.Prelude.{
  ℕ, suc, ◌+◌, Bool, true, false, Option, none, some, List, [], ◌∷◌, ◌++◌, ◌==◌, if◌then◌else◌, map,
}
use musicbox.Prelude.Codes.{codes}
use musicbox.Prelude.Anywhere.{Text}
use musicbox.Compose.OutputLine.{Project}
use musicbox.Compose.Output.Parse.{Output, parse_output}
use musicbox.Compose.Controller.{Result, ok, failed}

pub record LabelledService : Type 0 where
  pub name : Text
  pub custom_labels : List (Text × Text)

-- What the code reads and writes of `types.Project`.
pub record ComposeProject : Type 0 where
  pub name : Text
  pub working_dir : Text
  pub compose_files : List Text
  pub services : List LabelledService
  pub disabled_services : List LabelledService
  pub volumes : List Text
  pub network_names : List Text

-- The names of labels, and the version, of docker compose's package api.
pub record ApiNames : Type 0 where
  pub project : Text
  pub service : Text
  pub version : Text
  pub working_dir : Text
  pub config_files : Text
  pub oneoff : Text
  pub compose_version : Text

-- `strings.Join(files, ",")`
join_commas : List Text → Text
join_commas [] = []
join_commas (t ∷ []) = t
join_commas (t ∷ u ∷ ts) = t ++ (b',' ∷ join_commas (u ∷ ts))

custom_label : ApiNames → ComposeProject → LabelledService → LabelledService
unfolding join_commas
custom_label api p s = record s {
  custom_labels =
      (api.project, p.name)
      ∷ (api.service, s.name)
      ∷ (api.version, api.compose_version)
      ∷ (api.working_dir, p.working_dir)
      ∷ (api.config_files, join_commas p.compose_files)
      ∷ (api.oneoff, codes "False")
      ∷ [];
}

-- `AddDockerComposeLabel`
add_docker_compose_label : ApiNames → ComposeProject → ComposeProject
unfolding custom_label
add_docker_compose_label api p = record p {
  services = map (custom_label api p) p.services;
  disabled_services = map (custom_label api p) p.disabled_services;
}

service_names : List LabelledService → List Text
service_names [] = []
service_names (s ∷ services) = s.name ∷ service_names services

-- What the decoder of the output reads of a project.
pub decoder_view : ComposeProject → Project
unfolding service_names
decoder_view p = record {
  services = service_names p.services;
  volumes = p.volumes;
  network_names = p.network_names;
}

pub data Method : Type 0 where
  start restart stop down kill remove : Method

-- What a call writes to its cli's two streams, what it returns, and the world.
abbrev pub Ran : Type 0 → Type 0 → Type 0
Ran A W = (Text × Text) × A × W

pub record Backend (O E A W : Type 0) : Type 0 where
  pub api : ApiNames
  pub with_services_enabled : ComposeProject → ComposeProject
  pub create : ℕ → ComposeProject → O → W → Ran (Option E) W
  pub call : Method → ℕ → Text → ComposeProject → O → W → Ran (Option E) W
  pub ps : ℕ → Text → ComposeProject → O → W → Ran (Result A E) W
  pub new_docker_cli : W → Option E × W
  pub initialize : W → Option E × W

-- The contents of the buffers, the buffers that the cli's streams are, the numbers of the next ones.
pub record Store (W : Type 0) : Type 0 where
  pub buffers : ℕ → Text
  pub streams : ℕ → ℕ × ℕ
  pub next_buffer : ℕ
  pub next_cli : ℕ
  pub world : W

-- `service` of the code is made for a cli, which is `proxy` here.
pub record Service : Type 0 where
  pub out : ℕ
  pub err : ℕ
  pub dry_run : Bool
  pub cli : ℕ
  pub project_name : Text
  pub project : ComposeProject
  pub proxy : ℕ

abbrev pub put : {A : Type 0} → (ℕ → A) → ℕ → A → ℕ → A
put f i a j = if i == j then a else f j

-- `options.Project`, where nil stands for the service's.
abbrev pub project_or : Option ComposeProject → Service → ComposeProject
project_or none s = s.project
project_or (some p) s = p

module _ {O E A W : Type 0} (backend : Backend O E A W) where
  -- `overrideOutputStreams`
  override_output_streams : Service → Store W → Store W
  override_output_streams s st = record st { streams = put st.streams s.cli (s.out, s.err) }

  -- `resetBuf`
  reset_buf : Service → Store W → Store W
  reset_buf s st = record st { buffers = put (put st.buffers s.out []) s.err [] }

  -- A cli's call has written.
  wrote : ℕ → Text × Text → W → Store W → Store W
  wrote cli (out, err) w st =
      let (o, e) = st.streams cli in
      let buffers = put st.buffers o (st.buffers o ++ out) in
      record st { buffers = put buffers e (buffers e ++ err); world = w }

  -- `parseOutput`, where none is a panic of the decoder.
  pub parse_buffers : Service → Store W → Option Output
  parse_buffers s st =
      parse_output s.project_name (decoder_view s.project) s.dry_run
        (record { resources = []; out = []; err = [] }) (st.buffers s.out) (st.buffers s.err)

  -- From the return of docker compose on; the buffers are reset by a deferred call.
  finish : Service → Ran (Option E) W → Store W → (Option Output × Option E) × Store W
  unfolding wrote parse_buffers reset_buf
  finish s (written, err, w) st =
      let st' = wrote s.proxy written w st in ((parse_buffers s st', err), reset_buf s st')

  -- `Create`
  unfoldable pub create : O → Service → Store W → (Option Output × Option E) × Store W
  unfolding finish
  create options s st = finish s (backend.create s.proxy s.project options st.world) st

  -- `Start`, `Restart`, `Stop`, `Down`, `Kill` and `Remove`
  unfoldable pub run :
      Method → Option ComposeProject → O → Service → Store W → (Option Output × Option E) × Store W
  unfolding finish
  run method project options s st =
      finish s (backend.call method s.proxy s.project_name (project_or project s) options st.world)
        st

  -- `Ps`, which leaves the buffers as they are.
  unfoldable ps : Option ComposeProject → O → Service → Store W → Result A E × Store W
  unfolding wrote
  ps project options s st =
      let (written, found, w) =
        backend.ps s.proxy s.project_name (project_or project s) options st.world in
      (found, wrote s.proxy written w st)

  -- The mutators of `UpdateProject`, in order.
  mutated : List (ComposeProject → ComposeProject) → ComposeProject → ComposeProject
  mutated [] p = p
  mutated (f ∷ mutators) p = mutated mutators (f p)

  -- `UpdateProject`
  unfoldable update_project : List (ComposeProject → ComposeProject) → Service → Service
  unfolding mutated
  update_project mutators s = record s {
    project = mutated mutators (backend.with_services_enabled s.project);
  }

  -- `NewService`
  unfoldable pub new_service : Text → ComposeProject → ℕ → Store W → Service × Store W
  unfolding add_docker_compose_label override_output_streams
  new_service project_name project cli st =
      let s : Service = record {
        out = st.next_buffer;
        err = st.next_buffer + 1;
        dry_run = false;
        cli = cli;
        project_name = project_name;
        project = add_docker_compose_label backend.api project;
        proxy = cli;
      } in
      let st' : Store W = record st {
        buffers = put (put st.buffers st.next_buffer []) (st.next_buffer + 1) [];
        next_buffer = st.next_buffer + 2;
      } in
      (s, override_output_streams s st')

  -- `DryRunMode` from the new service on: a new cli, its initialization, its streams.
  initialized : Service → Option E × W → Store W → Result Service E × Store W
  unfolding override_output_streams
  initialized s (some e, w) st = (failed e, record st { world = w })
  initialized s (none, w) st =
      let s' = record s { dry_run = true; cli = st.next_cli; proxy = st.next_cli } in
      (ok s', override_output_streams s' (record st { next_cli = st.next_cli + 1; world = w }))

  with_cli : Service → Option E × W → Store W → Result Service E × Store W
  unfolding initialized
  with_cli s (some e, w) st = (failed e, record st { world = w })
  with_cli s (none, w) st = initialized s (backend.initialize w) st

  -- `DryRunMode`
  unfoldable pub dry_run_mode : Service → Store W → Result Service E × Store W
  unfolding new_service with_cli
  dry_run_mode s st =
      let (s', st') =
        new_service s.project_name (backend.with_services_enabled s.project) s.cli st in
      with_cli s' (backend.new_docker_cli st'.world) st'
