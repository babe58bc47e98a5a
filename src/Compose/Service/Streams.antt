-- ===== src/Compose/Service/Streams.antt =====
-- compose/service/service.go: whose buffers a call's output reaches.
use musicbox.Prelude.{
  ℕ, ◌+◌, ◌<◌, ◌≡◌, refl, ap, ◌∙◌, true, false, Option, none, some, [], ◌==◌, arith,
}
use mathlib.Core.Path.{ap₂, subst}
use musicbox.Prelude.Anywhere.{Text}
use musicbox.Compose.Output.Parse.{Output, parse_output}
use musicbox.Compose.Controller.{Result, ok, failed}
use musicbox.Compose.Service.{
  ComposeProject, Method, Ran, Backend, Store, Service, decoder_view, initialized, with_cli,
  new_service, override_output_streams, create, run, project_or, finish, dry_run_mode, wrote,
  parse_buffers, reset_buf,
}

-- The streams of the service's cli are its own two buffers, which are empty.
pub record Own {W : Type 0} (s : Service) (st : Store W) : Type 0 where
  pub of_streams : st.streams s.proxy ≡ (s.out, s.err)
  pub of_apart : (s.out == s.err) ≡ false
  pub of_out : st.buffers s.out ≡ []
  pub of_err : st.buffers s.err ≡ []

nothing : Output
nothing = record { resources = []; out = []; err = [] }

-- What the decoder makes of the two texts that a call has written.
abbrev pub decoded_output : Service → Text × Text → Option Output
decoded_output s (out, err) =
    parse_output s.project_name (decoder_view s.project) s.dry_run
      (record { resources = []; out = []; err = [] }) out err

abbrev pub Answers :
    {E W : Type 0} → Service → Ran (Option E) W → (Option Output × Option E) × Store W → Type 0
Answers s (written, err, w) result =
    (result.0 ≡ (decoded_output s written, err)) × (result.1.world ≡ w) × Own s result.1

same_number : (n : ℕ) → (n == n) ≡ true
same_number n = ground arith

module _ {O E A W : Type 0} (backend : Backend O E A W) where
  -- In the buffers of its own, a service has what its call wrote.
  has_written :
      (s : Service) (out err : Text) (w : W) (st : Store W)
      → Own s st
      → ((wrote backend s.proxy (out, err) w st).buffers s.out ≡ out)
        × ((wrote backend s.proxy (out, err) w st).buffers s.err ≡ err)
  unfolding wrote
  has_written s out err w st own =
      let swapped : (s.err == s.out) ≡ false = ground (arith, own.of_apart) in
      (
        rw (own.of_streams, swapped, same_number s.out, own.of_out) refl,
        rw (own.of_streams, same_number s.err, own.of_apart, own.of_err) refl,
      )

  finish-Answers :
      (s : Service) (ran : Ran (Option E) W) (st : Store W)
      → Own s st
      → Answers s ran (finish backend s ran st)
  unfolding finish parse_buffers reset_buf wrote
  finish-Answers s ((out, err), e, w) st own =
      let swapped : (s.err == s.out) ≡ false = ground (arith, own.of_apart) in
      let (has_out, has_err) = has_written s out err w st own in
      (
        ap₂
            (λ o r. (
              parse_output s.project_name (decoder_view s.project) s.dry_run
                  (record { resources = []; out = []; err = [] }) o r,
              e,
            ))
            has_out has_err,
        refl,
        record {
          of_streams = own.of_streams;
          of_apart = own.of_apart;
          of_out = rw (swapped, same_number s.out) refl;
          of_err = rw (same_number s.err) refl;
        },
      )

  -- A service whose cli writes to its own two buffers answers Create and each other call with what the
  -- decoder makes of the texts that this call wrote, and with the call's error. It gives docker compose
  -- the options' project, or its own one if they have none. Its buffers are its own and empty again.
  pub run-Answers :
      (s : Service) (st : Store W) (options : O) (method : Method) (project : Option ComposeProject)
      → Own s st
      → Answers s (backend.create s.proxy s.project options st.world) (create backend options s st)
        × Answers s
            (backend.call method s.proxy s.project_name (project_or project s) options st.world)
            (run backend method project options s st)
  unfolding create run
  run-Answers s st options method project own =
      let created = backend.create s.proxy s.project options st.world in
      let called =
        backend.call method s.proxy s.project_name (project_or project s) options st.world in
      (finish-Answers s created st own, finish-Answers s called st own)

  -- All that is numbered is below the next numbers.
  pub record Below (s : Service) (st : Store W) : Type 0 where
    pub of_out : s.out < st.next_buffer
    pub of_err : s.err < st.next_buffer
    pub of_cli : s.cli < st.next_cli
    pub of_proxy : s.proxy ≡ s.cli

  initialized-keeps :
      (s : Service) (r : Option E × W) (st : Store W) (cli : ℕ)
      → cli < st.next_cli
      → ((initialized backend s r st).1.streams cli ≡ st.streams cli)
        × ((initialized backend s r st).1.buffers ≡ st.buffers)
  unfolding initialized override_output_streams
  initialized-keeps s (some e, w) st cli h = (refl, refl)
  initialized-keeps s (none, w) st cli h =
      let other : (st.next_cli == cli) ≡ false = ground arith in (rw other refl, refl)

  with_cli-keeps :
      (s : Service) (r : Option E × W) (st : Store W) (cli : ℕ)
      → cli < st.next_cli
      → ((with_cli backend s r st).1.streams cli ≡ st.streams cli)
        × ((with_cli backend s r st).1.buffers ≡ st.buffers)
  unfolding with_cli
  with_cli-keeps s (some e, w) st cli h = (refl, refl)
  with_cli-keeps s (none, w) st cli h = initialized-keeps s (backend.initialize w) st cli h

  -- What DryRunMode leaves: the service's cli writes to two new buffers, its own ones are as before.
  after_dry_run_mode :
      (s : Service) (st : Store W)
      → Own s st
      → Below s st
      → ((dry_run_mode backend s st).1.streams s.proxy ≡ (st.next_buffer, st.next_buffer + 1))
        × ((dry_run_mode backend s st).1.buffers s.out ≡ [])
        × ((dry_run_mode backend s st).1.buffers s.err ≡ [])
  unfolding dry_run_mode new_service override_output_streams
  after_dry_run_mode s st own below =
      let (s', st') =
        new_service backend s.project_name (backend.with_services_enabled s.project) s.cli st in
      let (to, same) =
        with_cli-keeps s' (backend.new_docker_cli st'.world) st' s.proxy
          (omega (arith, below.of_cli, below.of_proxy)) in
      let out_1 : (st.next_buffer + 1 == s.out) ≡ false = ground (arith, below.of_out) in
      let out_0 : (st.next_buffer == s.out) ≡ false = ground (arith, below.of_out) in
      let err_1 : (st.next_buffer + 1 == s.err) ≡ false = ground (arith, below.of_err) in
      let err_0 : (st.next_buffer == s.err) ≡ false = ground (arith, below.of_err) in
      (
        to ∙ rw (below.of_proxy, same_number s.cli) refl,
        ap (λ f. f s.out) same ∙ rw (out_1, out_0, own.of_out) refl,
        ap (λ f. f s.err) same ∙ rw (err_1, err_0, own.of_err) refl,
      )

  wrote_elsewhere :
      (cli o e i : ℕ) (written : Text × Text) (w : W) (st : Store W)
      → st.streams cli ≡ (o, e)
      → i < o
      → i < e
      → (wrote backend cli written w st).buffers i ≡ st.buffers i
  unfolding wrote
  wrote_elsewhere cli o e i (out, err) w st to below_o below_e =
      let not_o : (o == i) ≡ false = ground arith in
      let not_e : (e == i) ≡ false = ground arith in rw (to, not_e, not_o) refl

  -- After DryRunMode, whether it succeeds or not, the output of a call of the service that it was called
  -- on is what the decoder makes of two empty texts: what the call writes is in the buffers of the
  -- service that was made, since both have the cli.
  pub dry_run_mode-loses :
      (s : Service) (st : Store W) (options : O) (method : Method) (project : Option ComposeProject)
      → Own s st
      → Below s st
      → (run backend method project options s (dry_run_mode backend s st).1).0.0
        ≡ decoded_output s ([], [])
  unfolding run finish parse_buffers
  dry_run_mode-loses s st options method project own below =
      let st' = (dry_run_mode backend s st).1 in
      let ran =
        backend.call method s.proxy s.project_name (project_or project s) options st'.world in
      let (to, keeps_out, keeps_err) = after_dry_run_mode s st own below in
      ap₂ (λ o e. decoded_output s (o, e))
        (wrote_elsewhere s.proxy st.next_buffer (st.next_buffer + 1) s.out ran.0 ran.2 st' to
            below.of_out (omega (arith, below.of_out))
          ∙ keeps_out)
        (wrote_elsewhere s.proxy st.next_buffer (st.next_buffer + 1) s.err ran.0 ran.2 st' to
            below.of_err (omega (arith, below.of_err))
          ∙ keeps_err)

  -- Two buffers of its own, in a store where nothing else is said of them.
  new_service-Own :
      (project_name : Text) (project : ComposeProject) (cli : ℕ) (st : Store W)
      → Own
          (new_service backend project_name project cli st).0
          (new_service backend project_name project cli st).1
  unfolding new_service override_output_streams
  new_service-Own project_name project cli st =
      let behind : (st.next_buffer + 1 == st.next_buffer) ≡ false = ground arith in
      record {
        of_streams = rw (same_number cli) refl;
        of_apart = ground arith;
        of_out = rw (behind, same_number st.next_buffer) refl;
        of_err = rw (same_number (st.next_buffer + 1)) refl;
      }

  -- What DryRunMode returns, if it succeeds.
  abbrev Made : Result Service E × Store W → Type 0
  Made (ok s, st) = Own s st × (s.dry_run ≡ true)
  Made (failed e, st) = Unit

  initialized-Made :
      (s : Service) (r : Option E × W) (st : Store W) → Own s st → Made (initialized backend s r st)
  unfolding initialized override_output_streams
  initialized-Made s (some e, w) st own = tt
  initialized-Made s (none, w) st own = (
    record {
      of_streams = rw (same_number st.next_cli) refl;
      of_apart = own.of_apart;
      of_out = own.of_out;
      of_err = own.of_err;
    },
    refl,
  )

  with_cli-Made :
      (s : Service) (r : Option E × W) (st : Store W) → Own s st → Made (with_cli backend s r st)
  unfolding with_cli
  with_cli-Made s (some e, w) st own = tt
  with_cli-Made s (none, w) st own = initialized-Made s (backend.initialize w) st own

  made : (s : Service) (st : Store W) → Made (dry_run_mode backend s st)
  unfolding dry_run_mode
  made s st =
      let enabled = backend.with_services_enabled s.project in
      let (s', st') = new_service backend s.project_name enabled s.cli st in
      with_cli-Made s' (backend.new_docker_cli st'.world) st'
        (new_service-Own s.project_name enabled s.cli st)

  -- A service that DryRunMode returns is one of a dry run, and its cli writes to its own two buffers.
  pub dry_run_mode-Own :
      (s s' : Service) (st st' : Store W)
      → dry_run_mode backend s st ≡ (ok s', st')
      → Own s' st' × (s'.dry_run ≡ true)
  dry_run_mode-Own s s' st st' h = subst Made h (made s st)
