-- ===== src/Compose/Output/Tests.antt =====
-- compose/service/output.go: witnesses and tests.
use musicbox.Prelude.{◌≡◌, ◌≢◌, refl, ap, ◌∙◌, true, false, some, none, [], ◌∷◌, inl, inr, arith}
use musicbox.Prelude.Codes.{codes}
use musicbox.Prelude.Signed.{pos}
use musicbox.Prelude.Anywhere.{Text, same_text}
use musicbox.Fsutil.OpenRandom.{decimal}
use musicbox.Compose.OutputLine.{container, network, created, OutputLine, Project}
use musicbox.Compose.Output.{
  decoded, decode_panic, decode_compose_output_line, read_resource_type, read_resource_name,
  read_state,
}
use musicbox.Compose.Output.Format.{plain, print_line}
use musicbox.Compose.Output.Printed.{decode-print_line}
use musicbox.Compose.Output.Parse.{
  Output, parse_output, parse_output-last_said, scan_lines, key_of, last_said, or_else,
}
use musicbox.Compose.Output.Keyed.{lookup, same_key}

abbrev app : Text
app = codes "app"

abbrev two_services : Project
two_services = record {
  services = codes "web" ∷ codes "db" ∷ [];
  volumes = [];
  network_names = codes "app" ∷ codes "app back" ∷ [];
}

abbrev web_created : OutputLine
web_created = record {
  name = codes "web";
  num = pos 12;
  resource = container;
  state = created;
  desc = codes " 0.1s";
  dry_run_mode = true;
}

decode-print_line_example :
    decode_compose_output_line
      (print_line true plain app container (codes "web") 12 created (codes " 0.1s"))
      app
      two_services
      false
    ≡ decoded web_created
decode-print_line_example =
    decode-print_line app two_services true false plain container (codes "web") 12 created
      (codes " 0.1s") (b'a', codes "pp", refl, omega arith, omega arith)
      (inl refl, ((refl, inl refl), ((refl, inr refl), tt))) (λ h. cc) (omega arith) refl

-- A line that ends behind the name of its resource.
cut_off : decode_compose_output_line (codes " Container") app two_services false ≡ decode_panic
unfolding decode_compose_output_line read_resource_type read_resource_name read_state
cut_off = refl

-- A name that holds another one and a space.
longer_network :
    decode_compose_output_line (codes " Network app_app back  Created") app two_services false
    ≡ decoded (record {
      name = codes "app back";
      num = pos 0;
      resource = network;
      state = created;
      desc = [];
      dry_run_mode = false;
    })
unfolding decode_compose_output_line read_resource_type read_resource_name read_state
longer_network = refl

abbrev nothing : Output
nothing = record { resources = []; out = []; err = [] }

abbrev printed : Text
printed = print_line true plain app container (codes "web") 12 created (codes " 0.1s")

decodes :
    (line : Text)
    → line ≡ printed
    → decode_compose_output_line line app two_services false ≢ decode_panic
decodes line same h =
    let e : decode_compose_output_line line app two_services false ≡ decoded web_created =
      ap (λ l. decode_compose_output_line l app two_services false) same
      ∙ decode-print_line_example in
    absurd (cc (e, h))

parse_output-last_said_example :
    (new : Output) × (parse_output app two_services false nothing printed [] ≡ some new)
    × (new.out ≡ printed)
    × (new.err ≡ [])
    × (lookup (key_of web_created) new.resources
        ≡ or_else (last_said app two_services false (key_of web_created) (scan_lines [])) (
            or_else
              (last_said app two_services false (key_of web_created) (scan_lines printed))
              none))
unfolding scan_lines lookup decimal
parse_output-last_said_example =
    parse_output-last_said app two_services false nothing printed [] (key_of web_created)
      (decodes printed refl, tt) tt

-- What that finds of the line.
web_said : last_said app two_services false (key_of web_created) (printed ∷ []) ≡ some web_created
unfolding same_key same_text
web_said = rw decode-print_line_example refl
