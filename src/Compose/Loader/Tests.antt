-- ===== src/Compose/Loader/Tests.antt =====
-- compose/service/loader.go and loader_proxy.go: a witness, with files of one letter.
use musicbox.Prelude.{ℕ, ◌≡◌, refl, none, List, [], ◌∷◌}
use musicbox.Prelude.Codes.{codes}
use musicbox.Prelude.Anywhere.{Text}
use musicbox.Compose.Controller.{Result, ok}
use musicbox.Compose.Preload.{preload_config_details}
use musicbox.Compose.Loader.{Loader, preload, PreloadEnds, preload-PreloadEnds}

letter : Text → Result Text ℕ
letter name = ok (codes "x")

parsed : Text → Result (List (Text × ℕ)) ℕ
parsed content = ok ((content, 1) ∷ [])

abbrev unread : Loader ℕ ℕ ℕ
unread = record {
  docker_cli = 0;
  project_name = codes "shop";
  config_details = record {
    version = [];
    working_dir = [];
    config_files = record { filename = codes "app/compose.yml"; content = []; config = [] } ∷ [];
    environment = 0;
  };
  options = [];
}

preload-PreloadEnds_example : PreloadEnds letter parsed unread (preload letter parsed unread)
preload-PreloadEnds_example = preload-PreloadEnds letter parsed unread

no_error : (preload letter parsed unread).0 ≡ none
unfolding preload letter parsed preload_config_details
no_error = refl
