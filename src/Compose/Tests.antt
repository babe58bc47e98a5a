-- ===== src/Compose/Tests.antt =====
-- The theorems of the package compose at concrete inputs.
use musicbox.Prelude.{
  true, ℕ, zero, suc, ◌≡◌, ◌↔◌, ◌⊎◌, refl, ap, Option, none, some, List, [], ◌∷◌,
}
use musicbox.Prelude.Codes.{codes}
use musicbox.Prelude.Anywhere.{Any, All}
use musicbox.Compose.Images.{ServiceConfig, compare_project_image}
use musicbox.Compose.Labels.{Labelled, find_services_by_labels, find_services_by_labels_iff}
use musicbox.Compose.RemovalHook.{RemovalHook}
use mathlib.Core.Path.{subst}
use musicbox.Compose.OutputLine.{OutputLine, container, recreate}
use musicbox.Prelude.Signed.{pos}
use musicbox.Compose.Controller.{
  Result, ok, failed, ServiceApi, Quiet, dry_created, Stopped, Created, create, create_ends,
}
use musicbox.Compose.Replacer.{Container, replacer_ids, numbered, IsReplacer, replacer_ids_iff}

abbrev db : ServiceConfig
db = record {
  name = codes "db";
  image = codes "postgres";
  labels = (codes "tier", codes "back") ∷ [];
}

abbrev web : ServiceConfig
web = record { name = codes "web"; image = codes "nginx:1"; labels = [] }

-- The image of the added service is postgres, and its name is reported.
added_name : (compare_project_image (web ∷ []) (db ∷ web ∷ [])).1 ≡ codes "db:latest" ∷ []
unfolding compare_project_image
added_name = refl

find_services_by_labels_iff_example :
    Any (λ s. s ≡ db) (find_services_by_labels (db ∷ web ∷ []) (codes "tier" ∷ []))
    ↔ (Any (λ s. s ≡ db) (db ∷ web ∷ []) × All (Labelled db) (codes "tier" ∷ []))
find_services_by_labels_iff_example =
    find_services_by_labels_iff (db ∷ web ∷ []) (codes "tier" ∷ []) db

-- The second container was made to replace the first, the third one that is gone.
abbrev containers : List Container
containers =
    record { id = codes "a"; replaces = none }
    ∷ record { id = codes "b"; replaces = some (codes "a") }
    ∷ record { id = codes "c"; replaces = some (codes "x") }
    ∷ []

ids_to_remove : replacer_ids containers ≡ codes "b" ∷ []
unfolding replacer_ids
ids_to_remove = refl

replacer_ids_iff_example :
    Any (λ id. id ≡ codes "b") (replacer_ids containers)
    ↔ Any (IsReplacer containers (codes "b")) (numbered 0 containers)
replacer_ids_iff_example = replacer_ids_iff containers (codes "b")

-- A service whose handle 0 counts what it creates, and whose other handles only say so.
abbrev counting_create : ℕ → ℕ → (List OutputLine × Option ℕ) × ℕ
counting_create zero w = (([], none), suc w)
counting_create (suc d) w = (
  (
    record {
      name = codes "db";
      num = pos 1;
      resource = container;
      state = recreate;
      desc = [];
      dry_run_mode = true;
    }
        ∷ [],
    none,
  ),
  w,
)

abbrev counting : ServiceApi ℕ ℕ ℕ
counting = record {
  dry_run_mode = λ d w. (ok 1, w);
  enable_all_service = λ d w. w;
  create = counting_create;
}

abbrev silent : RemovalHook ℕ ℕ
silent names w = (none, w)

abbrev handle : Result ℕ ℕ → ℕ
handle (ok d) = d
handle (failed e) = 0

counting-Quiet : Quiet counting silent (λ w. w) 0
unfolding dry_created
counting-Quiet = record {
  of_dry_run_mode = λ w. refl;
  of_hook = λ names w. refl;
  of_dry_run = λ w v d h. subst (λ c. (counting_create c v).1 ≡ v) (ap handle h) refl;
}

create_ends_example :
    Stopped counting silent (λ w. w) 3 (create counting silent 0 3)
    ⊎ Created counting silent (λ w. w) 0 3 (create counting silent 0 3)
create_ends_example = create_ends counting silent (λ w. w) 0 3 counting-Quiet
