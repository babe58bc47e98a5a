-- ===== src/Compose/Service/Tests.antt =====
-- compose/service/service.go: witnesses, with a docker compose that writes the name of a service.
use musicbox.Prelude.{ℕ, ◌+◌, ◌≡◌, refl, true, false, none, [], ◌∷◌, arith}
use musicbox.Prelude.Codes.{codes}
use musicbox.Compose.Controller.{Result, ok}
use musicbox.Compose.Service.{
  add_docker_compose_label, ComposeProject, start, Backend, Store, Service, create, run,
  dry_run_mode, project_or, add_docker_compose_label,
}
use musicbox.Compose.Service.Streams.{
  Own, Below, Answers, run-Answers, decoded_output, dry_run_mode-loses, dry_run_mode-Own,
}

abbrev shop : ComposeProject
shop = record {
  name = codes "shop";
  working_dir = codes "/srv";
  compose_files = codes "compose.yml" ∷ [];
  services = record { name = codes "web"; custom_labels = [] } ∷ [];
  disabled_services = [];
  volumes = [];
  network_names = [];
}

abbrev writing : Backend ℕ ℕ ℕ ℕ
writing = record {
  api = record {
    project = codes "project";
    service = codes "service";
    version = codes "version";
    working_dir = codes "dir";
    config_files = codes "files";
    oneoff = codes "oneoff";
    compose_version = codes "2";
  };
  with_services_enabled = λ p. p;
  create = λ cli p o w. ((codes " Container shop-web-1  Created", []), none, w + 1);
  call = λ m cli name p o w. ((codes " Container shop-web-1  Started", []), none, w + 1);
  ps = λ cli name p o w. (([], []), ok 0, w);
  new_docker_cli = λ w. (none, w);
  initialize = λ w. (none, w);
}

abbrev opened_shop : Service
opened_shop = record {
  out = 0;
  err = 1;
  dry_run = false;
  cli = 0;
  project_name = codes "shop";
  project = shop;
  proxy = 0;
}

abbrev two_buffers : Store ℕ
two_buffers = record {
  buffers = λ i. [];
  streams = λ i. (0, 1);
  next_buffer = 2;
  next_cli = 1;
  world = 7;
}

opened_shop-Own : Own opened_shop two_buffers
opened_shop-Own = record { of_streams = refl; of_apart = refl; of_out = refl; of_err = refl }

opened_shop-Below : Below writing opened_shop two_buffers
opened_shop-Below = record {
  of_out = omega arith;
  of_err = omega arith;
  of_cli = omega arith;
  of_proxy = refl;
}

run-Answers_example :
    Answers opened_shop (writing.create 0 shop 0 7) (create writing 0 opened_shop two_buffers)
    × Answers opened_shop
        (writing.call start 0 (codes "shop") (project_or none opened_shop) 0 7)
        (run writing start none 0 opened_shop two_buffers)
run-Answers_example = run-Answers writing opened_shop two_buffers 0 start none opened_shop-Own

dry_run_mode-loses_example :
    (run writing start none 0 opened_shop (dry_run_mode writing opened_shop two_buffers).1).0.0
    ≡ decoded_output opened_shop ([], [])
dry_run_mode-loses_example =
    dry_run_mode-loses writing opened_shop two_buffers 0 start none opened_shop-Own
      opened_shop-Below

abbrev labelled : ComposeProject
labelled = add_docker_compose_label writing.api shop

abbrev tried : Result Service ℕ × Store ℕ
tried = dry_run_mode writing opened_shop two_buffers

dry_run_mode-Own_example :
    Own
      (record opened_shop {
        out = 2;
        err = 3;
        dry_run = true;
        cli = 1;
        proxy = 1;
        project = labelled;
      })
      tried.1
    × (true ≡ true)
unfolding dry_run_mode
dry_run_mode-Own_example =
    dry_run_mode-Own writing opened_shop
      (record opened_shop {
        out = 2;
        err = 3;
        dry_run = true;
        cli = 1;
        proxy = 1;
        project = labelled;
      })
      two_buffers tried.1 refl
