-- ===== src/Compose/Preload.antt =====
-- compose/service/loader.go: `PreloadConfigDetails`, which reads and parses config files ahead.
-- `read_file` is os.ReadFile and `parse_yaml` is compose-go's; `V` is a value of a config and `N` an
-- environment.
pub mod Files
use musicbox.Prelude.{◌≡◌, ◌≢◌, refl, sym, ap, ◌∙◌, List, [], ◌∷◌, ◌++◌}
use mathlib.Core.Path.{subst}
use musicbox.Prelude.Codes.{codes}
use musicbox.Prelude.Anywhere.{Text}
use musicbox.Fsutil.Path.{dir}
use musicbox.Compose.Controller.{Result, ok, failed}

pub record ConfigFile (V : Type 0) : Type 0 where
  pub filename : Text
  pub content : Text
  pub config : List (Text × V)

pub record ConfigDetails (V N : Type 0) : Type 0 where
  pub version : Text
  pub working_dir : Text
  pub config_files : List (ConfigFile V)
  pub environment : N

pub data LoadError (E : Type 0) : Type 0 where
  no_config_files : LoadError E
  caused_by : E → LoadError E

-- The directory of the first file, where none is given.
working_dir_or : Text → Text → Text
working_dir_or [] filename = codes "./" ++ dir filename
working_dir_or (c ∷ working_dir) filename = c ∷ working_dir

module _ {V E : Type 0} (read_file : Text → Result Text E)
    (parse_yaml : Text → Result (List (Text × V)) E) where
  -- The content of a file, where it has none.
  content_of : Text → Text → Result Text E
  content_of filename [] = read_file filename
  content_of filename (c ∷ content) = ok (c ∷ content)

  config_of : Text → List (Text × V) → Result (List (Text × V)) E
  config_of content [] = parse_yaml content
  config_of content (v ∷ config) = ok (v ∷ config)

  with_config : Text → Text → Result (List (Text × V)) E → Result (ConfigFile V) E
  with_config filename content (failed e) = failed e
  with_config filename content (ok config) =
      ok (record { filename = filename; content = content; config = config })

  with_content : ConfigFile V → Result Text E → Result (ConfigFile V) E
  unfolding config_of with_config
  with_content f (failed e) = failed e
  with_content f (ok content) = with_config f.filename content (config_of content f.config)

  -- One round of the loop.
  preload_file : ConfigFile V → Result (ConfigFile V) E
  unfolding content_of with_content
  preload_file f = with_content f (content_of f.filename f.content)

  preload_rest : ConfigFile V → Result (List (ConfigFile V)) E → Result (List (ConfigFile V)) E
  preload_rest f (failed e) = failed e
  preload_rest f (ok files) = ok (f ∷ files)

  preload_first :
      Result (ConfigFile V) E → Result (List (ConfigFile V)) E → Result (List (ConfigFile V)) E
  unfolding preload_rest
  preload_first (failed e) rest = failed e
  preload_first (ok f) rest = preload_rest f rest

  -- The loop, which stops at the first error.
  preload_files : List (ConfigFile V) → Result (List (ConfigFile V)) E
  unfolding preload_file preload_first
  preload_files [] = ok []
  preload_files (f ∷ files) = preload_first (preload_file f) (preload_files files)

  with_files :
      {N : Type 0}
      → ConfigDetails V N
      → Text
      → Result (List (ConfigFile V)) E
      → Result (ConfigDetails V N) (LoadError E)
  with_files conf working_dir (failed e) = failed (caused_by e)
  with_files conf working_dir (ok files) =
      ok (record conf { working_dir = working_dir; config_files = files })

  preload_from :
      {N : Type 0}
      → ConfigDetails V N
      → List (ConfigFile V)
      → Result (ConfigDetails V N) (LoadError E)
  unfolding working_dir_or with_files preload_files
  preload_from conf [] = failed no_config_files
  preload_from conf (f ∷ files) =
      with_files conf (working_dir_or conf.working_dir f.filename) (preload_files (f ∷ files))

  -- `PreloadConfigDetails`; what it clones is a value here.
  unfoldable pub preload_config_details :
      {N : Type 0} → ConfigDetails V N → Result (ConfigDetails V N) (LoadError E)
  unfolding preload_from
  preload_config_details conf = preload_from conf conf.config_files

  ok_injective : {A : Type 0} (a b : A) → ◌≡◌ {A = Result A E} (ok a) (ok b) → a ≡ b
  ok_injective a b h = ap (λ r. elim r [ ok x ↦ x | failed e ↦ b ]) h

  content_again :
      (filename content content' : Text)
      → content_of filename content ≡ ok content'
      → content_of filename content' ≡ ok content'
  unfolding content_of
  content_again filename content (c ∷ content') h = refl
  content_again filename [] [] h = h
  content_again filename (c ∷ content) [] h = absurd (cc h)

  config_again :
      (content : Text) (config config' : List (Text × V))
      → config_of content config ≡ ok config'
      → config_of content config' ≡ ok config'
  unfolding config_of
  config_again content config (v ∷ config') h = refl
  config_again content [] [] h = h
  config_again content (v ∷ config) [] h = absurd (cc h)

  with_config_ok :
      (filename content : Text) (got : Result (List (Text × V)) E) (f' : ConfigFile V)
      → with_config filename content got ≡ ok f'
      → (got ≡ ok f'.config) × (f'.filename ≡ filename) × (f'.content ≡ content)
  unfolding with_config
  with_config_ok filename content (failed e) f' h = absurd (cc h)
  with_config_ok filename content (ok config) f' h =
      let same =
        ok_injective (record { filename = filename; content = content; config = config }) f' h in
      (ap (λ f. ok f.config) same, ap (λ f. f.filename) (sym same), ap (λ f. f.content) (sym same))

  with_content_ok :
      (f f' : ConfigFile V) (got : Result Text E)
      → with_content f got ≡ ok f'
      → (got ≡ ok f'.content)
        × (config_of f'.content f.config ≡ ok f'.config)
        × (f'.filename ≡ f.filename)
  unfolding with_content
  with_content_ok f f' (failed e) h = absurd (cc h)
  with_content_ok f f' (ok content) h =
      let (config, name, same) =
        with_config_ok f.filename content (config_of content f.config) f' h in
      (ap ok (sym same), ap (λ c. config_of c f.config) same ∙ config, name)

  abbrev Loaded : ConfigFile V → Type 0
  Loaded f = preload_file f ≡ ok f

  preload_file-Loaded : (f f' : ConfigFile V) → preload_file f ≡ ok f' → Loaded f'
  unfolding preload_file with_content with_config
  preload_file-Loaded f f' h =
      let (content, config, name) = with_content_ok f f' (content_of f.filename f.content) h in
      let again =
        content_again f'.filename f.content f'.content
          (ap (λ n. content_of n f.content) name ∙ content) in
      rw (again, config_again f'.content f.config f'.config config) refl

  preload_first_ok :
      (got : Result (ConfigFile V) E) (rest : Result (List (ConfigFile V)) E)
      (files' : List (ConfigFile V))
      → preload_first got rest ≡ ok files'
      → (f' : ConfigFile V) × (rest' : List (ConfigFile V)) × (got ≡ ok f')
        × (rest ≡ ok rest')
        × (f' ∷ rest' ≡ files')
  unfolding preload_first preload_rest
  preload_first_ok (failed e) rest files' h = absurd (cc h)
  preload_first_ok (ok f') (failed e) files' h = absurd (cc h)
  preload_first_ok (ok f') (ok rest') files' h =
      (f', rest', refl, refl, ok_injective (f' ∷ rest') files' h)

  preload_files-again :
      (files files' : List (ConfigFile V))
      → preload_files files ≡ ok files'
      → preload_files files' ≡ ok files'
  unfolding preload_files preload_first preload_rest
  preload_files-again [] [] h = refl
  preload_files-again [] (f' ∷ files') h = absurd (cc h)
  preload_files-again (f ∷ files) files' h =
      let (f', rest', got, rest, same) =
        preload_first_ok (preload_file f) (preload_files files) files' h in
      rw (sym same, preload_file-Loaded f f' got, preload_files-again files rest' rest) refl

  with_files_ok :
      {N : Type 0} (conf conf' : ConfigDetails V N) (working_dir : Text)
      (got : Result (List (ConfigFile V)) E)
      → with_files conf working_dir got ≡ ok conf'
      → (files' : List (ConfigFile V)) × (got ≡ ok files')
        × ◌≡◌ {A = ConfigDetails V N}
            (record conf { working_dir = working_dir; config_files = files' })
            conf'
  unfolding with_files
  with_files_ok conf conf' working_dir (failed e) h = absurd (cc h)
  with_files_ok conf conf' working_dir (ok files') h =
      (files', refl, ap (λ r. elim r [ ok x ↦ x | failed e ↦ conf' ]) h)

  working_dir_again :
      (working_dir a b : Text)
      → working_dir_or (working_dir_or working_dir a) b ≡ working_dir_or working_dir a
  unfolding working_dir_or
  working_dir_again [] a b = refl
  working_dir_again (c ∷ working_dir) a b = refl

  preload_made :
      {N : Type 0} (conf : ConfigDetails V N) (working_dir a : Text)
      (files files' : List (ConfigFile V))
      → preload_files files ≡ ok files'
      → files ≢ []
      → preload_from
          (record conf { working_dir = working_dir_or working_dir a; config_files = files' })
          files'
        ≡ ok (record conf { working_dir = working_dir_or working_dir a; config_files = files' })
  unfolding preload_from with_files preload_files
  preload_made conf working_dir a [] files' h filled = elim (filled refl) [ ]
  preload_made conf working_dir a (f ∷ files) [] h filled =
      let (f', rest', got, rest, same) =
        preload_first_ok (preload_file f) (preload_files files) [] h in
      absurd (cc same)
  preload_made conf working_dir a (f ∷ files) (f' ∷ files') h filled =
      rw
        (
          working_dir_again working_dir a f'.filename,
          preload_files-again (f ∷ files) (f' ∷ files') h,
        )
        refl

  preload_from-again :
      {N : Type 0} (conf conf' : ConfigDetails V N) (files : List (ConfigFile V))
      → preload_from conf files ≡ ok conf'
      → preload_from conf' conf'.config_files ≡ ok conf'
  unfolding preload_from with_files
  preload_from-again conf conf' [] h = absurd (cc h)
  preload_from-again conf conf' (f ∷ files) h =
      let working_dir = working_dir_or conf.working_dir f.filename in
      let (files', got, made) =
        with_files_ok conf conf' working_dir (preload_files (f ∷ files)) h in
      subst (λ c. preload_from c c.config_files ≡ ok c) made
        (preload_made conf conf.working_dir f.filename (f ∷ files) files' got (λ e. cc))

  -- What PreloadConfigDetails returns is returned again when it is preloaded: its files have a content
  -- and a config, or reading and parsing them gives empty ones, and its working directory is given.
  pub preload_config_details-again :
      {N : Type 0} (conf conf' : ConfigDetails V N)
      → preload_config_details conf ≡ ok conf'
      → preload_config_details conf' ≡ ok conf'
  unfolding preload_config_details
  preload_config_details-again conf conf' h = preload_from-again conf conf' conf.config_files h
