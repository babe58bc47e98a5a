-- ===== src/Compose/Preload/Files.antt =====
-- compose/service/loader.go: what `PreloadConfigDetails` makes of each file, and where it stops.
use musicbox.Prelude.{◌≡◌, ◌⊎◌, inl, inr, refl, List, [], ◌∷◌, ◌++◌}
use musicbox.Prelude.Codes.{codes}
use musicbox.Prelude.Anywhere.{Text}
use musicbox.Fsutil.Path.{dir}
use musicbox.Compose.Controller.{Result, ok, failed}
use musicbox.Compose.Preload.{
  ConfigFile, ConfigDetails, LoadError, no_config_files, caused_by, working_dir_or, content_of,
  config_of, with_config, with_content, preload_file, preload_rest, preload_first, preload_files,
  with_files, preload_from, preload_config_details,
}

-- The directory that is given, or that of the first file.
abbrev pub IsWorkingDir : Text → Text → Text → Type 0
IsWorkingDir [] filename result = result ≡ codes "./" ++ dir filename
IsWorkingDir (c ∷ given) filename result = result ≡ c ∷ given

module _ {V E : Type 0} (read_file : Text → Result Text E)
    (parse_yaml : Text → Result (List (Text × V)) E) where
  -- The content that is given, or what is read of the file.
  abbrev pub IsContent : Text → Text → Text → Type 0
  IsContent filename [] content = read_file filename ≡ ok content
  IsContent filename (c ∷ given) content = content ≡ c ∷ given

  -- The config that is given, or what the content is parsed to.
  abbrev pub IsConfig : Text → List (Text × V) → List (Text × V) → Type 0
  IsConfig content [] config = parse_yaml content ≡ ok config
  IsConfig content (v ∷ given) config = config ≡ v ∷ given

  abbrev pub IsPreloaded : ConfigFile V → ConfigFile V → Type 0
  IsPreloaded f f' =
      (f'.filename ≡ f.filename)
      × IsContent f.filename f.content f'.content
      × IsConfig f'.content f.config f'.config

  -- The file cannot be read, or its content not be parsed.
  abbrev pub FailsWith : E → ConfigFile V → Type 0
  FailsWith e f =
      ((f.content ≡ []) × (read_file f.filename ≡ failed e))
      ⊎ ((content : Text) × IsContent f.filename f.content content
          × (f.config ≡ [])
          × (parse_yaml content ≡ failed e))

  abbrev pub AllPreloaded : List (ConfigFile V) → List (ConfigFile V) → Type 0
  AllPreloaded [] [] = Unit
  AllPreloaded [] (f' ∷ files') = ⊥
  AllPreloaded (f ∷ files) [] = ⊥
  AllPreloaded (f ∷ files) (f' ∷ files') = IsPreloaded f f' × AllPreloaded files files'

  -- The first file that fails does so with this error.
  abbrev pub StopsWith : E → List (ConfigFile V) → Type 0
  StopsWith e [] = ⊥
  StopsWith e (f ∷ files) =
      FailsWith e f ⊎ (((f' : ConfigFile V) × IsPreloaded f f') × StopsWith e files)

  abbrev FileEnds : ConfigFile V → Result (ConfigFile V) E → Type 0
  FileEnds f (ok f') = IsPreloaded f f'
  FileEnds f (failed e) = FailsWith e f

  parsed_ends :
      (f : ConfigFile V) (content : Text) (got : Result (List (Text × V)) E)
      → IsContent f.filename f.content content
      → f.config ≡ []
      → parse_yaml content ≡ got
      → FileEnds f (with_config read_file parse_yaml f.filename content got)
  unfolding with_config
  parsed_ends f content (ok config) is_content none_given parsed =
      (refl, is_content, rw none_given parsed)
  parsed_ends f content (failed e) is_content none_given parsed =
      inr (content, is_content, none_given, parsed)

  with_config_ends :
      (f : ConfigFile V) (content : Text) (given : List (Text × V))
      → IsContent f.filename f.content content
      → f.config ≡ given
      → FileEnds f (
          with_config read_file parse_yaml f.filename content
            (config_of read_file parse_yaml content given))
  unfolding with_config config_of
  with_config_ends f content (v ∷ given) is_content e = (refl, is_content, rw e refl)
  with_config_ends f content [] is_content e =
      parsed_ends f content (parse_yaml content) is_content e refl

  read_ends :
      (f : ConfigFile V) (got : Result Text E)
      → f.content ≡ []
      → read_file f.filename ≡ got
      → FileEnds f (with_content read_file parse_yaml f got)
  unfolding with_content
  read_ends f (ok content) none_given got =
      with_config_ends f content f.config (rw none_given got) refl
  read_ends f (failed e) none_given got = inl (none_given, got)

  content_ends :
      (f : ConfigFile V) (given : Text)
      → f.content ≡ given
      → FileEnds f
          (with_content read_file parse_yaml f (content_of read_file parse_yaml f.filename given))
  unfolding with_content content_of
  content_ends f (c ∷ given) e = with_config_ends f (c ∷ given) f.config (rw e refl) refl
  content_ends f [] e = read_ends f (read_file f.filename) e refl

  preload_file_ends : (f : ConfigFile V) → FileEnds f (preload_file read_file parse_yaml f)
  unfolding preload_file
  preload_file_ends f = content_ends f f.content refl

  abbrev FilesEnd : List (ConfigFile V) → Result (List (ConfigFile V)) E → Type 0
  FilesEnd files (ok files') = AllPreloaded files files'
  FilesEnd files (failed e) = StopsWith e files

  first_ends :
      (f : ConfigFile V) (files : List (ConfigFile V)) (got : Result (ConfigFile V) E)
      (rest : Result (List (ConfigFile V)) E)
      → FileEnds f got
      → FilesEnd files rest
      → FilesEnd (f ∷ files) (preload_first read_file parse_yaml got rest)
  unfolding preload_first preload_rest
  first_ends f files (failed e) rest fails h = inl fails
  first_ends f files (ok f') (failed e) done h = inr ((f', done), h)
  first_ends f files (ok f') (ok files') done h = (done, h)

  preload_files_end :
      (files : List (ConfigFile V)) → FilesEnd files (preload_files read_file parse_yaml files)
  unfolding preload_files
  preload_files_end [] = tt
  preload_files_end (f ∷ files) =
      first_ends f files (preload_file read_file parse_yaml f)
        (preload_files read_file parse_yaml files) (preload_file_ends f) (preload_files_end files)

  is_working_dir :
      (given filename : Text) → IsWorkingDir given filename (working_dir_or given filename)
  unfolding working_dir_or
  is_working_dir [] filename = refl
  is_working_dir (c ∷ given) filename = refl

  -- The details with a working directory and with all files preloaded, or the error of the first file
  -- that fails, or that there is none.
  abbrev pub DetailsEnd :
      {N : Type 0}
      → ConfigDetails V N
      → List (ConfigFile V)
      → Result (ConfigDetails V N) (LoadError E)
      → Type 0
  DetailsEnd conf [] (ok conf') = ⊥
  DetailsEnd conf (f ∷ files) (ok conf') =
      IsWorkingDir conf.working_dir f.filename conf'.working_dir
      × AllPreloaded (f ∷ files) conf'.config_files
      × (conf'.version ≡ conf.version)
      × (conf'.environment ≡ conf.environment)
  DetailsEnd conf files (failed no_config_files) = files ≡ []
  DetailsEnd conf files (failed (caused_by e)) = StopsWith e files

  with_files_end :
      {N : Type 0} (conf : ConfigDetails V N) (f : ConfigFile V) (files : List (ConfigFile V))
      (got : Result (List (ConfigFile V)) E)
      → FilesEnd (f ∷ files) got
      → DetailsEnd conf
          (f ∷ files)
          (with_files read_file parse_yaml conf (working_dir_or conf.working_dir f.filename) got)
  unfolding with_files
  with_files_end conf f files (failed e) h = h
  with_files_end conf f files (ok files') h =
      (is_working_dir conf.working_dir f.filename, h, refl, refl)

  from_end :
      {N : Type 0} (conf : ConfigDetails V N) (files : List (ConfigFile V))
      → DetailsEnd conf files (preload_from read_file parse_yaml conf files)
  unfolding preload_from
  from_end conf [] = refl
  from_end conf (f ∷ files) =
      with_files_end conf f files (preload_files read_file parse_yaml (f ∷ files))
        (preload_files_end (f ∷ files))

  pub preload_config_details_end :
      {N : Type 0} (conf : ConfigDetails V N)
      → DetailsEnd conf conf.config_files (preload_config_details read_file parse_yaml conf)
  unfolding preload_config_details
  preload_config_details_end conf = from_end conf conf.config_files
