-- ===== src/Compose/Output.antt =====
-- compose/service/output.go: the lines that docker compose prints of the resources that it changes,
-- decoded. Indexing behind the end of a text is a panic of the code and a value here.
pub mod Bytes
pub mod Services
pub mod Names
pub mod Format
pub mod Printed
pub mod Keyed
pub mod Parse
mod Tests
use musicbox.Prelude.{
  ℕ, zero, suc, ◌-◌, Bool, true, false, ◌&&◌, ◌||◌, Option, none, some, List, [], ◌∷◌, ltb, leb,
  ◌==◌, if◌then◌else◌, drop, length,
}
use musicbox.Prelude.Codes.{codes}
use musicbox.Prelude.Signed.{ℤ, pos}
use musicbox.Prelude.Anywhere.{Text}
use musicbox.Fsutil.Text.{has_prefix}
use musicbox.Compose.ParseInt.{parse_int}
use musicbox.Compose.OutputLine.{
  Resource, container, volume, network, State, OutputLine, Project, resource_text, state_text,
  states, dry_run_mode_prefix, trim_from, trim_left, cut_prefix,
}

-- What `readResourceName` returns: a name, which may be empty, a number and the rest.
pub data NameRead : Type 0 where
  name_read : Text → ℤ → Text → NameRead
  name_panic : NameRead

-- `readResourceType`
unfoldable pub read_resource_type : Text → Option Resource × Text
unfolding trim_from
read_resource_type s =
    let s = trim_left s in
    if has_prefix s (resource_text container)
    then (some container, cut_prefix s (resource_text container))
    else if has_prefix s (resource_text volume)
    then (some volume, cut_prefix s (resource_text volume))
    else if has_prefix s (resource_text network)
    then (some network, cut_prefix s (resource_text network))
    else (none, s)

-- The bytes before the first space, and those from it on.
unfoldable pub before_space : Text → Text
before_space [] = []
before_space (c ∷ s) = let rest = before_space s in if c == b' ' then [] else c ∷ rest

unfoldable pub from_space : Text → Text
from_space [] = []
from_space (c ∷ s) = let rest = from_space s in if c == b' ' then c ∷ s else rest

-- The loop over the services. A name that the text goes on with, and no dash behind it, is passed by.
unfoldable pub find_service : List Text → Text → NameRead
unfolding before_space from_space
find_service [] s = name_read [] (pos 0) s
find_service (name ∷ names) s =
    let later = find_service names s in
    if has_prefix s name
    then elim (drop (length name) s) [
      | [] ↦ name_panic
      | c ∷ rest ↦
          if c == b'-'
          then name_read name (parse_int (before_space rest)) (from_space rest)
          else later
    ]
    else later

-- `s[0] == '"'` and the step behind it; `s` is not empty.
abbrev cut_quote : Text → Text
cut_quote [] = []
cut_quote (c ∷ s) = if c == b'"' then s else c ∷ s

-- The loops over the names of networks and of volumes: a name has a quote or a space behind it.
unfoldable pub find_name : List Text → Text → NameRead
find_name [] s = name_read [] (pos 0) s
find_name (name ∷ names) s =
    let later = find_name names s in
    if has_prefix s name
    then elim (drop (length name) s) [
      | [] ↦ name_panic
      | c ∷ rest ↦
          if c == b'"' || c == b' ' then name_read name (pos 0) (cut_quote (c ∷ rest)) else later
    ]
    else later

-- Go's `<` on strings.
abbrev pub less_text : Text → Text → Bool
less_text s [] = false
less_text [] (c ∷ t) = true
less_text (c ∷ s) (d ∷ t) = ltb c d || (c == d && less_text s t)

-- `sort.Strings`, read from the end: the greatest name first.
unfoldable pub insert_text : Text → List Text → List Text
insert_text t [] = t ∷ []
insert_text t (u ∷ us) =
    let rest = insert_text t us in if less_text t u then u ∷ rest else t ∷ u ∷ us

unfoldable pub sorted_down : List Text → List Text
unfolding insert_text
sorted_down [] = []
sorted_down (t ∷ ts) = insert_text t (sorted_down ts)

-- The rest of `readResourceName`, behind the project's name.
unfoldable pub find_resource : Project → Resource → Text → NameRead
unfolding find_service find_name sorted_down
find_resource project container s = find_service project.services s
find_resource project network s = find_name (sorted_down project.network_names) s
find_resource project volume s = find_name project.volumes s

-- What is behind the project's name and the byte that follows it.
cut_project : Text → Text → Option Text
cut_project project_name s =
    if has_prefix s project_name
    then elim (drop (length project_name) s) [ [] ↦ none | c ∷ rest ↦ some rest ]
    else some s

find_cut : Project → Resource → Option Text → NameRead
unfolding find_resource
find_cut project resource none = name_panic
find_cut project resource (some s) = find_resource project resource s

-- `readResourceName`
unfoldable pub read_resource_name : Text → Text → Project → Resource → NameRead
unfolding cut_project find_cut
read_resource_name s project_name project resource = elim (trim_left s) [
  | [] ↦ name_panic
  | c ∷ s ↦ find_cut project resource (cut_project project_name (cut_quote (c ∷ s)))
]

first_state : List State → Text → Option State × Text
first_state [] s = (none, s)
first_state (state ∷ states) s =
    let later = first_state states s in
    if has_prefix s (state_text state) then (some state, cut_prefix s (state_text state)) else later

-- `readState`
unfoldable pub read_state : Text → Option State × Text
unfolding first_state
read_state s = first_state states (trim_left s)

pub data DecodeError : Type 0 where
  unknown_resource_type unknown_resource_name unknown_state : DecodeError

pub data Decoded : Type 0 where
  decoded : OutputLine → Decoded
  undecoded : DecodeError → Text → Decoded
  decode_panic : Decoded

module _ (org_line project_name : Text) (project : Project) (dry_run : Bool) where
  with_state : Resource → Text → ℤ → Option State × Text → Decoded
  with_state resource name num (none, s) = undecoded unknown_state org_line
  with_state resource name num (some state, desc) = decoded (record {
    name = name;
    num = num;
    resource = resource;
    state = state;
    desc = desc;
    dry_run_mode = dry_run;
  })

  with_name : Resource → NameRead → Decoded
  unfolding with_state
  with_name resource name_panic = decode_panic
  with_name resource (name_read [] num s) = undecoded unknown_resource_name org_line
  with_name resource (name_read (c ∷ name) num s) =
      with_state resource (c ∷ name) num (read_state s)

  with_resource : Option Resource × Text → Decoded
  unfolding with_name
  with_resource (none, s) = undecoded unknown_resource_type org_line
  with_resource (some resource, s) =
      with_name resource (read_resource_name s project_name project resource)

-- `DecodeComposeOutputLine`
unfoldable pub decode_compose_output_line : Text → Text → Project → Bool → Decoded
unfolding with_resource
decode_compose_output_line line project_name project is_dry_run_mode =
    let s = trim_left line in
    with_resource line project_name project (has_prefix s dry_run_mode_prefix || is_dry_run_mode)
      (read_resource_type (cut_prefix s dry_run_mode_prefix))
