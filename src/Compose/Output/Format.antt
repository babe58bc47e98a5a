-- ===== src/Compose/Output/Format.antt =====
-- compose/service/output.go: the format of the lines that docker compose prints, and which of their
-- names are told apart.
use musicbox.Prelude.{ℕ, ◌≡◌, ◌⊎◌, ◌<◌, ◌≤◌, Bool, true, false, [], ◌∷◌, ◌++◌}
use musicbox.Prelude.Codes.{codes}
use musicbox.Prelude.Anywhere.{Text, Any, All}
use musicbox.Fsutil.OpenRandom.{decimal}
use musicbox.Compose.OutputLine.{
  Resource, container, volume, network, State, Project, resource_text, state_text,
}
use musicbox.Compose.Output.Bytes.{dash, space}
use musicbox.Compose.Output.Services.{Apart}
use musicbox.Compose.Output.Names.{Starts, Unlike}

-- A name is printed as it is, or with quotes round it.
pub data Quoting : Type 0 where
  plain quoted : Quoting

-- Behind the project's name: a dash, the service and its number, or an underscore and the name, which
-- may have quotes if it is a volume's.
abbrev pub printed_name : Text → Quoting → Resource → Text → ℕ → Text
printed_name project_name quoting container name n =
    project_name ++ (dash ∷ name ++ (dash ∷ decimal 19 n))
printed_name project_name quoting network name n = project_name ++ (b'_' ∷ name)
printed_name project_name plain volume name n = project_name ++ (b'_' ∷ name)
printed_name project_name quoted volume name n = b'"' ∷ project_name ++ (b'_' ∷ name ++ (b'"' ∷ []))

abbrev pub dry_text : Bool → Text
dry_text true = codes " DRY-RUN MODE - "
dry_text false = []

-- A line, with what may follow the state.
abbrev pub print_line : Bool → Quoting → Text → Resource → Text → ℕ → State → Text → Text
print_line dry quoting project_name resource name n state desc =
    dry_text dry
    ++ (space ∷ resource_text resource
        ++ (space ∷ printed_name project_name quoting resource name n
            ++ (space ∷ space ∷ state_text state ++ desc)))

-- The number that a line has.
abbrev pub printed_num : Resource → ℕ → ℕ
printed_num container n = n
printed_num volume n = 0
printed_num network n = 0

-- The name is one of those the resource may have, and no other one is taken for it. For services: none
-- that has a dash behind it is how the name, with a dash behind it, starts. For volumes, which the code
-- tries in any order: of the name and another one, neither starts the other with a space or a quote
-- behind it. For networks, which it tries from the greatest on: the name starts none of the others so.
abbrev pub Known : Project → Resource → Text → Type 0
Known project container name =
    Any (λ o. o ≡ name) project.services × All (Apart name) project.services
Known project volume name =
    Any (λ o. o ≡ name) project.volumes × All (λ o. (o ≡ name) ⊎ Unlike name o) project.volumes
Known project network name =
    Any (λ o. o ≡ name) project.network_names
    × All (λ o. (o ≡ name) ⊎ (Starts name o → ⊥)) project.network_names

-- A name of a project starts with a letter or a digit.
abbrev pub StartsPlain : Text → Type 0
StartsPlain t = (c : ℕ) × (s : Text) × (t ≡ c ∷ s) × (b'0' ≤ c) × (c < 128)

-- Nothing follows the state, or a space does.
abbrev pub IsDesc : Text → Type 0
IsDesc [] = Unit
IsDesc (c ∷ s) = c ≡ space
