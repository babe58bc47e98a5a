-- ===== src/Compose/OutputLine.antt =====
-- compose/service/output.go: the data of the lines that docker compose prints, their words, and what
-- the decoder uses of Go's packages strings and unicode.
use musicbox.Prelude.{ℕ, zero, suc, ◌-◌, Bool, List, [], ◌∷◌, ◌==◌, if◌then◌else◌, drop, length}
use musicbox.Prelude.Codes.{codes}
use musicbox.Prelude.Signed.{ℤ}
use musicbox.Prelude.Anywhere.{Text}
use musicbox.Fsutil.Text.{has_prefix}

pub data Resource : Type 0 where
  container volume network : Resource

pub data State : Type 0 where
  error creating starting started waiting healthy exited restarting restarted running : State
  created stopping stopped killing killed removing removed skipped recreate recreated : State

pub record OutputLine : Type 0 where
  pub name : Text
  pub num : ℤ
  pub resource : Resource
  pub state : State
  pub desc : Text
  pub dry_run_mode : Bool

-- What the decoder reads of compose-go's `types.Project`: the names of the services and the keys of
-- the volumes, each in the order in which the loop over the map comes to them, and `NetworkNames`.
pub record Project : Type 0 where
  pub services : List Text
  pub volumes : List Text
  pub network_names : List Text

abbrev pub resource_text : Resource → Text
resource_text container = codes "Container"
resource_text volume = codes "Volume"
resource_text network = codes "Network"

abbrev pub state_text : State → Text
state_text error = codes "Error"
state_text creating = codes "Creating"
state_text starting = codes "Starting"
state_text started = codes "Started"
state_text waiting = codes "Waiting"
state_text healthy = codes "Healthy"
state_text exited = codes "Exited"
state_text restarting = codes "Restarting"
state_text restarted = codes "Restarted"
state_text running = codes "Running"
state_text created = codes "Created"
state_text stopping = codes "Stopping"
state_text stopped = codes "Stopped"
state_text killing = codes "Killing"
state_text killed = codes "Killed"
state_text removing = codes "Removing"
state_text removed = codes "Removed"
state_text skipped = codes "Skipped"
state_text recreate = codes "Recreate"
state_text recreated = codes "Recreated"

-- The longer ones first.
abbrev pub states : List State
states =
    restarting ∷ restarted ∷ recreated ∷ creating ∷ starting ∷ recreate ∷ removing ∷ stopping
    ∷ healthy ∷ running ∷ created ∷ stopped ∷ killing ∷ removed ∷ skipped ∷ waiting ∷ started
    ∷ exited ∷ killed ∷ error ∷ []

abbrev pub dry_run_mode_prefix : Text
dry_run_mode_prefix = codes "DRY-RUN MODE - "

-- The encodings of the runes that `unicode.IsSpace` holds of.
abbrev space_runes : List Text
space_runes =
    (9 ∷ [])
    ∷ (10 ∷ [])
    ∷ (11 ∷ [])
    ∷ (12 ∷ [])
    ∷ (13 ∷ [])
    ∷ (32 ∷ [])
    ∷ (194 ∷ 133 ∷ [])
    ∷ (194 ∷ 160 ∷ [])
    ∷ (225 ∷ 154 ∷ 128 ∷ [])
    ∷ (226 ∷ 128 ∷ 168 ∷ [])
    ∷ (226 ∷ 128 ∷ 169 ∷ [])
    ∷ (226 ∷ 128 ∷ 175 ∷ [])
    ∷ (226 ∷ 128 ∷ 128 ∷ [])
    ∷ (226 ∷ 128 ∷ 129 ∷ [])
    ∷ (226 ∷ 128 ∷ 130 ∷ [])
    ∷ (226 ∷ 128 ∷ 131 ∷ [])
    ∷ (226 ∷ 128 ∷ 132 ∷ [])
    ∷ (226 ∷ 128 ∷ 133 ∷ [])
    ∷ (226 ∷ 128 ∷ 134 ∷ [])
    ∷ (226 ∷ 128 ∷ 135 ∷ [])
    ∷ (226 ∷ 128 ∷ 136 ∷ [])
    ∷ (226 ∷ 128 ∷ 137 ∷ [])
    ∷ (226 ∷ 128 ∷ 138 ∷ [])
    ∷ (226 ∷ 129 ∷ 159 ∷ [])
    ∷ (227 ∷ 128 ∷ 128 ∷ [])
    ∷ []

abbrev first_length : List Text → Text → ℕ
first_length [] s = 0
first_length (rune ∷ runes) s =
    let rest = first_length runes s in if has_prefix s rune then length rune else rest

-- The length of the space that the text starts with, or 0.
abbrev space_length : Text → ℕ
space_length s = first_length space_runes s

-- `n` bytes of a space are still to be skipped.
unfoldable pub trim_from : ℕ → Text → Text
trim_from n [] = []
trim_from (suc n) (c ∷ s) = trim_from n s
trim_from zero (c ∷ s) =
    let rest = trim_from (space_length (c ∷ s) - 1) s in
    if space_length (c ∷ s) == 0 then c ∷ s else rest

-- `strings.TrimLeftFunc(s, unicode.IsSpace)`
abbrev pub trim_left : Text → Text
trim_left s = trim_from 0 s

-- `strings.CutPrefix`
abbrev pub cut_prefix : Text → Text → Text
cut_prefix s prefix = if has_prefix s prefix then drop (length prefix) s else s
