-- ===== src/Storage/Contents.antt =====
-- storage/copy_content.go: `CopyContents` and its validation. What Go's package reflect says of a value
-- is data here: its kind, and of a struct its fields in the order of their definition. `H` is a file
-- system of a handle and `C` one of contents; `E` is an error of a copy, and `W` the world.
pub mod Valid
mod Tests
use musicbox.Prelude.{
  ℕ, zero, suc, Bool, true, false, not, ◌&&◌, ◌||◌, Option, none, some, List, [], ◌∷◌, ◌==◌,
  if◌then◌else◌, length,
}
use musicbox.Prelude.Anywhere.{Text, same_text}

-- What a field holds: `by_value` is a value of a kind, such as a struct, on which `IsNil` panics.
pub data Slot (A : Type 0) : Type 0 where
  nil : Slot A
  holds by_value : A → Slot A

-- A field of a struct; `implements` is whether its type implements the interface that it is to be.
pub record Field (A : Type 0) : Type 0 where
  pub name : Text
  pub exported : Bool
  pub implements : Bool
  pub slot : Slot A

pub data Value (A : Type 0) : Type 0 where
  invalid : Value A
  struct pointer_to : List (Field A) → Value A
  nil_pointer other_kind : Value A

-- A nil pointer is left as it is.
abbrev pub elem : {A : Type 0} → Value A → Value A
elem (pointer_to fields) = struct fields
elem v = v

-- Whether input is valid, an error that wraps ErrInvalidInput, or a panic.
pub data Validity : Type 0 where
  valid refused panics : Validity

abbrev pub and_valid : Validity → Validity → Validity
and_valid valid v = v
and_valid refused v = refused
and_valid panics v = panics

-- `!allowNilField && field.IsNil()`
abbrev pub nil_checked : {A : Type 0} → Bool → Slot A → Validity
nil_checked true s = valid
nil_checked false nil = refused
nil_checked false (holds a) = valid
nil_checked false (by_value a) = panics

abbrev pub require : Bool → Validity
require true = valid
require false = refused

-- A name is one of the map's keys.
abbrev pub has_name : {A : Type 0} → List (Field A) → Text → Bool
has_name [] name = false
has_name (f ∷ fields) name = same_text f.name name || has_name fields name

-- The loop over the handle's fields.
valid_handles : {H : Type 0} → Bool → List (Field H) → Validity
valid_handles allow_nil [] = valid
valid_handles allow_nil (f ∷ fields) =
    and_valid (and_valid (require f.implements) (nil_checked allow_nil f.slot))
      (valid_handles allow_nil fields)

-- The loop over the contents' fields.
valid_contents : {H C : Type 0} → List (Field H) → List (Field C) → Validity
valid_contents handles [] = valid
valid_contents handles (f ∷ fields) =
    and_valid (and_valid (require f.implements) (require (has_name handles f.name)))
      (valid_contents handles fields)

valid_fields : {H C : Type 0} → Bool → List (Field H) → List (Field C) → Validity
unfolding valid_handles valid_contents
valid_fields allow_nil handles contents =
    and_valid (require (length handles == length contents))
      (and_valid (valid_handles allow_nil handles) (valid_contents handles contents))

valid_structs : {H C : Type 0} → Bool → Value H → Value C → Validity
unfolding valid_fields
valid_structs allow_nil (struct handles) (struct contents) = valid_fields allow_nil handles contents
valid_structs allow_nil _ _ = refused

-- `validCopyContentsInput`
unfoldable pub valid_copy_contents_input : {H C : Type 0} → Value H → Value C → Bool → Validity
unfolding valid_structs
valid_copy_contents_input h c allow_nil = valid_structs allow_nil (elem h) (elem c)

-- How a call ends: with its error, or in a panic.
pub data StorageError (E : Type 0) : Type 0 where
  invalid_input : StorageError E
  caused_by : E → StorageError E

pub data Ended (E W : Type 0) : Type 0 where
  ended : Option (StorageError E) → W → Ended E W
  panicked : Ended E W

module _ {H C E W : Type 0} (copy_fs : H → C → W → Option E × W) where
  abbrev on_copied : Option E × W → (W → Ended E W) → Ended E W
  on_copied (none, w) k = k w
  on_copied (some e, w) k = ended (some (caused_by e)) w

  -- `Interface` panics on a field that is not exported, and its type assertion on a nil interface.
  copy_slot : Field H → Field C → C → W → (W → Ended E W) → Ended E W
  copy_slot h c content w k = if not (h.exported && c.exported) then panicked else elim h.slot [
    | nil ↦ panicked
    | holds fsys ↦ on_copied (copy_fs fsys content w) k
    | by_value fsys ↦ on_copied (copy_fs fsys content w) k
  ]

  -- The loop, over the fields of both at one index.
  copy_each : List (Field H) → List (Field C) → W → Ended E W
  unfolding copy_slot
  copy_each [] contents w = ended none w
  copy_each (h ∷ handles) [] w = panicked
  copy_each (h ∷ handles) (c ∷ contents) w = elim c.slot [
    | nil ↦ copy_each handles contents w
    | holds content ↦ copy_slot h c content w (copy_each handles contents)
    | by_value content ↦ panicked
  ]

  copy_structs : Value H → Value C → W → Ended E W
  unfolding copy_each
  copy_structs (struct handles) (struct contents) w = copy_each handles contents w
  copy_structs _ _ w = panicked

  copy_valid : Value H → Value C → Validity → W → Ended E W
  unfolding copy_structs
  copy_valid h c valid w = copy_structs (elem h) (elem c) w
  copy_valid h c refused w = ended (some invalid_input) w
  copy_valid h c panics w = panicked

  -- `CopyContents`
  unfoldable pub copy_contents : Value H → Value C → W → Ended E W
  unfolding copy_valid
  copy_contents h c w = copy_valid h c (valid_copy_contents_input h c false) w
