-- ===== src/Storage/Prepare.antt =====
-- storage/prepare.go: `PrepareHandle`, which makes a directory for each field of a path set and hands
-- out a file system on each, and its validation. `F` is a file system and `base_path` afero's
-- NewBasePathFs on the base; `T` is the kind of a value that is no string.
pub mod Handles
pub mod Returns
mod Tests
use musicbox.Prelude.{
  ℕ, Bool, true, false, not, ◌&&◌, ◌||◌, Option, none, some, List, [], ◌∷◌, ◌==◌, if◌then◌else◌,
  length,
}
use musicbox.Prelude.Codes.{codes}
use musicbox.Prelude.Anywhere.{Text, same_text}
use musicbox.Fsutil.Text.{has_prefix}
use musicbox.Fsutil.Fs.{FilePath, same_path}
use musicbox.Fsutil.Path.{clean, is_rooted, split_slash, dot, dot_dot}
use musicbox.Storage.Contents.{
  Validity, valid, refused, panics, and_valid, require, Value, Field, StorageError, invalid_input,
  caused_by, Ended, ended, panicked, struct, pointer_to, invalid, has_name, copy_contents,
  valid_copy_contents_input, Slot, nil, holds,
}

-- A field of a path set: its text, if it is a string.
pub record PathField : Type 0 where
  pub name : Text
  pub exported : Bool
  pub path : Option FilePath

pub data PathSet : Type 0 where
  no_path_set not_a_struct : PathSet
  paths : List PathField → PathSet

has_dots : List FilePath → Bool
has_dots [] = false
has_dots (e ∷ es) = (same_path e dot || same_path e dot_dot) || has_dots es

-- `filepath.IsLocal`
unfoldable pub is_local : FilePath → Bool
unfolding has_dots
is_local p =
    if is_rooted p || same_path p []
    then false
    else let q = if has_dots (split_slash [] p) then clean p else p in
      not (same_path q dot_dot || has_prefix q (codes "../"))

-- The loop over the handle's fields.
valid_types : {F : Type 0} → List (Field F) → Validity
valid_types [] = valid
valid_types (f ∷ fields) = and_valid (require f.implements) (valid_types fields)

-- `Interface` panics on a field that is not exported.
valid_text : Bool → FilePath → Validity
unfolding is_local
valid_text false p = panics
valid_text true p = and_valid (require (not (same_path p []))) (require (is_local p))

-- The loop over the path set's fields.
valid_paths : {F : Type 0} → List (Field F) → List PathField → Validity
unfolding valid_text
valid_paths handles [] = valid
valid_paths handles (f ∷ fields) =
    and_valid
      (elim f.path [
        | none ↦ refused
        | some p ↦ and_valid (require (has_name handles f.name)) (valid_text f.exported p)
      ])
      (valid_paths handles fields)

-- `validPrepareInput`; a nil pointer points to no struct.
unfoldable pub valid_prepare_input : {F : Type 0} → PathSet → Value F → Validity
unfolding valid_types valid_paths
valid_prepare_input no_path_set invalid = valid
valid_prepare_input (paths fields) (pointer_to handles) =
    and_valid (require (length fields == length handles))
      (and_valid (valid_types handles) (valid_paths handles fields))
valid_prepare_input _ _ = refused

-- The text, where the field has one and is exported.
abbrev pub text_of : PathField → Option FilePath
text_of f = if f.exported then f.path else none

-- `FieldByName(name).Set`; `Set` panics where there is no such field, or none that is exported.
unfoldable pub set_field : {F : Type 0} → Text → F → List (Field F) → Option (List (Field F))
set_field name fsys [] = none
set_field name fsys (f ∷ fields) =
    let rest = set_field name fsys fields in
    if same_text f.name name
    then (if f.exported then some (record f { slot = holds fsys } ∷ fields) else none)
    else elim rest [ none ↦ none | some fields' ↦ some (f ∷ fields') ]

-- What PrepareHandle returns, or a panic.
pub data Prepared (F E W : Type 0) : Type 0 where
  handle : List (Field F) → W → Prepared F E W
  not_prepared : StorageError E → W → Prepared F E W
  panicked_preparing : Prepared F E W

module _ {F C E W : Type 0} (mkdir_all : FilePath → W → Option E × W) (base_path : FilePath → F)
    (copy_fs : F → C → W → Option E × W) where
  -- One round of the loop: the field's text, the directory, and the handle's field.
  prepare_set : Option (List (Field F)) → (List (Field F) → W → Prepared F E W) → W → Prepared F E W
  prepare_set none next w = panicked_preparing
  prepare_set (some handles) next w = next handles w

  prepare_made :
      Text
      → FilePath
      → List (Field F)
      → (List (Field F) → W → Prepared F E W)
      → Option E × W
      → Prepared F E W
  unfolding set_field prepare_set
  prepare_made name path handles next (some e, w) = not_prepared (caused_by e) w
  prepare_made name path handles next (none, w) =
      prepare_set (set_field name (base_path path) handles) next w

  prepare_field :
      Text
      → Option FilePath
      → List (Field F)
      → (List (Field F) → W → Prepared F E W)
      → W
      → Prepared F E W
  unfolding prepare_made
  prepare_field name none handles next w = panicked_preparing
  prepare_field name (some path) handles next w =
      prepare_made name (clean path) handles next (mkdir_all (clean path) w)

  -- The loop.
  unfoldable pub prepare_each : List PathField → List (Field F) → W → Prepared F E W
  unfolding prepare_field
  prepare_each [] handles w = handle handles w
  prepare_each (f ∷ fields) handles w =
      prepare_field f.name (text_of f) handles (prepare_each fields) w

  -- The initial contents, where they are given, are copied; the zero handle is returned on an error.
  with_ended : List (Field F) → Ended E W → Prepared F E W
  with_ended handles (ended none w) = handle handles w
  with_ended handles (ended (some e) w) = not_prepared e w
  with_ended handles panicked = panicked_preparing

  with_contents : List (Field F) → Value C → Validity → W → Prepared F E W
  unfolding with_ended
  with_contents handles contents valid w =
      with_ended handles (copy_contents copy_fs (struct handles) contents w)
  with_contents handles contents refused w = not_prepared invalid_input w
  with_contents handles contents panics w = panicked_preparing

  with_initial : Option (Value C) → Prepared F E W → Prepared F E W
  unfolding with_contents
  with_initial (some contents) (handle handles w) =
      with_contents handles contents (valid_copy_contents_input (struct handles) contents true) w
  with_initial _ prepared = prepared

  prepare_valid : List PathField → List (Field F) → Option (Value C) → Validity → W → Prepared F E W
  unfolding prepare_each with_initial
  prepare_valid fields handles initial valid w =
      with_initial initial (prepare_each fields handles w)
  prepare_valid fields handles initial refused w = not_prepared invalid_input w
  prepare_valid fields handles initial panics w = panicked_preparing

  -- `PrepareHandle` of a path set and a type of handles, by its fields, which are nil at first.
  unfoldable pub prepare_handle :
      List PathField → List (Field F) → Option (Value C) → W → Prepared F E W
  unfolding prepare_valid
  prepare_handle fields handles initial w =
      prepare_valid fields handles initial (valid_prepare_input (paths fields) (pointer_to handles))
        w
