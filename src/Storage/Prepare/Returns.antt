-- ===== src/Storage/Prepare/Returns.antt =====
-- storage/prepare.go: `PrepareHandle` of valid input.
use mathlib.Core.Path.{subst}
use musicbox.Prelude.{
  ◌≡◌, refl, sym, ap, ◌∙◌, Bool, true, false, ◌||◌, Option, none, some, List, [], ◌∷◌, ◌==◌, length,
  Bool-cases, inl, inr, arith,
}
use musicbox.Prelude.Anywhere.{Text, All, All-map, same_text}
use musicbox.Fsutil.Fs.{FilePath}
use musicbox.Fsutil.Path.{clean}
use musicbox.Storage.Contents.{
  holds, Field, Validity, valid, refused, panics, and_valid, require, has_name, pointer_to,
}
use musicbox.Storage.Prepare.{
  PathField, paths, valid_text, valid_paths, valid_prepare_input, text_of, set_field, Prepared,
  handle, prepare_set, prepare_made, prepare_field, prepare_each, prepare_valid, with_initial,
  prepare_handle,
}
use musicbox.Storage.Prepare.Handles.{Distinct, Served, prepare_handle-Served}

both_valid : (a b : Validity) → and_valid a b ≡ valid → (a ≡ valid) × (b ≡ valid)
both_valid valid b h = (refl, h)
both_valid refused b h = absurd (cc h)
both_valid panics b h = absurd (cc h)

required : (b : Bool) → require b ≡ valid → b ≡ true
required true h = refl
required false h = absurd (cc h)

abbrev pub Exported : {F : Type 0} → List (Field F) → Type 0
Exported handles = All (λ f. f.exported ≡ true) handles

-- A field with a text and a place in the handle.
abbrev HasPlace : {F : Type 0} → List (Field F) → PathField → Type 0
HasPlace handles f = (path : FilePath) × (text_of f ≡ some path) × (has_name handles f.name ≡ true)

valid-HasPlace :
    {F : Type 0} (handles : List (Field F)) (f : PathField) (path : Option FilePath)
    (exported : Bool)
    → f.path ≡ path
    → f.exported ≡ exported
    → (elim path as (λ p. Validity) [
      | none ↦ refused
      | some p ↦ and_valid (require (has_name handles f.name)) (valid_text exported p)
    ])
      ≡ valid
    → HasPlace handles f
unfolding valid_text
valid-HasPlace handles f none exported p e h = absurd (cc h)
valid-HasPlace handles f (some path) false p e h =
    absurd (cc (both_valid (require (has_name handles f.name)) panics h).1)
valid-HasPlace handles f (some path) true p e h = (
  path,
  rw e p,
  required (has_name handles f.name) (both_valid (require (has_name handles f.name)) _ h).0,
)

valid-places :
    {F : Type 0} (handles : List (Field F)) (fields : List PathField)
    → valid_paths handles fields ≡ valid
    → All (HasPlace handles) fields
unfolding valid_paths
valid-places handles [] h = tt
valid-places handles (f ∷ fields) h =
    let (here, behind) = both_valid _ (valid_paths handles fields) h in
    (valid-HasPlace handles f f.path f.exported refl refl here, valid-places handles fields behind)

set_field_ok :
    {F : Type 0} (name : Text) (fsys : F) (handles : List (Field F))
    → has_name handles name ≡ true
    → Exported handles
    → (handles' : List (Field F)) × (set_field name fsys handles ≡ some handles')
      × Exported handles'
      × ((other : Text) → has_name handles' other ≡ has_name handles other)
unfolding set_field
set_field_ok name fsys [] named exported = absurd (ground (arith, named))
set_field_ok name fsys (f ∷ handles) named (e, exported) =
    elim (Bool-cases (same_text f.name name)) [
      | inl here ↦ (
        record f { slot = holds fsys } ∷ handles,
        rw (here, e) refl,
        (e, exported),
        λ other. refl,
      )
      | inr behind ↦
          let (handles', set, exported', names) =
            set_field_ok name fsys handles (ground (arith, behind, named)) exported in
          (
            f ∷ handles',
            rw (behind, set) refl,
            (e, exported'),
            λ other. ap (λ b. same_text f.name other || b) (names other),
          )
    ]

module _ {F C E W : Type 0} (mkdir_all : FilePath → W → Option E × W) (base_path : FilePath → F)
    (copy_fs : F → C → W → Option E × W) where
  abbrev each : List PathField → List (Field F) → W → Prepared F E W
  each = prepare_each mkdir_all base_path copy_fs

  abbrev pub Returned : Prepared F E W → Type 0
  Returned p = (hs : List (Field F)) × (v : W) × (p ≡ handle hs v)

  made_ok :
      (name : Text) (path : FilePath) (handles handles' : List (Field F))
      (next : List (Field F) → W → Prepared F E W) (r : Option E × W)
      → r.0 ≡ none
      → set_field name (base_path path) handles ≡ some handles'
      → prepare_made mkdir_all base_path copy_fs name path handles next r ≡ next handles' r.1
  unfolding prepare_made prepare_set
  made_ok name path handles handles' next (some e, w) ok set = absurd (cc ok)
  made_ok name path handles handles' next (none, w) ok set = rw set refl

  field_ok :
      (name : Text) (text : Option FilePath) (path : FilePath) (handles handles' : List (Field F))
      (next : List (Field F) → W → Prepared F E W) (w : W)
      → text ≡ some path
      → (mkdir_all (clean path) w).0 ≡ none
      → set_field name (base_path (clean path)) handles ≡ some handles'
      → prepare_field mkdir_all base_path copy_fs name text handles next w
        ≡ next handles' (mkdir_all (clean path) w).1
  unfolding prepare_field
  field_ok name none path handles handles' next w text ok set = absurd (cc text)
  field_ok name (some q) path handles handles' next w text ok set =
      let same : q ≡ path = ap (λ o. elim o [ some x ↦ x | none ↦ q ]) text in
      subst
        (λ x.
          prepare_made mkdir_all base_path copy_fs name (clean x) handles next
            (mkdir_all (clean x) w)
          ≡ next handles' (mkdir_all (clean path) w).1)
        (sym same)
        (made_ok name (clean path) handles handles' next (mkdir_all (clean path) w) ok set)

  each-Returned :
      (fields : List PathField) (handles : List (Field F)) (w : W)
      → ((p : FilePath) (v : W) → (mkdir_all p v).0 ≡ none)
      → All (HasPlace handles) fields
      → Exported handles
      → Returned (each fields handles w)
  unfolding prepare_each
  each-Returned [] handles w makes places exported = (handles, w, refl)
  each-Returned (f ∷ fields) handles w makes ((path, text, named), places) exported =
      let (handles', set, exported', names) =
        set_field_ok f.name (base_path (clean path)) handles named exported in
      let moved =
        All-map (HasPlace handles) (HasPlace handles') fields
          (λ g a. (a.0, a.1, names g.name ∙ a.2)) places in
      let (hs, v, e) =
        each-Returned fields handles' (mkdir_all (clean path) w).1 makes moved exported' in
      (
        hs,
        v,
        field_ok f.name (text_of f) path handles handles' (each fields) w text
              (makes (clean path) w) set
            ∙ e,
      )

  valid-Returned :
      (fields : List PathField) (handles : List (Field F)) (w : W)
      → valid_prepare_input (paths fields) (pointer_to handles) ≡ valid
      → ((p : FilePath) (v : W) → (mkdir_all p v).0 ≡ none)
      → Exported handles
      → Returned (prepare_handle mkdir_all base_path copy_fs fields handles none w)
  unfolding valid_prepare_input prepare_handle prepare_valid with_initial
  valid-Returned fields handles w h makes exported =
      let inner = (both_valid (require (length fields == length handles)) _ h).1 in
      let (hs, v, e) =
        each-Returned fields handles w makes
          (valid-places handles fields (both_valid _ (valid_paths handles fields) inner).1)
          exported in
      (hs, v, ap (λ b. prepare_valid mkdir_all base_path copy_fs fields handles none b w) h ∙ e)

  -- PrepareHandle without initial contents, of valid input where the handle's fields are exported, the
  -- names of the path set's fields differ and the directories can be made, returns a handle, and the
  -- field that each of the path set's fields names is the file system on the directory it gives.
  pub prepare_handle-Returned :
      (fields : List PathField) (handles : List (Field F)) (w : W)
      → valid_prepare_input (paths fields) (pointer_to handles) ≡ valid
      → ((p : FilePath) (v : W) → (mkdir_all p v).0 ≡ none)
      → Exported handles
      → Distinct fields
      → (hs : List (Field F)) × (v : W) × (prepare_handle mkdir_all base_path copy_fs fields handles
            none w
          ≡ handle hs v)
        × All (Served mkdir_all base_path copy_fs hs) fields
  prepare_handle-Returned fields handles w h makes exported distinct =
      let (hs, v, e) = valid-Returned fields handles w h makes exported in
      (
        hs,
        v,
        e,
        prepare_handle-Served mkdir_all base_path copy_fs fields handles hs none w v distinct e,
      )
