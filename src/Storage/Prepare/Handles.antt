-- ===== src/Storage/Prepare/Handles.antt =====
-- storage/prepare.go: the fields of the handle that `PrepareHandle` returns.
use mathlib.Core.Path.{subst}
use musicbox.Prelude.{
  ◌⊎◌, ◌≡◌, refl, sym, ap, ◌∙◌, Bool, true, false, Option, none, some, List, [], ◌∷◌, if◌then◌else◌,
  inl, inr,
}
use musicbox.Prelude.Anywhere.{Text, All, same_text, same_text_sound}
use musicbox.Fsutil.Fs.{FilePath}
use musicbox.Fsutil.Path.{clean}
use musicbox.Storage.Contents.{
  Slot, nil, holds, Field, Value, Validity, valid, refused, panics, Ended, ended, panicked,
}
use musicbox.Storage.Prepare.{
  PathField, set_field, Prepared, handle, not_prepared, panicked_preparing, prepare_set,
  prepare_made, prepare_field, text_of, prepare_each, prepare_handle, prepare_valid, with_initial,
  with_contents, with_ended,
}

-- What the handle's field of a name holds; nil where there is none.
unfoldable pub slot_at : {F : Type 0} → Text → List (Field F) → Slot F
slot_at name [] = nil
slot_at name (f ∷ fields) =
    let rest = slot_at name fields in if same_text f.name name then f.slot else rest

-- The names differ from one another.
abbrev pub Distinct : List PathField → Type 0
Distinct [] = Unit
Distinct (f ∷ fields) = All (λ g. same_text g.name f.name ≡ false) fields × Distinct fields

some_injective : {A : Type 0} (a b : A) → ◌≡◌ {A = Option A} (some a) (some b) → a ≡ b
some_injective a b h = ap (λ o. elim o [ some x ↦ x | none ↦ b ]) h

-- Where `set_field` has succeeded: at the first field, or behind it.
set_here_or_behind :
    {F : Type 0} (b e : Bool) (f : Field F) (fsys : F) (fields : List (Field F))
    (rest : Option (List (Field F))) (fields' : List (Field F))
    → (if b
        then (if e then some (record f { slot = holds fsys } ∷ fields) else none)
        else elim rest [ none ↦ none | some r ↦ some (f ∷ r) ])
      ≡ some fields'
    → ((b ≡ true) × ◌≡◌ {A = List (Field F)} (record f { slot = holds fsys } ∷ fields) fields')
      ⊎ ((b ≡ false) × ((r : List (Field F)) × (rest ≡ some r) × (f ∷ r ≡ fields')))
set_here_or_behind true true f fsys fields rest fields' h = inl (refl, some_injective _ fields' h)
set_here_or_behind true false f fsys fields rest fields' h = absurd (cc h)
set_here_or_behind false e f fsys fields none fields' h = absurd (cc h)
set_here_or_behind false e f fsys fields (some r) fields' h =
    inr (refl, (r, refl, some_injective (f ∷ r) fields' h))

slot_at-set_field :
    {F : Type 0} (name : Text) (fsys : F) (fields fields' : List (Field F))
    → set_field name fsys fields ≡ some fields'
    → (slot_at name fields' ≡ holds fsys)
      × ((other : Text)
          → same_text name other ≡ false
          → slot_at other fields' ≡ slot_at other fields)
unfolding set_field slot_at
slot_at-set_field name fsys [] fields' h = absurd (cc h)
slot_at-set_field name fsys (f ∷ fields) fields' h =
    elim (set_here_or_behind (same_text f.name name) f.exported f fsys fields
      (set_field name fsys fields) fields' h) [
        | inl (here, same) ↦
            subst
              (λ l.
                (slot_at name l ≡ holds fsys)
                × ((other : Text)
                    → same_text name other ≡ false
                    → slot_at other l ≡ slot_at other (f ∷ fields)))
              same
              (
                rw here refl,
                λ other differs.
                    let elsewhere : same_text f.name other ≡ false =
                      subst (λ n. same_text n other ≡ false)
                        (sym (same_text_sound f.name name here)) differs in
                    rw elsewhere refl,
              )
        | inr (behind, (r, set, same)) ↦
            let (there, others) = slot_at-set_field name fsys fields r set in
            subst
              (λ l.
                (slot_at name l ≡ holds fsys)
                × ((other : Text)
                    → same_text name other ≡ false
                    → slot_at other l ≡ slot_at other (f ∷ fields)))
              same
              (
                rw behind there,
                λ other differs.
                    ap (λ s. if same_text f.name other then f.slot else s) (others other differs),
              )
      ]

module _ {F C E W : Type 0} (mkdir_all : FilePath → W → Option E × W) (base_path : FilePath → F)
    (copy_fs : F → C → W → Option E × W) where
  prepare_set_ok :
      (o : Option (List (Field F))) (next : List (Field F) → W → Prepared F E W) (w v : W)
      (hs : List (Field F))
      → prepare_set mkdir_all base_path copy_fs o next w ≡ handle hs v
      → (handles : List (Field F)) × (o ≡ some handles) × (next handles w ≡ handle hs v)
  unfolding prepare_set
  prepare_set_ok none next w v hs h = absurd (cc h)
  prepare_set_ok (some handles) next w v hs h = (handles, refl, h)

  prepare_made_ok :
      (name : Text) (path : FilePath) (handles : List (Field F))
      (next : List (Field F) → W → Prepared F E W) (r : Option E × W) (v : W) (hs : List (Field F))
      → prepare_made mkdir_all base_path copy_fs name path handles next r ≡ handle hs v
      → (handles' : List (Field F)) × (set_field name (base_path path) handles ≡ some handles')
        × (next handles' r.1 ≡ handle hs v)
  unfolding prepare_made
  prepare_made_ok name path handles next (some e, w) v hs h = absurd (cc h)
  prepare_made_ok name path handles next (none, w) v hs h =
      prepare_set_ok (set_field name (base_path path) handles) next w v hs h

  prepare_field_ok :
      (name : Text) (text : Option FilePath) (handles : List (Field F))
      (next : List (Field F) → W → Prepared F E W) (w v : W) (hs : List (Field F))
      → prepare_field mkdir_all base_path copy_fs name text handles next w ≡ handle hs v
      → (path : FilePath) × (w' : W) × (handles' : List (Field F)) × (text ≡ some path)
        × (set_field name (base_path (clean path)) handles ≡ some handles')
        × (next handles' w' ≡ handle hs v)
  unfolding prepare_field
  prepare_field_ok name none handles next w v hs h = absurd (cc h)
  prepare_field_ok name (some path) handles next w v hs h =
      let (handles', set, rest) =
        prepare_made_ok name (clean path) handles next (mkdir_all (clean path) w) v hs h in
      (path, (mkdir_all (clean path) w).1, handles', refl, set, rest)

  abbrev each : List PathField → List (Field F) → W → Prepared F E W
  each = prepare_each mkdir_all base_path copy_fs

  prepare_each-keeps :
      (fields : List PathField) (handles hs : List (Field F)) (w v : W) (name : Text)
      → All (λ g. same_text g.name name ≡ false) fields
      → each fields handles w ≡ handle hs v
      → slot_at name hs ≡ slot_at name handles
  unfolding prepare_each
  prepare_each-keeps [] handles hs w v name others h =
      ap (slot_at name) (sym (ap (λ p. elim p [ handle hs w ↦ hs | _ ↦ handles ]) h))
  prepare_each-keeps (f ∷ fields) handles hs w v name (differs, others) h =
      let (path, w', handles', text, set, rest) =
        prepare_field_ok f.name (text_of f) handles (each fields) w v hs h in
      prepare_each-keeps fields handles' hs w' v name others rest
      ∙ (slot_at-set_field f.name (base_path (clean path)) handles handles' set).1 name differs

  -- The field of the handle that a path set's field names is the file system on its directory.
  abbrev pub Served : List (Field F) → PathField → Type 0
  Served hs f =
      (path : FilePath) × (text_of f ≡ some path)
      × (slot_at f.name hs ≡ holds (base_path (clean path)))

  prepare_each-Served :
      (fields : List PathField) (handles hs : List (Field F)) (w v : W)
      → Distinct fields
      → each fields handles w ≡ handle hs v
      → All (Served hs) fields
  unfolding prepare_each
  prepare_each-Served [] handles hs w v distinct h = tt
  prepare_each-Served (f ∷ fields) handles hs w v (others, distinct) h =
      let (path, w', handles', text, set, rest) =
        prepare_field_ok f.name (text_of f) handles (each fields) w v hs h in
      (
        (
          path,
          text,
          prepare_each-keeps fields handles' hs w' v f.name others rest
              ∙ (slot_at-set_field f.name (base_path (clean path)) handles handles' set).0,
        ),
        prepare_each-Served fields handles' hs w' v distinct rest,
      )

  handle_injective :
      (hs hs' : List (Field F)) (w v : W)
      → ◌≡◌ {A = Prepared F E W} (handle hs w) (handle hs' v)
      → hs ≡ hs'
  handle_injective hs hs' w v h = ap (λ p. elim p [ handle l u ↦ l | _ ↦ hs' ]) h

  with_ended_ok :
      (hs hs' : List (Field F)) (r : Ended E W) (v : W)
      → with_ended mkdir_all base_path copy_fs hs r ≡ handle hs' v
      → hs ≡ hs'
  unfolding with_ended
  with_ended_ok hs hs' (ended none w) v h = handle_injective hs hs' w v h
  with_ended_ok hs hs' (ended (some e) w) v h = absurd (cc h)
  with_ended_ok hs hs' panicked v h = absurd (cc h)

  with_contents_ok :
      (hs hs' : List (Field F)) (contents : Value C) (is_valid : Validity) (w v : W)
      → with_contents mkdir_all base_path copy_fs hs contents is_valid w ≡ handle hs' v
      → hs ≡ hs'
  unfolding with_contents
  with_contents_ok hs hs' contents valid w v h = with_ended_ok hs hs' _ v h
  with_contents_ok hs hs' contents refused w v h = absurd (cc h)
  with_contents_ok hs hs' contents panics w v h = absurd (cc h)

  -- Contents change no field of the handle.
  with_initial_ok :
      (initial : Option (Value C)) (p : Prepared F E W) (hs : List (Field F)) (v : W)
      → with_initial mkdir_all base_path copy_fs initial p ≡ handle hs v
      → (w : W) × (p ≡ handle hs w)
  unfolding with_initial
  with_initial_ok (some contents) (handle handles w) hs v h =
      (w, ap (λ l. handle l w) (with_contents_ok handles hs contents _ w v h))
  with_initial_ok (some contents) (not_prepared e w) hs v h = absurd (cc h)
  with_initial_ok (some contents) panicked_preparing hs v h = absurd (cc h)
  with_initial_ok none p hs v h = (v, h)

  prepare_valid-Served :
      (fields : List PathField) (handles hs : List (Field F)) (initial : Option (Value C))
      (is_valid : Validity) (w v : W)
      → Distinct fields
      → prepare_valid mkdir_all base_path copy_fs fields handles initial is_valid w ≡ handle hs v
      → All (Served hs) fields
  unfolding prepare_valid
  prepare_valid-Served fields handles hs initial valid w v distinct h =
      let (u, e) = with_initial_ok initial (each fields handles w) hs v h in
      prepare_each-Served fields handles hs w u distinct e
  prepare_valid-Served fields handles hs initial refused w v distinct h = absurd (cc h)
  prepare_valid-Served fields handles hs initial panics w v distinct h = absurd (cc h)

  -- If PrepareHandle returns a handle, with initial contents or without, the field that each of the path
  -- set's fields names, whose names differ, is the file system on the directory that the field gives.
  pub prepare_handle-Served :
      (fields : List PathField) (handles hs : List (Field F)) (initial : Option (Value C)) (w v : W)
      → Distinct fields
      → prepare_handle mkdir_all base_path copy_fs fields handles initial w ≡ handle hs v
      → All (Served hs) fields
  unfolding prepare_handle
  prepare_handle-Served fields handles hs initial w v distinct h =
      prepare_valid-Served fields handles hs initial _ w v distinct h
