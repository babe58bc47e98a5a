-- ===== src/Storage/Contents/Valid.antt =====
-- storage/copy_content.go: which input is valid, and where valid contents are copied.
use musicbox.Prelude.{
  ◌≡◌, ◌↔◌, inl, inr, refl, ap, ◌∙◌, Bool, true, false, Option, none, some, List, [], ◌∷◌, ◌==◌,
  ==_iff, length, arith,
}
use musicbox.Prelude.Anywhere.{Text, Any, All, same_text, same_text_iff, or_iff}
use musicbox.Storage.Contents.{
  Slot, nil, holds, by_value, Field, Value, struct, elem, Validity, valid, refused, panics,
  and_valid, require, nil_checked, has_name, valid_handles, valid_contents, valid_fields,
  valid_structs, valid_copy_contents_input, Ended, ended, caused_by, on_copied, copy_contents,
  copy_valid, copy_structs, copy_each, copy_slot,
}

and_valid_iff :
    (a b : Validity) (P Q : Type 0)
    → (a ≡ valid) ↔ P
    → (b ≡ valid) ↔ Q
    → (and_valid a b ≡ valid) ↔ (P × Q)
and_valid_iff valid b P Q p q = (λ h. (p.0 refl, q.0 h), λ h. q.1 h.1)
and_valid_iff refused b P Q p q = (λ h. absurd (cc h), λ h. p.1 h.0)
and_valid_iff panics b P Q p q = (λ h. absurd (cc h), λ h. p.1 h.0)

require_iff : (b : Bool) → (require b ≡ valid) ↔ (b ≡ true)
require_iff true = (λ h. refl, λ h. refl)
require_iff false = (λ h. absurd (cc h), λ h. absurd (cc h))

-- A field holds an interface that is not nil, unless nil is allowed.
abbrev pub Given : {A : Type 0} → Bool → Slot A → Type 0
Given true s = Unit
Given false nil = ⊥
Given false (holds a) = Unit
Given false (by_value a) = ⊥

nil_checked_iff :
    {A : Type 0} (allow_nil : Bool) (s : Slot A)
    → (nil_checked allow_nil s ≡ valid) ↔ Given allow_nil s
nil_checked_iff true s = (λ h. tt, λ h. refl)
nil_checked_iff false nil = (λ h. absurd (cc h), λ h. elim h [ ])
nil_checked_iff false (holds a) = (λ h. tt, λ h. refl)
nil_checked_iff false (by_value a) = (λ h. absurd (cc h), λ h. elim h [ ])

abbrev pub Named : {A : Type 0} → Text → List (Field A) → Type 0
Named name fields = Any (λ f. f.name ≡ name) fields

has_name_iff :
    {A : Type 0} (fields : List (Field A)) (name : Text)
    → (has_name fields name ≡ true) ↔ Named name fields
has_name_iff [] name = (λ h. ground arith, λ h. elim h [ ])
has_name_iff (f ∷ fields) name =
    or_iff (same_text f.name name) (has_name fields name) (f.name ≡ name) (Named name fields)
      (same_text_iff f.name name) (has_name_iff fields name)

abbrev pub ValidHandle : {H : Type 0} → Bool → Field H → Type 0
ValidHandle allow_nil f = (f.implements ≡ true) × Given allow_nil f.slot

abbrev pub ValidContent : {H C : Type 0} → List (Field H) → Field C → Type 0
ValidContent handles f = (f.implements ≡ true) × Named f.name handles

iff_trans : {P Q R : Type 0} → P ↔ Q → Q ↔ R → P ↔ R
iff_trans p q = (λ x. q.0 (p.0 x), λ z. p.1 (q.1 z))

valid_handles_iff :
    {H : Type 0} (allow_nil : Bool) (fields : List (Field H))
    → (valid_handles allow_nil fields ≡ valid) ↔ All (ValidHandle allow_nil) fields
unfolding valid_handles
valid_handles_iff allow_nil [] = (λ h. tt, λ h. refl)
valid_handles_iff allow_nil (f ∷ fields) =
    and_valid_iff (and_valid (require f.implements) (nil_checked allow_nil f.slot))
      (valid_handles allow_nil fields) (ValidHandle allow_nil f)
      (All (ValidHandle allow_nil) fields)
      (and_valid_iff (require f.implements) (nil_checked allow_nil f.slot) (f.implements ≡ true)
        (Given allow_nil f.slot) (require_iff f.implements) (nil_checked_iff allow_nil f.slot))
      (valid_handles_iff allow_nil fields)

valid_contents_iff :
    {H C : Type 0} (handles : List (Field H)) (fields : List (Field C))
    → (valid_contents handles fields ≡ valid) ↔ All (ValidContent handles) fields
unfolding valid_contents
valid_contents_iff handles [] = (λ h. tt, λ h. refl)
valid_contents_iff handles (f ∷ fields) =
    and_valid_iff (and_valid (require f.implements) (require (has_name handles f.name)))
      (valid_contents handles fields) (ValidContent handles f) (All (ValidContent handles) fields)
      (and_valid_iff (require f.implements) (require (has_name handles f.name))
        (f.implements ≡ true) (Named f.name handles) (require_iff f.implements)
        (iff_trans (require_iff (has_name handles f.name)) (has_name_iff handles f.name)))
      (valid_contents_iff handles fields)

pub valid_copy_contents_input_iff :
    {H C : Type 0} (handle : Value H) (contents : Value C) (handles : List (Field H))
    (fields : List (Field C)) (allow_nil : Bool)
    → elem handle ≡ struct handles
    → elem contents ≡ struct fields
    → (valid_copy_contents_input handle contents allow_nil ≡ valid) ↔ (
        (length handles ≡ length fields)
        × (All (ValidHandle allow_nil) handles × All (ValidContent handles) fields))
unfolding valid_copy_contents_input valid_structs valid_fields
valid_copy_contents_input_iff handle contents handles fields allow_nil h c =
    rw (h, c)
      (and_valid_iff (require (length handles == length fields))
        (and_valid (valid_handles allow_nil handles) (valid_contents handles fields))
        (length handles ≡ length fields)
        (All (ValidHandle allow_nil) handles × All (ValidContent handles) fields)
        (iff_trans (require_iff (length handles == length fields))
          (==_iff (length handles) (length fields)))
        (and_valid_iff (valid_handles allow_nil handles) (valid_contents handles fields)
          (All (ValidHandle allow_nil) handles) (All (ValidContent handles) fields)
          (valid_handles_iff allow_nil handles) (valid_contents_iff handles fields)))

-- An exported field of an interface type.
abbrev pub field : {A : Type 0} → Text → A → Field A
field name a = record { name = name; exported = true; implements = true; slot = holds a }

-- One copy after the other, as far as they succeed.
abbrev pub then_ended : {E W : Type 0} → Option E × W → (W → Option E × W) → Ended E W
then_ended (some e, w) k = ended (some (caused_by e)) w
then_ended (none, w) k = elim (k w).0 [
  | none ↦ ended none (k w).1
  | some e ↦ ended (some (caused_by e)) (k w).1
]

second_ends :
    {H C E W : Type 0} (copy_fs : H → C → W → Option E × W) (r : Option E × W)
    → on_copied copy_fs r (λ w. ended none w)
      ≡ elim r.0 [ none ↦ ended none r.1 | some e ↦ ended (some (caused_by e)) r.1 ]
second_ends copy_fs (none, w) = refl
second_ends copy_fs (some e, w) = refl

both_end :
    {H C E W : Type 0} (copy_fs : H → C → W → Option E × W) (r : Option E × W)
    (k : W → Option E × W)
    → on_copied copy_fs r (λ w. on_copied copy_fs (k w) (λ w. ended none w)) ≡ then_ended r k
both_end copy_fs (none, w) k = second_ends copy_fs (k w)
both_end copy_fs (some e, w) k = refl

-- Two contents whose names come in the other order than the handle's are valid, and each is copied to
-- the file system that the handle has under the other one's name.
pub copy_contents-swapped :
    {H C E W : Type 0} (copy_fs : H → C → W → Option E × W) (a b : Text) (at_a at_b : H)
    (for_a for_b : C) (w : W)
    → (valid_copy_contents_input
          (struct (field a at_a ∷ field b at_b ∷ []))
          (struct (field b for_b ∷ field a for_a ∷ []))
          false
        ≡ valid)
      × (copy_contents copy_fs
            (struct (field a at_a ∷ field b at_b ∷ []))
            (struct (field b for_b ∷ field a for_a ∷ []))
            w
          ≡ then_ended (copy_fs at_a for_b w) (copy_fs at_b for_a))
unfolding copy_contents copy_valid copy_structs copy_each copy_slot
copy_contents-swapped copy_fs a b at_a at_b for_a for_b w =
    let handle = struct (field a at_a ∷ field b at_b ∷ []) in
    let contents = struct (field b for_b ∷ field a for_a ∷ []) in
    let is_valid =
      (valid_copy_contents_input_iff handle contents _ _ false refl refl).1 (
        refl,
        (((refl, tt), ((refl, tt), tt)), ((refl, inr (inl refl)), ((refl, inl refl), tt))),
      ) in
    (
      is_valid,
      ap (λ v. copy_valid copy_fs handle contents v w) is_valid
          ∙ both_end copy_fs (copy_fs at_a for_b w) (copy_fs at_b for_a),
    )
