-- ===== src/Compose/Output/Keyed.antt =====
-- compose/service/output.go: the map of resources, a list of its entries with its lookup and update.
use musicbox.Prelude.{
  ◌≡◌, refl, sym, ap, ◌∙◌, Bool, true, false, ◌&&◌, Option, none, some, List, [], ◌∷◌,
  if◌then◌else◌, arith, Bool-cases, inl, inr,
}
use mathlib.Core.Path.{ap₂}
use musicbox.Prelude.Anywhere.{Text, same_text, same_text_refl, same_text_sound}
use musicbox.Compose.OutputLine.{Resource, container, volume, network, OutputLine}

pub record NamedResource : Type 0 where
  pub resource : Resource
  pub name : Text

same_resource : Resource → Resource → Bool
same_resource container container = true
same_resource volume volume = true
same_resource network network = true
same_resource _ _ = false

unfoldable pub same_key : NamedResource → NamedResource → Bool
unfolding same_resource
same_key k l = same_resource k.resource l.resource && same_text k.name l.name

unfoldable pub lookup : NamedResource → List (NamedResource × OutputLine) → Option OutputLine
lookup key [] = none
lookup key ((k, line) ∷ entries) =
    let rest = lookup key entries in if same_key k key then some line else rest

-- `m[key] = line`
unfoldable pub set :
    NamedResource
    → OutputLine
    → List (NamedResource × OutputLine)
    → List (NamedResource × OutputLine)
set key line [] = (key, line) ∷ []
set key line ((k, old) ∷ entries) =
    let rest = set key line entries in
    if same_key k key then (key, line) ∷ entries else (k, old) ∷ rest

same_resource_sound : (a b : Resource) → same_resource a b ≡ true → a ≡ b
unfolding same_resource
same_resource_sound container container h = refl
same_resource_sound volume volume h = refl
same_resource_sound network network h = refl
same_resource_sound container volume h = absurd (ground arith)
same_resource_sound container network h = absurd (ground arith)
same_resource_sound volume container h = absurd (ground arith)
same_resource_sound volume network h = absurd (ground arith)
same_resource_sound network container h = absurd (ground arith)
same_resource_sound network volume h = absurd (ground arith)

same_resource_refl : (a : Resource) → same_resource a a ≡ true
unfolding same_resource
same_resource_refl container = refl
same_resource_refl volume = refl
same_resource_refl network = refl

same_key_refl : (k : NamedResource) → same_key k k ≡ true
unfolding same_key
same_key_refl k = rw (same_resource_refl k.resource, same_text_refl k.name) refl

same_key_sound : (k l : NamedResource) → same_key k l ≡ true → k ≡ l
unfolding same_key
same_key_sound k l h =
    let kind = same_resource_sound k.resource l.resource (ground arith) in
    let name = same_text_sound k.name l.name (ground arith) in
    ap₂ (λ r n. record { resource = r; name = n }) kind name

if_same :
    {A : Type 0} (b : Bool) (x y z : A)
    → (if b then x else y) ≡ (if b then x else if b then z else y)
if_same true x y z = refl
if_same false x y z = refl

pub lookup-set :
    (key other : NamedResource) (line : OutputLine) (entries : List (NamedResource × OutputLine))
    → lookup other (set key line entries)
      ≡ (if same_key key other then some line else lookup other entries)
unfolding lookup set
lookup-set key other line [] = refl
lookup-set key other line ((k, old) ∷ entries) = elim (Bool-cases (same_key k key)) [
  | inl e ↦
      rw (e, same_key_sound k key e)
        (if_same (same_key key other) (some line) (lookup other entries) (some old))
  | inr e ↦
      rw (e, lookup-set key other line entries)
        (elim (Bool-cases (same_key k other)) [
          | inl a ↦
              let differs : same_key key other ≡ false = elim (Bool-cases (same_key key other)) [
                | inl b ↦
                    let same = same_key_sound k other a ∙ sym (same_key_sound key other b) in
                    absurd (cc (e, same_key_refl key, ap (λ x. same_key x key) same))
                | inr b ↦ b
              ] in
              rw (a, differs) refl
          | inr a ↦ rw a refl
        ])
]
