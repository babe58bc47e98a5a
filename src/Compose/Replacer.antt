-- ===== src/Compose/Replacer.antt =====
-- compose/controller/remove_replacer.go: `RemoveReplacer`, which removes containers that were made to
-- replace another one that is still there. The whole method runs under the controller's lock.
use mathlib.Core.Path.{subst}
use musicbox.Prelude.{
  ℕ, suc, ◌≡◌, ◌≢◌, ◌↔◌, refl, sym, Bool, true, false, Option, none, some, List, [], ◌∷◌, arith,
  ◌==◌, if◌then◌else◌, Bool-cases, inl, inr, Option-cases, length, ==_iff,
}
use musicbox.Prelude.Anywhere.{Any, Text, same_text, same_text_iff, refuted}

-- What the method reads of a container: its ID and its label `api.ContainerReplaceLabel`.
pub record Container : Type 0 where
  pub id : Text
  pub replaces : Option Text

-- The inner loop from the index `j` on: whether a container other than number `i` has the ID.
other_has_id : ℕ → ℕ → Text → List Container → Bool
unfolding same_text
other_has_id i j target [] = false
other_has_id i j target (c ∷ containers) =
    let rest = other_has_id i (suc j) target containers in
    if i == j then rest else if same_text c.id target then true else rest

-- The outer loop from the index `i` on, over `all`.
replacer_ids_from : ℕ → List Container → List Container → List Text
unfolding other_has_id
replacer_ids_from i all [] = []
replacer_ids_from i all (c ∷ containers) =
    let rest = replacer_ids_from (suc i) all containers in
    elim c.replaces [
      | none ↦ rest
      | some target ↦ if other_has_id i 0 target all then c.id ∷ rest else rest
    ]

unfoldable pub replacer_ids : List Container → List Text
unfolding replacer_ids_from
replacer_ids containers = replacer_ids_from 0 containers containers

module _ {E W : Type 0} where
  -- The last loop, which stops at the first error.
  pub remove_each : (Text → W → Option E × W) → List Text → W → Option E × W
  remove_each remove [] w = (none, w)
  remove_each remove (id ∷ ids) w = elim (remove id w).0 [
    | some e ↦ (some e, (remove id w).1)
    | none ↦ remove_each remove ids (remove id w).1
  ]

  -- `RemoveReplacer`: `ps` is the service's Ps, with all containers or an error.
  pub remove_replacer :
      (W → W) → (W → (List Container × Option E) × W) → (Text → W → Option E × W) → W → Option E × W
  unfolding replacer_ids remove_each
  remove_replacer enable_all_service ps remove w =
      let ((containers, err), w') = ps (enable_all_service w) in
      elim err [
        | some e ↦ (some e, w')
        | none ↦
            if length containers == 0
            then (none, w')
            else remove_each remove (replacer_ids containers) w'
      ]

-- A list's elements with their indices, counted from `i`.
abbrev pub numbered : ℕ → List Container → List (ℕ × Container)
numbered i [] = []
numbered i (c ∷ containers) = (i, c) ∷ numbered (suc i) containers

abbrev pub OtherHas : ℕ → Text → ℕ → List Container → Type 0
OtherHas i target j containers =
    Any (λ other. (i ≢ other.0) × (other.1.id ≡ target)) (numbered j containers)

other_has_id_iff :
    (i j : ℕ) (target : Text) (containers : List Container)
    → (other_has_id i j target containers ≡ true) ↔ OtherHas i target j containers
unfolding other_has_id
other_has_id_iff i j target [] = (λ h. ground arith, λ h. elim h [ ])
other_has_id_iff i j target (c ∷ containers) = elim (Bool-cases (i == j)) [
  | inl here ↦ rw here (
    (λ h. inr ((other_has_id_iff i (suc j) target containers).0 h)),
    λ h. elim h [
      | inl p ↦ elim (p.0 ((==_iff i j).0 here)) [ ]
      | inr a ↦ (other_has_id_iff i (suc j) target containers).1 a
    ],
  )
  | inr other ↦ rw other (elim (Bool-cases (same_text c.id target)) [
    | inl same ↦ rw same (
      (λ h. inl (refuted (i == j) (i ≡ j) (==_iff i j) other, (same_text_iff c.id target).0 same)),
      λ h. refl,
    )
    | inr differs ↦ rw differs (
      (λ h. inr ((other_has_id_iff i (suc j) target containers).0 h)),
      λ h. elim h [
        | inl p ↦
            elim (refuted (same_text c.id target) (c.id ≡ target) (same_text_iff c.id target)
              differs p.1) [ ]
        | inr a ↦ (other_has_id_iff i (suc j) target containers).1 a
      ],
    )
  ])
]

-- The container has the ID `x`, and its label names another container of `all`.
abbrev pub IsReplacer : List Container → Text → ℕ × Container → Type 0
IsReplacer all x (i, c) =
    (c.id ≡ x) × ((target : Text) × (c.replaces ≡ some target) × OtherHas i target 0 all)

some_injective : (s t : Text) → some s ≡ some t → s ≡ t
some_injective s t h = ground arith

replacer_ids_from_iff :
    (i : ℕ) (all containers : List Container) (x : Text)
    → Any (λ id. id ≡ x) (replacer_ids_from i all containers)
      ↔ Any (IsReplacer all x) (numbered i containers)
unfolding replacer_ids_from
replacer_ids_from_iff i all [] x = (λ h. h, λ h. h)
replacer_ids_from_iff i all (c ∷ containers) x = elim (Option-cases c.replaces) [
  | inl unlabelled ↦ rw unlabelled (
    (λ h. inr ((replacer_ids_from_iff (suc i) all containers x).0 h)),
    λ h. elim h [
      | inl p ↦ ground (arith, p.1.1)
      | inr a ↦ (replacer_ids_from_iff (suc i) all containers x).1 a
    ],
  )
  | inr (target, labelled) ↦ rw labelled (elim (Bool-cases (other_has_id i 0 target all)) [
    | inl found ↦ rw found (
      (λ h. elim h [
        | inl p ↦ inl (p, (target, refl, (other_has_id_iff i 0 target all).0 found))
        | inr a ↦ inr ((replacer_ids_from_iff (suc i) all containers x).0 a)
      ]),
      λ h. elim h [
        | inl p ↦ inl p.0
        | inr a ↦ inr ((replacer_ids_from_iff (suc i) all containers x).1 a)
      ],
    )
    | inr gone ↦ rw gone (
      (λ h. inr ((replacer_ids_from_iff (suc i) all containers x).0 h)),
      λ h. elim h [
        | inl p ↦
            elim (refuted (other_has_id i 0 target all) (OtherHas i target 0 all)
              (other_has_id_iff i 0 target all) gone
              (subst (λ t. OtherHas i t 0 all) (sym (some_injective target p.1.0 p.1.1)) p.1.2)) [ ]
        | inr a ↦ (replacer_ids_from_iff (suc i) all containers x).1 a
      ],
    )
  ])
]

-- The containers to remove are exactly those whose label names another container that is there.
pub replacer_ids_iff :
    (containers : List Container) (x : Text)
    → Any (λ id. id ≡ x) (replacer_ids containers)
      ↔ Any (IsReplacer containers x) (numbered 0 containers)
unfolding replacer_ids
replacer_ids_iff containers x = replacer_ids_from_iff 0 containers containers x
