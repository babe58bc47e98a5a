-- ===== src/Compose/Labels.antt =====
-- compose/service/filter_by_label.go: the services that have all the given labels.
use musicbox.Prelude.{
  ◌≡◌, ◌↔◌, refl, Bool, true, false, ◌&&◌, ◌||◌, List, [], ◌∷◌, arith, if◌then◌else◌, inl, inr,
  Bool-cases, sym,
}
use mathlib.Core.Path.{subst}
use musicbox.Prelude.Anywhere.{Any, All, Text, same_text, same_text_iff, or_iff, and_iff, refuted}
use musicbox.Compose.Images.{ServiceConfig}

-- `_, ok := s.Labels[label]`
has_key : Text → List (Text × Text) → Bool
unfolding same_text
has_key label [] = false
has_key label (entry ∷ labels) = same_text entry.0 label || has_key label labels

-- The inner loop, which stops at the first label that the service lacks.
has_labels : ServiceConfig → List Text → Bool
unfolding has_key
has_labels s [] = true
has_labels s (label ∷ labels) = has_key label s.labels && has_labels s labels

-- `FindServicesByLabels`
pub find_services_by_labels : List ServiceConfig → List Text → List ServiceConfig
unfolding has_labels
find_services_by_labels [] labels = []
find_services_by_labels (s ∷ services) labels =
    let rest = find_services_by_labels services labels in
    if has_labels s labels then s ∷ rest else rest

abbrev pub Labelled : ServiceConfig → Text → Type 0
Labelled s label = Any (λ entry. entry.0 ≡ label) s.labels

has_key_iff :
    (label : Text) (labels : List (Text × Text))
    → (has_key label labels ≡ true) ↔ Any (λ entry. entry.0 ≡ label) labels
unfolding has_key
has_key_iff label [] = (λ h. ground arith, λ h. elim h [ ])
has_key_iff label (entry ∷ labels) =
    or_iff (same_text entry.0 label) (has_key label labels) (entry.0 ≡ label)
      (Any (λ entry. entry.0 ≡ label) labels) (same_text_iff entry.0 label)
      (has_key_iff label labels)

has_labels_iff :
    (s : ServiceConfig) (labels : List Text)
    → (has_labels s labels ≡ true) ↔ All (Labelled s) labels
unfolding has_labels
has_labels_iff s [] = (λ h. tt, λ h. refl)
has_labels_iff s (label ∷ labels) =
    and_iff (has_key label s.labels) (has_labels s labels) (Labelled s label)
      (All (Labelled s) labels) (has_key_iff label s.labels) (has_labels_iff s labels)

-- A service is found exactly if it is one of the project's and has every given label.
pub find_services_by_labels_iff :
    (services : List ServiceConfig) (labels : List Text) (x : ServiceConfig)
    → Any (λ s. s ≡ x) (find_services_by_labels services labels)
      ↔ (Any (λ s. s ≡ x) services × All (Labelled x) labels)
unfolding find_services_by_labels
find_services_by_labels_iff [] labels x = (λ h. elim h [ ], λ h. elim h.0 [ ])
find_services_by_labels_iff (s ∷ services) labels x = elim (Bool-cases (has_labels s labels)) [
  | inl labelled ↦ rw labelled (
    (λ h. elim h [
      | inl p ↦
          (inl p, subst (λ t. All (Labelled t) labels) p ((has_labels_iff s labels).0 labelled))
      | inr a ↦
          let (found, all) = (find_services_by_labels_iff services labels x).0 a in (inr found, all)
    ]),
    λ h. elim h.0 [
      | inl p ↦ inl p
      | inr a ↦ inr ((find_services_by_labels_iff services labels x).1 (a, h.1))
    ],
  )
  | inr unlabelled ↦ rw unlabelled (
    (λ h.
        let (found, all) = (find_services_by_labels_iff services labels x).0 h in (inr found, all)),
    λ h. elim h.0 [
      | inl p ↦
          elim (refuted (has_labels s labels) (All (Labelled s) labels) (has_labels_iff s labels)
            unlabelled (subst (λ t. All (Labelled t) labels) (sym p) h.1)) [ ]
      | inr a ↦ (find_services_by_labels_iff services labels x).1 (a, h.1)
    ],
  )
]
