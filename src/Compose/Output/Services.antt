-- ===== src/Compose/Output/Services.antt =====
-- compose/service/output.go: the service that the loop over a project's services finds.
use musicbox.Prelude.{
  ℕ, ◌≡◌, ◌⊎◌, inl, inr, refl, sym, ap, ◌∙◌, true, false, List, [], ◌∷◌, ◌++◌, ◌==◌, drop, length,
  arith, Bool-cases,
}
use mathlib.Core.List.{append-nil, head-eq_of_cons-eq, tail-eq_of_cons-eq}
use musicbox.Prelude.Anywhere.{Text, Any, All}
use musicbox.Fsutil.Text.{has_prefix, has_prefix-append, contains}
use musicbox.Compose.ParseInt.{parse_int}
use musicbox.Compose.Output.{name_read, find_service}
use musicbox.Compose.Output.Bytes.{
  dash, space, drop-length, has_prefix-drop, contains-behind, contains-here, has_prefix_self,
  before_space-append, from_space-append,
}

-- A text without spaces and a dash do not start digits and a space.
no_dash :
    (o r digits z : Text)
    → contains o space ≡ false
    → contains digits dash ≡ false
    → o ++ (dash ∷ r) ≡ digits ++ (space ∷ z)
    → ⊥
no_dash [] r [] z plain digits h = absurd (omega (arith, head-eq_of_cons-eq h))
no_dash [] r (d ∷ ds) z plain digits h = absurd (ground (arith, head-eq_of_cons-eq h))
no_dash (c ∷ o) r [] z plain digits h = absurd (ground (arith, head-eq_of_cons-eq h))
no_dash (c ∷ o) r (d ∷ ds) z plain digits h =
    no_dash o r ds z (ground arith) (ground arith) (tail-eq_of_cons-eq h)

-- A service that is taken for another one is, with a dash behind it, how that one starts.
starts_name :
    (o r name digits z : Text)
    → contains o space ≡ false
    → contains digits dash ≡ false
    → o ++ (dash ∷ r) ≡ name ++ (dash ∷ digits ++ (space ∷ z))
    → has_prefix (name ++ (dash ∷ [])) (o ++ (dash ∷ [])) ≡ true
starts_name [] r [] digits z plain nums h = refl
starts_name [] r (c ∷ name) digits z plain nums h =
    let same = head-eq_of_cons-eq h in rw (sym same) refl
starts_name (d ∷ o) r [] digits z plain nums h =
    elim (no_dash o r digits z (ground arith) nums (tail-eq_of_cons-eq h)) [ ]
starts_name (d ∷ o) r (c ∷ name) digits z plain nums h =
    let same = head-eq_of_cons-eq h in
    let rest = starts_name o r name digits z (ground arith) nums (tail-eq_of_cons-eq h) in
    ground (arith, same, rest)

-- A service that is no other's: it is `name`, or with a dash behind it not how `name` starts.
abbrev pub Apart : Text → Text → Type 0
Apart name o =
    (contains o space ≡ false)
    × ((o ≡ name) ⊎ (has_prefix (name ++ (dash ∷ [])) (o ++ (dash ∷ [])) ≡ false))

module _ (name digits z : Text) (nums : contains digits dash ≡ false) where
  abbrev printed : Text
  printed = name ++ (dash ∷ digits ++ (space ∷ z))

  -- What is behind another service's name is not empty and does not start with a dash.
  printed_behind :
      (o d : Text)
      → contains o space ≡ false
      → has_prefix (name ++ (dash ∷ [])) (o ++ (dash ∷ [])) ≡ false
      → printed ≡ o ++ d
      → (c : ℕ) × (rest : Text) × (d ≡ c ∷ rest) × ((c == dash) ≡ false)
  printed_behind o [] plain other whole =
      let spaced : contains printed space ≡ true =
        contains-behind name (dash ∷ digits ++ (space ∷ z)) space
          (contains-behind (dash ∷ digits) (space ∷ z) space (contains-here z space)) in
      absurd (cc (spaced, plain, ap (λ t. contains t space) (whole ∙ append-nil o)))
  printed_behind o (c ∷ rest) plain other whole = elim (Bool-cases (c == dash)) [
    | inl e ↦
        let at : c ≡ dash = ground arith in
        let starts =
          starts_name o rest name digits z plain nums
            (ap (λ b. o ++ (b ∷ rest)) (sym at) ∙ sym whole) in
        absurd (ground arith)
    | inr e ↦ (c, rest, refl, e)
  ]

  passed_by :
      (o : Text) (names : List Text)
      → contains o space ≡ false
      → has_prefix (name ++ (dash ∷ [])) (o ++ (dash ∷ [])) ≡ false
      → find_service (o ∷ names) printed ≡ find_service names printed
  unfolding find_service
  passed_by o names plain other = elim (Bool-cases (has_prefix printed o)) [
    | inl starts ↦
        let (c, rest, behind, differs) =
          printed_behind o (drop (length o) printed) plain other
            (has_prefix-drop printed o starts) in
        rw (starts, behind, differs) refl
    | inr fails ↦ rw fails refl
  ]

  pub find_service_here :
      (names : List Text)
      → contains digits space ≡ false
      → Any (λ o. o ≡ name) names
      → All (Apart name) names
      → find_service names printed ≡ name_read name (parse_int digits) (space ∷ z)
  unfolding find_service
  find_service_here [] solid member apart = elim member [ ]
  find_service_here (o ∷ names) solid member ((plain, inl same), apart) =
      rw
        (
          same,
          has_prefix-append name (dash ∷ digits ++ (space ∷ z)),
          drop-length name (dash ∷ digits ++ (space ∷ z)),
          before_space-append digits z solid,
          from_space-append digits z solid,
        )
        (ap (λ t. name_read t (parse_int digits) (space ∷ z)) same)
  find_service_here (o ∷ names) solid (inl same) ((plain, inr other), apart) = absurd (
      ground (
        arith,
        ap (λ t. has_prefix (name ++ (dash ∷ [])) (t ++ (dash ∷ []))) same,
        has_prefix_self (name ++ (dash ∷ [])),
      ))
  find_service_here (o ∷ names) solid (inr member) ((plain, inr other), apart) =
      passed_by o names plain other ∙ find_service_here names solid member apart
