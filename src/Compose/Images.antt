-- ===== src/Compose/Images.antt =====
-- compose/service/compare.go: the images that only one of two projects uses. A project is the list of
-- its services in the order that the map gives them; the inner loops only ask whether there is one.
use musicbox.Prelude.{ℕ, ◌≡◌, Bool, false, ◌||◌, List, [], ◌∷◌, ◌++◌, ◌==◌, if◌then◌else◌}
use musicbox.Prelude.Codes.{codes}
use musicbox.Prelude.Anywhere.{Any, Text, same_text}

-- What the code reads of compose-go's `types.ServiceConfig`.
pub record ServiceConfig : Type 0 where
  pub name : Text
  pub image : Text
  pub labels : List (Text × Text)

unfoldable pub contains_byte : ℕ → Text → Bool
contains_byte c [] = false
contains_byte c (a ∷ t) = a == c || contains_byte c t

-- `fallbackLatest`
unfoldable pub fallback_latest : Text → Text
unfolding contains_byte
fallback_latest i = if contains_byte b':' i then i else i ++ codes ":latest"

-- The inner loop: whether one of the services has the image.
uses_image : Text → List ServiceConfig → Bool
unfolding same_text fallback_latest
uses_image image [] = false
uses_image image (s ∷ services) =
    same_text (fallback_latest s.image) image || uses_image image services

-- The outer loop, which reports one of its service's fields.
missing : (ServiceConfig → Text) → List ServiceConfig → List ServiceConfig → List Text
unfolding uses_image fallback_latest
missing reported [] others = []
missing reported (s ∷ services) others =
    let rest = missing reported services others in
    if uses_image (fallback_latest s.image) others
    then rest
    else fallback_latest (reported s) ∷ rest

-- `CompareProjectImage`
unfoldable pub compare_project_image :
    List ServiceConfig → List ServiceConfig → List Text × List Text
unfolding missing
compare_project_image old new = (missing (λ s. s.image) old new, missing (λ s. s.name) new old)

-- One of the services has the image.
abbrev pub Uses : Text → List ServiceConfig → Type 0
Uses image services = Any (λ s. fallback_latest s.image ≡ image) services
