-- ===== src/Storage/Prepare/Tests.antt =====
-- PrepareHandle of two directories; the world is the directories made.
use musicbox.Prelude.{ℕ, ◌≡◌, refl, true, Option, none, some, List, [], ◌∷◌}
use musicbox.Prelude.Codes.{codes}
use musicbox.Prelude.Anywhere.{Text, All, same_text}
use musicbox.Fsutil.Fs.{FilePath}
use musicbox.Fsutil.Path.{split_slash}
use musicbox.Storage.Contents.{Field, nil}
use musicbox.Storage.Prepare.{PathField, is_local, valid_prepare_input, handle, prepare_handle}
use musicbox.Storage.Prepare.Handles.{Served}
use musicbox.Storage.Prepare.Returns.{prepare_handle-Returned}

abbrev path_field : Text → FilePath → PathField
path_field name p = record { name = name; exported = true; path = some p }

abbrev fields : List PathField
fields = path_field (codes "B") (codes "x") ∷ path_field (codes "A") (codes "y") ∷ []

abbrev empty_field : Text → Field FilePath
empty_field name = record { name = name; exported = true; implements = true; slot = nil }

abbrev handles : List (Field FilePath)
handles = empty_field (codes "A") ∷ empty_field (codes "B") ∷ []

abbrev Made : Type 0
Made = List FilePath

abbrev make : FilePath → Made → Option ℕ × Made
make p w = (none, p ∷ w)

abbrev no_copy : FilePath → ℕ → Made → Option ℕ × Made
no_copy fsys content w = (none, w)

prepare_handle-Returned_example :
    (hs : List (Field FilePath)) × (v : Made) × (prepare_handle make
        (λ p. p)
        no_copy
        fields
        handles
        none
        []
      ≡ handle hs v)
    × All (Served make (λ p. p) no_copy hs) fields
unfolding valid_prepare_input is_local split_slash same_text
prepare_handle-Returned_example =
    prepare_handle-Returned make (λ p. p) no_copy fields handles [] refl (λ p w. refl)
      (refl, (refl, tt)) ((refl, tt), (tt, tt))
