-- ===== src/Storage/Contents/Tests.antt =====
-- Contents and handles of two fields; a file system is its name, and the world what was copied where.
use musicbox.Prelude.{ℕ, ◌≡◌, false, Option, none, List, [], ◌∷◌}
use musicbox.Prelude.Codes.{codes}
use musicbox.Storage.Contents.{Field, struct, valid, valid_copy_contents_input, copy_contents}
use musicbox.Storage.Contents.Valid.{field, then_ended, copy_contents-swapped}

abbrev Copied : Type 0
Copied = List (ℕ × ℕ)

abbrev copy_to : ℕ → ℕ → Copied → Option ℕ × Copied
copy_to fsys content w = (none, (fsys, content) ∷ w)

abbrev handles : List (Field ℕ)
handles = field (codes "a") 1 ∷ field (codes "b") 2 ∷ []

abbrev contents : List (Field ℕ)
contents = field (codes "b") 20 ∷ field (codes "a") 10 ∷ []

copy_contents-swapped_example :
    (valid_copy_contents_input (struct handles) (struct contents) false ≡ valid)
    × (copy_contents copy_to (struct handles) (struct contents) []
        ≡ then_ended (copy_to 1 20 []) (copy_to 2 10))
copy_contents-swapped_example = copy_contents-swapped copy_to (codes "a") (codes "b") 1 2 10 20 []
