-- ===== src/Compose/Output/Parse.antt =====
-- compose/service/output.go: `ParseOutput`, which keeps the last line of each resource. The map is a
-- list of its entries. What panics the decoder is none.
use musicbox.Prelude.{
  ℕ, ◌≡◌, ◌≢◌, refl, ap, ◌∙◌, Bool, true, false, Option, none, some, List, [], ◌∷◌, ltb, ◌==◌,
  if◌then◌else◌, length,
}
use musicbox.Prelude.Anywhere.{Text, All}
use musicbox.Compose.OutputLine.{OutputLine, Project}
use musicbox.Compose.Output.Keyed.{NamedResource, same_key, lookup, set, lookup-set}
use musicbox.Compose.Output.{Decoded, decoded, undecoded, decode_panic, decode_compose_output_line}

pub record Output : Type 0 where
  pub resources : List (NamedResource × OutputLine)
  pub out : Text
  pub err : Text

prepend : ℕ → List Text → List Text
prepend c [] = (c ∷ []) ∷ []
prepend c (line ∷ lines) = (c ∷ line) ∷ lines

split_lines : Text → List Text
unfolding prepend
split_lines [] = []
split_lines (c ∷ s) = let rest = split_lines s in if c == b'\n' then [] ∷ rest else prepend c rest

drop_return : Text → Text
drop_return [] = []
drop_return (c ∷ []) = if c == b'\r' then [] else c ∷ []
drop_return (c ∷ d ∷ s) = c ∷ drop_return (d ∷ s)

-- `bufio.Scanner` stops at a line that its buffer does not hold.
scan : List Text → List Text
unfolding drop_return
scan [] = []
scan (line ∷ lines) =
    let rest = scan lines in if ltb (length line) 65536 then drop_return line ∷ rest else []

unfoldable pub scan_lines : Text → List Text
unfolding split_lines scan
scan_lines s = scan (split_lines s)

abbrev pub key_of : OutputLine → NamedResource
key_of line = record { resource = line.resource; name = line.name }

abbrev pub or_else : {A : Type 0} → Option A → Option A → Option A
or_else none b = b
or_else (some a) b = some a

if_else :
    (b : Bool) (line : OutputLine) (before : Option OutputLine)
    → (if b then some line else before) ≡ or_else (if b then some line else none) before
if_else true line before = refl
if_else false line before = refl

or_else_assoc :
    {A : Type 0} (later here before : Option A)
    → or_else later (or_else here before)
      ≡ or_else (elim later [ some l ↦ some l | none ↦ here ]) before
or_else_assoc none here before = refl
or_else_assoc (some l) here before = refl

abbrev and_then : {A B : Type 0} → Option A → (A → Option B) → Option B
and_then none f = none
and_then (some a) f = f a

module _ (project_name : Text) (project : Project) (is_dry_run_mode : Bool) where
  abbrev pub decode : Text → Decoded
  decode line = decode_compose_output_line line project_name project is_dry_run_mode

  keep : Decoded → List (NamedResource × OutputLine) → Option (List (NamedResource × OutputLine))
  unfolding set
  keep (decoded line) entries = some (set (key_of line) line entries)
  keep (undecoded e line) entries = some entries
  keep decode_panic entries = none

  keep_line : Text → List (NamedResource × OutputLine) → Option (List (NamedResource × OutputLine))
  unfolding keep
  keep_line [] entries = some entries
  keep_line (c ∷ line) entries = keep (decode (c ∷ line)) entries

  keep_lines :
      List Text → List (NamedResource × OutputLine) → Option (List (NamedResource × OutputLine))
  unfolding keep_line
  keep_lines [] entries = some entries
  keep_lines (line ∷ lines) entries = and_then (keep_line line entries) (keep_lines lines)

  -- `ParseOutput`
  unfoldable pub parse_output : Output → Text → Text → Option Output
  unfolding keep_lines scan_lines
  parse_output o stdout stderr =
      and_then
        (and_then (keep_lines (scan_lines stdout) o.resources) (keep_lines (scan_lines stderr)))
        (λ entries. some (record { resources = entries; out = stdout; err = stderr }))

  -- What a line says of a resource.
  abbrev said : NamedResource → Decoded → Option OutputLine
  said key (decoded line) = if same_key (key_of line) key then some line else none
  said key _ = none

  abbrev pub line_says : NamedResource → Text → Option OutputLine
  line_says key [] = none
  line_says key (c ∷ line) = said key (decode (c ∷ line))

  -- The last of the lines that say something of a resource.
  abbrev pub last_said : NamedResource → List Text → Option OutputLine
  last_said key [] = none
  last_said key (line ∷ lines) = elim (last_said key lines) [
    | some l ↦ some l
    | none ↦ line_says key line
  ]

  -- The decoder does not panic on a line, which is skipped if it is empty.
  abbrev pub Decodes : Text → Type 0
  Decodes [] = Unit
  Decodes (c ∷ line) = decode (c ∷ line) ≢ decode_panic

  keep-lookup :
      (key : NamedResource) (d : Decoded) (entries : List (NamedResource × OutputLine))
      → d ≢ decode_panic
      → (entries' : List (NamedResource × OutputLine)) × (keep d entries ≡ some entries')
        × (lookup key entries' ≡ or_else (said key d) (lookup key entries))
  unfolding keep
  keep-lookup key (decoded line) entries h = (
    set (key_of line) line entries,
    refl,
    lookup-set (key_of line) key line entries
        ∙ if_else (same_key (key_of line) key) line (lookup key entries),
  )
  keep-lookup key (undecoded e line) entries h = (entries, refl, refl)
  keep-lookup key decode_panic entries h = elim (h refl) [ ]

  keep_line-lookup :
      (key : NamedResource) (line : Text) (entries : List (NamedResource × OutputLine))
      → Decodes line
      → (entries' : List (NamedResource × OutputLine)) × (keep_line line entries ≡ some entries')
        × (lookup key entries' ≡ or_else (line_says key line) (lookup key entries))
  unfolding keep_line
  keep_line-lookup key [] entries h = (entries, refl, refl)
  keep_line-lookup key (c ∷ line) entries h = keep-lookup key (decode (c ∷ line)) entries h

  keep_lines-lookup :
      (key : NamedResource) (lines : List Text) (entries : List (NamedResource × OutputLine))
      → All Decodes lines
      → (entries' : List (NamedResource × OutputLine)) × (keep_lines lines entries ≡ some entries')
        × (lookup key entries' ≡ or_else (last_said key lines) (lookup key entries))
  unfolding keep_lines
  keep_lines-lookup key [] entries all = (entries, refl, refl)
  keep_lines-lookup key (line ∷ lines) entries (h, all) =
      let (one, kept, says) = keep_line-lookup key line entries h in
      let (entries', rest, later) = keep_lines-lookup key lines one all in
      (
        entries',
        ap (λ r. and_then r (keep_lines lines)) kept ∙ rest,
        later
            ∙ ap (λ o. or_else (last_said key lines) o) says
            ∙ or_else_assoc (last_said key lines) (line_says key line) (lookup key entries),
      )

  -- If the decoder panics on no line of the two texts, ParseOutput ends, keeps the texts, and has for
  -- any resource the last line that was decoded to it, of the second text or else of the first, or
  -- else what it had before.
  pub parse_output-last_said :
      (o : Output) (stdout stderr : Text) (key : NamedResource)
      → All Decodes (scan_lines stdout)
      → All Decodes (scan_lines stderr)
      → (new : Output) × (parse_output o stdout stderr ≡ some new)
        × (new.out ≡ stdout)
        × (new.err ≡ stderr)
        × (lookup key new.resources
            ≡ or_else
                (last_said key (scan_lines stderr))
                (or_else (last_said key (scan_lines stdout)) (lookup key o.resources)))
  unfolding parse_output
  parse_output-last_said o stdout stderr key outs errs =
      let (one, kept, says) = keep_lines-lookup key (scan_lines stdout) o.resources outs in
      let (entries, kept', says') = keep_lines-lookup key (scan_lines stderr) one errs in
      let whole : List (NamedResource × OutputLine) → Option Output =
        λ es. some (record { resources = es; out = stdout; err = stderr }) in
      (
        record { resources = entries; out = stdout; err = stderr },
        ap (λ r. and_then (and_then r (keep_lines (scan_lines stderr))) whole) kept
            ∙ ap (λ r. and_then r whole) kept',
        refl,
        refl,
        says' ∙ ap (λ b. or_else (last_said key (scan_lines stderr)) b) says,
      )
