-- ===== src/Compose/Output/Printed.antt =====
-- compose/service/output.go: lines as docker compose prints them.
use musicbox.Prelude.{
  ℕ, ◌≡◌, ◌≢◌, ◌⊎◌, inl, inr, refl, ap, ◌∙◌, ◌<◌, ◌≤◌, ◌^◌, Bool, true, false, ◌||◌, some, [], ◌∷◌,
  ◌++◌, ◌==◌, arith,
}
use mathlib.Core.List.{append_assoc}
use musicbox.Prelude.Signed.{pos}
use musicbox.Prelude.Anywhere.{Text}
use musicbox.Fsutil.Text.{has_prefix-append}
use musicbox.Fsutil.OpenRandom.{decimal}
use musicbox.Compose.ParseInt.{parse_int-decimal}
use musicbox.Compose.OutputLine.{
  Resource, container, volume, network, State, error, creating, starting, started, waiting, healthy,
  exited, restarting, restarted, running, created, stopping, stopped, killing, killed, removing,
  removed, skipped, recreate, recreated, Project, resource_text, state_text, trim_from,
}
use musicbox.Compose.Output.Bytes.{dash, space, drop-length, contains-decimal}
use musicbox.Compose.Output.Services.{find_service_here}
use musicbox.Compose.Output.Names.{find_name_here, Unlike-Passing, sorted_down-Passing}
use musicbox.Compose.Output.{
  cut_project, find_cut, read_resource_type, with_resource, with_name, with_state, cut_quote,
  NameRead, name_read, name_panic, sorted_down, find_resource, read_resource_name, read_state,
  decoded, decode_compose_output_line,
}
use musicbox.Compose.Output.Format.{
  Quoting, plain, quoted, printed_name, dry_text, print_line, printed_num, Known, StartsPlain,
  IsDesc,
}

trim_plain : (c : ℕ) (s : Text) → b'0' ≤ c → c < 128 → trim_from 0 (c ∷ s) ≡ c ∷ s
unfolding trim_from
trim_plain c s low high =
    let off : (k : ℕ) → (k < b'0') ⊎ (128 ≤ k) → (c == k) ≡ false = λ k h. ground arith in
    rw (
      off 9 (inl (omega arith)),
      off 10 (inl (omega arith)),
      off 11 (inl (omega arith)),
      off 12 (inl (omega arith)),
      off 13 (inl (omega arith)),
      off 32 (inl (omega arith)),
      off 194 (inr (omega arith)),
      off 225 (inr (omega arith)),
      off 226 (inr (omega arith)),
      off 227 (inr (omega arith)),
    )

trim_space : (t : Text) → trim_from 0 (space ∷ t) ≡ trim_from 0 t
unfolding trim_from
trim_space t = refl

trim_quote : (s : Text) → trim_from 0 (b'"' ∷ s) ≡ b'"' ∷ s
unfolding trim_from
trim_quote s = refl

read_state-printed :
    (state : State) (desc : Text)
    → IsDesc desc
    → read_state (space ∷ space ∷ state_text state ++ desc) ≡ (some state, desc)
unfolding read_state trim_from
read_state-printed recreate [] h = refl
read_state-printed recreate (c ∷ s) h = rw h refl
read_state-printed error desc h = refl
read_state-printed creating desc h = refl
read_state-printed starting desc h = refl
read_state-printed started desc h = refl
read_state-printed waiting desc h = refl
read_state-printed healthy desc h = refl
read_state-printed exited desc h = refl
read_state-printed restarting desc h = refl
read_state-printed restarted desc h = refl
read_state-printed running desc h = refl
read_state-printed created desc h = refl
read_state-printed stopping desc h = refl
read_state-printed stopped desc h = refl
read_state-printed killing desc h = refl
read_state-printed killed desc h = refl
read_state-printed removing desc h = refl
read_state-printed removed desc h = refl
read_state-printed skipped desc h = refl
read_state-printed recreated desc h = refl

cut_project-append :
    (project_name t : Text) (sep : ℕ)
    → cut_project project_name (project_name ++ (sep ∷ t)) ≡ some t
unfolding cut_project
cut_project-append project_name t sep =
    rw (has_prefix-append project_name (sep ∷ t), drop-length project_name (sep ∷ t))

cut_quote_plain : (c : ℕ) (s : Text) → b'0' ≤ c → cut_quote (c ∷ s) ≡ c ∷ s
cut_quote_plain c s low = let quote : (c == b'"') ≡ false = ground arith in rw quote refl

name_behind_plain :
    (c : ℕ) (s rest : Text) (sep : ℕ) (project : Project) (resource : Resource)
    → b'0' ≤ c
    → c < 128
    → read_resource_name (space ∷ c ∷ s ++ (sep ∷ rest)) (c ∷ s) project resource
      ≡ find_resource project resource rest
unfolding read_resource_name find_cut
name_behind_plain c s rest sep project resource low high =
    let quote : (c == b'"') ≡ false = ground arith in
    ap
      (λ t. elim t as (λ x. NameRead) [
        | [] ↦ name_panic
        | b ∷ u ↦ find_cut project resource (cut_project (c ∷ s) (cut_quote (b ∷ u)))
      ])
      (trim_space (c ∷ s ++ (sep ∷ rest)) ∙ trim_plain c (s ++ (sep ∷ rest)) low high)
    ∙ ap (λ t. find_cut project resource (cut_project (c ∷ s) t))
        (cut_quote_plain c (s ++ (sep ∷ rest)) low)
    ∙ ap (λ o. find_cut project resource o) (cut_project-append (c ∷ s) rest sep)

module _ (project_name : Text) (project : Project) where
  name_behind :
      (c : ℕ) (s rest : Text) (sep : ℕ) (resource : Resource)
      → project_name ≡ c ∷ s
      → b'0' ≤ c
      → c < 128
      → read_resource_name (space ∷ project_name ++ (sep ∷ rest)) project_name project resource
        ≡ find_resource project resource rest
  name_behind c s rest sep resource starts low high =
      ap (λ p. read_resource_name (space ∷ p ++ (sep ∷ rest)) p project resource) starts
      ∙ name_behind_plain c s rest sep project resource low high

  quoted_name_behind :
      (rest : Text) (sep : ℕ) (resource : Resource)
      → read_resource_name
          (space ∷ b'"' ∷ project_name ++ (sep ∷ rest))
          project_name
          project
          resource
        ≡ find_resource project resource rest
  unfolding read_resource_name find_cut trim_from
  quoted_name_behind rest sep resource =
      ap (λ o. find_cut project resource o) (cut_project-append project_name rest sep)

  decode_starts :
      (dry mode : Bool) (resource : Resource) (t : Text)
      → decode_compose_output_line
          (dry_text dry ++ (space ∷ resource_text resource ++ (space ∷ t)))
          project_name
          project
          mode
        ≡ with_resource
            (dry_text dry ++ (space ∷ resource_text resource ++ (space ∷ t)))
            project_name
            project
            (dry || mode)
            (some resource, space ∷ t)
  unfolding decode_compose_output_line read_resource_type trim_from
  decode_starts true mode container t = refl
  decode_starts true mode volume t = refl
  decode_starts true mode network t = refl
  decode_starts false mode container t = refl
  decode_starts false mode volume t = refl
  decode_starts false mode network t = refl

  -- The name and the number of a line are read back, and what is behind them is left.
  read_resource_name-printed :
      (quoting : Quoting) (resource : Resource) (name tail : Text) (n : ℕ)
      → StartsPlain project_name
      → Known project resource name
      → n < 2 ^ 63
      → read_resource_name
          (space ∷ printed_name project_name quoting resource name n ++ (space ∷ tail))
          project_name
          project
          resource
        ≡ name_read name (pos (printed_num resource n)) (space ∷ tail)
  unfolding find_resource
  read_resource_name-printed quoting container name tail n (c, s, starts, low, high) (member, apart)
        h =
      let digits = decimal 19 n in
      rw
        (
          append_assoc project_name (dash ∷ name ++ (dash ∷ digits)) (space ∷ tail),
          append_assoc name (dash ∷ digits) (space ∷ tail),
          name_behind c s (name ++ (dash ∷ digits ++ (space ∷ tail))) dash container starts low
              high,
          find_service_here name digits tail (contains-decimal 19 n dash (omega arith))
              project.services (contains-decimal 19 n space (omega arith)) member apart,
        )
        (ap (λ z. name_read name z (space ∷ tail)) (parse_int-decimal n h))
  read_resource_name-printed quoting network name tail n (c, s, starts, low, high) (member, all) h =
      rw
        (
          append_assoc project_name (b'_' ∷ name) (space ∷ tail),
          name_behind c s (name ++ (space ∷ tail)) b'_' network starts low high,
        )
        (find_name_here name tail space refl (sorted_down project.network_names)
          (sorted_down-Passing name project.network_names member all))
  read_resource_name-printed plain volume name tail n (c, s, starts, low, high) (member, all) h =
      rw
        (
          append_assoc project_name (b'_' ∷ name) (space ∷ tail),
          name_behind c s (name ++ (space ∷ tail)) b'_' volume starts low high,
        )
        (find_name_here name tail space refl project.volumes
          (Unlike-Passing name project.volumes member all))
  read_resource_name-printed quoted volume name tail n starts (member, all) h =
      rw
        (
          append_assoc project_name (b'_' ∷ name ++ (b'"' ∷ [])) (space ∷ tail),
          append_assoc name (b'"' ∷ []) (space ∷ tail),
          quoted_name_behind (name ++ (b'"' ∷ space ∷ tail)) b'_' volume,
        )
        (find_name_here name (space ∷ tail) b'"' refl project.volumes
          (Unlike-Passing name project.volumes member all))

  -- A line as docker compose prints it, a volume's name with quotes or without, is decoded to what
  -- it says, for every resource and state, if the project's name starts with a letter or a digit,
  -- the resource's name is not empty and one that the project has, a container's number is an
  -- int64, nothing or a space follows the state, and no other name is taken for the resource's: for
  -- a service, none has a space, and no other, with a dash behind it, is how the service's starts,
  -- with a dash behind it; for a volume, no other starts it or is started by it, with a space or a
  -- quote behind; for a network, no other is started by it so. It counts as one of a dry run if it
  -- says so or the caller does.
  pub decode-print_line :
      (dry mode : Bool) (quoting : Quoting) (resource : Resource) (name : Text) (n : ℕ)
      (state : State) (desc : Text)
      → StartsPlain project_name
      → Known project resource name
      → name ≢ []
      → n < 2 ^ 63
      → IsDesc desc
      → decode_compose_output_line
          (print_line dry quoting project_name resource name n state desc)
          project_name
          project
          mode
        ≡ decoded (record {
          name = name;
          num = pos (printed_num resource n);
          resource = resource;
          state = state;
          desc = desc;
          dry_run_mode = dry || mode;
        })
  unfolding with_resource with_name with_state
  decode-print_line dry mode quoting resource [] n state desc starts known filled h ends =
      elim (filled refl) [ ]
  decode-print_line dry mode quoting resource (c ∷ name) n state desc starts known filled h ends =
      let tail = space ∷ state_text state ++ desc in
      rw
        (
          decode_starts dry mode resource
              (printed_name project_name quoting resource (c ∷ name) n ++ (space ∷ tail)),
          read_resource_name-printed quoting resource (c ∷ name) tail n starts known h,
          read_state-printed state desc ends,
        )
        refl
