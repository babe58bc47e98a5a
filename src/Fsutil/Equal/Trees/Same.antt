-- ===== src/Fsutil/Equal/Trees/Same.antt =====
-- fsutil/equal.go: `Equal` of two trees of regular files and directories.
use mathlib.Core.Path.{ap₂, subst}
use musicbox.Prelude.{
  ℕ, zero, suc, ◌≡◌, ◌↔◌, ◌≤◌, refl, sym, ap, ◌∙◌, Option, none, some, List, [], ◌∷◌, length,
  Bool-cases, inl, inr, arith,
}
use musicbox.Prelude.Anywhere.{same_text_iff}
use musicbox.Fsutil.Fs.{FilePath, same_path, opened, not_opened}
use musicbox.Fsutil.Path.{dot, join}
use musicbox.Fsutil.Walk.{
  Stop, chain, walk, walk_each, walk_dir, finish, fails, skip_all, out_of_fuel,
}
use musicbox.Fsutil.Tree.{
  Node, Entries, file, folder, end, entry, node_mode, dirent_of, dirents, names, larger_left,
  larger_right, height, height_entries,
}
use musicbox.Fsutil.Equal.{FileMode, CopyFsOption, ReadFull}
use musicbox.Fsutil.Equal.Entries.{same_mode_iff, same_names_iff}
use musicbox.Fsutil.Equal.Contents.{ReadsFully}
use musicbox.Fsutil.Equal.Trees.Grows.{Longer, below, walk-Grows}
use musicbox.Fsutil.Equal.Trees.{
  ReadFs, Reports, add, visit, mode_reported, on_error, equal_fs, wrapped,
}
use musicbox.Fsutil.Equal.Trees.Spec.{Shows, ShowsEach, content_difference, visit_node}
use musicbox.Fsutil.Equal.Trees.Spec.{Alike, Same, SameEach}
use musicbox.Fsutil.Equal.Trees.Sound.{
  Quiet, walks, visit-Quiet, each-Sound, below_folder, below_file, same_listed, walk-Sound,
}

module _ {R : Type 0} (read_full : ReadFull R) (contents : R → List ℕ) (dst src : ReadFs R)
    (opt : CopyFsOption) (reads : ReadsFully read_full contents) where
  -- A pair of the same is walked over without a report.
  nothing_reported :
      (name p : FilePath) (s t : Node) (rs : Reports)
      → Shows contents dst p s
      → Shows contents src p t
      → (mode_reported opt p (node_mode s) (node_mode t) ≡ none)
      → (content_difference p s t ≡ none)
      → visit read_full dst src opt p (dirent_of name s) rs ≡ (none, rs)
  nothing_reported name p s t rs ds ss modes content =
      visit_node read_full contents dst src opt reads name p s t rs ds ss
      ∙ ap₂ (λ a b. (none, add b (add a rs))) modes content

  mode_reported-Alike :
      (p : FilePath) (m m' : FileMode) → Alike opt p m m' → mode_reported opt p m m' ≡ none
  mode_reported-Alike p m m' alike = elim (Bool-cases (same_path p dot)) [
    | inl e ↦ rw e refl
    | inr e ↦ rw e ((same_mode_iff m m' p opt).1 alike)
  ]

  SameEach-names : (p : FilePath) (es es' : Entries) → SameEach opt p es es' → names es ≡ names es'
  SameEach-names p end end h = refl
  SameEach-names p end (entry name t es') h = elim h [ ]
  SameEach-names p (entry name s es) end h = elim h [ ]
  SameEach-names p (entry name s es) (entry name' t es') (same, h, rest) =
      ap₂ (λ n l. n ∷ l) same (SameEach-names p es es' rest)

  listed_same :
      (p : FilePath) (m m' : FileMode) (es es' : Entries)
      → SameEach opt p es es'
      → content_difference p (folder m es) (folder m' es') ≡ none
  listed_same p m m' es es' h =
      rw ((same_names_iff (names es) (names es')).1 (SameEach-names p es es' h)) refl

  Complete : ℕ → Type 0
  Complete fuel =
      (name p : FilePath) (s t : Node) (rs : Reports)
      → Shows contents dst p s
      → Shows contents src p t
      → height s ≤ fuel
      → Same opt p s t
      → walks read_full contents dst src opt reads fuel p (dirent_of name s) rs ≡ (none, rs)

  each-Complete :
      (fuel : ℕ) (p : FilePath) (es es' : Entries) (rs : Reports)
      → Complete fuel
      → ShowsEach contents dst p es
      → ShowsEach contents src p es'
      → height_entries es ≤ fuel
      → SameEach opt p es es'
      → walk_each (walks read_full contents dst src opt reads fuel) p (dirents es) rs ≡ (none, rs)
  unfolding walk_each height Complete
  each-Complete fuel p end end rs complete ds ss h same = refl
  each-Complete fuel p end (entry name t es') rs complete ds ss h same = elim same [ ]
  each-Complete fuel p (entry name s es) end rs complete ds ss h same = elim same [ ]
  each-Complete fuel p (entry name s es) (entry name' t es') rs complete (apart, ds, more)
        (apart', ss, more') h (same_name, same, others) =
      let there = subst (λ k. Shows contents src (join p k) t) (sym same_name) ss in
      ap (λ r. chain r (walk_each (walks read_full contents dst src opt reads fuel) p (dirents es)))
        (complete name (join p name) s t rs ds there
          (larger_left (height s) (height_entries es) fuel h) same)
      ∙ each-Complete fuel p es es' rs complete more more'
          (larger_right (height s) (height_entries es) fuel h) others

  walk-Complete : (fuel : ℕ) → Complete fuel
  unfolding Complete height walk
  walk-Complete zero name p (file m c) t rs ds ss h same = absurd (omega (arith, h))
  walk-Complete zero name p (folder m es) t rs ds ss h same = absurd (omega (arith, h))
  walk-Complete (suc fuel) name p (file m c) (folder m' es') rs ds ss h same = elim same [ ]
  walk-Complete (suc fuel) name p (folder m es) (file m' c') rs ds ss h same = elim same [ ]
  walk-Complete (suc fuel) name p (file m c) (file m' c') rs ds ss h (alike, same) =
      ap (λ r. chain r (below read_full dst src opt fuel p (dirent_of name (file m c))))
        (nothing_reported name p (file m c) (file m' c') rs ds ss (mode_reported-Alike p m m' alike)
          (rw ((same_text_iff c c').1 same) refl))
      ∙ below_file read_full contents dst src opt reads fuel name p m c rs
  walk-Complete (suc fuel) name p (folder m es) (folder m' es') rs ds ss h (alike, same) =
      ap (λ r. chain r (below read_full dst src opt fuel p (dirent_of name (folder m es))))
        (nothing_reported name p (folder m es) (folder m' es') rs ds ss
          (mode_reported-Alike p m m' alike) (listed_same p m m' es es' same))
      ∙ below_folder read_full contents dst src opt reads fuel name p m es rs ds
      ∙ each-Complete fuel p es es' rs (walk-Complete fuel) ds.3 ss.3 (omega (arith, h)) same

  -- The end of `Equal`, from what the walk returns.
  abbrev outcome : Option Stop × Reports → Reports × Option Stop
  outcome r = ((finish r).1, wrapped read_full dst src opt (finish r).0)

  outcome_nothing :
      (r : Option Stop × Reports) → Longer [] r → outcome r ≡ ([], none) → r ≡ (none, [])
  outcome_nothing (none, x) long h = ap (λ r. (none, r.0)) h
  outcome_nothing (some skip_all, x) long h = elim long [ ]
  outcome_nothing (some (fails e), x) long h = absurd (cc (ap (λ r. r.1) h))
  outcome_nothing (some out_of_fuel, x) long h = absurd (cc (ap (λ r. r.1) h))

  root_walk :
      (fuel : ℕ) (node : Node)
      → dst.stat_name dot ≡ opened (dirent_of dot node)
      → equal_fs read_full dst src opt fuel
        ≡ outcome (walks read_full contents dst src opt reads fuel dot (dirent_of dot node) [])
  unfolding equal_fs walk_dir
  root_walk fuel node st =
      ap
        (λ o.
          let r = elim o as (λ o. Option Stop × Reports) [
            | opened d ↦ finish (walks read_full contents dst src opt reads fuel dot d [])
            | not_opened e ↦ finish (on_error read_full dst src opt dot e [])
          ] in
          (r.1, wrapped read_full dst src opt r.0))
        st

  -- Equal of two file systems that have trees of regular files and directories, of the height of the
  -- destination's at most, reports nothing and does not fail exactly if the two have the same names and
  -- contents, and modes that match under the options, whatever the modes of the roots.
  pub equal_fs_iff :
      (fuel : ℕ) (m m' : FileMode) (es es' : Entries)
      → dst.stat_name dot ≡ opened (dirent_of dot (folder m es))
      → Shows contents dst dot (folder m es)
      → Shows contents src dot (folder m' es')
      → height (folder m es) ≤ fuel
      → (equal_fs read_full dst src opt fuel ≡ ([], none)) ↔ SameEach opt dot es es'
  unfolding walk height
  equal_fs_iff zero m m' es es' st ds ss h = absurd (omega (arith, h))
  equal_fs_iff (suc fuel) m m' es es' st ds ss h =
      let root = folder m es in
      let w = walks read_full contents dst src opt reads (suc fuel) dot (dirent_of dot root) [] in
      (
        (λ nothing.
            let quiet =
              outcome_nothing w
                (walk-Grows read_full dst src opt (suc fuel) dot (dirent_of dot root) [])
                (sym (root_walk (suc fuel) root st) ∙ nothing) in
            let (modes, content, rest) =
              visit-Quiet read_full contents dst src opt reads fuel dot dot root (folder m' es') []
                ds ss (ap (λ r. r.0) quiet, omega (arith, ap (λ r. length r.1) quiet)) in
            (each-Sound read_full contents dst src opt reads fuel dot es es' []
              (walk-Sound read_full contents dst src opt reads fuel) ds.3 ss.3 (omega (arith, h))
              (same_listed read_full contents dst src opt reads es es' dot content)
              (subst (Quiet [])
                (sym quiet
                  ∙ rest
                  ∙ below_folder read_full contents dst src opt reads fuel dot dot m es [] ds)
                (refl, omega arith))).0),
        λ same.
            root_walk (suc fuel) root st
            ∙ ap outcome (
                ap (λ r. chain r (below read_full dst src opt fuel dot (dirent_of dot root)))
                  (nothing_reported dot dot root (folder m' es') [] ds ss refl
                    (listed_same dot m m' es es' same))
                ∙ below_folder read_full contents dst src opt reads fuel dot dot m es [] ds
                ∙ each-Complete fuel dot es es' [] (walk-Complete fuel) ds.3 ss.3 (omega (arith, h))
                    same),
      )
