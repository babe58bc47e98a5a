-- ===== src/Fsutil/Equal/Trees/Sound.antt =====
-- fsutil/equal.go: walks of `Equal` that report nothing.
use mathlib.Core.Path.{ap₂, subst}
use mathlib.Core.List.{head-eq_of_cons-eq, tail-eq_of_cons-eq}
use musicbox.Prelude.{
  ℕ, zero, suc, ◌≡◌, ◌≤◌, refl, sym, ap, ◌∙◌, Bool, true, false, Option, none, some, List, [], ◌∷◌,
  ◌++◌, if◌then◌else◌, length, length-append, arith,
}
use musicbox.Prelude.Anywhere.{same_text, same_text_iff}
use musicbox.Fsutil.Fs.{FilePath, same_path}
use musicbox.Fsutil.Path.{dot, join}
use musicbox.Fsutil.Walk.{Dirent, Stop, Step, chain, walk, walk_each, walk_below, walk_entries}
use musicbox.Fsutil.Tree.{
  Node, Entries, file, folder, end, entry, node_mode, dirent_of, dirents, names, larger_left,
  larger_right, height, height_entries,
}
use musicbox.Fsutil.Equal.{FileMode, CopyFsOption, EqualReport, same_mode, same_names, ReadFull}
use musicbox.Fsutil.Equal.Entries.{same_mode_iff, same_names_iff}
use musicbox.Fsutil.Equal.Contents.{ReadsFully}
use musicbox.Fsutil.Equal.Trees.Grows.{
  Longer, Longer-length, Grows, walk_each-Grows, walk_on, below, below-Grows, walk-Grows,
  visit-Grows,
}
use musicbox.Fsutil.Equal.Trees.{
  ReadFs, Reports, add, content_report, names_report, visit, mode_reported,
}
use musicbox.Fsutil.Equal.Trees.Spec.{Shows, ShowsEach, content_difference, visit_node}
use musicbox.Fsutil.Equal.Trees.Spec.{Alike, Same, SameEach}

-- The step has succeeded and not added anything.
abbrev pub Quiet : Reports → Option Stop × Reports → Type 0
Quiet rs r = (r.0 ≡ none) × (length r.1 ≤ length rs)

pub chain-Quiet :
    (rs : Reports) (r : Option Stop × Reports) (k : Step Reports)
    → Longer rs r
    → Grows k
    → Quiet rs (chain r k)
    → Quiet rs r × (chain r k ≡ k r.1)
chain-Quiet rs (none, x) k h g (ok, short) =
    ((refl, omega (arith, Longer-length x (k x) (g x), short)), refl)
chain-Quiet rs (some s, x) k h g (ok, short) = absurd (cc ok)

pub add_nothing :
    (a b : Option EqualReport) (rs : Reports)
    → length (add b (add a rs)) ≤ length rs
    → (a ≡ none) × (b ≡ none)
add_nothing none none rs h = (refl, refl)
add_nothing (some r) none rs h = absurd (omega (arith, h, length-append rs (r ∷ [])))
add_nothing none (some r) rs h = absurd (omega (arith, h, length-append rs (r ∷ [])))
add_nothing (some r) (some q) rs h =
    absurd (omega (arith, h, length-append rs (r ∷ []), length-append (rs ++ (r ∷ [])) (q ∷ [])))

module _ {R : Type 0} (read_full : ReadFull R) (contents : R → List ℕ) (dst src : ReadFs R)
    (opt : CopyFsOption) (reads : ReadsFully read_full contents) where
  abbrev pub walks : ℕ → FilePath → Dirent → Step Reports
  walks = walk_on read_full dst src opt

  -- What a quiet walk of a pair says of the visit, after which nothing is added below either.
  pub visit-Quiet :
      (fuel : ℕ) (name p : FilePath) (s t : Node) (rs : Reports)
      → Shows contents dst p s
      → Shows contents src p t
      → Quiet rs (walks (suc fuel) p (dirent_of name s) rs)
      → (mode_reported opt p (node_mode s) (node_mode t) ≡ none)
        × (content_difference p s t ≡ none)
        × (walks (suc fuel) p (dirent_of name s) rs
            ≡ below read_full dst src opt fuel p (dirent_of name s) rs)
  unfolding walk
  visit-Quiet fuel name p s t rs ds ss quiet =
      let d = dirent_of name s in
      let e = visit_node read_full contents dst src opt reads name p s t rs ds ss in
      let (q, rest) =
        chain-Quiet rs (visit read_full dst src opt p d rs) (below read_full dst src opt fuel p d)
          (visit-Grows read_full dst src opt p d rs)
          (below-Grows read_full dst src opt fuel p d (walk-Grows read_full dst src opt fuel))
          quiet in
      let (modes, content) =
        add_nothing (mode_reported opt p (node_mode s) (node_mode t)) (content_difference p s t) rs
          (subst (λ r. length r.1 ≤ length rs) e q.1) in
      (
        modes,
        content,
        rest
            ∙ ap (λ r. below read_full dst src opt fuel p d r.1) e
            ∙ ap₂ (λ a b. below read_full dst src opt fuel p d (add b (add a rs))) modes content,
      )

  pub Sound : ℕ → Type 0
  Sound fuel =
      (name p : FilePath) (s t : Node) (rs : Reports)
      → same_path p dot ≡ false
      → Shows contents dst p s
      → Shows contents src p t
      → height s ≤ fuel
      → Quiet rs (walks fuel p (dirent_of name s) rs)
      → Same opt p s t × ((walks fuel p (dirent_of name s) rs).1 ≡ rs)

  pub each-Sound :
      (fuel : ℕ) (p : FilePath) (es es' : Entries) (rs : Reports)
      → Sound fuel
      → ShowsEach contents dst p es
      → ShowsEach contents src p es'
      → height_entries es ≤ fuel
      → names es ≡ names es'
      → Quiet rs (walk_each (walks fuel) p (dirents es) rs)
      → SameEach opt p es es' × ((walk_each (walks fuel) p (dirents es) rs).1 ≡ rs)
  unfolding walk_each height Sound
  each-Sound fuel p end end rs sound ds ss h n quiet = (tt, refl)
  each-Sound fuel p end (entry name t es') rs sound ds ss h n quiet = absurd (cc n)
  each-Sound fuel p (entry name s es) end rs sound ds ss h n quiet = absurd (cc n)
  each-Sound fuel p (entry name s es) (entry name' t es') rs sound (apart, ds, more)
        (apart', ss, more') h n quiet =
      let same_name = head-eq_of_cons-eq n in
      let there = subst (λ k. Shows contents src (join p k) t) (sym same_name) ss in
      let there' = more' in
      let (q, rest) =
        chain-Quiet rs (walks fuel (join p name) (dirent_of name s) rs)
          (walk_each (walks fuel) p (dirents es))
          (walk-Grows read_full dst src opt fuel (join p name) (dirent_of name s) rs)
          (walk_each-Grows (walks fuel) p (dirents es) (walk-Grows read_full dst src opt fuel))
          quiet in
      let (same, back) =
        sound name (join p name) s t rs apart ds there
          (larger_left (height s) (height_entries es) fuel h) q in
      let onward = rest ∙ ap (walk_each (walks fuel) p (dirents es)) back in
      let (others, at_end) =
        each-Sound fuel p es es' rs sound more there'
          (larger_right (height s) (height_entries es) fuel h) (tail-eq_of_cons-eq n)
          (subst (Quiet rs) onward quiet) in
      ((same_name, same, others), ap (λ r. r.1) onward ∙ at_end)

  pub same_mode_reported :
      (p : FilePath) (m m' : FileMode)
      → same_path p dot ≡ false
      → mode_reported opt p m m' ≡ none
      → Alike opt p m m'
  same_mode_reported p m m' apart h =
      (same_mode_iff m m' p opt).0
        (subst (λ b. (if b then none else same_mode m m' p opt) ≡ none) apart h)

  pub below_folder :
      (fuel : ℕ) (name p : FilePath) (m : FileMode) (es : Entries) (rs : Reports)
      → Shows contents dst p (folder m es)
      → below read_full dst src opt fuel p (dirent_of name (folder m es)) rs
        ≡ walk_each (walks fuel) p (dirents es) rs
  unfolding walk_below walk_entries
  below_folder fuel name p m es rs (d, o, listed, each) = rw listed refl

  pub below_file :
      (fuel : ℕ) (name p : FilePath) (m : FileMode) (c : List ℕ) (rs : Reports)
      → below read_full dst src opt fuel p (dirent_of name (file m c)) rs ≡ (none, rs)
  unfolding walk_below
  below_file fuel name p m c rs = refl

  pub if_none : (b : Bool) (r : EqualReport) → (if b then none else some r) ≡ none → b ≡ true
  if_none true r h = refl
  if_none false r h = absurd (cc h)

  pub same_contents :
      (c c' : List ℕ) (p : FilePath)
      → (if same_text c c' then none else some (content_report p)) ≡ none
      → c ≡ c'
  same_contents c c' p h = (same_text_iff c c').0 (if_none (same_text c c') (content_report p) h)

  pub same_listed :
      (es es' : Entries) (p : FilePath)
      → (if same_names (names es) (names es')
          then none
          else some (names_report p (names es) (names es')))
        ≡ none
      → names es ≡ names es'
  same_listed es es' p h =
      (same_names_iff (names es) (names es')).0
        (if_none (same_names (names es) (names es')) (names_report p (names es) (names es')) h)

  pub walk-Sound : (fuel : ℕ) → Sound fuel
  unfolding Sound height
  walk-Sound zero name p (file m c) t rs apart ds ss h quiet = absurd (omega (arith, h))
  walk-Sound zero name p (folder m es) t rs apart ds ss h quiet = absurd (omega (arith, h))
  walk-Sound (suc fuel) name p (file m c) (file m' c') rs apart ds ss h quiet =
      let (modes, content, rest) = visit-Quiet fuel name p (file m c) (file m' c') rs ds ss quiet in
      (
        (same_mode_reported p m m' apart modes, same_contents c c' p content),
        ap (λ r. r.1) (rest ∙ below_file fuel name p m c rs),
      )
  walk-Sound (suc fuel) name p (file m c) (folder m' es') rs apart ds ss h quiet =
      let (modes, content, rest) =
        visit-Quiet fuel name p (file m c) (folder m' es') rs ds ss quiet in
      absurd (ground (arith, (same_mode_reported p m m' apart modes).0, ds.0, ss.0))
  walk-Sound (suc fuel) name p (folder m es) (file m' c') rs apart ds ss h quiet =
      let (modes, content, rest) =
        visit-Quiet fuel name p (folder m es) (file m' c') rs ds ss quiet in
      absurd (ground (arith, (same_mode_reported p m m' apart modes).0, ds.0, ss.0))
  walk-Sound (suc fuel) name p (folder m es) (folder m' es') rs apart ds ss h quiet =
      let (modes, content, rest) =
        visit-Quiet fuel name p (folder m es) (folder m' es') rs ds ss quiet in
      let onward = rest ∙ below_folder fuel name p m es rs ds in
      let (same, back) =
        each-Sound fuel p es es' rs (walk-Sound fuel) ds.3 ss.3 (omega (arith, h))
          (same_listed es es' p content) (subst (Quiet rs) onward quiet) in
      ((same_mode_reported p m m' apart modes, same), ap (λ r. r.1) onward ∙ back)
