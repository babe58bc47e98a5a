-- ===== src/Fsutil/Copy/Walked.antt =====
-- fsutil/copy.go: `CopyFS` of a tree of regular files and directories.
use mathlib.Core.Path.{subst}
use musicbox.Prelude.{
  ℕ, zero, suc, ◌≡◌, ◌≤◌, refl, sym, ap, ◌∙◌, false, Option, none, some, List, [], ◌∷◌, ◌++◌, arith,
}
use musicbox.Prelude.Anywhere.{All}
use musicbox.Fsutil.Error.{Error}
use musicbox.Fsutil.Action.{Action, done, ◌>>◌, for_each, Post, Ensures, Ensures->>, weaken-Post}
use musicbox.Fsutil.Fs.{FilePath, same_path, Opened, opened, not_opened}
use musicbox.Fsutil.Path.{dot, join}
use musicbox.Fsutil.Walk.{
  Dirent, Stop, fails, skip_all, out_of_fuel, Step, chain, finish, walk, walk_each, walk_below,
  walk_entries, walk_dir, as_step, steps_nil, steps_cons, steps_append, chain_ext, finish_step,
}
use musicbox.Fsutil.Equal.{FileMode, CopyFsOption}
use musicbox.Fsutil.Tree.{
  Node, Entries, file, folder, end, entry, dirent_of, dirents, height, height_entries, larger_left,
  larger_right,
}
use musicbox.Fsutil.Copy.{CopyFs, copy_path, visit_copy, on_copy_error, copy_wrapped, copy_fs}
use musicbox.Fsutil.Copy.Lands.{Placed, Kept, Clear, Lays, Serves, Landed}
use musicbox.Fsutil.Copy.Lands.Steps.{copy_path-Ensures}

-- The nodes below a directory with their names, in the order of the walk.
abbrev mutual
  pub nodes_below : FilePath → Node → List (FilePath × Node)
  nodes_below p (file m c) = []
  nodes_below p (folder m es) = nodes_in p es

  pub nodes_in : FilePath → Entries → List (FilePath × Node)
  nodes_in p end = []
  nodes_in p (entry name node es) =
      let below = nodes_below (join p name) node in
      let rest = nodes_in p es in (join p name, node) ∷ (below ++ rest)

module _ {W R H : Type 0} (fs : CopyFs W R H) (opt : CopyFsOption)
    (stat_name : FilePath → W → Opened Dirent)
    (read_dir : FilePath → W → List Dirent × Option Error) where
  -- ReadDir returns these entries, whatever has been copied. No entry's name is the walk's root.
  abbrev mutual
    pub Lists : FilePath → Node → Type 0
    Lists p (file m c) = Unit
    Lists p (folder m es) = ((w : W) → read_dir p w ≡ (dirents es, none)) × ListsEach p es

    pub ListsEach : FilePath → Entries → Type 0
    ListsEach p end = Unit
    ListsEach p (entry name node es) =
        (same_path (join p name) dot ≡ false) × Lists (join p name) node × ListsEach p es

  abbrev pub copy_node : FilePath × Node → Action W
  copy_node (p, node) = fs.cancelled >> copy_path fs opt p

  abbrev walks : ℕ → FilePath → Dirent → Step W
  walks = walk read_dir (visit_copy fs opt) (on_copy_error fs opt)

  Walked : ℕ → Type 0
  Walked fuel =
      (name p : FilePath) (node : Node) (w : W)
      → same_path p dot ≡ false
      → Lists p node
      → height node ≤ fuel
      → walks fuel p (dirent_of name node) w
        ≡ as_step (for_each ((p, node) ∷ nodes_below p node) copy_node w)

  each-Walked :
      (fuel : ℕ) (p : FilePath) (es : Entries) (w : W)
      → Walked fuel
      → ListsEach p es
      → height_entries es ≤ fuel
      → walk_each (walks fuel) p (dirents es) w ≡ as_step (for_each (nodes_in p es) copy_node w)
  unfolding walk_each height Walked
  each-Walked fuel p end w walked lists h = sym (steps_nil copy_node w)
  each-Walked fuel p (entry name node es) w walked (other, listed, more) h =
      let others = λ (v : W). as_step (for_each (nodes_in p es) copy_node v) in
      ap (λ r. chain r (walk_each (walks fuel) p (dirents es)))
        (walked name (join p name) node w other listed
          (larger_left (height node) (height_entries es) fuel h))
      ∙ chain_ext _ _ others (λ v.
        each-Walked fuel p es v walked more (larger_right (height node) (height_entries es) fuel h))
      ∙ sym (
          steps_append ((join p name, node) ∷ nodes_below (join p name) node) (nodes_in p es)
            copy_node w)

  below_node :
      (fuel : ℕ) (name p : FilePath) (node : Node) (w : W)
      → Walked fuel
      → Lists p node
      → height node ≤ suc fuel
      → walk_below read_dir
          (visit_copy fs opt)
          (on_copy_error fs opt)
          (walks fuel)
          p
          (dirent_of name node)
          w
        ≡ as_step (for_each (nodes_below p node) copy_node w)
  unfolding walk_below walk_entries height for_each done
  below_node fuel name p (file m c) w walked lists h = refl
  below_node fuel name p (folder m es) w walked (listed, all) h =
      ap (λ r. walk_entries read_dir (visit_copy fs opt) (on_copy_error fs opt) (walks fuel) p r w)
        (listed w)
      ∙ each-Walked fuel p es w walked all (omega (arith, h))

  some_height : (node : Node) → 1 ≤ height node
  unfolding height
  some_height (file m c) = omega arith
  some_height (folder m es) = omega arith

  walk-Walked : (fuel : ℕ) → Walked fuel
  unfolding Walked walk visit_copy
  walk-Walked zero name p node w other lists h = absurd (omega (arith, h, some_height node))
  walk-Walked (suc fuel) name p node w other lists h =
      rw other (
        chain_ext (as_step (copy_node (p, node) w)) _ _
          (λ v. below_node fuel name p node v (walk-Walked fuel) lists h))
      ∙ sym (steps_cons (p, node) (nodes_below p node) copy_node w)

  root_walk :
      (fuel : ℕ) (node : Node) (w : W)
      → stat_name dot w ≡ opened (dirent_of dot node)
      → copy_fs fs opt stat_name read_dir fuel w
        ≡ copy_wrapped fs opt (finish (walks fuel dot (dirent_of dot node) w))
  unfolding copy_fs walk_dir
  root_walk fuel node w st =
      ap
        (λ o. copy_wrapped fs opt (elim o as (λ o. Option Stop × W) [
          | opened d ↦ finish (walks fuel dot d w)
          | not_opened e ↦ finish (on_copy_error fs opt dot e w)
        ]))
        st

  -- CopyFS of a tree, of a height of the fuel at most, copies its nodes one by one in the order of the
  -- walk, without the root, asking before each whether it is cancelled, and until one fails.
  pub copy_fs-eq-copies :
      (fuel : ℕ) (m : FileMode) (es : Entries) (w : W)
      → stat_name dot w ≡ opened (dirent_of dot (folder m es))
      → Lists dot (folder m es)
      → height (folder m es) ≤ fuel
      → copy_fs fs opt stat_name read_dir fuel w
        ≡ copy_wrapped fs opt (as_step (for_each (nodes_in dot es) copy_node w))
  unfolding walk visit_copy height
  copy_fs-eq-copies zero m es w st lists h = absurd (omega (arith, h))
  copy_fs-eq-copies (suc fuel) m es w st lists h =
      root_walk (suc fuel) (folder m es) w st
      ∙ ap (λ r. copy_wrapped fs opt (finish r))
          (below_node fuel dot dot (folder m es) w (walk-Walked fuel) lists h)
      ∙ ap (copy_wrapped fs opt) (finish_step (for_each (nodes_in dot es) copy_node w))

  -- How a walk ended: without an error in `Q`, with one in `F`, and not in another way.
  abbrev pub Ends : (W → Type 0) → (W → Type 0) → Option Stop × W → Type 0
  Ends Q F (none, w) = Q w
  Ends Q F (some (fails e), w) = F w
  Ends Q F (some skip_all, w) = ⊥
  Ends Q F (some out_of_fuel, w) = ⊥

  step-Ends :
      (Q F : W → Type 0) (r : Option Error × W)
      → Post Q F r
      → Ends Q F (copy_wrapped fs opt (as_step r))
  step-Ends Q F (none, w) h = h
  step-Ends Q F (some e, w) h = h

abbrev pub Distinct : List (FilePath × Node) → Type 0
Distinct [] = Unit
Distinct (n ∷ ns) = All (λ k. same_path n.0 k.0 ≡ false) ns × Distinct ns

All-both :
    {T : Type 0} (P Q : T → Type 0) (xs : List T) → All P xs → All Q xs → All (λ x. P x × Q x) xs
All-both P Q [] p q = tt
All-both P Q (x ∷ xs) p q = ((p.0, q.0), All-both P Q xs p.1 q.1)

module _ {W R H : Type 0} (fs : CopyFs W R H) (opt : CopyFsOption)
    (stat_name : FilePath → W → Opened Dirent)
    (read_dir : FilePath → W → List Dirent × Option Error) (at : W → FilePath → Option Placed)
    (file_of : H → FilePath) (bytes_of : R → List ℕ) (Failed : W → Type 0)
    (l : Lays fs at file_of bytes_of Failed) where
  abbrev pub IsThere : W → FilePath × Node → Type 0
  IsThere w (p, node) = (x : Placed) × (at w p ≡ some x) × Landed opt p node x

  abbrev pub IsServed : FilePath × Node → Type 0
  IsServed (p, node) = Serves fs bytes_of p node

  copies-Ensures :
      (ns : List (FilePath × Node)) (ps : List (FilePath × Placed))
      → All (λ n. Clear n.0 ps) ns
      → Distinct ns
      → All IsServed ns
      → Ensures
          (Kept at ps)
          (for_each ns (copy_node fs opt stat_name read_dir))
          (λ w. Kept at ps w × All (IsThere w) ns)
          Failed
  unfolding for_each done
  copies-Ensures [] ps clear distinct served = record { at = λ w kept. (kept, tt) }
  copies-Ensures ((p, node) ∷ ns) ps clear distinct served =
      Ensures->> _ _
        (Ensures->> _ _ (l.cancelled ps)
          (copy_path-Ensures fs opt at file_of bytes_of Failed l p ps clear.0 node served.0))
        (record {
          at = λ w k.
              let (x, there, landed) = k.1 in
              weaken-Post (λ v. Kept at ((p, x) ∷ ps) v × All (IsThere v) ns)
                (λ v. Kept at ps v × All (IsThere v) ((p, node) ∷ ns)) Failed Failed _
                (λ v a. (a.0.1, ((x, a.0.0, landed), a.1))) (λ v a. a)
                ((copies-Ensures ns ((p, x) ∷ ps)
                    (All-both (λ n. same_path p n.0 ≡ false) (λ n. Clear n.0 ps) ns distinct.0
                      clear.1)
                    distinct.1 served.1).at
                  w (there, k.0));
        })

  nothing_placed : (ns : List (FilePath × Node)) → All (λ n. Clear n.0 []) ns
  nothing_placed [] = tt
  nothing_placed (n ∷ ns) = (tt, nothing_placed ns)

  -- CopyFS of a tree of regular files and directories with different names, of a height of the fuel at
  -- most, returns without an error only when each of them is in the destination under its name, with its
  -- kind, its contents and the mode that the options ask for; it returns an error only where an
  -- operation on the source or the destination has failed, and it always returns.
  pub copy_fs-Landed :
      (fuel : ℕ) (m : FileMode) (es : Entries) (w : W)
      → stat_name dot w ≡ opened (dirent_of dot (folder m es))
      → Lists fs opt stat_name read_dir dot (folder m es)
      → height (folder m es) ≤ fuel
      → Distinct (nodes_in dot es)
      → All IsServed (nodes_in dot es)
      → Ends fs opt stat_name read_dir
          (λ v. All (IsThere v) (nodes_in dot es))
          Failed
          (copy_fs fs opt stat_name read_dir fuel w)
  copy_fs-Landed fuel m es w st lists h distinct served =
      let Q = λ (v : W). All (IsThere v) (nodes_in dot es) in
      subst (Ends fs opt stat_name read_dir Q Failed)
        (sym (copy_fs-eq-copies fs opt stat_name read_dir fuel m es w st lists h))
        (step-Ends fs opt stat_name read_dir Q Failed
          (for_each (nodes_in dot es) (copy_node fs opt stat_name read_dir) w)
          (weaken-Post (λ v. Kept at [] v × Q v) Q Failed Failed _ (λ v a. a.1) (λ v a. a)
            ((copies-Ensures (nodes_in dot es) [] (nothing_placed (nodes_in dot es)) distinct
                served).at
              w tt)))
