-- ===== src/Fsutil/Copy/Lands/Steps.antt =====
-- fsutil/copy.go: the steps of `copyPath`, on what the destination has.
use mathlib.Core.Path.{subst}
use musicbox.Prelude.{ℕ, ◌≡◌, refl, sym, ◌∙◌, Bool, true, false, Option, none, some, List, [], ◌∷◌}
use musicbox.Fsutil.Error.{Error}
use musicbox.Fsutil.Action.{
  Post, Ensures, Ensures->>, Ensures-wrapping, Ensures-done, Ensures-weaken, weaken-Post,
}
use musicbox.Fsutil.Fs.{FilePath, Opened, opened, not_opened, mode_perm}
use musicbox.Fsutil.Once.{
  Run, start, lift, close_once, close_once_called, close_once_keeps, At, World, Ensures-lift,
  Ensures-lifted, Ensures-close_once,
}
use musicbox.Fsutil.Equal.{FileMode, CopyFsOption, overridden}
use musicbox.Fsutil.Tree.{Node, Entries, file, folder}
use musicbox.Fsutil.Copy.{
  FileInfo, CopyFs, chmod_with, chmod_target, copy_steps, copy_created, copy_info, copy_stat,
  copy_from, copy_path,
}
use musicbox.Fsutil.Copy.Lands.{
  Placed, Kept, Clear, Unstated, OnOpened, Lays, info_of, HasBytes, Serves, given_mode, mode_given,
  HasMode, Landed, with_mode, moded,
}

with_mode-content : (mode : Option FileMode) (x : Placed) → (with_mode mode x).content ≡ x.content
with_mode-content none x = refl
with_mode-content (some mode) x = refl

with_mode-is_dir : (mode : Option FileMode) (x : Placed) → (with_mode mode x).is_dir ≡ x.is_dir
with_mode-is_dir none x = refl
with_mode-is_dir (some mode) x = refl

with_mode-HasMode : (mode : Option FileMode) (x : Placed) → HasMode mode (with_mode mode x).mode
with_mode-HasMode none x = tt
with_mode-HasMode (some mode) x = refl

module _ {W R H : Type 0} (fs : CopyFs W R H) (opt : CopyFsOption)
    (at : W → FilePath → Option Placed) (file_of : H → FilePath) (bytes_of : R → List ℕ)
    (Failed : W → Type 0) (l : Lays fs at file_of bytes_of Failed) (p : FilePath)
    (ps : List (FilePath × Placed)) (clear : Clear p ps) where
  abbrev With : Placed → W → Type 0
  With x = Kept at ((p, x) ∷ ps)

  chmod_with-Ensures :
      (override : Option FileMode) (no_chmod : Bool) (info : FileInfo) (x : Placed)
      → Ensures
          (With x)
          (chmod_with fs opt override no_chmod p info)
          (With (with_mode (given_mode override no_chmod info.mode) x))
          Failed
  unfolding chmod_with
  chmod_with-Ensures (some mode) no_chmod info x = Ensures-wrapping _ _ (l.chmod p mode x ps clear)
  chmod_with-Ensures none true info x = Ensures-done
  chmod_with-Ensures none false info x = Ensures-wrapping _ _ (l.chmod p _ x ps clear)

  chmod_target-Ensures :
      (info : FileInfo) (x : Placed)
      → Ensures (With x) (chmod_target fs opt p info) (With (moded opt p info.mode x)) Failed
  unfolding chmod_target
  chmod_target-Ensures info x = chmod_with-Ensures (overridden opt p) opt.no_chmod info x

  copied :
      (r : R) (h : H) (x : Placed)
      → file_of h ≡ p
      → x.content ≡ []
      → Ensures (With x) (fs.copy_content r h) (With (record x { content = bytes_of r })) Failed
  copied r h x named empty =
      subst
        (λ q.
          Ensures (Kept at ((q, x) ∷ ps)) (fs.copy_content r h)
            (Kept at ((q, record x { content = bytes_of r }) ∷ ps)) Failed)
        named (l.copy_content r h x ps (subst (λ q. Clear q ps) (sym named) clear) empty)

  copy_steps-Ensures :
      (info : FileInfo) (r : R) (h : H) (x : Placed)
      → file_of h ≡ p
      → x.content ≡ []
      → Ensures
          (At false (At false (With x)))
          (copy_steps fs opt p info r h)
          (At true (At true (With (record (moded opt p info.mode x) { content = bytes_of r }))))
          (World (World Failed))
  unfolding copy_steps
  copy_steps-Ensures info r h x named empty =
      let y = moded opt p info.mode x in
      let z : Placed = record y { content = bytes_of r } in
      Ensures-weaken _ (λ s a. a) (λ s a. a) (λ s a. a)
        (Ensures->> _ _
          (Ensures->> _ _
            (Ensures->> _ _
              (Ensures->> _ _
                (Ensures-lift false _ (Ensures-lift false _ (chmod_target-Ensures info x)))
                (Ensures-wrapping _ _ (
                  Ensures-lift false _ (
                    Ensures-lift false _ (
                      copied r h y named
                        (with_mode-content (mode_given opt p info.mode) x ∙ empty))))))
              (Ensures-lift false _ (
                Ensures-close_once _ (
                  Ensures-weaken _ (λ w a. a) (λ w a. a) (λ w a. a.1)
                    (l.close_source r ((p, z) ∷ ps))))))
            (Ensures-lift false _ (Ensures-lift true _ (l.sync h ((p, z) ∷ ps)))))
          (Ensures-close_once _ (Ensures-lift true _ (l.close h ((p, z) ∷ ps)))))

  -- What a step has landed, if it succeeds.
  abbrev Lands : Node → W → Type 0
  Lands node w = Kept at ps w × ((x : Placed) × (at w p ≡ some x) × Landed opt p node x)

  after_steps :
      (info : FileInfo) (r : R) (h : H) (z : Placed) (res : Option Error × Run (Run W))
      → Post (At true (At true (With z))) (World (World Failed)) res
      → Post
          (At true (With z))
          (World Failed)
          (res.0, (close_once (lift (fs.close h)) res.1).1.world)
  after_steps info r h z (none, t) (called, rest) =
      subst (λ r. Post (At true (With z)) (World Failed) (none, r.1.world))
        (sym (close_once_called (lift (fs.close h)) t called)) rest
  after_steps info r h z (some e, t) a =
      close_once_keeps {P = World Failed} (lift (fs.close h)) t
        (Ensures-lifted (fs.close h) (l.close_failed h)) a

  copy_created-Post :
      (m : FileMode) (c : List ℕ) (r : R) (got : Opened H × W) (s : Run W)
      → s.called ≡ false
      → bytes_of r ≡ c
      → OnOpened
          (λ h v.
            Kept at ps v
            × (file_of h ≡ p)
            × ((x : Placed) × (at v p ≡ some x) × (x.is_dir ≡ false) × (x.content ≡ [])))
          Failed
          got
      → Post
          (World (Lands (file m c)))
          (World Failed)
          (copy_created fs opt p (info_of (file m c)) r got s)
  unfolding copy_created start
  copy_created-Post m c r (not_opened e, w) s fresh bytes failed = failed
  copy_created-Post m c r (opened h, w) s fresh bytes (kept, named, (x, there, plain, empty)) =
      let t = start (record s { world = w }) in
      let z : Placed = record (moded opt p m x) { content = bytes_of r } in
      weaken-Post (At true (With z)) (World (Lands (file m c))) (World Failed) (World Failed) _
        (λ v k. (
          k.1.1,
          (
            z,
            k.1.0,
            (
              with_mode-is_dir (mode_given opt p m) x ∙ plain,
              bytes,
              with_mode-HasMode (mode_given opt p m) x,
            ),
          ),
        ))
        (λ v k. k)
        (after_steps (info_of (file m c)) r h z (copy_steps fs opt p (info_of (file m c)) r h t) (
          (copy_steps-Ensures (info_of (file m c)) r h x named empty).at t
            (refl, (fresh, (there, kept)))))

  chmod_folder-Ensures :
      (m : FileMode) (es : Entries)
      → Ensures
          (λ w. Kept at ps w × ((x : Placed) × (at w p ≡ some x) × (x.is_dir ≡ true)))
          (chmod_target fs opt p (info_of (folder m es)))
          (Lands (folder m es))
          Failed
  chmod_folder-Ensures m es = record {
    at = λ w k.
        let (x, there, dir) = k.1 in
        weaken-Post (With (moded opt p m x)) (Lands (folder m es)) Failed Failed _
          (λ v kept. (
            kept.1,
            (
              moded opt p m x,
              kept.0,
              (
                with_mode-is_dir (mode_given opt p m) x ∙ dir,
                with_mode-HasMode (mode_given opt p m) x,
              ),
            ),
          ))
          (λ v a. a) ((chmod_target-Ensures (info_of (folder m es)) x).at w (there, k.0));
  }

  copy_info-Post :
      (node : Node) (r : R) (s : Run W)
      → s.called ≡ false
      → HasBytes bytes_of node r
      → Kept at ps s.world
      → Post (World (Lands node)) (World Failed) (copy_info fs opt p r (info_of node) s)
  unfolding copy_info
  copy_info-Post (file m c) r s fresh bytes kept =
      copy_created-Post m c r (fs.create p mode_perm s.world) s fresh bytes
        (l.create p mode_perm ps s.world clear kept)
  copy_info-Post (folder m es) r s fresh bytes kept =
      weaken-Post (At false (Lands (folder m es))) (World (Lands (folder m es))) (World Failed)
        (World Failed) _ (λ v k. k.1) (λ v a. a)
        ((Ensures->> _ _ (Ensures-lift false _ (l.mkdir_all p mode_perm ps clear))
            (Ensures-lift false _ (chmod_folder-Ensures m es))).at
          s (fresh, kept))

  copy_stat-Post :
      (node : Node) (r : R) (got : Opened FileInfo × W) (s : Run W)
      → s.called ≡ false
      → HasBytes bytes_of node r
      → OnOpened (λ info u. info ≡ info_of node) Unstated got
      → OnOpened (λ info u. Kept at ps u) Failed got
      → Post (World (Lands node)) (World Failed) (copy_stat fs opt p r got s)
  unfolding copy_stat
  copy_stat-Post node r (not_opened e, w) s fresh bytes same failed = failed
  copy_stat-Post node r (opened info, w) s fresh bytes same kept =
      subst
        (λ i.
          Post (World (Lands node)) (World Failed)
            (copy_info fs opt p r i (record s { world = w })))
        (sym same) (copy_info-Post node r (record s { world = w }) fresh bytes kept)

  after_copy :
      (node : Node) (r : R) (res : Option Error × Run W)
      → Post (World (Lands node)) (World Failed) res
      → Post (Lands node) Failed (res.0, (close_once (fs.close_source r) res.1).1.world)
  after_copy node r (none, s) (kept, (x, there, rest)) =
      let more =
        close_once_keeps {P = With x} (fs.close_source r) s
          (Ensures-weaken _ (λ w a. a) (λ w a. a) (λ w a. a.0) (l.close_source r ((p, x) ∷ ps)))
          (there, kept) in
      (more.1, (x, more.0, rest))
  after_copy node r (some e, s) a =
      close_once_keeps (fs.close_source r) s (l.close_source_failed r) a

  copy_from-Post :
      (node : Node) (got : Opened R × W)
      → OnOpened
          (λ r v.
            OnOpened (λ info u. info ≡ info_of node) Unstated (fs.stat r v)
            × HasBytes bytes_of node r)
          Unstated
          got
      → OnOpened (λ r v. Kept at ps v) Failed got
      → Post (Lands node) Failed (copy_from fs opt p got)
  unfolding copy_from start
  copy_from-Post node (not_opened e, w) serves failed = failed
  copy_from-Post node (opened r, w) serves kept =
      after_copy node r (copy_stat fs opt p r (fs.stat r w) (start w))
        (copy_stat-Post node r (fs.stat r w) (start w) refl serves.1 serves.0 (l.stat r ps w kept))

  pub copy_path-Ensures :
      (node : Node)
      → Serves fs bytes_of p node
      → Ensures (Kept at ps) (copy_path fs opt p) (Lands node) Failed
  unfolding copy_path
  copy_path-Ensures node serves = record {
    at = λ w kept. copy_from-Post node (fs.open_source p w) (serves w) (l.open_source p ps w kept);
  }
