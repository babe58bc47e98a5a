-- ===== src/Fsutil/SafeWrite/Cleanup.antt =====
-- `safeWrite` closes its temporary file once, and removes it when it fails.
use Prim.Native.String.{String}
use musicbox.Prelude.{
  ℕ, suc, ◌≡◌, refl, false, ◌||◌, Option, none, some, List, inl, inr, Bool-cases,
}
use musicbox.Prelude.Signed.{ℤ}
use musicbox.Prelude.Anywhere.{All, All-map}
use musicbox.Fsutil.Error.{Error}
use musicbox.Fsutil.Action.{
  Action, wrapping, for_each, Ensures, Post, Post_state, Ensures->>, Ensures-wrapping, Ensures-when,
  Ensures-for_each, Ensures-weaken,
}
use musicbox.Fsutil.Fs.{FilePath, Opened, opened, not_opened, Fs, perm_bits}
use musicbox.Fsutil.Path.{normalize_path}
use musicbox.Fsutil.Once.{Run, start, lift}
use musicbox.Fsutil.Once.Balance.{Balanced, Balanced-lift, Balanced-close_once, closed_once}
use musicbox.Fsutil.SafeWrite.{
  Process, SafeWriteOption, ignored, write_steps, deferred, write_opened, OpenTmp, write_or_fail,
  safe_write,
}
use musicbox.Fsutil.SafeWrite.Atomic.{Ensures-mkdir_all}

-- Every operation but Close keeps a count, which Close raises, whether it succeeds or not.
pub record Counts {W H : Type 0} (fs : Fs W H) (o : SafeWriteOption W H)
    (copy_to : H → FilePath → Action W) (post_processes : List (Process W H)) (dst_name : FilePath)
    (f : H) (tmp_name : FilePath) (C : ℕ → W → Type 0) : Type 0 where
  pub mkdir_all :
      (n : ℕ) (d : FilePath) (mode : ℕ) → Ensures (C n) (fs.mkdir_all d mode) (C n) (C n)
  pub chmod : (n mode : ℕ) → Ensures (C n) (fs.chmod tmp_name mode) (C n) (C n)
  pub chown : (n : ℕ) (uid gid : ℤ) → Ensures (C n) (fs.chown tmp_name uid gid) (C n) (C n)
  pub sync : (n : ℕ) → Ensures (C n) (fs.sync f) (C n) (C n)
  pub rename : (n : ℕ) → Ensures (C n) (fs.rename tmp_name dst_name) (C n) (C n)
  pub remove_all : (n : ℕ) → Ensures (C n) (fs.remove_all tmp_name) (C n) (C n)
  pub copy : (n : ℕ) → Ensures (C n) (copy_to f tmp_name) (C n) (C n)
  pub pre :
      All (λ pp. (n : ℕ) → Ensures (C n) (pp tmp_name dst_name f) (C n) (C n)) o.default_pre_process
  pub post : All (λ pp. (n : ℕ) → Ensures (C n) (pp tmp_name dst_name f) (C n) (C n)) post_processes
  pub default_post :
      All
        (λ pp. (n : ℕ) → Ensures (C n) (pp tmp_name dst_name f) (C n) (C n))
        o.default_post_processes
  pub close : (n : ℕ) → Ensures (C n) (fs.close f) (C (suc n)) (C (suc n))

module _ {W H : Type 0} (fs : Fs W H) (o : SafeWriteOption W H) (copy_to : H → FilePath → Action W)
    (post_processes : List (Process W H)) (dst_name : FilePath) (f : H) (tmp_name : FilePath)
    (perm : ℕ) where
  module _ (C : ℕ → W → Type 0) (c : Counts fs o copy_to post_processes dst_name f tmp_name C) where
    each :
        (msg : String) (pps : List (Process W H))
        → All (λ pp. (n : ℕ) → Ensures (C n) (pp tmp_name dst_name f) (C n) (C n)) pps
        → Ensures
            (Balanced C)
            (for_each pps (λ pp. wrapping msg (lift (pp tmp_name dst_name f))))
            (Balanced C)
            (Balanced C)
    each msg pps h =
        Ensures-for_each pps _
          (All-map _ _ pps (λ pp k. Ensures-wrapping msg _ (Balanced-lift C _ k)) h)

    step :
        (msg : String) (m : Action W)
        → ((n : ℕ) → Ensures (C n) m (C n) (C n))
        → Ensures (Balanced C) (wrapping msg (lift m)) (Balanced C) (Balanced C)
    step msg m h = Ensures-wrapping msg _ (Balanced-lift C m h)

    write_steps-Balanced :
        Ensures
          (Balanced C)
          (write_steps fs o f tmp_name dst_name perm copy_to post_processes)
          (Balanced C)
          (Balanced C)
    unfolding write_steps
    write_steps-Balanced =
        Ensures->> _ _
          (Ensures->> _ _
            (Ensures->> _ _
              (Ensures->> _ _
                (Ensures->> _ _
                  (Ensures->> _ _
                    (Ensures->> _ _
                      (Ensures->> _ _ (Ensures->> _ _ (each _ _ c.pre) (step _ _ c.copy))
                        (Ensures-when _ _ (step _ _ (λ n. c.chmod n _))))
                      (Ensures-when _ _ (step _ _ (λ n. c.chown n _ _))))
                    (each _ _ c.post))
                  (each _ _ c.default_post))
                (Ensures-when _ _ (step _ _ c.sync)))
              (Ensures-wrapping _ _ (Balanced-close_once C _ c.close)))
            (Ensures-when _ _ (step _ _ (λ n. Ensures-mkdir_all fs _ _ (c.mkdir_all n)))))
          (step _ _ c.rename)

    deferred-Balanced :
        (err : Option Error) (s : Run W) → Balanced C s → C 1 (deferred fs o f tmp_name err s)
    unfolding deferred
    deferred-Balanced none s h = closed_once C (fs.close f) s c.close h
    deferred-Balanced (some e) s h = elim (Bool-cases (ignored fs o e || o.disable_remove_on_err)) [
      | inl kept ↦ rw kept (closed_once C (fs.close f) s c.close h)
      | inr removed ↦ rw removed (
          Post_state (C 1) (fs.remove_all tmp_name _)
            ((c.remove_all 1).at _ (closed_once C (fs.close f) s c.close h)))
    ]

    -- Whatever fails, an opened temporary file is closed exactly once.
    pub write_opened-closes_once :
        (w : W)
        → C 0 w
        → C 1 (write_opened fs o f tmp_name dst_name perm copy_to post_processes w).1
    unfolding write_opened
    write_opened-closes_once w h =
        deferred-Balanced _ _
          (Post_state (Balanced C) _ (write_steps-Balanced.at (start w) (unfold start in h)))

  -- A failure ends with the removal of the temporary file, if it is not to be kept.
  write_opened-removes :
      (G : W → Type 0) (w : W) (e : Error)
      → ((w : W) → G (fs.remove_all tmp_name w).1)
      → (ignored fs o e || o.disable_remove_on_err) ≡ false
      → (write_opened fs o f tmp_name dst_name perm copy_to post_processes w).0 ≡ some e
      → G (write_opened fs o f tmp_name dst_name perm copy_to post_processes w).1
  unfolding write_opened deferred
  write_opened-removes G w e gone k failed = rw (failed, k) (gone _)

-- What `openTmp` returns: a name whose removal brings `G` about, or else `G` holds already.
abbrev pub Removable : {W H : Type 0} → Fs W H → (W → Type 0) → Opened (H × FilePath) × W → Type 0
Removable {W} fs G (opened (f, tmp_name), w) = (v : W) → G (fs.remove_all tmp_name v).1
Removable fs G (not_opened e, w) = G w

module _ {W H : Type 0} (fs : Fs W H) (o : SafeWriteOption W H) (copy_to : H → FilePath → Action W)
    (post_processes : List (Process W H)) (name : FilePath) (perm : ℕ) (open_tmp : OpenTmp fs o)
    (I G : W → Type 0) where
  opened-removes :
      (w : W) (r : Option Error × W) → ((e : Error) → r.0 ≡ some e → G r.1) → Post (λ _. Unit) G r
  opened-removes w (none, w') h = tt
  opened-removes w (some e, w') h = h e refl

  write_or_fail-removes :
      ((e : Error) → (ignored fs o e || o.disable_remove_on_err) ≡ false)
      → (r : Opened (H × FilePath) × W) → Removable fs G r
      → Post (λ _. Unit) G (write_or_fail fs o (normalize_path name) perm copy_to post_processes r)
  unfolding write_or_fail
  write_or_fail-removes k (opened (f, t), w) h = opened-removes w _ (λ e failed.
      write_opened-removes fs o copy_to post_processes (normalize_path name) f t perm G w e h (k e)
        failed)
  write_or_fail-removes k (not_opened e, w) h = h

  -- If errors are not to be ignored and removal is not disabled, a failure of `safeWrite` at any step
  -- leaves no temporary file behind, provided that RemoveAll removes what it is told to, that making
  -- directories makes no temporary file, and that an `openTmp` that fails leaves none.
  pub safe_write-removes :
      ((w : W) → I w → G w)
      → ((e : Error) → (ignored fs o e || o.disable_remove_on_err) ≡ false)
      → ((d : FilePath) (mode : ℕ) → Ensures I (fs.mkdir_all d mode) I I)
      → ((w : W) → I w → Removable fs G (open_tmp (normalize_path name) (perm_bits perm) w))
      → Ensures I (safe_write fs o name perm open_tmp copy_to post_processes) (λ _. Unit) G
  unfolding safe_write
  safe_write-removes none_yet k mk op =
      Ensures->> _ _
        (Ensures-when _ _ (
          Ensures-wrapping _ _
            (Ensures-weaken _ (λ w h. h) (λ w h. h) none_yet (Ensures-mkdir_all fs _ _ mk))))
        (record { at = λ w h. write_or_fail-removes k _ (op w h) })
