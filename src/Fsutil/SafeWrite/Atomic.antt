-- ===== src/Fsutil/SafeWrite/Atomic.antt =====
-- `safeWrite` publishes the whole content or leaves the destination as it was.
use Prim.Native.String.{String}
use musicbox.Prelude.{
  ℕ, refl, Bool, true, false, ◌||◌, Option, none, some, List, if◌then◌else◌, inl, inr, Bool-cases,
}
use musicbox.Prelude.Signed.{ℤ}
use musicbox.Prelude.Anywhere.{All, All-map}
use musicbox.Fsutil.Error.{Error}
use musicbox.Fsutil.Action.{
  Action, wrapping, for_each, Ensures, Post, Post_state, Ensures->>, Ensures-wrapping, Ensures-when,
  Ensures-for_each, Ensures-weaken,
}
use musicbox.Fsutil.Fs.{FilePath, Opened, opened, not_opened, Fs, perm_bits}
use musicbox.Fsutil.Path.{normalize_path}
use musicbox.Fsutil.Once.{
  Run, start, lift, close_once, close_once_called, close_once_keeps, At, World, Ensures-lift,
  Ensures-close_once,
}
use musicbox.Fsutil.SafeWrite.{
  Process, SafeWriteOption, ignored, mkdir_all, write_steps, deferred, write_opened, OpenTmp,
  write_or_fail, safe_write,
}

-- What the operations round the renaming keep, at a temporary file: `P` while they succeed, and `U`
-- when one fails. Making directories changes no file, whether it succeeds or not.
pub record Frame {W H : Type 0} (fs : Fs W H) (tmp_name : FilePath) (P U : W → Type 0)
    : Type 0 where
  pub mkdir_all : (d : FilePath) (mode : ℕ) → Ensures P (fs.mkdir_all d mode) P P
  pub chmod : (mode : ℕ) → Ensures P (fs.chmod tmp_name mode) P U
  pub chown : (uid gid : ℤ) → Ensures P (fs.chown tmp_name uid gid) P U
  pub sync : (f : H) → Ensures P (fs.sync f) P U
  pub close : (f : H) → Ensures P (fs.close f) P U

mkdir_all-Post :
    {W : Type 0} (P : W → Type 0) (b : Bool) (r : Option Error × W)
    → Post P P r
    → Post P P (elim r.0 [ none ↦ (none, r.1) | some e ↦ if b then (none, r.1) else (some e, r.1) ])
mkdir_all-Post P b (none, w) h = h
mkdir_all-Post P true (some e, w) h = h
mkdir_all-Post P false (some e, w) h = h

module _ {W H : Type 0} (fs : Fs W H) {P : W → Type 0} where
  pub Ensures-mkdir_all :
      (d : FilePath) (perm : ℕ)
      → ((d : FilePath) (mode : ℕ) → Ensures P (fs.mkdir_all d mode) P P)
      → Ensures P (mkdir_all fs d perm) P P
  unfolding mkdir_all
  Ensures-mkdir_all d perm h = record { at = λ w p. mkdir_all-Post P _ _ ((h d _).at w p) }

module _ {W H : Type 0} (fs : Fs W H) (o : SafeWriteOption W H) (copy_to : H → FilePath → Action W)
    (post_processes : List (Process W H)) (dst_name : FilePath) where
  -- What is asked of the file system and of the callbacks, at a temporary file `tmp_name`: `U` says
  -- that the destination is untouched, `T` that the temporary file has the whole content besides, and
  -- `D` that the destination has it.
  pub record Publishes (f : H) (tmp_name : FilePath) (U T D : W → Type 0) : Type 0 where
    pub untouched : Frame fs tmp_name U U
    pub written : Frame fs tmp_name T U
    pub still : (w : W) → T w → U w
    pub pre : All (λ pp. Ensures U (pp tmp_name dst_name f) U U) o.default_pre_process
    pub copy : Ensures U (copy_to f tmp_name) T U
    pub post : All (λ pp. Ensures T (pp tmp_name dst_name f) T U) post_processes
    pub default_post : All (λ pp. Ensures T (pp tmp_name dst_name f) T U) o.default_post_processes
    pub rename : Ensures T (fs.rename tmp_name dst_name) D U
    pub remove_all : Ensures U (fs.remove_all tmp_name) U U

  abbrev pub post_all : FilePath → H → List (Process W H) → Action (Run W)
  post_all tmp_name f pps =
      for_each pps (λ pp. wrapping "SafeWrite, postprocess" (lift (pp tmp_name dst_name f)))

  -- The same where the call's own processes make `V` of `T`.
  pub record Delivers (f : H) (tmp_name : FilePath) (U T V D : W → Type 0) : Type 0 where
    pub untouched : Frame fs tmp_name U U
    pub written : Frame fs tmp_name T U
    pub processed : Frame fs tmp_name V U
    pub still : (w : W) → V w → U w
    pub pre : All (λ pp. Ensures U (pp tmp_name dst_name f) U U) o.default_pre_process
    pub copy : Ensures U (copy_to f tmp_name) T U
    pub post : Ensures (At false T) (post_all tmp_name f post_processes) (At false V) (World U)
    pub default_post : All (λ pp. Ensures V (pp tmp_name dst_name f) V U) o.default_post_processes
    pub rename : Ensures V (fs.rename tmp_name dst_name) D U
    pub remove_all : Ensures U (fs.remove_all tmp_name) U U

  module _ (f : H) (tmp_name : FilePath) (U : W → Type 0) where
    pub each :
        (msg : String) (b : Bool) (P : W → Type 0) (pps : List (Process W H))
        → All (λ pp. Ensures P (pp tmp_name dst_name f) P U) pps
        → Ensures
            (At b P)
            (for_each pps (λ pp. wrapping msg (lift (pp tmp_name dst_name f))))
            (At b P)
            (World U)
    each msg b P pps h =
        Ensures-for_each pps _
          (All-map _ _ pps (λ pp k. Ensures-wrapping msg _ (Ensures-lift b _ k)) h)

  module _ (f : H) (tmp_name : FilePath) {U T V D : W → Type 0} (l : Delivers f tmp_name U T V D)
      (perm : ℕ) where
    write_steps-Ensures :
        Ensures
          (At false U)
          (write_steps fs o f tmp_name dst_name perm copy_to post_processes)
          (At true D)
          (World U)
    unfolding write_steps
    write_steps-Ensures =
        Ensures->> _ _
          (Ensures->> _ _
            (Ensures->> _ _
              (Ensures->> _ _
                (Ensures->> _ _
                  (Ensures->> _ _
                    (Ensures->> _ _
                      (Ensures->> _ _
                        (Ensures->> _ _ (each f tmp_name U _ false U _ l.pre)
                          (Ensures-wrapping _ _ (Ensures-lift false _ l.copy)))
                        (Ensures-when _ _
                          (Ensures-wrapping _ _ (Ensures-lift false _ (l.written.chmod _)))))
                      (Ensures-when _ _
                        (Ensures-wrapping _ _ (Ensures-lift false _ (l.written.chown _ _)))))
                    l.post)
                  (each f tmp_name U _ false V _ l.default_post))
                (Ensures-when _ _
                  (Ensures-wrapping _ _ (Ensures-lift false _ (l.processed.sync f)))))
              (Ensures-wrapping _ _ (Ensures-close_once _ (l.processed.close f))))
            (Ensures-when _ _ (
              Ensures-wrapping _ _ (
                Ensures-lift true _ (
                  Ensures-weaken _ (λ w h. h) (λ w h. h) l.still
                    (Ensures-mkdir_all fs _ _ l.processed.mkdir_all))))))
          (Ensures-wrapping _ _ (Ensures-lift true _ l.rename))

    deferred-Post :
        (r : Option Error × Run W)
        → Post (At true D) (World U) r
        → Post D U (r.0, deferred fs o f tmp_name r.0 r.1)
    unfolding deferred
    deferred-Post (none, s) h = rw (close_once_called (fs.close f) s h.0, deferred) h.1
    deferred-Post (some e, s) h = elim (Bool-cases (ignored fs o e || o.disable_remove_on_err)) [
      | inl kept ↦ rw kept closed
      | inr removed ↦
          rw removed (Post_state U (fs.remove_all tmp_name _) (l.remove_all.at _ closed))
    ]
      where
        closed : U (close_once (fs.close f) s).1.world
        closed = close_once_keeps (fs.close f) s (l.untouched.close f) h

    pub write_opened-Delivers :
        Ensures U (write_opened fs o f tmp_name dst_name perm copy_to post_processes) D U
    unfolding write_opened
    write_opened-Delivers = record {
      at = λ w h. deferred-Post _ (write_steps-Ensures.at (start w) (unfold start in (refl, h)));
    }

  write_opened-Ensures :
      (f : H) (tmp_name : FilePath) {U T D : W → Type 0} (l : Publishes f tmp_name U T D) (perm : ℕ)
      → Ensures U (write_opened fs o f tmp_name dst_name perm copy_to post_processes) D U
  write_opened-Ensures f tmp_name {U} {T} l perm =
      write_opened-Delivers f tmp_name
        (record {
          untouched = l.untouched;
          written = l.written;
          processed = l.written;
          still = l.still;
          pre = l.pre;
          copy = l.copy;
          post = each f tmp_name U _ false T post_processes l.post;
          default_post = l.default_post;
          rename = l.rename;
          remove_all = l.remove_all;
        })
        perm

-- What `openTmp` leaves: the destination untouched and, if it opens a file, all that is asked of one.
abbrev pub Opens :
    {W H : Type 0} → (H → FilePath → Type 0) → (W → Type 0) → Opened (H × FilePath) × W → Type 0
Opens G U (opened (f, tmp_name), w) = G f tmp_name × U w
Opens G U (not_opened e, w) = U w

module _ {W H : Type 0} (fs : Fs W H) (o : SafeWriteOption W H) (copy_to : H → FilePath → Action W)
    (post_processes : List (Process W H)) (name : FilePath) (perm : ℕ) (open_tmp : OpenTmp fs o)
    (U D : W → Type 0) (G : H → FilePath → Type 0)
    (writes : (f : H) (t : FilePath)
      → G f t
      → Ensures U
          (write_opened fs o f t (normalize_path name) perm copy_to post_processes)
          D
          U) where
  write_or_fail-Post :
      (r : Opened (H × FilePath) × W)
      → Opens G U r
      → Post D U (write_or_fail fs o (normalize_path name) perm copy_to post_processes r)
  unfolding write_or_fail
  write_or_fail-Post (opened (f, t), w) h = (writes f t h.0).at w h.1
  write_or_fail-Post (not_opened e, w) h = h

  -- From what is written through an open file.
  pub safe_write-Opens :
      ((d : FilePath) (mode : ℕ) → Ensures U (fs.mkdir_all d mode) U U)
      → ((w : W) → U w → Opens G U (open_tmp (normalize_path name) (perm_bits perm) w))
      → Ensures U (safe_write fs o name perm open_tmp copy_to post_processes) D U
  unfolding safe_write
  safe_write-Opens mk op =
      Ensures->> _ _ (Ensures-when _ _ (Ensures-wrapping _ _ (Ensures-mkdir_all fs _ _ mk)))
        (record { at = λ w h. write_or_fail-Post _ (op w h) })

module _ {W H : Type 0} (fs : Fs W H) (o : SafeWriteOption W H) (copy_to : H → FilePath → Action W)
    (post_processes : List (Process W H)) (name : FilePath) (perm : ℕ) (open_tmp : OpenTmp fs o)
    (U T D : W → Type 0) where
  -- `safeWrite` is all or nothing: if it succeeds the destination has the content that was copied
  -- and post-processed, and if it fails, at whatever step, the destination is untouched.
  pub safe_write-Ensures :
      ((d : FilePath) (mode : ℕ) → Ensures U (fs.mkdir_all d mode) U U)
      → ((w : W)
          → U w
          → Opens
              (λ f t. Publishes fs o copy_to post_processes (normalize_path name) f t U T D)
              U
              (open_tmp (normalize_path name) (perm_bits perm) w))
      → Ensures U (safe_write fs o name perm open_tmp copy_to post_processes) D U
  safe_write-Ensures =
      safe_write-Opens fs o copy_to post_processes name perm open_tmp U D _
        (λ f t l. write_opened-Ensures fs o copy_to post_processes (normalize_path name) f t l perm)
