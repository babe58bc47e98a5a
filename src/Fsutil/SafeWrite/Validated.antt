-- ===== src/Fsutil/SafeWrite/Validated.antt =====
-- fsutil/safe_write.go: `safeWrite` with a check sum among its processes, and of an empty file.
use mathlib.Core.Path.{subst}
use musicbox.Prelude.{ℕ, ◌≡◌, sym, false, List, [], ◌∷◌, inl, inr, Bool-cases}
use musicbox.Prelude.Anywhere.{
  All, Any, All-map, Any-map, same_text, same_text_refl, same_text_sound,
}
use musicbox.Fsutil.Action.{Action, for_each, Ensures, Ensures->>, Ensures-wrapping, Ensures-weaken}
use musicbox.Fsutil.Fs.{FilePath, Fs, perm_bits}
use musicbox.Fsutil.Path.{normalize_path}
use musicbox.Fsutil.Once.{At, World, Ensures-lift}
use musicbox.Fsutil.SafeWrite.{Process, SafeWriteOption, OpenTmp, safe_write, write_opened}
use musicbox.Fsutil.SafeWrite.Processes.{post_process_validate_check_sum}
use musicbox.Fsutil.SafeWrite.Atomic.{
  Frame, Publishes, Opens, post_all, write_opened-Delivers, safe_write-Opens, safe_write-Ensures,
}

-- A loop of which one round never succeeds does not succeed.
for_each-stops :
    {S T : Type 0} (P Q R : S → Type 0) (xs : List T) (body : T → Action S)
    → ((s : S) → Q s → ⊥)
    → All (λ x. Ensures P (body x) P R) xs
    → Any (λ x. Ensures P (body x) Q R) xs
    → Ensures P (for_each xs body) Q R
unfolding for_each
for_each-stops P Q R [] body never all any = elim any [ ]
for_each-stops P Q R (x ∷ xs) body never all (inl here) =
    Ensures->> (body x) (for_each xs body) here (record { at = λ s q. absurd (never s q) })
for_each-stops P Q R (x ∷ xs) body never all (inr behind) =
    Ensures->> (body x) (for_each xs body) all.0 (for_each-stops P Q R xs body never all.1 behind)

module _ {W H : Type 0} (sum : W → List ℕ) (expected : List ℕ) where
  abbrev validator : Process W H
  validator = post_process_validate_check_sum sum expected

  -- Where the sums differ the check fails.
  validator-fails :
      (T U : W → Type 0) (actual : List ℕ) (t d : FilePath) (f : H)
      → ((w : W) → T w → sum w ≡ actual)
      → ((w : W) → T w → U w)
      → same_text expected actual ≡ false
      → Ensures T (validator t d f) (λ w. ⊥) U
  unfolding post_process_validate_check_sum
  validator-fails T U actual t d f sums still differ = record {
    at = λ w h. rw (sums w h, differ) (still w h);
  }

  -- Where they do not, it passes.
  pub validator-passes :
      (T U : W → Type 0) (t d : FilePath) (f : H)
      → ((w : W) → T w → sum w ≡ expected)
      → Ensures T (validator t d f) T U
  unfolding post_process_validate_check_sum
  validator-passes T U t d f sums = record { at = λ w h. rw (sums w h, same_text_refl expected) h }

module _ {W H : Type 0} (fs : Fs W H) (o : SafeWriteOption W H) (copy_to : H → FilePath → Action W)
    (post_processes : List (Process W H)) (sum : W → List ℕ) (expected actual : List ℕ)
    (U T D : W → Type 0) (sums : (w : W) → T w → sum w ≡ actual)
    (checks : Any (λ pp. pp ≡ post_process_validate_check_sum sum expected) post_processes) where
  never : {P : W → Type 0} {m : Action W} → Ensures (λ w. ⊥) m P U
  never = record { at = λ w a. elim a [ ] }

  never-Frame : (t : FilePath) → ((w : W) → ⊥ → U w) → Frame fs t (λ w. ⊥) U
  never-Frame t a = record {
    mkdir_all = λ d mode. record { at = λ w a. elim a [ ] };
    chmod = λ mode. never;
    chown = λ uid gid. never;
    sync = λ f. never;
    close = λ f. never;
  }

  never-All :
      (dst_name : FilePath) (f : H) (t : FilePath) (pps : List (Process W H))
      → All (λ pp. Ensures (λ w. ⊥) (pp t dst_name f) (λ w. ⊥) U) pps
  never-All dst_name f t [] = tt
  never-All dst_name f t (pp ∷ pps) = (never, never-All dst_name f t pps)

  post-fails :
      (dst_name : FilePath) (f : H) (t : FilePath)
      → Publishes fs o copy_to post_processes dst_name f t U T D
      → same_text expected actual ≡ false
      → Ensures
          (At false T)
          (post_all fs o copy_to post_processes dst_name t f post_processes)
          (At false (λ w. ⊥))
          (World U)
  post-fails dst_name f t l differ =
      for_each-stops (At false T) (At false (λ w. ⊥)) (World U) post_processes _ (λ s q. q.1)
        (All-map _ _ post_processes (λ pp k. Ensures-wrapping _ _ (Ensures-lift false _ k)) l.post)
        (Any-map (λ pp. pp ≡ post_process_validate_check_sum sum expected) _ post_processes
          (λ pp e. Ensures-wrapping _ _ (
            Ensures-lift false _ (
              subst (λ q. Ensures T (q t dst_name f) (λ w. ⊥) U) (sym e)
                (validator-fails sum expected T U actual t dst_name f sums l.still differ))))
          checks)

  write_opened-fails :
      (dst_name : FilePath) (f : H) (t : FilePath) (perm : ℕ)
      → Publishes fs o copy_to post_processes dst_name f t U T D
      → same_text expected actual ≡ false
      → Ensures U (write_opened fs o f t dst_name perm copy_to post_processes) (λ w. ⊥) U
  write_opened-fails dst_name f t perm l differ =
      write_opened-Delivers fs o copy_to post_processes dst_name f t
        (record {
          untouched = l.untouched;
          written = l.written;
          processed = never-Frame t (λ w a. elim a [ ]);
          still = λ w a. elim a [ ];
          pre = l.pre;
          copy = l.copy;
          post = post-fails dst_name f t l differ;
          default_post = never-All dst_name f t o.default_post_processes;
          rename = never;
          remove_all = l.remove_all;
        })
        perm

  -- With PostProcessValidateCheckSum among its post-processes, where the hash has seen what was copied,
  -- safeWrite publishes only contents of the expected sum, and otherwise it fails and the destination
  -- is untouched.
  pub safe_write-validated :
      (name : FilePath) (perm : ℕ) (open_tmp : OpenTmp fs o)
      → ((d : FilePath) (mode : ℕ) → Ensures U (fs.mkdir_all d mode) U U)
      → ((w : W)
          → U w
          → Opens
              (λ f t. Publishes fs o copy_to post_processes (normalize_path name) f t U T D)
              U
              (open_tmp (normalize_path name) (perm_bits perm) w))
      → Ensures U
          (safe_write fs o name perm open_tmp copy_to post_processes)
          (λ w. D w × (expected ≡ actual))
          U
  safe_write-validated name perm open_tmp mk op = elim (Bool-cases (same_text expected actual)) [
    | inl same ↦
        Ensures-weaken _ (λ w h. h) (λ w h. (h, same_text_sound expected actual same)) (λ w h. h)
          (safe_write-Ensures fs o copy_to post_processes name perm open_tmp U T D mk op)
    | inr differ ↦
        Ensures-weaken _ (λ w h. h) (λ w h. elim h [ ]) (λ w h. h)
          (safe_write-Opens fs o copy_to post_processes name perm open_tmp U (λ w. ⊥) _
            (λ f t l. write_opened-fails (normalize_path name) f t perm l differ) mk op)
  ]
