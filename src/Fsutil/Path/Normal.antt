-- ===== src/Fsutil/Path/Normal.antt =====
-- `normalizePath` leaves a rooted name with neither empty elements nor "." nor "..".
use mathlib.Core.List.{reverse, reverse_aux, append-nil, append_assoc, reverse-reverse}
use musicbox.Prelude.{
  ◌≡◌, refl, sym, ap, ◌∙◌, Bool, true, false, not, ◌&&◌, ◌||◌, List, [], ◌∷◌, ◌++◌, ◌==◌, arith,
  if◌then◌else◌, Bool-cases, inl, inr,
}
use musicbox.Prelude.Codes.{codes}
use musicbox.Fsutil.Fs.{FilePath, same_path}
use musicbox.Fsutil.Path.{
  slash, dot, dot_dot, root, split_slash, join_slash, go_up, clean_step, clean_elements, clean,
  trim_slash, normalize_path, dir, base, join,
}

escapes : normalize_path (codes "a/../../b//./c/") ≡ codes "/b/c"
unfolding normalize_path clean
escapes = refl

dirs :
    (dir (codes "/a/b.txt") ≡ codes "/a")
    × (base (codes "/a/b.txt") ≡ codes "b.txt")
    × (join (codes "/tmp") (codes "x") ≡ codes "/tmp/x")
    × (base (codes "/a/b//") ≡ codes "b")
unfolding dir base join clean
dirs = (refl, refl, refl, refl)

abbrev pub no_slash : FilePath → Bool
no_slash [] = true
no_slash (c ∷ p) = not (c == slash) && no_slash p

-- An element that stands for a directory or a file below the one that it stands in.
pub record IsProper (e : FilePath) : Type 0 where
  pub whole : no_slash e ≡ true
  pub not_nil : same_path e [] ≡ false
  pub not_dot : same_path e dot ≡ false
  pub not_dot_dot : same_path e dot_dot ≡ false

abbrev pub AllProper : List FilePath → Type 0
AllProper [] = Unit
AllProper (e ∷ es) = IsProper e × AllProper es

abbrev AllWhole : List FilePath → Type 0
AllWhole [] = Unit
AllWhole (e ∷ es) = (no_slash e ≡ true) × AllWhole es

no_slash-append :
    (p q : FilePath) → no_slash p ≡ true → no_slash q ≡ true → no_slash (p ++ q) ≡ true
no_slash-append [] q h k = k
no_slash-append (c ∷ p) q h k = ground (arith, no_slash-append p q)

split_slash-AllWhole : (acc p : FilePath) → no_slash acc ≡ true → AllWhole (split_slash acc p)
unfolding split_slash
split_slash-AllWhole acc [] h = (h, tt)
split_slash-AllWhole acc (c ∷ p) h = elim (Bool-cases (c == slash)) [
  | inl sep ↦ rw sep (h, split_slash-AllWhole [] p refl)
  | inr plain ↦
      rw plain
        (split_slash-AllWhole (acc ++ (c ∷ [])) p (no_slash-append acc (c ∷ []) h (ground arith)))
]

go_up-AllProper : (kept : List FilePath) → AllProper kept → AllProper (go_up true kept)
unfolding go_up
go_up-AllProper [] h = tt
go_up-AllProper (k ∷ kept) h = rw (h.0.not_dot_dot) h.1

clean_step-AllProper :
    (kept : List FilePath) (e : FilePath)
    → AllProper kept
    → no_slash e ≡ true
    → AllProper (clean_step true kept e)
unfolding clean_step
clean_step-AllProper kept e h k = elim (Bool-cases (same_path e [] || same_path e dot)) [
  | inl skipped ↦ rw skipped h
  | inr real ↦ elim (Bool-cases (same_path e dot_dot)) [
    | inl up ↦ rw (real, up) (go_up-AllProper kept h)
    | inr down ↦
        rw (real, down)
          (
            record {
              whole = k;
              not_nil = ground arith;
              not_dot = ground arith;
              not_dot_dot = down;
            },
            h,
          )
  ]
]

clean_elements-AllProper :
    (kept es : List FilePath)
    → AllProper kept
    → AllWhole es
    → AllProper (clean_elements true kept es)
unfolding clean_elements
clean_elements-AllProper kept [] h k = h
clean_elements-AllProper kept (e ∷ es) h k =
    clean_elements-AllProper (clean_step true kept e) es (clean_step-AllProper kept e h k.0) k.1

reverse_aux-AllProper :
    (es acc : List FilePath) → AllProper es → AllProper acc → AllProper (reverse_aux es acc)
reverse_aux-AllProper [] acc h k = k
reverse_aux-AllProper (e ∷ es) acc h k = reverse_aux-AllProper es (e ∷ acc) h.1 (h.0, k)

-- A rooted name is cleaned to proper elements below the root.
pub clean_rooted :
    (q : FilePath)
    → (es : List FilePath) × AllProper es × (clean (slash ∷ q) ≡ slash ∷ join_slash es)
unfolding clean
clean_rooted q =
    let kept = clean_elements true [] (split_slash [] (slash ∷ q)) in
    (
      reverse kept,
      reverse_aux-AllProper kept []
          (clean_elements-AllProper [] (split_slash [] (slash ∷ q)) tt
            (split_slash-AllWhole [] (slash ∷ q) refl))
          tt,
      refl,
    )

split_slash_whole : (acc e : FilePath) → no_slash e ≡ true → split_slash acc e ≡ (acc ++ e) ∷ []
unfolding split_slash
split_slash_whole acc [] h = ap (λ a. a ∷ []) (sym (append-nil acc))
split_slash_whole acc (c ∷ e) h =
    let plain : (c == slash) ≡ false = ground arith in
    rw plain (
      split_slash_whole (acc ++ (c ∷ [])) e (ground arith)
      ∙ ap (λ a. a ∷ []) (append_assoc acc (c ∷ []) e))

pub split_slash-append :
    (acc e p : FilePath)
    → no_slash e ≡ true
    → split_slash acc (e ++ (slash ∷ p)) ≡ (acc ++ e) ∷ split_slash [] p
unfolding split_slash
split_slash-append acc [] p h = ap (λ a. a ∷ split_slash [] p) (sym (append-nil acc))
split_slash-append acc (c ∷ e) p h =
    let plain : (c == slash) ≡ false = ground arith in
    rw plain (
      split_slash-append (acc ++ (c ∷ [])) e p (ground arith)
      ∙ ap (λ a. a ∷ split_slash [] p) (append_assoc acc (c ∷ []) e))

split_slash-join_slash :
    (e : FilePath) (es : List FilePath)
    → AllProper (e ∷ es)
    → split_slash [] (join_slash (e ∷ es)) ≡ e ∷ es
unfolding join_slash
split_slash-join_slash e [] h = split_slash_whole [] e h.0.whole
split_slash-join_slash e (e' ∷ es) h =
    split_slash-append [] e (join_slash (e' ∷ es)) h.0.whole
    ∙ ap (λ l. e ∷ l) (split_slash-join_slash e' es h.1)

pub clean_elements_proper :
    (rooted : Bool) (kept es : List FilePath)
    → AllProper es
    → clean_elements rooted kept es ≡ reverse_aux es kept
unfolding clean_elements clean_step
clean_elements_proper rooted kept [] h = refl
clean_elements_proper rooted kept (e ∷ es) h =
    rw (h.0.not_nil, h.0.not_dot, h.0.not_dot_dot) (clean_elements_proper rooted (e ∷ kept) es h.1)

split_of_join :
    (es : List FilePath)
    → AllProper es
    → clean_elements true [] (split_slash [] (join_slash es)) ≡ reverse es
unfolding split_slash join_slash clean_elements clean_step
split_of_join [] h = refl
split_of_join (e ∷ es) h =
    ap (clean_elements true []) (split_slash-join_slash e es h)
    ∙ clean_elements_proper true [] (e ∷ es) h

-- A rooted name of proper elements is clean.
pub clean_proper :
    (es : List FilePath) → AllProper es → clean (slash ∷ join_slash es) ≡ slash ∷ join_slash es
unfolding clean clean_elements clean_step split_slash
clean_proper es h =
    ap (λ l. slash ∷ join_slash (reverse l)) (split_of_join es h)
    ∙ ap (λ l. slash ∷ join_slash l) (reverse-reverse es)

-- Such a name is normal.
pub normalize_path_proper :
    (es : List FilePath)
    → AllProper es
    → normalize_path (slash ∷ join_slash es) ≡ slash ∷ join_slash es
unfolding normalize_path
normalize_path_proper es h = rw (clean_proper es h) (clean_proper es h)

normal_form_of :
    (cleaned : FilePath) (b : Bool)
    → (es : List FilePath) × AllProper es
      × ((if b then root else clean (root ++ trim_slash cleaned)) ≡ slash ∷ join_slash es)
unfolding join_slash
normal_form_of cleaned true = ([], tt, refl)
normal_form_of cleaned false = clean_rooted (trim_slash cleaned)

-- Whatever the name, its normal form is the root followed by proper elements: no ".." leads out of
-- the file system's root.
pub normalize_path-AllProper :
    (p : FilePath)
    → (es : List FilePath) × AllProper es × (normalize_path p ≡ slash ∷ join_slash es)
unfolding normalize_path
normalize_path-AllProper p = normal_form_of (clean p) (same_path (clean p) dot)

-- Normalizing twice changes nothing more.
pub normalize_path-normalize_path :
    (p : FilePath) → normalize_path (normalize_path p) ≡ normalize_path p
normalize_path-normalize_path p =
    let (es, h, e) = normalize_path-AllProper p in rw e (normalize_path_proper es h)
