-- ===== src/Fsutil/Path/Parts.antt =====
-- `path.Dir`, `path.Base` and `path.Join` at a normal directory and one proper element.
use mathlib.Core.List.{reverse, append_assoc, reverse-reverse}
use musicbox.Prelude.{ℕ, ◌≡◌, refl, sym, ap, ◌∙◌, Bool, true, List, [], ◌∷◌, ◌++◌, arith}
use musicbox.Fsutil.Fs.{FilePath}
use musicbox.Fsutil.Path.{
  slash, root, split_slash, join_slash, clean_step, clean_elements, clean, split_last, trim_slashes,
  dir, base, join,
}
use musicbox.Fsutil.Path.Normal.{
  no_slash, IsProper, AllProper, split_slash-append, clean_elements_proper, clean_proper,
}

snoc_proper :
    (es : List FilePath) (e : FilePath) → AllProper es → IsProper e → AllProper (es ++ (e ∷ []))
snoc_proper [] e h k = (k, tt)
snoc_proper (d ∷ es) e h k = (h.0, snoc_proper es e h.1 k)

join_slash-snoc :
    (d : FilePath) (es : List FilePath) (e : FilePath)
    → join_slash ((d ∷ es) ++ (e ∷ [])) ≡ join_slash (d ∷ es) ++ (slash ∷ e)
unfolding join_slash
join_slash-snoc d [] e = refl
join_slash-snoc d (d' ∷ es) e =
    ap (λ p. d ++ (slash ∷ p)) (join_slash-snoc d' es e) ∙ sym (append_assoc d _ _)

-- The directory of a normal name, with what a further element puts behind it.
abbrev pub behind : List FilePath → FilePath
behind [] = []
behind (d ∷ es) = slash ∷ join_slash (d ∷ es)

behind-snoc :
    (es : List FilePath) (e : FilePath)
    → slash ∷ join_slash (es ++ (e ∷ [])) ≡ behind es ++ (slash ∷ e)
unfolding join_slash
behind-snoc [] e = refl
behind-snoc (d ∷ es) e = ap (λ p. slash ∷ p) (join_slash-snoc d es e)

two_slashes : (e : FilePath) → clean (slash ∷ slash ∷ e) ≡ clean (slash ∷ e)
unfolding clean split_slash clean_elements clean_step
two_slashes e = refl

-- Joining puts the element behind the directory.
pub join_proper :
    (es : List FilePath) (e : FilePath)
    → AllProper es
    → IsProper e
    → join (slash ∷ join_slash es) e ≡ behind es ++ (slash ∷ e)
unfolding join join_slash
join_proper es [] h k = cc (k.not_nil)
join_proper [] (c ∷ e) h k = two_slashes (c ∷ e) ∙ clean_proper ((c ∷ e) ∷ []) (k, tt)
join_proper (d ∷ es) (c ∷ e) h k =
    ap clean (sym (behind-snoc (d ∷ es) (c ∷ e)))
    ∙ clean_proper ((d ∷ es) ++ ((c ∷ e) ∷ [])) (snoc_proper (d ∷ es) (c ∷ e) h k)
    ∙ behind-snoc (d ∷ es) (c ∷ e)

split_last_whole : (e : FilePath) → no_slash e ≡ true → split_last e ≡ ([], e)
unfolding split_last
split_last_whole [] h = refl
split_last_whole (c ∷ e) h = ground (arith, split_last_whole e)

split_last-append :
    (q e : FilePath) → no_slash e ≡ true → split_last (q ++ (slash ∷ e)) ≡ (q ++ root, e)
unfolding split_last
split_last-append [] e h = ground (arith, split_last_whole e h)
split_last-append (c ∷ []) e h = ground (arith, split_last-append [] e h)
split_last-append (c ∷ d ∷ q) e h = ground (arith, split_last-append (d ∷ q) e h)

trim_slashes_whole : (c : ℕ) (e : FilePath) → no_slash (c ∷ e) ≡ true → trim_slashes (c ∷ e) ≡ c ∷ e
unfolding trim_slashes
trim_slashes_whole c [] h = ground arith
trim_slashes_whole c (d ∷ e) h = ground (arith, trim_slashes_whole d e)

trim_slashes-append :
    (q : FilePath) (c : ℕ) (e : FilePath)
    → no_slash (c ∷ e) ≡ true
    → trim_slashes (q ++ (c ∷ e)) ≡ q ++ (c ∷ e)
unfolding trim_slashes
trim_slashes-append [] c e h = trim_slashes_whole c e h
trim_slashes-append (d ∷ []) c e h = ground (arith, trim_slashes-append [] c e h)
trim_slashes-append (d ∷ d' ∷ q) c e h = ground (arith, trim_slashes-append (d' ∷ q) c e h)

base_of_trimmed :
    (p q e : FilePath) → trim_slashes p ≡ p → p ≡ q ++ (slash ∷ e) → no_slash e ≡ true → base p ≡ e
unfolding base
base_of_trimmed [] [] e h k l = cc
base_of_trimmed [] (c ∷ q) e h k l = cc
base_of_trimmed (c ∷ p) q e h k l =
    rw (h, base) (ap (λ s. (split_last s).1) k ∙ ap (λ s. s.1) (split_last-append q e l))

-- `path.Base` of a joined name is the element.
pub base-join :
    (es : List FilePath) (e : FilePath) → IsProper e → base (behind es ++ (slash ∷ e)) ≡ e
base-join es [] k = cc (k.not_nil)
base-join es (c ∷ e) k =
    base_of_trimmed (behind es ++ (slash ∷ c ∷ e)) (behind es) (c ∷ e)
      (ap trim_slashes (sym (append_assoc (behind es) root (c ∷ e)))
        ∙ trim_slashes-append (behind es ++ root) c e k.whole
        ∙ append_assoc (behind es) root (c ∷ e))
      refl k.whole

split_slash_trailing :
    (d : FilePath) (es : List FilePath)
    → AllProper (d ∷ es)
    → split_slash [] (join_slash (d ∷ es) ++ root) ≡ (d ∷ es) ++ ([] ∷ [])
unfolding join_slash split_slash
split_slash_trailing d [] h = split_slash-append [] d [] h.0.whole
split_slash_trailing d (d' ∷ es) h =
    ap (split_slash []) (append_assoc d (slash ∷ join_slash (d' ∷ es)) root)
    ∙ split_slash-append [] d (join_slash (d' ∷ es) ++ root) h.0.whole
    ∙ ap (λ l. d ∷ l) (split_slash_trailing d' es h.1)

clean_elements-append :
    (rooted : Bool) (kept xs ys : List FilePath)
    → clean_elements rooted kept (xs ++ ys)
      ≡ clean_elements rooted (clean_elements rooted kept xs) ys
unfolding clean_elements
clean_elements-append rooted kept [] ys = refl
clean_elements-append rooted kept (x ∷ xs) ys =
    clean_elements-append rooted (clean_step rooted kept x) xs ys

clean_trailing :
    (es : List FilePath) → AllProper es → clean (behind es ++ root) ≡ slash ∷ join_slash es
unfolding clean join_slash
clean_trailing [] h = clean_proper [] tt
clean_trailing (d ∷ es) h =
    ap (λ l. slash ∷ join_slash (reverse (clean_elements true [] ([] ∷ l))))
      (split_slash_trailing d es h)
    ∙ ap (λ l. slash ∷ join_slash (reverse l))
        (unfold clean_elements clean_step in
          clean_elements-append true [] (d ∷ es) ([] ∷ [])
          ∙ clean_elements_proper true [] (d ∷ es) h)
    ∙ ap (λ l. slash ∷ join_slash l) (reverse-reverse (d ∷ es))

-- `path.Dir` of a joined name is the directory.
pub dir-join :
    (es : List FilePath) (e : FilePath)
    → AllProper es
    → IsProper e
    → dir (behind es ++ (slash ∷ e)) ≡ slash ∷ join_slash es
unfolding dir
dir-join es e h k =
    ap (λ s. clean s.0) (split_last-append (behind es) e k.whole) ∙ clean_trailing es h
