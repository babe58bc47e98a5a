-- ===== src/Stream/MultiReader.antt =====
-- io.MultiReader, which `NewMultiReadCloser` of stream/multi_read_closer.go and the reader of a
-- splitting storage are made of: the readers one behind the other.
use mathlib.Core.Path.{subst}
use mathlib.Core.List.{append-nil, append_assoc}
use musicbox.Prelude.{
  ℕ, ◌≡◌, ◌<◌, ◌⊎◌, refl, sym, ap, ◌∙◌, Bool, true, false, Option, none, some, List, [], ◌∷◌, ◌++◌,
  inl, inr, arith, ◌==◌, length, length-append, no_bytes, if◌then◌else◌, Bool-cases,
}
use musicbox.Stream.Io.{Error, eof}
use musicbox.Stream.Reader.{Reader, Reads, Streams}
use musicbox.Stream.SizedReaders.Contents.{joined}

abbrev at_eof : Option Error → Bool
at_eof (some eof) = true
at_eof _ = false

-- io.EOF of a reader behind which there are others is kept back.
abbrev hide_eof : {R : Type 0} → List R → Option Error → Option Error
hide_eof [] err = err
hide_eof (r ∷ rs) err = if at_eof err then none else err

module _ {R : Type 0} (read : Reader R) where
  -- A reader at its end is dropped; if it gave no byte, the next one is asked.
  unfoldable pub multi_read : Reader (List R)
  multi_read [] n = (([], some eof), [])
  multi_read (r ∷ rs) n =
      let ((bytes, err), r') = read r n in
      let further = multi_read rs n in
      if at_eof err
      then if length bytes == 0 then further else ((bytes, hide_eof rs err), rs)
      else ((bytes, err), r' ∷ rs)

-- The readers have these contents left.
abbrev pub EachLeft : {R : Type 0} → (R → List ℕ → Type 0) → List R → List (List ℕ) → Type 0
EachLeft Left [] [] = Unit {0}
EachLeft Left [] (c ∷ cs) = ⊥
EachLeft Left (r ∷ rs) [] = ⊥
EachLeft Left (r ∷ rs) (c ∷ cs) = Left r c × EachLeft Left rs cs

abbrev pub MultiLeft : {R : Type 0} → (R → List ℕ → Type 0) → List R → List ℕ → Type 0
MultiLeft Left rs c = (cs : List (List ℕ)) × EachLeft Left rs cs × (joined cs ≡ c)

module _ {R : Type 0} (Left : R → List ℕ → Type 0) where
  hide_lem :
      (k : ℕ) (rs : List R) (cs : List (List ℕ))
      → EachLeft Left rs cs
      → 0 < k
      → ((hide_eof rs (some eof) ≡ none) × (0 < k))
        ⊎ ((hide_eof rs (some eof) ≡ some eof) × (joined cs ≡ []))
  hide_lem k [] [] l pos = inr (refl, refl)
  hide_lem k [] (c ∷ cs) l pos = absurd l
  hide_lem k (r ∷ rs) cs l pos = inl (refl, pos)

module _ {R : Type 0} {read : Reader R} {Left : R → List ℕ → Type 0} where
  multi_lem :
      (rs : List R) (cs : List (List ℕ)) (n : ℕ)
      → Streams read Left
      → EachLeft Left rs cs
      → 0 < n
      → Reads (MultiLeft Left) n (joined cs) (multi_read read rs n)
  unfolding multi_read
  multi_lem [] [] n h l pos = record {
    rest = [];
    split = refl;
    bound = omega arith;
    left = ([], tt, refl);
    ends = inr (refl, refl);
  }
  multi_lem [] (c ∷ cs) n h l pos = absurd l
  multi_lem (r ∷ rs) [] n h l pos = absurd l
  multi_lem (r ∷ rs) (c ∷ cs) n h l pos =
      let one = h.at r c n l.0 pos in
      let bytes = (read r n).0.0 in
      elim one.ends [
        | inl goes ↦ rw goes.0 record {
          rest = one.rest ++ joined cs;
          split =
              sym (append_assoc bytes one.rest (joined cs)) ∙ ap (λ d. d ++ joined cs) one.split;
          bound = one.bound;
          left = (one.rest ∷ cs, (one.left, l.1), refl);
          ends = inl (refl, goes.1);
        }
        | inr over ↦ elim (Bool-cases (length bytes == 0)) [
          | inl empty ↦
              let nothing = no_bytes c (
                ground
                  (arith, ap length one.split, ap length over.1, length-append bytes one.rest)) in
              rw (over.0, empty)
                (subst (λ d. Reads (MultiLeft Left) n (d ++ joined cs) (multi_read read rs n))
                  (sym nothing) (multi_lem rs cs n h l.1 pos))
          | inr some_read ↦
              rw (over.0, some_read)
                record {
                  rest = joined cs;
                  split =
                      ap (λ d. d ++ joined cs)
                        (sym (append-nil bytes) ∙ ap (λ d. bytes ++ d) (sym over.1) ∙ one.split);
                  bound = one.bound;
                  left = (cs, l.1, refl);
                  ends = hide_lem Left (length bytes) rs cs l.1 (ground arith);
                }
        ]
      ]

  -- Joined readers stream the joined contents.
  pub multi-Streams : Streams read Left → Streams (multi_read read) (MultiLeft Left)
  multi-Streams h = record {
    at = λ rs c n l pos.
        subst (λ d. Reads (MultiLeft Left) n d (multi_read read rs n)) l.2
          (multi_lem rs l.0 n h l.1 pos);
  }
