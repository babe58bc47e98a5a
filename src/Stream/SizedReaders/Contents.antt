-- ===== src/Stream/SizedReaders/Contents.antt =====
-- What io.ReaderAt documents of a reader with a given content, and where an offset of the joined
-- contents lies.
use musicbox.Prelude.{
  ℕ, ◌+◌, ◌-◌, ◌≤◌, ◌<◌, ◌≡◌, refl, ap, ◌∙◌, none, some, List, [], ◌∷◌, ◌++◌, ◌⊎◌, inl, inr, arith,
  Bool-cases, leb, length, get_elem?, take, drop, length-append, drop-append_le, drop-append_ge,
}
use musicbox.Prelude.Int64
use musicbox.Stream.Io.{ReaderAt, eof}
use musicbox.Stream.SizedReaders.{SizedReaderAt, TranslatedReaderAt, translate}
use musicbox.Stream.SizedReaders.Chain.{Chain, total, skip}

-- ReadAt fills the slice from the offset on. It returns an error when it fills less, and may
-- return io.EOF when it ends at the end of the content.
pub record IsReaderOf (c : List ℕ) (r : ReaderAt) : Type 0 where
  pub bytes : (n off : ℕ) → off ≤ length c → (r n off).0 ≡ take n (drop off c)
  pub ends : (n off : ℕ) → off ≤ length c → ((r n off).1 ≡ none) ⊎ ((r n off).1 ≡ some eof)
  pub inside : (n off : ℕ) → off + n < length c → (r n off).1 ≡ none
  pub short : (n off : ℕ) → off ≤ length c → length c < off + n → (r n off).1 ≡ some eof

abbrev pub joined : List (List ℕ) → List ℕ
joined [] = []
joined (c ∷ cs) = c ++ joined cs

-- The readers have these contents, and their sizes are the contents' lengths.
abbrev pub HasContents : List (List ℕ) → List SizedReaderAt → Type 0
HasContents [] [] = Unit {0}
HasContents [] (x ∷ xs) = ⊥
HasContents (c ∷ cs) [] = ⊥
HasContents (c ∷ cs) (x ∷ xs) = IsReaderOf c x.r × (x.size ≡ length c) × HasContents cs xs

abbrev pub Translated : List (List ℕ) → List TranslatedReaderAt → Type 0
Translated [] [] = Unit {0}
Translated [] (x ∷ xs) = ⊥
Translated (c ∷ cs) [] = ⊥
Translated (c ∷ cs) (x ∷ xs) = IsReaderOf c x.r × (x.size ≡ length c) × Translated cs xs

pub total-eq-length :
    (cs : List (List ℕ)) (xs : List TranslatedReaderAt)
    → Translated cs xs
    → total xs ≡ length (joined cs)
total-eq-length [] [] t = refl
total-eq-length [] (x ∷ xs) t = absurd t
total-eq-length (c ∷ cs) [] t = absurd t
total-eq-length (c ∷ cs) (x ∷ xs) t =
    omega (arith, total-eq-length cs xs t.2, length-append c (joined cs))

-- The reader of a chain from `a` on that holds `off`, and how the joined contents go on from there.
pub record Located (a off : ℕ) (cs : List (List ℕ)) (xs : List TranslatedReaderAt) : Type 0 where
  pub reader : TranslatedReaderAt
  pub content : List ℕ
  pub rest : List ℕ
  pub at : get_elem? xs (skip off xs) ≡ some reader
  pub from : reader.accum ≤ off
  pub until : off < reader.accum + reader.size
  pub reads : IsReaderOf content reader.sized.r
  pub sized : reader.size ≡ length content
  pub goes_on : drop (off - a) (joined cs) ≡ drop (off - reader.accum) content ++ rest
  pub last : (skip off xs + 1 < length xs) ⊎ (rest ≡ [])

nothing_left :
    (cs : List (List ℕ)) (xs : List TranslatedReaderAt)
    → Translated cs xs
    → (0 < length xs) ⊎ (joined cs ≡ [])
nothing_left [] [] t = inr refl
nothing_left [] (x ∷ xs) t = absurd t
nothing_left (c ∷ cs) [] t = absurd t
nothing_left (c ∷ cs) (x ∷ xs) t = inl (omega arith)

pub locate :
    (a off : ℕ) (cs : List (List ℕ)) (xs : List TranslatedReaderAt)
    → Chain a xs
    → Translated cs xs
    → a ≤ off
    → off < a + total xs
    → Located a off cs xs
unfolding skip
locate a off [] [] c t h k = absurd (omega arith)
locate a off [] (x ∷ xs) c t h k = absurd t
locate a off (b ∷ cs) [] c t h k = absurd t
locate a off (b ∷ cs) (x ∷ xs) c t h k = elim (Bool-cases (leb (x.accum + x.size) off)) [
  | inl past ↦
      let l = locate (a + x.size) off cs xs c.1 t.2 (ground arith) (omega arith) in
      record {
        reader = l.reader;
        content = l.content;
        rest = l.rest;
        at = rw past l.at;
        from = l.from;
        until = l.until;
        reads = l.reads;
        sized = l.sized;
        goes_on =
            drop-append_ge (off - a) b (joined cs) (ground arith)
            ∙ ap (λ k. drop k (joined cs)) (omega arith)
            ∙ l.goes_on;
        last = ground (arith, l.last);
      }
  | inr within ↦ record {
    reader = x;
    content = b;
    rest = joined cs;
    at = rw within refl;
    from = omega arith;
    until = ground arith;
    reads = t.0;
    sized = t.1;
    goes_on =
        drop-append_le (off - a) b (joined cs) (ground arith)
        ∙ ap (λ k. drop k b ++ joined cs) (omega arith);
    last = ground (arith, nothing_left cs xs t.2);
  }
]

-- Translated readers lie end to end, and keep contents and sizes.
pub translate-Chain :
    (a : ℕ) (cs : List (List ℕ)) (xs : List SizedReaderAt)
    → HasContents cs xs
    → a + length (joined cs) < Int64.sign_bit
    → Chain a (translate a xs).0
      × Translated cs (translate a xs).0
      × ((translate a xs).1 ≡ a + length (joined cs))
unfolding translate
translate-Chain a [] [] t h = (tt, tt, omega arith)
translate-Chain a [] (x ∷ xs) t h = absurd t
translate-Chain a (c ∷ cs) [] t h = absurd t
translate-Chain a (c ∷ cs) (x ∷ xs) t h =
    let here : Int64.add a x.size ≡ a + x.size =
      Int64.add_small a x.size (omega (arith, length-append c (joined cs))) in
    let ih = translate-Chain (a + x.size) cs xs t.2 (omega (arith, length-append c (joined cs))) in
    rw here ((refl, ih.0), (t.0, t.1, ih.1), omega (arith, ih.2, length-append c (joined cs)))
