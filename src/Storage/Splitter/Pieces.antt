-- ===== src/Storage/Splitter/Pieces.antt =====
-- What the readers of the splitter have left.
use mathlib.Core.List.{append_assoc}
use mathlib.Core.Path.{subst}
use musicbox.Prelude.{
  ℕ, ◌-◌, ◌≡◌, ◌≤◌, ◌<◌, ◌⊎◌, refl, sym, ap, ◌∙◌, min, none, some, List, [], ◌∷◌, ◌++◌, inl, inr,
  arith, length, length-take, length-drop, length-append, take, drop, take-append-drop, cut_within,
  no_bytes, ◌==◌, ==_iff, Bool-cases,
}
use musicbox.Stream.Io.{eof}
use musicbox.Stream.Reader.{Reader, Reads, Streams}
use musicbox.Storage.Splitter.{
  FusedReader, Piece, fused_read, joined_read, piece_read, Counted, counted_read,
}

module _ {S : Type 0} (Left : S → List ℕ → Type 0) where
  -- A fused reader has not met io.EOF, or has nothing left.
  abbrev pub FusedLeft : FusedReader S → List ℕ → Type 0
  FusedLeft f c = Left f.r c × ((f.err ≡ none) ⊎ ((f.err ≡ some eof) × (c ≡ [])))

  abbrev pub JoinedLeft : List ℕ × FusedReader S → List ℕ → Type 0
  JoinedLeft (buf, f) c = (d : List ℕ) × FusedLeft f d × (buf ++ d ≡ c)

  -- A piece that has `c` left, behind which the reader has `tail`.
  pub record PieceLeft (tail : List ℕ) (p : Piece S) (c : List ℕ) : Type 0 where
    pub joined : JoinedLeft (p.buf, p.r) (c ++ tail)
    pub buffered : length p.buf ≤ p.limit
    pub limited : (length c ≡ p.limit) ⊎ ((length c ≤ p.limit) × (tail ≡ []))

  abbrev pub CountedLeft : Counted S → List ℕ → Type 0
  CountedLeft k c = Left k.inner c

no_front : (a b : List ℕ) → a ++ b ≡ [] → a ≡ []
no_front a b h = no_bytes a (omega (arith, ap length h, length-append a b))

shorter :
    (tail c bytes rest : List ℕ) (limit : ℕ)
    → (length c ≡ limit) ⊎ ((length c ≤ limit) × (tail ≡ []))
    → length bytes ≤ limit
    → bytes ++ rest ≡ c ++ tail
    → length bytes ≤ length c
shorter tail c bytes rest limit (inl full) b e = omega arith
shorter tail c bytes rest limit (inr (within, last)) b e =
    omega (arith, ap length e, ap length last, length-append bytes rest, length-append c tail)

at_limit :
    (tail c : List ℕ) (limit : ℕ)
    → (length c ≡ limit) ⊎ ((length c ≤ limit) × (tail ≡ []))
    → limit ≡ 0
    → length c ≤ 0
at_limit tail c limit h e = ground arith

still_limited :
    (tail c bytes : List ℕ) (limit : ℕ)
    → (length c ≡ limit) ⊎ ((length c ≤ limit) × (tail ≡ []))
    → (length (drop (length bytes) c) ≡ limit - length bytes)
      ⊎ ((length (drop (length bytes) c) ≤ limit - length bytes) × (tail ≡ []))
still_limited tail c bytes limit (inl full) = inl (omega (arith, length-drop (length bytes) c))
still_limited tail c bytes limit (inr (within, last)) =
    inr (omega (arith, length-drop (length bytes) c), last)

left_over :
    (tail buf d : List ℕ) (limit : ℕ)
    → length buf ≤ limit
    → (0 ≡ limit) ⊎ ((0 ≤ limit) × (tail ≡ []))
    → buf ++ d ≡ [] ++ tail
    → (buf ≡ []) × (d ≡ tail)
left_over tail [] d limit b h e = (refl, e)
left_over tail (x ∷ buf) d limit b (inl h) e = absurd (omega arith)
left_over tail (x ∷ buf) d limit b (inr h) e = absurd (omega (arith, ap length e, ap length h.1))

module _ {S : Type 0} {Left : S → List ℕ → Type 0} where
  -- Behind a piece that was read to its end, the reader has the tail left.
  pub behind_piece :
      (tail : List ℕ) (p : Piece S) → PieceLeft Left tail p [] → FusedLeft Left p.r tail
  behind_piece tail p l =
      let (d, f, e) = l.joined in
      let (no_buf, same) = left_over tail p.buf d p.limit l.buffered l.limited e in
      subst (FusedLeft Left p.r) same f

module _ {S : Type 0} {read : Reader S} {Left : S → List ℕ → Type 0} where
  fused_lem :
      (f : FusedReader S) (c : List ℕ) (n : ℕ)
      → Streams read Left
      → FusedLeft Left f c
      → 0 < n
      → Reads (FusedLeft Left) n c (fused_read read f n)
  unfolding fused_read
  fused_lem f c n h (l, inl e) pos =
      let r = h.at f.r c n l pos in
      rw e record {
        rest = r.rest;
        split = r.split;
        bound = r.bound;
        left = (r.left, elim r.ends [ inl goes ↦ inl goes.0 | inr over ↦ inr over ]);
        ends = r.ends;
      }
  fused_lem f c n h (l, inr (e, over)) pos = rw e record {
    rest = [];
    split = sym over;
    bound = omega arith;
    left = (subst (Left f.r) over l, inr (refl, refl));
    ends = inr (refl, refl);
  }

  pub fused-Streams : Streams read Left → Streams (fused_read read) (FusedLeft Left)
  fused-Streams h = record { at = λ f c n l pos. fused_lem f c n h l pos }

  -- What a read of the joined readers leaves, and that the buffer shrinks by as much as it gives.
  pub joined_lem :
      (buf : List ℕ) (f : FusedReader S) (c : List ℕ) (n : ℕ)
      → Streams read Left
      → JoinedLeft Left (buf, f) c
      → 0 < n
      → Reads (JoinedLeft Left) n c (joined_read read (buf, f) n)
        × (length (joined_read read (buf, f) n).1.0
            ≤ length buf - length (joined_read read (buf, f) n).0.0)
  unfolding joined_read
  joined_lem [] f c n h (d, l, e) pos =
      let r = fused_lem f d n h l pos in
      (
        record {
          rest = r.rest;
          split = r.split ∙ e;
          bound = r.bound;
          left = (r.rest, r.left, refl);
          ends = r.ends;
        },
        omega arith,
      )
  joined_lem (b ∷ buf) f c n h (d, l, e) pos = (
    record {
      rest = drop n (b ∷ buf) ++ d;
      split =
          sym (append_assoc (take n (b ∷ buf)) (drop n (b ∷ buf)) d)
          ∙ ap (λ k. k ++ d) (take-append-drop n (b ∷ buf))
          ∙ e;
      bound = omega (arith, length-take n (b ∷ buf));
      left = (d, l, refl);
      ends = inl (refl, omega (arith, length-take n (b ∷ buf)));
    },
    omega (arith, length-take n (b ∷ buf), length-drop n (b ∷ buf)),
  )

  piece_lem :
      (tail : List ℕ) (p : Piece S) (c : List ℕ) (n : ℕ)
      → Streams read Left
      → PieceLeft Left tail p c
      → 0 < n
      → Reads (PieceLeft Left tail) n c (piece_read read p n)
  unfolding piece_read
  piece_lem tail p c n h l pos = elim (Bool-cases (p.limit == 0)) [
    | inl none_left ↦
        let empty =
          no_bytes c (at_limit tail c p.limit l.limited ((==_iff p.limit 0).0 none_left)) in
        rw none_left record {
          rest = [];
          split = sym empty;
          bound = omega arith;
          left = subst (PieceLeft Left tail p) empty l;
          ends = inr (refl, refl);
        }
    | inr some_left ↦
        let m = min n p.limit in
        let positive : 0 < m = ground arith in
        let (r, shrunk) = joined_lem p.buf p.r (c ++ tail) m h l.joined positive in
        let got = joined_read read (p.buf, p.r) m in
        let bytes = got.0.0 in
        let (split, rest) =
          cut_within bytes r.rest c tail r.split
            (shorter tail c bytes r.rest p.limit l.limited (omega (arith, r.bound)) r.split) in
        rw some_left record {
          rest = drop (length bytes) c;
          split = split;
          bound = omega (arith, r.bound);
          left = record {
            joined = subst (JoinedLeft Left got.1) rest r.left;
            buffered = omega (arith, shrunk, l.buffered);
            limited = still_limited tail c bytes p.limit l.limited;
          };
          ends = elim r.ends [
            | inl goes ↦ inl goes
            | inr over ↦ inr (over.0, no_front (drop (length bytes) c) tail (sym rest ∙ over.1))
          ];
        }
  ]

  pub piece-Streams :
      (tail : List ℕ) → Streams read Left → Streams (piece_read read) (PieceLeft Left tail)
  piece-Streams tail h = record { at = λ p c n l pos. piece_lem tail p c n h l pos }

  -- Counting changes nothing of what is read.
  pub counted-Streams : Streams read Left → Streams (counted_read read) (CountedLeft Left)
  unfolding counted_read
  counted-Streams h = record {
    at = λ k c n l pos.
        let r = h.at k.inner c n l pos in
        record { rest = r.rest; split = r.split; bound = r.bound; left = r.left; ends = r.ends };
  }
