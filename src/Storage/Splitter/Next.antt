-- ===== src/Storage/Splitter/Next.antt =====
-- What `splitter.Next` hands out.
use mathlib.Core.Path.{subst}
use musicbox.Prelude.{
  ℕ, ◌≡◌, ◌≢◌, ◌≤◌, ◌<◌, ◌⊎◌, refl, sym, ap, ◌∙◌, true, false, min, none, some, List, [], ◌∷◌, ◌++◌,
  inl, inr, arith, length, length-append, no_bytes, length-take, take, drop, drop_all,
  take-append-drop, ◌==◌, Bool-cases, ltb, lt→ltb, leb,
}
use musicbox.Prelude.Int64
use musicbox.Stream.Reader.{Reader, Streams}
use musicbox.Storage.Splitter.{Splitter, Piece, fused_read, next, min_read_size}
use musicbox.Storage.Splitter.Pieces.{FusedLeft, PieceLeft, fused-Streams}

front_limited :
    (size : ℕ) (c : List ℕ)
    → (length (take size c) ≡ size) ⊎ ((length (take size c) ≤ size) × (drop size c ≡ []))
front_limited size c = elim (Bool-cases (leb size (length c))) [
  | inl full ↦ inl (ground (arith, length-take size c))
  | inr short ↦ inr (omega (arith, length-take size c), drop_all size c (ground arith))
]

something :
    (bytes rest c : List ℕ)
    → c ≢ []
    → bytes ++ rest ≡ c
    → (0 < length bytes) ⊎ (rest ≡ [])
    → 0 < length bytes
something bytes rest c ne e (inl h) = h
something [] rest c ne e (inr h) = absurd (ne (sym e ∙ h))
something (b ∷ bytes) rest c ne e (inr h) = omega arith

module _ {S : Type 0} {read : Reader S} {Left : S → List ℕ → Type 0} where
  -- At the end there is no next piece, and nothing left.
  pub next_ends :
      (s : Splitter S)
      → Streams read Left
      → FusedLeft Left s.r []
      → 0 < s.size
      → ((next read s).0 ≡ none) × FusedLeft Left (next read s).1.r []
  unfolding next
  next_ends s h (l, inr (e, over)) pos = rw e (refl, (l, inr (refl, refl)))
  next_ends s h (l, inl e) pos =
      let m = min s.size min_read_size in
      let r = (fused-Streams h).at s.r [] m (l, inl e) (omega arith) in
      let got = (fused_read read s.r m).0 in
      let empty = no_bytes got.0 (omega (arith, ap length r.split, length-append got.0 r.rest)) in
      elim r.ends [
        | inl goes ↦ absurd (omega (arith, goes.1, ap length empty))
        | inr over ↦ (
          ground (arith, e, ap length empty, over.0),
          subst (λ f. FusedLeft Left f []) (ground (arith, e, ap length empty, over.0))
              (subst (FusedLeft Left (fused_read read s.r m).1) over.1 r.left),
        )
      ]

  -- Before the end it is the next `size` bytes, or all that are left if these are fewer.
  pub next_piece :
      (s : Splitter S) (c : List ℕ)
      → Streams read Left
      → FusedLeft Left s.r c
      → 0 < s.size
      → s.size < Int64.sign_bit
      → c ≢ []
      → (p : Piece S) × ((next read s).0 ≡ some p)
        × PieceLeft Left (drop s.size c) p (take s.size c)
  unfolding next
  next_piece s c h (l, inr (e, over)) pos b ne = absurd (ne over)
  next_piece s c h (l, inl e) pos b ne =
      let m = min s.size min_read_size in
      let r = (fused-Streams h).at s.r c m (l, inl e) (omega arith) in
      let got = fused_read read s.r m in
      let some_read : 0 < length got.0.0 =
        something got.0.0 r.rest c ne r.split (elim r.ends [ inl g ↦ inl g.1 | inr o ↦ inr o.1 ]) in
      let not_empty : (length got.0.0 == 0) ≡ false = ground arith in
      let small : ltb s.size Int64.sign_bit ≡ true = lt→ltb s.size Int64.sign_bit b in
      (
        record { limit = s.size; buf = got.0.0; r = got.1 },
        ground (arith, e, not_empty, small),
        record {
          joined = (r.rest, r.left, r.split ∙ sym (take-append-drop s.size c));
          buffered = omega (arith, r.bound);
          limited = front_limited s.size c;
        },
      )
