-- ===== src/Fsutil/Equal/Contents.antt =====
-- `sameReader` compares contents.
use mathlib.Core.Path.{ap₂}
use musicbox.Prelude.{
  ℕ, zero, suc, ◌-◌, ◌≡◌, ◌≤◌, ◌<◌, refl, ap, ◌∙◌, Bool, true, false, ◌&&◌, none, List, [], ◌∷◌,
  ◌==◌, if◌then◌else◌, Bool-cases, inl, inr, length, length-drop, take, drop, min, arith,
}
use musicbox.Prelude.Anywhere.{same_text}
use musicbox.Fsutil.Equal.{
  Compared, same, different, ReadFull, same_reader_loop, same_reader, buf_size,
}

-- Of readers whose contents are left to read, ReadFull takes the first bytes, if there are enough.
pub record ReadsFully {S : Type 0} (read_full : ReadFull S) (contents : S → List ℕ) : Type 0 where
  pub at :
      (n : ℕ) (s : S)
      → n ≤ length (contents s)
      → ((read_full n s).0 ≡ (none, take n (contents s)))
        × (contents (read_full n s).1 ≡ drop n (contents s))

-- Texts are equal if their heads and their tails are.
same_text-take-drop :
    (n : ℕ) (a b : List ℕ)
    → same_text a b ≡ (same_text (take n a) (take n b) && same_text (drop n a) (drop n b))
unfolding same_text
same_text-take-drop zero a b = refl
same_text-take-drop (suc n) [] [] = refl
same_text-take-drop (suc n) [] (y ∷ b) = refl
same_text-take-drop (suc n) (x ∷ a) [] = refl
same_text-take-drop (suc n) (x ∷ a) (y ∷ b) = ground (arith, same_text-take-drop n a b)

abbrev pub verdict : Bool → Compared
verdict b = if b then same else different

verdict-&& :
    (a b : Bool) (rest : Compared)
    → rest ≡ verdict b
    → (if a then rest else different) ≡ verdict (a && b)
verdict-&& true b rest h = h
verdict-&& false b rest h = refl

same_text_empty : (a b : List ℕ) → length a ≡ 0 → length b ≡ 0 → same_text a b ≡ true
unfolding same_text
same_text_empty [] [] h h' = refl
same_text_empty [] (y ∷ b) h h' = absurd (omega (arith, h'))
same_text_empty (x ∷ a) b h h' = absurd (omega (arith, h))

same_text_lengths : (a b : List ℕ) → (length a == length b) ≡ false → same_text a b ≡ false
unfolding same_text
same_text_lengths [] [] h = ground arith
same_text_lengths [] (y ∷ b) h = refl
same_text_lengths (x ∷ a) [] h = refl
same_text_lengths (x ∷ a) (y ∷ b) h = ground (arith, same_text_lengths a b)

module _ {S : Type 0} {read_full : ReadFull S} {contents : S → List ℕ} where
  same_reader_loop-verdict :
      (fuel buf size : ℕ) (l r : S)
      → ReadsFully read_full contents
      → 0 < buf
      → size ≤ fuel
      → length (contents l) ≡ size
      → length (contents r) ≡ size
      → same_reader_loop read_full fuel buf size l r ≡ verdict (same_text (contents r) (contents l))
  unfolding same_reader_loop
  same_reader_loop-verdict zero buf size l r reads b h hl hr =
      let empty : (size == 0) ≡ true = ground arith in
      rw (empty, same_text_empty (contents r) (contents l) (omega arith) (omega arith)) refl
  same_reader_loop-verdict (suc fuel) buf size l r reads b h hl hr = elim (Bool-cases (size == 0)) [
    | inl done ↦
        rw (done, same_text_empty (contents r) (contents l) (ground arith) (ground arith)) refl
    | inr more ↦
        let n = min buf size in
        let from_r = reads.at n r (omega arith) in
        let from_l = reads.at n l (omega arith) in
        let positive : 0 < size = ground arith in
        let l' = (read_full n l).1 in
        let r' = (read_full n r).1 in
        rw
          (
            more,
            from_r.0,
            from_l.0,
            ap (λ p. p.1) from_r.0,
            ap (λ p. p.1) from_l.0,
            same_text-take-drop n (contents r) (contents l),
          )
          (verdict-&& (same_text (take n (contents r)) (take n (contents l)))
            (same_text (drop n (contents r)) (drop n (contents l)))
            (same_reader_loop read_full fuel n (size - n) l' r')
            (same_reader_loop-verdict fuel n (size - n) l' r' reads (omega arith) (omega arith)
                (ap length from_l.1 ∙ length-drop n (contents l) ∙ ap (λ k. k - n) hl)
                (ap length from_r.1 ∙ length-drop n (contents r) ∙ ap (λ k. k - n) hr)
              ∙ ap₂ (λ a b. verdict (same_text a b)) from_r.1 from_l.1))
  ]

  -- sameReader of two readers ends with the verdict on their contents, if it is given their lengths:
  -- it neither fails nor runs out of rounds.
  pub same_reader-verdict :
      (l r : S)
      → ReadsFully read_full contents
      → same_reader read_full l r (length (contents l)) (length (contents r))
        ≡ verdict (same_text (contents r) (contents l))
  unfolding same_reader
  same_reader-verdict l r reads = elim (Bool-cases (length (contents r) == length (contents l))) [
    | inl equal ↦ rw equal (
        same_reader_loop-verdict (length (contents r)) buf_size (length (contents r)) l r reads
          (omega arith) (omega arith) (ground arith) refl)
    | inr unequal ↦ rw (unequal, same_text_lengths (contents r) (contents l) unequal) refl
  ]
