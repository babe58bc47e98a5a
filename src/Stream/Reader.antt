-- ===== src/Stream/Reader.antt =====
-- io.Reader as its documentation has it: what a reader with some contents left returns, and what it
-- is to read one to its end, as io.Copy and io.ReadAll do.
use musicbox.Prelude.{
  ℕ, zero, suc, ◌≡◌, ◌≤◌, ◌<◌, ◌⊎◌, refl, sym, ap, ◌∙◌, Option, none, some, List, [], ◌++◌, inl,
  inr, arith, length, length-append,
}
use mathlib.Core.Path.{subst₂}
use mathlib.Core.List.{append-nil}
use musicbox.Stream.Io.{Error, eof, ReadResult}

-- Read of a slice of the given length, on the state of a reader.
abbrev pub Reader : Type 0 → Type 0
Reader S = S → ℕ → ReadResult × S

-- What a Read of `n` bytes owes where `c` is left: it returns a prefix of `c`, and either no error and
-- a byte or more, or io.EOF at the end.
pub record Reads {S : Type 0} (Left : S → List ℕ → Type 0) (n : ℕ) (c : List ℕ)
    (got : ReadResult × S) : Type 0 where
  pub rest : List ℕ
  pub split : got.0.0 ++ rest ≡ c
  pub bound : length got.0.0 ≤ n
  pub left : Left got.1 rest
  pub ends : ((got.0.1 ≡ none) × (0 < length got.0.0)) ⊎ ((got.0.1 ≡ some eof) × (rest ≡ []))

-- `Left s c` says that the reader has `c` left.
pub record Streams {S : Type 0} (read : Reader S) (Left : S → List ℕ → Type 0) : Type 0 where
  pub at : (s : S) (c : List ℕ) (n : ℕ) → Left s c → 0 < n → Reads Left n c (read s n)

-- Reads of positive lengths up to io.EOF: they return `c` in all.
pub data Drains {S : Type 0} (read : Reader S) : S → List ℕ → S → Type 0 where
  stop :
      {s : S} (n : ℕ)
      → 0 < n
      → (read s n).0.1 ≡ some eof
      → {c : List ℕ} {s' : S} → (read s n).0.0 ≡ c
      → (read s n).1 ≡ s'
      → Drains read s c s'
  more :
      {s : S} (n : ℕ)
      → 0 < n
      → (read s n).0.1 ≡ none
      → {c c' : List ℕ} {s' : S} → Drains read (read s n).1 c s'
      → (read s n).0.0 ++ c ≡ c'
      → Drains read s c' s'

module _ {S : Type 0} {read : Reader S} {Left : S → List ℕ → Type 0} where
  -- Reading to the end returns what is left, however long the slices are.
  pub drained :
      {s s' : S} (c : List ℕ) {d : List ℕ}
      → Streams read Left
      → Left s c
      → Drains read s d s'
      → (d ≡ c) × Left s' []
  drained {s} c h l (stop n pos end e e') =
      let r = h.at s c n l pos in
      elim r.ends [
        | inl goes ↦ ground (arith, goes.0, end)
        | inr over ↦ (
          sym e
              ∙ sym (append-nil (read s n).0.0)
              ∙ ap (λ k. (read s n).0.0 ++ k) (sym over.1)
              ∙ r.split,
          subst₂ Left e' over.1 r.left,
        )
      ]
  drained {s} c h l (more n pos ok rest e) =
      let r = h.at s c n l pos in
      let (same, at_end) = drained r.rest h r.left rest in
      (sym e ∙ ap (λ k. (read s n).0.0 ++ k) same ∙ r.split, at_end)

  drain_within :
      (fuel : ℕ) (s : S) (c : List ℕ)
      → Streams read Left
      → Left s c
      → length c < fuel
      → (s' : S) × Drains read s c s'
  drain_within zero s c h l b = absurd (omega arith)
  drain_within (suc fuel) s c h l b =
      let r = h.at s c (suc fuel) l (omega arith) in
      elim r.ends [
        | inl goes ↦
            let (s', rest) = drain_within fuel (read s (suc fuel)).1 r.rest h r.left (
              omega
                (arith, goes.1, ap length r.split, length-append (read s (suc fuel)).0.0 r.rest)) in
            (s', more (suc fuel) (omega arith) goes.0 rest r.split)
        | inr over ↦ (
          (read s (suc fuel)).1,
          stop (suc fuel) (omega arith) over.0
              (sym (append-nil (read s (suc fuel)).0.0)
                ∙ ap (λ k. (read s (suc fuel)).0.0 ++ k) (sym over.1)
                ∙ r.split)
              refl,
        )
      ]

  -- It can be read to its end.
  pub can_drain :
      (s : S) (c : List ℕ) → Streams read Left → Left s c → (s' : S) × Drains read s c s'
  can_drain s c h l = drain_within (suc (length c)) s c h l (omega arith)

-- io.CopyBuffer's loop: it reads with a buffer of the given length until an error, which is none of
-- its own if it is io.EOF. `out_of_fuel` never ends a loop with more fuel than bytes.
pub data Copied (S : Type 0) : Type 0 where
  copied : List ℕ → Option Error → S → Copied S
  out_of_fuel : Copied S

abbrev onto : {S : Type 0} → List ℕ → Copied S → Copied S
onto bytes (copied c err s) = copied (bytes ++ c) err s
onto bytes out_of_fuel = out_of_fuel

abbrev unless_eof : Error → Option Error
unless_eof eof = none
unless_eof e = some e

module _ {S : Type 0} (read : Reader S) where
  pub copy_buffer : ℕ → ℕ → S → Copied S
  copy_buffer zero n s = out_of_fuel
  copy_buffer (suc fuel) n s =
      let ((bytes, err), s') = read s n in
      let rest = copy_buffer fuel n s' in
      elim err [ none ↦ onto bytes rest | some e ↦ copied bytes (unless_eof e) s' ]

module _ {S : Type 0} {read : Reader S} {Left : S → List ℕ → Type 0} where
  -- It copies all that is left, and has read the reader to its end.
  pub copy_buffer-Drains :
      (fuel n : ℕ) (s : S) (c : List ℕ)
      → Streams read Left
      → Left s c
      → 0 < n
      → length c < fuel
      → (s' : S) × (copy_buffer read fuel n s ≡ copied c none s') × Drains read s c s'
  unfolding copy_buffer
  copy_buffer-Drains zero n s c h l pos b = absurd (omega arith)
  copy_buffer-Drains (suc fuel) n s c h l pos b =
      let r = h.at s c n l pos in
      let bytes = (read s n).0.0 in
      elim r.ends [
        | inl goes ↦
            let (s', same, rest) =
              copy_buffer-Drains fuel n (read s n).1 r.rest h r.left pos
                (omega (arith, goes.1, ap length r.split, length-append bytes r.rest)) in
            (
              s',
              rw (goes.0, copy_buffer) (ap (onto bytes) same ∙ ap (λ d. copied d none s') r.split),
              more n pos goes.0 rest r.split,
            )
        | inr over ↦
            let whole : bytes ≡ c =
              sym (append-nil bytes) ∙ ap (λ k. bytes ++ k) (sym over.1) ∙ r.split in
            (
              (read s n).1,
              rw (over.0, copy_buffer) (ap (λ d. copied d none (read s n).1) whole),
              stop n pos over.0 whole refl,
            )
      ]
