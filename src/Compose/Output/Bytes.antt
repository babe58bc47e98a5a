-- ===== src/Compose/Output/Bytes.antt =====
-- Texts as bytes: prefixes of them, and the bytes that are in them.
use musicbox.Prelude.{
  ℕ, zero, suc, ◌≡◌, inl, inr, refl, ap, ◌+◌, ◌/◌, ◌%◌, ◌<◌, true, false, [], ◌∷◌, ◌++◌, ltb, ◌==◌,
  drop, length, arith, Bool-cases,
}
use musicbox.Prelude.Anywhere.{Text}
use musicbox.Fsutil.Text.{has_prefix, contains}
use musicbox.Fsutil.OpenRandom.{decimal}
use musicbox.Compose.Output.{before_space, from_space}

abbrev pub dash : ℕ
dash = b'-'

abbrev pub space : ℕ
space = b' '

pub drop-length : (s t : Text) → drop (length s) (s ++ t) ≡ t
drop-length [] t = refl
drop-length (c ∷ s) t = drop-length s t

pub has_prefix-drop : (s o : Text) → has_prefix s o ≡ true → s ≡ o ++ drop (length o) s
has_prefix-drop s [] h = refl
has_prefix-drop [] (c ∷ o) h = cc
has_prefix-drop (d ∷ s) (c ∷ o) h =
    let same : d ≡ c = ground arith in
    let rest : has_prefix s o ≡ true = ground arith in
    rw same (ap (λ t. c ∷ t) (has_prefix-drop s o rest))

pub contains-append :
    (s t : Text) (c : ℕ) → contains s c ≡ false → contains t c ≡ false → contains (s ++ t) c ≡ false
contains-append [] t c h k = k
contains-append (d ∷ s) t c h k =
    let rest : contains s c ≡ false = ground arith in ground (arith, contains-append s t c rest k)

pub contains-behind : (s t : Text) (c : ℕ) → contains t c ≡ true → contains (s ++ t) c ≡ true
contains-behind [] t c h = h
contains-behind (d ∷ s) t c h = ground (arith, contains-behind s t c h)

pub contains-here : (s : Text) (c : ℕ) → contains (c ∷ s) c ≡ true
contains-here s c = ground arith

pub has_prefix_self : (s : Text) → has_prefix s s ≡ true
has_prefix_self [] = refl
has_prefix_self (c ∷ s) = ground (arith, has_prefix_self s)

-- A byte below the digits is not in a number.
pub contains-decimal : (fuel n c : ℕ) → c < b'0' → contains (decimal fuel n) c ≡ false
unfolding decimal
contains-decimal zero n c h = refl
contains-decimal (suc fuel) n c h =
    let one : (k : ℕ) → contains ((b'0' + k) ∷ []) c ≡ false = λ k. ground arith in
    elim (Bool-cases (ltb n 10)) [
      | inl e ↦ rw e (one n)
      | inr e ↦ rw e (
          contains-append (decimal fuel (n / 10)) ((b'0' + n % 10) ∷ []) c
            (contains-decimal fuel (n / 10) c h) (one (n % 10)))
    ]

pub before_space-append :
    (s t : Text) → contains s space ≡ false → before_space (s ++ (space ∷ t)) ≡ s
unfolding before_space
before_space-append [] t h = refl
before_space-append (c ∷ s) t h =
    let here : (c == space) ≡ false = ground arith in
    rw here (ap (λ u. c ∷ u) (before_space-append s t (ground arith)))

pub from_space-append :
    (s t : Text) → contains s space ≡ false → from_space (s ++ (space ∷ t)) ≡ space ∷ t
unfolding from_space
from_space-append [] t h = refl
from_space-append (c ∷ s) t h =
    let here : (c == space) ≡ false = ground arith in rw here (from_space-append s t (ground arith))
