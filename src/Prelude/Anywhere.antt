-- ===== src/Prelude/Anywhere.antt =====
-- A predicate that some element of a list has, and texts as bytes with their equality.
use Prim.Native.Nat.{ℕ}
use mathlib.Core.Path.{◌≡◌, refl}
use mathlib.Core.Logic.{◌↔◌, ◌⊎◌, inl, inr}
use mathlib.Core.Bool.{Bool, true, false, ◌&&◌, ◌||◌}
use mathlib.Core.List.{List, [], ◌∷◌}
use native.Mathlib.Omega.{arith}
use musicbox.Prelude.Tests.{◌==◌}

abbrev pub Any {ℓ} : {A : Type ℓ} → (A → Type 0) → List A → Type 0
Any P [] = ⊥
Any P (x ∷ xs) = P x ⊎ Any P xs

pub Any-map {ℓ} :
    {A : Type ℓ} (P Q : A → Type 0) (xs : List A) → ((x : A) → P x → Q x) → Any P xs → Any Q xs
Any-map P Q [] f h = elim h [ ]
Any-map P Q (x ∷ xs) f (inl p) = inl (f x p)
Any-map P Q (x ∷ xs) f (inr a) = inr (Any-map P Q xs f a)

abbrev pub All : {T : Type 0} → (T → Type 0) → List T → Type 0
All P [] = Unit
All P (x ∷ xs) = P x × All P xs

pub All-map :
    {T : Type 0} (P Q : T → Type 0) (xs : List T) → ((x : T) → P x → Q x) → All P xs → All Q xs
All-map P Q [] f h = tt
All-map P Q (x ∷ xs) f h = (f x h.0, All-map P Q xs f h.1)

abbrev pub Text : Type 0
Text = List ℕ

unfoldable pub same_text : Text → Text → Bool
same_text [] [] = true
same_text [] (b ∷ t) = false
same_text (a ∷ s) [] = false
same_text (a ∷ s) (b ∷ t) = a == b && same_text s t

pub same_text_refl : (t : Text) → same_text t t ≡ true
unfolding same_text
same_text_refl [] = refl
same_text_refl (a ∷ t) = ground (arith, same_text_refl t)

pub same_text_sound : (s t : Text) → same_text s t ≡ true → s ≡ t
unfolding same_text
same_text_sound [] [] h = refl
same_text_sound [] (b ∷ t) h = ground arith
same_text_sound (a ∷ s) [] h = ground arith
same_text_sound (a ∷ s) (b ∷ t) h = ground (arith, same_text_sound s t)

pub same_text_iff : (s t : Text) → (same_text s t ≡ true) ↔ (s ≡ t)
same_text_iff s t = (same_text_sound s t, λ h. rw (h, same_text_refl t))

pub or_iff :
    (a b : Bool) (P Q : Type 0) → (a ≡ true) ↔ P → (b ≡ true) ↔ Q → ((a || b) ≡ true) ↔ (P ⊎ Q)
or_iff true b P Q p q = (λ h. inl (p.0 refl), λ h. refl)
or_iff false b P Q p q =
    (λ h. inr (q.0 h), λ h. elim h [ inl x ↦ ground (arith, p.1 x) | inr y ↦ q.1 y ])

-- A condition that is computed to false does not hold.
pub refuted : (a : Bool) (P : Type 0) → (a ≡ true) ↔ P → a ≡ false → P → ⊥
refuted true P p h x = ground arith
refuted false P p h x = ground (arith, p.1 x)

pub and_iff :
    (a b : Bool) (P Q : Type 0) → (a ≡ true) ↔ P → (b ≡ true) ↔ Q → ((a && b) ≡ true) ↔ (P × Q)
and_iff true b P Q p q = (λ h. (p.0 refl, q.0 h), λ h. q.1 h.1)
and_iff false b P Q p q = (λ h. ground arith, λ h. p.1 h.0)
