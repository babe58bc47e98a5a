-- ===== src/Compose/Output/Names.antt =====
-- compose/service/output.go: the network or volume that the loops over a project's names find.
use musicbox.Prelude.{
  ℕ, ◌≡◌, ◌⊎◌, inl, inr, refl, sym, ap, ◌∙◌, Bool, true, false, ◌||◌, List, [], ◌∷◌, ◌++◌, ◌==◌,
  drop, length, arith, Bool-cases,
}
use mathlib.Core.Path.{ap₂, subst}
use mathlib.Core.List.{append-nil, head-eq_of_cons-eq, tail-eq_of_cons-eq}
use musicbox.Prelude.Signed.{pos}
use musicbox.Prelude.Anywhere.{Text, Any, All, All-map}
use musicbox.Fsutil.Text.{has_prefix, has_prefix-append}
use musicbox.Compose.Output.{name_read, find_name, cut_quote, sorted_down, insert_text, less_text}
use musicbox.Compose.Output.Bytes.{space, drop-length, has_prefix-drop}

abbrev pub ends_name : ℕ → Bool
ends_name c = c == b'"' || c == space

-- The first name, with a quote or a space behind it, starts the other one.
abbrev pub Starts : Text → Text → Type 0
Starts o name = (c : ℕ) × (r : Text) × (ends_name c ≡ true) × (name ≡ o ++ (c ∷ r))

-- Of two ways to cut a text, the cuts are at one place or one is behind the other.
cut_twice :
    (o name r rest : Text) (b c : ℕ)
    → o ++ (b ∷ r) ≡ name ++ (c ∷ rest)
    → (o ≡ name) ⊎ (((r' : Text) × (name ≡ o ++ (b ∷ r'))) ⊎ ((r' : Text) × (o ≡ name ++ (c ∷ r'))))
cut_twice [] [] r rest b c h = inl refl
cut_twice [] (d ∷ name) r rest b c h =
    inr (inl (name, ap (λ x. x ∷ name) (sym (head-eq_of_cons-eq h))))
cut_twice (d ∷ o) [] r rest b c h = inr (inr (o, ap (λ x. x ∷ o) (head-eq_of_cons-eq h)))
cut_twice (d ∷ o) (e ∷ name) r rest b c h =
    let first : d ≡ e = head-eq_of_cons-eq h in
    elim (cut_twice o name r rest b c (tail-eq_of_cons-eq h)) [
      | inl same ↦ inl (ap₂ (λ x t. x ∷ t) first same)
      | inr (inl (r', same)) ↦ inr (inl (r', ap₂ (λ x t. x ∷ t) (sym first) same))
      | inr (inr (r', same)) ↦ inr (inr (r', ap₂ (λ x t. x ∷ t) first same))
    ]

-- Neither of the two starts the other.
abbrev pub Unlike : Text → Text → Type 0
Unlike name o = (Starts o name → ⊥) × (Starts name o → ⊥)

-- The names up to the one that is looked for.
abbrev Passing : Text → List Text → Type 0
Passing name [] = ⊥
Passing name (o ∷ names) = (o ≡ name) ⊎ (Unlike name o × Passing name names)

module _ (name rest : Text) (c : ℕ) (ends : ends_name c ≡ true) where
  abbrev ended : Text
  ended = name ++ (c ∷ rest)

  -- The name, or one that is passed by.
  name_or_passed :
      (o : Text) (names : List Text)
      → Unlike name o
      → (o ≡ name) ⊎ (find_name (o ∷ names) ended ≡ find_name names ended)
  unfolding find_name
  name_or_passed o names (shorter, longer) = elim (Bool-cases (has_prefix ended o)) [
    | inl starts ↦ behind (drop (length o) ended) refl (has_prefix-drop ended o starts) starts
    | inr fails ↦ inr (rw fails refl)
  ]
    where
      behind :
          (d : Text)
          → drop (length o) ended ≡ d
          → ended ≡ o ++ drop (length o) ended
          → has_prefix ended o ≡ true
          → (o ≡ name) ⊎ (find_name (o ∷ names) ended ≡ find_name names ended)
      behind [] dropped whole starts =
          elim (longer (c, rest, ends, sym (whole ∙ ap (λ t. o ++ t) dropped ∙ append-nil o))) [ ]
      behind (b ∷ r) dropped whole starts = elim (Bool-cases (ends_name b)) [
        | inr e ↦ inr (rw (starts, dropped, e) refl)
        | inl e ↦ elim (cut_twice o name r rest b c (ap (λ t. o ++ t) (sym dropped) ∙ sym whole)) [
          | inl same ↦ inl same
          | inr (inl (r', same)) ↦ elim (shorter (b, r', e, same)) [ ]
          | inr (inr (r', same)) ↦ elim (longer (c, r', ends, same)) [ ]
        ]
      ]

  found_first :
      (o : Text) (names : List Text)
      → o ≡ name
      → find_name (o ∷ names) ended ≡ name_read name (pos 0) (cut_quote (c ∷ rest))
  unfolding find_name
  found_first o names same =
      rw (same, has_prefix-append name (c ∷ rest), drop-length name (c ∷ rest), ends)
        (ap (λ t. name_read t (pos 0) (cut_quote (c ∷ rest))) same)

  pub find_name_here :
      (names : List Text)
      → Passing name names
      → find_name names ended ≡ name_read name (pos 0) (cut_quote (c ∷ rest))
  find_name_here [] passing = elim passing [ ]
  find_name_here (o ∷ names) (inl same) = found_first o names same
  find_name_here (o ∷ names) (inr (unlike, passing)) = elim (name_or_passed o names unlike) [
    | inl same ↦ found_first o names same
    | inr passed ↦ passed ∙ find_name_here names passing
  ]

-- Among names that are all unlike it, in any order.
pub Unlike-Passing :
    (name : Text) (names : List Text)
    → Any (λ o. o ≡ name) names
    → All (λ o. (o ≡ name) ⊎ Unlike name o) names
    → Passing name names
Unlike-Passing name [] member all = elim member [ ]
Unlike-Passing name (o ∷ names) (inl same) all = inl same
Unlike-Passing name (o ∷ names) (inr member) (inl same, all) = inl same
Unlike-Passing name (o ∷ names) (inr member) (inr unlike, all) =
    inr (unlike, Unlike-Passing name names member all)

-- A name that starts another one is less.
less_started : (o r : Text) (c : ℕ) → less_text o (o ++ (c ∷ r)) ≡ true
less_started [] r c = refl
less_started (d ∷ o) r c = ground (arith, less_started o r c)

less_asym : (s t : Text) → less_text s t ≡ true → less_text t s ≡ false
less_asym s [] h = absurd (ground arith)
less_asym [] (d ∷ t) h = refl
less_asym (c ∷ s) (d ∷ t) h = elim (Bool-cases (c == d)) [
  | inl same ↦ ground (arith, h, same, less_asym s t)
  | inr differs ↦ ground (arith, h, differs)
]

not_less_trans :
    (s t u : Text) → less_text s t ≡ false → less_text t u ≡ false → less_text s u ≡ false
not_less_trans s t [] h k = refl
not_less_trans s [] (e ∷ u) h k = absurd (ground arith)
not_less_trans [] (d ∷ t) (e ∷ u) h k = absurd (ground arith)
not_less_trans (c ∷ s) (d ∷ t) (e ∷ u) h k = ground (arith, h, k, not_less_trans s t u)

abbrev SortedDown : List Text → Type 0
SortedDown [] = Unit
SortedDown (t ∷ ts) = All (λ u. less_text t u ≡ false) ts × SortedDown ts

-- Sorting keeps the names.
insert_text-All :
    (P : Text → Type 0) (t : Text) (ts : List Text) → P t → All P ts → All P (insert_text t ts)
unfolding insert_text
insert_text-All P t [] p all = (p, tt)
insert_text-All P t (u ∷ us) p (q, all) = elim (Bool-cases (less_text t u)) [
  | inl e ↦ rw e (q, insert_text-All P t us p all)
  | inr e ↦ rw e (p, (q, all))
]

insert_text-Any :
    (P : Text → Type 0) (t : Text) (ts : List Text) → P t ⊎ Any P ts → Any P (insert_text t ts)
unfolding insert_text
insert_text-Any P t [] h = h
insert_text-Any P t (u ∷ us) h = elim (Bool-cases (less_text t u)) [
  | inl e ↦ rw e (elim h [
    | inl p ↦ inr (insert_text-Any P t us (inl p))
    | inr (inl q) ↦ inl q
    | inr (inr a) ↦ inr (insert_text-Any P t us (inr a))
  ])
  | inr e ↦ rw e h
]

insert_text-SortedDown : (t : Text) (us : List Text) → SortedDown us → SortedDown (insert_text t us)
unfolding insert_text
insert_text-SortedDown t [] h = (tt, tt)
insert_text-SortedDown t (u ∷ us) (first, h) = elim (Bool-cases (less_text t u)) [
  | inl e ↦ rw e (
    insert_text-All (λ x. less_text u x ≡ false) t us (less_asym t u e) first,
    insert_text-SortedDown t us h,
  )
  | inr e ↦ rw e (
    (
      e,
      All-map (λ x. less_text u x ≡ false) (λ x. less_text t x ≡ false) us
          (λ x k. not_less_trans t u x e k) first,
    ),
    (first, h),
  )
]

sorted_down-SortedDown : (ts : List Text) → SortedDown (sorted_down ts)
unfolding sorted_down
sorted_down-SortedDown [] = tt
sorted_down-SortedDown (t ∷ ts) =
    insert_text-SortedDown t (sorted_down ts) (sorted_down-SortedDown ts)

pub sorted_down-All : (P : Text → Type 0) (ts : List Text) → All P ts → All P (sorted_down ts)
unfolding sorted_down
sorted_down-All P [] all = tt
sorted_down-All P (t ∷ ts) (p, all) =
    insert_text-All P t (sorted_down ts) p (sorted_down-All P ts all)

pub sorted_down-Any : (P : Text → Type 0) (ts : List Text) → Any P ts → Any P (sorted_down ts)
unfolding sorted_down
sorted_down-Any P [] h = h
sorted_down-Any P (t ∷ ts) (inl p) = insert_text-Any P t (sorted_down ts) (inl p)
sorted_down-Any P (t ∷ ts) (inr a) =
    insert_text-Any P t (sorted_down ts) (inr (sorted_down-Any P ts a))

-- What holds of all the names holds of one of them.
pub All-at :
    (P : Text → Type 0) (name : Text) (ts : List Text) → Any (λ o. o ≡ name) ts → All P ts → P name
All-at P name [] member all = elim member [ ]
All-at P name (t ∷ ts) (inl same) (p, all) = subst P same p
All-at P name (t ∷ ts) (inr member) (p, all) = All-at P name ts member all

-- Among names from the greatest on, none of which is started by it.
sorted-Passing :
    (name : Text) (names : List Text)
    → Any (λ o. o ≡ name) names
    → SortedDown names
    → All (λ o. (o ≡ name) ⊎ (Starts name o → ⊥)) names
    → Passing name names
sorted-Passing name [] member sorted all = elim member [ ]
sorted-Passing name (o ∷ names) (inl same) sorted all = inl same
sorted-Passing name (o ∷ names) (inr member) sorted (inl same, all) = inl same
sorted-Passing name (o ∷ names) (inr member) (first, sorted) (inr longer, all) =
    let not_less = All-at (λ u. less_text o u ≡ false) name names member first in
    inr (
      (
        λ starts.
            absurd (cc (not_less, ap (less_text o) starts.3, less_started o starts.1 starts.0)),
        longer,
      ),
      sorted-Passing name names member sorted all,
    )

pub sorted_down-Passing :
    (name : Text) (names : List Text)
    → Any (λ o. o ≡ name) names
    → All (λ o. (o ≡ name) ⊎ (Starts name o → ⊥)) names
    → Passing name (sorted_down names)
sorted_down-Passing name names member all =
    sorted-Passing name (sorted_down names) (sorted_down-Any (λ o. o ≡ name) names member)
      (sorted_down-SortedDown names)
      (sorted_down-All (λ o. (o ≡ name) ⊎ (Starts name o → ⊥)) names all)
