-- ===== src/Compose/ParseInt.antt =====
-- `strconv.ParseInt(s, 10, 64)` of Go, as compose/service/output.go calls it: its error is ignored,
-- and what is returned with it is 0 for a text that is no number and the closest int64 for one that
-- is out of range.
use musicbox.Prelude.{
  ℕ, zero, suc, ◌≡◌, refl, sym, ap, ◌∙◌, ◌+◌, ◌-◌, ◌*◌, ◌/◌, ◌%◌, ◌^◌, ◌<◌, ◌≤◌, true, false, ◌&&◌,
  Option, none, some, [], ◌∷◌, ◌++◌, ltb, leb, ◌==◌, if◌then◌else◌, arith, Bool-cases, inl, inr,
}
use mathlib.Core.List.{append_assoc, append-nil}
use native.Mathlib.Omega.{pow_step}
use musicbox.Prelude.Signed.{ℤ, pos, negsuc}
use musicbox.Prelude.Anywhere.{Text}
use musicbox.Fsutil.OpenRandom.{decimal}

-- The digits, read from the left; one more digit than 64 bits hold ends the reading at the largest
-- number, whatever follows.
unfoldable pub parse_digits : Text → ℕ → Option ℕ
parse_digits [] n = some n
parse_digits (c ∷ s) n =
    let n' = n * 10 + (c - b'0') in
    let rest = parse_digits s n' in
    if leb b'0' c && leb c b'9' then (if ltb n' (2 ^ 64) then rest else some (2 ^ 64 - 1)) else none

-- `strconv.ParseUint`, where none is a syntax error.
parse_uint : Text → Option ℕ
unfolding parse_digits
parse_uint [] = none
parse_uint (c ∷ s) = parse_digits (c ∷ s) 0

positive : Option ℕ → ℤ
positive none = pos 0
positive (some n) = pos (if ltb n (2 ^ 63) then n else 2 ^ 63 - 1)

negated : ℕ → ℤ
negated zero = pos 0
negated (suc n) = negsuc n

negative : Option ℕ → ℤ
unfolding negated
negative none = pos 0
negative (some n) = negated (if ltb (2 ^ 63) n then 2 ^ 63 else n)

unfoldable pub parse_int : Text → ℤ
unfolding parse_uint positive negative
parse_int [] = pos 0
parse_int (c ∷ s) =
    if c == b'-'
    then negative (parse_uint s)
    else positive (parse_uint (if c == b'+' then s else c ∷ s))

digit_step :
    (d m n : ℕ) (s : Text)
    → d < 10
    → m * 10 + d ≡ n
    → n < 2 ^ 63
    → parse_digits ((b'0' + d) ∷ s) m ≡ parse_digits s n
unfolding parse_digits
digit_step d m n s h whole fits =
    let low : leb b'0' (b'0' + d) ≡ true = ground arith in
    let high : leb (b'0' + d) b'9' ≡ true = ground arith in
    let e : m * 10 + (b'0' + d - b'0') ≡ n = omega arith in
    let small : ltb n (2 ^ 64) ≡ true = ground arith in rw (e, low, high, small)

-- The digits that `decimal` prints are read back, and what follows them is read on.
parse_digits-decimal :
    (fuel n : ℕ) (s : Text)
    → n < 10 ^ fuel
    → n < 2 ^ 63
    → 0 < fuel
    → parse_digits (decimal fuel n ++ s) 0 ≡ parse_digits s n
unfolding decimal
parse_digits-decimal zero n s small fits h = absurd (omega arith)
parse_digits-decimal (suc zero) n s small fits h =
    let e : ltb n 10 ≡ true = ground arith in
    rw e (digit_step n 0 n s (omega arith) (omega arith) fits)
parse_digits-decimal (suc (suc fuel)) n s small fits h = elim (Bool-cases (ltb n 10)) [
  | inl e ↦ rw e (digit_step n 0 n s (ground arith) (omega arith) fits)
  | inr e ↦
      rw
        (
          e,
          append_assoc (decimal (suc fuel) (n / 10)) ((b'0' + n % 10) ∷ []) s,
          parse_digits-decimal (suc fuel) (n / 10) ((b'0' + n % 10) ∷ s)
              (omega (arith, pow_step 10 (suc fuel))) (omega arith) (omega arith),
        )
        (digit_step (n % 10) (n / 10) n s (omega arith) (omega arith) fits)
]

-- A printed number starts with a digit.
decimal_starts : (fuel n : ℕ) → (c : ℕ) × (s : Text) × (b'0' ≤ c) × (decimal (suc fuel) n ≡ c ∷ s)
unfolding decimal
decimal_starts zero n = elim (Bool-cases (ltb n 10)) [
  | inl e ↦ (b'0' + n, [], omega arith, rw e refl)
  | inr e ↦ (b'0' + n % 10, [], omega arith, rw e refl)
]
decimal_starts (suc fuel) n = elim (Bool-cases (ltb n 10)) [
  | inl e ↦ (b'0' + n, [], omega arith, rw e refl)
  | inr e ↦
      let (c, s, digit, starts) = decimal_starts fuel (n / 10) in
      (c, s ++ ((b'0' + n % 10) ∷ []), digit, rw (e, starts) refl)
]

parse_int_digit :
    (c : ℕ) (s : Text) (n : ℕ)
    → b'0' ≤ c
    → n < 2 ^ 63
    → parse_digits (c ∷ s) 0 ≡ some n
    → parse_int (c ∷ s) ≡ pos n
unfolding parse_int
parse_int_digit c s n digit fits h =
    let minus : (c == b'-') ≡ false = ground arith in
    let plus : (c == b'+') ≡ false = ground arith in
    let small : ltb n (2 ^ 63) ≡ true = ground arith in rw (minus, plus, h, small)

parse_digits_all : (n : ℕ) → n < 2 ^ 63 → parse_digits (decimal 19 n) 0 ≡ some n
unfolding parse_digits
parse_digits_all n h =
    ap (λ t. parse_digits t 0) (sym (append-nil (decimal 19 n)))
    ∙ parse_digits-decimal 19 n [] (omega arith) h (omega arith)

-- An int64 that is not negative has at most nineteen digits, and is read back as printed.
pub parse_int-decimal : (n : ℕ) → n < 2 ^ 63 → parse_int (decimal 19 n) ≡ pos n
parse_int-decimal n h =
    let (c, s, digit, starts) = decimal_starts 18 n in
    rw starts (
      parse_int_digit c s n digit h
        (ap (λ t. parse_digits t 0) (sym starts) ∙ parse_digits_all n h))
