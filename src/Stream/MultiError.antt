-- ===== src/Stream/MultiError.antt =====
-- stream/multi_error.go: errors joined into one, and how they print.
use Prim.Native.Char.{code}
use mathlib.Core.List.{append_assoc}
use musicbox.Prelude.Codes.{codes}
use musicbox.Prelude.Signed.{ℤ}
use musicbox.Prelude.{
  ℕ, ◌-◌, ◌≡◌, ◌↔◌, refl, ap, ◌∙◌, Bool, false, Option, none, some, List, [], ◌∷◌, ◌++◌, arith,
  if◌then◌else◌, length, take, length-append, take-append_le, take_all,
}

module _ {ℓ} {E : Type ℓ} where
  -- The loop of `NewMultiError`; `none` is the nil error.
  unfoldable pub non_nil : List (Option E) → List E
  non_nil [] = []
  non_nil (none ∷ errs) = non_nil errs
  non_nil (some e ∷ errs) = e ∷ non_nil errs

  -- A `multiError` is the list of its errors; `none` is a nil result.
  unfoldable pub new_multi_error : List (Option E) → Option (List E)
  unfolding non_nil
  new_multi_error errs = elim (non_nil errs) [ [] ↦ none | e ∷ es ↦ some (e ∷ es) ]

  abbrev pub AllNil : List (Option E) → Type ℓ
  AllNil [] = Unit
  AllNil (e ∷ errs) = (e ≡ none) × AllNil errs

  non_nil-eq-nil : (errs : List (Option E)) → AllNil errs → non_nil errs ≡ []
  unfolding non_nil
  non_nil-eq-nil [] h = refl
  non_nil-eq-nil (none ∷ errs) h = non_nil-eq-nil errs h.1
  non_nil-eq-nil (some e ∷ errs) h = cc (h.0)

  nil-of-non_nil : (errs : List (Option E)) → non_nil errs ≡ [] → AllNil errs
  unfolding non_nil
  nil-of-non_nil [] h = tt
  nil-of-non_nil (none ∷ errs) h = (refl, nil-of-non_nil errs h)
  nil-of-non_nil (some e ∷ errs) h = cc

  new_multi_error-nil : (errs : List (Option E)) → non_nil errs ≡ [] → new_multi_error errs ≡ none
  unfolding new_multi_error
  new_multi_error-nil errs h = ground arith

  nil-of-new_multi_error :
      (errs : List (Option E)) → new_multi_error errs ≡ none → non_nil errs ≡ []
  unfolding new_multi_error
  nil-of-new_multi_error errs h = ground arith

  -- The joined error is nil exactly if every error is.
  pub new_multi_error-none_iff :
      (errs : List (Option E)) → (new_multi_error errs ≡ none) ↔ AllNil errs
  new_multi_error-none_iff errs = (
    λ h. nil-of-non_nil errs (nil-of-new_multi_error errs h),
    λ h. new_multi_error-nil errs (non_nil-eq-nil errs h),
  )

-- `str`: `print` is `fmt.Fprintf(buf, verb, e)`, the bytes that it writes.
module _ {ℓ} {E : Type ℓ} (print : E → List ℕ) where
  -- The loop over the errors, on the buffer.
  write_errors : List ℕ → List E → List ℕ
  write_errors buf [] = buf
  write_errors buf (e ∷ es) = write_errors ((buf ++ print e) ++ codes ", ") es

  -- `buf.Truncate(buf.Len() - 2)` at the end.
  pub str : List E → List ℕ
  unfolding write_errors
  str [] = codes "MultiError: "
  str (e ∷ es) = let buf = write_errors (codes "MultiError: ") (e ∷ es) in take (length buf - 2) buf

  -- The texts with a comma and a blank between two, and nothing behind the last.
  pub commas : List E → List ℕ
  commas [] = []
  commas (e ∷ []) = print e
  commas (e ∷ e' ∷ es) = print e ++ (codes ", " ++ commas (e' ∷ es))

  write_errors-eq :
      (buf : List ℕ) (e : E) (es : List E)
      → write_errors buf (e ∷ es) ≡ (buf ++ commas (e ∷ es)) ++ codes ", "
  unfolding write_errors commas
  write_errors-eq buf e [] = refl
  write_errors-eq buf e (e' ∷ es) =
      write_errors-eq ((buf ++ print e) ++ codes ", ") e' es
      ∙ ap (λ b. b ++ codes ", ")
          (append_assoc (buf ++ print e) (codes ", ") _ ∙ append_assoc buf (print e) _)

  truncate_two : (b c : List ℕ) → length c ≡ 2 → take (length (b ++ c) - 2) (b ++ c) ≡ b
  truncate_two b c h =
      ap (λ k. take k (b ++ c)) (omega (arith, length-append b c, h))
      ∙ take-append_le (length b) b c (omega arith)
      ∙ take_all (length b) b (omega arith)

  -- A joined error prints as "MultiError: " and its errors' texts, separated by ", ".
  pub str-eq-commas : (me : List E) → str me ≡ codes "MultiError: " ++ commas me
  unfolding str commas
  str-eq-commas [] = refl
  str-eq-commas (e ∷ es) =
      ap (λ b. take (length b - 2) b) (write_errors-eq (codes "MultiError: ") e es)
      ∙ truncate_two (codes "MultiError: " ++ commas (e ∷ es)) (codes ", ") refl

-- What `Format` reads of a `fmt.State`; `width` and `precision` are there only if they are set.
pub record FormatState : Type 0 where
  pub flag : ℕ → Bool
  pub width : Option ℤ
  pub precision : Option ℤ

-- The loop over the flags.
write_flags : (ℕ → Bool) → List ℕ → List ℕ
write_flags flag [] = []
write_flags flag (f ∷ fs) = let rest = write_flags flag fs in if flag f then f ∷ rest else rest

module _ {ℓ} {E : Type ℓ} (print : List ℕ → E → List ℕ) (format_int : ℤ → List ℕ) where
  -- The verb with the flags, the width and the precision that were asked for.
  pub verb_of : FormatState → List ℕ → List ℕ
  unfolding write_flags
  verb_of state verb =
      codes "%"
      ++ (write_flags state.flag (codes "-+# 0")
          ++ ((elim state.width [ none ↦ [] | some wid ↦ format_int wid ])
              ++ ((elim state.precision [ none ↦ [] | some prec ↦ codes "." ++ format_int prec ])
                  ++ verb)))

  -- `Format` writes what `str` gives for that verb.
  pub format : FormatState → List ℕ → List E → List ℕ
  unfolding verb_of
  format state verb me = str (print (verb_of state verb)) me

  -- `Error`
  pub error : List E → List ℕ
  error me = str (print (codes "%s")) me

  -- With no flag, width or precision, formatting by %s gives what `Error` gives.
  pub format_plain :
      (state : FormatState) (me : List E)
      → ((f : ℕ) → state.flag f ≡ false)
      → state.width ≡ none
      → state.precision ≡ none
      → format state (codes "s") me ≡ error me
  unfolding format error
  format_plain state me f w p =
      rw (w, p, f (code "-"), f (code "+"), f (code "#"), f (code " "), f (code "0"))
