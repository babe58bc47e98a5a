-- ===== src/Stream/Cancellable.antt =====
-- stream/cancellable.go: a reader that stops for good at its first error, or when its context is
-- cancelled. `S` is the state of the underlying reader and `read_inner` its Read; the answer of
-- `ctx.Err()` is given call by call.
use musicbox.Prelude.{ℕ, ◌≡◌, refl, Option, none, some, List, [], ◌∷◌, map, arith}
use musicbox.Stream.Io.{Error, ReadResult}

pub record Cancellable {ℓ} (S : Type ℓ) : Type ℓ where
  pub r : S
  pub err : Option Error

module _ {S : Type 0} (read_inner : S → ℕ → ReadResult × S) where
  -- `NewCancellable`
  unfoldable pub new_cancellable : S → Cancellable S
  new_cancellable r = record { r = r; err = none }

  -- The call of the underlying reader, and its error stored.
  read_through : Cancellable S → ℕ → ReadResult × Cancellable S
  read_through c n =
      let (got, r') = read_inner c.r n in
      elim got.1 [
        | none ↦ (got, record c { r = r' })
        | some e ↦ (got, record { r = r'; err = some e })
      ]

  unfoldable pub read : Cancellable S → Option Error → ℕ → ReadResult × Cancellable S
  unfolding read_through
  read c ctx_err n = elim c.err [
    | some e ↦ (([], some e), c)
    | none ↦ elim ctx_err [
      | some e ↦ (([], some e), record c { err = some e })
      | none ↦ read_through c n
    ]
  ]

  -- A client's calls in order: what `ctx.Err()` says at each, and the length of its slice.
  pub run : Cancellable S → List (Option Error × ℕ) → List ReadResult × Cancellable S
  run c [] = ([], c)
  run c ((ctx_err, n) ∷ calls) =
      let (got, c') = read c ctx_err n in let (rest, c'') = run c' calls in (got ∷ rest, c'')

  run_stopped :
      (c : Cancellable S) (e : Error) (calls : List (Option Error × ℕ))
      → c.err ≡ some e
      → run c calls ≡ (map (λ _. ([], some e)) calls, c)
  unfolding run read
  run_stopped c e [] h = refl
  run_stopped c e ((ctx_err, n) ∷ calls) h = ground (arith, run_stopped c e calls h)

  err-read :
      (c : Cancellable S) (ctx_err : Option Error) (n : ℕ) (e : Error)
      → (read c ctx_err n).0.1 ≡ some e
      → (read c ctx_err n).1.err ≡ some e
  unfolding read
  err-read c ctx_err n e h = ground arith

  -- After a Read that returned an error, every later Read returns no bytes and the same error,
  -- whatever the context says, and the underlying reader is left alone.
  pub run-read_failed :
      (c : Cancellable S) (ctx_err : Option Error) (n : ℕ) (e : Error)
      (calls : List (Option Error × ℕ))
      → (read c ctx_err n).0.1 ≡ some e
      → run (read c ctx_err n).1 calls ≡ (map (λ _. ([], some e)) calls, (read c ctx_err n).1)
  run-read_failed c ctx_err n e calls h =
      run_stopped (read c ctx_err n).1 e calls (err-read c ctx_err n e h)
