-- ===== src/Stream/MultiReadAt/Serve.antt =====
-- One call of an underlying reader, as `readAt` and `Read` make it.
use musicbox.Prelude.{
  ℕ, ◌+◌, ◌-◌, ◌≤◌, ◌<◌, min, ◌≡◌, sym, ap, ◌∙◌, Bool, false, Option, none, some, List, ◌++◌, ◌⊎◌,
  inl, inr, arith, lt→ltb, ltb, if◌then◌else◌, length, take, drop, length-append, length-take,
  length-drop, take-length-take,
}
use musicbox.Prelude.Int64
use musicbox.Stream.Io.{Error, eof, ReadResult}
use musicbox.Stream.SizedReaders.{TranslatedReaderAt}
use musicbox.Stream.SizedReaders.Chain.{Chain, skip}
use musicbox.Stream.SizedReaders.Contents.{joined, Translated, Located}
use musicbox.Stream.MultiReadAt.{MultiReadAtSeekCloser, is_failure, settle}

settle_lem :
    (rem : ℕ) (more : Bool) (bytes : List ℕ) (err : Option Error)
    → length bytes ≤ rem
    → rem < Int64.sign_bit
    → 0 < rem
    → (err ≡ none) ⊎ ((err ≡ some eof) × (length bytes ≡ rem))
    → settle rem more (bytes, err) ≡ (bytes, (if more then none else err))
unfolding settle Int64.lt
settle_lem rem more bytes none h k l e = ground arith
settle_lem rem more bytes (some eof) h k l e = ground arith
settle_lem rem more bytes (some x) h k l e = ground arith

-- What a served read of `n` bytes at `off` owes to the whole content: it returns a prefix of what is
-- left, at least one byte of it if one was asked for, and io.EOF only at the end.
pub record Serves (n off : ℕ) (all : List ℕ) (got : ReadResult) : Type 0 where
  pub prefix : got.0 ≡ take (length got.0) (drop off all)
  pub bound : length got.0 ≤ n
  pub within : off + length got.0 ≤ length all
  pub progress : 0 < n → 0 < length got.0
  pub ends : (got.1 ≡ none) ⊎ ((got.1 ≡ some eof) × (off + length got.0 ≡ length all))

module _ (n off : ℕ) (cs : List (List ℕ)) (xs : List TranslatedReaderAt)
    (l : Located 0 off cs xs) where
  unfoldable pub got : ReadResult
  got = l.reader.sized.r n (off - l.reader.accum)

  pub no_failure : is_failure got.1 ≡ false
  unfolding got is_failure
  no_failure = ground (arith, l.reads.ends n (off - l.reader.accum), l.sized, l.until, l.from)

  pub length-got : length got.0 ≡ min n (l.reader.accum + l.reader.size - off)
  unfolding got
  length-got =
      ap length (l.reads.bytes n (off - l.reader.accum) (omega (arith, l.sized, l.until, l.from)))
      ∙ omega (
        arith,
        length-take n (drop (off - l.reader.accum) l.content),
        length-drop (off - l.reader.accum) l.content,
        l.sized,
        l.until,
        l.from,
      )

  pub eof_at_end :
      (got.1 ≡ none) ⊎ ((got.1 ≡ some eof) × (length got.0 ≡ l.reader.accum + l.reader.size - off))
  unfolding got
  eof_at_end =
      elim (l.reads.ends n (off - l.reader.accum) (omega (arith, l.sized, l.until, l.from))) [
        | inl none_yet ↦ inl none_yet
        | inr ended ↦ inr (
          ended,
          ground (
            arith,
            length-got,
            ended,
            l.reads.inside n (off - l.reader.accum),
            l.sized,
            l.until,
            l.from,
          ),
        )
      ]

  rest_of_all : drop off (joined cs) ≡ drop (off - l.reader.accum) l.content ++ l.rest
  rest_of_all = let e : off - 0 ≡ off = omega arith in rw e at l.goes_on

  length-rest_of_all :
      off ≤ length (joined cs) → length (joined cs) ≡ l.reader.accum + l.reader.size + length l.rest
  length-rest_of_all h = omega (
    arith,
    ap length rest_of_all,
    length-drop off (joined cs),
    length-append (drop (off - l.reader.accum) l.content) l.rest,
    length-drop (off - l.reader.accum) l.content,
    l.sized,
    l.until,
    l.from,
  )

  -- `settle` passes the bytes on, and drops an io.EOF that is not the last reader's.
  pub settle-got :
      (more : Bool)
      → l.reader.accum + l.reader.size < Int64.sign_bit
      → settle (Int64.sub l.reader.size (off - l.reader.accum)) more got
        ≡ (got.0, (if more then none else got.1))
  settle-got more small =
      let rem : Int64.sub l.reader.size (off - l.reader.accum)
          ≡ l.reader.accum + l.reader.size - off =
        Int64.sub_small l.reader.size (off - l.reader.accum) (omega (arith, l.until, l.from))
          (omega (arith, l.from))
        ∙ omega (arith, l.until, l.from) in
      rw rem (
        settle_lem _ more got.0 got.1 (omega (arith, length-got)) (omega (arith))
          (omega (arith, l.until)) eof_at_end)

  -- A reader that is the last one ends where the whole ends.
  ends_when :
      off ≤ length (joined cs)
      → ((if ltb (skip off xs) (length xs - 1) then none else got.1) ≡ none)
        ⊎ (((if ltb (skip off xs) (length xs - 1) then none else got.1) ≡ some eof)
            × (off + length got.0 ≡ length (joined cs)))
  ends_when h = elim l.last [
    | inl more ↦ inl (rw (lt→ltb (skip off xs) (length xs - 1) (omega arith)))
    | inr done ↦ ground (arith, eof_at_end, length-rest_of_all h, l.until, ap (length {A = ℕ}) done)
  ]

  pub Serves-got :
      off ≤ length (joined cs)
      → Serves n off
          (joined cs)
          (got.0, (if ltb (skip off xs) (length xs - 1) then none else got.1))
  unfolding got
  Serves-got h = record {
    prefix =
        rw
          (
            rest_of_all,
            l.reads.bytes n (off - l.reader.accum) (omega (arith, l.sized, l.until, l.from)),
          )
          (sym (take-length-take n (drop (off - l.reader.accum) l.content) l.rest));
    bound = omega (arith, length-got);
    within = omega (arith, length-got, length-rest_of_all h, l.until);
    progress = λ pos. omega (arith, length-got, l.until);
    ends = ends_when h;
  }

-- The readers hold `cs`, lie end to end from 0, and the limit is the length of the whole.
pub record IsJoined (cs : List (List ℕ)) (m : MultiReadAtSeekCloser) : Type 0 where
  pub chain : Chain 0 m.r
  pub contents : Translated cs m.r
  pub limit : m.upper_limit ≡ length (joined cs)
  pub small : length (joined cs) < Int64.sign_bit
