-- ===== src/Storage/Splitter.antt =====
-- storage/splitting.go: `fusedReader`, `splitter` and the readers that it hands out, and
-- `readSizeCounter`. A reader is a Read on its state `S`; the splitter and the reader it has handed
-- out share the fused reader, so the state of the last one is put back before the next one is made.
pub mod Pieces
pub mod Next
use musicbox.Prelude.{
  ℕ, ◌+◌, ◌-◌, min, Bool, true, false, ◌&&◌, Option, none, some, List, [], ◌∷◌, ◌++◌, ltb, ◌==◌,
  if◌then◌else◌, length, take, drop,
}
use musicbox.Prelude.Int64
use musicbox.Stream.Io.{Error, eof, wrap, ReadResult}
use musicbox.Stream.Reader.{Reader}

pub record FusedReader (S : Type 0) : Type 0 where
  pub r : S
  pub err : Option Error

is_wrapped_eof : Error → Bool
is_wrapped_eof eof = true
is_wrapped_eof (wrap m e) = is_wrapped_eof e
is_wrapped_eof _ = false

-- `errors.Is(err, io.EOF)`
unfoldable pub wraps_eof : Option Error → Bool
unfolding is_wrapped_eof
wraps_eof none = false
wraps_eof (some e) = is_wrapped_eof e

abbrev pub min_read_size : ℕ
min_read_size = 8192

pub record Splitter (S : Type 0) : Type 0 where
  pub r : FusedReader S
  pub size : ℕ

-- `io.LimitReader(io.MultiReader(bytes.NewReader(buf), s.r), int64(s.size))`: `limit` is what may
-- still be read, `buf` what was read ahead.
pub record Piece (S : Type 0) : Type 0 where
  pub limit : ℕ
  pub buf : List ℕ
  pub r : FusedReader S

-- A limit that is negative as an int64 is none at all.
abbrev as_limit : ℕ → ℕ
as_limit size = if ltb size Int64.sign_bit then size else 0

module _ {S : Type 0} (read_inner : Reader S) where
  -- `fusedReader.Read`: the first error is kept.
  unfoldable pub fused_read : Reader (FusedReader S)
  fused_read f n = elim f.err [
    | some e ↦ (([], some e), f)
    | none ↦ let (got, r') = read_inner f.r n in (got, record { r = r'; err = got.1 })
  ]

  -- `splitter.Next`
  unfoldable pub next : Splitter S → Option (Piece S) × Splitter S
  unfolding fused_read wraps_eof
  next s = elim s.r.err [
    | some e ↦ (none, s)
    | none ↦
        let ((buf, err), r') = fused_read s.r (min s.size min_read_size) in
        if length buf == 0 && wraps_eof err
        then (none, record s { r = r' })
        else (some (record { limit = as_limit s.size; buf = buf; r = r' }), record s { r = r' })
  ]

  -- Read of a piece. Of the two joined readers the first is the buffer, as long as it has bytes.
  unfoldable pub joined_read : Reader (List ℕ × FusedReader S)
  unfolding fused_read
  joined_read ([], f) n = let (got, f') = fused_read f n in (got, ([], f'))
  joined_read (b ∷ buf, f) n = ((take n (b ∷ buf), none), (drop n (b ∷ buf), f))

  unfoldable pub piece_read : Reader (Piece S)
  unfolding joined_read
  piece_read p n =
      let ((bytes, err), (buf, r)) = joined_read (p.buf, p.r) (min n p.limit) in
      if p.limit == 0
      then (([], some eof), p)
      else ((bytes, err), record { limit = p.limit - length bytes; buf = buf; r = r })

-- `io.TeeReader(r, h)` under a `readSizeCounter`: what was written to the hash, and the count.
pub record Counted (S : Type 0) : Type 0 where
  pub inner : S
  pub hashed : List ℕ
  pub count : ℕ

unfoldable pub counted_read : {S : Type 0} → Reader S → Reader (Counted S)
counted_read read c n =
    let ((bytes, err), inner) = read c.inner n in
    (
      (bytes, err),
      record {
        inner = inner;
        hashed = c.hashed ++ bytes;
        count = Int64.add c.count (length bytes);
      },
    )
