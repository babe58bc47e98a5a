-- ===== src/Stream/Io.antt =====
-- What stream/*.go takes from Go's package io: errors, and readers at an offset.
use Prim.Native.String.{String}
use musicbox.Prelude.{ℕ, List, Option}

-- `wrap m e` is `fmt.Errorf("m: %w", e)`: it is not `==` to `e`, and `errors.Is` finds `e` in it.
pub data Error : Type 0 where
  eof unexpected_eof invalid_size bad_whence bad_offset : Error
  other : ℕ → Error
  wrap : String → Error → Error

-- What a read of a slice of some length returns: the `n` bytes that it wrote, and its error.
abbrev pub ReadResult : Type 0
ReadResult = List ℕ × Option Error

-- `io.ReaderAt` by its result at a slice length and an offset.
abbrev pub ReaderAt : Type 0
ReaderAt = ℕ → ℕ → ReadResult
