-- ===== src/Storage/SplittingStorage/Counts.antt =====
-- What the counting readers of a splitting storage have counted and hashed.
use mathlib.Core.Path.{ap₂}
use mathlib.Core.List.{append_assoc}
use musicbox.Prelude.{
  ℕ, suc, ◌+◌, ◌≡◌, ◌<◌, refl, sym, ap, ◌∙◌, Option, List, [], ◌∷◌, ◌++◌, arith, length,
  length-append,
}
use musicbox.Prelude.Int64
use musicbox.Fsutil.Fs.{FilePath}
use musicbox.Fsutil.Path.{clean}
use musicbox.Stream.Reader.{Reader, Reads, Streams, Drains, stop, more}
use musicbox.Storage.Splitter.{Counted, counted_read}
use musicbox.Storage.Splitter.Pieces.{PieceLeft, piece-Streams, counted-Streams}
use musicbox.Storage.WriteSplitting.{SafeWrite}
use musicbox.Storage.WriteSplitting.Files.{Stores, Parts, FromPieces, names}
use musicbox.Storage.SplittingStorage.{
  SplittedDataSet, HashAlgo, trap, trapped_piece, data_set_read, paths_of, hash_of,
  map_to_splitted_file_hash,
}

-- What was counted and hashed, and what is left, are `all`.
pub record CountedTo {S : Type 0} (Left : S → List ℕ → Type 0) (all : List ℕ) (k : Counted S)
    (c : List ℕ) : Type 0 where
  pub left : Left k.inner c
  pub hashed_so_far : k.hashed ++ c ≡ all
  pub counted : k.count ≡ length k.hashed

module _ {S : Type 0} (read_inner : Reader S) {Left : S → List ℕ → Type 0} where
  counted_lem :
      (all : List ℕ) (k : Counted S) (c : List ℕ) (n : ℕ)
      → Streams read_inner Left
      → length all < Int64.sign_bit
      → CountedTo Left all k c
      → 0 < n
      → Reads (CountedTo Left all) n c (counted_read read_inner k n)
  unfolding counted_read
  counted_lem all k c n h small l pos =
      let r = h.at k.inner c n l.left pos in
      let bytes = (read_inner k.inner n).0.0 in
      let whole : (k.hashed ++ bytes) ++ r.rest ≡ all =
        append_assoc k.hashed bytes r.rest ∙ ap (λ d. k.hashed ++ d) r.split ∙ l.hashed_so_far in
      let fits : length k.hashed + length bytes < Int64.sign_bit = omega (
        arith,
        small,
        ap length whole,
        length-append (k.hashed ++ bytes) r.rest,
        length-append k.hashed bytes,
      ) in
      record {
        rest = r.rest;
        split = r.split;
        bound = r.bound;
        left = record {
          left = r.left;
          hashed_so_far = whole;
          counted =
              ap (λ m. Int64.add m (length bytes)) l.counted
              ∙ Int64.add_small (length k.hashed) (length bytes) fits
              ∙ sym (length-append k.hashed bytes);
        };
        ends = r.ends;
      }

  pub counted-to-Streams :
      (all : List ℕ)
      → Streams read_inner Left
      → length all < Int64.sign_bit
      → Streams (counted_read read_inner) (CountedTo Left all)
  counted-to-Streams all h small = record {
    at = λ k c n l pos. counted_lem all k c n h small l pos;
  }

  data_set_lem :
      (all tail : List ℕ) (t : SplittedDataSet S) (c : List ℕ) (n : ℕ)
      → Streams (counted_read read_inner) (CountedTo Left all)
      → PieceLeft (CountedTo Left all) tail (trapped_piece t) c
      → 0 < n
      → Reads
          (λ s d. PieceLeft (CountedTo Left all) tail (trapped_piece s) d)
          n
          c
          (data_set_read read_inner t n)
  unfolding data_set_read
  data_set_lem all tail t c n h l pos =
      let r = (counted-Streams (piece-Streams tail h)).at t.counted c n l pos in
      record { rest = r.rest; split = r.split; bound = r.bound; left = r.left; ends = r.ends }

  pub data_set-Streams :
      (all tail : List ℕ)
      → Streams (counted_read read_inner) (CountedTo Left all)
      → Streams
          (data_set_read read_inner)
          (λ t c. PieceLeft (CountedTo Left all) tail (trapped_piece t) c)
  data_set-Streams all tail h = record { at = λ t c n l pos. data_set_lem all tail t c n h l pos }

  -- The trapper of a splitting storage reads what the pieces read.
  pub storage-Parts :
      {W : Type 0} (all : List ℕ) (safe_write : SafeWrite (SplittedDataSet S) W)
      (file : W → FilePath → Option (List ℕ)) (Good : FilePath → Type 0)
      → Streams read_inner Left
      → length all < Int64.sign_bit
      → ((tail : List ℕ)
          → Stores
              (data_set_read read_inner)
              safe_write
              file
              Good
              (λ t c. PieceLeft (CountedTo Left all) tail (trapped_piece t) c))
      → Parts
          (counted_read read_inner)
          (CountedTo Left all)
          trap
          trapped_piece
          (data_set_read read_inner)
          safe_write
          file
          Good
  storage-Parts all safe_write file Good h small stores =
      let streams = counted-to-Streams all h small in
      record {
        streams = streams;
        trapped = λ tail. data_set-Streams all tail streams;
        wrapped = λ p piece. refl;
        stores = stores;
      }

module _ {S : Type 0} (read_inner : Reader S) where
  -- Reading keeps a set's path.
  drained_path :
      {t t' : SplittedDataSet S} {c : List ℕ}
      → Drains (data_set_read read_inner) t c t'
      → t'.path ≡ t.path
  unfolding data_set_read
  drained_path (stop n pos end e e') = ap (λ s. s.path) (sym e')
  drained_path (more n pos ok rest e) = drained_path rest

  -- The metadata lists the names that were written.
  pub paths_of_sets :
      (algo : HashAlgo) (name : ℕ → FilePath) (i : ℕ) (cs : List (List ℕ))
      (sets : List (SplittedDataSet S))
      → ((j : ℕ) → clean (name j) ≡ name j)
      → FromPieces (data_set_read read_inner) trap name i cs sets
      → paths_of (map_to_splitted_file_hash algo sets) ≡ names name i (length cs)
  unfolding map_to_splitted_file_hash hash_of
  paths_of_sets algo name i [] [] settled f = refl
  paths_of_sets algo name i [] (t ∷ sets) settled f = absurd f
  paths_of_sets algo name i (c ∷ cs) [] settled f = absurd f
  paths_of_sets algo name i (c ∷ cs) (t ∷ sets) settled ((piece, drains), f) =
      ap₂ (λ p ps. p ∷ ps) (drained_path drains ∙ settled i)
        (paths_of_sets algo name (suc i) cs sets settled f)
