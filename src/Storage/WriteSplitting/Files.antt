-- ===== src/Storage/WriteSplitting/Files.antt =====
-- The files that WriteSplitting makes.
use musicbox.Prelude.{
  ℕ, zero, suc, ◌≡◌, ◌≢◌, ◌≤◌, ◌<◌, refl, ap, ◌∙◌, none, some, Option, List, [], ◌∷◌, ◌++◌, arith,
  length, length-drop, take, drop, take-append-drop,
}
use musicbox.Prelude.Int64
use musicbox.Fsutil.Fs.{FilePath}
use musicbox.Fsutil.Path.{clean}
use musicbox.Stream.Reader.{Reader, Streams, Drains, drained}
use musicbox.Stream.SizedReaders.Contents.{joined}
use musicbox.Storage.Splitter.{FusedReader, Splitter, Piece}
use musicbox.Storage.Splitter.Pieces.{FusedLeft, PieceLeft}
use musicbox.Storage.WriteSplitting.{Outcome, finished, SafeWrite}

-- A text cut into parts of a size, the last one perhaps shorter.
abbrev pub parts : ℕ → ℕ → List ℕ → List (List ℕ)
parts zero size c = []
parts (suc fuel) size [] = []
parts (suc fuel) size (b ∷ c) = take size (b ∷ c) ∷ parts fuel size (drop size (b ∷ c))

-- Joined again the parts are the text.
pub joined-parts :
    (fuel size : ℕ) (c : List ℕ) → 0 < size → length c < fuel → joined (parts fuel size c) ≡ c
joined-parts zero size c pos h = absurd (omega arith)
joined-parts (suc fuel) size [] pos h = refl
joined-parts (suc fuel) size (b ∷ c) pos h =
    ap (λ d. take size (b ∷ c) ++ d)
      (joined-parts fuel size (drop size (b ∷ c)) pos (omega (arith, length-drop size (b ∷ c))))
    ∙ take-append-drop size (b ∷ c)

-- The names from index `i` on.
abbrev pub names : (ℕ → FilePath) → ℕ → ℕ → List FilePath
names name i zero = []
names name i (suc n) = name i ∷ names name (suc i) n

-- The files hold the contents, one for one.
abbrev pub Holds : (FilePath → Option (List ℕ)) → List FilePath → List (List ℕ) → Type 0
Holds file [] [] = Unit {0}
Holds file [] (c ∷ cs) = ⊥
Holds file (p ∷ ps) [] = ⊥
Holds file (p ∷ ps) (c ∷ cs) = (file p ≡ some c) × Holds file ps cs

-- `Good` says which names files may have, such as those that a SafeWrite does not change and that are
-- not those of its temporary files.
module _ {T W : Type 0} (read_t : Reader T) (safe_write : SafeWrite T W)
    (file : W → FilePath → Option (List ℕ)) (Good : FilePath → Type 0) where
  -- SafeWrite has read the reader to its end and stored what it read, and no other good name is changed.
  pub record StoredAs (p : FilePath) (t : T) (w : W) (t' : T) (w' : W) : Type 0 where
    pub bytes : List ℕ
    pub drained : Drains read_t t bytes t'
    pub here : file w' p ≡ some bytes
    pub elsewhere : (q : FilePath) → Good q → q ≢ p → file w' q ≡ file w q

  -- SafeWrite stores every reader that has contents left, under every good name.
  pub record Stores (Left : T → List ℕ → Type 0) : Type 0 where
    pub at :
        (p : FilePath) (t : T) (w : W) (c : List ℕ)
        → Good p
        → Left t c
        → ((safe_write p t w).0 ≡ none)
          × StoredAs p t w (safe_write p t w).1.0 (safe_write p t w).1.1

-- The sets are the readers that the trapper made for the names from `i` on, and reading them to their
-- ends returned the contents.
abbrev pub FromPieces :
    {S T : Type 0}
    → Reader T
    → (FilePath → Piece S → T)
    → (ℕ → FilePath)
    → ℕ
    → List (List ℕ)
    → List T
    → Type 0
FromPieces read_t wrap name i [] [] = Unit {0}
FromPieces read_t wrap name i [] (t ∷ ts) = ⊥
FromPieces read_t wrap name i (c ∷ cs) [] = ⊥
FromPieces {S} read_t wrap name i (c ∷ cs) (t ∷ ts) =
    ((piece : Piece S) × Drains read_t (wrap (name i) piece) c t)
    × FromPieces read_t wrap name (suc i) cs ts

-- What WriteSplitting is given: a reader, a trapper that reads what the pieces read, and a SafeWrite
-- that stores.
pub record Parts {S T W : Type 0} (read : Reader S) (Left : S → List ℕ → Type 0)
    (wrap : FilePath → Piece S → T) (inner : T → Piece S) (read_t : Reader T)
    (safe_write : SafeWrite T W) (file : W → FilePath → Option (List ℕ)) (Good : FilePath → Type 0)
    : Type 0 where
  pub streams : Streams read Left
  pub trapped : (tail : List ℕ) → Streams read_t (λ t c. PieceLeft Left tail (inner t) c)
  pub wrapped : (p : FilePath) (piece : Piece S) → inner (wrap p piece) ≡ piece
  pub stores :
      (tail : List ℕ) → Stores read_t safe_write file Good (λ t c. PieceLeft Left tail (inner t) c)

abbrev pub Distinct : (ℕ → FilePath) → Type 0
Distinct name = (i j : ℕ) → name i ≡ name j → i ≡ j

-- All the seen names have smaller indices.
abbrev SeenBelow : (ℕ → FilePath) → ℕ → List FilePath → Type 0
SeenBelow name i [] = Unit {0}
SeenBelow name i (p ∷ seen) = ((j : ℕ) × (j < i) × (p ≡ name j)) × SeenBelow name i seen

-- The outcome from index `i` on: the files `name i` and so on hold the contents `cs`, those of other good
-- names are as they were.
pub record Written {S T W : Type 0} (Left : S → List ℕ → Type 0) (wrap : FilePath → Piece S → T)
    (read_t : Reader T) (file : W → FilePath → Option (List ℕ)) (Good : FilePath → Type 0)
    (name : ℕ → FilePath) (i : ℕ) (cs : List (List ℕ)) (w : W) (out : Outcome S T W) : Type 0 where
  pub sets : List T
  pub reader : FusedReader S
  pub world : W
  pub is : out ≡ finished (names name i (length cs)) none sets reader world
  pub at_end : FusedLeft Left reader []
  pub holds : Holds (file world) (names name i (length cs)) cs
  pub kept : (q : FilePath) → Good q → ((j : ℕ) → i ≤ j → q ≢ name j) → file world q ≡ file w q
  pub from : FromPieces read_t wrap name i cs sets

abbrev pub name_at : (FilePath → ℕ → FilePath) → FilePath → ℕ → FilePath
name_at modifier path i = clean (modifier path i)
