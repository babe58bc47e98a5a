-- ===== src/Storage/SplittingStorage/RoundTrip.antt =====
-- What a splitting storage has written is read back.
use mathlib.Core.Path.{subst}
use mathlib.Core.List.{append_assoc, append-nil}
use musicbox.Prelude.{ℕ, ◌≡◌, refl, sym, ap, ◌∙◌, Option, none, some, List, [], ◌∷◌, ◌++◌, length}
use musicbox.Prelude.Int64
use musicbox.Fsutil.Error.{Error}
use musicbox.Fsutil.Fs.{FilePath, Opened, opened}
use musicbox.Fsutil.Path.{clean}
use musicbox.Stream.Reader.{Reader, Drains}
use musicbox.Stream.MultiReader.{multi_read, EachLeft, MultiLeft}
use musicbox.Stream.SizedReaders.Contents.{joined}
use musicbox.Storage.WriteSplitting.Files.{Holds}
use musicbox.Storage.SplittingStorage.{
  SplittedFileHash, SplittedFileMetadata, meta_suffix, Backend, returned, WriteOutcome,
  joined_files, ReadOutcome, paths_of, open_files, after_close, read_parts, read_opened_meta, read,
}

module _ {W F R B : Type 0} (backend : Backend W F R B) (file : W → FilePath → Option (List ℕ))
    (Left : R → List ℕ → Type 0) (Good GoodMeta : FilePath → Type 0) where
  -- Metadata that was written under a good name is opened and decoded again, a file that is there is
  -- opened with its contents left to read, and none of this changes files of good names.
  pub record Faithful : Type 0 where
    pub saves :
        (p : FilePath) (m : SplittedFileMetadata) (w : W)
        → GoodMeta p
        → (backend.write_meta p (backend.marshal m) w).0 ≡ none
    pub finds :
        (p : FilePath) (m : SplittedFileMetadata) (w : W)
        → GoodMeta p
        → (f : F) × ((backend.open_meta p (backend.write_meta p (backend.marshal m) w).1).0
            ≡ (some f, none))
          × ((backend.decode_meta f
                (backend.open_meta p (backend.write_meta p (backend.marshal m) w).1).1).0
              ≡ opened m)
    pub opens :
        (p : FilePath) (w : W) (c : List ℕ)
        → file w p ≡ some c
        → (r : R) × ((backend.open_file p w).0 ≡ opened r) × Left r c
    pub write_meta_keeps :
        (p : FilePath) (b : B) (w : W) (q : FilePath)
        → GoodMeta p
        → Good q
        → file (backend.write_meta p b w).1 q ≡ file w q
    pub open_meta_keeps : (p : FilePath) (w : W) → file (backend.open_meta p w).1 ≡ file w
    pub decode_keeps : (f : F) (w : W) → file (backend.decode_meta f w).1 ≡ file w
    pub close_keeps : (f : F) (w : W) → file (backend.close_meta f w) ≡ file w
    pub open_file_keeps : (p : FilePath) (w : W) → file (backend.open_file p w).1 ≡ file w

  -- The files are opened, behind those that are open, with their contents left to read.
  record OpenedFiles (before : List R) (cs : List (List ℕ)) (size : ℕ) (out : ReadOutcome R W)
      : Type 0 where
    files : List R
    world : W
    is : out ≡ joined_files (before ++ files) size world
    left : EachLeft Left files cs

  open_files_lem :
      (before : List R) (splitted : List SplittedFileHash) (cs : List (List ℕ)) (size : ℕ) (w : W)
      → Faithful
      → Holds (file w) (paths_of splitted) cs
      → OpenedFiles before cs size (open_files backend before splitted size w)
  unfolding open_files
  open_files_lem before [] [] size w h holds = record {
    files = [];
    world = w;
    is = ap (λ rs. joined_files rs size w) (sym (append-nil before));
    left = tt;
  }
  open_files_lem before [] (c ∷ cs) size w h holds = absurd holds
  open_files_lem before (s ∷ splitted) [] size w h holds = absurd holds
  open_files_lem before (s ∷ splitted) (c ∷ cs) size w h holds =
      let (r, is_open, left) = h.opens s.path w c holds.0 in
      let w' = (backend.open_file s.path w).1 in
      let rest =
        open_files_lem (before ++ (r ∷ [])) splitted cs size w' h (
          subst (λ k. Holds k (paths_of splitted) cs) (sym (h.open_file_keeps s.path w)) holds.1) in
      record {
        files = r ∷ rest.files;
        world = rest.world;
        is =
            rw (is_open, open_files)
              (rest.is
                ∙ ap (λ rs. joined_files rs size rest.world)
                    (append_assoc before (r ∷ []) rest.files));
        left = (left, rest.left);
      }

  opened_eq :
      (x : (Option F × Option Error) × W) (f : F)
      → x.0 ≡ (some f, none)
      → read_opened_meta backend x ≡ read_parts backend f (backend.decode_meta f x.1)
  unfolding read_opened_meta
  opened_eq ((a, b), w) f h = rw (ap (λ p. p.1) h, ap (λ p. p.0) h) refl

  parts_eq :
      (x : Opened SplittedFileMetadata × W) (f : F) (m : SplittedFileMetadata)
      → x.0 ≡ opened m
      → read_parts backend f x
        ≡ after_close backend f
            (open_files backend [] m.splitted m.total.size (backend.close_meta f x.1))
  unfolding read_parts
  parts_eq (a, w) f m h = rw h refl

  -- Reading where the metadata lists files that hold the contents.
  pub record ReadsBack (c : List ℕ) (size : ℕ) (out : ReadOutcome R W) : Type 0 where
    pub files : List R
    pub world : W
    pub is : out ≡ joined_files files size world
    pub left : MultiLeft Left files c

  pub read_lem :
      (path : FilePath) (m : SplittedFileMetadata) (f : F) (cs : List (List ℕ)) (w : W)
      → Faithful
      → (backend.open_meta (clean path ++ meta_suffix) w).0 ≡ (some f, none)
      → (backend.decode_meta f (backend.open_meta (clean path ++ meta_suffix) w).1).0 ≡ opened m
      → Holds (file w) (paths_of m.splitted) cs
      → ReadsBack (joined cs) m.total.size (read backend path w)
  unfolding read read_opened_meta read_parts after_close
  read_lem path m f cs w h found decoded holds =
      let w1 = (backend.open_meta (clean path ++ meta_suffix) w).1 in
      let w2 = (backend.decode_meta f w1).1 in
      let w3 = backend.close_meta f w2 in
      let same : file w3 ≡ file w =
        h.close_keeps f w2
        ∙ h.decode_keeps f w1
        ∙ h.open_meta_keeps (clean path ++ meta_suffix) w in
      let o =
        open_files_lem [] m.splitted cs m.total.size w3 h
          (subst (λ k. Holds k (paths_of m.splitted) cs) (sym same) holds) in
      record {
        files = o.files;
        world = backend.close_meta f o.world;
        is =
            opened_eq (backend.open_meta (clean path ++ meta_suffix) w) f found
            ∙ parts_eq (backend.decode_meta f w1) f m decoded
            ∙ ap (after_close backend f) o.is;
        left = (cs, o.left, refl);
      }

-- Contents were written under a path, and are read back from it: the files are opened, their size is
-- that of the contents, and reading them one behind the other to the end returns the contents.
pub record RoundTrip {W F R B : Type 0} (backend : Backend W F R B) (read_file : Reader R)
    (c : List ℕ) (path : FilePath) (out : WriteOutcome W) : Type 0 where
  pub paths : List FilePath
  pub world : W
  pub wrote : out ≡ returned paths none world
  pub files : List R
  pub after : W
  pub reads : read backend path world ≡ joined_files files (length c) after
  pub contents : (files' : List R) × Drains (multi_read read_file) files c files'
