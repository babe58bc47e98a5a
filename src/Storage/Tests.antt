-- ===== src/Storage/Tests.antt =====
-- The theorems of the storage of split contents at concrete inputs, on the disk of Storage/Disk.
use musicbox.Prelude.{
  ◌||◌, false, ℕ, zero, suc, ◌≡◌, refl, Option, none, some, List, [], ◌∷◌, if◌then◌else◌, take,
  drop,
}
use musicbox.Prelude.Codes.{codes}
use musicbox.Fsutil.Error.{Error, sentinel, not_exist, bad_name}
use musicbox.Fsutil.Fs.{FilePath, same_path, Opened, opened, not_opened}
use musicbox.Fsutil.Path.{slash, root}
use musicbox.Stream.Io.{eof}
use musicbox.Stream.Reader.{Reader}
use musicbox.Storage.Disk.{Disk, put}
use musicbox.Storage.WriteSplitting.{path_modifier_append_index}
use musicbox.Storage.SplittingStorage.{SplittedFileMetadata, HashAlgo, Backend}
use musicbox.Storage.SplittingStorage.RoundTrip.{RoundTrip}

-- Names of parts are padded to three digits, and may grow longer.
indices :
    (path_modifier_append_index (codes "/d/f/") 7 ≡ codes "/d/f_007")
    × (path_modifier_append_index (codes "f") 1234 ≡ codes "f_1234")
unfolding path_modifier_append_index
indices = (refl, refl)

-- A reader that is the bytes left to read.
abbrev read_list : Reader (List ℕ)
read_list [] n = (([], some eof), [])
read_list (b ∷ s) n = ((take n (b ∷ s), none), drop n (b ∷ s))

abbrev disk_open : Option (List ℕ) → Opened (List ℕ)
disk_open none = not_opened (sentinel not_exist)
disk_open (some c) = opened c

abbrev find_meta : Option SplittedFileMetadata → Option SplittedFileMetadata × Option Error
find_meta none = (none, some (sentinel not_exist))
find_meta (some m) = (some m, none)

-- Neither the empty name nor the root is that of a file.
abbrev save_meta : FilePath → SplittedFileMetadata → Disk → Option Error × Disk
save_meta p m w =
    if same_path p [] || same_path p root
    then (some (sentinel bad_name), w)
    else (none, record w { metadata = put p m w.metadata })

abbrev disk_backend : Backend Disk SplittedFileMetadata (List ℕ) SplittedFileMetadata
disk_backend = record {
  open_meta = λ p w. (find_meta (w.metadata p), w);
  decode_meta = λ f w. (opened f, w);
  close_meta = λ f w. w;
  marshal = λ m. m;
  write_meta = save_meta;
  open_file = λ p w. (disk_open (w.file p), w);
  close_file = λ r w. w;
}

abbrev Named : FilePath → Type 0
Named p = (same_path p [] ≡ false) × (same_path p root ≡ false)

-- The names "/a", "/aa", "/aaa" and so on.
abbrev letters : ℕ → FilePath
letters zero = []
letters (suc n) = b'a' ∷ letters n

abbrev unary : FilePath → ℕ → FilePath
unary p i = slash ∷ b'a' ∷ b'a' ∷ b'a' ∷ letters i

abbrev identity_hash : HashAlgo
identity_hash = record { sum = λ c. c; name = codes "none" }

abbrev empty_disk : Disk
empty_disk = record { file = λ p. none; metadata = λ p. none }

abbrev five : List ℕ
five = 1 ∷ 2 ∷ 3 ∷ 4 ∷ 5 ∷ []
