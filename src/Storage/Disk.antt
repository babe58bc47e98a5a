-- ===== src/Storage/Disk.antt =====
-- A disk on which `safeWrite` of fsutil stores what a splitting storage writes. The reader that it
-- copies from is part of the world that its steps change.
use mathlib.Core.Path.{subst}
use musicbox.Prelude.{
  ℕ, suc, ◌≡◌, ◌≢◌, ◌≤◌, ◌<◌, ◌⊎◌, refl, sym, ap, false, Option, none, some, List, [], arith,
  if◌then◌else◌, length, Bool-cases, inl, inr,
}
use musicbox.Prelude.Codes.{codes}
use musicbox.Prelude.Int64
use musicbox.Prelude.Signed.{negsuc}
use musicbox.Fsutil.Error.{Error, wrap, sentinel, not_exist, bad_name, other}
use musicbox.Fsutil.Action.{Action, ◌>>◌, when, wrapping, for_each, done}
use musicbox.Fsutil.Once.{lift, close_once, call_or_keep, start}
use musicbox.Fsutil.Fs.{FilePath, same_path, Opened, opened, not_opened, Fs}
use musicbox.Fsutil.Text.{same_path_refl, same_path_sound}
use musicbox.Fsutil.Path.{normalize_path, root}
use musicbox.Fsutil.SafeWrite.{
  SafeWriteOption, safe_write, write_opened, write_or_fail, write_steps, deferred, mkdir_all,
}
use musicbox.Stream.Reader.{
  Reader, Streams, copy_buffer, Copied, copied, out_of_fuel, copy_buffer-Drains,
}
use musicbox.Storage.Splitter.Pieces.{PieceLeft}
use musicbox.Storage.WriteSplitting.{SafeWrite}
use musicbox.Storage.WriteSplitting.Files.{Stores}
use musicbox.Storage.SplittingStorage.{
  SplittedFileMetadata, SplittedDataSet, trapped_piece, data_set_read,
}
use musicbox.Storage.SplittingStorage.Counts.{CountedTo, counted-to-Streams, data_set-Streams}

pub record Disk : Type 0 where
  pub file : FilePath → Option (List ℕ)
  pub metadata : FilePath → Option SplittedFileMetadata

abbrev pub put : {A : Type 0} → FilePath → A → (FilePath → Option A) → FilePath → Option A
put p a f q = if same_path p q then some a else f q

abbrev without : {A : Type 0} → FilePath → (FilePath → Option A) → FilePath → Option A
without p f q = if same_path p q then none else f q

record Copying (T : Type 0) : Type 0 where
  disk : Disk
  reader : T

abbrev tmp : FilePath
tmp = codes "/t.tmp"

-- The names that are normal, of a file and not that of the temporary file.
abbrev pub Plain : FilePath → Type 0
Plain p = (normalize_path p ≡ p) × (p ≢ root) × (p ≢ tmp)

abbrev renamed : FilePath → FilePath → Option (List ℕ) → Disk → Option Error × Disk
renamed p q none w = (some (sentinel not_exist), w)
renamed p q (some c) w = (none, record w { file = put q c (without p w.file) })

module _ {T : Type 0} where
  abbrev on_disk : (Disk → Disk) → Action (Copying T)
  on_disk f w = (none, record w { disk = f w.disk })

  abbrev disk_fs : Fs (Copying T) FilePath
  disk_fs = record {
    mkdir = λ p m w. (none, w);
    mkdir_all = λ p m w. (none, w);
    open_name = λ p w. (opened p, w);
    open_file = λ p flags m w. (opened p, w);
    remove_all = λ p. on_disk (λ d. record d { file = without p d.file });
    rename = λ p q w. let (e, d) = renamed p q (w.disk.file p) w.disk in (e, record w { disk = d });
    chmod = λ p m w. (none, w);
    chown = λ p uid gid w. (none, w);
    close = λ f w. (none, w);
    sync = λ f w. (none, w);
    file_name = λ f. f;
  }

  abbrev disk_option : SafeWriteOption (Copying T) FilePath
  disk_option = record {
    tmp_file_option = record {
      tmp_dir_name = [];
      prefix = [];
      suffix = [];
      random_pattern = codes "-*";
    };
    disable_mkdir = false;
    force_perm = false;
    disable_remove_on_err = false;
    ignore_matched_err = none;
    uid = negsuc 0;
    gid = negsuc 0;
    default_pre_process = [];
    default_post_processes = [];
    disable_sync = false;
  }

  -- The root has no name that a temporary file could be made of.
  abbrev open_tmp : FilePath → ℕ → Copying T → Opened (FilePath × FilePath) × Copying T
  open_tmp p perm w =
      if same_path p root
      then (not_opened (wrap "name is empty" (sentinel bad_name)), w)
      else (opened (tmp, tmp), w)

  abbrev copied_to : FilePath → Disk → Copied T → T → Option Error × Copying T
  copied_to p d (copied bytes (some e) t) r =
      (some (other 0), record { disk = record d { file = put p bytes d.file }; reader = t })
  copied_to p d (copied bytes none t) r =
      (none, record { disk = record d { file = put p bytes d.file }; reader = t })
  copied_to p d out_of_fuel r = (some (other 0), record { disk = d; reader = r })

abbrev disk_copy :
    {S : Type 0} → Reader S → FilePath → FilePath → Action (Copying (SplittedDataSet S))
disk_copy read f p w =
    copied_to p w.disk
      (copy_buffer (data_set_read read) (suc (trapped_piece w.reader).limit) 65536 w.reader)
      w.reader

unfoldable pub disk_write : {S : Type 0} → Reader S → SafeWrite (SplittedDataSet S) Disk
disk_write read p t d =
    let (e, w) =
      safe_write disk_fs disk_option p 0o644 open_tmp (disk_copy read) []
        (record { disk = d; reader = t }) in
    (e, (w.reader, w.disk))

differs : (p q : FilePath) → q ≢ p → same_path p q ≡ false
differs p q n = elim (Bool-cases (same_path p q)) [
  | inl same ↦ absurd (n (sym (same_path_sound p q same)))
  | inr d ↦ d
]

abbrev stored : FilePath → List ℕ → Disk → Disk
stored p c d = record d { file = put p c (without tmp (put tmp c d.file)) }

-- Once the temporary file is open, what the reader has left goes to it and from there to its name.
opened_lem :
    {S : Type 0} (read : Reader S) (p : FilePath) (t t' : SplittedDataSet S) (c : List ℕ) (d : Disk)
    → copy_buffer (data_set_read read) (suc (trapped_piece t).limit) 65536 t ≡ copied c none t'
    → write_opened disk_fs disk_option tmp tmp p 0o644
        (disk_copy read)
        []
        (record { disk = d; reader = t })
      ≡ (none, record { disk = stored p c d; reader = t' })
unfolding write_opened write_steps deferred mkdir_all ◌>>◌ when wrapping for_each done lift
    close_once call_or_keep start
opened_lem read p t t' c d same =
    subst
      (λ x.
        write_opened disk_fs disk_option tmp tmp p 0o644 (λ f q w. copied_to q d x t) []
          (record { disk = d; reader = t })
        ≡ (none, record { disk = stored p c d; reader = t' }))
      (sym same) refl

disk_write_lem :
    {S : Type 0} (read : Reader S) (p : FilePath) (t t' : SplittedDataSet S) (c : List ℕ) (d : Disk)
    → Plain p
    → copy_buffer (data_set_read read) (suc (trapped_piece t).limit) 65536 t ≡ copied c none t'
    → disk_write read p t d ≡ (none, (t', stored p c d))
unfolding disk_write safe_write write_or_fail mkdir_all ◌>>◌ when wrapping
disk_write_lem read p t t' c d good same =
    rw (good.0, differs p root (λ e. good.1 (sym e)))
      (ap (λ x. (x.0, (x.1.reader, x.1.disk))) (opened_lem read p t t' c d same))

length_bounded :
    (tail c : List ℕ) (limit : ℕ)
    → (length c ≡ limit) ⊎ ((length c ≤ limit) × (tail ≡ []))
    → length c < suc limit
length_bounded tail c limit (inl full) = omega arith
length_bounded tail c limit (inr within) = omega (arith, within.0)

elsewhere_lem :
    (p q : FilePath) (c : List ℕ) (d : Disk) → q ≢ tmp → q ≢ p → (stored p c d).file q ≡ d.file q
elsewhere_lem p q c d apart n = rw (differs p q n, differs tmp q apart) refl

-- What SafeWrite does on the disk is to store.
pub disk_write-Stores :
    {S : Type 0} {Left : S → List ℕ → Type 0} (read : Reader S) (all tail : List ℕ)
    → Streams read Left
    → length all < Int64.sign_bit
    → Stores
        (data_set_read read)
        (disk_write read)
        (λ w. w.file)
        Plain
        (λ t c. PieceLeft (CountedTo Left all) tail (trapped_piece t) c)
disk_write-Stores read all tail streams small = record {
  at = λ p t w c good l.
      let (t', same, drains) =
        copy_buffer-Drains (suc (trapped_piece t).limit) 65536 t c
          (data_set-Streams read all tail (counted-to-Streams read all streams small)) l
          (omega arith) (length_bounded tail c (trapped_piece t).limit l.limited) in
      let wrote = disk_write_lem read p t t' c w good same in
      rw wrote (
        refl,
        record {
          bytes = c;
          drained = drains;
          here = rw (same_path_refl p) refl;
          elsewhere = λ q g n. elsewhere_lem p q c w g.2 n;
        },
      );
}
