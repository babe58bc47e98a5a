-- ===== src/Fsutil/Copy/Tests.antt =====
-- CopyFS of a small tree into a file system in memory.
use musicbox.Prelude.{
  ℕ, ◌≡◌, refl, true, false, Option, none, some, List, [], ◌∷◌, if◌then◌else◌, arith,
}
use musicbox.Prelude.Anywhere.{All}
use musicbox.Fsutil.Error.{Error, sentinel, not_exist}
use musicbox.Fsutil.Action.{Action, Ensures}
use musicbox.Fsutil.Fs.{FilePath, same_path, Opened, opened}
use musicbox.Fsutil.Text.{same_path_refl}
use musicbox.Fsutil.Path.{
  dot, join, clean, split_slash, join_slash, go_up, clean_step, clean_elements,
}
use musicbox.Fsutil.Walk.{Dirent}
use musicbox.Fsutil.Tree.{Node, file, folder, dirent_of, height}
use musicbox.Fsutil.Tree.Sample.{sample, sample_entries, dir_mode, node_at, listing, default_copy}
use musicbox.Fsutil.Copy.{CopyFs, copy_fs}
use musicbox.Fsutil.Copy.Lands.{Placed, Kept, Clear, Lays, info_of}
use musicbox.Fsutil.Copy.Walked.{nodes_in, Lists, Ends, IsThere, copy_fs-Landed}

abbrev Files : Type 0
Files = FilePath → Option Placed

abbrev put : FilePath → Placed → Files → Files
put p x w q = if same_path q p then some x else w q

-- A change of what is there.
abbrev change : (Placed → Placed) → FilePath → Action Files
change f p w = elim (w p) [ none ↦ (some (sentinel not_exist), w) | some x ↦ (none, put p (f x) w) ]

abbrev bytes_of : Node → List ℕ
bytes_of (file m c) = c
bytes_of (folder m es) = []

-- Files in memory, and the source, a tree that does not change.
abbrev memory : CopyFs Files Node FilePath
memory = record {
  open_source = λ p w. (opened (node_at p), w);
  stat = λ r w. (opened (info_of r), w);
  close_source = λ r w. (none, w);
  mkdir_all = λ p mode w. (none, put p (record { is_dir = true; mode = dir_mode; content = [] }) w);
  create =
      λ p mode w. (opened p, put p (record { is_dir = false; mode = dir_mode; content = [] }) w);
  chmod = λ p mode. change (λ x. record x { mode = mode }) p;
  copy_content = λ r. change (λ x. record x { content = bytes_of r });
  sync = λ h w. (none, w);
  close = λ h w. (none, w);
  cancelled = λ w. (none, w);
}

abbrev at : Files → FilePath → Option Placed
at w p = w p

put_same : (p : FilePath) (x : Placed) (w : Files) → put p x w p ≡ some x
put_same p x w = rw (same_path_refl p) refl

put-Kept :
    (p : FilePath) (x : Placed) (ps : List (FilePath × Placed)) (w : Files)
    → Clear p ps
    → Kept at ps w
    → Kept at ps (put p x w)
put-Kept p x [] w clear kept = tt
put-Kept p x (k ∷ ps) w clear kept = (rw clear.0 kept.0, put-Kept p x ps w clear.1 kept.1)

change-Ensures :
    (f : Placed → Placed) (p : FilePath) (x : Placed) (ps : List (FilePath × Placed))
    → Clear p ps
    → Ensures (Kept at ((p, x) ∷ ps)) (change f p) (Kept at ((p, f x) ∷ ps)) (λ w. ⊥)
change-Ensures f p x ps clear = record {
  at = λ w kept. rw (kept.0, change) (put_same p (f x) w, put-Kept p (f x) ps w clear kept.1);
}

stays :
    (ps : List (FilePath × Placed)) → Ensures (Kept at ps) (λ w. (none, w)) (Kept at ps) (λ w. ⊥)
stays ps = record { at = λ w kept. kept }

memory-Lays : Lays memory at (λ h. h) bytes_of (λ w. ⊥)
memory-Lays = record {
  mkdir_all = λ p mode ps clear. record {
    at = λ w kept. (
      put-Kept p _ ps w clear kept,
      (record { is_dir = true; mode = dir_mode; content = [] }, put_same p _ w, refl),
    );
  };
  create = λ p mode ps w clear kept. (
    put-Kept p _ ps w clear kept,
    refl,
    (record { is_dir = false; mode = dir_mode; content = [] }, put_same p _ w, refl, refl),
  );
  chmod = λ p mode x ps clear. change-Ensures (λ x. record x { mode = mode }) p x ps clear;
  copy_content =
      λ r h x ps clear empty. change-Ensures (λ x. record x { content = bytes_of r }) h x ps clear;
  sync = λ h ps. stays ps;
  close = λ h ps. stays ps;
  close_source = λ r ps. record { at = λ w kept. kept };
  close_failed = λ h. record { at = λ w failed. failed };
  close_source_failed = λ r. record { at = λ w failed. failed };
  stat = λ r ps w kept. kept;
  open_source = λ p ps w kept. kept;
  cancelled = stays;
}

abbrev stat_name : FilePath → Files → Opened Dirent
stat_name p w = opened (dirent_of p (node_at p))

abbrev read_dir : FilePath → Files → List Dirent × Option Error
read_dir p w = listing (node_at p)

abbrev nowhere : Files
nowhere p = none

listed : Lists memory default_copy stat_name read_dir dot sample
unfolding join clean split_slash join_slash go_up clean_step clean_elements
listed = (λ w. refl, (refl, tt, (refl, (λ w. refl, (refl, tt, tt)), tt)))

copy_fs-Landed_example :
    Ends memory default_copy stat_name read_dir
      (λ v.
        All
          (IsThere memory default_copy stat_name read_dir at
            (λ h. h)
            bytes_of
            (λ w. ⊥)
            memory-Lays
            v)
          (nodes_in dot sample_entries))
      (λ w. ⊥)
      (copy_fs memory default_copy stat_name read_dir 3 nowhere)
unfolding height join clean split_slash join_slash go_up clean_step clean_elements
copy_fs-Landed_example =
    copy_fs-Landed memory default_copy stat_name read_dir at (λ h. h) bytes_of (λ w. ⊥) memory-Lays
      3 dir_mode sample_entries nowhere refl listed (omega arith)
      ((refl, (refl, tt)), ((refl, tt), (tt, tt)))
      (λ w. (refl, refl), (λ w. (refl, tt), (λ w. (refl, refl), tt)))
