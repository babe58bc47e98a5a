-- ===== src/Fsutil/Equal/Trees/Tests.antt =====
-- Equal of a small tree with itself.
use musicbox.Prelude.{
  ℕ, true, false, ◌≡◌, ◌↔◌, refl, none, some, List, [], if◌then◌else◌, arith, leb, le→leb, length,
  take, drop,
}
use musicbox.Fsutil.Error.{sentinel, unexpected_eof}
use musicbox.Fsutil.Fs.{opened}
use musicbox.Fsutil.Path.{
  dot, join, clean, split_slash, join_slash, go_up, clean_step, clean_elements,
}
use musicbox.Fsutil.Tree.{Node, file, folder, dirent_of, height}
use musicbox.Fsutil.Tree.Sample.{
  plain_mode, dir_mode, sample, sample_entries, node_at, listing, default_copy,
}
use musicbox.Fsutil.Equal.{ReadFull}
use musicbox.Fsutil.Equal.Contents.{ReadsFully}
use musicbox.Fsutil.Equal.Trees.{SizedInfo, ReadFs, equal_fs}
use musicbox.Fsutil.Equal.Trees.Spec.{Shows, SameEach}
use musicbox.Fsutil.Equal.Trees.Same.{equal_fs_iff}

abbrev bytes_of : Node → List ℕ
bytes_of (file m c) = c
bytes_of (folder m es) = []

abbrev info_of : Node → SizedInfo
info_of (file m c) = record { is_dir = false; is_regular = true; mode = m; size = length c }
info_of (folder m es) = record { is_dir = true; is_regular = false; mode = m; size = 0 }

-- An open file is what is left to read of it.
abbrev read_node : ReadFull Node
read_node n r =
    if leb n (length (bytes_of r))
    then ((none, take n (bytes_of r)), file plain_mode (drop n (bytes_of r)))
    else ((some (sentinel unexpected_eof), bytes_of r), file plain_mode [])

read_node-ReadsFully : ReadsFully read_node bytes_of
read_node-ReadsFully = record { at = λ n r h. rw (le→leb n (length (bytes_of r)) h) (refl, refl) }

abbrev tree_fs : ReadFs Node
tree_fs = record {
  stat_name = λ p. opened (dirent_of p (node_at p));
  read_dir = λ p. listing (node_at p);
  open_name = λ p. opened (node_at p);
  stat = λ r. opened (info_of r);
}

shown : Shows bytes_of tree_fs dot sample
unfolding join clean split_slash join_slash go_up clean_step clean_elements
shown = (
  refl,
  (0, (node_at dot, refl, refl, tt)),
  refl,
  (
    refl,
    (refl, (_, refl, refl, refl)),
    (refl, (refl, (0, (_, refl, refl, tt)), refl, (refl, (refl, (_, refl, refl, refl)), tt)), tt),
  ),
)

equal_fs_iff_example :
    (equal_fs read_node tree_fs tree_fs default_copy 3 ≡ ([], none))
    ↔ SameEach default_copy dot sample_entries sample_entries
unfolding height
equal_fs_iff_example =
    equal_fs_iff read_node bytes_of tree_fs tree_fs default_copy read_node-ReadsFully 3 dir_mode
      dir_mode sample_entries sample_entries refl shown shown (omega arith)
