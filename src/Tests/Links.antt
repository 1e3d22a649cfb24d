-- ===== src/Tests/Links.antt =====
-- Names and links on a small database.
use vibedbfs.Prelude.{
  ◌+◌, ◌≡◌, refl, pos, negsuc, [], ◌∷◌, none, ℕ, ◌↔◌, Bool, ◌⊎◌, ◌==◌, if◌then◌else◌, some, false,
  true, ok, arith,
}
use vibedbfs.Model.{Inode, from_ns, regular_file, directory}
use vibedbfs.Db.{Tables, Dirent}
use vibedbfs.Db.Rows.{
  lookup_row, inode_from_row, check_name, add_directory_nlink, touch_dir, delete_inode_rows,
  delete_entry,
}
use vibedbfs.Db.Nodes.{lookup, get_inode, inode_kind_of}
use vibedbfs.Db.Create.{create_node, new_directory, link}
use vibedbfs.Db.Remove.{unlink_entry, remove_dir, rename_entry}
use vibedbfs.Db.Links.{IsLinked, Adds, Drops, Moves, entry, names, parent_is}
use vibedbfs.Db.Links.Counts.{count}
use vibedbfs.Db.Links.Create.{create_node_lem, new_entry}
use vibedbfs.Db.Links.Link.{link_lem}
use vibedbfs.Db.Links.Unlink.{Unlinked}
use vibedbfs.Db.Links.Unlink.Outcome.{unlink_entry_lem}
use vibedbfs.Db.Links.RemoveDir.{remove_dir_lem, remove_dir-ok}
use vibedbfs.Db.Links.Rename.Outcome.{rename_entry_lem}
use vibedbfs.Db.Dirs.{is_descendant, is_directory_kind}
use vibedbfs.Db.Dirs.Walk.{IsTree, IsAbove, is_descendant_lem}
use vibedbfs.Tests.Samples.{quiet, small, later, file_row, root_row}

pub small-IsLinked : IsLinked small
small-IsLinked = record {
  unique = λ p n. ground arith;
  children = λ k h. ground arith;
  parents = λ k h. ground arith;
  single = λ k h. ground arith;
  links = λ k r e h. ground arith;
}

abbrev file_a : Inode
file_a = record {
  ino = 2;
  kind = regular_file;
  mode = 420;
  uid = 0;
  gid = 0;
  size = 10;
  atime = from_ns (pos 0);
  mtime = from_ns (pos 0);
  ctime = from_ns (pos 0);
  nlink = 1;
}

get_a : get_inode quiet small 2 ≡ ok file_a
unfolding get_inode inode_from_row
get_a = refl

find_a : lookup quiet small 1 (97 ∷ []) ≡ ok file_a
unfolding lookup inode_from_row check_name
find_a = refl

root_kind : inode_kind_of quiet small 1 ≡ ok directory
unfolding inode_kind_of
root_kind = refl

create_node_lem_example :
    (i : Inode) × (u : Tables) × (create_node quiet small later 1 (98 ∷ []) (new_directory 493) 7 7
      ≡ ok (i, u))
    × IsLinked u
    × (i.kind ≡ directory)
    × Adds (new_entry quiet small 1 (98 ∷ []) i.ino) small u
create_node_lem_example =
    create_node_lem quiet small later 1 (98 ∷ []) (new_directory 493) 7 7 small-IsLinked
      (omega arith) root_kind refl refl (omega arith) (λ u. refl)

link_lem_example :
    (i : Inode) × (u : Tables) × (link quiet small later 2 1 (98 ∷ []) ≡ ok (i, u))
    × IsLinked u
    × (i.nlink ≡ names u 2)
    × (names u 2 ≡ names small 2 + 1)
    × Adds (new_entry quiet small 1 (98 ∷ []) 2) small u
link_lem_example =
    link_lem quiet small later 2 1 (98 ∷ []) file_a small-IsLinked (omega arith) (omega arith) get_a
      refl root_kind refl (λ u. refl)

unlink_entry_lem_example :
    (u : Tables) × (unlink_entry quiet small later 1 (97 ∷ []) file_a true ≡ ok (tt, u))
    × Unlinked small u 1 (97 ∷ []) 2 true
unlink_entry_lem_example =
    unlink_entry_lem quiet small later 1 (97 ∷ []) file_a true small-IsLinked (omega arith) find_a
      refl (λ u. refl)

-- The root with an empty directory `d`.
abbrev nested : Tables
nested = record {
  inodes = (1, root_row) ∷ (3, root_row) ∷ [];
  dirents = record { id = 1; parent = 1; name = 100 ∷ []; child = 3 } ∷ [];
  file_chunks = λ k. none;
  symlink_targets = [];
}

nested-IsLinked : IsLinked nested
nested-IsLinked = record {
  unique = λ p n. ground arith;
  children = λ k h. ground arith;
  parents = λ k h. ground arith;
  single = λ k h. ground arith;
  links = λ k r e h. ground arith;
}

abbrev dir_d : Inode
dir_d = record file_a { ino = 3; kind = directory; mode = 493; size = 0; nlink = 2 }

find_d : lookup quiet nested 1 (100 ∷ []) ≡ ok dir_d
unfolding lookup inode_from_row check_name
find_d = refl

remove_dir_lem_example :
    (u : Tables) × (remove_dir quiet nested later 1 (100 ∷ []) ≡ ok (tt, u))
    × IsLinked u
    × Drops 1 (100 ∷ []) nested u
    × (lookup_row 3 u.inodes ≡ none)
remove_dir_lem_example =
    remove_dir_lem quiet nested later 1 (100 ∷ []) dir_d nested-IsLinked find_d refl refl refl
      (λ u. refl)

abbrev without_d : Tables
without_d =
    add_directory_nlink 1 (negsuc 0)
      (touch_dir 1 later (delete_inode_rows 3 (delete_entry 1 (100 ∷ []) nested)))

removed_d : remove_dir quiet nested later 1 (100 ∷ []) ≡ ok (tt, without_d)
unfolding remove_dir lookup inode_from_row check_name
removed_d = refl

remove_dir-ok_example :
    (target : Inode) × (lookup quiet nested 1 (100 ∷ []) ≡ ok target)
    × (is_directory_kind target.kind ≡ true)
    × (count (parent_is target.ino) nested.dirents ≡ 0)
    × IsLinked without_d
    × Drops 1 (100 ∷ []) nested without_d
    × (lookup_row target.ino without_d.inodes ≡ none)
remove_dir-ok_example =
    remove_dir-ok quiet nested without_d later 1 (100 ∷ []) nested-IsLinked removed_d

-- The root with the files `a` and `c`.
abbrev pair : Tables
pair = record {
  inodes = (1, root_row) ∷ (2, file_row) ∷ (3, file_row) ∷ [];
  dirents =
      record { id = 1; parent = 1; name = 97 ∷ []; child = 2 }
      ∷ record { id = 2; parent = 1; name = 99 ∷ []; child = 3 }
      ∷ [];
  file_chunks = λ k. none;
  symlink_targets = [];
}

pair-IsLinked : IsLinked pair
pair-IsLinked = record {
  unique = λ p n. ground arith;
  children = λ k h. ground arith;
  parents = λ k h. ground arith;
  single = λ k h. ground arith;
  links = λ k r e h. ground arith;
}

abbrev file_c : Inode
file_c = record file_a { ino = 3 }

find_pair_a : lookup quiet pair 1 (97 ∷ []) ≡ ok file_a
unfolding lookup inode_from_row check_name
find_pair_a = refl

find_pair_c : lookup quiet pair 1 (99 ∷ []) ≡ ok file_c
unfolding lookup inode_from_row check_name
find_pair_c = refl

pair_kind : inode_kind_of quiet pair 1 ≡ ok directory
unfolding inode_kind_of
pair_kind = refl

rename_entry_lem_example :
    (d : Dirent) × (u : Tables) × (rename_entry quiet pair later 1
        (97 ∷ [])
        1
        (99 ∷ [])
        false
        (λ ino. false)
      ≡ ok (some (some file_c, u)))
    × (entry pair 1 (97 ∷ []) ≡ some d)
    × IsLinked u
    × Moves 1 (97 ∷ []) 1 (99 ∷ []) d pair u
rename_entry_lem_example =
    rename_entry_lem quiet pair later 1 (97 ∷ []) 1 (99 ∷ []) (λ ino. false) file_a (some file_c)
      pair-IsLinked (omega arith) (omega arith) find_pair_a pair_kind (λ h. ground arith) refl
      (find_pair_c, refl, refl) (λ u. refl) (λ u. refl)

abbrev root : ℕ
root = 1

abbrev inner : ℕ
inner = 3

nested-IsTree : IsTree nested
nested-IsTree = record {
  depth = λ k. if k == 3 then 1 else 0;
  grows = λ k d e. ground arith;
  low = λ k. ground arith;
}

is_descendant_lem_example :
    (b : Bool) × (is_descendant quiet nested inner root ≡ ok (some b))
    × ((b ≡ true) ↔ ((inner ≡ root) ⊎ IsAbove nested root inner))
is_descendant_lem_example = is_descendant_lem quiet nested inner root nested-IsTree refl
