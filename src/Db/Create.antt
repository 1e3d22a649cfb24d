-- ===== src/Db/Create.antt =====
-- db.rs: `create_node` and its three callers, and `link`.
use vibedbfs.Prelude.{
  ℕ, ◌+◌, pos, List, map, ◌&&◌, ltb, if◌then◌else◌, Result, ok, err, ◌>>=◌, ◌>>◌, length, any,
  is_some,
}
use vibedbfs.Model.{
  Timestamp, to_ns, Inode, FileKind, regular_file, directory, symlink, DbError, already_exists,
  no_space, is_directory, sqlite, as_i64,
}
use vibedbfs.Arena.{as_u32}
use vibedbfs.Db.{Tables, Engine, Dirent, InodeRow, commit}
use vibedbfs.Db.Keys.{max_ino}
use vibedbfs.Db.Rows.{
  lookup_row, insert_row, check_name, touch_dir, add_directory_nlink, set_nlink, is_entry,
  insert_by_id,
}
use vibedbfs.Db.Nodes.{get_inode, inode_kind_of}
use vibedbfs.Db.Dirs.{require_directory, is_directory_kind}

pub data NewNode : Type 0 where
  new_directory : ℕ → NewNode
  new_file : ℕ → NewNode
  new_symlink : List ℕ → NewNode

-- `(kind, mode, size)`.
abbrev pub node_kind : NewNode → FileKind
node_kind (new_directory mode) = directory
node_kind (new_file mode) = regular_file
node_kind (new_symlink target) = symlink

abbrev pub node_mode : NewNode → ℕ
node_mode (new_directory mode) = mode
node_mode (new_file mode) = mode
node_mode (new_symlink target) = 0o777

abbrev pub node_size : NewNode → ℕ
node_size (new_directory mode) = 0
node_size (new_file mode) = 0
node_size (new_symlink target) = length target

abbrev pub dirent_ids : List Dirent → List ℕ
dirent_ids = map (λ d. d.id)

-- `INSERT INTO dirents`, with the unique index on `(parent_ino, name)` and the foreign keys.
unfoldable pub insert_dirent : Engine → ℕ → List ℕ → ℕ → Tables → Result DbError Tables
insert_dirent E parent name child t =
    if any (is_entry parent name) t.dirents
    then err already_exists
    else (if is_some (lookup_row parent t.inodes) && is_some (lookup_row child t.inodes)
        then ok (record t {
          dirents =
              insert_by_id
                (record {
                  id = E.next_rowid (dirent_ids t.dirents);
                  parent = parent;
                  name = name;
                  child = child;
                })
                t.dirents;
        })
        else err (sqlite E.foreign_key_message))

-- `if let NewNode::Symlink { target }`: the row of `symlink_targets`.
abbrev pub insert_target : ℕ → NewNode → Tables → Tables
insert_target ino (new_directory mode) t = t
insert_target ino (new_file mode) t = t
insert_target ino (new_symlink target) t = record t {
  symlink_targets = insert_row ino target t.symlink_targets;
}

abbrev pub node_row : NewNode → ℕ → ℕ → Timestamp → InodeRow
node_row node uid gid now = record {
  kind = as_i64 (node_kind node);
  mode = node_mode node;
  uid = uid;
  gid = gid;
  size = node_size node;
  atime_ns = to_ns now;
  mtime_ns = to_ns now;
  ctime_ns = to_ns now;
  nlink = if is_directory_kind (node_kind node) then pos 2 else pos 1;
}

abbrev pub node_inode : NewNode → ℕ → ℕ → ℕ → Timestamp → Inode
node_inode node ino uid gid now = record {
  ino = ino;
  kind = node_kind node;
  mode = node_mode node;
  uid = uid;
  gid = gid;
  size = node_size node;
  atime = now;
  mtime = now;
  ctime = now;
  nlink = if is_directory_kind (node_kind node) then 2 else 1;
}

unfoldable pub create_node :
    Engine → Tables → Timestamp → ℕ → List ℕ → NewNode → ℕ → ℕ → Result DbError (Inode × Tables)
create_node E t now parent name node uid gid = do
  check_name name
  parent_kind ← inode_kind_of E t parent
  require_directory parent_kind
  let ino = E.next_rowid (map (λ r. r.0) t.inodes)
  let inserted = record t { inodes = insert_row ino (node_row node uid gid now) t.inodes }
  if ltb max_ino ino then err no_space else ok tt
  named ← insert_dirent E parent name ino inserted
  let touched = touch_dir parent now (insert_target ino node named)
  let counted =
      if is_directory_kind (node_kind node)
      then add_directory_nlink parent (pos 1) touched
      else touched
  commit E counted (node_inode node ino uid gid now)

unfoldable pub create_dir :
    Engine → Tables → Timestamp → ℕ → List ℕ → ℕ → ℕ → ℕ → Result DbError (Inode × Tables)
create_dir E t now parent name mode uid gid =
    create_node E t now parent name (new_directory mode) uid gid

unfoldable pub create_file :
    Engine → Tables → Timestamp → ℕ → List ℕ → ℕ → ℕ → ℕ → Result DbError (Inode × Tables)
create_file E t now parent name mode uid gid =
    create_node E t now parent name (new_file mode) uid gid

unfoldable pub create_symlink :
    Engine → Tables → Timestamp → ℕ → List ℕ → List ℕ → ℕ → ℕ → Result DbError (Inode × Tables)
create_symlink E t now parent name target uid gid =
    create_node E t now parent name (new_symlink target) uid gid

-- A second name for an inode that is no directory. `nlink + 1` is a u32.
unfoldable pub link : Engine → Tables → Timestamp → ℕ → ℕ → List ℕ → Result DbError (Inode × Tables)
link E t now ino new_parent new_name = do
  check_name new_name
  inode ← get_inode E t ino
  if is_directory_kind inode.kind then err is_directory else ok tt
  parent_kind ← inode_kind_of E t new_parent
  require_directory parent_kind
  named ← insert_dirent E new_parent new_name ino t
  let new_nlink = as_u32 (inode.nlink + 1)
  commit E (touch_dir new_parent now (set_nlink ino new_nlink now named))
      (record inode { nlink = new_nlink; ctime = now })
