-- ===== src/Db/Nodes.antt =====
-- db.rs: inodes read and updated, names looked up.
use vibedbfs.Prelude.{
  ℕ, if◌then◌else◌, List, [], ◌∷◌, Option, none, some, unwrap_or, Result, ok, err, ◌>>=◌, ◌>>◌,
}
use vibedbfs.Model.{
  Timestamp, to_ns, Inode, FileKind, symlink, MetadataUpdate, DbError, not_found, invalid_input,
  from_i64,
}
use vibedbfs.Db.{Tables, Engine, InodeRow, Dirent, query, commit}
use vibedbfs.Db.Rows.{
  lookup_row, update_row, inode_from_row, check_name, is_entry, delete_inode_rows,
}

-- `query_row`: no row is `NotFound`.
abbrev pub one_row : {A : Type 0} → Option A → Result DbError A
one_row none = err not_found
one_row (some a) = ok a

unfoldable pub get_inode : Engine → Tables → ℕ → Result DbError Inode
get_inode E t ino = do
  found ← query E t (lookup_row ino t.inodes)
  row ← one_row found
  inode_from_row E ino row

unfoldable pub inode_head : Engine → Tables → ℕ → Result DbError (FileKind × ℕ)
inode_head E t ino = do
  found ← query E t (lookup_row ino t.inodes)
  row ← one_row found
  kind ← from_i64 row.kind
  ok (kind, row.size)

unfoldable pub inode_kind_of : Engine → Tables → ℕ → Result DbError FileKind
inode_kind_of E t ino = do
  found ← query E t (lookup_row ino t.inodes)
  row ← one_row found
  from_i64 row.kind

-- The inode of the first entry that joins to a row of `inodes`.
abbrev pub join_entry : Tables → List Dirent → ℕ → List ℕ → Option (ℕ × InodeRow)
join_entry t [] parent name = none
join_entry t (d ∷ ds) parent name =
    let rest = join_entry t ds parent name in
    if is_entry parent name d
    then elim (lookup_row d.child t.inodes) [ none ↦ rest | some row ↦ some (d.child, row) ]
    else rest

unfoldable pub lookup : Engine → Tables → ℕ → List ℕ → Result DbError Inode
lookup E t parent name = do
  check_name name
  found ← query E t (join_entry t t.dirents parent name)
  (ino, row) ← one_row found
  inode_from_row E ino row

unfoldable pub read_symlink : Engine → Tables → ℕ → Result DbError (List ℕ)
read_symlink E t ino = do
  kind ← inode_kind_of E t ino
  elim kind [
    | symlink ↦ query E t (lookup_row ino t.symlink_targets) >>= one_row
    | _ ↦ err invalid_input
  ]

unfoldable pub delete_inode : Engine → Tables → ℕ → Result DbError ((Unit {0}) × Tables)
delete_inode E t ino = commit E (delete_inode_rows ino t) tt

unfoldable pub update_metadata :
    Engine → Tables → Timestamp → ℕ → MetadataUpdate → Result DbError (Inode × Tables)
update_metadata E t now ino u = do
  inode ← get_inode E t ino
  let updated = record t {
    inodes =
        update_row ino
          (λ r. record r {
            mode = unwrap_or u.mode inode.mode;
            uid = unwrap_or u.uid inode.uid;
            gid = unwrap_or u.gid inode.gid;
            atime_ns = to_ns (unwrap_or u.atime inode.atime);
            mtime_ns = to_ns (unwrap_or u.mtime inode.mtime);
            ctime_ns = to_ns now;
          })
          t.inodes;
  }
  (_, t') ← commit E updated tt
  inode' ← get_inode E t' ino
  ok (inode', t')
