-- ===== src/Db/Open.antt =====
-- db.rs, `initialize`: what opening a database does to its tables once they are in place and have
-- the current layout.
use vibedbfs.Prelude.{
  ℕ, ◌+◌, ℤ, pos, negsuc, List, [], ◌∷◌, map, Option, none, some, Bool, false, not, ◌&&◌, ◌==◌,
  if◌then◌else◌, Result, ok, ◌>>=◌, retain,
}
use vibedbfs.Model.{Timestamp, to_ns, DbError}
use vibedbfs.Db.{Tables, Engine, InodeRow, query, check}
use vibedbfs.Db.Rows.{lookup_row, insert_row, update_row, delete_chunk_rows, delete_inode_row}
use vibedbfs.Db.Links.{is_two, is_dir}
use vibedbfs.Db.Links.Counts.{count}

-- The mode is 0o755.
abbrev pub new_root : Timestamp → ℕ → ℕ → InodeRow
new_root now uid gid = record {
  kind = pos 2;
  mode = 493;
  uid = uid;
  gid = gid;
  size = 0;
  atime_ns = to_ns now;
  mtime_ns = to_ns now;
  ctime_ns = to_ns now;
  nlink = pos 2;
}

-- `INSERT OR IGNORE`.
unfoldable pub insert_root : Timestamp → ℕ → ℕ → Tables → Tables
insert_root now uid gid t = elim (lookup_row 1 t.inodes) [
  | some r ↦ t
  | none ↦ record t { inodes = insert_row 1 (new_root now uid gid) t.inodes }
]

-- A root that belongs to the superuser is handed to the user who mounts.
abbrev pub hand_over : Timestamp → ℕ → ℕ → InodeRow → InodeRow
hand_over now uid gid r =
    if r.uid == 0 && r.gid == 0 then record r { uid = uid; gid = gid; ctime_ns = to_ns now } else r

unfoldable pub chown_root : Timestamp → ℕ → ℕ → Tables → Tables
chown_root now uid gid t = record t { inodes = update_row 1 (hand_over now uid gid) t.inodes }

-- The directories that stand in a directory.
abbrev pub child_dirs : Tables → ℕ → ℕ
child_dirs t ino = count (λ d. d.parent == ino && is_dir t d.child) t.dirents

-- An UPDATE whose new values depend on the row.
abbrev pub update_rows : (ℕ → InodeRow → InodeRow) → List (ℕ × InodeRow) → List (ℕ × InodeRow)
update_rows f [] = []
update_rows f ((k, r) ∷ rows) = (k, f k r) ∷ update_rows f rows

abbrev pub recount : Tables → ℕ → InodeRow → InodeRow
recount t ino r = if is_two r.kind then record r { nlink = pos (2 + child_dirs t ino) } else r

unfoldable pub recompute_directory_nlink : Tables → Tables
recompute_directory_nlink t = record t { inodes = update_rows (recount t) t.inodes }

abbrev pub is_zero : ℤ → Bool
is_zero (pos n) = n == 0
is_zero (negsuc n) = false

abbrev pub is_orphan : ℕ → Option InodeRow → Bool
is_orphan ino none = false
is_orphan ino (some r) = is_zero r.nlink && not (ino == 1)

-- The keys of the rows with `nlink = 0 AND ino != 1`.
unfoldable pub orphans : Tables → List ℕ
orphans t = retain (λ ino. is_orphan ino (lookup_row ino t.inodes)) (map (λ x. x.0) t.inodes)

-- A statement that is a transaction of its own.
abbrev pub execute : Engine → Tables → Result DbError Tables
execute E t = check (E.commit_failure t) t

-- Each of the two statements of `delete_inode_rows` is a transaction of its own here.
unfoldable pub delete_orphans : Engine → List ℕ → Tables → Result DbError Tables
delete_orphans E [] t = ok t
delete_orphans E (ino ∷ rest) t = do
  t1 ← execute E (delete_chunk_rows ino t)
  t2 ← execute E (delete_inode_row ino t1)
  delete_orphans E rest t2

-- After an error there is no `Db`, and nothing is served.
unfoldable pub initialize : Engine → Timestamp → ℕ → ℕ → Tables → Result DbError Tables
initialize E now uid gid t = do
  t1 ← execute E (insert_root now uid gid t)
  t2 ← execute E (chown_root now uid gid t1)
  t3 ← execute E (recompute_directory_nlink t2)
  found ← query E t3 (orphans t3)
  delete_orphans E found t3
