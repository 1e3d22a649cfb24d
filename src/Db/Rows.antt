-- ===== src/Db/Rows.antt =====
-- db.rs: single rows, their columns, and the statements on one table that several methods share.
use vibedbfs.Prelude.{
  ℕ, ◌-◌, ◌%◌, ◌^◌, ℤ, pos, negsuc, ◌+ℤ◌, List, [], ◌∷◌, Option, none, some, Bool, not, ◌&&◌, ◌||◌,
  ltb, leb, ◌==◌, if◌then◌else◌, Bytes, Result, ok, err, length, retain, list_eq,
}
use vibedbfs.Model.{Timestamp, to_ns, from_ns, Inode, DbError, name_too_long, sqlite, from_i64}
use vibedbfs.Db.{InodeRow, Dirent, Tables, Engine}
use vibedbfs.Db.Keys.{chunk_keys}

module _ {ℓ} {A : Type ℓ} where
  -- The row with a primary key.
  abbrev pub lookup_row : ℕ → List (ℕ × A) → Option A
  lookup_row k [] = none
  lookup_row k ((j, r) ∷ rows) = if j == k then some r else lookup_row k rows

  abbrev pub insert_row : ℕ → A → List (ℕ × A) → List (ℕ × A)
  insert_row k r rows = (k, r) ∷ rows

  -- `UPDATE … WHERE key = k`.
  abbrev pub update_row : ℕ → (A → A) → List (ℕ × A) → List (ℕ × A)
  update_row k f [] = []
  update_row k f ((j, r) ∷ rows) = (j, if j == k then f r else r) ∷ update_row k f rows

  -- `DELETE … WHERE key = k`.
  abbrev pub delete_row : ℕ → List (ℕ × A) → List (ℕ × A)
  delete_row k [] = []
  delete_row k ((j, r) ∷ rows) = if j == k then delete_row k rows else (j, r) ∷ delete_row k rows

-- `n as u32` of an i64.
abbrev pub i64_as_u32 : ℤ → ℕ
i64_as_u32 (pos n) = n % 2 ^ 32
i64_as_u32 (negsuc n) = 2 ^ 32 - 1 - n % 2 ^ 32

-- `inode_from_row`. A bad kind is a conversion failure of the row, with SQLite's text.
unfoldable pub inode_from_row : Engine → ℕ → InodeRow → Result DbError Inode
inode_from_row E ino r = elim (from_i64 r.kind) [
  | err e ↦ err (sqlite E.conversion_message)
  | ok kind ↦ ok (record {
    ino = ino;
    kind = kind;
    mode = r.mode;
    uid = r.uid;
    gid = r.gid;
    size = r.size;
    atime = from_ns r.atime_ns;
    mtime = from_ns r.mtime_ns;
    ctime = from_ns r.ctime_ns;
    nlink = i64_as_u32 r.nlink;
  })
]

abbrev pub name_max : ℕ
name_max = 255

unfoldable pub check_name : List ℕ → Result DbError (Unit {0})
check_name name = if ltb name_max (length name) then err name_too_long else ok tt

-- `set_size`.
unfoldable pub set_size : ℕ → ℕ → Timestamp → Tables → Tables
set_size ino size modified t = record t {
  inodes =
      update_row ino
        (λ r. record r { size = size; mtime_ns = to_ns modified; ctime_ns = to_ns modified })
        t.inodes;
}

-- `touch_dir`.
unfoldable pub touch_dir : ℕ → Timestamp → Tables → Tables
touch_dir ino now t = record t {
  inodes = update_row ino (λ r. record r { mtime_ns = to_ns now; ctime_ns = to_ns now }) t.inodes;
}

-- `add_directory_nlink`.
unfoldable pub add_directory_nlink : ℕ → ℤ → Tables → Tables
add_directory_nlink ino delta t = record t {
  inodes = update_row ino (λ r. record r { nlink = r.nlink +ℤ delta }) t.inodes;
}

-- `UPDATE inodes SET nlink = …, ctime_ns = … WHERE ino = …`.
unfoldable pub set_nlink : ℕ → ℕ → Timestamp → Tables → Tables
set_nlink ino nlink now t = record t {
  inodes = update_row ino (λ r. record r { nlink = pos nlink; ctime_ns = to_ns now }) t.inodes;
}

-- `UPSERT_CHUNK`.
unfoldable pub upsert_chunk : ℕ → Bytes → (ℕ → Option Bytes) → ℕ → Option Bytes
upsert_chunk key bytes chunks k = if k == key then some bytes else chunks k

-- `DELETE FROM file_chunks WHERE id BETWEEN from AND to`.
unfoldable pub delete_chunks : ℕ → ℕ → (ℕ → Option Bytes) → ℕ → Option Bytes
delete_chunks from to chunks k = if leb from k && leb k to then none else chunks k

-- The entry `name` of `parent`.
abbrev pub is_entry : ℕ → List ℕ → Dirent → Bool
is_entry parent name d = d.parent == parent && list_eq d.name name

-- `DELETE FROM dirents WHERE parent_ino = … AND name = …`.
unfoldable pub delete_entry : ℕ → List ℕ → Tables → Tables
delete_entry parent name t = record t {
  dirents = retain (λ d. not (is_entry parent name d)) t.dirents;
}

-- The two statements of `delete_inode_rows`: the chunk range, and the row with what its foreign-key
-- cascades delete.
abbrev pub delete_chunk_rows : ℕ → Tables → Tables
delete_chunk_rows ino t = record t {
  file_chunks = delete_chunks (chunk_keys ino).0 (chunk_keys ino).1 t.file_chunks;
}

abbrev pub delete_inode_row : ℕ → Tables → Tables
delete_inode_row ino t = record t {
  inodes = delete_row ino t.inodes;
  dirents = retain (λ d. not (d.parent == ino || d.child == ino)) t.dirents;
  symlink_targets = delete_row ino t.symlink_targets;
}

unfoldable pub delete_inode_rows : ℕ → Tables → Tables
delete_inode_rows ino t = delete_inode_row ino (delete_chunk_rows ino t)

-- A row id is in the order of its table.
abbrev pub insert_by_id : Dirent → List Dirent → List Dirent
insert_by_id d [] = d ∷ []
insert_by_id d (e ∷ es) = if ltb d.id e.id then d ∷ e ∷ es else e ∷ insert_by_id d es
