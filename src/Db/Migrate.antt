-- ===== src/Db/Migrate.antt =====
-- db.rs, `migrate`: older layouts of the tables and their upgrade to version 4.
--
-- A table stands in one of two layouts, which is what `table_has_column` asks.
pub mod Rekeyed
pub mod Renumbered
pub mod Timed
pub mod Upgraded
use vibedbfs.Prelude.{
  ℕ, suc, ◌+◌, ◌*◌, ℤ, pos, negsuc, ltb_ℤ, ◌+ℤ◌, unsigned_abs, neg_ℕ, List, [], ◌∷◌, map, Option,
  none, some, Bool, true, false, ◌&&◌, ◌||◌, leb, ltb, ◌==◌, if◌then◌else◌, is_some, Bytes, Result,
  ok, err, ◌>>=◌, map_ok, length, retain,
}
use vibedbfs.Model.{DbError, unsupported_schema, sqlite, billion, i64_max}
use vibedbfs.Db.{InodeRow, Dirent}
use vibedbfs.Db.Keys.{max_chunks, max_ino, chunk_key}
use vibedbfs.Db.Rows.{lookup_row, upsert_chunk}
use vibedbfs.Db.Dirs.{name_le}

abbrev pub schema_version : ℕ
schema_version = 4

-- A row of `inodes` before version 4. Before version 1 there may be no columns of nanoseconds.
pub record SplitRow : Type 0 where
  pub row : InodeRow
  pub atime : ℤ
  pub atime_nsec : Option ℕ
  pub mtime : ℤ
  pub mtime_nsec : Option ℕ
  pub ctime : ℤ
  pub ctime_nsec : Option ℕ

-- A row of `file_chunks` before version 4.
pub record IndexedChunk : Type 0 where
  pub ino : ℕ
  pub index : ℕ
  pub bytes : Bytes

-- A row of `dirents` before version 3.
pub record Unnumbered : Type 0 where
  pub parent : ℕ
  pub name : List ℕ
  pub child : ℕ

pub data InodesLayout : Type 0 where
  split : List (ℕ × SplitRow) → InodesLayout
  merged : List (ℕ × InodeRow) → InodesLayout

pub data DirentsLayout : Type 0 where
  unnumbered : List Unnumbered → DirentsLayout
  numbered : List Dirent → DirentsLayout

pub data ChunksLayout : Type 0 where
  by_index : List IndexedChunk → ChunksLayout
  by_key : (ℕ → Option Bytes) → ChunksLayout

pub record Layout : Type 0 where
  pub version : ℤ
  pub inodes : InodesLayout
  pub dirents : DirentsLayout
  pub chunks : ChunksLayout

-- `ALTER TABLE … ADD COLUMN … DEFAULT 0` where the column is missing.
abbrev pub default_zero : Option ℕ → Option ℕ
default_zero none = some 0
default_zero (some n) = some n

unfoldable pub ensure_nsec_columns : InodesLayout → InodesLayout
ensure_nsec_columns (split rows) = split (
    map
      (λ x. (
        x.0,
        record (x.1) {
          atime_nsec = default_zero x.1.atime_nsec;
          mtime_nsec = default_zero x.1.mtime_nsec;
          ctime_nsec = default_zero x.1.ctime_nsec;
        },
      ))
      rows)
ensure_nsec_columns (merged rows) = merged rows

-- `ns`: the CASE expression of `merge_timestamp_columns`.
unfoldable pub merged_ns : ℤ → ℕ → ℤ
merged_ns secs nsec =
    if ltb_ℤ (pos 9223372035) secs
    then pos i64_max
    else (if ltb_ℤ secs (neg_ℕ 9223372035)
        then negsuc i64_max
        else (if ltb_ℤ secs (pos 0)
            then neg_ℕ (unsigned_abs secs * billion + nsec)
            else pos (unsigned_abs secs * billion + nsec)))

-- A statement on a column that is missing fails.
abbrev pub column : DbError → Option ℕ → Result DbError ℕ
column missing none = err missing
column missing (some n) = ok n

abbrev pub merge_row : DbError → SplitRow → Result DbError InodeRow
merge_row missing r = do
  atime ← column missing r.atime_nsec
  mtime ← column missing r.mtime_nsec
  ctime ← column missing r.ctime_nsec
  ok (record (r.row) {
    atime_ns = merged_ns r.atime atime;
    mtime_ns = merged_ns r.mtime mtime;
    ctime_ns = merged_ns r.ctime ctime;
  })

unfoldable pub merge_timestamp_columns :
    DbError → List (ℕ × SplitRow) → Result DbError (List (ℕ × InodeRow))
merge_timestamp_columns missing [] = ok []
merge_timestamp_columns missing ((k, r) ∷ rows) = do
  row ← merge_row missing r
  rest ← merge_timestamp_columns missing rows
  ok ((k, row) ∷ rest)

-- `ORDER BY parent_ino, name`.
abbrev pub entry_le : Unnumbered → Unnumbered → Bool
entry_le a b = ltb a.parent b.parent || (a.parent == b.parent && name_le a.name b.name)

abbrev pub insert_entry : Unnumbered → List Unnumbered → List Unnumbered
insert_entry a [] = a ∷ []
insert_entry a (b ∷ bs) = if entry_le a b then a ∷ b ∷ bs else b ∷ insert_entry a bs

abbrev pub sort_entries : List Unnumbered → List Unnumbered
sort_entries [] = []
sort_entries (a ∷ rest) = insert_entry a (sort_entries rest)

-- Rows that are inserted into an empty table get the ids from one on.
abbrev pub number_from : ℕ → List Unnumbered → List Dirent
number_from n [] = []
number_from n (a ∷ rest) =
    record { id = n; parent = a.parent; name = a.name; child = a.child } ∷ number_from (suc n) rest

unfoldable pub number_dirents : DirentsLayout → DirentsLayout
number_dirents (unnumbered entries) = numbered (number_from 1 (sort_entries entries))
number_dirents (numbered entries) = numbered entries

abbrev pub is_too_large : IndexedChunk → Bool
is_too_large c = leb max_chunks c.index || ltb max_ino c.ino

-- `INSERT … SELECT … WHERE ino IN (SELECT ino FROM inodes)`. A chunk has one row.
abbrev pub rekey : (ℕ → Bool) → List IndexedChunk → ℕ → Option Bytes
rekey exists [] = λ key. none
rekey exists (c ∷ rest) =
    let chunks = rekey exists rest in
    if exists c.ino then upsert_chunk (chunk_key c.ino c.index) c.bytes chunks else chunks

-- `describe` is the text of the error for a number of chunks.
unfoldable pub rekey_file_chunks :
    (ℕ → List ℕ) → (ℕ → Bool) → List IndexedChunk → Result DbError (ℕ → Option Bytes)
rekey_file_chunks describe exists old =
    let too_large = length (retain is_too_large old) in
    if too_large == 0 then ok (rekey exists old) else err (sqlite (describe too_large))

abbrev pub ino_exists : InodesLayout → ℕ → Bool
ino_exists (split rows) ino = is_some (lookup_row ino rows)
ino_exists (merged rows) ino = is_some (lookup_row ino rows)

abbrev pub merge_inodes : DbError → InodesLayout → Result DbError InodesLayout
merge_inodes missing (split rows) = map_ok merged (merge_timestamp_columns missing rows)
merge_inodes missing (merged rows) = ok (merged rows)

abbrev pub rekey_chunks : (ℕ → List ℕ) → (ℕ → Bool) → ChunksLayout → Result DbError ChunksLayout
rekey_chunks describe exists (by_index old) = map_ok by_key (rekey_file_chunks describe exists old)
rekey_chunks describe exists (by_key chunks) = ok (by_key chunks)

-- The indexes that the steps create do not show in the rows. `missing` is SQLite's error for a
-- column that is not there.
unfoldable pub migrate_steps : DbError → (ℕ → List ℕ) → Layout → Result DbError Layout
migrate_steps missing describe l =
    let timed = if ltb_ℤ l.version (pos 1) then ensure_nsec_columns l.inodes else l.inodes in
    let named = if ltb_ℤ l.version (pos 3) then number_dirents l.dirents else l.dirents in
    (do
      inodes ← merge_inodes missing timed
      chunks ← rekey_chunks describe (ino_exists inodes) l.chunks
      ok (record {
        version = pos schema_version;
        inodes = inodes;
        dirents = named;
        chunks = chunks;
      }))

-- Before the last version every step that is left is done in one transaction, whose failure leaves
-- the old layout. `committed` says whether it fails.
unfoldable pub migrate : DbError → (ℕ → List ℕ) → Option DbError → Layout → Result DbError Layout
migrate missing describe committed l =
    if ltb_ℤ (pos schema_version) l.version
    then err (unsupported_schema l.version)
    else (if ltb_ℤ l.version (pos schema_version)
        then (do
          upgraded ← migrate_steps missing describe l
          elim committed [ none ↦ ok upgraded | some e ↦ err e ])
        else ok l)
