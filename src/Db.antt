-- ===== src/Db.antt =====
-- db.rs: the SQL tables that hold the filesystem, and what the program asks of SQLite.
--
-- A table is its rows, and each SQL statement of the source is a function on them. What SQLite
-- decides by itself enters by an `Engine`.
pub mod Keys
pub mod Rows
pub mod Nodes
pub mod Files
pub mod Dirs
pub mod Create
pub mod Remove
pub mod Links
pub mod Volume
pub mod Open
pub mod Migrate
use vibedbfs.Prelude.{ℕ, ℤ, List, Option, none, some, Bytes, Result, ok, err}
use vibedbfs.Model.{DbError, Timestamp}

-- A row of `inodes`. `ino` is the key of the row.
pub record InodeRow : Type 0 where
  pub kind : ℤ
  pub mode : ℕ
  pub uid : ℕ
  pub gid : ℕ
  pub size : ℕ
  pub atime_ns : ℤ
  pub mtime_ns : ℤ
  pub ctime_ns : ℤ
  pub nlink : ℤ

-- A row of `dirents`.
pub record Dirent : Type 0 where
  pub id : ℕ
  pub parent : ℕ
  pub name : List ℕ
  pub child : ℕ

-- `dirents` is in the order of its ids. `file_chunks` is only searched by key, so it is a function.
pub record Tables : Type 0 where
  pub inodes : List (ℕ × InodeRow)
  pub dirents : List Dirent
  pub file_chunks : ℕ → Option Bytes
  pub symlink_targets : List (ℕ × List ℕ)

-- SQLite and the file system below it: the row id that an INSERT gets, given those in use; the
-- failure of a query or of a transaction with given results, if it fails; the outcome of
-- `sync_data`; and the texts of two error messages. A failed transaction changes nothing.
pub record Engine : Type 0 where
  pub next_rowid : List ℕ → ℕ
  pub query_failure : Tables → Option DbError
  pub commit_failure : Tables → Option DbError
  pub sync_failure : Tables → Option DbError
  pub conversion_message : List ℕ
  pub foreign_key_message : List ℕ

abbrev pub check : {A : Type 0} → Option DbError → A → Result DbError A
check none a = ok a
check (some e) a = err e

-- The result of a query.
abbrev pub query : {A : Type 0} → Engine → Tables → A → Result DbError A
query E t a = check (E.query_failure t) a

-- The end of a transaction.
abbrev pub commit : {A : Type 0} → Engine → Tables → A → Result DbError (A × Tables)
commit E t a = check (E.commit_failure t) (a, t)

-- `sync_durable`.
unfoldable pub sync_durable : Engine → Tables → Result DbError (Unit {0})
sync_durable E t = check (E.sync_failure t) tt
