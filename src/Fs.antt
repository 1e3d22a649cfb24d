-- ===== src/Fs.antt =====
-- fuse.rs: the state of the mounted filesystem, and operations as functions on it.
--
-- An operation takes the state and returns its result or an errno with the new state. It runs as a
-- whole, since the source holds the table's lock from its first access to its last.
pub mod Flush
pub mod Buffer
pub mod Close
pub mod Attr
pub mod Ops
use vibedbfs.Prelude.{ℕ, Bool, false, Option, none, some, Result, ok, err}
use vibedbfs.Model.{
  DbError, already_exists, directory_not_empty, invalid_input, is_directory, name_too_long,
  no_space, not_directory, not_found, corrupt, unsupported_schema, file_too_large, sqlite,
}
use vibedbfs.OpenTable
use vibedbfs.OpenTable.{OpenTable}
use vibedbfs.Db.{Tables, Engine}

-- The constants of libc that the program names.
pub data Errno : Type 0 where
  enoent eexist enotempty einval eisdir enametoolong enospc enotdir efbig eio : Errno
  ebadf enodev eopnotsupp enodata erange eperm : Errno

unfoldable pub errno_from_db_error : DbError → Errno
errno_from_db_error not_found = enoent
errno_from_db_error already_exists = eexist
errno_from_db_error directory_not_empty = enotempty
errno_from_db_error invalid_input = einval
errno_from_db_error is_directory = eisdir
errno_from_db_error name_too_long = enametoolong
errno_from_db_error no_space = enospc
errno_from_db_error not_directory = enotdir
errno_from_db_error file_too_large = efbig
errno_from_db_error corrupt = eio
errno_from_db_error (unsupported_schema version) = eio
errno_from_db_error (sqlite message) = eio

-- `Shared`, with the tables that its `Db` holds.
pub record Fs : Type 0 where
  pub tables : Tables
  pub table : OpenTable
  pub last_flush : Result Errno (Unit {0})
  pub kernel_cache : Bool

-- `Dbfs::with_write_buffer`.
unfoldable pub with_write_buffer : Tables → ℕ → Fs
with_write_buffer tables write_buffer = record {
  tables = tables;
  table = OpenTable.new write_buffer;
  last_flush = ok tt;
  kernel_cache = false;
}

abbrev pub M : Type 0 → Type 0
M A = Fs → Result Errno A × Fs

module _ {A B : Type 0} where
  abbrev pub and_then : Result Errno A × Fs → (A → M B) → Result Errno B × Fs
  and_then (ok a, s) f = f a s
  and_then (err e, s) f = (err e, s)

  infixl 5 ◌>>=◌ ◌>>◌
  abbrev pub ◌>>=◌ : M A → (A → M B) → M B
  ◌>>=◌ m f s = and_then (m s) f

  abbrev pub ◌>>◌ : M A → M B → M B
  ◌>>◌ m k s = and_then (m s) (λ a. k)

module _ {A : Type 0} where
  abbrev pub pure : A → M A
  pure a s = (ok a, s)

  abbrev pub fail : Errno → M A
  fail e s = (err e, s)

  -- A result of `Db` that changes nothing, with its error as an errno.
  abbrev pub from_db : Result DbError A → M A
  from_db (ok a) s = (ok a, s)
  from_db (err e) s = (err (errno_from_db_error e), s)

  -- A transaction: its tables on success.
  abbrev pub store : Result DbError (A × Tables) → M A
  store (ok (a, t)) s = (ok a, record s { tables = t })
  store (err e) s = (err (errno_from_db_error e), s)

  abbrev pub or_errno : Option A → Errno → M A
  or_errno none e s = (err e, s)
  or_errno (some a) e s = (ok a, s)
