-- ===== src/Tests/Samples.antt =====
-- Test data: an engine that never fails, a small database and a table with one open file.
use vibedbfs.Prelude.{
  ℕ, ◌+◌, max, List, [], ◌∷◌, Option, none, some, false, pos, filled, ok, push, empty_vec,
}
use vibedbfs.Model.{regular_file, Timestamp, DbError}
use vibedbfs.Arena.{ChunkArena}
use vibedbfs.OpenTable.Inodes.{OpenInodes, epoch}
use vibedbfs.OpenTable.Handles.{HandleTable}
use vibedbfs.Db.{Tables, Engine, InodeRow}
use vibedbfs.Fs.{Fs}

abbrev largest_id : List ℕ → ℕ
largest_id [] = 0
largest_id (x ∷ xs) = max x (largest_id xs)

abbrev no_failure : Tables → Option DbError
no_failure t = none

-- SQLite's usual choice: one more than the largest row id.
abbrev pub quiet : Engine
quiet = record {
  next_rowid = λ ids. largest_id ids + 1;
  query_failure = no_failure;
  commit_failure = no_failure;
  sync_failure = no_failure;
  conversion_message = [];
  foreign_key_message = [];
}

abbrev pub root_row : InodeRow
root_row = record {
  kind = pos 2;
  mode = 493;
  uid = 0;
  gid = 0;
  size = 0;
  atime_ns = pos 0;
  mtime_ns = pos 0;
  ctime_ns = pos 0;
  nlink = pos 2;
}

abbrev pub file_row : InodeRow
file_row = record root_row { kind = pos 1; mode = 420; size = 10; nlink = pos 1 }

-- The root with one file of ten bytes, `a`, whose only chunk holds ten sevens.
abbrev pub small : Tables
small = record {
  inodes = (1, root_row) ∷ (2, file_row) ∷ [];
  dirents = record { id = 1; parent = 1; name = 97 ∷ []; child = 2 } ∷ [];
  file_chunks = λ k. some (filled 10 7);
  symlink_targets = [];
}

-- One slot of the arena, in use, with twelve nines.
abbrev pub one_chunk : ChunkArena
one_chunk = record { bytes = filled 65536 9; len = filled 1 12; free = []; max_slots = 4 }

-- The file is open once and has a dirty chunk.
abbrev pub one_open : OpenInodes
one_open = record {
  ino = filled 1 2;
  kind = filled 1 regular_file;
  size = filled 1 12;
  mtime = filled 1 epoch;
  refs = filled 1 1;
  unlinked = filled 1 false;
  dirty = filled 1 ((0, 0) ∷ []);
  by_ino = (2, 0) ∷ [];
  free = [];
}

abbrev pub one_handle : HandleTable
one_handle = record { slot = filled 1 0; free = [] }

abbrev pub mounted : Fs
mounted = record {
  tables = small;
  table = record { inodes = one_open; handles = one_handle; arena = one_chunk; closing = false };
  last_flush = ok tt;
  kernel_cache = false;
}

-- The same, with columns that are empty past the first slot.
abbrev pub one_dirty : OpenInodes
one_dirty = record one_open { dirty = push (empty_vec []) ((0, 0) ∷ []) }

abbrev pub buffered : Fs
buffered = record mounted { table = record (mounted.table) { inodes = one_dirty } }

abbrev pub later : Timestamp
later = record { secs = pos 5; nsec = 6 }
