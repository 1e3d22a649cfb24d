-- ===== src/Fs/Flush.antt =====
-- fuse.rs, `Shared`: storing the dirty chunks of open inodes.
pub mod Transparent
pub mod Rows
pub mod Durable
use vibedbfs.Prelude.{
  ℕ, List, [], ◌∷◌, map, Option, none, some, Bool, true, false, ◌&&◌, ◌||◌, ◌==◌, if◌then◌else◌,
  Bytes, set_at, Result, ok, err, is_empty,
}
use vibedbfs.Arena.{ChunkArena, chunk}
use vibedbfs.Arena.Dirty.{release_into}
use vibedbfs.OpenTable.Inodes.{OpenInodes, remove, live_slots}
use vibedbfs.Db.{Tables, Engine, sync_durable}
use vibedbfs.Db.Files.{replace_chunks}
use vibedbfs.Fs.{Fs, M, Errno, errno_from_db_error, from_db}

pub data Unlinked : Type 0 where
  skip persist : Unlinked

abbrev pub is_skip : Unlinked → Bool
is_skip skip = true
is_skip persist = false

-- The state with other inodes or another arena.
abbrev pub with_inodes : Fs → OpenInodes → Fs
with_inodes s inodes = record s { table = record (s.table) { inodes = inodes } }

abbrev pub with_arena : Fs → ChunkArena → Fs
with_arena s arena = record s { table = record (s.table) { arena = arena } }

-- The chunks that a flush of the slot writes.
abbrev pub dirty_chunks : Fs → ℕ → List (ℕ × Bytes)
dirty_chunks s i = map (λ e. (e.0, chunk s.table.arena e.1)) (s.table.inodes.dirty.at i)

-- The state after a flush: the stored chunks are clean and their arena slots free.
abbrev pub cleaned : Fs → ℕ → Tables → Fs
cleaned s i tables = record s {
  tables = tables;
  table = record (s.table) {
    inodes = record (s.table.inodes) { dirty = set_at s.table.inodes.dirty i [] };
    arena = release_into (s.table.inodes.dirty.at i) s.table.arena;
  };
}

unfoldable pub flush_slot : Engine → ℕ → Unlinked → M (Unit {0})
flush_slot E i unlinked s =
    let inodes = s.table.inodes in
    if is_empty (inodes.dirty.at i) || (inodes.unlinked.at i && is_skip unlinked)
    then (ok tt, s)
    else elim (replace_chunks E s.tables (inodes.ino.at i) (inodes.size.at i) (dirty_chunks s i)
        (inodes.mtime.at i)) [
          | err e ↦ (err (errno_from_db_error e), s)
          | ok (_, tables) ↦ (ok tt, cleaned s i tables)
        ]

unfoldable pub free_if_idle : ℕ → Fs → Fs
free_if_idle i s =
    let inodes = s.table.inodes in
    if inodes.refs.at i == 0 && is_empty (inodes.dirty.at i)
    then with_inodes s (remove inodes i)
    else s

unfoldable pub discard_slot : ℕ → Fs → Fs
discard_slot i s =
    let t = s.table in
    record s {
      table = record t {
        inodes = remove (record (t.inodes) { dirty = set_at t.inodes.dirty i [] }) i;
        arena = release_into (t.inodes.dirty.at i) t.arena;
      };
    }

-- The first error of a loop that goes on after errors.
abbrev pub first_error : Option Errno → Errno → Option Errno
first_error none e = some e
first_error (some f) e = some f

-- What `flush_all` does with the outcome for one slot.
abbrev pub after_flush : ℕ → Option Errno → Result Errno (Unit {0}) × Fs → Option Errno × Fs
after_flush i failed (ok _, s) = (failed, free_if_idle i s)
after_flush i failed (err e, s) = (first_error failed e, s)

-- One round of the loop of `flush_all`.
unfoldable pub flush_one : Engine → ℕ → Option Errno → Fs → Option Errno × Fs
flush_one E i failed s = after_flush i failed (flush_slot E i skip s)

unfoldable pub flush_slots : Engine → List ℕ → Option Errno → Fs → Option Errno × Fs
flush_slots E [] failed s = (failed, s)
flush_slots E (i ∷ is) failed s =
    let (failed', s') = flush_one E i failed s in flush_slots E is failed' s'

-- `sync_durable` runs in any case; the first failure of the loop comes before its error.
abbrev pub flush_result : Engine → Option Errno → M (Unit {0})
flush_result E (some e) s = (err e, s)
flush_result E none s = from_db (sync_durable E s.tables) s

unfoldable pub flush_all : Engine → M (Unit {0})
flush_all E s =
    let (failed, s') = flush_slots E (live_slots s.table.inodes) none s in flush_result E failed s'

unfoldable pub refuse_writes : Fs → Fs
refuse_writes s = record s { table = record (s.table) { closing = true } }

unfoldable pub record_flush : Result Errno (Unit {0}) → Fs → Fs
record_flush result s = record s { last_flush = result }
