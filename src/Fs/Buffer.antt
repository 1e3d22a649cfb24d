-- ===== src/Fs/Buffer.antt =====
-- fuse.rs, `Shared`: reads and writes through the open-inode table, and eviction.
pub mod Eviction
pub mod View
pub mod Sound
pub mod Writes
use vibedbfs.Prelude.{
  ℕ, zero, suc, ◌+◌, ◌-◌, ◌*◌, min, max, List, [], ◌∷◌, map, Option, none, some, unwrap_or, Bool,
  true, false, ◌&&◌, ◌||◌, not, ltb, leb, ◌==◌, if◌then◌else◌, Vec, Bytes, set_at, filled,
  empty_vec, slice, Result, ok, err, is_empty,
}
use vibedbfs.Model.{Timestamp, FileKind, Inode, DbError, directory, regular_file_error}
use vibedbfs.Arena
use vibedbfs.Arena.{ChunkArena, chunk_size, as_u32, chunk}
use vibedbfs.Arena.Dirty.{DirtyIdx, range, release_into, slot_at}
use vibedbfs.Arena.Dirty
use vibedbfs.Span.{ChunkSpan, piece, is_full_chunk, copy_out}
use vibedbfs.Span
use vibedbfs.OpenTable.{OpenTable}
use vibedbfs.OpenTable.Inodes.{OpenInodes, find, insert, remove, is_open, live_slots, largest_dirty}
use vibedbfs.OpenTable.Handles
use vibedbfs.Db.{Tables, Engine, sync_durable}
use vibedbfs.Db.Keys.{max_file_size}
use vibedbfs.Db.Nodes.{inode_head, delete_inode}
use vibedbfs.Db.Files.{read_into, read_chunk_into, replace_chunks}
use vibedbfs.Db.Dirs.{is_directory_kind}
use vibedbfs.Fs.{
  Fs, M, Errno, eio, efbig, ebadf, errno_from_db_error, and_then, ◌>>=◌, ◌>>◌, pure, fail, from_db,
  store, or_errno,
}
use vibedbfs.Fs.Flush.{
  Unlinked, after_flush, cleaned, dirty_chunks, discard_slot, first_error, flush_all, flush_one,
  flush_slot, flush_slots, free_if_idle, is_skip, persist, record_flush, refuse_writes, skip,
  with_arena, with_inodes,
}

unfoldable pub slot_for : Engine → ℕ → M ℕ
slot_for E ino s = elim (find s.table.inodes ino) [
  | some slot ↦ (ok slot, s)
  | none ↦ elim (inode_head E s.tables ino) [
    | err e ↦ (err (errno_from_db_error e), s)
    | ok (kind, size) ↦
        let (slot, inodes) = insert s.table.inodes ino kind size in (ok slot, with_inodes s inodes)
  ]
]

unfoldable pub open_slot : ℕ → Fs → ℕ × Fs
open_slot i s =
    let inodes = s.table.inodes in
    let (fh, handles) = Handles.alloc s.table.handles i in
    (
      fh,
      record s {
        table = record (s.table) {
          inodes = record inodes { refs = set_at inodes.refs i (inodes.refs.at i + 1) };
          handles = handles;
        };
      },
    )

-- The dirty chunks laid over what the database holds.
unfoldable pub overlay : ChunkSpan → ChunkArena → DirtyIdx → Bytes → Bytes
overlay span arena [] out = out
overlay span arena ((index, a) ∷ rest) out =
    overlay span arena rest (copy_out span index (chunk arena a) out)

-- `expect("non-empty read")`: the span of at least one byte.
abbrev pub overlay_dirty : Option ChunkSpan → ChunkArena → DirtyIdx → Bytes → Bytes
overlay_dirty none arena dirty out = out
overlay_dirty (some span) arena dirty out =
    overlay span arena (range span.first span.last dirty) out

unfoldable pub read_slot : Engine → Fs → ℕ → ℕ → ℕ → Result Errno Bytes
read_slot E s i offset size =
    let inodes = s.table.inodes in
    elim (regular_file_error (inodes.kind.at i)) [
      | some e ↦ err (errno_from_db_error e)
      | none ↦
          let file_size = inodes.size.at i in
          let n = min size (file_size - offset) in
          if leb file_size offset || size == 0
          then ok (empty_vec 0)
          else elim (read_into E s.tables (inodes.ino.at i) offset (filled n 0)) [
            | err e ↦ err (errno_from_db_error e)
            | ok stored ↦
                ok (overlay_dirty (Span.new offset n) s.table.arena (inodes.dirty.at i) stored)
          ]
    ]

-- One round of the loop of `alloc_chunk`, when the arena is full.
unfoldable pub evict : Engine → ℕ → M (Unit {0})
evict E writing = do
  inodes ← (λ s. (ok s.table.inodes, s))
  victim ← or_errno (largest_dirty inodes) eio
  flush_slot E victim persist
  λ s. (ok tt, if victim == writing then s else free_if_idle victim s)

-- After an eviction the loop goes on, unless it failed.
abbrev pub evicted :
    Result Errno (Unit {0}) × Fs
    → (Fs → Option (Result Errno ℕ × Fs))
    → Option (Result Errno ℕ × Fs)
evicted (err e, s) again = some (err e, s)
evicted (ok _, s) again = again s

-- The loop of `alloc_chunk`; `none` where it has not ended after `fuel` rounds.
unfoldable pub alloc_loop : ℕ → Engine → ℕ → Fs → Option (Result Errno ℕ × Fs)
alloc_loop zero E writing s = none
alloc_loop (suc fuel) E writing s =
    let again = λ (s' : Fs). alloc_loop fuel E writing s' in
    elim (Arena.alloc s.table.arena) [
      | some (a, arena) ↦ some (ok a, with_arena s arena)
      | none ↦ evicted (evict E writing s) again
    ]

-- Two rounds are enough (`alloc_loop_ends`).
unfoldable pub alloc_chunk : Engine → ℕ → M ℕ
alloc_chunk E writing s = unwrap_or (alloc_loop 2 E writing s) (err eio, s)

abbrev pub with_dirty : Fs → ℕ → DirtyIdx → Fs
with_dirty s i dirty =
    with_inodes s (record (s.table.inodes) { dirty = set_at s.table.inodes.dirty i dirty })

-- The insert position after an eviction, `unwrap_err` in the source.
abbrev pub position_err : Result ℕ ℕ → ℕ
position_err (ok p) = p
position_err (err p) = p

-- A new dirty chunk: its stored bytes are loaded unless the write covers the whole chunk.
unfoldable pub fill_chunk : Engine → ℕ → ℕ → Bool → ℕ → M (Unit {0})
fill_chunk E i index full a s =
    let arena = s.table.arena in
    elim full [
      | true ↦ (ok tt, s)
      | false ↦ elim (read_chunk_into E s.tables (s.table.inodes.ino.at i) index chunk_size) [
        | ok stored ↦
            (ok tt, with_arena s (Arena.set_len (Arena.load_buffer arena a stored) a stored.len))
        | err e ↦ (err (errno_from_db_error e), with_arena s (Arena.release arena a))
      ]
    ]

unfoldable pub add_dirty : ℕ → ℕ → ℕ → Fs → Fs
add_dirty i index a s =
    let dirty = s.table.inodes.dirty.at i in
    with_dirty s i (Dirty.insert (position_err (Dirty.find index dirty)) index a dirty)

-- The arena slot of the chunk, new if the chunk is not dirty yet.
unfoldable pub dirty_slot : Engine → ℕ → ℕ → Bool → M ℕ
dirty_slot E i index full s = elim (Dirty.find index (s.table.inodes.dirty.at i)) [
  | ok position ↦ (ok (slot_at (s.table.inodes.dirty.at i) position), s)
  | err _ ↦
      (do a ← alloc_chunk E i; fill_chunk E i index full a; λ s'. (ok a, add_dirty i index a s')) s
]

-- The bytes of a piece go to the arena, and the size grows to the end of the piece.
unfoldable pub write_chunk : ℕ → ChunkSpan → Bytes → ℕ → ℕ → Fs → Fs
write_chunk i span input index a s =
    let p = piece span index in
    let inodes = s.table.inodes in
    record s {
      table = record (s.table) {
        arena = Arena.write s.table.arena a p.chunk_start p.chunk_end input p.buf_start;
        inodes = record inodes {
          size = set_at inodes.size i (max (inodes.size.at i) (index * chunk_size + p.chunk_end));
        };
      };
    }

-- `for chunk_index in first..=last`, `n` rounds.
unfoldable pub write_chunks : Engine → ℕ → ChunkSpan → Bytes → ℕ → ℕ → M (Unit {0})
write_chunks E i span input index zero s = (ok tt, s)
write_chunks E i span input index (suc n) s =
    and_then (dirty_slot E i index (is_full_chunk (piece span index)) s)
      (λ a s'. write_chunks E i span input (index + 1) n (write_chunk i span input index a s'))

-- `data.len()` bytes at `offset`, at the time `now`.
unfoldable pub write_slot : Engine → Timestamp → ℕ → ℕ → Bytes → M ℕ
write_slot E now i offset input s =
    let inodes = s.table.inodes in
    elim (regular_file_error (inodes.kind.at i)) [
      | some e ↦ (err (errno_from_db_error e), s)
      | none ↦ if s.table.closing then (err eio, s) else elim (Span.new offset input.len) [
        | none ↦ (ok 0, s)
        | some span ↦
            if ltb max_file_size span.end
            then (err efbig, s)
            else let stamped =
                with_inodes s (record inodes { mtime = set_at inodes.mtime i now }) in
              and_then (write_chunks E i span input span.first (span.last + 1 - span.first) stamped)
                (λ u. pure (as_u32 input.len))
      ]
    ]
