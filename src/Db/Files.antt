-- ===== src/Db/Files.antt =====
-- db.rs: file contents, stored as chunks.
pub mod Contents
pub mod Writes
pub mod Truncation
use vibedbfs.Prelude.{
  ℕ, zero, suc, ◌+◌, ◌-◌, ◌*◌, ◌/◌, ◌%◌, ◌^◌, min, max, List, [], ◌∷◌, Option, none, some, Bool,
  true, false, ◌&&◌, ◌||◌, ltb, leb, ◌==◌, if◌then◌else◌, Bytes, filled, resize, copy_from, slice,
  empty_vec, Result, ok, err, ◌>>=◌, ◌>>◌, any,
}
use vibedbfs.Model.{Timestamp, DbError, file_too_large, regular_file_error}
use vibedbfs.Arena.{chunk_size, as_u32}
use vibedbfs.Span
use vibedbfs.Span.{ChunkSpan, piece, is_full_chunk, copy_out, u64_mod}
use vibedbfs.Db.{Tables, Engine, query, commit}
use vibedbfs.Db.Keys.{max_chunks, max_file_size, chunk_key, chunk_keys, chunk_index_of}
use vibedbfs.Db.Rows.{set_size, upsert_chunk, delete_chunks}
use vibedbfs.Db.Nodes.{inode_head, inode_kind_of}

-- The rows with `n` successive keys from `key` on, in key order.
unfoldable pub select_range : (ℕ → Option Bytes) → ℕ → ℕ → List (ℕ × Bytes)
select_range chunks key zero = []
select_range chunks key (suc n) =
    let rest = select_range chunks (key + 1) n in
    elim (chunks key) [ none ↦ rest | some bytes ↦ (key, bytes) ∷ rest ]

-- The loop of `read_into` over the rows.
unfoldable pub copy_rows : ChunkSpan → List (ℕ × Bytes) → Bytes → Bytes
copy_rows span [] out = out
copy_rows span ((key, bytes) ∷ rows) out =
    copy_rows span rows (copy_out span (chunk_index_of key) bytes out)

unfoldable pub read_into : Engine → Tables → ℕ → ℕ → Bytes → Result DbError Bytes
read_into E t ino offset out = elim (Span.new offset out.len) [
  | none ↦ ok out
  | some span ↦
      if leb max_chunks span.first
      then ok out
      else let from = chunk_key ino span.first in
        let to = chunk_key ino (min span.last (max_chunks - 1)) in
        query E t (copy_rows span (select_range t.file_chunks from (to + 1 - from)) out)
]

-- `if let Some(error) = kind.regular_file_error() { return Err(error) }`.
abbrev pub require_file : Option DbError → Result DbError (Unit {0})
require_file none = ok tt
require_file (some e) = err e

unfoldable pub read_file : Engine → Tables → ℕ → ℕ → ℕ → Result DbError Bytes
read_file E t ino offset size = do
  (kind, file_size) ← inode_head E t ino
  require_file (regular_file_error kind)
  if leb file_size offset || size == 0
      then ok (empty_vec 0)
      else read_into E t ino offset (filled (min size (file_size - offset)) 0)

-- The bytes of a chunk with `input` in place, `scratch` in the source.
unfoldable pub patched : Option Bytes → ℕ → ℕ → Bytes → Bytes
patched stored from to input =
    let scratch : Bytes = elim stored [ none ↦ empty_vec 0 | some bytes ↦ bytes ] in
    copy_from (if ltb scratch.len to then resize scratch to 0 else scratch) from to input 0

-- One round of the loop over the chunks of a write.
unfoldable pub write_piece : ℕ → ChunkSpan → Bytes → ℕ → (ℕ → Option Bytes) → ℕ → Option Bytes
write_piece ino span input index chunks =
    let p = piece span index in
    let bytes = slice input p.buf_start p.buf_end in
    let key = chunk_key ino index in
    if is_full_chunk p
    then upsert_chunk key bytes chunks
    else upsert_chunk key (patched (chunks key) p.chunk_start p.chunk_end bytes) chunks

-- `for chunk_index in first..=last`, `n` rounds.
unfoldable pub write_pieces : ℕ → ChunkSpan → Bytes → ℕ → ℕ → (ℕ → Option Bytes) → ℕ → Option Bytes
write_pieces ino span input index zero chunks = chunks
write_pieces ino span input index (suc n) chunks =
    write_pieces ino span input (index + 1) n (write_piece ino span input index chunks)

-- The loop over the writes of a batch: the chunks, the new size and the bytes written.
unfoldable pub write_batch :
    ℕ → List (ℕ × Bytes) → (ℕ → Option Bytes) → ℕ → ℕ → (ℕ → Option Bytes) × ℕ × ℕ
write_batch ino [] chunks size written = (chunks, size, written)
write_batch ino ((offset, input) ∷ writes) chunks size written = elim (Span.new offset input.len) [
  | none ↦ write_batch ino writes chunks size written
  | some span ↦
      write_batch ino writes
        (write_pieces ino span input span.first (span.last + 1 - span.first) chunks)
        (max size (offset + input.len)) (written + input.len)
]

-- `offset.saturating_add(len) > MAX_FILE_SIZE`.
abbrev pub too_large : ℕ × Bytes → Bool
too_large w = ltb max_file_size (min (w.0 + w.1.len) (u64_mod - 1))

abbrev pub has_bytes : ℕ × Bytes → Bool
has_bytes w = ltb 0 w.1.len

unfoldable pub write_file_batch_at :
    Engine → Tables → ℕ → List (ℕ × Bytes) → Timestamp → Result DbError (ℕ × Tables)
write_file_batch_at E t ino writes modified = do
  (kind, size) ← inode_head E t ino
  require_file (regular_file_error kind)
  if any has_bytes writes
      then (if any too_large writes
          then err file_too_large
          else let (chunks, new_size, written) = write_batch ino writes t.file_chunks size 0 in
            commit E (set_size ino new_size modified (record t { file_chunks = chunks }))
              (as_u32 written))
      else ok (0, t)

unfoldable pub write_file_batch :
    Engine → Tables → ℕ → List (ℕ × Bytes) → Timestamp → Result DbError (ℕ × Tables)
write_file_batch E t ino writes now = write_file_batch_at E t ino writes now

unfoldable pub write_file :
    Engine → Tables → ℕ → ℕ → Bytes → Timestamp → Result DbError (ℕ × Tables)
write_file E t ino offset input now = write_file_batch E t ino ((offset, input) ∷ []) now

-- The stored bytes that go to a buffer of `capacity` bytes; none for a hole.
abbrev pub fitting : ℕ → Option Bytes → Bytes
fitting capacity none = empty_vec 0
fitting capacity (some bytes) = slice bytes 0 (min bytes.len capacity)

unfoldable pub read_chunk_into : Engine → Tables → ℕ → ℕ → ℕ → Result DbError Bytes
read_chunk_into E t ino index capacity =
    query E t (fitting capacity (t.file_chunks (chunk_key ino index)))

unfoldable pub put_chunks : ℕ → List (ℕ × Bytes) → (ℕ → Option Bytes) → ℕ → Option Bytes
put_chunks ino [] chunks = chunks
put_chunks ino ((index, bytes) ∷ rest) chunks =
    put_chunks ino rest (upsert_chunk (chunk_key ino index) bytes chunks)

unfoldable pub replace_chunks :
    Engine → Tables → ℕ → ℕ → List (ℕ × Bytes) → Timestamp → Result DbError ((Unit {0}) × Tables)
replace_chunks E t ino size chunks now =
    commit E
      (set_size ino size now (record t { file_chunks = put_chunks ino chunks t.file_chunks })) tt

-- `substr(data, 1, n)` where the blob is longer than `n`.
unfoldable pub cut_chunk : ℕ → ℕ → (ℕ → Option Bytes) → ℕ → Option Bytes
cut_chunk key n chunks k =
    if k == key
    then elim (chunks k) [
      | none ↦ none
      | some bytes ↦ some (if ltb n bytes.len then slice bytes 0 n else bytes)
    ]
    else chunks k

unfoldable pub truncate_chunks : ℕ → ℕ → (ℕ → Option Bytes) → ℕ → Option Bytes
truncate_chunks ino size chunks =
    let (first_key, last_key) = chunk_keys ino in
    let final_key = chunk_key ino ((size - 1) / chunk_size) in
    if size == 0
    then delete_chunks first_key last_key chunks
    else cut_chunk final_key ((size - 1) % chunk_size + 1)
        (delete_chunks (final_key + 1) last_key chunks)

unfoldable pub truncate_file :
    Engine → Tables → Timestamp → ℕ → ℕ → Result DbError ((Unit {0}) × Tables)
truncate_file E t now ino size = do
  kind ← inode_kind_of E t ino
  require_file (regular_file_error kind)
  if ltb max_file_size size
      then err file_too_large
      else commit E
          (set_size ino size now
            (record t { file_chunks = truncate_chunks ino size t.file_chunks }))
          tt
