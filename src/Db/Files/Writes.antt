-- ===== src/Db/Files/Writes.antt =====
-- Writing to a file: its bytes afterwards, and the files that it leaves alone.
use vibedbfs.Prelude.{
  ℕ, zero, suc, ◌+◌, ◌-◌, ◌/◌, ◌%◌, ◌^◌, ◌≤◌, ◌<◌, min, max, ◌≡◌, refl, ap, ◌∙◌, [], ◌∷◌, Option,
  none, some, true, false, ◌&&◌, ◌||◌, ltb, ◌==◌, if◌then◌else◌, Bytes, byte, between, slice, ok,
  arith, Bool-cases, inl, inr,
}
use vibedbfs.Model.{Timestamp, regular_file}
use vibedbfs.Arena.{chunk_size, as_u32}
use vibedbfs.Span.{ChunkSpan, piece, is_full_chunk}
use vibedbfs.Span
use vibedbfs.Span.Pieces.{IsSpan, new-IsSpan}
use vibedbfs.Db.{Tables, Engine}
use vibedbfs.Db.Keys.{max_chunks, max_ino, max_file_size, chunk_key}
use vibedbfs.Db.Keys.Unpack.{chunk_key_lem}
use vibedbfs.Db.Rows.{upsert_chunk, set_size}
use vibedbfs.Db.Nodes.{inode_head}
use vibedbfs.Db.Files.{
  patched, write_piece, write_pieces, write_batch, write_file, write_file_batch,
  write_file_batch_at,
}
use vibedbfs.Db.Files.Contents.{chunk_byte, stored_byte}

-- Two chunks have one key only if they are the same chunk of the same inode.
pub key_eq :
    (other c ino k : ℕ)
    → other ≤ max_ino
    → c < max_chunks
    → ino ≤ max_ino
    → k < max_chunks
    → (chunk_key other c == chunk_key ino k) ≡ ((other == ino) && (c == k))
key_eq other c ino k h1 h2 h3 h4 =
    rw (chunk_key_lem other c h1 h2, chunk_key_lem ino k h3 h4) (ground arith)

-- An upsert replaces one chunk.
pub upsert_byte :
    (chunks : ℕ → Option Bytes) (b : Bytes) (ino k other p : ℕ)
    → ino ≤ max_ino
    → k < max_chunks
    → other ≤ max_ino
    → p < max_file_size
    → stored_byte (upsert_chunk (chunk_key ino k) b chunks) other p ≡ (
        if (other == ino) && (p / chunk_size == k)
        then byte b (p % chunk_size)
        else stored_byte chunks other p)
unfolding upsert_chunk
upsert_byte chunks b ino k other p h1 h2 h3 h4 =
    rw (key_eq other (p / chunk_size) ino k h3 (omega arith) h1 h2) (ground arith)

-- The chunk that one round of a write stores.
abbrev new_chunk : ChunkSpan → Bytes → ℕ → Option Bytes → Bytes
new_chunk span input k stored =
    let p = piece span k in
    let bytes = slice input p.buf_start p.buf_end in
    if is_full_chunk p then bytes else patched stored p.chunk_start p.chunk_end bytes

new_chunk_lem :
    (span : ChunkSpan) (input : Bytes) (k p : ℕ) (stored : Option Bytes)
    → IsSpan span
    → span.first ≤ k
    → k ≤ span.last
    → p / chunk_size ≡ k
    → byte (new_chunk span input k stored) (p % chunk_size) ≡ (
        if between span.start span.end p
        then input.at (p - span.start)
        else chunk_byte stored (p % chunk_size))
unfolding patched piece is_full_chunk
new_chunk_lem span input k p none s lo hi e = ground arith
new_chunk_lem span input k p (some b) s lo hi e = ground arith

write_piece-upsert :
    (ino : ℕ) (span : ChunkSpan) (input : Bytes) (k : ℕ) (chunks : ℕ → Option Bytes)
    → write_piece ino span input k chunks
      ≡ upsert_chunk (chunk_key ino k) (new_chunk span input k (chunks (chunk_key ino k))) chunks
unfolding write_piece
write_piece-upsert ino span input k chunks = elim (Bool-cases (is_full_chunk (piece span k))) [
  | inl full ↦ rw full
  | inr part ↦ rw part
]

write_piece_lem :
    (ino : ℕ) (span : ChunkSpan) (input : Bytes) (k other p : ℕ) (chunks : ℕ → Option Bytes)
    → IsSpan span
    → span.first ≤ k
    → k ≤ span.last
    → k < max_chunks
    → ino ≤ max_ino
    → other ≤ max_ino
    → p < max_file_size
    → stored_byte (write_piece ino span input k chunks) other p ≡ (
        if (other == ino) && ((p / chunk_size == k) && between span.start span.end p)
        then input.at (p - span.start)
        else stored_byte chunks other p)
write_piece_lem ino span input k other p chunks s lo hi below h1 h2 h3 =
    ap (λ c. stored_byte c other p) (write_piece-upsert ino span input k chunks)
    ∙ upsert_byte chunks (new_chunk span input k (chunks (chunk_key ino k))) ino k other p h1 below
        h2 h3
    ∙ elim (Bool-cases ((other == ino) && (p / chunk_size == k))) [
      | inr miss ↦ ground arith
      | inl hit ↦
          let same_ino : other ≡ ino = ground arith in
          let same_chunk : p / chunk_size ≡ k = ground arith in
          let new = new_chunk_lem span input k p (chunks (chunk_key ino k)) s lo hi same_chunk in
          rw hit (new ∙ rw (same_ino, same_chunk) (ground arith))
    ]

-- The rounds of a write, from chunk `k` on.
write_pieces_lem :
    (ino : ℕ) (span : ChunkSpan) (input : Bytes) (k n other p : ℕ) (chunks : ℕ → Option Bytes)
    → IsSpan span
    → span.first ≤ k
    → k + n ≤ span.last + 1
    → k + n ≤ max_chunks
    → ino ≤ max_ino
    → other ≤ max_ino
    → p < max_file_size
    → stored_byte (write_pieces ino span input k n chunks) other p ≡ (
        if (other == ino) && (between k (k + n) (p / chunk_size) && between span.start span.end p)
        then input.at (p - span.start)
        else stored_byte chunks other p)
unfolding write_pieces
write_pieces_lem ino span input k zero other p chunks s lo hi below h1 h2 h3 = ground arith
write_pieces_lem ino span input k (suc n) other p chunks s lo hi below h1 h2 h3 =
    write_pieces_lem ino span input (k + 1) n other p (write_piece ino span input k chunks) s
      (omega arith) (omega arith) (omega arith) h1 h2 h3
    ∙ ground (
      arith,
      write_piece_lem ino span input k other p chunks s lo (omega arith) (omega arith) h1 h2 h3,
    )

-- A whole write of `input` at `offset`.
write_span_lem :
    (ino offset other p : ℕ) (span : ChunkSpan) (input : Bytes) (chunks : ℕ → Option Bytes)
    → IsSpan span
    → span.start ≡ offset
    → span.end ≡ offset + input.len
    → span.end ≤ max_file_size
    → ino ≤ max_ino
    → other ≤ max_ino
    → p < max_file_size
    → stored_byte
        (write_pieces ino span input span.first (span.last + 1 - span.first) chunks)
        other
        p
      ≡ (if (other == ino) && between offset (offset + input.len) p
          then input.at (p - offset)
          else stored_byte chunks other p)
write_span_lem ino offset other p span input chunks s starts ends below h1 h2 h3 = ground (
  arith,
  write_pieces_lem ino span input span.first (span.last + 1 - span.first) other p chunks s
      (omega arith) (omega arith) (omega arith) h1 h2 h3,
)

write_batch-one :
    (ino offset size : ℕ) (span : ChunkSpan) (input : Bytes) (chunks : ℕ → Option Bytes)
    → Span.new offset input.len ≡ some span
    → write_batch ino ((offset, input) ∷ []) chunks size 0 ≡ (
      write_pieces ino span input span.first (span.last + 1 - span.first) chunks,
      max size (offset + input.len),
      0 + input.len,
    )
unfolding write_batch
write_batch-one ino offset size span input chunks made = rw (made, write_batch)

-- The tables that a successful write leaves: only the chunks, and the size and times of `ino`.
pub record Written (t : Tables) (ino offset : ℕ) (input : Bytes) (size : ℕ) (now : Timestamp)
    (u : Tables) : Type 0 where
  pub rows :
      u
      ≡ set_size ino (max size (offset + input.len)) now (record t { file_chunks = u.file_chunks })
  pub bytes :
      (other p : ℕ)
      → other ≤ max_ino
      → p < max_file_size
      → stored_byte u.file_chunks other p ≡ (
          if (other == ino) && between offset (offset + input.len) p
          then input.at (p - offset)
          else stored_byte t.file_chunks other p)

-- A write of at least one byte to a regular file, which ends within the size limit and whose
-- transaction does not fail, reports its length as a u32. It sets the new bytes in their range,
-- keeps every other byte of every file, and changes no row but the size and times of that inode.
pub write_file_lem :
    (E : Engine) (t : Tables) (ino offset size : ℕ) (input : Bytes) (now : Timestamp)
    → inode_head E t ino ≡ ok (regular_file, size)
    → ino ≤ max_ino
    → 0 < input.len
    → offset + input.len ≤ max_file_size
    → ((u : Tables) → E.commit_failure u ≡ none)
    → (u : Tables) × (write_file E t ino offset input now ≡ ok (as_u32 input.len, u))
      × Written t ino offset input size now u
unfolding write_file write_file_batch write_file_batch_at set_size
write_file_lem E t ino offset size input now head h some_bytes fits works =
    let (span, made, is, starts, ends) = new-IsSpan offset input.len some_bytes (omega arith) in
    let chunks =
      write_pieces ino span input span.first (span.last + 1 - span.first) t.file_chunks in
    let u = set_size ino (max size (offset + input.len)) now (record t { file_chunks = chunks }) in
    let asked : (ltb 0 input.len || false) ≡ true = ground arith in
    let small : (ltb max_file_size (min (offset + input.len) (2 ^ 64 - 1)) || false) ≡ false =
      ground arith in
    let total : 0 + input.len ≡ input.len = omega arith in
    (
      u,
      rw (
        head,
        asked,
        small,
        write_batch-one ino offset size span input t.file_chunks made,
        works u,
        total,
      ),
      record {
        rows = refl;
        bytes = λ other p k r.
            write_span_lem ino offset other p span input t.file_chunks is starts ends (omega arith)
              h k r;
      },
    )
