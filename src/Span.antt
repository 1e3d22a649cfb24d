-- ===== src/Span.antt =====
-- db.rs, `ChunkSpan` and `ChunkPiece`: the chunks that a byte range covers.
pub mod Pieces
use vibedbfs.Prelude.{
  ℕ, ◌+◌, ◌-◌, ◌*◌, ◌/◌, ◌%◌, ◌^◌, min, max, Bool, ◌&&◌, Option, none, some, ltb, leb, ◌==◌,
  if◌then◌else◌, Bytes, copy_from,
}
use vibedbfs.Arena.{chunk_size}

pub record ChunkSpan : Type 0 where
  pub start : ℕ
  pub end : ℕ
  pub first : ℕ
  pub last : ℕ

-- `chunk` and `buf` are half-open ranges.
pub record ChunkPiece : Type 0 where
  pub chunk_start : ℕ
  pub chunk_end : ℕ
  pub buf_start : ℕ
  pub buf_end : ℕ

unfoldable pub is_full_chunk : ChunkPiece → Bool
is_full_chunk p = p.chunk_start == 0 && p.chunk_end == chunk_size

abbrev pub u64_mod : ℕ
u64_mod = 2 ^ 64

-- u64 arithmetic wraps, as in a release build.
unfoldable pub new : ℕ → ℕ → Option ChunkSpan
new offset len =
    let end = (offset + len) % u64_mod in
    if len == 0
    then none
    else some (record {
      start = offset;
      end = end;
      first = offset / chunk_size;
      last = (end + u64_mod - 1) % u64_mod / chunk_size;
    })

-- For an index in `first..=last`; elsewhere the source's subtractions would wrap.
unfoldable pub piece : ChunkSpan → ℕ → ChunkPiece
piece s index =
    let chunk_start = index * chunk_size in
    let from = max s.start chunk_start in
    let to = min s.end (chunk_start + chunk_size) in
    record {
      chunk_start = from - chunk_start;
      chunk_end = to - chunk_start;
      buf_start = from - s.start;
      buf_end = to - s.start;
    }

unfoldable pub copy_out : ChunkSpan → ℕ → Bytes → Bytes → Bytes
copy_out s index stored out =
    let p = piece s index in
    let avail = min stored.len p.chunk_end in
    if leb avail p.chunk_start
    then out
    else copy_from out p.buf_start (p.buf_start + (avail - p.chunk_start)) stored p.chunk_start
