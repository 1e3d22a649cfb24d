-- ===== src/Span/Pieces.antt =====
-- The chunk arithmetic is right: pieces cover the span once, and `copy_out` puts bytes in place.
use vibedbfs.Prelude.{
  ℕ, ◌+◌, ◌-◌, ◌*◌, ◌/◌, ◌%◌, ◌≤◌, ◌<◌, ◌≡◌, some, ltb, ◌&&◌, ◌==◌, if◌then◌else◌, Bytes, between,
  arith,
}
use vibedbfs.Arena.{chunk_size}
use vibedbfs.Span.{ChunkSpan, new, piece, copy_out, u64_mod}

-- A span of at least one byte, with the chunks of its first and last byte.
pub record IsSpan (s : ChunkSpan) : Type 0 where
  pub nonempty : s.start < s.end
  pub first_lem : s.first ≡ s.start / chunk_size
  pub last_lem : s.last ≡ (s.end - 1) / chunk_size

pub new-IsSpan :
    (offset len : ℕ)
    → 0 < len
    → offset + len < u64_mod
    → (s : ChunkSpan) × (new offset len ≡ some s)
      × IsSpan s
      × (s.start ≡ offset)
      × (s.end ≡ offset + len)
unfolding new
new-IsSpan offset len h fits = (
  record {
    start = offset;
    end = offset + len;
    first = offset / chunk_size;
    last = (offset + len - 1) / chunk_size;
  },
  ground arith,
  record { nonempty = omega arith; first_lem = omega arith; last_lem = omega arith },
  omega arith,
  omega arith,
)

-- For a chunk of the span, byte `p` is in its piece exactly if `p` is in the span and in the chunk.
-- The piece's ranges in the chunk and in the buffer are the same bytes, at least one of them.
pub piece_covers :
    (s : ChunkSpan) (index p : ℕ)
    → IsSpan s
    → s.first ≤ index
    → index ≤ s.last
    → let q = piece s index in
      (between (index * chunk_size + q.chunk_start) (index * chunk_size + q.chunk_end) p
        ≡ (between s.start s.end p && (p / chunk_size == index)))
      × (s.start + q.buf_start ≡ index * chunk_size + q.chunk_start)
      × (s.start + q.buf_end ≡ index * chunk_size + q.chunk_end)
      × (q.chunk_start < q.chunk_end)
      × (q.chunk_end ≤ chunk_size)
unfolding piece
piece_covers s index p h lo hi = ground arith

-- For a chunk of the span, `copy_out` replaces the bytes of the buffer that the stored chunk holds,
-- and no others.
pub copy_out_lem :
    (s : ChunkSpan) (index : ℕ) (stored out : Bytes) (i : ℕ)
    → IsSpan s
    → s.first ≤ index
    → index ≤ s.last
    → i < s.end - s.start
    → (copy_out s index stored out).at i ≡ (
        if ((s.start + i) / chunk_size == index) && ltb ((s.start + i) % chunk_size) stored.len
        then stored.at ((s.start + i) % chunk_size)
        else out.at i)
unfolding copy_out piece
copy_out_lem s index stored out i h lo hi r = ground arith
