-- ===== src/Tests/Storage.antt =====
-- Files in the database, chunk arithmetic and timestamps at concrete inputs.
use vibedbfs.Prelude.{
  ℕ, ◌+◌, ◌*◌, ◌/◌, ◌≤◌, ◌<◌, ◌≡◌, refl, ◌↔◌, ok, Bytes, filled, arith, pos, negsuc, between, ◌&&◌,
  ◌==◌,
}
use vibedbfs.Model.{to_ns, from_ns}
use vibedbfs.Model.Time.{to_ns-from_ns}
use vibedbfs.Arena.{chunk_size}
use vibedbfs.Span.{ChunkSpan, piece, copy_out}
use vibedbfs.Span.Pieces.{IsSpan, piece_covers, copy_out_lem}
use vibedbfs.Db.{Tables}
use vibedbfs.Db.Nodes.{inode_head, inode_kind_of}
use vibedbfs.Db.Keys.{chunk_key, chunk_keys}
use vibedbfs.Db.Keys.Unpack.{chunk_keys_lem}
use vibedbfs.Db.Files.{read_file, write_file, truncate_file}
use vibedbfs.Db.Files.Contents.{stored_byte, read_file_lem}
use vibedbfs.Db.Files.Writes.{Written, write_file_lem}
use vibedbfs.Db.Files.Truncation.{Truncated, truncate_file_lem}
use vibedbfs.Tests.Samples.{quiet, small, later}

read_file_lem_example :
    (out : Bytes) × (read_file quiet small 2 4 100 ≡ ok out)
    × (out.len ≡ 6)
    × ((i : ℕ) → i < out.len → out.at i ≡ stored_byte small.file_chunks 2 (4 + i))
unfolding inode_head
read_file_lem_example = read_file_lem quiet small 2 4 100 10 refl refl (omega arith) (omega arith)

write_file_lem_example :
    (u : Tables) × (write_file quiet small 2 65530 (filled 20 1) later ≡ ok (20, u))
    × Written small 2 65530 (filled 20 1) 10 later u
unfolding inode_head
write_file_lem_example =
    write_file_lem quiet small 2 65530 10 (filled 20 1) later refl (omega arith) (omega arith)
      (omega arith) (λ u. refl)

truncate_file_lem_example :
    (u : Tables) × (truncate_file quiet small later 2 4 ≡ ok (tt, u)) × Truncated small 2 4 later u
unfolding inode_kind_of
truncate_file_lem_example =
    truncate_file_lem quiet small later 2 4 refl (omega arith) (omega arith) (λ u. refl)

chunk_keys_lem_example :
    ((chunk_keys 5).0 ≤ chunk_key 6 3) × (chunk_key 6 3 ≤ (chunk_keys 5).1) ↔ (◌≡◌ {A = ℕ} 6 5)
chunk_keys_lem_example = chunk_keys_lem 5 6 3 (omega arith) (omega arith) (omega arith)

-- Bytes 65530 to 65549.
abbrev two_chunks : ChunkSpan
two_chunks = record { start = 65530; end = 65550; first = 0; last = 1 }

two_chunks-IsSpan : IsSpan two_chunks
two_chunks-IsSpan = record { nonempty = omega arith; first_lem = refl; last_lem = refl }

piece_covers_example :
    let q = piece two_chunks 1 in
    (between (1 * chunk_size + q.chunk_start) (1 * chunk_size + q.chunk_end) 65540
      ≡ (between 65530 65550 65540 && (65540 / chunk_size == 1)))
    × (65530 + q.buf_start ≡ 1 * chunk_size + q.chunk_start)
    × (65530 + q.buf_end ≡ 1 * chunk_size + q.chunk_end)
    × (q.chunk_start < q.chunk_end)
    × (q.chunk_end ≤ chunk_size)
piece_covers_example = piece_covers two_chunks 1 65540 two_chunks-IsSpan (omega arith) (omega arith)

copy_out_lem_example : (copy_out two_chunks 1 (filled 10 3) (filled 20 0)).at 8 ≡ 3
copy_out_lem_example =
    copy_out_lem two_chunks 1 (filled 10 3) (filled 20 0) 8 two_chunks-IsSpan (omega arith)
      (omega arith) (omega arith)

to_ns-from_ns_example : to_ns (from_ns (negsuc 499999999)) ≡ pos 500000000
to_ns-from_ns_example = to_ns-from_ns (negsuc 499999999) (omega arith) (omega arith)
