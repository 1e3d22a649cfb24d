-- ===== src/Db/Keys.antt =====
-- db.rs, the keys of `file_chunks`: `(ino << 24) | chunk_index`.
pub mod Unpack
use Prim.Native.Nat.{bit_and, bit_or}
use vibedbfs.Prelude.{ℕ, ◌*◌, ◌-◌, ◌%◌, ◌^◌}

abbrev pub max_chunks : ℕ
max_chunks = 16777216

-- 1 TiB.
abbrev pub max_file_size : ℕ
max_file_size = 1099511627776

abbrev pub max_ino : ℕ
max_ino = 549755813887

-- As a u64; the cast to i64 keeps it, since `ino <= MAX_INO`.
unfoldable pub chunk_key : ℕ → ℕ → ℕ
chunk_key ino index = bit_or (ino * 2 ^ 24 % 2 ^ 64) index

unfoldable pub chunk_keys : ℕ → ℕ × ℕ
chunk_keys ino = (chunk_key ino 0, chunk_key ino (max_chunks - 1))

unfoldable pub chunk_index_of : ℕ → ℕ
chunk_index_of key = bit_and key (max_chunks - 1)
