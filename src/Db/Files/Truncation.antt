-- ===== src/Db/Files/Truncation.antt =====
-- Truncation: the bytes below the new size stay, all others read as zeros.
use vibedbfs.Prelude.{
  ℕ, ◌+◌, ◌-◌, ◌*◌, ◌/◌, ◌%◌, ◌≤◌, ◌<◌, ◌≡◌, refl, Option, none, true, false, ◌&&◌, ltb, leb, ◌==◌,
  if◌then◌else◌, Bytes, ok, err, arith, Bool-cases, inl, inr,
}
use vibedbfs.Model.{Timestamp, regular_file, file_too_large}
use vibedbfs.Arena.{chunk_size}
use vibedbfs.Db.{Tables, Engine}
use vibedbfs.Db.Keys.{max_chunks, max_ino, max_file_size, chunk_key, chunk_keys}
use vibedbfs.Db.Keys.Unpack.{chunk_key_lem}
use vibedbfs.Db.Rows.{delete_chunks, set_size}
use vibedbfs.Db.Nodes.{inode_kind_of}
use vibedbfs.Db.Files.{cut_chunk, truncate_chunks, truncate_file}
use vibedbfs.Db.Files.Contents.{chunk_byte, stored_byte}

truncate_chunk_lem :
    (ino size other c : ℕ) (chunks : ℕ → Option Bytes) (r : ℕ)
    → ino ≤ max_ino
    → other ≤ max_ino
    → c < max_chunks
    → r < chunk_size
    → size ≤ max_file_size
    → chunk_byte (truncate_chunks ino size chunks (chunk_key other c)) r ≡ (
        if (other == ino) && leb size (c * chunk_size + r)
        then 0
        else chunk_byte (chunks (chunk_key other c)) r)
unfolding truncate_chunks chunk_keys delete_chunks cut_chunk
truncate_chunk_lem ino size other c chunks r h1 h2 h3 h4 h5 =
    let key = chunk_key_lem other c h2 h3 in
    let first = chunk_key_lem ino 0 h1 (omega arith) in
    let last = chunk_key_lem ino (max_chunks - 1) h1 (omega arith) in
    let final = chunk_key_lem ino ((size - 1) / chunk_size) h1 (omega arith) in
    elim (Bool-cases (size == 0)) [
      | inl all ↦ ground (arith, key, first, last)
      | inr part ↦ ground (arith, key, last, final)
    ]

-- The tables that a successful truncation leaves.
pub record Truncated (t : Tables) (ino size : ℕ) (now : Timestamp) (u : Tables) : Type 0 where
  pub rows : u ≡ set_size ino size now (record t { file_chunks = u.file_chunks })
  pub bytes :
      (other p : ℕ)
      → other ≤ max_ino
      → p < max_file_size
      → stored_byte u.file_chunks other p
        ≡ (if (other == ino) && leb size p then 0 else stored_byte t.file_chunks other p)

truncate_byte :
    (ino size other p : ℕ) (chunks : ℕ → Option Bytes)
    → ino ≤ max_ino
    → other ≤ max_ino
    → p < max_file_size
    → size ≤ max_file_size
    → stored_byte (truncate_chunks ino size chunks) other p
      ≡ (if (other == ino) && leb size p then 0 else stored_byte chunks other p)
truncate_byte ino size other p chunks h1 h2 h3 h4 = ground (
  arith,
  truncate_chunk_lem ino size other (p / chunk_size) chunks (p % chunk_size) h1 h2 (omega arith)
      (omega arith) h4,
)

-- Setting the size of a regular file to at most the limit succeeds if the transaction does. Stored
-- bytes below the new size stay, those from there on read as zeros, other files keep their bytes,
-- and no row changes but the size and times of that inode.
pub truncate_file_lem :
    (E : Engine) (t : Tables) (now : Timestamp) (ino size : ℕ)
    → inode_kind_of E t ino ≡ ok regular_file
    → ino ≤ max_ino
    → size ≤ max_file_size
    → ((u : Tables) → E.commit_failure u ≡ none)
    → (u : Tables) × (truncate_file E t now ino size ≡ ok (tt, u)) × Truncated t ino size now u
unfolding truncate_file set_size
truncate_file_lem E t now ino size kind h fits works =
    let u =
      set_size ino size now (record t { file_chunks = truncate_chunks ino size t.file_chunks }) in
    let small : ltb max_file_size size ≡ false = ground arith in
    (
      u,
      rw (kind, small, works u),
      record {
        rows = refl;
        bytes = λ other p k r. truncate_byte ino size other p t.file_chunks h k r fits;
      },
    )

-- A size past the limit is refused, and nothing changes.
pub truncate_file_too_large :
    (E : Engine) (t : Tables) (now : Timestamp) (ino size : ℕ)
    → inode_kind_of E t ino ≡ ok regular_file
    → max_file_size < size
    → truncate_file E t now ino size ≡ err file_too_large
unfolding truncate_file
truncate_file_too_large E t now ino size kind over =
    let large : ltb max_file_size size ≡ true = ground arith in rw (kind, large)
