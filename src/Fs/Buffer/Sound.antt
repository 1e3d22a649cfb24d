-- ===== src/Fs/Buffer/Sound.antt =====
-- The invariant that joins the open table, the arena and the stored chunks, and the contents of a
-- file by its inode number.
pub mod Slots
pub mod Added
pub mod Flushed
pub mod Freed
pub mod Room
pub mod Loaded
pub mod Readied
pub mod Written
use vibedbfs.Prelude.{ℕ, ◌≤◌, ◌<◌, ◌≡◌, ◌≢◌, Option, none, some, Bool, true, false}
use vibedbfs.Arena.{ChunkArena, chunk_size}
use vibedbfs.Arena.Slots.{IsValid, in_use, SameSlot}
use vibedbfs.Arena.Dirty.Order.{IsSorted, slot_of}
use vibedbfs.OpenTable.Inodes.{find}
use vibedbfs.Db.Keys.{max_chunks, max_ino, max_file_size}
use vibedbfs.Db.Files.Contents.{stored_byte}
use vibedbfs.Fs.{Fs}
use vibedbfs.Fs.Flush.{with_arena}
use vibedbfs.Fs.Flush.Transparent.{stored_len}
use vibedbfs.Fs.Buffer.View.{file_byte}

-- The arena slot of a dirty chunk.
abbrev pub dirty_at : Fs → ℕ → ℕ → Option ℕ
dirty_at s i k = slot_of k (s.table.inodes.dirty.at i)

-- The chunks for which `short` is true may be shorter than what is stored: a chunk that a write is
-- about to cover whole. Between operations there is none.
pub record IsSound (short : ℕ → ℕ → Bool) (s : Fs) : Type 0 where
  pub arena_valid : IsValid s.table.arena
  pub slots_fit : (a : ℕ) → s.table.arena.len.at a ≤ chunk_size
  pub inos_fit : (i : ℕ) → s.table.inodes.ino.at i ≤ max_ino
  pub found : (ino i : ℕ) → find s.table.inodes ino ≡ some i → s.table.inodes.ino.at i ≡ ino
  pub live :
      (i k a : ℕ) → dirty_at s i k ≡ some a → find s.table.inodes (s.table.inodes.ino.at i) ≡ some i
  pub sorted : (i : ℕ) → IsSorted (s.table.inodes.dirty.at i)
  pub chunk_fits : (i k a : ℕ) → dirty_at s i k ≡ some a → k < max_chunks
  pub owned : (i k a : ℕ) → dirty_at s i k ≡ some a → in_use s.table.arena a ≡ true
  pub apart :
      (i k j l a : ℕ) → dirty_at s i k ≡ some a → dirty_at s j l ≡ some a → (i ≡ j) × (k ≡ l)
  pub hides :
      (i k a : ℕ)
      → dirty_at s i k ≡ some a
      → short i k ≡ false
      → stored_len s.tables.file_chunks (s.table.inodes.ino.at i) k ≤ s.table.arena.len.at a

abbrev pub nowhere : ℕ → ℕ → Bool
nowhere i k = false

-- The byte at a position of an inode's file: through its slot if it has one, else as stored.
abbrev pub content_at : Fs → ℕ → ℕ → Option ℕ → ℕ
content_at s ino p none = stored_byte s.tables.file_chunks ino p
content_at s ino p (some i) = file_byte s i p

abbrev pub content : Fs → ℕ → ℕ → ℕ
content s ino p = content_at s ino p (find s.table.inodes ino)

-- An arena slot that no dirty chunk names.
abbrev pub IsSpare : Fs → ℕ → Type 0
IsSpare s a = (i k : ℕ) → dirty_at s i k ≢ some a

-- Two states in which every file has the same bytes, and every slot the same inode and size.
pub record Unnoticed (s s' : Fs) : Type 0 where
  pub same_content :
      (ino p : ℕ) → ino ≤ max_ino → p < max_file_size → content s' ino p ≡ content s ino p
  pub same_ino : s'.table.inodes.ino ≡ s.table.inodes.ino
  pub same_size : s'.table.inodes.size ≡ s.table.inodes.size
  pub same_kind : s'.table.inodes.kind ≡ s.table.inodes.kind
  pub same_closing : s'.table.closing ≡ s.table.closing

-- What an operation of the slot `w` does in passing: readers notice nothing, `w` stays, and no chunk
-- becomes dirty.
pub record Kept (w : ℕ) (s s' : Fs) : Type 0 where
  pub sound : IsSound nowhere s'
  pub unnoticed : Unnoticed s s'
  pub still_live :
      find s.table.inodes (s.table.inodes.ino.at w) ≡ some w
      → find s'.table.inodes (s.table.inodes.ino.at w) ≡ some w
  pub no_new : (j l : ℕ) → dirty_at s j l ≡ none → dirty_at s' j l ≡ none
  pub no_other : (ino j : ℕ) → find s'.table.inodes ino ≡ some j → find s.table.inodes ino ≡ some j
