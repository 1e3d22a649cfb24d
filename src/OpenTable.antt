-- ===== src/OpenTable.antt =====
-- open_table.rs: the inodes that have open handles or unflushed data, and the file handles.
pub mod Handles
pub mod Inodes
use vibedbfs.Prelude.{ℕ, Bool, false}
use vibedbfs.Arena
use vibedbfs.Arena.{ChunkArena}
use Inodes.{OpenInodes}
use Handles.{HandleTable}

pub record OpenTable : Type 0 where
  pub inodes : OpenInodes
  pub handles : HandleTable
  pub arena : ChunkArena
  pub closing : Bool

unfoldable pub new : ℕ → OpenTable
new write_buffer = record {
  inodes = Inodes.no_inodes;
  handles = Handles.no_handles;
  arena = Arena.new write_buffer;
  closing = false;
}
