-- ===== src/Arena.antt =====
-- arena.rs, `ChunkArena`: all buffered chunks in one byte buffer, carved into slots.
pub mod Dirty
pub mod Slots
use vibedbfs.Prelude.{
  ℕ, ◌+◌, ◌-◌, ◌*◌, ◌/◌, ◌%◌, ◌^◌, max, List, [], ◌∷◌, Option, none, some, ltb, if◌then◌else◌, Vec,
  Bytes, empty_vec, push, set_at, resize, fill, copy_from, slice,
}

-- db.rs, `CHUNK_SIZE`.
abbrev pub chunk_size : ℕ
chunk_size = 65536

-- `n as u32`.
abbrev pub as_u32 : ℕ → ℕ
as_u32 n = n % 2 ^ 32

-- The head of `free` is the end of the vector.
pub record ChunkArena : Type 0 where
  pub bytes : Bytes
  pub len : Vec ℕ
  pub free : List ℕ
  pub max_slots : ℕ

unfoldable pub new : ℕ → ChunkArena
new budget = record {
  bytes = empty_vec 0;
  len = empty_vec 0;
  free = [];
  max_slots = max (budget / chunk_size) 1;
}

unfoldable pub alloc : ChunkArena → Option (ℕ × ChunkArena)
alloc a = elim a.free [
  | slot ∷ rest ↦ some (slot, record a { free = rest; len = set_at a.len slot 0 })
  | [] ↦
      let slot = as_u32 a.len.len in
      if ltb a.len.len a.max_slots
      then some (
        slot,
        record a {
          bytes = resize a.bytes (a.bytes.len + chunk_size) 0;
          len = set_at (push a.len 0) slot 0;
        },
      )
      else none
]

unfoldable pub release : ChunkArena → ℕ → ChunkArena
release a slot = record a { free = slot ∷ a.free }

-- The valid bytes of a slot.
unfoldable pub chunk : ChunkArena → ℕ → Bytes
chunk a slot = let start = slot * chunk_size in slice a.bytes start (start + a.len.at slot)

-- `buffer_mut` filled from storage: the stored bytes go to the start of the slot's buffer.
unfoldable pub load_buffer : ChunkArena → ℕ → Bytes → ChunkArena
load_buffer a slot stored =
    let start = slot * chunk_size in
    record a { bytes = copy_from a.bytes start (start + stored.len) stored 0 }

unfoldable pub set_len : ChunkArena → ℕ → ℕ → ChunkArena
set_len a slot len = record a { len = set_at a.len slot (as_u32 len) }

-- `write(slot, from..to, &data[start..start + (to - from)])`.
unfoldable pub write : ChunkArena → ℕ → ℕ → ℕ → Bytes → ℕ → ChunkArena
write a slot from to input start =
    let base = slot * chunk_size in
    let len = a.len.at slot in
    let zeroed = if ltb len from then fill a.bytes (base + len) (base + from) 0 else a.bytes in
    record a {
      bytes = copy_from zeroed (base + from) (base + to) input start;
      len = set_at a.len slot (as_u32 (max len to));
    }
