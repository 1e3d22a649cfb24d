-- ===== src/Tests/Buffers.antt =====
-- Open table and arena at concrete states.
use vibedbfs.Prelude.{
  ℕ, ◌+◌, ◌<◌, ◌≡◌, refl, [], ◌∷◌, some, ◌==◌, if◌then◌else◌, Bytes, filled, ok, arith,
}
use vibedbfs.Arena.{ChunkArena}
use vibedbfs.Arena
use vibedbfs.Arena.Slots.{IsValid, slot_byte, AllocSpec, alloc_lem, write_lem}
use vibedbfs.Arena.Dirty
use vibedbfs.Arena.Dirty.{DirtyIdx}
use vibedbfs.Arena.Dirty.Order.{IsSorted, find_lem, insert_lem, slot_of, range_lem}
use vibedbfs.OpenTable.Handles
use vibedbfs.OpenTable.Handles.Reuse.{Opened, ReleaseSpec, alloc_handle_lem, release_handle_lem}
use vibedbfs.Fs.Buffer.{read_slot, alloc_loop, alloc_chunk}
use vibedbfs.Fs.Buffer.View.{file_byte, read_slot_lem}
use vibedbfs.Fs.Buffer.Eviction.{alloc_loop_ends}
use vibedbfs.Tests.Samples.{quiet, one_chunk, one_handle, mounted}

one_chunk-IsValid : IsValid one_chunk
one_chunk-IsValid = omega arith

alloc_lem_example : AllocSpec one_chunk (Arena.alloc one_chunk)
alloc_lem_example = alloc_lem one_chunk one_chunk-IsValid

write_lem_example : slot_byte (Arena.write one_chunk 0 20 22 (filled 2 5) 0) 0 21 ≡ 5
write_lem_example =
    write_lem one_chunk 0 20 22 (filled 2 5) 0 21 one_chunk-IsValid (omega arith) (omega arith)
      (omega arith) (omega arith)

abbrev three : DirtyIdx
three = (1, 4) ∷ (5, 0) ∷ (9, 2) ∷ []

find_lem_example : Dirty.find 5 three ≡ ok 1
find_lem_example = find_lem 5 three (omega arith)

insert_lem_example :
    IsSorted (Dirty.insert 2 7 3 three)
    × ((j : ℕ)
        → slot_of j (Dirty.insert 2 7 3 three) ≡ (if j == 7 then some 3 else slot_of j three))
unfolding Dirty.find
insert_lem_example = insert_lem 7 3 2 three (omega arith) refl

range_lem_example : Dirty.range 2 9 three ≡ (5, 0) ∷ (9, 2) ∷ []
range_lem_example = range_lem 2 9 three (omega arith)

alloc_handle_lem_example :
    Opened one_handle 3 (Handles.alloc one_handle 3).0 (Handles.alloc one_handle 3).1
alloc_handle_lem_example = alloc_handle_lem one_handle 3 (omega arith) (omega arith) (omega arith)

release_handle_lem_example : ReleaseSpec one_handle 0 (Handles.release one_handle 0)
release_handle_lem_example = release_handle_lem one_handle 0 (omega arith)

read_slot_lem_example :
    (out : Bytes) × (read_slot quiet mounted 0 3 100 ≡ ok out)
    × (out.len ≡ 9)
    × ((i : ℕ) → i < out.len → out.at i ≡ file_byte mounted 0 (3 + i))
read_slot_lem_example =
    read_slot_lem quiet mounted 0 3 100 refl refl (omega arith) (omega arith) (omega arith)

alloc_loop_ends_example : alloc_loop 2 quiet 0 mounted ≡ some (alloc_chunk quiet 0 mounted)
alloc_loop_ends_example = alloc_loop_ends quiet 0 0 mounted
