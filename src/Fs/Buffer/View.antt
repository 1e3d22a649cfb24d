-- ===== src/Fs/Buffer/View.antt =====
-- What a reader sees: the dirty chunks over the stored ones, up to the size in the open table.
use vibedbfs.Prelude.{
  ℕ, ◌+◌, ◌-◌, ◌*◌, ◌/◌, ◌%◌, ◌≤◌, ◌<◌, min, ◌≡◌, refl, ap, ◌∙◌, [], ◌∷◌, Option, none, some, ◌||◌,
  ltb, leb, ◌==◌, if◌then◌else◌, Bytes, filled, empty_vec, ok, arith, Bool-cases, inl, inr, All,
}
use vibedbfs.Model.{regular_file}
use vibedbfs.Arena.{ChunkArena, chunk_size, chunk}
use vibedbfs.Arena.Dirty.{DirtyIdx, range}
use vibedbfs.Arena.Dirty.Order.{
  Ascending, IsSorted, slot_of, within, range_lem, slot_of_below, within-Ascending, within_bounds,
  slot_of-within,
}
use vibedbfs.Span.{ChunkSpan, copy_out}
use vibedbfs.Span.Pieces.{IsSpan, new-IsSpan, copy_out_lem}
use vibedbfs.Db.{Engine}
use vibedbfs.Db.Keys.{max_ino, max_file_size}
use vibedbfs.Db.Files.Contents.{stored_byte, Filled, read_into_lem}
use vibedbfs.Fs.{Fs}
use vibedbfs.Fs.Buffer.{overlay, overlay_dirty, read_slot}

-- A dirty chunk's byte over the old one, where the chunk has one.
abbrev pub laid : ChunkArena → Option ℕ → ℕ → ℕ → ℕ
laid arena none r old = old
laid arena (some a) r old =
    if ltb r (arena.len.at a) then arena.bytes.at (a * chunk_size + r) else old

-- The byte at a position of the file in slot `i`.
abbrev pub file_byte : Fs → ℕ → ℕ → ℕ
file_byte s i p =
    laid s.table.arena (slot_of (p / chunk_size) (s.table.inodes.dirty.at i)) (p % chunk_size)
      (stored_byte s.tables.file_chunks (s.table.inodes.ino.at i) p)

overlay_lem :
    (span : ChunkSpan) (arena : ChunkArena) (low i : ℕ) (xs : DirtyIdx) (out : Bytes)
    → IsSpan span
    → Ascending low xs
    → All (λ e. (span.first ≤ e.0) × (e.0 ≤ span.last)) xs
    → i < span.end - span.start
    → (overlay span arena xs out).at i
      ≡ laid arena
          (slot_of ((span.start + i) / chunk_size) xs)
          ((span.start + i) % chunk_size)
          (out.at i)
unfolding overlay
overlay_lem span arena low i [] out s h b r = refl
overlay_lem span arena low i ((k, a) ∷ xs) out s h b r =
    overlay_lem span arena (k + 1) i xs (copy_out span k (chunk arena a) out) s h.1 b.1 r
    ∙ unfold chunk in
      ground (
        arith,
        copy_out_lem span k (chunk arena a) out i s b.0.0 b.0.1 r,
        slot_of_below ((span.start + i) / chunk_size) (k + 1) xs h.1,
      )

overlay_dirty_lem :
    (span : ChunkSpan) (arena : ChunkArena) (i : ℕ) (xs : DirtyIdx) (out : Bytes)
    → IsSpan span
    → IsSorted xs
    → i < span.end - span.start
    → (overlay_dirty (some span) arena xs out).at i
      ≡ laid arena
          (slot_of ((span.start + i) / chunk_size) xs)
          ((span.start + i) % chunk_size)
          (out.at i)
overlay_dirty_lem span arena i xs out s h r =
    ap (λ ys. (overlay span arena ys out).at i) (range_lem span.first span.last xs h)
    ∙ overlay_lem span arena 0 i (within span.first span.last xs) out s
        (within-Ascending span.first span.last 0 xs h) (within_bounds span.first span.last xs) r
    ∙ ap (λ o. laid arena o ((span.start + i) % chunk_size) (out.at i))
        (slot_of-within span.first span.last ((span.start + i) / chunk_size) xs (omega arith)
          (omega arith))

overlay-len :
    (span : ChunkSpan) (arena : ChunkArena) (xs : DirtyIdx) (out : Bytes)
    → (overlay span arena xs out).len ≡ out.len
unfolding overlay copy_out
overlay-len span arena [] out = refl
overlay-len span arena ((k, a) ∷ xs) out =
    overlay-len span arena xs (copy_out span k (chunk arena a) out) ∙ ground arith

-- The stored bytes of a zeroed buffer, holes included.
filled_byte :
    (chunks : ℕ → Option Bytes) (ino offset n i : ℕ) (stored : Bytes)
    → Filled chunks ino offset (filled n 0) stored
    → i < n
    → stored.at i ≡ stored_byte chunks ino (offset + i)
filled_byte chunks ino offset n i stored f r = ground (arith, f.bytes i r)

laid_byte :
    (s : Fs) (slot offset i : ℕ) (span : ChunkSpan) (stored : Bytes)
    → IsSpan span
    → span.start ≡ offset
    → i < span.end - span.start
    → IsSorted (s.table.inodes.dirty.at slot)
    → stored.at i ≡ stored_byte s.tables.file_chunks (s.table.inodes.ino.at slot) (offset + i)
    → (overlay_dirty (some span) s.table.arena (s.table.inodes.dirty.at slot) stored).at i
      ≡ file_byte s slot (offset + i)
laid_byte s slot offset i span stored is starts r sorted e =
    overlay_dirty_lem span s.table.arena i (s.table.inodes.dirty.at slot) stored is sorted r
    ∙ rw starts (
        ap
          (laid s.table.arena (slot_of ((offset + i) / chunk_size) (s.table.inodes.dirty.at slot))
            ((offset + i) % chunk_size))
          e)

-- A read of an open regular file succeeds where the query does, the inode number and the size in
-- the open table are within their limits and the dirty chunks are in order. It returns the bytes
-- up to that size, and each is the one of the dirty chunk that covers it, else the stored one.
pub read_slot_lem :
    (E : Engine) (s : Fs) (slot offset size : ℕ)
    → E.query_failure s.tables ≡ none
    → s.table.inodes.kind.at slot ≡ regular_file
    → s.table.inodes.ino.at slot ≤ max_ino
    → s.table.inodes.size.at slot ≤ max_file_size
    → IsSorted (s.table.inodes.dirty.at slot)
    → (out : Bytes) × (read_slot E s slot offset size ≡ ok out)
      × (out.len ≡ min size (s.table.inodes.size.at slot - offset))
      × ((i : ℕ) → i < out.len → out.at i ≡ file_byte s slot (offset + i))
unfolding read_slot
read_slot_lem E s slot offset size works regular h fits sorted =
    let file_size = s.table.inodes.size.at slot in
    elim (Bool-cases (leb file_size offset || size == 0)) [
      | inl nothing ↦
          (empty_vec 0, rw (regular, nothing, read_slot), ground arith, λ i r. absurd (omega arith))
      | inr something ↦
          let n = min size (file_size - offset) in
          let positive : 0 < n = ground arith in
          let (stored, read, f) =
            read_into_lem E s.tables (s.table.inodes.ino.at slot) offset (filled n 0) works h
              positive (omega arith) in
          let (span, made, is, starts, ends) = new-IsSpan offset n positive (omega arith) in
          let dirty = s.table.inodes.dirty.at slot in
          let same_len =
            overlay-len span s.table.arena (range span.first span.last dirty) stored ∙ f.same_len in
          (
            overlay_dirty (some span) s.table.arena dirty stored,
            rw (regular, something, read, made, read_slot),
            same_len,
            λ i r.
                let inside : i < n = omega (arith, same_len) in
                laid_byte s slot offset i span stored is starts (omega arith) sorted (
                  filled_byte s.tables.file_chunks (s.table.inodes.ino.at slot) offset n i stored f
                    inside),
          )
    ]
