-- ===== src/Tests/Writes.antt =====
-- Buffered writes, flushes and the open table at concrete states.
use vibedbfs.Prelude.{
  ℕ, ◌<◌, ◌≡◌, refl, [], some, ◌==◌, Bytes, Bool-cases, inl, inr, filled, ok, push, empty_vec,
  arith,
}
use vibedbfs.Model.{regular_file}
use vibedbfs.Arena.Dirty
use vibedbfs.Span
use vibedbfs.OpenTable.Inodes.{OpenInodes, find, insert, remove, largest_dirty}
use vibedbfs.OpenTable.Inodes.Valid.{Inserted}
use vibedbfs.OpenTable.Inodes.Valid
use vibedbfs.OpenTable.Inodes.Valid.Insert.{insert_inode_lem}
use vibedbfs.OpenTable.Inodes.Valid.Remove.{Removed, remove_inode_lem}
use vibedbfs.OpenTable.Inodes.Valid.Largest.{IsLargest, largest_dirty_lem}
use vibedbfs.Fs.Flush.{flush_slot, flush_all, skip}
use vibedbfs.Fs.Flush.Durable.Sweep.{AllStored, flush_all_lem}
use vibedbfs.Fs.Buffer.{write_slot, read_slot, write_chunks, dirty_slot}
use vibedbfs.Fs.Buffer.Sound.{IsSound, nowhere, dirty_at}
use vibedbfs.Fs.Ops.{getattr}
use vibedbfs.Fs.Flush.Rows.{IsSized}
use vibedbfs.Fs.Flush.Rows.Getattr.{getattr-flush_slot}
use vibedbfs.Fs.Flush.Durable.Slot.{SlotFlushed, flush_slot_lem}
use vibedbfs.Fs.Buffer.Writes.{Wrote}
use vibedbfs.Fs.Buffer.Writes.Outcome.{write_slot_lem, read_slot-write_slot}
use vibedbfs.Tests.Samples.{quiet, buffered, one_dirty, later}

only_chunk : (i k a : ℕ) → dirty_at buffered i k ≡ some a → (i ≡ 0) × (k ≡ 0) × (a ≡ 0)
only_chunk i k a e = ground arith

pub buffered-IsSound : IsSound nowhere buffered
unfolding find
buffered-IsSound = record {
  arena_valid = omega arith;
  slots_fit = λ a. omega arith;
  inos_fit = λ i. omega arith;
  found = λ ino i e. ground arith;
  live = λ i k a e. ground (arith, only_chunk i k a e);
  sorted = λ i. elim (Bool-cases (i == 0)) [ inl e ↦ rw e (omega arith) | inr e ↦ rw e tt ];
  chunk_fits = λ i k a e. omega (arith, only_chunk i k a e);
  owned = λ i k a e. ground (arith, only_chunk i k a e);
  apart = λ i k j l a e f. omega (arith, only_chunk i k a e, only_chunk j l a f);
  hides = λ i k a e h. omega arith;
}

-- The only open inode has dirty chunks.
pub buffered-IsSized : IsSized buffered
unfolding find
buffered-IsSized = λ ino i r e clean h. ground arith

flush_slot_lem_example : SlotFlushed quiet 0 skip buffered (flush_slot quiet 0 skip buffered)
flush_slot_lem_example = flush_slot_lem quiet 0 skip buffered buffered-IsSound

flush_all_lem_example : AllStored quiet buffered (flush_all quiet buffered)
flush_all_lem_example = flush_all_lem quiet buffered buffered-IsSound buffered-IsSized (refl, tt)

getattr-flush_slot_example :
    (getattr quiet 2 (flush_slot quiet 0 skip buffered).1).0 ≡ (getattr quiet 2 buffered).0
unfolding find
getattr-flush_slot_example =
    getattr-flush_slot quiet 2 0 skip buffered buffered-IsSound refl refl
      (λ j e. (0, refl, omega arith, omega arith))

-- Three bytes behind the dirty ones, with a gap.
write_slot_lem_example :
    Wrote 0 20 (filled 3 5) buffered (write_slot quiet later 0 20 (filled 3 5) buffered)
unfolding find
write_slot_lem_example =
    write_slot_lem quiet later 0 20 (filled 3 5) buffered buffered-IsSound refl refl refl
      (omega arith) (omega arith)

three_written : (write_slot quiet later 0 20 (filled 3 5) buffered).0 ≡ ok 3
unfolding write_slot Span.new write_chunks dirty_slot Dirty.find
three_written = refl

read_slot-write_slot_example :
    let s = (write_slot quiet later 0 20 (filled 3 5) buffered).1 in
    (out : Bytes) × (read_slot quiet s 0 20 3 ≡ ok out)
    × (out.len ≡ 3)
    × ((j : ℕ) → j < 3 → out.at j ≡ 5)
unfolding find
read_slot-write_slot_example =
    read_slot-write_slot quiet later 0 20 3 (filled 3 5) buffered buffered-IsSound refl refl
      (omega arith) refl (omega arith) (omega arith) three_written refl

one_dirty-IsValid : Valid.IsValid one_dirty
unfolding find
one_dirty-IsValid = record {
  kind_len = refl;
  size_len = refl;
  mtime_len = refl;
  refs_len = refl;
  unlinked_len = refl;
  dirty_len = refl;
  keys_distinct = (refl, tt);
  found = λ ino i e. ground arith;
  free_distinct = tt;
  free_in_range = λ i m. absurd (cc);
  free_idle = λ i m. absurd (cc);
}

insert_inode_lem_example :
    Inserted one_dirty 7 regular_file 0
      (insert one_dirty 7 regular_file 0).0
      (insert one_dirty 7 regular_file 0).1
insert_inode_lem_example =
    insert_inode_lem one_dirty 7 0 regular_file one_dirty-IsValid (omega arith)

-- The table once its chunks are stored.
abbrev one_clean : OpenInodes
one_clean = record one_dirty { dirty = push (empty_vec []) [] }

one_clean-IsValid : Valid.IsValid one_clean
unfolding find
one_clean-IsValid = record {
  kind_len = refl;
  size_len = refl;
  mtime_len = refl;
  refs_len = refl;
  unlinked_len = refl;
  dirty_len = refl;
  keys_distinct = (refl, tt);
  found = λ ino i e. ground arith;
  free_distinct = tt;
  free_in_range = λ i m. absurd (cc);
  free_idle = λ i m. absurd (cc);
}

remove_inode_lem_example : Removed one_clean 0 (remove one_clean 0)
unfolding find
remove_inode_lem_example = remove_inode_lem one_clean 0 one_clean-IsValid refl refl

largest_dirty_lem_example : IsLargest one_dirty.dirty one_dirty.by_ino (largest_dirty one_dirty)
largest_dirty_lem_example = largest_dirty_lem one_dirty
