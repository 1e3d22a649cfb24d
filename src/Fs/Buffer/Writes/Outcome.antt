-- ===== src/Fs/Buffer/Writes/Outcome.antt =====
-- `write_slot` as a whole: its outcome, and reading back what was written.
use vibedbfs.Prelude.{
  ℕ, ◌+◌, ◌-◌, ◌≤◌, ◌<◌, ◌≡◌, refl, ◌∙◌, sym, max, none, some, false, ltb, Bytes, set_at, arith,
  inl, inr, ap, ok, err, Result,
}
use vibedbfs.Model.{Timestamp, regular_file}
use vibedbfs.Arena.{as_u32}
use vibedbfs.Span
use vibedbfs.Span.{ChunkSpan}
use vibedbfs.Span.Pieces.{new-IsSpan}
use vibedbfs.OpenTable.Inodes.{find}
use vibedbfs.Db.{Engine}
use vibedbfs.Db.Keys.{max_file_size}
use vibedbfs.Fs.{Fs, Errno, and_then, pure}
use vibedbfs.Fs.Flush.{with_inodes}
use vibedbfs.Fs.Buffer.{write_chunks, write_slot, read_slot}
use vibedbfs.Fs.Buffer.View.{read_slot_lem}
use vibedbfs.Fs.Buffer.Sound.{IsSound, nowhere, content_at, Kept}
use vibedbfs.Fs.Buffer.Writes.{
  Progress, Progress-trans, Kept-Progress, Ran, Wrote, pos, write_chunks_lem,
}

-- The state with the write's time in the slot.
abbrev stamped : Fs → ℕ → Timestamp → Fs
stamped s i now =
    with_inodes s (record (s.table.inodes) { mtime = set_at s.table.inodes.mtime i now })

stamped-Kept : (s : Fs) (i : ℕ) (now : Timestamp) → IsSound nowhere s → Kept i s (stamped s i now)
unfolding find
stamped-Kept s i now v = record {
  sound = record {
    arena_valid = v.arena_valid;
    slots_fit = v.slots_fit;
    inos_fit = v.inos_fit;
    found = v.found;
    live = v.live;
    sorted = v.sorted;
    chunk_fits = v.chunk_fits;
    owned = v.owned;
    apart = v.apart;
    hides = v.hides;
  };
  unnoticed = record {
    same_content = λ ino p h1 h2. ground arith;
    same_ino = refl;
    same_size = refl;
    same_kind = refl;
    same_closing = refl;
  };
  still_live = λ h. h;
  no_new = λ j l e. e;
  no_other = λ ino j e. e;
}

write_slot-steps :
    (E : Engine) (now : Timestamp) (i offset : ℕ) (input : Bytes) (s : Fs) (span : ChunkSpan)
    → s.table.inodes.kind.at i ≡ regular_file
    → s.table.closing ≡ false
    → Span.new offset input.len ≡ some span
    → ltb max_file_size span.end ≡ false
    → write_slot E now i offset input s
      ≡ and_then
          (write_chunks E i span input span.first (span.last + 1 - span.first) (stamped s i now))
          (λ u. pure (as_u32 input.len))
unfolding write_slot
write_slot-steps E now i offset input s span regular accepting made fits =
    simp (regular, accepting, made, fits, write_slot)

finish :
    (i offset to : ℕ) (span : ChunkSpan) (input : Bytes) (s t : Fs)
    (x : Result Errno (Unit {0}) × Fs)
    → span.start ≡ offset
    → pos span span.first ≡ offset
    → to ≡ offset + input.len
    → Progress i offset input offset offset s t
    → Ran i span input (pos span span.first) to t x
    → Wrote i offset input s (and_then x (λ u. pure (as_u32 input.len)))
finish i offset to span input s t (ok u, v) starts first ends before
      (done, after, bound, complete) =
    (
      done,
      Progress-trans i offset offset offset done input s t v before (rw (first, starts) at after),
      omega arith,
      inl (refl, complete refl ∙ ends),
    )
finish i offset to span input s t (err e, v) starts first ends before
      (done, after, bound, complete) =
    (
      done,
      Progress-trans i offset offset offset done input s t v before (rw (first, starts) at after),
      omega arith,
      inr (e, refl),
    )

-- A write of at least one byte to a live slot of a regular file, which ends within the size limit
-- and comes before shutdown, writes its bytes from the offset on up to some point and changes no
-- other byte of any file, open or not, evictions included. The size of the slot grows to that point
-- and no other size changes. The write succeeds with its length as a u32 and that point is its end,
-- or it fails. The invariant of the buffers holds again.
pub write_slot_lem :
    (E : Engine) (now : Timestamp) (i offset : ℕ) (input : Bytes) (s : Fs)
    → IsSound nowhere s
    → find s.table.inodes (s.table.inodes.ino.at i) ≡ some i
    → s.table.inodes.kind.at i ≡ regular_file
    → s.table.closing ≡ false
    → 0 < input.len
    → offset + input.len ≤ max_file_size
    → Wrote i offset input s (write_slot E now i offset input s)
write_slot_lem E now i offset input s v is_live regular accepting some_bytes fits =
    let (span, made, is, starts, ends) = new-IsSpan offset input.len some_bytes (omega arith) in
    let kept = stamped-Kept s i now v in
    let t = stamped s i now in
    let below : ltb max_file_size span.end ≡ false = ground arith in
    let n = span.last + 1 - span.first in
    rw (write_slot-steps E now i offset input s span regular accepting made below) (
      finish i offset (pos span (span.first + n)) span input s t
        (write_chunks E i span input span.first n t) starts (omega arith) (omega arith)
        (Kept-Progress i offset offset input s t is_live kept)
        (write_chunks_lem E i span input span.first n t is (omega arith) (omega arith) (omega arith)
          kept.sound (kept.still_live is_live)))

-- A read of the written range after a successful write gives the written bytes, if its query does
-- not fail.
pub read_slot-write_slot :
    (E : Engine) (now : Timestamp) (i offset n : ℕ) (input : Bytes) (s : Fs)
    → IsSound nowhere s
    → find s.table.inodes (s.table.inodes.ino.at i) ≡ some i
    → s.table.inodes.kind.at i ≡ regular_file
    → s.table.inodes.size.at i ≤ max_file_size
    → s.table.closing ≡ false
    → 0 < input.len
    → offset + input.len ≤ max_file_size
    → (write_slot E now i offset input s).0 ≡ ok n
    → E.query_failure (write_slot E now i offset input s).1.tables ≡ none
    → (out : Bytes) × (read_slot E (write_slot E now i offset input s).1 i offset input.len
        ≡ ok out)
      × (out.len ≡ input.len)
      × ((j : ℕ) → j < input.len → out.at j ≡ input.at j)
read_slot-write_slot E now i offset n input s v is_live regular fits accepting some_bytes ends e
      works =
    let s' = (write_slot E now i offset input s).1 in
    let (done, p, bound, outcome) =
      write_slot_lem E now i offset input s v is_live regular accepting some_bytes ends in
    let live' : find s'.table.inodes (s.table.inodes.ino.at i) ≡ some i =
      ap (λ v. find s'.table.inodes (v.at i)) (sym p.same_ino) ∙ p.is_live in
    let all : done ≡ offset + input.len = ground (arith, outcome) in
    let size : s'.table.inodes.size.at i ≡ max (s.table.inodes.size.at i) (offset + input.len) =
      p.size i ∙ ground arith in
    let (out, read, len, bytes) =
      read_slot_lem E s' i offset input.len works (ap (λ f. f.at i) p.same_kind ∙ regular)
        (p.sound.inos_fit i) (omega arith) (p.sound.sorted i) in
    (
      out,
      read,
      omega arith,
      λ j r.
          bytes j (omega arith)
          ∙ sym (ap (content_at s' (s.table.inodes.ino.at i) (offset + j)) live')
          ∙ p.written (s.table.inodes.ino.at i) (offset + j) (v.inos_fit i) (omega arith)
          ∙ ground arith,
    )
