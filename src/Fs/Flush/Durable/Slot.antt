-- ===== src/Fs/Flush/Durable/Slot.antt =====
-- `flush_slot`: what is stored and what stays buffered.
use vibedbfs.Prelude.{
  ℕ, ◌<◌, ◌≡◌, ◌⊎◌, refl, ◌∙◌, sym, ap, none, some, true, false, ◌&&◌, ◌||◌, ◌==◌, Result, ok, err,
  is_empty, arith, Bool-cases, Option-cases, inl, inr,
}
use vibedbfs.Model.{DbError}
use vibedbfs.OpenTable.Inodes.{find}
use vibedbfs.Db.{Tables, Engine}
use vibedbfs.Db.Keys.{max_file_size}
use vibedbfs.Db.Rows.{lookup_row}
use vibedbfs.Db.Files.{replace_chunks}
use vibedbfs.Db.Files.Contents.{stored_byte}
use vibedbfs.Db.Links.RowLaws.{map_row}
use vibedbfs.Fs.{Fs, Errno, errno_from_db_error}
use vibedbfs.Fs.Flush.{Unlinked, is_skip, flush_slot, cleaned}
use vibedbfs.Fs.Flush.Transparent.{flushed}
use vibedbfs.Fs.Flush.Rows.{
  buffered_at, buffered_row, seen_row, resized_row, cleaned-buffered, resized-modified,
}
use vibedbfs.Fs.Buffer.Sound.{IsSound, nowhere, dirty_at, content, content_at, Kept}
use vibedbfs.Fs.Buffer.Sound.Flushed.{cleaned-Kept, Kept-refl, dirty_live}

-- The bytes and the row of the slot's inode are in the tables as readers saw them, and nothing of it
-- is buffered.
pub record IsSlotStored (i : ℕ) (s t : Fs) : Type 0 where
  pub clean : (k : ℕ) → dirty_at t i k ≡ none
  pub bytes :
      (p : ℕ)
      → p < max_file_size
      → stored_byte t.tables.file_chunks (s.table.inodes.ino.at i) p
        ≡ content s (s.table.inodes.ino.at i) p
  pub row :
      lookup_row (s.table.inodes.ino.at i) t.tables.inodes ≡ seen_row s (s.table.inodes.ino.at i)

-- A flush has nothing to do, or a transaction fails and it changes nothing, or all is stored.
abbrev pub FlushOutcome : Engine → ℕ → Unlinked → Fs → Result Errno (Unit {0}) × Fs → Type 0
FlushOutcome E i u s x =
    (((is_empty (s.table.inodes.dirty.at i) || (s.table.inodes.unlinked.at i && is_skip u)) ≡ true)
      × (x ≡ (ok tt, s)))
    ⊎ (((t : Tables) × (d : DbError) × (E.commit_failure t ≡ some d)
          × (x ≡ (err (errno_from_db_error d), s)))
        ⊎ ((x.0 ≡ ok tt) × IsSlotStored i s x.1))

module _ (s : Fs) (i : ℕ) (v : IsSound nowhere s)
    (dirty : is_empty (s.table.inodes.dirty.at i) ≡ false) where
  is_live : find s.table.inodes (s.table.inodes.ino.at i) ≡ some i
  is_live = dirty_live s i v dirty

  self : (i == i) ≡ true
  self = ground arith

  cleaned_bytes :
      (p : ℕ)
      → Kept i s (cleaned s i (flushed s i))
      → p < max_file_size
      → stored_byte (flushed s i).file_chunks (s.table.inodes.ino.at i) p
        ≡ content s (s.table.inodes.ino.at i) p
  unfolding find
  cleaned_bytes p k h =
      let ino = s.table.inodes.ino.at i in
      let t = cleaned s i (flushed s i) in
      let seen : content t ino p ≡ stored_byte (flushed s i).file_chunks ino p =
        ap (content_at t ino p) (k.still_live is_live) ∙ rw self refl in
      sym seen ∙ k.unnoticed.same_content ino p (v.inos_fit i) h

  cleaned_row :
      lookup_row (s.table.inodes.ino.at i) (flushed s i).inodes
      ≡ seen_row s (s.table.inodes.ino.at i)
  unfolding find
  cleaned_row =
      let ino = s.table.inodes.ino.at i in
      let t = cleaned s i (flushed s i) in
      let stored : buffered_row t ino ≡ lookup_row ino (flushed s i).inodes =
        ap (buffered_at t ino) is_live ∙ rw self refl in
      let seen : seen_row s ino ≡ buffered_row s ino =
        rw (is_live, dirty)
          (resized-modified (s.table.inodes.size.at i) (s.table.inodes.mtime.at i)
            (lookup_row ino s.tables.inodes)) in
      sym stored ∙ cleaned-buffered s i v dirty ino ∙ sym seen

  cleaned-IsSlotStored :
      Kept i s (cleaned s i (flushed s i)) → IsSlotStored i s (cleaned s i (flushed s i))
  cleaned-IsSlotStored k = record {
    clean = λ l. rw self refl;
    bytes = λ p h. cleaned_bytes p k h;
    row = cleaned_row;
  }

  cleaned-seen : (ino : ℕ) → seen_row (cleaned s i (flushed s i)) ino ≡ seen_row s ino
  unfolding find
  cleaned-seen ino =
      let same = cleaned-buffered s i v dirty ino in
      elim (Option-cases (find s.table.inodes ino)) [
        | inl e ↦ rw e (rw e at same)
        | inr (j, e) ↦ rw e (ap (map_row (resized_row (s.table.inodes.size.at j))) (rw e at same))
      ]

-- What a flush of a slot does, whatever fails: the buffers stay sound, no reader sees another byte
-- or another row, and it stores all, or nothing with the reason.
pub record SlotFlushed (E : Engine) (i : ℕ) (u : Unlinked) (s : Fs)
    (x : Result Errno (Unit {0}) × Fs) : Type 0 where
  pub kept : (w : ℕ) → Kept w s x.1
  pub same_rows : (ino : ℕ) → seen_row x.1 ino ≡ seen_row s ino
  pub outcome : FlushOutcome E i u s x

unchanged :
    (E : Engine) (i : ℕ) (u : Unlinked) (s : Fs) (r : Result Errno (Unit {0}))
    → IsSound nowhere s
    → FlushOutcome E i u s (r, s)
    → SlotFlushed E i u s (r, s)
unchanged E i u s r v o = record {
  kept = λ w. Kept-refl w s v;
  same_rows = λ ino. refl;
  outcome = o;
}

-- Where the buffers are sound, a flush of a slot keeps them sound, and no reader sees another byte
-- of any file or another row, with the size and times of the open table laid over. If there are no
-- dirty chunks, or the file is unlinked and unlinked files are skipped, it succeeds and changes
-- nothing. Else either the transaction fails, the result is its errno and nothing changes, or the
-- result is a success, the slot has no dirty chunk, and the bytes and the row of its inode are in
-- the tables as readers saw them before, its size and times included.
pub flush_slot_lem :
    (E : Engine) (i : ℕ) (u : Unlinked) (s : Fs)
    → IsSound nowhere s
    → SlotFlushed E i u s (flush_slot E i u s)
unfolding flush_slot replace_chunks
flush_slot_lem E i u s v =
    elim (Bool-cases
      (is_empty (s.table.inodes.dirty.at i) || (s.table.inodes.unlinked.at i && is_skip u))) [
        | inl idle ↦ rw idle (unchanged E i u s (ok tt) v (inl (idle, refl)))
        | inr busy ↦
            let dirty : is_empty (s.table.inodes.dirty.at i) ≡ false = ground arith in
            elim (Option-cases (E.commit_failure (flushed s i))) [
              | inl f ↦
                  let k : (w : ℕ) → Kept w s (cleaned s i (flushed s i)) =
                    λ w. cleaned-Kept s i v (dirty_live s i v dirty) w in
                  rw (busy, f)
                    (record {
                      kept = k;
                      same_rows = cleaned-seen s i v dirty;
                      outcome = inr (inr (refl, cleaned-IsSlotStored s i v dirty (k i)));
                    })
              | inr (d, f) ↦
                  rw (busy, f)
                    (unchanged E i u s (err (errno_from_db_error d)) v
                      (inr (inl (flushed s i, d, f, refl))))
            ]
      ]
