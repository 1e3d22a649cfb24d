-- ===== src/Fs/Flush/Durable.antt =====
-- `flush_all` stores every file: the loop over the live slots goes on after a failure, and where it
-- reports none nothing is left to store.
pub mod Loop
pub mod Slot
pub mod Sweep
use vibedbfs.Prelude.{
  ℕ, ◌+◌, ◌≤◌, ◌<◌, ◌≡◌, ◌≢◌, ◌⊎◌, refl, ◌∙◌, sym, ap, List, [], ◌∷◌, map, Option, none, some, Bool,
  true, false, ◌&&◌, ◌||◌, ◌==◌, if◌then◌else◌, Result, ok, err, is_empty, member, Distinct, arith,
  Bool-cases, Option-cases, inl, inr,
}
use vibedbfs.OpenTable.Inodes.{find, remove, live_slots}
use vibedbfs.OpenTable.Inodes.Live.{keys, slots, slot_key, slots-Distinct}
use vibedbfs.Arena.Dirty.Order.{slot_of}
use vibedbfs.Db.{Engine, sync_durable}
use vibedbfs.Db.Keys.{max_ino, max_file_size}
use vibedbfs.Db.Files.{replace_chunks}
use vibedbfs.Db.Files.Contents.{stored_byte}
use vibedbfs.Fs.{Fs, Errno, from_db, errno_from_db_error}
use vibedbfs.Fs.Flush.{
  Unlinked, skip, is_skip, flush_slot, free_if_idle, cleaned, after_flush, flush_one, flush_slots,
  flush_all, first_error,
}
use vibedbfs.Fs.Flush.Rows.{buffered_row, flush_slot-buffered, free_if_idle-buffered}
use vibedbfs.Fs.Flush.Transparent.{flush-cases, flushed}
use vibedbfs.Fs.Buffer.Sound.{IsSound, nowhere, dirty_at, content, content_at, Unnoticed, Kept}
use vibedbfs.Fs.Buffer.Sound.Flushed.{flush_slot-Kept, Kept-refl, Kept-trans, empty_slot}
use vibedbfs.Fs.Buffer.Sound.Freed.{free_if_idle-Kept}

pub flush_stores :
    (E : Engine) (s : Fs) (i : ℕ) (u : Unlinked)
    → (is_empty (s.table.inodes.dirty.at i) || (s.table.inodes.unlinked.at i && is_skip u)) ≡ false
    → ((e : Errno) × (flush_slot E i u s ≡ (err e, s)))
      ⊎ (flush_slot E i u s ≡ (ok tt, cleaned s i (flushed s i)))
unfolding flush_slot replace_chunks
flush_stores E s i u h = elim (Option-cases (E.commit_failure (flushed s i))) [
  | inl f ↦ inr (rw (h, f) refl)
  | inr (d, f) ↦ inl (errno_from_db_error d, rw (h, f) refl)
]

flush_nothing :
    (E : Engine) (s : Fs) (i : ℕ) (u : Unlinked)
    → is_empty (s.table.inodes.dirty.at i) ≡ true
    → flush_slot E i u s ≡ (ok tt, s)
unfolding flush_slot
flush_nothing E s i u h = rw h refl

-- A successful flush that is not skipped leaves no dirty chunk.
pub flush_slot-clean :
    (E : Engine) (s : Fs) (i k : ℕ) (u : Unlinked)
    → (s.table.inodes.unlinked.at i && is_skip u) ≡ false
    → (flush_slot E i u s).0 ≡ ok tt
    → dirty_at (flush_slot E i u s).1 i k ≡ none
flush_slot-clean E s i k u h e = elim (Bool-cases (is_empty (s.table.inodes.dirty.at i))) [
  | inl clean ↦ rw (flush_nothing E s i u clean) (empty_slot k (s.table.inodes.dirty.at i) clean)
  | inr dirty ↦ elim (flush_stores E s i u (ground arith)) [
    | inl (d, f) ↦ absurd (let failed = rw f at e in cc)
    | inr f ↦ rw f (ground arith)
  ]
]

flush_slot-unlinked :
    (E : Engine) (s : Fs) (i : ℕ) (u : Unlinked)
    → (flush_slot E i u s).1.table.inodes.unlinked ≡ s.table.inodes.unlinked
flush_slot-unlinked E s i u = elim (flush-cases E s i u) [
  | inl (r, e) ↦ rw e refl
  | inr e ↦ rw e refl
]

free_if_idle-unlinked :
    (s : Fs) (i w : ℕ)
    → w ≢ i
    → (free_if_idle i s).table.inodes.unlinked.at w ≡ s.table.inodes.unlinked.at w
unfolding free_if_idle remove
free_if_idle-unlinked s i w ne = ground arith

-- One round of the loop: readers notice nothing, rows included, and the slot is clean if the round did not fail.
pub record Round (i : ℕ) (failed : Option Errno) (s : Fs) (x : Option Errno × Fs) : Type 0 where
  pub kept : (w : ℕ) → w ≢ i → Kept w s x.1
  pub same_rows : (ino : ℕ) → buffered_row x.1 ino ≡ buffered_row s ino
  pub same_unlinked :
      (w : ℕ) → w ≢ i → x.1.table.inodes.unlinked.at w ≡ s.table.inodes.unlinked.at w
  pub clean :
      x.0 ≡ none
      → (failed ≡ none) × ((k : ℕ) → s.table.inodes.unlinked.at i ≡ false → dirty_at x.1 i k ≡ none)

free_if_idle-dirty : (s : Fs) (i : ℕ) → (free_if_idle i s).table.inodes.dirty ≡ s.table.inodes.dirty
unfolding free_if_idle remove
free_if_idle-dirty s i = ground arith

first_error-some : (failed : Option Errno) (e : Errno) → first_error failed e ≢ none
first_error-some none e h = cc
first_error-some (some f) e h = cc

after_flush-Round :
    (i : ℕ) (failed : Option Errno) (s : Fs) (x : Result Errno (Unit {0}) × Fs)
    → ((w : ℕ) → Kept w s x.1)
    → ((ino : ℕ) → buffered_row x.1 ino ≡ buffered_row s ino)
    → find x.1.table.inodes (x.1.table.inodes.ino.at i) ≡ some i
    → x.1.table.inodes.unlinked ≡ s.table.inodes.unlinked
    → ((k : ℕ) → s.table.inodes.unlinked.at i ≡ false → x.0 ≡ ok tt → dirty_at x.1 i k ≡ none)
    → Round i failed s (after_flush i failed x)
after_flush-Round i failed s (ok u, t) kept rows live same clean = record {
  kept = λ w ne.
      Kept-trans w s t (free_if_idle i t) (kept w) (free_if_idle-Kept w i t (kept w).sound live ne);
  same_rows = λ ino. free_if_idle-buffered t i ino live ∙ rows ino;
  same_unlinked = λ w ne. free_if_idle-unlinked t i w ne ∙ ap (λ v. v.at w) same;
  clean = λ h.
      (h, λ k linked. ap (λ d. slot_of k (d.at i)) (free_if_idle-dirty t i) ∙ clean k linked refl);
}
after_flush-Round i failed s (err e, t) kept rows live same clean = record {
  kept = λ w ne. kept w;
  same_rows = rows;
  same_unlinked = λ w ne. ap (λ v. v.at w) same;
  clean = λ h. absurd (first_error-some failed e h);
}

pub flush_one-Round :
    (E : Engine) (i : ℕ) (failed : Option Errno) (s : Fs)
    → IsSound nowhere s
    → find s.table.inodes (s.table.inodes.ino.at i) ≡ some i
    → Round i failed s (flush_one E i failed s)
unfolding flush_one
flush_one-Round E i failed s v is_live =
    let k = flush_slot-Kept E i i skip s v in
    after_flush-Round i failed s (flush_slot E i skip s) (λ w. flush_slot-Kept E w i skip s v)
      (λ ino. flush_slot-buffered E i skip s ino v)
      (ap (λ f. find (flush_slot E i skip s).1.table.inodes (f.at i)) k.unnoticed.same_ino
        ∙ k.still_live is_live)
      (flush_slot-unlinked E s i skip)
      (λ l linked e. flush_slot-clean E s i l skip (ground arith) e)
