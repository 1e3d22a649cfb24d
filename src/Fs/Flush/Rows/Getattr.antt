-- ===== src/Fs/Flush/Rows/Getattr.antt =====
-- `getattr` reads the row with the open table laid over it.
use vibedbfs.Prelude.{
  ℕ, ◌+◌, ◌*◌, ◌≤◌, ◌<◌, ◌≡◌, refl, ◌∙◌, sym, ap, Option, none, some, pos, Result, ok, err,
  is_empty, arith, Bool-cases, Option-cases, Result-cases, inl, inr, map_ok, map_err, ◌>>=◌,
}
use vibedbfs.Model.{Timestamp, to_ns, from_ns, to_system_time, from_i64, DbError, billion, i64_max}
use vibedbfs.OpenTable.Inodes.{find}
use vibedbfs.Db.{Engine, InodeRow}
use vibedbfs.Db.Rows.{lookup_row, inode_from_row}
use vibedbfs.Db.Nodes.{get_inode, one_row}
use vibedbfs.Fs.{Fs, Errno, enoent, from_db, errno_from_db_error}
use vibedbfs.Fs.Attr.{FileAttr, file_attr_from_inode, overlay_attr}
use vibedbfs.Fs.Ops.{getattr}
use vibedbfs.Fs.Flush.{Unlinked, flush_slot}
use vibedbfs.Fs.Flush.Rows.{seen_at, seen_row}
use vibedbfs.Fs.Flush.Transparent.{flush-cases}
use vibedbfs.Fs.Flush.Durable.Slot.{flush_slot_lem}
use vibedbfs.Fs.Buffer.Sound.{IsSound, nowhere}

-- A time of day that a nanosecond column holds: from the epoch to what an i64 reaches.
abbrev pub IsStorable : Timestamp → Type 0
IsStorable t = (n : ℕ) × (t.secs ≡ pos n) × (t.nsec < billion) × (n * billion + t.nsec ≤ i64_max)

storable : (t : Timestamp) → IsStorable t → to_system_time (from_ns (to_ns t)) ≡ to_system_time t
unfolding to_ns from_ns to_system_time
storable t (n, e, small, fits) = rw e (ground arith)

abbrev attr_of_row : Engine → ℕ → Option InodeRow → Result Errno FileAttr
attr_of_row E ino o =
    map_err errno_from_db_error (map_ok file_attr_from_inode (one_row o >>= inode_from_row E ino))

overlaid :
    (E : Engine) (s : Fs) (ino : ℕ) (r : InodeRow) (o : Option ℕ)
    → lookup_row ino s.tables.inodes ≡ some r
    → find s.table.inodes ino ≡ o
    → ((i : ℕ) → o ≡ some i → IsStorable (s.table.inodes.mtime.at i))
    → map_err errno_from_db_error
        (map_ok (λ i. overlay_attr s (file_attr_from_inode i)) (inode_from_row E ino r))
      ≡ attr_of_row E ino (seen_at s ino o)
unfolding inode_from_row overlay_attr file_attr_from_inode
overlaid E s ino r none row e times = elim (Result-cases (from_i64 r.kind)) [
  | inr (x, f) ↦ rw (inode_from_row, row, f) refl
  | inl (kind, f) ↦ rw (inode_from_row, row, f, overlay_attr, e) refl
]
overlaid E s ino r (some i) row e times = elim (Result-cases (from_i64 r.kind)) [
  | inr (x, f) ↦ elim (Bool-cases (is_empty (s.table.inodes.dirty.at i))) [
    | inl clean ↦ rw (inode_from_row, row, clean, f) refl
    | inr dirty ↦ rw (inode_from_row, row, dirty, f) refl
  ]
  | inl (kind, f) ↦ elim (Bool-cases (is_empty (s.table.inodes.dirty.at i))) [
    | inl clean ↦ rw (inode_from_row, row, clean, f, overlay_attr, e, clean) refl
    | inr dirty ↦
        let time = storable (s.table.inodes.mtime.at i) (times i refl) in
        rw (inode_from_row, row, dirty, f, overlay_attr, e, dirty, time) refl
  ]
]

from_db-result :
    (r : Result DbError FileAttr) (s : Fs) → (from_db r s).0 ≡ map_err errno_from_db_error r
from_db-result (ok a) s = refl
from_db-result (err e) s = refl

missing :
    (E : Engine) (s : Fs) (ino : ℕ) (o : Option ℕ)
    → lookup_row ino s.tables.inodes ≡ none
    → err enoent ≡ attr_of_row E ino (seen_at s ino o)
unfolding errno_from_db_error
missing E s ino none gone = rw gone refl
missing E s ino (some i) gone = elim (Bool-cases (is_empty (s.table.inodes.dirty.at i))) [
  | inl clean ↦ rw (clean, gone) refl
  | inr dirty ↦ rw (dirty, gone) refl
]

getattr-seen_row :
    (E : Engine) (ino : ℕ) (s : Fs)
    → E.query_failure s.tables ≡ none
    → ((i : ℕ) → find s.table.inodes ino ≡ some i → IsStorable (s.table.inodes.mtime.at i))
    → (getattr E ino s).0 ≡ attr_of_row E ino (seen_row s ino)
unfolding getattr get_inode errno_from_db_error
getattr-seen_row E ino s answers times = elim (Option-cases (lookup_row ino s.tables.inodes)) [
  | inl gone ↦ rw (answers, gone) (missing E s ino (find s.table.inodes ino) gone)
  | inr (r, row) ↦
      rw (answers, row)
        (from_db-result
            (map_ok (λ i. overlay_attr s (file_attr_from_inode i)) (inode_from_row E ino r)) s
          ∙ overlaid E s ino r (find s.table.inodes ino) row refl times)
]

flushed_times :
    (E : Engine) (ino i : ℕ) (u : Unlinked) (s : Fs)
    → ((j : ℕ) → find s.table.inodes ino ≡ some j → IsStorable (s.table.inodes.mtime.at j))
    → (j : ℕ) → find (flush_slot E i u s).1.table.inodes ino ≡ some j
    → IsStorable ((flush_slot E i u s).1.table.inodes.mtime.at j)
unfolding find
flushed_times E ino i u s times j = elim (flush-cases E s i u) [
  | inl (r, e) ↦ rw e (times j)
  | inr e ↦ rw e (times j)
]

-- Where the buffers are sound, queries do not fail before or after the flush, and the time that the
-- open table has for the inode, if any, is not before the epoch and fits a nanosecond column,
-- `getattr` gives the same answer before and after a flush of any slot, whatever its outcome.
pub getattr-flush_slot :
    (E : Engine) (ino i : ℕ) (u : Unlinked) (s : Fs)
    → IsSound nowhere s
    → E.query_failure s.tables ≡ none
    → E.query_failure (flush_slot E i u s).1.tables ≡ none
    → ((j : ℕ) → find s.table.inodes ino ≡ some j → IsStorable (s.table.inodes.mtime.at j))
    → (getattr E ino (flush_slot E i u s).1).0 ≡ (getattr E ino s).0
getattr-flush_slot E ino i u s v before after times =
    let same = (flush_slot_lem E i u s v).same_rows ino in
    getattr-seen_row E ino (flush_slot E i u s).1 after (flushed_times E ino i u s times)
    ∙ ap (attr_of_row E ino) same
    ∙ sym (getattr-seen_row E ino s before times)
