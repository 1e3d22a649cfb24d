-- ===== src/Mount/Run/Shutdown.antt =====
-- A run that a signal ends.
use vibedbfs.Prelude.{
  ◌≡◌, refl, ◌∙◌, sym, ap, List, none, some, Result, ok, err, Distinct, Option-cases, Result-cases,
  inl, inr,
}
use vibedbfs.OpenTable.Inodes.Live.{keys}
use vibedbfs.Db.{Engine}
use vibedbfs.Fs.{Fs}
use vibedbfs.Fs.Flush.{flush_all, refuse_writes, record_flush}
use vibedbfs.Fs.Flush.Rows.{IsSized}
use vibedbfs.Fs.Flush.Durable.Sweep.{IsStored, flush_all_lem}
use vibedbfs.Fs.Buffer.Sound.{IsSound, nowhere}
use vibedbfs.Fs.Ops.Names.{flush_for_shutdown, flush_failure}
use vibedbfs.Mount.{MountOption, IoError}
use vibedbfs.Mount.Run.{
  Host, shutdown, wait_for_end, shut_down, first_event, report, set_up, mount_dbfs,
}

refused-IsSound : (s : Fs) → IsSound nowhere s → IsSound nowhere (refuse_writes s)
unfolding refuse_writes
refused-IsSound s v = record {
  arena_valid = v.arena_valid;
  slots_fit = v.slots_fit;
  inos_fit = v.inos_fit;
  found = v.found;
  live = v.live;
  sorted = v.sorted;
  chunk_fits = v.chunk_fits;
  owned = v.owned;
  apart = v.apart;
  hides = v.hides;
}

-- What is in the database when nothing is left to store.
pub record IsSafe (E : Engine) (s u : Fs) : Type 0 where
  pub synced : E.sync_failure u.tables ≡ none
  pub stored : IsStored s u

flush_for_shutdown-IsSafe :
    (E : Engine) (s : Fs)
    → IsSound nowhere s
    → IsSized s
    → Distinct (keys s.table.inodes.by_ino)
    → flush_failure (flush_for_shutdown E s).1 ≡ none
    → IsSafe E s (flush_for_shutdown E s).1
unfolding flush_for_shutdown flush_failure refuse_writes record_flush
flush_for_shutdown-IsSafe E s v z d h =
    let all = flush_all_lem E (refuse_writes s) (refused-IsSound s v) z d in
    elim (Result-cases (flush_all E (refuse_writes s)).0) [
      | inr (e, f) ↦ absurd (let g = rw f at h in cc)
      | inl (tt, f) ↦
          let stored = all.stored f in
          record {
            synced = stored.0;
            stored = record { bytes = stored.1.bytes; rows = stored.1.rows };
          }
    ]

-- A reported success was one, and no flush had failed.
report-ok :
    (x : Result IoError (Unit {0}) × Fs)
    → (report x).0 ≡ ok tt
    → (x.0 ≡ ok tt) × (flush_failure x.1 ≡ none) × ((report x).1 ≡ x.1)
report-ok (err e, s) h = cc
report-ok (ok u, s) h = elim (Option-cases (flush_failure s)) [
  | inr (e, f) ↦ absurd (let g = rw (report, f) at h in cc)
  | inl f ↦ (refl, f, rw (report, f) refl)
]

shut_down-unmounted :
    (E : Engine) (host : Host) (s : Fs)
    → (shut_down E host s).0 ≡ ok tt
    → shut_down E host s ≡ (wait_for_end host.later, host.finish (flush_for_shutdown E s).1)
unfolding shut_down
shut_down-unmounted E host s h = elim (Option-cases host.unmount) [
  | inr (e, f) ↦ absurd (let g = rw f at h in cc)
  | inl f ↦ rw f refl
]

mount_dbfs-shut_down :
    (E : Engine) (host : Host) (s : Fs) (options : List MountOption)
    → set_up host options ≡ ok tt
    → host.first ≡ some shutdown
    → mount_dbfs E host s options ≡ report (shut_down E host (host.serve s))
unfolding mount_dbfs first_event shut_down
mount_dbfs-shut_down E host s options ready signal = rw (mount_dbfs, ready, first_event, signal)

-- A run that a signal ends, and that reports success, has stored every file: where the buffers at
-- the signal are sound, slots without dirty chunks have the stored sizes, the inode numbers of the
-- open table are distinct and the session changes nothing after the flush, the tables at the end
-- are synced, and of every file not unlinked they hold the bytes, the size, the times and the rest
-- of the row that readers saw at the signal.
pub mount_dbfs_lem :
    (E : Engine) (host : Host) (s : Fs) (options : List MountOption)
    → set_up host options ≡ ok tt
    → host.first ≡ some shutdown
    → IsSound nowhere (host.serve s)
    → IsSized (host.serve s)
    → Distinct (keys (host.serve s).table.inodes.by_ino)
    → host.finish (flush_for_shutdown E (host.serve s)).1 ≡ (flush_for_shutdown E (host.serve s)).1
    → (mount_dbfs E host s options).0 ≡ ok tt
    → IsSafe E (host.serve s) (mount_dbfs E host s options).1
mount_dbfs_lem E host s options ready signal v z d idle h =
    let s0 = host.serve s in
    let down = mount_dbfs-shut_down E host s options ready signal in
    let (ended, kept, same) = report-ok (shut_down E host s0) (ap (λ y. y.0) (sym down) ∙ h) in
    let x = shut_down-unmounted E host s0 ended in
    let final : (shut_down E host s0).1 ≡ (flush_for_shutdown E s0).1 = ap (λ y. y.1) x ∙ idle in
    let stored = flush_for_shutdown-IsSafe E s0 v z d (sym (ap flush_failure final) ∙ kept) in
    rw (down, same, final) stored
