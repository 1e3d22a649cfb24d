-- ===== src/Tests/Upgrade.antt =====
-- A database of the oldest version, upgraded.
use vibedbfs.Prelude.{
  All, ◌<◌, ℕ, ◌≡◌, List, [], ◌∷◌, Option, some, none, Bytes, pos, filled, is_some, if◌then◌else◌,
  ok, arith,
}
use vibedbfs.Model.{corrupt}
use vibedbfs.Db.{Dirent}
use vibedbfs.Db.Dirs.Ordered.{IsOrdered}
use vibedbfs.Db.Keys.{chunk_key}
use vibedbfs.Db.Rows.{lookup_row}
use vibedbfs.Db.Migrate.{SplitRow, Unnumbered, IndexedChunk, migrate}
use vibedbfs.Db.Migrate.Rekeyed.{indexed}
use vibedbfs.Db.Migrate.Renumbered.{times, times_before}
use vibedbfs.Db.Migrate.Timed.{with_all_times}
use vibedbfs.Db.Migrate.Upgraded.{oldest, current, migrate_lem}
use vibedbfs.Tests.Samples.{file_row}

abbrev old_row : SplitRow
old_row = record {
  row = file_row;
  atime = pos 7;
  atime_nsec = none;
  mtime = pos 8;
  mtime_nsec = none;
  ctime = pos 9;
  ctime_nsec = some 5;
}

abbrev old_entries : List Unnumbered
old_entries =
    record { parent = 1; name = 98 ∷ []; child = 2 }
    ∷ record { parent = 1; name = 97 ∷ []; child = 2 }
    ∷ []

abbrev old_chunks : List IndexedChunk
old_chunks = record { ino = 2; index = 3; bytes = filled 10 7 } ∷ []

migrate_lem_example :
    (dirents : List Dirent) × (chunks : ℕ → Option Bytes) × (migrate corrupt
        (λ n. [])
        none
        (oldest (pos 0) ((2, old_row) ∷ []) old_entries old_chunks)
      ≡ ok (current (with_all_times ((2, old_row) ∷ [])) dirents chunks))
    × IsOrdered dirents
    × All (λ d. 0 < d.id) dirents
    × (times 1 (97 ∷ []) 2 dirents ≡ times_before 1 (97 ∷ []) 2 old_entries)
    × (chunks (chunk_key 2 3)
        ≡ (if is_some (lookup_row 2 ((2, old_row) ∷ [])) then indexed old_chunks 2 3 else none))
migrate_lem_example =
    migrate_lem corrupt (λ n. []) (pos 0) ((2, old_row) ∷ []) old_entries old_chunks 2 3 1 (97 ∷ [])
      2 (ground arith)
      (((omega arith, ground arith), (omega arith, ground arith), (omega arith, ground arith)), tt)
      (ground arith, tt) (omega arith) (omega arith)
