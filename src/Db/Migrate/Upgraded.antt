-- ===== src/Db/Migrate/Upgraded.antt =====
-- What an upgrade keeps.
use vibedbfs.Prelude.{
  ℕ, ◌<◌, ◌≤◌, ◌≡◌, refl, ap, ◌∙◌, ℤ, pos, ltb_ℤ, List, Option, none, true, false, if◌then◌else◌,
  is_some, All, Bytes, ok, arith,
}
use vibedbfs.Model.{DbError}
use vibedbfs.Db.{InodeRow, Dirent}
use vibedbfs.Db.Keys.{max_chunks, max_ino, chunk_key}
use vibedbfs.Db.Rows.{lookup_row}
use vibedbfs.Db.Migrate.{
  SplitRow, IndexedChunk, Unnumbered, split, merged, unnumbered, numbered, by_index, by_key, Layout,
  schema_version, ensure_nsec_columns, sort_entries, number_from, number_dirents, is_too_large,
  rekey, rekey_file_chunks, ino_exists, migrate_steps, migrate,
}
use vibedbfs.Db.Migrate.Rekeyed.{indexed, rekey-indexed, no_large}
use vibedbfs.Db.Migrate.Renumbered.{
  times, times_before, times-number_from, times-sort_entries, number_from-All,
  number_from-IsOrdered,
}
use vibedbfs.Db.Dirs.Ordered.{IsOrdered}
use vibedbfs.Db.Migrate.Timed.{IsUsualRow, with_all_times, merge_columns-times, exists-times}

-- A database of the oldest version.
abbrev pub oldest : ℤ → List (ℕ × SplitRow) → List Unnumbered → List IndexedChunk → Layout
oldest v rows entries old = record {
  version = v;
  inodes = split rows;
  dirents = unnumbered entries;
  chunks = by_index old;
}

abbrev pub current : List (ℕ × InodeRow) → List Dirent → (ℕ → Option Bytes) → Layout
current inodes dirents chunks = record {
  version = pos schema_version;
  inodes = merged inodes;
  dirents = numbered dirents;
  chunks = by_key chunks;
}

-- Upgrading a database from before version 1, all of whose chunks are within the limits and whose
-- times are out of the last second of the range on either side, succeeds if the transaction does.
-- Each row keeps its columns and has its times in nanoseconds, as `to_ns` has them. Entries get
-- ids that are positive and grow along the table, and each stands where it stood, as often. A chunk within the limits
-- is found under its key if its inode exists, and no other.
pub migrate_lem :
    (missing : DbError) (describe : ℕ → List ℕ) (v : ℤ) (rows : List (ℕ × SplitRow))
    (entries : List Unnumbered) (old : List IndexedChunk) (ino index parent : ℕ) (name : List ℕ)
    (child : ℕ)
    → ltb_ℤ v (pos 1) ≡ true
    → All (λ x. IsUsualRow x.1) rows
    → All (λ c. is_too_large c ≡ false) old
    → ino ≤ max_ino
    → index < max_chunks
    → (dirents : List Dirent) × (chunks : ℕ → Option Bytes) × (migrate missing describe none
          (oldest v rows entries old)
        ≡ ok (current (with_all_times rows) dirents chunks))
      × IsOrdered dirents
      × All (λ d. 0 < d.id) dirents
      × (times parent name child dirents ≡ times_before parent name child entries)
      × (chunks (chunk_key ino index)
          ≡ (if is_some (lookup_row ino rows) then indexed old ino index else none))
unfolding migrate migrate_steps ensure_nsec_columns number_dirents rekey_file_chunks
migrate_lem missing describe v rows entries old ino index parent name child early usual fit a b =
    let exists = ino_exists (merged (with_all_times rows)) in
    let chunks = rekey exists old in
    let dirents = number_from 1 (sort_entries entries) in
    let newer : ltb_ℤ (pos schema_version) v ≡ false = ground arith in
    let older : ltb_ℤ v (pos schema_version) ≡ true = ground arith in
    let unnumbered_yet : ltb_ℤ v (pos 3) ≡ true = ground arith in
    let merges = merge_columns-times missing rows usual in
    (
      dirents,
      chunks,
      rw
          (
            migrate,
            migrate_steps,
            newer,
            older,
            early,
            unnumbered_yet,
            merges,
            rekey_file_chunks,
            no_large old fit,
          )
          refl,
      number_from-IsOrdered 1 (sort_entries entries),
      number_from-All 0 1 (sort_entries entries) (omega arith),
      times-number_from parent name child 1 (sort_entries entries)
          ∙ times-sort_entries parent name child entries,
      rekey-indexed exists old ino index fit a b
          ∙ ap (λ x. if x then indexed old ino index else none) (exists-times rows ino),
    )
