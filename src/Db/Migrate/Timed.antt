-- ===== src/Db/Migrate/Timed.antt =====
-- `merge_timestamp_columns`: times in nanoseconds.
use vibedbfs.Prelude.{
  ℕ, ◌<◌, ◌≡◌, refl, ℤ, pos, negsuc, unsigned_abs, List, [], ◌∷◌, map, Option, none, some, is_some,
  All, ok, unwrap_or, ◌≢◌, arith,
}
use vibedbfs.Model.{DbError, to_ns, billion}
use vibedbfs.Db.{InodeRow}
use vibedbfs.Db.Rows.{lookup_row}
use vibedbfs.Db.Migrate.{
  SplitRow, default_zero, column, merged_ns, merge_row, merge_timestamp_columns,
}

-- The times of a row are merged, and its other columns stay.
abbrev pub with_times : SplitRow → InodeRow
with_times r = record (r.row) {
  atime_ns = to_ns (record { secs = r.atime; nsec = unwrap_or r.atime_nsec 0 });
  mtime_ns = to_ns (record { secs = r.mtime; nsec = unwrap_or r.mtime_nsec 0 });
  ctime_ns = to_ns (record { secs = r.ctime; nsec = unwrap_or r.ctime_nsec 0 });
}

abbrev pub merged_row : SplitRow → InodeRow
merged_row r = record (r.row) {
  atime_ns = merged_ns r.atime (unwrap_or r.atime_nsec 0);
  mtime_ns = merged_ns r.mtime (unwrap_or r.mtime_nsec 0);
  ctime_ns = merged_ns r.ctime (unwrap_or r.ctime_nsec 0);
}

abbrev pub ensured : SplitRow → SplitRow
ensured r = record r {
  atime_nsec = default_zero r.atime_nsec;
  mtime_nsec = default_zero r.mtime_nsec;
  ctime_nsec = default_zero r.ctime_nsec;
}

column-default :
    (missing : DbError) (o : Option ℕ) → column missing (default_zero o) ≡ ok (unwrap_or o 0)
column-default missing none = refl
column-default missing (some n) = refl

merge_row-ensured :
    (missing : DbError) (r : SplitRow) → merge_row missing (ensured r) ≡ ok (merged_row r)
merge_row-ensured missing r =
    rw
      (
        merge_row,
        column-default missing r.atime_nsec,
        column-default missing r.mtime_nsec,
        column-default missing r.ctime_nsec,
      )
      refl

-- Fewer nanoseconds than a second has, and a time that is not within the last second of the range.
abbrev pub IsUsual : ℤ → Option ℕ → Type 0
IsUsual secs nsec = (unwrap_or nsec 0 < billion) × (unsigned_abs secs ≢ 9223372036)

merged_ns-to_ns :
    (secs : ℤ) (nsec : ℕ)
    → nsec < billion
    → unsigned_abs secs ≢ 9223372036
    → merged_ns secs nsec ≡ to_ns (record { secs = secs; nsec = nsec })
unfolding merged_ns to_ns
merged_ns-to_ns (pos n) nsec lt ne = ground arith
merged_ns-to_ns (negsuc n) nsec lt ne = ground arith

-- A row whose three times are usual.
abbrev pub IsUsualRow : SplitRow → Type 0
IsUsualRow r =
    IsUsual r.atime r.atime_nsec × IsUsual r.mtime r.mtime_nsec × IsUsual r.ctime r.ctime_nsec

merged_row-times : (r : SplitRow) → IsUsualRow r → merged_row r ≡ with_times r
merged_row-times r u =
    let a = merged_ns-to_ns r.atime (unwrap_or r.atime_nsec 0) u.0.0 u.0.1 in
    let m = merged_ns-to_ns r.mtime (unwrap_or r.mtime_nsec 0) u.1.0 u.1.1 in
    let c = merged_ns-to_ns r.ctime (unwrap_or r.ctime_nsec 0) u.2.0 u.2.1 in
    rw (merged_row, a, m, c) refl

abbrev pub with_all_times : List (ℕ × SplitRow) → List (ℕ × InodeRow)
with_all_times [] = []
with_all_times ((k, r) ∷ rows) = (k, with_times r) ∷ with_all_times rows

pub merge_columns-times :
    (missing : DbError) (rows : List (ℕ × SplitRow))
    → All (λ x. IsUsualRow x.1) rows
    → merge_timestamp_columns missing (map (λ x. (x.0, ensured x.1)) rows)
      ≡ ok (with_all_times rows)
unfolding merge_timestamp_columns
merge_columns-times missing [] usual = refl
merge_columns-times missing ((k, r) ∷ rows) usual =
    rw
      (
        merge_timestamp_columns,
        merge_row-ensured missing r,
        merged_row-times r usual.0,
        merge_columns-times missing rows usual.1,
      )
      refl

pub exists-times :
    (rows : List (ℕ × SplitRow)) (ino : ℕ)
    → is_some (lookup_row ino (with_all_times rows)) ≡ is_some (lookup_row ino rows)
exists-times [] ino = refl
exists-times ((k, r) ∷ rows) ino = ground (arith, exists-times rows ino)
