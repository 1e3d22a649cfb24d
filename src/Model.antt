-- ===== src/Model.antt =====
-- model.rs: timestamps, inodes, entries and errors.
use vibedbfs.Prelude.{
  ℕ, suc, ◌+◌, ◌-◌, ◌*◌, ◌/◌, ◌%◌, ◌^◌, ◌≤◌, ◌<◌, ◌≡◌, Bool, true, false, Option, none, some, List,
  ℤ, pos, negsuc, ltb, leb, if◌then◌else◌, ltb_ℤ, neg_ℕ, unsigned_abs, Result, ok, err, ◌==◌,
}
pub mod Time

-- Seconds are an i64, nanoseconds a u32.
pub record Timestamp : Type 0 where
  pub secs : ℤ
  pub nsec : ℕ

abbrev pub i64_max : ℕ
i64_max = 9223372036854775807

abbrev pub billion : ℕ
billion = 1000000000

-- `ns.clamp(i64::MIN, i64::MAX)`.
abbrev clamp_i64 : ℤ → ℤ
clamp_i64 (pos n) = if leb n i64_max then pos n else pos i64_max
clamp_i64 (negsuc n) = if leb n i64_max then negsuc n else negsuc i64_max

unfoldable pub to_ns : Timestamp → ℤ
to_ns t =
    let magnitude = unsigned_abs t.secs * billion + t.nsec in
    clamp_i64 (if ltb_ℤ t.secs (pos 0) then neg_ℕ magnitude else pos magnitude)

unfoldable pub from_ns : ℤ → Timestamp
from_ns ns =
    let magnitude = unsigned_abs ns in
    let seconds = magnitude / billion in
    record {
      secs = if ltb_ℤ ns (pos 0) then neg_ℕ seconds else pos seconds;
      nsec = magnitude % billion;
    }

pub data FileKind : Type 0 where
  regular_file directory symlink : FileKind

pub record Inode : Type 0 where
  pub ino : ℕ
  pub kind : FileKind
  pub mode : ℕ
  pub uid : ℕ
  pub gid : ℕ
  pub size : ℕ
  pub atime : Timestamp
  pub mtime : Timestamp
  pub ctime : Timestamp
  pub nlink : ℕ

pub record DirEntry : Type 0 where
  pub name : List ℕ
  pub ino : ℕ
  pub kind : FileKind

pub record MetadataUpdate : Type 0 where
  pub mode : Option ℕ
  pub uid : Option ℕ
  pub gid : Option ℕ
  pub atime : Option Timestamp
  pub mtime : Option Timestamp

-- `sqlite` carries the text of the message.
pub data DbError : Type 0 where
  already_exists directory_not_empty invalid_input is_directory : DbError
  name_too_long no_space not_directory not_found corrupt : DbError
  unsupported_schema : ℤ → DbError
  file_too_large : DbError
  sqlite : List ℕ → DbError

abbrev pub as_i64 : FileKind → ℤ
as_i64 regular_file = pos 1
as_i64 directory = pos 2
as_i64 symlink = pos 3

abbrev pub from_i64 : ℤ → Result DbError FileKind
from_i64 (pos n) =
    if n == 1
    then ok regular_file
    else (if n == 2 then ok directory else (if n == 3 then ok symlink else err corrupt))
from_i64 (negsuc n) = err corrupt

abbrev pub regular_file_error : FileKind → Option DbError
regular_file_error regular_file = none
regular_file_error directory = some is_directory
regular_file_error symlink = some invalid_input

-- The standard library's `SystemTime`: nanoseconds since the epoch.
abbrev pub SystemTime : Type 0
SystemTime = ℤ

-- `duration_since` gives the magnitude on both sides of the epoch.
unfoldable pub from_system_time : SystemTime → Timestamp
from_system_time (pos n) = record { secs = pos (n / billion); nsec = n % billion }
from_system_time (negsuc n) = record { secs = neg_ℕ ((n + 1) / billion); nsec = (n + 1) % billion }

unfoldable pub to_system_time : Timestamp → SystemTime
to_system_time t =
    let magnitude = unsigned_abs t.secs * billion + t.nsec in
    if ltb_ℤ t.secs (pos 0) then neg_ℕ magnitude else pos magnitude
