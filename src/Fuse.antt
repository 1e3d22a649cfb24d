-- ===== src/Fuse.antt =====
-- fuse.rs, `impl Filesystem for Dbfs`: requests, replies, and the handlers of files.
--
-- A handler passes the arguments of a request to an operation of `Fs` and its result to one method
-- of fuser's reply, which is the constructor of `Reply` here.
pub mod Names
pub mod Refused
pub mod Serve
use Prim.Native.Nat.{bit_and}
use vibedbfs.Prelude.{
  ℕ, ◌^◌, ◌%◌, ℤ, pos, negsuc, List, [], ◌∷◌, Option, none, some, Bool, ltb, ltb_ℤ, pos_part, ◌==◌,
  length, if◌then◌else◌, Bytes, Result, ok, err, map_ok, ◌*◌,
}
use vibedbfs.Model.{Timestamp, SystemTime}
use vibedbfs.Db.{Engine}
use vibedbfs.Db.Volume.{Pages, volume_usage}
use vibedbfs.Fs.{Fs, M, Errno, einval, erange, and_then, from_db}
use vibedbfs.Fs.Attr.{FileAttr}
use vibedbfs.Fs.Ops
use vibedbfs.Fs.Ops.{AttrUpdate}
use vibedbfs.Fs.Ops.Names.{DbfsDirEntry}

pub record FsStats : Type 0 where
  pub blocks : ℕ
  pub bfree : ℕ
  pub bavail : ℕ
  pub files : ℕ
  pub ffree : ℕ
  pub bsize : ℕ
  pub namelen : ℕ
  pub frsize : ℕ

-- The one call on the reply object. Times to live are in seconds.
pub data Reply : Type 0 where
  reply_error : Errno → Reply
  reply_ok : Reply
  reply_entry reply_attr : ℕ → FileAttr → Reply
  reply_created : ℕ → FileAttr → ℕ → ℕ → Reply
  reply_opened : ℕ → ℕ → Reply
  reply_data : Bytes → Reply
  reply_target : List ℕ → Reply
  reply_written : ℕ → Reply
  reply_statfs : FsStats → Reply
  reply_directory : List DbfsDirEntry → Reply
  reply_xattr_size : ℕ → Reply
  reply_xattr_data : List ℕ → Reply

abbrev pub attr_ttl : ℕ
attr_ttl = 1

abbrev pub kernel_cache_ttl : ℕ
kernel_cache_ttl = 86400

abbrev pub ttl : Fs → ℕ
ttl s = if s.kernel_cache then kernel_cache_ttl else attr_ttl

-- FOPEN_KEEP_CACHE of FUSE.
abbrev pub fopen_keep_cache : ℕ
fopen_keep_cache = 2

abbrev pub open_flags : Fs → ℕ
open_flags s = if s.kernel_cache then fopen_keep_cache else 0

-- `match result { Ok(a) => reply…, Err(errno) => reply.error(errno) }`.
abbrev pub answer : {A : Type 0} → (Fs → A → Reply) → Result Errno A × Fs → Reply × Fs
answer reply (ok a, s) = (reply s a, s)
answer reply (err e, s) = (reply_error e, s)

abbrev pub with_attr : Result Errno FileAttr × Fs → Reply × Fs
with_attr = answer (λ s attr. reply_attr (ttl s) attr)

abbrev pub with_entry : Result Errno FileAttr × Fs → Reply × Fs
with_entry = answer (λ s attr. reply_entry (ttl s) attr)

abbrev pub with_nothing : Result Errno (Unit {0}) × Fs → Reply × Fs
with_nothing = answer (λ s u. reply_ok)

-- `statfs` of `Dbfs`, and its handler.
unfoldable pub statfs : Engine → Pages → M FsStats
statfs E pages s =
    from_db
      (map_ok
        (λ usage.
          let bsize = usage.page_size % 2 ^ 32 in
          record {
            blocks = usage.page_count;
            bfree = usage.freelist_count;
            bavail = usage.freelist_count;
            files = usage.files;
            ffree = 0;
            bsize = bsize;
            namelen = 255;
            frsize = bsize;
          })
        (volume_usage E pages s.tables))
      s

unfoldable pub handle_statfs : Engine → Pages → Fs → Reply × Fs
handle_statfs E pages s = answer (λ s' stat. reply_statfs stat) (statfs E pages s)

unfoldable pub handle_getattr : Engine → ℕ → Fs → Reply × Fs
handle_getattr E ino s = with_attr (Ops.getattr E ino s)

-- fuser's `TimeOrNow`.
pub data TimeOrNow : Type 0 where
  specific_time : SystemTime → TimeOrNow
  now_time : TimeOrNow

unfoldable pub time_or_now : SystemTime → Option TimeOrNow → Option SystemTime
time_or_now clock none = none
time_or_now clock (some (specific_time t)) = some t
time_or_now clock (some now_time) = some clock

unfoldable pub handle_setattr :
    Engine
    → Timestamp
    → SystemTime
    → ℕ
    → Option ℕ
    → Option ℕ
    → Option ℕ
    → Option ℕ
    → Option TimeOrNow
    → Option TimeOrNow
    → Fs
    → Reply × Fs
handle_setattr E now clock ino mode uid gid size atime mtime s = with_attr (
    Ops.setattr E now ino
      (record {
        mode = mode;
        uid = uid;
        gid = gid;
        atime = time_or_now clock atime;
        mtime = time_or_now clock mtime;
      })
      size s)

-- `reply_xattr`: a size of 0 asks for the length.
unfoldable pub reply_xattr : List ℕ → ℕ → Reply
reply_xattr value size =
    if size == 0
    then reply_xattr_size (length value % 2 ^ 32)
    else (if ltb size (length value) then reply_error erange else reply_xattr_data value)

unfoldable pub handle_getxattr : Engine → ℕ → List ℕ → ℕ → Fs → Reply × Fs
handle_getxattr E ino name size s =
    answer (λ s' value. reply_xattr value size) (Ops.getxattr E ino name s)

unfoldable pub handle_listxattr : Engine → ℕ → ℕ → Fs → Reply × Fs
handle_listxattr E ino size s = answer (λ s' names. reply_xattr names size) (Ops.listxattr E ino s)

unfoldable pub handle_setxattr : Engine → ℕ → List ℕ → Fs → Reply × Fs
handle_setxattr E ino name s = with_nothing (Ops.setxattr E ino name s)

unfoldable pub handle_removexattr : Engine → ℕ → List ℕ → Fs → Reply × Fs
handle_removexattr E ino name s = with_nothing (Ops.removexattr E ino name s)

unfoldable pub handle_open : Engine → ℕ → Fs → Reply × Fs
handle_open E ino s = answer (λ s' fh. reply_opened fh (open_flags s')) (Ops.open_file E ino s)

-- `release_fh` is called directly.
unfoldable pub handle_release : Engine → ℕ → Fs → Reply × Fs
handle_release E fh s = with_nothing (Ops.release_file E fh s)

unfoldable pub handle_flush : Engine → ℕ → Fs → Reply × Fs
handle_flush E fh s = with_nothing (Ops.flush_fh E fh s)

unfoldable pub handle_fsync : Engine → ℕ → Fs → Reply × Fs
handle_fsync E fh s = with_nothing (Ops.sync_fh E fh s)

unfoldable pub handle_read : Engine → ℕ → ℤ → ℕ → Fs → Reply × Fs
handle_read E fh offset size s =
    if ltb_ℤ offset (pos 0)
    then (reply_error einval, s)
    else answer (λ s' data_read. reply_data data_read) (Ops.read_fh E fh (pos_part offset) size s)

unfoldable pub handle_write : Engine → Timestamp → ℕ → ℤ → Bytes → Fs → Reply × Fs
handle_write E now fh offset input s =
    if ltb_ℤ offset (pos 0)
    then (reply_error einval, s)
    else answer (λ s' written. reply_written written)
        (Ops.write_fh E now fh (pos_part offset) input s)

unfoldable pub handle_fallocate : Engine → Timestamp → ℕ → ℤ → ℤ → ℕ → Fs → Reply × Fs
handle_fallocate E now ino offset length mode s =
    with_nothing (Ops.fallocate E now ino offset length mode s)

-- The calls on `KernelConfig` in `init`, whose results are ignored.
pub data ConfigCall : Type 0 where
  set_max_write set_max_readahead set_max_background set_congestion_threshold : ℕ → ConfigCall
  add_writeback_cache add_parallel_dirops add_cache_symlinks add_async_dio : ConfigCall

abbrev pub default_max_request : ℕ
default_max_request = 128 * 1024

abbrev pub kernel_cache_max_request : ℕ
kernel_cache_max_request = 1024 * 1024

unfoldable pub handle_init : Fs → List ConfigCall
handle_init s =
    if s.kernel_cache
    then add_writeback_cache
      ∷ add_parallel_dirops
      ∷ add_cache_symlinks
      ∷ add_async_dio
      ∷ set_max_write kernel_cache_max_request
      ∷ set_max_readahead kernel_cache_max_request
      ∷ set_max_background 64
      ∷ set_congestion_threshold 48
      ∷ []
    else set_max_write default_max_request ∷ []
