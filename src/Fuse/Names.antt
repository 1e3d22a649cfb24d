-- ===== src/Fuse/Names.antt =====
-- fuse.rs, `impl Filesystem for Dbfs`: the handlers of names and directories.
pub mod Rows
pub mod Stream
pub mod Listing
pub mod Resume
pub mod Paging
pub mod Agree
use Prim.Native.Nat.{bit_and}
use vibedbfs.Prelude.{
  ℕ, ◌-◌, ◌^◌, ℤ, pos_part, List, [], ◌∷◌, ◌++◌, Option, none, some, Bool, true, false, ◌||◌, ◌==◌,
  if◌then◌else◌, Result, ok, err,
}
use vibedbfs.Model.{Timestamp}
use vibedbfs.Db.{Engine}
use vibedbfs.Fs.{Fs, Errno, eperm}
use vibedbfs.Fs.Attr.{FileType}
use vibedbfs.Fs.Ops
use vibedbfs.Fs.Ops.Names
use vibedbfs.Fs.Ops.Names.{DbfsDirEntry, readdir_stream}
use vibedbfs.Fuse.{
  Reply, reply_error, reply_created, reply_target, reply_directory, answer, with_entry,
  with_nothing, ttl, open_flags,
}

unfoldable pub handle_lookup : Engine → ℕ → List ℕ → Fs → Reply × Fs
handle_lookup E parent name s = with_entry (Ops.lookup E parent name s)

-- `reply.add` of fuser: whether the buffer, which holds some entries, has no room for one more.
abbrev pub Room : Type 0
Room = List DbfsDirEntry → DbfsDirEntry → Bool

-- An entry that has no room is not added, and the stream stops.
abbrev pub add_entry :
    Room → List DbfsDirEntry → ℕ → ℕ → FileType → List ℕ → List DbfsDirEntry × Bool
add_entry full entries ino cookie kind name =
    let entry : DbfsDirEntry = record { name = name; ino = ino; kind = kind; offset = cookie } in
    if full entries entry then (entries, true) else (entries ++ entry ∷ [], false)

abbrev pub with_directory : Result Errno (List DbfsDirEntry) → Fs → Reply × Fs
with_directory (ok entries) s = (reply_directory entries, s)
with_directory (err e) s = (reply_error e, s)

unfoldable pub handle_readdir : Engine → Room → ℕ → ℤ → Fs → Reply × Fs
handle_readdir E full ino offset s =
    with_directory (readdir_stream (add_entry full) E s.tables ino (pos_part offset) []) s

unfoldable pub handle_mkdir : Engine → Timestamp → ℕ → List ℕ → ℕ → ℕ → ℕ → ℕ → Fs → Reply × Fs
handle_mkdir E now parent name mode umask uid gid s =
    with_entry (Names.mkdir E now parent name mode umask uid gid s)

unfoldable pub handle_create : Engine → Timestamp → ℕ → List ℕ → ℕ → ℕ → ℕ → ℕ → Fs → Reply × Fs
handle_create E now parent name mode umask uid gid s =
    answer (λ s' r. reply_created (ttl s') r.0 r.1 (open_flags s'))
      (Names.create_open E now parent name mode umask uid gid s)

unfoldable pub handle_symlink : Engine → Timestamp → ℕ → List ℕ → List ℕ → ℕ → ℕ → Fs → Reply × Fs
handle_symlink E now parent name target uid gid s =
    with_entry (Names.symlink E now parent name target uid gid s)

unfoldable pub handle_readlink : Engine → ℕ → Fs → Reply × Fs
handle_readlink E ino s = answer (λ s' target. reply_target target) (Names.readlink E ino s)

unfoldable pub handle_link : Engine → Timestamp → ℕ → ℕ → List ℕ → Fs → Reply × Fs
handle_link E now ino parent name s = with_entry (Names.link E now ino parent name s)

unfoldable pub handle_unlink : Engine → Timestamp → ℕ → List ℕ → Fs → Reply × Fs
handle_unlink E now parent name s = with_nothing (Names.unlink E now parent name s)

unfoldable pub handle_rmdir : Engine → Timestamp → ℕ → List ℕ → Fs → Reply × Fs
handle_rmdir E now parent name s = with_nothing (Names.rmdir E now parent name s)

-- S_IFMT and S_IFREG of Linux.
abbrev pub s_ifmt : ℕ
s_ifmt = 61440

abbrev pub s_ifreg : ℕ
s_ifreg = 32768

unfoldable pub handle_mknod : Engine → Timestamp → ℕ → List ℕ → ℕ → ℕ → ℕ → ℕ → Fs → Reply × Fs
handle_mknod E now parent name mode umask uid gid s =
    let kind_bits = bit_and mode s_ifmt in
    if (kind_bits == 0) || (kind_bits == s_ifreg)
    then with_entry
        (Names.create E now parent name (bit_and mode (2 ^ 32 - 1 - s_ifmt)) umask uid gid s)
    else (reply_error eperm, s)

abbrev pub with_rename : Option (Result Errno (Unit {0}) × Fs) → Option (Reply × Fs)
with_rename none = none
with_rename (some r) = some (with_nothing r)

unfoldable pub handle_rename :
    Engine → Timestamp → ℕ → List ℕ → ℕ → List ℕ → ℕ → Fs → Option (Reply × Fs)
handle_rename E now parent name new_parent new_name flags s =
    with_rename (Names.rename E now parent name new_parent new_name flags s)
