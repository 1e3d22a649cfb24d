-- ===== src/Fuse/Serve.antt =====
-- fuse.rs, `impl Filesystem for Dbfs`: every request, and a session that serves one after another.
use vibedbfs.Prelude.{ℕ, ℤ, List, Option, some, Bytes}
use vibedbfs.Model.{Timestamp, SystemTime}
use vibedbfs.Db.{Engine}
use vibedbfs.Db.Volume.{Pages}
use vibedbfs.Fs.{Fs}
use vibedbfs.Fuse.{
  Reply, TimeOrNow, handle_statfs, handle_getattr, handle_setattr, handle_getxattr,
  handle_listxattr, handle_setxattr, handle_removexattr, handle_open, handle_release, handle_flush,
  handle_fsync, handle_read, handle_write, handle_fallocate,
}
use vibedbfs.Fuse.Names.{
  Room, handle_lookup, handle_readdir, handle_mkdir, handle_create, handle_symlink, handle_readlink,
  handle_link, handle_unlink, handle_rmdir, handle_mknod, handle_rename,
}

-- A request with the arguments that its handler reads; ids are those of the caller.
pub data Request : Type 0 where
  lookup_request : ℕ → List ℕ → Request
  getattr_request : ℕ → Request
  readdir_request : Room → ℕ → ℤ → Request
  statfs_request : Pages → Request
  mkdir_request : ℕ → List ℕ → ℕ → ℕ → ℕ → ℕ → Request
  create_request : ℕ → List ℕ → ℕ → ℕ → ℕ → ℕ → Request
  symlink_request : ℕ → List ℕ → List ℕ → ℕ → ℕ → Request
  readlink_request : ℕ → Request
  link_request : ℕ → ℕ → List ℕ → Request
  setattr_request :
      ℕ → Option ℕ → Option ℕ → Option ℕ → Option ℕ → Option TimeOrNow → Option TimeOrNow → Request
  getxattr_request : ℕ → List ℕ → ℕ → Request
  listxattr_request : ℕ → ℕ → Request
  setxattr_request removexattr_request : ℕ → List ℕ → Request
  open_request : ℕ → Request
  release_request flush_request fsync_request : ℕ → Request
  read_request : ℕ → ℤ → ℕ → Request
  write_request : ℕ → ℤ → Bytes → Request
  fallocate_request : ℕ → ℤ → ℤ → ℕ → Request
  unlink_request rmdir_request : ℕ → List ℕ → Request
  mknod_request : ℕ → List ℕ → ℕ → ℕ → ℕ → ℕ → Request
  rename_request : ℕ → List ℕ → ℕ → List ℕ → ℕ → Request

-- A request with the times that the clock shows while it is served.
pub record Arrival : Type 0 where
  pub now : Timestamp
  pub clock : SystemTime
  pub request : Request

-- `none` where a rename does not end.
unfoldable pub handle : Engine → Timestamp → SystemTime → Request → Fs → Option (Reply × Fs)
handle E now clock (lookup_request parent name) s = some (handle_lookup E parent name s)
handle E now clock (getattr_request ino) s = some (handle_getattr E ino s)
handle E now clock (readdir_request full ino offset) s = some (handle_readdir E full ino offset s)
handle E now clock (statfs_request pages) s = some (handle_statfs E pages s)
handle E now clock (mkdir_request parent name mode umask uid gid) s =
    some (handle_mkdir E now parent name mode umask uid gid s)
handle E now clock (create_request parent name mode umask uid gid) s =
    some (handle_create E now parent name mode umask uid gid s)
handle E now clock (symlink_request parent name target uid gid) s =
    some (handle_symlink E now parent name target uid gid s)
handle E now clock (readlink_request ino) s = some (handle_readlink E ino s)
handle E now clock (link_request ino parent name) s = some (handle_link E now ino parent name s)
handle E now clock (setattr_request ino mode uid gid size atime mtime) s =
    some (handle_setattr E now clock ino mode uid gid size atime mtime s)
handle E now clock (getxattr_request ino name size) s = some (handle_getxattr E ino name size s)
handle E now clock (listxattr_request ino size) s = some (handle_listxattr E ino size s)
handle E now clock (setxattr_request ino name) s = some (handle_setxattr E ino name s)
handle E now clock (removexattr_request ino name) s = some (handle_removexattr E ino name s)
handle E now clock (open_request ino) s = some (handle_open E ino s)
handle E now clock (release_request fh) s = some (handle_release E fh s)
handle E now clock (flush_request fh) s = some (handle_flush E fh s)
handle E now clock (fsync_request fh) s = some (handle_fsync E fh s)
handle E now clock (read_request fh offset size) s = some (handle_read E fh offset size s)
handle E now clock (write_request fh offset input) s = some (handle_write E now fh offset input s)
handle E now clock (fallocate_request ino offset length mode) s =
    some (handle_fallocate E now ino offset length mode s)
handle E now clock (unlink_request parent name) s = some (handle_unlink E now parent name s)
handle E now clock (rmdir_request parent name) s = some (handle_rmdir E now parent name s)
handle E now clock (mknod_request parent name mode umask uid gid) s =
    some (handle_mknod E now parent name mode umask uid gid s)
handle E now clock (rename_request parent name new_parent new_name flags) s =
    handle_rename E now parent name new_parent new_name flags s
