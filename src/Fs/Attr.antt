-- ===== src/Fs/Attr.antt =====
-- fuse.rs: attributes, and what the buffered writes change in them.
use vibedbfs.Prelude.{ℕ, ◌+◌, ◌/◌, ◌%◌, ◌^◌, pos, none, some, is_empty, if◌then◌else◌}
use vibedbfs.Model.{FileKind, regular_file, directory, symlink, Inode, SystemTime, to_system_time}
use vibedbfs.OpenTable.Inodes.{find}
use vibedbfs.Fs.{Fs}

-- fuser's `FileType`, of which the program uses three.
pub data FileType : Type 0 where
  regular_file_type directory_type symlink_type : FileType

unfoldable pub file_type : FileKind → FileType
file_type regular_file = regular_file_type
file_type directory = directory_type
file_type symlink = symlink_type

-- fuser's `FileAttr`.
pub record FileAttr : Type 0 where
  pub ino : ℕ
  pub size : ℕ
  pub blocks : ℕ
  pub atime : SystemTime
  pub mtime : SystemTime
  pub ctime : SystemTime
  pub crtime : SystemTime
  pub kind : FileType
  pub perm : ℕ
  pub nlink : ℕ
  pub uid : ℕ
  pub gid : ℕ
  pub rdev : ℕ
  pub blksize : ℕ
  pub flags : ℕ

-- `size.div_ceil(512)`.
abbrev pub blocks_of : ℕ → ℕ
blocks_of size = (size + 511) / 512

unfoldable pub file_attr_from_inode : Inode → FileAttr
file_attr_from_inode inode = record {
  ino = inode.ino;
  size = inode.size;
  blocks = blocks_of inode.size;
  atime = to_system_time inode.atime;
  mtime = to_system_time inode.mtime;
  ctime = to_system_time inode.ctime;
  crtime = pos 0;
  kind = file_type inode.kind;
  perm = inode.mode % 2 ^ 16;
  nlink = inode.nlink;
  uid = inode.uid;
  gid = inode.gid;
  rdev = 0;
  blksize = 65536;
  flags = 0;
}

unfoldable pub overlay_attr : Fs → FileAttr → FileAttr
overlay_attr s attr =
    let inodes = s.table.inodes in
    elim (find inodes attr.ino) [
      | none ↦ attr
      | some i ↦
          let size = inodes.size.at i in
          let sized = record attr { size = size; blocks = blocks_of size } in
          let modified = to_system_time (inodes.mtime.at i) in
          if is_empty (inodes.dirty.at i)
          then sized
          else record sized { mtime = modified; ctime = modified }
    ]
