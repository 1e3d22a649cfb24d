-- ===== src/Fs/Ops.antt =====
-- fuse.rs, `Dbfs`: the operations that the FUSE handlers call, on files and attributes.
use Prim.Native.Nat.{bit_and}
use vibedbfs.Prelude.{
  ℕ, ◌+◌, ◌-◌, ◌^◌, ◌%◌, ℤ, pos, negsuc, ltb_ℤ, ◌+ℤ◌, pos_part, List, [], Option, none, some, Bool,
  true, false, not, ltb, leb, ◌==◌, ◌||◌, if◌then◌else◌, Bytes, empty_vec, set_at, Result, ok, err,
  map_ok,
}
use mathlib.Core.Option
use vibedbfs.Model.{
  FileKind, regular_file, Inode, Timestamp, SystemTime, from_system_time, MetadataUpdate,
}
use vibedbfs.OpenTable.{OpenTable}
use vibedbfs.OpenTable.Inodes.{OpenInodes, find}
use vibedbfs.OpenTable.Handles
use vibedbfs.Db.{Tables, Engine, sync_durable}
use vibedbfs.Db.Keys.{max_file_size}
use vibedbfs.Db.Nodes
use vibedbfs.Db.Nodes.{get_inode, inode_head, inode_kind_of, update_metadata}
use vibedbfs.Db.Files.{read_file, truncate_file}
use vibedbfs.Fs.{
  Fs, M, Errno, einval, eopnotsupp, enodev, efbig, ebadf, enodata, errno_from_db_error, and_then,
  ◌>>=◌, ◌>>◌, pure, fail, from_db, store, or_errno,
}
use vibedbfs.Fs.Flush.{persist, skip, with_inodes, flush_slot, free_if_idle}
use vibedbfs.Fs.Buffer.{slot_for, open_slot, read_slot, write_slot}
use vibedbfs.Fs.Close.{release_fh}
use vibedbfs.Fs.Attr.{FileAttr, file_attr_from_inode, overlay_attr}
pub mod Names

unfoldable pub getattr : Engine → ℕ → M FileAttr
getattr E ino s =
    from_db (map_ok (λ i. overlay_attr s (file_attr_from_inode i)) (get_inode E s.tables ino)) s

unfoldable pub lookup : Engine → ℕ → List ℕ → M FileAttr
lookup E parent name s =
    from_db
      (map_ok (λ i. overlay_attr s (file_attr_from_inode i)) (Nodes.lookup E s.tables parent name))
      s

-- What `truncate_locked` does with the slot after the database has cut the file.
abbrev pub resized : Option ℕ → ℕ → Fs → Fs
resized none size s = s
resized (some i) size s =
    let inodes = s.table.inodes in
    free_if_idle i (with_inodes s (record inodes { size = set_at inodes.size i size }))

abbrev pub flush_found : Engine → Option ℕ → M (Unit {0})
flush_found E none = pure tt
flush_found E (some i) = flush_slot E i persist

unfoldable pub truncate_locked : Engine → Timestamp → ℕ → ℕ → M (Unit {0})
truncate_locked E now ino size s =
    let slot = find s.table.inodes ino in
    and_then (flush_found E slot s) (λ u s1.
      and_then (store (truncate_file E s1.tables now ino size) s1)
        (λ v s2. (ok tt, resized slot size s2)))

-- The flush at the start of `setattr` and in `flush_file`.
abbrev pub freed : Option ℕ → Fs → Fs
freed none s = s
freed (some i) s = free_if_idle i s

abbrev pub truncate_to : Engine → Timestamp → ℕ → Option ℕ → M (Unit {0})
truncate_to E now ino none = pure tt
truncate_to E now ino (some size) = truncate_locked E now ino size

-- The new mode, owner and times; the size is separate.
pub record AttrUpdate : Type 0 where
  pub mode : Option ℕ
  pub uid : Option ℕ
  pub gid : Option ℕ
  pub atime : Option SystemTime
  pub mtime : Option SystemTime

abbrev pub to_timestamp : Option SystemTime → Option Timestamp
to_timestamp none = none
to_timestamp (some t) = some (from_system_time t)

unfoldable pub setattr : Engine → Timestamp → ℕ → AttrUpdate → Option ℕ → M FileAttr
setattr E now ino u size s =
    let slot = find s.table.inodes ino in
    and_then (flush_found E slot s) (λ a s1.
      and_then (truncate_to E now ino size (freed slot s1)) (λ b s2.
        and_then
          (store
            (update_metadata E s2.tables now ino (record {
              mode = u.mode;
              uid = u.uid;
              gid = u.gid;
              atime = to_timestamp u.atime;
              mtime = to_timestamp u.mtime;
            }))
            s2)
          (λ inode. pure (file_attr_from_inode inode))))

-- The four methods on extended attributes, of which none is ever stored.
unfoldable pub getxattr : Engine → ℕ → List ℕ → M (List ℕ)
getxattr E ino name = getattr E ino >> fail enodata

unfoldable pub listxattr : Engine → ℕ → M (List ℕ)
listxattr E ino = getattr E ino >> pure []

unfoldable pub setxattr : Engine → ℕ → List ℕ → M (Unit {0})
setxattr E ino name = getattr E ino >> fail eopnotsupp

unfoldable pub removexattr : Engine → ℕ → List ℕ → M (Unit {0})
removexattr E ino name = getattr E ino >> fail enodata

unfoldable pub open_file : Engine → ℕ → M ℕ
open_file E ino s =
    and_then (slot_for E ino s) (λ i s'. let (fh, opened) = open_slot i s' in (ok fh, opened))

unfoldable pub read : Engine → ℕ → ℕ → ℕ → M Bytes
read E ino offset size s = elim (find s.table.inodes ino) [
  | some i ↦ (read_slot E s i offset size, s)
  | none ↦ from_db (read_file E s.tables ino offset size) s
]

unfoldable pub read_fh : Engine → ℕ → ℕ → ℕ → M Bytes
read_fh E fh offset size s = elim (Handles.get s.table.handles fh) [
  | none ↦ (err ebadf, s)
  | some i ↦ (read_slot E s i offset size, s)
]

-- The slot is freed again if the write left nothing in it.
abbrev pub then_free : ℕ → Result Errno ℕ × Fs → Result Errno ℕ × Fs
then_free i (r, s) = (r, free_if_idle i s)

unfoldable pub write : Engine → Timestamp → ℕ → ℕ → Bytes → M ℕ
write E now ino offset input s =
    if input.len == 0
    then (ok 0, s)
    else and_then (slot_for E ino s) (λ i s'. then_free i (write_slot E now i offset input s'))

unfoldable pub write_fh : Engine → Timestamp → ℕ → ℕ → Bytes → M ℕ
write_fh E now fh offset input s = elim (Handles.get s.table.handles fh) [
  | none ↦ (err ebadf, s)
  | some i ↦ write_slot E now i offset input s
]

-- FALLOC_FL_KEEP_SIZE of Linux.
abbrev pub keep_size : ℕ
keep_size = 1

abbrev pub is_regular : FileKind → Bool
is_regular regular_file = true
is_regular _ = false

-- The size in the table, or else in the database.
abbrev pub current_size : Engine → Option ℕ → ℕ → M ℕ
current_size E none ino s = from_db (map_ok (λ h. h.1) (inode_head E s.tables ino)) s
current_size E (some i) ino s = (ok (s.table.inodes.size.at i), s)

-- The checks before the table is locked, with the end of the range. `mode` is an i32 as its bits.
unfoldable pub fallocate_end : Engine → Tables → ℕ → ℤ → ℤ → ℕ → Result Errno ℕ
fallocate_end E t ino offset length mode =
    if ltb_ℤ offset (pos 0) || not (ltb_ℤ (pos 0) length)
    then err einval
    else (if not (bit_and mode (2 ^ 32 - 1 - keep_size) == 0)
        then err eopnotsupp
        else elim (inode_kind_of E t ino) [
          | err e ↦ err (errno_from_db_error e)
          | ok kind ↦
              let end = pos_part offset + pos_part length in
              if not (is_regular kind)
              then err enodev
              else (if leb (2 ^ 63) end || ltb max_file_size end then err efbig else ok end)
        ])

unfoldable pub fallocate : Engine → Timestamp → ℕ → ℤ → ℤ → ℕ → M (Unit {0})
fallocate E now ino offset length mode s = elim (fallocate_end E s.tables ino offset length mode) [
  | err e ↦ (err e, s)
  | ok end ↦
      if not (bit_and mode keep_size == 0)
      then (ok tt, s)
      else and_then (current_size E (find s.table.inodes ino) ino s)
          (λ size s'. if leb end size then (ok tt, s') else truncate_locked E now ino end s')
]

unfoldable pub flush_file : Engine → ℕ → M (Unit {0})
flush_file E ino s = elim (find s.table.inodes ino) [
  | none ↦ (ok tt, s)
  | some i ↦ and_then (flush_slot E i skip s) (λ u s'. (ok tt, free_if_idle i s'))
]

unfoldable pub flush_fh : Engine → ℕ → M (Unit {0})
flush_fh E fh s = elim (Handles.get s.table.handles fh) [
  | none ↦ (err ebadf, s)
  | some i ↦ flush_slot E i skip s
]

unfoldable pub sync_fh : Engine → ℕ → M (Unit {0})
sync_fh E fh = flush_fh E fh >> (λ s. from_db (sync_durable E s.tables) s)

unfoldable pub release_file : Engine → ℕ → M (Unit {0})
release_file E fh = release_fh E fh
