-- ===== src/Fs/Ops/Names.antt =====
-- fuse.rs, `Dbfs`: the operations on names, directory streams, volume figures and shutdown.
use Prim.Native.Nat.{bit_and}
use vibedbfs.Prelude.{
  ℕ, ◌+◌, ◌-◌, ◌^◌, List, [], ◌∷◌, ◌++◌, Option, none, some, Bool, true, false, not, ltb, ◌==◌,
  if◌then◌else◌, Result, ok, err, map_err,
}
use vibedbfs.Model.{FileKind, regular_file, Inode, Timestamp, DbError, not_found}
use vibedbfs.OpenTable.Inodes.{insert}
use vibedbfs.Db.{Tables, Engine}
use vibedbfs.Db.Nodes
use vibedbfs.Db.Nodes.{read_symlink}
use vibedbfs.Db.Dirs.{parent_of_dir, read_dir_after}
use vibedbfs.Db.Create
use vibedbfs.Db.Create.{create_dir, create_file, create_symlink}
use vibedbfs.Db.Remove.{unlink_entry, remove_dir, rename_entry}
use vibedbfs.Fs.{Fs, M, Errno, einval, errno_from_db_error, and_then, pure, from_db, store}
use vibedbfs.Fs.Flush.{with_inodes, flush_all, refuse_writes, record_flush}
use vibedbfs.Fs.Buffer.{open_slot}
use vibedbfs.Fs.Close.{entry_removed, is_open_ino}
use vibedbfs.Fs.Attr.{FileAttr, FileType, directory_type, file_type, file_attr_from_inode}

-- `mode & !umask` of u32 values.
abbrev pub masked : ℕ → ℕ → ℕ
masked mode umask = bit_and mode (2 ^ 32 - 1 - umask)

abbrev pub as_attr : Result DbError (Inode × Tables) → M FileAttr
as_attr r s = and_then (store r s) (λ inode. pure (file_attr_from_inode inode))

unfoldable pub mkdir : Engine → Timestamp → ℕ → List ℕ → ℕ → ℕ → ℕ → ℕ → M FileAttr
mkdir E now parent name mode umask uid gid s =
    as_attr (create_dir E s.tables now parent name (masked mode umask) uid gid) s

unfoldable pub create : Engine → Timestamp → ℕ → List ℕ → ℕ → ℕ → ℕ → ℕ → M FileAttr
create E now parent name mode umask uid gid s =
    as_attr (create_file E s.tables now parent name (masked mode umask) uid gid) s

unfoldable pub symlink : Engine → Timestamp → ℕ → List ℕ → List ℕ → ℕ → ℕ → M FileAttr
symlink E now parent name target uid gid s =
    as_attr (create_symlink E s.tables now parent name target uid gid) s

unfoldable pub readlink : Engine → ℕ → M (List ℕ)
readlink E ino s = from_db (read_symlink E s.tables ino) s

unfoldable pub link : Engine → Timestamp → ℕ → ℕ → List ℕ → M FileAttr
link E now ino new_parent new_name s =
    as_attr (Create.link E s.tables now ino new_parent new_name) s

unfoldable pub unlink : Engine → Timestamp → ℕ → List ℕ → M (Unit {0})
unlink E now parent name s = and_then (from_db (Nodes.lookup E s.tables parent name) s) (λ inode s1.
    and_then
      (store
        (unlink_entry E s1.tables now parent name inode (is_open_ino s1.table.inodes inode.ino)) s1)
      (λ u s2. (ok tt, entry_removed inode s2)))

unfoldable pub rmdir : Engine → Timestamp → ℕ → List ℕ → M (Unit {0})
rmdir E now parent name s = store (remove_dir E s.tables now parent name) s

-- RENAME_NOREPLACE of Linux.
abbrev pub rename_noreplace : ℕ
rename_noreplace = 1

abbrev pub replaced : Option Inode → Fs → Fs
replaced none s = s
replaced (some target) s = entry_removed target s

-- `none` where the parent walk of `rename_entry` does not end.
abbrev pub renamed :
    Result DbError (Option (Option Inode × Tables)) → Fs → Option (Result Errno (Unit {0}) × Fs)
renamed (err e) s = some (err (errno_from_db_error e), s)
renamed (ok none) s = none
renamed (ok (some (target, t))) s = some (ok tt, replaced target (record s { tables = t }))

unfoldable pub rename :
    Engine → Timestamp → ℕ → List ℕ → ℕ → List ℕ → ℕ → Fs → Option (Result Errno (Unit {0}) × Fs)
rename E now parent name new_parent new_name flags s =
    if not (bit_and flags (2 ^ 32 - 1 - rename_noreplace) == 0)
    then some (err einval, s)
    else renamed
        (rename_entry E s.tables now parent name new_parent new_name
          (not (bit_and flags rename_noreplace == 0)) (is_open_ino s.table.inodes))
        s

unfoldable pub create_open : Engine → Timestamp → ℕ → List ℕ → ℕ → ℕ → ℕ → ℕ → M (FileAttr × ℕ)
create_open E now parent name mode umask uid gid s =
    and_then (create E now parent name mode umask uid gid s) (λ attr s1.
      let (i, inodes) = insert s1.table.inodes attr.ino regular_file 0 in
      let (fh, s2) = open_slot i (with_inodes s1 inodes) in (ok (attr, fh), s2))

-- Directory streams. The cookie of `.` is 1, of `..` 2, and of the entry with id `n` it is `n + 2`.
pub record DbfsDirEntry : Type 0 where
  pub name : List ℕ
  pub ino : ℕ
  pub kind : FileType
  pub offset : ℕ

abbrev pub dot : ℕ
dot = 1

abbrev pub dotdot : ℕ
dotdot = 2

-- `parent_of_dir`, where an inode with no entry is its own parent.
abbrev pub parent_or_self : Result DbError ℕ → ℕ → Result DbError ℕ
parent_or_self (ok parent) ino = ok parent
parent_or_self (err not_found) ino = ok ino
parent_or_self (err e) ino = err e

module _ {S : Type 0} (emit : S → ℕ → ℕ → FileType → List ℕ → S × Bool) where
  -- `if offset < cookie && emit(…) { return Ok(()) }`: the new state, and whether to return.
  abbrev pub emit_if : Bool → S → ℕ → ℕ → FileType → List ℕ → S × Bool
  emit_if false s ino cookie kind name = (s, false)
  emit_if true s ino cookie kind name = emit s ino cookie kind name

  -- The closure that `readdir_stream` hands to `read_dir_after`.
  abbrev pub emit_entry : S → ℕ → List ℕ → ℕ → FileKind → S × Bool
  emit_entry s id name child kind = emit s child (id + dotdot) (file_type kind) name

  -- `offset` is the cookie to resume after; a negative one is as 0.
  unfoldable pub readdir_stream : Engine → Tables → ℕ → ℕ → S → Result Errno S
  readdir_stream E t ino offset s = elim (parent_or_self (parent_of_dir E t ino) ino) [
    | err e ↦ err (errno_from_db_error e)
    | ok parent ↦
        let (s1, stop1) = emit_if (ltb offset dot) s ino dot directory_type (46 ∷ []) in
        let (s2, stop2) =
          emit_if (ltb offset dotdot) s1 parent dotdot directory_type (46 ∷ 46 ∷ []) in
        if stop1
        then ok s1
        else (if stop2
            then ok s2
            else map_err errno_from_db_error
                (read_dir_after E t ino (offset - dotdot) emit_entry s2))
  ]

-- `readdir` collects every entry.
abbrev pub collect : List DbfsDirEntry → ℕ → ℕ → FileType → List ℕ → List DbfsDirEntry × Bool
collect entries ino cookie kind name =
    (entries ++ record { name = name; ino = ino; kind = kind; offset = cookie } ∷ [], false)

unfoldable pub readdir : Engine → Tables → ℕ → ℕ → Result Errno (List DbfsDirEntry)
readdir E t ino offset = readdir_stream collect E t ino offset []

-- `ShutdownHandle::flush_for_shutdown`.
unfoldable pub flush_for_shutdown : Engine → M (Unit {0})
flush_for_shutdown E s =
    let (result, s') = flush_all E (refuse_writes s) in (result, record_flush result s')

unfoldable pub flush_failure : Fs → Option Errno
flush_failure s = elim s.last_flush [ ok _ ↦ none | err e ↦ some e ]

-- `Filesystem::destroy`.
unfoldable pub destroy : Engine → Fs → Fs
destroy E s = let (result, s') = flush_all E s in record_flush result s'
