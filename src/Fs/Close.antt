-- ===== src/Fs/Close.antt =====
-- fuse.rs, `Shared`: the last handle of an inode, and inodes that lose a name.
use vibedbfs.Prelude.{
  ℕ, ◌-◌, none, some, Bool, true, false, ◌&&◌, ◌||◌, ltb, ◌==◌, if◌then◌else◌, set_at, ok, err,
}
use vibedbfs.Model.{Inode}
use vibedbfs.OpenTable.Inodes.{OpenInodes, find, is_open}
use vibedbfs.OpenTable.Handles
use vibedbfs.Db.{Engine}
use vibedbfs.Db.Nodes.{delete_inode}
use vibedbfs.Db.Dirs.{is_directory_kind}
use vibedbfs.Fs.{Fs, M, ebadf, and_then, store}
use vibedbfs.Fs.Flush.{discard_slot, flush_slot, free_if_idle, skip, with_inodes}

-- The last handle of an inode unlinked while open deletes the inode.
unfoldable pub drop_ref : Engine → ℕ → M (Unit {0})
drop_ref E i s =
    let inodes = s.table.inodes in
    let ino = inodes.ino.at i in
    let dropped =
      with_inodes s (record inodes { refs = set_at inodes.refs i (inodes.refs.at i - 1) }) in
    if inodes.refs.at i - 1 == 0 && inodes.unlinked.at i
    then store (delete_inode E s.tables ino) (discard_slot i dropped)
    else and_then (flush_slot E i skip dropped) (λ u s'. (ok tt, free_if_idle i s'))

unfoldable pub release_fh : Engine → ℕ → M (Unit {0})
release_fh E fh s = elim (Handles.release s.table.handles fh) [
  | none ↦ (err ebadf, s)
  | some (i, handles) ↦ drop_ref E i (record s { table = record (s.table) { handles = handles } })
]

unfoldable pub entry_removed : Inode → Fs → Fs
entry_removed target s =
    let inodes = s.table.inodes in
    if is_directory_kind target.kind || ltb 1 target.nlink
    then s
    else elim (find inodes target.ino) [
      | none ↦ s
      | some i ↦
          if is_open inodes i
          then with_inodes s (record inodes { unlinked = set_at inodes.unlinked i true })
          else discard_slot i s
    ]

unfoldable pub is_open_ino : OpenInodes → ℕ → Bool
is_open_ino inodes ino = elim (find inodes ino) [ none ↦ false | some i ↦ is_open inodes i ]
