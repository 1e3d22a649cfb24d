-- ===== src/Db/Remove.antt =====
-- db.rs: `unlink`, `rmdir` and `rename`.
use vibedbfs.Prelude.{
  ℕ, ◌-◌, pos, negsuc, List, map, Option, none, some, Bool, true, false, ◌&&◌, ◌||◌, not, ltb, ◌==◌,
  if◌then◌else◌, Result, ok, err, ◌>>=◌, ◌>>◌, map_ok, length, is_empty, list_eq, retain,
}
use vibedbfs.Model.{
  Timestamp, Inode, FileKind, DbError, already_exists, not_found, directory_not_empty,
  invalid_input, is_directory, not_directory,
}
use vibedbfs.Db.{Tables, Engine, query, commit}
use vibedbfs.Db.Rows.{
  check_name, touch_dir, add_directory_nlink, set_nlink, is_entry, delete_entry, delete_inode_rows,
}
use vibedbfs.Db.Nodes.{lookup, inode_kind_of}
use vibedbfs.Db.Dirs.{require_directory, is_directory_kind, list_dir, is_descendant}

-- `drop_unlinked_inode`.
unfoldable pub drop_unlinked_inode : Inode → Timestamp → Bool → Tables → Tables
drop_unlinked_inode target now is_open t =
    if is_directory_kind target.kind
    then delete_inode_rows target.ino t
    else (if ltb 1 target.nlink || is_open
        then set_nlink target.ino (target.nlink - 1) now t
        else delete_inode_rows target.ino t)

unfoldable pub unlink_entry :
    Engine → Tables → Timestamp → ℕ → List ℕ → Inode → Bool → Result DbError ((Unit {0}) × Tables)
unlink_entry E t now parent name target is_open =
    if is_directory_kind target.kind
    then err is_directory
    else commit E
        (touch_dir parent now (drop_unlinked_inode target now is_open (delete_entry parent name t)))
        tt

unfoldable pub unlink_file :
    Engine → Tables → Timestamp → ℕ → List ℕ → Result DbError ((Unit {0}) × Tables)
unlink_file E t now parent name = do
  target ← lookup E t parent name
  unlink_entry E t now parent name target false

unfoldable pub remove_dir :
    Engine → Tables → Timestamp → ℕ → List ℕ → Result DbError ((Unit {0}) × Tables)
remove_dir E t now parent name = do
  target ← lookup E t parent name
  require_directory target.kind
  child_count ← query E t (length (retain (λ d. d.parent == target.ino) t.dirents))
  if child_count == 0 then ok tt else err directory_not_empty
  commit E
      (add_directory_nlink parent (negsuc 0)
        (touch_dir parent now (delete_inode_rows target.ino (delete_entry parent name t))))
      tt

-- `UPDATE dirents SET parent_ino = …, name = … WHERE parent_ino = … AND name = …`.
unfoldable pub move_entry : ℕ → List ℕ → ℕ → List ℕ → Tables → Tables
move_entry parent name new_parent new_name t = record t {
  dirents =
      map
        (λ d.
          if is_entry parent name d then record d { parent = new_parent; name = new_name } else d)
        t.dirents;
}

-- Whether the kinds of source and target allow the replacement.
unfoldable pub check_replace : Engine → Tables → FileKind → Inode → Result DbError (Unit {0})
check_replace E t source target = elim (is_directory_kind source) [
  | false ↦ if is_directory_kind target.kind then err is_directory else ok tt
  | true ↦ elim (is_directory_kind target.kind) [
    | false ↦ err not_directory
    | true ↦ do
      entries ← list_dir E t target.ino
      if is_empty entries then ok tt else err directory_not_empty
  ]
]

-- `match self.lookup(…)`: `NotFound` means that there is no target.
abbrev pub optional : Result DbError Inode → Result DbError (Option Inode)
optional (ok inode) = ok (some inode)
optional (err not_found) = ok none
optional (err e) = err e

abbrev pub check_target :
    Engine → Tables → FileKind → Option Inode → Bool → Result DbError (Unit {0})
check_target E t source none noreplace = ok tt
check_target E t source (some target) noreplace =
    if noreplace then err already_exists else check_replace E t source target

-- The replaced entry and its inode go first.
unfoldable pub drop_target : ℕ → List ℕ → Option Inode → Timestamp → (ℕ → Bool) → Tables → Tables
drop_target new_parent new_name none now is_open t = t
drop_target new_parent new_name (some target) now is_open t =
    drop_unlinked_inode target now (is_open target.ino) (delete_entry new_parent new_name t)

abbrev pub replaces_directory : Option Inode → Bool
replaces_directory none = false
replaces_directory (some target) = is_directory_kind target.kind

-- The statements of the transaction.
unfoldable pub rename_tables :
    ℕ → List ℕ → ℕ → List ℕ → FileKind → Option Inode → Timestamp → (ℕ → Bool) → Tables → Tables
rename_tables parent name new_parent new_name source target now is_open t =
    let moved =
      move_entry parent name new_parent new_name
        (drop_target new_parent new_name target now is_open t) in
    let old_touched = touch_dir parent now moved in
    let touched =
      if new_parent == parent then old_touched else touch_dir new_parent now old_touched in
    let counted =
      if is_directory_kind source && not (parent == new_parent)
      then add_directory_nlink new_parent (pos 1) (add_directory_nlink parent (negsuc 0) touched)
      else touched in
    if replaces_directory target then add_directory_nlink new_parent (negsuc 0) counted else counted

-- After the guards on the source: the target, and the transaction.
unfoldable pub rename_checked :
    Engine
    → Tables
    → Timestamp
    → ℕ
    → List ℕ
    → ℕ
    → List ℕ
    → Bool
    → (ℕ → Bool)
    → Inode
    → Result DbError (Option Inode × Tables)
rename_checked E t now parent name new_parent new_name noreplace is_open source =
    if parent == new_parent && list_eq name new_name then ok (none, t) else (do
      target ← optional (lookup E t new_parent new_name)
      check_target E t source.kind target noreplace
      commit E (rename_tables parent name new_parent new_name source.kind target now is_open t)
          target)

-- A directory must not move below itself. `none` where the walk to the root does not end.
unfoldable pub rename_entry :
    Engine
    → Tables
    → Timestamp
    → ℕ
    → List ℕ
    → ℕ
    → List ℕ
    → Bool
    → (ℕ → Bool)
    → Result DbError (Option (Option Inode × Tables))
rename_entry E t now parent name new_parent new_name noreplace is_open = do
  check_name new_name
  source ← lookup E t parent name
  new_parent_kind ← inode_kind_of E t new_parent
  require_directory new_parent_kind
  below ←
      if is_directory_kind source.kind
      then is_descendant E t new_parent source.ino
      else ok (some false)
  elim below [
    | none ↦ ok none
    | some true ↦ err invalid_input
    | some false ↦
        map_ok some
          (rename_checked E t now parent name new_parent new_name noreplace is_open source)
  ]

unfoldable pub rename :
    Engine
    → Tables
    → Timestamp
    → ℕ
    → List ℕ
    → ℕ
    → List ℕ
    → Result DbError (Option (Option Inode × Tables))
rename E t now parent name new_parent new_name =
    rename_entry E t now parent name new_parent new_name false (λ ino. false)
