-- ===== src/Db/Links/Rename/Outcome.antt =====
-- The outcome of `rename_entry`.
use vibedbfs.Prelude.{
  ℕ, ◌≤◌, ◌≡◌, sym, List, Option, none, some, Bool, true, false, ◌&&◌, ◌==◌, ltb, if◌then◌else◌,
  length, list_eq, ok, arith, Bool-cases, inl, inr,
}
use vibedbfs.Model.{Timestamp, Inode, directory}
use vibedbfs.Db.{Tables, Engine, Dirent}
use vibedbfs.Db.Rows.{name_max, check_name}
use vibedbfs.Db.Nodes.{lookup, inode_kind_of}
use vibedbfs.Db.Dirs.{is_directory_kind, is_descendant}
use vibedbfs.Db.Remove.{
  drop_target, rename_tables, rename_checked, rename_entry, replaces_directory,
}
use vibedbfs.Db.Links.{IsLinked, Moves, FewEntries, entry, is_dir}
use vibedbfs.Db.Links.Lookup.{lookup-Found}
use vibedbfs.Db.Links.RowLaws.{inode_kind_of-is_dir}
use vibedbfs.Db.Links.Rename.{counted, moved_counted}
use vibedbfs.Db.Links.Rename.Target.{Replaceable, target_lookup, target_allowed, target_Cleared}

-- Renaming an entry that is there succeeds when the new name fits and differs from the old one,
-- leads nowhere or to an inode of the same sort in which no entry stands, its directory is not
-- below a directory that is moved, a replacement is allowed, there are fewer entries than a u32
-- counts, and the database answers and writes. Then the entry moved to the new name, all other
-- names lead where they led, and every inode that is no directory has as many links as names
-- again, also the replaced one.
pub rename_entry_lem :
    (E : Engine) (t : Tables) (now : Timestamp) (parent : ℕ) (name : List ℕ) (new_parent : ℕ)
    (new_name : List ℕ) (is_open : ℕ → Bool) (source : Inode) (target : Option Inode)
    → IsLinked t
    → FewEntries t
    → length new_name ≤ name_max
    → lookup E t parent name ≡ ok source
    → inode_kind_of E t new_parent ≡ ok directory
    → (is_directory_kind source.kind ≡ true
        → is_descendant E t new_parent source.ino ≡ ok (some false))
    → (parent == new_parent && list_eq name new_name) ≡ false
    → Replaceable E t new_parent new_name source.kind target
    → ((u : Tables) → E.query_failure u ≡ none)
    → ((u : Tables) → E.commit_failure u ≡ none)
    → (d : Dirent) × (u : Tables) × (rename_entry E t now parent name new_parent new_name false
          is_open
        ≡ ok (some (target, u)))
      × (entry t parent name ≡ some d)
      × IsLinked u
      × Moves parent name new_parent new_name d t u
unfolding rename_entry rename_checked rename_tables counted check_name
rename_entry_lem E t now parent name new_parent new_name is_open source target v few fits e kind
      outside apart allowed answers works =
    let found = lookup-Found E t parent name source v e in
    let d = found.dirent in
    let b = drop_target new_parent new_name target now is_open t in
    let new_dir : is_dir t new_parent ≡ true =
      sym (inode_kind_of-is_dir E t new_parent directory kind) in
    let cleared =
      target_Cleared E t parent name d new_parent new_name source.kind target now is_open v few
        found.named new_dir allowed in
    let u = rename_tables parent name new_parent new_name source.kind target now is_open t in
    let short : ltb name_max (length new_name) ≡ false = ground arith in
    let below : (if is_directory_kind source.kind
          then is_descendant E t new_parent source.ino
          else ok (some false))
        ≡ ok (some false) =
      elim (Bool-cases (is_directory_kind source.kind)) [
        | inl dir ↦ rw dir (outside dir)
        | inr file ↦ rw file
      ] in
    let looked =
      target_lookup E t new_parent new_name source.kind target fits (answers t) allowed in
    let checked = target_allowed E t new_parent new_name source.kind target v (answers t) allowed in
    let done =
      moved_counted t b parent name new_parent new_name d (is_directory_kind source.kind)
        (replaces_directory target) now cleared apart found.named in
    (d, u, rw (short, e, kind, below, apart, looked, checked, works u), found.named, done.0, done.1)
