-- ===== src/Db/Links/Create.antt =====
-- `create_node` keeps names unique and links counted.
use vibedbfs.Prelude.{
  ℕ, ◌+◌, ◌≤◌, ◌≡◌, refl, ◌∙◌, sym, ap, pos, List, map, none, some, true, false, ◌==◌, ltb,
  if◌then◌else◌, ok, length, arith, Bool-cases, inl, inr, is_some,
}
use vibedbfs.Model.{Timestamp, Inode, directory}
use vibedbfs.Db.{Tables, Engine, InodeRow, Dirent}
use vibedbfs.Db.Keys.{max_ino}
use vibedbfs.Db.Rows.{
  lookup_row, insert_row, check_name, touch_dir, add_directory_nlink, is_entry, insert_by_id,
  name_max,
}
use vibedbfs.Db.Nodes.{inode_kind_of}
use vibedbfs.Db.Dirs.{is_directory_kind}
use vibedbfs.Db.Create.{
  NewNode, new_directory, new_file, new_symlink, node_kind, node_row, insert_target, insert_dirent,
  dirent_ids, node_inode, create_node,
}
use vibedbfs.Db.Links.{IsLinked, Adds, names, is_dir, is_two, entry}
use vibedbfs.Db.Links.Counts.{if_counts, find_none, find_none-any}
use vibedbfs.Db.Links.RowLaws.{inode_kind_of-is_dir}
use vibedbfs.Db.Links.Added.{added-IsLinked, added-entry}
use vibedbfs.Db.Links.Touched.{
  touch_dir-Touches, add_directory_nlink-Touches, Touches-trans, Touches-if, Touches-IsLinked,
}

target-inodes :
    (ino : ℕ) (node : NewNode) (t : Tables) → (insert_target ino node t).inodes ≡ t.inodes
target-inodes ino (new_directory m) t = refl
target-inodes ino (new_file m) t = refl
target-inodes ino (new_symlink target) t = refl

target-dirents :
    (ino : ℕ) (node : NewNode) (t : Tables) → (insert_target ino node t).dirents ≡ t.dirents
target-dirents ino (new_directory m) t = refl
target-dirents ino (new_file m) t = refl
target-dirents ino (new_symlink target) t = refl

new_links :
    (node : NewNode) (uid gid : ℕ) (now : Timestamp)
    → is_two (node_row node uid gid now).kind ≡ false
    → (node_row node uid gid now).nlink ≡ pos 1
new_links (new_directory m) uid gid now h = cc
new_links (new_file m) uid gid now h = refl
new_links (new_symlink target) uid gid now h = refl

pub is_dir-some : (t : Tables) (k : ℕ) → is_dir t k ≡ true → is_some (lookup_row k t.inodes) ≡ true
is_dir-some t k h = ground arith

-- The new row and its entry, without the times and links of the parent.
module _ (t u : Tables) (d : Dirent) (row : InodeRow) (v : IsLinked t)
    (inodes : u.inodes ≡ insert_row d.child row t.inodes)
    (dirents : u.dirents ≡ insert_by_id d t.dirents) (fresh : lookup_row d.child t.inodes ≡ none)
    (in_dir : is_dir t d.parent ≡ true) (new : entry t d.parent d.name ≡ none)
    (one : is_two row.kind ≡ false → row.nlink ≡ pos 1) where
  row_of :
      (k : ℕ) → lookup_row k u.inodes ≡ (if d.child == k then some row else lookup_row k t.inodes)
  row_of k = ap (lookup_row k) inodes

  pub stays_dir : (k : ℕ) → is_dir t k ≡ true → is_dir u k ≡ true
  stays_dir k h = ground (arith, row_of k, fresh)

  grown_links :
      (k : ℕ) (r : InodeRow)
      → lookup_row k u.inodes ≡ some r
      → is_two r.kind ≡ false
      → r.nlink ≡ pos (names t k + if_counts (d.child == k))
  grown_links k r e file = elim (Bool-cases (d.child == k)) [
    | inl same ↦
        let is_k : d.child ≡ k = ground arith in
        let row_r : row ≡ r = ground (arith, row_of k) in
        let unnamed = v.children k (sym (ap (λ c. lookup_row c t.inodes) is_k) ∙ fresh) in
        rw (same, unnamed, ← row_r) (one (ap (λ x. is_two x.kind) row_r ∙ file))
    | inr ne ↦
        let old : lookup_row k t.inodes ≡ some r = ground (arith, row_of k) in
        let counted = v.links k r old file in
        let n : names t k + 0 ≡ names t k = omega arith in rw (ne, n) counted
  ]

  once : (k : ℕ) → is_dir u k ≡ true → names t k + if_counts (d.child == k) ≤ 1
  once k h = elim (Bool-cases (d.child == k)) [
    | inl same ↦
        let is_k : d.child ≡ k = ground arith in
        let unnamed = v.children k (sym (ap (λ c. lookup_row c t.inodes) is_k) ∙ fresh) in
        rw (same, unnamed) (omega arith)
    | inr ne ↦
        let old : is_dir t k ≡ true = ground (arith, row_of k) in
        let before = v.single k old in rw ne (omega arith)
  ]

  pub inserted-IsLinked : IsLinked u
  inserted-IsLinked =
      added-IsLinked t u d v dirents (find_none (is_entry d.parent d.name) t.dirents new)
        (stays_dir d.parent in_dir) (ground (arith, row_of d.child))
        (λ k h. elim (Bool-cases (is_dir t k)) [
          | inl was_dir ↦ absurd (let also = stays_dir k was_dir in cc)
          | inr other ↦ other
        ])
        (λ k h. ground (arith, row_of k)) once grown_links

-- The entry that `insert_dirent` writes.
abbrev pub new_entry : Engine → Tables → ℕ → List ℕ → ℕ → Dirent
new_entry E t parent name child = record {
  id = E.next_rowid (dirent_ids t.dirents);
  parent = parent;
  name = name;
  child = child;
}

pub insert_dirent-ok :
    (E : Engine) (parent : ℕ) (name : List ℕ) (child : ℕ) (t : Tables)
    → entry t parent name ≡ none
    → is_some (lookup_row parent t.inodes) ≡ true
    → is_some (lookup_row child t.inodes) ≡ true
    → insert_dirent E parent name child t
      ≡ ok (record t { dirents = insert_by_id (new_entry E t parent name child) t.dirents })
unfolding insert_dirent
insert_dirent-ok E parent name child t new p c =
    let unused = find_none-any (is_entry parent name) t.dirents new in rw (unused, p, c)

-- Creating a node in a directory succeeds when the name fits and is not in use there, the row id
-- that SQLite picks is new and within the limit, and the transaction is written. Then every
-- inode that is no directory has as many links as names again, the new name leads to the inode
-- that is returned, which has the kind asked for, and all other names lead where they led.
pub create_node_lem :
    (E : Engine) (t : Tables) (now : Timestamp) (parent : ℕ) (name : List ℕ) (node : NewNode)
    (uid gid : ℕ)
    → IsLinked t
    → length name ≤ name_max
    → inode_kind_of E t parent ≡ ok directory
    → entry t parent name ≡ none
    → lookup_row (E.next_rowid (map (λ r. r.0) t.inodes)) t.inodes ≡ none
    → E.next_rowid (map (λ r. r.0) t.inodes) ≤ max_ino
    → ((u : Tables) → E.commit_failure u ≡ none)
    → (i : Inode) × (u : Tables) × (create_node E t now parent name node uid gid ≡ ok (i, u))
      × IsLinked u
      × (i.kind ≡ node_kind node)
      × Adds (new_entry E t parent name i.ino) t u
unfolding create_node check_name
create_node_lem E t now parent name node uid gid v fits kind new fresh within works =
    let ino = E.next_rowid (map (λ r. r.0) t.inodes) in
    let row = node_row node uid gid now in
    let inserted = record t { inodes = insert_row ino row t.inodes } in
    let d = new_entry E t parent name ino in
    let named = record inserted { dirents = insert_by_id d t.dirents } in
    let base = insert_target ino node named in
    let touched = touch_dir parent now base in
    let u =
      if is_directory_kind (node_kind node)
      then add_directory_nlink parent (pos 1) touched
      else touched in
    let dir : is_dir t parent ≡ true = sym (inode_kind_of-is_dir E t parent directory kind) in
    let short : ltb name_max (length name) ≡ false = ground arith in
    let low : ltb max_ino ino ≡ false = ground arith in
    let inodes = target-inodes ino node named in
    let dirents = target-dirents ino node named in
    let linked =
      inserted-IsLinked t base d row v inodes dirents fresh dir new (new_links node uid gid now) in
    let touch = Touches-trans parent base touched u (touch_dir-Touches parent now base) (
      Touches-if (is_directory_kind (node_kind node)) parent touched
        (add_directory_nlink parent (pos 1) touched)
        (add_directory_nlink-Touches parent (pos 1) touched)) in
    let insert =
      insert_dirent-ok E parent name ino inserted new (ground (arith, is_dir-some t parent dir))
        (ground arith) in
    let base_dir : is_dir base parent ≡ true =
      stays_dir t base d row v inodes dirents fresh dir new (new_links node uid gid now) parent
        dir in
    (
      node_inode node ino uid gid now,
      u,
      rw (short, kind, low, insert, works u),
      Touches-IsLinked parent base u touch base_dir linked,
      refl,
      added-entry t u d v (touch.dirents ∙ dirents)
          (find_none (is_entry parent name) t.dirents new),
    )
