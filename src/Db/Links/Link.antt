-- ===== src/Db/Links/Link.antt =====
-- `link` gives one more name and counts it.
use vibedbfs.Prelude.{
  ℕ, ◌+◌, ◌^◌, ◌≤◌, ◌<◌, ◌≡◌, refl, ◌∙◌, sym, ap, pos, List, none, some, true, false, ◌==◌, ltb, ok,
  length, arith, Bool-cases, Option-cases, inl, inr, Result-cases,
}
use vibedbfs.Model.{Timestamp, Inode, directory, from_i64}
use vibedbfs.Arena.{as_u32}
use vibedbfs.Db.{Tables, Engine, InodeRow, Dirent}
use vibedbfs.Db.Rows.{
  lookup_row, check_name, touch_dir, set_nlink, is_entry, insert_by_id, name_max, inode_from_row,
  i64_as_u32,
}
use vibedbfs.Db.Nodes.{inode_kind_of, get_inode}
use vibedbfs.Db.Dirs.{is_directory_kind}
use vibedbfs.Db.Create.{link}
use vibedbfs.Db.Links.{
  is_dir_row, IsLinked, Adds, FewEntries, names, is_dir, is_two, entry, child_is,
}
use vibedbfs.Db.Links.Counts.{if_counts, find_none, count-le-length}
use vibedbfs.Db.Links.RowLaws.{inode_kind_of-is_dir, kind_dir}
use vibedbfs.Db.Links.Added.{added, added-IsLinked, added-entry}
use vibedbfs.Db.Links.Create.{new_entry, insert_dirent-ok, is_dir-some}
use vibedbfs.Db.Links.Touched.{
  Touches, set_nlink-nlink, touch_dir-Touches, set_nlink-Touches, Touches-IsLinked, Touches-dir,
  SameKind-none,
}

-- The row that an inode was read from.
pub record IsRow (ino : ℕ) (inode : Inode) (r : InodeRow) : Type 0 where
  pub number : inode.ino ≡ ino
  pub tag : from_i64 r.kind ≡ ok (inode.kind)
  pub kind : is_directory_kind inode.kind ≡ is_two r.kind
  pub nlink : inode.nlink ≡ i64_as_u32 r.nlink

pub inode_from_row-IsRow :
    (E : Engine) (ino : ℕ) (r : InodeRow) (inode : Inode)
    → inode_from_row E ino r ≡ ok inode
    → IsRow ino inode r
unfolding inode_from_row
inode_from_row-IsRow E ino r inode e = elim (Result-cases (from_i64 r.kind)) [
  | inr (x, f) ↦ absurd (let h = rw (inode_from_row, f) at e in cc)
  | inl (kind, f) ↦
      let h = rw (inode_from_row, f) at e in
      let same : kind ≡ inode.kind = cc in
      record {
        number = cc;
        tag = f ∙ ap ok same;
        kind = ap is_directory_kind (sym same) ∙ kind_dir r.kind kind f;
        nlink = cc;
      }
]

pub get_inode-row :
    (E : Engine) (t : Tables) (ino : ℕ) (inode : Inode)
    → get_inode E t ino ≡ ok inode
    → (r : InodeRow) × (lookup_row ino t.inodes ≡ some r) × IsRow ino inode r
unfolding get_inode
get_inode-row E t ino inode e = elim (Option-cases (E.query_failure t)) [
  | inr (d, f) ↦ absurd (let g = rw f at e in cc)
  | inl f ↦ elim (Option-cases (lookup_row ino t.inodes)) [
    | inl g ↦ absurd (let h = rw (f, g) at e in cc)
    | inr (r, g) ↦ (r, g, inode_from_row-IsRow E ino r inode (rw (f, g) at e))
  ]
]

module _ (t u : Tables) (d : Dirent) (now : Timestamp) (row : InodeRow) (v : IsLinked t)
    (inodes : u.inodes ≡ (set_nlink d.child (names t d.child + 1) now t).inodes)
    (dirents : u.dirents ≡ insert_by_id d t.dirents)
    (found : lookup_row d.child t.inodes ≡ some row) (file : is_two row.kind ≡ false)
    (in_dir : is_dir t d.parent ≡ true) (new : entry t d.parent d.name ≡ none) where
  counted_row : Tables
  counted_row = set_nlink d.child (names t d.child + 1) now t

  counts : Touches d.child t counted_row
  unfolding counted_row
  counts = set_nlink-Touches d.child (names t d.child + 1) now t

  dirs : (k : ℕ) → is_dir u k ≡ is_dir t k
  unfolding counted_row
  dirs k = ap (λ r. is_dir_row (lookup_row k r)) inodes ∙ Touches-dir d.child t counted_row counts k

  no_directory : (k : ℕ) → d.child ≡ k → is_dir t k ≡ false
  no_directory k same = ap (is_dir t) (sym same) ∙ ap is_dir_row found ∙ file

  linked_links :
      (k : ℕ) (r : InodeRow)
      → lookup_row k u.inodes ≡ some r
      → is_two r.kind ≡ false
      → r.nlink ≡ pos (names t k + if_counts (d.child == k))
  unfolding counted_row set_nlink
  linked_links k r e h =
      let at_k = sym (ap (lookup_row k) inodes) ∙ e in
      elim (Bool-cases (d.child == k)) [
        | inl same ↦
            let is_k : d.child ≡ k = ground arith in
            let n : names t k + 1 ≡ names t k + if_counts (d.child == k) = rw same refl in
            set_nlink-nlink k d.child (names t d.child + 1) now t r (ground arith) at_k
            ∙ ap (λ c. pos (names t c + 1)) is_k
            ∙ ap pos n
        | inr ne ↦
            let old = sym (counts.others k (ground arith)) ∙ at_k in
            let before = v.links k r old h in
            let n : names t k + 0 ≡ names t k = omega arith in rw (ne, n) before
      ]

  pub link-IsLinked : IsLinked u
  unfolding counted_row
  link-IsLinked =
      added-IsLinked t u d v dirents (find_none (is_entry d.parent d.name) t.dirents new)
        (dirs d.parent ∙ in_dir)
        (λ e.
          let gone =
            SameKind-none (lookup_row d.child t.inodes) (lookup_row d.child counted_row.inodes)
              (counts.kinds d.child) (sym (ap (lookup_row d.child) inodes) ∙ e) in
          cc)
        (λ k h. sym (dirs k) ∙ h)
        (λ k h.
          SameKind-none (lookup_row k t.inodes) (lookup_row k counted_row.inodes) (counts.kinds k)
            (sym (ap (lookup_row k) inodes) ∙ h))
        (λ k h. elim (Bool-cases (d.child == k)) [
          | inl same ↦
              let none_dir = no_directory k (ground arith) in
              absurd (let two = sym (dirs k) ∙ h in cc)
          | inr ne ↦ let before = v.single k (sym (dirs k) ∙ h) in rw ne (omega arith)
        ])
        linked_links

-- Linking a file that is no directory under a name that fits and is not in use in its directory
-- succeeds when there are fewer entries than a u32 counts and the transaction is written. Then
-- the inode that is returned has as many links as it has names, which are one more than before,
-- every other inode that is no directory has as many as before, the new name leads to the file,
-- and all other names lead where they led.
pub link_lem :
    (E : Engine) (t : Tables) (now : Timestamp) (ino parent : ℕ) (name : List ℕ) (inode : Inode)
    → IsLinked t
    → FewEntries t
    → length name ≤ name_max
    → get_inode E t ino ≡ ok inode
    → is_directory_kind inode.kind ≡ false
    → inode_kind_of E t parent ≡ ok directory
    → entry t parent name ≡ none
    → ((u : Tables) → E.commit_failure u ≡ none)
    → (i : Inode) × (u : Tables) × (link E t now ino parent name ≡ ok (i, u))
      × IsLinked u
      × (i.nlink ≡ names u ino)
      × (names u ino ≡ names t ino + 1)
      × Adds (new_entry E t parent name ino) t u
unfolding link check_name set_nlink
link_lem E t now ino parent name inode v few fits get file kind new works =
    let (row, found, from) = get_inode-row E t ino inode get in
    let d = new_entry E t parent name ino in
    let named = record t { dirents = insert_by_id d t.dirents } in
    let base = set_nlink ino (names t ino + 1) now named in
    let u = touch_dir parent now base in
    let dir : is_dir t parent ≡ true = sym (inode_kind_of-is_dir E t parent directory kind) in
    let short : ltb name_max (length name) ≡ false = ground arith in
    let two : is_two row.kind ≡ false = sym (from.kind) ∙ file in
    let counted = v.links ino row found two in
    let low : names t ino + 1 < 2 ^ 32 =
      omega (arith, few, count-le-length (child_is ino) t.dirents) in
    let held : i64_as_u32 (pos (names t ino)) ≡ names t ino = ground (arith, low) in
    let old : inode.nlink ≡ names t ino = from.nlink ∙ ap i64_as_u32 counted ∙ held in
    let next : as_u32 (inode.nlink + 1) ≡ names t ino + 1 = ground (arith, low) in
    let linked = link-IsLinked t base d now row v refl refl found two dir new in
    let touch = touch_dir-Touches parent now base in
    let insert =
      insert_dirent-ok E parent name ino t new (is_dir-some t parent dir) (ground arith) in
    let base_dir : is_dir base parent ≡ true =
      Touches-dir ino named base (set_nlink-Touches ino (names t ino + 1) now named) parent ∙ dir in
    let one_more =
      added t u d v touch.dirents (find_none (is_entry parent name) t.dirents new) (child_is ino) in
    (
      record inode { nlink = names t ino + 1; ctime = now },
      u,
      rw (short, get, file, kind, insert, next, works u),
      Touches-IsLinked parent base u touch base_dir linked,
      ground (arith, one_more),
      ground (arith, one_more),
      added-entry t u d v touch.dirents (find_none (is_entry parent name) t.dirents new),
    )
