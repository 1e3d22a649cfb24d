-- ===== src/Db/Links/Unlink.antt =====
-- `unlink_entry` takes one name and counts that; the inode goes with the last name unless open.
pub mod Outcome
use vibedbfs.Prelude.{
  ℕ, ◌+◌, ◌-◌, ◌%◌, ◌^◌, ◌≤◌, ◌<◌, ◌≡◌, refl, ◌∙◌, sym, ap, pos, List, Option, none, some, Bool,
  true, false, ◌&&◌, ◌||◌, ◌==◌, not, ltb, if◌then◌else◌, ok, retain, arith, Bool-cases, inl, inr,
  is_some,
}
use vibedbfs.Model.{Timestamp, Inode}
use vibedbfs.Db.{Tables, Engine, InodeRow, Dirent}
use vibedbfs.Db.Rows.{
  lookup_row, touch_dir, set_nlink, is_entry, delete_entry, delete_row, delete_inode_rows,
  i64_as_u32,
}
use vibedbfs.Db.Nodes.{lookup}
use vibedbfs.Db.Dirs.{is_directory_kind}
use vibedbfs.Db.Remove.{drop_unlinked_inode, unlink_entry}
use vibedbfs.Db.Links.{
  IsLinked, Drops, FewEntries, names, is_dir, is_dir_row, is_two, entry, child_is, parent_is,
}
use vibedbfs.Db.Links.Counts.{count, if_counts, count-le-length, count_or, retain_all, find_passes}
use vibedbfs.Db.Links.RowLaws.{lookup-delete}
use vibedbfs.Db.Links.Removed.{removed, removed-IsLinked, removed-Drops}
use vibedbfs.Db.Links.Deleted.{
  deleted_gone, deleted_others, deleted_dirents, deleted-IsLinked, deleted-Drops,
}
use vibedbfs.Db.Links.Lookup.{Found, lookup-Found}
use vibedbfs.Db.Links.Touched.{
  Touches, set_nlink-nlink, touch_dir-Touches, set_nlink-Touches, Touches-IsLinked, Touches-dir,
  Touches-is_some, SameKind-none,
}

-- From `t` to `u`, `parent` lost `name`, which led to `ino`; its row is there as long as the
-- inode has a name or is open. Directories stay.
pub record Unlinked (t u : Tables) (parent : ℕ) (name : List ℕ) (ino : ℕ) (is_open : Bool)
    : Type 0 where
  pub linked : IsLinked u
  pub drops : Drops parent name t u
  pub dirs : (k : ℕ) → is_dir u k ≡ is_dir t k
  pub one_less : names t ino ≡ names u ino + 1
  pub row : is_some (lookup_row ino u.inodes) ≡ (ltb 0 (names u ino) || is_open)

module _ (t : Tables) (parent : ℕ) (name : List ℕ) (target : Inode) (v : IsLinked t)
    (few : FewEntries t) (found : Found t parent name target)
    (file : is_directory_kind target.kind ≡ false) where
  two : is_two found.row.kind ≡ false
  two = sym (found.read.kind) ∙ file

  no_dir : is_dir t target.ino ≡ false
  no_dir = ap is_dir_row found.stored ∙ two

  pub nlink_lem : target.nlink ≡ names t target.ino
  nlink_lem =
      let low = count-le-length (child_is target.ino) t.dirents in
      found.read.nlink
      ∙ ap i64_as_u32 (v.links target.ino found.row found.stored two)
      ∙ ground arith

  one_less_name :
      (u : Tables)
      → u.dirents ≡ retain (λ x. not (is_entry parent name x)) t.dirents
      → names t target.ino ≡ names u target.ino + 1
  one_less_name u dirents = ground (
    arith,
    found.child,
    removed t u found.dirent parent name v dirents found.named (child_is target.ino),
  )

  -- Tables without the name, and with the row of `target` kept or deleted.
  module _ (u : Tables) (dirents : u.dirents ≡ retain (λ x. not (is_entry parent name x)) t.dirents)
      (others : (k : ℕ) → (k == target.ino) ≡ false → lookup_row k u.inodes ≡ lookup_row k t.inodes)
      (still : is_dir u target.ino ≡ false)
      (kept : (r : InodeRow)
        → lookup_row target.ino u.inodes ≡ some r
        → r.nlink ≡ pos (names u target.ino))
      (gone : lookup_row target.ino u.inodes ≡ none → names u target.ino ≡ 0) where
    rest : (p : Dirent → Bool) → count p t.dirents ≡ count p u.dirents + if_counts (p found.dirent)
    rest = removed t u found.dirent parent name v dirents found.named

    pub fewer : (k : ℕ) → names t k ≡ names u k + if_counts (target.ino == k)
    fewer k = rest (child_is k) ∙ ap (λ c. names u k + if_counts (c == k)) found.child

    pub unlinked_dirs : (k : ℕ) → is_dir u k ≡ is_dir t k
    unlinked_dirs k = elim (Bool-cases (k == target.ino)) [
      | inr ne ↦ ap is_dir_row (others k ne)
      | inl same ↦
          let is_k : target.ino ≡ k = ground arith in
          sym (ap (is_dir u) is_k) ∙ still ∙ sym no_dir ∙ ap (is_dir t) is_k
    ]

    unlinked_children : (k : ℕ) → lookup_row k u.inodes ≡ none → names u k ≡ 0
    unlinked_children k e = elim (Bool-cases (k == target.ino)) [
      | inr ne ↦ omega (arith, fewer k, v.children k (sym (others k ne) ∙ e))
      | inl same ↦
          let is_k : target.ino ≡ k = ground arith in
          sym (ap (names u) is_k) ∙ gone (ap (λ c. lookup_row c u.inodes) is_k ∙ e)
    ]

    unlinked_links :
        (k : ℕ) (r : InodeRow)
        → lookup_row k u.inodes ≡ some r
        → is_two r.kind ≡ false
        → r.nlink ≡ pos (names u k)
    unlinked_links k r e h = elim (Bool-cases (k == target.ino)) [
      | inl same ↦
          let is_k : target.ino ≡ k = ground arith in
          kept r (ap (λ c. lookup_row c u.inodes) is_k ∙ e) ∙ ap (λ c. pos (names u c)) is_k
      | inr ne ↦
          let old = v.links k r (sym (others k ne) ∙ e) h in
          let other : (target.ino == k) ≡ false = ground arith in
          let n : names t k ≡ names u k = omega (arith, fewer k, ap if_counts other) in
          old ∙ ap pos n
    ]

    pub unlinked-IsLinked : IsLinked u
    unlinked-IsLinked =
        removed-IsLinked t u found.dirent parent name v dirents found.named
          (λ k h. omega (arith, rest (parent_is k), v.parents k (sym (unlinked_dirs k) ∙ h)))
          unlinked_children (λ k h. sym (unlinked_dirs k) ∙ h) unlinked_links

  module _ (now : Timestamp) where
    pub kept_tables : Tables
    kept_tables = set_nlink target.ino (target.nlink - 1) now (delete_entry parent name t)

    kept-Touches : Touches target.ino (delete_entry parent name t) kept_tables
    unfolding kept_tables
    kept-Touches = set_nlink-Touches target.ino (target.nlink - 1) now (delete_entry parent name t)

    kept_dirents : kept_tables.dirents ≡ retain (λ x. not (is_entry parent name x)) t.dirents
    unfolding kept_tables delete_entry set_nlink
    kept_dirents = refl

    pub kept_Unlinked :
        (is_open : Bool)
        → (ltb 1 target.nlink || is_open) ≡ true
        → Unlinked t kept_tables parent name target.ino is_open
    unfolding kept_tables delete_entry
    kept_Unlinked is_open keep =
        let others = kept-Touches.others in
        let still =
          Touches-dir target.ino (delete_entry parent name t) kept_tables kept-Touches target.ino
          ∙ no_dir in
        let less : names t target.ino ≡ names kept_tables target.ino + 1 =
          one_less_name kept_tables kept_dirents in
        let there : is_some (lookup_row target.ino kept_tables.inodes) ≡ true =
          Touches-is_some target.ino (delete_entry parent name t) kept_tables kept-Touches
            target.ino
          ∙ ap is_some found.stored in
        record {
          dirs =
              λ k. Touches-dir target.ino (delete_entry parent name t) kept_tables kept-Touches k;
          linked =
              unlinked-IsLinked kept_tables kept_dirents others still
                (λ r e.
                  set_nlink-nlink target.ino target.ino (target.nlink - 1) now
                    (delete_entry parent name t) r (ground arith) e
                  ∙ ap pos (ground (arith, nlink_lem)))
                (λ e. absurd (let no_row = ap is_some e in cc));
          drops = removed-Drops t kept_tables found.dirent parent name v kept_dirents found.named;
          one_less = less;
          row = there ∙ ground (arith, nlink_lem);
        }

  pub deleted_Unlinked :
      names t target.ino ≤ 1
      → Unlinked t
          (delete_inode_rows target.ino (delete_entry parent name t))
          parent
          name
          target.ino
          false
  deleted_Unlinked last =
      let deleted = delete_inode_rows target.ino (delete_entry parent name t) in
      let empty = v.parents target.ino no_dir in
      let less = one_less_name deleted (deleted_dirents t parent name target v found empty last) in
      let gone : lookup_row target.ino deleted.inodes ≡ none =
        deleted_gone t parent name target v found empty last target.ino (ground arith) in
      record {
        dirs = λ k. elim (Bool-cases (k == target.ino)) [
          | inr ne ↦ ap is_dir_row (deleted_others t parent name target v found empty last k ne)
          | inl same ↦
              let is_k : target.ino ≡ k = ground arith in
              sym (ap (is_dir deleted) is_k) ∙ ap is_dir_row gone ∙ sym no_dir ∙ ap (is_dir t) is_k
        ];
        linked = deleted-IsLinked t parent name target v found empty last;
        drops = deleted-Drops t parent name target v found empty last;
        one_less = less;
        row = ap is_some gone ∙ ground arith;
      }
