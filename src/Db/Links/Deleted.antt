-- ===== src/Db/Links/Deleted.antt =====
-- A deleted row whose inode had one name, and no entries of its own.
use vibedbfs.Prelude.{
  ℕ, ◌+◌, ◌≤◌, ◌≡◌, refl, ◌∙◌, sym, ap, pos, List, none, some, Bool, true, false, ◌||◌, ◌==◌, not,
  retain, arith, Bool-cases, inl, inr,
}
use vibedbfs.Model.{Inode}
use vibedbfs.Db.{Tables, InodeRow, Dirent}
use vibedbfs.Db.Rows.{lookup_row, is_entry, delete_entry, delete_inode_rows}
use vibedbfs.Db.Links.{IsLinked, Drops, names, is_dir, is_dir_row, is_two, child_is, parent_is}
use vibedbfs.Db.Links.Counts.{count, if_counts, count_or, retain_all}
use vibedbfs.Db.Links.RowLaws.{lookup-delete}
use vibedbfs.Db.Links.Removed.{removed, removed-IsLinked, removed-Drops}
use vibedbfs.Db.Links.Lookup.{Found}

module _ (t : Tables) (parent : ℕ) (name : List ℕ) (target : Inode) (v : IsLinked t)
    (found : Found t parent name target) (empty : count (parent_is target.ino) t.dirents ≡ 0)
    (last : names t target.ino ≤ 1) where
  deleted : Tables
  deleted = delete_inode_rows target.ino (delete_entry parent name t)

  -- The cascade finds no other entry.
  pub deleted_dirents :
      (delete_inode_rows target.ino (delete_entry parent name t)).dirents
      ≡ retain (λ x. not (is_entry parent name x)) t.dirents
  unfolding delete_entry delete_inode_rows
  deleted_dirents =
      let cut = delete_entry parent name t in
      let fewer = removed t cut found.dirent parent name v refl found.named in
      let no_name : count (child_is target.ino) cut.dirents ≡ 0 =
        ground (arith, found.child, fewer (child_is target.ino)) in
      retain_all (λ d. d.parent == target.ino || d.child == target.ino) cut.dirents
        (count_or (parent_is target.ino) (child_is target.ino) cut.dirents
          (omega (arith, fewer (parent_is target.ino))) no_name)

  pub deleted_gone :
      (k : ℕ)
      → (k == target.ino) ≡ true
      → lookup_row k (delete_inode_rows target.ino (delete_entry parent name t)).inodes ≡ none
  unfolding delete_entry delete_inode_rows
  deleted_gone k same = rw (lookup-delete k target.ino t.inodes, same)

  pub deleted_others :
      (k : ℕ)
      → (k == target.ino) ≡ false
      → lookup_row k (delete_inode_rows target.ino (delete_entry parent name t)).inodes
        ≡ lookup_row k t.inodes
  unfolding delete_entry delete_inode_rows
  deleted_others k ne = rw (lookup-delete k target.ino t.inodes, ne)

  fewer :
      (p : Dirent → Bool) → count p t.dirents ≡ count p deleted.dirents + if_counts (p found.dirent)
  unfolding deleted
  fewer = removed t deleted found.dirent parent name v deleted_dirents found.named

  deleted_parents : (k : ℕ) → is_dir deleted k ≡ false → count (parent_is k) deleted.dirents ≡ 0
  unfolding deleted
  deleted_parents k h = elim (Bool-cases (k == target.ino)) [
    | inr ne ↦
        omega
          (arith, fewer (parent_is k), v.parents k (ap is_dir_row (sym (deleted_others k ne)) ∙ h))
    | inl same ↦
        let is_k : target.ino ≡ k = ground arith in
        let none_in : count (parent_is k) t.dirents ≡ 0 =
          sym (ap (λ c. count (parent_is c) t.dirents) is_k) ∙ empty in
        omega (arith, fewer (parent_is k))
  ]

  deleted_children : (k : ℕ) → lookup_row k deleted.inodes ≡ none → names deleted k ≡ 0
  unfolding deleted
  deleted_children k h = elim (Bool-cases (k == target.ino)) [
    | inr ne ↦ omega (arith, fewer (child_is k), v.children k (sym (deleted_others k ne) ∙ h))
    | inl same ↦
        let is_k : target.ino ≡ k = ground arith in
        let at_most : names t k ≤ 1 = rw (← is_k) last in
        let one : found.dirent.child ≡ k = found.child ∙ is_k in ground (arith, fewer (child_is k))
  ]

  deleted_links :
      (k : ℕ) (r : InodeRow)
      → lookup_row k deleted.inodes ≡ some r
      → is_two r.kind ≡ false
      → r.nlink ≡ pos (names deleted k)
  unfolding deleted
  deleted_links k r e h = elim (Bool-cases (k == target.ino)) [
    | inl same ↦ absurd (let gone = deleted_gone k same in cc)
    | inr ne ↦
        let old = v.links k r (sym (deleted_others k ne) ∙ e) h in
        let n : names t k ≡ names deleted k = ground (arith, found.child, fewer (child_is k)) in
        old ∙ ap pos n
  ]

  pub deleted-IsLinked : IsLinked (delete_inode_rows target.ino (delete_entry parent name t))
  unfolding deleted
  deleted-IsLinked =
      removed-IsLinked t deleted found.dirent parent name v deleted_dirents found.named
        deleted_parents deleted_children
        (λ k h. elim (Bool-cases (k == target.ino)) [
          | inl same ↦ absurd (let gone = deleted_gone k same in ground arith)
          | inr ne ↦ ap is_dir_row (sym (deleted_others k ne)) ∙ h
        ])
        deleted_links

  pub deleted-Drops :
      Drops parent name t (delete_inode_rows target.ino (delete_entry parent name t))
  deleted-Drops =
      removed-Drops t (delete_inode_rows target.ino (delete_entry parent name t)) found.dirent
        parent name v deleted_dirents found.named
