-- ===== src/Db/Links/RemoveDir.antt =====
-- `remove_dir` takes a directory that has no entries.
use vibedbfs.Prelude.{
  ℕ, ◌≡◌, refl, ◌∙◌, sym, ap, negsuc, List, none, some, true, false, ◌==◌, find_first, ok, arith,
  Bool-cases, Option-cases, Result-cases, ◌⊎◌, err, subst, inl, inr, length, retain,
}
use vibedbfs.Model.{
  Timestamp, Inode, DbError, not_directory, FileKind, directory, regular_file, symlink,
}
use vibedbfs.Db.{Tables, Engine, Dirent}
use vibedbfs.Db.Rows.{
  lookup_row, touch_dir, add_directory_nlink, is_entry, delete_entry, delete_inode_rows,
}
use vibedbfs.Db.Nodes.{lookup}
use vibedbfs.Db.Dirs.{is_directory_kind, require_directory}
use vibedbfs.Db.Remove.{remove_dir}
use vibedbfs.Db.Links.{entry, IsLinked, Drops, is_dir, is_dir_row, parent_is}
use vibedbfs.Db.Links.Counts.{count, length-retain}
use vibedbfs.Db.Links.Lookup.{lookup-Found}
use vibedbfs.Db.Links.Deleted.{deleted_gone, deleted_others, deleted-IsLinked, deleted-Drops}
use vibedbfs.Db.Links.Touched.{
  touch_dir-Touches, add_directory_nlink-Touches, Touches-trans, Touches-IsLinked,
}
use vibedbfs.Db.Links.Unlink.Outcome.{entry_dir, unnamed}

pub is_directory : (k : FileKind) → is_directory_kind k ≡ true → k ≡ directory
is_directory directory h = refl
is_directory regular_file h = cc
is_directory symlink h = cc

kind-cases :
    (k : FileKind)
    → ((require_directory k ≡ ok tt) × (is_directory_kind k ≡ true))
      ⊎ ((d : DbError) × (require_directory k ≡ err d))
kind-cases directory = inl (refl, refl)
kind-cases regular_file = inr (not_directory, refl)
kind-cases symlink = inr (not_directory, refl)

-- A directory without entries is not the one that the name stands in.
pub apart_from :
    (t : Tables) (parent : ℕ) (name : List ℕ) (d : Dirent) (ino : ℕ)
    → entry t parent name ≡ some d
    → count (parent_is ino) t.dirents ≡ 0
    → (parent == ino) ≡ false
apart_from t parent name d ino named empty = elim (Bool-cases (parent == ino)) [
  | inr ne ↦ ne
  | inl same ↦
      let is_t : parent ≡ ino = ground arith in
      let none_in =
        unnamed parent name t.dirents (ap (λ c. count (parent_is c) t.dirents) is_t ∙ empty) in
      absurd (cc)
]

-- The tables that `remove_dir` writes.
abbrev without_dir : ℕ → List ℕ → Timestamp → ℕ → Tables → Tables
without_dir parent name now ino t =
    add_directory_nlink parent (negsuc 0)
      (touch_dir parent now (delete_inode_rows ino (delete_entry parent name t)))

abbrev IsRemoved : ℕ → List ℕ → ℕ → Tables → Tables → Type 0
IsRemoved parent name ino t u =
    IsLinked u × Drops parent name t u × (lookup_row ino u.inodes ≡ none)

without_dir-IsRemoved :
    (E : Engine) (t : Tables) (now : Timestamp) (parent : ℕ) (name : List ℕ) (target : Inode)
    → IsLinked t
    → lookup E t parent name ≡ ok target
    → is_directory_kind target.kind ≡ true
    → count (parent_is target.ino) t.dirents ≡ 0
    → IsRemoved parent name target.ino t (without_dir parent name now target.ino t)
without_dir-IsRemoved E t now parent name target v e dir empty =
    let found = lookup-Found E t parent name target v e in
    let base = delete_inode_rows target.ino (delete_entry parent name t) in
    let touched = touch_dir parent now base in
    let u = add_directory_nlink parent (negsuc 0) touched in
    let was_dir : is_dir t target.ino ≡ true =
      ap is_dir_row found.stored ∙ sym (found.read.kind) ∙ dir in
    let last = v.single target.ino was_dir in
    let in_dir = entry_dir t parent name found.dirent v found.named in
    let apart : (parent == target.ino) ≡ false =
      apart_from t parent name found.dirent target.ino found.named empty in
    let touch =
      Touches-trans parent base touched u (touch_dir-Touches parent now base)
        (add_directory_nlink-Touches parent (negsuc 0) touched) in
    let base_dir =
      ap is_dir_row (deleted_others t parent name target v found empty last parent apart)
      ∙ in_dir in
    let gone = deleted_gone t parent name target v found empty last target.ino (ground arith) in
    (
      Touches-IsLinked parent base u touch base_dir
          (deleted-IsLinked t parent name target v found empty last),
      λ p n.
          ap (find_first (is_entry p n)) (touch.dirents)
          ∙ deleted-Drops t parent name target v found empty last p n,
      touch.others target.ino (ground arith) ∙ gone,
    )

-- Removing a name that leads to a directory succeeds when no entry stands in it and the
-- transaction is written. Then the name and the directory are gone, all other names lead where
-- they led, and every inode that is no directory has as many links as names again.
pub remove_dir_lem :
    (E : Engine) (t : Tables) (now : Timestamp) (parent : ℕ) (name : List ℕ) (target : Inode)
    → IsLinked t
    → lookup E t parent name ≡ ok target
    → is_directory_kind target.kind ≡ true
    → count (parent_is target.ino) t.dirents ≡ 0
    → E.query_failure t ≡ none
    → ((u : Tables) → E.commit_failure u ≡ none)
    → (u : Tables) × (remove_dir E t now parent name ≡ ok (tt, u))
      × IsLinked u
      × Drops parent name t u
      × (lookup_row target.ino u.inodes ≡ none)
unfolding remove_dir
remove_dir_lem E t now parent name target v e dir empty answers works =
    let is_directory_kind_of = is_directory target.kind dir in
    let no_children : (length (retain (parent_is target.ino) t.dirents) == 0) ≡ true =
      ground (arith, length-retain (parent_is target.ino) t.dirents) in
    let u = without_dir parent name now target.ino t in
    let (links, drops, gone) = without_dir-IsRemoved E t now parent name target v e dir empty in
    (u, rw (e, is_directory_kind_of, answers, no_children, works u), links, drops, gone)

-- What a success of `remove_dir` says of the directory that it removed.
succeeded :
    (E : Engine) (t u : Tables) (now : Timestamp) (parent : ℕ) (name : List ℕ)
    → remove_dir E t now parent name ≡ ok (tt, u)
    → (target : Inode) × (lookup E t parent name ≡ ok target)
      × (is_directory_kind target.kind ≡ true)
      × (count (parent_is target.ino) t.dirents ≡ 0)
      × (without_dir parent name now target.ino t ≡ u)
unfolding remove_dir
succeeded E t u now parent name h = elim (Result-cases (lookup E t parent name)) [
  | inr (d, e) ↦ absurd (let g = rw e at h in cc)
  | inl (target, e) ↦ elim (kind-cases target.kind) [
    | inr (d, k) ↦ absurd (let g = rw (e, k) at h in cc)
    | inl (k, dir) ↦ elim (Option-cases (E.query_failure t)) [
      | inr (d, f) ↦ absurd (let g = rw (e, k, f) at h in cc)
      | inl f ↦ elim (Bool-cases (length (retain (parent_is target.ino) t.dirents) == 0)) [
        | inr some_child ↦ absurd (let g = rw (e, k, f, some_child) at h in cc)
        | inl no_child ↦
            let empty : count (parent_is target.ino) t.dirents ≡ 0 =
              ground (arith, length-retain (parent_is target.ino) t.dirents) in
            elim (Option-cases (E.commit_failure (without_dir parent name now target.ino t))) [
              | inr (d, c) ↦ absurd (let g = rw (e, k, f, no_child, c) at h in cc)
              | inl c ↦ (target, e, dir, empty, let g = rw (e, k, f, no_child, c) at h in cc)
            ]
      ]
    ]
  ]
]

-- Where names and link counts agree, a removal succeeds only if the name leads to a directory in
-- which no entry stands. Then the name and the directory are gone, all other names lead where they
-- led, and every inode that is no directory has as many links as names again.
pub remove_dir-ok :
    (E : Engine) (t u : Tables) (now : Timestamp) (parent : ℕ) (name : List ℕ)
    → IsLinked t
    → remove_dir E t now parent name ≡ ok (tt, u)
    → (target : Inode) × (lookup E t parent name ≡ ok target)
      × (is_directory_kind target.kind ≡ true)
      × (count (parent_is target.ino) t.dirents ≡ 0)
      × IsLinked u
      × Drops parent name t u
      × (lookup_row target.ino u.inodes ≡ none)
remove_dir-ok E t u now parent name v h =
    let (target, e, dir, empty, same) = succeeded E t u now parent name h in
    let (links, drops, gone) =
      subst (IsRemoved parent name target.ino t) same
        (without_dir-IsRemoved E t now parent name target v e dir empty) in
    (target, e, dir, empty, links, drops, gone)
