-- ===== src/Db/Links/Unlink/Outcome.antt =====
-- The outcome of `unlink_entry`.
use vibedbfs.Prelude.{
  ℕ, ◌≡◌, refl, ◌∙◌, ap, List, [], ◌∷◌, none, some, Bool, true, false, ◌||◌, ltb, find_first, ok,
  arith, Bool-cases, inl, inr,
}
use vibedbfs.Model.{Timestamp, Inode}
use vibedbfs.Db.{Tables, Engine, Dirent}
use vibedbfs.Db.Rows.{touch_dir, is_entry, delete_entry}
use vibedbfs.Db.Nodes.{lookup}
use vibedbfs.Db.Dirs.{is_directory_kind}
use vibedbfs.Db.Remove.{drop_unlinked_inode, unlink_entry}
use vibedbfs.Db.Links.{IsLinked, FewEntries, entry, is_dir, parent_is}
use vibedbfs.Db.Links.Counts.{count}
use vibedbfs.Db.Links.Lookup.{Found, lookup-Found}
use vibedbfs.Db.Links.Touched.{
  Touches, touch_dir-Touches, Touches-IsLinked, Touches-dir, Touches-is_some,
}
use vibedbfs.Db.Links.Unlink.{Unlinked, kept_tables, kept_Unlinked, deleted_Unlinked, nlink_lem}

pub unnamed :
    (parent : ℕ) (name : List ℕ) (ds : List Dirent)
    → count (parent_is parent) ds ≡ 0
    → find_first (is_entry parent name) ds ≡ none
unnamed parent name [] h = refl
unnamed parent name (x ∷ ds) h = ground (arith, unnamed parent name ds)

-- An entry stands in a directory.
pub entry_dir :
    (t : Tables) (parent : ℕ) (name : List ℕ) (d : Dirent)
    → IsLinked t
    → entry t parent name ≡ some d
    → is_dir t parent ≡ true
entry_dir t parent name d v e = elim (Bool-cases (is_dir t parent)) [
  | inl dir ↦ dir
  | inr other ↦ absurd (let h = unnamed parent name t.dirents (v.parents parent other) in cc)
]

-- Times of the parent do not count.
touched :
    (t u w : Tables) (parent : ℕ) (name : List ℕ) (ino : ℕ) (is_open : Bool)
    → Touches parent u w
    → is_dir t parent ≡ true
    → Unlinked t u parent name ino is_open
    → Unlinked t w parent name ino is_open
touched t u w parent name ino is_open h dir x = record {
  linked = Touches-IsLinked parent u w h (x.dirs parent ∙ dir) (x.linked);
  drops = λ p n. ap (find_first (is_entry p n)) (h.dirents) ∙ x.drops p n;
  dirs = λ k. Touches-dir parent u w h k ∙ x.dirs k;
  one_less = rw (h.dirents) (x.one_less);
  row = rw (h.dirents) (Touches-is_some parent u w h ino ∙ x.row);
}

pub dropped :
    (t : Tables) (parent : ℕ) (name : List ℕ) (target : Inode) (is_open : Bool) (now : Timestamp)
    → IsLinked t
    → FewEntries t
    → Found t parent name target
    → is_directory_kind target.kind ≡ false
    → Unlinked t
        (drop_unlinked_inode target now is_open (delete_entry parent name t))
        parent
        name
        target.ino
        is_open
unfolding drop_unlinked_inode kept_tables
dropped t parent name target is_open now v few found file =
    let links = nlink_lem t parent name target v few found file in
    elim (Bool-cases (ltb 1 target.nlink || is_open)) [
      | inl keep ↦
          rw (file, keep) (kept_Unlinked t parent name target v few found file now is_open keep)
      | inr gone ↦
          let closed : is_open ≡ false = ground arith in
          rw (file, gone, closed)
            (deleted_Unlinked t parent name target v few found file (ground arith))
    ]

-- Unlinking a name of a file that is no directory succeeds when there are fewer entries than a
-- u32 counts and the transaction is written. Then that name is gone and all others lead where
-- they led, every inode that is no directory has as many links as names again, directories stay
-- directories, and the row of the file stays exactly as long as it has a name or is open.
pub unlink_entry_lem :
    (E : Engine) (t : Tables) (now : Timestamp) (parent : ℕ) (name : List ℕ) (target : Inode)
    (is_open : Bool)
    → IsLinked t
    → FewEntries t
    → lookup E t parent name ≡ ok target
    → is_directory_kind target.kind ≡ false
    → ((u : Tables) → E.commit_failure u ≡ none)
    → (u : Tables) × (unlink_entry E t now parent name target is_open ≡ ok (tt, u))
      × Unlinked t u parent name target.ino is_open
unfolding unlink_entry
unlink_entry_lem E t now parent name target is_open v few e file works =
    let found = lookup-Found E t parent name target v e in
    let base = drop_unlinked_inode target now is_open (delete_entry parent name t) in
    let u = touch_dir parent now base in
    (
      u,
      rw (file, works u),
      touched t base u parent name target.ino is_open (touch_dir-Touches parent now base)
          (entry_dir t parent name found.dirent v found.named)
          (dropped t parent name target is_open now v few found file),
    )
