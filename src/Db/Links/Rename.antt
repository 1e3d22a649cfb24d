-- ===== src/Db/Links/Rename.antt =====
-- The statements of `rename`: what they keep, and what they clear.
pub mod Target
pub mod Outcome
use vibedbfs.Prelude.{
  ℕ, ◌≡◌, refl, ◌∙◌, sym, ap, ℤ, pos, negsuc, List, map, Option, none, some, Bool, true, false,
  ◌&&◌, ◌==◌, not, if◌then◌else◌, find_first, list_eq, list_eq_refl, arith, Bool-cases, inl, inr,
}
use vibedbfs.Model.{Timestamp, Inode, FileKind}
use vibedbfs.Db.{Tables, Dirent}
use vibedbfs.Db.Rows.{is_entry, touch_dir, add_directory_nlink, delete_entry, delete_inode_rows}
use vibedbfs.Db.Dirs.{is_directory_kind}
use vibedbfs.Db.Remove.{
  move_entry, drop_target, drop_unlinked_inode, rename_tables, replaces_directory,
}
use vibedbfs.Db.Links.{IsLinked, Moves, FewEntries, Drops, entry, is_dir, is_dir_row, parent_is}
use vibedbfs.Db.Links.Counts.{count, find_none}
use vibedbfs.Db.Links.Lookup.{Found}
use vibedbfs.Db.Links.Deleted.{deleted_others, deleted-IsLinked, deleted-Drops}
use vibedbfs.Db.Links.Moved.{moved, moved-IsLinked}
use vibedbfs.Db.Links.Moved.Entries.{moved-Moves}
use vibedbfs.Db.Links.Touched.{
  Touches, touch_dir-Touches, add_directory_nlink-Touches, Touches-IsLinked, Touches-dir,
}

-- From `t` to `u`, entries and directories stay, and links stay counted.
record Keeps (t u : Tables) : Type 0 where
  dirents : u.dirents ≡ t.dirents
  dirs : (k : ℕ) → is_dir u k ≡ is_dir t k
  linked : IsLinked t → IsLinked u

Keeps-refl : (t : Tables) → Keeps t t
Keeps-refl t = record { dirents = refl; dirs = λ k. refl; linked = λ v. v }

Keeps-trans : (t u w : Tables) → Keeps t u → Keeps u w → Keeps t w
Keeps-trans t u w a b = record {
  dirents = b.dirents ∙ a.dirents;
  dirs = λ k. b.dirs k ∙ a.dirs k;
  linked = λ v. b.linked (a.linked v);
}

Keeps-if : (c : Bool) (t u : Tables) → Keeps t u → Keeps t (if c then u else t)
Keeps-if true t u a = a
Keeps-if false t u a = Keeps-refl t

Touches-Keeps : (ino : ℕ) (t u : Tables) → Touches ino t u → is_dir t ino ≡ true → Keeps t u
Touches-Keeps ino t u h dir = record {
  dirents = h.dirents;
  dirs = λ k. Touches-dir ino t u h k;
  linked = Touches-IsLinked ino t u h dir;
}

-- The times and links of the two directories.
pub counted :
    (parent new_parent : ℕ) (from_dir to_dir : Bool) (now : Timestamp) (m : Tables) → Tables
counted parent new_parent from_dir to_dir now m =
    let old_touched = touch_dir parent now m in
    let touched =
      if new_parent == parent then old_touched else touch_dir new_parent now old_touched in
    let counted =
      if from_dir && not (parent == new_parent)
      then add_directory_nlink new_parent (pos 1) (add_directory_nlink parent (negsuc 0) touched)
      else touched in
    if to_dir then add_directory_nlink new_parent (negsuc 0) counted else counted

-- A step on one directory.
touch_step :
    (ino : ℕ) (now : Timestamp) (t : Tables) → is_dir t ino ≡ true → Keeps t (touch_dir ino now t)
touch_step ino now t dir =
    Touches-Keeps ino t (touch_dir ino now t) (touch_dir-Touches ino now t) dir

count_step :
    (ino : ℕ) (by : ℤ) (t : Tables) → is_dir t ino ≡ true → Keeps t (add_directory_nlink ino by t)
count_step ino by t dir =
    Touches-Keeps ino t (add_directory_nlink ino by t) (add_directory_nlink-Touches ino by t) dir

counted-Keeps :
    (parent new_parent : ℕ) (from_dir to_dir : Bool) (now : Timestamp) (m : Tables)
    → is_dir m parent ≡ true
    → is_dir m new_parent ≡ true
    → Keeps m (counted parent new_parent from_dir to_dir now m)
unfolding counted
counted-Keeps parent new_parent from_dir to_dir now m old_dir new_dir =
    let a = touch_dir parent now m in
    let ka = touch_step parent now m old_dir in
    let b = touch_dir new_parent now a in
    let kb = touch_step new_parent now a (ka.dirs new_parent ∙ new_dir) in
    let c = if new_parent == parent then a else b in
    let kc : Keeps m c = elim (new_parent == parent) as (λ x. Keeps m (if x then a else b)) [
      | true ↦ ka
      | false ↦ Keeps-trans m a b ka kb
    ] in
    let d = add_directory_nlink parent (negsuc 0) c in
    let kd = count_step parent (negsuc 0) c (kc.dirs parent ∙ old_dir) in
    let e = add_directory_nlink new_parent (pos 1) d in
    let ke = count_step new_parent (pos 1) d (kd.dirs new_parent ∙ kc.dirs new_parent ∙ new_dir) in
    let f = if from_dir && not (parent == new_parent) then e else c in
    let kf =
      Keeps-trans m c f kc
        (Keeps-if (from_dir && not (parent == new_parent)) c e (Keeps-trans c d e kd ke)) in
    let g = add_directory_nlink new_parent (negsuc 0) f in
    Keeps-trans m f (if to_dir then g else f) kf
      (Keeps-if to_dir f g (count_step new_parent (negsuc 0) f (kf.dirs new_parent ∙ new_dir)))

-- From `t` to `b`, the new name is free, and both directories are there.
pub record Cleared (t b : Tables) (parent : ℕ) (new_parent : ℕ) (new_name : List ℕ) : Type 0 where
  pub linked : IsLinked b
  pub drops : Drops new_parent new_name t b
  pub old_dir : is_dir b parent ≡ true
  pub new_dir : is_dir b new_parent ≡ true

-- The rest of the transaction.
pub moved_counted :
    (t b : Tables) (parent : ℕ) (name : List ℕ) (new_parent : ℕ) (new_name : List ℕ) (d : Dirent)
    (from_dir to_dir : Bool) (now : Timestamp)
    → Cleared t b parent new_parent new_name
    → (parent == new_parent && list_eq name new_name) ≡ false
    → entry t parent name ≡ some d
    → let u =
        counted parent new_parent from_dir to_dir now
          (move_entry parent name new_parent new_name b) in
      IsLinked u × Moves parent name new_parent new_name d t u
unfolding move_entry moved
moved_counted t b parent name new_parent new_name d from_dir to_dir now c apart e =
    let m = move_entry parent name new_parent new_name b in
    let k = counted-Keeps parent new_parent from_dir to_dir now m (c.old_dir) (c.new_dir) in
    let at_new : (new_parent == new_parent && list_eq new_name new_name) ≡ true =
      ground (arith, list_eq_refl new_name) in
    let free =
      find_none (is_entry new_parent new_name) b.dirents
        (c.drops new_parent new_name ∙ rw at_new refl) in
    let still : entry b parent name ≡ some d = c.drops parent name ∙ rw apart e in
    (
      k.linked (
          moved-IsLinked parent name new_parent new_name b m (c.linked) refl refl free (c.new_dir)),
      λ p n.
          ap (find_first (is_entry p n)) (k.dirents)
          ∙ moved-Moves parent name new_parent new_name b m d refl free still p n
          ∙ elim (Bool-cases (p == new_parent && list_eq n new_name)) [
            | inl same ↦ rw same refl
            | inr other ↦
                let before : entry b p n ≡ entry t p n = c.drops p n ∙ rw other refl in
                rw (other, before)
          ],
    )
