-- ===== src/Db/Links/Opened.antt =====
-- Opening a database: the root row, the recounted directories and the deleted orphans.
pub mod Orphans
pub mod Outcome
use vibedbfs.Prelude.{
  ℕ, ◌+◌, ◌≤◌, ◌≡◌, refl, ◌∙◌, sym, ap, subst, pos, List, [], ◌∷◌, Option, none, some, Bool, true,
  false, ◌||◌, ◌&&◌, ◌==◌, not, if◌then◌else◌, Result, ok, err, All, member, retain, map, arith,
  Bool-cases, Option-cases, Result-cases, inl, inr,
}
use vibedbfs.Model.{Timestamp}
use vibedbfs.Db.{Tables, Engine, InodeRow, Dirent}
use vibedbfs.Db.Rows.{lookup_row, delete_inode_rows, delete_row, update_row, insert_row}
use vibedbfs.Db.Nodes.{delete_inode}
use vibedbfs.Db.Open.{
  new_root, hand_over, insert_root, chown_root, child_dirs, update_rows, recount,
  recompute_directory_nlink, delete_orphans,
}
use vibedbfs.Db.Links.{IsLinked, names, is_dir, is_dir_row, is_two, child_is, parent_is}
use vibedbfs.Db.Links.Counts.{count, count_or, retain_all, count_cong}
use vibedbfs.Db.Links.RowLaws.{
  lookup-delete, lookup-update, map_row, SameKind, SameKind-dir, SameKind-map, SameKind-refl,
}
use vibedbfs.Db.Links.Touched.{SameKind-none}

-- From `t` to `u`, entries and kinds stay, and the links of every inode that is no directory.
pub record Recounts (t u : Tables) : Type 0 where
  pub dirents : u.dirents ≡ t.dirents
  pub kinds : (k : ℕ) → SameKind (lookup_row k t.inodes) (lookup_row k u.inodes)
  pub files :
      (k : ℕ) (r : InodeRow)
      → lookup_row k u.inodes ≡ some r
      → is_two r.kind ≡ false
      → (q : InodeRow) × (lookup_row k t.inodes ≡ some q)
        × (is_two q.kind ≡ false)
        × (r.nlink ≡ q.nlink)

pub Recounts-dir : (t u : Tables) → Recounts t u → (k : ℕ) → is_dir u k ≡ is_dir t k
Recounts-dir t u h k = SameKind-dir (lookup_row k t.inodes) (lookup_row k u.inodes) (h.kinds k)

pub Recounts-IsLinked : (t u : Tables) → Recounts t u → IsLinked t → IsLinked u
Recounts-IsLinked t u h v = record {
  unique = λ p n. rw h.dirents (v.unique p n);
  children = λ k e.
      rw h.dirents (
        v.children k (SameKind-none (lookup_row k t.inodes) (lookup_row k u.inodes) (h.kinds k) e));
  parents = λ k e. rw h.dirents (v.parents k (sym (Recounts-dir t u h k) ∙ e));
  single = λ k e. rw h.dirents (v.single k (sym (Recounts-dir t u h k) ∙ e));
  links = λ k r e file.
      let (q, old, plain, same) = h.files k r e file in rw h.dirents (same ∙ v.links k q old plain);
}

pub lookup-update_rows :
    (k : ℕ) (f : ℕ → InodeRow → InodeRow) (rows : List (ℕ × InodeRow))
    → lookup_row k (update_rows f rows) ≡ map_row (f k) (lookup_row k rows)
lookup-update_rows k f [] = refl
lookup-update_rows k f ((j, r) ∷ rows) = elim (Bool-cases (j == k)) [
  | inl here ↦ let same : j ≡ k = ground arith in rw here (ap (λ i. some (f i r)) same)
  | inr on ↦ rw on (lookup-update_rows k f rows)
]

recount-kind : (t : Tables) (ino : ℕ) (r : InodeRow) → (recount t ino r).kind ≡ r.kind
recount-kind t ino r = elim (Bool-cases (is_two r.kind)) [
  | inl dir ↦ rw dir refl
  | inr file ↦ rw file refl
]

recount-file :
    (t : Tables) (ino : ℕ) (r : InodeRow)
    → is_two r.kind ≡ false
    → (recount t ino r).nlink ≡ r.nlink
recount-file t ino r file = rw file refl

hand_over-kind :
    (now : Timestamp) (uid gid : ℕ) (r : InodeRow)
    → ((hand_over now uid gid r).kind ≡ r.kind) × ((hand_over now uid gid r).nlink ≡ r.nlink)
hand_over-kind now uid gid r = elim (Bool-cases (r.uid == 0 && r.gid == 0)) [
  | inl root ↦ rw root (refl, refl)
  | inr user ↦ rw user (refl, refl)
]

map_row-file :
    (f : InodeRow → InodeRow) (o : Option InodeRow) (r : InodeRow)
    → ((q : InodeRow) → (f q).kind ≡ q.kind)
    → ((q : InodeRow) → is_two q.kind ≡ false → (f q).nlink ≡ q.nlink)
    → map_row f o ≡ some r
    → is_two r.kind ≡ false
    → (q : InodeRow) × (o ≡ some q) × (is_two q.kind ≡ false) × (r.nlink ≡ q.nlink)
map_row-file f none r kinds links e file = cc
map_row-file f (some q) r kinds links e file =
    let same : f q ≡ r = cc in
    let plain : is_two q.kind ≡ false =
      ap is_two (sym (kinds q)) ∙ ap (λ x. is_two x.kind) same ∙ file in
    (q, refl, plain, sym (ap (λ x. x.nlink) same) ∙ links q plain)

pub recompute-Recounts : (t : Tables) → Recounts t (recompute_directory_nlink t)
unfolding recompute_directory_nlink
recompute-Recounts t = record {
  dirents = refl;
  kinds = λ k.
      rw (lookup-update_rows k (recount t) t.inodes)
        (SameKind-map (recount t k) (lookup_row k t.inodes) (recount-kind t k));
  files = λ k r e file.
      map_row-file (recount t k) (lookup_row k t.inodes) r (recount-kind t k) (recount-file t k)
        (sym (lookup-update_rows k (recount t) t.inodes) ∙ e) file;
}

pub chown_root-Recounts :
    (now : Timestamp) (uid gid : ℕ) (t : Tables) → Recounts t (chown_root now uid gid t)
unfolding chown_root
chown_root-Recounts now uid gid t =
    let f = hand_over now uid gid in
    let look = λ (k : ℕ). lookup-update k 1 f t.inodes in
    record {
      dirents = refl;
      kinds = λ k. elim (Bool-cases (k == 1)) [
        | inl root ↦
            rw (look k, root)
              (SameKind-map f (lookup_row k t.inodes) (λ r. (hand_over-kind now uid gid r).0))
        | inr other ↦ rw (look k, other) (SameKind-refl (lookup_row k t.inodes))
      ];
      files = λ k r e file. elim (Bool-cases (k == 1)) [
        | inl root ↦
            let found = rw (look k, root) at e in
            map_row-file f (lookup_row k t.inodes) r (λ q. (hand_over-kind now uid gid q).0)
              (λ q plain. (hand_over-kind now uid gid q).1) found file
        | inr other ↦ let found = rw (look k, other) at e in (r, found, file, refl)
      ];
    }

rooted-IsLinked :
    (t : Tables) (r0 : InodeRow)
    → is_two r0.kind ≡ true
    → lookup_row 1 t.inodes ≡ none
    → IsLinked t
    → IsLinked (record t { inodes = insert_row 1 r0 t.inodes })
rooted-IsLinked t r0 dir gone v = record {
  unique = v.unique;
  children = λ k e. elim (Bool-cases (1 == k)) [
    | inl same ↦ absurd (let g = rw same at e in cc)
    | inr other ↦ v.children k (rw other at e)
  ];
  parents = λ k e. elim (Bool-cases (1 == k)) [
    | inl same ↦ absurd (let g = rw (same, dir) at e in cc)
    | inr other ↦ v.parents k (rw other at e)
  ];
  single = λ k e. elim (Bool-cases (1 == k)) [
    | inl same ↦
        let is_k : 1 ≡ k = ground arith in
        let free : names t k ≡ 0 = subst (λ i. names t i ≡ 0) is_k (v.children 1 gone) in
        omega (arith, free)
    | inr other ↦ v.single k (rw other at e)
  ];
  links = λ k r e file. elim (Bool-cases (1 == k)) [
    | inl same ↦
        let g = rw same at e in
        let is_r : r0 ≡ r = cc in absurd (let two = ap (λ x. is_two x.kind) is_r in cc)
    | inr other ↦ v.links k r (rw other at e) file
  ];
}

pub insert_root-IsLinked :
    (now : Timestamp) (uid gid : ℕ) (t : Tables)
    → IsLinked t
    → IsLinked (insert_root now uid gid t) × ((insert_root now uid gid t).dirents ≡ t.dirents)
unfolding insert_root
insert_root-IsLinked now uid gid t v = elim (Option-cases (lookup_row 1 t.inodes)) [
  | inr (r, here) ↦ rw (insert_root, here) (v, refl)
  | inl gone ↦ rw (insert_root, gone) (rooted-IsLinked t (new_root now uid gid) refl gone v, refl)
]
