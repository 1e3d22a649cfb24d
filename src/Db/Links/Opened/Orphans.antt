-- ===== src/Db/Links/Opened/Orphans.antt =====
-- Opening a database: the orphans that it deletes.
use vibedbfs.Prelude.{
  ℕ, ◌≡◌, refl, ◌∙◌, sym, ap, subst, List, [], ◌∷◌, none, false, ◌||◌, ◌==◌, if◌then◌else◌, ok, All,
  member, arith, Bool-cases, Option-cases, inl, inr,
}
use vibedbfs.Db.{Tables, Engine}
use vibedbfs.Db.Rows.{lookup_row, delete_inode_rows, delete_chunk_rows, delete_inode_row}
use vibedbfs.Db.Open.{delete_orphans}
use vibedbfs.Db.Links.{IsLinked, names, is_dir, child_is, parent_is}
use vibedbfs.Db.Links.Counts.{count, count_or, retain_all}
use vibedbfs.Db.Links.RowLaws.{lookup-delete}

-- An inode with no name and no entries.
abbrev pub IsLoose : Tables → ℕ → Type 0
IsLoose t ino = (is_dir t ino ≡ false) × (names t ino ≡ 0)

module _ (t : Tables) (ino : ℕ) (v : IsLinked t) (loose : IsLoose t ino) where
  pub shed-dirents : (delete_inode_rows ino t).dirents ≡ t.dirents
  unfolding delete_inode_rows
  shed-dirents =
      retain_all (λ d. d.parent == ino || d.child == ino) t.dirents
        (count_or (parent_is ino) (child_is ino) t.dirents (v.parents ino loose.0) loose.1)

  pub shed-row :
      (k : ℕ)
      → lookup_row k (delete_inode_rows ino t).inodes
        ≡ (if k == ino then none else lookup_row k t.inodes)
  unfolding delete_inode_rows
  shed-row k = lookup-delete k ino t.inodes

  pub shed-dir : (k : ℕ) → is_dir (delete_inode_rows ino t) k ≡ is_dir t k
  shed-dir k = elim (Bool-cases (k == ino)) [
    | inr other ↦ rw (shed-row k, other) refl
    | inl same ↦
        let is_k : ino ≡ k = ground arith in rw (shed-row k, same) (sym (rw is_k at loose.0))
  ]

  pub shed-IsLinked : IsLinked (delete_inode_rows ino t)
  shed-IsLinked = record {
    unique = λ p n. rw shed-dirents (v.unique p n);
    children = λ k e. rw shed-dirents (elim (Bool-cases (k == ino)) [
      | inl same ↦ let is_k : ino ≡ k = ground arith in rw is_k at loose.1
      | inr other ↦ v.children k (rw (shed-row k, other) at e)
    ]);
    parents = λ k e. rw shed-dirents (v.parents k (sym (shed-dir k) ∙ e));
    single = λ k e. rw shed-dirents (v.single k (sym (shed-dir k) ∙ e));
    links = λ k r e file. rw shed-dirents (elim (Bool-cases (k == ino)) [
      | inl same ↦ absurd (let g = rw (shed-row k, same) at e in cc)
      | inr other ↦ v.links k r (rw (shed-row k, other) at e) file
    ]);
  }

-- From `t` to `u`, some inodes are deleted, and nothing else.
pub record Sheds (inos : List ℕ) (t u : Tables) : Type 0 where
  pub dirents : u.dirents ≡ t.dirents
  pub dirs : (k : ℕ) → is_dir u k ≡ is_dir t k
  pub rows :
      (k : ℕ) → lookup_row k u.inodes ≡ (if member k inos then none else lookup_row k t.inodes)
  pub linked : IsLinked u

still-IsLoose :
    (t u : Tables) (inos : List ℕ)
    → u.dirents ≡ t.dirents
    → ((k : ℕ) → is_dir u k ≡ is_dir t k)
    → All (IsLoose t) inos
    → All (IsLoose u) inos
still-IsLoose t u [] same dirs all = tt
still-IsLoose t u (k ∷ inos) same dirs all = (
  (dirs k ∙ all.0.0, ap (count (child_is k)) same ∙ all.0.1),
  still-IsLoose t u inos same dirs all.1,
)

pub delete_orphans-Sheds :
    (E : Engine) (inos : List ℕ) (t u : Tables)
    → IsLinked t
    → All (IsLoose t) inos
    → delete_orphans E inos t ≡ ok u
    → Sheds inos t u
unfolding delete_orphans delete_inode_rows
delete_orphans-Sheds E [] t u v all h =
    let same : t ≡ u = cc in
    subst (Sheds [] t) same
      (record { dirents = refl; dirs = λ k. refl; rows = λ k. refl; linked = v })
delete_orphans-Sheds E (ino ∷ inos) t u v all h =
    let t1 = delete_inode_rows ino t in
    let chunkless = delete_chunk_rows ino t in
    elim (Option-cases (E.commit_failure chunkless)) [
      | inr (x, bad) ↦ absurd (let g = rw (delete_orphans, bad) at h in cc)
      | inl done ↦ elim (Option-cases (E.commit_failure (delete_inode_row ino chunkless))) [
        | inr (x, bad) ↦ absurd (let g = rw (delete_orphans, done, bad) at h in cc)
        | inl gone ↦
            let g = rw (delete_orphans, done, gone) at h in
            let loose =
              still-IsLoose t t1 inos (shed-dirents t ino v all.0) (shed-dir t ino v all.0) all.1 in
            let later = delete_orphans-Sheds E inos t1 u (shed-IsLinked t ino v all.0) loose g in
            record {
              dirents = later.dirents ∙ shed-dirents t ino v all.0;
              dirs = λ k. later.dirs k ∙ shed-dir t ino v all.0 k;
              rows = λ k. later.rows k ∙ ground (arith, shed-row t ino v all.0 k);
              linked = later.linked;
            }
      ]
    ]
