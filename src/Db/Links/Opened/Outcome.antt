-- ===== src/Db/Links/Opened/Outcome.antt =====
-- Opening a database: what it leaves.
use vibedbfs.Prelude.{
  ℕ, ◌+◌, ◌≡◌, refl, ◌∙◌, sym, ap, pos, List, [], ◌∷◌, Option, none, some, Bool, true, false, ◌&&◌,
  ◌==◌, ok, All, member, retain, map, is_some, arith, Bool-cases, Option-cases, inl, inr,
}
use vibedbfs.Model.{Timestamp}
use vibedbfs.Db.{Tables, Engine, InodeRow}
use vibedbfs.Db.Rows.{lookup_row, delete_inode_rows, delete_chunk_rows, delete_inode_row}
use vibedbfs.Db.Open.{
  insert_root, chown_root, child_dirs, recount, recompute_directory_nlink, is_zero, is_orphan,
  orphans, delete_orphans, initialize,
}
use vibedbfs.Db.Links.{IsLinked, names, is_dir, is_two}
use vibedbfs.Db.Links.Counts.{count, count_cong}
use vibedbfs.Db.Links.RowLaws.{map_row}
use vibedbfs.Db.Links.Touched.{SameKind-is_some}
use vibedbfs.Db.Links.Opened.{
  Recounts-dir, Recounts-IsLinked, lookup-update_rows, recompute-Recounts, chown_root-Recounts,
  insert_root-IsLinked,
}
use vibedbfs.Db.Links.Opened.Orphans.{IsLoose, Sheds, delete_orphans-Sheds}

-- What is served after opening `t`.
pub record IsOpened (t u : Tables) : Type 0 where
  pub linked : IsLinked u
  pub entries : u.dirents ≡ t.dirents
  pub root : is_some (lookup_row 1 u.inodes) ≡ true
  pub counted :
      (k : ℕ) (r : InodeRow)
      → lookup_row k u.inodes ≡ some r
      → is_two r.kind ≡ true
      → r.nlink ≡ pos (2 + child_dirs u k)
  pub no_orphans : (k : ℕ) (r : InodeRow) → lookup_row k u.inodes ≡ some r → r.nlink ≡ pos 0 → k ≡ 1

retain-All :
    (P : ℕ → Type 0) (p : ℕ → Bool) (ks : List ℕ)
    → ((k : ℕ) → p k ≡ true → P k)
    → All P (retain p ks)
retain-All P p [] h = tt
retain-All P p (k ∷ ks) h = elim (Bool-cases (p k)) [
  | inl hit ↦ rw hit (h k hit, retain-All P p ks h)
  | inr miss ↦ rw miss (retain-All P p ks h)
]

member-retain : (p : ℕ → Bool) (k : ℕ) (ks : List ℕ) → member k (retain p ks) ≡ (p k && member k ks)
member-retain p k [] = ground arith
member-retain p k (j ∷ ks) = elim (Bool-cases (k == j)) [
  | inl same ↦
      let is_k : j ≡ k = ground arith in
      let now : p j ≡ p k = ap p is_k in ground (arith, member-retain p k ks)
  | inr other ↦ ground (arith, member-retain p k ks)
]

member-keys :
    (k : ℕ) (rows : List (ℕ × InodeRow)) (r : InodeRow)
    → lookup_row k rows ≡ some r
    → member k (map (λ x. x.0) rows) ≡ true
member-keys k [] r h = cc
member-keys k ((j, q) ∷ rows) r h = ground (arith, member-keys k rows r)

child_dirs-same :
    (t u : Tables) (k : ℕ)
    → u.dirents ≡ t.dirents
    → ((j : ℕ) → is_dir u j ≡ is_dir t j)
    → child_dirs u k ≡ child_dirs t k
child_dirs-same t u k same dirs =
    ap (count (λ d. d.parent == k && is_dir u d.child)) same
    ∙ count_cong (λ d. d.parent == k && is_dir u d.child) (λ d. d.parent == k && is_dir t d.child)
        t.dirents (λ d. ap (λ b. d.parent == k && b) (dirs d.child))

recount-counted :
    (t : Tables) (k : ℕ) (o : Option InodeRow) (r : InodeRow)
    → map_row (recount t k) o ≡ some r
    → is_two r.kind ≡ true
    → r.nlink ≡ pos (2 + child_dirs t k)
recount-counted t k none r h dir = cc
recount-counted t k (some q) r h dir = elim (Bool-cases (is_two q.kind)) [
  | inl two ↦
      let g = rw (recount, two) at h in
      let same : record q { nlink = pos (2 + child_dirs t k) } ≡ r = cc in
      sym (ap (λ x. x.nlink) same)
  | inr file ↦
      let g = rw (recount, file) at h in
      let same : q ≡ r = cc in absurd (let b = ap (λ x. is_two x.kind) same in cc)
]

recompute-counted :
    (t : Tables) (k : ℕ) (r : InodeRow)
    → lookup_row k (recompute_directory_nlink t).inodes ≡ some r
    → is_two r.kind ≡ true
    → r.nlink ≡ pos (2 + child_dirs (recompute_directory_nlink t) k)
unfolding recompute_directory_nlink
recompute-counted t k r h dir =
    let counts = recompute-Recounts t in
    let u = recompute_directory_nlink t in
    recount-counted t k (lookup_row k t.inodes) r
      (sym (lookup-update_rows k (recount t) t.inodes) ∙ h) dir
    ∙ ap (λ n. pos (2 + n)) (sym (child_dirs-same t u k counts.dirents (Recounts-dir t u counts)))

insert_root-root :
    (now : Timestamp) (uid gid : ℕ) (t : Tables)
    → is_some (lookup_row 1 (insert_root now uid gid t).inodes) ≡ true
unfolding insert_root
insert_root-root now uid gid t = elim (Option-cases (lookup_row 1 t.inodes)) [
  | inl gone ↦ rw (insert_root, gone) refl
  | inr (r, here) ↦ rw (insert_root, here) (rw here refl)
]

delete_orphans-ends :
    (E : Engine) (inos : List ℕ) (t : Tables)
    → ((x : Tables) → E.commit_failure x ≡ none)
    → (u : Tables) × (delete_orphans E inos t ≡ ok u)
unfolding delete_orphans delete_inode_rows
delete_orphans-ends E [] t writes = (t, refl)
delete_orphans-ends E (ino ∷ inos) t writes =
    let (u, later) = delete_orphans-ends E inos (delete_inode_rows ino t) writes in
    let t1 = delete_chunk_rows ino t in
    (u, rw (delete_orphans, writes t1, writes (delete_inode_row ino t1)) later)

zero_nlink : (r : InodeRow) (n : ℕ) → is_zero r.nlink ≡ true → r.nlink ≡ pos n → n ≡ 0
zero_nlink r n zero same = let z = rw same at zero in ground arith

module _ (t : Tables) (v : IsLinked t)
    (counted : (k : ℕ) (r : InodeRow)
      → lookup_row k t.inodes ≡ some r
      → is_two r.kind ≡ true
      → r.nlink ≡ pos (2 + child_dirs t k)) where
  orphan-IsLoose : (k : ℕ) → is_orphan k (lookup_row k t.inodes) ≡ true → IsLoose t k
  orphan-IsLoose k h = elim (Option-cases (lookup_row k t.inodes)) [
    | inl gone ↦ absurd (let g = rw gone at h in cc)
    | inr (r, here) ↦
        let g = rw here at h in
        let zero : is_zero r.nlink ≡ true = ground arith in
        elim (Bool-cases (is_two r.kind)) [
          | inl dir ↦
              absurd (
                let z = zero_nlink r (2 + child_dirs t k) zero (counted k r here dir) in
                omega arith)
          | inr file ↦ (rw here file, zero_nlink r (names t k) zero (v.links k r here file))
        ]
  ]

  orphans-IsLoose : All (IsLoose t) (orphans t)
  unfolding orphans
  orphans-IsLoose =
      retain-All (IsLoose t) (λ k. is_orphan k (lookup_row k t.inodes)) (map (λ x. x.0) t.inodes)
        orphan-IsLoose

  member-orphans :
      (k : ℕ) (r : InodeRow)
      → lookup_row k t.inodes ≡ some r
      → member k (orphans t) ≡ is_orphan k (some r)
  unfolding orphans
  member-orphans k r here =
      member-retain (λ j. is_orphan j (lookup_row j t.inodes)) k (map (λ x. x.0) t.inodes)
      ∙ rw (here, member-keys k t.inodes r here) (ground arith)

  kept :
      (u : Tables) (k : ℕ) (r : InodeRow)
      → Sheds (orphans t) t u
      → lookup_row k u.inodes ≡ some r
      → (lookup_row k t.inodes ≡ some r) × (member k (orphans t) ≡ false)
  kept u k r s h = elim (Bool-cases (member k (orphans t))) [
    | inl gone ↦ absurd (let g = rw (s.rows k, gone) at h in cc)
    | inr stays ↦ (rw (s.rows k, stays) at h, stays)
  ]

  Sheds-IsOpened :
      (t0 u : Tables)
      → t.dirents ≡ t0.dirents
      → is_some (lookup_row 1 t.inodes) ≡ true
      → Sheds (orphans t) t u
      → IsOpened t0 u
  Sheds-IsOpened t0 u same root s = record {
    linked = s.linked;
    entries = s.dirents ∙ same;
    root = elim (Option-cases (lookup_row 1 t.inodes)) [
      | inl gone ↦ absurd (let g = rw gone at root in cc)
      | inr (r, here) ↦
          let stays : member 1 (orphans t) ≡ false = member-orphans 1 r here ∙ ground arith in
          rw (s.rows 1, stays, here) refl
    ];
    counted = λ k r h dir.
        counted k r (kept u k r s h).0 dir
        ∙ ap (λ n. pos (2 + n)) (sym (child_dirs-same t u k s.dirents s.dirs));
    no_orphans = λ k r h zero.
        let (here, stays) = kept u k r s h in
        let orphan = sym stays ∙ member-orphans k r here in
        let g = rw (is_orphan, zero) at orphan in ground arith;
  }

-- Opening a database whose names are unique and whose files have as many links as names succeeds
-- when its queries are answered and its statements are written. Then there is a root, every name
-- leads where it led, files still have as many links as names, every directory has two links and
-- one more for each directory in it, and no inode but the root is left without links.
pub initialize_lem :
    (E : Engine) (now : Timestamp) (uid gid : ℕ) (t : Tables)
    → IsLinked t
    → ((x : Tables) → E.query_failure x ≡ none)
    → ((x : Tables) → E.commit_failure x ≡ none)
    → (u : Tables) × (initialize E now uid gid t ≡ ok u) × IsOpened t u
unfolding initialize
initialize_lem E now uid gid t v reads writes =
    let t1 = insert_root now uid gid t in
    let t2 = chown_root now uid gid t1 in
    let t3 = recompute_directory_nlink t2 in
    let (v1, same1) = insert_root-IsLinked now uid gid t v in
    let c2 = chown_root-Recounts now uid gid t1 in
    let c3 = recompute-Recounts t2 in
    let v3 = Recounts-IsLinked t2 t3 c3 (Recounts-IsLinked t1 t2 c2 v1) in
    let root2 =
      SameKind-is_some (lookup_row 1 t1.inodes) (lookup_row 1 t2.inodes) (c2.kinds 1)
      ∙ insert_root-root now uid gid t in
    let root3 =
      SameKind-is_some (lookup_row 1 t2.inodes) (lookup_row 1 t3.inodes) (c3.kinds 1) ∙ root2 in
    let counted = recompute-counted t2 in
    let (u, swept) = delete_orphans-ends E (orphans t3) t3 writes in
    let sheds = delete_orphans-Sheds E (orphans t3) t3 u v3 (orphans-IsLoose t3 v3 counted) swept in
    (
      u,
      rw (initialize, writes t1, writes t2, writes t3, reads t3) swept,
      Sheds-IsOpened t3 v3 counted t u (c3.dirents ∙ c2.dirents ∙ same1) root3 sheds,
    )
