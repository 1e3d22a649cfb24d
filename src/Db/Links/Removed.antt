-- ===== src/Db/Links/Removed.antt =====
-- Without one entry, names stay unique and links counted.
use vibedbfs.Prelude.{
  ℕ, ◌+◌, ◌≡◌, ◌∙◌, sym, ap, pos, List, none, some, Bool, true, false, ◌&&◌, ◌==◌, not, find_first,
  list_eq, list_eq_sound, list_eq_refl, retain, arith, Bool-cases, inl, inr,
}
use vibedbfs.Db.{Tables, InodeRow, Dirent}
use vibedbfs.Db.Rows.{lookup_row, is_entry}
use vibedbfs.Db.Links.{IsLinked, Drops, names, child_is, parent_is, is_dir, is_two, entry}
use vibedbfs.Db.Links.Counts.{count, if_counts, count-removed, find-retain, find_zero, find_passes}

module _ (t u : Tables) (d : Dirent) (parent : ℕ) (name : List ℕ) (v : IsLinked t)
    (dirents : u.dirents ≡ retain (λ x. not (is_entry parent name x)) t.dirents)
    (found : entry t parent name ≡ some d) where
  pub removed : (p : Dirent → Bool) → count p t.dirents ≡ count p u.dirents + if_counts (p d)
  removed p =
      rw dirents (count-removed p (is_entry parent name) t.dirents d (v.unique parent name) found)

  pub removed-IsLinked :
      ((k : ℕ) → is_dir u k ≡ false → count (parent_is k) u.dirents ≡ 0)
      → ((k : ℕ) → lookup_row k u.inodes ≡ none → names u k ≡ 0)
      → ((k : ℕ) → is_dir u k ≡ true → is_dir t k ≡ true)
      → ((k : ℕ) (r : InodeRow)
          → lookup_row k u.inodes ≡ some r
          → is_two r.kind ≡ false
          → r.nlink ≡ pos (names u k))
      → IsLinked u
  removed-IsLinked parents rows dirs links = record {
    unique = λ p n. omega (arith, removed (is_entry p n), v.unique p n);
    children = rows;
    parents = parents;
    single = λ k h. omega (arith, removed (child_is k), v.single k (dirs k h));
    links = links;
  }

  -- An entry that is not the one removed.
  passes :
      (p : ℕ) (n : List ℕ) (x : Dirent)
      → (p == parent && list_eq n name) ≡ false
      → is_entry p n x ≡ true
      → not (is_entry parent name x) ≡ true
  passes p n x other hit = elim (Bool-cases (is_entry parent name x)) [
    | inr miss ↦ ap not miss
    | inl both ↦
        let at_p : x.parent ≡ p = ground arith in
        let at_parent : x.parent ≡ parent = ground arith in
        let at_n : x.name ≡ n = list_eq_sound x.name n (ground arith) in
        let at_name : x.name ≡ name = list_eq_sound x.name name (ground arith) in
        let same_name : list_eq n name ≡ true =
          ap (list_eq n) (sym (sym at_n ∙ at_name)) ∙ list_eq_refl n in
        absurd (ground arith)
  ]

  pub removed-Drops : Drops parent name t u
  removed-Drops p n = elim (Bool-cases (p == parent && list_eq n name)) [
    | inr other ↦ rw other (
        ap (find_first (is_entry p n)) dirents
        ∙ find-retain (is_entry p n) (λ x. not (is_entry parent name x)) t.dirents
            (λ x h. passes p n x other h))
    | inl same ↦
        let at_p : p ≡ parent = ground arith in
        let at_n : n ≡ name = list_eq_sound n name (ground arith) in
        let hit = find_passes (is_entry parent name) t.dirents d found in
        let one = v.unique parent name in
        let gone : count (is_entry parent name) u.dirents ≡ 0 =
          ground (arith, removed (is_entry parent name)) in
        rw (same, at_p, at_n) (find_zero (is_entry parent name) u.dirents gone)
  ]
