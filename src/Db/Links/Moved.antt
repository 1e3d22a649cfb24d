-- ===== src/Db/Links/Moved.antt =====
-- A moved entry keeps names unique and links counted.
pub mod Entries
use vibedbfs.Prelude.{
  ℕ, ◌+◌, ◌≤◌, ◌≡◌, refl, ◌∙◌, sym, ap, pos, List, [], ◌∷◌, map, Option, none, some, Bool, true,
  false, ◌&&◌, ◌||◌, ◌==◌, if◌then◌else◌, find_first, list_eq, list_eq_sound, list_eq_refl, arith,
  Bool-cases, inl, inr,
}
use vibedbfs.Db.{Tables, InodeRow, Dirent}
use vibedbfs.Db.Rows.{lookup_row, is_entry}
use vibedbfs.Db.Remove.{move_entry}
use vibedbfs.Db.Links.{IsLinked, names, child_is, parent_is, is_dir, is_dir_row, is_two, entry}
use vibedbfs.Db.Links.Counts.{count, count-map, count_cong, find_none}

count_mono :
    (p q : Dirent → Bool) (ds : List Dirent)
    → ((d : Dirent) → p d ≡ true → q d ≡ true)
    → count p ds ≤ count q ds
count_mono p q [] h = omega arith
count_mono p q (d ∷ ds) h = ground (arith, h d, count_mono p q ds h)

count-or-le :
    (p q : Dirent → Bool) (ds : List Dirent) → count (λ d. p d || q d) ds ≤ count p ds + count q ds
count-or-le p q [] = omega arith
count-or-le p q (d ∷ ds) = ground (arith, count-or-le p q ds)

module _ (parent : ℕ) (name : List ℕ) (new_parent : ℕ) (new_name : List ℕ) where
  -- What `move_entry` does to an entry.
  unfoldable pub moved : Dirent → Dirent
  moved d = if is_entry parent name d then record d { parent = new_parent; name = new_name } else d

  pub from_there :
      (d : Dirent)
      → is_entry parent name d ≡ true
      → moved d ≡ record d { parent = new_parent; name = new_name }
  unfolding moved
  from_there d h = rw h

  pub not_there : (d : Dirent) → is_entry parent name d ≡ false → moved d ≡ d
  unfolding moved
  not_there d h = rw h

  pub moved_child : (k : ℕ) (d : Dirent) → child_is k (moved d) ≡ child_is k d
  moved_child k d = elim (Bool-cases (is_entry parent name d)) [
    | inl from ↦ ap (child_is k) (from_there d from)
    | inr miss ↦ ap (child_is k) (not_there d miss)
  ]

  -- An entry that has a name after the move, and not the new one, had it before.
  pub moved_at_other :
      (p : ℕ) (n : List ℕ) (d : Dirent)
      → (p == new_parent && list_eq n new_name) ≡ false
      → is_entry p n (moved d) ≡ true
      → is_entry p n d ≡ true
  moved_at_other p n d other hit = elim (Bool-cases (is_entry parent name d)) [
    | inr miss ↦ sym (ap (is_entry p n) (not_there d miss)) ∙ hit
    | inl from ↦
        let at_new : (new_parent == p && list_eq new_name n) ≡ true =
          sym (ap (is_entry p n) (from_there d from)) ∙ hit in
        let same : new_name ≡ n = list_eq_sound new_name n (ground arith) in
        let same_name : list_eq n new_name ≡ true = ap (list_eq n) same ∙ list_eq_refl n in
        absurd (ground arith)
  ]

  moved_at_new :
      (d : Dirent)
      → is_entry new_parent new_name (moved d) ≡ true
      → (is_entry parent name d || is_entry new_parent new_name d) ≡ true
  moved_at_new d hit = elim (Bool-cases (is_entry parent name d)) [
    | inl from ↦ rw from refl
    | inr miss ↦ rw miss (sym (ap (is_entry new_parent new_name) (not_there d miss)) ∙ hit)
  ]

  moved_parent :
      (k : ℕ) (d : Dirent)
      → (k == new_parent) ≡ false
      → parent_is k (moved d) ≡ true
      → parent_is k d ≡ true
  moved_parent k d other hit = elim (Bool-cases (is_entry parent name d)) [
    | inr miss ↦ sym (ap (parent_is k) (not_there d miss)) ∙ hit
    | inl from ↦
        let at_new : (new_parent == k) ≡ true = sym (ap (parent_is k) (from_there d from)) ∙ hit in
        absurd (ground arith)
  ]

  module _ (t u : Tables) (v : IsLinked t) (dirents : u.dirents ≡ map moved t.dirents)
      (inodes : u.inodes ≡ t.inodes) (free : count (is_entry new_parent new_name) t.dirents ≡ 0)
      (in_dir : is_dir t new_parent ≡ true) where
    count-moved : (p : Dirent → Bool) → count p u.dirents ≡ count (λ d. p (moved d)) t.dirents
    count-moved p = ap (count p) dirents ∙ count-map p moved t.dirents

    names_moved : (k : ℕ) → names u k ≡ names t k
    names_moved k =
        count-moved (child_is k)
        ∙ count_cong (λ d. child_is k (moved d)) (child_is k) t.dirents (moved_child k)

    dirs_moved : (k : ℕ) → is_dir u k ≡ is_dir t k
    dirs_moved k = ap (λ r. is_dir_row (lookup_row k r)) inodes

    row_moved : (k : ℕ) → lookup_row k u.inodes ≡ lookup_row k t.inodes
    row_moved k = ap (lookup_row k) inodes

    unique_moved : (p : ℕ) (n : List ℕ) → count (is_entry p n) u.dirents ≤ 1
    unique_moved p n = elim (Bool-cases (p == new_parent && list_eq n new_name)) [
      | inr other ↦ omega (
        arith,
        count-moved (is_entry p n),
        v.unique p n,
        count_mono (λ d. is_entry p n (moved d)) (is_entry p n) t.dirents
            (λ d. moved_at_other p n d other),
      )
      | inl same ↦
          let is_p : p ≡ new_parent = ground arith in
          let is_n : n ≡ new_name = list_eq_sound n new_name (ground arith) in
          rw (is_p, is_n)
            (omega (
              arith,
              count-moved (is_entry new_parent new_name),
              v.unique parent name,
              free,
              count_mono (λ d. is_entry new_parent new_name (moved d))
                  (λ d. is_entry parent name d || is_entry new_parent new_name d) t.dirents
                  moved_at_new,
              count-or-le (is_entry parent name) (is_entry new_parent new_name) t.dirents,
            ))
    ]

    parents_moved : (k : ℕ) → is_dir u k ≡ false → count (parent_is k) u.dirents ≡ 0
    parents_moved k h =
        let other : (k == new_parent) ≡ false = elim (Bool-cases (k == new_parent)) [
          | inr ne ↦ ne
          | inl same ↦
              let is_k : k ≡ new_parent = ground arith in
              absurd (let was = sym (dirs_moved k) ∙ h in let at_k = ap (is_dir t) is_k in cc)
        ] in
        omega (
          arith,
          count-moved (parent_is k),
          v.parents k (sym (dirs_moved k) ∙ h),
          count_mono (λ d. parent_is k (moved d)) (parent_is k) t.dirents
              (λ d. moved_parent k d other),
        )

    pub moved-IsLinked : IsLinked u
    moved-IsLinked = record {
      unique = unique_moved;
      children = λ k h. names_moved k ∙ v.children k (sym (row_moved k) ∙ h);
      parents = parents_moved;
      single = λ k h. omega (arith, names_moved k, v.single k (sym (dirs_moved k) ∙ h));
      links = λ k r e h. v.links k r (sym (row_moved k) ∙ e) h ∙ ap pos (sym (names_moved k));
    }
