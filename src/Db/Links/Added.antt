-- ===== src/Db/Links/Added.antt =====
-- A new entry keeps names unique and links counted.
use vibedbfs.Prelude.{
  ℕ, ◌+◌, ◌≤◌, ◌≡◌, ◌≢◌, ◌∙◌, sym, ap, pos, List, none, some, Bool, true, false, ◌==◌,
  if◌then◌else◌, find_first, list_eq_sound, arith, Bool-cases, inl, inr,
}
use vibedbfs.Db.{Tables, InodeRow, Dirent}
use vibedbfs.Db.Rows.{lookup_row, is_entry, insert_by_id}
use vibedbfs.Db.Links.{IsLinked, names, child_is, parent_is, is_dir, is_two, entry}
use vibedbfs.Db.Links.Counts.{count, if_counts, count-insert, find-insert}

module _ (t u : Tables) (d : Dirent) (v : IsLinked t)
    (dirents : u.dirents ≡ insert_by_id d t.dirents)
    (new : count (is_entry d.parent d.name) t.dirents ≡ 0) where
  pub added : (p : Dirent → Bool) → count p u.dirents ≡ count p t.dirents + if_counts (p d)
  added p = ap (count p) dirents ∙ count-insert p d t.dirents

  -- The name of the new entry had none.
  no_clash : (p : ℕ) (n : List ℕ) → is_entry p n d ≡ true → count (is_entry p n) t.dirents ≡ 0
  no_clash p n e =
      let same_parent : d.parent ≡ p = ground arith in
      let same_name : d.name ≡ n = list_eq_sound d.name n (ground arith) in
      rw (same_parent, same_name) at new

  pub added-IsLinked :
      is_dir u d.parent ≡ true
      → lookup_row d.child u.inodes ≢ none
      → ((k : ℕ) → is_dir u k ≡ false → is_dir t k ≡ false)
      → ((k : ℕ) → lookup_row k u.inodes ≡ none → lookup_row k t.inodes ≡ none)
      → ((k : ℕ) → is_dir u k ≡ true → names t k + if_counts (d.child == k) ≤ 1)
      → ((k : ℕ) (r : InodeRow)
          → lookup_row k u.inodes ≡ some r
          → is_two r.kind ≡ false
          → r.nlink ≡ pos (names t k + if_counts (d.child == k)))
      → IsLinked u
  added-IsLinked in_dir named dirs rows once links = record {
    unique = λ p n. elim (Bool-cases (is_entry p n d)) [
      | inl hit ↦ omega (arith, added (is_entry p n), no_clash p n hit, ap if_counts hit)
      | inr miss ↦ omega (arith, added (is_entry p n), v.unique p n, ap if_counts miss)
    ];
    children = λ k e.
        let old = v.children k (rows k e) in
        let other : (d.child == k) ≡ false = elim (Bool-cases (d.child == k)) [
          | inr ne ↦ ne
          | inl same ↦
              let ck : d.child ≡ k = ground arith in
              absurd (named (ap (λ c. lookup_row c u.inodes) ck ∙ e))
        ] in
        omega (arith, added (child_is k), ap if_counts other);
    parents = λ k e.
        let old = v.parents k (dirs k e) in
        let other : (d.parent == k) ≡ false = elim (Bool-cases (d.parent == k)) [
          | inr ne ↦ ne
          | inl same ↦
              let pk : d.parent ≡ k = ground arith in absurd (let yes_dir = ap (is_dir u) pk in cc)
        ] in
        omega (arith, added (parent_is k), ap if_counts other);
    single = λ k h. omega (arith, added (child_is k), once k h);
    links = λ k r e h. links k r e h ∙ ap pos (sym (added (child_is k)));
  }

  pub added-entry :
      (p : ℕ) (n : List ℕ) → entry u p n ≡ (if is_entry p n d then some d else entry t p n)
  added-entry p n =
      ap (find_first (is_entry p n)) dirents ∙ find-insert (is_entry p n) d t.dirents (no_clash p n)
