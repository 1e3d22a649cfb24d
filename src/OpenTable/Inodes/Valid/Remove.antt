-- ===== src/OpenTable/Inodes/Valid/Remove.antt =====
-- Giving a slot back, and choosing the slot to flush when memory is short.
use vibedbfs.Prelude.{
  ℕ, ◌≡◌, ◌≢◌, refl, ◌∙◌, none, some, true, false, ◌==◌, if◌then◌else◌, member, is_empty, arith,
  Bool-cases, inl, inr,
}
use vibedbfs.OpenTable.Inodes.{OpenInodes, find, remove}
use vibedbfs.OpenTable.Inodes.Valid.{IsValid, lookup-remove, remove-Distinct}

-- What giving back a slot does.
pub record Removed (t : OpenInodes) (i : ℕ) (u : OpenInodes) : Type 0 where
  pub valid : IsValid u
  pub gone : find u (t.ino.at i) ≡ none
  pub others_found : (k : ℕ) → k ≢ t.ino.at i → find u k ≡ find t k
  pub now_free : member i u.free ≡ true
  pub its_refs : u.refs.at i ≡ 0
  pub its_unlinked : u.unlinked.at i ≡ false
  pub other_rows :
      (j : ℕ)
      → j ≢ i
      → (u.ino.at j ≡ t.ino.at j)
        × (u.kind.at j ≡ t.kind.at j)
        × (u.size.at j ≡ t.size.at j)
        × (u.mtime.at j ≡ t.mtime.at j)
        × (u.refs.at j ≡ t.refs.at j)
        × (u.unlinked.at j ≡ t.unlinked.at j)
        × (u.dirty.at j ≡ t.dirty.at j)

module _ (t : OpenInodes) (i : ℕ) (v : IsValid t) (is_live : find t (t.ino.at i) ≡ some i)
    (clean : is_empty (t.dirty.at i) ≡ true) where
  removed_find : (k : ℕ) → find (remove t i) k ≡ (if k == t.ino.at i then none else find t k)
  unfolding find remove
  removed_find k = lookup-remove k (t.ino.at i) t.by_ino

  removed_old : (k j : ℕ) → find (remove t i) k ≡ some j → (k ≢ t.ino.at i) × (find t k ≡ some j)
  removed_old k j f = let r = removed_find k in (ground arith, ground arith)

  not_free : member i t.free ≡ false
  not_free = elim (Bool-cases (member i t.free)) [
    | inr no_member ↦ no_member
    | inl m ↦ absurd ((v.free_idle i m).0 is_live)
  ]

  removed-IsValid : IsValid (remove t i)
  unfolding remove
  removed-IsValid = record {
    kind_len = v.kind_len;
    size_len = v.size_len;
    mtime_len = v.mtime_len;
    refs_len = v.refs_len;
    unlinked_len = v.unlinked_len;
    dirty_len = v.dirty_len;
    keys_distinct = remove-Distinct (t.ino.at i) t.by_ino v.keys_distinct;
    found = λ k j f. v.found k j (removed_old k j f).1;
    free_distinct = (not_free, v.free_distinct);
    free_in_range = λ j m. elim (Bool-cases (j == i)) [
      | inl same ↦ let ji : j ≡ i = ground arith in rw ji ((v.found (t.ino.at i) i is_live).0)
      | inr other ↦ v.free_in_range j (ground arith)
    ];
    free_idle = λ j m. elim (Bool-cases (j == i)) [
      | inl same ↦
          let ji : j ≡ i = ground arith in
          rw ji ((λ f. (removed_old (t.ino.at i) i f).0 refl), clean)
      | inr other ↦
          let old = v.free_idle j (ground arith) in
          ((λ f. old.0 (removed_old (t.ino.at j) j f).1), old.1)
    ];
  }

  -- On a valid table, giving back a live slot with no dirty chunks makes it free, with no
  -- handles and not unlinked, and its inode unknown. All other inodes are found as before, all other slots keep their columns, and the
  -- table stays valid.
  pub remove_inode_lem : Removed t i (remove t i)
  unfolding remove
  remove_inode_lem = record {
    valid = removed-IsValid;
    gone = removed_find (t.ino.at i) ∙ ground arith;
    others_found = λ k ne. removed_find k ∙ ground arith;
    now_free = ground arith;
    its_refs = ground arith;
    its_unlinked = ground arith;
    other_rows = λ j ne. ground arith;
  }
