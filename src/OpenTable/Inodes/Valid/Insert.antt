-- ===== src/OpenTable/Inodes/Valid/Insert.antt =====
-- Taking a slot for an inode, and giving it back.
use vibedbfs.Prelude.{
  ℕ, ◌+◌, ◌^◌, ◌<◌, ◌≡◌, ◌≢◌, ◌⊎◌, refl, ◌∙◌, sym, ap, List, [], ◌∷◌, some, true, false, ◌==◌,
  if◌then◌else◌, member, Distinct, is_empty, arith, Bool-cases, inl, inr, push, set_at, subst,
}
use vibedbfs.Model.{FileKind}
use vibedbfs.Arena.{as_u32}
use vibedbfs.OpenTable.Inodes.{OpenInodes, find, insert, insert_ino, epoch}
use vibedbfs.OpenTable.Inodes.Valid.{IsValid, Inserted, lookup-insert, insert-Distinct}

-- The table after `slot`, the first of the free slots, is taken.
abbrev reused : OpenInodes → ℕ → List ℕ → ℕ → FileKind → ℕ → OpenInodes
reused t slot rest ino kind size = record t {
  ino = set_at t.ino slot ino;
  kind = set_at t.kind slot kind;
  size = set_at t.size slot size;
  mtime = set_at t.mtime slot epoch;
  refs = set_at t.refs slot 0;
  unlinked = set_at t.unlinked slot false;
  by_ino = insert_ino ino slot t.by_ino;
  free = rest;
}

-- The table with a new slot.
abbrev grown : OpenInodes → ℕ → FileKind → ℕ → OpenInodes
grown t ino kind size = record t {
  ino = push t.ino ino;
  kind = push t.kind kind;
  size = push t.size size;
  mtime = push t.mtime epoch;
  refs = push t.refs 0;
  unlinked = push t.unlinked false;
  dirty = push t.dirty [];
  by_ino = insert_ino ino (as_u32 t.ino.len) t.by_ino;
}

insert-reused :
    (t : OpenInodes) (slot ino size : ℕ) (rest : List ℕ) (kind : FileKind)
    → t.free ≡ slot ∷ rest
    → insert t ino kind size ≡ (slot, reused t slot rest ino kind size)
unfolding insert
insert-reused t slot ino size rest kind e = simp (e, insert)

insert-grown :
    (t : OpenInodes) (ino size : ℕ) (kind : FileKind)
    → t.free ≡ []
    → insert t ino kind size ≡ (as_u32 t.ino.len, grown t ino kind size)
unfolding insert
insert-grown t ino size kind e = simp (e, insert)

free-cases : (xs : List ℕ) → (xs ≡ []) ⊎ ((x : ℕ) × (rest : List ℕ) × (xs ≡ x ∷ rest))
free-cases [] = inl refl
free-cases (x ∷ rest) = inr (x, rest, refl)

empty_list : {A : Type 0} (xs : List A) → is_empty xs ≡ true → xs ≡ []
empty_list [] e = refl
empty_list (x ∷ xs) e = cc

module _ (t : OpenInodes) (slot ino size : ℕ) (rest : List ℕ) (kind : FileKind) (v : IsValid t)
    (e : t.free ≡ slot ∷ rest) where
  slot_free : member slot t.free ≡ true
  slot_free = rw e (ground arith)

  still_free : (i : ℕ) → member i rest ≡ true → (member i t.free ≡ true) × (i ≢ slot)
  still_free i m =
      let d = subst Distinct e v.free_distinct in
      (rw e (ground arith), λ same. absurd (let m' = rw same at m in let once = d.0 in cc))

  idle : (k : ℕ) → find t k ≢ some slot
  idle k f = (v.free_idle slot slot_free).0 (ap (find t) (v.found k slot f).1 ∙ f)

  find-reused :
      (k : ℕ)
      → find (reused t slot rest ino kind size) k ≡ (if k == ino then some slot else find t k)
  unfolding find
  find-reused k = lookup-insert k ino slot t.by_ino

  reused_found :
      (k i : ℕ)
      → find (reused t slot rest ino kind size) k ≡ some i
      → (i < t.ino.len) × ((set_at t.ino slot ino).at i ≡ k)
  reused_found k i f = elim (Bool-cases (k == ino)) [
    | inl same ↦
        let r = find-reused k in
        let is : slot ≡ i = ground arith in
        let small = v.free_in_range slot slot_free in (omega arith, ground arith)
    | inr other ↦
        let r = find-reused k in
        let old : find t k ≡ some i = ground arith in
        let o = v.found k i old in
        let ne : i ≢ slot = λ same. idle k (old ∙ ap some same) in (o.0, ground (arith, o))
  ]

  reused-IsValid : IsValid (reused t slot rest ino kind size)
  reused-IsValid = record {
    kind_len = v.kind_len;
    size_len = v.size_len;
    mtime_len = v.mtime_len;
    refs_len = v.refs_len;
    unlinked_len = v.unlinked_len;
    dirty_len = v.dirty_len;
    keys_distinct = insert-Distinct ino slot t.by_ino v.keys_distinct;
    found = reused_found;
    free_distinct = (subst Distinct e v.free_distinct).1;
    free_in_range = λ i m. v.free_in_range i (still_free i m).0;
    free_idle = λ i m.
        let s = still_free i m in
        let old = v.free_idle i s.0 in
        let at : (set_at t.ino slot ino).at i ≡ t.ino.at i = ground (arith, s.1) in
        let f = find-reused (t.ino.at i) in
        (
          rw at (λ h. absurd (elim (Bool-cases (t.ino.at i == ino)) [
            | inl same ↦ let is : slot ≡ i = ground arith in s.1 (sym is)
            | inr other ↦ old.0 (ground arith)
          ])),
          old.1,
        );
  }

  reused-Inserted : Inserted t ino kind size slot (reused t slot rest ino kind size)
  reused-Inserted = record {
    valid = reused-IsValid;
    now_found = find-reused ino ∙ ground arith;
    others_found = λ k ne. find-reused k ∙ ground arith;
    was_idle = idle;
    its_ino = ground arith;
    its_kind = ground arith;
    its_size = ground arith;
    its_mtime = ground arith;
    its_refs = ground arith;
    its_unlinked = ground arith;
    its_dirty = empty_list (t.dirty.at slot) (v.free_idle slot slot_free).1;
    other_rows = λ j ne. ground arith;
  }

module _ (t : OpenInodes) (ino size : ℕ) (kind : FileKind) (v : IsValid t) (e : t.free ≡ [])
    (room : t.ino.len < 2 ^ 32) where
  fits : as_u32 t.ino.len ≡ t.ino.len
  fits = omega arith

  find-grown :
      (k : ℕ)
      → find (grown t ino kind size) k ≡ (if k == ino then some (as_u32 t.ino.len) else find t k)
  unfolding find
  find-grown k = lookup-insert k ino (as_u32 t.ino.len) t.by_ino

  beyond : (k : ℕ) → find t k ≢ some (as_u32 t.ino.len)
  beyond k f = omega (arith, v.found k (as_u32 t.ino.len) f)

  grown_found :
      (k i : ℕ)
      → find (grown t ino kind size) k ≡ some i
      → (i < t.ino.len + 1) × ((push t.ino ino).at i ≡ k)
  grown_found k i f = elim (Bool-cases (k == ino)) [
    | inl same ↦
        let r = find-grown k in
        let is : as_u32 t.ino.len ≡ i = ground arith in (omega arith, ground arith)
    | inr other ↦
        let r = find-grown k in
        let old : find t k ≡ some i = ground arith in
        let o = v.found k i old in (omega arith, ground (arith, o))
  ]

  none_free : (i : ℕ) → member i t.free ≢ true
  none_free i m = let m' = rw e at m in cc

  grown-IsValid : IsValid (grown t ino kind size)
  grown-IsValid = record {
    kind_len = ap (λ n. n + 1) v.kind_len;
    size_len = ap (λ n. n + 1) v.size_len;
    mtime_len = ap (λ n. n + 1) v.mtime_len;
    refs_len = ap (λ n. n + 1) v.refs_len;
    unlinked_len = ap (λ n. n + 1) v.unlinked_len;
    dirty_len = ap (λ n. n + 1) v.dirty_len;
    keys_distinct = insert-Distinct ino (as_u32 t.ino.len) t.by_ino v.keys_distinct;
    found = grown_found;
    free_distinct = v.free_distinct;
    free_in_range = λ i m. absurd (none_free i m);
    free_idle = λ i m. absurd (none_free i m);
  }

  grown-Inserted : Inserted t ino kind size (as_u32 t.ino.len) (grown t ino kind size)
  grown-Inserted = record {
    valid = grown-IsValid;
    now_found = find-grown ino ∙ ground arith;
    others_found = λ k ne. find-grown k ∙ ground arith;
    was_idle = beyond;
    its_ino = ground (arith, fits);
    its_kind = ground (arith, fits, v.kind_len);
    its_size = ground (arith, fits, v.size_len);
    its_mtime = ground (arith, fits, v.mtime_len);
    its_refs = ground (arith, fits, v.refs_len);
    its_unlinked = ground (arith, fits, v.unlinked_len);
    its_dirty = ground (arith, fits, v.dirty_len);
    other_rows = λ j ne.
        ground (
          arith, fits, v.kind_len, v.size_len, v.mtime_len, v.refs_len, v.unlinked_len, v.dirty_len,
        );
  }

-- On a valid table with fewer than 2^32 slots, an insertion takes a slot that no inode has. The
-- inode is found there with the given kind and size, the epoch as its time, no handles and no dirty
-- chunks, and not unlinked. All other inodes are found as before, all other slots keep their
-- columns, and the table stays valid.
pub insert_inode_lem :
    (t : OpenInodes) (ino size : ℕ) (kind : FileKind)
    → IsValid t
    → t.ino.len < 2 ^ 32
    → Inserted t ino kind size (insert t ino kind size).0 (insert t ino kind size).1
insert_inode_lem t ino size kind v room = elim (free-cases t.free) [
  | inl e ↦ rw (insert-grown t ino size kind e) (grown-Inserted t ino size kind v e room)
  | inr (slot, rest, e) ↦
      rw (insert-reused t slot ino size rest kind e) (reused-Inserted t slot ino size rest kind v e)
]
