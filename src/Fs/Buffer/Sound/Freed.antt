-- ===== src/Fs/Buffer/Sound/Freed.antt =====
-- Freeing a slot that nothing needs, and the eviction that makes room in the arena.
use vibedbfs.Prelude.{
  ℕ, ◌/◌, ◌%◌, ◌≡◌, ◌≢◌, refl, ◌∙◌, sym, [], ◌∷◌, none, some, true, ◌&&◌, ◌==◌, if◌then◌else◌,
  arith, Bool-cases, Option-cases, inl, inr, ap, List, is_empty,
}
use vibedbfs.Arena.{chunk_size}
use vibedbfs.OpenTable.Inodes.{find, remove, lookup_ino, remove_ino}
use vibedbfs.Db.Files.Contents.{stored_byte}
use vibedbfs.Fs.{Fs}
use vibedbfs.Fs.Flush.{free_if_idle, with_inodes}
use vibedbfs.Fs.Buffer.View.{file_byte, laid}
use vibedbfs.Fs.Buffer.Sound.{IsSound, nowhere, dirty_at, content, Kept}
use vibedbfs.Fs.Buffer.Sound.Flushed.{Kept-refl, empty_slot}

lookup_ino-remove :
    (ino k : ℕ) (xs : List (ℕ × ℕ))
    → lookup_ino ino (remove_ino k xs) ≡ (if ino == k then none else lookup_ino ino xs)
lookup_ino-remove ino k [] = ground arith
lookup_ino-remove ino k ((l, i) ∷ xs) = ground (arith, lookup_ino-remove ino k xs)

-- Freeing a live slot takes its inode out of the map, and no other.
pub find-remove :
    (s : Fs) (i ino : ℕ)
    → find (remove s.table.inodes i) ino
      ≡ (if ino == s.table.inodes.ino.at i then none else find s.table.inodes ino)
unfolding find remove
find-remove s i ino = lookup_ino-remove ino (s.table.inodes.ino.at i) s.table.inodes.by_ino

module _ (s : Fs) (i : ℕ) (v : IsSound nowhere s)
    (is_live : find s.table.inodes (s.table.inodes.ino.at i) ≡ some i)
    (clean : is_empty (s.table.inodes.dirty.at i) ≡ true) where
  -- A live slot is found under its own inode number only.
  removed :
      (j : ℕ)
      → j ≢ i
      → find s.table.inodes (s.table.inodes.ino.at j) ≡ some j
      → find (remove s.table.inodes i) (s.table.inodes.ino.at j) ≡ some j
  removed j ne h =
      let other : s.table.inodes.ino.at j ≢ s.table.inodes.ino.at i = λ same. absurd (
        let both : some j ≡ some i = sym h ∙ ap (find s.table.inodes) same ∙ is_live in
        ne (ground arith)) in
      find-remove s i (s.table.inodes.ino.at j) ∙ ground (arith, h)

  removed_found :
      (ino j : ℕ)
      → find (remove s.table.inodes i) ino ≡ some j
      → (ino ≢ s.table.inodes.ino.at i) × (find s.table.inodes ino ≡ some j)
  removed_found ino j e =
      let f = find-remove s i ino in (ground (arith, e, f), ground (arith, e, f))

  removed-IsSound : IsSound nowhere (with_inodes s (remove s.table.inodes i))
  unfolding remove
  removed-IsSound = record {
    arena_valid = v.arena_valid;
    slots_fit = v.slots_fit;
    inos_fit = v.inos_fit;
    found = λ ino j e. v.found ino j (removed_found ino j e).1;
    live = λ j l b e.
        removed j
          (λ same.
            let gone = empty_slot l (s.table.inodes.dirty.at i) clean in
            absurd
              (let at_i : dirty_at s i l ≡ some b = ap (λ m. dirty_at s m l) (sym same) ∙ e in cc))
          (v.live j l b e);
    sorted = v.sorted;
    chunk_fits = v.chunk_fits;
    owned = v.owned;
    apart = v.apart;
    hides = v.hides;
  }

  clean_byte :
      (p : ℕ) → file_byte s i p ≡ stored_byte s.tables.file_chunks (s.table.inodes.ino.at i) p
  clean_byte p =
      ap
        (λ o.
          laid s.table.arena o (p % chunk_size)
            (stored_byte s.tables.file_chunks (s.table.inodes.ino.at i) p))
        (empty_slot (p / chunk_size) (s.table.inodes.dirty.at i) clean)

  removed_content :
      (ino p : ℕ) → content (with_inodes s (remove s.table.inodes i)) ino p ≡ content s ino p
  unfolding remove
  removed_content ino p = elim (Bool-cases (ino == s.table.inodes.ino.at i)) [
    | inl same ↦
        let e : ino ≡ s.table.inodes.ino.at i = ground arith in
        let gone : find (remove s.table.inodes i) ino ≡ none = find-remove s i ino ∙ rw same refl in
        rw gone (rw e (rw is_live (sym (clean_byte p))))
    | inr other ↦
        let kept : find (remove s.table.inodes i) ino ≡ find s.table.inodes ino =
          find-remove s i ino ∙ rw other refl in
        rw kept (elim (Option-cases (find s.table.inodes ino)) [
          | inl e ↦ rw e refl
          | inr (j, e) ↦ rw e refl
        ])
  ]

  removed-Kept : (w : ℕ) → w ≢ i → Kept w s (with_inodes s (remove s.table.inodes i))
  unfolding remove
  removed-Kept w ne = record {
    sound = removed-IsSound;
    unnoticed = record {
      same_content = λ ino p h1 h2. removed_content ino p;
      same_ino = refl;
      same_size = refl;
      same_kind = refl;
      same_closing = refl;
    };
    still_live = λ h. removed w ne h;
    no_new = λ j l e. e;
    no_other = λ ino j e. (removed_found ino j e).1;
  }

-- Freeing an idle slot keeps the invariant and goes unnoticed.
pub free_if_idle-Kept :
    (w i : ℕ) (s : Fs)
    → IsSound nowhere s
    → find s.table.inodes (s.table.inodes.ino.at i) ≡ some i
    → w ≢ i
    → Kept w s (free_if_idle i s)
unfolding free_if_idle
free_if_idle-Kept w i s v is_live ne =
    elim (Bool-cases (s.table.inodes.refs.at i == 0 && is_empty (s.table.inodes.dirty.at i))) [
      | inl idle ↦ rw idle (removed-Kept s i v is_live (ground arith) w ne)
      | inr busy ↦ rw busy (Kept-refl w s v)
    ]
