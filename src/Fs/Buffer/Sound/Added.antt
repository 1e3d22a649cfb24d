-- ===== src/Fs/Buffer/Sound/Added.antt =====
-- A chunk that becomes dirty before anything is written to it: no reader notices.
use vibedbfs.Prelude.{
  ℕ, ◌/◌, ◌%◌, ◌≤◌, ◌<◌, ◌≡◌, ◌⊎◌, refl, ◌∙◌, sym, none, some, Bool, true, false, ◌&&◌, ◌==◌,
  if◌then◌else◌, arith, Bool-cases, Option-cases, Result-cases, inl, inr, ap,
}
use vibedbfs.Arena.{chunk_size}
use vibedbfs.Arena.Slots.{in_use}
use vibedbfs.Arena.Dirty
use vibedbfs.Arena.Dirty.{DirtyIdx}
use vibedbfs.Arena.Dirty.Order.{IsSorted, slot_of, insert_lem, find-slot_of}
use vibedbfs.OpenTable.Inodes.{find}
use vibedbfs.Db.Keys.{max_chunks}
use vibedbfs.Db.Files.Contents.{stored_byte}
use vibedbfs.Fs.{Fs}
use vibedbfs.Fs.Flush.Transparent.{stored_len}
use vibedbfs.Fs.Buffer.{add_dirty, position_err}
use vibedbfs.Fs.Buffer.View.{file_byte, laid}
use vibedbfs.Fs.Buffer.Sound.{IsSound, nowhere, dirty_at, IsSpare, Unnoticed}

-- The one chunk that may be short, if a whole chunk is about to be written.
abbrev pub only : Bool → ℕ → ℕ → ℕ → ℕ → Bool
only full i k j l = full && (j == i && l == k)

insert_new :
    (k a : ℕ) (xs : DirtyIdx)
    → IsSorted xs
    → slot_of k xs ≡ none
    → IsSorted (Dirty.insert (position_err (Dirty.find k xs)) k a xs)
      × ((l : ℕ)
          → slot_of l (Dirty.insert (position_err (Dirty.find k xs)) k a xs)
            ≡ (if l == k then some a else slot_of l xs))
insert_new k a xs h e = elim (Result-cases (Dirty.find k xs)) [
  | inl (p, f) ↦ absurd (let found = find-slot_of k xs h in ground (arith, found, f))
  | inr (p, f) ↦ rw f (insert_lem k a p xs h f)
]

module _ (s : Fs) (i k a : ℕ) (full : Bool) (v : IsSound nowhere s) (spare : IsSpare s a)
    (used : in_use s.table.arena a ≡ true)
    (is_live : find s.table.inodes (s.table.inodes.ino.at i) ≡ some i) (fits : k < max_chunks)
    (clean : dirty_at s i k ≡ none)
    (covers : full ≡ false
      → stored_len s.tables.file_chunks (s.table.inodes.ino.at i) k ≤ s.table.arena.len.at a)
    (transparent : (p : ℕ)
      → p / chunk_size ≡ k
      → laid s.table.arena
          (some a)
          (p % chunk_size)
          (stored_byte s.tables.file_chunks (s.table.inodes.ino.at i) p)
        ≡ stored_byte s.tables.file_chunks (s.table.inodes.ino.at i) p) where
  added_at :
      (j l : ℕ)
      → dirty_at (add_dirty i k a s) j l ≡ (if (j == i) && (l == k) then some a else dirty_at s j l)
  unfolding add_dirty
  added_at j l = elim (Bool-cases (j == i)) [
    | inl same ↦
        let ji : j ≡ i = ground arith in
        rw (same, ji) ((insert_new k a (s.table.inodes.dirty.at i) (v.sorted i) clean).1 l)
    | inr other ↦ rw other refl
  ]

  added-IsSorted : (j : ℕ) → IsSorted ((add_dirty i k a s).table.inodes.dirty.at j)
  unfolding add_dirty
  added-IsSorted j = elim (Bool-cases (j == i)) [
    | inl same ↦ rw same ((insert_new k a (s.table.inodes.dirty.at i) (v.sorted i) clean).0)
    | inr other ↦ rw other (v.sorted j)
  ]

  -- A dirty chunk is the new one or an old one.
  added-cases :
      (j l b : ℕ)
      → dirty_at (add_dirty i k a s) j l ≡ some b
      → ((j ≡ i) × (l ≡ k) × (b ≡ a)) ⊎ (dirty_at s j l ≡ some b)
  added-cases j l b e = elim (Bool-cases ((j == i) && (l == k))) [
    | inl new ↦ let h = added_at j l in inl (ground arith, ground arith, ground arith)
    | inr old ↦ let h = added_at j l in inr (ground arith)
  ]

  pub add_dirty-at : dirty_at (add_dirty i k a s) i k ≡ some a
  add_dirty-at = added_at i k ∙ ground arith

  pub add_dirty-IsSound : IsSound (only full i k) (add_dirty i k a s)
  unfolding add_dirty find
  add_dirty-IsSound = record {
    arena_valid = v.arena_valid;
    slots_fit = v.slots_fit;
    inos_fit = v.inos_fit;
    found = v.found;
    live = λ j l b e. elim (added-cases j l b e) [
      | inl new ↦ rw (new.0) is_live
      | inr old ↦ v.live j l b old
    ];
    sorted = added-IsSorted;
    chunk_fits = λ j l b e. elim (added-cases j l b e) [
      | inl new ↦ rw (new.1) fits
      | inr old ↦ v.chunk_fits j l b old
    ];
    owned = λ j l b e. elim (added-cases j l b e) [
      | inl new ↦ rw (new.2) used
      | inr old ↦ v.owned j l b old
    ];
    apart = λ j l m n b e f. elim (added-cases j l b e) [
      | inl x ↦ elim (added-cases m n b f) [
        | inl y ↦ (x.0 ∙ sym y.0, x.1 ∙ sym y.1)
        | inr y ↦ absurd (spare m n (y ∙ ap some x.2))
      ]
      | inr x ↦ elim (added-cases m n b f) [
        | inl y ↦ absurd (spare j l (x ∙ ap some y.2))
        | inr y ↦ v.apart j l m n b x y
      ]
    ];
    hides = λ j l b e h. elim (added-cases j l b e) [
      | inl new ↦
          let partial : full ≡ false = ground (arith, new.0, new.1) in
          rw (new.0, new.1, new.2) (covers partial)
      | inr old ↦ v.hides j l b old refl
    ];
  }

  added_byte : (j p : ℕ) → file_byte (add_dirty i k a s) j p ≡ file_byte s j p
  unfolding add_dirty
  added_byte j p =
      ap
        (λ o.
          laid s.table.arena o (p % chunk_size)
            (stored_byte s.tables.file_chunks (s.table.inodes.ino.at j) p))
        (added_at j (p / chunk_size))
      ∙ elim (Bool-cases ((j == i) && (p / chunk_size == k))) [
        | inl here ↦
            let ji : j ≡ i = ground arith in
            let pk : p / chunk_size ≡ k = ground arith in
            rw (here, ji) (transparent p pk ∙ rw (pk, clean) refl)
        | inr elsewhere ↦ rw elsewhere refl
      ]

  pub add_dirty-Unnoticed : Unnoticed s (add_dirty i k a s)
  unfolding add_dirty find
  add_dirty-Unnoticed = record {
    same_content = λ ino p h1 h2. elim (Option-cases (find s.table.inodes ino)) [
      | inl e ↦ rw e refl
      | inr (j, e) ↦ rw e (added_byte j p)
    ];
    same_ino = refl;
    same_size = refl;
    same_kind = refl;
    same_closing = refl;
  }
