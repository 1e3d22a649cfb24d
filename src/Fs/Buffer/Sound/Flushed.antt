-- ===== src/Fs/Buffer/Sound/Flushed.antt =====
-- A flush keeps the invariant, and so does freeing a slot that nothing needs.
use vibedbfs.Prelude.{
  ℕ, ◌+◌, ◌≤◌, ◌<◌, ◌≡◌, ◌≢◌, refl, ◌∙◌, sym, [], ◌∷◌, map, Option, none, some, true, false, ◌==◌,
  Bytes, arith, Bool-cases, Option-cases, inl, inr, ap, All, is_empty,
}
use vibedbfs.Arena.{ChunkArena, chunk}
use vibedbfs.Arena.Slots.{in_use}
use vibedbfs.Arena.Dirty.{DirtyIdx, release_into}
use vibedbfs.Arena.Dirty.Order.{Ascending, slot_of, slot_of_below}
use vibedbfs.Arena.Dirty.Held.{AllReleased, release_into_lem}
use vibedbfs.OpenTable.Inodes.{find}
use vibedbfs.Db.{Engine}
use vibedbfs.Db.Keys.{max_chunks, max_ino, max_file_size, chunk_key}
use vibedbfs.Db.Rows.{upsert_chunk, set_size}
use vibedbfs.Db.Files.{put_chunks}
use vibedbfs.Db.Files.Writes.{key_eq}
use vibedbfs.Fs.{Fs}
use vibedbfs.Fs.Flush.{Unlinked, flush_slot, cleaned}
use vibedbfs.Fs.Flush.Transparent.{
  stored_len, IsBuffered, flushed, flush-cases, cleaned_byte, stored_lem, release_into-bytes,
}
use vibedbfs.Fs.Buffer.Sound.{IsSound, nowhere, dirty_at, content, Unnoticed, Kept}

All-of-slot_of :
    (P : ℕ × ℕ → Type 0) (low : ℕ) (xs : DirtyIdx)
    → Ascending low xs
    → ((k a : ℕ) → slot_of k xs ≡ some a → P (k, a))
    → All P xs
All-of-slot_of P low [] h f = tt
All-of-slot_of P low ((k, a) ∷ xs) h f = (
  f k a (ground arith),
  All-of-slot_of P (k + 1) xs h.1 (λ l b e. f l b (ground (arith, slot_of_below l (k + 1) xs h.1))),
)

pub nonempty_slot :
    (xs : DirtyIdx) → is_empty xs ≡ false → (k : ℕ) × (a : ℕ) × (slot_of k xs ≡ some a)
nonempty_slot [] e = cc
nonempty_slot ((k, a) ∷ xs) e = (k, a, ground arith)

pub empty_slot : (k : ℕ) (xs : DirtyIdx) → is_empty xs ≡ true → slot_of k xs ≡ none
empty_slot k [] e = refl
empty_slot k ((l, a) ∷ xs) e = cc

put_chunks-other :
    (arena : ChunkArena) (ino other k : ℕ) (xs : DirtyIdx) (chunks : ℕ → Option Bytes)
    → ino ≤ max_ino
    → other ≤ max_ino
    → other ≢ ino
    → k < max_chunks
    → All (λ e. e.0 < max_chunks) xs
    → put_chunks ino (map (λ e. (e.0, chunk arena e.1)) xs) chunks (chunk_key other k)
      ≡ chunks (chunk_key other k)
unfolding put_chunks upsert_chunk
put_chunks-other arena ino other k [] chunks h1 h2 ne h3 h = refl
put_chunks-other arena ino other k ((l, a) ∷ xs) chunks h1 h2 ne h3 h =
    put_chunks-other arena ino other k xs (upsert_chunk (chunk_key ino l) (chunk arena a) chunks) h1
      h2 ne h3 h.1
    ∙ rw (key_eq other k ino l h2 h3 h1 h.0) (ground arith)

pub Kept-refl : (w : ℕ) (s : Fs) → IsSound nowhere s → Kept w s s
Kept-refl w s v = record {
  sound = v;
  unnoticed = record {
    same_content = λ ino p h1 h2. refl;
    same_ino = refl;
    same_size = refl;
    same_kind = refl;
    same_closing = refl;
  };
  still_live = λ h. h;
  no_new = λ j l e. e;
  no_other = λ ino j e. e;
}

pub Unnoticed-trans : (s t u : Fs) → Unnoticed s t → Unnoticed t u → Unnoticed s u
Unnoticed-trans s t u x y = record {
  same_content = λ ino p h1 h2. y.same_content ino p h1 h2 ∙ x.same_content ino p h1 h2;
  same_ino = y.same_ino ∙ x.same_ino;
  same_size = y.same_size ∙ x.same_size;
  same_kind = y.same_kind ∙ x.same_kind;
  same_closing = y.same_closing ∙ x.same_closing;
}

pub Kept-trans : (w : ℕ) (s t u : Fs) → Kept w s t → Kept w t u → Kept w s u
Kept-trans w s t u x y = record {
  sound = y.sound;
  unnoticed = Unnoticed-trans s t u x.unnoticed y.unnoticed;
  still_live = λ h.
      let same = ap (λ v. v.at w) x.unnoticed.same_ino in
      rw same at (y.still_live (rw same (x.still_live h)));
  no_new = λ j l e. y.no_new j l (x.no_new j l e);
  no_other = λ ino j e. x.no_other ino j (y.no_other ino j e);
}

-- A slot with dirty chunks is the one of its inode.
pub dirty_live :
    (s : Fs) (i : ℕ)
    → IsSound nowhere s
    → is_empty (s.table.inodes.dirty.at i) ≡ false
    → find s.table.inodes (s.table.inodes.ino.at i) ≡ some i
dirty_live s i v e = let (k, a, f) = nonempty_slot (s.table.inodes.dirty.at i) e in v.live i k a f

module _ (s : Fs) (i : ℕ) (v : IsSound nowhere s)
    (is_live : find s.table.inodes (s.table.inodes.ino.at i) ≡ some i) where
  pub alone :
      (j : ℕ)
      → find s.table.inodes (s.table.inodes.ino.at j) ≡ some j
      → (s.table.inodes.ino.at j == s.table.inodes.ino.at i) ≡ (j == i)
  alone j h = elim (Bool-cases (s.table.inodes.ino.at j == s.table.inodes.ino.at i)) [
    | inl same ↦
        let e : s.table.inodes.ino.at j ≡ s.table.inodes.ino.at i = ground arith in
        let ji : some j ≡ some i = sym h ∙ ap (find s.table.inodes) e ∙ is_live in ground arith
    | inr other ↦ ground arith
  ]

  is_buffered : IsBuffered s i
  is_buffered = record {
    ino_fits = v.inos_fit i;
    sorted = v.sorted i;
    chunks =
        All-of-slot_of _ 0 (s.table.inodes.dirty.at i) (v.sorted i)
          (λ k a e. (v.chunk_fits i k a e, v.hides i k a e refl));
  }

  released :
      AllReleased
        (s.table.inodes.dirty.at i)
        s.table.arena
        (release_into (s.table.inodes.dirty.at i) s.table.arena)
  released =
      release_into_lem 0 (s.table.inodes.dirty.at i) s.table.arena v.arena_valid (v.sorted i)
        (record {
          owned = λ k x e. v.owned i k x e;
          apart = λ k l x e f. (v.apart i k i l x e f).1;
        })

  cleaned_at :
      (j l b : ℕ)
      → dirty_at (cleaned s i (flushed s i)) j l ≡ some b
      → (j ≢ i) × (dirty_at s j l ≡ some b)
  cleaned_at j l b e = elim (Bool-cases (j == i)) [
    | inl same ↦ absurd (ground arith)
    | inr other ↦ (ground arith, rw other at e)
  ]

  cleaned_owned :
      (j l b : ℕ)
      → dirty_at (cleaned s i (flushed s i)) j l ≡ some b
      → in_use (cleaned s i (flushed s i)).table.arena b ≡ true
  cleaned_owned j l b e =
      let old = cleaned_at j l b e in
      released.others b (λ k f. old.0 (v.apart j l i k b old.1 f).0) ∙ v.owned j l b old.1

  cleaned_hides :
      (j l b : ℕ)
      → dirty_at (cleaned s i (flushed s i)) j l ≡ some b
      → stored_len (flushed s i).file_chunks (s.table.inodes.ino.at j) l
        ≤ (cleaned s i (flushed s i)).table.arena.len.at b
  unfolding set_size
  cleaned_hides j l b e =
      let old = cleaned_at j l b e in
      let other : s.table.inodes.ino.at j ≢ s.table.inodes.ino.at i =
        λ same. absurd (let a = alone j (v.live j l b old.1) in old.0 (ground (arith, a))) in
      let same_chunk =
        put_chunks-other s.table.arena (s.table.inodes.ino.at i) (s.table.inodes.ino.at j) l
          (s.table.inodes.dirty.at i) s.tables.file_chunks (v.inos_fit i) (v.inos_fit j) other
          (v.chunk_fits j l b old.1)
          (All-of-slot_of _ 0 (s.table.inodes.dirty.at i) (v.sorted i)
            (λ k a f. v.chunk_fits i k a f)) in
      rw (same_chunk, (release_into-bytes (s.table.inodes.dirty.at i) s.table.arena).1)
        (v.hides j l b old.1 refl)

  cleaned-IsSound : IsSound nowhere (cleaned s i (flushed s i))
  unfolding find
  cleaned-IsSound = record {
    arena_valid = released.valid;
    slots_fit =
        λ a. rw (release_into-bytes (s.table.inodes.dirty.at i) s.table.arena).1 (v.slots_fit a);
    inos_fit = v.inos_fit;
    found = v.found;
    live = λ j l b e. v.live j l b (cleaned_at j l b e).1;
    sorted = λ j. elim (Bool-cases (j == i)) [
      | inl same ↦ rw same tt
      | inr other ↦ rw other (v.sorted j)
    ];
    chunk_fits = λ j l b e. v.chunk_fits j l b (cleaned_at j l b e).1;
    owned = cleaned_owned;
    apart = λ j l m n b e f. v.apart j l m n b (cleaned_at j l b e).1 (cleaned_at m n b f).1;
    hides = λ j l b e h. cleaned_hides j l b e;
  }

  content-cleaned :
      (ino p : ℕ)
      → ino ≤ max_ino
      → p < max_file_size
      → content (cleaned s i (flushed s i)) ino p ≡ content s ino p
  unfolding set_size find
  content-cleaned ino p h1 h2 = elim (Option-cases (find s.table.inodes ino)) [
    | inl closed ↦
        let other : ino ≢ s.table.inodes.ino.at i = λ same.
          absurd (
            let both : none ≡ some i = sym closed ∙ ap (find s.table.inodes) same ∙ is_live in
            cc) in
        let off : (ino == s.table.inodes.ino.at i) ≡ false = ground arith in
        rw closed (stored_lem s i ino p is_buffered h1 h2 ∙ rw off refl)
    | inr (j, e) ↦
        let same = v.found ino j e in
        rw e (
          cleaned_byte s i j p (flushed s i) is_buffered (v.inos_fit j)
            (alone j (ap (find s.table.inodes) same ∙ e)) h2 refl)
  ]

  pub cleaned-Kept : (w : ℕ) → Kept w s (cleaned s i (flushed s i))
  unfolding find
  cleaned-Kept w = record {
    sound = cleaned-IsSound;
    unnoticed = record {
      same_content = content-cleaned;
      same_ino = refl;
      same_size = refl;
      same_kind = refl;
      same_closing = refl;
    };
    still_live = λ h. h;
    no_new =
        λ j l e. elim (Bool-cases (j == i)) [ inl same ↦ rw same refl | inr other ↦ rw other e ];
    no_other = λ ino j e. e;
  }

-- A flush keeps the invariant and no reader sees another byte, whatever its outcome.
pub flush_slot-Kept :
    (E : Engine) (w i : ℕ) (u : Unlinked) (s : Fs)
    → IsSound nowhere s
    → Kept w s (flush_slot E i u s).1
unfolding flush_slot
flush_slot-Kept E w i u s v = elim (Bool-cases (is_empty (s.table.inodes.dirty.at i))) [
  | inl clean ↦ rw clean (Kept-refl w s v)
  | inr dirty ↦ elim (flush-cases E s i u) [
    | inl (r, e) ↦ rw e (Kept-refl w s v)
    | inr e ↦ rw e (cleaned-Kept s i v (dirty_live s i v dirty) w)
  ]
]
