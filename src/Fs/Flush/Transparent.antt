-- ===== src/Fs/Flush/Transparent.antt =====
-- A flush moves bytes from the buffer to the tables, and no reader notices.
use vibedbfs.Prelude.{
  ℕ, ◌+◌, ◌/◌, ◌%◌, ◌≤◌, ◌<◌, min, ◌≡◌, refl, ◌∙◌, [], ◌∷◌, map, Option, none, some, ◌&&◌, ◌||◌,
  ◌==◌, if◌then◌else◌, Bytes, byte, Result, ok, err, arith, Bool-cases, Option-cases, inl, inr, ◌⊎◌,
  All, is_empty,
}
use vibedbfs.Arena.{ChunkArena, chunk_size, chunk, release}
use vibedbfs.Arena.Dirty.{DirtyIdx, release_into}
use vibedbfs.Arena.Dirty.Order.{Ascending, IsSorted, slot_of, slot_of_below}
use vibedbfs.Db.{Tables, Engine}
use vibedbfs.Db.Keys.{max_chunks, max_ino, max_file_size, chunk_key}
use vibedbfs.Db.Rows.{upsert_chunk, set_size}
use vibedbfs.Db.Files.{put_chunks, replace_chunks}
use vibedbfs.Db.Files.Contents.{stored_byte}
use vibedbfs.Db.Files.Writes.{upsert_byte}
use vibedbfs.Fs.{Fs, Errno, errno_from_db_error}
use vibedbfs.Fs.Flush.{Unlinked, is_skip, flush_slot, dirty_chunks, cleaned}
use vibedbfs.Fs.Buffer.View.{laid, file_byte}

-- How much of a chunk a reader can take from storage.
abbrev pub usable_len : Option Bytes → ℕ
usable_len none = 0
usable_len (some b) = min b.len chunk_size

abbrev pub stored_len : (ℕ → Option Bytes) → ℕ → ℕ → ℕ
stored_len chunks ino k = usable_len (chunks (chunk_key ino k))

-- The dirty chunks of a slot are in order and within the limits, and none is shorter than the
-- stored chunk that it hides.
pub record IsBuffered (s : Fs) (i : ℕ) : Type 0 where
  pub ino_fits : s.table.inodes.ino.at i ≤ max_ino
  pub sorted : IsSorted (s.table.inodes.dirty.at i)
  pub chunks :
      All
        (λ e.
          (e.0 < max_chunks)
          × (stored_len s.tables.file_chunks (s.table.inodes.ino.at i) e.0
              ≤ s.table.arena.len.at e.1))
        (s.table.inodes.dirty.at i)

-- A dirty chunk's byte in place of the old one.
abbrev placed : ChunkArena → Option ℕ → ℕ → ℕ → ℕ
placed arena none r old = old
placed arena (some a) r old = byte (chunk arena a) r

put_chunks_lem :
    (arena : ChunkArena) (ino other p low : ℕ) (xs : DirtyIdx) (chunks : ℕ → Option Bytes)
    → ino ≤ max_ino
    → other ≤ max_ino
    → p < max_file_size
    → Ascending low xs
    → All (λ e. e.0 < max_chunks) xs
    → stored_byte (put_chunks ino (map (λ e. (e.0, chunk arena e.1)) xs) chunks) other p ≡ (
        if other == ino
        then placed arena
            (slot_of (p / chunk_size) xs)
            (p % chunk_size)
            (stored_byte chunks other p)
        else stored_byte chunks other p)
unfolding put_chunks
put_chunks_lem arena ino other p low [] chunks h1 h2 h3 h b = ground arith
put_chunks_lem arena ino other p low ((k, a) ∷ xs) chunks h1 h2 h3 h b =
    put_chunks_lem arena ino other p (k + 1) xs
      (upsert_chunk (chunk_key ino k) (chunk arena a) chunks) h1 h2 h3 h.1 b.1
    ∙ ground (
      arith,
      upsert_byte chunks (chunk arena a) ino k other p h1 b.0 h2 h3,
      slot_of_below (p / chunk_size) (k + 1) xs h.1,
    )

All-slot_of :
    (P : ℕ × ℕ → Type 0) (k a : ℕ) (xs : DirtyIdx) → All P xs → slot_of k xs ≡ some a → P (k, a)
All-slot_of P k a [] h e = ground arith
All-slot_of P k a ((l, b) ∷ xs) h e = elim (Bool-cases (k == l)) [
  | inl same ↦ let kl : k ≡ l = ground arith in let ab : a ≡ b = ground arith in rw (kl, ab) h.0
  | inr other ↦ All-slot_of P k a xs h.1 (ground arith)
]

All-first :
    (P : ℕ → Type 0) (Q : ℕ × ℕ → Type 0) (xs : DirtyIdx)
    → All (λ e. P e.0 × Q e) xs
    → All (λ e. P e.0) xs
All-first P Q [] h = tt
All-first P Q (x ∷ xs) h = (h.0.0, All-first P Q xs h.1)

pub release_into-bytes :
    (xs : DirtyIdx) (a : ChunkArena)
    → ((release_into xs a).bytes ≡ a.bytes) × ((release_into xs a).len ≡ a.len)
unfolding release_into release
release_into-bytes [] a = (refl, refl)
release_into-bytes ((k, x) ∷ xs) a = release_into-bytes xs (release a x)

pub hidden_byte :
    (chunks : ℕ → Option Bytes) (ino p n : ℕ)
    → stored_len chunks ino (p / chunk_size) ≤ n
    → n ≤ p % chunk_size
    → stored_byte chunks ino p ≡ 0
hidden_byte chunks ino p n h r = elim (Option-cases (chunks (chunk_key ino (p / chunk_size)))) [
  | inl e ↦ rw e refl
  | inr (b, e) ↦ let short : min b.len chunk_size ≤ n = ground (arith, e) in rw e (ground arith)
]

-- The dirty chunk hides every byte of the stored one.
placed-laid :
    (s : Fs) (i p : ℕ)
    → IsBuffered s i
    → let o = slot_of (p / chunk_size) (s.table.inodes.dirty.at i) in
      let old = stored_byte s.tables.file_chunks (s.table.inodes.ino.at i) p in
      placed s.table.arena o (p % chunk_size) old ≡ laid s.table.arena o (p % chunk_size) old
placed-laid s i p v = elim (Option-cases (slot_of (p / chunk_size) (s.table.inodes.dirty.at i))) [
  | inl e ↦ rw e refl
  | inr (a, e) ↦
      let h =
        All-slot_of
          (λ e.
            (e.0 < max_chunks)
            × (stored_len s.tables.file_chunks (s.table.inodes.ino.at i) e.0
                ≤ s.table.arena.len.at e.1))
          (p / chunk_size) a (s.table.inodes.dirty.at i) v.chunks e in
      let hidden =
        hidden_byte s.tables.file_chunks (s.table.inodes.ino.at i) p (s.table.arena.len.at a) h.1 in
      rw e (unfold chunk in ground (arith, hidden))
]

-- The tables that a flush of slot `i` stores.
abbrev pub flushed : Fs → ℕ → Tables
flushed s i =
    let inodes = s.table.inodes in
    set_size (inodes.ino.at i) (inodes.size.at i) (inodes.mtime.at i) (record (s.tables) {
      file_chunks = put_chunks (inodes.ino.at i) (dirty_chunks s i) s.tables.file_chunks;
    })

-- What a flush of slot `i` does: it stores the dirty chunks and forgets them, or changes nothing.
pub flush-cases :
    (E : Engine) (s : Fs) (i : ℕ) (u : Unlinked)
    → ((r : Result Errno (Unit {0})) × (flush_slot E i u s ≡ (r, s)))
      ⊎ (flush_slot E i u s ≡ (ok tt, cleaned s i (flushed s i)))
unfolding flush_slot replace_chunks
flush-cases E s i u =
    let inodes = s.table.inodes in
    elim (Bool-cases (is_empty (inodes.dirty.at i) || (inodes.unlinked.at i && is_skip u))) [
      | inl e ↦ inl (ok tt, rw e refl)
      | inr e ↦ elim (Option-cases (E.commit_failure (flushed s i))) [
        | inl f ↦ inr (rw (e, f) refl)
        | inr (d, f) ↦ inl (err (errno_from_db_error d), rw (e, f) refl)
      ]
    ]

laid-same :
    (a b : ChunkArena) (o : Option ℕ) (r old : ℕ)
    → (b.bytes ≡ a.bytes) × (b.len ≡ a.len)
    → laid b o r old ≡ laid a o r old
laid-same a b none r old h = refl
laid-same a b (some x) r old h = rw (h.0, h.1) refl

pub stored_lem :
    (s : Fs) (i other p : ℕ)
    → IsBuffered s i
    → other ≤ max_ino
    → p < max_file_size
    → let xs = s.table.inodes.dirty.at i in
      let ino = s.table.inodes.ino.at i in
      let old = stored_byte s.tables.file_chunks other p in
      stored_byte (put_chunks ino (dirty_chunks s i) s.tables.file_chunks) other p ≡ (
        if other == ino
        then laid s.table.arena (slot_of (p / chunk_size) xs) (p % chunk_size) old
        else old)
stored_lem s i other p v h1 h2 =
    let xs = s.table.inodes.dirty.at i in
    let ino = s.table.inodes.ino.at i in
    let put =
      put_chunks_lem s.table.arena ino other p 0 xs s.tables.file_chunks v.ino_fits h1 h2 v.sorted (
        All-first (λ k. k < max_chunks)
          (λ e. stored_len s.tables.file_chunks ino e.0 ≤ s.table.arena.len.at e.1) xs v.chunks) in
    elim (Bool-cases (other == ino)) [
      | inl e ↦ let same : other ≡ ino = ground arith in put ∙ rw (e, same) (placed-laid s i p v)
      | inr e ↦ put ∙ rw e refl
    ]

pub cleaned_byte :
    (s : Fs) (i j p : ℕ) (t : Tables)
    → IsBuffered s i
    → s.table.inodes.ino.at j ≤ max_ino
    → (s.table.inodes.ino.at j == s.table.inodes.ino.at i) ≡ (j == i)
    → p < max_file_size
    → t.file_chunks ≡ put_chunks (s.table.inodes.ino.at i) (dirty_chunks s i) s.tables.file_chunks
    → file_byte (cleaned s i t) j p ≡ file_byte s j p
cleaned_byte s i j p t v fits alone h e =
    let stored = stored_lem s i (s.table.inodes.ino.at j) p v fits h in
    laid-same s.table.arena (release_into (s.table.inodes.dirty.at i) s.table.arena)
      (slot_of (p / chunk_size) ((cleaned s i t).table.inodes.dirty.at j)) (p % chunk_size)
      (stored_byte t.file_chunks (s.table.inodes.ino.at j) p)
      (release_into-bytes (s.table.inodes.dirty.at i) s.table.arena)
    ∙ rw (e, stored, alone)
        (elim (Bool-cases (j == i)) [
          | inl same ↦ let ji : j ≡ i = ground arith in rw (same, ji) refl
          | inr other ↦ rw other refl
        ])
