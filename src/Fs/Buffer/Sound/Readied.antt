-- ===== src/Fs/Buffer/Sound/Readied.antt =====
-- `dirty_slot` keeps the invariant: the chunk is dirty afterwards, and no reader has noticed.
use vibedbfs.Prelude.{
  ℕ, ◌/◌, ◌%◌, ◌≤◌, ◌<◌, ◌≡◌, refl, ◌∙◌, none, some, Bool, true, false, arith, Option-cases,
  Result-cases, inl, inr, ok, err, ap, Result,
}
use vibedbfs.Arena.{ChunkArena, chunk_size, release}
use vibedbfs.Arena.Slots.{in_use}
use vibedbfs.Arena.Dirty
use vibedbfs.Arena.Dirty.{slot_at}
use vibedbfs.Arena.Dirty.Order.{find-slot_of}
use vibedbfs.OpenTable.Inodes.{find}
use vibedbfs.Model.{DbError}
use vibedbfs.Db.{Engine}
use vibedbfs.Db.Keys.{max_chunks, chunk_key}
use vibedbfs.Db.Files.{read_chunk_into}
use vibedbfs.Db.Files.Contents.{stored_byte}
use vibedbfs.Fs.{Fs, Errno, and_then, errno_from_db_error}
use vibedbfs.Fs.Flush.{with_arena}
use vibedbfs.Fs.Flush.Transparent.{stored_len}
use vibedbfs.Fs.Buffer.{fill_chunk, add_dirty, dirty_slot, alloc_chunk}
use vibedbfs.Fs.Buffer.View.{laid}
use vibedbfs.Fs.Buffer.Sound.{IsSound, nowhere, dirty_at, IsSpare, Kept}
use vibedbfs.Fs.Buffer.Sound.Slots.{Differs, spare-IsSound, spare-Unnoticed}
use vibedbfs.Fs.Buffer.Sound.Added.{only, add_dirty-IsSound, add_dirty-Unnoticed, add_dirty-at}
use vibedbfs.Fs.Buffer.Sound.Flushed.{Kept-refl, Kept-trans, Unnoticed-trans}
use vibedbfs.Fs.Buffer.Sound.Room.{Gives, alloc_chunk-Gives}
use vibedbfs.Fs.Buffer.Sound.Loaded.{
  loaded, loaded-in_use, loaded-Differs, loaded_byte, loaded-len, released-Differs, Ready, Readies,
}

module _ (i k : ℕ) (full : Bool) (fits : k < max_chunks) where
  -- The chunk becomes dirty in a spare slot that shows what is stored.
  add-Ready :
      (s : Fs) (a : ℕ)
      → IsSound nowhere s
      → IsSpare s a
      → in_use s.table.arena a ≡ true
      → find s.table.inodes (s.table.inodes.ino.at i) ≡ some i
      → dirty_at s i k ≡ none
      → (full ≡ false
          → stored_len s.tables.file_chunks (s.table.inodes.ino.at i) k ≤ s.table.arena.len.at a)
      → ((p : ℕ)
          → p / chunk_size ≡ k
          → laid s.table.arena
              (some a)
              (p % chunk_size)
              (stored_byte s.tables.file_chunks (s.table.inodes.ino.at i) p)
            ≡ stored_byte s.tables.file_chunks (s.table.inodes.ino.at i) p)
      → Ready i k full s a (add_dirty i k a s)
  unfolding add_dirty find
  add-Ready s a v spare used is_live clean covers transparent = record {
    sound = add_dirty-IsSound s i k a full v spare used is_live fits clean covers transparent;
    unnoticed = add_dirty-Unnoticed s i k a full v spare used is_live fits clean covers transparent;
    is_live = is_live;
    at = add_dirty-at s i k a full v spare used is_live fits clean covers transparent;
  }

  -- First the spare slot is filled.
  filled-Ready :
      (s : Fs) (a : ℕ) (arena : ChunkArena)
      → IsSound nowhere s
      → IsSpare s a
      → Differs a s.table.arena arena
      → in_use arena a ≡ true
      → find s.table.inodes (s.table.inodes.ino.at i) ≡ some i
      → dirty_at s i k ≡ none
      → (full ≡ false
          → stored_len s.tables.file_chunks (s.table.inodes.ino.at i) k ≤ arena.len.at a)
      → ((p : ℕ)
          → p / chunk_size ≡ k
          → laid arena
              (some a)
              (p % chunk_size)
              (stored_byte s.tables.file_chunks (s.table.inodes.ino.at i) p)
            ≡ stored_byte s.tables.file_chunks (s.table.inodes.ino.at i) p)
      → Ready i k full s a (add_dirty i k a (with_arena s arena))
  filled-Ready s a arena v spare d used is_live clean covers transparent =
      let r =
        add-Ready (with_arena s arena) a (spare-IsSound nowhere s a arena v d spare) spare used
          is_live clean covers transparent in
      record {
        sound = r.sound;
        unnoticed =
            Unnoticed-trans s (with_arena s arena) (add_dirty i k a (with_arena s arena))
              (spare-Unnoticed nowhere s a arena v d spare) r.unnoticed;
        is_live = r.is_live;
        at = r.at;
      }

fill_works :
    (E : Engine) (i k a : ℕ) (s : Fs)
    → E.query_failure s.tables ≡ none
    → fill_chunk E i k false a s ≡ (
      ok tt,
      with_arena s
          (loaded s.table.arena a (s.tables.file_chunks (chunk_key (s.table.inodes.ino.at i) k))),
    )
unfolding fill_chunk read_chunk_into
fill_works E i k a s e = rw (e, fill_chunk)

fill_fails :
    (E : Engine) (i k a : ℕ) (s : Fs) (d : DbError)
    → E.query_failure s.tables ≡ some d
    → fill_chunk E i k false a s
      ≡ (err (errno_from_db_error d), with_arena s (release s.table.arena a))
unfolding fill_chunk read_chunk_into
fill_fails E i k a s d e = rw (e, fill_chunk)

slot_found :
    (E : Engine) (i k p : ℕ) (full : Bool) (s : Fs)
    → Dirty.find k (s.table.inodes.dirty.at i) ≡ ok p
    → dirty_slot E i k full s ≡ (ok (slot_at (s.table.inodes.dirty.at i) p), s)
unfolding dirty_slot
slot_found E i k p full s e = rw (e, dirty_slot)

slot_made :
    (E : Engine) (i k p : ℕ) (full : Bool) (s : Fs)
    → Dirty.find k (s.table.inodes.dirty.at i) ≡ err p
    → dirty_slot E i k full s
      ≡ and_then
          (alloc_chunk E i s)
          (λ a s1. and_then (fill_chunk E i k full a s1) (λ u s2. (ok a, add_dirty i k a s2)))
unfolding dirty_slot
slot_made E i k p full s e = rw (e, dirty_slot)

fill-Readies :
    (E : Engine) (i k : ℕ) (full : Bool) (s : Fs) (a : ℕ)
    → k < max_chunks
    → IsSound nowhere s
    → IsSpare s a
    → in_use s.table.arena a ≡ true
    → s.table.arena.len.at a ≡ 0
    → find s.table.inodes (s.table.inodes.ino.at i) ≡ some i
    → dirty_at s i k ≡ none
    → Readies i k full s (and_then (fill_chunk E i k full a s) (λ u s'. (ok a, add_dirty i k a s')))
unfolding fill_chunk read_chunk_into
fill-Readies E i k true s a fits v spare used empty is_live clean =
    add-Ready i k true fits s a v spare used is_live clean (λ e. cc) (λ p e. ground arith)
fill-Readies E i k false s a fits v spare used empty is_live clean =
    let o = s.tables.file_chunks (chunk_key (s.table.inodes.ino.at i) k) in
    elim (Option-cases (E.query_failure s.tables)) [
      | inl works ↦ rw (fill_works E i k a s works) (
          filled-Ready i k false fits s a (loaded s.table.arena a o) v spare
            (loaded-Differs s.table.arena a o v.arena_valid v.slots_fit)
            (loaded-in_use s.table.arena a o ∙ used) is_live clean
            (λ e. loaded-len s.table.arena a o)
            (λ p e. rw e (loaded_byte s.table.arena a (p % chunk_size) o (omega arith))))
      | inr (e, fails) ↦ rw (fill_fails E i k a s e fails) (
          let d = released-Differs s.table.arena a v.arena_valid v.slots_fit used in
          record {
            sound = spare-IsSound nowhere s a (release s.table.arena a) v d spare;
            unnoticed = spare-Unnoticed nowhere s a (release s.table.arena a) v d spare;
            still_live = λ h. h;
            no_new = λ j l f. f;
            no_other = λ ino j f. f;
          })
    ]

Ready-after :
    (i k : ℕ) (full : Bool) (s t : Fs) (a : ℕ) (u : Fs)
    → Kept i s t
    → Ready i k full t a u
    → Ready i k full s a u
Ready-after i k full s t a u x r = record {
  sound = r.sound;
  unnoticed = Unnoticed-trans s t u x.unnoticed r.unnoticed;
  is_live = let same = ap (λ v. v.at i) x.unnoticed.same_ino in rw same at r.is_live;
  at = r.at;
}

Readies-after :
    (i k : ℕ) (full : Bool) (s t : Fs) (x : Result Errno ℕ × Fs)
    → Kept i s t
    → Readies i k full t x
    → Readies i k full s x
Readies-after i k full s t (err e, u) x r = Kept-trans i s t u x r
Readies-after i k full s t (ok a, u) x r = Ready-after i k full s t a u x r

after_alloc :
    (E : Engine) (i k : ℕ) (full : Bool) (s : Fs) (x : Result Errno ℕ × Fs)
    → k < max_chunks
    → find s.table.inodes (s.table.inodes.ino.at i) ≡ some i
    → dirty_at s i k ≡ none
    → Gives i s x
    → Readies i k full s (
        and_then x
          (λ a s1. and_then (fill_chunk E i k full a s1) (λ u s2. (ok a, add_dirty i k a s2))))
after_alloc E i k full s (err e, t) fits is_live clean g = g
after_alloc E i k full s (ok a, t) fits is_live clean g =
    let same = ap (λ v. v.at i) g.0.unnoticed.same_ino in
    Readies-after i k full s t _ g.0 (
      fill-Readies E i k full t a fits g.0.sound g.2 g.1 g.3 (rw same (g.0.still_live is_live))
        (g.0.no_new i k clean))

weaken : (short : ℕ → ℕ → Bool) (s : Fs) → IsSound nowhere s → IsSound short s
weaken short s v = record {
  arena_valid = v.arena_valid;
  slots_fit = v.slots_fit;
  inos_fit = v.inos_fit;
  found = v.found;
  live = v.live;
  sorted = v.sorted;
  chunk_fits = v.chunk_fits;
  owned = v.owned;
  apart = v.apart;
  hides = λ i k a e h. v.hides i k a e refl;
}

-- The chunk is dirty afterwards, in a slot that shows what readers saw before; or an error leaves
-- everything as it was.
pub dirty_slot-Readies :
    (E : Engine) (i k : ℕ) (full : Bool) (s : Fs)
    → k < max_chunks
    → IsSound nowhere s
    → find s.table.inodes (s.table.inodes.ino.at i) ≡ some i
    → Readies i k full s (dirty_slot E i k full s)
dirty_slot-Readies E i k full s fits v is_live =
    let xs = s.table.inodes.dirty.at i in
    let found = find-slot_of k xs (v.sorted i) in
    elim (Result-cases (Dirty.find k xs)) [
      | inl (p, e) ↦ rw (slot_found E i k p full s e) (record {
        sound = weaken (only full i k) s v;
        unnoticed = (Kept-refl i s v).unnoticed;
        is_live = is_live;
        at = found ∙ rw e refl;
      })
      | inr (p, e) ↦ rw (slot_made E i k p full s e) (
          after_alloc E i k full s (alloc_chunk E i s) fits is_live (found ∙ rw e refl)
            (alloc_chunk-Gives E i s v))
    ]
