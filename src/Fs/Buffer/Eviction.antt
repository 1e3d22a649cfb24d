-- ===== src/Fs/Buffer/Eviction.antt =====
-- The eviction loop of `alloc_chunk` ends after at most one flush.
use vibedbfs.Prelude.{
  ℕ, suc, ◌≡◌, ◌≢◌, ◌⊎◌, refl, List, [], ◌∷◌, Option, none, some, Bool, false, ◌&&◌, ◌||◌, not, leb,
  ◌==◌, if◌then◌else◌, Result, ok, err, arith, Option-cases, Result-cases, inl, inr, Vec, is_empty,
  sym, ap, ◌∙◌, length, unwrap_or,
}
use vibedbfs.Model.{DbError}
use vibedbfs.Arena
use vibedbfs.Arena.{ChunkArena}
use vibedbfs.Arena.Dirty.{DirtyIdx, release_into}
use vibedbfs.OpenTable.Inodes.{largest, largest_dirty}
use vibedbfs.Db.{Tables, Engine}
use vibedbfs.Db.Files.{replace_chunks}
use vibedbfs.Fs.{Fs, Errno, eio, errno_from_db_error}
use vibedbfs.Fs.Flush.{persist, with_arena, dirty_chunks, cleaned, flush_slot, free_if_idle}
use vibedbfs.Fs.Buffer.{evict, evicted, alloc_loop, alloc_chunk}

-- A victim has dirty chunks.
pub largest-nonempty :
    (dirty : Vec DirtyIdx) (best : Option ℕ) (xs : List (ℕ × ℕ)) (v : ℕ)
    → ((b : ℕ) → best ≡ some b → is_empty (dirty.at b) ≡ false)
    → largest dirty best xs ≡ some v
    → is_empty (dirty.at v) ≡ false
largest-nonempty dirty best [] v h e = h v e
largest-nonempty dirty none ((ino, slot) ∷ xs) v h e =
    largest-nonempty dirty (if is_empty (dirty.at slot) then none else some slot) xs v
      (λ b q. ground arith) e
largest-nonempty dirty (some b) ((ino, slot) ∷ xs) v h e =
    largest-nonempty dirty
      (if not (is_empty (dirty.at slot)) && leb (length (dirty.at b)) (length (dirty.at slot))
        then some slot
        else some b)
      xs v (λ c q. ground (arith, h b)) e

-- Releasing at least one slot leaves one to allocate.
alloc_after_release :
    (xs : DirtyIdx) (a : ChunkArena)
    → (is_empty xs ≡ false) ⊎ (is_empty a.free ≡ false)
    → Arena.alloc (release_into xs a) ≢ none
unfolding release_into Arena.release Arena.alloc
alloc_after_release [] a (inl h) e = cc
alloc_after_release [] a (inr h) e = ground arith
alloc_after_release ((k, slot) ∷ xs) a h e =
    alloc_after_release xs (Arena.release a slot) (inr refl) e

persist_test :
    (dirty : DirtyIdx) (unlinked : Bool)
    → is_empty dirty ≡ false
    → (is_empty dirty || (unlinked && false)) ≡ false
persist_test dirty unlinked h = ground arith

flush_failed :
    (E : Engine) (i : ℕ) (s : Fs) (e : DbError)
    → is_empty (s.table.inodes.dirty.at i) ≡ false
    → replace_chunks E s.tables
        (s.table.inodes.ino.at i)
        (s.table.inodes.size.at i)
        (dirty_chunks s i)
        (s.table.inodes.mtime.at i)
      ≡ err e
    → flush_slot E i persist s ≡ (err (errno_from_db_error e), s)
unfolding flush_slot
flush_failed E i s e h f =
    let test = persist_test (s.table.inodes.dirty.at i) (s.table.inodes.unlinked.at i) h in
    rw (test, flush_slot, f)

flush_done :
    (E : Engine) (i : ℕ) (s : Fs) (t : Tables)
    → is_empty (s.table.inodes.dirty.at i) ≡ false
    → replace_chunks E s.tables
        (s.table.inodes.ino.at i)
        (s.table.inodes.size.at i)
        (dirty_chunks s i)
        (s.table.inodes.mtime.at i)
      ≡ ok (tt, t)
    → flush_slot E i persist s ≡ (ok tt, cleaned s i t)
unfolding flush_slot
flush_done E i s t h f =
    let test = persist_test (s.table.inodes.dirty.at i) (s.table.inodes.unlinked.at i) h in
    rw (test, flush_slot, f)

evict-none :
    (E : Engine) (writing : ℕ) (s : Fs)
    → largest_dirty s.table.inodes ≡ none
    → evict E writing s ≡ (err eio, s)
unfolding evict
evict-none E writing s e = rw e

evict_failed :
    (E : Engine) (writing victim : ℕ) (s : Fs) (e : Errno)
    → largest_dirty s.table.inodes ≡ some victim
    → flush_slot E victim persist s ≡ (err e, s)
    → evict E writing s ≡ (err e, s)
unfolding evict
evict_failed E writing victim s e v f = rw (v, f)

evict_done :
    (E : Engine) (writing victim : ℕ) (s s' : Fs)
    → largest_dirty s.table.inodes ≡ some victim
    → flush_slot E victim persist s ≡ (ok tt, s')
    → evict E writing s ≡ (ok tt, if victim == writing then s' else free_if_idle victim s')
unfolding evict
evict_done E writing victim s s' v f = rw (v, f)

pub loop_now :
    (fuel : ℕ) (E : Engine) (writing a : ℕ) (s : Fs) (arena : ChunkArena)
    → Arena.alloc s.table.arena ≡ some (a, arena)
    → alloc_loop (suc fuel) E writing s ≡ some (ok a, with_arena s arena)
unfolding alloc_loop
loop_now fuel E writing a s arena e = rw (e, alloc_loop)

pub loop_full :
    (fuel : ℕ) (E : Engine) (writing : ℕ) (s : Fs)
    → Arena.alloc s.table.arena ≡ none
    → alloc_loop (suc fuel) E writing s
      ≡ evicted (evict E writing s) (λ s'. alloc_loop fuel E writing s')
unfolding alloc_loop
loop_full fuel E writing s e = rw (e, alloc_loop)

-- The state after a successful eviction.
abbrev after_eviction : ℕ → ℕ → Fs → Tables → Fs
after_eviction writing victim s t =
    if victim == writing then cleaned s victim t else free_if_idle victim (cleaned s victim t)

eviction_arena :
    (writing victim : ℕ) (s : Fs) (t : Tables)
    → (after_eviction writing victim s t).table.arena
      ≡ release_into (s.table.inodes.dirty.at victim) s.table.arena
unfolding free_if_idle
eviction_arena writing victim s t = ground arith

-- After an eviction the next round allocates.
eviction_allocates :
    (E : Engine) (writing victim : ℕ) (s : Fs) (t : Tables)
    → is_empty (s.table.inodes.dirty.at victim) ≡ false
    → (r : Result Errno ℕ × Fs) × ((fuel : ℕ)
        → alloc_loop (suc fuel) E writing (after_eviction writing victim s t) ≡ some r)
eviction_allocates E writing victim s t h =
    let s' = after_eviction writing victim s t in
    elim (Option-cases (Arena.alloc s'.table.arena)) [
      | inl none_left ↦ absurd (
          alloc_after_release (s.table.inodes.dirty.at victim) s.table.arena (inl h)
            (ap Arena.alloc (sym (eviction_arena writing victim s t)) ∙ none_left))
      | inr ((a, arena), e) ↦
          ((ok a, with_arena s' arena), λ fuel. loop_now fuel E writing a s' arena e)
    ]

-- An evicting round ends the loop by an error, or the next round ends it.
evict_ends :
    (E : Engine) (writing : ℕ) (s : Fs)
    → (r : Result Errno ℕ × Fs) × ((fuel : ℕ)
        → evicted (evict E writing s) (λ s'. alloc_loop (suc fuel) E writing s') ≡ some r)
evict_ends E writing s = elim (Option-cases (largest_dirty s.table.inodes)) [
  | inl nobody ↦ ((err eio, s), λ fuel. rw (evict-none E writing s nobody))
  | inr (victim, v) ↦
      let h =
        largest-nonempty s.table.inodes.dirty none s.table.inodes.by_ino victim (λ b q. cc)
          (unfold largest_dirty in v) in
      elim (Result-cases (
        replace_chunks E s.tables (s.table.inodes.ino.at victim) (s.table.inodes.size.at victim)
          (dirty_chunks s victim) (s.table.inodes.mtime.at victim))) [
            | inr (e, f) ↦ (
              (err (errno_from_db_error e), s),
              λ fuel. rw (
                  evict_failed E writing victim s (errno_from_db_error e) v
                    (flush_failed E victim s e h f)),
            )
            | inl ((_, t), f) ↦
                let (r, again) = eviction_allocates E writing victim s t h in
                (
                  r,
                  λ fuel.
                      rw
                        (evict_done E writing victim s (cleaned s victim t) v
                          (flush_done E victim s t h f))
                        (again fuel),
                )
          ]
]

loop_ends :
    (E : Engine) (writing : ℕ) (s : Fs)
    → (r : Result Errno ℕ × Fs) × ((fuel : ℕ) → alloc_loop (suc (suc fuel)) E writing s ≡ some r)
loop_ends E writing s = elim (Option-cases (Arena.alloc s.table.arena)) [
  | inr ((a, arena), e) ↦
      ((ok a, with_arena s arena), λ fuel. loop_now (suc fuel) E writing a s arena e)
  | inl full ↦
      let (r, ends) = evict_ends E writing s in
      (r, λ fuel. loop_full (suc fuel) E writing s full ∙ ends fuel)
]

-- The loop of `alloc_chunk` ends within two rounds, whatever the database answers.
pub alloc_loop_ends :
    (E : Engine) (writing fuel : ℕ) (s : Fs)
    → alloc_loop (suc (suc fuel)) E writing s ≡ some (alloc_chunk E writing s)
unfolding alloc_chunk
alloc_loop_ends E writing fuel s =
    let (r, ends) = loop_ends E writing s in
    ends fuel ∙ ap (λ o. some (unwrap_or o (err eio, s))) (sym (ends 0))
