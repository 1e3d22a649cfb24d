-- ===== src/Fs/Buffer/Sound/Room.antt =====
-- `alloc_chunk` keeps the invariant, and its slot is empty and spare.
use vibedbfs.Prelude.{
  ℕ, zero, suc, ◌≡◌, subst, Option, none, some, true, ◌==◌, if◌then◌else◌, arith, Bool-cases,
  Option-cases, inl, inr, ok, err, ap, Result, unwrap_or,
}
use vibedbfs.Arena
use vibedbfs.Arena.{ChunkArena, chunk_size}
use vibedbfs.Arena.Slots.{in_use, alloc_lem, Allocated, AllocSpec, alloc-len}
use vibedbfs.OpenTable.Inodes.{find, largest_dirty}
use vibedbfs.Db.{Engine}
use vibedbfs.Fs.{Fs, Errno, eio, and_then}
use vibedbfs.Fs.Flush.{persist, flush_slot, free_if_idle, with_arena}
use vibedbfs.Fs.Buffer.{evict, evicted, alloc_loop, alloc_chunk}
use vibedbfs.Fs.Buffer.Eviction.{largest-nonempty, loop_now, loop_full}
use vibedbfs.Fs.Buffer.Sound.{IsSound, nowhere, IsSpare, Kept}
use vibedbfs.Fs.Buffer.Sound.Slots.{Differs, spare-IsSound, spare-Unnoticed}
use vibedbfs.Fs.Buffer.Sound.Flushed.{Kept-refl, Kept-trans, dirty_live, flush_slot-Kept}
use vibedbfs.Fs.Buffer.Sound.Freed.{free_if_idle-Kept}

-- The rest of an eviction after its flush.
after_flush-Kept :
    (w victim : ℕ) (s : Fs) (x : Result Errno (Unit {0}) × Fs)
    → Kept w s x.1
    → find x.1.table.inodes (x.1.table.inodes.ino.at victim) ≡ some victim
    → Kept w s (and_then x (λ u s'. (ok tt, if victim == w then s' else free_if_idle victim s'))).1
after_flush-Kept w victim s (err e, s') k live = k
after_flush-Kept w victim s (ok u, s') k live = elim (Bool-cases (victim == w)) [
  | inl same ↦ rw same k
  | inr other ↦ rw other (
      Kept-trans w s s' (free_if_idle victim s') k
        (free_if_idle-Kept w victim s' k.sound live (ground arith)))
]

-- An eviction keeps the invariant and goes unnoticed.
pub evict-Kept : (E : Engine) (w : ℕ) (s : Fs) → IsSound nowhere s → Kept w s (evict E w s).1
unfolding evict
evict-Kept E w s v = elim (Option-cases (largest_dirty s.table.inodes)) [
  | inl nobody ↦ rw nobody (Kept-refl w s v)
  | inr (victim, e) ↦
      let dirty =
        largest-nonempty s.table.inodes.dirty none s.table.inodes.by_ino victim (λ b q. cc)
          (unfold largest_dirty in e) in
      let flushed = flush_slot-Kept E w victim persist s v in
      let to_victim = flush_slot-Kept E victim victim persist s v in
      let ino_of = ap (λ f. f.at victim) to_victim.unnoticed.same_ino in
      rw e (
        after_flush-Kept w victim s (flush_slot E victim persist s) flushed
          (rw ino_of (to_victim.still_live (dirty_live s victim v dirty))))
]

-- What `alloc_chunk` gives: an empty spare slot, or an error.
abbrev pub Gives : ℕ → Fs → Result Errno ℕ × Fs → Type 0
Gives w s (err e, s') = Kept w s s'
Gives w s (ok a, s') =
    Kept w s s' × (in_use s'.table.arena a ≡ true) × IsSpare s' a × (s'.table.arena.len.at a ≡ 0)

abbrev MayGive : ℕ → Fs → Option (Result Errno ℕ × Fs) → Type 0
MayGive w s none = Unit
MayGive w s (some x) = Gives w s x

alloc-Gives :
    (w a : ℕ) (s : Fs) (arena : ChunkArena)
    → IsSound nowhere s
    → Arena.alloc s.table.arena ≡ some (a, arena)
    → Gives w s (ok a, with_arena s arena)
alloc-Gives w a s arena v e =
    let made : Allocated s.table.arena a arena =
      subst (AllocSpec s.table.arena) e (alloc_lem s.table.arena v.arena_valid) in
    let spare : IsSpare s a =
      λ i k f. absurd (let used = v.owned i k a f in let unused = made.was_free in cc) in
    let d : Differs a s.table.arena arena = record {
      valid = made.valid;
      fit = λ b. elim (alloc-len s.table.arena a b arena e) [
        | inl empty ↦ omega arith
        | inr same ↦ rw same (v.slots_fit b)
      ];
      others = made.others;
      kept = λ b ne used. made.kept b used;
    } in
    (
      record {
        sound = spare-IsSound nowhere s a arena v d spare;
        unnoticed = spare-Unnoticed nowhere s a arena v d spare;
        still_live = λ h. h;
        no_new = λ j l f. f;
        no_other = λ ino j f. f;
      },
      made.now_used,
      spare,
      made.empty,
    )

Gives-trans : (w : ℕ) (s t : Fs) (x : Result Errno ℕ × Fs) → Kept w s t → Gives w t x → Gives w s x
Gives-trans w s t (err e, u) k g = Kept-trans w s t u k g
Gives-trans w s t (ok a, u) k g = (Kept-trans w s t u k g.0, g.1, g.2, g.3)

MayGive-trans :
    (w : ℕ) (s t : Fs) (x : Option (Result Errno ℕ × Fs))
    → Kept w s t
    → MayGive w t x
    → MayGive w s x
MayGive-trans w s t none k g = tt
MayGive-trans w s t (some x) k g = Gives-trans w s t x k g

after_evict :
    (w : ℕ) (s : Fs) (x : Result Errno (Unit {0}) × Fs) (again : Fs → Option (Result Errno ℕ × Fs))
    → Kept w s x.1
    → ((t : Fs) → IsSound nowhere t → MayGive w t (again t))
    → MayGive w s (evicted x again)
after_evict w s (err e, t) again k g = k
after_evict w s (ok u, t) again k g = MayGive-trans w s t (again t) k (g t k.sound)

alloc_loop-MayGive :
    (fuel : ℕ) (E : Engine) (w : ℕ) (s : Fs)
    → IsSound nowhere s
    → MayGive w s (alloc_loop fuel E w s)
alloc_loop-MayGive zero E w s v = unfold alloc_loop in tt
alloc_loop-MayGive (suc fuel) E w s v = elim (Option-cases (Arena.alloc s.table.arena)) [
  | inr ((a, arena), e) ↦ rw (loop_now fuel E w a s arena e) (alloc-Gives w a s arena v e)
  | inl full ↦ rw (loop_full fuel E w s full) (
      after_evict w s (evict E w s) (λ t. alloc_loop fuel E w t) (evict-Kept E w s v)
        (alloc_loop-MayGive fuel E w))
]

MayGive-or :
    (w : ℕ) (s : Fs) (o : Option (Result Errno ℕ × Fs))
    → IsSound nowhere s
    → MayGive w s o
    → Gives w s (unwrap_or o (err eio, s))
MayGive-or w s none v g = Kept-refl w s v
MayGive-or w s (some x) v g = g

pub alloc_chunk-Gives :
    (E : Engine) (w : ℕ) (s : Fs) → IsSound nowhere s → Gives w s (alloc_chunk E w s)
unfolding alloc_chunk
alloc_chunk-Gives E w s v = MayGive-or w s (alloc_loop 2 E w s) v (alloc_loop-MayGive 2 E w s v)
