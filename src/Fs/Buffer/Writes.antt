-- ===== src/Fs/Buffer/Writes.antt =====
-- Buffered writes: which bytes of which files they change, evictions in between included.
pub mod Outcome
use vibedbfs.Prelude.{
  ℕ, zero, suc, ◌+◌, ◌-◌, ◌*◌, ◌/◌, ◌%◌, ◌≤◌, ◌<◌, ◌≡◌, ◌≢◌, ◌⊎◌, refl, ◌∙◌, sym, min, max, Option,
  none, some, Bool, true, false, ◌&&◌, ◌==◌, ltb, leb, if◌then◌else◌, Bytes, between, arith,
  Bool-cases, Option-cases, Result-cases, inl, inr, ap, ok, err, Result,
}
use vibedbfs.Model.{Timestamp, regular_file}
use vibedbfs.Arena.{chunk_size, as_u32}
use vibedbfs.Span
use vibedbfs.Span.{ChunkSpan, piece, is_full_chunk}
use vibedbfs.Span.Pieces.{IsSpan, new-IsSpan}
use vibedbfs.OpenTable.Inodes.{find}
use vibedbfs.Db.{Engine}
use vibedbfs.Db.Keys.{max_chunks, max_ino, max_file_size}
use vibedbfs.Fs.{Fs, Errno, and_then}
use vibedbfs.Fs.Buffer.{write_chunk, write_chunks, write_slot, dirty_slot}
use vibedbfs.Fs.Buffer.Sound.{IsSound, nowhere, content, Unnoticed, Kept}
use vibedbfs.Fs.Buffer.Sound.Flushed.{Kept-refl}
use vibedbfs.Fs.Buffer.Sound.Loaded.{Ready, Readies}
use vibedbfs.Fs.Buffer.Sound.Readied.{dirty_slot-Readies}
use vibedbfs.Fs.Buffer.Sound.Written.{write_chunk-IsSound, write_chunk-content, write_chunk-live}

-- From `s` to `s'` the bytes `from..done` of slot `i` were written, from an input for `start` on.
pub record Progress (i start : ℕ) (input : Bytes) (from done : ℕ) (s s' : Fs) : Type 0 where
  pub sound : IsSound nowhere s'
  pub is_live : find s'.table.inodes (s'.table.inodes.ino.at i) ≡ some i
  pub forward : from ≤ done
  pub written :
      (ino p : ℕ)
      → ino ≤ max_ino
      → p < max_file_size
      → content s' ino p ≡ (
          if (ino == s.table.inodes.ino.at i) && between from done p
          then input.at (p - start)
          else content s ino p)
  pub size :
      (j : ℕ)
      → s'.table.inodes.size.at j ≡ (
          if (j == i) && ltb from done
          then max (s.table.inodes.size.at j) done
          else s.table.inodes.size.at j)
  pub same_ino : s'.table.inodes.ino ≡ s.table.inodes.ino
  pub same_kind : s'.table.inodes.kind ≡ s.table.inodes.kind
  pub same_closing : s'.table.closing ≡ s.table.closing

-- Where chunk `k` of a span begins in the file.
abbrev pub pos : ChunkSpan → ℕ → ℕ
pos span k = min span.end (max span.start (k * chunk_size))

pub Kept-Progress :
    (i start from : ℕ) (input : Bytes) (s s' : Fs)
    → find s.table.inodes (s.table.inodes.ino.at i) ≡ some i
    → Kept i s s'
    → Progress i start input from from s s'
Kept-Progress i start from input s s' is_live k = record {
  sound = k.sound;
  is_live = let same = ap (λ v. v.at i) k.unnoticed.same_ino in rw same (k.still_live is_live);
  forward = omega arith;
  written = λ ino p h1 h2. k.unnoticed.same_content ino p h1 h2 ∙ ground arith;
  size = λ j. ap (λ v. v.at j) k.unnoticed.same_size ∙ ground arith;
  same_ino = k.unnoticed.same_ino;
  same_kind = k.unnoticed.same_kind;
  same_closing = k.unnoticed.same_closing;
}

pub Progress-trans :
    (i start a b c : ℕ) (input : Bytes) (s t u : Fs)
    → Progress i start input a b s t
    → Progress i start input b c t u
    → Progress i start input a c s u
Progress-trans i start a b c input s t u x y = record {
  sound = y.sound;
  is_live = y.is_live;
  forward = omega (arith, x.forward, y.forward);
  written = λ ino p h1 h2.
      let same = ap (λ v. v.at i) x.same_ino in
      let first = x.written ino p h1 h2 in
      let second = y.written ino p h1 h2 in
      second ∙ rw (same, first) (ground (arith, x.forward, y.forward));
  size = λ j. ground (arith, x.size j, y.size j, x.forward, y.forward);
  same_ino = y.same_ino ∙ x.same_ino;
  same_kind = y.same_kind ∙ x.same_kind;
  same_closing = y.same_closing ∙ x.same_closing;
}

piece_ends :
    (span : ChunkSpan) (k : ℕ)
    → IsSpan span
    → span.first ≤ k
    → k ≤ span.last
    → let q = piece span k in
      (k * chunk_size + q.chunk_start ≡ pos span k)
      × (k * chunk_size + q.chunk_end ≡ pos span (k + 1))
      × (pos span k < pos span (k + 1))
unfolding piece
piece_ends span k h lo hi = (omega arith, omega arith, omega arith)

-- One round of the loop, once the chunk is dirty.
round :
    (i k a : ℕ) (span : ChunkSpan) (input : Bytes) (s t : Fs)
    → IsSpan span
    → span.first ≤ k
    → k ≤ span.last
    → Ready i k (is_full_chunk (piece span k)) s a t
    → Progress i span.start input (pos span k) (pos span (k + 1)) s (write_chunk i span input k a t)
unfolding write_chunk
round i k a span input s t is lo hi r =
    let same = ap (λ v. v.at i) r.unnoticed.same_ino in
    let is_live = rw (← same) at r.is_live in
    let ends = piece_ends span k is lo hi in
    record {
      sound =
          unfold write_chunk in
          write_chunk-IsSound t i k a span input is lo hi r.sound is_live r.at;
      is_live = write_chunk-live t i k a span input is lo hi r.sound is_live r.at;
      forward = omega (arith, ends);
      written = λ ino p h1 h2.
          write_chunk-content t i k a span input is lo hi r.sound is_live r.at ino p
          ∙ rw (ends.0, ends.1, same, r.unnoticed.same_content ino p h1 h2) refl;
      size = λ j. let sizes = r.unnoticed.same_size in rw (ends.1, sizes) (ground (arith, ends));
      same_ino = r.unnoticed.same_ino;
      same_kind = r.unnoticed.same_kind;
      same_closing = r.unnoticed.same_closing;
    }

-- A run of the loop over the chunks: how far it got, and that it got to the end unless it failed.
abbrev pub Ran : ℕ → ChunkSpan → Bytes → ℕ → ℕ → Fs → Result Errno (Unit {0}) × Fs → Type 0
Ran i span input from to s x =
    (done : ℕ) × Progress i span.start input from done s x.1
    × (done ≤ to)
    × ((x.0 ≡ ok tt → done ≡ to))

after_round :
    (i k : ℕ) (span : ChunkSpan) (input : Bytes) (to : ℕ) (s : Fs) (x : Result Errno ℕ × Fs)
    (rest : ℕ → Fs → Result Errno (Unit {0}) × Fs)
    → IsSpan span
    → span.first ≤ k
    → k ≤ span.last
    → pos span k ≤ to
    → find s.table.inodes (s.table.inodes.ino.at i) ≡ some i
    → Readies i k (is_full_chunk (piece span k)) s x
    → ((a : ℕ) (t : Fs)
        → IsSound nowhere (write_chunk i span input k a t)
        → find
            (write_chunk i span input k a t).table.inodes
            ((write_chunk i span input k a t).table.inodes.ino.at i)
          ≡ some i
        → Ran i span input (pos span (k + 1)) to (write_chunk i span input k a t) (rest a t))
    → Ran i span input (pos span k) to s (and_then x rest)
after_round i k span input to s (err e, t) rest is lo hi below is_live r again =
    (pos span k, Kept-Progress i span.start (pos span k) input s t is_live r, below, λ h. cc)
after_round i k span input to s (ok a, t) rest is lo hi below is_live r again =
    let first = round i k a span input s t is lo hi r in
    let (done, second, bound, complete) = again a t first.sound first.is_live in
    (
      done,
      Progress-trans i span.start (pos span k) (pos span (k + 1)) done input s
          (write_chunk i span input k a t) (rest a t).1 first second,
      bound,
      complete,
    )

pub write_chunks_lem :
    (E : Engine) (i : ℕ) (span : ChunkSpan) (input : Bytes) (k n : ℕ) (s : Fs)
    → IsSpan span
    → span.end ≤ max_file_size
    → span.first ≤ k
    → k + n ≤ span.last + 1
    → IsSound nowhere s
    → find s.table.inodes (s.table.inodes.ino.at i) ≡ some i
    → Ran i span input (pos span k) (pos span (k + n)) s (write_chunks E i span input k n s)
unfolding write_chunks
write_chunks_lem E i span input k zero s is fits lo hi v is_live = (
  pos span k,
  Kept-Progress i span.start (pos span k) input s s is_live (Kept-refl i s v),
  omega arith,
  λ h. omega arith,
)
write_chunks_lem E i span input k (suc n) s is fits lo hi v is_live =
    let shift : k + suc n ≡ k + 1 + n = omega arith in
    rw shift (
      after_round i k span input (pos span (k + 1 + n)) s
        (dirty_slot E i k (is_full_chunk (piece span k)) s)
        (λ a t. write_chunks E i span input (k + 1) n (write_chunk i span input k a t)) is lo
        (omega arith) (omega arith) is_live
        (dirty_slot-Readies E i k (is_full_chunk (piece span k)) s (omega arith) v is_live)
        (λ a t sound live.
          write_chunks_lem E i span input (k + 1) n (write_chunk i span input k a t) is fits
            (omega arith) (omega arith) sound live))

-- What a write does: it succeeds and has written everything, or fails and has written a beginning.
abbrev pub Wrote : ℕ → ℕ → Bytes → Fs → Result Errno ℕ × Fs → Type 0
Wrote i offset input s x =
    (done : ℕ) × Progress i offset input offset done s x.1
    × (done ≤ offset + input.len)
    × (((x.0 ≡ ok (as_u32 input.len)) × (done ≡ offset + input.len))
        ⊎ ((e : Errno) × (x.0 ≡ err e)))
