-- ===== src/Fs/Buffer/Sound/Loaded.antt =====
-- A new dirty chunk with its stored bytes loaded, or empty before a whole chunk is written.
use vibedbfs.Prelude.{
  ℕ, ◌≤◌, ◌<◌, ◌≡◌, refl, Option, none, some, Bool, true, Bytes, arith, ok, err, Result,
}
use vibedbfs.Arena
use vibedbfs.Arena.{ChunkArena, chunk_size}
use vibedbfs.Arena.Slots.{IsValid, in_use, release_lem}
use vibedbfs.OpenTable.Inodes.{find}
use vibedbfs.Db.Files.{fitting}
use vibedbfs.Db.Files.Contents.{chunk_byte}
use vibedbfs.Fs.{Fs, Errno}
use vibedbfs.Fs.Flush.Transparent.{usable_len}
use vibedbfs.Fs.Buffer.View.{laid}
use vibedbfs.Fs.Buffer.Sound.{IsSound, dirty_at, Unnoticed, Kept}
use vibedbfs.Fs.Buffer.Sound.Slots.{Differs}
use vibedbfs.Fs.Buffer.Sound.Added.{only}

-- Slot `a` after `read_chunk_into` has filled it.
abbrev pub loaded : ChunkArena → ℕ → Option Bytes → ChunkArena
loaded arena a o =
    let stored = fitting chunk_size o in
    Arena.set_len (Arena.load_buffer arena a stored) a stored.len

pub loaded-Differs :
    (arena : ChunkArena) (a : ℕ) (o : Option Bytes)
    → IsValid arena
    → ((b : ℕ) → arena.len.at b ≤ chunk_size)
    → Differs a arena (loaded arena a o)
unfolding Arena.set_len Arena.load_buffer
loaded-Differs arena a none v fit = record {
  valid = ground arith;
  fit = λ b. ground (arith, fit b);
  others = λ b ne. refl;
  kept = λ b ne u. record { same_len = ground arith; same_bytes = λ i h. ground arith };
}
loaded-Differs arena a (some x) v fit = record {
  valid = ground arith;
  fit = λ b. ground (arith, fit b);
  others = λ b ne. refl;
  kept = λ b ne u. record { same_len = ground arith; same_bytes = λ i h. ground arith };
}

pub loaded_byte :
    (arena : ChunkArena) (a r : ℕ) (o : Option Bytes)
    → r < chunk_size
    → laid (loaded arena a o) (some a) r (chunk_byte o r) ≡ chunk_byte o r
unfolding Arena.set_len Arena.load_buffer
loaded_byte arena a r none h = ground arith
loaded_byte arena a r (some b) h = ground arith

pub loaded-len :
    (arena : ChunkArena) (a : ℕ) (o : Option Bytes) → usable_len o ≤ (loaded arena a o).len.at a
unfolding Arena.set_len Arena.load_buffer
loaded-len arena a none = ground arith
loaded-len arena a (some b) = ground arith

pub loaded-in_use :
    (arena : ChunkArena) (a : ℕ) (o : Option Bytes) → in_use (loaded arena a o) a ≡ in_use arena a
unfolding Arena.set_len Arena.load_buffer
loaded-in_use arena a o = refl

pub released-Differs :
    (arena : ChunkArena) (a : ℕ)
    → IsValid arena
    → ((b : ℕ) → arena.len.at b ≤ chunk_size)
    → in_use arena a ≡ true
    → Differs a arena (Arena.release arena a)
released-Differs arena a v fit used =
    let r = release_lem arena a v used in
    record {
      valid = r.valid;
      fit = λ b. rw ((r.kept b).same_len) (fit b);
      others = r.others;
      kept = λ b ne u. r.kept b;
    }

-- The chunk is dirty in slot `a`, and no reader has noticed.
pub record Ready (i k : ℕ) (full : Bool) (s : Fs) (a : ℕ) (s' : Fs) : Type 0 where
  pub sound : IsSound (only full i k) s'
  pub unnoticed : Unnoticed s s'
  pub is_live : find s'.table.inodes (s.table.inodes.ino.at i) ≡ some i
  pub at : dirty_at s' i k ≡ some a

abbrev pub Readies : ℕ → ℕ → Bool → Fs → Result Errno ℕ × Fs → Type 0
Readies i k full s (err e, s') = Kept i s s'
Readies i k full s (ok a, s') = Ready i k full s a s'
