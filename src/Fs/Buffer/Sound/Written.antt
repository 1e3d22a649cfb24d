-- ===== src/Fs/Buffer/Sound/Written.antt =====
-- A piece of a write goes to its dirty chunk: which bytes change, and that the invariant holds again.
use vibedbfs.Prelude.{
  ℕ, ◌+◌, ◌-◌, ◌*◌, ◌/◌, ◌%◌, ◌≤◌, ◌<◌, ◌≡◌, ◌≢◌, ◌⊎◌, refl, ◌∙◌, sym, max, Option, none, some,
  true, false, ◌&&◌, ◌==◌, if◌then◌else◌, Bytes, between, arith, Bool-cases, Option-cases, inl, inr,
  ap,
}
use vibedbfs.Arena
use vibedbfs.Arena.{ChunkArena, chunk_size}
use vibedbfs.Arena.Slots.{IsValid, in_use, write-SameSlot}
use vibedbfs.Span.{ChunkSpan, piece, is_full_chunk}
use vibedbfs.Span.Pieces.{IsSpan, piece_covers}
use vibedbfs.OpenTable.Inodes.{find}
use vibedbfs.Db.Keys.{chunk_key}
use vibedbfs.Db.Files.Contents.{stored_byte}
use vibedbfs.Fs.{Fs}
use vibedbfs.Fs.Flush.Transparent.{usable_len, hidden_byte}
use vibedbfs.Fs.Buffer.{write_chunk}
use vibedbfs.Fs.Buffer.View.{file_byte, laid}
use vibedbfs.Fs.Buffer.Sound.{IsSound, nowhere, dirty_at, content, content_at}
use vibedbfs.Fs.Buffer.Sound.Slots.{Differs, Serves, with_arena-IsSound, laid-kept}
use vibedbfs.Fs.Buffer.Sound.Added.{only}

write-Differs :
    (arena : ChunkArena) (a from to start : ℕ) (input : Bytes)
    → IsValid arena
    → ((b : ℕ) → arena.len.at b ≤ chunk_size)
    → from ≤ to
    → to ≤ chunk_size
    → Differs a arena (Arena.write arena a from to input start)
unfolding Arena.write
write-Differs arena a from to start input v fit h1 h2 = record {
  valid = ground arith;
  fit = λ b. ground (arith, fit b, fit a);
  others = λ b ne. ground arith;
  kept =
      λ b ne u. unfold Arena.write in write-SameSlot arena a from to input start b ne (fit a) h1 h2;
}

write-len :
    (arena : ChunkArena) (a from to start : ℕ) (input : Bytes)
    → arena.len.at a ≤ chunk_size
    → to ≤ chunk_size
    → ((Arena.write arena a from to input start).len.at a ≡ max (arena.len.at a) to)
      × (in_use (Arena.write arena a from to input start) a ≡ in_use arena a)
unfolding Arena.write
write-len arena a from to start input h1 h2 = (ground arith, ground arith)

-- What a reader of the chunk sees afterwards. The gap that is zeroed held no stored byte.
write-laid :
    (arena : ChunkArena) (a from to start r old : ℕ) (input : Bytes)
    → arena.len.at a ≤ chunk_size
    → from ≤ to
    → to ≤ chunk_size
    → (arena.len.at a ≤ r → r < from → old ≡ 0)
    → laid (Arena.write arena a from to input start) (some a) r old
      ≡ (if between from to r then input.at (start + (r - from)) else laid arena (some a) r old)
unfolding Arena.write
write-laid arena a from to start r old input h1 h2 h3 gap = ground arith

usable-le : (o : Option Bytes) → usable_len o ≤ chunk_size
usable-le none = omega arith
usable-le (some b) = omega arith

full_piece :
    (span : ChunkSpan) (k : ℕ)
    → is_full_chunk (piece span k) ≡ true
    → ((piece span k).chunk_start ≡ 0) × ((piece span k).chunk_end ≡ chunk_size)
unfolding is_full_chunk
full_piece span k h = ground arith

module _ (s : Fs) (i k a : ℕ) (span : ChunkSpan) (input : Bytes) (is : IsSpan span)
    (lo : span.first ≤ k) (hi : k ≤ span.last)
    (v : IsSound (only (is_full_chunk (piece span k)) i k) s)
    (is_live : find s.table.inodes (s.table.inodes.ino.at i) ≡ some i)
    (here : dirty_at s i k ≡ some a) where
  abbrev new_arena : ChunkArena
  new_arena =
      let p = piece span k in
      Arena.write s.table.arena a p.chunk_start p.chunk_end input p.buf_start

  covers : let q = piece span k in (q.chunk_start < q.chunk_end) × (q.chunk_end ≤ chunk_size)
  covers = let c = piece_covers span k 0 is lo hi in (c.3, c.4)

  differs : Differs a s.table.arena new_arena
  differs =
      let p = piece span k in
      write-Differs s.table.arena a p.chunk_start p.chunk_end p.buf_start input v.arena_valid
        v.slots_fit (omega (arith, covers)) covers.1

  serves : Serves nowhere s a new_arena
  serves j l e =
      let p = piece span k in
      let same = v.apart j l i k a e here in
      let w =
        write-len s.table.arena a p.chunk_start p.chunk_end p.buf_start input (v.slots_fit a)
          covers.1 in
      (
        w.1 ∙ v.owned i k a here,
        λ h.
            rw (same.0, same.1, w.0)
              (elim (Bool-cases (is_full_chunk p)) [
                | inl full ↦
                    let ends = (full_piece span k full).1 in
                    let small =
                      usable-le (s.tables.file_chunks (chunk_key (s.table.inodes.ino.at i) k)) in
                    omega arith
                | inr part ↦ let old = v.hides i k a here (ground (arith, part)) in omega arith
              ]),
      )

  less :
      (j l : ℕ)
      → nowhere j l ≡ false
      → (only (is_full_chunk (piece span k)) i k j l ≡ false) ⊎ (dirty_at s j l ≡ some a)
  less j l h = elim (Bool-cases (only (is_full_chunk (piece span k)) i k j l)) [
    | inr other ↦ inl other
    | inl same ↦
        let ji : j ≡ i = ground arith in let lk : l ≡ k = ground arith in inr (rw (ji, lk) here)
  ]

  pub write_chunk-IsSound : IsSound nowhere (write_chunk i span input k a s)
  unfolding write_chunk find
  write_chunk-IsSound =
      let sound =
        with_arena-IsSound s a new_arena (only (is_full_chunk (piece span k)) i k) nowhere v differs
          serves less in
      record {
        arena_valid = sound.arena_valid;
        slots_fit = sound.slots_fit;
        inos_fit = sound.inos_fit;
        found = sound.found;
        live = sound.live;
        sorted = sound.sorted;
        chunk_fits = sound.chunk_fits;
        owned = sound.owned;
        apart = sound.apart;
        hides = sound.hides;
      }

  gap_empty :
      (p : ℕ)
      → p / chunk_size ≡ k
      → s.table.arena.len.at a ≤ p % chunk_size
      → p % chunk_size < (piece span k).chunk_start
      → stored_byte s.tables.file_chunks (s.table.inodes.ino.at i) p ≡ 0
  gap_empty p e h1 h2 = elim (Bool-cases (is_full_chunk (piece span k))) [
    | inl full ↦ let starts = (full_piece span k full).0 in absurd (omega arith)
    | inr part ↦
        let old = v.hides i k a here (ground (arith, part)) in
        hidden_byte s.tables.file_chunks (s.table.inodes.ino.at i) p (s.table.arena.len.at a)
          (rw e old) h1
  ]

  -- The bytes that the piece covers, of the slot and of any other.
  piece_byte :
      (j p : ℕ)
      → let q = piece span k in
        file_byte (write_chunk i span input k a s) j p ≡ (
          if (j == i) && between (k * chunk_size + q.chunk_start) (k * chunk_size + q.chunk_end) p
          then input.at (p - span.start)
          else file_byte s j p)
  unfolding write_chunk
  piece_byte j p =
      let q = piece span k in
      let c = piece_covers span k p is lo hi in
      let old = stored_byte s.tables.file_chunks (s.table.inodes.ino.at j) p in
      elim (Bool-cases ((j == i) && (p / chunk_size == k))) [
        | inl this ↦
            let ji : j ≡ i = ground arith in
            let pk : p / chunk_size ≡ k = ground arith in
            let at : dirty_at s j (p / chunk_size) ≡ some a = rw (ji, pk) here in
            let w =
              write-laid s.table.arena a q.chunk_start q.chunk_end q.buf_start (p % chunk_size) old
                input (v.slots_fit a) (omega (arith, covers)) covers.1 (rw ji (gap_empty p pk)) in
            rw at (w ∙ ground (arith, c))
        | inr other ↦
            let elsewhere : dirty_at s j (p / chunk_size) ≢ some a = λ e.
              absurd (let same = v.apart j (p / chunk_size) i k a e here in ground (arith, same)) in
            laid-kept s a new_arena (only (is_full_chunk q) i k) nowhere v differs serves less j p
              old elsewhere
            ∙ ground (arith, c)
      ]

  -- The write changes no inode number, so inode numbers and slots correspond as before.
  written_find :
      (ino : ℕ) → find (write_chunk i span input k a s).table.inodes ino ≡ find s.table.inodes ino
  unfolding write_chunk find
  written_find ino = refl

  same_slot :
      (ino j : ℕ) → find s.table.inodes ino ≡ some j → (ino == s.table.inodes.ino.at i) ≡ (j == i)
  same_slot ino j e =
      let at_j = v.found ino j e in
      elim (Bool-cases (ino == s.table.inodes.ino.at i)) [
        | inl same ↦
            let at_i : ino ≡ s.table.inodes.ino.at i = ground arith in
            let both : some j ≡ some i = sym e ∙ ap (find s.table.inodes) at_i ∙ is_live in
            ground arith
        | inr other ↦ ground arith
      ]

  not_closed : (ino : ℕ) → find s.table.inodes ino ≡ none → (ino == s.table.inodes.ino.at i) ≡ false
  not_closed ino closed = elim (Bool-cases (ino == s.table.inodes.ino.at i)) [
    | inr ne ↦ ne
    | inl same ↦
        let e : ino ≡ s.table.inodes.ino.at i = ground arith in
        let both : none ≡ some i = sym closed ∙ ap (find s.table.inodes) e ∙ is_live in absurd (cc)
  ]

  pub write_chunk-content :
      (ino p : ℕ)
      → let q = piece span k in
        content (write_chunk i span input k a s) ino p ≡ (
          if (ino == s.table.inodes.ino.at i)
            && between (k * chunk_size + q.chunk_start) (k * chunk_size + q.chunk_end) p
          then input.at (p - span.start)
          else content s ino p)
  write_chunk-content ino p =
      ap (content_at (write_chunk i span input k a s) ino p) (written_find ino)
      ∙ elim (Option-cases (find s.table.inodes ino)) [
        | inl closed ↦ rw (closed, not_closed ino closed) (unfold write_chunk in refl)
        | inr (j, e) ↦ rw (e, same_slot ino j e) (piece_byte j p)
      ]

  pub write_chunk-live :
      find (write_chunk i span input k a s).table.inodes (s.table.inodes.ino.at i) ≡ some i
  write_chunk-live = written_find (s.table.inodes.ino.at i) ∙ is_live
