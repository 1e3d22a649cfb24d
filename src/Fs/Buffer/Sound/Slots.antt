-- ===== src/Fs/Buffer/Sound/Slots.antt =====
-- A change of one arena slot, and a chunk that becomes dirty: what they do to the invariant.
use vibedbfs.Prelude.{
  ℕ, ◌/◌, ◌%◌, ◌≤◌, ◌≡◌, ◌≢◌, ◌⊎◌, refl, ◌∙◌, some, Bool, true, false, ◌==◌, arith, Bool-cases,
  Option-cases, inl, inr, ap,
}
use vibedbfs.Arena.{ChunkArena, chunk_size}
use vibedbfs.Arena.Slots.{IsValid, in_use, SameSlot}
use vibedbfs.OpenTable.Inodes.{find}
use vibedbfs.Db.Files.Contents.{stored_byte}
use vibedbfs.Fs.{Fs}
use vibedbfs.Fs.Flush.{with_arena}
use vibedbfs.Fs.Flush.Transparent.{stored_len}
use vibedbfs.Fs.Buffer.View.{file_byte, laid}
use vibedbfs.Fs.Buffer.Sound.{IsSound, dirty_at, IsSpare, Unnoticed}

-- The arena changes in slot `a` at most, and not in which other slots are in use.
pub record Differs (a : ℕ) (old new : ChunkArena) : Type 0 where
  pub valid : IsValid new
  pub fit : (b : ℕ) → new.len.at b ≤ chunk_size
  pub others : (b : ℕ) → b ≢ a → in_use new b ≡ in_use old b
  pub kept : (b : ℕ) → b ≢ a → in_use old b ≡ true → SameSlot old new b

-- What the chunk that holds `a`, if there is one, wants of the new arena.
abbrev pub Serves : (ℕ → ℕ → Bool) → Fs → ℕ → ChunkArena → Type 0
Serves short s a new =
    (i k : ℕ)
    → dirty_at s i k ≡ some a
    → (in_use new a ≡ true)
      × (short i k ≡ false
          → stored_len s.tables.file_chunks (s.table.inodes.ino.at i) k ≤ new.len.at a)

module _ (s : Fs) (a : ℕ) (new : ChunkArena) (short shorter : ℕ → ℕ → Bool) (v : IsSound short s)
    (d : Differs a s.table.arena new) (serves : Serves shorter s a new)
    (less : (i k : ℕ) → shorter i k ≡ false → (short i k ≡ false) ⊎ (dirty_at s i k ≡ some a)) where
  owned_still : (i k b : ℕ) → dirty_at s i k ≡ some b → in_use new b ≡ true
  owned_still i k b e = elim (Bool-cases (b == a)) [
    | inl same ↦ let ba : b ≡ a = ground arith in rw ba ((serves i k (e ∙ ap some ba)).0)
    | inr other ↦ d.others b (ground arith) ∙ v.owned i k b e
  ]

  hides_still :
      (i k b : ℕ)
      → dirty_at s i k ≡ some b
      → shorter i k ≡ false
      → stored_len s.tables.file_chunks (s.table.inodes.ino.at i) k ≤ new.len.at b
  hides_still i k b e h = elim (Bool-cases (b == a)) [
    | inl same ↦ let ba : b ≡ a = ground arith in rw ba ((serves i k (e ∙ ap some ba)).1 h)
    | inr other ↦
        let ne : b ≢ a = ground arith in
        let kept = d.kept b ne (v.owned i k b e) in
        let old : short i k ≡ false = elim (less i k h) [
          | inl yes_old ↦ yes_old
          | inr here ↦ absurd (ne (cc))
        ] in
        rw kept.same_len (v.hides i k b e old)
  ]

  pub with_arena-IsSound : IsSound shorter (with_arena s new)
  with_arena-IsSound = record {
    arena_valid = d.valid;
    slots_fit = d.fit;
    inos_fit = v.inos_fit;
    found = v.found;
    live = v.live;
    sorted = v.sorted;
    chunk_fits = v.chunk_fits;
    owned = owned_still;
    apart = v.apart;
    hides = hides_still;
  }

  -- A file whose chunk is not in slot `a` keeps its byte there.
  pub laid-kept :
      (i p old : ℕ)
      → dirty_at s i (p / chunk_size) ≢ some a
      → laid new (dirty_at s i (p / chunk_size)) (p % chunk_size) old
        ≡ laid s.table.arena (dirty_at s i (p / chunk_size)) (p % chunk_size) old
  laid-kept i p old ne = elim (Option-cases (dirty_at s i (p / chunk_size))) [
    | inl clean ↦ rw clean refl
    | inr (b, e) ↦
        let other : b ≢ a = λ same. ne (e ∙ ap some same) in
        let kept = d.kept b other (v.owned i (p / chunk_size) b e) in
        rw (e, kept.same_len, kept.same_bytes (p % chunk_size) (omega arith)) refl
  ]

-- A change of a spare slot goes unnoticed.
module _ (short : ℕ → ℕ → Bool) (s : Fs) (a : ℕ) (new : ChunkArena) (v : IsSound short s)
    (d : Differs a s.table.arena new) (spare : IsSpare s a) where
  pub spare-IsSound : IsSound short (with_arena s new)
  spare-IsSound =
      with_arena-IsSound s a new short short v d (λ i k e. absurd (spare i k e)) (λ i k h. inl h)

  spare_byte : (i p : ℕ) → file_byte (with_arena s new) i p ≡ file_byte s i p
  spare_byte i p =
      laid-kept s a new short short v d (λ j k e. absurd (spare j k e)) (λ j k h. inl h) i p
        (stored_byte s.tables.file_chunks (s.table.inodes.ino.at i) p) (spare i (p / chunk_size))

  pub spare-Unnoticed : Unnoticed s (with_arena s new)
  spare-Unnoticed = record {
    same_content = λ ino p h1 h2. elim (Option-cases (find s.table.inodes ino)) [
      | inl e ↦ rw e refl
      | inr (i, e) ↦ rw e (spare_byte i p)
    ];
    same_ino = refl;
    same_size = refl;
    same_kind = refl;
    same_closing = refl;
  }
