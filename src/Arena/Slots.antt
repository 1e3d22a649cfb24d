-- ===== src/Arena/Slots.antt =====
-- The arena's slots: allocation, reuse and the bytes that a slot shows.
use vibedbfs.Prelude.{
  ℕ, ◌+◌, ◌-◌, ◌*◌, ◌^◌, ◌≤◌, ◌<◌, ◌≡◌, ◌≢◌, refl, List, [], ◌∷◌, Option, none, some, Bool, true,
  false, not, ◌&&◌, ◌⊎◌, ltb, if◌then◌else◌, Bytes, Vec, Bool-cases, inl, inr, between, arith,
  member, Distinct, All,
}
use vibedbfs.Arena.{ChunkArena, chunk_size, as_u32, new, alloc, release, write}

-- The buffer covers the slots, the slots are within the budget, and the free ones are distinct.
pub record IsValid (a : ChunkArena) : Type 0 where
  pub covered : a.bytes.len ≡ a.len.len * chunk_size
  pub budget : a.len.len ≤ a.max_slots
  pub indexable : a.max_slots ≤ 2 ^ 32
  pub distinct : Distinct a.free
  pub in_range : All (λ s. s < a.len.len) a.free

-- A slot that was handed out and not given back.
abbrev pub in_use : ChunkArena → ℕ → Bool
in_use a s = ltb s a.len.len && not (member s a.free)

-- The byte of a slot, zero past its valid bytes.
abbrev pub slot_byte : ChunkArena → ℕ → ℕ → ℕ
slot_byte a s i = if ltb i (a.len.at s) then a.bytes.at (s * chunk_size + i) else 0

-- `b` shows the same bytes as `a` in slot `s`.
pub record SameSlot (a b : ChunkArena) (s : ℕ) : Type 0 where
  pub same_len : b.len.at s ≡ a.len.at s
  pub same_bytes :
      (i : ℕ) → i < chunk_size → b.bytes.at (s * chunk_size + i) ≡ a.bytes.at (s * chunk_size + i)

pub new-IsValid : (budget : ℕ) → budget ≤ 2 ^ 48 → IsValid (new budget)
unfolding new
new-IsValid budget h = ground arith

-- What a successful allocation does to a valid arena.
pub record Allocated (a : ChunkArena) (s : ℕ) (b : ChunkArena) : Type 0 where
  pub valid : IsValid b
  pub was_free : in_use a s ≡ false
  pub now_used : in_use b s ≡ true
  pub others : (j : ℕ) → j ≢ s → in_use b j ≡ in_use a j
  pub empty : b.len.at s ≡ 0
  pub kept : (j : ℕ) → in_use a j ≡ true → SameSlot a b j
  pub same_budget : b.max_slots ≡ a.max_slots

abbrev pub AllocSpec : ChunkArena → Option (ℕ × ChunkArena) → Type 0
AllocSpec a none = (a.free ≡ []) × (a.len.len ≡ a.max_slots)
AllocSpec a (some (s, b)) = Allocated a s b

arena_of : Bytes → Vec ℕ → List ℕ → ℕ → ChunkArena
arena_of bytes len free max_slots = record {
  bytes = bytes;
  len = len;
  free = free;
  max_slots = max_slots;
}

alloc-cases :
    (bytes : Bytes) (len : Vec ℕ) (free : List ℕ) (max_slots : ℕ)
    → IsValid (arena_of bytes len free max_slots)
    → AllocSpec (arena_of bytes len free max_slots) (alloc (arena_of bytes len free max_slots))
unfolding alloc arena_of
alloc-cases bytes len (s ∷ rest) max_slots v = record {
  valid = ground arith;
  was_free = ground arith;
  now_used = ground arith;
  others = λ j ne. ground arith;
  empty = ground arith;
  kept = λ j u. record { same_len = ground arith; same_bytes = λ i h. refl };
  same_budget = refl;
}
alloc-cases bytes len [] max_slots v = elim (Bool-cases (ltb len.len max_slots)) [
  | inl room ↦
      let fits : as_u32 len.len ≡ len.len = ground arith in
      rw (room, fits)
        (record {
          valid = ground arith;
          was_free = ground arith;
          now_used = ground arith;
          others = λ j ne. ground arith;
          empty = ground arith;
          kept = λ j u. record { same_len = ground arith; same_bytes = λ i h. ground arith };
          same_budget = refl;
        })
  | inr full ↦ rw full (refl, ground arith)
]

-- On a valid arena, `alloc` hands out a slot that was not in use, empty, keeps the other slots in
-- use and their bytes, and keeps the arena valid. It fails only with no free slot and all slots
-- of the budget made.
pub alloc_lem : (a : ChunkArena) → IsValid a → AllocSpec a (alloc a)
unfolding arena_of
alloc_lem a v = alloc-cases a.bytes a.len a.free a.max_slots v

-- A write within a chunk sets the bytes of its range, zeroes a gap behind the old end, and keeps
-- the other bytes of the slot.
pub write_lem :
    (a : ChunkArena) (slot from to : ℕ) (input : Bytes) (start i : ℕ)
    → IsValid a
    → a.len.at slot ≤ chunk_size
    → from ≤ to
    → to ≤ chunk_size
    → i < chunk_size
    → slot_byte (write a slot from to input start) slot i
      ≡ (if between from to i then input.at (start + (i - from)) else slot_byte a slot i)
unfolding write
write_lem a slot from to input start i v full r1 r2 h = ground arith

pub write-SameSlot :
    (a : ChunkArena) (slot from to : ℕ) (input : Bytes) (start j : ℕ)
    → j ≢ slot
    → a.len.at slot ≤ chunk_size
    → from ≤ to
    → to ≤ chunk_size
    → SameSlot a (write a slot from to input start) j
unfolding write
write-SameSlot a slot from to input start j ne full r1 r2 = record {
  same_len = ground arith;
  same_bytes = λ i h. ground arith;
}

-- A released slot is free again; the others keep their state and their bytes.
pub record Released (a : ChunkArena) (s : ℕ) (b : ChunkArena) : Type 0 where
  pub valid : IsValid b
  pub now_free : in_use b s ≡ false
  pub others : (j : ℕ) → j ≢ s → in_use b j ≡ in_use a j
  pub kept : (j : ℕ) → SameSlot a b j

-- Releasing a slot in use makes it free again. The arena stays valid, the other slots stay as they
-- were, and every slot keeps its bytes.
pub release_lem :
    (a : ChunkArena) (s : ℕ) → IsValid a → in_use a s ≡ true → Released a s (release a s)
unfolding release
release_lem a s v u = record {
  valid = ground arith;
  now_free = ground arith;
  others = λ j ne. ground arith;
  kept = λ j. record { same_len = refl; same_bytes = λ i h. refl };
}

alloc_len-cases :
    (bytes : Bytes) (len : Vec ℕ) (free : List ℕ) (max_slots s i : ℕ) (b : ChunkArena)
    → alloc (arena_of bytes len free max_slots) ≡ some (s, b)
    → (b.len.at i ≡ 0) ⊎ (b.len.at i ≡ len.at i)
unfolding alloc arena_of
alloc_len-cases bytes len (x ∷ rest) max_slots s i b e = ground arith
alloc_len-cases bytes len [] max_slots s i b e = ground arith

-- An allocation leaves each slot as long as it was, or empty.
pub alloc-len :
    (a : ChunkArena) (s i : ℕ) (b : ChunkArena)
    → alloc a ≡ some (s, b)
    → (b.len.at i ≡ 0) ⊎ (b.len.at i ≡ a.len.at i)
unfolding arena_of
alloc-len a s i b e = alloc_len-cases a.bytes a.len a.free a.max_slots s i b e
