-- ===== src/Arena/Dirty.antt =====
-- arena.rs, `DirtyIdx`: the buffered chunks of one inode, `(chunk index, arena slot)`, sorted by index.
pub mod Order
pub mod Held
use vibedbfs.Prelude.{
  ℕ, zero, suc, ◌+◌, ◌-◌, List, [], ◌∷◌, Option, none, some, Bool, true, false, ltb, leb, ◌==◌,
  if◌then◌else◌, Result, ok, err, length,
}
use vibedbfs.Arena

abbrev pub DirtyIdx : Type 0
DirtyIdx = List (ℕ × ℕ)

abbrev pub last : DirtyIdx → Option (ℕ × ℕ)
last [] = none
last (x ∷ []) = some x
last (x ∷ y ∷ xs) = last (y ∷ xs)

-- `binary_search_by_key` on a slice sorted by index: where the index stands, or where it belongs.
abbrev pub binary_search : ℕ → DirtyIdx → ℕ → Result ℕ ℕ
binary_search index [] i = err i
binary_search index ((k, slot) ∷ xs) i =
    if ltb k index then binary_search index xs (i + 1) else (if k == index then ok i else err i)

abbrev pub find_last : ℕ → DirtyIdx → Option (ℕ × ℕ) → Result ℕ ℕ
find_last index xs none = err 0
find_last index xs (some (k, slot)) =
    if k == index
    then ok (length xs - 1)
    else (if ltb k index then err (length xs) else binary_search index xs 0)

unfoldable pub find : ℕ → DirtyIdx → Result ℕ ℕ
find index xs = find_last index xs (last xs)

-- An index past the end panics in the source; here it reads slot 0.
abbrev pub slot_at : DirtyIdx → ℕ → ℕ
slot_at [] i = 0
slot_at ((k, slot) ∷ xs) zero = slot
slot_at (x ∷ xs) (suc i) = slot_at xs i

-- `Vec::insert`. A position past the end panics in the source; here it appends.
abbrev pub insert : ℕ → ℕ → ℕ → DirtyIdx → DirtyIdx
insert zero index slot xs = (index, slot) ∷ xs
insert (suc i) index slot [] = (index, slot) ∷ []
insert (suc i) index slot (x ∷ xs) = x ∷ insert i index slot xs

-- `partition_point`: how many entries at the start pass the test.
abbrev pub partition_point : (ℕ → Bool) → DirtyIdx → ℕ
partition_point p [] = 0
partition_point p ((k, slot) ∷ xs) = if p k then suc (partition_point p xs) else 0

abbrev pub sub_list : ℕ → ℕ → DirtyIdx → DirtyIdx
sub_list from zero xs = []
sub_list from (suc to) [] = []
sub_list zero (suc to) (x ∷ xs) = x ∷ sub_list zero to xs
sub_list (suc from) (suc to) (x ∷ xs) = sub_list from to xs

unfoldable pub range : ℕ → ℕ → DirtyIdx → DirtyIdx
range first last xs =
    sub_list (partition_point (λ k. ltb k first) xs) (partition_point (λ k. leb k last) xs) xs

-- Gives every slot back to the arena. The index is empty afterwards.
unfoldable pub release_into : DirtyIdx → Arena.ChunkArena → Arena.ChunkArena
release_into [] a = a
release_into ((k, slot) ∷ xs) a = release_into xs (Arena.release a slot)
