-- ===== src/Arena/Dirty/Order.antt =====
-- The dirty index as a sorted map: `find` and `range` against plain searches, and insertion.
use vibedbfs.Prelude.{
  ℕ, suc, ◌+◌, ◌≤◌, ◌<◌, ◌≡◌, ◌≢◌, refl, [], ◌∷◌, Option, none, some, Bool, true, false, ◌&&◌, ◌||◌,
  ltb, leb, ◌==◌, if◌then◌else◌, Result, ok, err, length, arith, Bool-cases, inl, inr, All,
}
use vibedbfs.Arena.Dirty.{
  DirtyIdx, last, binary_search, find_last, find, slot_at, insert, partition_point, sub_list, range,
}

-- Indices rise strictly, from `low` on.
abbrev pub Ascending : ℕ → DirtyIdx → Type 0
Ascending low [] = Unit
Ascending low ((k, slot) ∷ xs) = (low ≤ k) × Ascending (k + 1) xs

abbrev pub IsSorted : DirtyIdx → Type 0
IsSorted xs = Ascending 0 xs

-- The arena slot of a chunk.
abbrev pub slot_of : ℕ → DirtyIdx → Option ℕ
slot_of index [] = none
slot_of index ((k, slot) ∷ xs) = if index == k then some slot else slot_of index xs

abbrev pub has : ℕ → DirtyIdx → Bool
has index [] = false
has index ((k, slot) ∷ xs) = (index == k) || has index xs

abbrev pub count_below : ℕ → DirtyIdx → ℕ
count_below index [] = 0
count_below index ((k, slot) ∷ xs) =
    let rest = count_below index xs in if ltb k index then suc rest else rest

abbrev pub within : ℕ → ℕ → DirtyIdx → DirtyIdx
within first last [] = []
within first last ((k, slot) ∷ xs) =
    let rest = within first last xs in if leb first k && leb k last then (k, slot) ∷ rest else rest

-- The answer of a search: where the index stands, or where it belongs.
abbrev pub position : ℕ → DirtyIdx → Result ℕ ℕ
position index xs = if has index xs then ok (count_below index xs) else err (count_below index xs)

absent_below :
    (index low : ℕ) (xs : DirtyIdx)
    → Ascending low xs
    → index < low
    → (has index xs ≡ false) × (count_below index xs ≡ 0)
absent_below index low [] h lt = (refl, refl)
absent_below index low ((k, slot) ∷ xs) h lt = ground (arith, absent_below index (k + 1) xs h.1)

binary_search_lem :
    (index i low : ℕ) (xs : DirtyIdx)
    → Ascending low xs
    → binary_search index xs i
      ≡ (if has index xs then ok (i + count_below index xs) else err (i + count_below index xs))
binary_search_lem index i low [] h = ground arith
binary_search_lem index i low ((k, slot) ∷ xs) h =
    ground
      (arith, binary_search_lem index (i + 1) (k + 1) xs h.1, absent_below index (k + 1) xs h.1)

-- What the last entry says about the whole index.
last_lem :
    (index low k slot : ℕ) (x : ℕ × ℕ) (xs : DirtyIdx)
    → Ascending low (x ∷ xs)
    → last (x ∷ xs) ≡ some (k, slot)
    → k ≤ index
    → (count_below index (x ∷ xs) ≡ (if k == index then length xs else length (x ∷ xs)))
      × (has index (x ∷ xs) ≡ (k == index))
      × (x.0 ≤ k)
last_lem index low k slot x [] h e le = ground arith
last_lem index low k slot (j, a) (y ∷ xs) h e le =
    ground (arith, last_lem index (j + 1) k slot y xs h.1 e le)

last-ne-none : (x : ℕ × ℕ) (xs : DirtyIdx) → last (x ∷ xs) ≢ none
last-ne-none x [] e = cc
last-ne-none x (y ∷ xs) e = last-ne-none y xs e

find-last :
    (index : ℕ) (x : ℕ × ℕ) (xs : DirtyIdx) (l : Option (ℕ × ℕ))
    → IsSorted (x ∷ xs)
    → last (x ∷ xs) ≡ l
    → find_last index (x ∷ xs) l ≡ position index (x ∷ xs)
find-last index x xs none h e = absurd (last-ne-none x xs e)
find-last index x xs (some (k, slot)) h e =
    ground (arith, last_lem index 0 k slot x xs h e, binary_search_lem index 0 0 (x ∷ xs) h)

-- On a sorted index, the fast path and the binary search of `find` answer as a plain search does:
-- where the chunk stands, or where it belongs.
pub find_lem : (index : ℕ) (xs : DirtyIdx) → IsSorted xs → find index xs ≡ position index xs
unfolding find
find_lem index [] h = refl
find_lem index (x ∷ xs) h = find-last index x xs (last (x ∷ xs)) h refl

slot_of-at :
    (index low : ℕ) (xs : DirtyIdx)
    → Ascending low xs
    → has index xs ≡ true
    → slot_of index xs ≡ some (slot_at xs (count_below index xs))
slot_of-at index low [] h e = ground arith
slot_of-at index low ((k, slot) ∷ xs) h e =
    ground (arith, slot_of-at index (k + 1) xs h.1, absent_below index (k + 1) xs h.1)

slot_of-absent : (index : ℕ) (xs : DirtyIdx) → has index xs ≡ false → slot_of index xs ≡ none
slot_of-absent index [] e = refl
slot_of-absent index ((k, slot) ∷ xs) e = ground (arith, slot_of-absent index xs)

insert-Ascending :
    (index slot low : ℕ) (xs : DirtyIdx)
    → Ascending low xs
    → low ≤ index
    → has index xs ≡ false
    → Ascending low (insert (count_below index xs) index slot xs)
      × ((j : ℕ)
          → slot_of j (insert (count_below index xs) index slot xs)
            ≡ (if j == index then some slot else slot_of j xs))
insert-Ascending index slot low [] h le e = ((le, tt), λ j. refl)
insert-Ascending index slot low ((k, a) ∷ xs) h le e = elim (Bool-cases (ltb k index)) [
  | inl lt ↦
      let ih = insert-Ascending index slot (k + 1) xs h.1 (ground arith) (ground arith) in
      rw lt ((h.0, ih.0), λ j. ground (arith, ih.1 j))
  | inr ge ↦
      let none_below = absent_below index (k + 1) xs h.1 (ground arith) in
      rw (ge, none_below.1) ((le, (ground arith, h.1)), λ j. refl)
]

-- Inserting a chunk that `find` does not find at the position it gives keeps the index sorted and
-- adds that one chunk.
pub insert_lem :
    (index slot p : ℕ) (xs : DirtyIdx)
    → IsSorted xs
    → find index xs ≡ err p
    → IsSorted (insert p index slot xs)
      × ((j : ℕ)
          → slot_of j (insert p index slot xs) ≡ (if j == index then some slot else slot_of j xs))
insert_lem index slot p xs h e =
    let f = find_lem index xs h in
    let new : has index xs ≡ false = ground (arith, f) in
    let at : count_below index xs ≡ p = ground (arith, f) in
    rw (← at) (insert-Ascending index slot 0 xs h (omega arith) new)

-- A chunk that `find` finds is read by `slot_at`, and one that it does not find is absent.
pub find-slot_of :
    (index : ℕ) (xs : DirtyIdx)
    → IsSorted xs
    → slot_of index xs ≡ elim (find index xs) [ ok p ↦ some (slot_at xs p) | err p ↦ none ]
find-slot_of index xs h =
    rw (find_lem index xs h) (ground (arith, slot_of-at index 0 xs h, slot_of-absent index xs))

within_above :
    (first last low : ℕ) (xs : DirtyIdx) → Ascending low xs → last < low → within first last xs ≡ []
within_above first last low [] h lt = refl
within_above first last low ((k, a) ∷ xs) h lt =
    ground (arith, within_above first last (k + 1) xs h.1)

none_before :
    (first low : ℕ) (xs : DirtyIdx)
    → Ascending low xs
    → first ≤ low
    → partition_point (λ k. ltb k first) xs ≡ 0
none_before first low [] h le = refl
none_before first low ((k, a) ∷ xs) h le = ground arith

range-within :
    (first last low : ℕ) (xs : DirtyIdx)
    → Ascending low xs
    → sub_list (partition_point (λ k. ltb k first) xs) (partition_point (λ k. leb k last) xs) xs
      ≡ within first last xs
range-within first last low [] h = refl
range-within first last low ((k, a) ∷ xs) h = ground (
  arith,
  range-within first last (k + 1) xs h.1,
  within_above first last (k + 1) xs h.1,
  none_before first (k + 1) xs h.1,
)

-- On a sorted index, the two binary searches of `range` select the entries with an index in
-- `first..=last`.
pub range_lem :
    (first last : ℕ) (xs : DirtyIdx) → IsSorted xs → range first last xs ≡ within first last xs
unfolding range
range_lem first last xs h = range-within first last 0 xs h

pub slot_of_below :
    (index low : ℕ) (xs : DirtyIdx) → Ascending low xs → index < low → slot_of index xs ≡ none
slot_of_below index low xs h lt = slot_of-absent index xs (absent_below index low xs h lt).0

Ascending-weaken :
    (low high : ℕ) (xs : DirtyIdx) → low ≤ high → Ascending high xs → Ascending low xs
Ascending-weaken low high [] le h = tt
Ascending-weaken low high ((k, a) ∷ xs) le h = (omega arith, h.1)

pub within-Ascending :
    (first last low : ℕ) (xs : DirtyIdx) → Ascending low xs → Ascending low (within first last xs)
within-Ascending first last low [] h = tt
within-Ascending first last low ((k, a) ∷ xs) h = ground (
  arith,
  within-Ascending first last (k + 1) xs h.1,
  Ascending-weaken low (k + 1) (within first last xs),
)

pub within_bounds :
    (first last : ℕ) (xs : DirtyIdx)
    → All (λ e. (first ≤ e.0) × (e.0 ≤ last)) (within first last xs)
within_bounds first last [] = tt
within_bounds first last ((k, a) ∷ xs) = ground (arith, within_bounds first last xs)

pub slot_of-within :
    (first last index : ℕ) (xs : DirtyIdx)
    → first ≤ index
    → index ≤ last
    → slot_of index (within first last xs) ≡ slot_of index xs
slot_of-within first last index [] lo hi = refl
slot_of-within first last index ((k, a) ∷ xs) lo hi =
    ground (arith, slot_of-within first last index xs)
