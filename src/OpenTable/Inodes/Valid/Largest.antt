-- ===== src/OpenTable/Inodes/Valid/Largest.antt =====
-- Choosing the slot to flush when memory is short.
use vibedbfs.Prelude.{
  ℕ, ◌≤◌, ◌<◌, ◌≡◌, ◌⊎◌, refl, ap, List, [], ◌∷◌, Option, none, some, true, false, ◌&&◌, not, leb,
  ◌==◌, if◌then◌else◌, member, is_empty, length, arith, Bool-cases, inl, inr, Vec,
}
use vibedbfs.Arena.Dirty.{DirtyIdx}
use vibedbfs.OpenTable.Inodes.{OpenInodes, largest, largest_dirty}
use vibedbfs.OpenTable.Inodes.Live.{slots}

-- The slot with the most dirty chunks among `xs` and `best`.
abbrev best_len : Vec DirtyIdx → Option ℕ → ℕ
best_len dirty none = 0
best_len dirty (some b) = length (dirty.at b)

-- The answer for a map: the longest of its dirty indices, or that all are empty.
abbrev pub IsLargest : Vec DirtyIdx → List (ℕ × ℕ) → Option ℕ → Type 0
IsLargest dirty xs none = (w : ℕ) → member w (slots xs) ≡ true → length (dirty.at w) ≡ 0
IsLargest dirty xs (some b) =
    (member b (slots xs) ≡ true)
    × (0 < length (dirty.at b))
    × ((w : ℕ) → member w (slots xs) ≡ true → length (dirty.at w) ≤ length (dirty.at b))

abbrev AtMost : Vec DirtyIdx → Option ℕ → List (ℕ × ℕ) → Option ℕ → Type 0
AtMost dirty best xs none =
    (best ≡ none) × ((w : ℕ) → member w (slots xs) ≡ true → length (dirty.at w) ≡ 0)
AtMost dirty best xs (some v) =
    ((member v (slots xs) ≡ true) ⊎ (best ≡ some v))
    × (0 < length (dirty.at v))
    × (best_len dirty best ≤ length (dirty.at v))
    × ((w : ℕ) → member w (slots xs) ≡ true → length (dirty.at w) ≤ length (dirty.at v))

-- The better of `best` and a slot.
record IsBetter (dirty : Vec DirtyIdx) (best : Option ℕ) (slot : ℕ) (next : Option ℕ) : Type 0 where
  old : best_len dirty best ≤ best_len dirty next
  new : length (dirty.at slot) ≤ best_len dirty next
  which : (b : ℕ) → next ≡ some b → (slot ≡ b) ⊎ (best ≡ some b)
  neither : next ≡ none → best ≡ none

step_largest :
    (dirty : Vec DirtyIdx) (best next : Option ℕ) (ino slot : ℕ) (xs : List (ℕ × ℕ)) (r : Option ℕ)
    → IsBetter dirty best slot next
    → AtMost dirty next xs r
    → AtMost dirty best ((ino, slot) ∷ xs) r
step_largest dirty best next ino slot xs none better h = (
  better.neither h.0,
  λ w m. elim (Bool-cases (w == slot)) [
    | inl same ↦
        let ws : w ≡ slot = ground arith in
        let nothing : best_len dirty next ≡ 0 = ap (best_len dirty) h.0 in
        rw ws (omega (arith, better.new))
    | inr other ↦ h.1 w (ground arith)
  ],
)
step_largest dirty best next ino slot xs (some v) better h = (
  elim h.0 [
    | inl m ↦ inl (ground arith)
    | inr e ↦ elim (better.which v e) [ inl here ↦ inl (ground arith) | inr there ↦ inr there ]
  ],
  h.1,
  omega (arith, better.old, h.2),
  λ w m. elim (Bool-cases (w == slot)) [
    | inl same ↦ let ws : w ≡ slot = ground arith in rw ws (omega (arith, better.new, h.2))
    | inr other ↦ h.3 w (ground arith)
  ],
)

empty-len : (xs : DirtyIdx) → is_empty xs ≡ true → length xs ≡ 0
empty-len [] e = refl
empty-len (x ∷ xs) e = cc

nonempty-len : (xs : DirtyIdx) → is_empty xs ≡ false → 0 < length xs
nonempty-len [] e = cc
nonempty-len (x ∷ xs) e = omega arith

take_first :
    (dirty : Vec DirtyIdx) (slot : ℕ)
    → IsBetter dirty none slot (if is_empty (dirty.at slot) then none else some slot)
take_first dirty slot = elim (Bool-cases (is_empty (dirty.at slot))) [
  | inl e ↦
      let short = empty-len (dirty.at slot) e in
      rw e (record { old = omega arith; new = omega arith; which = λ b h. cc; neither = λ h. refl })
  | inr e ↦ rw e (record {
    old = omega arith;
    new = omega arith;
    which = λ b h. ground arith;
    neither = λ h. cc;
  })
]

take_longer :
    (dirty : Vec DirtyIdx) (slot b : ℕ)
    → IsBetter dirty (some b) slot (
        if not (is_empty (dirty.at slot)) && leb (length (dirty.at b)) (length (dirty.at slot))
        then some slot
        else some b)
take_longer dirty slot b =
    let short = empty-len (dirty.at slot) in
    elim (Bool-cases
      (not (is_empty (dirty.at slot)) && leb (length (dirty.at b)) (length (dirty.at slot)))) [
        | inl e ↦ rw e (record {
          old = ground arith;
          new = omega arith;
          which = λ c h. ground arith;
          neither = λ h. cc;
        })
        | inr e ↦ rw e (record {
          old = omega arith;
          new = ground (arith, short);
          which = λ c h. inr h;
          neither = λ h. cc;
        })
      ]

largest-AtMost :
    (dirty : Vec DirtyIdx) (best : Option ℕ) (xs : List (ℕ × ℕ))
    → ((b : ℕ) → best ≡ some b → 0 < length (dirty.at b))
    → AtMost dirty best xs (largest dirty best xs)
largest-AtMost dirty none [] h = (refl, λ w m. cc)
largest-AtMost dirty (some b) [] h = (inr refl, h b refl, omega arith, λ w m. cc)
largest-AtMost dirty none ((ino, slot) ∷ xs) h =
    let next = if is_empty (dirty.at slot) then none else some slot in
    step_largest dirty none next ino slot xs (largest dirty next xs) (take_first dirty slot)
      (largest-AtMost dirty next xs (λ b e. ground (arith, nonempty-len (dirty.at slot))))
largest-AtMost dirty (some c) ((ino, slot) ∷ xs) h =
    let next =
      if not (is_empty (dirty.at slot)) && leb (length (dirty.at c)) (length (dirty.at slot))
      then some slot
      else some c in
    step_largest dirty (some c) next ino slot xs (largest dirty next xs) (take_longer dirty slot c)
      (largest-AtMost dirty next xs (λ b e. ground (arith, nonempty-len (dirty.at slot), h c refl)))

IsLargest-of :
    (dirty : Vec DirtyIdx) (xs : List (ℕ × ℕ)) (r : Option ℕ)
    → AtMost dirty none xs r
    → IsLargest dirty xs r
IsLargest-of dirty xs none h = h.1
IsLargest-of dirty xs (some v) h = (elim h.0 [ inl m ↦ m | inr e ↦ absurd (cc) ], h.1, h.3)

-- `largest_dirty` gives a live slot with at least one dirty chunk, and no live slot has more. It
-- gives none exactly if no live slot has a dirty chunk.
pub largest_dirty_lem : (t : OpenInodes) → IsLargest t.dirty t.by_ino (largest_dirty t)
unfolding largest_dirty
largest_dirty_lem t =
    IsLargest-of t.dirty t.by_ino (largest t.dirty none t.by_ino)
      (largest-AtMost t.dirty none t.by_ino (λ b e. absurd (cc)))
