-- ===== src/Db/Dirs/Walk.antt =====
-- The walk of `is_descendant` to the root.
use vibedbfs.Prelude.{
  ℕ, zero, suc, ◌+◌, ◌<◌, ◌≤◌, ◌≡◌, refl, ◌∙◌, ap, none, some, Bool, true, false, ◌==◌, ok, length,
  arith, Bool-cases, Option-cases, inl, inr, ◌⊎◌, ◌↔◌,
}
use vibedbfs.Db.{Tables, Engine, Dirent}
use vibedbfs.Db.Dirs.{parent_entry, ancestor_walk, is_descendant}

-- `above` contains `ino`, directly or through directories below the root.
pub data IsAbove (t : Tables) (above : ℕ) : ℕ → Type 0 where
  direct :
      (ino : ℕ) (d : Dirent)
      → (ino == 1) ≡ false
      → parent_entry t ino ≡ some d
      → (d.parent == above) ≡ true
      → IsAbove t above ino
  through :
      (ino : ℕ) (d : Dirent)
      → (ino == 1) ≡ false
      → parent_entry t ino ≡ some d
      → IsAbove t above (d.parent)
      → IsAbove t above ino

-- The entries form a tree: a depth that grows from parent to child, and at most by one an entry.
pub record IsTree (t : Tables) : Type 0 where
  pub depth : ℕ → ℕ
  pub grows : (ino : ℕ) (d : Dirent) → parent_entry t ino ≡ some d → depth (d.parent) < depth ino
  pub low : (ino : ℕ) → depth ino ≤ length t.dirents

walk_ends :
    (t : Tables) (tree : IsTree t) (fuel ino above : ℕ)
    → tree.depth ino < fuel
    → (b : Bool) × (ancestor_walk fuel t ino above ≡ some b)
unfolding ancestor_walk
walk_ends t tree zero ino above h = absurd (omega arith)
walk_ends t tree (suc fuel) ino above h = elim (Bool-cases (ino == 1)) [
  | inl root ↦ (false, rw root)
  | inr low ↦ elim (Option-cases (parent_entry t ino)) [
    | inl gone ↦ (false, rw (low, gone))
    | inr (d, e) ↦
        let (b, rest) =
          walk_ends t tree fuel (d.parent) above (omega (arith, tree.grows ino d e)) in
        elim (Bool-cases (d.parent == above)) [
          | inl here ↦ (true, rw (low, e, here))
          | inr on ↦ (b, rw (low, e, on, rest))
        ]
  ]
]

walk_sound :
    (t : Tables) (fuel ino above : ℕ)
    → ancestor_walk fuel t ino above ≡ some true
    → IsAbove t above ino
unfolding ancestor_walk
walk_sound t zero ino above h = cc
walk_sound t (suc fuel) ino above h = elim (Bool-cases (ino == 1)) [
  | inl root ↦ absurd (let g = rw (ancestor_walk, root) at h in cc)
  | inr low ↦ elim (Option-cases (parent_entry t ino)) [
    | inl gone ↦ absurd (let g = rw (ancestor_walk, low, gone) at h in cc)
    | inr (d, e) ↦ elim (Bool-cases (d.parent == above)) [
      | inl here ↦ direct ino d low e here
      | inr on ↦
          let g = rw (ancestor_walk, low, e, on) at h in
          through ino d low e (walk_sound t fuel (d.parent) above g)
    ]
  ]
]

walk_complete :
    (t : Tables) (tree : IsTree t) (fuel ino above : ℕ)
    → tree.depth ino < fuel
    → IsAbove t above ino
    → ancestor_walk fuel t ino above ≡ some true
unfolding ancestor_walk
walk_complete t tree zero ino above h a = absurd (omega arith)
walk_complete t tree (suc fuel) ino above h (direct _ d low e here) = rw (low, e, here)
walk_complete t tree (suc fuel) ino above h (through _ d low e a) =
    let rest = walk_complete t tree fuel (d.parent) above (omega (arith, tree.grows ino d e)) a in
    rw (low, e, rest) (ground arith)

-- When the entries form a tree and the query is answered, the walk ends within its rounds, and
-- says that the second inode is an ancestor exactly when it is the first inode itself or
-- contains it, directly or through other directories.
pub is_descendant_lem :
    (E : Engine) (t : Tables) (ino above : ℕ)
    → IsTree t
    → E.query_failure t ≡ none
    → (b : Bool) × (is_descendant E t ino above ≡ ok (some b))
      × ((b ≡ true) ↔ ((ino ≡ above) ⊎ IsAbove t above ino))
unfolding is_descendant
is_descendant_lem E t ino above tree answers = elim (Bool-cases (ino == above)) [
  | inl same ↦ (true, rw same, ((λ h. inl (ground arith)), (λ h. refl)))
  | inr other ↦
      let fuel = length t.dirents + 1 in
      let enough : tree.depth ino < fuel = omega (arith, tree.low ino) in
      let (b, ends) = walk_ends t tree fuel ino above enough in
      (
        b,
        rw (other, answers, ends),
        (
          (λ h. inr (walk_sound t fuel ino above (ends ∙ ap some h))),
          (λ h. elim h [
            | inl same ↦ absurd (ground arith)
            | inr a ↦ let found = walk_complete t tree fuel ino above enough a in cc
          ]),
        ),
      )
]
