-- ===== src/Db/Migrate/Renumbered.antt =====
-- The upgrade of `dirents`: entries that get ids.
use vibedbfs.Prelude.{
  All, ◌<◌, ℕ, suc, ◌≡◌, refl, ◌∙◌, List, [], ◌∷◌, ◌&&◌, ◌==◌, if◌then◌else◌, list_eq, arith,
  Bool-cases, inl, inr,
}
use vibedbfs.Db.Dirs.Ordered.{IsOrdered}
use vibedbfs.Db.{Dirent}
use vibedbfs.Db.Migrate.{Unnumbered, entry_le, insert_entry, sort_entries, number_from}

-- How often an entry stands in a directory.
abbrev pub times : ℕ → List ℕ → ℕ → List Dirent → ℕ
times parent name child [] = 0
times parent name child (d ∷ ds) =
    let rest = times parent name child ds in
    if (d.parent == parent) && list_eq d.name name && (d.child == child) then suc rest else rest

abbrev pub times_before : ℕ → List ℕ → ℕ → List Unnumbered → ℕ
times_before parent name child [] = 0
times_before parent name child (d ∷ ds) =
    let rest = times_before parent name child ds in
    if (d.parent == parent) && list_eq d.name name && (d.child == child) then suc rest else rest

pub times-number_from :
    (parent : ℕ) (name : List ℕ) (child n : ℕ) (ds : List Unnumbered)
    → times parent name child (number_from n ds) ≡ times_before parent name child ds
times-number_from parent name child n [] = refl
times-number_from parent name child n (d ∷ ds) =
    ground (arith, times-number_from parent name child (suc n) ds)

times-insert_entry :
    (parent : ℕ) (name : List ℕ) (child : ℕ) (d : Unnumbered) (ds : List Unnumbered)
    → times_before parent name child (insert_entry d ds) ≡ times_before parent name child (d ∷ ds)
times-insert_entry parent name child d [] = refl
times-insert_entry parent name child d (e ∷ ds) = elim (Bool-cases (entry_le d e)) [
  | inl le ↦ rw le refl
  | inr gt ↦ rw gt (ground (arith, times-insert_entry parent name child d ds))
]

pub times-sort_entries :
    (parent : ℕ) (name : List ℕ) (child : ℕ) (ds : List Unnumbered)
    → times_before parent name child (sort_entries ds) ≡ times_before parent name child ds
times-sort_entries parent name child [] = refl
times-sort_entries parent name child (d ∷ ds) =
    times-insert_entry parent name child d (sort_entries ds)
    ∙ ground (arith, times-sort_entries parent name child ds)

-- Every id is past a number.
pub number_from-All :
    (low n : ℕ) (ds : List Unnumbered) → low < n → All (λ d. low < d.id) (number_from n ds)
number_from-All low n [] lt = tt
number_from-All low n (d ∷ ds) lt = (lt, number_from-All low (suc n) ds (omega arith))

pub number_from-IsOrdered : (n : ℕ) (ds : List Unnumbered) → IsOrdered (number_from n ds)
number_from-IsOrdered n [] = tt
number_from-IsOrdered n (d ∷ ds) =
    (number_from-All n (suc n) ds (omega arith), number_from-IsOrdered (suc n) ds)
