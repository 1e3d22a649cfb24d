-- ===== src/Db/Links/Counts.antt =====
-- How many directory entries pass a test, and what the statements on entries do to that.
use vibedbfs.Prelude.{
  ℕ, suc, ◌+◌, ◌≤◌, ◌≡◌, refl, List, [], ◌∷◌, map, none, some, Bool, true, false, ◌&&◌, ◌||◌, not,
  if◌then◌else◌, find_first, any, retain, length, arith, Bool-cases, inl, inr,
}
use vibedbfs.Db.{Dirent}
use vibedbfs.Db.Rows.{insert_by_id}

abbrev pub count : (Dirent → Bool) → List Dirent → ℕ
count p [] = 0
count p (d ∷ ds) = let rest = count p ds in if p d then suc rest else rest

abbrev pub if_counts : Bool → ℕ
if_counts true = 1
if_counts false = 0

pub count-le-length : (p : Dirent → Bool) (ds : List Dirent) → count p ds ≤ length ds
count-le-length p [] = omega arith
count-le-length p (d ∷ ds) = ground (arith, count-le-length p ds)

pub count-insert :
    (p : Dirent → Bool) (d : Dirent) (ds : List Dirent)
    → count p (insert_by_id d ds) ≡ count p ds + if_counts (p d)
count-insert p d [] = ground arith
count-insert p d (e ∷ es) = ground (arith, count-insert p d es)

pub count-retain :
    (p q : Dirent → Bool) (ds : List Dirent) → count p (retain q ds) ≡ count (λ d. p d && q d) ds
count-retain p q [] = refl
count-retain p q (d ∷ ds) = ground (arith, count-retain p q ds)

pub count-split :
    (p q : Dirent → Bool) (ds : List Dirent)
    → count p ds ≡ count (λ d. p d && q d) ds + count (λ d. p d && not (q d)) ds
count-split p q [] = omega arith
count-split p q (d ∷ ds) = ground (arith, count-split p q ds)

pub count-and-le :
    (p q : Dirent → Bool) (ds : List Dirent) → count (λ d. p d && q d) ds ≤ count q ds
count-and-le p q [] = omega arith
count-and-le p q (d ∷ ds) = ground (arith, count-and-le p q ds)

pub count-map :
    (p : Dirent → Bool) (f : Dirent → Dirent) (ds : List Dirent)
    → count p (map f ds) ≡ count (λ d. p (f d)) ds
count-map p f [] = refl
count-map p f (d ∷ ds) = ground (arith, count-map p f ds)

-- Tests that agree count alike.
pub count_cong :
    (p q : Dirent → Bool) (ds : List Dirent) → ((d : Dirent) → p d ≡ q d) → count p ds ≡ count q ds
count_cong p q [] h = refl
count_cong p q (d ∷ ds) h = ground (arith, h d, count_cong p q ds h)

pub count_none : (q : Dirent → Bool) (ds : List Dirent) → any q ds ≡ false → count q ds ≡ 0
count_none q [] e = refl
count_none q (d ∷ ds) e = ground (arith, count_none q ds)

pub find_none : (q : Dirent → Bool) (ds : List Dirent) → find_first q ds ≡ none → count q ds ≡ 0
find_none q [] e = refl
find_none q (d ∷ ds) e = ground (arith, find_none q ds)

pub find_zero : (q : Dirent → Bool) (ds : List Dirent) → count q ds ≡ 0 → find_first q ds ≡ none
find_zero q [] e = refl
find_zero q (d ∷ ds) e = ground (arith, find_zero q ds)

pub find_passes :
    (q : Dirent → Bool) (ds : List Dirent) (d : Dirent) → find_first q ds ≡ some d → q d ≡ true
find_passes q [] d e = cc
find_passes q (x ∷ ds) d e = elim (Bool-cases (q x)) [
  | inl hit ↦ ground arith
  | inr miss ↦ find_passes q ds d (ground arith)
]

both_zero :
    (p q : Dirent → Bool) (ds : List Dirent) → count q ds ≡ 0 → count (λ d. p d && q d) ds ≡ 0
both_zero p q ds e = omega (arith, count-and-le p q ds)

-- The only entry that passes `q` decides how many pass `q` and `p`.
pub count_one :
    (p q : Dirent → Bool) (ds : List Dirent) (d : Dirent)
    → count q ds ≤ 1
    → find_first q ds ≡ some d
    → count (λ x. p x && q x) ds ≡ if_counts (p d)
count_one p q [] d h e = cc
count_one p q (x ∷ ds) d h e = elim (Bool-cases (q x)) [
  | inl hit ↦
      let xd : x ≡ d = ground arith in
      let rest = both_zero p q ds (ground arith) in rw (← xd) (ground (arith, rest))
  | inr miss ↦ ground (arith, count_one p q ds d)
]

-- Removing the only entry that passes `q`.
pub count-removed :
    (p q : Dirent → Bool) (ds : List Dirent) (d : Dirent)
    → count q ds ≤ 1
    → find_first q ds ≡ some d
    → count p ds ≡ count p (retain (λ x. not (q x)) ds) + if_counts (p d)
count-removed p q ds d h e =
    omega (arith, count-split p q ds, count-retain p (λ x. not (q x)) ds, count_one p q ds d h e)

pub find-insert :
    (q : Dirent → Bool) (d : Dirent) (ds : List Dirent)
    → (q d ≡ true → count q ds ≡ 0)
    → find_first q (insert_by_id d ds) ≡ (if q d then some d else find_first q ds)
find-insert q d [] h = refl
find-insert q d (e ∷ es) h = elim (Bool-cases (q e)) [
  | inl hit ↦ ground arith
  | inr miss ↦ ground (arith, find-insert q d es (λ x. ground (arith, h x)))
]

pub find-retain :
    (q r : Dirent → Bool) (ds : List Dirent)
    → ((d : Dirent) → q d ≡ true → r d ≡ true)
    → find_first q (retain r ds) ≡ find_first q ds
find-retain q r [] h = refl
find-retain q r (d ∷ ds) h = ground (arith, h d, find-retain q r ds h)

pub find_none-any :
    (q : Dirent → Bool) (ds : List Dirent) → find_first q ds ≡ none → any q ds ≡ false
find_none-any q [] e = refl
find_none-any q (d ∷ ds) e = ground (arith, find_none-any q ds)

pub count_or :
    (p q : Dirent → Bool) (ds : List Dirent)
    → count p ds ≡ 0
    → count q ds ≡ 0
    → count (λ d. p d || q d) ds ≡ 0
count_or p q [] a b = refl
count_or p q (d ∷ ds) a b = ground (arith, count_or p q ds)

pub retain_all :
    (q : Dirent → Bool) (ds : List Dirent) → count q ds ≡ 0 → retain (λ d. not (q d)) ds ≡ ds
retain_all q [] e = refl
retain_all q (d ∷ ds) e = ground (arith, retain_all q ds)

pub length-retain : (q : Dirent → Bool) (ds : List Dirent) → length (retain q ds) ≡ count q ds
length-retain q [] = refl
length-retain q (d ∷ ds) = ground (arith, length-retain q ds)
