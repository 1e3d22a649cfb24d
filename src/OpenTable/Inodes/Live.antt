-- ===== src/OpenTable/Inodes/Live.antt =====
-- The map from inode numbers to slots: its slots are live and stand once each.
use vibedbfs.Prelude.{
  ℕ, ◌≡◌, ◌≢◌, List, [], ◌∷◌, some, true, false, ◌==◌, map, member, Distinct, arith, Bool-cases,
  inl, inr,
}
use vibedbfs.OpenTable.Inodes.{lookup_ino}

-- The inode numbers of a map.
abbrev pub keys : List (ℕ × ℕ) → List ℕ
keys xs = map (λ e. e.0) xs

abbrev pub slots : List (ℕ × ℕ) → List ℕ
slots xs = map (λ e. e.1) xs

pub lookup-member :
    (k w : ℕ) (xs : List (ℕ × ℕ)) → lookup_ino k xs ≡ some w → member k (keys xs) ≡ true
lookup-member k w [] e = cc
lookup-member k w ((l, v) ∷ xs) e = ground (arith, lookup-member k w xs)

-- A key behind the first entry is found as before.
lookup_tail :
    (k w l v : ℕ) (xs : List (ℕ × ℕ))
    → member l (keys xs) ≡ false
    → lookup_ino k xs ≡ some w
    → (k ≢ l) × (lookup_ino k ((l, v) ∷ xs) ≡ some w)
lookup_tail k w l v xs h e =
    let m = lookup-member k w xs e in
    elim (Bool-cases (l == k)) [
      | inl same ↦ let lk : l ≡ k = ground arith in let both = rw lk at h in absurd (cc)
      | inr other ↦ (ground arith, rw other e)
    ]

-- Each slot of the map is the one of some inode number.
pub slot_key :
    (w : ℕ) (xs : List (ℕ × ℕ))
    → Distinct (keys xs)
    → member w (slots xs) ≡ true
    → (k : ℕ) × (lookup_ino k xs ≡ some w)
slot_key w [] d m = cc
slot_key w ((l, v) ∷ xs) d m = elim (Bool-cases (w == v)) [
  | inl same ↦ (l, ground arith)
  | inr other ↦
      let (k, e) = slot_key w xs d.1 (ground arith) in (k, (lookup_tail k w l v xs d.0 e).1)
]

-- Where every slot knows its inode number, no slot stands twice.
pub slots-Distinct :
    (ino : ℕ → ℕ) (xs : List (ℕ × ℕ))
    → Distinct (keys xs)
    → ((k w : ℕ) → lookup_ino k xs ≡ some w → ino w ≡ k)
    → Distinct (slots xs)
slots-Distinct ino [] d f = tt
slots-Distinct ino ((l, v) ∷ xs) d f = (
  elim (Bool-cases (member v (slots xs))) [
    | inr once ↦ once
    | inl twice ↦
        let (k, e) = slot_key v xs d.1 twice in
        let t = lookup_tail k v l v xs d.0 e in
        let here : ino v ≡ l = f l v (ground arith) in
        let there : ino v ≡ k = f k v t.1 in absurd (t.0 (ground arith))
  ],
  slots-Distinct ino xs d.1 (λ k w e. f k w (lookup_tail k w l v xs d.0 e).1),
)
