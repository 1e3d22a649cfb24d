-- ===== src/OpenTable/Handles/Reuse.antt =====
-- Handles are distinct while they live, and invalid once released.
use vibedbfs.Prelude.{
  ℕ, ◌≤◌, ◌<◌, ◌^◌, ◌≡◌, ◌≢◌, refl, List, [], ◌∷◌, Option, none, some, false, ◌==◌, if◌then◌else◌,
  Vec, arith, member, Distinct, All, Bool-cases, Option-cases, inl, inr, set_at,
}
use vibedbfs.Arena.{as_u32}
use vibedbfs.OpenTable.Handles.{HandleTable, no_slot, no_handles, alloc, get, release}

-- Free handles are distinct and point nowhere.
pub record IsValid (h : HandleTable) : Type 0 where
  pub distinct : Distinct h.free
  pub unused : All (λ fh. (fh < h.slot.len) × (h.slot.at fh ≡ no_slot)) h.free
  pub indexable : h.slot.len ≤ 2 ^ 32

pub no_handles-IsValid : IsValid no_handles
no_handles-IsValid = omega arith

-- A new handle was not in use, reads back its slot, and leaves the others as they were.
pub record Opened (h : HandleTable) (slot fh : ℕ) (g : HandleTable) : Type 0 where
  pub valid : IsValid g
  pub fresh : get h fh ≡ none
  pub points : get g fh ≡ some slot
  pub others : (j : ℕ) → j ≢ fh → get g j ≡ get h j

kept_unused :
    (at : ℕ → ℕ) (n fh slot : ℕ) (xs : List ℕ)
    → member fh xs ≡ false
    → All (λ f. (f < n) × (at f ≡ no_slot)) xs
    → All (λ f. (f < n) × ((if f == fh then slot else at f) ≡ no_slot)) xs
kept_unused at n fh slot [] m h = tt
kept_unused at n fh slot (x ∷ xs) m h =
    (ground arith, kept_unused at n fh slot xs (ground arith) h.1)

alloc-cases :
    (v : Vec ℕ) (free : List ℕ) (slot : ℕ)
    → let h : HandleTable = record { slot = v; free = free } in
      IsValid h → v.len < 2 ^ 32 → slot < no_slot → Opened h slot (alloc h slot).0 (alloc h slot).1
unfolding alloc get
alloc-cases v [] slot valid room s = record {
  valid = ground arith;
  fresh = ground arith;
  points = ground arith;
  others = λ j ne. ground arith;
}
alloc-cases v (fh ∷ rest) slot valid room s = record {
  valid = record {
    distinct = valid.distinct.1;
    unused = kept_unused v.at v.len fh slot rest valid.distinct.0 valid.unused.1;
    indexable = valid.indexable;
  };
  fresh = ground arith;
  points = ground arith;
  others = λ j ne. ground arith;
}

-- With fewer than 2^32 handles made, a new handle to a slot below NO_SLOT was not in use, reads back
-- its slot, leaves every other handle as it was, and keeps the table valid.
pub alloc_handle_lem :
    (h : HandleTable) (slot : ℕ)
    → IsValid h
    → h.slot.len < 2 ^ 32
    → slot < no_slot
    → Opened h slot (alloc h slot).0 (alloc h slot).1
alloc_handle_lem h slot valid room s = alloc-cases h.slot h.free slot valid room s

-- What `release` does: it fails on an invalid handle, and invalidates a valid one only.
abbrev pub ReleaseSpec : HandleTable → ℕ → Option (ℕ × HandleTable) → Type 0
ReleaseSpec h fh none = get h fh ≡ none
ReleaseSpec h fh (some (slot, g)) =
    (get h fh ≡ some slot)
    × IsValid g
    × (release g fh ≡ none)
    × ((j : ℕ) → j ≢ fh → get g j ≡ get h j)

not-member_of_live :
    (h : HandleTable) (fh : ℕ) (xs : List ℕ)
    → All (λ f. (f < h.slot.len) × (h.slot.at f ≡ no_slot)) xs
    → h.slot.at fh ≢ no_slot
    → member fh xs ≡ false
not-member_of_live h fh [] u ne = refl
not-member_of_live h fh (x ∷ xs) u ne = elim (Bool-cases (fh == x)) [
  | inl e ↦ let e' : fh ≡ x = ground arith in absurd (ne (rw e' u.0.1))
  | inr n ↦ ground (arith, not-member_of_live h fh xs u.1)
]

release-none : (h : HandleTable) (fh : ℕ) → get h fh ≡ none → release h fh ≡ none
unfolding release
release-none h fh e = ground arith

release-some :
    (h : HandleTable) (fh slot : ℕ)
    → get h fh ≡ some slot
    → release h fh
      ≡ some (slot, record { slot = set_at h.slot fh no_slot; free = as_u32 fh ∷ h.free })
unfolding release
release-some h fh slot e = ground arith

release-live :
    (h : HandleTable) (fh slot : ℕ)
    → IsValid h
    → get h fh ≡ some slot
    → ReleaseSpec h fh
        (some (slot, record { slot = set_at h.slot fh no_slot; free = as_u32 fh ∷ h.free }))
unfolding release get
release-live h fh slot v e =
    let small : as_u32 fh ≡ fh = ground arith in
    let new = not-member_of_live h fh h.free v.unused (ground arith) in
    rw small (
      e,
      record {
        distinct = (new, v.distinct);
        unused = (
          (ground arith, ground arith),
          kept_unused h.slot.at h.slot.len fh no_slot h.free new v.unused,
        );
        indexable = v.indexable;
      },
      ground arith,
      λ j ne. ground arith,
    )

-- On a valid table, `release` fails on a handle that is not in use. It returns the slot of one that
-- is, makes that handle invalid and leaves the others as they were, and keeps the table valid.
pub release_handle_lem : (h : HandleTable) (fh : ℕ) → IsValid h → ReleaseSpec h fh (release h fh)
release_handle_lem h fh v = elim (Option-cases (get h fh)) [
  | inl e ↦ rw (release-none h fh e) e
  | inr (slot, e) ↦ rw (release-some h fh slot e) (release-live h fh slot v e)
]
