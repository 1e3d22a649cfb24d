-- ===== src/Arena/Dirty/Held.antt =====
-- The arena slots that a dirty index holds, and giving them all back.
use vibedbfs.Prelude.{ℕ, ◌+◌, ◌<◌, ◌≡◌, ◌≢◌, refl, ◌∙◌, [], ◌∷◌, some, true, arith}
use vibedbfs.Arena.{ChunkArena, release}
use vibedbfs.Arena.Slots.{IsValid, in_use, release_lem}
use vibedbfs.Arena.Dirty.{DirtyIdx, release_into}
use vibedbfs.Arena.Dirty.Order.{Ascending, slot_of, slot_of_below}

-- A chunk behind the first entry has a larger index, and is found behind it.
slot_of_tail :
    (k x l y : ℕ) (xs : DirtyIdx)
    → Ascending (k + 1) xs
    → slot_of l xs ≡ some y
    → (k < l) × (slot_of l ((k, x) ∷ xs) ≡ some y)
slot_of_tail k x l y xs h e = ground (arith, slot_of_below l (k + 1) xs h)

-- The slots of an index are in use, and no two chunks share one.
pub record Holds (xs : DirtyIdx) (a : ChunkArena) : Type 0 where
  pub owned : (k x : ℕ) → slot_of k xs ≡ some x → in_use a x ≡ true
  pub apart : (k l x : ℕ) → slot_of k xs ≡ some x → slot_of l xs ≡ some x → k ≡ l

-- What giving back all slots of an index does.
pub record AllReleased (xs : DirtyIdx) (a b : ChunkArena) : Type 0 where
  pub valid : IsValid b
  pub others : (x : ℕ) → ((k : ℕ) → slot_of k xs ≢ some x) → in_use b x ≡ in_use a x

head_slot : (k x : ℕ) (xs : DirtyIdx) → slot_of k ((k, x) ∷ xs) ≡ some x
head_slot k x xs = ground arith

tail_apart :
    (k x l y : ℕ) (xs : DirtyIdx) (a : ChunkArena)
    → Ascending (k + 1) xs
    → Holds ((k, x) ∷ xs) a
    → slot_of l xs ≡ some y
    → y ≢ x
tail_apart k x l y xs a h holds e same =
    let t = slot_of_tail k x l y xs h e in
    let both : k ≡ l = holds.apart k l x (head_slot k x xs) (t.1 ∙ ground arith) in
    omega (arith, t.0)

pub release_into_lem :
    (low : ℕ) (xs : DirtyIdx) (a : ChunkArena)
    → IsValid a
    → Ascending low xs
    → Holds xs a
    → AllReleased xs a (release_into xs a)
unfolding release_into
release_into_lem low [] a v h holds = record { valid = v; others = λ x n. refl }
release_into_lem low ((k, x) ∷ xs) a v h holds =
    let r = release_lem a x v (holds.owned k x (head_slot k x xs)) in
    let tail : Holds xs (release a x) = record {
      owned = λ l y e.
          r.others y (tail_apart k x l y xs a h.1 holds e)
          ∙ holds.owned l y (slot_of_tail k x l y xs h.1 e).1;
      apart = λ l m y e f.
          holds.apart l m y (slot_of_tail k x l y xs h.1 e).1 (slot_of_tail k x m y xs h.1 f).1;
    } in
    let rest = release_into_lem (k + 1) xs (release a x) r.valid h.1 tail in
    record {
      valid = rest.valid;
      others = λ y n.
          rest.others y (λ l e. n l (slot_of_tail k x l y xs h.1 e).1)
          ∙ r.others y (λ same. n k (head_slot k x xs ∙ ground arith));
    }
