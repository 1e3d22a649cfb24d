-- ===== src/OpenTable/Inodes/Valid.antt =====
-- The open table's columns: a slot is either free or the one of its inode.
pub mod Insert
pub mod Remove
pub mod Largest
use vibedbfs.Prelude.{
  ℕ, suc, ◌+◌, ◌^◌, ◌≤◌, ◌<◌, ◌≡◌, ◌≢◌, refl, ◌∙◌, sym, ap, List, [], ◌∷◌, Option, none, some, Bool,
  true, false, ◌&&◌, ◌||◌, ◌==◌, if◌then◌else◌, map, member, Distinct, All, is_empty, arith,
  Bool-cases, inl, inr, Vec,
}
use vibedbfs.Model.{FileKind}
use vibedbfs.OpenTable.Inodes.{
  OpenInodes, find, insert, remove, lookup_ino, remove_ino, insert_ino, epoch,
}
use vibedbfs.OpenTable.Inodes.Live.{keys, slots, lookup-member}

pub record IsValid (t : OpenInodes) : Type 0 where
  pub kind_len : t.kind.len ≡ t.ino.len
  pub size_len : t.size.len ≡ t.ino.len
  pub mtime_len : t.mtime.len ≡ t.ino.len
  pub refs_len : t.refs.len ≡ t.ino.len
  pub unlinked_len : t.unlinked.len ≡ t.ino.len
  pub dirty_len : t.dirty.len ≡ t.ino.len
  pub keys_distinct : Distinct (keys t.by_ino)
  pub found : (ino i : ℕ) → find t ino ≡ some i → (i < t.ino.len) × (t.ino.at i ≡ ino)
  pub free_distinct : Distinct t.free
  pub free_in_range : (i : ℕ) → member i t.free ≡ true → i < t.ino.len
  pub free_idle :
      (i : ℕ)
      → member i t.free ≡ true
      → (find t (t.ino.at i) ≢ some i) × (is_empty (t.dirty.at i) ≡ true)

-- What an insertion does: one slot that was not live is now the one of `ino`, with fresh columns.
pub record Inserted (t : OpenInodes) (ino : ℕ) (kind : FileKind) (size : ℕ) (i : ℕ) (u : OpenInodes)
    : Type 0 where
  pub valid : IsValid u
  pub now_found : find u ino ≡ some i
  pub others_found : (k : ℕ) → k ≢ ino → find u k ≡ find t k
  pub was_idle : (k : ℕ) → find t k ≢ some i
  pub its_ino : u.ino.at i ≡ ino
  pub its_kind : u.kind.at i ≡ kind
  pub its_size : u.size.at i ≡ size
  pub its_mtime : u.mtime.at i ≡ epoch
  pub its_refs : u.refs.at i ≡ 0
  pub its_unlinked : u.unlinked.at i ≡ false
  pub its_dirty : u.dirty.at i ≡ []
  pub other_rows :
      (j : ℕ)
      → j ≢ i
      → (u.ino.at j ≡ t.ino.at j)
        × (u.kind.at j ≡ t.kind.at j)
        × (u.size.at j ≡ t.size.at j)
        × (u.mtime.at j ≡ t.mtime.at j)
        × (u.refs.at j ≡ t.refs.at j)
        × (u.unlinked.at j ≡ t.unlinked.at j)
        × (u.dirty.at j ≡ t.dirty.at j)

pub lookup-remove :
    (k ino : ℕ) (xs : List (ℕ × ℕ))
    → lookup_ino k (remove_ino ino xs) ≡ (if k == ino then none else lookup_ino k xs)
lookup-remove k ino [] = ground arith
lookup-remove k ino ((l, i) ∷ xs) = ground (arith, lookup-remove k ino xs)

member-remove :
    (k ino : ℕ) (xs : List (ℕ × ℕ))
    → member k (keys (remove_ino ino xs)) ≡ (if k == ino then false else member k (keys xs))
member-remove k ino [] = ground arith
member-remove k ino ((l, i) ∷ xs) = ground (arith, member-remove k ino xs)

pub remove-Distinct :
    (ino : ℕ) (xs : List (ℕ × ℕ)) → Distinct (keys xs) → Distinct (keys (remove_ino ino xs))
remove-Distinct ino [] d = tt
remove-Distinct ino ((l, i) ∷ xs) d =
    ground (arith, remove-Distinct ino xs d.1, member-remove l ino xs)

pub insert-Distinct :
    (ino i : ℕ) (xs : List (ℕ × ℕ)) → Distinct (keys xs) → Distinct (keys (insert_ino ino i xs))
insert-Distinct ino i xs d = (member-remove ino ino xs ∙ ground arith, remove-Distinct ino xs d)

pub lookup-insert :
    (k ino i : ℕ) (xs : List (ℕ × ℕ))
    → lookup_ino k (insert_ino ino i xs) ≡ (if k == ino then some i else lookup_ino k xs)
lookup-insert k ino i xs = ground (arith, lookup-remove k ino xs)
