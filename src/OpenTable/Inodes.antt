-- ===== src/OpenTable/Inodes.antt =====
-- open_table.rs, `OpenInodes`: per-inode state as a struct of arrays indexed by slot.
pub mod Live
pub mod Valid
use vibedbfs.Prelude.{
  ℕ, List, [], ◌∷◌, Option, none, some, Bool, false, not, ltb, leb, ◌==◌, if◌then◌else◌, ◌&&◌, Vec,
  empty_vec, push, set_at, map, pos, is_empty, length,
}
use vibedbfs.Model.{FileKind, regular_file, Timestamp}
use vibedbfs.Arena.{as_u32}
use vibedbfs.Arena.Dirty.{DirtyIdx}

-- `by_ino` lists the live inodes in the order in which the hash map yields them.
pub record OpenInodes : Type 0 where
  pub ino : Vec ℕ
  pub kind : Vec FileKind
  pub size : Vec ℕ
  pub mtime : Vec Timestamp
  pub refs : Vec ℕ
  pub unlinked : Vec Bool
  pub dirty : Vec DirtyIdx
  pub by_ino : List (ℕ × ℕ)
  pub free : List ℕ

abbrev pub epoch : Timestamp
epoch = record { secs = pos 0; nsec = 0 }

abbrev pub no_inodes : OpenInodes
no_inodes = record {
  ino = empty_vec 0;
  kind = empty_vec regular_file;
  size = empty_vec 0;
  mtime = empty_vec epoch;
  refs = empty_vec 0;
  unlinked = empty_vec false;
  dirty = empty_vec [];
  by_ino = [];
  free = [];
}

abbrev pub lookup_ino : ℕ → List (ℕ × ℕ) → Option ℕ
lookup_ino ino [] = none
lookup_ino ino ((k, slot) ∷ xs) = if k == ino then some slot else lookup_ino ino xs

-- `HashMap::insert` and `HashMap::remove`.
abbrev pub remove_ino : ℕ → List (ℕ × ℕ) → List (ℕ × ℕ)
remove_ino ino [] = []
remove_ino ino ((k, slot) ∷ xs) =
    if k == ino then remove_ino ino xs else (k, slot) ∷ remove_ino ino xs

abbrev pub insert_ino : ℕ → ℕ → List (ℕ × ℕ) → List (ℕ × ℕ)
insert_ino ino slot xs = (ino, slot) ∷ remove_ino ino xs

unfoldable pub find : OpenInodes → ℕ → Option ℕ
find t ino = lookup_ino ino t.by_ino

unfoldable pub insert : OpenInodes → ℕ → FileKind → ℕ → ℕ × OpenInodes
insert t ino kind size = elim t.free [
  | slot ∷ rest ↦ (
    slot,
    record t {
      ino = set_at t.ino slot ino;
      kind = set_at t.kind slot kind;
      size = set_at t.size slot size;
      mtime = set_at t.mtime slot epoch;
      refs = set_at t.refs slot 0;
      unlinked = set_at t.unlinked slot false;
      by_ino = insert_ino ino slot t.by_ino;
      free = rest;
    },
  )
  | [] ↦
      let slot = as_u32 t.ino.len in
      (
        slot,
        record t {
          ino = push t.ino ino;
          kind = push t.kind kind;
          size = push t.size size;
          mtime = push t.mtime epoch;
          refs = push t.refs 0;
          unlinked = push t.unlinked false;
          dirty = push t.dirty [];
          by_ino = insert_ino ino slot t.by_ino;
        },
      )
]

unfoldable pub remove : OpenInodes → ℕ → OpenInodes
remove t slot = record t {
  by_ino = remove_ino (t.ino.at slot) t.by_ino;
  refs = set_at t.refs slot 0;
  unlinked = set_at t.unlinked slot false;
  free = slot ∷ t.free;
}

unfoldable pub is_open : OpenInodes → ℕ → Bool
is_open t slot = ltb 0 (t.refs.at slot)

unfoldable pub live_slots : OpenInodes → List ℕ
live_slots t = map (λ e. e.1) t.by_ino

-- `max_by_key`: the last of the elements with the largest key.
abbrev pub largest : Vec DirtyIdx → Option ℕ → List (ℕ × ℕ) → Option ℕ
largest dirty best [] = best
largest dirty none ((ino, slot) ∷ xs) =
    largest dirty (if is_empty (dirty.at slot) then none else some slot) xs
largest dirty (some b) ((ino, slot) ∷ xs) =
    largest dirty
      (if not (is_empty (dirty.at slot)) && leb (length (dirty.at b)) (length (dirty.at slot))
        then some slot
        else some b)
      xs

unfoldable pub largest_dirty : OpenInodes → Option ℕ
largest_dirty t = largest t.dirty none t.by_ino
