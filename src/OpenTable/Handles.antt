-- ===== src/OpenTable/Handles.antt =====
-- open_table.rs, `Handles`: FUSE file handles as indices of a table of slots.
pub mod Reuse
use vibedbfs.Prelude.{
  ℕ, ◌+◌, ◌-◌, ◌^◌, List, [], ◌∷◌, Option, none, some, ltb, ◌==◌, if◌then◌else◌, Vec, empty_vec,
  push, set_at,
}
use vibedbfs.Arena.{as_u32}

-- `Slot::MAX`.
abbrev pub no_slot : ℕ
no_slot = 4294967295

pub record HandleTable : Type 0 where
  pub slot : Vec ℕ
  pub free : List ℕ

abbrev pub no_handles : HandleTable
no_handles = record { slot = empty_vec 0; free = [] }

unfoldable pub alloc : HandleTable → ℕ → ℕ × HandleTable
alloc h slot = elim h.free [
  | fh ∷ rest ↦ (fh, record { slot = set_at h.slot fh slot; free = rest })
  | [] ↦ (h.slot.len, record { slot = push h.slot slot; free = [] })
]

unfoldable pub get : HandleTable → ℕ → Option ℕ
get h fh =
    if ltb fh h.slot.len
    then (if h.slot.at fh == no_slot then none else some (h.slot.at fh))
    else none

unfoldable pub release : HandleTable → ℕ → Option (ℕ × HandleTable)
release h fh = elim (get h fh) [
  | none ↦ none
  | some slot ↦ some (slot, record { slot = set_at h.slot fh no_slot; free = as_u32 fh ∷ h.free })
]
