-- ===== src/Db/Links.antt =====
-- Names and link counts: every file has as many links as names, and names are unique.
pub mod Counts
pub mod RowLaws
pub mod Added
pub mod Touched
pub mod Create
pub mod Link
pub mod Removed
pub mod Lookup
pub mod Deleted
pub mod Unlink
pub mod RemoveDir
pub mod Moved
pub mod Rename
pub mod Opened
use vibedbfs.Prelude.{
  ℕ, suc, ◌≤◌, ◌≡◌, ℤ, pos, negsuc, List, [], ◌∷◌, Option, none, some, Bool, true, false, ◌==◌,
  if◌then◌else◌, find_first, length, ◌&&◌, list_eq, ◌<◌, ◌+◌, ◌^◌,
}
use vibedbfs.Db.{Tables, InodeRow, Dirent}
use vibedbfs.Db.Rows.{lookup_row, is_entry}
use Counts.{count}

abbrev pub child_is : ℕ → Dirent → Bool
child_is ino d = d.child == ino

abbrev pub parent_is : ℕ → Dirent → Bool
parent_is ino d = d.parent == ino

abbrev pub is_two : ℤ → Bool
is_two (pos n) = n == 2
is_two (negsuc n) = false

-- A row whose kind is a directory.
abbrev pub is_dir_row : Option InodeRow → Bool
is_dir_row none = false
is_dir_row (some r) = is_two r.kind

abbrev pub is_dir : Tables → ℕ → Bool
is_dir t ino = is_dir_row (lookup_row ino t.inodes)

-- The entry of a name.
abbrev pub entry : Tables → ℕ → List ℕ → Option Dirent
entry t parent name = find_first (is_entry parent name) t.dirents

abbrev pub names : Tables → ℕ → ℕ
names t ino = count (child_is ino) t.dirents

-- Names are unique in a directory, entries stand in directories and name inodes, a directory has one
-- name at most, and an inode that is no directory has as many links as names.
pub record IsLinked (t : Tables) : Type 0 where
  pub unique : (parent : ℕ) (name : List ℕ) → count (is_entry parent name) t.dirents ≤ 1
  pub children : (ino : ℕ) → lookup_row ino t.inodes ≡ none → names t ino ≡ 0
  pub parents : (ino : ℕ) → is_dir t ino ≡ false → count (parent_is ino) t.dirents ≡ 0
  pub single : (ino : ℕ) → is_dir t ino ≡ true → names t ino ≤ 1
  pub links :
      (ino : ℕ) (r : InodeRow)
      → lookup_row ino t.inodes ≡ some r
      → is_two r.kind ≡ false
      → r.nlink ≡ pos (names t ino)

-- From `t` to `u`, the name of `d` is new, and every other name keeps its entry.
abbrev pub Adds : Dirent → Tables → Tables → Type 0
Adds d t u =
    (parent : ℕ) (name : List ℕ)
    → entry u parent name ≡ (if is_entry parent name d then some d else entry t parent name)

-- From `t` to `u`, a name is gone, and every other name keeps its entry.
abbrev pub Drops : ℕ → List ℕ → Tables → Tables → Type 0
Drops parent name t u =
    (p : ℕ) (n : List ℕ)
    → entry u p n ≡ (if p == parent && list_eq n name then none else entry t p n)

-- From `t` to `u`, the entry `d` moved from a name to another, which led nowhere or is replaced.
abbrev pub Moves : ℕ → List ℕ → ℕ → List ℕ → Dirent → Tables → Tables → Type 0
Moves parent name new_parent new_name d t u =
    (p : ℕ) (n : List ℕ)
    → entry u p n ≡ (
        if p == new_parent && list_eq n new_name
        then some (record d { parent = new_parent; name = new_name })
        else (if p == parent && list_eq n name then none else entry t p n))

-- Fewer entries than a u32 can count.
abbrev pub FewEntries : Tables → Type 0
FewEntries t = length t.dirents + 1 < 2 ^ 32
