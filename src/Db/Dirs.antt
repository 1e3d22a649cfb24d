-- ===== src/Db/Dirs.antt =====
-- db.rs: directories listed and streamed, and the walk to the root.
pub mod Walk
pub mod Ordered
use vibedbfs.Prelude.{
  ℕ, zero, suc, ◌+◌, List, [], ◌∷◌, Option, none, some, Bool, true, false, ◌&&◌, ◌||◌, ltb, ◌==◌,
  if◌then◌else◌, Result, ok, err, ◌>>=◌, ◌>>◌, map_ok, length, find_first,
}
use vibedbfs.Model.{FileKind, directory, DirEntry, DbError, not_directory, sqlite, from_i64}
use vibedbfs.Db.{Tables, Engine, Dirent, query}
use vibedbfs.Db.Rows.{lookup_row}
use vibedbfs.Db.Nodes.{inode_kind_of, one_row}

abbrev pub is_directory_kind : FileKind → Bool
is_directory_kind directory = true
is_directory_kind _ = false

-- `if self.inode_kind_of(ino)? != FileKind::Directory { return Err(NotDirectory) }`.
abbrev pub require_directory : FileKind → Result DbError (Unit {0})
require_directory directory = ok tt
require_directory _ = err not_directory

-- The order of blobs, by their bytes.
abbrev pub name_le : List ℕ → List ℕ → Bool
name_le [] ys = true
name_le (x ∷ xs) [] = false
name_le (x ∷ xs) (y ∷ ys) = ltb x y || (x == y && name_le xs ys)

abbrev pub insert_by_name : DirEntry → List DirEntry → List DirEntry
insert_by_name e [] = e ∷ []
insert_by_name e (f ∷ fs) = if name_le e.name f.name then e ∷ f ∷ fs else f ∷ insert_by_name e fs

-- The entries of `parent` that join to an inode; a bad kind is a conversion failure.
unfoldable pub joined_entries : Engine → Tables → ℕ → List Dirent → Result DbError (List DirEntry)
joined_entries E t parent [] = ok []
joined_entries E t parent (d ∷ ds) =
    let rest = joined_entries E t parent ds in
    if d.parent == parent
    then elim (lookup_row d.child t.inodes) [
      | none ↦ rest
      | some row ↦ elim (from_i64 row.kind) [
        | err e ↦ err (sqlite E.conversion_message)
        | ok kind ↦
            map_ok (insert_by_name (record { name = d.name; ino = d.child; kind = kind })) rest
      ]
    ]
    else rest

unfoldable pub list_dir : Engine → Tables → ℕ → Result DbError (List DirEntry)
list_dir E t ino = do
  kind ← inode_kind_of E t ino
  require_directory kind
  entries ← query E t (joined_entries E t ino t.dirents)
  entries

-- The loop of `read_dir_after` over the entries in id order. `emit` updates the caller's state and
-- says whether to stop.
unfoldable pub stream_entries :
    {S : Type 0} (emit : S → ℕ → List ℕ → ℕ → FileKind → S × Bool) (t : Tables) (parent after : ℕ)
    → List Dirent
    → S
    → Result DbError S
stream_entries emit t parent after [] s = ok s
stream_entries emit t parent after (d ∷ ds) s =
    let rest = stream_entries emit t parent after ds s in
    elim (d.parent == parent && ltb after d.id) [
      | false ↦ rest
      | true ↦ elim (lookup_row d.child t.inodes) [
        | none ↦ rest
        | some row ↦ elim (from_i64 row.kind) [
          | err e ↦ err e
          | ok kind ↦
              let (s', stop) = emit s d.id d.name d.child kind in
              elim stop [ true ↦ ok s' | false ↦ stream_entries emit t parent after ds s' ]
        ]
      ]
    ]

unfoldable pub read_dir_after :
    {S : Type 0} (E : Engine) (t : Tables) (ino after : ℕ)
    (emit : S → ℕ → List ℕ → ℕ → FileKind → S × Bool)
    → S
    → Result DbError S
read_dir_after E t ino after emit s = do
  kind ← inode_kind_of E t ino
  require_directory kind
  streamed ← query E t (stream_entries emit t ino after t.dirents s)
  streamed

abbrev pub parent_entry : Tables → ℕ → Option Dirent
parent_entry t ino = find_first (λ d. d.child == ino) t.dirents

unfoldable pub parent_of_dir : Engine → Tables → ℕ → Result DbError ℕ
parent_of_dir E t ino =
    if ino == 1
    then ok 1
    else (do found ← query E t (parent_entry t ino); d ← one_row found; ok d.parent)

-- The walk `while current != 1`; `none` where it has not ended after `fuel` rounds.
unfoldable pub ancestor_walk : ℕ → Tables → ℕ → ℕ → Option Bool
ancestor_walk zero t current target = none
ancestor_walk (suc fuel) t current target =
    if current == 1 then some false else elim (parent_entry t current) [
      | none ↦ some false
      | some d ↦
          let rest = ancestor_walk fuel t d.parent target in
          if d.parent == target then some true else rest
    ]

-- With one round more than there are entries.
unfoldable pub is_descendant : Engine → Tables → ℕ → ℕ → Result DbError (Option Bool)
is_descendant E t ino possible_ancestor =
    if ino == possible_ancestor
    then ok (some true)
    else query E t (ancestor_walk (length t.dirents + 1) t ino possible_ancestor)
