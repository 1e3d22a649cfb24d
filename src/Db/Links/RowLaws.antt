-- ===== src/Db/Links/RowLaws.antt =====
-- Rows looked up after the statements on `inodes`, and the kinds and counts that those statements
-- leave alone.
use vibedbfs.Prelude.{
  ℕ, ◌≡◌, refl, ℤ, pos, negsuc, List, [], ◌∷◌, Option, none, some, true, ◌==◌, if◌then◌else◌, ok,
  ap, arith, Option-cases, inl, inr,
}
use vibedbfs.Model.{FileKind, directory, from_i64}
use vibedbfs.Db.{Tables, Engine, InodeRow}
use vibedbfs.Db.Rows.{lookup_row, update_row, delete_row}
use vibedbfs.Db.Nodes.{inode_kind_of}
use vibedbfs.Db.Dirs.{is_directory_kind}
use vibedbfs.Db.Links.{is_two, is_dir, is_dir_row}

abbrev pub map_row : (InodeRow → InodeRow) → Option InodeRow → Option InodeRow
map_row f none = none
map_row f (some r) = some (f r)

pub lookup-update :
    (k j : ℕ) (f : InodeRow → InodeRow) (rows : List (ℕ × InodeRow))
    → lookup_row k (update_row j f rows)
      ≡ (if k == j then map_row f (lookup_row k rows) else lookup_row k rows)
lookup-update k j f [] = ground arith
lookup-update k j f ((l, r) ∷ rows) = ground (arith, lookup-update k j f rows)

pub lookup-delete :
    (k j : ℕ) (rows : List (ℕ × InodeRow))
    → lookup_row k (delete_row j rows) ≡ (if k == j then none else lookup_row k rows)
lookup-delete k j [] = ground arith
lookup-delete k j ((l, r) ∷ rows) = ground (arith, lookup-delete k j rows)

-- What a statement may do to a row that is looked up: keep it, or change times and links.
abbrev pub SameKind : Option InodeRow → Option InodeRow → Type 0
SameKind none none = Unit {0}
SameKind none (some r) = ⊥
SameKind (some r) none = ⊥
SameKind (some r) (some q) = q.kind ≡ r.kind

pub SameKind-dir : (o p : Option InodeRow) → SameKind o p → is_dir_row p ≡ is_dir_row o
SameKind-dir none none h = refl
SameKind-dir none (some r) h = absurd h
SameKind-dir (some r) none h = absurd h
SameKind-dir (some r) (some q) h = ap is_two h

pub SameKind-refl : (o : Option InodeRow) → SameKind o o
SameKind-refl none = tt
SameKind-refl (some r) = refl

pub SameKind-map :
    (f : InodeRow → InodeRow) (o : Option InodeRow)
    → ((r : InodeRow) → (f r).kind ≡ r.kind)
    → SameKind o (map_row f o)
SameKind-map f none h = tt
SameKind-map f (some r) h = h r

-- A kind that reads as a directory is the number of one.
dir_kind : (k : ℤ) → (from_i64 k ≡ ok directory) → is_two k ≡ true
dir_kind (pos n) e = ground arith
dir_kind (negsuc n) e = cc

pub kind_dir : (k : ℤ) (kind : FileKind) → from_i64 k ≡ ok kind → is_directory_kind kind ≡ is_two k
kind_dir (pos n) kind e = ground arith
kind_dir (negsuc n) kind e = cc

pub inode_kind_of-is_dir :
    (E : Engine) (t : Tables) (ino : ℕ) (kind : FileKind)
    → inode_kind_of E t ino ≡ ok kind
    → is_directory_kind kind ≡ is_dir t ino
unfolding inode_kind_of
inode_kind_of-is_dir E t ino kind e = elim (Option-cases (E.query_failure t)) [
  | inr (d, f) ↦ absurd (let g = rw f at e in cc)
  | inl f ↦ elim (Option-cases (lookup_row ino t.inodes)) [
    | inl g ↦ absurd (let h = rw (f, g) at e in cc)
    | inr (r, g) ↦ let h = rw (f, g) at e in rw g (kind_dir r.kind kind h)
  ]
]
