-- ===== src/Db/Links/Lookup.antt =====
-- `lookup`: the entry and the row that it reads.
use vibedbfs.Prelude.{
  ℕ, ◌≤◌, ◌≡◌, refl, ◌∙◌, sym, ap, List, [], ◌∷◌, none, some, find_first, ok, arith, Bool-cases,
  Option-cases, Result-cases, inl, inr,
}
use vibedbfs.Model.{Inode}
use vibedbfs.Db.{Tables, Engine, InodeRow, Dirent}
use vibedbfs.Db.Rows.{lookup_row, is_entry, check_name}
use vibedbfs.Db.Nodes.{lookup, join_entry}
use vibedbfs.Db.Links.{IsLinked, entry}
use vibedbfs.Db.Links.Counts.{count}
use vibedbfs.Db.Links.Link.{IsRow, inode_from_row-IsRow}

pub join_none :
    (t : Tables) (ds : List Dirent) (p : ℕ) (n : List ℕ)
    → count (is_entry p n) ds ≡ 0
    → join_entry t ds p n ≡ none
join_none t [] p n h = refl
join_none t (d ∷ ds) p n h = ground (arith, join_none t ds p n)

join_first :
    (t : Tables) (ds : List Dirent) (p : ℕ) (n : List ℕ) (k : ℕ) (r : InodeRow)
    → count (is_entry p n) ds ≤ 1
    → join_entry t ds p n ≡ some (k, r)
    → (d : Dirent) × (find_first (is_entry p n) ds ≡ some d)
      × (d.child ≡ k)
      × (lookup_row k t.inodes ≡ some r)
join_first t [] p n k r h e = cc
join_first t (d ∷ ds) p n k r h e = elim (Bool-cases (is_entry p n d)) [
  | inr miss ↦
      let (x, found, child, row) = join_first t ds p n k r (ground arith) (ground arith) in
      (x, ground arith, child, row)
  | inl hit ↦ elim (Option-cases (lookup_row d.child t.inodes)) [
    | inl gone ↦ absurd (let rest = join_none t ds p n (ground arith) in ground arith)
    | inr (q, kept) ↦ (d, ground arith, ground arith, ground arith)
  ]
]

-- The row and the entry of an inode that was looked up.
pub record Found (t : Tables) (parent : ℕ) (name : List ℕ) (inode : Inode) : Type 0 where
  pub dirent : Dirent
  pub row : InodeRow
  pub named : entry t parent name ≡ some dirent
  pub child : dirent.child ≡ inode.ino
  pub stored : lookup_row inode.ino t.inodes ≡ some row
  pub read : IsRow inode.ino inode row

pub lookup-Found :
    (E : Engine) (t : Tables) (parent : ℕ) (name : List ℕ) (inode : Inode)
    → IsLinked t
    → lookup E t parent name ≡ ok inode
    → Found t parent name inode
unfolding lookup
lookup-Found E t parent name inode v e = elim (Result-cases (check_name name)) [
  | inr (x, c) ↦ absurd (let h = rw c at e in cc)
  | inl (x, c) ↦ elim (Option-cases (E.query_failure t)) [
    | inr (x, f) ↦ absurd (let g = rw (c, f) at e in cc)
    | inl f ↦ elim (Option-cases (join_entry t t.dirents parent name)) [
      | inl g ↦ absurd (let h = rw (c, f, g) at e in cc)
      | inr ((k, r), g) ↦
          let (d, found, child, row) =
            join_first t t.dirents parent name k r (v.unique parent name) g in
          let read = inode_from_row-IsRow E k r inode (rw (c, f, g) at e) in
          record {
            dirent = d;
            row = r;
            named = found;
            child = child ∙ sym (read.number);
            stored = ap (λ j. lookup_row j t.inodes) (read.number) ∙ row;
            read = record { number = refl; tag = read.tag; kind = read.kind; nlink = read.nlink };
          }
    ]
  ]
]
