-- ===== src/Fuse/Names/Agree/Found.antt =====
-- fuse.rs, `readdir`, and db.rs, `lookup`: a listing shows what can be looked up.
use vibedbfs.Prelude.{
  ℕ, ◌<◌, ◌≤◌, ◌≡◌, ◌↔◌, refl, sym, ap, ◌∙◌, subst, List, ◌∷◌, none, some, false, ltb, ok, All,
  length, arith, Option-cases, Result-cases, inl, inr,
}
use vibedbfs.Model.{Inode}
use vibedbfs.Db.{Tables, Engine}
use vibedbfs.Db.Rows.{check_name, name_max, inode_from_row}
use vibedbfs.Db.Nodes.{lookup, join_entry}
use vibedbfs.Db.Links.{IsLinked}
use vibedbfs.Db.Links.Link.{inode_from_row-IsRow}
use vibedbfs.Fs.Attr.{FileType, file_type}
use vibedbfs.Fs.Ops.Names.{DbfsDirEntry, readdir}
use vibedbfs.Fuse.Names.Rows.{cons-cases}
use vibedbfs.Fuse.Names.Listing.{Listing, readdir-Listing, dot_entry, dotdot_entry}
use vibedbfs.Fuse.Names.Agree.{Joins, IsListed, rows-Joins, Joins-rows, listed_later}

-- A name leads to an inode of a kind.
abbrev pub Leads : Engine → Tables → ℕ → List ℕ → ℕ → FileType → Type 0
Leads E t parent name k type =
    (inode : Inode) × (lookup E t parent name ≡ ok inode)
    × (inode.ino ≡ k)
    × (file_type inode.kind ≡ type)

Joins-Leads :
    (E : Engine) (t : Tables) (ino : ℕ) (name : List ℕ) (k : ℕ) (type : FileType)
    → length name ≤ name_max
    → E.query_failure t ≡ none
    → Joins t t.dirents ino name k type
    → Leads E t ino name k type
unfolding lookup check_name inode_from_row
Joins-Leads E t ino name k type fits answers (r, kind, joined, good, typed) =
    let short : ltb name_max (length name) ≡ false = ground arith in
    elim (Result-cases (inode_from_row E k r)) [
      | inr (x, bad) ↦ absurd (let g = rw (inode_from_row, good) at bad in cc)
      | inl (inode, read) ↦
          let row = inode_from_row-IsRow E k r inode read in
          let kinds : kind ≡ inode.kind = let tag = row.tag in cc in
          (
            inode,
            rw (lookup, check_name, short, answers, joined, read) refl,
            row.number,
            sym (ap file_type kinds) ∙ typed,
          )
    ]

Leads-Joins :
    (E : Engine) (t : Tables) (ino : ℕ) (name : List ℕ) (k : ℕ) (type : FileType)
    → length name ≤ name_max
    → E.query_failure t ≡ none
    → Leads E t ino name k type
    → Joins t t.dirents ino name k type
unfolding lookup check_name
Leads-Joins E t ino name k type fits answers (inode, found, number, typed) =
    let short : ltb name_max (length name) ≡ false = ground arith in
    elim (Option-cases (join_entry t t.dirents ino name)) [
      | inl gone ↦ absurd (let g = rw (lookup, check_name, short, answers, gone) at found in cc)
      | inr ((j, r), joined) ↦
          let read = rw (lookup, check_name, short, answers, joined) at found in
          let row = inode_from_row-IsRow E j r inode read in
          let same : j ≡ k = sym row.number ∙ number in
          (r, inode.kind, joined ∙ ap (λ n. some (n, r)) same, row.tag, typed)
    ]

-- Past the two dots, a listing from the start is its tail.
listed_tail :
    (E : Engine) (t : Tables) (ino : ℕ) (listed : List DbfsDirEntry) (l : Listing E t ino 0 listed)
    (name : List ℕ) (k : ℕ) (type : FileType)
    → IsListed listed name k type
    → IsListed l.tail name k type
listed_tail E t ino listed l name k type (front, e, rest, split, past, named, number, typed) =
    let whole = sym l.whole ∙ split in
    elim (cons-cases (dot_entry ino) (dotdot_entry l.parent ∷ l.tail) front e rest whole) [
      | inl (_, first, _) ↦ absurd (omega (arith, past, ap (λ x. x.offset) first))
      | inr (front', _, on) ↦ elim (cons-cases (dotdot_entry l.parent) l.tail front' e rest on) [
        | inl (_, first, _) ↦ absurd (omega (arith, past, ap (λ x. x.offset) first))
        | inr (front'', _, further) ↦ (front'', e, rest, further, past, named, number, typed)
      ]
    ]

-- Where names are unique and ids count from one, a listing from the start that succeeds has an
-- entry of a name that fits, with an inode number and a kind, besides those of `.` and `..`,
-- exactly when looking the name up gives an inode of that number and kind.
pub readdir_lem :
    (E : Engine) (t : Tables) (ino : ℕ) (listed : List DbfsDirEntry) (name : List ℕ) (k : ℕ)
    (type : FileType)
    → IsLinked t
    → All (λ d. 0 < d.id) t.dirents
    → length name ≤ name_max
    → readdir E t ino 0 ≡ ok listed
    → IsListed listed name k type ↔ Leads E t ino name k type
readdir_lem E t ino listed name k type v ids fits h =
    let l = readdir-Listing E t ino 0 listed h in
    (
      (λ shown.
          let (front, e, rest, split, _, named, number, typed) =
            listed_tail E t ino listed l name k type shown in
          let joins =
            rows-Joins t ino t.dirents front e rest (v.unique ino e.name)
              (l.tail_rows ∙ ap ok split) in
          let joins' : Joins t t.dirents ino name k type =
            subst (λ ty. Joins t t.dirents ino name k ty) typed
              (subst (λ n. Joins t t.dirents ino name n e.kind) number
                (subst (λ n. Joins t t.dirents ino n e.ino e.kind) named joins)) in
          Joins-Leads E t ino name k type fits l.answers joins'),
      (λ leads.
          let joins = Leads-Joins E t ino name k type fits l.answers leads in
          let shown = Joins-rows t ino t.dirents l.tail name k type ids l.tail_rows joins in
          subst (λ x. IsListed x name k type) (sym l.whole)
            (listed_later (dot_entry ino) (dotdot_entry l.parent ∷ l.tail) name k type
              (listed_later (dotdot_entry l.parent) l.tail name k type shown))),
    )
