-- ===== src/Fuse/Names/Agree.antt =====
-- fuse.rs, `readdir`, and db.rs, `lookup`: the entries that both read.
pub mod Found
use vibedbfs.Prelude.{
  ℕ, ◌+◌, ◌-◌, ◌<◌, ◌≤◌, ◌≡◌, ◌↔◌, refl, sym, ap, ◌∙◌, subst, List, [], ◌∷◌, ◌++◌, Option, none,
  some, true, false, ltb, ◌&&◌, ◌==◌, list_eq, list_eq_sound, list_eq_refl, ok, err, All, length,
  arith, Bool-cases, Option-cases, Result-cases, inl, inr, ◌⊎◌,
}
use vibedbfs.Model.{FileKind, Inode, from_i64}
use vibedbfs.Db.{Tables, Engine, InodeRow, Dirent}
use vibedbfs.Db.Rows.{lookup_row, is_entry, check_name, name_max, inode_from_row}
use vibedbfs.Db.Nodes.{lookup, join_entry}
use vibedbfs.Db.Links.{IsLinked}
use vibedbfs.Db.Links.Counts.{count}
use vibedbfs.Db.Links.Link.{inode_from_row-IsRow}
use vibedbfs.Db.Links.Lookup.{join_none}
use vibedbfs.Fs.Attr.{FileType, file_type}
use vibedbfs.Fs.Ops.Names.{DbfsDirEntry, dotdot, readdir}
use vibedbfs.Fuse.Names.Rows.{row_of, rows, entry_of, row-cases, row_of-ok, map_ok-cons, cons-cases}
use vibedbfs.Fuse.Names.Listing.{Listing, readdir-Listing, dot_entry, dotdot_entry}

-- The first entry of a name that joins to an inode, of a known kind.
abbrev pub Joins : Tables → List Dirent → ℕ → List ℕ → ℕ → FileType → Type 0
Joins t ds parent name k type =
    (r : InodeRow) × (kind : FileKind) × (join_entry t ds parent name ≡ some (k, r))
    × (from_i64 r.kind ≡ ok kind)
    × (file_type kind ≡ type)

-- A list has an entry of a name, other than the two dots.
abbrev pub IsListed : List DbfsDirEntry → List ℕ → ℕ → FileType → Type 0
IsListed listed name k type =
    (front : List DbfsDirEntry) × (e : DbfsDirEntry) × (rest : List DbfsDirEntry) × (listed
      ≡ front ++ e ∷ rest)
    × (dotdot < e.offset)
    × (e.name ≡ name)
    × (e.ino ≡ k)
    × (e.kind ≡ type)

tail_count :
    (parent : ℕ) (name : List ℕ) (d : Dirent) (ds : List Dirent)
    → count (is_entry parent name) (d ∷ ds) ≤ 1
    → count (is_entry parent name) ds ≤ 1
tail_count parent name d ds one = ground arith

-- The name of a later entry that joins is not the name of the first one.
join_tail :
    (t : Tables) (d : Dirent) (ds : List Dirent) (parent : ℕ) (name : List ℕ) (found : ℕ × InodeRow)
    → count (is_entry parent name) (d ∷ ds) ≤ 1
    → join_entry t ds parent name ≡ some found
    → join_entry t (d ∷ ds) parent name ≡ some found
join_tail t d ds parent name found one joined = elim (Bool-cases (is_entry parent name d)) [
  | inr miss ↦ rw (join_entry, miss) joined
  | inl hit ↦ absurd (let gone = join_none t ds parent name (ground arith) in cc)
]

pub rows-Joins :
    (t : Tables) (parent : ℕ) (ds : List Dirent) (front : List DbfsDirEntry) (e : DbfsDirEntry)
    (rest : List DbfsDirEntry)
    → count (is_entry parent e.name) ds ≤ 1
    → rows t parent 0 ds ≡ ok (front ++ e ∷ rest)
    → Joins t ds parent e.name e.ino e.kind
unfolding rows
rows-Joins t parent [] [] e rest one h = cc
rows-Joins t parent [] (f ∷ front) e rest one h = cc
rows-Joins t parent (d ∷ ds) front e rest one h = elim (row-cases (row_of t parent 0 d)) [
  | inl skipped ↦
      let (r, kind, joined, good, typed) =
        rows-Joins t parent ds front e rest (tail_count parent e.name d ds one)
          (rw (rows, skipped) at h) in
      (r, kind, join_tail t d ds parent e.name (e.ino, r) one joined, good, typed)
  | inr (inl (x, bad)) ↦ absurd (let g = rw (rows, bad) at h in cc)
  | inr (inr (e0, shown)) ↦
      let g = rw (rows, shown) at h in
      let (es, later, split) = map_ok-cons e0 (rows t parent 0 ds) (front ++ e ∷ rest) g in
      let (row, kind, here, found, good, same) = row_of-ok t parent 0 d e0 shown in
      elim (cons-cases e0 es front e rest split) [
        | inl (_, first, _) ↦
            let named : is_entry parent d.name d ≡ true = ground (arith, list_eq_refl d.name) in
            let joined : join_entry t (d ∷ ds) parent d.name ≡ some (d.child, row) =
              rw (join_entry, named, found) refl in
            subst (λ x. Joins t (d ∷ ds) parent x.name x.ino x.kind) (same ∙ first)
              (row, kind, joined, good, refl)
        | inr (front', _, on) ↦
            let (r, k, joined, read, typed) =
              rows-Joins t parent ds front' e rest (tail_count parent e.name d ds one)
                (later ∙ ap ok on) in
            (r, k, join_tail t d ds parent e.name (e.ino, r) one joined, read, typed)
      ]
]

-- An entry that is skipped is no join.
join_skipped :
    (t : Tables) (d : Dirent) (ds : List Dirent) (parent : ℕ) (name : List ℕ) (found : ℕ × InodeRow)
    → 0 < d.id
    → row_of t parent 0 d ≡ none
    → join_entry t (d ∷ ds) parent name ≡ some found
    → join_entry t ds parent name ≡ some found
unfolding row_of
join_skipped t d ds parent name found lt skipped joined =
    elim (Bool-cases (is_entry parent name d)) [
      | inr miss ↦ rw (join_entry, miss) at joined
      | inl hit ↦ elim (Option-cases (lookup_row d.child t.inodes)) [
        | inl gone ↦ rw (join_entry, hit, gone) at joined
        | inr (row, kept) ↦
            let here : (d.parent == parent && ltb 0 d.id) ≡ true = ground arith in
            absurd (let g = rw (row_of, here, kept) at skipped in cc)
      ]
    ]

pub listed_later :
    (e0 : DbfsDirEntry) (es : List DbfsDirEntry) (name : List ℕ) (k : ℕ) (type : FileType)
    → IsListed es name k type
    → IsListed (e0 ∷ es) name k type
listed_later e0 es name k type (front, e, rest, split, past, named, number, typed) =
    (e0 ∷ front, e, rest, ap (λ x. e0 ∷ x) split, past, named, number, typed)

-- The entry of a name that joins is the one that the row shows.
join_shown :
    (t : Tables) (d : Dirent) (ds : List Dirent) (parent : ℕ) (name : List ℕ) (k : ℕ)
    (type : FileType) (e0 : DbfsDirEntry) (es : List DbfsDirEntry)
    → row_of t parent 0 d ≡ some (ok e0)
    → is_entry parent name d ≡ true
    → Joins t (d ∷ ds) parent name k type
    → IsListed (e0 ∷ es) name k type
join_shown t d ds parent name k type e0 es shown hit (r, kind, joined, good, typed) =
    let (row, kind0, here, found, good0, same) = row_of-ok t parent 0 d e0 shown in
    let met : some (d.child, row) ≡ some (k, r) = rw (join_entry, hit, found) at joined in
    let child : d.child ≡ k = cc in
    let read : row ≡ r = cc in
    let kinds : kind0 ≡ kind = let again = rw read at good0 in cc in
    let named : d.name ≡ name = list_eq_sound d.name name (ground arith) in
    let past : dotdot < (entry_of d kind0).offset = ground arith in
    (
      [],
      e0,
      es,
      refl,
      subst (λ x. dotdot < x.offset) same past,
      sym (ap (λ x. x.name) same) ∙ named,
      sym (ap (λ x. x.ino) same) ∙ child,
      sym (ap (λ x. x.kind) same) ∙ ap file_type kinds ∙ typed,
    )

pub Joins-rows :
    (t : Tables) (parent : ℕ) (ds : List Dirent) (es : List DbfsDirEntry) (name : List ℕ) (k : ℕ)
    (type : FileType)
    → All (λ d. 0 < d.id) ds
    → rows t parent 0 ds ≡ ok es
    → Joins t ds parent name k type
    → IsListed es name k type
unfolding rows row_of
Joins-rows t parent [] es name k type ids h (r, kind, joined, _, _) = cc
Joins-rows t parent (d ∷ ds) es name k type ids h (r, kind, joined, good, typed) =
    elim (row-cases (row_of t parent 0 d)) [
      | inl skipped ↦
          let on = join_skipped t d ds parent name (k, r) ids.0 skipped joined in
          Joins-rows t parent ds es name k type ids.1 (rw (rows, skipped) at h)
            (r, kind, on, good, typed)
      | inr (inl (x, bad)) ↦ absurd (let g = rw (rows, bad) at h in cc)
      | inr (inr (e0, shown)) ↦
          let g = rw (rows, shown) at h in
          let (es', later, split) = map_ok-cons e0 (rows t parent 0 ds) es g in
          subst (λ x. IsListed x name k type) split
            (elim (Bool-cases (is_entry parent name d)) [
              | inl hit ↦
                  join_shown t d ds parent name k type e0 es' shown hit
                    (r, kind, joined, good, typed)
              | inr miss ↦
                  let on = rw (join_entry, miss) at joined in
                  listed_later e0 es' name k type
                    (Joins-rows t parent ds es' name k type ids.1 later (r, kind, on, good, typed))
            ])
    ]
