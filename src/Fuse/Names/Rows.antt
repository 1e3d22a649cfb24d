-- ===== src/Fuse/Names/Rows.antt =====
-- db.rs, `read_dir_after`: the entries that it streams, as a list.
use vibedbfs.Prelude.{
  ℕ, ◌+◌, ◌-◌, ◌<◌, ◌≤◌, ◌≡◌, refl, sym, ap, ◌∙◌, subst, List, [], ◌∷◌, ◌++◌, Option, none, some,
  true, false, ◌&&◌, ltb, ◌==◌, Result, ok, err, map_ok, All, arith, Bool-cases, Option-cases,
  Result-cases, inl, inr, ◌⊎◌,
}
use vibedbfs.Model.{FileKind, DbError, from_i64}
use vibedbfs.Db.{Tables, Dirent, InodeRow}
use vibedbfs.Db.Dirs.Ordered.{IsOrdered}
use vibedbfs.Db.Rows.{lookup_row}
use vibedbfs.Fs.Attr.{file_type}
use vibedbfs.Fs.Ops.Names.{DbfsDirEntry, dotdot}

abbrev pub entry_of : Dirent → FileKind → DbfsDirEntry
entry_of d kind = record {
  name = d.name;
  ino = d.child;
  kind = file_type kind;
  offset = d.id + dotdot;
}

-- What one entry adds to the stream, if anything.
unfoldable pub row_of : Tables → ℕ → ℕ → Dirent → Option (Result DbError DbfsDirEntry)
row_of t parent after d = elim (d.parent == parent && ltb after d.id) [
  | false ↦ none
  | true ↦ elim (lookup_row d.child t.inodes) [
    | none ↦ none
    | some row ↦ some (map_ok (entry_of d) (from_i64 row.kind))
  ]
]

abbrev pub join_row :
    Option (Result DbError DbfsDirEntry)
    → Result DbError (List DbfsDirEntry)
    → Result DbError (List DbfsDirEntry)
join_row none rest = rest
join_row (some (err e)) rest = err e
join_row (some (ok e)) rest = map_ok (λ es. e ∷ es) rest

unfoldable pub rows : Tables → ℕ → ℕ → List Dirent → Result DbError (List DbfsDirEntry)
rows t parent after [] = ok []
rows t parent after (d ∷ ds) = join_row (row_of t parent after d) (rows t parent after ds)

pub row-cases :
    (r : Option (Result DbError DbfsDirEntry))
    → (r ≡ none) ⊎ (((x : DbError) × (r ≡ some (err x))) ⊎ ((e : DbfsDirEntry) × (r ≡ some (ok e))))
row-cases none = inl refl
row-cases (some (err x)) = inr (inl (x, refl))
row-cases (some (ok e)) = inr (inr (e, refl))

row_of-skips :
    (t : Tables) (parent after b : ℕ) (d : Dirent)
    → after ≤ b
    → row_of t parent after d ≡ none
    → row_of t parent b d ≡ none
unfolding row_of
row_of-skips t parent after b d le h = elim (Bool-cases (d.parent == parent && ltb b d.id)) [
  | inr out ↦ rw (row_of, out) refl
  | inl here ↦
      let seen : (d.parent == parent && ltb after d.id) ≡ true = ground arith in
      let g = rw (row_of, seen) at h in rw (row_of, here) g
]

row_of-behind :
    (t : Tables) (parent after : ℕ) (d : Dirent) → d.id ≤ after → row_of t parent after d ≡ none
unfolding row_of
row_of-behind t parent after d le =
    let hidden : (d.parent == parent && ltb after d.id) ≡ false = ground arith in
    rw (row_of, hidden) refl

row_of-ahead :
    (t : Tables) (parent after b : ℕ) (d : Dirent)
    → after < d.id
    → b < d.id
    → row_of t parent after d ≡ row_of t parent b d
unfolding row_of
row_of-ahead t parent after b d lt lt' =
    let same : ltb after d.id ≡ ltb b d.id = ground arith in rw (row_of, same) refl

pub row_of-ok :
    (t : Tables) (parent after : ℕ) (d : Dirent) (e : DbfsDirEntry)
    → row_of t parent after d ≡ some (ok e)
    → (row : InodeRow) × (kind : FileKind) × ((d.parent == parent && ltb after d.id) ≡ true)
      × (lookup_row d.child t.inodes ≡ some row)
      × (from_i64 row.kind ≡ ok kind)
      × (entry_of d kind ≡ e)
unfolding row_of
row_of-ok t parent after d e h = elim (Bool-cases (d.parent == parent && ltb after d.id)) [
  | inr out ↦ absurd (let g = rw (row_of, out) at h in cc)
  | inl here ↦ elim (Option-cases (lookup_row d.child t.inodes)) [
    | inl gone ↦ absurd (let g = rw (row_of, here, gone) at h in cc)
    | inr (row, found) ↦ elim (Result-cases (from_i64 row.kind)) [
      | inr (x, bad) ↦ absurd (let g = rw (row_of, here, found, bad) at h in cc)
      | inl (kind, good) ↦
          let g = rw (row_of, here, found, good) at h in (row, kind, here, found, good, cc)
    ]
  ]
]

row_of-offset :
    (t : Tables) (parent after : ℕ) (d : Dirent) (e : DbfsDirEntry)
    → row_of t parent after d ≡ some (ok e)
    → (e.offset ≡ d.id + dotdot) × (after < d.id)
row_of-offset t parent after d e h =
    let (_, _, here, _, _, same) = row_of-ok t parent after d e h in
    (sym (ap (λ x. x.offset) same), ground arith)

pub map_ok-cons :
    (e : DbfsDirEntry) (r : Result DbError (List DbfsDirEntry)) (xs : List DbfsDirEntry)
    → map_ok (λ es. e ∷ es) r ≡ ok xs
    → (es : List DbfsDirEntry) × (r ≡ ok es) × (e ∷ es ≡ xs)
map_ok-cons e (ok es) xs h = (es, refl, cc)
map_ok-cons e (err x) xs h = cc

-- Where an element stands in a list that begins with another.
pub cons-cases :
    (e0 : DbfsDirEntry) (es front : List DbfsDirEntry) (e : DbfsDirEntry) (rest : List DbfsDirEntry)
    → e0 ∷ es ≡ front ++ e ∷ rest
    → ((front ≡ []) × (e0 ≡ e) × (es ≡ rest))
      ⊎ ((front' : List DbfsDirEntry) × (front ≡ e0 ∷ front') × (es ≡ front' ++ e ∷ rest))
cons-cases e0 es [] e rest h = inl (refl, cc, cc)
cons-cases e0 es (f ∷ front) e rest h =
    let first : e0 ≡ f = cc in inr (front, ap (λ x. x ∷ front) (sym first), cc)

-- A listed entry stands for one that is there, past the cookie.
pub rows-member {κ} :
    (P : Dirent → Type κ) (t : Tables) (parent after : ℕ) (ds : List Dirent)
    (front : List DbfsDirEntry) (e : DbfsDirEntry) (rest : List DbfsDirEntry)
    → All P ds
    → rows t parent after ds ≡ ok (front ++ e ∷ rest)
    → (d : Dirent) × P d × (e.offset ≡ d.id + dotdot) × (after < d.id)
unfolding rows
rows-member P t parent after [] [] e rest all h = cc
rows-member P t parent after [] (f ∷ front) e rest all h = cc
rows-member P t parent after (d ∷ ds) front e rest all h =
    elim (row-cases (row_of t parent after d)) [
      | inl skipped ↦ rows-member P t parent after ds front e rest all.1 (rw (rows, skipped) at h)
      | inr (inl (x, bad)) ↦ absurd (let g = rw (rows, bad) at h in cc)
      | inr (inr (e0, shown)) ↦
          let g = rw (rows, shown) at h in
          let (es, later, split) = map_ok-cons e0 (rows t parent after ds) (front ++ e ∷ rest) g in
          elim (cons-cases e0 es front e rest split) [
            | inl (_, first, _) ↦
                let (at_two, past) = row_of-offset t parent after d e0 shown in
                (d, all.0, ap (λ x. x.offset) (sym first) ∙ at_two, past)
            | inr (front', _, on) ↦
                rows-member P t parent after ds front' e rest all.1 (later ∙ ap ok on)
          ]
    ]

-- Cookies that all of the entries are past list the same.
rows-ahead :
    (t : Tables) (parent after b n : ℕ) (ds : List Dirent)
    → after ≤ n
    → b ≤ n
    → All (λ d. n < d.id) ds
    → rows t parent after ds ≡ rows t parent b ds
unfolding rows
rows-ahead t parent after b n [] le le' all = refl
rows-ahead t parent after b n (d ∷ ds) le le' all =
    let here = row_of-ahead t parent after b d (omega (arith, all.0)) (omega (arith, all.0)) in
    rw (rows, here, rows-ahead t parent after b n ds le le' all.1) refl

-- Resumed at the cookie of an entry, the listing has exactly those after it.
pub rows-resume :
    (t : Tables) (parent after : ℕ) (ds : List Dirent) (front : List DbfsDirEntry)
    (e : DbfsDirEntry) (rest : List DbfsDirEntry)
    → IsOrdered ds
    → rows t parent after ds ≡ ok (front ++ e ∷ rest)
    → rows t parent (e.offset - dotdot) ds ≡ ok rest
unfolding rows
rows-resume t parent after [] [] e rest o h = cc
rows-resume t parent after [] (f ∷ front) e rest o h = cc
rows-resume t parent after (d ∷ ds) front e rest o h = elim (row-cases (row_of t parent after d)) [
  | inl skipped ↦
      let g = rw (rows, skipped) at h in
      let later = rows-resume t parent after ds front e rest o.1 g in
      let (x, _, at_two, past) =
        rows-member (λ x. d.id < x.id) t parent after ds front e rest o.0 g in
      let on : after ≤ e.offset - dotdot = omega (arith, at_two, past) in
      rw (rows, row_of-skips t parent after (e.offset - dotdot) d on skipped) later
  | inr (inl (x, bad)) ↦ absurd (let g = rw (rows, bad) at h in cc)
  | inr (inr (e0, shown)) ↦
      let g = rw (rows, shown) at h in
      let (es, later, split) = map_ok-cons e0 (rows t parent after ds) (front ++ e ∷ rest) g in
      let (at_two, past) = row_of-offset t parent after d e0 shown in
      elim (cons-cases e0 es front e rest split) [
        | inl (_, first, same) ↦
            let back : e.offset - dotdot ≡ d.id =
              omega (arith, at_two, ap (λ x. x.offset) (sym first)) in
            let tail = rows-ahead t parent after d.id d.id ds (omega arith) (omega arith) o.0 in
            let resumed : rows t parent d.id (d ∷ ds) ≡ ok rest =
              rw (rows, row_of-behind t parent d.id d (omega arith))
                (sym tail ∙ later ∙ ap ok same) in
            subst (λ n. rows t parent n (d ∷ ds) ≡ ok rest) (sym back) resumed
        | inr (front', _, on) ↦
            let there = later ∙ ap ok on in
            let (x, beyond, at, _) =
              rows-member (λ x. d.id < x.id) t parent after ds front' e rest o.0 there in
            let behind : d.id ≤ e.offset - dotdot = omega (arith, at, beyond) in
            rw (rows, row_of-behind t parent (e.offset - dotdot) d behind)
              (rows-resume t parent after ds front' e rest o.1 there)
      ]
]
