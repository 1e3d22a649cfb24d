-- ===== src/Fuse/Names/Stream.antt =====
-- fuse.rs, `readdir`: what the loop over the entries leaves in the buffer of a reply.
use vibedbfs.Prelude.{
  ℕ, ◌≡◌, refl, sym, ap, ◌∙◌, List, [], ◌∷◌, ◌++◌, Option, none, some, Bool, true, false, ◌&&◌, ltb,
  ◌==◌, if◌then◌else◌, Result, ok, err, map_ok, Bool-cases, Option-cases, Result-cases, inl, inr,
}
use mathlib.Core.List.{append-nil, append_assoc}
use vibedbfs.Model.{DbError, from_i64}
use vibedbfs.Db.{Tables, Dirent}
use vibedbfs.Db.Rows.{lookup_row}
use vibedbfs.Db.Dirs.{stream_entries}
use vibedbfs.Fs.Ops.Names.{DbfsDirEntry, emit_entry}
use vibedbfs.Fuse.Names.{Room, add_entry}
use vibedbfs.Fuse.Names.Rows.{row_of, rows, entry_of, row-cases, map_ok-cons}

-- The buffer after as many of the entries as it has room for.
abbrev pub fill : Room → List DbfsDirEntry → List DbfsDirEntry → List DbfsDirEntry
fill full page [] = page
fill full page (e ∷ es) = if full page e then page else fill full (page ++ e ∷ []) es

-- The buffer of the library: it always has room.
abbrev pub unbounded : Room
unbounded page e = false

-- What one entry does to the stream.
abbrev pub put_row :
    Room
    → Option (Result DbError DbfsDirEntry)
    → (List DbfsDirEntry → Result DbError (List DbfsDirEntry))
    → List DbfsDirEntry
    → Result DbError (List DbfsDirEntry)
put_row full none rest page = rest page
put_row full (some (err e)) rest page = err e
put_row full (some (ok e)) rest page = if full page e then ok page else rest (page ++ e ∷ [])

-- What the loop makes of the pair that `emit` returns.
abbrev pub stop_or :
    List DbfsDirEntry × Bool
    → (List DbfsDirEntry → Result DbError (List DbfsDirEntry))
    → Result DbError (List DbfsDirEntry)
stop_or emitted rest = elim emitted.1 [ true ↦ ok emitted.0 | false ↦ rest emitted.0 ]

add_entry-stop_or :
    (full : Room) (page : List DbfsDirEntry) (e : DbfsDirEntry)
    (rest : List DbfsDirEntry → Result DbError (List DbfsDirEntry))
    → stop_or (add_entry full page e.ino e.offset e.kind e.name) rest
      ≡ (if full page e then ok page else rest (page ++ e ∷ []))
add_entry-stop_or full page e rest = elim (Bool-cases (full page e)) [
  | inl no_room ↦
      let entered : add_entry full page e.ino e.offset e.kind e.name ≡ (page, true) =
        rw no_room refl in
      ap (λ p. stop_or p rest) entered ∙ rw no_room refl
  | inr room ↦
      let entered : add_entry full page e.ino e.offset e.kind e.name ≡ (page ++ e ∷ [], false) =
        rw room refl in
      ap (λ p. stop_or p rest) entered ∙ rw room refl
]

stream_entries-row :
    (full : Room) (t : Tables) (parent after : ℕ) (d : Dirent) (ds : List Dirent)
    (page : List DbfsDirEntry)
    → stream_entries (emit_entry (add_entry full)) t parent after (d ∷ ds) page
      ≡ put_row full
          (row_of t parent after d)
          (stream_entries (emit_entry (add_entry full)) t parent after ds)
          page
unfolding stream_entries row_of
stream_entries-row full t parent after d ds page =
    elim (Bool-cases (d.parent == parent && ltb after d.id)) [
      | inr out ↦ rw (stream_entries, row_of, out) refl
      | inl here ↦ elim (Option-cases (lookup_row d.child t.inodes)) [
        | inl gone ↦ rw (stream_entries, row_of, here, gone) refl
        | inr (row, found) ↦ elim (Result-cases (from_i64 row.kind)) [
          | inr (x, bad) ↦ rw (stream_entries, row_of, here, found, bad) refl
          | inl (kind, good) ↦
              rw (stream_entries, row_of, here, found, good)
                (add_entry-stop_or full page (entry_of d kind)
                  (stream_entries (emit_entry (add_entry full)) t parent after ds))
        ]
      ]
    ]

pub stream_entries-rows :
    (full : Room) (t : Tables) (parent after : ℕ) (ds : List Dirent) (page es : List DbfsDirEntry)
    → rows t parent after ds ≡ ok es
    → stream_entries (emit_entry (add_entry full)) t parent after ds page ≡ ok (fill full page es)
unfolding stream_entries rows
stream_entries-rows full t parent after [] page [] h = refl
stream_entries-rows full t parent after [] page (e ∷ es) h = cc
stream_entries-rows full t parent after (d ∷ ds) page es h =
    stream_entries-row full t parent after d ds page ∙ elim (row-cases (row_of t parent after d)) [
      | inl skipped ↦
          let g = rw (rows, skipped) at h in
          rw skipped (stream_entries-rows full t parent after ds page es g)
      | inr (inl (x, bad)) ↦ absurd (let g = rw (rows, bad) at h in cc)
      | inr (inr (e, shown)) ↦
          let g = rw (rows, shown) at h in
          let (later, tail, split) = map_ok-cons e (rows t parent after ds) es g in
          rw shown (elim (Bool-cases (full page e)) [
            | inl no_room ↦ rw (sym split, no_room) refl
            | inr room ↦
                rw (sym split, room)
                  (stream_entries-rows full t parent after ds (page ++ e ∷ []) later tail)
          ])
    ]

-- With no bound on the buffer, errors included.
pub stream_entries-all :
    (t : Tables) (parent after : ℕ) (ds : List Dirent) (page : List DbfsDirEntry)
    → stream_entries (emit_entry (add_entry unbounded)) t parent after ds page
      ≡ map_ok (λ es. page ++ es) (rows t parent after ds)
unfolding stream_entries rows
stream_entries-all t parent after [] page = ap ok (sym (append-nil page))
stream_entries-all t parent after (d ∷ ds) page =
    stream_entries-row unbounded t parent after d ds page
    ∙ elim (row-cases (row_of t parent after d)) [
      | inl skipped ↦ rw (rows, skipped) (stream_entries-all t parent after ds page)
      | inr (inl (x, bad)) ↦ rw (rows, bad) refl
      | inr (inr (e, shown)) ↦
          rw (rows, shown)
            (elim (Result-cases (rows t parent after ds)) [
              | inr (x, bad) ↦
                  rw (bad) (stream_entries-all t parent after ds (page ++ e ∷ []) ∙ rw bad refl)
              | inl (es, tail) ↦ rw (tail) (
                  stream_entries-all t parent after ds (page ++ e ∷ [])
                  ∙ rw tail (ap ok (append_assoc page (e ∷ []) es)))
            ])
    ]
