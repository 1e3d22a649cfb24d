-- ===== src/Fuse/Names/Listing.antt =====
-- fuse.rs, `readdir_stream`: a listing as a list, and a buffer filled from it.
use mathlib.Core.List.{append_assoc}
use vibedbfs.Prelude.{
  ℕ, ◌-◌, ◌≡◌, refl, sym, ap, ◌∙◌, List, [], ◌∷◌, ◌++◌, none, Bool, true, false, ltb, if◌then◌else◌,
  Result, ok, map_err, Bool-cases, Option-cases, Result-cases, inl, inr,
}
use vibedbfs.Model.{FileKind, directory, regular_file, symlink}
use vibedbfs.Db.{Tables, Engine}
use vibedbfs.Db.Nodes.{inode_kind_of}
use vibedbfs.Db.Dirs.{require_directory, parent_of_dir, read_dir_after}
use vibedbfs.Fs.{Errno, errno_from_db_error}
use vibedbfs.Fs.Attr.{directory_type}
use vibedbfs.Fs.Ops.Names.{
  DbfsDirEntry, dot, dotdot, emit_entry, emit_if, parent_or_self, readdir_stream, readdir,
}
use vibedbfs.Fuse.Names.{Room, add_entry}
use vibedbfs.Fuse.Names.Rows.{rows}
use vibedbfs.Fuse.Names.Stream.{fill, unbounded, stream_entries-rows, stream_entries-all}

abbrev pub dot_entry : ℕ → DbfsDirEntry
dot_entry ino = record { name = 46 ∷ []; ino = ino; kind = directory_type; offset = dot }

abbrev pub dotdot_entry : ℕ → DbfsDirEntry
dotdot_entry parent = record {
  name = 46 ∷ 46 ∷ [];
  ino = parent;
  kind = directory_type;
  offset = dotdot;
}

abbrev pub dots : ℕ → ℕ → ℕ → List DbfsDirEntry
dots offset ino parent =
    (if ltb offset dot then dot_entry ino ∷ [] else [])
    ++ (if ltb offset dotdot then dotdot_entry parent ∷ [] else [])

-- What a listing from a cookie on consists of.
pub record Listing (E : Engine) (t : Tables) (ino offset : ℕ) (listed : List DbfsDirEntry)
    : Type 0 where
  pub parent : ℕ
  pub parent_found : parent_or_self (parent_of_dir E t ino) ino ≡ ok parent
  pub is_dir : inode_kind_of E t ino ≡ ok directory
  pub answers : E.query_failure t ≡ none
  pub tail : List DbfsDirEntry
  pub tail_rows : rows t ino (offset - dotdot) t.dirents ≡ ok tail
  pub whole : listed ≡ dots offset ino parent ++ tail

require_directory-directory : (kind : FileKind) → require_directory kind ≡ ok tt → kind ≡ directory
require_directory-directory directory h = refl
require_directory-directory regular_file h = cc
require_directory-directory symlink h = cc

-- The part of the stream after the two dots.
abbrev pub from_cookie :
    Room → Engine → Tables → ℕ → ℕ → List DbfsDirEntry → Result Errno (List DbfsDirEntry)
from_cookie full E t ino offset page =
    map_err errno_from_db_error
      (read_dir_after E t ino (offset - dotdot) (emit_entry (add_entry full)) page)

from_cookie-fill :
    (full : Room) (E : Engine) (t : Tables) (ino offset : ℕ) (page tail : List DbfsDirEntry)
    → inode_kind_of E t ino ≡ ok directory
    → E.query_failure t ≡ none
    → rows t ino (offset - dotdot) t.dirents ≡ ok tail
    → from_cookie full E t ino offset page ≡ ok (fill full page tail)
unfolding read_dir_after
from_cookie-fill full E t ino offset page tail d q r =
    let streamed = stream_entries-rows full t ino (offset - dotdot) t.dirents page tail r in
    rw (read_dir_after, d, q, streamed) refl

from_cookie-ok :
    (E : Engine) (t : Tables) (ino offset : ℕ) (page listed : List DbfsDirEntry)
    → from_cookie unbounded E t ino offset page ≡ ok listed
    → (inode_kind_of E t ino ≡ ok directory)
      × (E.query_failure t ≡ none)
      × (tail : List DbfsDirEntry) × (rows t ino (offset - dotdot) t.dirents ≡ ok tail)
      × (page ++ tail ≡ listed)
unfolding read_dir_after
from_cookie-ok E t ino offset page listed h = elim (Result-cases (inode_kind_of E t ino)) [
  | inr (x, bad) ↦ absurd (let g = rw (read_dir_after, bad) at h in cc)
  | inl (kind, found) ↦ elim (Result-cases (require_directory kind)) [
    | inr (x, bad) ↦ absurd (let g = rw (read_dir_after, found, bad) at h in cc)
    | inl (u, is_dir) ↦ elim (Option-cases (E.query_failure t)) [
      | inr (x, bad) ↦ absurd (let g = rw (read_dir_after, found, is_dir, bad) at h in cc)
      | inl answers ↦
          let all = stream_entries-all t ino (offset - dotdot) t.dirents page in
          elim (Result-cases (rows t ino (offset - dotdot) t.dirents)) [
            | inr (x, bad) ↦
                absurd (let g = rw (read_dir_after, found, is_dir, answers, all, bad) at h in cc)
            | inl (tail, r) ↦
                let g = rw (read_dir_after, found, is_dir, answers, all, r) at h in
                (found ∙ ap ok (require_directory-directory kind is_dir), answers, tail, r, cc)
          ]
    ]
  ]
]

-- `if emit(…) { return Ok(()) }`, and what follows it.
abbrev pub stop_if :
    List DbfsDirEntry × Bool
    → (List DbfsDirEntry → Result Errno (List DbfsDirEntry))
    → Result Errno (List DbfsDirEntry)
stop_if emitted rest = if emitted.1 then ok emitted.0 else rest emitted.0

-- `readdir_stream` once the parent is known.
abbrev pub emit_dots :
    Room
    → Bool
    → Bool
    → ℕ
    → ℕ
    → (List DbfsDirEntry → Result Errno (List DbfsDirEntry))
    → Result Errno (List DbfsDirEntry)
emit_dots full first second ino parent rest =
    let (s1, stop1) = emit_if (add_entry full) first [] ino dot directory_type (46 ∷ []) in
    let (s2, stop2) =
      emit_if (add_entry full) second s1 parent dotdot directory_type (46 ∷ 46 ∷ []) in
    if stop1 then ok s1 else (if stop2 then ok s2 else rest s2)

some_dots : Bool → Bool → ℕ → ℕ → List DbfsDirEntry
some_dots first second ino parent =
    (if first then dot_entry ino ∷ [] else []) ++ (if second then dotdot_entry parent ∷ [] else [])

emit_dots-unbounded :
    (first second : Bool) (ino parent : ℕ)
    (rest : List DbfsDirEntry → Result Errno (List DbfsDirEntry))
    → emit_dots unbounded first second ino parent rest ≡ rest (some_dots first second ino parent)
unfolding some_dots
emit_dots-unbounded true true ino parent rest = refl
emit_dots-unbounded true false ino parent rest = refl
emit_dots-unbounded false true ino parent rest = refl
emit_dots-unbounded false false ino parent rest = refl

emit_if-fill :
    (full : Room) (b : Bool) (page : List DbfsDirEntry) (e : DbfsDirEntry)
    (rest : List DbfsDirEntry → Result Errno (List DbfsDirEntry)) (es : List DbfsDirEntry)
    → ((p : List DbfsDirEntry) → rest p ≡ ok (fill full p es))
    → stop_if (emit_if (add_entry full) b page e.ino e.offset e.kind e.name) rest
      ≡ ok (fill full page ((if b then e ∷ [] else []) ++ es))
emit_if-fill full false page e rest es h = h page
emit_if-fill full true page e rest es h = elim (Bool-cases (full page e)) [
  | inl no_room ↦
      let entered : add_entry full page e.ino e.offset e.kind e.name ≡ (page, true) =
        rw no_room refl in
      ap (λ p. stop_if p rest) entered ∙ rw no_room refl
  | inr room ↦
      let entered : add_entry full page e.ino e.offset e.kind e.name ≡ (page ++ e ∷ [], false) =
        rw room refl in
      ap (λ p. stop_if p rest) entered ∙ rw room (h (page ++ e ∷ []))
]

emit_dots-fill :
    (full : Room) (first second : Bool) (ino parent : ℕ)
    (rest : List DbfsDirEntry → Result Errno (List DbfsDirEntry)) (tail : List DbfsDirEntry)
    → ((page : List DbfsDirEntry) → rest page ≡ ok (fill full page tail))
    → emit_dots full first second ino parent rest
      ≡ ok (fill full [] (some_dots first second ino parent ++ tail))
unfolding some_dots
emit_dots-fill full first second ino parent rest tail h =
    let after_second : List DbfsDirEntry → Result Errno (List DbfsDirEntry) = λ page.
      stop_if (emit_if (add_entry full) second page parent dotdot directory_type (46 ∷ 46 ∷ []))
        rest in
    let filled =
      emit_if-fill full first [] (dot_entry ino) after_second
        ((if second then dotdot_entry parent ∷ [] else []) ++ tail)
        (λ page. emit_if-fill full second page (dotdot_entry parent) rest tail h) in
    filled
    ∙ ap (λ es. ok (fill full [] es))
        (sym (
          append_assoc (if first then dot_entry ino ∷ [] else [])
            (if second then dotdot_entry parent ∷ [] else []) tail))

pub readdir-Listing :
    (E : Engine) (t : Tables) (ino offset : ℕ) (listed : List DbfsDirEntry)
    → readdir E t ino offset ≡ ok listed
    → Listing E t ino offset listed
unfolding readdir readdir_stream some_dots
readdir-Listing E t ino offset listed h =
    elim (Result-cases (parent_or_self (parent_of_dir E t ino) ino)) [
      | inr (x, bad) ↦ absurd (let g = rw (readdir, readdir_stream, bad) at h in cc)
      | inl (parent, found) ↦
          let rest = from_cookie unbounded E t ino offset in
          let g : emit_dots unbounded (ltb offset dot) (ltb offset dotdot) ino parent rest
              ≡ ok listed =
            rw (readdir, readdir_stream, found) at h in
          let fed =
            sym (emit_dots-unbounded (ltb offset dot) (ltb offset dotdot) ino parent rest) in
          let (is_dir, answers, tail, r, whole) =
            from_cookie-ok E t ino offset (dots offset ino parent) listed (fed ∙ g) in
          record {
            parent = parent;
            parent_found = found;
            is_dir = is_dir;
            answers = answers;
            tail = tail;
            tail_rows = r;
            whole = sym whole;
          }
    ]

-- The handler fills its buffer from the listing.
pub readdir_stream-fill :
    (E : Engine) (t : Tables) (full : Room) (ino offset : ℕ) (listed : List DbfsDirEntry)
    → Listing E t ino offset listed
    → readdir_stream (add_entry full) E t ino offset [] ≡ ok (fill full [] listed)
unfolding readdir_stream some_dots
readdir_stream-fill E t full ino offset listed l =
    let rest = from_cookie full E t ino offset in
    let filled =
      emit_dots-fill full (ltb offset dot) (ltb offset dotdot) ino l.parent rest l.tail
        (λ page. from_cookie-fill full E t ino offset page l.tail l.is_dir l.answers l.tail_rows) in
    rw (readdir_stream, l.parent_found, l.whole) filled
