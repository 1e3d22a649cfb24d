-- ===== src/Fuse/Names/Paging.antt =====
-- fuse.rs, `readdir`: a directory read page by page.
use mathlib.Core.List.{append-nil, append_assoc}
use vibedbfs.Prelude.{
  ℕ, zero, suc, ◌<◌, ◌≡◌, refl, sym, ap, ◌∙◌, ℤ, pos, pos_part, List, [], ◌∷◌, ◌++◌, true, false,
  ok, length, length-append, subst, arith, Bool-cases, inl, inr, ◌⊎◌,
}
use vibedbfs.Db.Dirs.Ordered.{IsOrdered}
use vibedbfs.Db.{Tables, Engine}
use vibedbfs.Fs.{Fs}
use vibedbfs.Fs.Ops.Names.{DbfsDirEntry, readdir}
use vibedbfs.Fuse.{Reply, reply_directory}
use vibedbfs.Fuse.Names.{Room, handle_readdir}
use vibedbfs.Fuse.Names.Stream.{fill, unbounded}
use vibedbfs.Fuse.Names.Listing.{Listing, readdir-Listing, readdir_stream-fill}
use vibedbfs.Fuse.Names.Resume.{Listing-resume}

-- A buffer that has no room for the first of what is left.
abbrev pub IsFull : Room → List DbfsDirEntry → List DbfsDirEntry → Type 0
IsFull full page [] = Unit
IsFull full page (e ∷ es) = full page e ≡ true

fill-split :
    (full : Room) (page es : List DbfsDirEntry)
    → (taken : List DbfsDirEntry) × (rest : List DbfsDirEntry) × (fill full page es ≡ page ++ taken)
      × (es ≡ taken ++ rest)
      × IsFull full (page ++ taken) rest
fill-split full page [] = ([], [], sym (append-nil page), refl, tt)
fill-split full page (e ∷ es) = elim (Bool-cases (full page e)) [
  | inl no_room ↦
      ([], e ∷ es, rw no_room (sym (append-nil page)), refl, rw (append-nil page) no_room)
  | inr room ↦
      let (taken, rest, filled, split, stopped) = fill-split full (page ++ e ∷ []) es in
      let joined = append_assoc page (e ∷ []) taken in
      (
        e ∷ taken,
        rest,
        rw room (filled ∙ joined),
        ap (λ x. e ∷ x) split,
        subst (λ p. IsFull full p rest) joined stopped,
      )
]

fill-unbounded : (page es : List DbfsDirEntry) → fill unbounded page es ≡ page ++ es
fill-unbounded page [] = sym (append-nil page)
fill-unbounded page (e ∷ es) = fill-unbounded (page ++ e ∷ []) es ∙ append_assoc page (e ∷ []) es

Listing-readdir :
    (E : Engine) (t : Tables) (ino offset : ℕ) (listed : List DbfsDirEntry)
    → Listing E t ino offset listed
    → readdir E t ino offset ≡ ok listed
unfolding readdir
Listing-readdir E t ino offset listed l =
    readdir_stream-fill E t unbounded ino offset listed l ∙ ap ok (fill-unbounded [] listed)

-- The cookie to resume at after some entries.
abbrev pub next_cookie : ℕ → List DbfsDirEntry → ℕ
next_cookie offset [] = offset
next_cookie offset (e ∷ es) = next_cookie e.offset es

next_cookie-cases :
    (offset : ℕ) (es : List DbfsDirEntry)
    → ((es ≡ []) × (next_cookie offset es ≡ offset))
      ⊎ ((front : List DbfsDirEntry) × (e : DbfsDirEntry) × (es ≡ front ++ e ∷ [])
          × (next_cookie offset es ≡ e.offset))
next_cookie-cases offset [] = inl (refl, refl)
next_cookie-cases offset (e ∷ es) = elim (next_cookie-cases e.offset es) [
  | inl (blank, at) ↦ inr ([], e, ap (λ x. e ∷ x) blank, at)
  | inr (front, g, split, at) ↦ inr (e ∷ front, g, ap (λ x. e ∷ x) split, at)
]

-- Where the entries are in the order of their ids and the listing from a cookie on succeeds, the
-- reply holds the first of its entries, as many as the buffer has room for, and nothing else
-- changes. The listing from the cookie of the last of them is exactly what is left.
pub handle_readdir_lem :
    (E : Engine) (full : Room) (ino : ℕ) (offset : ℤ) (s : Fs) (listed : List DbfsDirEntry)
    → IsOrdered s.tables.dirents
    → readdir E s.tables ino (pos_part offset) ≡ ok listed
    → (page : List DbfsDirEntry) × (rest : List DbfsDirEntry) × (handle_readdir E full ino offset s
        ≡ (reply_directory page, s))
      × (listed ≡ page ++ rest)
      × IsFull full page rest
      × (readdir E s.tables ino (next_cookie (pos_part offset) page) ≡ ok rest)
unfolding handle_readdir
handle_readdir_lem E full ino offset s listed o h =
    let l = readdir-Listing E s.tables ino (pos_part offset) listed h in
    let (page, rest, filled, split, stopped) = fill-split full [] listed in
    let streamed = readdir_stream-fill E s.tables full ino (pos_part offset) listed l in
    let resumed : readdir E s.tables ino (next_cookie (pos_part offset) page) ≡ ok rest =
      elim (next_cookie-cases (pos_part offset) page) [
        | inl (blank, at) ↦
            subst (λ n. readdir E s.tables ino n ≡ ok rest) (sym at)
              (h ∙ ap ok (split ∙ ap (λ p. p ++ rest) blank))
        | inr (front, e, last, at) ↦
            let whole = split ∙ ap (λ p. p ++ rest) last ∙ append_assoc front (e ∷ []) rest in
            let left =
              Listing-resume E s.tables ino (pos_part offset) listed l front e rest o whole in
            subst (λ n. readdir E s.tables ino n ≡ ok rest) (sym at)
              (Listing-readdir E s.tables ino e.offset rest left)
      ] in
    (page, rest, rw (handle_readdir, streamed, filled) refl, split, stopped, resumed)

-- What a reader does with a reply: it goes on at the last cookie until a page is empty.
abbrev pub read_on : Reply → (ℕ → List DbfsDirEntry) → List DbfsDirEntry
read_on (reply_directory []) next = []
read_on (reply_directory (e ∷ es)) next = e ∷ es ++ next (next_cookie e.offset es)
read_on _ next = []

-- The entries of the pages that a reader gets, from a cookie on.
unfoldable pub read_pages : Engine → Room → ℕ → ℕ → ℤ → Fs → List DbfsDirEntry
read_pages E full zero ino offset s = []
read_pages E full (suc rounds) ino offset s =
    read_on (handle_readdir E full ino offset s).0
      (λ cookie. read_pages E full rounds ino (pos cookie) s)

IsFull-nothing :
    (full : Room) (rest : List DbfsDirEntry)
    → ((e : DbfsDirEntry) → full [] e ≡ false)
    → IsFull full [] rest
    → rest ≡ []
IsFull-nothing full [] fits stopped = refl
IsFull-nothing full (e ∷ es) fits stopped = absurd (let room = fits e in cc)

-- A page and the rest make up the listing, whether or not the page is empty.
read_on-page :
    (full : Room) (offset : ℕ) (page rest : List DbfsDirEntry) (next : ℕ → List DbfsDirEntry)
    → ((e : DbfsDirEntry) → full [] e ≡ false)
    → IsFull full page rest
    → ((length rest < length (page ++ rest)) → next (next_cookie offset page) ≡ rest)
    → read_on (reply_directory page) next ≡ page ++ rest
read_on-page full offset [] rest next fits stopped later =
    sym (IsFull-nothing full rest fits stopped)
read_on-page full offset (e ∷ es) rest next fits stopped later =
    ap (λ x. e ∷ es ++ x) (later (omega (arith, length-append es rest)))

-- Where the entries are in the order of their ids, the listing from a cookie on succeeds and an
-- empty buffer has room for any entry, a reader that resumes each page at the last cookie of the
-- one before gets the whole listing, each entry once and in order, after at most one page more
-- than there are entries.
pub read_pages_lem :
    (E : Engine) (full : Room) (rounds ino : ℕ) (offset : ℤ) (s : Fs) (listed : List DbfsDirEntry)
    → ((e : DbfsDirEntry) → full [] e ≡ false)
    → IsOrdered s.tables.dirents
    → readdir E s.tables ino (pos_part offset) ≡ ok listed
    → length listed < rounds
    → read_pages E full rounds ino offset s ≡ listed
unfolding read_pages
read_pages_lem E full zero ino offset s listed fits o h lt = absurd (omega arith)
read_pages_lem E full (suc rounds) ino offset s listed fits o h lt =
    let (page, rest, replied, split, stopped, on) =
      handle_readdir_lem E full ino offset s listed o h in
    let cookie = next_cookie (pos_part offset) page in
    let joined =
      read_on-page full (pos_part offset) page rest (λ n. read_pages E full rounds ino (pos n) s)
        fits stopped
        (λ shorter.
          read_pages_lem E full rounds ino (pos cookie) s rest fits o on
            (omega (arith, shorter, ap length split))) in
    rw replied (joined ∙ sym split)
