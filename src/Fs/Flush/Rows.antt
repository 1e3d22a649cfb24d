-- ===== src/Fs/Flush/Rows.antt =====
-- The row of an inode as `getattr` reads it: `overlay_attr` lays the open table over the stored one.
pub mod Getattr
use vibedbfs.Prelude.{
  ℕ, ◌≡◌, ◌≢◌, refl, ◌∙◌, sym, ap, Option, none, some, true, false, ◌&&◌, ◌==◌, if◌then◌else◌,
  arith, Bool-cases, Option-cases, inl, inr, is_empty,
}
use vibedbfs.Model.{Timestamp, to_ns}
use vibedbfs.OpenTable.Inodes.{find, remove}
use vibedbfs.Db.{Engine, InodeRow}
use vibedbfs.Db.Rows.{lookup_row, set_size}
use vibedbfs.Db.Links.RowLaws.{map_row, lookup-update}
use vibedbfs.Fs.{Fs}
use vibedbfs.Fs.Flush.{Unlinked, flush_slot, free_if_idle, cleaned, with_inodes}
use vibedbfs.Fs.Flush.Transparent.{flushed, flush-cases}
use vibedbfs.Fs.Buffer.Sound.{IsSound, nowhere}
use vibedbfs.Fs.Buffer.Sound.Flushed.{dirty_live, alone}
use vibedbfs.Fs.Buffer.Sound.Freed.{find-remove}

abbrev pub resized_row : ℕ → InodeRow → InodeRow
resized_row size r = record r { size = size }

abbrev pub modified_row : ℕ → Timestamp → InodeRow → InodeRow
modified_row size modified r = record r {
  size = size;
  mtime_ns = to_ns modified;
  ctime_ns = to_ns modified;
}

-- The stored row, with the size and times of the slot where it has dirty chunks.
abbrev pub buffered_at : Fs → ℕ → Option ℕ → Option InodeRow
buffered_at s ino none = lookup_row ino s.tables.inodes
buffered_at s ino (some i) =
    let inodes = s.table.inodes in
    if is_empty (inodes.dirty.at i)
    then lookup_row ino s.tables.inodes
    else map_row (modified_row (inodes.size.at i) (inodes.mtime.at i))
        (lookup_row ino s.tables.inodes)

abbrev pub buffered_row : Fs → ℕ → Option InodeRow
buffered_row s ino = buffered_at s ino (find s.table.inodes ino)

-- With the size of the slot in any case, as `overlay_attr` has it.
abbrev pub seen_at : Fs → ℕ → Option ℕ → Option InodeRow
seen_at s ino none = buffered_at s ino none
seen_at s ino (some i) =
    map_row (resized_row (s.table.inodes.size.at i)) (buffered_at s ino (some i))

abbrev pub seen_row : Fs → ℕ → Option InodeRow
seen_row s ino = seen_at s ino (find s.table.inodes ino)

-- A slot without dirty chunks has the stored size.
abbrev pub IsSized : Fs → Type 0
IsSized s =
    (ino i : ℕ) (r : InodeRow)
    → find s.table.inodes ino ≡ some i
    → is_empty (s.table.inodes.dirty.at i) ≡ true
    → lookup_row ino s.tables.inodes ≡ some r
    → r.size ≡ s.table.inodes.size.at i

module _ (s : Fs) (i : ℕ) (v : IsSound nowhere s)
    (dirty : is_empty (s.table.inodes.dirty.at i) ≡ false) where
  is_live : find s.table.inodes (s.table.inodes.ino.at i) ≡ some i
  is_live = dirty_live s i v dirty

  -- A flush moves the size and times from the slot to the row.
  pub cleaned-buffered :
      (ino : ℕ) → buffered_row (cleaned s i (flushed s i)) ino ≡ buffered_row s ino
  unfolding set_size find
  cleaned-buffered ino =
      let f = modified_row (s.table.inodes.size.at i) (s.table.inodes.mtime.at i) in
      let put = lookup-update ino (s.table.inodes.ino.at i) f s.tables.inodes in
      elim (Option-cases (find s.table.inodes ino)) [
        | inl closed ↦
            let other : ino ≢ s.table.inodes.ino.at i = λ same. absurd (
              let both : none ≡ some i = sym closed ∙ ap (find s.table.inodes) same ∙ is_live in
              cc) in
            let off : (ino == s.table.inodes.ino.at i) ≡ false = ground arith in
            rw closed (put ∙ rw off refl)
        | inr (j, e) ↦
            let found = v.found ino j e in
            let only = alone s i v is_live j (ap (find s.table.inodes) found ∙ e) in
            elim (Bool-cases (j == i)) [
              | inl same ↦
                  let ji : j ≡ i = ground arith in
                  let hit : (ino == s.table.inodes.ino.at i) ≡ true = ground arith in
                  let self : (i == i) ≡ true = ground arith in
                  rw (e, ji, self, dirty) (put ∙ rw hit refl)
              | inr other ↦
                  let miss : (ino == s.table.inodes.ino.at i) ≡ false = ground arith in
                  let kept = put ∙ rw miss refl in
                  elim (Bool-cases (is_empty (s.table.inodes.dirty.at j))) [
                    | inl clean ↦ rw (e, other, clean) kept
                    | inr busy ↦
                        rw (e, other, busy)
                          (ap
                            (map_row
                              (modified_row (s.table.inodes.size.at j) (s.table.inodes.mtime.at j)))
                            kept)
                  ]
            ]
      ]

pub flush_slot-buffered :
    (E : Engine) (i : ℕ) (u : Unlinked) (s : Fs) (ino : ℕ)
    → IsSound nowhere s
    → buffered_row (flush_slot E i u s).1 ino ≡ buffered_row s ino
unfolding flush_slot
flush_slot-buffered E i u s ino v = elim (Bool-cases (is_empty (s.table.inodes.dirty.at i))) [
  | inl clean ↦ rw clean refl
  | inr dirty ↦ elim (flush-cases E s i u) [
    | inl (r, e) ↦ ap (λ x. buffered_row x.1 ino) e
    | inr e ↦ ap (λ x. buffered_row x.1 ino) e ∙ cleaned-buffered s i v dirty ino
  ]
]

removed-buffered :
    (s : Fs) (i ino : ℕ)
    → find s.table.inodes (s.table.inodes.ino.at i) ≡ some i
    → is_empty (s.table.inodes.dirty.at i) ≡ true
    → buffered_row (with_inodes s (remove s.table.inodes i)) ino ≡ buffered_row s ino
unfolding remove
removed-buffered s i ino is_live clean = elim (Bool-cases (ino == s.table.inodes.ino.at i)) [
  | inl same ↦
      let e : ino ≡ s.table.inodes.ino.at i = ground arith in
      let gone : find (remove s.table.inodes i) ino ≡ none = find-remove s i ino ∙ rw same refl in
      let there : find s.table.inodes ino ≡ some i = ap (find s.table.inodes) e ∙ is_live in
      rw (gone, there, clean) refl
  | inr other ↦
      let kept : find (remove s.table.inodes i) ino ≡ find s.table.inodes ino =
        find-remove s i ino ∙ rw other refl in
      rw kept (elim (Option-cases (find s.table.inodes ino)) [
        | inl e ↦ rw e refl
        | inr (j, e) ↦ rw e refl
      ])
]

pub free_if_idle-buffered :
    (s : Fs) (i ino : ℕ)
    → find s.table.inodes (s.table.inodes.ino.at i) ≡ some i
    → buffered_row (free_if_idle i s) ino ≡ buffered_row s ino
unfolding free_if_idle
free_if_idle-buffered s i ino is_live =
    elim (Bool-cases (s.table.inodes.refs.at i == 0 && is_empty (s.table.inodes.dirty.at i))) [
      | inl idle ↦ rw idle (removed-buffered s i ino is_live (ground arith))
      | inr busy ↦ rw busy refl
    ]

pub resized-modified :
    (size : ℕ) (modified : Timestamp) (o : Option InodeRow)
    → map_row (resized_row size) (map_row (modified_row size modified) o)
      ≡ map_row (modified_row size modified) o
resized-modified size modified none = refl
resized-modified size modified (some r) = refl

resized-same :
    (size : ℕ) (o : Option InodeRow)
    → ((r : InodeRow) → o ≡ some r → r.size ≡ size)
    → map_row (resized_row size) o ≡ o
resized-same size none h = refl
resized-same size (some r) h = rw (sym (h r refl)) refl

-- Where slots without dirty chunks have the stored sizes, a reader sees the buffered size and times
-- and else the stored row.
pub seen-buffered : (s : Fs) (ino : ℕ) → IsSized s → seen_row s ino ≡ buffered_row s ino
seen-buffered s ino sized = elim (Option-cases (find s.table.inodes ino)) [
  | inl e ↦ rw e refl
  | inr (i, e) ↦ elim (Bool-cases (is_empty (s.table.inodes.dirty.at i))) [
    | inl clean ↦
        rw (e, clean)
          (resized-same (s.table.inodes.size.at i) (lookup_row ino s.tables.inodes)
            (λ r h. sized ino i r e clean h))
    | inr dirty ↦
        rw (e, dirty)
          (resized-modified (s.table.inodes.size.at i) (s.table.inodes.mtime.at i)
            (lookup_row ino s.tables.inodes))
  ]
]

resized-size :
    (size : ℕ) (o : Option InodeRow) (r : InodeRow)
    → map_row (resized_row size) o ≡ some r
    → r.size ≡ size
resized-size size none r h = cc
resized-size size (some q) r h =
    let same : resized_row size q ≡ r = cc in sym (ap (λ x. x.size) same)

-- Rows that stay as they are with what is buffered leave the sizes right.
pub still-IsSized :
    (s t : Fs)
    → ((ino : ℕ) → buffered_row t ino ≡ buffered_row s ino)
    → ((ino j : ℕ) → find t.table.inodes ino ≡ some j → find s.table.inodes ino ≡ some j)
    → t.table.inodes.size ≡ s.table.inodes.size
    → IsSized s
    → IsSized t
still-IsSized s t rows found sizes sized ino i r e clean h =
    let old = found ino i e in
    let stored : buffered_row t ino ≡ some r = rw (e, clean) h in
    let seen : seen_row s ino ≡ some r = seen-buffered s ino sized ∙ sym (rows ino) ∙ stored in
    let at : seen_at s ino (some i) ≡ some r = sym (ap (seen_at s ino) old) ∙ seen in
    resized-size (s.table.inodes.size.at i) (buffered_at s ino (some i)) r at
    ∙ sym (ap (λ f. f.at i) sizes)
