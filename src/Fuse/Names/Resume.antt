-- ===== src/Fuse/Names/Resume.antt =====
-- fuse.rs, `readdir_stream`: a listing resumed at a cookie.
use vibedbfs.Prelude.{
  ℕ, ◌-◌, ◌<◌, ◌≡◌, refl, sym, ap, ◌∙◌, List, [], ◌∷◌, ◌++◌, true, false, ltb, ok, All, ltb→lt,
  subst, arith, Bool-cases, inl, inr,
}
use vibedbfs.Db.Dirs.Ordered.{IsOrdered}
use vibedbfs.Db.{Tables, Engine, Dirent}
use vibedbfs.Fs.Ops.Names.{DbfsDirEntry, dot, dotdot}
use vibedbfs.Fuse.Names.Rows.{rows, rows-resume, rows-member, cons-cases}
use vibedbfs.Fuse.Names.Listing.{dot_entry, dotdot_entry, dots, Listing}

anything : (ds : List Dirent) → All (λ d. Unit {0}) ds
anything [] = tt
anything (d ∷ ds) = (tt, anything ds)

module _ (E : Engine) (t : Tables) (ino offset : ℕ) (listed : List DbfsDirEntry)
    (l : Listing E t ino offset listed) where
  Listing-at :
      (n : ℕ) (rest tail : List DbfsDirEntry)
      → rows t ino (n - dotdot) t.dirents ≡ ok tail
      → rest ≡ dots n ino l.parent ++ tail
      → Listing E t ino n rest
  Listing-at n rest tail r whole = record {
    parent = l.parent;
    parent_found = l.parent_found;
    is_dir = l.is_dir;
    answers = l.answers;
    tail = tail;
    tail_rows = r;
    whole = whole;
  }

  Listing-tail :
      (front : List DbfsDirEntry) (e : DbfsDirEntry) (rest : List DbfsDirEntry)
      → IsOrdered t.dirents
      → l.tail ≡ front ++ e ∷ rest
      → Listing E t ino e.offset rest
  Listing-tail front e rest o split =
      let r = l.tail_rows ∙ ap ok split in
      let (d, _, at, _) =
        rows-member (λ d. Unit {0}) t ino (offset - dotdot) t.dirents front e rest
          (anything t.dirents) r in
      let later = rows-resume t ino (offset - dotdot) t.dirents front e rest o r in
      let no_dot : ltb e.offset dot ≡ false = ground arith in
      let no_dotdot : ltb e.offset dotdot ≡ false = ground arith in
      Listing-at e.offset rest rest later (rw (no_dot, no_dotdot) refl)

  Listing-dotdot :
      (front : List DbfsDirEntry) (e : DbfsDirEntry) (rest : List DbfsDirEntry)
      → IsOrdered t.dirents
      → offset < dotdot
      → dotdot_entry l.parent ∷ l.tail ≡ front ++ e ∷ rest
      → Listing E t ino e.offset rest
  Listing-dotdot front e rest o lt split =
      let start : offset - dotdot ≡ 0 = omega arith in
      elim (cons-cases (dotdot_entry l.parent) l.tail front e rest split) [
        | inl (_, first, same) ↦
            subst (λ x. Listing E t ino x.offset rest) first
              (Listing-at dotdot rest l.tail (rw start at l.tail_rows) (sym same))
        | inr (front', _, on) ↦ Listing-tail front' e rest o on
      ]

  -- Resumed at the cookie of an entry, the listing has exactly those after it.
  pub Listing-resume :
      (front : List DbfsDirEntry) (e : DbfsDirEntry) (rest : List DbfsDirEntry)
      → IsOrdered t.dirents
      → listed ≡ front ++ e ∷ rest
      → Listing E t ino e.offset rest
  Listing-resume front e rest o split = elim (Bool-cases (ltb offset dot)) [
    | inl fresh ↦
        let none_yet : ltb offset dotdot ≡ true = ground arith in
        let start : offset - dotdot ≡ 0 = omega (arith, ltb→lt offset dot fresh) in
        let whole = rw (fresh, none_yet) at l.whole in
        elim (cons-cases (dot_entry ino) (dotdot_entry l.parent ∷ l.tail) front e rest
          (sym whole ∙ split)) [
            | inl (_, first, same) ↦
                subst (λ x. Listing E t ino x.offset rest) first
                  (Listing-at dot rest l.tail (rw start at l.tail_rows) (sym same))
            | inr (front', _, on) ↦
                Listing-dotdot front' e rest o (omega (arith, ltb→lt offset dot fresh)) on
          ]
    | inr on_from_dot ↦ elim (Bool-cases (ltb offset dotdot)) [
      | inl at_dot ↦
          let whole = rw (on_from_dot, at_dot) at l.whole in
          Listing-dotdot front e rest o (ltb→lt offset dotdot at_dot) (sym whole ∙ split)
      | inr past ↦
          let whole = rw (on_from_dot, past) at l.whole in
          Listing-tail front e rest o (sym whole ∙ split)
    ]
  ]
