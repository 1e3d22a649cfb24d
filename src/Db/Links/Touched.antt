-- ===== src/Db/Links/Touched.antt =====
-- Statements that change no more than times and the link count of one directory.
use vibedbfs.Prelude.{
  ℕ, ◌≡◌, refl, ◌∙◌, sym, ap, ℤ, pos, ◌+ℤ◌, Option, none, some, Bool, true, false, ◌==◌,
  if◌then◌else◌, is_some, arith, Bool-cases, inl, inr,
}
use vibedbfs.Model.{Timestamp, to_ns}
use vibedbfs.Db.{Tables, InodeRow}
use vibedbfs.Db.Rows.{lookup_row, update_row, touch_dir, add_directory_nlink, set_nlink}
use vibedbfs.Db.Links.{IsLinked, is_dir}
use vibedbfs.Db.Links.RowLaws.{
  map_row, lookup-update, SameKind, SameKind-dir, SameKind-refl, SameKind-map,
}

-- From `t` to `u`, entries and kinds stay, and every row but that of `ino`.
pub record Touches (ino : ℕ) (t u : Tables) : Type 0 where
  pub dirents : u.dirents ≡ t.dirents
  pub others : (k : ℕ) → (k == ino) ≡ false → lookup_row k u.inodes ≡ lookup_row k t.inodes
  pub kinds : (k : ℕ) → SameKind (lookup_row k t.inodes) (lookup_row k u.inodes)

SameKind-trans : (o p q : Option InodeRow) → SameKind o p → SameKind p q → SameKind o q
SameKind-trans none none q a b = b
SameKind-trans none (some p) q a b = absurd a
SameKind-trans (some o) none q a b = absurd a
SameKind-trans (some o) (some p) none a b = absurd b
SameKind-trans (some o) (some p) (some q) a b = b ∙ a

pub Touches-refl : (ino : ℕ) (t : Tables) → Touches ino t t
Touches-refl ino t = record {
  dirents = refl;
  others = λ k h. refl;
  kinds = λ k. SameKind-refl (lookup_row k t.inodes);
}

pub Touches-trans : (ino : ℕ) (t u w : Tables) → Touches ino t u → Touches ino u w → Touches ino t w
Touches-trans ino t u w a b = record {
  dirents = b.dirents ∙ a.dirents;
  others = λ k h. b.others k h ∙ a.others k h;
  kinds = λ k.
      SameKind-trans (lookup_row k t.inodes) (lookup_row k u.inodes) (lookup_row k w.inodes)
        (a.kinds k) (b.kinds k);
}

pub Touches-if :
    (c : Bool) (ino : ℕ) (t u : Tables) → Touches ino t u → Touches ino t (if c then u else t)
Touches-if true ino t u a = a
Touches-if false ino t u a = Touches-refl ino t

update-SameKind :
    (k ino : ℕ) (f : InodeRow → InodeRow) (t : Tables)
    → ((r : InodeRow) → (f r).kind ≡ r.kind)
    → SameKind (lookup_row k t.inodes) (lookup_row k (update_row ino f t.inodes))
update-SameKind k ino f t h =
    let o = lookup_row k t.inodes in
    elim (Bool-cases (k == ino)) [
      | inl same ↦ rw (lookup-update k ino f t.inodes, same) (SameKind-map f o h)
      | inr ne ↦ rw (lookup-update k ino f t.inodes, ne) (SameKind-refl o)
    ]

-- Any update of one row that keeps its kind.
update-Touches :
    (ino : ℕ) (f : InodeRow → InodeRow) (t : Tables)
    → ((r : InodeRow) → (f r).kind ≡ r.kind)
    → Touches ino t (record t { inodes = update_row ino f t.inodes })
update-Touches ino f t h = record {
  dirents = refl;
  others = λ k ne. rw (lookup-update k ino f t.inodes, ne);
  kinds = λ k. update-SameKind k ino f t h;
}

pub touch_dir-Touches :
    (ino : ℕ) (now : Timestamp) (t : Tables) → Touches ino t (touch_dir ino now t)
unfolding touch_dir
touch_dir-Touches ino now t =
    update-Touches ino (λ r. record r { mtime_ns = to_ns now; ctime_ns = to_ns now }) t (λ r. refl)

pub add_directory_nlink-Touches :
    (ino : ℕ) (delta : ℤ) (t : Tables) → Touches ino t (add_directory_nlink ino delta t)
unfolding add_directory_nlink
add_directory_nlink-Touches ino delta t =
    update-Touches ino (λ r. record r { nlink = r.nlink +ℤ delta }) t (λ r. refl)

pub set_nlink-Touches :
    (ino nlink : ℕ) (now : Timestamp) (t : Tables) → Touches ino t (set_nlink ino nlink now t)
unfolding set_nlink
set_nlink-Touches ino nlink now t =
    update-Touches ino (λ r. record r { nlink = pos nlink; ctime_ns = to_ns now }) t (λ r. refl)

map_row-some :
    (f : InodeRow → InodeRow) (o : Option InodeRow) (r : InodeRow)
    → map_row f o ≡ some r
    → (q : InodeRow) × (f q ≡ r)
map_row-some f none r e = cc
map_row-some f (some q) r e = (q, cc)

pub set_nlink-nlink :
    (k ino nlink : ℕ) (now : Timestamp) (t : Tables) (r : InodeRow)
    → (k == ino) ≡ true
    → lookup_row k (set_nlink ino nlink now t).inodes ≡ some r
    → r.nlink ≡ pos nlink
unfolding set_nlink
set_nlink-nlink k ino nlink now t r same e =
    let f : InodeRow → InodeRow = λ r. record r { nlink = pos nlink; ctime_ns = to_ns now } in
    let mapped = rw (lookup-update k ino f t.inodes, same) at e in
    let (q, h) = map_row-some f (lookup_row k t.inodes) r mapped in sym (ap (λ x. x.nlink) h)

pub SameKind-none : (o p : Option InodeRow) → SameKind o p → p ≡ none → o ≡ none
SameKind-none none p h e = refl
SameKind-none (some r) none h e = absurd h
SameKind-none (some r) (some q) h e = cc

pub SameKind-is_some : (o p : Option InodeRow) → SameKind o p → is_some p ≡ is_some o
SameKind-is_some none none h = refl
SameKind-is_some none (some r) h = absurd h
SameKind-is_some (some r) none h = absurd h
SameKind-is_some (some r) (some q) h = refl

module _ (ino : ℕ) (t u : Tables) (h : Touches ino t u) where
  pub Touches-dir : (k : ℕ) → is_dir u k ≡ is_dir t k
  Touches-dir k = SameKind-dir (lookup_row k t.inodes) (lookup_row k u.inodes) (h.kinds k)

  pub Touches-is_some : (k : ℕ) → is_some (lookup_row k u.inodes) ≡ is_some (lookup_row k t.inodes)
  Touches-is_some k = SameKind-is_some (lookup_row k t.inodes) (lookup_row k u.inodes) (h.kinds k)

  -- The one row belongs to a directory, whose links are not counted.
  pub Touches-IsLinked : is_dir t ino ≡ true → IsLinked t → IsLinked u
  Touches-IsLinked dir v = record {
    unique = λ p n. rw (h.dirents) (v.unique p n);
    children = λ k e. rw (h.dirents) (
        v.children k (SameKind-none (lookup_row k t.inodes) (lookup_row k u.inodes) (h.kinds k) e));
    parents = λ k e. rw (h.dirents) (v.parents k (sym (Touches-dir k) ∙ e));
    single = λ k e. rw (h.dirents) (v.single k (sym (Touches-dir k) ∙ e));
    links = λ k r e file. rw (h.dirents) (elim (Bool-cases (k == ino)) [
      | inr ne ↦ v.links k r (sym (h.others k ne) ∙ e) file
      | inl same ↦
          let is_ino : k ≡ ino = ground arith in
          let yes : is_dir u k ≡ true = Touches-dir k ∙ ap (is_dir t) is_ino ∙ dir in
          absurd (let two = rw e at yes in cc)
    ]);
  }
