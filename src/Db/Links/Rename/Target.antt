-- ===== src/Db/Links/Rename/Target.antt =====
-- What `rename` finds at the new name and how it clears it.
use vibedbfs.Prelude.{
  ℕ, ◌≤◌, ◌≡◌, refl, ◌∙◌, sym, ap, List, [], ◌∷◌, Option, none, some, Bool, true, false, ◌&&◌, ◌==◌,
  ltb, length, list_eq, list_eq_sound, ok, arith, Bool-cases, inl, inr,
}
use vibedbfs.Model.{Timestamp, Inode, FileKind}
use vibedbfs.Db.{Tables, Engine, Dirent}
use vibedbfs.Db.Rows.{is_entry, name_max, check_name, delete_entry, delete_inode_rows}
use vibedbfs.Db.Nodes.{lookup, inode_kind_of}
use vibedbfs.Db.Dirs.{is_directory_kind, list_dir, joined_entries}
use vibedbfs.Db.Remove.{drop_target, drop_unlinked_inode, check_replace, check_target, optional}
use vibedbfs.Db.Links.{IsLinked, FewEntries, entry, is_dir, is_dir_row, parent_is}
use vibedbfs.Db.Links.Counts.{count, find_none}
use vibedbfs.Db.Links.Lookup.{Found, lookup-Found, join_none}
use vibedbfs.Db.Links.Deleted.{deleted_others, deleted-IsLinked, deleted-Drops}
use vibedbfs.Db.Links.RemoveDir.{apart_from, is_directory}
use vibedbfs.Db.Links.Unlink.Outcome.{dropped, entry_dir}
use vibedbfs.Db.Links.Rename.{Cleared}

-- What the new name may lead to: nothing, or an inode of the same sort in which no entry stands.
abbrev pub Replaceable : Engine → Tables → ℕ → List ℕ → FileKind → Option Inode → Type 0
Replaceable E t new_parent new_name kind none = entry t new_parent new_name ≡ none
Replaceable E t new_parent new_name kind (some target) =
    (lookup E t new_parent new_name ≡ ok target)
    × (is_directory_kind target.kind ≡ is_directory_kind kind)
    × (count (parent_is target.ino) t.dirents ≡ 0)

free_Cleared :
    (t : Tables) (parent new_parent : ℕ) (new_name : List ℕ)
    → IsLinked t
    → is_dir t parent ≡ true
    → is_dir t new_parent ≡ true
    → entry t new_parent new_name ≡ none
    → Cleared t t parent new_parent new_name
free_Cleared t parent new_parent new_name v old_dir new_dir free = record {
  linked = v;
  drops = λ p n. elim (Bool-cases (p == new_parent && list_eq n new_name)) [
    | inr other ↦ rw other
    | inl same ↦
        let is_p : p ≡ new_parent = ground arith in
        let is_n : n ≡ new_name = list_eq_sound n new_name (ground arith) in
        rw same (ap (λ c. entry t c n) is_p ∙ ap (entry t new_parent) is_n ∙ free)
  ];
  old_dir = old_dir;
  new_dir = new_dir;
}

replaced_Cleared :
    (t : Tables) (parent : ℕ) (name : List ℕ) (d : Dirent) (new_parent : ℕ) (new_name : List ℕ)
    (target : Inode) (is_open : Bool) (now : Timestamp)
    → IsLinked t
    → FewEntries t
    → entry t parent name ≡ some d
    → Found t new_parent new_name target
    → count (parent_is target.ino) t.dirents ≡ 0
    → Cleared t
        (drop_unlinked_inode target now is_open (delete_entry new_parent new_name t))
        parent
        new_parent
        new_name
unfolding drop_unlinked_inode
replaced_Cleared t parent name d new_parent new_name target is_open now v few e found empty =
    let old_dir = entry_dir t parent name d v e in
    let new_dir = entry_dir t new_parent new_name found.dirent v found.named in
    elim (Bool-cases (is_directory_kind target.kind)) [
      | inr file ↦
          let x = dropped t new_parent new_name target is_open now v few found file in
          record {
            linked = x.linked;
            drops = x.drops;
            old_dir = x.dirs parent ∙ old_dir;
            new_dir = x.dirs new_parent ∙ new_dir;
          }
      | inl dir ↦
          let was_dir : is_dir t target.ino ≡ true =
            ap is_dir_row found.stored ∙ sym (found.read.kind) ∙ dir in
          let last = v.single target.ino was_dir in
          let stays : (k : ℕ)
              → (k == target.ino) ≡ false
              → is_dir (delete_inode_rows target.ino (delete_entry new_parent new_name t)) k
                ≡ is_dir t k =
            λ k ne.
              ap is_dir_row (deleted_others t new_parent new_name target v found empty last k ne) in
          rw dir (record {
            linked = deleted-IsLinked t new_parent new_name target v found empty last;
            drops = deleted-Drops t new_parent new_name target v found empty last;
            old_dir = stays parent (apart_from t parent name d target.ino e empty) ∙ old_dir;
            new_dir =
                stays new_parent
                  (apart_from t new_parent new_name found.dirent target.ino found.named empty)
                ∙ new_dir;
          })
    ]

no_entries :
    (E : Engine) (t : Tables) (ino : ℕ) (ds : List Dirent)
    → count (parent_is ino) ds ≡ 0
    → joined_entries E t ino ds ≡ ok []
unfolding joined_entries
no_entries E t ino [] h = refl
no_entries E t ino (d ∷ ds) h = elim (Bool-cases (d.parent == ino)) [
  | inl same ↦ absurd (ground arith)
  | inr ne ↦ rw ne (no_entries E t ino ds (ground arith))
]

list_dir-empty :
    (E : Engine) (t : Tables) (p : ℕ) (n : List ℕ) (target : Inode)
    → Found t p n target
    → is_directory_kind target.kind ≡ true
    → E.query_failure t ≡ none
    → count (parent_is target.ino) t.dirents ≡ 0
    → list_dir E t target.ino ≡ ok []
unfolding list_dir inode_kind_of
list_dir-empty E t p n target found dir answers empty =
    let stored = found.stored in
    let tag = found.read.tag ∙ ap ok (is_directory target.kind dir) in
    rw (answers, stored, tag, no_entries E t target.ino t.dirents empty)

pub target_lookup :
    (E : Engine) (t : Tables) (p : ℕ) (n : List ℕ) (kind : FileKind) (target : Option Inode)
    → length n ≤ name_max
    → E.query_failure t ≡ none
    → Replaceable E t p n kind target
    → optional (lookup E t p n) ≡ ok target
unfolding lookup check_name
target_lookup E t p n kind none fits answers free =
    let short : ltb name_max (length n) ≡ false = ground arith in
    rw (short, answers, join_none t t.dirents p n (find_none (is_entry p n) t.dirents free))
target_lookup E t p n kind (some target) fits answers (found, same, empty) = rw found

pub target_allowed :
    (E : Engine) (t : Tables) (p : ℕ) (n : List ℕ) (kind : FileKind) (target : Option Inode)
    → IsLinked t
    → E.query_failure t ≡ none
    → Replaceable E t p n kind target
    → check_target E t kind target false ≡ ok tt
unfolding check_replace
target_allowed E t p n kind none v answers free = refl
target_allowed E t p n kind (some target) v answers (e, same, empty) =
    elim (Bool-cases (is_directory_kind kind)) [
      | inr file ↦ let also = same ∙ file in rw (check_replace, file, also)
      | inl dir ↦
          let also = same ∙ dir in
          let found = lookup-Found E t p n target v e in
          rw (check_replace, dir, also, list_dir-empty E t p n target found also answers empty)
    ]

pub target_Cleared :
    (E : Engine) (t : Tables) (parent : ℕ) (name : List ℕ) (d : Dirent) (p : ℕ) (n : List ℕ)
    (kind : FileKind) (target : Option Inode) (now : Timestamp) (is_open : ℕ → Bool)
    → IsLinked t
    → FewEntries t
    → entry t parent name ≡ some d
    → is_dir t p ≡ true
    → Replaceable E t p n kind target
    → Cleared t (drop_target p n target now is_open t) parent p n
unfolding drop_target
target_Cleared E t parent name d p n kind none now is_open v few e new_dir free =
    free_Cleared t parent p n v (entry_dir t parent name d v e) new_dir free
target_Cleared E t parent name d p n kind (some target) now is_open v few e new_dir r =
    replaced_Cleared t parent name d p n target (is_open target.ino) now v few e
      (lookup-Found E t p n target v r.0) r.2
