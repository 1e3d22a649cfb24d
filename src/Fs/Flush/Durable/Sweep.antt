-- ===== src/Fs/Flush/Durable/Sweep.antt =====
-- `flush_all` as a whole.
use vibedbfs.Prelude.{
  ℕ, ◌/◌, ◌%◌, ◌≤◌, ◌<◌, ◌≡◌, ◌∙◌, sym, ap, List, [], Option, none, some, true, false, Result, ok,
  member, Distinct, refl, ◌∷◌, is_empty, arith, Option-cases, inl, inr,
}
use vibedbfs.OpenTable.Inodes.{find, live_slots, lookup_ino}
use vibedbfs.OpenTable.Inodes.Live.{keys, slots, slot_key, slots-Distinct}
use vibedbfs.Arena.{chunk_size}
use vibedbfs.Db.{Engine, sync_durable}
use vibedbfs.Db.Keys.{max_ino, max_file_size}
use vibedbfs.Db.Files.Contents.{stored_byte}
use vibedbfs.Fs.{Fs, Errno}
use vibedbfs.Fs.Flush.{flush_slots, flush_all}
use vibedbfs.Arena.Dirty.{DirtyIdx}
use vibedbfs.Arena.Dirty.Order.{slot_of}
use vibedbfs.Db.Rows.{lookup_row}
use vibedbfs.Fs.Flush.Rows.{
  buffered_at, buffered_row, seen_row, IsSized, seen-buffered, still-IsSized,
}
use vibedbfs.Fs.Flush.Durable.Loop.{Swept, AreLive, flush_slots-Swept}
use vibedbfs.Fs.Buffer.Sound.{IsSound, nowhere, content, content_at, Unnoticed}
use vibedbfs.Fs.Buffer.View.{laid}

-- The chunks and the row of every file that was not unlinked while open are what readers saw.
pub record IsStored (s u : Fs) : Type 0 where
  pub bytes :
      (ino p : ℕ)
      → ino ≤ max_ino
      → p < max_file_size
      → ((i : ℕ) → find s.table.inodes ino ≡ some i → s.table.inodes.unlinked.at i ≡ false)
      → stored_byte u.tables.file_chunks ino p ≡ content s ino p
  pub rows :
      (ino : ℕ)
      → ((i : ℕ) → find s.table.inodes ino ≡ some i → s.table.inodes.unlinked.at i ≡ false)
      → lookup_row ino u.tables.inodes ≡ seen_row s ino

-- What `flush_all` does: readers notice nothing, and a success leaves every file as they see it in
-- the tables, synced.
pub record AllStored (E : Engine) (s : Fs) (x : Result Errno (Unit {0}) × Fs) : Type 0 where
  pub sound : IsSound nowhere x.1
  pub sized : IsSized x.1
  pub unnoticed : Unnoticed s x.1
  pub same_rows : (ino : ℕ) → seen_row x.1 ino ≡ seen_row s ino
  pub stored : x.0 ≡ ok tt → (E.sync_failure x.1.tables ≡ none) × IsStored s x.1

Swept-byte :
    (is : List ℕ) (s : Fs) (y : Option Errno × Fs) (ino p : ℕ)
    → Swept is none s y
    → y.0 ≡ none
    → ino ≤ max_ino
    → p < max_file_size
    → ((i : ℕ)
        → find s.table.inodes ino ≡ some i
        → (member i is ≡ true) × (s.table.inodes.unlinked.at i ≡ false))
    → stored_byte y.1.tables.file_chunks ino p ≡ content s ino p
Swept-byte is s y ino p w h h1 h2 linked = elim (Option-cases (find y.1.table.inodes ino)) [
  | inl closed ↦ sym (ap (content_at y.1 ino p) closed) ∙ w.unnoticed.same_content ino p h1 h2
  | inr (i, e) ↦
      let l = linked i (w.no_other ino i e) in
      let gone = (w.clean h).1 i (p / chunk_size) l.0 l.1 in
      let at : y.1.table.inodes.ino.at i ≡ ino = w.sound.found ino i e in
      let seen : content y.1 ino p ≡ stored_byte y.1.tables.file_chunks ino p =
        ap (content_at y.1 ino p) e
        ∙ ap
            (λ o.
              laid y.1.table.arena o (p % chunk_size)
                (stored_byte y.1.tables.file_chunks (y.1.table.inodes.ino.at i) p))
            gone
        ∙ ap (λ n. stored_byte y.1.tables.file_chunks n p) at in
      sym seen ∙ w.unnoticed.same_content ino p h1 h2
]

no_dirty : (xs : DirtyIdx) → ((k : ℕ) → slot_of k xs ≡ none) → is_empty xs ≡ true
no_dirty [] h = refl
no_dirty ((k, a) ∷ xs) h = absurd (let gone = h k in ground arith)

Swept-row :
    (is : List ℕ) (s : Fs) (y : Option Errno × Fs) (ino : ℕ)
    → Swept is none s y
    → y.0 ≡ none
    → ((i : ℕ)
        → find s.table.inodes ino ≡ some i
        → (member i is ≡ true) × (s.table.inodes.unlinked.at i ≡ false))
    → lookup_row ino y.1.tables.inodes ≡ buffered_row s ino
Swept-row is s y ino w h linked = elim (Option-cases (find y.1.table.inodes ino)) [
  | inl closed ↦ sym (ap (buffered_at y.1 ino) closed) ∙ w.same_rows ino
  | inr (i, e) ↦
      let l = linked i (w.no_other ino i e) in
      let clean = no_dirty (y.1.table.inodes.dirty.at i) (λ k. (w.clean h).1 i k l.0 l.1) in
      let seen : buffered_row y.1 ino ≡ lookup_row ino y.1.tables.inodes =
        ap (buffered_at y.1 ino) e ∙ rw clean refl in
      sym seen ∙ w.same_rows ino
]

slot_member : (k w : ℕ) (xs : List (ℕ × ℕ)) → lookup_ino k xs ≡ some w → member w (slots xs) ≡ true
slot_member k w [] e = cc
slot_member k w ((l, v) ∷ xs) e = ground (arith, slot_member k w xs)

-- Where the buffers are sound, the inode numbers of the open table are distinct and slots without
-- dirty chunks have the stored sizes, `flush_all` changes no byte of any file and no row as readers
-- see it, with the size and times of the open table laid over, whatever fails. A success means that
-- the sync succeeded, and that the bytes and the row of every file that was not unlinked while open
-- are in the tables as readers saw them before, its size and times included.
pub flush_all_lem :
    (E : Engine) (s : Fs)
    → IsSound nowhere s
    → IsSized s
    → Distinct (keys s.table.inodes.by_ino)
    → AllStored E s (flush_all E s)
unfolding flush_all live_slots sync_durable find
flush_all_lem E s v z d =
    let is = slots s.table.inodes.by_ino in
    let once = slots-Distinct s.table.inodes.ino.at s.table.inodes.by_ino d v.found in
    let live : AreLive is s = λ w m.
      let (k, e) = slot_key w s.table.inodes.by_ino d m in
      ap (λ n. find s.table.inodes n) (v.found k w e) ∙ e in
    let y = flush_slots E is none s in
    let w = flush_slots-Swept E is none s v once live in
    let z' = still-IsSized s y.1 w.same_rows w.no_other w.unnoticed.same_size z in
    let rows : (ino : ℕ) → seen_row y.1 ino ≡ seen_row s ino =
      λ ino. seen-buffered y.1 ino z' ∙ w.same_rows ino ∙ sym (seen-buffered s ino z) in
    elim (Option-cases y.0) [
      | inr (e, f) ↦ rw f (record {
        sound = w.sound;
        sized = z';
        unnoticed = w.unnoticed;
        same_rows = rows;
        stored = λ h. absurd (cc);
      })
      | inl none_failed ↦ elim (Option-cases (E.sync_failure y.1.tables)) [
        | inr (e, f) ↦
            rw (none_failed, f)
              (record {
                sound = w.sound;
                sized = z';
                unnoticed = w.unnoticed;
                same_rows = rows;
                stored = λ h. absurd (cc);
              })
        | inl synced ↦
            rw (none_failed, synced)
              (record {
                sound = w.sound;
                sized = z';
                unnoticed = w.unnoticed;
                same_rows = rows;
                stored = λ h. (
                  synced,
                  record {
                    bytes = λ ino p h1 h2 linked.
                        Swept-byte is s y ino p w none_failed h1 h2
                          (λ i e. (slot_member ino i s.table.inodes.by_ino e, linked i e));
                    rows = λ ino linked.
                        Swept-row is s y ino w none_failed
                          (λ i e. (slot_member ino i s.table.inodes.by_ino e, linked i e))
                        ∙ sym (seen-buffered s ino z);
                  },
                );
              })
      ]
    ]
