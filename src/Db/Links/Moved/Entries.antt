-- ===== src/Db/Links/Moved/Entries.antt =====
-- Where names lead after an entry moved.
use vibedbfs.Prelude.{
  ℕ, ◌≡◌, refl, ◌∙◌, sym, ap, List, [], ◌∷◌, map, none, some, true, false, ◌&&◌, ◌==◌,
  if◌then◌else◌, find_first, list_eq, list_eq_sound, list_eq_refl, arith, Bool-cases, inl, inr,
}
use vibedbfs.Db.{Tables, Dirent}
use vibedbfs.Db.Rows.{is_entry}
use vibedbfs.Db.Links.{Moves, entry}
use vibedbfs.Db.Links.Counts.{count, find_passes}
use vibedbfs.Db.Links.Moved.{moved, from_there, not_there}

-- An entry has one name.
same_place :
    (p : ℕ) (n : List ℕ) (q : ℕ) (m : List ℕ) (d : Dirent)
    → is_entry p n d ≡ true
    → is_entry q m d ≡ true
    → (p == q && list_eq n m) ≡ true
same_place p n q m d a b =
    let at_n : d.name ≡ n = list_eq_sound d.name n (ground arith) in
    let at_m : d.name ≡ m = list_eq_sound d.name m (ground arith) in
    let same : list_eq n m ≡ true = ap (list_eq n) (sym at_m ∙ at_n) ∙ list_eq_refl n in
    ground arith

module _ (parent : ℕ) (name : List ℕ) (new_parent : ℕ) (new_name : List ℕ) where
  at_new :
      (d : Dirent)
      → is_entry parent name d ≡ true
      → is_entry new_parent new_name (moved parent name new_parent new_name d) ≡ true
  at_new d from =
      ap (is_entry new_parent new_name) (from_there parent name new_parent new_name d from)
      ∙ ground (arith, list_eq_refl new_name)

  find_at_new :
      (ds : List Dirent) (d : Dirent)
      → count (is_entry new_parent new_name) ds ≡ 0
      → find_first (is_entry parent name) ds ≡ some d
      → find_first (is_entry new_parent new_name) (map (moved parent name new_parent new_name) ds)
        ≡ some (moved parent name new_parent new_name d)
  find_at_new [] d free e = cc
  find_at_new (x ∷ ds) d free e = elim (Bool-cases (is_entry parent name x)) [
    | inl from ↦
        let hit = at_new x from in
        let is_d : x ≡ d = ground arith in
        rw hit (ap (λ y. some (moved parent name new_parent new_name y)) is_d)
    | inr miss ↦
        let stays = not_there parent name new_parent new_name x miss in
        rw stays (ground (arith, find_at_new ds d))
  ]

  elsewhere :
      (p : ℕ) (n : List ℕ) (d : Dirent)
      → (p == new_parent && list_eq n new_name) ≡ false
      → is_entry parent name d ≡ true
      → is_entry p n (moved parent name new_parent new_name d) ≡ false
  elsewhere p n d other from =
      elim (Bool-cases (is_entry p n (moved parent name new_parent new_name d))) [
        | inr miss ↦ miss
        | inl hit ↦
            let both =
              same_place p n new_parent new_name (moved parent name new_parent new_name d) hit
                (at_new d from) in
            absurd (cc)
      ]

  -- An entry under another name than the new one was there before, and did not move.
  find_at_other :
      (p : ℕ) (n : List ℕ) (ds : List Dirent)
      → (p == new_parent && list_eq n new_name) ≡ false
      → find_first (is_entry p n) (map (moved parent name new_parent new_name) ds)
        ≡ (if p == parent && list_eq n name then none else find_first (is_entry p n) ds)
  find_at_other p n [] other = ground arith
  find_at_other p n (x ∷ ds) other =
      let rest = find_at_other p n ds other in
      elim (Bool-cases (is_entry parent name x)) [
        | inl from ↦
            let gone = elsewhere p n x other from in
            rw (gone, rest)
              (elim (Bool-cases (p == parent && list_eq n name)) [
                | inl old ↦ rw old refl
                | inr kept ↦
                    let not_it : is_entry p n x ≡ false = elim (Bool-cases (is_entry p n x)) [
                      | inr miss ↦ miss
                      | inl hit ↦ absurd (let both = same_place p n parent name x hit from in cc)
                    ] in
                    rw (kept, not_it)
              ])
        | inr miss ↦
            let stays = not_there parent name new_parent new_name x miss in
            rw (stays, rest)
              (elim (Bool-cases (p == parent && list_eq n name)) [
                | inr kept ↦ rw kept refl
                | inl old ↦
                    let not_it : is_entry p n x ≡ false =
                      ap (λ c. is_entry c n x) (ground arith)
                      ∙ ap (λ c. is_entry parent c x) (list_eq_sound n name (ground arith))
                      ∙ miss in
                    rw (old, not_it)
              ])
      ]

  pub moved-Moves :
      (t u : Tables) (d : Dirent)
      → u.dirents ≡ map (moved parent name new_parent new_name) t.dirents
      → count (is_entry new_parent new_name) t.dirents ≡ 0
      → entry t parent name ≡ some d
      → Moves parent name new_parent new_name d t u
  moved-Moves t u d dirents free e p n =
      ap (find_first (is_entry p n)) dirents
      ∙ elim (Bool-cases (p == new_parent && list_eq n new_name)) [
        | inr other ↦ find_at_other p n t.dirents other ∙ rw other refl
        | inl same ↦
            let is_p : p ≡ new_parent = ground arith in
            let is_n : n ≡ new_name = list_eq_sound n new_name (ground arith) in
            let from =
              from_there parent name new_parent new_name d
                (find_passes (is_entry parent name) t.dirents d e) in
            rw (same, is_p, is_n) (find_at_new t.dirents d free e ∙ ap some from)
      ]
