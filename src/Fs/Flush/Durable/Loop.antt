-- ===== src/Fs/Flush/Durable/Loop.antt =====
-- The loop of `flush_all` over the live slots.
use vibedbfs.Prelude.{
  ℕ, ◌+◌, ◌≡◌, ◌≢◌, ◌∙◌, sym, ap, List, [], Option, none, some, true, false, ◌==◌, member, Distinct,
  refl, ◌∷◌, arith, Bool-cases, inl, inr,
}
use vibedbfs.OpenTable.Inodes.{find}
use vibedbfs.Db.{Engine}
use vibedbfs.Fs.{Fs, Errno}
use vibedbfs.Fs.Flush.{flush_one, flush_slots}
use vibedbfs.Fs.Flush.Rows.{buffered_row}
use vibedbfs.Fs.Flush.Durable.{Round, flush_one-Round}
use vibedbfs.Fs.Buffer.Sound.{IsSound, nowhere, dirty_at, Unnoticed}
use vibedbfs.Fs.Buffer.Sound.Flushed.{Kept-refl, Unnoticed-trans}

-- What the loop over some slots does.
pub record Swept (is : List ℕ) (failed : Option Errno) (s : Fs) (x : Option Errno × Fs)
    : Type 0 where
  pub sound : IsSound nowhere x.1
  pub unnoticed : Unnoticed s x.1
  pub same_rows : (ino : ℕ) → buffered_row x.1 ino ≡ buffered_row s ino
  pub no_new : (j l : ℕ) → dirty_at s j l ≡ none → dirty_at x.1 j l ≡ none
  pub no_other : (ino j : ℕ) → find x.1.table.inodes ino ≡ some j → find s.table.inodes ino ≡ some j
  pub clean :
      x.0 ≡ none
      → (failed ≡ none)
        × ((w k : ℕ)
            → member w is ≡ true
            → s.table.inodes.unlinked.at w ≡ false
            → dirty_at x.1 w k ≡ none)

abbrev pub AreLive : List ℕ → Fs → Type 0
AreLive is s = (w : ℕ) → member w is ≡ true → find s.table.inodes (s.table.inodes.ino.at w) ≡ some w

sweep :
    (i : ℕ) (is : List ℕ) (failed : Option Errno) (s : Fs) (x y : Option Errno × Fs)
    → member i is ≡ false
    → Round i failed s x
    → Swept is x.0 x.1 y
    → Swept (i ∷ is) failed s y
sweep i is failed s x y once r rest =
    let k = r.kept (i + 1) (omega arith) in
    record {
      sound = rest.sound;
      unnoticed = Unnoticed-trans s x.1 y.1 k.unnoticed rest.unnoticed;
      same_rows = λ ino. rest.same_rows ino ∙ r.same_rows ino;
      no_new = λ j l e. rest.no_new j l (k.no_new j l e);
      no_other = λ ino j e. k.no_other ino j (rest.no_other ino j e);
      clean = λ h.
          let later = rest.clean h in
          let now = r.clean later.0 in
          (
            now.0,
            λ w l m linked. elim (Bool-cases (w == i)) [
              | inl same ↦
                  let wi : w ≡ i = ground arith in
                  rw wi
                    (rest.no_new i l (now.1 l (ap s.table.inodes.unlinked.at (sym wi) ∙ linked)))
              | inr other ↦ later.1 w l (ground arith) (r.same_unlinked w (ground arith) ∙ linked)
            ],
          );
    }

pub flush_slots-Swept :
    (E : Engine) (is : List ℕ) (failed : Option Errno) (s : Fs)
    → IsSound nowhere s
    → Distinct is
    → AreLive is s
    → Swept is failed s (flush_slots E is failed s)
unfolding flush_slots
flush_slots-Swept E [] failed s v d live =
    let k = Kept-refl 0 s v in
    record {
      sound = v;
      unnoticed = k.unnoticed;
      same_rows = λ ino. refl;
      no_new = k.no_new;
      no_other = k.no_other;
      clean = λ h. (h, λ w l m. cc);
    }
flush_slots-Swept E (i ∷ is) failed s v d live =
    let r = flush_one-Round E i failed s v (live i (ground arith)) in
    let x = flush_one E i failed s in
    let generic = r.kept (i + 1) (omega arith) in
    sweep i is failed s x (flush_slots E is x.0 x.1) d.0 r (
      flush_slots-Swept E is x.0 x.1 generic.sound d.1 (λ w m.
        let other : w ≢ i = λ same. absurd (let again = rw same at m in let once = d.0 in cc) in
        let k = r.kept w other in
        ap (λ f. find x.1.table.inodes (f.at w)) k.unnoticed.same_ino
        ∙ k.still_live (live w (ground arith))))
