-- ===== src/Db/Migrate/Rekeyed.antt =====
-- `rekey_file_chunks`: chunks found under their keys.
use vibedbfs.Prelude.{
  ℕ, ◌<◌, ◌≤◌, ◌≡◌, refl, subst, List, [], ◌∷◌, Option, none, some, Bool, true, false, ◌&&◌, ◌==◌,
  if◌then◌else◌, All, Bytes, length, retain, arith, Bool-cases, inl, inr,
}
use vibedbfs.Db.Keys.{max_chunks, max_ino, chunk_key}
use vibedbfs.Db.Keys.Unpack.{chunk_key_lem}
use vibedbfs.Db.Rows.{upsert_chunk}
use vibedbfs.Db.Migrate.{IndexedChunk, is_too_large, rekey}

-- The chunk of an inode, before.
abbrev pub indexed : List IndexedChunk → ℕ → ℕ → Option Bytes
indexed [] ino index = none
indexed (c ∷ rest) ino index =
    if c.ino == ino && c.index == index then some c.bytes else indexed rest ino index

same_key :
    (ino index other next : ℕ)
    → ino ≤ max_ino
    → index < max_chunks
    → other ≤ max_ino
    → next < max_chunks
    → (chunk_key ino index == chunk_key other next) ≡ (other == ino && next == index)
same_key ino index other next a b c d =
    rw (chunk_key_lem ino index a b, chunk_key_lem other next c d) (ground arith)

pub rekey-indexed :
    (exists : ℕ → Bool) (old : List IndexedChunk) (ino index : ℕ)
    → All (λ c. is_too_large c ≡ false) old
    → ino ≤ max_ino
    → index < max_chunks
    → rekey exists old (chunk_key ino index) ≡ (if exists ino then indexed old ino index else none)
unfolding upsert_chunk
rekey-indexed exists [] ino index fit a b = ground arith
rekey-indexed exists (c ∷ rest) ino index fit a b =
    let later = rekey-indexed exists rest ino index fit.1 a b in
    let keys = same_key ino index c.ino c.index a b (ground arith) (ground arith) in
    elim (Bool-cases (exists c.ino)) [
      | inl there ↦ elim (Bool-cases (c.ino == ino && c.index == index)) [
        | inl hit ↦
            let same : c.ino ≡ ino = ground arith in
            let here : exists ino ≡ true = subst (λ i. exists i ≡ true) same there in
            rw (there, upsert_chunk, keys, hit, here) refl
        | inr miss ↦ rw (there, upsert_chunk, keys, miss) later
      ]
      | inr gone ↦ elim (Bool-cases (c.ino == ino && c.index == index)) [
        | inl hit ↦
            let same : c.ino ≡ ino = ground arith in
            let here : exists ino ≡ false = subst (λ i. exists i ≡ false) same gone in
            let none_left = rw here at later in rw (gone, here) none_left
        | inr miss ↦ rw (gone, miss) later
      ]
    ]

pub no_large :
    (old : List IndexedChunk)
    → All (λ c. is_too_large c ≡ false) old
    → length (retain is_too_large old) ≡ 0
no_large [] fit = refl
no_large (c ∷ rest) fit = rw (retain, fit.0) (no_large rest fit.1)
