-- ===== src/Db/Files/Contents.antt =====
-- A file as the bytes that its chunks hold: what reads, writes and truncation do to them.
use vibedbfs.Prelude.{
  ℕ, zero, suc, ◌+◌, ◌-◌, ◌*◌, ◌/◌, ◌%◌, ◌^◌, ◌≤◌, ◌<◌, min, ◌≡◌, refl, sym, ap, ◌∙◌, subst,
  empty_vec, List, [], ◌∷◌, Option, none, some, Bool, true, false, ◌&&◌, ◌||◌, ltb, leb, ◌==◌,
  if◌then◌else◌, Bytes, byte, between, filled, ok, arith, Bool-cases, Option-cases, inl, inr,
}
use vibedbfs.Arena.{chunk_size}
use vibedbfs.Span.{ChunkSpan, copy_out}
use vibedbfs.Span
use vibedbfs.Span.Pieces.{IsSpan, copy_out_lem, new-IsSpan}
use vibedbfs.Db.{Tables, Engine}
use vibedbfs.Db.Keys.{max_chunks, max_ino, max_file_size, chunk_key, chunk_index_of}
use vibedbfs.Db.Keys.Unpack.{chunk_key_lem, chunk_index_of-chunk_key}
use vibedbfs.Db.Files.{select_range, copy_rows, read_into, read_file}
use vibedbfs.Db.Nodes.{inode_head}
use vibedbfs.Model.{regular_file}

-- Whether a stored chunk has a byte at an offset, and that byte (zero where there is none).
abbrev pub covers : Option Bytes → ℕ → Bool
covers none r = false
covers (some b) r = ltb r b.len

abbrev pub chunk_byte : Option Bytes → ℕ → ℕ
chunk_byte none r = 0
chunk_byte (some b) r = byte b r

-- The byte of a file at a position; holes are zeros.
abbrev pub stored_byte : (ℕ → Option Bytes) → ℕ → ℕ → ℕ
stored_byte chunks ino p = chunk_byte (chunks (chunk_key ino (p / chunk_size))) (p % chunk_size)

select_hole :
    (chunks : ℕ → Option Bytes) (key n : ℕ)
    → chunks key ≡ none
    → select_range chunks key (suc n) ≡ select_range chunks (key + 1) n
unfolding select_range
select_hole chunks key n e = rw (e, select_range)

select_row :
    (chunks : ℕ → Option Bytes) (key n : ℕ) (b : Bytes)
    → chunks key ≡ some b
    → select_range chunks key (suc n) ≡ (key, b) ∷ select_range chunks (key + 1) n
unfolding select_range
select_row chunks key n b e = rw (e, select_range)

copy_rows-cons :
    (span : ChunkSpan) (key : ℕ) (b : Bytes) (rows : List (ℕ × Bytes)) (out : Bytes)
    → copy_rows span ((key, b) ∷ rows) out
      ≡ copy_rows span rows (copy_out span (chunk_index_of key) b out)
unfolding copy_rows
copy_rows-cons span key b rows out = refl

-- The byte that a range of chunks has for a position of the buffer, over what the buffer holds.
abbrev overlaid : (ℕ → Option Bytes) → ℕ → ℕ → ℕ → ℕ → ℕ → ℕ
overlaid chunks base from to p old =
    let c = chunks (base + p / chunk_size) in
    if between from to (p / chunk_size) && covers c (p % chunk_size)
    then chunk_byte c (p % chunk_size)
    else old

-- One more chunk at the front of the range.
overlaid_step :
    (chunks : ℕ → Option Bytes) (base k n key p old : ℕ)
    → key ≡ base + k
    → overlaid chunks base k (k + suc n) p old
      ≡ overlaid chunks base (k + 1) (k + 1 + n) p (
          if (p / chunk_size == k) && covers (chunks key) (p % chunk_size)
          then chunk_byte (chunks key) (p % chunk_size)
          else old)
overlaid_step chunks base k n key p old e =
    let same : (p / chunk_size == k) ≡ true → chunks (base + p / chunk_size) ≡ chunks key =
      λ h. ap chunks (ground arith) in
    ground (arith, same)

copy_rows-lem :
    (chunks : ℕ → Option Bytes) (span : ChunkSpan) (ino key k n i : ℕ) (out : Bytes)
    → key ≡ ino * 2 ^ 24 + k
    → ino ≤ max_ino
    → k + n ≤ max_chunks
    → IsSpan span
    → span.first ≤ k
    → k + n ≤ span.last + 1
    → i < span.end - span.start
    → (copy_rows span (select_range chunks key n) out).at i
      ≡ overlaid chunks (ino * 2 ^ 24) k (k + n) (span.start + i) (out.at i)
unfolding copy_rows select_range
copy_rows-lem chunks span ino key k zero i out e h fits s lo hi r = ground arith
copy_rows-lem chunks span ino key k (suc n) i out e h fits s lo hi r =
    let step = overlaid_step chunks (ino * 2 ^ 24) k n key (span.start + i) (out.at i) e in
    let ih = λ (out' : Bytes).
      copy_rows-lem chunks span ino (key + 1) (k + 1) n i out' (omega arith) h (omega arith) s
        (omega arith) (omega arith) r in
    elim (Option-cases (chunks key)) [
      | inl hole ↦
          ap (λ rows. (copy_rows span rows out).at i) (select_hole chunks key n hole)
          ∙ ih out
          ∙ ground (arith, step)
      | inr (b, full) ↦
          let index = chunk_index_of-chunk_key ino k h (omega arith) in
          let at_key : chunk_index_of key ≡ k =
            ap chunk_index_of (e ∙ sym (chunk_key_lem ino k h (omega arith))) ∙ index.0 in
          let placed = copy_out_lem span k b out i s lo (omega arith) r in
          ap (λ rows. (copy_rows span rows out).at i) (select_row chunks key n b full)
          ∙ ap
              (λ x. (copy_rows span (select_range chunks (key + 1) n) (copy_out span x b out)).at i)
              at_key
          ∙ ih (copy_out span k b out)
          ∙ ground (arith, step, placed)
    ]

copy_rows-len :
    (span : ChunkSpan) (rows : List (ℕ × Bytes)) (out : Bytes)
    → (copy_rows span rows out).len ≡ out.len
unfolding copy_rows copy_out
copy_rows-len span [] out = refl
copy_rows-len span ((key, b) ∷ rows) out =
    copy_rows-len span rows (copy_out span (chunk_index_of key) b out) ∙ ground arith

-- What `read_into` does to the buffer: stored bytes are copied, and holes leave the old byte.
pub record Filled (chunks : ℕ → Option Bytes) (ino offset : ℕ) (out : Bytes) (result : Bytes)
    : Type 0 where
  pub same_len : result.len ≡ out.len
  pub bytes :
      (i : ℕ)
      → i < out.len
      → let c = chunks (chunk_key ino ((offset + i) / chunk_size)) in
        let r = (offset + i) % chunk_size in
        result.at i ≡ (if covers c r then chunk_byte c r else out.at i)

-- A span that lies below the size limit.
pub record Fits (span : ChunkSpan) : Type 0 where
  pub is_span : IsSpan span
  pub below : span.end ≤ max_file_size

-- The buffer after a read of the whole span.
abbrev read_span : (ℕ → Option Bytes) → ℕ → ChunkSpan → Bytes → Bytes
read_span chunks ino span out =
    copy_rows span (select_range chunks (ino * 2 ^ 24 + span.first) (span.last + 1 - span.first))
      out

read_into-rows :
    (E : Engine) (t : Tables) (ino offset : ℕ) (out : Bytes) (span : ChunkSpan)
    → E.query_failure t ≡ none
    → ino ≤ max_ino
    → Span.new offset out.len ≡ some span
    → Fits span
    → read_into E t ino offset out ≡ ok (read_span t.file_chunks ino span out)
unfolding read_into
read_into-rows E t ino offset out span works h made f =
    let inside : leb max_chunks span.first ≡ false = ground arith in
    let last : min span.last (max_chunks - 1) ≡ span.last = omega arith in
    let count : ino * 2 ^ 24 + span.last + 1 - (ino * 2 ^ 24 + span.first)
        ≡ span.last + 1 - span.first =
      omega arith in
    rw (
      made,
      read_into,
      inside,
      last,
      chunk_key_lem ino span.first h (omega arith),
      chunk_key_lem ino span.last h (omega arith),
      count,
      works,
    )

copy_rows-Filled :
    (chunks : ℕ → Option Bytes) (ino : ℕ) (out : Bytes) (span : ChunkSpan)
    → ino ≤ max_ino
    → Fits span
    → span.end ≡ span.start + out.len
    → Filled chunks ino span.start out (read_span chunks ino span out)
copy_rows-Filled chunks ino out span h f ends = record {
  same_len = copy_rows-len span _ out;
  bytes = λ i r.
      let row =
        copy_rows-lem chunks span ino (ino * 2 ^ 24 + span.first) span.first
          (span.last + 1 - span.first) i out refl h (omega arith) f.is_span (omega arith)
          (omega arith) (omega arith) in
      rw (chunk_key_lem ino ((span.start + i) / chunk_size) h (omega arith)) (ground (arith, row));
}

pub read_into_lem :
    (E : Engine) (t : Tables) (ino offset : ℕ) (out : Bytes)
    → E.query_failure t ≡ none
    → ino ≤ max_ino
    → 0 < out.len
    → offset + out.len ≤ max_file_size
    → (result : Bytes) × (read_into E t ino offset out ≡ ok result)
      × Filled t.file_chunks ino offset out result
read_into_lem E t ino offset out works h some_bytes fits =
    let (span, made, is, starts, ends) = new-IsSpan offset out.len some_bytes (omega arith) in
    let f : Fits span = record { is_span = is; below = omega arith } in
    (
      read_span t.file_chunks ino span out,
      read_into-rows E t ino offset out span works h made f,
      subst (λ o. Filled t.file_chunks ino o out (read_span t.file_chunks ino span out)) starts
          (copy_rows-Filled t.file_chunks ino out span h f (omega arith)),
    )

-- A regular file whose query does not fail, with its size and number within the limits, reads as
-- its stored bytes from the offset on, zeros in its holes, cut off at the end of the file.
pub read_file_lem :
    (E : Engine) (t : Tables) (ino offset size file_size : ℕ)
    → E.query_failure t ≡ none
    → inode_head E t ino ≡ ok (regular_file, file_size)
    → ino ≤ max_ino
    → file_size ≤ max_file_size
    → (out : Bytes) × (read_file E t ino offset size ≡ ok out)
      × (out.len ≡ min size (file_size - offset))
      × ((i : ℕ) → i < out.len → out.at i ≡ stored_byte t.file_chunks ino (offset + i))
unfolding read_file
read_file_lem E t ino offset size file_size works head h fits =
    elim (Bool-cases (leb file_size offset || size == 0)) [
      | inl nothing ↦ (empty_vec 0, rw (head, nothing), ground arith, λ i r. absurd (omega arith))
      | inr something ↦
          let n = min size (file_size - offset) in
          let positive : 0 < n = ground arith in
          let (out, e, f) =
            read_into_lem E t ino offset (filled n 0) works h positive (omega arith) in
          (out, rw (head, something) e, f.same_len, λ i r. ground (arith, f.bytes i (omega arith)))
    ]
