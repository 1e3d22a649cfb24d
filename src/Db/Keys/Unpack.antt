-- ===== src/Db/Keys/Unpack.antt =====
-- The keys in arithmetic: a key determines its inode and its chunk, and one inode's keys are a range.
use Prim.Native.Nat.{bit_and, bit_or, digits, bit_and-bitwise, bit_or-bitwise}
use vibedbfs.Prelude.{
  ℕ, zero, suc, ◌+◌, ◌*◌, ◌-◌, ◌/◌, ◌%◌, ◌^◌, ◌≤◌, ◌<◌, ◌≡◌, ◌↔◌, refl, sym, ◌∙◌, min, max, arith,
}
use vibedbfs.Db.Keys.{max_chunks, max_ino, chunk_key, chunk_keys, chunk_index_of}

-- The digit loop, run for longer than the first number needs, gives the same number.
digits_enough :
    (z : ℕ → ℕ) (f : ℕ → ℕ → ℕ) (n m a b : ℕ) → a ≤ n → a ≤ m → digits z f n a b ≡ digits z f m a b
digits_enough z f zero zero zero b h k = refl
digits_enough z f zero (suc m) zero b h k = refl
digits_enough z f (suc n) zero zero b h k = refl
digits_enough z f (suc n) (suc m) zero b h k = refl
digits_enough z f zero m (suc a) b h k = absurd (omega arith)
digits_enough z f (suc n) zero (suc a) b h k = absurd (omega arith)
digits_enough z f (suc n) (suc m) (suc a) b h k =
    omega (arith, digits_enough z f n m (suc a / 2) (b / 2) (omega arith) (omega arith))

or_more : (n a b : ℕ) → a ≤ n → digits (λ b. b) max n a b ≡ bit_or a b
or_more n a b h = digits_enough (λ b. b) max n a a b h (omega arith) ∙ sym (bit_or-bitwise a b)

and_more : (n a b : ℕ) → a ≤ n → digits (λ b. 0) min n a b ≡ bit_and a b
and_more n a b h = digits_enough (λ b. 0) min n a a b h (omega arith) ∙ sym (bit_and-bitwise a b)

or_digit : (a b : ℕ) → bit_or a b ≡ bit_or (a / 2) (b / 2) * 2 + max (a % 2) (b % 2)
or_digit zero b = rw (bit_or-bitwise 0 b, bit_or-bitwise 0 (b / 2)) (omega arith)
or_digit (suc a) b = rw (bit_or-bitwise (suc a) b, or_more a (suc a / 2) (b / 2) (omega arith))

and_digit : (a b : ℕ) → bit_and a b ≡ bit_and (a / 2) (b / 2) * 2 + min (a % 2) (b % 2)
and_digit zero b = rw (bit_and-bitwise 0 b, bit_and-bitwise 0 (b / 2)) (omega arith)
and_digit (suc a) b = rw (bit_and-bitwise (suc a) b, and_more a (suc a / 2) (b / 2) (omega arith))

-- Powers of two by doubling.
abbrev two_pow : ℕ → ℕ
two_pow zero = 1
two_pow (suc k) = two_pow k + two_pow k

or_none : (n a : ℕ) → a ≤ n → bit_or a 0 ≡ a
or_none n zero h = bit_or-bitwise 0 0
or_none zero (suc a) h = absurd (omega arith)
or_none (suc n) (suc a) h = omega (arith, or_digit (suc a) 0, or_none n (suc a / 2) (omega arith))

and_none : (n a : ℕ) → a ≤ n → bit_and a 0 ≡ 0
and_none n zero h = bit_and-bitwise 0 0
and_none zero (suc a) h = absurd (omega arith)
and_none (suc n) (suc a) h =
    omega (arith, and_digit (suc a) 0, and_none n (suc a / 2) (omega arith))

or_fields : (k q r : ℕ) → r < two_pow k → bit_or (q * two_pow k) r ≡ q * two_pow k + r
or_fields zero q r h =
    let none : r ≡ 0 = omega arith in rw none (omega (arith, or_none (q * 1) (q * 1) (omega arith)))
or_fields (suc k) q r h =
    let half : q * (two_pow k + two_pow k) / 2 ≡ q * two_pow k = omega arith in
    rw (or_digit (q * (two_pow k + two_pow k)) r, half, or_fields k q (r / 2) (omega arith))
      (omega arith)

two_pow_pos : (k : ℕ) → 0 < two_pow k
two_pow_pos zero = omega arith
two_pow_pos (suc k) = omega (arith, two_pow_pos k)

and_fields : (k q r : ℕ) → r < two_pow k → bit_and (q * two_pow k + r) (two_pow k - 1) ≡ r
and_fields zero q r h = omega (arith, and_none (q * 1 + r) (q * 1 + r) (omega arith))
and_fields (suc k) q r h =
    let pos = two_pow_pos k in
    let half : (q * (two_pow k + two_pow k) + r) / 2 ≡ q * two_pow k + r / 2 = omega arith in
    let mask : (two_pow k + two_pow k - 1) / 2 ≡ two_pow k - 1 = omega arith in
    rw
      (
        and_digit (q * (two_pow k + two_pow k) + r) (two_pow k + two_pow k - 1),
        half,
        mask,
        and_fields k q (r / 2) (omega arith),
      )
      (omega arith)

-- For an inode and a chunk within the limits the key is a sum, with no overlap and no overflow.
pub chunk_key_lem :
    (ino index : ℕ)
    → ino ≤ max_ino
    → index < max_chunks
    → chunk_key ino index ≡ ino * 2 ^ 24 + index
unfolding chunk_key
chunk_key_lem ino index h k =
    let whole : ino * 2 ^ 24 % 2 ^ 64 ≡ ino * 2 ^ 24 = omega arith in
    rw whole (or_fields 24 ino index k)

-- For an inode number and a chunk index within the limits, the key fits a positive i64 and gives
-- the chunk index back.
pub chunk_index_of-chunk_key :
    (ino index : ℕ)
    → ino ≤ max_ino
    → index < max_chunks
    → (chunk_index_of (chunk_key ino index) ≡ index) × (chunk_key ino index < 2 ^ 63)
unfolding chunk_index_of
chunk_index_of-chunk_key ino index h k =
    rw (chunk_key_lem ino index h k) (and_fields 24 ino index k, omega arith)

-- For inode numbers and a chunk index within the limits, a key is in the range of an inode exactly
-- if it is the key of one of that inode's chunks.
pub chunk_keys_lem :
    (ino other index : ℕ)
    → ino ≤ max_ino
    → other ≤ max_ino
    → index < max_chunks
    → ((chunk_keys ino).0 ≤ chunk_key other index) × (chunk_key other index ≤ (chunk_keys ino).1)
      ↔ (other ≡ ino)
unfolding chunk_keys
chunk_keys_lem ino other index h o k =
    rw
      (
        chunk_key_lem ino 0 h (omega arith),
        chunk_key_lem ino (max_chunks - 1) h (omega arith),
        chunk_key_lem other index o k,
      )
      (λ p. omega arith, λ e. omega arith)
