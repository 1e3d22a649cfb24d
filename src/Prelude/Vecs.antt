-- ===== src/Prelude/Vecs.antt =====
-- Rust's `Vec` and slices: a length and the element at each index. What stands past the length is
-- never read by the program.
use Prim.Native.Nat.{ℕ, ◌+◌, ◌-◌}
use mathlib.Core.Bool.{Bool, ◌&&◌}
use vibedbfs.Prelude.Tests.{ltb, leb, ◌==◌, if◌then◌else◌}

pub record Vec {ℓ} (A : Type ℓ) : Type ℓ where
  pub len : ℕ
  pub at : ℕ → A

-- `from..to` holds `i`.
abbrev pub between : ℕ → ℕ → ℕ → Bool
between from to i = leb from i && ltb i to

module _ {ℓ} {A : Type ℓ} where
  abbrev pub update : (ℕ → A) → ℕ → A → ℕ → A
  update f i x j = if j == i then x else f j

  -- `d` fills the index function where there is no element.
  abbrev pub empty_vec : A → Vec A
  empty_vec d = record { len = 0; at = λ i. d }

  abbrev pub filled : ℕ → A → Vec A
  filled n x = record { len = n; at = λ i. x }

  abbrev pub push : Vec A → A → Vec A
  push v x = record { len = v.len + 1; at = update v.at v.len x }

  abbrev pub set_at : Vec A → ℕ → A → Vec A
  set_at v i x = record { len = v.len; at = update v.at i x }

  -- `v.resize(n, x)`.
  abbrev pub resize : Vec A → ℕ → A → Vec A
  resize v n x = record { len = n; at = λ i. if ltb i v.len then v.at i else x }

  -- `v[from..to].fill(x)`.
  abbrev pub fill : Vec A → ℕ → ℕ → A → Vec A
  fill v from to x = record { len = v.len; at = λ i. if between from to i then x else v.at i }

  -- `v[from..to].copy_from_slice(&src[at..at + (to - from)])`.
  abbrev pub copy_from : Vec A → ℕ → ℕ → Vec A → ℕ → Vec A
  copy_from v from to src start = record {
    len = v.len;
    at = λ i. if between from to i then src.at (start + (i - from)) else v.at i;
  }

  -- `&v[from..to]`.
  abbrev pub slice : Vec A → ℕ → ℕ → Vec A
  slice v from to = record { len = to - from; at = λ i. v.at (from + i) }

abbrev pub Bytes : Type 0
Bytes = Vec ℕ

-- The byte at `i`, and zero past the end.
abbrev pub byte : Bytes → ℕ → ℕ
byte b i = if ltb i b.len then b.at i else 0
