-- ===== src/Cli.antt =====
-- cli.rs: the options of a mount, and the size of the write buffer.
pub mod Sizes
use vibedbfs.Prelude.{
  ℕ, ◌*◌, ◌^◌, List, [], ◌∷◌, Option, none, some, Bool, ltb, leb, ◌==◌, ◌&&◌, ◌-◌, if◌then◌else◌,
  Result, ok, err,
}
use vibedbfs.Text.{trim, split_last, parse_usize, usize_max}

pub record MountConfig : Type 0 where
  pub allow_other : Bool
  pub allow_root : Bool
  pub auto_unmount : Bool
  pub extra : List (List ℕ)
  pub write_buffer : Option ℕ
  pub kernel_cache : Bool

-- The one command, `Mount`.
pub record Cli : Type 0 where
  pub database : List ℕ
  pub mountpoint : List ℕ
  pub config : MountConfig

-- The three messages of `parse_size`, with the text that they quote.
pub data SizeError : Type 0 where
  not_a_size too_large below_minimum : List ℕ → SizeError

unfoldable pub to_ascii_uppercase : ℕ → ℕ
to_ascii_uppercase c = if leb 97 c && leb c 122 then c - 32 else c

-- The shift of a suffix K, M or G.
unfoldable pub suffix_shift : ℕ → Option ℕ
suffix_shift c =
    if c == 75 then some 10 else (if c == 77 then some 20 else (if c == 71 then some 30 else none))

-- `(digits, shift)` of a trimmed text.
unfoldable pub split_suffix : List ℕ → List ℕ × ℕ
split_suffix [] = ([], 0)
split_suffix (c ∷ cs) =
    let (front, last) = split_last c cs in
    elim (suffix_shift (to_ascii_uppercase last)) [
      | none ↦ (c ∷ cs, 0)
      | some shift ↦ (front, shift)
    ]

-- `parse_size` after the text is trimmed.
unfoldable pub size_of : List ℕ → Result SizeError ℕ
size_of text =
    let (digits, shift) = split_suffix text in
    elim (parse_usize digits) [
      | none ↦ err (not_a_size text)
      | some value ↦
          let bytes = value * 2 ^ shift in
          if ltb usize_max bytes
          then err (too_large text)
          else (if ltb bytes 65536 then err (below_minimum text) else ok bytes)
    ]

unfoldable pub parse_size : List ℕ → Result SizeError ℕ
parse_size text = size_of (trim text)
