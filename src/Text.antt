-- ===== src/Text.antt =====
-- Text as its code points, and the methods of Rust's `str` that src/cli.rs and src/run.rs call.
use Prim.Native.Char.{code}
use Prim.Native.String.{String}
use vibedbfs.Prelude.{
  ℕ, ◌+◌, ◌-◌, ◌*◌, ◌^◌, List, [], ◌∷◌, Option, none, some, Bool, true, false, ◌&&◌, ◌||◌, leb,
  ◌==◌, if◌then◌else◌,
}

abbrev pub codes : String → List ℕ
codes String.[] = []
codes (String.◌∷◌ c s) = code c ∷ codes s

-- `char::is_whitespace`.
abbrev pub is_white : ℕ → Bool
is_white c =
    (leb 9 c && leb c 13)
    || (c == 32)
    || (c == 133)
    || (c == 160)
    || (c == 5760)
    || (leb 8192 c && leb c 8202)
    || (c == 8232)
    || (c == 8233)
    || (c == 8239)
    || (c == 8287)
    || (c == 12288)

abbrev pub trim_start : List ℕ → List ℕ
trim_start [] = []
trim_start (c ∷ cs) = if is_white c then trim_start cs else c ∷ cs

-- Whether all is white from here on, so that the end begins here.
abbrev pub all_white : List ℕ → Bool
all_white [] = true
all_white (c ∷ cs) = is_white c && all_white cs

abbrev pub trim_end : List ℕ → List ℕ
trim_end [] = []
trim_end (c ∷ cs) = let rest = trim_end cs in if all_white (c ∷ cs) then [] else c ∷ rest

abbrev pub trim : List ℕ → List ℕ
trim s = trim_end (trim_start s)

-- All but the last character, and the last one.
abbrev pub split_last : ℕ → List ℕ → List ℕ × ℕ
split_last c [] = ([], c)
split_last c (d ∷ ds) = let rest = split_last d ds in (c ∷ rest.0, rest.1)

abbrev pub starts_with : List ℕ → List ℕ → Bool
starts_with s [] = true
starts_with [] (p ∷ ps) = false
starts_with (c ∷ cs) (p ∷ ps) = (c == p) && starts_with cs ps

abbrev pub contains : List ℕ → List ℕ → Bool
contains [] p = starts_with [] p
contains (c ∷ cs) p = starts_with (c ∷ cs) p || contains cs p

abbrev pub first_piece : ℕ → List (List ℕ) → List (List ℕ)
first_piece c [] = (c ∷ []) ∷ []
first_piece c (p ∷ ps) = (c ∷ p) ∷ ps

-- `split(c)`: one piece more than there are separators.
abbrev pub split : ℕ → List ℕ → List (List ℕ)
split sep [] = [] ∷ []
split sep (c ∷ cs) = let rest = split sep cs in if c == sep then [] ∷ rest else first_piece c rest

abbrev pub cons_before : ℕ → Option (List ℕ × List ℕ) → Option (List ℕ × List ℕ)
cons_before c none = none
cons_before c (some (a, b)) = some (c ∷ a, b)

-- `split_once(c)`.
abbrev pub split_once : ℕ → List ℕ → Option (List ℕ × List ℕ)
split_once sep [] = none
split_once sep (c ∷ cs) =
    let rest = split_once sep cs in if c == sep then some ([], cs) else cons_before c rest

abbrev pub usize_max : ℕ
usize_max = 2 ^ 64 - 1

-- The digits of a `usize`, with its overflow.
abbrev pub scan_digits : List ℕ → ℕ → Option ℕ
scan_digits [] n = some n
scan_digits (c ∷ cs) n =
    let next = n * 10 + (c - 48) in
    if leb 48 c && leb c 57 && leb next usize_max then scan_digits cs next else none

-- `parse::<usize>()`: digits, at least one, with a plus sign or none before them.
abbrev pub parse_usize : List ℕ → Option ℕ
parse_usize [] = none
parse_usize (c ∷ []) = scan_digits (c ∷ []) 0
parse_usize (c ∷ d ∷ ds) = if c == 43 then scan_digits (d ∷ ds) 0 else scan_digits (c ∷ d ∷ ds) 0
