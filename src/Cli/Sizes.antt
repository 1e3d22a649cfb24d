-- ===== src/Cli/Sizes.antt =====
-- Which sizes `parse_size` accepts.
use vibedbfs.Prelude.{
  ℕ, zero, suc, ◌+◌, ◌-◌, ◌*◌, ◌^◌, ◌≤◌, ◌≡◌, ◌↔◌, refl, ◌∙◌, sym, ap, List, [], ◌∷◌, ◌++◌, Option,
  none, some, Bool, true, false, ltb, ◌==◌, if◌then◌else◌, All, ok, err, arith, Bool-cases,
  Option-cases, inl, inr,
}
use mathlib.Core.List.{append-nil}
use native.Mathlib.Nat.{pow-suc, mul_assoc}
use vibedbfs.Text.{trim, split_last, parse_usize, scan_digits, usize_max}
use vibedbfs.Cli.{
  parse_size, size_of, split_suffix, suffix_shift, to_ascii_uppercase, too_large, below_minimum,
}

abbrev pub IsDigit : ℕ → Type 0
IsDigit c = (48 ≤ c) × (c ≤ 57)

-- The number that digits spell behind `n`.
abbrev pub value : ℕ → List ℕ → ℕ
value n [] = n
value n (c ∷ cs) = value (n * 10 + (c - 48)) cs

abbrev sign_text : Bool → List ℕ
sign_text true = 43 ∷ []
sign_text false = []

abbrev suffix_text : Option ℕ → List ℕ
suffix_text none = []
suffix_text (some c) = c ∷ []

abbrev IsShift : Option ℕ → ℕ → Type 0
IsShift none shift = shift ≡ 0
IsShift (some c) shift = suffix_shift (to_ascii_uppercase c) ≡ some shift

-- A text that spells a size: a plus sign or none, digits, and a suffix or none.
pub record IsSize (text : List ℕ) (bytes : ℕ) : Type 0 where
  pub plus : Bool
  pub first : ℕ
  pub digits : List ℕ
  pub suffix : Option ℕ
  pub shift : ℕ
  pub spelled : text ≡ sign_text plus ++ (first ∷ digits) ++ suffix_text suffix
  pub all_digits : All IsDigit (first ∷ digits)
  pub shifted : IsShift suffix shift
  pub exact : bytes ≡ value 0 (first ∷ digits) * 2 ^ shift
  pub least : 65536 ≤ bytes
  pub most : bytes ≤ usize_max

scan_sound :
    (s : List ℕ) (n r : ℕ)
    → n ≤ usize_max
    → scan_digits s n ≡ some r
    → All IsDigit s × (r ≡ value n s) × (r ≤ usize_max)
scan_sound [] n r fits h = ground arith
scan_sound (c ∷ s) n r fits h = ground (arith, scan_sound s (n * 10 + (c - 48)) r)

le-value : (s : List ℕ) (n : ℕ) → n ≤ value n s
le-value [] n = omega arith
le-value (c ∷ s) n = omega (arith, le-value s (n * 10 + (c - 48)))

scan_complete :
    (s : List ℕ) (n : ℕ)
    → All IsDigit s
    → value n s ≤ usize_max
    → scan_digits s n ≡ some (value n s)
scan_complete [] n all fits = refl
scan_complete (c ∷ s) n (hc, hs) fits =
    let m = n * 10 + (c - 48) in ground (arith, scan_complete s m hs fits, le-value s m)

-- What `parse_usize` accepts.
record IsNumber (s : List ℕ) (n : ℕ) : Type 0 where
  plus : Bool
  first : ℕ
  digits : List ℕ
  spelled : s ≡ sign_text plus ++ (first ∷ digits)
  all_digits : All IsDigit (first ∷ digits)
  exact : n ≡ value 0 (first ∷ digits)

parse_usize_sound : (s : List ℕ) (n : ℕ) → parse_usize s ≡ some n → IsNumber s n
parse_usize_sound [] n h = cc
parse_usize_sound (c ∷ []) n h =
    let (all, exact, most) = scan_sound (c ∷ []) 0 n (omega arith) h in
    record { plus = false; first = c; digits = []; spelled = refl; all_digits = all; exact = exact }
parse_usize_sound (c ∷ d ∷ ds) n h = elim (Bool-cases (c == 43)) [
  | inl signed ↦
      let (all, exact, most) = scan_sound (d ∷ ds) 0 n (omega arith) (rw signed at h) in
      let is_plus : c ≡ 43 = ground arith in
      record {
        plus = true;
        first = d;
        digits = ds;
        spelled = ap (λ x. x ∷ d ∷ ds) is_plus;
        all_digits = all;
        exact = exact;
      }
  | inr bare ↦
      let (all, exact, most) = scan_sound (c ∷ d ∷ ds) 0 n (omega arith) (rw bare at h) in
      record {
        plus = false;
        first = c;
        digits = d ∷ ds;
        spelled = refl;
        all_digits = all;
        exact = exact;
      }
]

parse_usize_complete :
    (plus : Bool) (c : ℕ) (cs : List ℕ)
    → All IsDigit (c ∷ cs)
    → value 0 (c ∷ cs) ≤ usize_max
    → parse_usize (sign_text plus ++ (c ∷ cs)) ≡ some (value 0 (c ∷ cs))
parse_usize_complete true c cs all fits = scan_complete (c ∷ cs) 0 all fits
parse_usize_complete false c [] all fits = scan_complete (c ∷ []) 0 all fits
parse_usize_complete false c (d ∷ ds) all fits =
    let bare : (c == 43) ≡ false = ground arith in rw bare (scan_complete (c ∷ d ∷ ds) 0 all fits)

split_last_text : (c : ℕ) (cs : List ℕ) → c ∷ cs ≡ (split_last c cs).0 ++ ((split_last c cs).1 ∷ [])
split_last_text c [] = refl
split_last_text c (d ∷ ds) = ap (λ x. c ∷ x) (split_last_text d ds)

split_last-append : (c : ℕ) (cs : List ℕ) (d : ℕ) → split_last c (cs ++ d ∷ []) ≡ (c ∷ cs, d)
split_last-append c [] d = refl
split_last-append c (e ∷ es) d = ap (λ x. (c ∷ x.0, x.1)) (split_last-append e es d)

split_last-IsDigit : (c : ℕ) (cs : List ℕ) → All IsDigit (c ∷ cs) → IsDigit (split_last c cs).1
split_last-IsDigit c [] (h, _) = h
split_last-IsDigit c (d ∷ ds) (h, hs) = split_last-IsDigit d ds hs

split_bare :
    (c : ℕ) (cs : List ℕ)
    → suffix_shift (to_ascii_uppercase (split_last c cs).1) ≡ none
    → split_suffix (c ∷ cs) ≡ (c ∷ cs, 0)
unfolding split_suffix
split_bare c cs e = rw (split_suffix, e)

split_shifted :
    (c : ℕ) (cs : List ℕ) (shift : ℕ)
    → suffix_shift (to_ascii_uppercase (split_last c cs).1) ≡ some shift
    → split_suffix (c ∷ cs) ≡ ((split_last c cs).0, shift)
unfolding split_suffix
split_shifted c cs shift e = rw (split_suffix, e)

-- A suffix that is split off, or none.
split_suffix_sound :
    (text : List ℕ)
    → (suffix : Option ℕ) × IsShift suffix (split_suffix text).1
      × (text ≡ (split_suffix text).0 ++ suffix_text suffix)
unfolding split_suffix
split_suffix_sound [] = (none, refl, refl)
split_suffix_sound (c ∷ cs) =
    elim (Option-cases (suffix_shift (to_ascii_uppercase (split_last c cs).1))) [
      | inl bare ↦
          let e = split_bare c cs bare in
          (none, ap (λ x. x.1) e, sym (append-nil _ ∙ ap (λ x. x.0) e))
      | inr (shift, h) ↦
          let e = split_shifted c cs shift h in
          (
            some (split_last c cs).1,
            h ∙ ap (λ x. some (x.1)) (sym e),
            split_last_text c cs ∙ ap (λ x. x.0 ++ ((split_last c cs).1 ∷ [])) (sym e),
          )
    ]

digit_bare : (c : ℕ) → IsDigit c → suffix_shift (to_ascii_uppercase c) ≡ none
unfolding suffix_shift to_ascii_uppercase
digit_bare c h = ground arith

split_suffix_complete :
    (c : ℕ) (cs : List ℕ) (suffix : Option ℕ) (shift : ℕ)
    → IsShift suffix shift
    → IsDigit (split_last c cs).1
    → split_suffix ((c ∷ cs) ++ suffix_text suffix) ≡ (c ∷ cs, shift)
split_suffix_complete c cs none shift h digit =
    ap split_suffix (append-nil (c ∷ cs))
    ∙ split_bare c cs (digit_bare (split_last c cs).1 digit)
    ∙ ap (λ k. (c ∷ cs, k)) (sym h)
split_suffix_complete c cs (some d) shift h digit =
    let at_end = split_last-append c cs d in
    split_shifted c (cs ++ d ∷ []) shift
      (ap (λ x. suffix_shift (to_ascii_uppercase (x.1))) at_end ∙ h)
    ∙ ap (λ x. (x.0, shift)) at_end

-- The outcomes of a number with a suffix.
size_of-number :
    (text : List ℕ) (v : ℕ)
    → parse_usize (split_suffix text).0 ≡ some v
    → size_of text ≡ (
        let bytes = v * 2 ^ (split_suffix text).1 in
        if ltb usize_max bytes
        then err (too_large text)
        else (if ltb bytes 65536 then err (below_minimum text) else ok bytes))
unfolding size_of
size_of-number text v e = rw (size_of, e)

size_of-IsSize : (text : List ℕ) (bytes : ℕ) → size_of text ≡ ok bytes → IsSize text bytes
unfolding size_of
size_of-IsSize text bytes h =
    let (suffix, shifted, spelled) = split_suffix_sound text in
    elim (Option-cases (parse_usize (split_suffix text).0)) [
      | inl bad ↦ absurd (let g = rw (size_of, bad) at h in cc)
      | inr (v, e) ↦
          let number = parse_usize_sound (split_suffix text).0 v e in
          let g = sym (size_of-number text v e) ∙ h in
          let size = v * 2 ^ (split_suffix text).1 in
          elim (Bool-cases (ltb usize_max size)) [
            | inl large ↦ absurd (let f = rw large at g in cc)
            | inr fits ↦ elim (Bool-cases (ltb size 65536)) [
              | inl low ↦ absurd (let f = rw (fits, low) at g in cc)
              | inr enough ↦
                  let exact : size ≡ bytes = let f = rw (fits, enough) at g in cc in
                  record {
                    plus = number.plus;
                    first = number.first;
                    digits = number.digits;
                    suffix = suffix;
                    shift = (split_suffix text).1;
                    spelled = spelled ∙ ap (λ x. x ++ suffix_text suffix) (number.spelled);
                    all_digits = number.all_digits;
                    shifted = shifted;
                    exact = sym exact ∙ ap (λ x. x * 2 ^ (split_suffix text).1) (number.exact);
                    least = ground arith;
                    most = ground arith;
                  }
            ]
          ]
    ]

-- The digits with their sign, and the last of them.
signed_last :
    (plus : Bool) (c : ℕ) (cs : List ℕ)
    → All IsDigit (c ∷ cs)
    → (d : ℕ) × (ds : List ℕ) × (sign_text plus ++ (c ∷ cs) ≡ d ∷ ds) × IsDigit (split_last d ds).1
signed_last true c cs all = (43, c ∷ cs, refl, split_last-IsDigit c cs all)
signed_last false c cs all = (c, cs, refl, split_last-IsDigit c cs all)

le-mul : (v k : ℕ) → v ≤ v * 2 ^ k
le-mul v zero = omega arith
le-mul v (suc k) =
    let step = ap (λ x. v * x) (pow-suc 2 k) ∙ sym (mul_assoc v (2 ^ k) 2) in
    omega (arith, step, le-mul v k)

IsSize-size_of : (text : List ℕ) (bytes : ℕ) → IsSize text bytes → size_of text ≡ ok bytes
IsSize-size_of text bytes x =
    let number = sign_text (x.plus) ++ (x.first ∷ x.digits) in
    let (d, ds, is_number, digit) = signed_last (x.plus) (x.first) (x.digits) (x.all_digits) in
    let v = value 0 (x.first ∷ x.digits) in
    let whole : text ≡ number ++ suffix_text (x.suffix) = x.spelled in
    let cut : split_suffix text ≡ (number, x.shift) =
      ap split_suffix (whole ∙ ap (λ y. y ++ suffix_text (x.suffix)) is_number)
      ∙ split_suffix_complete d ds (x.suffix) (x.shift) (x.shifted) digit
      ∙ ap (λ y. (y, x.shift)) (sym is_number) in
    let exact = x.exact in
    let most = x.most in
    let least = x.least in
    let low = le-mul v (x.shift) in
    let read : parse_usize (split_suffix text).0 ≡ some v =
      ap (λ y. parse_usize (y.0)) cut
      ∙ parse_usize_complete (x.plus) (x.first) (x.digits) (x.all_digits)
          (omega (arith, exact, low, most)) in
    let same : v * 2 ^ (split_suffix text).1 ≡ bytes = ap (λ y. v * 2 ^ (y.1)) cut ∙ sym exact in
    let fits : ltb usize_max bytes ≡ false = ground arith in
    let enough : ltb bytes 65536 ≡ false = ground arith in
    size_of-number text v read ∙ rw (same, fits, enough) refl

-- A text is accepted as a size exactly when it spells one: a plus sign or none, digits and a suffix
-- K, M or G or none, in either case, with white space around it, whose value is at least one
-- chunk and fits in a usize. The result is that value.
pub parse_size_lem :
    (text : List ℕ) (bytes : ℕ) → (parse_size text ≡ ok bytes) ↔ IsSize (trim text) bytes
unfolding parse_size
parse_size_lem text bytes = (size_of-IsSize (trim text) bytes, IsSize-size_of (trim text) bytes)
