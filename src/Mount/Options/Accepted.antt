-- ===== src/Mount/Options/Accepted.antt =====
-- The options that `mount_options_for` returns.
use vibedbfs.Prelude.{
  ℕ, ◌≡◌, refl, ◌∙◌, sym, ap, List, [], ◌∷◌, ◌++◌, none, some, Bool, true, false, ◌&&◌, ◌||◌, not,
  is_empty, retain, list_eq, list_eq_sound, All, ok, bind_ok, arith, Bool-cases, Option-cases, inl,
  inr,
}
use vibedbfs.Text.{codes, trim, contains, split, split_once}
use vibedbfs.Cli.{MountConfig}
use vibedbfs.Mount.{
  MountOption, fs_name, subtype, custom, option_eq, has_option, is_fs_name, is_subtype, allow_other,
  allow_root, auto_unmount, mount_options, add_option, add_options, plain_option, plain_names,
  find_name, valued_option, parse_option, parse_tokens, parse_extra, flag, check_options,
  mount_options_for, requested,
}
use vibedbfs.Mount.Options.{has-eq, has-append, has-retain}
use vibedbfs.Mount.Options.Tidy.{
  IsHarmless, IsTidy, eq_is_fs_name, eq_is_subtype, All-append, add_options-IsTidy,
  mount_options-IsTidy,
}

find_name-IsHarmless :
    (t : List ℕ) (names : List (List ℕ × MountOption)) (o : MountOption)
    → All (λ n. IsHarmless n.1) names
    → find_name t names ≡ some o
    → IsHarmless o
find_name-IsHarmless t [] o all h = cc
find_name-IsHarmless t ((name, x) ∷ rest) o all h = elim (Bool-cases (list_eq t name)) [
  | inl e ↦ let same : x ≡ o = (let g = rw e at h in cc) in rw (← same) all.0
  | inr ne ↦ find_name-IsHarmless t rest o all.1 (rw ne at h)
]

plain_option-IsHarmless : (t : List ℕ) (o : MountOption) → plain_option t ≡ some o → IsHarmless o
unfolding plain_option
plain_option-IsHarmless t o = find_name-IsHarmless t plain_names o (search)

valued_option-IsHarmless :
    (t : List ℕ) (o : MountOption)
    → contains t (codes "default_permissions") ≡ false
    → valued_option t ≡ ok o
    → IsHarmless o
unfolding valued_option
valued_option-IsHarmless t o c h = elim (Option-cases (split_once b'=' t)) [
  | inl whole ↦
      (let same : custom t ≡ o = (let g = rw (valued_option, whole) at h in cc) in
        rw (← same, c) refl)
  | inr ((key, name), e) ↦
      let g = rw (valued_option, e) at h in
      elim (Bool-cases
        ((list_eq key (codes "fsname") || list_eq key (codes "subtype")) && is_empty name)) [
          | inl bad ↦ absurd (let f = rw bad at g in cc)
          | inr good ↦ elim (Bool-cases (list_eq key (codes "fsname"))) [
            | inl named ↦
                (let same : fs_name name ≡ o = (let f = rw (good, named) at g in cc) in
                  rw (← same) refl)
            | inr other ↦ elim (Bool-cases (list_eq key (codes "subtype"))) [
              | inl typed ↦
                  (let same : subtype name ≡ o = (let f = rw (good, other, typed) at g in cc) in
                    rw (← same) refl)
              | inr any ↦
                  (let same : custom t ≡ o = (let f = rw (good, other, any) at g in cc) in
                    rw (← same, c) refl)
            ]
          ]
        ]
]

-- Adding an option keeps all options that are no name and no subtype.
has-add_option :
    (os : List MountOption) (x o : MountOption)
    → is_fs_name o ≡ false
    → is_subtype o ≡ false
    → has_option o (add_option os x) ≡ (has_option o os || has_option o (x ∷ []))
unfolding add_option
has-add_option os x o unnamed untyped = elim (Bool-cases (is_fs_name x)) [
  | inl named ↦ rw named (
      has-append o (retain (λ y. not (is_fs_name y)) os) (x ∷ [])
      ∙ ap (λ b. b || has_option o (x ∷ []))
          (has-retain (λ y. not (is_fs_name y)) o os
            (λ y e. ap not (eq_is_fs_name o y e ∙ unnamed))))
  | inr other ↦ elim (Bool-cases (is_subtype x)) [
    | inl typed ↦
        rw (other, typed)
          (has-append o (retain (λ y. not (is_subtype y)) os) (x ∷ [])
            ∙ ap (λ b. b || has_option o (x ∷ []))
                (has-retain (λ y. not (is_subtype y)) o os
                  (λ y e. ap not (eq_is_subtype o y e ∙ untyped))))
    | inr plain ↦ elim (Bool-cases (has_option x os)) [
      | inr new ↦ rw (other, plain, new) (has-append o os (x ∷ []))
      | inl old ↦
          rw (other, plain, old)
            (elim (Bool-cases (option_eq o x)) [
              | inl e ↦ rw (e, has-eq o x os e, old) refl
              | inr ne ↦ rw ne (ground arith)
            ])
    ]
  ]
]

has-add_options :
    (os requested : List MountOption) (o : MountOption)
    → is_fs_name o ≡ false
    → is_subtype o ≡ false
    → has_option o (add_options os requested) ≡ (has_option o os || has_option o requested)
unfolding add_options
has-add_options os [] o a b = ground arith
has-add_options os (x ∷ xs) o a b =
    has-add_options (add_option os x) xs o a b
    ∙ ap (λ c. c || has_option o xs) (has-add_option os x o a b)
    ∙ ground arith

known_plain : ¬ (plain_option (codes "default_permissions") ≡ none)
unfolding plain_option
known_plain h = cc

parse_option-IsHarmless : (t : List ℕ) (o : MountOption) → parse_option t ≡ ok o → IsHarmless o
unfolding parse_option
parse_option-IsHarmless t o h = elim (Bool-cases (is_empty (trim t))) [
  | inl blank ↦ absurd (let g = rw (parse_option, blank) at h in cc)
  | inr some_text ↦
      let word = codes "default_permissions" in
      elim (Bool-cases (contains (trim t) word && not (list_eq (trim t) word))) [
        | inl unsafe ↦ absurd (let g = rw (parse_option, some_text, unsafe) at h in cc)
        | inr safe ↦
            let g = rw (parse_option, some_text, safe) at h in
            elim (Option-cases (plain_option (trim t))) [
              | inr (x, e) ↦
                  let same : x ≡ o = (let f = rw e at g in cc) in
                  rw (← same) (plain_option-IsHarmless (trim t) x e)
              | inl valued ↦ elim (Bool-cases (list_eq (trim t) word)) [
                | inl plain ↦ absurd (
                    let same = list_eq_sound (trim t) word plain in
                    let known = sym (ap plain_option same) ∙ valued in known_plain known)
                | inr other ↦ valued_option-IsHarmless (trim t) o (ground arith) (rw valued at g)
              ]
            ]
      ]
]

parse_tokens-IsHarmless :
    (ts : List (List ℕ)) (os : List MountOption) → parse_tokens ts ≡ ok os → All IsHarmless os
unfolding parse_tokens
parse_tokens-IsHarmless [] os h = (let same : [] ≡ os = cc in rw (← same) tt)
parse_tokens-IsHarmless (t ∷ ts) os h =
    let (o, e, h1) = bind_ok (parse_option t) _ h in
    let (rest, f, h2) = bind_ok (parse_tokens ts) _ h1 in
    let same : o ∷ rest ≡ os = cc in
    rw (← same) (parse_option-IsHarmless t o e, parse_tokens-IsHarmless ts rest f)

parse_extra-IsHarmless :
    (raws : List (List ℕ)) (os : List MountOption) → parse_extra raws ≡ ok os → All IsHarmless os
unfolding parse_extra
parse_extra-IsHarmless [] os h = (let same : [] ≡ os = cc in rw (← same) tt)
parse_extra-IsHarmless (raw ∷ raws) os h =
    let (a, e, h1) = bind_ok (parse_tokens (split b',' raw)) _ h in
    let (b, f, h2) = bind_ok (parse_extra raws) _ h1 in
    let same : a ++ b ≡ os = cc in
    rw (← same) (
      All-append IsHarmless a b (parse_tokens-IsHarmless (split b',' raw) a e)
        (parse_extra-IsHarmless raws b f))

check_options_sound :
    (os options : List MountOption)
    → check_options os ≡ ok options
    → (os ≡ options)
      × ((has_option allow_other os && has_option allow_root os) ≡ false)
      × ((has_option auto_unmount os && not (has_option allow_other os || has_option allow_root os))
          ≡ false)
unfolding check_options
check_options_sound os options h =
    let other = has_option allow_other os in
    let root = has_option allow_root os in
    elim (Bool-cases (other && root)) [
      | inl both ↦ absurd (let g = rw (check_options, both) at h in cc)
      | inr one ↦ elim (Bool-cases (has_option auto_unmount os && not (other || root))) [
        | inl alone ↦ absurd (let g = rw (check_options, one, alone) at h in cc)
        | inr safe ↦ ((let g = rw (check_options, one, safe) at h in cc), one, safe)
      ]
    ]

-- What the accepted options have: the kernel checks permissions and nothing turns that off, no
-- option stands twice and one is the name of the filesystem, at most one of `allow_other` and
-- `allow_root` is there, and one of them where `auto_unmount` is.
pub record IsAccepted (options : List MountOption) : Type 0 where
  pub tidy : IsTidy options
  pub one_access : (has_option allow_other options && has_option allow_root options) ≡ false
  pub asked_access :
      has_option auto_unmount options ≡ true
      → (has_option allow_other options || has_option allow_root options) ≡ true

flag-IsHarmless : (b : Bool) (o : MountOption) → IsHarmless o → All IsHarmless (flag b o)
flag-IsHarmless true o h = (h, tt)
flag-IsHarmless false o h = tt

requested-IsHarmless :
    (config : MountConfig) (extra : List MountOption)
    → All IsHarmless extra
    → All IsHarmless (requested config extra)
requested-IsHarmless config extra h =
    let other = flag config.allow_other allow_other in
    let root = flag config.allow_root allow_root in
    let unmount = flag config.auto_unmount auto_unmount in
    All-append IsHarmless (other ++ root ++ unmount) extra
      (All-append IsHarmless (other ++ root) unmount
        (All-append IsHarmless other root (flag-IsHarmless config.allow_other allow_other refl)
          (flag-IsHarmless config.allow_root allow_root refl))
        (flag-IsHarmless config.auto_unmount auto_unmount refl))
      h

-- Options that are accepted keep the kernel's permission checks on, of which no option can turn
-- them off; none stands twice, one names the filesystem, at most one of `allow_other` and
-- `allow_root` is there, and one of them where `auto_unmount` is. But for names and subtypes they
-- are exactly the defaults and those asked for.
pub mount_options_for_lem :
    (config : MountConfig) (options : List MountOption)
    → mount_options_for config ≡ ok options
    → IsAccepted options
      × ((extra : List MountOption) × (parse_extra config.extra ≡ ok extra)
          × ((o : MountOption)
              → is_fs_name o ≡ false
              → is_subtype o ≡ false
              → has_option o options
                ≡ (has_option o mount_options || has_option o (requested config extra))))
unfolding mount_options_for
mount_options_for_lem config options h =
    let (extra, e, g) = bind_ok (parse_extra config.extra) _ h in
    let os = add_options mount_options (requested config extra) in
    let (same, one, safe) = check_options_sound os options g in
    let tidy =
      add_options-IsTidy mount_options (requested config extra)
        (requested-IsHarmless config extra (parse_extra-IsHarmless config.extra extra e))
        mount_options-IsTidy in
    rw (← same) (
      record { tidy = tidy; one_access = one; asked_access = λ a. ground arith },
      (extra, e, λ o a b. has-add_options mount_options (requested config extra) o a b),
    )
