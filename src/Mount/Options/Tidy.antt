-- ===== src/Mount/Options/Tidy.antt =====
-- The list that the loop of `mount_options_for` builds.
use vibedbfs.Prelude.{
  ◌≡◌, refl, ◌∙◌, sym, ap, List, [], ◌∷◌, ◌++◌, Bool, true, false, ◌||◌, not, ◌==◌, retain, length,
  All, arith, Bool-cases, inl, inr,
}
use mathlib.Core.List.{append-nil}
use vibedbfs.Text.{codes, contains}
use vibedbfs.Mount.{
  MountOption, custom, option_eq, has_option, is_fs_name, is_subtype, default_permissions,
  mount_options, add_option, add_options,
}
use vibedbfs.Mount.Options.{
  is_fs_name-tag, is_subtype-tag, eq_tag, eq_trans, eq_refl, has-append, has-retain,
}

abbrev pub is_harmless : MountOption → Bool
is_harmless (custom text) = not (contains text (codes "default_permissions"))
is_harmless _ = true

abbrev pub IsHarmless : MountOption → Type 0
IsHarmless o = is_harmless o ≡ true

-- No option stands twice.
abbrev pub IsUnique : List MountOption → Type 0
IsUnique [] = Unit
IsUnique (o ∷ os) = (has_option o os ≡ false) × IsUnique os

pub record IsTidy (os : List MountOption) : Type 0 where
  pub permissions : has_option default_permissions os ≡ true
  pub unique : IsUnique os
  pub one_name : length (retain is_fs_name os) ≡ 1
  pub harmless : All IsHarmless os

eq_sym : (a b : MountOption) → option_eq a b ≡ false → option_eq b a ≡ false
eq_sym a b h = elim (Bool-cases (option_eq b a)) [
  | inr ne ↦ ne
  | inl e ↦ absurd (let back = sym (eq_trans b a b e) ∙ eq_refl b in cc)
]

pub All-append {κ} :
    {A : Type 0} (P : A → Type κ) (xs ys : List A) → All P xs → All P ys → All P (xs ++ ys)
All-append P [] ys hx hy = hy
All-append P (x ∷ xs) ys hx hy = (hx.0, All-append P xs ys hx.1 hy)

All-retain {κ} :
    {A : Type 0} (P : A → Type κ) (p : A → Bool) (xs : List A) → All P xs → All P (retain p xs)
All-retain P p [] h = tt
All-retain P p (x ∷ xs) h = elim (Bool-cases (p x)) [
  | inl keep ↦ rw keep (h.0, All-retain P p xs h.1)
  | inr drop ↦ rw drop (All-retain P p xs h.1)
]

retained_has :
    (p : MountOption → Bool) (o : MountOption) (os : List MountOption)
    → has_option o os ≡ false
    → has_option o (retain p os) ≡ false
retained_has p o [] h = refl
retained_has p o (x ∷ os) h = ground (arith, retained_has p o os)

retain-IsUnique :
    (p : MountOption → Bool) (os : List MountOption) → IsUnique os → IsUnique (retain p os)
retain-IsUnique p [] u = tt
retain-IsUnique p (o ∷ os) u = elim (Bool-cases (p o)) [
  | inl keep ↦ rw keep (retained_has p o os u.0, retain-IsUnique p os u.1)
  | inr drop ↦ rw drop (retain-IsUnique p os u.1)
]

append-IsUnique :
    (os : List MountOption) (o : MountOption)
    → IsUnique os
    → has_option o os ≡ false
    → IsUnique (os ++ o ∷ [])
append-IsUnique [] o u h = (refl, tt)
append-IsUnique (x ∷ os) o u h =
    let other : option_eq o x ≡ false = ground arith in
    let apart = eq_sym o x other in
    let rest = u.0 in
    (has-append x os (o ∷ []) ∙ ground arith, append-IsUnique os o u.1 (ground arith))

-- What was removed is not there.
retain_none :
    (p : MountOption → Bool) (o : MountOption) (os : List MountOption)
    → ((x : MountOption) → option_eq o x ≡ true → p x ≡ true)
    → has_option o (retain (λ x. not (p x)) os) ≡ false
retain_none p o [] h = refl
retain_none p o (x ∷ os) h = elim (Bool-cases (p x)) [
  | inl drop ↦ rw drop (retain_none p o os h)
  | inr keep ↦
      let apart : option_eq o x ≡ false = elim (Bool-cases (option_eq o x)) [
        | inr ne ↦ ne
        | inl e ↦ absurd (let hit = h x e in cc)
      ] in
      rw (keep, apart) (retain_none p o os h)
]

retain_twice :
    (p : MountOption → Bool) (os : List MountOption) → retain p (retain (λ x. not (p x)) os) ≡ []
retain_twice p [] = refl
retain_twice p (x ∷ os) = ground (arith, retain_twice p os)

retain-append :
    (p : MountOption → Bool) (os bs : List MountOption)
    → retain p (os ++ bs) ≡ retain p os ++ retain p bs
retain-append p [] bs = refl
retain-append p (x ∷ os) bs = ground (arith, retain-append p os bs)

-- Subtypes are no names, so removing them leaves those.
retain_apart :
    (p q : MountOption → Bool) (os : List MountOption)
    → ((x : MountOption) → p x ≡ true → q x ≡ true)
    → retain p (retain q os) ≡ retain p os
retain_apart p q [] h = refl
retain_apart p q (x ∷ os) h = ground (arith, h x, retain_apart p q os h)

pub eq_is_fs_name : (o x : MountOption) → option_eq o x ≡ true → is_fs_name x ≡ is_fs_name o
eq_is_fs_name o x e =
    is_fs_name-tag x ∙ ap (λ k. k == 0) (sym (eq_tag o x e)) ∙ sym (is_fs_name-tag o)

pub eq_is_subtype : (o x : MountOption) → option_eq o x ≡ true → is_subtype x ≡ is_subtype o
eq_is_subtype o x e =
    is_subtype-tag x ∙ ap (λ k. k == 1) (sym (eq_tag o x e)) ∙ sym (is_subtype-tag o)

kept_permissions :
    (os : List MountOption) (o : MountOption) (p : MountOption → Bool)
    → IsTidy os
    → ((x : MountOption) → option_eq default_permissions x ≡ true → p x ≡ true)
    → has_option default_permissions (retain p os ++ o ∷ []) ≡ true
kept_permissions os o p t h =
    has-append default_permissions (retain p os) (o ∷ [])
    ∙ ap (λ b. b || has_option default_permissions (o ∷ []))
        (has-retain p default_permissions os h ∙ t.permissions)

add_name-IsTidy :
    (os : List MountOption) (o : MountOption)
    → is_fs_name o ≡ true
    → IsHarmless o
    → IsTidy os
    → IsTidy (retain (λ x. not (is_fs_name x)) os ++ o ∷ [])
add_name-IsTidy os o named ok t = record {
  permissions =
      kept_permissions os o (λ x. not (is_fs_name x)) t
        (λ x e. ap not (eq_is_fs_name default_permissions x e));
  unique =
      append-IsUnique (retain (λ x. not (is_fs_name x)) os) o
        (retain-IsUnique (λ x. not (is_fs_name x)) os t.unique)
        (retain_none is_fs_name o os (λ x e. eq_is_fs_name o x e ∙ named));
  one_name =
      ap length (
        retain-append is_fs_name (retain (λ x. not (is_fs_name x)) os) (o ∷ [])
        ∙ ap (λ r. r ++ retain is_fs_name (o ∷ [])) (retain_twice is_fs_name os))
      ∙ rw named refl;
  harmless =
      All-append IsHarmless (retain (λ x. not (is_fs_name x)) os) (o ∷ [])
        (All-retain IsHarmless (λ x. not (is_fs_name x)) os t.harmless) (ok, tt);
}

-- One that is no name.
no_name :
    (os : List MountOption) (o : MountOption)
    → is_fs_name o ≡ false
    → length (retain is_fs_name (os ++ o ∷ [])) ≡ length (retain is_fs_name os)
no_name os o other = ap length (
    retain-append is_fs_name os (o ∷ [])
    ∙ ap (λ r. retain is_fs_name os ++ r) (rw other refl)
    ∙ append-nil (retain is_fs_name os))

add_subtype-IsTidy :
    (os : List MountOption) (o : MountOption)
    → is_fs_name o ≡ false
    → is_subtype o ≡ true
    → IsHarmless o
    → IsTidy os
    → IsTidy (retain (λ x. not (is_subtype x)) os ++ o ∷ [])
add_subtype-IsTidy os o other typed ok t =
    let kept = retain (λ x. not (is_subtype x)) os in
    record {
      permissions =
          kept_permissions os o (λ x. not (is_subtype x)) t
            (λ x e. ap not (eq_is_subtype default_permissions x e));
      unique =
          append-IsUnique kept o (retain-IsUnique (λ x. not (is_subtype x)) os t.unique)
            (retain_none is_subtype o os (λ x e. eq_is_subtype o x e ∙ typed));
      one_name =
          no_name kept o other
          ∙ ap length (
              retain_apart is_fs_name (λ x. not (is_subtype x)) os
                (λ x h. ground (arith, is_fs_name-tag x, is_subtype-tag x)))
          ∙ t.one_name;
      harmless =
          All-append IsHarmless kept (o ∷ [])
            (All-retain IsHarmless (λ x. not (is_subtype x)) os t.harmless) (ok, tt);
    }

add_plain-IsTidy :
    (os : List MountOption) (o : MountOption)
    → is_fs_name o ≡ false
    → has_option o os ≡ false
    → IsHarmless o
    → IsTidy os
    → IsTidy (os ++ o ∷ [])
add_plain-IsTidy os o other new ok t = record {
  permissions =
      has-append default_permissions os (o ∷ [])
      ∙ ap (λ b. b || has_option default_permissions (o ∷ [])) t.permissions;
  unique = append-IsUnique os o t.unique new;
  one_name = no_name os o other ∙ t.one_name;
  harmless = All-append IsHarmless os (o ∷ []) t.harmless (ok, tt);
}

add_option-IsTidy :
    (os : List MountOption) (o : MountOption) → IsHarmless o → IsTidy os → IsTidy (add_option os o)
unfolding add_option
add_option-IsTidy os o ok t = elim (Bool-cases (is_fs_name o)) [
  | inl named ↦ rw named (add_name-IsTidy os o named ok t)
  | inr other ↦ elim (Bool-cases (is_subtype o)) [
    | inl typed ↦ rw (other, typed) (add_subtype-IsTidy os o other typed ok t)
    | inr plain ↦ elim (Bool-cases (has_option o os)) [
      | inl old ↦ rw (other, plain, old) t
      | inr new ↦ rw (other, plain, new) (add_plain-IsTidy os o other new ok t)
    ]
  ]
]

pub add_options-IsTidy :
    (os requested : List MountOption)
    → All IsHarmless requested
    → IsTidy os
    → IsTidy (add_options os requested)
unfolding add_options
add_options-IsTidy os [] ok t = t
add_options-IsTidy os (o ∷ rest) ok t =
    add_options-IsTidy (add_option os o) rest ok.1 (add_option-IsTidy os o ok.0 t)

pub mount_options-IsTidy : IsTidy mount_options
mount_options-IsTidy = record {
  permissions = refl;
  unique = (refl, (refl, tt));
  one_name = refl;
  harmless = (refl, (refl, tt));
}
