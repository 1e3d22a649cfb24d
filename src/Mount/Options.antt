-- ===== src/Mount/Options.antt =====
-- What every accepted list of mount options has.
pub mod Tidy
pub mod Accepted
use vibedbfs.Prelude.{
  ℕ, suc, ◌+◌, ◌≤◌, ◌≡◌, refl, ◌∙◌, sym, ap, List, [], ◌∷◌, ◌++◌, Bool, true, false, ◌&&◌, ◌||◌,
  not, ◌==◌, if◌then◌else◌, any, retain, length, list_eq, list_eq_sound, list_eq_refl, Result, ok,
  err, arith, Bool-cases, inl, inr, Result-cases,
}
use vibedbfs.Mount.{
  MountOption, fs_name, subtype, custom, tag, payload, option_eq, has_option, is_fs_name,
  is_subtype, allow_other, allow_root, auto_unmount, default_permissions, add_option, add_options,
}

pub is_fs_name-tag : (o : MountOption) → is_fs_name o ≡ (tag o == 0)
is_fs_name-tag o = ground arith

pub is_subtype-tag : (o : MountOption) → is_subtype o ≡ (tag o == 1)
is_subtype-tag o = ground arith

pub eq_tag : (a b : MountOption) → option_eq a b ≡ true → tag a ≡ tag b
eq_tag a b h = ground arith

eq_payload : (a b : MountOption) → option_eq a b ≡ true → payload a ≡ payload b
eq_payload a b h = list_eq_sound (payload a) (payload b) (ground arith)

-- Equal options are equal to the same ones.
pub eq_trans : (a b x : MountOption) → option_eq a b ≡ true → option_eq a x ≡ option_eq b x
eq_trans a b x h =
    ap (λ t. (t == tag x) && list_eq (payload a) (payload x)) (eq_tag a b h)
    ∙ ap (λ p. (tag b == tag x) && list_eq p (payload x)) (eq_payload a b h)

pub eq_refl : (a : MountOption) → option_eq a a ≡ true
eq_refl a = ground (arith, list_eq_refl (payload a))

pub has-eq :
    (a b : MountOption) (os : List MountOption)
    → option_eq a b ≡ true
    → has_option a os ≡ has_option b os
has-eq a b [] h = refl
has-eq a b (x ∷ os) h =
    ap (λ e. e || has_option a os) (eq_trans a b x h)
    ∙ ap (λ e. option_eq b x || e) (has-eq a b os h)

pub has-append :
    (o : MountOption) (os bs : List MountOption)
    → has_option o (os ++ bs) ≡ (has_option o os || has_option o bs)
has-append o [] bs = refl
has-append o (x ∷ os) bs = ground (arith, has-append o os bs)

-- Removing options of one kind leaves the others.
pub has-retain :
    (p : MountOption → Bool) (o : MountOption) (os : List MountOption)
    → ((x : MountOption) → option_eq o x ≡ true → p x ≡ true)
    → has_option o (retain p os) ≡ has_option o os
has-retain p o [] h = refl
has-retain p o (x ∷ os) h = ground (arith, h x, has-retain p o os h)
