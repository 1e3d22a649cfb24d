-- ===== src/Mount.antt =====
-- run.rs: the mount options of a command line, and the run of a mounted filesystem.
pub mod Options
pub mod Run
use vibedbfs.Prelude.{
  ℕ, List, [], ◌∷◌, ◌++◌, Option, none, some, Bool, true, false, ◌&&◌, ◌||◌, not, ◌==◌,
  if◌then◌else◌, any, retain, list_eq, is_empty, Result, ok, err, ◌>>=◌, ◌>>◌,
}
use vibedbfs.Model.{DbError}
use vibedbfs.Fs.{Errno}
use vibedbfs.Text.{codes, trim, trim_end, contains, split, split_once}
use vibedbfs.Cli.{MountConfig}

-- fuser's `MountOption`.
pub data MountOption : Type 0 where
  fs_name subtype custom : List ℕ → MountOption
  allow_other allow_root auto_unmount default_permissions : MountOption
  dev no_dev suid no_suid ro rw exec no_exec atime no_atime dir_sync sync async : MountOption

abbrev pub tag : MountOption → ℕ
tag (fs_name name) = 0
tag (subtype name) = 1
tag (custom text) = 2
tag allow_other = 3
tag allow_root = 4
tag auto_unmount = 5
tag default_permissions = 6
tag dev = 7
tag no_dev = 8
tag suid = 9
tag no_suid = 10
tag ro = 11
tag rw = 12
tag exec = 13
tag no_exec = 14
tag atime = 15
tag no_atime = 16
tag dir_sync = 17
tag sync = 18
tag async = 19

abbrev pub payload : MountOption → List ℕ
payload (fs_name name) = name
payload (subtype name) = name
payload (custom text) = text
payload _ = []

-- The derived `PartialEq`.
abbrev pub option_eq : MountOption → MountOption → Bool
option_eq a b = (tag a == tag b) && list_eq (payload a) (payload b)

abbrev pub has_option : MountOption → List MountOption → Bool
has_option o = any (option_eq o)

-- An `io::Error` as far as the program looks into it.
pub data ErrorKind : Type 0 where
  permission_denied other_kind : ErrorKind

pub record IoError : Type 0 where
  pub kind : ErrorKind
  pub message : List ℕ

pub data RunError : Type 0 where
  db : DbError → RunError
  mount session : IoError → RunError
  shutdown_flush : Errno → RunError
  mount_options_error : List ℕ → RunError

abbrev pub mount_options : List MountOption
mount_options = fs_name (codes "dbfs") ∷ default_permissions ∷ []

-- The arms of `match token` that are names without a value.
abbrev pub plain_names : List (List ℕ × MountOption)
plain_names =
    (codes "ro", ro)
    ∷ (codes "rw", rw)
    ∷ (codes "allow_other", allow_other)
    ∷ (codes "allow_root", allow_root)
    ∷ (codes "auto_unmount", auto_unmount)
    ∷ (codes "default_permissions", default_permissions)
    ∷ (codes "atime", atime)
    ∷ (codes "noatime", no_atime)
    ∷ (codes "suid", suid)
    ∷ (codes "nosuid", no_suid)
    ∷ (codes "dev", dev)
    ∷ (codes "nodev", no_dev)
    ∷ (codes "exec", exec)
    ∷ (codes "noexec", no_exec)
    ∷ (codes "dirsync", dir_sync)
    ∷ (codes "sync", sync)
    ∷ (codes "async", async)
    ∷ []

abbrev pub find_name : List ℕ → List (List ℕ × MountOption) → Option MountOption
find_name t [] = none
find_name t ((name, o) ∷ rest) = if list_eq t name then some o else find_name t rest

unfoldable pub plain_option : List ℕ → Option MountOption
plain_option t = find_name t plain_names

-- `match token.split_once('=')`.
unfoldable pub valued_option : List ℕ → Result RunError MountOption
valued_option token = elim (split_once b'=' token) [
  | none ↦ ok (custom token)
  | some (key, name) ↦
      let named = list_eq key (codes "fsname") in
      let typed = list_eq key (codes "subtype") in
      if (named || typed) && is_empty name
      then err (mount_options_error (codes "'" ++ token ++ codes "' needs a value"))
      else (if named
          then ok (fs_name name)
          else (if typed then ok (subtype name) else ok (custom token)))
]

abbrev pub unsafe_message : List ℕ → List ℕ
unsafe_message token =
    codes "'"
    ++ token
    ++ codes "' would disable kernel permission checks; "
    ++ codes "default_permissions is always enabled"

unfoldable pub parse_option : List ℕ → Result RunError MountOption
parse_option untrimmed =
    let token = trim untrimmed in
    if is_empty token
    then err (mount_options_error (codes "empty mount option"))
    else (if contains token (codes "default_permissions")
          && not (list_eq token (codes "default_permissions"))
        then err (mount_options_error (unsafe_message token))
        else elim (plain_option token) [ some o ↦ ok o | none ↦ valued_option token ])

-- The tokens of one `-o`, and of all of them; the first error ends the loop.
unfoldable pub parse_tokens : List (List ℕ) → Result RunError (List MountOption)
parse_tokens [] = ok []
parse_tokens (t ∷ ts) = do o ← parse_option t; os ← parse_tokens ts; ok (o ∷ os)

unfoldable pub parse_extra : List (List ℕ) → Result RunError (List MountOption)
parse_extra [] = ok []
parse_extra (raw ∷ raws) = do
  os ← parse_tokens (split b',' raw)
  rest ← parse_extra raws
  ok (os ++ rest)

abbrev pub flag : Bool → MountOption → List MountOption
flag true o = o ∷ []
flag false o = []

abbrev pub is_fs_name : MountOption → Bool
is_fs_name (fs_name name) = true
is_fs_name _ = false

abbrev pub is_subtype : MountOption → Bool
is_subtype (subtype name) = true
is_subtype _ = false

-- `match option` of one requested option.
unfoldable pub add_option : List MountOption → MountOption → List MountOption
add_option options o =
    if is_fs_name o
    then retain (λ x. not (is_fs_name x)) options ++ o ∷ []
    else if is_subtype o
    then retain (λ x. not (is_subtype x)) options ++ o ∷ []
    else if not (has_option o options)
    then options ++ o ∷ []
    else options

unfoldable pub add_options : List MountOption → List MountOption → List MountOption
add_options options [] = options
add_options options (o ∷ os) = add_options (add_option options o) os

-- The two conflicts.
unfoldable pub check_options : List MountOption → Result RunError (List MountOption)
check_options options =
    let other = has_option allow_other options in
    let root = has_option allow_root options in
    if other && root
    then err (mount_options_error (codes "--allow-other and --allow-root cannot be used together"))
    else (if has_option auto_unmount options && not (other || root)
        then err (
            mount_options_error (
              codes "auto_unmount requires --allow-other or --allow-root "
              ++ codes "(fusermount3 requests allow_other for auto-unmount)"))
        else ok options)

-- `requested`: the flags, then the options of `-o` in order.
abbrev pub requested : MountConfig → List MountOption → List MountOption
requested config extra =
    flag config.allow_other allow_other
    ++ flag config.allow_root allow_root
    ++ flag config.auto_unmount auto_unmount
    ++ extra

unfoldable pub mount_options_for : MountConfig → Result RunError (List MountOption)
mount_options_for config = do
  extra ← parse_extra config.extra
  check_options (add_options mount_options (requested config extra))

abbrev pub allow_other_hint : List ℕ
allow_other_hint = codes "hint: allow_other requires 'user_allow_other' in /etc/fuse.conf"

abbrev pub is_denied : ErrorKind → Bool
is_denied permission_denied = true
is_denied other_kind = false

unfoldable pub mount_failure : IoError → List MountOption → ℕ → RunError
mount_failure error options euid =
    if not (euid == 0) && has_option allow_other options && is_denied error.kind
    then mount
        (record { kind = error.kind; message = trim_end error.message ++ b'\n' ∷ allow_other_hint })
    else mount error
