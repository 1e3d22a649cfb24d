-- ===== src/Tests/Startup.antt =====
-- Sizes, mount options and a run that a signal ends.
use vibedbfs.Prelude.{◌≡◌, ◌↔◌, refl, List, [], ◌∷◌, none, some, true, false, ◌||◌, ok}
use vibedbfs.Text.{codes, trim}
use vibedbfs.Cli.{MountConfig, parse_size, split_suffix, size_of, suffix_shift, to_ascii_uppercase}
use vibedbfs.Cli.Sizes.{IsSize, parse_size_lem}
use vibedbfs.Mount.{
  MountOption, fs_name, ro, allow_other, auto_unmount, default_permissions, mount_options,
  has_option, is_fs_name, is_subtype, requested, parse_option, parse_tokens, parse_extra,
  plain_option, valued_option, add_option, add_options, check_options, mount_options_for,
}
use vibedbfs.Mount.Options.Accepted.{IsAccepted, mount_options_for_lem}
use vibedbfs.Mount.Run.{Host, shutdown, mount_dbfs, set_up, first_event, shut_down, wait_for_end}
use vibedbfs.Mount.Run.Shutdown.{IsSafe, mount_dbfs_lem}
use vibedbfs.Fs.Flush.{
  flush_all, flush_slot, flush_one, flush_slots, refuse_writes, record_flush, free_if_idle,
}
use vibedbfs.Fs.Ops.Names.{flush_for_shutdown, flush_failure}
use vibedbfs.Db.{sync_durable}
use vibedbfs.OpenTable.Inodes.{live_slots}
use vibedbfs.Db.Files.{replace_chunks}
use vibedbfs.Tests.Samples.{quiet, buffered}
use vibedbfs.Tests.Writes.{buffered-IsSound, buffered-IsSized}

eight_mib : parse_size (codes " 8m ") ≡ ok 8388608
unfolding parse_size size_of split_suffix suffix_shift to_ascii_uppercase
eight_mib = refl

parse_size_lem_example :
    (parse_size (codes " 8m ") ≡ ok 8388608) ↔ IsSize (trim (codes " 8m ")) 8388608
parse_size_lem_example = parse_size_lem (codes " 8m ") 8388608

abbrev shared_config : MountConfig
shared_config = record {
  allow_other = true;
  allow_root = false;
  auto_unmount = true;
  extra = codes "ro,fsname=x" ∷ [];
  write_buffer = none;
  kernel_cache = false;
}

abbrev shared_options : List MountOption
shared_options = default_permissions ∷ allow_other ∷ auto_unmount ∷ ro ∷ fs_name (codes "x") ∷ []

accepted : mount_options_for shared_config ≡ ok shared_options
unfolding mount_options_for parse_extra parse_tokens parse_option plain_option valued_option
    add_option add_options check_options
accepted = refl

mount_options_for_lem_example :
    IsAccepted shared_options
    × ((extra : List MountOption) × (parse_extra shared_config.extra ≡ ok extra)
        × ((o : MountOption)
            → is_fs_name o ≡ false
            → is_subtype o ≡ false
            → has_option o shared_options
              ≡ (has_option o mount_options || has_option o (requested shared_config extra))))
mount_options_for_lem_example = mount_options_for_lem shared_config shared_options accepted

-- A signal arrives, and a process keeps the mount busy until the grace period ends.
abbrev signalled : Host
signalled = record {
  euid = 1000;
  session_new = none;
  block_signals = none;
  spawn_signal_waiter = none;
  spawn_session = none;
  serve = λ s. s;
  first = some shutdown;
  unmount = none;
  finish = λ s. s;
  later = shutdown ∷ [];
}

set_up_works : set_up signalled mount_options ≡ ok tt
unfolding set_up
set_up_works = refl

exit_ok : (mount_dbfs quiet signalled buffered mount_options).0 ≡ ok tt
unfolding mount_dbfs set_up first_event shut_down wait_for_end flush_for_shutdown flush_failure
    flush_all flush_slots flush_one flush_slot refuse_writes record_flush free_if_idle
    replace_chunks sync_durable live_slots
exit_ok = refl

mount_dbfs_lem_example : IsSafe quiet buffered (mount_dbfs quiet signalled buffered mount_options).1
mount_dbfs_lem_example =
    mount_dbfs_lem quiet signalled buffered mount_options set_up_works refl buffered-IsSound
      buffered-IsSized (refl, tt) refl exit_ok
