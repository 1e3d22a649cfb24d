-- ===== src/Mount/Run.antt =====
-- run.rs: the run of a mounted filesystem, from the command line to the exit.
pub mod Shutdown
use vibedbfs.Prelude.{
  ℕ, ◌*◌, List, [], ◌∷◌, Option, none, some, Bool, if◌then◌else◌, unwrap_or, Result, ok, err, ◌>>=◌,
  ◌>>◌, map_err,
}
use vibedbfs.Model.{DbError}
use vibedbfs.Db.{Tables, Engine}
use vibedbfs.Fs.{Fs, Errno, with_write_buffer}
use vibedbfs.Fs.Ops.Names.{flush_for_shutdown, flush_failure}
use vibedbfs.Text.{codes}
use vibedbfs.Cli.{Cli}
use vibedbfs.Mount.{
  MountOption, IoError, other_kind, RunError, db, mount, session, shutdown_flush, mount_failure,
  mount_options_for,
}

pub data Event : Type 0 where
  shutdown : Event
  session_ended : Result IoError (Unit {0}) → Event

-- fuser and the operating system: which steps of the set-up fail, what the session's thread does
-- to the shared state before the first event and after the shutdown flush, the first event
-- (none where the channel is closed), and the events that arrive within the grace period.
pub record Host : Type 0 where
  pub euid : ℕ
  pub session_new : Option IoError
  pub block_signals : Option IoError
  pub spawn_signal_waiter : Option IoError
  pub spawn_session : Option IoError
  pub serve : Fs → Fs
  pub first : Option Event
  pub unmount : Option IoError
  pub finish : Fs → Fs
  pub later : List Event

abbrev pub failing {ℓ} : {A : Type ℓ} → Option A → Result A (Unit {ℓ})
failing none = ok tt
failing (some e) = err e

-- The loop of `shut_down`: it ends with the session or with the grace period.
unfoldable pub wait_for_end : List Event → Result IoError (Unit {0})
wait_for_end [] = ok tt
wait_for_end (session_ended result ∷ events) = result
wait_for_end (shutdown ∷ events) = wait_for_end events

-- The result, and the state after it.
unfoldable pub shut_down : Engine → Host → Fs → Result IoError (Unit {0}) × Fs
shut_down E host s =
    let (_, flushed) = flush_for_shutdown E s in
    elim host.unmount [
      | some e ↦ (err e, flushed)
      | none ↦ (wait_for_end host.later, host.finish flushed)
    ]

-- `match events.recv()`.
unfoldable pub first_event : Engine → Host → Fs → Result IoError (Unit {0}) × Fs
first_event E host s = elim host.first [
  | some (session_ended result) ↦ (result, s)
  | some shutdown ↦ shut_down E host s
  | none ↦ (err (record { kind = other_kind; message = codes "event channel closed" }), s)
]

-- `match shutdown.flush_failure()`, unless the session failed.
abbrev pub report : Result IoError (Unit {0}) × Fs → Result RunError (Unit {0}) × Fs
report (err e, s) = (err (session e), s)
report (ok _, s) = elim (flush_failure s) [
  | some errno ↦ (err (shutdown_flush errno), s)
  | none ↦ (ok tt, s)
]

-- What can fail before the session runs.
unfoldable pub set_up : Host → List MountOption → Result RunError (Unit {0})
set_up host options = do
  map_err (λ e. mount_failure e options host.euid) (failing host.session_new)
  map_err session (failing host.block_signals)
  map_err session (failing host.spawn_signal_waiter)
  map_err session (failing host.spawn_session)

unfoldable pub mount_dbfs : Engine → Host → Fs → List MountOption → Result RunError (Unit {0}) × Fs
mount_dbfs E host s options = elim (set_up host options) [
  | err e ↦ (err e, s)
  | ok _ ↦ report (first_event E host (host.serve s))
]

abbrev pub default_write_buffer : ℕ
default_write_buffer = 64 * 1024 * 1024

-- The filesystem that `run_with_mounter` mounts.
abbrev pub configured : Tables → Cli → Fs
configured tables cli =
    record (with_write_buffer tables (unwrap_or cli.config.write_buffer default_write_buffer)) {
      kernel_cache = cli.config.kernel_cache;
    }

-- `run`. The outcome of `Db::open` is an argument; no state is left where nothing was mounted.
unfoldable pub run :
    Engine → Host → Result DbError Tables → Cli → Result RunError (Unit {0}) × Option Fs
run E host opened cli = elim (mount_options_for cli.config) [
  | err e ↦ (err e, none)
  | ok options ↦ elim opened [
    | err e ↦ (err (db e), none)
    | ok tables ↦
        let (result, s) = mount_dbfs E host (configured tables cli) options in (result, some s)
  ]
]
