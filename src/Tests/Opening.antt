-- ===== src/Tests/Opening.antt =====
-- A database opened after a crash, which left an inode that was unlinked while open.
use vibedbfs.Prelude.{◌≡◌, refl, ◌∷◌, pos, ok, arith}
use vibedbfs.Db.{Tables}
use vibedbfs.Db.Open.{initialize}
use vibedbfs.Db.Links.{IsLinked}
use vibedbfs.Db.Links.Opened.Outcome.{IsOpened, initialize_lem}
use vibedbfs.Tests.Samples.{quiet, small, file_row, later}

abbrev crashed : Tables
crashed = record small { inodes = (7, record file_row { nlink = pos 0 }) ∷ small.inodes }

crashed-IsLinked : IsLinked crashed
crashed-IsLinked = record {
  unique = λ p n. ground arith;
  children = λ k h. ground arith;
  parents = λ k h. ground arith;
  single = λ k h. ground arith;
  links = λ k r e h. ground arith;
}

initialize_lem_example :
    (u : Tables) × (initialize quiet later 1000 1000 crashed ≡ ok u) × IsOpened crashed u
initialize_lem_example =
    initialize_lem quiet later 1000 1000 crashed crashed-IsLinked (λ x. refl) (λ x. refl)
