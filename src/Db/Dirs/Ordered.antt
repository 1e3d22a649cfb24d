-- ===== src/Db/Dirs/Ordered.antt =====
-- Entries in the order of their ids, as SQLite keeps them.
use vibedbfs.Prelude.{◌<◌, List, [], ◌∷◌, All}
use vibedbfs.Db.{Dirent}

-- The ids grow along the list.
abbrev pub IsOrdered : List Dirent → Type 0
IsOrdered [] = Unit
IsOrdered (d ∷ ds) = All (λ e. d.id < e.id) ds × IsOrdered ds
