-- ===== src/Db/Volume.antt =====
-- db.rs: the figures of the whole volume.
use vibedbfs.Prelude.{ℕ, length, Result}
use vibedbfs.Model.{DbError}
use vibedbfs.Db.{Tables, Engine, query}

pub record VolumeUsage : Type 0 where
  pub page_size : ℕ
  pub page_count : ℕ
  pub freelist_count : ℕ
  pub files : ℕ

-- What SQLite answers to `PRAGMA page_size`, `page_count` and `freelist_count`.
pub record Pages : Type 0 where
  pub size : ℕ
  pub count : ℕ
  pub free : ℕ

unfoldable pub volume_usage : Engine → Pages → Tables → Result DbError VolumeUsage
volume_usage E pages t = query E t (record {
  page_size = pages.size;
  page_count = pages.count;
  freelist_count = pages.free;
  files = length t.inodes;
})
