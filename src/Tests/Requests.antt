-- ===== src/Tests/Requests.antt =====
-- Requests and their replies.
use vibedbfs.Prelude.{◌≡◌, ◌↔◌, refl, pos, List, [], ◌∷◌, ◌++◌, not, is_empty, ok, arith, filled}
use vibedbfs.Db.Dirs.{stream_entries, read_dir_after, parent_of_dir}
use vibedbfs.Db.Nodes.{inode_kind_of}
use vibedbfs.Fs.Attr.{regular_file_type, file_type}
use vibedbfs.Fs.Ops.Names.{DbfsDirEntry, flush_for_shutdown, readdir, readdir_stream}
use vibedbfs.Fuse.{reply_directory, reply_error, handle_write}
use vibedbfs.Fuse.Refused.{handle_write-flush_for_shutdown}
use vibedbfs.Fs.{Errno}
use vibedbfs.Fuse.Names.{Room, handle_readdir}
use vibedbfs.Fuse.Names.Listing.{dot_entry, dotdot_entry}
use vibedbfs.Fuse.Names.Paging.{next_cookie, IsFull, read_pages, handle_readdir_lem, read_pages_lem}
use vibedbfs.Fuse.Names.Agree.{IsListed}
use vibedbfs.Fuse.Names.Agree.Found.{Leads, readdir_lem}
use vibedbfs.Tests.Links.{small-IsLinked}
use vibedbfs.Tests.Samples.{quiet, buffered, later}

-- One entry a page.
abbrev one_each : Room
one_each page e = not (is_empty page)

abbrev file_entry : DbfsDirEntry
file_entry = record { name = 97 ∷ []; ino = 2; kind = regular_file_type; offset = 3 }

abbrev all_three : List DbfsDirEntry
all_three = dot_entry 1 ∷ dotdot_entry 1 ∷ file_entry ∷ []

listed_all : readdir quiet buffered.tables 1 0 ≡ ok all_three
unfolding readdir readdir_stream file_type read_dir_after stream_entries parent_of_dir inode_kind_of
listed_all = refl

handle_readdir_lem_example :
    (page : List DbfsDirEntry) × (rest : List DbfsDirEntry) × (handle_readdir quiet one_each 1
        (pos 0)
        buffered
      ≡ (reply_directory page, buffered))
    × (all_three ≡ page ++ rest)
    × IsFull one_each page rest
    × (readdir quiet buffered.tables 1 (next_cookie 0 page) ≡ ok rest)
handle_readdir_lem_example =
    handle_readdir_lem quiet one_each 1 (pos 0) buffered all_three (tt, tt) listed_all

read_pages_lem_example : read_pages quiet one_each 4 1 (pos 0) buffered ≡ all_three
read_pages_lem_example =
    read_pages_lem quiet one_each 4 1 (pos 0) buffered all_three (λ e. refl) (tt, tt) listed_all
      (ground arith)

readdir_lem_example :
    IsListed all_three (97 ∷ []) 2 regular_file_type
    ↔ Leads quiet buffered.tables 1 (97 ∷ []) 2 regular_file_type
readdir_lem_example =
    readdir_lem quiet buffered.tables 1 all_three (97 ∷ []) 2 regular_file_type small-IsLinked
      (ground arith, tt) (omega arith) listed_all

handle_write-flush_for_shutdown_example :
    let t = (flush_for_shutdown quiet buffered).1 in
    (e : Errno) × (handle_write quiet later 0 (pos 0) (filled 3 5) t ≡ (reply_error e, t))
handle_write-flush_for_shutdown_example =
    handle_write-flush_for_shutdown quiet later 0 (pos 0) (filled 3 5) buffered
