-- ===== src/Lib.antt =====
-- dbfs, a filesystem in an SQLite database, served over FUSE.
--
-- Parts of the program and where they are modelled
--   Prelude     shared types: vectors as a length and an index function (`Vec`), integers over
--               the native numbers, results, tests on numbers and lists.
--   Model       src/model.rs: timestamps, file kinds, inodes, errors.
--   Arena       src/arena.rs: `ChunkArena`, one byte buffer carved into slots of 64 KiB, and in
--               Arena/Dirty `DirtyIdx`, the sorted index of an inode's buffered chunks.
--   Span        src/db.rs, `ChunkSpan` and `ChunkPiece`: a byte range split at chunk boundaries.
--   OpenTable   src/open_table.rs: `OpenInodes` (OpenTable/Inodes), a table of columns with one
--               slot per inode in use, and `Handles` (OpenTable/Handles), from file handles to slots.
--   Db          src/db.rs: the four SQL tables as a record `Tables`, and each method of `Db` as a
--               function from the tables to a result and new tables. Db/Keys has the packed keys
--               of chunks, Db/Rows the statements on inodes and directory entries, Db/Nodes single
--               inodes, Db/Files file contents, Db/Dirs listings, Db/Create and Db/Remove the
--               operations on names, Db/Volume the figures of the volume, Db/Migrate the upgrade of
--               older layouts, and Db/Open what opening does to the tables after it. Db/Links has the
--               invariant of names and link counts (`IsLinked`), and its child modules one operation
--               each.
--   Fs          src/fuse.rs: `Shared` and `Dbfs`. Fs/Flush stores dirty chunks, Fs/Buffer reads and
--               writes through the open table and evicts, Fs/Close drops handles and unlinked
--               inodes, Fs/Attr has attributes, Fs/Ops and Fs/Ops/Names the operations of `Dbfs`.
--               Fs/Buffer/Sound has the invariant that ties the buffered chunks to the arena and
--               the tables (`IsSound`), Fs/Buffer/Writes what a write leaves, Fs/Flush/Rows
--               the row of an inode with the open table laid over it (`seen_row`), as `getattr` reads
--               it, and Fs/Flush/Durable what is stored after a flush. OpenTable/Inodes/Valid has the invariant of the table.
--   Fuse        src/fuse.rs, `impl Filesystem for Dbfs`: a handler for every request, with the one call
--               that it makes on the reply object as its result. Fuse/Names has the handlers of names
--               and directories, Fuse/Serve all of them as one function of a `Request`. The modules
--               below Fuse/Names are on directory listings: their rows, a buffer that fills, the
--               cookie to resume at, and the agreement with `lookup`. Fuse/Refused has the writes that
--               come after the shutdown flush.
--   Mount       src/run.rs: the mount options and their conflicts, and in Mount/Run a run from the
--               mount to the exit code, with the shutdown after a signal.
--   Cli, Text   src/cli.rs: the options and `parse_size`, over texts as lists of code points.
--   Tests       the theorems at concrete inputs.
--
-- How they interact: an operation of `Fs` looks an inode up in `OpenTable`, keeps written bytes in
-- `Arena` slots that the inode's `DirtyIdx` names, and asks `Db` for the bytes that are not
-- buffered. A flush hands the buffered chunks to `replace_chunks` of `Db` and frees their slots.
--
-- State. `Fs` is the record of the tables, the open table, the last flush result and the cache flag.
-- An operation is a function from it to a result or an errno and the new state (`M`). It runs as a
-- whole, since the source holds the table's lock from its first access to its last.
--
-- SQLite is the parameter `Engine`: the row id of an INSERT, which queries and transactions fail,
-- and the outcome of a sync. A transaction that fails changes nothing. The time is an argument, and a
-- request reads one time. `Pages` is what SQLite says of the size of its file. fuser is the parameter
-- `Room`: whether a directory reply has room for one more entry. The kernel and the threads of a run
-- are the parameter `Host`: which event comes first, and how the session and the unmount end.
--
-- Bounds. A u64, u32 or i64 is a number with its wrap-around or saturation written out where the
-- source has it. Inode numbers are at most 2^39 - 1 and files have at most 2^24 chunks of 2^16
-- bytes, as the source's constants say; the theorems name these limits where they need them.
--
-- Fuel. The loop of `alloc_chunk` has fuel, and two rounds are enough (`alloc_loop_ends`). Every
-- other loop is structural, but for the walk to the root in `is_descendant`: it gets one round more
-- than there are directory entries, which is enough where they form a tree
-- (`is_descendant_lem`). Where they do not, `none` stands for a walk that has not ended.
--
-- Not modelled: SQLite and fuser, opening the file of a database and creating its tables, the signal
-- mask and the bodies of the two threads in src/run.rs, the texts of its errors, and the parser that
-- clap derives for src/cli.rs. The cookie of an entry is its id plus two, without the bound of an i64.
pub mod Prelude
pub mod Model
pub mod Arena
pub mod Span
pub mod OpenTable
pub mod Db
pub mod Fs
pub mod Text
pub mod Cli
pub mod Fuse
pub mod Mount
pub mod Tests
