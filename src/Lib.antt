-- ===== src/Lib.antt =====
-- am-kv, a key-value store in the manner of LevelDB: a write batch is appended to a log and inserted
-- into a memtable, a full memtable is written out as a sorted table, and the set of table files is
-- kept in versions, whose edits are the records of a manifest log.
--
-- Bytes are natural numbers, a string or a view is a list of them, and a machine word is a number with
-- its wrap-around written out. A function that appends to an `out` string returns what it appends. Code
-- that would read outside a view is a fault (`over_read`); the exceptions `std::out_of_range` and
-- `std::invalid_argument` and an assertion that fails are others. `no_fuel` is none of the program's: a
-- loop of the model has used up its rounds.
--
-- * `Codec` is amkv/util/codec.cc, `Codec.Cursor` its use at a moving position.
-- * `DbFormat` and `Status` are amkv/lsm/db_format.h and amkv/comm/status.cc.
-- * `WriteBatch` is amkv/db/write_batch.cc with write_batch_internal.cc and write_batch_handler.cc.
--   The memtable's `Add` is a parameter of it.
-- * `WritableFile` is the abstract class of amkv/util/writable_file.h as a record of operations with
--   the laws that its clients rely on, `WritableFile.Posix` the class PosixWritableFile. The kernel is a
--   list of answers to the calls of `::write`; when the list is used up every call writes all.
-- * `SequentialFile` is amkv/util/sequential_file.cc, over a list of answers to `::read`.
-- * `Log` is amkv/lsm/log_format.h, `Log.Writer` log_writer.cc over a `WritableFile`, `Log.Reader`
--   log_reader.cc over a sequential file. `Log.Layout` says which bytes a record takes in the log.
-- * `VersionEdit` is amkv/lsm/version_edit.cc.
-- * `Arena` is amkv/util/arena.cc, `Comparator` amkv/lsm/comparator.cc with the laws that a sorted list
--   needs of one, `SkipList` skiplist.h, a heap of nodes with their pointers, and `SkipList.Iterator`
--   skiplist_iter.h. The sorted list of keys that it stands for is in `SkipList.Refinement`. The height
--   that `randomHeight` draws and what the array of `Insert` holds at first are arguments.
-- * `MemTable` is amkv/lsm/codec.cc with the `LookupKey` of memtable.cc, `MemTable.Table` the class
--   MemTable over the skip list and the arena, and its iterator, memtable_iter.cc.
-- * `Block` is amkv/lsm/block_builder.cc, block_handler.cc and block_iter.cc, `AccessFile` is
--   amkv/util/access_file.cc.
-- * `SsTable.Builder` is amkv/lsm/sstable_builder.cc over a `WritableFile`, `SsTable.Resolver`
--   sstable_resolver.cc over an access file, `SsTable` sstable.cc over both; the entries that the
--   memtable's iterator shows are an argument of `put`. `SsTable.Layout` says which bytes a table is.
-- * `FileName` is amkv/util/filename.cc, amkv/comm/filename.cc and amkv/util/dirname.cc. `Env` is
--   amkv/comm/env.cc with amkv/util/file.cc and amkv/lsm/current.h, over a file system that is a parameter:
--   it makes files, and deletes and renames them or fails to.
-- * `Version` is amkv/lsm/version.cc, `Version.Builder` the class VersionSet::Builder of
--   version_set.cc. `VersionSet` is the rest of version_set.cc: `LogAndApply` over the builder, the log and
--   the file system, and `VersionSet.Recovery` its `Recover`.
-- * `Compaction` is amkv/lsm/compaction.cc, `Db` amkv/db/db.cc with the files that it removes and the room
--   that it makes for a write, `Db.Operations` its `Write`, `Put`, `Delete` and `Get`,
--   and `Db.Opening` its `NewDB`, `recover` and `Open`.
--
-- Fuel. A loop over a string is given its length in rounds (each takes a byte at least), `AddRecord` two
-- rounds more than the record has bytes (a round takes a byte, but for the first, which may find exactly
-- a header's room in its block), `ReadRecord` one more than there are bytes left: enough for a log that
-- the writer laid out. A read outside a string ends these loops with its fault, since the behaviour of the
-- source is undefined from there. The waiting of
-- `makeRoomForWrite` is given its rounds by the caller: a first round is enough, or none is. A search in
-- the skip list has one round for every address in use and every level: a round goes to a node further on,
-- or a level down. The block iterator's `Seek` is given its rounds by its caller: on a block whose length
-- fields are damaged it may turn for ever; so are the loops of the recovery over the records of a log.
--
-- Not modelled: `user_key` and `internal_key` of amkv/lsm/memtable.cc, which return views of a string that is
-- gone; the directory operations but for deleting, renaming and listing, the readers of amkv/comm/env.cc and
-- the logging macros; threads (the pointers of the skip list are atomic, but nothing starts a thread);
-- `::open`, `::fdatasync` and `::mmap`, which only pass a call on.
pub mod AccessFile
pub mod Arena
pub mod Block
pub mod Codec
pub mod Compaction
pub mod Comparator
pub mod Db
pub mod DbFormat
pub mod Env
pub mod FileName
pub mod Log
pub mod MemTable
pub mod Prelude
pub mod SequentialFile
pub mod SkipList
pub mod SsTable
pub mod Status
pub mod Version
pub mod VersionEdit
pub mod VersionSet
pub mod WritableFile
pub mod WriteBatch
