-- ===== src/Db/Operations.antt =====
-- `Write`, `Put`, `Delete` and `Get` of db.cc.
pub mod PutGet
use am_kv.Prelude.{
  ℕ, ◌+◌, ◌%◌, ◌^◌, Bool, true, false, not, ◌&&◌, if◌then◌else◌, [], Bytes, List, Option, none,
  some, Result, ok, ◌>>=◌,
}
use am_kv.AccessFile.{PosixAccessFile}
use am_kv.Compaction.{new_meta}
use am_kv.Db.{Db, make_room}
use am_kv.DbFormat.{SequenceNumber, ValueType}
use am_kv.Env.{FileSystem}
use am_kv.FileName.{table_file_name}
use am_kv.Log.Writer.{Writer, add_record}
use am_kv.MemTable.{LookupKey, lookup_key}
use am_kv.MemTable.Table.{MemTable, Answers}
use am_kv.SsTable
use am_kv.Status.{Status, status_ok, is_ok}
use am_kv.Version.{for_each_overlapping}
use am_kv.VersionEdit.{FileMetaData}
use am_kv.VersionSet.{VersionSet}
use am_kv.WritableFile.{WritableFile}
use am_kv.WriteBatch.{WriteBatchInternal, new_batch_internal, insert_into}

-- `Add` of a memtable, if the updates before it have not failed. `answers` tells what the environment
-- answers in each.
pub add_update :
    (ℕ → Answers) → SequenceNumber → ValueType → Bytes → Bytes → Result MemTable → Result MemTable
add_update answers seq type key value m =
    m >>= am_kv.MemTable.Table.add (answers seq) seq type key value

module _ (w : WritableFile) (fs : FileSystem w)
    (insert_added : FileMetaData → List FileMetaData → List FileMetaData) where
  -- `AddRecord` of the batch, and `Sync` if that has succeeded: its status, and whether `Write` returns
  -- there.
  unfoldable pub log_batch : Bytes → Writer w.State → Result (Bool × (Status × Writer w.State))
  log_batch rep log = do
    (status, written) ← add_record w rep log
    let (synced, file) = w.sync written.dest
    let after : Writer w.State = record { dest = file; block_offset = written.block_offset }
    ok (if is_ok status then (not (is_ok synced), (synced, after)) else (false, (status, written)))

  -- `InsertInto`, which succeeds, and `SetLastSequence`. A failure of `AddRecord` is forgotten.
  unfoldable pub insert_batch :
      (ℕ → Answers) → Bytes → SequenceNumber → Db w.State → Result (Status × Db w.State)
  insert_batch answers rep last_sequence db = do
    handler ← insert_into (add_update answers) rep (ok db.mem)
    mem ← handler.memtable
    ok (
      status_ok,
      record db { mem = mem; versions = record db.versions { last_sequence = last_sequence } },
    )

  -- `Write` behind `makeRoomForWrite`.
  unfoldable pub write_batch : (ℕ → Answers) → Bytes → Db w.State → Result (Status × Db w.State)
  write_batch answers rep db = do
    let internal =
        am_kv.WriteBatch.set_sequence ((db.versions.last_sequence + 1) % 2 ^ 64) new_batch_internal
    let last_sequence = (db.versions.last_sequence + internal.count) % 2 ^ 64
    (returns, (status, log)) ← log_batch rep db.log
    let logged = record db { log = log }
    let inserted = insert_batch answers rep last_sequence logged
    if returns then ok (status, logged) else inserted

  unfoldable pub write :
      ℕ
      → ℕ
      → (ℕ → Answers)
      → Option Bytes
      → Db w.State
      → fs.World
      → Result (Status × (Db w.State × fs.World))
  write fuel address answers none db world = do
    (db', world') ← make_room w fs insert_added fuel true address db world
    ok (status_ok, (db', world'))
  write fuel address answers (some rep) db world = do
    (db', world') ← make_room w fs insert_added fuel false address db world
    (status, written) ← write_batch answers rep db'
    ok (status, (written, world'))

  unfoldable pub put :
      ℕ
      → ℕ
      → (ℕ → Answers)
      → Bytes
      → Bytes
      → Db w.State
      → fs.World
      → Result (Status × (Db w.State × fs.World))
  put fuel address answers key value =
      write fuel address answers (some (am_kv.WriteBatch.put key value []))

  pub delete :
      ℕ
      → ℕ
      → (ℕ → Answers)
      → Bytes
      → Db w.State
      → fs.World
      → Result (Status × (Db w.State × fs.World))
  delete fuel address answers key =
      write fuel address answers (some (am_kv.WriteBatch.delete key []))

  -- The table that holds the key, if it is in neither memtable. `open_table` opens a file for reading. The
  -- source passes `user_key()` too, a view of a string that is gone; it is not read.
  pub get_from_table : (Bytes → PosixAccessFile) → Bytes → Db w.State → Result (Status × Bytes)
  get_from_table open_table key db = do
    let meta = for_each_overlapping key db.versions.current (new_meta 0)
    am_kv.SsTable.get (open_table (table_file_name db.db_name meta.number)) key

  pub get_from_imm : LookupKey → Bytes → Option MemTable → Result (Bool × Bytes)
  get_from_imm lookup value none = ok (false, value)
  get_from_imm lookup value (some imm) = am_kv.MemTable.Table.get lookup value imm

  pub get : (Bytes → PosixAccessFile) → Bytes → Bytes → Db w.State → Result (Status × Bytes)
  get open_table key value db = do
    let lookup = lookup_key key 0
    (in_mem, value1) ← am_kv.MemTable.Table.get lookup value db.mem
    let rest =
        (get_from_imm lookup value1 db.imm >>= λ r.
        (if r.0 then ok (status_ok, r.1) else get_from_table open_table key db))
    if in_mem then ok (status_ok, value1) else rest
