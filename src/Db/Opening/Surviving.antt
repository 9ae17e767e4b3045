-- ===== src/Db/Opening/Surviving.antt =====
-- `Put`, a crash, and the replay of the log by `recover`.
use am_kv.Prelude.{
  ℕ, suc, ◌<◌, ◌≤◌, ◌≡◌, false, Bool, List, [], ◌∷◌, Bytes, length, none, some, Result, ok, fault,
  ◌>>=◌, Returns, Returns-bind, String,
}
use am_kv.AccessFile.{PosixAccessFile}
use am_kv.Db.{Db}
use am_kv.Db.Operations.{write_batch, write, put}
use am_kv.Db.Operations.PutGet.{Found, TakesPut, write_batch-Found}
use am_kv.Db.Opening.{mem_or_new, replay_logs}
use am_kv.Db.Opening.Replaying.{IsSynced, replay_logs-write_batches}
use am_kv.Db.Rooms.{make_room-room}
use am_kv.Env.{FileSystem}
use am_kv.Log.Layout.{avail}
use am_kv.MemTable.Table.{Answers}
use am_kv.Status.{Status, status_ok}
use am_kv.VersionEdit.{FileMetaData}
use am_kv.VersionSet.{VersionSet, mark_file_number_used}
use am_kv.VersionSet.Recovery.Reading.{quiet_file}
use am_kv.WriteBatch
use am_kv.WritableFile.{WritableFile, Laws, Reliable, Syncs, SyncsReliably}

module _ (w : WritableFile) (laws : Laws w) (sure : Reliable w laws) (syncs : Syncs w laws)
    (closes : SyncsReliably w laws sure syncs) (fs : FileSystem w)
    (insert_added : FileMetaData → List FileMetaData → List FileMetaData)
    (exists : Bytes → fs.World → Bool) (make_dir : Bytes → fs.World → fs.World)
    (read_current : Bytes → fs.World → Bytes) where
  -- `recover` that replays the log from what is stored of it has the memtable of the database.
  abbrev pub Survives :
      String
      → Bytes
      → ℕ
      → ℕ
      → ℕ
      → (ℕ → ℕ → Answers)
      → VersionSet w.State
      → fs.World
      → Db w.State
      → Type 0
  Survives name dbname fuel address number answers versions world db =
      replay_logs w fs insert_added exists
        (λ path world'. (status_ok, quiet_file name (syncs.stored db.log.dest))) make_dir
        read_current false fuel address (λ _. answers) dbname (number ∷ []) world status_ok versions
        none
      ≡ ok (status_ok, (mark_file_number_used number versions, some db.mem))

  write_batch-Survives :
      (open_table : Bytes → PosixAccessFile) (key value old : Bytes) (name : String)
      (fuel address number : ℕ) (answers : ℕ → ℕ → Answers) (db : Db w.State) (world : fs.World)
      (versions : VersionSet w.State) (run : Result (Status × Db w.State))
      → Returns (Found w laws sure fs insert_added open_table key value old db) run
      → ((run >>= λ r. ok r.1) >>= λ db'.
          replay_logs w fs insert_added exists
            (λ path world'. (status_ok, quiet_file name (syncs.stored db'.log.dest)))
            make_dir
            read_current
            false
            fuel
            address
            (λ _. answers)
            db.db_name
            (number ∷ [])
            world
            status_ok
            versions
            none)
        ≡ ((run >>= λ r. ok r.1) >>= λ db'.
            ok (status_ok, (mark_file_number_used number versions, some db'.mem)))
      → Returns
          (λ r.
            Found w laws sure fs insert_added open_table key value old db r
            × Survives name db.db_name fuel address number answers versions world r.1)
          run
  write_batch-Survives open_table key value old name fuel address number answers db world versions
        (ok r) found same =
      (found, same)
  write_batch-Survives open_table key value old name fuel address number answers db world versions
        (fault e) found same =
      found

  -- `Put` of a key into a new database, with an empty memtable and a log that is begun on a fresh file of
  -- which no flush or sync fails, succeeds, and `Get` finds the value; and if the database is lost then,
  -- and `recover` replays the log from what is stored of its file, it has the memtable that `Put` had
  -- made. The record of the put fits into the log's first block, and two rounds of the reading loop are
  -- enough; the environment is to answer the same in both runs, and no read of the log is short or fails.
  pub put-Survives :
      (open_table : Bytes → PosixAccessFile) (key value old : Bytes) (name : String)
      (fuel rounds address address' number : ℕ) (answers : ℕ → ℕ → Answers) (db : Db w.State)
      (world world' : fs.World) (versions : VersionSet w.State)
      → TakesPut w laws sure [] key value (answers 0) db
      → syncs.stored db.log.dest ≡ laws.contents db.log.dest
      → laws.contents db.log.dest ≡ []
      → db.log.block_offset ≡ 0
      → db.mem ≡ mem_or_new address none
      → length (am_kv.WriteBatch.put key value []) ≤ avail 0
      → 1 < fuel
      → Returns
          (λ r.
            Found w laws sure fs insert_added open_table key value old db (r.0, r.1.0)
            × Survives name db.db_name fuel address number answers versions world' r.1.0)
          (put w fs insert_added (suc rounds) address' (answers 0) key value db world)
  unfolding put write
  put-Survives open_table key value old name fuel rounds address address' number answers db world
        world' versions t stored empty start mem whole enough =
      let rep = am_kv.WriteBatch.put key value [] in
      let synced : IsSynced w laws sure syncs closes fs insert_added db.log = record {
        ready = t.ready;
        healthy = t.healthy;
        stored = stored;
      } in
      rw (make_room-room w fs insert_added rounds address' db world t.room) (
        Returns-bind
          (λ r.
            Found w laws sure fs insert_added open_table key value old db r
            × Survives name db.db_name fuel address number answers versions world' r.1)
          _ (write_batch w fs insert_added (answers 0) rep db) _
          (write_batch-Survives open_table key value old name fuel address number answers db world'
            versions (write_batch w fs insert_added (answers 0) rep db)
            (write_batch-Found w laws sure fs insert_added open_table [] (answers 0) key value old
              db closes.sync_succeeds t)
            (replay_logs-write_batches w laws sure syncs closes fs insert_added exists make_dir
              read_current name fuel address number answers rep [] db world' versions synced empty
              start mem (whole, tt) enough))
          (λ r h. h))
