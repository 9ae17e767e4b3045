-- ===== src/Db/Operations/PutGet.antt =====
-- `Get` behind `Put`, over the log, the batch, the memtable and its skip list.
use am_kv.Prelude.{
  ℕ, suc, ◌+◌, ◌%◌, ◌^◌, ◌<◌, ◌≤◌, ◌≡◌, refl, sym, ap, ◌∙◌, arith, true, false, leb, List, [], ◌∷◌,
  ◌++◌, Bytes, All, length, ok, Returns, Returns-bind,
}
use am_kv.AccessFile.{PosixAccessFile}
use am_kv.Db.{Db, max_usage}
use am_kv.Db.Operations.{add_update, log_batch, insert_batch, write_batch, write, put, get}
use am_kv.Db.Rooms.{make_room-room}
use am_kv.DbFormat.{type_value}
use am_kv.Env.{FileSystem}
use am_kv.Log.Writer.{Writer}
use am_kv.Log.Writing.{IsReady}
use am_kv.Log.Writing.Reliable.{add_record_succeeds}
use am_kv.MemTable.{lookup_key}
use am_kv.MemTable.Table.{Answers, usage}
use am_kv.MemTable.Table.Getting.{IsOther, get-add}
use am_kv.MemTable.Table.Holding.{HoldsEntries}
use am_kv.Status.{Status, status_ok, is_ok}
use am_kv.VersionEdit.{FileMetaData}
use am_kv.WritableFile.{WritableFile, Laws, Reliable}
use am_kv.WriteBatch.{insert_into}
use am_kv.WriteBatch.Replay.{put_update, build-put, insert_into-build, add_all}

-- A database that takes a `Put` of the key without a compaction: its memtable has room and holds
-- entries of other keys only, and its log is ready on a file that does not fail.
pub record TakesPut (w : WritableFile) (laws : Laws w) (reliable : Reliable w laws)
    (es : List Bytes) (key value : Bytes) (answers : ℕ → Answers) (db : Db w.State) : Type 0 where
  pub room : leb (usage db.mem) max_usage ≡ true
  pub holds : HoldsEntries db.mem es
  pub others : All (IsOther key) es
  pub short_key : length key < 2 ^ 31
  pub short_value : length value < 2 ^ 32
  pub some_height : 0 < (answers 0).height
  pub low_height : (answers 0).height ≤ 12
  pub ready : IsReady w laws db.log
  pub healthy : reliable.IsHealthy db.log.dest

module _ (w : WritableFile) (laws : Laws w) (reliable : Reliable w laws) (fs : FileSystem w)
    (insert_added : FileMetaData → List FileMetaData → List FileMetaData) where
  -- `Put` has succeeded, and `Get` appends the value to what its out parameter holds.
  pub record Found (open_table : Bytes → PosixAccessFile) (key value old : Bytes) (db : Db w.State)
      (r : Status × Db w.State) : Type 0 where
    pub succeeds : is_ok r.0 ≡ true
    pub found : get w fs insert_added open_table key old r.1 ≡ ok (status_ok, old ++ value)
    pub last_sequence : r.1.versions.last_sequence ≡ db.versions.last_sequence % 2 ^ 64

  log_batch-succeeds :
      (rep : Bytes) (log : Writer w.State)
      → ((f : w.State) → reliable.IsHealthy f → is_ok (w.sync f).0 ≡ true)
      → IsReady w laws log
      → reliable.IsHealthy log.dest
      → Returns (λ r. r.0 ≡ false) (log_batch w fs insert_added rep log)
  unfolding log_batch
  log_batch-succeeds rep log syncs ready h =
      let (r, run, good, h') = add_record_succeeds w laws reliable rep log ready h in
      rw (run, good, syncs r.1.dest h')

  -- A batch of one put is one `Add` under the sequence number 0.
  insert_into-put :
      (answers : ℕ → Answers) (key value : Bytes) (db : Db w.State)
      → length key < 2 ^ 31
      → length value < 2 ^ 32
      → insert_into (add_update answers) (am_kv.WriteBatch.put key value []) (ok db.mem)
        ≡ ok (record {
          sequence = 1;
          memtable = am_kv.MemTable.Table.add (answers 0) 0 type_value key value db.mem;
        })
  unfolding add_all add_update
  insert_into-put answers key value db short hv =
      ap (λ rep. insert_into (add_update answers) rep (ok db.mem)) (sym (build-put key value))
      ∙ insert_into-build (add_update answers) (put_update key value ∷ []) (ok db.mem)
          ((omega arith, hv), tt)

  insert_batch-Found :
      (open_table : Bytes → PosixAccessFile) (es : List Bytes) (answers : ℕ → Answers)
      (key value old : Bytes) (db : Db w.State) (log : Writer w.State)
      → TakesPut w laws reliable es key value answers db
      → Returns (Found open_table key value old db) (
          insert_batch w fs insert_added answers
            (am_kv.WriteBatch.put key value [])
            ((db.versions.last_sequence + 0) % 2 ^ 64)
            (record db { log = log }))
  unfolding insert_batch get
  insert_batch-Found open_table es answers key value old db log t =
      rw (insert_into-put answers key value (record db { log = log }) t.short_key t.short_value) (
        Returns-bind
          (λ m'. am_kv.MemTable.Table.get (lookup_key key 0) old m' ≡ ok (true, old ++ value)) _
          (am_kv.MemTable.Table.add (answers 0) 0 type_value key value db.mem) _
          (get-add db.mem es (answers 0) 0 key value old t.holds t.others t.short_key t.short_value
            (omega arith) t.some_height t.low_height)
          (λ m' found. record { succeeds = refl; found = rw found; last_sequence = omega arith }))

  pub write_batch-Found :
      (open_table : Bytes → PosixAccessFile) (es : List Bytes) (answers : ℕ → Answers)
      (key value old : Bytes) (db : Db w.State)
      → ((f : w.State) → reliable.IsHealthy f → is_ok (w.sync f).0 ≡ true)
      → TakesPut w laws reliable es key value answers db
      → Returns
          (Found open_table key value old db)
          (write_batch w fs insert_added answers (am_kv.WriteBatch.put key value []) db)
  unfolding write_batch am_kv.WriteBatch.set_sequence
  write_batch-Found open_table es answers key value old db syncs t =
      Returns-bind (λ r. r.0 ≡ false) _
        (log_batch w fs insert_added (am_kv.WriteBatch.put key value []) db.log) _
        (log_batch-succeeds (am_kv.WriteBatch.put key value []) db.log syncs t.ready t.healthy)
        (λ r stays. rw stays (insert_batch-Found open_table es answers key value old db r.1.1 t))

  -- `Put` of a key that is new to the memtable succeeds, and `Get` then finds its value, where the
  -- memtable has room and the log is ready on a file of which no flush or sync fails: whatever is in the
  -- memtable before and in the tables. The last sequence number, a 64-bit word, stays as it is. One round of
  -- `makeRoomForWrite` is enough.
  pub put-Found :
      (open_table : Bytes → PosixAccessFile) (es : List Bytes) (answers : ℕ → Answers)
      (key value old : Bytes) (fuel address : ℕ) (db : Db w.State) (world : fs.World)
      → ((f : w.State) → reliable.IsHealthy f → is_ok (w.sync f).0 ≡ true)
      → TakesPut w laws reliable es key value answers db
      → Returns
          (λ r. Found open_table key value old db (r.0, r.1.0))
          (put w fs insert_added (suc fuel) address answers key value db world)
  unfolding put write
  put-Found open_table es answers key value old fuel address db world syncs t =
      rw (make_room-room w fs insert_added fuel address db world t.room) (
        Returns-bind (Found open_table key value old db) _
          (write_batch w fs insert_added answers (am_kv.WriteBatch.put key value []) db) _
          (write_batch-Found open_table es answers key value old db syncs t) (λ r f. f))
