-- ===== src/Db/Opening.antt =====
-- `NewDB`, `recover` and `Open` of db.cc. What is asked of the directory, whether a file is there and
-- what opening it for reading answers, are parameters.
pub mod Replaying
pub mod Surviving
use am_kv.Prelude.{
  ℕ, zero, suc, ◌+◌, ◌-◌, ◌%◌, ◌^◌, ◌==◌, Bool, true, false, leb, if◌then◌else◌, List, [], ◌∷◌,
  ◌++◌, Bytes, length, Option, none, some, Result, ok, ◌>>=◌,
}
use am_kv.Compaction.{minor_compaction}
use am_kv.Db.{Db, remove_obsolete_files}
use am_kv.Db.Operations.{add_update}
use am_kv.Env.{FileSystem, new_writable_file, set_current_file, manifest_path}
use am_kv.FileName.{
  FileType, parse_file_name, log_file_name, descriptor_file_name, current_file_name,
}
use am_kv.Log.Reader.{new_reader}
use am_kv.Log.RoundTrip.{read_records}
use am_kv.Log.Writer.{Writer, add_record}
use am_kv.MemTable.Table.{MemTable, Answers, new_mem_table}
use am_kv.SequentialFile.{PosixSequentialFile}
use am_kv.Status.{Status, status_ok, is_ok}
use am_kv.VersionEdit.{
  FileMetaData, VersionEdit, new_edit, set_log_number, set_next_file, set_last_sequence, encode_to,
}
use am_kv.VersionSet.{VersionSet, mark_file_number_used, new_file_number, log_and_apply}
use am_kv.VersionSet.Recovery.{record_outs, recover_from_log}
use am_kv.WritableFile.{WritableFile}
use am_kv.WriteBatch.{insert_into}

-- The object that `Open` gives out: a database, or one that has no log and no memtable.
pub data Opened (F : Type 0) : Type 0 where
  opened : Db F → Opened F
  without_log : Bytes → VersionSet F → Opened F

-- The edit that `NewDB` writes.
abbrev pub first_edit : VersionEdit
first_edit = set_last_sequence 0 (set_next_file 2 (set_log_number 0 new_edit))

-- The numbers of the logs in a directory, and `std::sort` of them.
pub log_numbers : List Bytes → Result (List ℕ)
log_numbers [] = ok []
log_numbers (filename ∷ filenames) = do
  parsed ← parse_file_name filename
  rest ← log_numbers filenames
  ok (elim parsed [ some (number, FileType.log_file) ↦ number ∷ rest | _ ↦ rest ])

pub insert_sorted : ℕ → List ℕ → List ℕ
insert_sorted n [] = n ∷ []
insert_sorted n (m ∷ ms) = let rest = insert_sorted n ms in if leb n m then n ∷ m ∷ ms else m ∷ rest

pub sort_numbers : List ℕ → List ℕ
sort_numbers [] = []
sort_numbers (n ∷ ns) = insert_sorted n (sort_numbers ns)

-- `mem`, made when the first record is there.
abbrev pub mem_or_new : ℕ → Option MemTable → MemTable
mem_or_new address none = am_kv.MemTable.Table.ref (new_mem_table address)
mem_or_new address (some mem) = mem

-- One record of a log. `answers` tells what the environment answers in the additions of a batch, by
-- the number of the batch.
pub replay_record : ℕ → (ℕ → Answers) → Bytes → Option MemTable → Result (Option MemTable)
replay_record address answers data_in mem = do
  handler ← insert_into (add_update answers) data_in (ok (mem_or_new address mem))
  replayed ← handler.memtable
  ok (some replayed)

pub replay_records :
    ℕ → (ℕ → ℕ → Answers) → ℕ → List Bytes → Option MemTable → Result (Option MemTable)
replay_records address answers i [] mem = ok mem
replay_records address answers i (data_in ∷ rest) mem =
    replay_record address (answers i) data_in mem >>= replay_records address answers (i + 1) rest

module _ (w : WritableFile) (fs : FileSystem w) where
  -- The tests before `Sync` and `Close` are for a failure.
  pub new_db : Bytes → fs.World → Result (Status × fs.World)
  new_db dbname world = do
    let (made, (file, world1)) = new_writable_file w fs (descriptor_file_name dbname 1) world
    (status, manifest) ←
        add_record w (encode_to first_edit) (record { dest = file; block_offset = 0 })
    let (status1, file1) = if is_ok status then (status, manifest.dest) else w.sync manifest.dest
    let (status2, file2) = if is_ok status1 then (status1, file1) else w.close file1
    ok (
        if is_ok made
        then (if is_ok status2 then set_current_file w fs dbname 1 world1 else (status2, world1))
        else (made, world1))

  module _ (insert_added : FileMetaData → List FileMetaData → List FileMetaData)
      (exists : Bytes → fs.World → Bool)
      (open_log : Bytes → fs.World → Status × PosixSequentialFile)
      (make_dir : Bytes → fs.World → fs.World) (read_current : Bytes → fs.World → Bytes)
      (eof : Bool) where
    -- The loop over the logs, in ascending order. The status is that of opening the last.
    pub replay_logs :
        ℕ
        → ℕ
        → (ℕ → ℕ → ℕ → Answers)
        → Bytes
        → List ℕ
        → fs.World
        → Status
        → VersionSet w.State
        → Option MemTable
        → Result (Status × (VersionSet w.State × Option MemTable))
    replay_logs fuel address answers dbname [] world status versions mem =
        ok (status, (versions, mem))
    replay_logs fuel address answers dbname (number ∷ numbers) world status versions mem = do
      let (found, file) = open_log (log_file_name dbname number) world
      seen ← read_records fuel (new_reader eof file)
      replayed ← replay_records address (answers number) 0 (record_outs seen) mem
      replay_logs fuel address answers dbname numbers world found
          (mark_file_number_used number versions) replayed

    -- What is read of the version set. `current` is what the file CURRENT holds.
    pub recover_versions :
        ℕ → Bytes → Bytes → fs.World → VersionSet w.State → Result (Status × VersionSet w.State)
    recover_versions fuel dbname current world versions =
        let (found, file) = open_log (manifest_path dbname current) world in
        recover_from_log insert_added fuel found (new_reader eof file) versions

    -- The end of `recover`: the new table's number is one less than the number of logs.
    pub write_replayed :
        Bytes
        → ℕ
        → Status
        → Option MemTable
        → VersionEdit
        → fs.World
        → Result (Status × (VersionEdit × fs.World))
    write_replayed dbname count status none edit world = ok (status, (edit, world))
    write_replayed dbname count status (some mem) edit world =
        minor_compaction w fs dbname mem edit ((count + 2 ^ 64 - 1) % 2 ^ 64) world

    pub replay_all :
        ℕ
        → ℕ
        → (ℕ → ℕ → ℕ → Answers)
        → Bytes
        → fs.World
        → VersionSet w.State
        → VersionEdit
        → Result (Status × (VersionSet w.State × (VersionEdit × fs.World)))
    replay_all fuel address answers dbname world versions edit = do
      logs ← log_numbers (fs.list dbname world)
      (status, (marked, mem)) ←
          replay_logs fuel address answers dbname (sort_numbers logs) world status_ok versions none
      (written, (edit', world')) ← write_replayed dbname (length logs) status mem edit world
      ok (written, (marked, (edit', world')))

    -- The directory, a new database if there is none, and the version set. A status that is a failure
    -- ends it.
    pub prepare :
        ℕ
        → Bytes
        → fs.World
        → VersionSet w.State
        → Result (Status × (VersionSet w.State × fs.World))
    prepare fuel dbname world versions = do
      let world0 = make_dir dbname world
      let made = new_db dbname world0
      (status, world1) ←
          (if exists (current_file_name dbname) world0 then ok (status_ok, world0) else made)
      let read =
          (recover_versions fuel dbname (read_current (current_file_name dbname) world1) world1
              versions
            >>= λ r. ok (r.0, (r.1, world1)))
      if is_ok status then read else ok (status, (versions, world1))

    pub recover :
        ℕ
        → ℕ
        → (ℕ → ℕ → ℕ → Answers)
        → Bytes
        → fs.World
        → VersionSet w.State
        → VersionEdit
        → Result (Status × (VersionSet w.State × (VersionEdit × fs.World)))
    recover fuel address answers dbname world versions edit = do
      (status, (read, world1)) ← prepare fuel dbname world versions
      let replayed = replay_all fuel address answers dbname world1 read edit
      if is_ok status then replayed else ok (status, (read, (edit, world1)))

    -- The new log and the new memtable of `Open`.
    pub begin_db : Bytes → ℕ → VersionSet w.State → fs.World → Status × (Db w.State × fs.World)
    begin_db dbname address versions world =
        let (number, versions') = new_file_number versions in
        let (status, (file, world')) = new_writable_file w fs (log_file_name dbname number) world in
        let db : Db w.State = record {
          db_name = dbname;
          mem = am_kv.MemTable.Table.ref (new_mem_table address);
          imm = none;
          log = record { dest = file; block_offset = 0 };
          logfile_number = number;
          versions = versions';
        } in
        (status, (db, world'))

    -- The end of `Open`: `save_manifest` is set by `Recover`.
    pub finish_open :
        VersionEdit → Db w.State → fs.World → Result (Status × (Db w.State × fs.World))
    finish_open edit db world = do
      (status, (versions, world1)) ←
          log_and_apply w fs insert_added db.db_name (set_log_number db.logfile_number edit)
            db.versions world
      let applied = record db { versions = versions }
      let cleaned =
          (remove_obsolete_files w fs db.db_name versions world1 >>= λ world2.
          ok (status, (applied, world2)))
      if is_ok status then cleaned else ok (status, (applied, world1))

    -- The database object is given out whatever has failed.
    pub open_db :
        ℕ
        → ℕ
        → (ℕ → ℕ → ℕ → Answers)
        → Bytes
        → fs.World
        → VersionSet w.State
        → Result (Status × (Opened w.State × fs.World))
    open_db fuel address answers dbname world versions = do
      (status, (read, (edit, world1))) ← recover fuel address answers dbname world versions new_edit
      let (begun, (db, world2)) = begin_db dbname address read world1
      let finished = (finish_open edit db world2 >>= λ r. ok (r.0, (opened r.1.0, r.1.1)))
      if is_ok status
          then (if is_ok begun
              then finished
              else ok (begun, (without_log dbname db.versions, world2)))
          else ok (status, (without_log dbname read, world1))
