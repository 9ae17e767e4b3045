-- ===== src/Db.antt =====
-- amkv/db/db.h and db.cc: the database over its memtables, its log and its versions.
pub mod Files
pub mod Rooms
pub mod Operations
pub mod Opening
mod Examples
use am_kv.Prelude.{
  ℕ, zero, suc, ◌+◌, ◌*◌, ◌%◌, ◌^◌, ◌==◌, Bool, true, false, not, ◌&&◌, ◌||◌, if◌then◌else◌, ltb,
  leb, List, [], ◌∷◌, ◌++◌, Bytes, Option, none, some, Result, ok, fault, no_fuel, ◌>>=◌,
}
use am_kv.Compaction.{minor_compaction}
use am_kv.DbFormat.{SequenceNumber, ValueType}
use am_kv.Env.{FileSystem, delete_file}
use am_kv.FileName.{FileType, parse_file_name}
use am_kv.Log.Writer.{Writer, add_record}
use am_kv.MemTable.{LookupKey, lookup_key}
use am_kv.MemTable.Table.{MemTable, Answers, new_mem_table, usage, add, get}
use am_kv.Status.{Status, status_ok, is_ok}
use am_kv.Version.{ref, unref}
use am_kv.VersionEdit.{FileMetaData, VersionEdit, new_edit, set_log_number, set_prev_log_number}
use am_kv.VersionSet.{VersionSet, new_file_number, log_and_apply}
use am_kv.WritableFile.{WritableFile}
use am_kv.WriteBatch

-- `F` is the state of a file. `log_` writes to `log_file_`.
pub record Db (F : Type 0) : Type 0 where
  pub db_name : Bytes
  pub mem : MemTable
  pub imm : Option MemTable
  pub log : Writer F
  pub logfile_number : ℕ
  pub versions : VersionSet F

abbrev pub max_usage : ℕ
max_usage = 4 * 104 * 1024

-- The `switch` of `removeObsoleteFiles`.
pub keep : {F : Type 0} → VersionSet F → FileType → ℕ → Bool
keep versions FileType.log_file number =
    leb versions.log_number number || (number == versions.prev_log_number)
keep versions FileType.descriptor_file number = leb versions.manifest_file_number number
keep versions FileType.table_file number = true
keep versions FileType.temp_file number = true
keep versions FileType.current_file number = true
keep versions FileType.db_lock_file number = true
keep versions FileType.info_log_file number = true

abbrev pub is_obsolete : {F : Type 0} → VersionSet F → Option (ℕ × FileType) → Bool
is_obsolete versions none = false
is_obsolete versions (some (number, type)) = not (keep versions type number)

-- `files_to_delete`.
pub obsolete_files : {F : Type 0} → VersionSet F → List Bytes → Result (List Bytes)
obsolete_files versions [] = ok []
obsolete_files versions (filename ∷ filenames) = do
  parsed ← parse_file_name filename
  rest ← obsolete_files versions filenames
  ok (if is_obsolete versions parsed then filename ∷ rest else rest)

module _ (w : WritableFile) (fs : FileSystem w) where
  -- The status of a deletion is not read.
  pub delete_files : Bytes → List Bytes → fs.World → fs.World
  delete_files dbname [] world = world
  delete_files dbname (filename ∷ filenames) world =
      delete_files dbname filenames (delete_file w fs (dbname ++ (47 ∷ filename)) world).1

  pub remove_obsolete_files : Bytes → VersionSet w.State → fs.World → Result fs.World
  remove_obsolete_files dbname versions world = do
    files ← obsolete_files versions (fs.list dbname world)
    ok (delete_files dbname files world)

  module _ (insert_added : FileMetaData → List FileMetaData → List FileMetaData) where
    -- After `LogAndApply`: `imm_` is given up if it has succeeded.
    pub release_imm : Db w.State → Status → fs.World → Result (Db w.State × fs.World)
    release_imm db status world =
        let removed = remove_obsolete_files db.db_name db.versions world in
        if is_ok status
        then (removed >>= λ world'. ok (record db { imm = none }, world'))
        else ok (db, world)

    -- After `MinorCompaction::Do`.
    pub record_table : Db w.State → Status → VersionEdit → fs.World → Result (Db w.State × fs.World)
    record_table db status edit world =
        let edit' = set_log_number db.logfile_number (set_prev_log_number 0 edit) in
        let applied = log_and_apply w fs insert_added db.db_name edit' db.versions world in
        if is_ok status
        then (applied >>= λ r. release_imm (record db { versions = r.1.0 }) r.0 r.1.1)
        else ok (db, world)

    -- The last branch of `makeRoomForWrite`: `address` is where the head of the new list stands.
    pub switch_memtable : ℕ → Db w.State → fs.World → Result (Db w.State × fs.World)
    switch_memtable address db world = do
      let (number, versions) = new_file_number db.versions
      let held = record versions { current = ref versions.current }
      let switched = record db {
        imm = some db.mem;
        mem = am_kv.MemTable.Table.ref (new_mem_table address);
        logfile_number = number;
        versions = held;
      }
      (status, (edit, world')) ← minor_compaction w fs db.db_name db.mem new_edit number world
      let released = record held { current = (unref held.current).1 }
      record_table (record switched { versions = released }) status edit world'

    -- The loop of `makeRoomForWrite`. While `imm_` is there it waits, and nothing takes it away.
    pub make_room : ℕ → Bool → ℕ → Db w.State → fs.World → Result (Db w.State × fs.World)
    make_room zero force address db world = fault no_fuel
    make_room (suc fuel) force address db world =
        let again = make_room fuel force address db world in
        let switched = switch_memtable address db world in
        if not force && leb (usage db.mem) max_usage
        then ok (db, world)
        else elim db.imm [ some imm ↦ again | none ↦ switched ]
