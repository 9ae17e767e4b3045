-- ===== src/Compaction.antt =====
-- amkv/lsm/compaction.h and compaction.cc: a memtable is written to a table of level 0.
-- `CanDoCompaction` always answers true.
use am_kv.Prelude.{ℕ, if◌then◌else◌, ltb, [], Bytes, Result, ok, ◌>>=◌, ◌&&◌}
use am_kv.Env.{FileSystem}
use am_kv.FileName.{table_file_name}
use am_kv.MemTable.Table.{MemTable, entries_of}
use am_kv.SsTable.{put}
use am_kv.Status.{Status, is_ok}
use am_kv.VersionEdit.{FileMetaData, VersionEdit, add_file}
use am_kv.WritableFile.{WritableFile}

-- Version::PickLevelForMemTableOutput.
pub pick_level_for_mem_table_output : Bytes → Bytes → ℕ
pick_level_for_mem_table_output smallest largest = 0

abbrev pub new_meta : ℕ → FileMetaData
new_meta number = record { refs = 0; number = number; file_size = 0; smallest = []; largest = [] }

module _ (w : WritableFile) (fs : FileSystem w) where
  -- Every entry has a node, and every node an address below `fresh`.
  pub write_level0_table :
      Bytes → MemTable → FileMetaData → fs.World → Result (Status × (FileMetaData × fs.World))
  write_level0_table dbname memtable meta world = do
    let (file, world') = fs.create (table_file_name dbname meta.number) world
    entries ← entries_of memtable.table.fresh memtable
    (status, (closed, meta')) ← put w entries file meta
    ok (status, (meta', world'))

  -- `MinorCompaction::Do`: the level is 0 with a base version and without one.
  pub minor_compaction :
      Bytes → MemTable → VersionEdit → ℕ → fs.World → Result (Status × (VersionEdit × fs.World))
  minor_compaction dbname memtable edit new_number world = do
    (status, (meta, world')) ← write_level0_table dbname memtable (new_meta new_number) world
    let level = pick_level_for_mem_table_output meta.smallest meta.largest
    ok (
      status,
      (if is_ok status && ltb 0 meta.file_size then add_file level meta edit else edit, world'),
    )
