-- ===== src/Db/Examples.antt =====
-- A database that is just opened, and the theorems at it.
use am_kv.Prelude.{
  ℕ, ◌+◌, ◌≡◌, refl, arith, true, false, List, [], ◌∷◌, Bytes, none, some, ok, String, fault,
  no_fuel, Returns,
}
use am_kv.AccessFile.{PosixAccessFile}
use am_kv.Db.{Db, remove_obsolete_files, make_room}
use am_kv.Db.Files.{
  Listed, own_directory, parent_directory, db_file, names, obsolete, unlinked,
  remove_obsolete_files-unlinked,
}
use am_kv.Db.Operations.{put}
use am_kv.Db.Operations.PutGet.{Found, TakesPut, put-Found}
use am_kv.Db.Rooms.{make_room-waits}
use am_kv.Db.Opening.{mem_or_new, replay_logs}
use am_kv.Arena.{allocate_aligned, allocate_fallback, allocate_new_block}
use am_kv.Db.Opening.Surviving.{Survives, put-Survives}
use am_kv.Db.Opening.Replaying.{write_batches, replay_logs-write_batches}
use am_kv.Codec.{encode_bytes, encode_uint32, be_bytes}
use am_kv.Log.Layout.{layout, place}
use am_kv.VersionSet.Recovery.Reading.{AreWhole, quiet_file}
use am_kv.WriteBatch
use am_kv.Env.{FileSystem}
use am_kv.Status.{status_ok}
use am_kv.Prelude.{◌>>=◌}
use am_kv.FileName.{FileType}
use am_kv.MemTable.Table.{MemTable, Answers, new_mem_table, node_size, usage}
use am_kv.Comparator.{internal_key_comparator}
use am_kv.Comparator.Bytewise.{internal_key-Laws}
use am_kv.SkipList.{new_skip_list}
use am_kv.SkipList.Refinement.{new_skip_list-Holds}
use am_kv.VersionEdit.{FileMetaData}
use am_kv.VersionSet.{VersionSet, mark_file_number_used}
use am_kv.WritableFile.Posix.{PosixWritableFile, posix_file}
use am_kv.WritableFile.Posix.Laws.{posix_laws, posix_reliable, posix_syncs, posix_syncs_reliably}

abbrev fresh_file : String → PosixWritableFile
fresh_file name = record {
  filename = name;
  disk = [];
  buf = [];
  events = [];
  is_open = true;
  close_succeeds = true;
}

abbrev no_files : FileSystem posix_file
no_files = record {
  World = ℕ;
  create = λ name world. (
    record {
      filename = "db/new";
      disk = [];
      buf = [];
      events = [];
      is_open = true;
      close_succeeds = true;
    },
    world + 1,
  );
  unlink = λ name world. (false, world + 1);
  rename = λ from to world. (true, world + 1);
  list = λ name world. [];
}

abbrev put_first : FileMetaData → List FileMetaData → List FileMetaData
put_first f fs = f ∷ fs

abbrev versions : VersionSet PosixWritableFile
versions = record {
  next_file_number = 7;
  last_sequence = 0;
  manifest_file_number = 5;
  log_number = 6;
  prev_log_number = 0;
  current = record { refs = 1; files = λ level. [] };
  descriptor = none;
}

-- The log with the number 3 is deleted, the one with 6 is kept; so are the manifest with 5, the table
-- and CURRENT.
abbrev files : List Listed
files =
    own_directory
    ∷ parent_directory
    ∷ db_file FileType.log_file 3
    ∷ db_file FileType.log_file 6
    ∷ db_file FileType.descriptor_file 5
    ∷ db_file FileType.table_file 4
    ∷ db_file FileType.current_file 0
    ∷ []

-- A file system whose world is the names of the files that are unlinked or made.
abbrev listing : FileSystem posix_file
listing = record {
  World = List Bytes;
  create = λ name world. ((fresh_file "d/new"), name ∷ world);
  unlink = λ name world. (true, name ∷ world);
  rename = λ from to world. (true, to ∷ world);
  list = λ name world. names (100 ∷ []) files;
}

remove_obsolete_files-unlinked_example :
    remove_obsolete_files posix_file listing (100 ∷ []) versions []
    ≡ ok (unlinked posix_file listing (100 ∷ []) (obsolete versions files) [])
remove_obsolete_files-unlinked_example =
    remove_obsolete_files-unlinked posix_file listing (100 ∷ []) versions files []
      (tt, (tt, (omega arith, (omega arith, (omega arith, (omega arith, (omega arith, tt))))))) refl

abbrev empty_mem : MemTable
empty_mem = record {
  refs = 1;
  arena = record { alloc_ptr = 0; alloc_bytes_remaining = 0; blocks = []; memory_usage = 0 };
  table = new_skip_list;
}

abbrev a_db : Db PosixWritableFile
a_db = record {
  db_name = 100 ∷ [];
  mem = empty_mem;
  imm = none;
  log = record {
    dest = record {
      filename = "d/000006.log";
      disk = [];
      buf = [];
      events = [];
      is_open = true;
      close_succeeds = true;
    };
    block_offset = 0;
  };
  logfile_number = 6;
  versions = versions;
}

make_room-waits_example :
    make_room posix_file no_files put_first 1000 true 8192
      (record a_db { imm = some (new_mem_table 0) })
      0
    ≡ fault no_fuel
make_room-waits_example =
    make_room-waits posix_file no_files put_first 1000 8192 true
      (record a_db { imm = some (new_mem_table 0) }) 0 (new_mem_table 0) refl refl

abbrev heights : ℕ → Answers
heights i = record { entry_address = 16384; node_address = 20480; height = 3; array = λ level. 7 }

abbrev no_table : Bytes → PosixAccessFile
no_table name = record { file_size = 0; map = [] }

a_db-TakesPut : TakesPut posix_file posix_laws posix_reliable [] (107 ∷ []) (118 ∷ []) heights a_db
unfolding usage
a_db-TakesPut = record {
  room = refl;
  holds = new_skip_list-Holds internal_key_comparator internal_key-Laws;
  others = tt;
  short_key = omega arith;
  short_value = omega arith;
  some_height = omega arith;
  low_height = omega arith;
  ready = record { empty_buffer = refl; in_block = omega arith };
  healthy = (refl, refl);
}

put-Found_example :
    Returns
      (λ r.
        Found posix_file posix_laws posix_reliable no_files put_first no_table
          (107 ∷ [])
          (118 ∷ [])
          []
          a_db
          (r.0, r.1.0))
      (put posix_file no_files put_first 1 8192 heights (107 ∷ []) (118 ∷ []) a_db 0)
put-Found_example =
    put-Found posix_file posix_laws posix_reliable no_files put_first no_table [] heights (107 ∷ [])
      (118 ∷ []) [] 0 8192 a_db 0 posix_syncs_reliably.sync_succeeds a_db-TakesPut

-- A database that is just opened, with a log that no read or write of the kernel fails on.
abbrev fresh_db : Db PosixWritableFile
fresh_db = record a_db { mem = mem_or_new 0 none }

abbrev two_batches : List Bytes
two_batches =
    am_kv.WriteBatch.put (107 ∷ []) (118 ∷ []) [] ∷ am_kv.WriteBatch.delete (108 ∷ []) [] ∷ []

two_batches-AreWhole : AreWhole 0 two_batches
unfolding am_kv.WriteBatch.put am_kv.WriteBatch.delete encode_bytes encode_uint32 be_bytes layout
    place
two_batches-AreWhole = (omega arith, (omega arith, tt))

replay_logs-write_batches_example :
    (write_batches posix_file posix_laws posix_reliable posix_syncs posix_syncs_reliably no_files
        put_first
        (λ i. heights)
        0
        two_batches
        fresh_db
      >>= λ db'.
          replay_logs posix_file no_files put_first
            (λ path world. true)
            (λ path world'. (status_ok, quiet_file "d/000006.log" db'.log.dest.disk))
            (λ path world. world)
            (λ path world. [])
            false
            3
            0
            (λ _ i. heights)
            (100 ∷ [])
            (6 ∷ [])
            0
            status_ok
            versions
            none)
    ≡ (write_batches posix_file posix_laws posix_reliable posix_syncs posix_syncs_reliably no_files
          put_first
          (λ i. heights)
          0
          two_batches
          fresh_db
        >>= λ db'. ok (status_ok, (mark_file_number_used 6 versions, some db'.mem)))
replay_logs-write_batches_example =
    replay_logs-write_batches posix_file posix_laws posix_reliable posix_syncs posix_syncs_reliably
      no_files put_first (λ path world. true) (λ path world. world) (λ path world. [])
      "d/000006.log" 3 0 6 (λ i. heights) (am_kv.WriteBatch.put (107 ∷ []) (118 ∷ []) [])
      (am_kv.WriteBatch.delete (108 ∷ []) [] ∷ []) fresh_db 0 versions
      (record {
        ready = record { empty_buffer = refl; in_block = omega arith };
        healthy = (refl, refl);
        stored = refl;
      })
      refl refl refl two_batches-AreWhole (omega arith)

fresh_db-TakesPut :
    TakesPut posix_file posix_laws posix_reliable [] (107 ∷ []) (118 ∷ []) heights fresh_db
unfolding usage new_mem_table node_size am_kv.MemTable.Table.ref allocate_aligned allocate_fallback
    allocate_new_block
fresh_db-TakesPut = record {
  room = refl;
  holds = new_skip_list-Holds internal_key_comparator internal_key-Laws;
  others = tt;
  short_key = omega arith;
  short_value = omega arith;
  some_height = omega arith;
  low_height = omega arith;
  ready = record { empty_buffer = refl; in_block = omega arith };
  healthy = (refl, refl);
}

put-Survives_example :
    Returns
      (λ r.
        Found posix_file posix_laws posix_reliable no_files put_first no_table
          (107 ∷ [])
          (118 ∷ [])
          []
          fresh_db
          (r.0, r.1.0)
        × Survives posix_file posix_laws posix_reliable posix_syncs posix_syncs_reliably no_files
            put_first
            (λ path world. true)
            (λ path world. world)
            (λ path world. [])
            "d/000006.log"
            (100 ∷ [])
            2
            0
            6
            (λ i. heights)
            versions
            0
            r.1.0)
      (put posix_file no_files put_first 1 8192 heights (107 ∷ []) (118 ∷ []) fresh_db 0)
put-Survives_example =
    put-Survives posix_file posix_laws posix_reliable posix_syncs posix_syncs_reliably no_files
      put_first (λ path world. true) (λ path world. world) (λ path world. []) no_table (107 ∷ [])
      (118 ∷ []) [] "d/000006.log" 2 0 0 8192 6 (λ i. heights) fresh_db 0 0 versions
      fresh_db-TakesPut refl refl refl refl two_batches-AreWhole.0 (omega arith)
