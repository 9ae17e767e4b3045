-- ===== src/VersionSet/Examples.antt =====
-- A version set that is just made, and the theorems at it.
use am_kv.Prelude.{ℕ, ◌+◌, arith, true, false, List, [], ◌∷◌, ◌++◌, none, Returns}
use am_kv.Prelude.{length, ◌≤◌}
use am_kv.Codec.{encode_uint8, encode_uint32, encode_uint64, encode_bytes, be_bytes}
use am_kv.Log.Layout.{avail}
use am_kv.Env.{FileSystem}
use am_kv.Status.{status_ok}
use am_kv.VersionEdit.{
  FileMetaData, VersionEdit, new_edit, encode_to, encode_number, encode_deleted, encode_meta,
  encode_new,
}
use am_kv.VersionEdit.RoundTrip.{stored}
use am_kv.VersionSet.{VersionSet, new_version_set, complete}
use am_kv.Log.Reader.{new_reader}
use am_kv.Log.RoundTrip.{layouts}
use am_kv.VersionSet.Recovery.{recover_from_log}
use am_kv.VersionSet.Recovery.Reading.{quiet_file}
use am_kv.VersionSet.Recovery.Restoring.{IsLogged, encoded, Restored, recover_from_log-complete}
use am_kv.WritableFile.Posix.{PosixWritableFile, posix_file}

-- A file system that counts what is done with it.
abbrev counting : FileSystem posix_file
counting = record {
  World = ℕ;
  create = λ name world. (
    record {
      filename = "db/new";
      disk = [];
      buf = [];
      events = [];
      is_open = true;
      close_succeeds = true;
    },
    world + 1,
  );
  unlink = λ name world. (false, world + 1);
  rename = λ from to world. (true, world + 1);
  list = λ name world. [];
}

abbrev insert_first : FileMetaData → List FileMetaData → List FileMetaData
insert_first f fs = f ∷ fs

abbrev a_version_set : VersionSet PosixWritableFile
a_version_set = new_version_set 1 4 none

-- A table of level 0 is added.
abbrev table_added : VersionEdit
table_added = record new_edit {
  new_files =
      (0, record { refs = 0; number = 5; file_size = 120; smallest = 97 ∷ []; largest = 99 ∷ [] })
      ∷ [];
  log_number = 6;
  has_log_number = true;
}

table_added-IsLogged : IsLogged (complete a_version_set table_added)
unfolding complete new_version_set stored
table_added-IsLogged = record {
  fits = record {
    log_number = omega arith;
    prev_log_number = omega arith;
    next_file_number = omega arith;
    last_sequence = omega arith;
    deleted_files = tt;
    sorted = tt;
    new_files = omega arith;
  };
  deleted = tt;
  new = (omega arith, tt);
}

table_added-length : length (encode_to (complete a_version_set table_added)) ≤ avail 0
unfolding complete new_version_set encode_to encode_number encode_deleted encode_meta encode_new
    encode_uint8 encode_uint32 encode_uint64 encode_bytes be_bytes
table_added-length = omega arith

recover_from_log-complete_example : Returns (Restored a_version_set table_added) (
    recover_from_log insert_first 2 status_ok
      (new_reader false (
        quiet_file "db/MANIFEST-000001"
          (layouts 0 (encoded ([] ++ (complete a_version_set table_added ∷ []))))))
      a_version_set)
recover_from_log-complete_example =
    recover_from_log-complete insert_first [] table_added a_version_set a_version_set status_ok 2
      "db/MANIFEST-000001" tt table_added-IsLogged (table_added-length, tt) (omega arith)
