-- ===== src/Log/Examples.antt =====
-- Runs of the log, and its theorems at concrete inputs.
use am_kv.Prelude.{
  drop, false, take, ◌++◌, ok, ◌<◌, ◌≡◌, refl, arith, List, [], ◌∷◌, Bytes, length, true,
}
use am_kv.WritableFile.Posix.{PosixWritableFile, posix_file}
use am_kv.WritableFile.Posix.Laws.{posix_laws, posix_reliable}
use am_kv.Log.Reader.{Reader, ReadResult, read_record}
use am_kv.Log.Reading.Physical.{Positioned}
use am_kv.Log.Layout.{layout}
use am_kv.Log.RoundTrip.{ReadsBack, read_records-add_records, read_record_whole, read_record_part}

abbrev fresh_file : PosixWritableFile
fresh_file = record {
  filename = "db/000003.log";
  disk = [];
  buf = [];
  events = [];
  is_open = true;
  close_succeeds = true;
}

abbrev two_records : List Bytes
two_records = (1 ∷ 2 ∷ []) ∷ (3 ∷ []) ∷ []

read_records-add_records_example :
    ReadsBack posix_file posix_laws two_records fresh_file "db/000003.log"
read_records-add_records_example =
    read_records-add_records posix_file posix_laws posix_reliable two_records fresh_file
      "db/000003.log" refl refl (refl, refl)

-- A reader in front of one record, 13 bytes before the end of a block.
abbrev reader_at : Bytes → Reader
reader_at s = record {
  buffer = take 13 ((layout 32755 s).bytes ++ []);
  eof = false;
  file = record {
    filename = "db/000003.log";
    rest = drop 13 ((layout 32755 s).bytes ++ []);
    events = [];
  };
  last_record_offset = 0;
  end_of_buffer_offset = 32768;
}

reader_at-Positioned : (s : Bytes) → Positioned (reader_at s) 32755 ((layout 32755 s).bytes ++ [])
reader_at-Positioned s = record { in_buffer = refl; in_file = refl; more = refl; quiet = refl }

abbrev seven_bytes : Bytes
seven_bytes = 1 ∷ 2 ∷ 3 ∷ 4 ∷ 5 ∷ 6 ∷ 7 ∷ []

read_record_whole_example :
    (res : ReadResult) × (read_record (reader_at (1 ∷ 2 ∷ [])) ≡ ok res)
    × (res.found ≡ true)
    × (res.record_out ≡ 1 ∷ 2 ∷ [])
    × (res.scratch ≡ 1 ∷ 2 ∷ [])
read_record_whole_example =
    read_record_whole 32755 (1 ∷ 2 ∷ []) (reader_at (1 ∷ 2 ∷ [])) [] (omega arith)
      (reader_at-Positioned (1 ∷ 2 ∷ [])) (omega arith)

-- Six bytes are left behind the header.
read_record_part_example :
    (res : ReadResult) × (read_record (reader_at seven_bytes) ≡ ok res)
    × (res.found ≡ true)
    × (length res.record_out < 7)
    × (res.scratch ≡ seven_bytes)
read_record_part_example =
    read_record_part 32755 seven_bytes (reader_at seven_bytes) [] (omega arith)
      (reader_at-Positioned seven_bytes) (omega arith) (omega arith)
