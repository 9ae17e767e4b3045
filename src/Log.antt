-- ===== src/Log.antt =====
-- amkv/lsm/log_format.h: the layout of the write-ahead log and of the manifest. `Writer` is
-- log_writer.cc, `Reader` is log_reader.cc; the other modules prove what they do together.
pub mod Writer
pub mod Reader
pub mod Layout
pub mod Writing
pub mod Reading
pub mod RoundTrip
mod Examples
use am_kv.Prelude.{ℕ}

abbrev pub block_size : ℕ
block_size = 32768

abbrev pub header_size : ℕ
header_size = 7

-- `RecordType`, as the byte that is stored.
abbrev pub zero_type : ℕ
zero_type = 0

abbrev pub full_type : ℕ
full_type = 1

abbrev pub first_type : ℕ
first_type = 2

abbrev pub middle_type : ℕ
middle_type = 3

abbrev pub last_type : ℕ
last_type = 4

-- `EndRecordType` of the reader.
abbrev pub eof_type : ℕ
eof_type = 5

abbrev pub bad_record_type : ℕ
bad_record_type = 6
