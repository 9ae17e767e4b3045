-- ===== src/AccessFile.antt =====
-- amkv/util/access_file.h and .cc: reading a file through its map. The size is what `GetFileSize`
-- said when the object was made; the map holds the bytes of the file since it was opened.
pub mod Reading
use am_kv.Prelude.{
  ℕ, ◌+◌, ◌%◌, ◌^◌, Bytes, [], length, take, drop, ltb, if◌then◌else◌, Result, ok, fault, over_read,
}
use am_kv.Status.{Status, status_ok, make_status, ErrorCode.file_error}

pub record PosixAccessFile : Type 0 where
  pub file_size : ℕ
  pub map : Bytes

unfoldable pub size : PosixAccessFile → ℕ
size f = f.file_size

-- The copy out of the map.
copy_map : PosixAccessFile → ℕ → ℕ → Result (Status × Bytes)
copy_map f offset n =
    if ltb (length f.map) (offset + n)
    then fault over_read
    else ok (status_ok, take n (drop offset f.map))

-- The sum in the test is taken in a 64-bit word.
pub read_at : PosixAccessFile → ℕ → ℕ → Result (Status × Bytes)
unfolding copy_map
read_at f offset n =
    if ltb f.file_size ((offset + n) % 2 ^ 64)
    then ok (make_status file_error "file error", [])
    else copy_map f offset n
