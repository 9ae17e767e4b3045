-- ===== src/WritableFile/Posix.antt =====
-- amkv/util/writable_file.cc: a buffer of 65536 bytes in front of a file descriptor. What the
-- kernel answers to the calls of `::write` is a list of events; behind its end every call writes all
-- that it is given. `disk` is what the descriptor's file holds.
pub mod Laws
mod Examples
use am_kv.Prelude.{
  ℕ, ◌-◌, min, String, Bool, true, false, List, [], ◌∷◌, ◌++◌, Bytes, length, take, drop, is_empty,
  ltb, if◌then◌else◌,
}
use Prim.Native.String.{◌++◌ as str_append}
use am_kv.Status.{Status, ErrorCode, make_status, status_ok, is_ok, is_ok_code}
use am_kv.WritableFile.{WritableFile, and_then, buffer_size}

pub data WriteEvent : Type 0 where
  wrote : ℕ → WriteEvent
  interrupted write_failed : WriteEvent

pub record PosixWritableFile : Type 0 where
  pub filename : String
  pub disk : Bytes
  pub buf : Bytes
  pub events : List WriteEvent
  pub is_open : Bool
  pub close_succeeds : Bool

abbrev not_found_status : String → Status
not_found_status name = make_status ErrorCode.not_found name

-- The loop of `writeUnbuffered`: the status, the file and the events left.
pub write_loop : String → List WriteEvent → Bytes → Bytes → Status × Bytes × List WriteEvent
write_loop name [] input disk = (status_ok, disk ++ input, [])
write_loop name (e ∷ es) [] disk = (status_ok, disk, e ∷ es)
write_loop name (wrote n ∷ es) (b ∷ bs) disk =
    write_loop name es (drop n (b ∷ bs)) (disk ++ take n (b ∷ bs))
write_loop name (interrupted ∷ es) (b ∷ bs) disk = write_loop name es (b ∷ bs) disk
write_loop name (write_failed ∷ es) (b ∷ bs) disk =
    (not_found_status (str_append "not found data in " name), disk, es)

pub write_unbuffered : Bytes → PosixWritableFile → Status × PosixWritableFile
write_unbuffered input f =
    let (status, disk, events) = write_loop f.filename f.events input f.disk in
    (status, record f { disk = disk; events = events })

-- `pos_ = 0` whatever the status is.
pub flush_buffer : PosixWritableFile → Status × PosixWritableFile
flush_buffer f = let (status, f') = write_unbuffered f.buf f in (status, record f' { buf = [] })

-- The part of `Append` behind the flush. The test is the source's: on success it returns at once.
append_rest : Bytes → Status × PosixWritableFile → Status × PosixWritableFile
append_rest rest (status, f) =
    if is_ok status
    then (status, f)
    else if ltb (length rest) buffer_size
    then (status_ok, record f { buf = rest })
    else write_unbuffered rest f

pub append : Bytes → PosixWritableFile → Status × PosixWritableFile
append input f =
    let copy_size = min (length input) (buffer_size - length f.buf) in
    let f' = record f { buf = f.buf ++ take copy_size input } in
    let rest = drop copy_size input in
    if is_empty rest then (status_ok, f') else append_rest rest (flush_buffer f')

pub flush : PosixWritableFile → Status × PosixWritableFile
flush f = flush_buffer f

pub sync : PosixWritableFile → Status × PosixWritableFile
sync f = let (status, f') = flush f in if is_ok status then (status_ok, f') else (status, f')

-- A failed `::close` is reported if the flush was well.
pub close_descriptor : Status × PosixWritableFile → Status × PosixWritableFile
close_descriptor (status, f) =
    let closed = record f { is_open = false } in
    if f.close_succeeds
    then (status, closed)
    else if is_ok status
    then (not_found_status f.filename, closed)
    else (status, closed)

pub close : PosixWritableFile → Status × PosixWritableFile
close f = close_descriptor (flush_buffer f)

abbrev pub posix_file : WritableFile
posix_file = record {
  State = PosixWritableFile;
  append = append;
  flush = flush;
  sync = sync;
  close = close;
}
