-- ===== src/Log/Reader.antt =====
-- amkv/lsm/log_reader.cc: `ReadRecord` puts the fragments of a record together. The source leaves
-- `eof_` unset in its constructor; the model takes its first value as an argument.
use am_kv.Prelude.{
  none, not, some, Option, ℕ, zero, suc, ◌+◌, ◌-◌, ◌*◌, ◌%◌, ◌^◌, Bool, true, false, ◌&&◌, ◌||◌, [],
  ◌∷◌, ◌++◌, Bytes, length, take, drop, ltb, ◌==◌, if◌then◌else◌, Result, ok, fault, no_fuel, ◌>>=◌,
}
use am_kv.Status.{is_ok}
use am_kv.SequentialFile.{PosixSequentialFile, read}
use am_kv.Log.{
  block_size, header_size, zero_type, full_type, first_type, middle_type, last_type, eof_type,
  bad_record_type,
}

pub record Reader : Type 0 where
  pub buffer : Bytes
  pub eof : Bool
  pub file : PosixSequentialFile
  pub last_record_offset : ℕ
  pub end_of_buffer_offset : ℕ

unfoldable pub new_reader : Bool → PosixSequentialFile → Reader
new_reader eof file = record {
  buffer = [];
  eof = eof;
  file = file;
  last_record_offset = 0;
  end_of_buffer_offset = 0;
}

-- What `readPhysicalRecord` returns, with its out parameter `*record` and the reader.
abbrev pub Physical : Type 0
Physical = ℕ × Bytes × Reader

-- The part of the loop's body behind the refill: the buffer has a header.
unfoldable pub parse_header : Bytes → Reader → Bytes → Physical
parse_header fragment r (_ ∷ _ ∷ _ ∷ _ ∷ a ∷ b ∷ type ∷ payload) =
    let len = a + b * 256 in
    if ltb (length r.buffer) (header_size + len)
    then (if r.eof then eof_type else bad_record_type, fragment, record r { buffer = [] })
    else if type == zero_type && len == 0
    then (bad_record_type, fragment, record r { buffer = [] })
    else (type, take len payload, record r { buffer = drop (header_size + len) r.buffer })
-- There is a whole header: the loop has tested it.
parse_header fragment r _ = (eof_type, fragment, r)

-- `dest_->Read(kBlockSize, &buffer_, backing_store_)` and what follows it up to `continue`.
unfoldable pub refill : Reader → Bool × Reader
refill r =
    let (status, buffer, file) = read block_size r.file in
    (
      is_ok status,
      record r {
        buffer = buffer;
        eof = not (is_ok status) || ltb (length buffer) header_size;
        file = file;
        end_of_buffer_offset = (r.end_of_buffer_offset + length buffer) % 2 ^ 64;
      },
    )

unfoldable pub physical_loop : ℕ → Bytes → Reader → Result Physical
unfolding parse_header refill
physical_loop zero fragment r = fault no_fuel
physical_loop (suc fuel) fragment r =
    let (good, filled) = refill r in
    let again = physical_loop fuel fragment filled in
    if ltb (length r.buffer) header_size
    then (if r.eof
        then ok (eof_type, fragment, record r { buffer = [] })
        else if good
        then again
        else ok (eof_type, fragment, filled))
    else ok (parse_header fragment r r.buffer)

-- A second round never refills: the first one has a whole header or sets `eof_`.
unfoldable pub read_physical_record : Bytes → Reader → Result Physical
read_physical_record fragment r = physical_loop 2 fragment r

-- What `ReadRecord` returns, with its two out parameters and the reader.
pub record ReadResult : Type 0 where
  pub found : Bool
  pub record_out : Bytes
  pub scratch : Bytes
  pub reader : Reader

unfoldable pub physical_offset : Bytes → Reader → ℕ
physical_offset fragment r =
    let behind = (length r.buffer + header_size + length fragment) % 2 ^ 64 in
    (r.end_of_buffer_offset + 2 ^ 64 - behind) % 2 ^ 64

-- The `switch`: a result, or nothing where it breaks and the loop goes on.
unfoldable pub finished : ℕ → Bytes → Bytes → ℕ → Reader → Option ReadResult
finished type fragment scratch prospective r =
    if type == full_type
    then some (record {
      found = true;
      record_out = fragment;
      scratch = fragment;
      reader = record r { last_record_offset = physical_offset fragment r };
    })
    else if type == last_type
    then some (record {
      found = true;
      record_out = fragment;
      scratch = scratch ++ fragment;
      reader = record r { last_record_offset = prospective };
    })
    else if type == eof_type
    then some (record { found = false; record_out = []; scratch = []; reader = r })
    else none

unfoldable pub read_record_loop : ℕ → Bytes → Bytes → ℕ → Reader → Result ReadResult
unfolding physical_offset finished
read_record_loop zero scratch fragment prospective r = fault no_fuel
read_record_loop (suc fuel) scratch fragment prospective r = do
  (type, fragment', r') ← read_physical_record fragment r
  let scratch' =
      if type == first_type
      then fragment'
      else if type == middle_type
      then scratch ++ fragment'
      else []
  let prospective' = if type == first_type then physical_offset fragment' r' else prospective
  let again = read_record_loop fuel scratch' fragment' prospective' r'
  elim (finished type fragment' scratch prospective r') [ some result ↦ ok result | none ↦ again ]

-- Each round takes a header from the bytes that are left, or gives up those in the buffer.
unfoldable pub read_record : Reader → Result ReadResult
read_record r = read_record_loop (length r.buffer + length r.file.rest + 1) [] [] 0 r
