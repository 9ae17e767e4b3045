-- ===== src/Log/Writer.antt =====
-- amkv/lsm/log_writer.cc: `AddRecord` cuts a record into fragments that do not cross a block.
use am_kv.Prelude.{
  ℕ, zero, suc, ◌+◌, ◌-◌, ◌/◌, ◌%◌, Bool, true, false, ◌&&◌, [], ◌∷◌, Bytes, length, take, drop,
  replicate, ltb, ◌==◌, if◌then◌else◌, Result, ok, fault, no_fuel,
}
use am_kv.Status.{Status, is_ok}
use am_kv.WritableFile.{WritableFile, and_then}
use am_kv.Log.{block_size, header_size, full_type, first_type, middle_type, last_type}

pub record Writer (F : Type 0) : Type 0 where
  pub dest : F
  pub block_offset : ℕ

-- The seven bytes of `buf`: four of an unused checksum, the length's two bytes, the type.
unfoldable pub header : ℕ → ℕ → Bytes
header type len = 0 ∷ 0 ∷ 0 ∷ 0 ∷ (len % 256) ∷ (len / 256 % 256) ∷ type ∷ []

unfoldable pub record_type : Bool → Bool → ℕ
record_type true true = full_type
record_type true false = first_type
record_type false true = last_type
record_type false false = middle_type

module _ (w : WritableFile) where
  unfoldable pub emit_physical_record : ℕ → Bytes → Writer w.State → Status × Writer w.State
  emit_physical_record type fragment writer =
      let (status, dest) =
        and_then
          (and_then (w.append (header type (length fragment)) writer.dest) (w.append fragment))
          w.flush in
      (
        status,
        record {
          dest = dest;
          block_offset = writer.block_offset + (header_size + length fragment);
        },
      )

  -- The trailer of a block that has no room for a header. The status of its append is not read.
  unfoldable pub fill_trailer : Writer w.State → Writer w.State
  fill_trailer writer =
      let leftover = block_size - writer.block_offset in
      if ltb leftover header_size
      then record {
        dest =
            if ltb 0 leftover then (w.append (replicate leftover 0) writer.dest).1 else writer.dest;
        block_offset = 0;
      }
      else writer

  -- The `do` loop: `input` is what `ptr` and `left` still denote.
  unfoldable pub add_record_loop :
      ℕ → Bool → Bytes → Writer w.State → Result (Status × Writer w.State)
  add_record_loop zero begin input writer = fault no_fuel
  add_record_loop (suc fuel) begin input writer =
      let writer' = fill_trailer writer in
      let avail = block_size - writer'.block_offset - header_size in
      let fragment_length = if ltb (length input) avail then length input else avail in
      let end = length input == fragment_length in
      let (status, written) =
        emit_physical_record (record_type begin end) (take fragment_length input) writer' in
      let rest = add_record_loop fuel false (drop fragment_length input) written in
      if is_ok status && ltb 0 (length (drop fragment_length input))
      then rest
      else ok (status, written)

  -- A round takes a byte of the record, but for one that finds exactly a header's room in its block.
  unfoldable pub add_record : Bytes → Writer w.State → Result (Status × Writer w.State)
  add_record data_in writer = add_record_loop (length data_in + 2) true data_in writer
