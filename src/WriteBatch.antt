-- ===== src/WriteBatch.antt =====
-- amkv/db/write_batch.cc, write_batch_internal.cc and write_batch_handler.cc: a batch is the byte
-- string `rep_`; `Iterate` takes it apart and hands each update to the memtable. The memtable is a
-- parameter: its type and its `Add`.
pub mod Replay
mod Examples
use am_kv.Prelude.{
  ℕ, zero, suc, ◌+◌, ◌%◌, ◌^◌, List, [], ◌∷◌, ◌++◌, Bytes, take, drop, length, ◌==◌, if◌then◌else◌,
}
use am_kv.Prelude.{Result, ok, fault, no_fuel, ◌>>=◌}
use am_kv.Codec.{encode_bytes, decode_uint32, decode_bytes}
use am_kv.DbFormat.{SequenceNumber, ValueType, type_deletion, type_value}

unfoldable pub put : Bytes → Bytes → Bytes → Bytes
put key value rep = ((rep ++ (type_value ∷ [])) ++ encode_bytes key) ++ encode_bytes value

unfoldable pub delete : Bytes → Bytes → Bytes
delete key rep = (rep ++ (type_deletion ∷ [])) ++ encode_bytes key

-- The lambda `func` of `Iterate`, and the `remove_prefix` by its result.
pub next_field : Bytes → Result (Bytes × Bytes)
next_field input = do
  (len1, len2) ← decode_uint32 (take 4 input)
  (len, output) ← decode_bytes (take (len1 + len2) input)
  ok (output, drop len input)

pub record WriteBatchHandler (M : Type 0) : Type 0 where
  pub sequence : SequenceNumber
  pub memtable : M

-- `sequence_++` on a 64-bit word.
abbrev pub next_sequence : SequenceNumber → SequenceNumber
next_sequence s = (s + 1) % 2 ^ 64

module _ {M : Type 0} (add : SequenceNumber → ValueType → Bytes → Bytes → M → M) where
  pub handler_put : Bytes → Bytes → WriteBatchHandler M → WriteBatchHandler M
  handler_put key value h = record {
    sequence = next_sequence h.sequence;
    memtable = add h.sequence type_value key value h.memtable;
  }

  pub handler_delete : Bytes → WriteBatchHandler M → WriteBatchHandler M
  handler_delete key h = record {
    sequence = next_sequence h.sequence;
    memtable = add h.sequence type_deletion key [] h.memtable;
  }

  -- The two cases of the `switch`; a tag with no case changes nothing.
  visit_put : WriteBatchHandler M → Bytes → Result (WriteBatchHandler M × Bytes)
  visit_put h input = do
    (key, input) ← next_field input
    (value, input) ← next_field input
    ok (handler_put key value h, input)

  visit_delete : WriteBatchHandler M → Bytes → Result (WriteBatchHandler M × Bytes)
  visit_delete h input = do (key, input) ← next_field input; ok (handler_delete key h, input)

  visit : ℕ → Bytes → WriteBatchHandler M → Result (WriteBatchHandler M × Bytes)
  visit tag input h =
      if tag == type_value
      then visit_put h input
      else if tag == type_deletion
      then visit_delete h input
      else ok (h, input)

  -- A read past the end, of which the source's behaviour is undefined, ends the run with the fault.
  iterate_loop : ℕ → Bytes → WriteBatchHandler M → Result (WriteBatchHandler M)
  iterate_loop fuel [] h = ok h
  iterate_loop zero (tag ∷ input) h = fault no_fuel
  iterate_loop (suc fuel) (tag ∷ input) h = do
    (h', input') ← visit tag input h
    iterate_loop fuel input' h'

  -- Each round takes the tag at least, so the length of the batch is fuel enough.
  pub iterate : Bytes → WriteBatchHandler M → Result (WriteBatchHandler M)
  iterate rep h = iterate_loop (length rep) rep h

  pub insert_into : Bytes → M → Result (WriteBatchHandler M)
  insert_into rep memtable = iterate rep (record { sequence = 0; memtable = memtable })

-- `WriteBatchInternal`: the count and the sequence that `DB::Write` sets and reads.
pub record WriteBatchInternal : Type 0 where
  pub count : ℕ
  pub seq : SequenceNumber

abbrev pub new_batch_internal : WriteBatchInternal
new_batch_internal = record { count = 0; seq = 0 }

unfoldable pub set_sequence : SequenceNumber → WriteBatchInternal → WriteBatchInternal
set_sequence s w = record w { seq = s }
