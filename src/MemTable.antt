-- ===== src/MemTable.antt =====
-- amkv/lsm/codec.h and codec.cc: the entries of the memtable, with `LookupKey` and
-- `MemTable::Get` of memtable.cc behind the iterator's Seek.
pub mod RoundTrip
pub mod Order
pub mod Table
mod Examples
use am_kv.Prelude.{
  substr, none, some, false, Bool, Option, ℕ, ◌+◌, ◌-◌, ◌%◌, ◌^◌, List, [], ◌∷◌, ◌++◌, Bytes,
  length, take, drop, ltb, ◌==◌, if◌then◌else◌, Result, ok, fault, out_of_range, ◌>>=◌,
}
use am_kv.Codec.{
  encode_bytes, encode_uint64, encode_uint8, decode_bytes, decode_uint64, decode_uint8,
}
use am_kv.DbFormat.{SequenceNumber, ValueType, type_value}

pub encode_mem_table : Bytes → Bytes → SequenceNumber → ValueType → Bytes
encode_mem_table key value seq type =
    encode_bytes (key ++ (encode_uint64 seq ++ encode_uint8 type)) ++ encode_bytes value

pub record Entry : Type 0 where
  pub len : ℕ
  pub key : Bytes
  pub value : Bytes
  pub seq : SequenceNumber
  pub type : ValueType

-- The case of a value in the `switch`; `DecodeBytes` appends to the out parameter `value`.
read_value : Bytes → Entry → Result Entry
read_value input e = do
  rest ← substr input e.len (length input)
  (n, read) ← decode_bytes rest
  ok (record e { len = e.len + n; value = e.value ++ read })

decode_value : Bytes → Entry → Result Entry
unfolding read_value
decode_value input e = if e.type == type_value then read_value input e else ok e

-- The length of the user's key is computed in a 64-bit word.
pub decode_mem_table : Bytes → Bytes → Result Entry
unfolding decode_value
decode_mem_table input value = do
  (len, internal_key) ← decode_bytes input
  key ← substr internal_key 0 ((length internal_key + 2 ^ 64 - 9) % 2 ^ 64)
  seq_bytes ← substr internal_key (length key) 8
  (_, seq) ← decode_uint64 seq_bytes
  type_byte ← substr internal_key (length key + 8) 1
  (_, type) ← decode_uint8 type_byte
  decode_value input (record { len = len; key = key; value = value; seq = seq; type = type })

-- `Get` behind `iter.Seek`: the argument is the entry that the iterator stands at, if it is valid. The
-- source has the looked up key in scope, but does not read it here.
-- The result is what it returns, and the out parameter `value`.
pub get_at : Option Bytes → Bytes → Result (Bool × Bytes)
get_at none value = ok (false, value)
get_at (some entry) value = do e ← decode_mem_table entry value; ok (e.len == length entry, e.value)

pub record LookupKey : Type 0 where
  pub memtable_key : Bytes
  pub start : ℕ
  pub end : ℕ
  pub kstart : ℕ

pub lookup_key : Bytes → SequenceNumber → LookupKey
lookup_key user_key seq =
    let key = encode_mem_table user_key [] seq type_value in
    record { memtable_key = key; start = 0; end = length key; kstart = length key - 8 }
