-- ===== src/MemTable/RoundTrip.antt =====
-- `DecodeMemTable` on what `EncodeMemTable` wrote.
use am_kv.Prelude.{
  substr-rest, substr-append, true, some, ◌+◌, ◌-◌, ◌%◌, ◌^◌, ◌<◌, ◌≡◌, refl, sym, arith, [], ◌++◌,
  Bytes, append_assoc, append-nil, length, length-append, ok, ==_refl,
}
use am_kv.Codec.{
  decode_bytes, encode_bytes, encode_uint64, encode_uint8, decode_uint64, decode_uint8,
}
use am_kv.Codec.RoundTrip.{
  length-encode_bytes, length-encode_uint64, length-encode_uint8, decode_bytes-encode_bytes,
  decode_uint64-encode_uint64, decode_uint8-encode_uint8,
}
use am_kv.DbFormat.{type_deletion, SequenceNumber, ValueType, type_value}
use am_kv.MemTable.{get_at, substr, encode_mem_table, decode_value, decode_mem_table}

pub length-internal_key :
    (key : Bytes) (seq : SequenceNumber) (type : ValueType)
    → length (key ++ (encode_uint64 seq ++ encode_uint8 type)) ≡ length key + 9
length-internal_key key seq type = omega (
  arith,
  length-append key (encode_uint64 seq ++ encode_uint8 type),
  length-append (encode_uint64 seq) (encode_uint8 type),
  length-encode_uint64 seq,
  length-encode_uint8 type,
)

-- The internal key, whatever follows it.
decode_bytes-internal_key :
    (key rest : Bytes) (seq : SequenceNumber) (type : ValueType)
    → length key < 2 ^ 31
    → decode_bytes (encode_bytes (key ++ (encode_uint64 seq ++ encode_uint8 type)) ++ rest)
      ≡ ok (length key + 13, key ++ (encode_uint64 seq ++ encode_uint8 type))
decode_bytes-internal_key key rest seq type short =
    let ik = key ++ (encode_uint64 seq ++ encode_uint8 type) in
    let l : length ik ≡ length key + 9 = length-internal_key key seq type in
    let e : length (encode_bytes ik) ≡ length key + 13 = omega (arith, length-encode_bytes ik) in
    rw (← e, decode_bytes-encode_bytes ik rest (omega arith)) refl

user_key_length :
    (key : Bytes) (seq : SequenceNumber) (type : ValueType)
    → length key < 2 ^ 31
    → (length (key ++ (encode_uint64 seq ++ encode_uint8 type)) + 2 ^ 64 - 9) % 2 ^ 64 ≡ length key
user_key_length key seq type short = omega (arith, length-internal_key key seq type)

substr-user_key : (key rest : Bytes) → substr (key ++ rest) 0 (length key) ≡ ok key
substr-user_key key rest = substr-append [] key rest 0 (length key) refl refl

substr-type :
    (key : Bytes) (seq : SequenceNumber) (type : ValueType)
    → substr (key ++ (encode_uint64 seq ++ encode_uint8 type)) (length key + 8) 1
      ≡ ok (encode_uint8 type)
substr-type key seq type = rw (
  ← append-nil (encode_uint8 type),
  ← append_assoc key (encode_uint64 seq) (encode_uint8 type ++ []),
  substr-append (key ++ encode_uint64 seq) (encode_uint8 type) [] (length key + 8) 1
      (omega (arith, length-append key (encode_uint64 seq), length-encode_uint64 seq))
      (sym (length-encode_uint8 type)),
  append-nil (encode_uint8 type),
)

decode_seq : (seq : SequenceNumber) → seq < 2 ^ 64 → decode_uint64 (encode_uint64 seq) ≡ ok (8, seq)
decode_seq seq h = rw (← append-nil (encode_uint64 seq), decode_uint64-encode_uint64 seq [] h)

decode_type : (type : ValueType) → type < 2 ^ 8 → decode_uint8 (encode_uint8 type) ≡ ok (1, type)
decode_type type h = rw (← append-nil (encode_uint8 type), decode_uint8-encode_uint8 type [] h)

-- What an entry's decoding begins with, whatever its type.
decode_mem_table-head :
    (key value old : Bytes) (seq : SequenceNumber) (type : ValueType)
    → length key < 2 ^ 31
    → seq < 2 ^ 64
    → type < 2 ^ 8
    → decode_mem_table (encode_mem_table key value seq type) old
      ≡ decode_value
          (encode_mem_table key value seq type)
          (record { len = length key + 13; key = key; value = old; seq = seq; type = type })
unfolding decode_mem_table encode_mem_table
decode_mem_table-head key value old seq type short h8 h1 = rw (
  decode_bytes-internal_key key (encode_bytes value) seq type short,
  user_key_length key seq type short,
  substr-user_key key (encode_uint64 seq ++ encode_uint8 type),
  substr-append key (encode_uint64 seq) (encode_uint8 type) (length key) 8 refl
      (sym (length-encode_uint64 seq)),
  decode_seq seq h8,
  substr-type key seq type,
  decode_type type h1,
)

pub length-encode_mem_table :
    (key value : Bytes) (seq : SequenceNumber) (type : ValueType)
    → length (encode_mem_table key value seq type) ≡ length key + 17 + length value
unfolding encode_mem_table
length-encode_mem_table key value seq type =
    let ik = key ++ (encode_uint64 seq ++ encode_uint8 type) in
    omega (
      arith,
      length-append (encode_bytes ik) (encode_bytes value),
      length-encode_bytes ik,
      length-encode_bytes value,
      length-internal_key key seq type,
    )

-- What stands behind the internal key.
substr-value :
    (key value : Bytes) (seq : SequenceNumber) (type : ValueType)
    → substr
        (encode_mem_table key value seq type)
        (length key + 13)
        (length (encode_mem_table key value seq type))
      ≡ ok (encode_bytes value)
unfolding encode_mem_table
substr-value key value seq type =
    let ik = key ++ (encode_uint64 seq ++ encode_uint8 type) in
    substr-rest (encode_bytes ik) (encode_bytes value) (length key + 13) _
      (omega (arith, length-encode_bytes ik, length-internal_key key seq type))
      (omega (arith, length-append (encode_bytes ik) (encode_bytes value)))

-- An entry that holds a value is decoded to its key, sequence number, type and value, with its
-- whole length, if the key is shorter than 2 ^ 31 bytes, the value shorter than 2 ^ 32 and the
-- sequence number below 2 ^ 64. The value is appended to what the out parameter held.
pub decode_mem_table-encode_mem_table :
    (key value old : Bytes) (seq : SequenceNumber)
    → length key < 2 ^ 31
    → length value < 2 ^ 32
    → seq < 2 ^ 64
    → decode_mem_table (encode_mem_table key value seq type_value) old
      ≡ ok (record {
        len = length (encode_mem_table key value seq type_value);
        key = key;
        value = old ++ value;
        seq = seq;
        type = type_value;
      })
decode_mem_table-encode_mem_table key value old seq short hv h8 =
    let l : length (encode_mem_table key value seq type_value)
        ≡ length key + 13 + length (encode_bytes value) =
      omega (arith, length-encode_mem_table key value seq type_value, length-encode_bytes value) in
    rw (decode_mem_table-head key value old seq type_value short h8 (omega arith), l)
      (unfold decode_value in
        rw (
          substr-value key value seq type_value,
          ← append-nil (encode_bytes value),
          decode_bytes-encode_bytes value [] hv,
          append-nil (encode_bytes value),
        ))

-- An entry that marks a deletion is decoded to its key, with the out parameter's value as it was.
pub decode_mem_table-deletion :
    (key value old : Bytes) (seq : SequenceNumber)
    → length key < 2 ^ 31
    → seq < 2 ^ 64
    → decode_mem_table (encode_mem_table key value seq type_deletion) old
      ≡ ok (record {
        len = length key + 13;
        key = key;
        value = old;
        seq = seq;
        type = type_deletion;
      })
decode_mem_table-deletion key value old seq short h8 =
    rw (decode_mem_table-head key value old seq type_deletion short h8 (omega arith))
      (unfold decode_value in refl)

-- `Get` where the iterator stands at the entry of a value. The looked up key plays no part in it.
pub get_at-value :
    (key value old : Bytes) (seq : SequenceNumber)
    → length key < 2 ^ 31
    → length value < 2 ^ 32
    → seq < 2 ^ 64
    → get_at (some (encode_mem_table key value seq type_value)) old ≡ ok (true, old ++ value)
unfolding get_at
get_at-value key value old seq short hv h8 = rw (
  decode_mem_table-encode_mem_table key value old seq short hv h8,
  ==_refl (length (encode_mem_table key value seq type_value)),
)
