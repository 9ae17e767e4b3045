-- ===== src/MemTable/Examples.antt =====
-- An entry of the memtable, decoded.
use am_kv.Prelude.{◌≡◌, arith, ◌∷◌, [], Bytes, length, ok, ◌++◌}
use am_kv.DbFormat.{type_value}
use am_kv.MemTable.{encode_mem_table, decode_mem_table}
use am_kv.MemTable.RoundTrip.{decode_mem_table-encode_mem_table}

abbrev one_key : Bytes
one_key = 107 ∷ 49 ∷ []

abbrev one_value : Bytes
one_value = 118 ∷ 50 ∷ 51 ∷ []

decode_mem_table-encode_mem_table_example :
    decode_mem_table (encode_mem_table one_key one_value 258 type_value) []
    ≡ ok (record {
      len = length (encode_mem_table one_key one_value 258 type_value);
      key = one_key;
      value = [] ++ one_value;
      seq = 258;
      type = type_value;
    })
decode_mem_table-encode_mem_table_example =
    decode_mem_table-encode_mem_table one_key one_value [] 258 (omega arith) (omega arith)
      (omega arith)
