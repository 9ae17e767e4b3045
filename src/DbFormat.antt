-- ===== src/DbFormat.antt =====
-- amkv/lsm/db_format.h: sequence numbers are 64-bit words, and a value type is any byte of which two
-- have names.
use am_kv.Prelude.{ℕ}

abbrev pub num_levels : ℕ
num_levels = 7

abbrev pub SequenceNumber : Type 0
SequenceNumber = ℕ

abbrev pub ValueType : Type 0
ValueType = ℕ

abbrev pub type_deletion : ValueType
type_deletion = 0

abbrev pub type_value : ValueType
type_value = 1
