-- ===== src/VersionEdit.antt =====
-- amkv/lsm/version_edit.h and version_edit.cc: an edit of the file set, and its record in the
-- manifest. `deleted_files_` is a `std::set` of pairs: a list in ascending order, each pair once.
pub mod Sets
pub mod RoundTrip
mod Examples
use am_kv.Prelude.{
  ℕ, zero, suc, ◌+◌, Bool, true, false, List, [], ◌∷◌, ◌++◌, Bytes, length, ◌==◌, if◌then◌else◌,
  Result, ok, fault, no_fuel, ◌>>=◌,
}
use am_kv.Codec.{encode_uint8, encode_uint64, encode_bytes}
use am_kv.Codec.Cursor.{next_uint8, next_uint64, next_bytes}
use am_kv.VersionEdit.Sets.{PairSet, set_insert}

pub record FileMetaData : Type 0 where
  pub refs : ℕ
  pub number : ℕ
  pub file_size : ℕ
  pub smallest : Bytes
  pub largest : Bytes

pub record VersionEdit : Type 0 where
  pub new_files : List (ℕ × FileMetaData)
  pub deleted_files : PairSet
  pub prev_log_number : ℕ
  pub log_number : ℕ
  pub next_file_number : ℕ
  pub last_sequence : ℕ
  pub has_comparator : Bool
  pub has_log_number : Bool
  pub has_prev_log_number : Bool
  pub has_next_file_number : Bool
  pub has_last_sequence : Bool

-- `VersionEdit edit;`: the initialisers of the fields.
abbrev pub new_edit : VersionEdit
new_edit = record {
  new_files = [];
  deleted_files = [];
  prev_log_number = 0;
  log_number = 0;
  next_file_number = 0;
  last_sequence = 0;
  has_comparator = false;
  has_log_number = false;
  has_prev_log_number = false;
  has_next_file_number = false;
  has_last_sequence = false;
}

abbrev pub set_log_number : ℕ → VersionEdit → VersionEdit
set_log_number n e = record e { has_log_number = true; log_number = n }

abbrev pub set_prev_log_number : ℕ → VersionEdit → VersionEdit
set_prev_log_number n e = record e { has_prev_log_number = true; prev_log_number = n }

abbrev pub set_next_file : ℕ → VersionEdit → VersionEdit
set_next_file n e = record e { has_next_file_number = true; next_file_number = n }

abbrev pub set_last_sequence : ℕ → VersionEdit → VersionEdit
set_last_sequence n e = record e { has_last_sequence = true; last_sequence = n }

abbrev pub add_file : ℕ → FileMetaData → VersionEdit → VersionEdit
add_file level meta e = record e { new_files = e.new_files ++ ((level, meta) ∷ []) }

abbrev pub remove_file : ℕ → ℕ → VersionEdit → VersionEdit
remove_file level file e = record e { deleted_files = set_insert (level, file) e.deleted_files }

-- The values of `Tag`. Those of the comparator and of the compaction pointer are never written.
abbrev tag_log_number : ℕ
tag_log_number = 2

abbrev tag_next_file_number : ℕ
tag_next_file_number = 3

abbrev tag_last_sequence : ℕ
tag_last_sequence = 4

abbrev tag_deleted_file : ℕ
tag_deleted_file = 6

abbrev tag_new_file : ℕ
tag_new_file = 7

abbrev tag_prev_log_number : ℕ
tag_prev_log_number = 9

unfoldable pub encode_number : Bool → ℕ → ℕ → Bytes
encode_number has tag n = if has then encode_uint8 tag ++ encode_uint64 n else []

unfoldable pub encode_deleted : PairSet → Bytes
encode_deleted [] = []
encode_deleted ((level, number) ∷ files) =
    (encode_uint8 tag_deleted_file ++ (encode_uint64 level ++ encode_uint64 number))
    ++ encode_deleted files

unfoldable pub encode_meta : ℕ → FileMetaData → Bytes
encode_meta level meta =
    encode_uint8 tag_new_file
    ++ (encode_uint64 level
        ++ (encode_uint64 meta.number
            ++ (encode_uint64 meta.file_size
                ++ (encode_bytes meta.smallest ++ encode_bytes meta.largest))))

unfoldable pub encode_new : List (ℕ × FileMetaData) → Bytes
encode_new [] = []
encode_new ((level, meta) ∷ files) = encode_meta level meta ++ encode_new files

unfoldable pub encode_to : VersionEdit → Bytes
encode_to e =
    encode_number e.has_log_number tag_log_number e.log_number
    ++ (encode_number e.has_prev_log_number tag_prev_log_number e.prev_log_number
        ++ (encode_number e.has_next_file_number tag_next_file_number e.next_file_number
            ++ (encode_number e.has_last_sequence tag_last_sequence e.last_sequence
                ++ (encode_deleted e.deleted_files ++ encode_new e.new_files))))

-- The cases of the `switch` in `DecodeFrom`, on what is behind the tag.
pub decode_number :
    (ℕ → VersionEdit → VersionEdit) → Bytes → VersionEdit → Result (VersionEdit × Bytes)
decode_number set_number src e = do (n, src) ← next_uint64 src; ok (set_number n e, src)

pub decode_new_file : Bytes → VersionEdit → Result (VersionEdit × Bytes)
decode_new_file src e = do
  (level, src) ← next_uint64 src
  (number, src) ← next_uint64 src
  (file_size, src) ← next_uint64 src
  (smallest, src) ← next_bytes src
  (largest, src) ← next_bytes src
  let meta : FileMetaData = record {
    refs = 0;
    number = number;
    file_size = file_size;
    smallest = smallest;
    largest = largest;
  }
  ok (add_file level meta e, src)

pub decode_deleted_file : Bytes → VersionEdit → Result (VersionEdit × Bytes)
decode_deleted_file src e = do
  (level, src) ← next_uint64 src
  (number, src) ← next_uint64 src
  ok (remove_file level number e, src)

pub decode_tag : ℕ → Bytes → VersionEdit → Result (VersionEdit × Bytes)
decode_tag tag src e =
    if tag == tag_log_number
    then decode_number set_log_number src e
    else if tag == tag_prev_log_number
    then decode_number set_prev_log_number src e
    else if tag == tag_next_file_number
    then decode_number set_next_file src e
    else if tag == tag_last_sequence
    then decode_number set_last_sequence src e
    else if tag == tag_new_file
    then decode_new_file src e
    else if tag == tag_deleted_file
    then decode_deleted_file src e
    else ok (e, src)

-- A read past the end, of which the source's behaviour is undefined, ends the run with the fault.
pub decode_loop : ℕ → Bytes → VersionEdit → Result VersionEdit
decode_loop fuel [] e = ok e
decode_loop zero (b ∷ bs) e = fault no_fuel
decode_loop (suc fuel) (b ∷ bs) e = do
  (tag, src) ← next_uint8 (b ∷ bs)
  (e', src') ← decode_tag tag src e
  decode_loop fuel src' e'

-- `DecodeFrom` into the edit `e`. A round takes the tag at least.
pub decode_from : Bytes → VersionEdit → Result VersionEdit
decode_from src e = decode_loop (length src) src e
