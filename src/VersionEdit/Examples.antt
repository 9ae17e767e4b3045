-- ===== src/VersionEdit/Examples.antt =====
-- Runs of the edit's codec, and its theorems at concrete inputs.
use am_kv.Prelude.{◌≡◌, refl, arith, [], ◌∷◌, true, ok}
use am_kv.VersionEdit.{FileMetaData, VersionEdit, new_edit, encode_to, decode_from}
use am_kv.VersionEdit.RoundTrip.{Fits, stored, decode_from-encode_to}

abbrev one_file : FileMetaData
one_file = record { refs = 2; number = 5; file_size = 120; smallest = 97 ∷ []; largest = 99 ∷ [] }

abbrev sample : VersionEdit
sample = record new_edit {
  new_files = (0, one_file) ∷ [];
  deleted_files = (0, 3) ∷ (1, 2) ∷ [];
  log_number = 9;
  has_log_number = true;
}

sample-Fits : Fits sample
sample-Fits = record {
  log_number = omega arith;
  prev_log_number = omega arith;
  next_file_number = omega arith;
  last_sequence = omega arith;
  deleted_files = omega arith;
  sorted = (refl, tt);
  new_files = omega arith;
}

decode_from-encode_to_example : decode_from (encode_to sample) new_edit ≡ ok (stored sample)
decode_from-encode_to_example = decode_from-encode_to sample sample-Fits
