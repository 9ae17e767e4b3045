-- ===== src/VersionSet/Recovery.antt =====
-- amkv/lsm/version_set.cc, VersionSet::Recover, over the records that its reader has returned.
pub mod Reading
pub mod Restoring
use am_kv.Prelude.{
  ℕ, ◌+◌, ◌%◌, ◌^◌, Bool, true, false, if◌then◌else◌, List, [], ◌∷◌, Bytes, is_empty, Result, ok,
  fault, ◌>>=◌,
}
use am_kv.Log.Reader.{Reader}
use am_kv.Log.RoundTrip.{read_records}
use am_kv.Status.{Status, ErrorCode, make_status, status_ok, is_ok}
use am_kv.Version.{Version, new_version, ref}
use am_kv.Version.Builder.{Builder, new_builder, apply, save_to}
use am_kv.VersionEdit.{FileMetaData, VersionEdit, new_edit, decode_from}
use am_kv.VersionSet.{VersionSet, append_version, mark_file_number_used}

-- The local variables of `Recover`.
pub record Recovering : Type 0 where
  pub builder : Builder
  pub have_log_number : Bool
  pub have_prev_log_number : Bool
  pub have_next_file : Bool
  pub have_last_sequence : Bool
  pub next_file : ℕ
  pub last_sequence : ℕ
  pub log_number : ℕ
  pub prev_log_number : ℕ

pub begin_recovery : Version → Recovering
begin_recovery base = record {
  builder = new_builder base;
  have_log_number = false;
  have_prev_log_number = false;
  have_next_file = false;
  have_last_sequence = false;
  next_file = 0;
  last_sequence = 0;
  log_number = 0;
  prev_log_number = 0;
}

-- The four tests of the loop's body.
pub take_numbers : VersionEdit → Recovering → Recovering
take_numbers edit st =
    let st1 =
      if edit.has_log_number
      then record st { log_number = edit.log_number; have_log_number = true }
      else st in
    let st2 =
      if edit.has_prev_log_number
      then record st1 { prev_log_number = edit.prev_log_number; have_prev_log_number = true }
      else st1 in
    let st3 =
      if edit.has_next_file_number
      then record st2 { next_file = edit.next_file_number; have_next_file = true }
      else st2 in
    if edit.has_last_sequence
    then record st3 { last_sequence = edit.last_sequence; have_last_sequence = true }
    else st3

-- What is missing, after the loop.
pub recovered_status : Recovering → Status
recovered_status st =
    if st.have_next_file
    then (if st.have_log_number
        then (if st.have_last_sequence
            then status_ok
            else make_status ErrorCode.file_error "no last-sequence-number entry in descriptor")
        else make_status ErrorCode.file_error "no meta-lognumber entry in descriptor")
    else make_status ErrorCode.file_error "no meta-nextfile entry in descriptor"

-- Behind the loop: the numbers that are in use, and the version that is read.
pub finish_recovery : {F : Type 0} → Status → Recovering → VersionSet F → Status × VersionSet F
finish_recovery read st vs =
    let status = if is_ok read then recovered_status st else read in
    let prev_log_number = if st.have_prev_log_number then st.prev_log_number else 0 in
    let marked =
      if is_ok read
      then mark_file_number_used st.log_number (mark_file_number_used prev_log_number vs)
      else vs in
    if is_ok status
    then (
      status,
      record (append_version (save_to st.builder new_version) marked) {
        manifest_file_number = st.next_file;
        next_file_number = (st.next_file + 1) % 2 ^ 64;
        last_sequence = st.last_sequence;
        log_number = st.log_number;
        prev_log_number = prev_log_number;
      },
    )
    else (status, marked)

-- `record` of every record that `ReadRecord` has returned.
pub record_outs : List (Bytes × Bytes) → List Bytes
record_outs [] = []
record_outs ((out, scratch) ∷ seen) = out ∷ record_outs seen

module _ (insert_added : FileMetaData → List FileMetaData → List FileMetaData) where
  pub recover_record : Bytes → Recovering → Result Recovering
  recover_record data_in st = do
    edit ← decode_from data_in new_edit
    builder ← apply insert_added edit st.builder
    ok (take_numbers edit (record st { builder = builder }))

  pub recover_records : List Bytes → Recovering → Result Recovering
  recover_records [] st = ok st
  recover_records (data_in ∷ rest) st = recover_record data_in st >>= recover_records rest

  -- `opened` is the status of opening the manifest, which stays if there is no record: `DecodeFrom`
  -- always answers with success.
  pub recover : {F : Type 0} → Status → List Bytes → VersionSet F → Result (Status × VersionSet F)
  recover opened records vs = do
    let held = record vs { current = ref vs.current }
    st ← recover_records records (begin_recovery held.current)
    ok (finish_recovery (if is_empty records then opened else status_ok) st held)

  pub recover_from_log :
      {F : Type 0} → ℕ → Status → Reader → VersionSet F → Result (Status × VersionSet F)
  recover_from_log fuel opened reader vs = do
    seen ← read_records fuel reader
    recover opened (record_outs seen) vs
