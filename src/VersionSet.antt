-- ===== src/VersionSet.antt =====
-- amkv/lsm/version_set.h and version_set.cc: the current version, the numbers of the files, and the log
-- of the manifest. The source leaves `manifest_file_number_`, `log_number_` and `descriptor_file_` unset
-- in the constructor: the model takes their first values as arguments. `Builder` is Version/Builder.
pub mod Recovery
pub mod Applying
mod Examples
use am_kv.Prelude.{
  ℕ, zero, suc, ◌+◌, ◌%◌, ◌^◌, Bool, true, false, leb, if◌then◌else◌, List, [], ◌∷◌, Bytes, Option,
  none, some, Result, ok, fault, over_read, ◌>>=◌,
}
use am_kv.DbFormat.{num_levels}
use am_kv.Env.{FileSystem, new_writable_file, delete_file, set_current_file}
use am_kv.FileName.{descriptor_file_name}
use am_kv.Log.Writer.{Writer, add_record}
use am_kv.Status.{Status, ErrorCode, make_status, status_ok, is_ok}
use am_kv.Version.{Version, new_version, ref, unref}
use am_kv.Version.Builder.{Builder, new_builder, apply, save_to}
use am_kv.VersionEdit.{
  FileMetaData, VersionEdit, new_edit, set_log_number, set_prev_log_number, set_next_file,
  set_last_sequence, add_file, encode_to, decode_from,
}
use am_kv.WritableFile.{WritableFile}

-- `F` is the state of the manifest's file. `descriptor_log_` stands for `descriptor_file_` as well.
pub record VersionSet (F : Type 0) : Type 0 where
  pub next_file_number : ℕ
  pub last_sequence : ℕ
  pub manifest_file_number : ℕ
  pub log_number : ℕ
  pub prev_log_number : ℕ
  pub current : Version
  pub descriptor : Option (Writer F)

pub new_version_set : {F : Type 0} → ℕ → ℕ → Option (Writer F) → VersionSet F
new_version_set manifest_file_number log_number descriptor = record {
  next_file_number = 2;
  last_sequence = 0;
  manifest_file_number = manifest_file_number;
  log_number = log_number;
  prev_log_number = 0;
  current = ref new_version;
  descriptor = descriptor;
}

-- The version that was current is left, and perhaps deleted.
pub append_version : {F : Type 0} → Version → VersionSet F → VersionSet F
append_version v vs = record vs { current = ref v }

pub mark_file_number_used : {F : Type 0} → ℕ → VersionSet F → VersionSet F
mark_file_number_used number vs =
    if leb vs.next_file_number number
    then record vs { next_file_number = (number + 1) % 2 ^ 64 }
    else vs

pub new_file_number : {F : Type 0} → VersionSet F → ℕ × VersionSet F
new_file_number vs =
    (vs.next_file_number, record vs { next_file_number = (vs.next_file_number + 1) % 2 ^ 64 })

pub set_sequence : {F : Type 0} → ℕ → VersionSet F → VersionSet F
set_sequence s vs = record vs { last_sequence = s }

-- What `LogAndApply` sets in the edit.
pub complete : {F : Type 0} → VersionSet F → VersionEdit → VersionEdit
complete vs edit =
    let edit1 = if edit.has_log_number then edit else set_log_number vs.log_number edit in
    let edit2 =
      if edit1.has_prev_log_number then edit1 else set_prev_log_number vs.prev_log_number edit1 in
    set_last_sequence vs.last_sequence (set_next_file vs.next_file_number edit2)

-- The loops of `writeSnapshot`: over the files of a level, and over the levels.
pub add_files : ℕ → List FileMetaData → VersionEdit → VersionEdit
add_files level [] edit = edit
add_files level (f ∷ files) edit = add_files level files (add_file level f edit)

pub add_levels : ℕ → ℕ → Version → VersionEdit → VersionEdit
add_levels zero level v edit = edit
add_levels (suc left) level v edit =
    add_levels left (level + 1) v (add_files level (v.files level) edit)

pub snapshot : Version → VersionEdit
snapshot v = add_levels num_levels 0 v new_edit

module _ (w : WritableFile) where
  pub write_snapshot : Version → Writer w.State → Result (Status × Writer w.State)
  write_snapshot v log = add_record w (encode_to (snapshot v)) log

  module _ (fs : FileSystem w)
      (insert_added : FileMetaData → List FileMetaData → List FileMetaData) where
    -- A status, and what the writer and the file system are left as.
    abbrev pub Written : Type 0
    Written = Status × (Writer w.State × fs.World)

    -- The manifest that is open, or a new one with a snapshot.
    pub open_descriptor : Bytes → VersionSet w.State → fs.World → Result Written
    open_descriptor dbname vs world = elim vs.descriptor [
      | some log ↦ ok (status_ok, (log, world))
      | none ↦
          let (opened, (file, world')) =
            new_writable_file w fs (descriptor_file_name dbname vs.manifest_file_number) world in
          let log : Writer w.State = record { dest = file; block_offset = 0 } in
          if is_ok opened
          then (write_snapshot vs.current log >>= λ r. ok (r.0, (r.1, world')))
          else ok (opened, (log, world'))
    ]

    -- `AddRecord` and `Sync`.
    pub log_edit : VersionEdit → Written → Result Written
    log_edit edit (status, (log, world)) =
        let run = add_record w (encode_to edit) log in
        if is_ok status
        then (run >>= λ r.
            (let (synced, file) = w.sync r.1.dest in
              ok (
                if is_ok r.0
                then (synced, (record { dest = file; block_offset = r.1.block_offset }, world))
                else (r.0, (r.1, world)))))
        else ok (status, (log, world))

    pub name_current : Bytes → ℕ → Written → Written
    name_current dbname number (status, (log, world)) =
        let (named, world') = set_current_file w fs dbname number world in
        if is_ok status then (named, (log, world')) else (status, (log, world))

    -- The end of `LogAndApply`: the new version, or what is done when a step has failed.
    pub conclude :
        Bytes
        → VersionEdit
        → Version
        → VersionSet w.State
        → Written
        → Status × (VersionSet w.State × fs.World)
    conclude dbname edit v vs (status, (log, world)) =
        let (deleted, world') =
          delete_file w fs (descriptor_file_name dbname vs.manifest_file_number) world in
        let logged : VersionSet w.State = record vs { descriptor = some log } in
        if is_ok status
        then (
          status,
          (
            record (append_version v logged) {
              log_number = edit.log_number;
              prev_log_number = edit.prev_log_number;
            },
            world,
          ),
        )
        else (deleted, (record vs { descriptor = none }, world'))

    -- The reference that the builder takes of the current version is not given back.
    pub log_and_apply :
        Bytes
        → VersionEdit
        → VersionSet w.State
        → fs.World
        → Result (Status × (VersionSet w.State × fs.World))
    log_and_apply dbname edit vs world = do
      let edit' = complete vs edit
      let held : VersionSet w.State = record vs { current = ref vs.current }
      builder ← apply insert_added edit' (new_builder held.current)
      opened ← open_descriptor dbname held world
      logged ← log_edit edit' opened
      ok (
          conclude dbname edit' (save_to builder new_version) held
            (name_current dbname held.manifest_file_number logged))
