-- ===== src/VersionSet/Applying.antt =====
-- `LogAndApply` on every branch: the edit is recorded and applied, or the version set is as it was.
use am_kv.Prelude.{ℕ, ◌++◌, ◌≡◌, true, List, Bytes, Option, none, some, ok}
use am_kv.Env.{FileSystem, delete_file, set_current_file}
use am_kv.FileName.{descriptor_file_name}
use am_kv.Log.Writer.{Writer}
use am_kv.Log.Layout.{layout}
use am_kv.Log.Writing.{IsReady}
use am_kv.Status.{Status, is_ok}
use am_kv.Version.{ref, new_version}
use am_kv.Version.Builder.{Builder, new_builder, apply, save_to}
use am_kv.VersionEdit.{FileMetaData, VersionEdit, encode_to}
use am_kv.VersionSet.{VersionSet, Written, complete, snapshot}
use am_kv.WritableFile.{WritableFile, Laws, Syncs, buffer_size}

module _ (w : WritableFile) (laws : Laws w) (syncs : Syncs w laws) (fs : FileSystem w)
    (insert_added : FileMetaData → List FileMetaData → List FileMetaData) where
  -- The log of an open manifest stands at the end of what it has written.
  abbrev pub IsLogReady : Option (Writer w.State) → Type 0
  IsLogReady none = Unit
  IsLogReady (some log) = IsReady w laws log

  -- A new file has an empty buffer.
  abbrev pub MakesEmptyFiles : Type 0
  MakesEmptyFiles =
      (name : Bytes) (world : fs.World) → laws.room (fs.create name world).0 ≡ buffer_size

  abbrev pub Answer : Type 0
  Answer = Status × (VersionSet w.State × fs.World)

  -- The manifest in front of the edit: where its last block ends, what it holds, and the world. A new
  -- one begins with a snapshot.
  abbrev pub Before : Type 0
  Before = ℕ × (Bytes × fs.World)

  abbrev pub begun : Bytes → VersionSet w.State → fs.World → Option (Writer w.State) → Before
  begun dbname vs world (some log) = (log.block_offset, (laws.contents log.dest, world))
  begun dbname vs world none =
      let (file, world') = fs.create (descriptor_file_name dbname vs.manifest_file_number) world in
      let record_of = encode_to (snapshot (ref vs.current)) in
      ((layout 0 record_of).next, (laws.contents file ++ (layout 0 record_of).bytes, world'))

  abbrev pub before : Bytes → VersionSet w.State → fs.World → Before
  before dbname vs world = begun dbname vs world vs.descriptor

  -- Success: the edit's record is stored behind what the manifest held, CURRENT has been set after that,
  -- and the version that the builder has saved is current, with the edit's numbers.
  pub record Applied (dbname : Bytes) (edit : VersionEdit) (vs : VersionSet w.State)
      (world : fs.World) (r : Answer) : Type 0 where
    pub succeeds : is_ok r.0 ≡ true
    pub log : Writer w.State
    pub descriptor : r.1.0.descriptor ≡ some log
    pub recorded :
        syncs.stored log.dest
        ≡ (before dbname vs world).1.0
          ++ (layout (before dbname vs world).0 (encode_to (complete vs edit))).bytes
    pub named :
        is_ok (set_current_file w fs dbname vs.manifest_file_number (before dbname vs world).1.1).0
        ≡ true
    pub leaves :
        r.1.1
        ≡ (set_current_file w fs dbname vs.manifest_file_number (before dbname vs world).1.1).1
    pub builder : Builder
    pub built : apply insert_added (complete vs edit) (new_builder (ref vs.current)) ≡ ok builder
    pub current : r.1.0.current ≡ ref (save_to builder new_version)
    pub log_number : r.1.0.log_number ≡ (complete vs edit).log_number
    pub prev_log_number : r.1.0.prev_log_number ≡ (complete vs edit).prev_log_number

  -- Failure: nothing but the log of the manifest is changed, and what is answered is whether the
  -- manifest could be deleted.
  pub record Abandoned (dbname : Bytes) (vs : VersionSet w.State) (r : Answer) : Type 0 where
    pub unchanged : r.1.0 ≡ record vs { current = ref vs.current; descriptor = none }
    pub world : fs.World
    pub answers :
        r.0 ≡ (delete_file w fs (descriptor_file_name dbname vs.manifest_file_number) world).0

  -- After a successful step: the manifest holds this, and the world is this.
  abbrev LogStands : Before → Written w fs insert_added → Type 0
  LogStands b t =
      is_ok t.0 ≡ true
      → (IsReady w laws t.1.0)
        × (t.1.0.block_offset ≡ b.0)
        × (laws.contents t.1.0.dest ≡ b.1.0)
        × (t.1.1 ≡ b.1.1)

  abbrev IsRecorded : Before → VersionEdit → Written w fs insert_added → Type 0
  IsRecorded b edit t =
      is_ok t.0 ≡ true
      → (syncs.stored t.1.0.dest ≡ b.1.0 ++ (layout b.0 (encode_to edit)).bytes) × (t.1.1 ≡ b.1.1)
