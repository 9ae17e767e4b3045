-- ===== src/Db/Rooms.antt =====
-- When `makeRoomForWrite` ends.
use am_kv.Prelude.{
  ℕ, zero, suc, ◌≡◌, refl, Bool, true, false, not, ◌&&◌, leb, List, some, ok, fault, no_fuel,
}
use am_kv.Db.{Db, max_usage, make_room}
use am_kv.Env.{FileSystem}
use am_kv.MemTable.Table.{MemTable, usage}
use am_kv.VersionEdit.{FileMetaData}
use am_kv.WritableFile.{WritableFile}

module _ (w : WritableFile) (fs : FileSystem w)
    (insert_added : FileMetaData → List FileMetaData → List FileMetaData) where
  -- When room is needed and the memtable before has not been given up, as after a compaction that
  -- failed, `makeRoomForWrite` never ends: no number of rounds is enough.
  pub make_room-waits :
      (fuel address : ℕ) (force : Bool) (db : Db w.State) (world : fs.World) (imm : MemTable)
      → (not force && leb (usage db.mem) max_usage) ≡ false
      → db.imm ≡ some imm
      → make_room w fs insert_added fuel force address db world ≡ fault no_fuel
  unfolding make_room
  make_room-waits zero address force db world imm full waiting = refl
  make_room-waits (suc fuel) address force db world imm full waiting =
      rw (full, waiting) (make_room-waits fuel address force db world imm full waiting)

  -- Where there is room, the database is left as it is.
  pub make_room-room :
      (fuel address : ℕ) (db : Db w.State) (world : fs.World)
      → leb (usage db.mem) max_usage ≡ true
      → make_room w fs insert_added (suc fuel) false address db world ≡ ok (db, world)
  unfolding make_room
  make_room-room fuel address db world room = rw room
