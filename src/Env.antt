-- ===== src/Env.antt =====
-- amkv/comm/env.cc, amkv/util/file.cc and amkv/lsm/current.h: what is done with whole files. The file
-- system is a parameter: it makes a file for writing, `::unlink` and `std::rename` may fail, and `list` is
-- the `ListDir` of amkv/util/dirname.cc.
mod Current
mod Examples
use am_kv.Prelude.{ℕ, ◌==◌, if◌then◌else◌, Bool, List, [], ◌∷◌, ◌++◌, Bytes, Option, none, some}
use am_kv.Status.{Status, ErrorCode, make_status, status_ok, is_ok}
use am_kv.FileName.{temp_file_name, descriptor_file_name, current_file_name}
use am_kv.WritableFile.{WritableFile, and_then}

pub record FileSystem (w : WritableFile) : Type 1 where
  pub World : Type 0
  pub create : Bytes → World → w.State × World
  pub unlink : Bytes → World → Bool × World
  pub rename : Bytes → Bytes → World → Bool × World
  pub list : Bytes → World → List Bytes

-- What is behind the first such character, or everything.
pub after_first : ℕ → Bytes → Option Bytes
after_first c [] = none
after_first c (x ∷ xs) = let rest = after_first c xs in if x == c then some xs else rest

-- `manifest.substr(manifest.find("/") + 1)`.
pub without_directory : Bytes → Bytes
without_directory name = elim (after_first 47 name) [ none ↦ name | some rest ↦ rest ]

-- What `SetCurrentFile` writes.
pub manifest_name : Bytes → ℕ → Bytes
manifest_name dbname number = without_directory (descriptor_file_name dbname number)

-- `std::format("{}/{}", dbname, current)` of VersionSet::Recover.
pub manifest_path : Bytes → Bytes → Bytes
manifest_path dbname current = dbname ++ (47 ∷ current)

module _ (w : WritableFile) (fs : FileSystem w) where
  -- The status of `Open` is not read.
  unfoldable pub new_writable_file : Bytes → fs.World → Status × (w.State × fs.World)
  new_writable_file filename world = (status_ok, fs.create filename world)

  unfoldable pub delete_file : Bytes → fs.World → Status × fs.World
  delete_file filename world =
      let (done, world') = fs.unlink filename world in
      (if done then status_ok else make_status ErrorCode.file_error "Delete File failed", world')

  pub rename_file : Bytes → Bytes → fs.World → Status × fs.World
  rename_file from to world =
      let (done, world') = fs.rename from to world in
      (if done then status_ok else make_status ErrorCode.file_error "Rename File failed", world')

  pub write_string_to_file_sync : Bytes → Bytes → fs.World → Status × fs.World
  write_string_to_file_sync filename data_in world =
      let (opened, (file, world1)) = new_writable_file filename world in
      let (status, _) = and_then (and_then (w.append data_in file) w.sync) w.close in
      if is_ok opened
      then (if is_ok status then (status, world1) else (status, (delete_file filename world1).1))
      else (opened, world1)

  pub set_current_file : Bytes → ℕ → fs.World → Status × fs.World
  set_current_file dbname number world =
      let tmp_file = temp_file_name dbname number in
      let (status, world') =
        and_then (write_string_to_file_sync tmp_file (manifest_name dbname number) world)
          (rename_file tmp_file (current_file_name dbname)) in
      (status, if is_ok status then world' else (delete_file tmp_file world').1)
