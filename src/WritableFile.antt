-- ===== src/WritableFile.antt =====
-- amkv/util/writable_file.h: the abstract class `WritableFile` as a record of its operations, and
-- what its clients rely on. `Posix` is the implementation of writable_file.cc.
pub mod Posix
use am_kv.Prelude.{ℕ, ◌+◌, ◌≤◌, ◌≡◌, Bool, true, Bytes, ◌++◌, length, if◌then◌else◌}
use am_kv.Status.{Status, status_ok, is_ok}

pub record WritableFile : Type 1 where
  pub State : Type 0
  pub append : Bytes → State → Status × State
  pub flush : State → Status × State
  pub sync : State → Status × State
  pub close : State → Status × State

-- `if (status.Code() == kOk) status = next`.
abbrev pub and_then {ℓ} : {S : Type ℓ} → Status × S → (S → Status × S) → Status × S
and_then (status, s) next = if is_ok status then next s else (status, s)

abbrev pub buffer_size : ℕ
buffer_size = 65536

-- What has been accepted so far, and how much more the file takes before it must write to the device.
pub record Laws (w : WritableFile) : Type 0 where
  pub contents : w.State → Bytes
  pub room : w.State → ℕ
  pub append_ok : (d : Bytes) (f : w.State) → length d ≤ room f → (w.append d f).0 ≡ status_ok
  pub contents_append :
      (d : Bytes) (f : w.State) → length d ≤ room f → contents (w.append d f).1 ≡ contents f ++ d
  pub room_append :
      (d : Bytes) (f : w.State) → length d ≤ room f → room (w.append d f).1 + length d ≡ room f
  pub contents_flush :
      (f : w.State) → is_ok (w.flush f).0 ≡ true → contents (w.flush f).1 ≡ contents f
  pub room_flush : (f : w.State) → is_ok (w.flush f).0 ≡ true → room (w.flush f).1 ≡ buffer_size

-- A condition under which no flush fails.
pub record Reliable (w : WritableFile) (laws : Laws w) : Type 1 where
  pub IsHealthy : w.State → Type 0
  pub append_keeps :
      (d : Bytes) (f : w.State) → length d ≤ laws.room f → IsHealthy f → IsHealthy (w.append d f).1
  pub flush_keeps : (f : w.State) → IsHealthy f → IsHealthy (w.flush f).1
  pub flush_succeeds : (f : w.State) → IsHealthy f → is_ok (w.flush f).0 ≡ true

-- What the device holds, and what a `Sync` that reports success does.
pub record Syncs (w : WritableFile) (laws : Laws w) : Type 0 where
  pub stored : w.State → Bytes
  pub stored_sync :
      (f : w.State) → is_ok (w.sync f).0 ≡ true → stored (w.sync f).1 ≡ laws.contents f
  pub contents_sync :
      (f : w.State) → is_ok (w.sync f).0 ≡ true → laws.contents (w.sync f).1 ≡ laws.contents f
  pub room_sync : (f : w.State) → is_ok (w.sync f).0 ≡ true → laws.room (w.sync f).1 ≡ buffer_size

-- A healthy file is synced and closed with success. A close of a file of which everything is stored
-- changes nothing of that.
pub record SyncsReliably (w : WritableFile) (laws : Laws w) (reliable : Reliable w laws)
    (syncs : Syncs w laws) : Type 0 where
  pub sync_succeeds : (f : w.State) → reliable.IsHealthy f → is_ok (w.sync f).0 ≡ true
  pub sync_keeps : (f : w.State) → reliable.IsHealthy f → reliable.IsHealthy (w.sync f).1
  pub close_succeeds :
      (f : w.State)
      → reliable.IsHealthy f
      → syncs.stored f ≡ laws.contents f
      → is_ok (w.close f).0 ≡ true
  pub stored_close :
      (f : w.State)
      → reliable.IsHealthy f
      → syncs.stored f ≡ laws.contents f
      → syncs.stored (w.close f).1 ≡ syncs.stored f
