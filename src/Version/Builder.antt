-- ===== src/Version/Builder.antt =====
-- amkv/lsm/version_set.cc, class VersionSet::Builder: what edits make of a base version. The set of
-- numbers is a list in ascending order. `BySmallestKey` holds of every two files, which is no
-- order: what `std::set` does with it is left to `insert_added`.
pub mod Saving
mod Examples
use am_kv.Prelude.{
  ℕ, zero, suc, ◌+◌, ◌%◌, ◌^◌, ◌==◌, Bool, true, false, ◌||◌, List, [], ◌∷◌, ◌++◌, ltb,
  if◌then◌else◌, Result, ok, fault, over_read, ◌>>=◌,
}
use am_kv.VersionEdit.{FileMetaData, VersionEdit}
use am_kv.DbFormat.{num_levels}
use am_kv.Version.{Version}

pub record LevelState : Type 0 where
  pub deleted_files : List ℕ
  pub added_files : List FileMetaData

pub record Builder : Type 0 where
  pub base : Version
  pub levels : ℕ → LevelState

pub new_builder : Version → Builder
new_builder base = record {
  base = base;
  levels = λ _. record { deleted_files = []; added_files = [] };
}

-- `insert`, `erase` and `count` of `std::set<uint64_t>`.
pub insert_number : ℕ → List ℕ → List ℕ
insert_number n [] = n ∷ []
insert_number n (m ∷ ms) =
    let rest = insert_number n ms in
    if ltb n m then n ∷ m ∷ ms else if n == m then m ∷ ms else m ∷ rest

pub erase_number : ℕ → List ℕ → List ℕ
erase_number n [] = []
erase_number n (m ∷ ms) = let rest = erase_number n ms in if n == m then rest else m ∷ rest

pub has_number : ℕ → List ℕ → Bool
has_number n [] = false
has_number n (m ∷ ms) = (n == m) || has_number n ms

-- An assignment to an element of the array.
abbrev pub set_level : ℕ → LevelState → (ℕ → LevelState) → ℕ → LevelState
set_level level state levels i = if i == level then state else levels i

delete_number : ℕ → ℕ → Builder → Builder
unfolding insert_number
delete_number level number b =
    let state = b.levels level in
    record b {
      levels =
          set_level level
            (record state { deleted_files = insert_number number state.deleted_files }) b.levels;
    }

-- The loop over the deleted files.
apply_deleted : List (ℕ × ℕ) → Builder → Result Builder
unfolding delete_number
apply_deleted [] b = ok b
apply_deleted ((level, number) ∷ files) b =
    if ltb level num_levels
    then apply_deleted files (delete_number level number b)
    else fault over_read

-- `refs` is an `int` of the file that the versions share: here each version has a copy of the file,
-- and its `refs`, which nothing reads, is taken not to overflow.
maybe_add_file : List ℕ → FileMetaData → List FileMetaData → List FileMetaData
maybe_add_file deleted meta files =
    if has_number meta.number deleted
    then files
    else files ++ (record meta { refs = meta.refs + 1 } ∷ [])

-- The loop that is written twice in `SaveTo`: what is left of the base files.
save_base : List ℕ → List FileMetaData → List FileMetaData → List FileMetaData
unfolding maybe_add_file
save_base deleted [] files = files
save_base deleted (f ∷ base) files = save_base deleted base (maybe_add_file deleted f files)

-- The loop over the added files. The base files are used up in its first round.
save_added : List ℕ → List FileMetaData → List FileMetaData → List FileMetaData → List FileMetaData
unfolding save_base
save_added deleted [] base files = save_base deleted base files
save_added deleted (f ∷ added) base files =
    save_added deleted added [] (maybe_add_file deleted f (save_base deleted base files))

save_level : Builder → (ℕ → List FileMetaData) → ℕ → List FileMetaData
unfolding save_added
save_level b files level =
    let state = b.levels level in
    save_added state.deleted_files state.added_files (b.base.files level) (files level)

-- Each level below `kNumLevels` is saved by itself.
pub save_to : Builder → Version → Version
unfolding save_level
save_to b v = record v {
  files = λ level. if ltb level num_levels then save_level b v.files level else v.files level;
}

module _ (insert_added : FileMetaData → List FileMetaData → List FileMetaData) where
  add_new : ℕ → FileMetaData → Builder → Builder
  unfolding erase_number
  add_new level meta b =
      let state = b.levels level in
      record b {
        levels =
            set_level level
              (record {
                deleted_files = erase_number meta.number state.deleted_files;
                added_files = insert_added meta state.added_files;
              })
              b.levels;
      }

  -- The loop over the new files.
  apply_new : List (ℕ × FileMetaData) → Builder → Result Builder
  unfolding add_new
  apply_new [] b = ok b
  apply_new ((level, meta) ∷ files) b =
      if ltb level num_levels then apply_new files (add_new level meta b) else fault over_read

  pub apply : VersionEdit → Builder → Result Builder
  unfolding apply_new apply_deleted
  apply edit b = apply_deleted edit.deleted_files b >>= apply_new edit.new_files
