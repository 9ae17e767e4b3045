-- ===== src/Version.antt =====
-- amkv/lsm/version.h and version.cc: the files of each level, in the order of their vector. An array
-- of `kNumLevels` is a function of the index; an index beyond it is a fault. `Builder` is the
-- class of version_set.cc that makes a version from another and edits.
pub mod Builder
use am_kv.Prelude.{
  ℕ, zero, suc, ◌+◌, ◌==◌, ◌-◌, ◌%◌, ◌^◌, Bool, true, false, not, ◌&&◌, List, [], ◌∷◌, Bytes, ltb,
  if◌then◌else◌, bytes_le,
}
use am_kv.VersionEdit.{FileMetaData}
use am_kv.DbFormat.{num_levels}

pub record Version : Type 0 where
  pub refs : ℕ
  pub files : ℕ → List FileMetaData

pub new_version : Version
new_version = record { refs = 0; files = λ _. [] }

pub ref : Version → Version
ref v = record v { refs = (v.refs + 1) % 2 ^ 64 }

-- Whether the version is deleted, and the version.
pub unref : Version → Bool × Version
unref v = let v' = record v { refs = (v.refs + 2 ^ 64 - 1) % 2 ^ 64 } in (v'.refs == 0, v')

-- The files of one level, from the front: the last whose range holds the key is left in `meta`.
level_overlap : Bytes → List FileMetaData → FileMetaData → FileMetaData
level_overlap internal_key [] meta = meta
level_overlap internal_key (f ∷ fs) meta =
    level_overlap internal_key fs
      (if bytes_le f.smallest internal_key && bytes_le internal_key f.largest then f else meta)

levels_overlap : Bytes → (ℕ → List FileMetaData) → ℕ → ℕ → FileMetaData → FileMetaData
unfolding level_overlap
levels_overlap internal_key files zero level meta = meta
levels_overlap internal_key files (suc left) level meta =
    levels_overlap internal_key files left (level + 1)
      (level_overlap internal_key (files level) meta)

pub for_each_overlapping : Bytes → Version → FileMetaData → FileMetaData
unfolding levels_overlap
for_each_overlapping internal_key v meta = levels_overlap internal_key v.files num_levels 0 meta
