-- ===== src/Version/Builder/Examples.antt =====
-- An edit that deletes two files of level 1 and adds one of them again.
use am_kv.Prelude.{◌≡◌, arith, ◌∷◌, [], ◌++◌, not, ◌&&◌, ◌||◌, Returns}
use am_kv.VersionEdit.{FileMetaData, VersionEdit, new_edit}
use am_kv.Version.{Version, new_version}
use am_kv.Version.Builder.{Builder, new_builder, save_to, apply}
use am_kv.Version.Builder.Saving.{
  kept, adds, deletes, is_deleted, added_at, save_to-kept, apply-Returns,
}

abbrev file_seven : FileMetaData
file_seven = record { refs = 0; number = 7; file_size = 10; smallest = 97 ∷ []; largest = 99 ∷ [] }

abbrev file_eight : FileMetaData
file_eight = record { refs = 0; number = 8; file_size = 12; smallest = 98 ∷ []; largest = 99 ∷ [] }

abbrev two_files : Version
two_files = record { refs = 1; files = λ _. file_seven ∷ file_eight ∷ [] }

abbrev an_edit : VersionEdit
an_edit = record new_edit { new_files = (1, file_seven) ∷ []; deleted_files = (1, 7) ∷ (1, 8) ∷ [] }

abbrev a_builder : Builder
a_builder = record {
  base = two_files;
  levels = λ _. record { deleted_files = 8 ∷ []; added_files = file_seven ∷ [] };
}

save_to-kept_example :
    (save_to a_builder new_version).files 1
    ≡ new_version.files 1
      ++ kept
          (a_builder.levels 1).deleted_files
          (a_builder.base.files 1 ++ (a_builder.levels 1).added_files)
save_to-kept_example = save_to-kept a_builder new_version 1 (omega arith)

apply-Returns_example :
    Returns
      (λ b'.
        (is_deleted 1 7 b' ≡ (
          not (adds 1 7 an_edit.new_files)
          && (deletes 1 7 an_edit.deleted_files || is_deleted 1 7 (new_builder two_files))))
        × ((b'.levels 1).added_files
            ≡ added_at
                (λ f fs. f ∷ fs)
                1
                an_edit.new_files
                ((new_builder two_files).levels 1).added_files))
      (apply (λ f fs. f ∷ fs) an_edit (new_builder two_files))
apply-Returns_example =
    apply-Returns (λ f fs. f ∷ fs) 1 7 an_edit (new_builder two_files)
      (omega arith, (omega arith, tt)) (omega arith, tt)
