-- ===== src/Db/Files.antt =====
-- Which files `removeObsoleteFiles` deletes from a directory.
use am_kv.Prelude.{
  ℕ, ◌^◌, ◌<◌, ◌≡◌, refl, if◌then◌else◌, List, [], ◌∷◌, Bytes, All, some, ap, ◌++◌, Bool-cases, inl,
  inr, ok,
}
use am_kv.Prelude.{Bool, false, not, ltb, ◌==◌, ◌&&◌, arith}
use am_kv.Db.{keep, obsolete_files, delete_files, remove_obsolete_files}
use am_kv.Env.{FileSystem, delete_file}
use am_kv.WritableFile.{WritableFile}
use am_kv.FileName.{
  FileType, log_file_name, table_file_name, temp_file_name, descriptor_file_name, current_file_name,
  lock_name, info_log_name, basename, parse_file_name,
}
use am_kv.FileName.RoundTrip.{
  parse_file_name-basename, parse-lock, parse-info_log, parse-own_directory, parse-parent_directory,
}
use am_kv.VersionSet.{VersionSet}

-- What a directory lists: itself, the one above it, and the files of the database.
pub data Listed : Type 0 where
  own_directory parent_directory : Listed
  db_file : FileType → ℕ → Listed

-- A file without a number is given the number 0 by the parser.
abbrev pub number_of : FileType → ℕ → ℕ
number_of FileType.log_file n = n
number_of FileType.table_file n = n
number_of FileType.temp_file n = n
number_of FileType.descriptor_file n = n
number_of FileType.current_file n = 0
number_of FileType.db_lock_file n = 0
number_of FileType.info_log_file n = 0

abbrev pub name_of : Bytes → FileType → ℕ → Bytes
name_of dbname FileType.log_file n = basename (log_file_name dbname n)
name_of dbname FileType.table_file n = basename (table_file_name dbname n)
name_of dbname FileType.temp_file n = basename (temp_file_name dbname n)
name_of dbname FileType.descriptor_file n = basename (descriptor_file_name dbname n)
name_of dbname FileType.current_file n = basename (current_file_name dbname)
name_of dbname FileType.db_lock_file n = lock_name
name_of dbname FileType.info_log_file n = info_log_name

abbrev pub entry_name : Bytes → Listed → Bytes
entry_name dbname own_directory = 46 ∷ []
entry_name dbname parent_directory = 46 ∷ 46 ∷ []
entry_name dbname (db_file type number) = name_of dbname type number

abbrev pub names : Bytes → List Listed → List Bytes
names dbname [] = []
names dbname (e ∷ es) = entry_name dbname e ∷ names dbname es

abbrev pub NumberFits : Listed → Type 0
NumberFits own_directory = Unit
NumberFits parent_directory = Unit
NumberFits (db_file type number) = number < 2 ^ 63

-- A file that no recovery of this version set reads.
abbrev pub is_stale : {F : Type 0} → VersionSet F → FileType → ℕ → Bool
is_stale versions FileType.log_file n =
    ltb n versions.log_number && not (n == versions.prev_log_number)
is_stale versions FileType.table_file n = false
is_stale versions FileType.temp_file n = false
is_stale versions FileType.descriptor_file n = ltb n versions.manifest_file_number
is_stale versions FileType.current_file n = false
is_stale versions FileType.db_lock_file n = false
is_stale versions FileType.info_log_file n = false

abbrev pub is_stale_entry : {F : Type 0} → VersionSet F → Listed → Bool
is_stale_entry versions own_directory = false
is_stale_entry versions parent_directory = false
is_stale_entry versions (db_file type number) = is_stale versions type number

-- The stale files.
abbrev pub obsolete : {F : Type 0} → VersionSet F → List Listed → List Listed
obsolete versions [] = []
obsolete versions (e ∷ es) =
    if is_stale_entry versions e then e ∷ obsolete versions es else obsolete versions es

parse_file_name-name_of :
    (dbname : Bytes) (type : FileType) (n : ℕ)
    → n < 2 ^ 63
    → parse_file_name (name_of dbname type n) ≡ ok (some (number_of type n, type))
parse_file_name-name_of dbname FileType.log_file n h = (parse_file_name-basename dbname n h).0
parse_file_name-name_of dbname FileType.table_file n h = (parse_file_name-basename dbname n h).1
parse_file_name-name_of dbname FileType.temp_file n h = (parse_file_name-basename dbname n h).3
parse_file_name-name_of dbname FileType.descriptor_file n h =
    (parse_file_name-basename dbname n h).4
parse_file_name-name_of dbname FileType.current_file n h = (parse_file_name-basename dbname n h).5
parse_file_name-name_of dbname FileType.db_lock_file n h = parse-lock
parse_file_name-name_of dbname FileType.info_log_file n h = parse-info_log

keep-is_stale :
    {F : Type 0} (versions : VersionSet F) (type : FileType) (n : ℕ)
    → not (keep versions type (number_of type n)) ≡ is_stale versions type n
unfolding keep
keep-is_stale versions FileType.log_file n = ground arith
keep-is_stale versions FileType.table_file n = refl
keep-is_stale versions FileType.temp_file n = refl
keep-is_stale versions FileType.descriptor_file n = ground arith
keep-is_stale versions FileType.current_file n = refl
keep-is_stale versions FileType.db_lock_file n = refl
keep-is_stale versions FileType.info_log_file n = refl

obsolete_files-names :
    {F : Type 0} (dbname : Bytes) (versions : VersionSet F) (es : List Listed)
    → All NumberFits es
    → obsolete_files versions (names dbname es) ≡ ok (names dbname (obsolete versions es))
unfolding obsolete_files
obsolete_files-names dbname versions [] h = refl
obsolete_files-names dbname versions (own_directory ∷ es) h =
    rw (parse-own_directory, obsolete_files-names dbname versions es h.1)
obsolete_files-names dbname versions (parent_directory ∷ es) h =
    rw (parse-parent_directory, obsolete_files-names dbname versions es h.1)
obsolete_files-names dbname versions (db_file type number ∷ es) h =
    rw
      (
        parse_file_name-name_of dbname type number h.0,
        obsolete_files-names dbname versions es h.1,
        keep-is_stale versions type number,
      )
      (elim (Bool-cases (is_stale versions type number)) [ inl e ↦ rw e | inr e ↦ rw e ])

module _ (w : WritableFile) (fs : FileSystem w) where
  -- `::unlink` of each file, with the directory in front of its name.
  abbrev pub unlinked : Bytes → List Listed → fs.World → fs.World
  unlinked dbname [] world = world
  unlinked dbname (e ∷ es) world =
      unlinked dbname es (fs.unlink (dbname ++ (47 ∷ entry_name dbname e)) world).1

  delete_files-unlinked :
      (dbname : Bytes) (es : List Listed) (world : fs.World)
      → delete_files w fs dbname (names dbname es) world ≡ unlinked dbname es world
  unfolding delete_files delete_file
  delete_files-unlinked dbname [] world = refl
  delete_files-unlinked dbname (e ∷ es) world =
      delete_files-unlinked dbname es (fs.unlink (dbname ++ (47 ∷ entry_name dbname e)) world).1

  -- In a directory that lists files of a database, with numbers below 2 ^ 63, itself and the directory
  -- above it, in any order, `removeObsoleteFiles` unlinks exactly the stale files, one after the other
  -- in that order, and does nothing else, whether an unlinking fails or not: stale are the logs below the
  -- version set's log number but for its previous log, and the manifests below its own. Nothing is thrown.
  pub remove_obsolete_files-unlinked :
      (dbname : Bytes) (versions : VersionSet w.State) (es : List Listed) (world : fs.World)
      → All NumberFits es
      → fs.list dbname world ≡ names dbname es
      → remove_obsolete_files w fs dbname versions world
        ≡ ok (unlinked dbname (obsolete versions es) world)
  unfolding remove_obsolete_files
  remove_obsolete_files-unlinked dbname versions es world h listed =
      rw (listed, obsolete_files-names dbname versions es h)
        (ap ok (delete_files-unlinked dbname (obsolete versions es) world))
