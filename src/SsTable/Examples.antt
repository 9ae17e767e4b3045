-- ===== src/SsTable/Examples.antt =====
-- A table of three entries in a file of `Posix`, and look-ups in it.
use am_kv.Prelude.{◌≡◌, refl, arith, ◌∷◌, [], Bytes, List, ok, true, Returns, ◌>>=◌}
use am_kv.Status.{status_ok, is_ok}
use am_kv.WritableFile.Posix.{PosixWritableFile, posix_file}
use am_kv.WritableFile.Posix.Laws.{posix_laws, posix_reliable, posix_syncs, posix_syncs_reliably}
use am_kv.VersionEdit.{FileMetaData}
use am_kv.Block.Seeking.{first_with, value_or_over_read}
use am_kv.SsTable.{get, put}
use am_kv.SsTable.RoundTrip.{mapped_file, get-put}

abbrev table_file : PosixWritableFile
table_file = record {
  filename = "db/000005.sst";
  disk = [];
  buf = [];
  events = [];
  is_open = true;
  close_succeeds = true;
}

abbrev table_entries : List (Bytes × Bytes)
table_entries = (98 ∷ [], 50 ∷ 51 ∷ []) ∷ (99 ∷ [], 52 ∷ []) ∷ []

abbrev no_meta : FileMetaData
no_meta = record { refs = 0; number = 5; file_size = 0; smallest = []; largest = [] }

get-put_example :
    Returns
      (λ r.
        (is_ok r.0 ≡ true)
        × (get (mapped_file (posix_syncs.stored r.1.0)) (98 ∷ []) ≡ (
            value_or_over_read (first_with (98 ∷ []) ((97 ∷ [], 49 ∷ []) ∷ table_entries))
            >>= λ out. ok (status_ok, out))))
      (put posix_file ((97 ∷ [], 49 ∷ []) ∷ table_entries) table_file no_meta)
get-put_example =
    get-put posix_file posix_laws posix_reliable posix_syncs posix_syncs_reliably table_file refl
      (refl, refl) refl (98 ∷ []) (97 ∷ []) (49 ∷ []) table_entries no_meta (omega arith)
