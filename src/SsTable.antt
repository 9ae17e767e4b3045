-- ===== src/SsTable.antt =====
-- amkv/lsm/sstable.cc: `Put` writes the memtable's entries to a table, `Get` looks a key up in one.
pub mod Builder
pub mod Resolver
pub mod Layout
pub mod Looking
pub mod RoundTrip
mod Examples
use am_kv.Prelude.{ℕ, ◌+◌, Bytes, List, [], ◌∷◌, length, Result, ok, fault, failed_assertion, ◌>>=◌}
use am_kv.Status.{Status, is_ok}
use am_kv.WritableFile.{WritableFile, and_then}
use am_kv.VersionEdit.{FileMetaData}
use am_kv.AccessFile.{PosixAccessFile, read_at}
use am_kv.Block.{new_block_iterator, seek_to_first, seek, value}
use am_kv.SsTable.Builder.{BuilderRep, new_builder, add, finish, file_size}
use am_kv.SsTable.Resolver.{ResolverRep, resolve}

-- `Get` on an opened file. A look-up that takes more rounds than the block has bytes does not end.
unfoldable pub get : PosixAccessFile → Bytes → Result (Status × Bytes)
get file key = do
  (_, rep) ← resolve file
  (status, content) ← read_at file rep.data_block_handler.offset rep.data_block_handler.size
  found ← seek (length content + 1) key (seek_to_first (new_block_iterator content))
  out ← value found
  ok (status, out)

module _ (w : WritableFile) where
  -- The loop of `Put` over the keys and values that the memtable's iterator shows.
  put_loop :
      List (Bytes × Bytes) → BuilderRep w.State → FileMetaData → BuilderRep w.State × FileMetaData
  put_loop [] rep meta = (rep, meta)
  put_loop ((key, value) ∷ entries) rep meta =
      put_loop entries (add w key value rep) (record meta { largest = key })

  -- `Finish`, the file's size, `Sync` and `Close`.
  put_end : BuilderRep w.State × FileMetaData → Status × (w.State × FileMetaData)
  put_end (rep, meta) =
      let (status, finished) = finish w rep in
      let (status', file) = and_then (and_then (status, finished.file) w.sync) w.close in
      (status', (file, record meta { file_size = file_size finished }))

  -- `Put` on an opened file. The iterator of an empty memtable shows no key: the assertion of `Key`
  -- fails.
  pub put :
      List (Bytes × Bytes) → w.State → FileMetaData → Result (Status × (w.State × FileMetaData))
  unfolding put_loop put_end
  put [] file meta = fault failed_assertion
  put ((key, value) ∷ entries) file meta = ok (
      put_end
        (put_loop ((key, value) ∷ entries) (new_builder file) (record meta { smallest = key })))
