-- ===== src/SsTable/Builder.antt =====
-- amkv/lsm/sstable_builder.h and .cc, sstable_rep.h: writing a table, block by block.
pub mod Writing
pub mod Finishing
use am_kv.Prelude.{
  ◌*◌, ℕ, ◌+◌, ◌%◌, ◌^◌, Bool, true, false, Bytes, [], ◌∷◌, ◌++◌, length, leb, if◌then◌else◌,
}
use am_kv.Codec.{encode_bytes}
use am_kv.Status.{Status, status_ok, is_ok}
use am_kv.WritableFile.{WritableFile}
use am_kv.Block.{
  BlockBuilder, new_block_builder, block_add, reset, build, builder_size, builder_empty,
  BlockHandler, new_block_handler, encode_handler,
}

pub record BuilderRep (F : Type 0) : Type 0 where
  pub file : F
  pub last_key : Bytes
  pub offset : ℕ
  pub status : Status
  pub pending_handle : BlockHandler
  pub pending_index_entry : Bool
  pub data_block : BlockBuilder
  pub filter_block : BlockBuilder
  pub meta_index_block : BlockBuilder
  pub index_block : BlockBuilder
  pub footer_block : BlockBuilder

-- The block builders' counters are set to 0 here; nothing reads them.
unfoldable pub new_builder : {F : Type 0} → F → BuilderRep F
new_builder file = record {
  file = file;
  last_key = [];
  offset = 0;
  status = status_ok;
  pending_handle = new_block_handler;
  pending_index_entry = false;
  data_block = new_block_builder 0 false;
  filter_block = new_block_builder 0 false;
  meta_index_block = new_block_builder 0 false;
  index_block = new_block_builder 0 false;
  footer_block = new_block_builder 0 false;
}

-- The characters of "crc32" and of "filter".
abbrev pub crc32 : Bytes
crc32 = 99 ∷ 114 ∷ 99 ∷ 51 ∷ 50 ∷ []

abbrev pub filter_key : Bytes
filter_key = 102 ∷ 105 ∷ 108 ∷ 116 ∷ 101 ∷ 114 ∷ []

pub file_size : {F : Type 0} → BuilderRep F → ℕ
file_size rep = rep.offset

module _ (w : WritableFile) where
  -- Behind a block that was appended: the five bytes, and the offset if they were appended too.
  write_crc : ℕ → BuilderRep w.State → BuilderRep w.State
  write_crc n rep =
      let (status, file) = w.append crc32 rep.file in
      record rep {
        file = file;
        status = status;
        offset = if is_ok status then (rep.offset + (n + length crc32)) % 2 ^ 64 else rep.offset;
      }

  pub write_raw_block : Bytes → BuilderRep w.State → BlockHandler × BuilderRep w.State
  unfolding write_crc
  write_raw_block block_content rep =
      let (status, file) = w.append block_content rep.file in
      let appended = record rep { file = file; status = status } in
      (
        record { offset = rep.offset; size = length block_content },
        if is_ok status then write_crc (length block_content) appended else appended,
      )

  -- The block is a field of `rep`: what it is afterwards comes first, for the caller to put back.
  pub write_block :
      BlockBuilder → BuilderRep w.State → BlockBuilder × (BlockHandler × BuilderRep w.State)
  write_block block rep = let (raw, built) = build block in (reset built, write_raw_block raw rep)

  -- Behind the data block that `flush` wrote.
  flush_end : BuilderRep w.State → BuilderRep w.State
  flush_end rep =
      let (status, file) = w.flush rep.file in
      if is_ok rep.status
      then record rep { pending_index_entry = true; file = file; status = status }
      else rep

  flush_data : BuilderRep w.State → BuilderRep w.State
  unfolding flush_end
  flush_data rep =
      let (block, (handle, written)) = write_block rep.data_block rep in
      flush_end (record written { data_block = block; pending_handle = handle })

  pub flush : BuilderRep w.State → BuilderRep w.State
  unfolding flush_data
  flush rep =
      if is_ok rep.status then if builder_empty rep.data_block then rep else flush_data rep else rep

  -- The entry that `pending_index_entry` announces.
  index_entry : BuilderRep w.State → BlockBuilder
  index_entry rep =
      if rep.pending_index_entry
      then block_add rep.last_key (encode_handler rep.pending_handle) rep.index_block
      else rep.index_block

  pub add : Bytes → Bytes → BuilderRep w.State → BuilderRep w.State
  unfolding index_entry
  add key value rep =
      let added = record rep {
        data_block = block_add (encode_bytes key) (encode_bytes value) rep.data_block;
        index_block = index_entry rep;
        filter_block = block_add key [] rep.filter_block;
        last_key = key;
      } in
      if leb (4 * 1024) (builder_size added.data_block) then flush added else added

  -- The steps of `Finish`: each writes a block, and gives its handle.
  pub finish_filter : BuilderRep w.State → BlockHandler × BuilderRep w.State
  finish_filter rep =
      let (block, (handle, written)) = write_block rep.filter_block rep in
      (handle, record written { filter_block = block })

  pub finish_meta_index : BlockHandler × BuilderRep w.State → BlockHandler × BuilderRep w.State
  finish_meta_index (filter_handle, rep) =
      let (block, (handle, written)) =
        write_block (block_add filter_key (encode_handler filter_handle) rep.meta_index_block)
          rep in
      (handle, record written { meta_index_block = block })

  pub finish_index : BuilderRep w.State → BlockHandler × BuilderRep w.State
  unfolding index_entry
  finish_index rep =
      let (block, (handle, written)) = write_block (index_entry rep) rep in
      (handle, record written { index_block = block; pending_index_entry = false })

  pub finish_footer : BlockHandler → BlockHandler × BuilderRep w.State → BuilderRep w.State
  finish_footer meta_handle (index_handle, rep) =
      let (block, (_, written)) =
        write_block
          (block_add (encode_handler meta_handle ++ encode_handler index_handle) []
            rep.footer_block)
          rep in
      record written { footer_block = block }

  finish_blocks : BlockHandler × BuilderRep w.State → BuilderRep w.State
  finish_blocks (meta_handle, rep) = finish_footer meta_handle (finish_index rep)

  pub finish : BuilderRep w.State → Status × BuilderRep w.State
  finish rep =
      let finished = finish_blocks (finish_meta_index (finish_filter (flush rep))) in
      (status_ok, record finished { status = status_ok })
