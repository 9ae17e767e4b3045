-- ===== src/SsTable/Builder/Writing.antt =====
-- What the builder of a table writes, when the data fits one block and no write fails.
use am_kv.Prelude.{
  ℕ, ◌+◌, ◌%◌, ◌^◌, ◌<◌, ◌≤◌, ◌≡◌, refl, arith, true, false, [], ◌++◌, Bytes, append_assoc,
  append-nil, length, is_empty, lt→leb_false,
}
use am_kv.Codec.{encode_bytes}
use am_kv.Status.{Status, status_ok}
use am_kv.WritableFile.{WritableFile, Laws, Reliable}
use am_kv.Block.{
  BlockBuilder, BlockHandler, new_block_handler, block_add, reset, build, builder_size,
  builder_empty, encode_handler,
}
use am_kv.SsTable.Builder.{
  BuilderRep, crc32, filter_key, write_crc, write_raw_block, write_block, flush_end, flush_data,
  flush, index_entry, add, finish_filter, finish_meta_index, finish_index, finish_footer,
}

abbrev pub builder_of : ℕ → Bytes → BlockBuilder
builder_of n buffer = record { counter = n; finished = false; buffer = buffer; last_key = [] }

module _ (w : WritableFile) where
  -- A block and its five bytes.
  abbrev pub put_block : Bytes → w.State → w.State
  put_block b f = (w.append crc32 (w.append b f).1).1

  -- The builder before its first flush, and behind it.
  abbrev pub filling : w.State → Bytes → ℕ → Bytes → Bytes → BuilderRep w.State
  filling f lk n entries keys = record {
    file = f;
    last_key = lk;
    offset = 0;
    status = status_ok;
    pending_handle = new_block_handler;
    pending_index_entry = false;
    data_block = builder_of n entries;
    filter_block = builder_of n keys;
    meta_index_block = builder_of 0 [];
    index_block = builder_of 0 [];
    footer_block = builder_of 0 [];
  }

  abbrev pub flushed : w.State → Status → Bytes → ℕ → ℕ → Bytes → BuilderRep w.State
  flushed f status lk n size keys = record {
    file = f;
    last_key = lk;
    offset = size + 5;
    status = status;
    pending_handle = record { offset = 0; size = size };
    pending_index_entry = true;
    data_block = builder_of 0 [];
    filter_block = builder_of n keys;
    meta_index_block = builder_of 0 [];
    index_block = builder_of 0 [];
    footer_block = builder_of 0 [];
  }

  pub add-filling :
      (f : w.State) (lk key value : Bytes) (n : ℕ) (entries keys : Bytes)
      → length ((entries ++ encode_bytes key) ++ encode_bytes value) < 4096
      → add w key value (filling f lk n entries keys)
        ≡ filling f key
            ((n + 1) % 2 ^ 64)
            ((entries ++ encode_bytes key) ++ encode_bytes value)
            (keys ++ key)
  unfolding add index_entry block_add builder_size
  add-filling f lk key value n entries keys h = rw (
    lt→leb_false 4096 (length ((entries ++ encode_bytes key) ++ encode_bytes value)) h,
    append-nil (keys ++ key),
  )

  module _ (laws : Laws w) where
    open_room : w.State → ℕ
    open_room f = laws.room f

    pub room-put_block :
        (b : Bytes) (f : w.State)
        → length b + 5 ≤ laws.room f
        → laws.room (put_block b f) + (length b + 5) ≡ laws.room f
    room-put_block b f h =
        let r = laws.room_append b f (omega arith) in
        omega (arith, laws.room_append crc32 (w.append b f).1 (omega arith))

    pub put_block-IsHealthy :
        (sure : Reliable w laws) (b : Bytes) (f : w.State)
        → length b + 5 ≤ laws.room f
        → sure.IsHealthy f
        → sure.IsHealthy (put_block b f)
    put_block-IsHealthy sure b f h healthy =
        sure.append_keeps crc32 (w.append b f).1 (omega (arith, laws.room_append b f (omega arith)))
          (sure.append_keeps b f (omega arith) healthy)

    pub contents-put_block :
        (b : Bytes) (f : w.State)
        → length b + 5 ≤ laws.room f
        → laws.contents (put_block b f) ≡ laws.contents f ++ (b ++ crc32)
    contents-put_block b f h =
        let r = laws.room_append b f (omega arith) in
        rw (
          laws.contents_append crc32 (w.append b f).1 (omega arith),
          laws.contents_append b f (omega arith),
          append_assoc (laws.contents f) b crc32,
        )

    write_raw_block_lem :
        (b : Bytes) (rep : BuilderRep w.State)
        → length b + 5 ≤ laws.room rep.file
        → rep.offset + (length b + 5) < 2 ^ 64
        → write_raw_block w b rep ≡ (
          record { offset = rep.offset; size = length b },
          record rep {
            file = put_block b rep.file;
            status = status_ok;
            offset = rep.offset + (length b + 5);
          },
        )
    unfolding write_raw_block write_crc
    write_raw_block_lem b rep h small =
        let r = laws.room_append b rep.file (omega arith) in
        let m : (rep.offset + (length b + 5)) % 2 ^ 64 ≡ rep.offset + (length b + 5) =
          omega arith in
        rw (
          laws.append_ok b rep.file (omega arith),
          laws.append_ok crc32 (w.append b rep.file).1 (omega arith),
          m,
        )

    pub flush-filling :
        (f : w.State) (lk : Bytes) (n : ℕ) (entries keys : Bytes)
        → is_empty entries ≡ false
        → length entries + 5 ≤ laws.room f
        → length entries < 2 ^ 32
        → flush w (filling f lk n entries keys)
          ≡ flushed
              (w.flush (put_block entries f)).1
              (w.flush (put_block entries f)).0
              lk
              n
              (length entries)
              keys
    unfolding flush flush_data flush_end write_block builder_empty build reset
    flush-filling f lk n entries keys some_data h small =
        let z : 0 + (length entries + 5) ≡ length entries + 5 = omega arith in
        rw (some_data, write_raw_block_lem entries (filling f lk n entries keys) h (omega arith), z)
          refl

    -- The builder behind a block that it wrote, and the block's handler.
    abbrev pub after : Bytes → BuilderRep w.State → BuilderRep w.State
    after b rep = record rep {
      file = put_block b rep.file;
      status = status_ok;
      offset = rep.offset + (length b + 5);
    }

    abbrev pub handler_of : Bytes → BuilderRep w.State → BlockHandler
    handler_of b rep = record { offset = rep.offset; size = length b }

    -- There is room for a block, in the file and in the word that counts.
    abbrev pub Fits : Bytes → BuilderRep w.State → Type 0
    Fits b rep = (length b + 5 ≤ laws.room rep.file) × (rep.offset + (length b + 5) < 2 ^ 64)

    pub finish_filter_lem :
        (rep : BuilderRep w.State)
        → Fits rep.filter_block.buffer rep
        → finish_filter w rep ≡ (
          handler_of rep.filter_block.buffer rep,
          record (after rep.filter_block.buffer rep) { filter_block = builder_of 0 [] },
        )
    unfolding finish_filter write_block build reset
    finish_filter_lem rep h = rw (write_raw_block_lem rep.filter_block.buffer rep h.0 h.1) refl

    pub finish_meta_index_lem :
        (fh : BlockHandler) (rep : BuilderRep w.State)
        → Fits ((rep.meta_index_block.buffer ++ filter_key) ++ encode_handler fh) rep
        → finish_meta_index w (fh, rep) ≡ (
          handler_of ((rep.meta_index_block.buffer ++ filter_key) ++ encode_handler fh) rep,
          record (after ((rep.meta_index_block.buffer ++ filter_key) ++ encode_handler fh) rep) {
            meta_index_block = builder_of 0 [];
          },
        )
    unfolding finish_meta_index write_block build reset block_add
    finish_meta_index_lem fh rep h =
        rw
          (write_raw_block_lem ((rep.meta_index_block.buffer ++ filter_key) ++ encode_handler fh)
            rep h.0 h.1)
          refl

    index_entry_lem :
        (rep : BuilderRep w.State)
        → rep.pending_index_entry ≡ true
        → index_entry w rep
          ≡ block_add rep.last_key (encode_handler rep.pending_handle) rep.index_block
    unfolding index_entry
    index_entry_lem rep pending = simp pending

    pub finish_index_lem :
        (rep : BuilderRep w.State)
        → rep.pending_index_entry ≡ true
        → Fits ((rep.index_block.buffer ++ rep.last_key) ++ encode_handler rep.pending_handle) rep
        → finish_index w rep ≡ (
          handler_of
              ((rep.index_block.buffer ++ rep.last_key) ++ encode_handler rep.pending_handle)
              rep,
          record (after
              ((rep.index_block.buffer ++ rep.last_key) ++ encode_handler rep.pending_handle)
              rep) { index_block = builder_of 0 []; pending_index_entry = false },
        )
    unfolding finish_index write_block build reset block_add
    finish_index_lem rep pending h =
        rw
          (
            index_entry_lem rep pending,
            write_raw_block_lem
                ((rep.index_block.buffer ++ rep.last_key) ++ encode_handler rep.pending_handle) rep
                h.0 h.1,
          )
          refl

    pub finish_footer_lem :
        (mh ih : BlockHandler) (rep : BuilderRep w.State)
        → Fits ((rep.footer_block.buffer ++ (encode_handler mh ++ encode_handler ih)) ++ []) rep
        → (finish_footer w mh (ih, rep)).file
          ≡ put_block
              ((rep.footer_block.buffer ++ (encode_handler mh ++ encode_handler ih)) ++ [])
              rep.file
    unfolding finish_footer write_block build reset block_add
    finish_footer_lem mh ih rep h =
        rw
          (
            finish_footer,
            write_raw_block_lem
                ((rep.footer_block.buffer ++ (encode_handler mh ++ encode_handler ih)) ++ []) rep
                h.0 h.1,
          )
          refl
