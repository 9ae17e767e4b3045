-- ===== src/SsTable/Builder/Finishing.antt =====
-- The bytes that `Finish` leaves in the file, when the data fits one block and no flush fails.
use am_kv.Prelude.{
  ℕ, ◌+◌, ◌<◌, ◌≡◌, refl, sym, subst, ap, ◌∙◌, arith, false, [], ◌++◌, Bytes, append_assoc,
  append-nil, length, length-append, is_empty,
}
use am_kv.WritableFile.{WritableFile, Laws, Reliable, buffer_size}
use am_kv.Status.{status_ok}
use am_kv.Block.{BlockHandler, encode_handler}
use am_kv.SsTable.Builder.{BuilderRep, crc32, finish_blocks, finish}
use am_kv.SsTable.Builder.Writing.{
  builder_of, put_block, filling, flushed, after, room-put_block, put_block-IsHealthy,
  contents-put_block, flush-filling, finish_filter_lem, finish_meta_index_lem, finish_index_lem,
  finish_footer_lem,
}
use am_kv.SsTable.Layout.{
  handler_at, meta_index_of, meta_handler, footer_of, table_of, length-meta_index,
  length-encode_handler,
}

-- The index block of one entry, and its handler.
abbrev pub index_of : Bytes → Bytes → Bytes
index_of lk entries = lk ++ encode_handler (handler_at 0 entries)

abbrev pub index_handler : Bytes → Bytes → Bytes → BlockHandler
index_handler lk entries keys =
    handler_at (length entries + 5 + (length keys + 5) + (length (meta_index_of entries keys) + 5))
      (index_of lk entries)

pub length-index_of : (lk entries : Bytes) → length (index_of lk entries) ≡ length lk + 16
length-index_of lk entries = omega (
  arith,
  length-append lk (encode_handler (handler_at 0 entries)),
  length-encode_handler (handler_at 0 entries),
)

pub finish-succeeds : (w : WritableFile) (rep : BuilderRep w.State) → (finish w rep).0 ≡ status_ok
unfolding finish
finish-succeeds w rep = refl

module _ (w : WritableFile) (laws : Laws w) (sure : Reliable w laws) (f : w.State)
    (fresh : laws.room f ≡ buffer_size) (healthy : sure.IsHealthy f) (entries keys lk : Bytes)
    (n : ℕ) (some_data : is_empty entries ≡ false) (few : length entries < 4096)
    (few_keys : length keys < 4096) (short : length lk < 4096) where
  abbrev full : w.State
  full = put_block w entries f

  abbrev onto : w.State
  onto = (w.flush full).1

  full-IsHealthy : sure.IsHealthy full
  full-IsHealthy = put_block-IsHealthy w laws sure entries f (omega arith) healthy

  room-onto : laws.room onto ≡ buffer_size
  room-onto = laws.room_flush full (sure.flush_succeeds full full-IsHealthy)

  contents-onto : laws.contents onto ≡ laws.contents f ++ (entries ++ crc32)
  contents-onto =
      laws.contents_flush full (sure.flush_succeeds full full-IsHealthy)
      ∙ contents-put_block w laws entries f (omega arith)

  length-footer : length (footer_of entries keys (index_handler lk entries keys)) ≡ 32
  length-footer = omega (
    arith,
    length-append (encode_handler (meta_handler entries keys))
        (encode_handler (index_handler lk entries keys)),
    length-encode_handler (meta_handler entries keys),
    length-encode_handler (index_handler lk entries keys),
  )

  -- The file behind the filter block, the meta index block and the index block.
  abbrev filtered : w.State
  filtered = put_block w keys onto

  abbrev meta_indexed : w.State
  meta_indexed = put_block w (meta_index_of entries keys) filtered

  abbrev indexed : w.State
  indexed = put_block w (index_of lk entries) meta_indexed

  room-filtered : laws.room filtered + (length keys + 5) ≡ buffer_size
  room-filtered = let r = room-onto in room-put_block w laws keys onto (omega arith) ∙ r

  room-meta_indexed : laws.room meta_indexed + 27 + (length keys + 5) ≡ buffer_size
  room-meta_indexed =
      let r = room-filtered in
      let m = length-meta_index entries keys in
      omega (arith, room-put_block w laws (meta_index_of entries keys) filtered (omega arith))

  room-indexed : laws.room indexed + (length lk + 21) + 27 + (length keys + 5) ≡ buffer_size
  room-indexed =
      let r = room-meta_indexed in
      let m = length-index_of lk entries in
      omega (arith, room-put_block w laws (index_of lk entries) meta_indexed (omega arith))

  finish-file :
      (finish w (filling w f lk n entries keys)).1.file
      ≡ put_block w (footer_of entries keys (index_handler lk entries keys)) indexed
  unfolding finish finish_blocks
  finish-file =
      let r1 = flushed w onto (w.flush full).0 lk n (length entries) keys in
      let r2 = record (after w laws keys r1) { filter_block = builder_of 0 [] } in
      let r3 = record (after w laws (meta_index_of entries keys) r2) {
        meta_index_block = builder_of 0 [];
      } in
      let r4 = record (after w laws (index_of lk entries) r3) {
        index_block = builder_of 0 [];
        pending_index_entry = false;
      } in
      let a = room-onto in
      let b = room-filtered in
      let c = room-meta_indexed in
      let d = room-indexed in
      let lm = length-meta_index entries keys in
      let li = length-index_of lk entries in
      let lf = length-footer in
      let nil = append-nil (footer_of entries keys (index_handler lk entries keys)) in
      let ln = ap length nil in
      rw
        (
          flush-filling w laws f lk n entries keys some_data (omega arith) (omega arith),
          finish_filter_lem w laws r1 (omega arith, omega arith),
          finish_meta_index_lem w laws (handler_at (length entries + 5) keys) r2
              (omega arith, omega arith),
          finish_index_lem w laws r3 refl (omega arith, omega arith),
        )
        (finish_footer_lem w laws (meta_handler entries keys) (index_handler lk entries keys) r4
            (omega arith, omega arith)
          ∙ ap (λ t. put_block w t indexed) nil)

  pub finish-IsHealthy : sure.IsHealthy (finish w (filling w f lk n entries keys)).1.file
  finish-IsHealthy =
      let a = room-onto in
      let b = room-filtered in
      let c = room-meta_indexed in
      let d = room-indexed in
      let lm = length-meta_index entries keys in
      let li = length-index_of lk entries in
      let lf = length-footer in
      let footer = footer_of entries keys (index_handler lk entries keys) in
      subst sure.IsHealthy (sym finish-file) (
        put_block-IsHealthy w laws sure footer indexed (omega arith) (
          put_block-IsHealthy w laws sure (index_of lk entries) meta_indexed (omega arith) (
            put_block-IsHealthy w laws sure (meta_index_of entries keys) filtered (omega arith) (
              put_block-IsHealthy w laws sure keys onto (omega arith)
                (sure.flush_keeps full full-IsHealthy)))))

  -- What `Finish` leaves behind what the file held: the table.
  pub finish-contents :
      laws.contents (finish w (filling w f lk n entries keys)).1.file
      ≡ laws.contents f
        ++ table_of entries keys (index_of lk entries) (index_handler lk entries keys)
  finish-contents =
      let a = room-onto in
      let b = room-filtered in
      let c = room-meta_indexed in
      let d = room-indexed in
      let lm = length-meta_index entries keys in
      let li = length-index_of lk entries in
      let lf = length-footer in
      rw
        (
          finish-file,
          contents-put_block w laws (footer_of entries keys (index_handler lk entries keys)) indexed
              (omega arith),
          contents-put_block w laws (index_of lk entries) meta_indexed (omega arith),
          contents-put_block w laws (meta_index_of entries keys) filtered (omega arith),
          contents-put_block w laws keys onto (omega arith),
          contents-onto,
        )
        (simp append_assoc)
