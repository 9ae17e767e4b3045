-- ===== src/SsTable/Layout.antt =====
-- The bytes of a table whose data is one block.
use am_kv.Prelude.{
  ℕ, ◌+◌, ◌≤◌, ◌≡◌, ap, sym, ◌∙◌, arith, ◌++◌, Bytes, append_assoc, length, length-append,
}
use am_kv.Codec.{encode_uint64}
use am_kv.Codec.RoundTrip.{length-encode_uint64}
use am_kv.Block.{BlockHandler, encode_handler}
use am_kv.SsTable.Builder.{crc32, filter_key}

abbrev pub handler_at : ℕ → Bytes → BlockHandler
handler_at offset block = record { offset = offset; size = length block }

-- The blocks that lead to others, from the data and the filter block.
abbrev pub meta_index_of : Bytes → Bytes → Bytes
meta_index_of entries filter = filter_key ++ encode_handler (handler_at (length entries + 5) filter)

abbrev pub meta_handler : Bytes → Bytes → BlockHandler
meta_handler entries filter =
    handler_at (length entries + 5 + (length filter + 5)) (meta_index_of entries filter)

abbrev pub footer_of : Bytes → Bytes → BlockHandler → Bytes
footer_of entries filter index_handler =
    encode_handler (meta_handler entries filter) ++ encode_handler index_handler

abbrev pub table_of : Bytes → Bytes → Bytes → BlockHandler → Bytes
table_of entries filter index index_handler =
    entries
    ++ (crc32
        ++ (filter
            ++ (crc32
                ++ (meta_index_of entries filter
                    ++ (crc32
                        ++ (index
                            ++ (crc32 ++ (footer_of entries filter index_handler ++ crc32))))))))

-- What stands before the footer.
pub front_of : Bytes → Bytes → Bytes → Bytes
front_of entries filter index =
    entries
    ++ (crc32
        ++ (filter ++ (crc32 ++ (meta_index_of entries filter ++ (crc32 ++ (index ++ crc32))))))

pub length-encode_handler : (h : BlockHandler) → length (encode_handler h) ≡ 16
unfolding encode_handler
length-encode_handler h = omega (
  arith,
  length-append (encode_uint64 h.offset) (encode_uint64 h.size),
  length-encode_uint64 h.offset,
  length-encode_uint64 h.size,
)

pub length-meta_index : (entries filter : Bytes) → length (meta_index_of entries filter) ≡ 22
length-meta_index entries filter = omega (
  arith,
  length-append filter_key (encode_handler (handler_at (length entries + 5) filter)),
  length-encode_handler (handler_at (length entries + 5) filter),
)

module _ (entries filter index : Bytes) (ih : BlockHandler) where
  pub table-front :
      table_of entries filter index ih
      ≡ front_of entries filter index
        ++ (encode_handler (meta_handler entries filter) ++ (encode_handler ih ++ crc32))
  unfolding front_of
  table-front = simp append_assoc

  pub table-filter :
      table_of entries filter index ih
      ≡ (entries ++ (crc32 ++ (filter ++ (crc32 ++ filter_key))))
        ++ (encode_handler (handler_at (length entries + 5) filter)
            ++ (crc32 ++ (index ++ (crc32 ++ (footer_of entries filter ih ++ crc32)))))
  table-filter = simp append_assoc

  pub table-index_handler :
      table_of entries filter index ih
      ≡ (front_of entries filter index ++ encode_handler (meta_handler entries filter))
        ++ (encode_handler ih ++ crc32)
  table-index_handler =
      table-front
      ∙ sym (
          append_assoc (front_of entries filter index)
            (encode_handler (meta_handler entries filter)) (encode_handler ih ++ crc32))

  pub length-table :
      length (table_of entries filter index ih) ≡ length (front_of entries filter index) + 37
  length-table = omega (
    arith,
    ap length table-front,
    length-append (front_of entries filter index)
        (encode_handler (meta_handler entries filter) ++ (encode_handler ih ++ crc32)),
    length-append (encode_handler (meta_handler entries filter)) (encode_handler ih ++ crc32),
    length-append (encode_handler ih) crc32,
    length-encode_handler (meta_handler entries filter),
    length-encode_handler ih,
  )

  pub length-filter_front :
      length (entries ++ (crc32 ++ (filter ++ (crc32 ++ filter_key))))
      ≡ length entries + 5 + (length filter + 5) + 6
  length-filter_front = omega (
    arith,
    length-append entries (crc32 ++ (filter ++ (crc32 ++ filter_key))),
    length-append filter (crc32 ++ filter_key),
  )

  pub length-table_filter :
      length entries + 5 + (length filter + 5) + 6 ≤ length (table_of entries filter index ih)
  length-table_filter = omega (
    arith,
    ap length table-filter,
    length-filter_front,
    length-append (entries ++ (crc32 ++ (filter ++ (crc32 ++ filter_key)))) (
        encode_handler (handler_at (length entries + 5) filter)
        ++ (crc32 ++ (index ++ (crc32 ++ (footer_of entries filter ih ++ crc32))))),
  )

  pub length-table_of :
      length (table_of entries filter index ih)
      ≡ length entries + 5 + (length filter + 5) + 27 + (length index + 5) + 37
  length-table_of =
      let footer = footer_of entries filter ih in
      let meta = meta_index_of entries filter in
      omega (
        arith,
        length-append entries (
            crc32
            ++ (filter ++ (crc32 ++ (meta ++ (crc32 ++ (index ++ (crc32 ++ (footer ++ crc32)))))))),
        length-append filter
            (crc32 ++ (meta ++ (crc32 ++ (index ++ (crc32 ++ (footer ++ crc32)))))),
        length-append meta (crc32 ++ (index ++ (crc32 ++ (footer ++ crc32)))),
        length-append index (crc32 ++ (footer ++ crc32)),
        length-append footer crc32,
        length-append (encode_handler (meta_handler entries filter)) (encode_handler ih),
        length-encode_handler (meta_handler entries filter),
        length-encode_handler ih,
        length-meta_index entries filter,
      )
