-- ===== src/SsTable/Looking.antt =====
-- `Get` on a file that has the layout of a table.
use am_kv.Prelude.{
  bind_assoc, ℕ, ◌+◌, ◌-◌, ◌%◌, ◌^◌, ◌<◌, ◌≤◌, ◌≡◌, refl, sym, ap, ◌∙◌, arith, List, [], ◌∷◌, ◌++◌,
  Bytes, append_assoc, append-nil, length, length-append, ok, ◌>>=◌,
}
use am_kv.Status.{status_ok}
use am_kv.Codec.{encode_uint64}
use am_kv.Codec.RoundTrip.{length-encode_uint64, decode_uint64-encode_uint64}
use am_kv.AccessFile.{PosixAccessFile, size}
use am_kv.AccessFile.Reading.{IsMapped, read_at_lem}
use am_kv.Block.{BlockHandler, encode_handler, new_block_iterator, seek, value}
use am_kv.Block.Seeking.{
  seek_to_first-new, size_of-length, length-block_of, block_of, first_with, value_or_over_read,
  seek_value,
}
use am_kv.SsTable.Builder.{crc32, filter_key}
use am_kv.SsTable.Layout.{
  handler_at, meta_handler, footer_of, table_of, front_of, length-encode_handler, length-meta_index,
  table-front, table-filter, table-index_handler, length-table, length-filter_front,
  length-table_filter,
}
use am_kv.SsTable.Resolver.{read_number, read_handler, footer_offset, resolve}
use am_kv.SsTable.{get}

-- The numbers of a handler are 64-bit words.
abbrev pub IsWord : BlockHandler → Type 0
IsWord h = (h.offset < 2 ^ 64) × (h.size < 2 ^ 64)

module _ (file : PosixAccessFile) (mapped : IsMapped file) where
  read_number_lem :
      (a rest : Bytes) (n pos : ℕ)
      → file.map ≡ a ++ (encode_uint64 n ++ rest)
      → pos ≡ length a
      → n < 2 ^ 64
      → read_number file pos ≡ ok n
  unfolding read_number
  read_number_lem a rest n pos e at h = rw (
    read_at_lem file mapped a (encode_uint64 n) rest pos 8 e at (sym (length-encode_uint64 n)),
    ← append-nil (encode_uint64 n),
    decode_uint64-encode_uint64 n [] h,
  )

  read_handler_lem :
      (a rest : Bytes) (h : BlockHandler) (pos : ℕ)
      → file.map ≡ a ++ (encode_handler h ++ rest)
      → pos ≡ length a
      → IsWord h
      → length file.map < 2 ^ 63
      → read_handler file pos ≡ ok h
  unfolding read_handler encode_handler
  read_handler_lem a rest h pos e at words small =
      let e1 : file.map ≡ a ++ (encode_uint64 h.offset ++ (encode_uint64 h.size ++ rest)) =
        e ∙ ap (λ t. a ++ t) (append_assoc (encode_uint64 h.offset) (encode_uint64 h.size) rest) in
      let e2 : file.map ≡ (a ++ encode_uint64 h.offset) ++ (encode_uint64 h.size ++ rest) =
        e1 ∙ sym (append_assoc a (encode_uint64 h.offset) (encode_uint64 h.size ++ rest)) in
      let l : pos + 8 ≡ length (a ++ encode_uint64 h.offset) =
        omega (arith, length-append a (encode_uint64 h.offset), length-encode_uint64 h.offset) in
      let s : pos ≤ length file.map = omega (
        arith,
        ap length e,
        length-append a ((encode_uint64 h.offset ++ encode_uint64 h.size) ++ rest),
      ) in
      let w : (pos + 8) % 2 ^ 64 ≡ pos + 8 = omega arith in
      rw (
        read_number_lem a (encode_uint64 h.size ++ rest) h.offset pos e1 at words.0,
        w,
        read_number_lem (a ++ encode_uint64 h.offset) rest h.size (pos + 8) e2 l words.1,
      )

module _ (entries filter index : Bytes) (ih : BlockHandler) where
  module _ (file : PosixAccessFile) (mapped : IsMapped file)
      (e : file.map ≡ table_of entries filter index ih) (word : IsWord ih) where
    small : length (table_of entries filter index ih) < 2 ^ 63
    small = omega (arith, mapped.1, ap length e)

    footer_offset_lem : footer_offset file ≡ length (front_of entries filter index)
    unfolding footer_offset
    footer_offset_lem =
        let l = length-table entries filter index ih in
        let s = small in
        let z : size file ≡ length (front_of entries filter index) + 37 =
          unfold size in omega (arith, mapped.0, ap length e) in
        rw z (omega arith)

    read-meta_index : read_handler file (footer_offset file) ≡ ok (meta_handler entries filter)
    read-meta_index =
        let s = small in
        let l = length-table_filter entries filter index ih in
        let m = length-meta_index entries filter in
        read_handler_lem file mapped (front_of entries filter index) (encode_handler ih ++ crc32)
          (meta_handler entries filter) (footer_offset file)
          (e ∙ table-front entries filter index ih) footer_offset_lem (omega arith, omega arith)
          mapped.1

    read-index : read_handler file ((footer_offset file + 16) % 2 ^ 64) ≡ ok ih
    read-index =
        let s = small in
        let l = length-table entries filter index ih in
        let f = footer_offset_lem in
        read_handler_lem file mapped
          (front_of entries filter index ++ encode_handler (meta_handler entries filter)) crc32 ih
          ((footer_offset file + 16) % 2 ^ 64) (e ∙ table-index_handler entries filter index ih)
          (omega (
            arith,
            length-append (front_of entries filter index)
                (encode_handler (meta_handler entries filter)),
            length-encode_handler (meta_handler entries filter),
          ))
          word mapped.1

    read-filter :
        read_handler file (((meta_handler entries filter).offset + length filter_key) % 2 ^ 64)
        ≡ ok (handler_at (length entries + 5) filter)
    read-filter =
        let s = small in
        let l = length-table_filter entries filter index ih in
        read_handler_lem file mapped (entries ++ (crc32 ++ (filter ++ (crc32 ++ filter_key))))
          (crc32 ++ (index ++ (crc32 ++ (footer_of entries filter ih ++ crc32))))
          (handler_at (length entries + 5) filter)
          (((meta_handler entries filter).offset + length filter_key) % 2 ^ 64)
          (e ∙ table-filter entries filter index ih)
          (omega (arith, length-filter_front entries filter index ih)) (omega arith, omega arith)
          mapped.1

    resolve_lem :
        resolve file
        ≡ ok (
          status_ok,
          record {
            data_block_handler = record { offset = 0; size = length entries };
            filter_block_handler = handler_at (length entries + 5) filter;
            meta_index_block_handler = meta_handler entries filter;
            index_block_handler = ih;
            footer_block_handler = record { offset = footer_offset file; size = 32 };
          },
        )
    unfolding resolve
    resolve_lem =
        let s = small in
        let l = length-table_filter entries filter index ih in
        let w : (length entries + 5 + 2 ^ 64 - 5) % 2 ^ 64 ≡ length entries = omega arith in
        rw (read-meta_index, read-index, read-filter, w)

-- `Get`, on a file that is a table whose data block holds entries, one at least, gives the status OK
-- with the value of the first entry of the key; if there is none, it reads past the end of the data
-- block. The file is shorter than 2 ^ 63 bytes, the data shorter
-- than 2 ^ 32, and the index block's handler holds 64-bit words.
pub get-table :
    (key k v : Bytes) (es : List (Bytes × Bytes)) (filter index : Bytes) (ih : BlockHandler)
    (file : PosixAccessFile)
    → IsMapped file
    → file.map ≡ table_of (block_of ((k, v) ∷ es)) filter index ih
    → IsWord ih
    → length (block_of ((k, v) ∷ es)) < 2 ^ 32
    → get file key
      ≡ (value_or_over_read (first_with key ((k, v) ∷ es)) >>= λ out. ok (status_ok, out))
unfolding get
get-table key k v es filter index ih file mapped e word small =
    let b = block_of ((k, v) ∷ es) in
    let enough : length es + 1 < length b + 1 =
      omega (arith, length-block_of ((k, v) ∷ es), size_of-length es) in
    rw
      (
        resolve_lem b filter index ih file mapped e word,
        read_at_lem file mapped [] b _ 0 (length b) e refl refl,
        seek_to_first-new b,
        ← seek_value (length b + 1) key k v es small enough,
      )
      (bind_assoc (seek (length b + 1) key (new_block_iterator b)) value
        (λ out. ok (status_ok, out)))
