-- ===== src/SsTable/Resolver.antt =====
-- amkv/lsm/sstable_resolver.h and .cc, sstable_rep.h: finding a table's blocks from its footer.
use am_kv.Prelude.{ℕ, ◌+◌, ◌-◌, ◌%◌, ◌^◌, length, Result, ok, ◌>>=◌}
use am_kv.Codec.{decode_uint64}
use am_kv.Status.{Status, status_ok}
use am_kv.AccessFile.{PosixAccessFile, size, read_at}
use am_kv.Block.{BlockHandler}
use am_kv.SsTable.Builder.{crc32, filter_key}

pub record ResolverRep : Type 0 where
  pub data_block_handler : BlockHandler
  pub filter_block_handler : BlockHandler
  pub meta_index_block_handler : BlockHandler
  pub index_block_handler : BlockHandler
  pub footer_block_handler : BlockHandler

-- `Read` of eight bytes, whose status is not looked at, and `DecodeUInt64` of what it gave.
unfoldable pub read_number : PosixAccessFile → ℕ → Result ℕ
read_number file offset = do (_, out) ← read_at file offset 8; (_, n) ← decode_uint64 out; ok n

-- The offset and the size of a block, one behind the other.
unfoldable pub read_handler : PosixAccessFile → ℕ → Result BlockHandler
read_handler file pos = do
  offset ← read_number file pos
  n ← read_number file ((pos + 8) % 2 ^ 64)
  ok (record { offset = offset; size = n })

-- The offset of the footer, in a 64-bit word.
unfoldable pub footer_offset : PosixAccessFile → ℕ
footer_offset file = (size file + 2 ^ 64 - (length crc32 + 32)) % 2 ^ 64

unfoldable pub resolve : PosixAccessFile → Result (Status × ResolverRep)
resolve file = do
  meta_index ← read_handler file (footer_offset file)
  index ← read_handler file ((footer_offset file + 16) % 2 ^ 64)
  filter ← read_handler file ((meta_index.offset + length filter_key) % 2 ^ 64)
  ok (
    status_ok,
    record {
      data_block_handler = record {
        offset = 0;
        size = (filter.offset + 2 ^ 64 - length crc32) % 2 ^ 64;
      };
      filter_block_handler = filter;
      meta_index_block_handler = meta_index;
      index_block_handler = index;
      footer_block_handler = record { offset = footer_offset file; size = 32 };
    },
  )
