-- ===== src/Block.antt =====
-- amkv/lsm/block_builder.h and .cc, block_handler.h and .cc, block.h, block_iter.h and .cc: the
-- blocks of a table. A block's iterator reads the bytes of a view at an offset.
pub mod Seeking
mod Examples
use am_kv.Prelude.{
  substr, ℕ, zero, suc, ◌+◌, ◌-◌, ◌%◌, ◌^◌, Bool, true, false, [], ◌++◌, Bytes, length, take, drop,
  ltb, bytes_eq, is_empty, if◌then◌else◌, Result, ok, fault, no_fuel, out_of_range, ◌>>=◌,
}
use am_kv.Codec.{encode_uint64, decode_uint32, decode_uint64, decode_bytes}
use am_kv.Status.{Status, status_ok}

pub record BlockBuilder : Type 0 where
  pub counter : ℕ
  pub finished : Bool
  pub buffer : Bytes
  pub last_key : Bytes

-- The constructor leaves `counter_` and `finished_` as they are.
unfoldable pub new_block_builder : ℕ → Bool → BlockBuilder
new_block_builder counter finished = record {
  counter = counter;
  finished = finished;
  buffer = [];
  last_key = [];
}

unfoldable pub block_add : Bytes → Bytes → BlockBuilder → BlockBuilder
block_add key value b = record b {
  buffer = (b.buffer ++ key) ++ value;
  counter = (b.counter + 1) % 2 ^ 64;
}

unfoldable pub reset : BlockBuilder → BlockBuilder
reset b = record { counter = 0; finished = false; buffer = []; last_key = [] }

unfoldable pub build : BlockBuilder → Bytes × BlockBuilder
build b = (b.buffer, record b { finished = true })

unfoldable pub builder_size : BlockBuilder → ℕ
builder_size b = length b.buffer

unfoldable pub builder_empty : BlockBuilder → Bool
builder_empty b = is_empty b.buffer

pub record BlockHandler : Type 0 where
  pub offset : ℕ
  pub size : ℕ

abbrev pub new_block_handler : BlockHandler
new_block_handler = record { offset = 0; size = 0 }

unfoldable pub encode_handler : BlockHandler → Bytes
encode_handler h = encode_uint64 h.offset ++ encode_uint64 h.size

pub decode_handler : Bytes → Result (Status × BlockHandler)
decode_handler input = do
  first ← substr input 0 8
  (len, offset) ← decode_uint64 first
  second ← substr input len 8
  (_, size) ← decode_uint64 second
  ok (status_ok, record { offset = offset; size = size })

-- `substr` with no count.
rest_of : Bytes → ℕ → Result Bytes
rest_of s pos = substr s pos (length s)

pub record BlockIterator : Type 0 where
  pub contents : Bytes
  pub offset : ℕ

pub new_block_iterator : Bytes → BlockIterator
new_block_iterator contents = record { contents = contents; offset = 0 }

-- `offset` is a `uint32_t`, so the caller's number is narrowed; so is the sum.
get_bytes_length : Bytes → ℕ → Result ℕ
get_bytes_length content offset = do
  field ← substr content (offset % 2 ^ 32) 4
  (_, len) ← decode_uint32 field
  ok ((len + 4) % 2 ^ 32)

-- `size() - s.length()` in a 64-bit word.
pub valid : BlockIterator → Bool
valid it = ltb it.offset ((length it.contents + 2 ^ 64 - 5) % 2 ^ 64)

unfoldable pub seek_to_first : BlockIterator → BlockIterator
seek_to_first it = record it { offset = 0 }

pub key : BlockIterator → Result Bytes
unfolding rest_of
key it = do rest ← rest_of it.contents it.offset; (_, k) ← decode_bytes rest; ok k

pub next : BlockIterator → Result BlockIterator
unfolding get_bytes_length
next it = do
  len ← get_bytes_length it.contents it.offset
  len' ← get_bytes_length it.contents ((it.offset + len) % 2 ^ 64)
  ok (record it { offset = (it.offset + (len + len') % 2 ^ 32) % 2 ^ 64 })

value_at : BlockIterator → ℕ → Result Bytes
unfolding rest_of
value_at it pos = do rest ← rest_of it.contents pos; (_, v) ← decode_bytes rest; ok v

pub value : BlockIterator → Result Bytes
unfolding get_bytes_length value_at
value it = do
  len ← get_bytes_length it.contents it.offset
  if ltb (length it.contents) ((it.offset + len) % 2 ^ 64)
      then ok []
      else value_at it ((it.offset + len) % 2 ^ 64)

-- The loop of `Seek`. A length field that wraps the sum in `Next` to 0 keeps it where it is.
stop : Bytes → BlockIterator → Result BlockIterator → Bytes → Result BlockIterator
stop target it further k = if bytes_eq k target then ok it else further

-- The fuel bounds the rounds.
pub seek_loop : ℕ → Bytes → BlockIterator → Result BlockIterator
unfolding stop
seek_loop zero target it = fault no_fuel
seek_loop (suc fuel) target it =
    let further = next it >>= seek_loop fuel target in
    if valid it then key it >>= stop target it further else ok it

pub seek : ℕ → Bytes → BlockIterator → Result BlockIterator
seek fuel target it = seek_loop fuel target it
