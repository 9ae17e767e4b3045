-- ===== src/Codec.antt =====
-- amkv/util/codec.h and codec.cc: fixed-width big-endian integers and length-prefixed strings.
-- A string is a list of bytes; an encoder returns what it appends to `out`, together with the
-- length that it reports. A decoder that would read past its view is a fault.
pub mod Laws
pub mod RoundTrip
pub mod Cursor
use am_kv.Prelude.{
  ℕ, zero, suc, ◌+◌, ◌*◌, ◌/◌, ◌%◌, ◌^◌, ◌<◌, List, [], ◌∷◌, ◌++◌, Bytes, length, take, drop,
}
use am_kv.Prelude.{ltb, if◌then◌else◌, Result, ok, fault, over_read, ◌>>=◌}

-- `htobe32`, `htobe64` and the copy of the word's bytes: the `n` lowest bytes, highest first.
unfoldable pub be_bytes : ℕ → ℕ → Bytes
be_bytes zero v = []
be_bytes (suc n) v = be_bytes n (v / 256) ++ (v % 256 ∷ [])

-- `be32toh`, `be64toh` on bytes read in memory order.
pub be_value : ℕ → Bytes → ℕ
be_value acc [] = acc
be_value acc (b ∷ bs) = be_value (acc * 256 + b) bs

-- A load of `n` bytes at the start of a view.
pub load : ℕ → Bytes → Result (ℕ × ℕ)
load n input = if ltb (length input) n then fault over_read else ok (n, be_value 0 (take n input))

unfoldable pub encode_uint8 : ℕ → Bytes
encode_uint8 v = be_bytes 1 v

pub decode_uint8 : Bytes → Result (ℕ × ℕ)
decode_uint8 input = load 1 input

unfoldable pub encode_uint32 : ℕ → Bytes
encode_uint32 v = be_bytes 4 v

pub decode_uint32 : Bytes → Result (ℕ × ℕ)
decode_uint32 input = load 4 input

unfoldable pub encode_uint64 : ℕ → Bytes
encode_uint64 v = be_bytes 8 v

pub decode_uint64 : Bytes → Result (ℕ × ℕ)
decode_uint64 input = load 8 input

-- The length is narrowed to a `uint32_t`.
unfoldable pub encode_bytes : Bytes → Bytes
encode_bytes s = encode_uint32 (length s % 2 ^ 32) ++ s

-- The copy reads `len` bytes behind the length field.
copy_bytes : Bytes → ℕ × ℕ → Result (ℕ × Bytes)
copy_bytes input (ret, len) =
    if ltb (length input) (4 + len)
    then fault over_read
    else ok (len + ret, take len (drop 4 input))

pub decode_bytes : Bytes → Result (ℕ × Bytes)
unfolding copy_bytes
decode_bytes input = decode_uint32 input >>= copy_bytes input
