-- ===== src/Codec/RoundTrip.antt =====
-- Each decoder returns what the encoder of its name wrote, whatever follows in the view.
use am_kv.Prelude.{
  ◌∙◌, ok-injective, replicate, ap, ℕ, ◌+◌, ◌%◌, ◌^◌, ◌<◌, ◌≤◌, ◌≡◌, refl, sym, arith, Bytes, [],
  ◌++◌, append-nil, length, length-append, take, take_front, drop_front, ok, le→ltb_false,
  append_assoc,
}
use am_kv.Codec.{
  be_bytes, encode_uint8, encode_uint32, encode_uint64, encode_bytes, decode_uint8, decode_uint32,
  decode_uint64, decode_bytes,
}
use am_kv.Codec.Laws.{length-be_bytes, load-be_bytes}

pub length-encode_uint8 : (v : ℕ) → length (encode_uint8 v) ≡ 1
unfolding encode_uint8
length-encode_uint8 v = length-be_bytes 1 v

pub length-encode_uint32 : (v : ℕ) → length (encode_uint32 v) ≡ 4
unfolding encode_uint32
length-encode_uint32 v = length-be_bytes 4 v

pub length-encode_uint64 : (v : ℕ) → length (encode_uint64 v) ≡ 8
unfolding encode_uint64
length-encode_uint64 v = length-be_bytes 8 v

pub length-encode_bytes : (s : Bytes) → length (encode_bytes s) ≡ 4 + length s
unfolding encode_bytes
length-encode_bytes s = omega (
  arith,
  length-append (encode_uint32 (length s % 2 ^ 32)) s,
  length-encode_uint32 (length s % 2 ^ 32),
)

pub decode_uint8-encode_uint8 :
    (v : ℕ) (rest : Bytes) → v < 2 ^ 8 → decode_uint8 (encode_uint8 v ++ rest) ≡ ok (1, v)
unfolding decode_uint8 encode_uint8
decode_uint8-encode_uint8 v rest h = load-be_bytes 1 v rest h

pub decode_uint32-encode_uint32 :
    (v : ℕ) (rest : Bytes) → v < 2 ^ 32 → decode_uint32 (encode_uint32 v ++ rest) ≡ ok (4, v)
unfolding decode_uint32 encode_uint32
decode_uint32-encode_uint32 v rest h = load-be_bytes 4 v rest h

pub decode_uint64-encode_uint64 :
    (v : ℕ) (rest : Bytes) → v < 2 ^ 64 → decode_uint64 (encode_uint64 v ++ rest) ≡ ok (8, v)
unfolding decode_uint64 encode_uint64
decode_uint64-encode_uint64 v rest h = load-be_bytes 8 v rest h

-- `DecodeBytes` behind a length field that holds `len`.
pub decode_bytes-field :
    (len : ℕ) (tail : Bytes)
    → len < 2 ^ 32
    → len ≤ length tail
    → decode_bytes (encode_uint32 len ++ tail) ≡ ok (len + 4, take len tail)
unfolding decode_bytes
decode_bytes-field len tail small fits =
    rw
      (
        decode_uint32-encode_uint32 len tail small,
        le→ltb_false (length (encode_uint32 len ++ tail)) (4 + len)
            (omega (arith, length-append (encode_uint32 len) tail, length-encode_uint32 len)),
        drop_front 4 (encode_uint32 len) tail (sym (length-encode_uint32 len)),
      )
      refl

-- A string whose length fits 32 bits is read back whole, and the length reported is what it takes.
pub decode_bytes-encode_bytes :
    (s rest : Bytes)
    → length s < 2 ^ 32
    → decode_bytes (encode_bytes s ++ rest) ≡ ok (length (encode_bytes s), s)
decode_bytes-encode_bytes s rest h =
    let e : length s % 2 ^ 32 ≡ length s = omega arith in
    let l : length s + 4 ≡ length (encode_bytes s) = omega (arith, length-encode_bytes s) in
    unfold encode_bytes in
    rw
      (
        ← l,
        e,
        append_assoc (encode_uint32 (length s)) s rest,
        decode_bytes-field (length s) (s ++ rest) h (omega (arith, length-append s rest)),
        take_front (length s) s rest refl,
      )
      refl

-- The length field of an encoded string, read through a view of four bytes.
pub decode_uint32-encode_bytes :
    (s rest : Bytes)
    → length s < 2 ^ 32
    → decode_uint32 (take 4 (encode_bytes s ++ rest)) ≡ ok (4, length s)
unfolding encode_bytes
decode_uint32-encode_bytes s rest h =
    let e : length s % 2 ^ 32 ≡ length s = omega arith in
    rw (
      e,
      append_assoc (encode_uint32 (length s)) s rest,
      take_front 4 (encode_uint32 (length s)) (s ++ rest) (sym (length-encode_uint32 (length s))),
      ← append-nil (encode_uint32 (length s)),
      decode_uint32-encode_uint32 (length s) [] h,
    )

pub encode_bytes-small :
    (s : Bytes) → length s < 2 ^ 32 → encode_bytes s ≡ encode_uint32 (length s) ++ s
unfolding encode_bytes
encode_bytes-small s h = let e : length s % 2 ^ 32 ≡ length s = omega arith in rw e

pub encode_uint64_zero : encode_uint64 0 ≡ replicate 8 0
unfolding encode_uint64 be_bytes
encode_uint64_zero = refl

pub encode_uint32_zero : encode_uint32 0 ≡ replicate 4 0
unfolding encode_uint32 be_bytes
encode_uint32_zero = refl

-- Words are told apart by their bytes.
pub encode_uint32-injective :
    (v u : ℕ) → v < 2 ^ 32 → u < 2 ^ 32 → encode_uint32 v ≡ encode_uint32 u → v ≡ u
encode_uint32-injective v u h k e =
    let a = decode_uint32-encode_uint32 v [] h in
    let b = decode_uint32-encode_uint32 u [] k in
    ap (λ p. p.1) (ok-injective (4, v) (4, u) (sym a ∙ (ap (λ t. decode_uint32 (t ++ [])) e ∙ b)))
