-- ===== src/Codec/Cursor.antt =====
-- The decoders at a cursor: `len += DecodeX(src.substr(len, k), &x)`. The cursor is given by the
-- part of the input at and behind it, and moves by the length that the decoder reports.
use am_kv.Codec.Laws.{decode_uint64-Safe, decode_bytes-Safe, decode_uint8_one}
use am_kv.Prelude.{
  ◌∷◌, length-drop, arith, Safe-bind, Safe, ◌≤◌, ℕ, ◌^◌, ◌<◌, ◌≡◌, refl, sym, Bytes, ◌++◌, length,
  take, drop, take_front, drop_front, append-nil, Result, ok, ◌>>=◌,
}
use am_kv.Codec.{
  encode_uint8, encode_uint64, encode_bytes, decode_uint8, decode_uint64, decode_bytes,
}
use am_kv.Codec.RoundTrip.{
  length-encode_uint8, length-encode_uint64, decode_uint8-encode_uint8, decode_uint64-encode_uint64,
  decode_bytes-encode_bytes,
}

abbrev pub advance {ℓ} : {A : Type ℓ} → Bytes → ℕ × A → Result (A × Bytes)
advance src (n, v) = ok (v, drop n src)

pub next_uint8 : Bytes → Result (ℕ × Bytes)
next_uint8 src = decode_uint8 (take 1 src) >>= advance src

pub next_uint64 : Bytes → Result (ℕ × Bytes)
next_uint64 src = decode_uint64 (take 8 src) >>= advance src

pub next_bytes : Bytes → Result (Bytes × Bytes)
next_bytes src = decode_bytes src >>= advance src

pub next_uint8-encode :
    (v : ℕ) (rest : Bytes) → v < 2 ^ 8 → next_uint8 (encode_uint8 v ++ rest) ≡ ok (v, rest)
unfolding next_uint8
next_uint8-encode v rest h =
    rw
      (
        take_front 1 (encode_uint8 v) rest (sym (length-encode_uint8 v)),
        ← append-nil (encode_uint8 v),
        decode_uint8-encode_uint8 v _ h,
        append-nil,
        drop_front 1 (encode_uint8 v) rest (sym (length-encode_uint8 v)),
      )
      refl

pub next_uint64-encode :
    (v : ℕ) (rest : Bytes) → v < 2 ^ 64 → next_uint64 (encode_uint64 v ++ rest) ≡ ok (v, rest)
unfolding next_uint64
next_uint64-encode v rest h =
    rw
      (
        take_front 8 (encode_uint64 v) rest (sym (length-encode_uint64 v)),
        ← append-nil (encode_uint64 v),
        decode_uint64-encode_uint64 v _ h,
        append-nil,
        drop_front 8 (encode_uint64 v) rest (sym (length-encode_uint64 v)),
      )
      refl

pub next_bytes-encode :
    (s rest : Bytes) → length s < 2 ^ 32 → next_bytes (encode_bytes s ++ rest) ≡ ok (s, rest)
unfolding next_bytes
next_bytes-encode s rest h =
    rw
      (
        decode_bytes-encode_bytes s rest h,
        drop_front (length (encode_bytes s)) (encode_bytes s) rest refl,
      )
      refl

-- What is left is no longer than the input.
abbrev pub Shrinks {ℓ} : {A : Type ℓ} → Bytes → A × Bytes → Type 0
Shrinks input (a, rest) = length rest ≤ length input

advance-Safe {ℓ} :
    {A : Type ℓ} (src : Bytes) (m : Result (ℕ × A))
    → Safe (λ _. Unit) m
    → Safe (Shrinks src) (m >>= advance src)
advance-Safe src m h =
    Safe-bind (λ _. Unit) (Shrinks src) m (advance src) h
      (λ (n, v) _. omega (arith, length-drop n src))

pub next_uint64-Safe : (src : Bytes) → Safe (Shrinks src) (next_uint64 src)
unfolding next_uint64
next_uint64-Safe src = advance-Safe src _ (decode_uint64-Safe (take 8 src))

pub next_bytes-Safe : (src : Bytes) → Safe (Shrinks src) (next_bytes src)
unfolding next_bytes
next_bytes-Safe src = advance-Safe src _ (decode_bytes-Safe src)

-- A tag is taken from the front.
pub next_uint8_cons : (b : ℕ) (bs : Bytes) → next_uint8 (b ∷ bs) ≡ ok (b, bs)
unfolding next_uint8 take drop
next_uint8_cons b bs = rw (decode_uint8_one b)
