-- ===== src/Block/Seeking.antt =====
-- `Seek` and `Value` on a block that holds encoded entries.
use am_kv.Prelude.{
  false, true, ℕ, zero, suc, ◌+◌, ◌-◌, ◌%◌, ◌^◌, ◌<◌, ◌≤◌, ◌≡◌, refl, sym, ap, ◌∙◌, arith, List, [],
  ◌∷◌, ◌++◌, Bytes, append_assoc, append-nil, length, length-append, take-nil, Result, ok, fault,
  over_read, ◌>>=◌, lt→ltb, le→ltb_false, Bool-cases, inl, inr, Option, some, none, bytes_eq,
  if◌then◌else◌, substr-rest, substr-behind,
}
use am_kv.Codec.{encode_bytes}
use am_kv.Codec.Laws.{decode_uint32_nil}
use am_kv.Codec.RoundTrip.{
  length-encode_bytes, decode_bytes-encode_bytes, decode_uint32-encode_bytes,
}
use am_kv.Block.{
  seek_to_first, BlockIterator, new_block_iterator, get_bytes_length, rest_of, value_at, valid, key,
  next, value, seek_loop, seek,
}

-- The bytes of a block that holds entries.
abbrev pub block_of : List (Bytes × Bytes) → Bytes
block_of [] = []
block_of ((k, v) ∷ es) = encode_bytes k ++ (encode_bytes v ++ block_of es)

abbrev pub size_of : List (Bytes × Bytes) → ℕ
size_of [] = 0
size_of ((k, v) ∷ es) = length k + length v + 8 + size_of es

pub length-block_of : (es : List (Bytes × Bytes)) → length (block_of es) ≡ size_of es
length-block_of [] = refl
length-block_of ((k, v) ∷ es) = omega (
  arith,
  length-append (encode_bytes k) (encode_bytes v ++ block_of es),
  length-append (encode_bytes v) (block_of es),
  length-encode_bytes k,
  length-encode_bytes v,
  length-block_of es,
)

-- An entry takes eight bytes at least.
pub size_of-length : (es : List (Bytes × Bytes)) → length es ≤ size_of es
size_of-length [] = omega arith
size_of-length ((k, v) ∷ es) = omega (arith, size_of-length es)

-- The value of the first entry with a key.
abbrev pub first_with : Bytes → List (Bytes × Bytes) → Option Bytes
first_with target [] = none
first_with target ((k, v) ∷ es) = if bytes_eq k target then some v else first_with target es

-- A value, or a read past the end of the block.
abbrev pub value_or_over_read : Option Bytes → Result Bytes
value_or_over_read (some v) = ok v
value_or_over_read none = fault over_read

module _ (c a s rest : Bytes) (pos : ℕ) (e : c ≡ a ++ (encode_bytes s ++ rest))
    (at : pos ≡ length a) (small : length c < 2 ^ 32) where
  room : length s + 4 + length rest + pos ≡ length c
  room = omega (
    arith,
    ap length e,
    length-append a (encode_bytes s ++ rest),
    length-append (encode_bytes s) rest,
    length-encode_bytes s,
  )

  get_bytes_length_lem : get_bytes_length c pos ≡ ok (length s + 4)
  unfolding get_bytes_length
  get_bytes_length_lem =
      let r = room in
      let p : pos % 2 ^ 32 ≡ pos = omega arith in
      let q : (length s + 4) % 2 ^ 32 ≡ length s + 4 = omega arith in
      rw (
        p,
        e,
        substr-behind a (encode_bytes s ++ rest) pos 4 at,
        decode_uint32-encode_bytes s rest (omega arith),
        q,
      )

  value_at_lem : (it : BlockIterator) → it.contents ≡ c → value_at it pos ≡ ok s
  unfolding value_at rest_of
  value_at_lem it i =
      let r = room in
      rw (
        i,
        e,
        substr-rest a (encode_bytes s ++ rest) pos (length (a ++ (encode_bytes s ++ rest))) at
            (omega (arith, length-append a (encode_bytes s ++ rest))),
        decode_bytes-encode_bytes s rest (omega arith),
      )

iterator_at : Bytes → ℕ → BlockIterator
iterator_at c pos = record { contents = c; offset = pos }

-- The iterator at an entry.
module _ (c done k v : Bytes) (es : List (Bytes × Bytes)) (pos : ℕ)
    (e : c ≡ done ++ block_of ((k, v) ∷ es)) (at : pos ≡ length done)
    (small : length c < 2 ^ 32) where
  behind_key : c ≡ (done ++ encode_bytes k) ++ (encode_bytes v ++ block_of es)
  behind_key = e ∙ sym (append_assoc done (encode_bytes k) (encode_bytes v ++ block_of es))

  behind_entry : c ≡ ((done ++ encode_bytes k) ++ encode_bytes v) ++ block_of es
  behind_entry =
      behind_key ∙ sym (append_assoc (done ++ encode_bytes k) (encode_bytes v) (block_of es))

  at_value : pos + (length k + 4) ≡ length (done ++ encode_bytes k)
  at_value = omega (arith, length-append done (encode_bytes k), length-encode_bytes k)

  sizes : pos + (length k + 4) + (length v + 4) + length (block_of es) ≡ length c
  sizes =
      let r =
        room c (done ++ encode_bytes k) v (block_of es) (pos + (length k + 4)) behind_key at_value
          small in
      omega arith

  valid-at : valid (iterator_at c pos) ≡ true
  unfolding valid iterator_at
  valid-at = let z = sizes in lt→ltb pos ((length c + 2 ^ 64 - 5) % 2 ^ 64) (omega arith)

  key-at : key (iterator_at c pos) ≡ ok k
  unfolding key value_at iterator_at
  key-at =
      value_at_lem c done k (encode_bytes v ++ block_of es) pos e at small (iterator_at c pos) refl

  key_length : get_bytes_length c pos ≡ ok (length k + 4)
  key_length = get_bytes_length_lem c done k (encode_bytes v ++ block_of es) pos e at small

  value-at : value (iterator_at c pos) ≡ ok v
  unfolding value iterator_at
  value-at =
      let z = sizes in
      let w : (pos + (length k + 4)) % 2 ^ 64 ≡ pos + (length k + 4) = omega arith in
      rw (key_length, w, le→ltb_false (length c) (pos + (length k + 4)) (omega arith))
        (value_at_lem c (done ++ encode_bytes k) v (block_of es) (pos + (length k + 4)) behind_key
          at_value small (iterator_at c pos) refl)

  next-at : next (iterator_at c pos) ≡ ok (iterator_at c (pos + (length k + 4) + (length v + 4)))
  unfolding next iterator_at
  next-at =
      let z = sizes in
      let w' : (pos + (length k + 4)) % 2 ^ 64 ≡ pos + (length k + 4) = omega arith in
      let w : (pos + (length k + 4 + (length v + 4)) % 2 ^ 32) % 2 ^ 64
          ≡ pos + (length k + 4) + (length v + 4) =
        omega arith in
      rw (
        key_length,
        w',
        get_bytes_length_lem c (done ++ encode_bytes k) v (block_of es) (pos + (length k + 4))
            behind_key at_value small,
        w,
      )

-- The iterator behind the last entry.
value-end :
    (c : Bytes) (pos : ℕ)
    → pos ≡ length c
    → length c < 2 ^ 32
    → value (iterator_at c pos) ≡ fault over_read
unfolding value iterator_at get_bytes_length
value-end c pos at small =
    let p : pos % 2 ^ 32 ≡ pos = omega arith in
    rw (p, ← append-nil c, substr-behind c [] pos 4 at, take-nil 4, decode_uint32_nil)

valid-end :
    (c : Bytes) (pos : ℕ)
    → pos ≡ length c
    → length c < 2 ^ 32
    → 5 ≤ length c
    → valid (iterator_at c pos) ≡ false
unfolding valid iterator_at
valid-end c pos at small big = le→ltb_false pos ((length c + 2 ^ 64 - 5) % 2 ^ 64) (omega arith)

-- What `Get` does with the block: `Seek`, then `Value`.
seek_value_loop :
    (fuel : ℕ) (target c done : Bytes) (es : List (Bytes × Bytes)) (pos : ℕ)
    → c ≡ done ++ block_of es
    → pos ≡ length done
    → length c < 2 ^ 32
    → 5 ≤ length c
    → length es < fuel
    → (seek_loop fuel target (iterator_at c pos) >>= value)
      ≡ value_or_over_read (first_with target es)
unfolding seek_loop
seek_value_loop zero target c done es pos e at small big enough = absurd (omega arith)
seek_value_loop (suc fuel) target c done [] pos e at small big enough =
    let l : pos ≡ length c = omega (arith, at, ap length e, length-append done []) in
    rw (valid-end c pos l small big, value-end c pos l small)
seek_value_loop (suc fuel) target c done ((k, v) ∷ es) pos e at small big enough =
    let rest =
      seek_value_loop fuel target c ((done ++ encode_bytes k) ++ encode_bytes v) es
        (pos + (length k + 4) + (length v + 4)) (behind_entry c done k v es pos e at small)
        (omega (
          arith,
          at_value c done k v es pos e at small,
          length-append (done ++ encode_bytes k) (encode_bytes v),
          length-encode_bytes v,
        ))
        small big (omega arith) in
    rw (valid-at c done k v es pos e at small, key-at c done k v es pos e at small)
      (elim (Bool-cases (bytes_eq k target)) [
        | inl q ↦ rw q (value-at c done k v es pos e at small)
        | inr q ↦ rw (q, next-at c done k v es pos e at small) rest
      ])

-- On a block of encoded entries, one at least and together shorter than 2 ^ 32 bytes, `Seek`, with
-- more rounds as fuel than there are entries, and `Value` give the value of the first entry with
-- the target's key; if there is none, `Value` reads past the end of the block.
pub seek_value :
    (fuel : ℕ) (target k v : Bytes) (es : List (Bytes × Bytes))
    → length (block_of ((k, v) ∷ es)) < 2 ^ 32
    → length es + 1 < fuel
    → (seek fuel target (new_block_iterator (block_of ((k, v) ∷ es))) >>= value)
      ≡ value_or_over_read (first_with target ((k, v) ∷ es))
unfolding seek new_block_iterator iterator_at
seek_value fuel target k v es small enough =
    seek_value_loop fuel target (block_of ((k, v) ∷ es)) [] ((k, v) ∷ es) 0 refl refl small
      (omega (arith, length-block_of ((k, v) ∷ es))) (omega arith)

pub seek_to_first-new : (c : Bytes) → seek_to_first (new_block_iterator c) ≡ new_block_iterator c
unfolding seek_to_first new_block_iterator
seek_to_first-new c = refl
