-- ===== src/WriteBatch/Replay.antt =====
-- A batch built by `Put` and `Delete` is read back by `Iterate` update by update.
use am_kv.Prelude.{
  ℕ, zero, suc, ◌+◌, ◌%◌, ◌^◌, ◌≤◌, ◌<◌, ◌≡◌, refl, sym, ap, ◌∙◌, arith, Bytes, List, [], ◌∷◌, ◌++◌,
  length, length-append, take, take_front, drop_front, append-nil, append_assoc, All, ok,
}
use mathlib.Core.List.{foldl}
use native.Mathlib.Nat.{add-zero, zero-add, add_assoc}
use am_kv.Codec.{encode_bytes}
use am_kv.Codec.RoundTrip.{
  length-encode_bytes, decode_uint32-encode_bytes, decode_bytes-encode_bytes,
}
use am_kv.DbFormat.{SequenceNumber, ValueType, type_deletion, type_value}
use am_kv.WriteBatch.{
  put, delete, next_field, WriteBatchHandler, handler_put, handler_delete, visit_put, visit_delete,
  visit, iterate_loop, iterate, insert_into, next_sequence,
}

-- An update as a client states it.
pub data Update : Type 0 where
  put_update : Bytes → Bytes → Update
  delete_update : Bytes → Update

-- The source's lengths are 32-bit words.
abbrev pub IsShort : Bytes → Type 0
IsShort s = length s < 2 ^ 32

abbrev pub UpdateFits : Update → Type 0
UpdateFits (put_update key value) = IsShort key × IsShort value
UpdateFits (delete_update key) = IsShort key

pub append_update : Bytes → Update → Bytes
append_update rep (put_update key value) = put key value rep
append_update rep (delete_update key) = delete key rep

-- The batch that a client has built by a list of updates.
pub build : List Update → Bytes
build = foldl append_update []

pub build-put : (key value : Bytes) → build (put_update key value ∷ []) ≡ put key value []
unfolding build append_update
build-put key value = refl

encoding : Update → Bytes
encoding (put_update key value) = type_value ∷ (encode_bytes key ++ encode_bytes value)
encoding (delete_update key) = type_deletion ∷ encode_bytes key

encodings : List Update → Bytes
encodings [] = []
encodings (u ∷ us) = encoding u ++ encodings us

append_update-encoding : (rep : Bytes) (u : Update) → append_update rep u ≡ rep ++ encoding u
unfolding append_update encoding put delete
append_update-encoding rep (put_update key value) = rw (append_assoc, append_assoc) refl
append_update-encoding rep (delete_update key) = append_assoc rep (type_deletion ∷ []) _

build-encodings :
    (us : List Update) (rep : Bytes) → foldl append_update rep us ≡ rep ++ encodings us
unfolding encodings
build-encodings [] rep = sym (append-nil rep)
build-encodings (u ∷ us) rep =
    build-encodings us (append_update rep u)
    ∙ ap (λ t. t ++ encodings us) (append_update-encoding rep u)
    ∙ append_assoc rep (encoding u) (encodings us)

take_field : (s rest : Bytes) → take (4 + length s) (encode_bytes s ++ rest) ≡ encode_bytes s
take_field s rest = take_front (4 + length s) (encode_bytes s) rest (sym (length-encode_bytes s))

pub next_field-encode_bytes :
    (s rest : Bytes) → IsShort s → next_field (encode_bytes s ++ rest) ≡ ok (s, rest)
unfolding next_field
next_field-encode_bytes s rest h = rw (
  decode_uint32-encode_bytes s rest h,
  take_field s rest,
  ← append-nil (encode_bytes s),
  decode_bytes-encode_bytes s [] h,
  append-nil,
  drop_front (length (encode_bytes s)) (encode_bytes s) rest refl,
)

one_add : (n : ℕ) → 1 + n ≡ suc n
one_add n = omega arith

module _ {M : Type 0} (add : SequenceNumber → ValueType → Bytes → Bytes → M → M) where
  -- What an update asks of the handler.
  pub apply_update : WriteBatchHandler M → Update → WriteBatchHandler M
  apply_update h (put_update key value) = handler_put add key value h
  apply_update h (delete_update key) = handler_delete add key h

  iterate_loop-encoding :
      (fuel : ℕ) (u : Update) (rest : Bytes) (h : WriteBatchHandler M)
      → UpdateFits u
      → iterate_loop add (suc fuel) (encoding u ++ rest) h
        ≡ iterate_loop add fuel rest (apply_update h u)
  unfolding encoding apply_update iterate_loop visit visit_put visit_delete
  iterate_loop-encoding fuel (put_update key value) rest h fits = rw (
    append_assoc (encode_bytes key) (encode_bytes value) rest,
    next_field-encode_bytes key (encode_bytes value ++ rest) fits.0,
    next_field-encode_bytes value rest fits.1,
  )
  iterate_loop-encoding fuel (delete_update key) rest h fits =
      rw (next_field-encode_bytes key rest fits)

  length-encoding : (u : Update) → 1 ≤ length (encoding u)
  unfolding encoding
  length-encoding (put_update key value) = omega arith
  length-encoding (delete_update key) = omega arith

  iterate_loop-encodings :
      (us : List Update) (fuel : ℕ) (h : WriteBatchHandler M)
      → All UpdateFits us
      → length (encodings us) ≤ fuel
      → iterate_loop add fuel (encodings us) h ≡ ok (foldl apply_update h us)
  unfolding encodings
  iterate_loop-encodings [] zero h fits enough = unfold iterate_loop in refl
  iterate_loop-encodings [] (suc fuel) h fits enough = unfold iterate_loop in refl
  iterate_loop-encodings (u ∷ us) zero h fits enough =
      absurd (omega (arith, length-append (encoding u) (encodings us), length-encoding u))
  iterate_loop-encodings (u ∷ us) (suc fuel) h fits enough =
      iterate_loop-encoding fuel u (encodings us) h fits.0
      ∙ iterate_loop-encodings us fuel (apply_update h u) fits.1
          (omega (arith, length-append (encoding u) (encodings us), length-encoding u))

  -- Iterating over a batch that was built by any list of updates, each with key and value shorter
  -- than 2^32 bytes, ends without a fault and hands the handler the same updates in the same order.
  pub iterate-build :
      (us : List Update) (h : WriteBatchHandler M)
      → All UpdateFits us
      → iterate add (build us) h ≡ ok (foldl apply_update h us)
  unfolding build iterate
  iterate-build us h fits =
      rw (build-encodings us []) (iterate_loop-encodings us _ h fits (omega arith))

  -- The additions that a list of updates makes, the first under sequence number `i`.
  unfoldable pub add_all : ℕ → List Update → M → M
  add_all i [] m = m
  add_all i (put_update key value ∷ us) m =
      add_all (i + 1) us (add (i % 2 ^ 64) type_value key value m)
  add_all i (delete_update key ∷ us) m =
      add_all (i + 1) us (add (i % 2 ^ 64) type_deletion key [] m)

  abbrev handler_at : ℕ → M → WriteBatchHandler M
  handler_at i m = record { sequence = i % 2 ^ 64; memtable = m }

  next_sequence-mod : (i : ℕ) → next_sequence (i % 2 ^ 64) ≡ (i + 1) % 2 ^ 64
  next_sequence-mod i = omega arith

  apply_update-add_all :
      (us : List Update) (i : ℕ) (m : M)
      → foldl apply_update (handler_at i m) us ≡ handler_at (i + length us) (add_all i us m)
  unfolding apply_update add_all handler_put handler_delete
  apply_update-add_all [] i m = rw (add-zero i)
  apply_update-add_all (put_update key value ∷ us) i m = rw (
    next_sequence-mod i,
    apply_update-add_all us (i + 1) _,
    add_assoc i 1 (length us),
    one_add (length us),
  )
  apply_update-add_all (delete_update key ∷ us) i m = rw (
    next_sequence-mod i,
    apply_update-add_all us (i + 1) _,
    add_assoc i 1 (length us),
    one_add (length us),
  )

  -- Inserting a batch built by any list of updates that fit adds each update to the memtable once, in
  -- order: the first under sequence number 0, and each next one under the number that follows.
  pub insert_into-build :
      (us : List Update) (m : M)
      → All UpdateFits us
      → insert_into add (build us) m
        ≡ ok (record { sequence = length us % 2 ^ 64; memtable = add_all 0 us m })
  unfolding insert_into
  insert_into-build us m fits =
      iterate-build us (handler_at 0 m) fits
      ∙ ap ok (apply_update-add_all us 0 m ∙ rw (zero-add (length us)))
