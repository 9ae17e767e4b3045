-- ===== src/MemTable/Order.antt =====
-- How the entries of the memtable are ordered: by the length of the user's key, the key, the sequence
-- number, the type, and the length and the bytes of the value.
use am_kv.Prelude.{
  ℕ, ◌+◌, ◌<◌, ◌==◌, ◌^◌, ◌≡◌, ◌≢◌, refl, sym, ◌∙◌, arith, true, false, [], ◌++◌, Bytes,
  append_assoc, append-nil, length, replicate, inl, inr, Bool-cases,
}
use am_kv.Codec.{encode_bytes, encode_uint32, encode_uint64, encode_uint8, be_bytes}
use am_kv.Codec.RoundTrip.{
  length-encode_uint32, length-encode_uint64, encode_bytes-small, encode_uint64_zero,
  encode_uint32_zero, encode_uint32-injective,
}
use am_kv.Comparator.{is_zero, compare_bytes, internal_key_comparator, less}
use am_kv.Comparator.Bytewise.{internal_key-Laws}
use am_kv.Comparator.Prefix.{
  or_else-ne, or_else-first, or_else, compare_bytes-append, compare_bytes_refl, not_less_nil,
  not_less_zeros, or_else-not_less, or_else-settled,
}
use am_kv.DbFormat.{SequenceNumber, ValueType, type_value, type_deletion}
use am_kv.MemTable.{encode_mem_table}
use am_kv.MemTable.RoundTrip.{length-internal_key}

-- What follows the user's key in an entry.
abbrev pub tail_of : Bytes → SequenceNumber → ValueType → Bytes
tail_of value seq type = encode_uint64 seq ++ (encode_uint8 type ++ encode_bytes value)

pub entry-parts :
    (key value : Bytes) (seq : SequenceNumber) (type : ValueType)
    → length key < 2 ^ 31
    → encode_mem_table key value seq type
      ≡ encode_uint32 (length key + 9) ++ (key ++ tail_of value seq type)
unfolding encode_mem_table
entry-parts key value seq type short =
    let l = length-internal_key key seq type in
    rw (encode_bytes-small (key ++ (encode_uint64 seq ++ encode_uint8 type)) (omega arith), l)
      (simp append_assoc)

compare-entries :
    (k v : Bytes) (s : SequenceNumber) (t : ValueType) (k' v' : Bytes) (s' : SequenceNumber)
    (t' : ValueType)
    → length k < 2 ^ 31
    → length k' < 2 ^ 31
    → compare_bytes (encode_mem_table k v s t) (encode_mem_table k' v' s' t')
      ≡ or_else
          (compare_bytes (encode_uint32 (length k + 9)) (encode_uint32 (length k' + 9)))
          (compare_bytes (k ++ tail_of v s t) (k' ++ tail_of v' s' t'))
compare-entries k v s t k' v' s' t' h h' = rw (
  entry-parts k v s t h,
  entry-parts k' v' s' t' h',
  compare_bytes-append (encode_uint32 (length k + 9)) (encode_uint32 (length k' + 9))
      (k ++ tail_of v s t) (k' ++ tail_of v' s' t')
      (length-encode_uint32 (length k + 9) ∙ sym (length-encode_uint32 (length k' + 9))),
)

pub zero_of_ne : (a b : Bytes) → a ≢ b → is_zero (compare_bytes a b) ≡ false
zero_of_ne a b h = elim (Bool-cases (is_zero (compare_bytes a b))) [
  | inl e ↦ absurd (h (internal_key-Laws.eq_of_equal a b e))
  | inr e ↦ e
]

-- An entry of another key is on the same side of all entries of a key.
pub compare-other :
    (k v : Bytes) (s : SequenceNumber) (t : ValueType) (k' : Bytes) (v1 v2 : Bytes)
    (s1 s2 : SequenceNumber) (t1 t2 : ValueType)
    → k ≢ k'
    → length k < 2 ^ 31
    → length k' < 2 ^ 31
    → compare_bytes (encode_mem_table k v s t) (encode_mem_table k' v1 s1 t1)
      ≡ compare_bytes (encode_mem_table k v s t) (encode_mem_table k' v2 s2 t2)
compare-other k v s t k' v1 v2 s1 s2 t1 t2 ne h h' =
    compare-entries k v s t k' v1 s1 t1 h h'
    ∙ (tails ∙ sym (compare-entries k v s t k' v2 s2 t2 h h'))
  where
    tails :
        or_else
          (compare_bytes (encode_uint32 (length k + 9)) (encode_uint32 (length k' + 9)))
          (compare_bytes (k ++ tail_of v s t) (k' ++ tail_of v1 s1 t1))
        ≡ or_else
            (compare_bytes (encode_uint32 (length k + 9)) (encode_uint32 (length k' + 9)))
            (compare_bytes (k ++ tail_of v s t) (k' ++ tail_of v2 s2 t2))
    tails = elim (Bool-cases (length k == length k')) [
      | inl e ↦
          let same : length k ≡ length k' = ground arith in
          rw (
            compare_bytes-append k k' (tail_of v s t) (tail_of v1 s1 t1) same,
            compare_bytes-append k k' (tail_of v s t) (tail_of v2 s2 t2) same,
            or_else-settled (compare_bytes k k') (compare_bytes (tail_of v s t) (tail_of v1 s1 t1))
                (compare_bytes (tail_of v s t) (tail_of v2 s2 t2)) (zero_of_ne k k' ne),
          )
      | inr e ↦
          or_else-settled
            (compare_bytes (encode_uint32 (length k + 9)) (encode_uint32 (length k' + 9)))
            (compare_bytes (k ++ tail_of v s t) (k' ++ tail_of v1 s1 t1))
            (compare_bytes (k ++ tail_of v s t) (k' ++ tail_of v2 s2 t2))
            (zero_of_ne (encode_uint32 (length k + 9)) (encode_uint32 (length k' + 9)) (λ q.
              let n =
                encode_uint32-injective (length k + 9) (length k' + 9) (omega arith) (omega arith)
                  q in
              let m : length k ≡ length k' = omega arith in absurd (ground arith)))
    ]

-- Entries of two keys are two entries.
pub other-ne :
    (k v : Bytes) (s : SequenceNumber) (t : ValueType) (k' v' : Bytes) (s' : SequenceNumber)
    (t' : ValueType)
    → k ≢ k'
    → length k < 2 ^ 31
    → length k' < 2 ^ 31
    → is_zero (compare_bytes (encode_mem_table k v s t) (encode_mem_table k' v' s' t')) ≡ false
other-ne k v s t k' v' s' t' ne h h' =
    rw (compare-entries k v s t k' v' s' t' h h') (elim (Bool-cases (length k == length k')) [
      | inl e ↦
          let same : length k ≡ length k' = ground arith in
          rw
            (
              same,
              compare_bytes_refl (encode_uint32 (length k' + 9)),
              compare_bytes-append k k' (tail_of v s t) (tail_of v' s' t') same,
            )
            (or_else-ne (compare_bytes k k') (compare_bytes (tail_of v s t) (tail_of v' s' t'))
              (zero_of_ne k k' ne))
      | inr e ↦
          or_else-ne (compare_bytes (encode_uint32 (length k + 9)) (encode_uint32 (length k' + 9)))
            (compare_bytes (k ++ tail_of v s t) (k' ++ tail_of v' s' t'))
            (zero_of_ne (encode_uint32 (length k + 9)) (encode_uint32 (length k' + 9)) (λ q.
              let n =
                encode_uint32-injective (length k + 9) (length k' + 9) (omega arith) (omega arith)
                  q in
              let m : length k ≡ length k' = omega arith in absurd (ground arith)))
    ])

-- What `LookupKey` looks for with the sequence number 0 is behind no value of the key.
pub value-not_less :
    (k v : Bytes) (s : SequenceNumber)
    → length k < 2 ^ 31
    → length v < 2 ^ 32
    → less internal_key_comparator
        (encode_mem_table k v s type_value)
        (encode_mem_table k [] 0 type_value)
      ≡ false
value-not_less k v s h hv =
    let e : encode_bytes [] ≡ replicate 4 0 =
      encode_bytes-small [] (omega arith) ∙ (append-nil (encode_uint32 0) ∙ encode_uint32_zero) in
    rw
      (
        compare-entries k v s type_value k [] 0 type_value h h,
        compare_bytes_refl (encode_uint32 (length k + 9)),
        compare_bytes-append k k (tail_of v s type_value) (tail_of [] 0 type_value) refl,
        compare_bytes_refl k,
        compare_bytes-append (encode_uint64 s) (encode_uint64 0)
            (encode_uint8 type_value ++ encode_bytes v) (encode_uint8 type_value ++ encode_bytes [])
            (length-encode_uint64 s ∙ sym (length-encode_uint64 0)),
        compare_bytes-append (encode_uint8 type_value) (encode_uint8 type_value) (encode_bytes v)
            (encode_bytes []) refl,
        compare_bytes_refl (encode_uint8 type_value),
        encode_bytes-small v hv,
        e,
        ← append-nil {A = ℕ} (replicate 4 0),
        compare_bytes-append (encode_uint32 (length v)) (replicate 4 0) v []
            (length-encode_uint32 (length v)),
        encode_uint64_zero,
      )
      (or_else-not_less (compare_bytes (encode_uint64 s) (replicate 8 0))
        (or_else (compare_bytes (encode_uint32 (length v)) (replicate 4 0)) (compare_bytes v []))
        (not_less_zeros 8 (encode_uint64 s) (length-encode_uint64 s))
        (or_else-not_less (compare_bytes (encode_uint32 (length v)) (replicate 4 0))
          (compare_bytes v [])
          (not_less_zeros 4 (encode_uint32 (length v)) (length-encode_uint32 (length v)))
          (not_less_nil v)))

-- Two values of a key that are equally long, with one sequence number, are ordered as their bytes.
pub value-less :
    (k v v' : Bytes) (s : SequenceNumber)
    → length k < 2 ^ 31
    → length v < 2 ^ 32
    → length v ≡ length v'
    → less internal_key_comparator
        (encode_mem_table k v s type_value)
        (encode_mem_table k v' s type_value)
      ≡ less internal_key_comparator v v'
value-less k v v' s h hv same = rw (
  compare-entries k v s type_value k v' s type_value h h,
  compare_bytes_refl (encode_uint32 (length k + 9)),
  compare_bytes-append k k (tail_of v s type_value) (tail_of v' s type_value) refl,
  compare_bytes_refl k,
  compare_bytes-append (encode_uint64 s) (encode_uint64 s)
      (encode_uint8 type_value ++ encode_bytes v) (encode_uint8 type_value ++ encode_bytes v') refl,
  compare_bytes_refl (encode_uint64 s),
  compare_bytes-append (encode_uint8 type_value) (encode_uint8 type_value) (encode_bytes v)
      (encode_bytes v') refl,
  compare_bytes_refl (encode_uint8 type_value),
  encode_bytes-small v hv,
  encode_bytes-small v' (omega (arith, same)),
  same,
  compare_bytes-append (encode_uint32 (length v')) (encode_uint32 (length v')) v v' refl,
  compare_bytes_refl (encode_uint32 (length v')),
)

-- Entries of two keys that are equally long are ordered as the keys.
pub compare-same_length :
    (k v : Bytes) (s : SequenceNumber) (t : ValueType) (k' v' : Bytes) (s' : SequenceNumber)
    (t' : ValueType)
    → length k < 2 ^ 31
    → length k' < 2 ^ 31
    → length k ≡ length k'
    → is_zero (compare_bytes k k') ≡ false
    → compare_bytes (encode_mem_table k v s t) (encode_mem_table k' v' s' t') ≡ compare_bytes k k'
compare-same_length k v s t k' v' s' t' h h' same ne = rw (
  compare-entries k v s t k' v' s' t' h h',
  same,
  compare_bytes_refl (encode_uint32 (length k' + 9)),
  compare_bytes-append k k' (tail_of v s t) (tail_of v' s' t') same,
  or_else-first (compare_bytes k k') (compare_bytes (tail_of v s t) (tail_of v' s' t')) ne,
)

-- The mark of a deletion is in front of every value of the key with the same sequence number.
pub deletion-less :
    (k v : Bytes) (s : SequenceNumber)
    → length k < 2 ^ 31
    → less internal_key_comparator
        (encode_mem_table k [] s type_deletion)
        (encode_mem_table k v s type_value)
      ≡ true
unfolding compare_bytes encode_uint8 be_bytes
deletion-less k v s h = rw (
  compare-entries k [] s type_deletion k v s type_value h h,
  compare_bytes_refl (encode_uint32 (length k + 9)),
  compare_bytes-append k k (tail_of [] s type_deletion) (tail_of v s type_value) refl,
  compare_bytes_refl k,
  compare_bytes-append (encode_uint64 s) (encode_uint64 s)
      (encode_uint8 type_deletion ++ encode_bytes []) (encode_uint8 type_value ++ encode_bytes v)
      refl,
  compare_bytes_refl (encode_uint64 s),
)
