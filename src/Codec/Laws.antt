-- ===== src/Codec/Laws.antt =====
-- What the encoders write, and the loads they are read back by.
use am_kv.Prelude.{
  over_read, fault, ap, take, ltb, inr, inl, Safe-bind, Bool-cases, Safe, ℕ, zero, suc, ◌+◌, ◌*◌,
  ◌/◌, ◌%◌, ◌^◌, ◌<◌, ◌≡◌, refl, sym, arith, Bytes, [], ◌∷◌, ◌++◌, length, length-append,
  take_front, ok, le→ltb_false,
}
use native.Mathlib.Nat.{pow-suc}
use am_kv.Codec.{
  decode_uint8, copy_bytes, decode_uint32, decode_bytes, decode_uint64, be_bytes, be_value, load,
}

abbrev pub IsByte : ℕ → Type 0
IsByte b = b < 256

pub length-be_bytes : (n v : ℕ) → length (be_bytes n v) ≡ n
unfolding be_bytes
length-be_bytes zero v = refl
length-be_bytes (suc n) v =
    omega (arith, length-append (be_bytes n (v / 256)) (v % 256 ∷ []), length-be_bytes n (v / 256))

be_value-append :
    (acc : ℕ) (xs ys : Bytes) → be_value acc (xs ++ ys) ≡ be_value (be_value acc xs) ys
unfolding be_value
be_value-append acc [] ys = refl
be_value-append acc (x ∷ xs) ys = be_value-append (acc * 256 + x) xs ys

be_value-be_bytes : (n v : ℕ) → v < 256 ^ n → be_value 0 (be_bytes n v) ≡ v
unfolding be_bytes be_value
be_value-be_bytes zero v h = omega arith
be_value-be_bytes (suc n) v h =
    rw (be_value-append, be_value-be_bytes n (v / 256) (omega (arith, pow-suc 256 n))) (omega arith)

pub load-be_bytes :
    (n v : ℕ) (rest : Bytes) → v < 256 ^ n → load n (be_bytes n v ++ rest) ≡ ok (n, v)
unfolding load
load-be_bytes n v rest h =
    rw
      (
        le→ltb_false (length (be_bytes n v ++ rest)) n
            (omega (arith, length-append (be_bytes n v) rest, length-be_bytes n v)),
        take_front n (be_bytes n v) rest (sym (length-be_bytes n v)),
        be_value-be_bytes n v h,
      )
      refl

-- A load is a value or an over-read, and so is a string.
pub load-Safe : (n : ℕ) (input : Bytes) → Safe (λ _. Unit) (load n input)
unfolding load
load-Safe n input = elim (Bool-cases (ltb (length input) n)) [ inl e ↦ rw e tt | inr e ↦ rw e tt ]

pub decode_uint32-Safe : (input : Bytes) → Safe (λ _. Unit) (decode_uint32 input)
unfolding decode_uint32
decode_uint32-Safe input = load-Safe 4 input

pub decode_uint64-Safe : (input : Bytes) → Safe (λ _. Unit) (decode_uint64 input)
unfolding decode_uint64
decode_uint64-Safe input = load-Safe 8 input

pub decode_bytes-Safe : (input : Bytes) → Safe (λ _. Unit) (decode_bytes input)
unfolding decode_bytes decode_uint32
decode_bytes-Safe input =
    Safe-bind (λ _. Unit) (λ _. Unit) (load 4 input) (copy_bytes input) (load-Safe 4 input)
      (λ (ret, len) h. elim (Bool-cases (ltb (length input) (4 + len))) [
        | inl e ↦ rw e tt
        | inr e ↦ rw e tt
      ])

zero_add : (b : ℕ) → 0 * 256 + b ≡ b
zero_add b = omega arith

-- A view of one byte.
pub decode_uint8_one : (b : ℕ) → decode_uint8 (b ∷ []) ≡ ok (1, b)
unfolding decode_uint8 load be_value take
decode_uint8_one b = ap (λ v. ok (1, v)) (zero_add b)

-- A view of nothing holds no integer.
pub decode_uint32_nil : decode_uint32 [] ≡ fault over_read
unfolding decode_uint32 load
decode_uint32_nil = refl
