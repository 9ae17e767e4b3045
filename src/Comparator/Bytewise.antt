-- ===== src/Comparator/Bytewise.antt =====
-- The order of byte strings is a strict total order.
use am_kv.Prelude.{true, false, [], ◌∷◌, Bytes, ◌≡◌, refl, arith}
use am_kv.Comparator.{is_negative, is_zero, Laws, compare_bytes, internal_key_comparator}

before_trans :
    (x y z : Bytes)
    → is_negative (compare_bytes x y) ≡ true
    → is_negative (compare_bytes y z) ≡ true
    → is_negative (compare_bytes x z) ≡ true
unfolding compare_bytes
before_trans [] [] z h k = cc
before_trans [] (y ∷ ys) [] h k = cc
before_trans [] (y ∷ ys) (z ∷ zs) h k = refl
before_trans (x ∷ xs) [] z h k = cc
before_trans (x ∷ xs) (y ∷ ys) [] h k = cc
before_trans (x ∷ xs) (y ∷ ys) (z ∷ zs) h k = ground (arith, before_trans xs ys zs)

before_irrefl : (x : Bytes) → is_negative (compare_bytes x x) ≡ false
unfolding compare_bytes
before_irrefl [] = refl
before_irrefl (x ∷ xs) = ground (arith, before_irrefl xs)

before_total :
    (x y : Bytes)
    → is_negative (compare_bytes x y) ≡ false
    → is_zero (compare_bytes x y) ≡ false
    → is_negative (compare_bytes y x) ≡ true
unfolding compare_bytes
before_total [] [] h k = cc
before_total [] (y ∷ ys) h k = cc
before_total (x ∷ xs) [] h k = refl
before_total (x ∷ xs) (y ∷ ys) h k = ground (arith, before_total xs ys)

eq_of_zero : (x y : Bytes) → is_zero (compare_bytes x y) ≡ true → x ≡ y
unfolding compare_bytes
eq_of_zero [] [] h = refl
eq_of_zero [] (y ∷ ys) h = cc
eq_of_zero (x ∷ xs) [] h = cc
eq_of_zero (x ∷ xs) (y ∷ ys) h = ground (arith, eq_of_zero xs ys)

pub internal_key-Laws : Laws internal_key_comparator
internal_key-Laws = record {
  less_trans = before_trans;
  less_irrefl = before_irrefl;
  less_total = before_total;
  eq_of_equal = eq_of_zero;
}
