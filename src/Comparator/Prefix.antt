-- ===== src/Comparator/Prefix.antt =====
-- Comparing strings that begin with parts of the same length.
use Prim.Native.Nat.{Ordering}
use am_kv.Prelude.{ℕ, zero, suc, false, [], ◌∷◌, ◌++◌, Bytes, ◌≡◌, refl, arith, length, replicate}
use am_kv.Comparator.{is_negative, is_zero, compare_bytes}

-- The first comparison, or the second if the first finds no difference.
abbrev pub or_else : Ordering → Ordering → Ordering
or_else Ordering.lt o = Ordering.lt
or_else Ordering.eq o = o
or_else Ordering.gt o = Ordering.gt

pub compare_bytes-append :
    (a b x y : Bytes)
    → length a ≡ length b
    → compare_bytes (a ++ x) (b ++ y) ≡ or_else (compare_bytes a b) (compare_bytes x y)
unfolding compare_bytes
compare_bytes-append [] [] x y h = refl
compare_bytes-append [] (b ∷ bs) x y h = absurd (omega arith)
compare_bytes-append (a ∷ as') [] x y h = absurd (omega arith)
compare_bytes-append (a ∷ as') (b ∷ bs) x y h =
    ground (arith, compare_bytes-append as' bs x y (omega arith))

pub compare_bytes_refl : (a : Bytes) → compare_bytes a a ≡ Ordering.eq
unfolding compare_bytes
compare_bytes_refl [] = refl
compare_bytes_refl (a ∷ bs) = ground (arith, compare_bytes_refl bs)

-- Nothing is less than the empty string, and no string of a length than as many zeros.
pub not_less_nil : (x : Bytes) → is_negative (compare_bytes x []) ≡ false
unfolding compare_bytes
not_less_nil [] = refl
not_less_nil (x ∷ xs) = refl

pub not_less_zeros :
    (n : ℕ) (x : Bytes) → length x ≡ n → is_negative (compare_bytes x (replicate n 0)) ≡ false
unfolding compare_bytes
not_less_zeros zero [] h = refl
not_less_zeros zero (x ∷ xs) h = absurd (omega arith)
not_less_zeros (suc n) [] h = absurd (omega arith)
not_less_zeros (suc n) (x ∷ xs) h = ground (arith, not_less_zeros n xs (omega arith))

pub or_else-not_less :
    (o p : Ordering)
    → is_negative o ≡ false
    → is_negative p ≡ false
    → is_negative (or_else o p) ≡ false
or_else-not_less Ordering.lt p h k = h
or_else-not_less Ordering.eq p h k = k
or_else-not_less Ordering.gt p h k = h

-- A difference in the first parts settles the comparison.
pub or_else-settled : (o p q : Ordering) → is_zero o ≡ false → or_else o p ≡ or_else o q
or_else-settled Ordering.lt p q h = refl
or_else-settled Ordering.eq p q h = cc
or_else-settled Ordering.gt p q h = refl

pub or_else-ne : (o p : Ordering) → is_zero o ≡ false → is_zero (or_else o p) ≡ false
or_else-ne Ordering.lt p h = refl
or_else-ne Ordering.eq p h = cc
or_else-ne Ordering.gt p h = refl

pub or_else-first : (o p : Ordering) → is_zero o ≡ false → or_else o p ≡ o
or_else-first Ordering.lt p h = refl
or_else-first Ordering.eq p h = cc
or_else-first Ordering.gt p h = refl
