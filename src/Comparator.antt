-- ===== src/Comparator.antt =====
-- amkv/lsm/comparator.h and comparator.cc: the abstract class `Comparator`, and the comparison that
-- its implementations share. The sign of the number that `Compare` returns is an `Ordering`.
pub mod Bytewise
pub mod Prefix
use Prim.Native.Nat.{Ordering, compare}
use am_kv.Prelude.{Bool, true, false, [], ◌∷◌, Bytes, ◌≡◌}

pub record Comparator : Type 0 where
  pub compare : Bytes → Bytes → Ordering

-- `Compare(a, b) < 0` and `Compare(a, b) == 0`.
abbrev pub is_negative : Ordering → Bool
is_negative Ordering.lt = true
is_negative Ordering.eq = false
is_negative Ordering.gt = false

abbrev pub is_zero : Ordering → Bool
is_zero Ordering.lt = false
is_zero Ordering.eq = true
is_zero Ordering.gt = false

abbrev pub less : Comparator → Bytes → Bytes → Bool
less c a b = is_negative (c.compare a b)

abbrev pub equal : Comparator → Bytes → Bytes → Bool
equal c a b = is_zero (c.compare a b)

-- What a sorted structure needs of a comparator.
pub record Laws (c : Comparator) : Type 0 where
  pub less_trans : (x y z : Bytes) → less c x y ≡ true → less c y z ≡ true → less c x z ≡ true
  pub less_irrefl : (x : Bytes) → less c x x ≡ false
  pub less_total : (x y : Bytes) → less c x y ≡ false → equal c x y ≡ false → less c y x ≡ true
  pub eq_of_equal : (x y : Bytes) → equal c x y ≡ true → x ≡ y

-- `string_view::compare`: by the first byte that differs, and then by the length.
unfoldable pub compare_bytes : Bytes → Bytes → Ordering
compare_bytes [] [] = Ordering.eq
compare_bytes [] (y ∷ ys) = Ordering.lt
compare_bytes (x ∷ xs) [] = Ordering.gt
compare_bytes (x ∷ xs) (y ∷ ys) =
    let rest = compare_bytes xs ys in
    elim (compare x y) [
      | Ordering.lt ↦ Ordering.lt
      | Ordering.eq ↦ rest
      | Ordering.gt ↦ Ordering.gt
    ]

-- `Compare` of InternalKeyComparator, and of BytewiseComparator.
abbrev pub internal_key_comparator : Comparator
internal_key_comparator = record { compare = compare_bytes }

abbrev pub bytewise_comparator : Comparator
bytewise_comparator = record { compare = compare_bytes }
