-- ===== src/VersionEdit/Sets.antt =====
-- `std::set<std::pair<size_t, uint64_t>>`: pairs in ascending order, each once.
use am_kv.Prelude.{
  ℕ, ◌≡◌, refl, arith, Bool, true, false, ◌&&◌, ◌||◌, List, [], ◌∷◌, ◌++◌, ltb, ◌==◌, if◌then◌else◌,
}

abbrev pub PairSet : Type 0
PairSet = List (ℕ × ℕ)

-- `operator<` of `std::pair`.
abbrev pub pair_lt : ℕ × ℕ → ℕ × ℕ → Bool
pair_lt (a, b) (c, d) = ltb a c || ((a == c) && ltb b d)

pub set_insert : ℕ × ℕ → PairSet → PairSet
set_insert p [] = p ∷ []
set_insert p (q ∷ qs) =
    if pair_lt p q then p ∷ (q ∷ qs) else if pair_lt q p then q ∷ set_insert p qs else q ∷ qs

-- Every element of the first set is below the second argument.
abbrev pub Below : PairSet → ℕ × ℕ → Type 0
Below [] p = Unit
Below (q ∷ qs) p = (pair_lt q p ≡ true) × Below qs p

abbrev pub IsSorted : PairSet → Type 0
IsSorted [] = Unit
IsSorted (q ∷ []) = Unit
IsSorted (q ∷ r ∷ qs) = (pair_lt q r ≡ true) × IsSorted (r ∷ qs)

pair_lt_asymm : (p q : ℕ × ℕ) → pair_lt q p ≡ true → pair_lt p q ≡ false
pair_lt_asymm (a, b) (c, d) h = ground arith

pub pair_lt_trans : (p q r : ℕ × ℕ) → pair_lt p q ≡ true → pair_lt q r ≡ true → pair_lt p r ≡ true
pair_lt_trans (a, b) (c, d) (e, f) h k = ground arith

-- An insertion above all elements goes to the end.
pub set_insert-Below : (p : ℕ × ℕ) (qs : PairSet) → Below qs p → set_insert p qs ≡ qs ++ (p ∷ [])
unfolding set_insert
set_insert-Below p [] h = refl
set_insert-Below p (q ∷ qs) h = rw (pair_lt_asymm p q h.0, h.0, set_insert-Below p qs h.1)

pub Below-trans : (qs : PairSet) (p r : ℕ × ℕ) → Below qs p → pair_lt p r ≡ true → Below qs r
Below-trans [] p r h k = tt
Below-trans (q ∷ qs) p r h k = (pair_lt_trans q p r h.0 k, Below-trans qs p r h.1 k)

pub Below-append : (qs rs : PairSet) (p : ℕ × ℕ) → Below qs p → Below rs p → Below (qs ++ rs) p
Below-append [] rs p h k = k
Below-append (q ∷ qs) rs p h k = (h.0, Below-append qs rs p h.1 k)
