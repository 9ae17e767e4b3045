-- ===== src/Prelude/Faults.antt =====
-- Results of code that can leave the language's defined behaviour: a read past the end of a
-- string, a `substr` that throws, an assertion that fails, or (no C++ behaviour) a loop of the model that ran out of fuel.
use Prim.Native.Nat.{ℕ, ◌≤◌}
use mathlib.Core.Path.{◌≡◌, refl}
use mathlib.Core.List.{◌++◌}
use native.Mathlib.Omega.{arith}
use am_kv.Prelude.Tests.{ltb, if◌then◌else◌, le→ltb_false}
use am_kv.Prelude.Lists.{Bytes, length, take, drop, length-append, take_front, drop_front, take_all}

pub data Fault : Type 0 where
  over_read out_of_range invalid_argument failed_assertion no_fuel : Fault

pub data Result {ℓ} (A : Type ℓ) : Type ℓ where
  ok : A → Result A
  fault : Fault → Result A

infixl 5 ◌>>=◌
abbrev pub ◌>>=◌ {ℓ κ} : {A : Type ℓ} {B : Type κ} → Result A → (A → Result B) → Result B
ok a >>= f = f a
fault e >>= f = fault e

pub bind_assoc {ℓ κ μ} :
    {A : Type ℓ} {B : Type κ} {C : Type μ} (m : Result A) (f : A → Result B) (g : B → Result C)
    → (m >>= λ a. f a >>= g) ≡ ((m >>= f) >>= g)
bind_assoc (ok a) f g = refl
bind_assoc (fault e) f g = refl

-- The result is a value with `P`, or a fault of the program's own, never that of the model's fuel.
abbrev pub Safe {ℓ} : {A : Type ℓ} → (A → Type 0) → Result A → Type 0
Safe P (ok a) = P a
Safe P (fault no_fuel) = ⊥
Safe P (fault _) = Unit

-- The result is a value with `P`.
abbrev pub Returns {ℓ} : {A : Type ℓ} → (A → Type 0) → Result A → Type 0
Returns P (ok a) = P a
Returns P (fault _) = ⊥

pub Returns-map {ℓ} :
    {A : Type ℓ} {P Q : A → Type 0} (m : Result A)
    → Returns P m
    → ((a : A) → P a → Q a)
    → Returns Q m
Returns-map (ok a) h k = k a h
Returns-map (fault e) h k = h

pub Returns-bind {ℓ κ} :
    {A : Type ℓ} {B : Type κ} (P : A → Type 0) (Q : B → Type 0) (m : Result A) (f : A → Result B)
    → Returns P m
    → ((a : A) → P a → Returns Q (f a))
    → Returns Q (m >>= f)
Returns-bind P Q (ok a) f h k = k a h
Returns-bind P Q (fault e) f h k = absurd h

pub Safe-bind {ℓ κ} :
    {A : Type ℓ} {B : Type κ} (P : A → Type 0) (Q : B → Type 0) (m : Result A) (f : A → Result B)
    → Safe P m
    → ((a : A) → P a → Safe Q (f a))
    → Safe Q (m >>= f)
Safe-bind P Q (ok a) f h k = k a h
Safe-bind P Q (fault over_read) f h k = tt
Safe-bind P Q (fault out_of_range) f h k = tt
Safe-bind P Q (fault invalid_argument) f h k = tt
Safe-bind P Q (fault failed_assertion) f h k = tt
Safe-bind P Q (fault no_fuel) f h k = absurd h

pub Safe-ne_no_fuel {ℓ} :
    {A : Type ℓ} (P : A → Type 0) (m : Result A) → Safe P m → m ≡ fault no_fuel → ⊥
Safe-ne_no_fuel P (ok a) h e = cc
Safe-ne_no_fuel P (fault over_read) h e = cc
Safe-ne_no_fuel P (fault out_of_range) h e = cc
Safe-ne_no_fuel P (fault invalid_argument) h e = cc
Safe-ne_no_fuel P (fault failed_assertion) h e = cc
Safe-ne_no_fuel P (fault no_fuel) h e = h

pub ok-injective {ℓ} : {A : Type ℓ} (a b : A) → ok a ≡ ok b → a ≡ b
ok-injective a b e = cc

-- `substr` of a string or a view: an exception if it begins behind the end.
pub substr : Bytes → ℕ → ℕ → Result Bytes
substr s pos n = if ltb (length s) pos then fault out_of_range else ok (take n (drop pos s))

pub substr-append :
    (a b c : Bytes) (pos n : ℕ)
    → pos ≡ length a
    → n ≡ length b
    → substr (a ++ (b ++ c)) pos n ≡ ok b
unfolding substr
substr-append a b c pos n e k = rw (
  le→ltb_false (length (a ++ (b ++ c))) pos (omega (arith, length-append a (b ++ c))),
  drop_front pos a (b ++ c) e,
  take_front n b c k,
)

-- The rest of a string, by a count that is no smaller.
pub substr-rest :
    (a b : Bytes) (pos n : ℕ) → pos ≡ length a → length b ≤ n → substr (a ++ b) pos n ≡ ok b
unfolding substr
substr-rest a b pos n e k = rw (
  le→ltb_false (length (a ++ b)) pos (omega (arith, length-append a b)),
  drop_front pos a b e,
  take_all n b k,
)

-- A view of what stands behind a first part.
pub substr-behind :
    (a b : Bytes) (pos n : ℕ) → pos ≡ length a → substr (a ++ b) pos n ≡ ok (take n b)
unfolding substr
substr-behind a b pos n e =
    rw (le→ltb_false (length (a ++ b)) pos (omega (arith, length-append a b)), drop_front pos a b e)
