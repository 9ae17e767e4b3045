-- ===== src/MemTable/Table/Getting.antt =====
-- What `Get` finds behind one `Add`, and behind two of the same key.
use am_kv.Prelude.{
  ◌<◌, ◌≤◌, ◌^◌, ◌≡◌, ◌≢◌, refl, sym, ap, ◌∙◌, subst, true, false, List, [], ◌∷◌, ◌++◌, Bytes, All,
  length, some, inl, inr, Bool-cases, ok, Returns, Returns-map, Returns-bind, ◌>>=◌,
}
use mathlib.Core.Bool.{true≢false}
use mathlib.Core.Option.{some-injective, none-ne-some}
use am_kv.Comparator.{less, equal, internal_key_comparator, is_negative}
use am_kv.Comparator.Bytewise.{internal_key-Laws}
use am_kv.DbFormat.{SequenceNumber, ValueType, type_value}
use am_kv.MemTable.{lookup_key, encode_mem_table, get_at}
use am_kv.MemTable.RoundTrip.{get_at-value}
use am_kv.MemTable.Order.{compare-other, other-ne, value-not_less}
use am_kv.MemTable.Table.{MemTable, Answers, add, get}
use am_kv.MemTable.Table.Holding.{HoldsEntries, first_entry, add-HoldsEntries, get-first_entry}
use am_kv.SkipList.Refinement.{has_key, insert_key, less-equal}
use am_kv.SkipList.Iterator.Walking.{keys_from}

-- The entry of a key other than this one.
pub record IsOther (key entry : Bytes) : Type 0 where
  pub own : Bytes
  pub value : Bytes
  pub seq : SequenceNumber
  pub type : ValueType
  pub encoded : entry ≡ encode_mem_table own value seq type
  pub differs : own ≢ key
  pub short : length own < 2 ^ 31

-- The entry of a value.
abbrev pub value_entry : Bytes → SequenceNumber → Bytes → Bytes
value_entry key seq value = encode_mem_table key value seq type_value

-- What is looked up.
abbrev pub sought : Bytes → Bytes
sought key = encode_mem_table key [] 0 type_value

less-other :
    (key value entry : Bytes) (seq : SequenceNumber)
    → length key < 2 ^ 31
    → IsOther key entry
    → less internal_key_comparator entry (value_entry key seq value)
      ≡ less internal_key_comparator entry (sought key)
less-other key value entry seq short o = rw o.encoded (
    ap is_negative (
      compare-other o.own o.value o.seq o.type key value [] seq 0 type_value type_value o.differs
        o.short short))

-- Entries of other keys are other entries.
has_key-other :
    (key value : Bytes) (seq : SequenceNumber) (es : List Bytes)
    → length key < 2 ^ 31
    → All (IsOther key) es
    → has_key internal_key_comparator (value_entry key seq value) es ≡ false
has_key-other key value seq [] short o = refl
has_key-other key value seq (e ∷ es) short o =
    let differs : equal internal_key_comparator (value_entry key seq value) e ≡ false =
      rw o.0.encoded (
        other-ne key value seq type_value o.0.own o.0.value o.0.seq o.0.type
          (λ q. o.0.differs (sym q)) short o.0.short) in
    rw differs (has_key-other key value seq es short o.1)

-- The entry of a value is the first that is not less than what is looked up.
first-added :
    (key value : Bytes) (seq : SequenceNumber) (es : List Bytes)
    → length key < 2 ^ 31
    → length value < 2 ^ 32
    → All (IsOther key) es
    → first_entry (
        keys_from internal_key_comparator
          (sought key)
          (insert_key internal_key_comparator (value_entry key seq value) es))
      ≡ some (value_entry key seq value)
first-added key value seq [] short hv o = rw (value-not_less key value seq short hv)
first-added key value seq (e ∷ es) short hv o =
    let same = less-other key value e seq short o.0 in
    elim (Bool-cases (less internal_key_comparator e (sought key))) [
      | inl l ↦ rw (same, l, l) (first-added key value seq es short hv o.1)
      | inr l ↦ rw (same, l, value-not_less key value seq short hv)
    ]

-- What is less than a bound is less than what is not.
pub less-bound :
    (e t x : Bytes)
    → less internal_key_comparator e t ≡ true
    → less internal_key_comparator x t ≡ false
    → less internal_key_comparator e x ≡ true
less-bound e t x l n = elim (Bool-cases (less internal_key_comparator e x)) [
  | inl g ↦ g
  | inr g ↦ elim (Bool-cases (equal internal_key_comparator e x)) [
    | inl q ↦
        let same : less internal_key_comparator e t ≡ less internal_key_comparator x t =
          ap (λ z. less internal_key_comparator z t) (internal_key-Laws.eq_of_equal e x q) in
        cc
    | inr q ↦ cc (internal_key-Laws.less_trans x e t (internal_key-Laws.less_total e x g q) l)
  ]
]

-- An entry that is greater than the first that is not less than the looked up one stays behind it.
first-behind :
    (t x k : Bytes) (es : List Bytes)
    → first_entry (keys_from internal_key_comparator t es) ≡ some k
    → less internal_key_comparator k x ≡ true
    → less internal_key_comparator x t ≡ false
    → first_entry (keys_from internal_key_comparator t (insert_key internal_key_comparator x es))
      ≡ some k
first-behind t x k [] f l n = absurd (none-ne-some k f)
first-behind t x k (e ∷ es) f l n = elim (Bool-cases (less internal_key_comparator e t)) [
  | inl g ↦ rw (less-bound e t x g n, g) (first-behind t x k es (rw g at f) l n)
  | inr g ↦
      let q : some e ≡ some k = rw g at f in
      let m : less internal_key_comparator e x ≡ true =
        subst (λ z. less internal_key_comparator z x ≡ true) (sym (some-injective e k q)) l in
      rw (m, g) q
]

has_key-insert_key :
    (x y : Bytes) (es : List Bytes)
    → equal internal_key_comparator x y ≡ false
    → has_key internal_key_comparator x es ≡ false
    → has_key internal_key_comparator x (insert_key internal_key_comparator y es) ≡ false
has_key-insert_key x y [] n h = rw n
has_key-insert_key x y (e ∷ es) n h = elim (Bool-cases (equal internal_key_comparator x e)) [
  | inl q ↦ absurd (true≢false (rw q at h))
  | inr q ↦ elim (Bool-cases (less internal_key_comparator e y)) [
    | inl l ↦ rw (l, q) (has_key-insert_key x y es n (rw q at h))
    | inr l ↦ rw (l, n, q) (rw q at h)
  ]
]

-- `Get` of a key finds the value that `Add` has put under it, if all the entries before are those of
-- other keys, the keys are shorter than 2 ^ 31 bytes, the value is shorter than 2 ^ 32, the sequence
-- number is below 2 ^ 64, and the node's height is from 1 to 12.
pub get-add :
    (m : MemTable) (es : List Bytes) (a : Answers) (seq : SequenceNumber) (key value old : Bytes)
    → HoldsEntries m es
    → All (IsOther key) es
    → length key < 2 ^ 31
    → length value < 2 ^ 32
    → seq < 2 ^ 64
    → 0 < a.height
    → a.height ≤ 12
    → Returns
        (λ m'. get (lookup_key key 0) old m' ≡ ok (true, old ++ value))
        (add a seq type_value key value m)
unfolding lookup_key
get-add m es a seq key value old h others short hv hs low high =
    Returns-map (add a seq type_value key value m)
      (add-HoldsEntries m es a seq type_value key value h
        (has_key-other key value seq es short others) low high)
      (λ m' h'.
        get-first_entry m' (insert_key internal_key_comparator (value_entry key seq value) es)
          (lookup_key key 0) old h'
        ∙ (ap (λ e. get_at e old) (first-added key value seq es short hv others)
            ∙ get_at-value key value old seq short hv hs))

-- A value of a key that is added after another value of it is not seen, if its entry is greater:
-- `Get` goes on finding the first value. The conditions are those of one `Add`.
pub get-add-again :
    (m : MemTable) (es : List Bytes) (a a' : Answers) (seq seq' : SequenceNumber)
    (key value value' old : Bytes)
    → HoldsEntries m es
    → All (IsOther key) es
    → length key < 2 ^ 31
    → length value < 2 ^ 32
    → length value' < 2 ^ 32
    → seq < 2 ^ 64
    → less internal_key_comparator (value_entry key seq value) (value_entry key seq' value') ≡ true
    → 0 < a.height
    → a.height ≤ 12
    → 0 < a'.height
    → a'.height ≤ 12
    → Returns
        (λ m'. get (lookup_key key 0) old m' ≡ ok (true, old ++ value))
        (add a seq type_value key value m >>= add a' seq' type_value key value')
unfolding lookup_key
get-add-again m es a a' seq seq' key value value' old h others short hv hv' hs l low high low'
      high' =
    let c = internal_key_comparator in
    let e = value_entry key seq value in
    let e' = value_entry key seq' value' in
    let absent : has_key c e' (insert_key c e es) ≡ false =
      has_key-insert_key e' e es (less-equal c internal_key-Laws e e' l)
        (has_key-other key value' seq' es short others) in
    Returns-bind (λ m1. HoldsEntries m1 (insert_key c e es))
      (λ m'. get (lookup_key key 0) old m' ≡ ok (true, old ++ value))
      (add a seq type_value key value m) (add a' seq' type_value key value')
      (add-HoldsEntries m es a seq type_value key value h
        (has_key-other key value seq es short others) low high)
      (λ m1 h1.
        Returns-map (add a' seq' type_value key value' m1)
          (add-HoldsEntries m1 (insert_key c e es) a' seq' type_value key value' h1 absent low'
            high')
          (λ m' h'.
            get-first_entry m' (insert_key c e' (insert_key c e es)) (lookup_key key 0) old h'
            ∙ (ap (λ x. get_at x old)
                  (first-behind (sought key) e' e (insert_key c e es)
                    (first-added key value seq es short hv others) l
                    (value-not_less key value' seq' short hv'))
                ∙ get_at-value key value old seq short hv hs)))
