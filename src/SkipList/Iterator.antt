-- ===== src/SkipList/Iterator.antt =====
-- amkv/lsm/skiplist_iter.h: an iterator is the node it stands at, if there is one. The assertions
-- that it stands at one are kept.
pub mod Walking
pub mod Backwards
use am_kv.Prelude.{
  zero, suc, ℕ, ◌==◌, if◌then◌else◌, List, [], ◌∷◌, Bytes, Option, none, some, Result, ok, fault,
  failed_assertion, no_fuel, ◌>>=◌,
}
use am_kv.Comparator.{Comparator}
use am_kv.SkipList.{
  Ptr, head, SkipList, load_next, find_greater_or_equal, find_less_than, find_last,
}

pub seek_to_first : SkipList → Result (Option Ptr)
seek_to_first s = load_next s 0 head

-- A search that ends at the head has found no node.
abbrev pub but_head : Ptr → Option Ptr
but_head x = if x == head then none else some x

pub seek_to_last : SkipList → Result (Option Ptr)
seek_to_last s = do x ← find_last s; ok (but_head x)

pub next : SkipList → Option Ptr → Result (Option Ptr)
next s none = fault failed_assertion
next s (some x) = load_next s 0 x

pub iterator_key : SkipList → Option Ptr → Result Bytes
iterator_key s none = fault failed_assertion
iterator_key s (some x) = ok (s.key x)

module _ (c : Comparator) where
  unfoldable pub seek : Bytes → SkipList → Result (Option Ptr)
  seek target s = do (x, _) ← find_greater_or_equal c (λ _. head) target s; ok x

  pub prev : SkipList → Option Ptr → Result (Option Ptr)
  prev s none = fault failed_assertion
  prev s (some x) = do y ← find_less_than c (s.key x) s; ok (but_head y)

-- `for (; iter.Valid(); iter.Next())` with the keys that it shows.
pub keys_loop : ℕ → SkipList → Option Ptr → Result (List Bytes)
keys_loop zero s it = fault no_fuel
keys_loop (suc fuel) s none = ok []
keys_loop (suc fuel) s (some x) = do
  k ← iterator_key s (some x)
  it ← next s (some x)
  ks ← keys_loop fuel s it
  ok (k ∷ ks)
