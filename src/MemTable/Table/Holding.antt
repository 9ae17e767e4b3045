-- ===== src/MemTable/Table/Holding.antt =====
-- The memtable as a sorted list of entries: what `Add` adds, what `Get` finds, what is written out.

use am_kv.Prelude.{
  ◌-◌, ◌<◌, ◌≤◌, ◌≡◌, refl, false, List, [], ◌∷◌, Bytes, Option, none, some, ok, Returns,
  Returns-bind,
}
use am_kv.Comparator.{internal_key_comparator}
use am_kv.Comparator.Bytewise.{internal_key-Laws}
use am_kv.DbFormat.{SequenceNumber, ValueType}
use am_kv.MemTable.{LookupKey, encode_mem_table, get_at}
use am_kv.MemTable.Table.{MemTable, Answers, with_table, add, entry_at, get}
use am_kv.SkipList.{Ptr, head, insert, find_greater_or_equal}
use am_kv.SkipList.Shape.{first}
use am_kv.SkipList.Searching.{Finds}
use am_kv.SkipList.Sorted.{before, from, find_greater_or_equal-Finds}
use am_kv.SkipList.Refinement.{
  keys_of, Holds, has_key, insert_key, insert-Holds, found_first, eq_of_Returns,
}
use am_kv.SkipList.Iterator.{seek}
use am_kv.SkipList.Iterator.Walking.{keys_from, keys_of-from}

-- The memtable holds these entries, in ascending order.
abbrev pub HoldsEntries : MemTable → List Bytes → Type 0
HoldsEntries m es = Holds internal_key_comparator internal_key-Laws m.table es

abbrev pub first_entry : List Bytes → Option Bytes
first_entry [] = none
first_entry (e ∷ es) = some e

-- `Add` puts the entry into its place, if it is not there yet and its node has a height from 1 to 12.
pub add-HoldsEntries :
    (m : MemTable) (es : List Bytes) (a : Answers) (seq : SequenceNumber) (type : ValueType)
    (key value : Bytes)
    → HoldsEntries m es
    → has_key internal_key_comparator (encode_mem_table key value seq type) es ≡ false
    → 0 < a.height
    → a.height ≤ 12
    → Returns
        (λ m'.
          HoldsEntries m'
            (insert_key internal_key_comparator (encode_mem_table key value seq type) es))
        (add a seq type key value m)
unfolding add with_table
add-HoldsEntries m es a seq type key value h absent low high =
    let e = encode_mem_table key value seq type in
    Returns-bind
      (λ t.
        Holds internal_key_comparator internal_key-Laws t (insert_key internal_key_comparator e es))
      _ (insert internal_key_comparator a.array e a.height m.table) _
      (insert-Holds internal_key_comparator internal_key-Laws m.table es e a.height a.array h absent
        low high)
      (λ t k. k)

entry_at-first :
    (m : MemTable) (ps : List Ptr) → entry_at m (first ps) ≡ first_entry (keys_of m.table.key ps)
unfolding entry_at
entry_at-first m [] = refl
entry_at-first m (p ∷ ps) = refl

-- `Get` looks at the first entry that is not less than the looked up one, and at no other.
pub get-first_entry :
    (m : MemTable) (es : List Bytes) (key : LookupKey) (old : Bytes)
    → HoldsEntries m es
    → get key old m
      ≡ get_at (first_entry (keys_from internal_key_comparator key.memtable_key es)) old
unfolding get seek
get-first_entry m es key old (ns, r, e) =
    let t = key.memtable_key in
    let c = internal_key_comparator in
    let a = from c internal_key-Laws m.table.key t ns in
    let at : seek c t m.table ≡ ok (first a) =
      unfold seek in
      eq_of_Returns (first a) (seek c t m.table) (
        Returns-bind
          (Finds m.table (before c internal_key-Laws m.table.key t ns) a (m.table.max_height - 1)
            (λ _. head))
          (λ x. x ≡ first a) (find_greater_or_equal c (λ _. head) t m.table) (λ found. ok found.0)
          (find_greater_or_equal-Finds c internal_key-Laws m.table ns r t (λ _. head))
          (λ found f. found_first c internal_key-Laws m.table ns r t (λ _. head) found f)) in
    rw (at, entry_at-first m a, keys_of-from c internal_key-Laws m.table t ns, e)
