-- ===== src/MemTable/Table/Missing.antt =====
-- What `Get` answers for a key that the memtable does not hold, or of which it holds the mark of a
-- deletion.
use am_kv.Prelude.{
  ◌<◌, ◌≤◌, ◌^◌, ◌≡◌, ◌≢◌, refl, sym, ap, ◌∙◌, arith, true, false, List, [], ◌∷◌, ◌++◌, Bytes, All,
  length, some, inl, inr, Bool-cases, ok, Returns, Returns-map,
}
use am_kv.Comparator.{less, equal, internal_key_comparator}
use am_kv.Comparator.Bytewise.{internal_key-Laws}
use am_kv.DbFormat.{SequenceNumber, type_value, type_deletion}
use am_kv.MemTable.{lookup_key, encode_mem_table, get_at}
use am_kv.MemTable.RoundTrip.{get_at-value}
use am_kv.MemTable.Order.{compare-same_length, deletion-less, zero_of_ne}
use am_kv.MemTable.Table.{MemTable, Answers, add, get}
use am_kv.MemTable.Table.Getting.{value_entry, sought, less-bound}
use am_kv.MemTable.Table.Holding.{HoldsEntries, first_entry, add-HoldsEntries, get-first_entry}
use am_kv.SkipList.Refinement.{has_key, insert_key, less-equal}
use am_kv.SkipList.Iterator.Walking.{keys_from}

-- Every entry is in front of what is looked up under the key.
abbrev pub AreBefore : Bytes → List Bytes → Type 0
AreBefore key es = All (λ e. less internal_key_comparator e (sought key) ≡ true) es

-- An entry that is not less than what is looked up is the first such, and is no entry before.
first-only :
    (t x : Bytes) (es : List Bytes)
    → less internal_key_comparator x t ≡ false
    → All (λ e. less internal_key_comparator e t ≡ true) es
    → (has_key internal_key_comparator x es ≡ false)
      × (first_entry (keys_from internal_key_comparator t (insert_key internal_key_comparator x es))
          ≡ some x)
first-only t x [] n h = (refl, rw n)
first-only t x (e ∷ es) n h =
    let below = less-bound e t x h.0 n in
    let (absent, found) = first-only t x es n h.1 in
    let c = internal_key_comparator in
    let differs : equal c x e ≡ false = less-equal c internal_key-Laws e x below in
    (rw differs absent, rw (below, h.0) found)

-- `Get` of a key that the memtable does not hold, all its entries being in front of the key's, answers
-- with the value of another key that has been added, if that is equally long and behind it in the bytes'
-- order. The keys are shorter than 2 ^ 31 bytes, the value is shorter than 2 ^ 32, the sequence number
-- is below 2 ^ 64, and the node's height is from 1 to 12.
pub get-add_other :
    (m : MemTable) (es : List Bytes) (a : Answers) (seq : SequenceNumber)
    (key other value old : Bytes)
    → HoldsEntries m es
    → AreBefore key es
    → other ≢ key
    → length other ≡ length key
    → less internal_key_comparator other key ≡ false
    → length key < 2 ^ 31
    → length value < 2 ^ 32
    → seq < 2 ^ 64
    → 0 < a.height
    → a.height ≤ 12
    → Returns
        (λ m'. get (lookup_key key 0) old m' ≡ ok (true, old ++ value))
        (add a seq type_value other value m)
unfolding lookup_key
get-add_other m es a seq key other value old h before ne same behind short hv hs low high =
    let short' : length other < 2 ^ 31 = omega arith in
    let n : less internal_key_comparator (value_entry other seq value) (sought key) ≡ false =
      rw
        (compare-same_length other value seq type_value key [] 0 type_value short' short same
          (zero_of_ne other key ne))
        behind in
    let (absent, found) = first-only (sought key) (value_entry other seq value) es n before in
    Returns-map (add a seq type_value other value m)
      (add-HoldsEntries m es a seq type_value other value h absent low high)
      (λ m' h'.
        get-first_entry m' (insert_key internal_key_comparator (value_entry other seq value) es)
          (lookup_key key 0) old h'
        ∙ (ap (λ e. get_at e old) found ∙ get_at-value other value old seq short' hv hs))

-- An entry that is less than what is looked up changes nothing of what is found.
first-under :
    (t x : Bytes) (es : List Bytes)
    → less internal_key_comparator x t ≡ true
    → first_entry (keys_from internal_key_comparator t (insert_key internal_key_comparator x es))
      ≡ first_entry (keys_from internal_key_comparator t es)
first-under t x [] l = rw l
first-under t x (e ∷ es) l = elim (Bool-cases (less internal_key_comparator e x)) [
  | inl g ↦
      let skipped = internal_key-Laws.less_trans e x t g l in rw (g, skipped) (first-under t x es l)
  | inr g ↦ rw (g, l)
]

-- The mark of a deletion, which `DB::Delete` adds with the sequence number 0, changes nothing of what
-- `Get` of its key answers: a value that has been added before is found as before. No such mark is to be
-- in the memtable yet, the key is shorter than 2 ^ 31 bytes, and the node's height is from 1 to 12.
pub get-add_deletion :
    (m : MemTable) (es : List Bytes) (a : Answers) (key old : Bytes)
    → HoldsEntries m es
    → has_key internal_key_comparator (encode_mem_table key [] 0 type_deletion) es ≡ false
    → length key < 2 ^ 31
    → 0 < a.height
    → a.height ≤ 12
    → Returns
        (λ m'. get (lookup_key key 0) old m' ≡ get (lookup_key key 0) old m)
        (add a 0 type_deletion key [] m)
unfolding lookup_key
get-add_deletion m es a key old h absent short low high =
    let mark = encode_mem_table key [] 0 type_deletion in
    Returns-map (add a 0 type_deletion key [] m)
      (add-HoldsEntries m es a 0 type_deletion key [] h absent low high)
      (λ m' h'.
        get-first_entry m' (insert_key internal_key_comparator mark es) (lookup_key key 0) old h'
        ∙ (ap (λ e. get_at e old) (first-under (sought key) mark es (deletion-less key [] 0 short))
            ∙ sym (get-first_entry m es (lookup_key key 0) old h)))
