-- ===== src/MemTable/Table/Examples.antt =====
-- A memtable that is just made, and one that holds an entry, and the theorems at them.
use am_kv.Prelude.{
  ℕ, ◌<◌, ◌≡◌, inr, refl, arith, lt→ltb, ◌==◌, if◌then◌else◌, [], ◌∷◌, some, none, true, false, ap,
  Bytes, Returns, ok, ◌>>=◌,
}
use am_kv.Arena.{new_arena}
use am_kv.Comparator.{is_negative, less, internal_key_comparator, compare_bytes}
use am_kv.Comparator.Bytewise.{internal_key-Laws}
use am_kv.DbFormat.{type_value, type_deletion}
use am_kv.MemTable.{encode_mem_table, lookup_key}
use am_kv.MemTable.Order.{value-less, compare-same_length, deletion-less}
use am_kv.MemTable.Table.{MemTable, new_mem_table, Answers, add, get, entries_of}
use am_kv.MemTable.Table.Holding.{HoldsEntries}
use am_kv.MemTable.Table.Getting.{get-add, get-add-again, sought}
use am_kv.MemTable.Table.Missing.{get-add_other, get-add_deletion}
use am_kv.MemTable.Table.Listing.{Added, IsAdded, entries_of-added}
use am_kv.SkipList.{head}
use am_kv.SkipList.Refinement.{new_skip_list-Holds, has_key, greater-equal}
use am_kv.SkipList.Shape.{at_level, Linked}

empty_table-HoldsEntries : HoldsEntries (new_mem_table 4096) []
unfolding new_mem_table
empty_table-HoldsEntries = new_skip_list-Holds internal_key_comparator internal_key-Laws

abbrev answers : Answers
answers = record { entry_address = 16384; node_address = 20480; height = 3; array = λ _. 7 }

get-add_example :
    Returns
      (λ m'. get (lookup_key (107 ∷ []) 0) [] m' ≡ ok (true, 118 ∷ []))
      (add answers 5 type_value (107 ∷ []) (118 ∷ []) (new_mem_table 4096))
get-add_example =
    get-add (new_mem_table 4096) [] answers 5 (107 ∷ []) (118 ∷ []) [] empty_table-HoldsEntries tt
      (omega arith) (omega arith) (omega arith) (omega arith) (omega arith)

smaller :
    less internal_key_comparator
      (encode_mem_table (107 ∷ []) (118 ∷ []) 0 type_value)
      (encode_mem_table (107 ∷ []) (119 ∷ []) 0 type_value)
    ≡ true
unfolding compare_bytes
smaller = value-less (107 ∷ []) (118 ∷ []) (119 ∷ []) 0 (omega arith) (omega arith) refl

get-add-again_example :
    Returns
      (λ m'. get (lookup_key (107 ∷ []) 0) [] m' ≡ ok (true, 118 ∷ []))
      (add answers 0 type_value (107 ∷ []) (118 ∷ []) (new_mem_table 4096)
        >>= add answers 0 type_value (107 ∷ []) (119 ∷ []))
get-add-again_example =
    get-add-again (new_mem_table 4096) [] answers answers 0 0 (107 ∷ []) (118 ∷ []) (119 ∷ []) []
      empty_table-HoldsEntries tt (omega arith) (omega arith) (omega arith) (omega arith) smaller
      (omega arith) (omega arith) (omega arith) (omega arith)

-- A deletion of "k" with the sequence number 5.
abbrev deletion : Added
deletion = record { user_key = 107 ∷ []; content = []; number = 5; kind = type_deletion }

abbrev one_entry_table : Bytes → MemTable
one_entry_table entry = record {
  refs = 1;
  arena = new_arena;
  table = record {
    key = λ _. entry;
    height = λ _. 12;
    next = λ _ p. if p == 0 then some 1 else none;
    fresh = 2;
    max_height = 12;
  };
}

one_entry_table-Linked :
    (entry : Bytes) (i : ℕ)
    → i < 12
    → Linked
        ((one_entry_table entry).table.next i)
        (at_level (one_entry_table entry).table.height i (head ∷ 1 ∷ []))
unfolding at_level
one_entry_table-Linked entry i h = rw (lt→ltb i 12 h) (refl, (refl, tt))

one_entry_table-HoldsEntries : (entry : Bytes) → HoldsEntries (one_entry_table entry) (entry ∷ [])
one_entry_table-HoldsEntries entry = (
  1 ∷ [],
  record {
    linked = one_entry_table-Linked entry;
    ascending = (tt, tt);
    nodes = ((omega arith, omega arith, omega arith, omega arith), tt);
    head_height = refl;
    some_level = omega arith;
    low = omega arith;
    few = omega arith;
  },
  refl,
)

deletion-IsAdded : IsAdded deletion
deletion-IsAdded = record {
  kind = inr (refl, refl);
  short_key = omega arith;
  short_content = omega arith;
  low = omega arith;
}

entries_of-added_example :
    entries_of 2 (one_entry_table (encode_mem_table (107 ∷ []) [] 5 type_deletion))
    ≡ ok ((107 ∷ [], []) ∷ [])
entries_of-added_example =
    entries_of-added 2 (one_entry_table (encode_mem_table (107 ∷ []) [] 5 type_deletion))
      (deletion ∷ [])
      (one_entry_table-HoldsEntries (encode_mem_table (107 ∷ []) [] 5 type_deletion))
      (deletion-IsAdded, tt) (omega arith)

-- The value "v" of the key "k".
abbrev the_value : Bytes
the_value = encode_mem_table (107 ∷ []) (118 ∷ []) 0 type_value

-- It is in front of what is looked up under the key "l".
the_value-before : less internal_key_comparator the_value (sought (108 ∷ [])) ≡ true
unfolding compare_bytes
the_value-before = ap is_negative (
    compare-same_length (107 ∷ []) (118 ∷ []) 0 type_value (108 ∷ []) [] 0 type_value (omega arith)
      (omega arith) refl refl)

behind_key : less internal_key_comparator (109 ∷ []) (108 ∷ []) ≡ false
unfolding compare_bytes
behind_key = refl

abbrev first_byte : Bytes → ℕ
first_byte [] = 0
first_byte (x ∷ xs) = x

two_keys : ◌≡◌ {A = ℕ} 109 108 → ⊥
two_keys e = absurd (omega arith)

-- "l" is looked up, and the value of "m" is found.
get-add_other_example :
    Returns
      (λ m'. get (lookup_key (108 ∷ []) 0) [] m' ≡ ok (true, 119 ∷ []))
      (add answers 0 type_value (109 ∷ []) (119 ∷ []) (one_entry_table the_value))
get-add_other_example =
    get-add_other (one_entry_table the_value) (the_value ∷ []) answers 0 (108 ∷ []) (109 ∷ [])
      (119 ∷ []) [] (one_entry_table-HoldsEntries the_value) (the_value-before, tt)
      (λ e. absurd (two_keys (ap (λ b. first_byte b) e))) refl behind_key (omega arith)
      (omega arith) (omega arith) (omega arith) (omega arith)

not_there :
    has_key internal_key_comparator
      (encode_mem_table (107 ∷ []) [] 0 type_deletion)
      (the_value ∷ [])
    ≡ false
not_there = rw (
    greater-equal internal_key_comparator internal_key-Laws
      (encode_mem_table (107 ∷ []) [] 0 type_deletion) the_value
      (deletion-less (107 ∷ []) (118 ∷ []) 0 (omega arith)))

get-add_deletion_example :
    Returns
      (λ m'.
        get (lookup_key (107 ∷ []) 0) [] m'
        ≡ get (lookup_key (107 ∷ []) 0) [] (one_entry_table the_value))
      (add answers 0 type_deletion (107 ∷ []) [] (one_entry_table the_value))
get-add_deletion_example =
    get-add_deletion (one_entry_table the_value) (the_value ∷ []) answers (107 ∷ []) []
      (one_entry_table-HoldsEntries the_value) not_there (omega arith) (omega arith) (omega arith)
