-- ===== src/SkipList/Examples.antt =====
-- A list of one key, and the theorems at it.
use am_kv.Prelude.{
  ℕ, ◌<◌, ◌≡◌, refl, arith, [], ◌∷◌, Bytes, some, none, if◌then◌else◌, ◌==◌, Returns, ok, fault,
  failed_assertion, true, false, lt→ltb, ◌>>=◌,
}
use am_kv.Comparator.{internal_key_comparator, compare_bytes}
use am_kv.Comparator.Bytewise.{internal_key-Laws}
use am_kv.SkipList.{head, SkipList, insert, contains}
use am_kv.SkipList.Shape.{at_level, Linked}
use am_kv.SkipList.Refinement.{
  Holds, has_key, insert_key, contains-Holds, insert-Holds, insert-twice,
}
use am_kv.SkipList.Iterator.{seek_to_last, prev, seek_to_first, seek, keys_loop}
use am_kv.SkipList.Iterator.Backwards.{last_key, keys_before, key_shown, backwards-Holds}
use am_kv.SkipList.Iterator.Walking.{keys_from, keys_loop-seek_to_first, keys_loop-seek}

abbrev one_key : Bytes
one_key = 104 ∷ 105 ∷ []

abbrev one_key_list : SkipList
one_key_list = record {
  key = λ _. one_key;
  height = λ _. 12;
  next = λ _ p. if p == 0 then some 1 else none;
  fresh = 2;
  max_height = 12;
}

one_key_list-Linked :
    (i : ℕ) → i < 12 → Linked (one_key_list.next i) (at_level one_key_list.height i (head ∷ 1 ∷ []))
unfolding at_level
one_key_list-Linked i h = rw (lt→ltb i 12 h) (refl, (refl, tt))

one_key_list-Holds : Holds internal_key_comparator internal_key-Laws one_key_list (one_key ∷ [])
one_key_list-Holds = (
  1 ∷ [],
  record {
    linked = one_key_list-Linked;
    ascending = (tt, tt);
    nodes = ((omega arith, omega arith, omega arith, omega arith), tt);
    head_height = refl;
    some_level = omega arith;
    low = omega arith;
    few = omega arith;
  },
  refl,
)

other_absent : has_key internal_key_comparator (104 ∷ []) (one_key ∷ []) ≡ false
unfolding compare_bytes
other_absent = refl

own_present : has_key internal_key_comparator one_key (one_key ∷ []) ≡ true
unfolding compare_bytes
own_present = refl

insert-Holds_example :
    Returns
      (λ s'.
        Holds internal_key_comparator internal_key-Laws s'
          (insert_key internal_key_comparator (104 ∷ []) (one_key ∷ [])))
      (insert internal_key_comparator (λ _. 7) (104 ∷ []) 3 one_key_list)
insert-Holds_example =
    insert-Holds internal_key_comparator internal_key-Laws one_key_list (one_key ∷ []) (104 ∷ []) 3
      (λ _. 7) one_key_list-Holds other_absent (omega arith) (omega arith)

insert-twice_example :
    insert internal_key_comparator (λ _. 7) one_key 3 one_key_list ≡ fault failed_assertion
insert-twice_example =
    insert-twice internal_key_comparator internal_key-Laws one_key_list (one_key ∷ []) one_key 3
      (λ _. 7) one_key_list-Holds own_present

contains-Holds_example :
    contains internal_key_comparator (104 ∷ []) one_key_list
    ≡ ok (has_key internal_key_comparator (104 ∷ []) (one_key ∷ []))
contains-Holds_example =
    contains-Holds internal_key_comparator internal_key-Laws one_key_list (one_key ∷ []) (104 ∷ [])
      one_key_list-Holds

keys_loop-seek_to_first_example :
    (seek_to_first one_key_list >>= keys_loop 2 one_key_list) ≡ ok (one_key ∷ [])
keys_loop-seek_to_first_example =
    keys_loop-seek_to_first internal_key_comparator internal_key-Laws one_key_list (one_key ∷ []) 2
      one_key_list-Holds (omega arith)

keys_loop-seek_example :
    (seek internal_key_comparator (104 ∷ []) one_key_list >>= keys_loop 2 one_key_list)
    ≡ ok (keys_from internal_key_comparator (104 ∷ []) (one_key ∷ []))
keys_loop-seek_example =
    keys_loop-seek internal_key_comparator internal_key-Laws one_key_list (one_key ∷ []) (104 ∷ [])
      2 one_key_list-Holds (omega arith)

backwards-Holds_example :
    Returns (λ it. key_shown one_key_list it ≡ last_key (one_key ∷ [])) (seek_to_last one_key_list)
    × Returns
        (λ it.
          key_shown one_key_list it
          ≡ last_key (keys_before internal_key_comparator one_key (one_key ∷ [])))
        (prev internal_key_comparator one_key_list (some 1))
backwards-Holds_example =
    backwards-Holds internal_key_comparator internal_key-Laws one_key_list (one_key ∷ []) 1
      one_key_list-Holds
