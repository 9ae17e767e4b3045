-- ===== src/Block/Examples.antt =====
-- A block of three entries, of which two have the same key.
use am_kv.Prelude.{◌≡◌, arith, ◌∷◌, [], Bytes, List, ◌>>=◌}
use am_kv.Block.{new_block_iterator, seek, value}
use am_kv.Block.Seeking.{block_of, first_with, value_or_over_read, seek_value, length-block_of}

abbrev later_entries : List (Bytes × Bytes)
later_entries = (98 ∷ [], 50 ∷ 51 ∷ []) ∷ (97 ∷ [], 52 ∷ []) ∷ []

seek_value_example :
    (seek 4 (98 ∷ []) (new_block_iterator (block_of ((97 ∷ [], 49 ∷ []) ∷ later_entries)))
      >>= value)
    ≡ value_or_over_read (first_with (98 ∷ []) ((97 ∷ [], 49 ∷ []) ∷ later_entries))
seek_value_example =
    seek_value 4 (98 ∷ []) (97 ∷ []) (49 ∷ []) later_entries
      (omega (arith, length-block_of ((97 ∷ [], 49 ∷ []) ∷ later_entries))) (omega arith)
