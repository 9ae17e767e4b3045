-- ===== src/WriteBatch/Examples.antt =====
-- Runs of a batch, and its theorems at concrete inputs.
use am_kv.Prelude.{ℕ, ◌≡◌, refl, arith, List, [], ◌∷◌, Bytes, ok}
use mathlib.Core.List.{foldl}
use am_kv.WriteBatch.{WriteBatchHandler, iterate, insert_into}
use am_kv.WriteBatch.Replay.{
  Update, put_update, delete_update, build, apply_update, add_all, iterate-build, insert_into-build,
}

-- A memtable that lists its additions, the last one first.
abbrev Entries : Type 0
Entries = List (ℕ × ℕ × Bytes × Bytes)

abbrev add_entry : ℕ → ℕ → Bytes → Bytes → Entries → Entries
add_entry seq type key value m = (seq, type, key, value) ∷ m

abbrev two_updates : List Update
two_updates = put_update (107 ∷ []) (118 ∷ 49 ∷ []) ∷ delete_update (107 ∷ []) ∷ []

abbrev start : WriteBatchHandler Entries
start = record { sequence = 7; memtable = [] }

two_additions :
    add_all add_entry 0 two_updates [] ≡ (1, 0, 107 ∷ [], []) ∷ (0, 1, 107 ∷ [], 118 ∷ 49 ∷ []) ∷ []
unfolding add_all
two_additions = refl

iterate-build_example :
    iterate add_entry (build two_updates) start
    ≡ ok (foldl (apply_update add_entry) start two_updates)
iterate-build_example = iterate-build add_entry two_updates start (omega arith)

insert_into-build_example :
    insert_into add_entry (build two_updates) []
    ≡ ok (record { sequence = 2; memtable = add_all add_entry 0 two_updates [] })
insert_into-build_example = insert_into-build add_entry two_updates [] (omega arith)
