-- ===== src/MemTable/Table/Listing.antt =====
-- What the memtable's iterator shows, which is what a table file is written from.
use am_kv.Prelude.{
  ℕ, ◌<◌, ◌^◌, ◌≡◌, ◌⊎◌, inl, inr, refl, sym, ap, ◌∙◌, List, [], ◌∷◌, Bytes, All, length, Result,
  ok, fault, ◌>>=◌,
}
use am_kv.Comparator.{internal_key_comparator}
use am_kv.Comparator.Bytewise.{internal_key-Laws}
use am_kv.DbFormat.{SequenceNumber, ValueType, type_value, type_deletion}
use am_kv.MemTable.{encode_mem_table}
use am_kv.MemTable.RoundTrip.{decode_mem_table-encode_mem_table, decode_mem_table-deletion}
use am_kv.MemTable.Table.{MemTable, entries_of, decode_all}
use am_kv.MemTable.Table.Holding.{HoldsEntries}
use am_kv.SkipList.Iterator.{keys_loop, seek_to_first}
use am_kv.SkipList.Iterator.Walking.{keys_loop-seek_to_first}

-- What an `Add` is given.
pub record Added : Type 0 where
  pub user_key : Bytes
  pub content : Bytes
  pub number : SequenceNumber
  pub kind : ValueType

-- A value, or the mark of a deletion with an empty value, within the bounds of the format.
pub record IsAdded (r : Added) : Type 0 where
  pub kind : (r.kind ≡ type_value) ⊎ ((r.kind ≡ type_deletion) × (r.content ≡ []))
  pub short_key : length r.user_key < 2 ^ 31
  pub short_content : length r.content < 2 ^ 32
  pub low : r.number < 2 ^ 64

abbrev pub added_entries : List Added → List Bytes
added_entries [] = []
added_entries (r ∷ rs) = encode_mem_table r.user_key r.content r.number r.kind ∷ added_entries rs

abbrev pub keys_and_values : List Added → List (Bytes × Bytes)
keys_and_values [] = []
keys_and_values (r ∷ rs) = (r.user_key, r.content) ∷ keys_and_values rs

bind_assoc :
    {A B C : Type 0} (m : Result A) (f : A → Result B) (g : B → Result C)
    → ((m >>= f) >>= g) ≡ (m >>= λ a. f a >>= g)
bind_assoc (ok a) f g = refl
bind_assoc (fault e) f g = refl

decode_all-entries :
    (rs : List Added) → All IsAdded rs → decode_all (added_entries rs) ≡ ok (keys_and_values rs)
unfolding decode_all
decode_all-entries [] h = refl
decode_all-entries (r ∷ rs) h = elim h.0.kind [
  | inl e ↦ rw (
    e,
    decode_mem_table-encode_mem_table r.user_key r.content [] r.number h.0.short_key
        h.0.short_content h.0.low,
    decode_all-entries rs h.1,
  )
  | inr (e, q) ↦ rw (
    e,
    decode_mem_table-deletion r.user_key r.content [] r.number h.0.short_key h.0.low,
    decode_all-entries rs h.1,
    q,
  )
]

-- From its first entry to its last, the iterator shows the keys and the values that were added, in
-- the order of their entries, and a deleted key with the empty value: nothing tells the two apart.
-- One step for every entry and one more are enough.
pub entries_of-added :
    (fuel : ℕ) (m : MemTable) (rs : List Added)
    → HoldsEntries m (added_entries rs)
    → All IsAdded rs
    → length (added_entries rs) < fuel
    → entries_of fuel m ≡ ok (keys_and_values rs)
unfolding entries_of
entries_of-added fuel m rs h added enough =
    sym (bind_assoc (seek_to_first m.table) (keys_loop fuel m.table) decode_all)
    ∙ ap (λ x. x >>= decode_all)
        (keys_loop-seek_to_first internal_key_comparator internal_key-Laws m.table
          (added_entries rs) fuel h enough)
    ∙ decode_all-entries rs added
