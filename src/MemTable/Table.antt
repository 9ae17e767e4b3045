-- ===== src/MemTable/Table.antt =====
-- amkv/lsm/memtable.cc and memtable_iter.cc: the memtable over its skip list and its arena.
pub mod Holding
pub mod Getting
pub mod Missing
pub mod Listing
mod Examples
use am_kv.Prelude.{
  ℕ, ◌+◌, ◌-◌, ◌*◌, ◌%◌, ◌^◌, ◌==◌, Bool, true, false, List, [], ◌∷◌, Bytes, length, Option, none,
  some, Result, ok, fault, ◌>>=◌,
}
use am_kv.Arena.{Arena, new_arena, allocate_aligned}
use am_kv.Comparator.{internal_key_comparator}
use am_kv.DbFormat.{SequenceNumber, ValueType}
use am_kv.MemTable.{LookupKey, encode_mem_table, decode_mem_table, get_at}
use am_kv.SkipList.{Ptr, SkipList, new_skip_list, insert}
use am_kv.SkipList.Iterator.{seek, seek_to_first, keys_loop, iterator_key}

pub record MemTable : Type 0 where
  pub refs : ℕ
  pub arena : Arena
  pub table : SkipList

-- `sizeof(Node)` is 24: a view of the key and one pointer.
unfoldable pub node_size : ℕ → ℕ
node_size height = 24 + 8 * (height - 1)

-- The head of the list has twelve pointers, and stands at the address that `new char[]` answers.
unfoldable pub new_mem_table : ℕ → MemTable
new_mem_table address = record {
  refs = 0;
  arena = (allocate_aligned address (node_size 12) new_arena).1;
  table = new_skip_list;
}

unfoldable pub ref : MemTable → MemTable
ref m = record m { refs = (m.refs + 1) % 2 ^ 64 }

-- Whether the memtable is deleted, and the memtable.
pub unref : MemTable → Bool × MemTable
unref m = let m' = record m { refs = (m.refs + 2 ^ 64 - 1) % 2 ^ 64 } in (m'.refs == 0, m')

unfoldable pub usage : MemTable → ℕ
usage m = m.arena.memory_usage

-- What the environment answers in one `Add`: the addresses of new blocks, the height that is drawn
-- for the node, and what the array of `Insert` holds before.
pub record Answers : Type 0 where
  pub entry_address : ℕ
  pub node_address : ℕ
  pub height : ℕ
  pub array : ℕ → Ptr

-- The table and the arena behind the insertion of an entry.
with_table : MemTable → Arena → SkipList → MemTable
with_table m arena table = record m { arena = arena; table = table }

pub add : Answers → SequenceNumber → ValueType → Bytes → Bytes → MemTable → Result MemTable
add a seq type key value m =
    let out = encode_mem_table key value seq type in
    let arena = (allocate_aligned a.entry_address (length out) m.arena).1 in
    let arena' = (allocate_aligned a.node_address (node_size a.height) arena).1 in
    insert internal_key_comparator a.array out a.height m.table >>= λ table.
    ok (with_table m arena' table)

-- The entry that the iterator stands at.
entry_at : MemTable → Option Ptr → Option Bytes
entry_at m none = none
entry_at m (some x) = some (m.table.key x)

pub get : LookupKey → Bytes → MemTable → Result (Bool × Bytes)
get key value m = do
  it ← seek internal_key_comparator key.memtable_key m.table
  get_at (entry_at m it) value

-- `Key` and `Value` of MemTableIterator, for each of the entries in turn.
decode_all : List Bytes → Result (List (Bytes × Bytes))
decode_all [] = ok []
decode_all (entry ∷ entries) = do
  e ← decode_mem_table entry []
  rest ← decode_all entries
  ok ((e.key, e.value) ∷ rest)

-- What the iterator shows from its first entry to its last.
pub entries_of : ℕ → MemTable → Result (List (Bytes × Bytes))
entries_of fuel m = do
  it ← seek_to_first m.table
  entries ← keys_loop fuel m.table it
  decode_all entries
