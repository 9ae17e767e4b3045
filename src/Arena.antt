-- ===== src/Arena.antt =====
-- amkv/util/arena.h and arena.cc: a bump allocator. A pointer is an address; `new char[n]` answers
-- with an address that the caller of the model gives. Addresses and the
-- sizes of blocks are taken to fit the word; what `AllocateAligned` is asked for may not.
pub mod Carving
mod Examples
use am_kv.Prelude.{ℕ, ◌+◌, ◌-◌, ◌/◌, ◌%◌, ◌^◌, ◌≤◌, List, [], ◌∷◌, leb, ltb, ◌==◌, if◌then◌else◌}

abbrev pub block_size : ℕ
block_size = 4096

-- `blocks_` with the size of each block, the last one first.
pub record Arena : Type 0 where
  pub alloc_ptr : ℕ
  pub alloc_bytes_remaining : ℕ
  pub blocks : List (ℕ × ℕ)
  pub memory_usage : ℕ

abbrev pub new_arena : Arena
new_arena = record { alloc_ptr = 0; alloc_bytes_remaining = 0; blocks = []; memory_usage = 0 }

-- `sizeof(char*)` is 8.
unfoldable pub allocate_new_block : ℕ → ℕ → Arena → ℕ × Arena
allocate_new_block address bytes a = (
  address,
  record a { blocks = (address, bytes) ∷ a.blocks; memory_usage = a.memory_usage + (bytes + 8) },
)

unfoldable pub allocate_fallback : ℕ → ℕ → Arena → ℕ × Arena
unfolding allocate_new_block
allocate_fallback address bytes a =
    if ltb (block_size / 4) bytes
    then allocate_new_block address bytes a
    else (let (result, a') = allocate_new_block address block_size a in
        (
          result,
          record a' { alloc_ptr = result + bytes; alloc_bytes_remaining = block_size - bytes },
        ))

-- The padding up to a multiple of 8.
abbrev pub slop : ℕ → ℕ
slop ptr = if ptr % 8 == 0 then 0 else 8 - ptr % 8

-- `address` is what `new char[]` will answer, if it is called.
unfoldable pub allocate_aligned : ℕ → ℕ → Arena → ℕ × Arena
unfolding allocate_fallback
allocate_aligned address bytes a =
    let needed = (bytes + slop a.alloc_ptr) % 2 ^ 64 in
    if leb needed a.alloc_bytes_remaining
    then (
      a.alloc_ptr + slop a.alloc_ptr,
      record a {
        alloc_ptr = a.alloc_ptr + needed;
        alloc_bytes_remaining = a.alloc_bytes_remaining - needed;
      },
    )
    else allocate_fallback address bytes a
