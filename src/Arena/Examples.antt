-- ===== src/Arena/Examples.antt =====
-- The allocator's theorems at concrete inputs.
use am_kv.Prelude.{◌%◌, ◌≡◌, ◌⊎◌, refl, arith}
use am_kv.Arena.{Arena, new_arena, allocate_aligned}
use am_kv.Arena.Carving.{
  FromFree, OwnBlock, NewBlock, total, allocate_aligned_lem, memory_usage_lem,
}

-- After ten bytes of the first block.
abbrev used : Arena
used = (allocate_aligned 4096 10 new_arena).1

allocate_aligned_lem_example :
    ((allocate_aligned 8192 20 used).0 % 8 ≡ 0)
    × (FromFree used 20 (allocate_aligned 8192 20 used).0 (allocate_aligned 8192 20 used).1
        ⊎ (OwnBlock used 20 (allocate_aligned 8192 20 used).0 (allocate_aligned 8192 20 used).1
            ⊎ NewBlock used 20 (allocate_aligned 8192 20 used).0 (allocate_aligned 8192 20 used).1))
allocate_aligned_lem_example = allocate_aligned_lem 8192 20 used refl (omega arith)

memory_usage_lem_example :
    (allocate_aligned 4096 10 new_arena).1.memory_usage
    ≡ total (allocate_aligned 4096 10 new_arena).1.blocks
memory_usage_lem_example = memory_usage_lem 4096 10 new_arena refl
