-- ===== src/Arena/Carving.antt =====
-- Where an allocation lies, and what is left free.
use am_kv.Prelude.{
  ltb_false→le, ℕ, ◌+◌, ◌%◌, ◌/◌, ◌≤◌, ◌<◌, ◌^◌, ◌≡◌, refl, arith, List, [], ◌∷◌, ◌⊎◌, inl, inr,
  Bool-cases, leb, ltb, leb→le,
}
use am_kv.Arena.{Arena, block_size, allocate_aligned, slop}

-- The allocation `p` of `bytes` bytes lies at the front of the free bytes of the block in use, behind
-- less than eight bytes of padding, and the rest of them stays free.
abbrev pub FromFree : Arena → ℕ → ℕ → Arena → Type 0
FromFree a bytes p a' =
    (a.alloc_ptr ≤ p)
    × (p < a.alloc_ptr + 8)
    × (p + bytes ≡ a'.alloc_ptr)
    × (a'.alloc_ptr + a'.alloc_bytes_remaining ≡ a.alloc_ptr + a.alloc_bytes_remaining)
    × (a'.blocks ≡ a.blocks)

-- It is a block of its own, and the block in use stays as it was.
abbrev pub OwnBlock : Arena → ℕ → ℕ → Arena → Type 0
OwnBlock a bytes p a' =
    (a'.blocks ≡ (p, bytes) ∷ a.blocks)
    × (a'.alloc_ptr ≡ a.alloc_ptr)
    × (a'.alloc_bytes_remaining ≡ a.alloc_bytes_remaining)

-- It is the front of a new block, whose rest is free.
abbrev pub NewBlock : Arena → ℕ → ℕ → Arena → Type 0
NewBlock a bytes p a' =
    (a'.blocks ≡ (p, block_size) ∷ a.blocks)
    × (a'.alloc_ptr ≡ p + bytes)
    × (a'.alloc_ptr + a'.alloc_bytes_remaining ≡ p + block_size)

slop_aligns : (ptr : ℕ) → (ptr + slop ptr) % 8 ≡ 0
slop_aligns ptr = ground arith

slop_lt : (ptr : ℕ) → slop ptr < 8
slop_lt ptr = ground arith

unwrapped : (ptr bytes : ℕ) → bytes + 8 ≤ 2 ^ 64 → (bytes + slop ptr) % 2 ^ 64 ≡ bytes + slop ptr
unwrapped ptr bytes h = let s = slop_lt ptr in omega arith

-- If `new char[]` answers with a multiple of 8, and fewer than 2 ^ 64 - 7 bytes are asked for, every
-- allocation begins at a multiple of 8 and is cut from the free bytes at the first such address in
-- them, from the front of a new block, or is a new block; in each case the free bytes left are those
-- behind it, or those that were free before.
pub allocate_aligned_lem :
    (address bytes : ℕ) (a : Arena)
    → address % 8 ≡ 0
    → bytes + 8 ≤ 2 ^ 64
    → ((allocate_aligned address bytes a).0 % 8 ≡ 0)
      × (FromFree a bytes (allocate_aligned address bytes a).0 (allocate_aligned address bytes a).1
          ⊎ (OwnBlock a bytes
                (allocate_aligned address bytes a).0
                (allocate_aligned address bytes a).1
              ⊎ NewBlock a bytes
                  (allocate_aligned address bytes a).0
                  (allocate_aligned address bytes a).1))
unfolding allocate_aligned
allocate_aligned_lem address bytes a h few =
    rw (unwrapped a.alloc_ptr bytes few)
      (elim (Bool-cases (leb (bytes + slop a.alloc_ptr) a.alloc_bytes_remaining)) [
        | inl e ↦
            let fits = leb→le (bytes + slop a.alloc_ptr) a.alloc_bytes_remaining e in
            rw e (
              slop_aligns a.alloc_ptr,
              inl (omega arith, omega (arith, slop_lt a.alloc_ptr), omega arith, omega arith, refl),
            )
        | inr e ↦ elim (Bool-cases (ltb (block_size / 4) bytes)) [
          | inl big ↦ rw (e, big) (h, inr (inl (refl, refl, refl)))
          | inr small ↦
              let fits = ltb_false→le (block_size / 4) bytes small in
              rw (e, small) (h, inr (inr (refl, refl, omega arith)))
        ]
      ])

-- What the blocks take, with a pointer to each.
abbrev pub total : List (ℕ × ℕ) → ℕ
total [] = 0
total ((address, size) ∷ blocks) = total blocks + (size + 8)

-- `Usage` stays the sum of the sizes of the blocks, with eight bytes for each.
pub memory_usage_lem :
    (address bytes : ℕ) (a : Arena)
    → a.memory_usage ≡ total a.blocks
    → (allocate_aligned address bytes a).1.memory_usage
      ≡ total (allocate_aligned address bytes a).1.blocks
unfolding allocate_aligned
memory_usage_lem address bytes a h =
    elim (Bool-cases (leb ((bytes + slop a.alloc_ptr) % 2 ^ 64) a.alloc_bytes_remaining)) [
      | inl e ↦ rw e h
      | inr e ↦ elim (Bool-cases (ltb (block_size / 4) bytes)) [
        | inl big ↦ rw (e, big) (omega arith)
        | inr small ↦ rw (e, small) (omega arith)
      ]
    ]
