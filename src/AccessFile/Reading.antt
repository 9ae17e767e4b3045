-- ===== src/AccessFile/Reading.antt =====
-- `Read` inside a mapped file.
use am_kv.Prelude.{
  ℕ, ◌+◌, ◌%◌, ◌^◌, ◌<◌, ◌≡◌, ap, arith, ◌++◌, Bytes, length, length-append, drop_front, take_front,
  le→ltb_false, ok,
}
use am_kv.Status.{status_ok}
use am_kv.AccessFile.{PosixAccessFile, read_at, copy_map}

-- The size is that of the map, and offsets do not reach the end of the word.
abbrev pub IsMapped : PosixAccessFile → Type 0
IsMapped f = (f.file_size ≡ length f.map) × (length f.map < 2 ^ 63)

-- A part of the file is read whole.
pub read_at_lem :
    (f : PosixAccessFile)
    → IsMapped f
    → (a b rest : Bytes) (pos n : ℕ) → f.map ≡ a ++ (b ++ rest)
    → pos ≡ length a
    → n ≡ length b
    → read_at f pos n ≡ ok (status_ok, b)
unfolding read_at copy_map
read_at_lem f mapped a b rest pos n e at len =
    let z : pos + n + length rest ≡ length f.map =
      omega (arith, ap length e, length-append a (b ++ rest), length-append b rest) in
    rw (
      le→ltb_false f.file_size ((pos + n) % 2 ^ 64) (omega (arith, mapped.0, mapped.1)),
      le→ltb_false (length f.map) (pos + n) (omega arith),
      e,
      drop_front pos a (b ++ rest) at,
      take_front n b rest len,
    )
