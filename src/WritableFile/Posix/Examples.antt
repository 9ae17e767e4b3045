-- ===== src/WritableFile/Posix/Examples.antt =====
-- The theorems on the buffered file at concrete inputs.
use am_kv.Prelude.{
  ℕ, ◌<◌, take, length-replicate, ◌⊎◌, length, ◌≡◌, refl, arith, [], ◌∷◌, ◌++◌, Bytes, true, false,
  replicate,
}
use am_kv.Status.{is_ok}
use am_kv.WritableFile.Posix.{PosixWritableFile, WriteEvent, append, flush}
use am_kv.WritableFile.Posix.Laws.{
  flush-IsQuiet, filled, contents, room, flush_lem, append_drops_rest,
}

abbrev cut_short : PosixWritableFile
cut_short = record {
  filename = "db/MANIFEST-000001";
  disk = 1 ∷ [];
  buf = 2 ∷ 3 ∷ 4 ∷ [];
  events = WriteEvent.interrupted ∷ WriteEvent.wrote 2 ∷ WriteEvent.write_failed ∷ [];
  is_open = true;
  close_succeeds = true;
}

flush_lem_example :
    (done : Bytes) × (lost : Bytes) × ((flush cut_short).1.disk ≡ (1 ∷ []) ++ done)
    × (2 ∷ 3 ∷ 4 ∷ [] ≡ done ++ lost)
    × ((flush cut_short).1.buf ≡ [])
    × (((is_ok (flush cut_short).0 ≡ true) × (lost ≡ []))
        ⊎ ((is_ok (flush cut_short).0 ≡ false) × (0 < length lost)))
flush_lem_example = flush_lem cut_short

-- All but one of the bytes in a buffer with one byte of room.
almost_full : Bytes
almost_full = replicate 65534 7

length-almost_full : length almost_full ≡ 65534
unfolding almost_full
length-almost_full = length-replicate {A = ℕ} 65534 7

abbrev full_file : PosixWritableFile
full_file = record cut_short { buf = 7 ∷ almost_full; events = [] }

abbrev failing_file : PosixWritableFile
failing_file = record full_file { events = WriteEvent.write_failed ∷ [] }

two_over : room full_file < 2
two_over = omega (arith, length-almost_full)

append_drops_rest_example :
    (is_ok (append (8 ∷ 9 ∷ []) full_file).0 ≡ true)
    × (contents (append (8 ∷ 9 ∷ []) full_file).1
        ≡ contents full_file ++ take (room full_file) (8 ∷ 9 ∷ []))
append_drops_rest_example =
    append_drops_rest (8 ∷ 9 ∷ []) full_file two_over
      (flush-IsQuiet (filled (8 ∷ 9 ∷ []) full_file two_over) (refl, refl)).0
