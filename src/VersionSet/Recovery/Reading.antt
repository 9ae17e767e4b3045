-- ===== src/VersionSet/Recovery/Reading.antt =====
-- The records of a log as recovery reads them: each is `record` of a round of `ReadRecord`.
use am_kv.Prelude.{
  ℕ, ◌≤◌, ◌<◌, ◌≡◌, refl, sym, ap, ◌∙◌, arith, false, List, [], ◌∷◌, Bytes, length, ok, String,
  take_zero, drop_zero,
}
use am_kv.SequentialFile.{PosixSequentialFile}
use am_kv.Log.{block_size}
use am_kv.Log.Layout.{avail, layout}
use am_kv.Log.Reader.{new_reader}
use am_kv.Log.Reading.Physical.{Positioned}
use am_kv.Log.RoundTrip.{
  read_records, layouts, views, read_records-layouts, layouts_start, views_start, last_whole,
}
use am_kv.VersionSet.Recovery.{record_outs}

-- Every record of the log fits into the rest of the block in which it begins.
abbrev pub AreWhole : ℕ → List Bytes → Type 0
AreWhole o [] = Unit
AreWhole o (s ∷ ss) = (length s ≤ avail o) × AreWhole (layout o s).next ss

pub record_outs-views : (o : ℕ) (ss : List Bytes) → AreWhole o ss → record_outs (views o ss) ≡ ss
unfolding record_outs views
record_outs-views o [] h = refl
record_outs-views o (s ∷ ss) h = rw (last_whole o s h.0, record_outs-views (layout o s).next ss h.1)

-- A file of these bytes, of which no read is short or fails.
abbrev pub quiet_file : String → Bytes → PosixSequentialFile
quiet_file name bytes = record { filename = name; rest = bytes; events = [] }

-- A reader at the start of a log reads its records.
pub read_records-log :
    (ss : List Bytes) (fuel : ℕ) (name : String)
    → length ss < fuel
    → read_records fuel (new_reader false (quiet_file name (layouts 0 ss))) ≡ ok (views 0 ss)
unfolding new_reader
read_records-log ss fuel name enough =
    let file = quiet_file name (layouts 0 ss) in
    let pos : Positioned (new_reader false file) block_size (layouts block_size ss) = record {
      in_buffer = sym (take_zero (layouts block_size ss));
      in_file = sym (layouts_start ss) ∙ sym (drop_zero (layouts block_size ss));
      more = refl;
      quiet = refl;
    } in
    read_records-layouts ss fuel block_size (new_reader false file) enough (omega arith) pos
    ∙ ap ok (views_start ss)
