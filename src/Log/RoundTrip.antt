-- ===== src/Log/RoundTrip.antt =====
-- A log that `AddRecord` wrote, record by record, and `ReadRecord` reads until it finds none: the
-- loops of `DB::Write`, `DB::recover` and `VersionSet::Recover` over a log.
use am_kv.Prelude.{
  ok-injective, ℕ, zero, suc, ◌+◌, ◌≤◌, ◌<◌, ◌≡◌, refl, sym, ap, ◌∙◌, subst, arith, true, false,
  List, [], ◌∷◌, ◌++◌, Bytes, append_assoc, append-nil, length, drop, Result, ok, fault, no_fuel,
  ◌>>=◌, if◌then◌else◌, String, take_zero, drop_zero, length-drop,
}
use am_kv.Status.{Status, status_ok, is_ok}
use am_kv.SequentialFile.{PosixSequentialFile}
use am_kv.WritableFile.{Reliable, WritableFile, Laws}
use am_kv.Log.{block_size}
use am_kv.Log.Writer.{Writer, add_record}
use am_kv.Log.Layout.{
  avail, rounds, place, layout, place_in_block, length-last, rounds_enough, place_whole, place_part,
  rounds_part,
}
use am_kv.Log.Writing.{IsReady, add_record-layout}
use am_kv.Log.Writing.Reliable.{add_record_succeeds}
use am_kv.Log.Reader.{ReadResult, Reader, new_reader, read_record}
use am_kv.Log.Reading.{read_record-layout, read_record-end}
use am_kv.Log.Reading.Physical.{Positioned}

-- Records one after the other, up to the first that is not accepted.
pub add_records :
    (w : WritableFile) → List Bytes → Writer w.State → Result (Status × Writer w.State)
add_records w [] writer = ok (status_ok, writer)
add_records w (s ∷ ss) writer = do
  (status, written) ← add_record w s writer
  let rest = add_records w ss written
  if is_ok status then rest else ok (status, written)

-- What `while (reader.ReadRecord(&record, &scratch))` sees: `record` and `scratch` of each round.
pub read_records : ℕ → Reader → Result (List (Bytes × Bytes))
read_records zero r = fault no_fuel
read_records (suc fuel) r = do
  res ← read_record r
  let rest = read_records fuel res.reader >>= λ seen. ok ((res.record_out, res.scratch) ∷ seen)
  if res.found then rest else ok []

-- The log of a list of records, and the last fragments in it.
unfoldable pub layouts : ℕ → List Bytes → Bytes
layouts o [] = []
layouts o (s ∷ ss) = (layout o s).bytes ++ layouts (layout o s).next ss

unfoldable pub views : ℕ → List Bytes → List (Bytes × Bytes)
views o [] = []
views o (s ∷ ss) = ((layout o s).last, s) ∷ views (layout o s).next ss

module _ (w : WritableFile) (laws : Laws w) (reliable : Reliable w laws) where
  open laws use {contents}
  open reliable use {IsHealthy}

  add_records-layouts :
      (ss : List Bytes) (writer : Writer w.State)
      → IsReady w laws writer
      → IsHealthy writer.dest
      → (r : Status × Writer w.State) × (add_records w ss writer ≡ ok r)
        × (is_ok r.0 ≡ true)
        × (contents r.1.dest ≡ contents writer.dest ++ layouts writer.block_offset ss)
  unfolding add_records layouts
  add_records-layouts [] writer ready h = ((status_ok, writer), refl, refl, sym (append-nil _))
  add_records-layouts (s ∷ ss) writer ready h =
      let (r, run, leaves) = add_record-layout w laws s writer ready in
      let (q, run_q, good_q, h_q) = add_record_succeeds w laws reliable s writer ready h in
      let same : r ≡ q = ok-injective r q (sym run ∙ run_q) in
      let good : is_ok r.0 ≡ true = ap (λ x. is_ok x.0) same ∙ good_q in
      let h' : IsHealthy r.1.dest = subst (λ x. IsHealthy x.1.dest) (sym same) h_q in
      let (wrote, next, ready') = leaves good in
      let (r', run', good', wrote') = add_records-layouts ss r.1 ready' h' in
      (
        r',
        rw (run, good) run',
        good',
        wrote'
            ∙ ap (λ o. contents r.1.dest ++ layouts o ss) next
            ∙ ap (λ b. b ++ layouts (layout writer.block_offset s).next ss) wrote
            ∙ append_assoc (contents writer.dest) _ _,
      )

next_in_block : (o : ℕ) (s : Bytes) → o ≤ block_size → (layout o s).next ≤ block_size
unfolding layout
next_in_block o s h = place_in_block (length s + 2) true o s h (rounds_enough o s)

pub read_records-layouts :
    (ss : List Bytes) (fuel : ℕ) (o : ℕ) (r : Reader)
    → length ss < fuel
    → o ≤ block_size
    → Positioned r o (layouts o ss)
    → read_records fuel r ≡ ok (views o ss)
unfolding read_records layouts views
read_records-layouts ss zero o r enough h pos = absurd (omega arith)
read_records-layouts [] (suc fuel) o r enough h pos =
    let (res, run, none) = read_record-end o r pos in rw (run, none)
read_records-layouts (s ∷ ss) (suc fuel) o r enough h pos =
    let next = (layout o s).next in
    let (res, run, ret) = read_record-layout o s r (layouts next ss) h pos in
    let more =
      read_records-layouts ss fuel next res.reader (omega arith) (next_in_block o s h)
        ret.at_next in
    rw (run, ret.is_found, more, ret.in_scratch, ret.in_record)

-- The end of a block is laid out as the start of one.
place_start : (n : ℕ) (s : Bytes) → place (suc n) true block_size s ≡ place (suc n) true 0 s
unfolding place
place_start n s = refl

layout_start : (s : Bytes) → layout block_size s ≡ layout 0 s
unfolding layout
layout_start s =
    let rounds_left : length s + 2 ≡ suc (length s + 1) = omega arith in
    rw rounds_left (place_start (length s + 1) s)

pub layouts_start : (ss : List Bytes) → layouts block_size ss ≡ layouts 0 ss
unfolding layouts
layouts_start [] = refl
layouts_start (s ∷ ss) = rw (layout_start s)

pub views_start : (ss : List Bytes) → views block_size ss ≡ views 0 ss
unfolding views
views_start [] = refl
views_start (s ∷ ss) = rw (layout_start s)

-- Writing the records to `f` succeeds, and reading the result gives them back.
abbrev pub ReadsBack : (w : WritableFile) → Laws w → List Bytes → w.State → String → Type 0
ReadsBack w laws ss f name =
    (r : Status × Writer w.State) × (add_records w ss (record { dest = f; block_offset = 0 })
      ≡ ok r)
    × (is_ok r.0 ≡ true)
    × (read_records (length ss + 1) (
          new_reader false (record { filename = name; rest = laws.contents r.1.dest; events = [] }))
        ≡ ok (views 0 ss))

-- A log that is begun on an empty file and written record by record, where no flush fails, is
-- accepted; and a reader of the file's contents, its `eof_` false and no read of it short or failing,
-- returns each record in turn, whole in `scratch` and with its last fragment in `record`, and then
-- reports the end. The reading loop is given one round more than there are records.
pub read_records-add_records :
    (w : WritableFile) (laws : Laws w) (reliable : Reliable w laws) (ss : List Bytes) (f : w.State)
    (name : String)
    → laws.contents f ≡ []
    → laws.room f ≡ 65536
    → reliable.IsHealthy f
    → ReadsBack w laws ss f name
unfolding new_reader
read_records-add_records w laws reliable ss f name empty roomy h =
    let writer : Writer w.State = record { dest = f; block_offset = 0 } in
    let ready : IsReady w laws writer = record { empty_buffer = roomy; in_block = omega arith } in
    let (r, run, good, wrote) = add_records-layouts w laws reliable ss writer ready h in
    let bytes : laws.contents r.1.dest ≡ layouts 0 ss = wrote ∙ ap (λ b. b ++ layouts 0 ss) empty in
    let file : PosixSequentialFile = record {
      filename = name;
      rest = laws.contents r.1.dest;
      events = [];
    } in
    let pos : Positioned (new_reader false file) block_size (layouts block_size ss) = record {
      in_buffer = sym (take_zero (layouts block_size ss));
      in_file = bytes ∙ sym (layouts_start ss) ∙ sym (drop_zero (layouts block_size ss));
      more = refl;
      quiet = refl;
    } in
    (
      r,
      run,
      good,
      read_records-layouts ss (length ss + 1) block_size (new_reader false file) (omega arith)
            (omega arith) pos
          ∙ ap ok (views_start ss),
    )

pub last_whole : (o : ℕ) (s : Bytes) → length s ≤ avail o → (layout o s).last ≡ s
unfolding layout
last_whole o s fits =
    let rounds_left : length s + 2 ≡ suc (length s + 1) = omega arith in
    rw (rounds_left, place_whole (length s + 1) true o s fits)

length-last_part :
    (o : ℕ) (s : Bytes) → 0 < avail o → avail o < length s → length (layout o s).last < length s
unfolding layout
length-last_part o s roomy over =
    let rounds_left : length s + 2 ≡ suc (length s + 1) = omega arith in
    let rest = drop (avail o) s in
    let enough = subst (λ n. rounds o s < n) rounds_left (rounds_enough o s) in
    rw (rounds_left, place_part (length s + 1) true o s over)
      (omega (
        arith,
        length-drop (avail o) s,
        length-last (length s + 1) false block_size rest
            (rounds_part o (length s + 1) s over enough),
      ))

-- A reader in front of a record that fits behind its header in the block returns it in `record`.
pub read_record_whole :
    (o : ℕ) (s : Bytes) (r : Reader) (t : Bytes)
    → o ≤ block_size
    → Positioned r o ((layout o s).bytes ++ t)
    → length s ≤ avail o
    → (res : ReadResult) × (read_record r ≡ ok res)
      × (res.found ≡ true)
      × (res.record_out ≡ s)
      × (res.scratch ≡ s)
read_record_whole o s r t in_block pos fits =
    let (res, run, ret) = read_record-layout o s r t in_block pos in
    (res, run, ret.is_found, ret.in_record ∙ last_whole o s fits, ret.in_scratch)

-- A reader in front of a record that was begun where there is room for a part of it only returns fewer
-- bytes in `record` than were written, though all of them in `scratch`.
pub read_record_part :
    (o : ℕ) (s : Bytes) (r : Reader) (t : Bytes)
    → o ≤ block_size
    → Positioned r o ((layout o s).bytes ++ t)
    → 0 < avail o
    → avail o < length s
    → (res : ReadResult) × (read_record r ≡ ok res)
      × (res.found ≡ true)
      × (length res.record_out < length s)
      × (res.scratch ≡ s)
read_record_part o s r t in_block pos roomy over =
    let (res, run, ret) = read_record-layout o s r t in_block pos in
    (
      res,
      run,
      ret.is_found,
      omega (arith, ap length ret.in_record, length-last_part o s roomy over),
      ret.in_scratch,
    )
