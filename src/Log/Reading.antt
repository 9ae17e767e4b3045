-- ===== src/Log/Reading.antt =====
-- `ReadRecord` on what `AddRecord` laid out: what the loop makes of each fragment. `Physical` has
-- the single fragments.
pub mod Physical
use am_kv.Prelude.{
  length-drop, ℕ, zero, suc, ◌+◌, ◌-◌, ◌≤◌, ◌<◌, ◌≡◌, ◌≢◌, refl, sym, ap, ◌∙◌, subst, arith, Bool,
  true, false, List, [], ◌∷◌, ◌++◌, Bytes, append_assoc, append-nil, length, length-append,
  length-take, take, drop, take-append-drop, Result, ok, Bool-cases, inl, inr, if◌then◌else◌, leb,
  leb→le, leb_false→lt,
}
use am_kv.Log.{block_size, header_size, eof_type}
use am_kv.Log.Writer.{record_type}
use am_kv.Log.Layout.{
  length-place, start_offset, padding, avail, physical, rounds, Placed, place, layout, place_whole,
  place_part, rounds_part, rounds_enough, start_offset-le,
}
use am_kv.Log.Reader.{
  physical_offset, Reader, ReadResult, read_physical_record, finished, read_record_loop,
  read_record,
}
use am_kv.Log.Reading.Physical.{Positioned, read_physical_record-physical, read_physical_record-end}

-- What a read has to return: the whole of `whole` in `scratch`, `last` in `record`, and a reader in
-- front of `t`.
pub record Returns (whole last : Bytes) (next : ℕ) (t : Bytes) (res : ReadResult) : Type 0 where
  pub is_found : res.found ≡ true
  pub in_scratch : res.scratch ≡ whole
  pub in_record : res.record_out ≡ last
  pub at_next : Positioned res.reader next t

abbrev pub Reads : Result ReadResult → Bytes → Bytes → ℕ → Bytes → Type 0
Reads run whole last next t = (res : ReadResult) × (run ≡ ok res) × Returns whole last next t res

-- What of `scratch` a fragment goes behind.
abbrev before : Bool → Bytes → Bytes
before begin scratch = if begin then [] else scratch

-- The offset that is kept from the first fragment on.
abbrev offset_of : Bool → Bytes → ℕ → Reader → ℕ
offset_of begin s prospective r = if begin then physical_offset s r else prospective

abbrev last_result : Bool → Bytes → Bytes → ℕ → Reader → ReadResult
last_result begin s scratch prospective r = record {
  found = true;
  record_out = s;
  scratch = before begin scratch ++ s;
  reader = record r { last_record_offset = offset_of begin s prospective r };
}

returned :
    (begin : Bool) (s scratch : Bytes) (prospective : ℕ) (r : Reader) (next : ℕ) (t : Bytes)
    → Positioned r next t
    → Returns (before begin scratch ++ s) s next t (last_result begin s scratch prospective r)
returned begin s scratch prospective r next t pos = record {
  is_found = refl;
  in_scratch = refl;
  in_record = refl;
  at_next = record {
    in_buffer = pos.in_buffer;
    in_file = pos.in_file;
    more = pos.more;
    quiet = pos.quiet;
  };
}

last_fragment :
    (m : ℕ) (begin : Bool) (s scratch fragment : Bytes) (prospective : ℕ) (r r' : Reader) (next : ℕ)
    (t : Bytes)
    → read_physical_record fragment r ≡ ok (record_type begin true, s, r')
    → Positioned r' next t
    → Reads
        (read_record_loop (suc m) scratch fragment prospective r)
        (before begin scratch ++ s)
        s
        next
        t
unfolding read_record_loop record_type
last_fragment m true s scratch fragment prospective r r' next t e pos = (
  last_result true s scratch prospective r',
  rw e,
  returned true s scratch prospective r' next t pos,
)
last_fragment m false s scratch fragment prospective r r' next t e pos = (
  last_result false s scratch prospective r',
  rw e,
  returned false s scratch prospective r' next t pos,
)

other_fragment :
    (m : ℕ) (begin : Bool) (s scratch fragment : Bytes) (prospective : ℕ) (r r' : Reader)
    → read_physical_record fragment r ≡ ok (record_type begin false, s, r')
    → read_record_loop (suc m) scratch fragment prospective r
      ≡ read_record_loop m (before begin scratch ++ s) s (offset_of begin s prospective r') r'
unfolding read_record_loop record_type
other_fragment m true s scratch fragment prospective r r' e = rw e
other_fragment m false s scratch fragment prospective r r' e = rw e

record_type_nonzero : (begin end : Bool) → record_type begin end ≢ 0
unfolding record_type
record_type_nonzero true true = omega arith
record_type_nonzero true false = omega arith
record_type_nonzero false true = omega arith
record_type_nonzero false false = omega arith

avail_fits : (o n : ℕ) → o ≤ block_size → n ≤ avail o → start_offset o + (7 + n) ≤ block_size
avail_fits o n h k = omega (arith, start_offset-le o h)

-- The loop on what is placed in front of `t`, in a round per fragment.
read_record_loop-place :
    (n m : ℕ) (begin : Bool) (o : ℕ) (s scratch fragment : Bytes) (prospective : ℕ) (r : Reader)
    (t : Bytes)
    → n ≤ m
    → o ≤ block_size
    → rounds o s < n
    → Positioned r o ((place n begin o s).bytes ++ t)
    → Reads
        (read_record_loop m scratch fragment prospective r)
        (before begin scratch ++ s)
        (place n begin o s).last
        (place n begin o s).next
        t
read_record_loop-place zero m begin o s scratch fragment prospective r t le in_block enough pos =
    absurd (omega arith)
read_record_loop-place (suc n) zero begin o s scratch fragment prospective r t le in_block enough
      pos =
    absurd (omega arith)
read_record_loop-place (suc n) (suc m) begin o s scratch fragment prospective r t le in_block enough
      pos =
    elim (Bool-cases (leb (length s) (avail o))) [
      | inr e ↦
          let over = leb_false→lt (length s) (avail o) e in
          let a = avail o in
          let p = take a s in
          let rest = place n false block_size (drop a s) in
          let kept = before begin scratch in
          let type = record_type begin false in
          let p_length : length p ≡ a = omega (arith, length-take a s) in
          let here : Positioned r o (padding o ++ (physical type p ++ (rest.bytes ++ t))) =
            subst (λ b. Positioned r o b)
              (ap (λ q. q.bytes ++ t) (place_part n begin o s over)
                ∙ append_assoc (padding o) _ t
                ∙ ap (λ b. padding o ++ b) (append_assoc (physical type p) rest.bytes t))
              pos in
          let fits = avail_fits o (length p) in_block (omega arith) in
          let (r', got, at) =
            read_physical_record-physical fragment r o type p (rest.bytes ++ t) here in_block fits
              (record_type_nonzero begin false) in
          let full : start_offset o + (7 + length p) ≡ block_size =
            omega (arith, start_offset-le o in_block) in
          let (res, run, ret) =
            read_record_loop-place n m false block_size (drop a s) (kept ++ p) p
              (offset_of begin p prospective r') r' t (omega arith) (omega arith)
              (rounds_part o n s over enough)
              (subst (λ k. Positioned r' k (rest.bytes ++ t)) full at) in
          rw (place_part n begin o s over) (
            res,
            other_fragment m begin p scratch fragment prospective r r' got ∙ run,
            record {
              is_found = ret.is_found;
              in_scratch =
                  ret.in_scratch
                  ∙ append_assoc kept p (drop a s)
                  ∙ ap (λ b. kept ++ b) (take-append-drop a s);
              in_record = ret.in_record;
              at_next = ret.at_next;
            },
          )
      | inl e ↦
          let fits = leb→le (length s) (avail o) e in
          let here : Positioned r o (padding o ++ (physical (record_type begin true) s ++ t)) =
            subst (λ b. Positioned r o b)
              (ap (λ p. p.bytes ++ t) (place_whole n begin o s fits) ∙ append_assoc (padding o) _ t)
              pos in
          let (r', got, at) =
            read_physical_record-physical fragment r o (record_type begin true) s t here in_block
              (avail_fits o (length s) in_block fits) (record_type_nonzero begin true) in
          rw (place_whole n begin o s fits)
            (last_fragment m begin s scratch fragment prospective r r' _ t got at)
    ]

-- A reader has fuel for every fragment of the record in front of it.
round_for_each :
    (o : ℕ) (s : Bytes) (r : Reader) (t : Bytes)
    → Positioned r o ((layout o s).bytes ++ t)
    → length s + 2 ≤ length r.buffer + length r.file.rest + 1
unfolding layout
round_for_each o s r t pos =
    let all = (place (length s + 2) true o s).bytes in
    omega (
      arith,
      ap length pos.in_buffer,
      ap length pos.in_file,
      length-take (block_size - o) (all ++ t),
      length-drop (block_size - o) (all ++ t),
      length-append all t,
      length-place (length s + 2) true o s (rounds_enough o s),
    )

-- A reader in front of the layout of a record returns: the whole record in `scratch`, its last
-- fragment in `record`, and a reader that stands in front of what follows in the log.
pub read_record-layout :
    (o : ℕ) (s : Bytes) (r : Reader) (t : Bytes)
    → o ≤ block_size
    → Positioned r o ((layout o s).bytes ++ t)
    → Reads (read_record r) s (layout o s).last (layout o s).next t
unfolding read_record layout
read_record-layout o s r t in_block pos =
    read_record_loop-place (length s + 2) (length r.buffer + length r.file.rest + 1) true o s [] []
      0 r t (round_for_each o s r t pos) in_block (rounds_enough o s) pos

no_record :
    (m : ℕ) (scratch fragment : Bytes) (prospective : ℕ) (r r' : Reader)
    → read_physical_record fragment r ≡ ok (eof_type, fragment, r')
    → read_record_loop (suc m) scratch fragment prospective r
      ≡ ok (record { found = false; record_out = []; scratch = []; reader = r' })
unfolding read_record_loop
no_record m scratch fragment prospective r r' e = rw e

-- Behind the last record it finds none.
pub read_record-end :
    (o : ℕ) (r : Reader)
    → Positioned r o []
    → (res : ReadResult) × (read_record r ≡ ok res) × (res.found ≡ false)
unfolding read_record
read_record-end o r pos =
    let (r', e) = read_physical_record-end [] r o pos in
    let rounds_left : length r.buffer + length r.file.rest + 1
        ≡ suc (length r.buffer + length r.file.rest) =
      omega arith in
    (_, ap (λ n. read_record_loop n [] [] 0 r) rounds_left ∙ no_record _ [] [] 0 r r' e, refl)
