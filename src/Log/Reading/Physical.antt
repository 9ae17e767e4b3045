-- ===== src/Log/Reading/Physical.antt =====
-- `readPhysicalRecord` at a header that the layout has put down, and at the end of the file.
use am_kv.Prelude.{
  drop_all, ℕ, suc, ◌+◌, ◌-◌, ◌*◌, ◌/◌, ◌%◌, ◌≤◌, ◌<◌, ◌≡◌, ◌≢◌, refl, sym, ap, ◌∙◌, arith, true,
  false, [], ◌++◌, Bytes, length, length-append, length-replicate, length-take, take, drop,
  take-append, drop-append, take_front, take-nil, drop_front, replicate, ltb, le→ltb_false, lt→ltb,
  ne→==_false, ok, Bool-cases, inl, inr, ltb→lt,
}
use am_kv.SequentialFile.{read_quiet}
use am_kv.Log.{block_size, eof_type}
use am_kv.Log.Writer.{header}
use am_kv.Log.Layout.{start_offset, padding, physical, length-physical}
use am_kv.Log.Reader.{Reader, parse_header, refill, physical_loop, read_physical_record}

-- The reader stands at offset `o` of a block, in front of the bytes `s`: the rest of the block is in
-- its buffer, the rest of `s` in the file, and the kernel completes every read.
pub record Positioned (r : Reader) (o : ℕ) (s : Bytes) : Type 0 where
  pub in_buffer : r.buffer ≡ take (block_size - o) s
  pub in_file : r.file.rest ≡ drop (block_size - o) s
  pub more : r.eof ≡ false
  pub quiet : r.file.events ≡ []

parse_lem :
    (fragment : Bytes) (r : Reader) (type : ℕ) (p tail : Bytes)
    → length p < 65536
    → type ≢ 0
    → 7 + length p ≤ length r.buffer
    → parse_header fragment r (physical type p ++ tail)
      ≡ (type, p, record r { buffer = drop (7 + length p) r.buffer })
unfolding parse_header physical header
parse_lem fragment r type p tail short nonzero fits =
    let e : length p % 256 + length p / 256 % 256 * 256 ≡ length p = omega arith in
    rw (
      e,
      le→ltb_false (length r.buffer) (7 + length p) fits,
      ne→==_false type 0 nonzero,
      take_front (length p) p tail refl,
    )

module _ (fragment : Bytes) (n : ℕ) (r : Reader) where
  loop_parse :
      7 ≤ length r.buffer → physical_loop (suc n) fragment r ≡ ok (parse_header fragment r r.buffer)
  unfolding physical_loop
  loop_parse h = rw (le→ltb_false (length r.buffer) 7 h)

  loop_refill :
      length r.buffer < 7
      → r.eof ≡ false
      → (refill r).0 ≡ true
      → physical_loop (suc n) fragment r ≡ physical_loop n fragment (refill r).1
  unfolding physical_loop
  loop_refill h more good = rw (lt→ltb (length r.buffer) 7 h, more, good)

  loop_eof :
      length r.buffer < 7
      → r.eof ≡ true
      → physical_loop (suc n) fragment r ≡ ok (eof_type, fragment, record r { buffer = [] })
  unfolding physical_loop
  loop_eof h done = rw (lt→ltb (length r.buffer) 7 h, done)

refill_lem :
    (r : Reader)
    → r.file.events ≡ []
    → ((refill r).0 ≡ true)
      × ((refill r).1.buffer ≡ take block_size r.file.rest)
      × ((refill r).1.eof ≡ ltb (length (take block_size r.file.rest)) 7)
      × ((refill r).1.file.rest ≡ drop block_size r.file.rest)
      × ((refill r).1.file.events ≡ [])
unfolding refill
refill_lem r e = rw (read_quiet block_size r.file e) (refl, refl, refl, refl, refl)

-- One more header at the reader's place.
parse-Positioned :
    (fragment : Bytes) (r : Reader) (o : ℕ) (type : ℕ) (p t : Bytes)
    → Positioned r o (physical type p ++ t)
    → o + (7 + length p) ≤ block_size
    → type ≢ 0
    → (7 ≤ length r.buffer)
      × (parse_header fragment r r.buffer
          ≡ (type, p, record r { buffer = drop (7 + length p) r.buffer }))
      × Positioned (record r { buffer = drop (7 + length p) r.buffer }) (o + (7 + length p)) t
parse-Positioned fragment r o type p t pos fits nonzero =
    let m = block_size - (o + (7 + length p)) in
    let split : block_size - o ≡ length (physical type p) + m =
      omega (arith, length-physical type p) in
    let b : r.buffer ≡ physical type p ++ take m t =
      pos.in_buffer ∙ take-append (block_size - o) m (physical type p) t split in
    let len : 7 + length p ≤ length r.buffer =
      omega
        (arith, ap length b, length-append (physical type p) (take m t), length-physical type p) in
    (
      omega arith,
      ap (λ x. parse_header fragment r x) b
          ∙ parse_lem fragment r type p (take m t) (omega arith) nonzero len,
      record {
        in_buffer =
            ap (λ x. drop (7 + length p) x) b
            ∙ drop_front (7 + length p) (physical type p) (take m t) (sym (length-physical type p));
        in_file = pos.in_file ∙ drop-append (block_size - o) m (physical type p) t split;
        more = pos.more;
        quiet = pos.quiet;
      },
    )

behind_padding :
    (fragment : Bytes) (r : Reader) (o : ℕ) (type : ℕ) (p t : Bytes)
    → Positioned r o (replicate (block_size - o) 0 ++ (physical type p ++ t))
    → 0 + (7 + length p) ≤ block_size
    → type ≢ 0
    → block_size - o < 7
    → (r' : Reader) × (physical_loop 2 fragment r ≡ ok (type, p, r'))
      × Positioned r' (0 + (7 + length p)) t
behind_padding fragment r o type p t pos fits nonzero small =
    let zeros : Bytes = replicate (block_size - o) 0 in
    let all = physical type p ++ t in
    let zeros_length : block_size - o ≡ length zeros = sym (length-replicate (block_size - o) 0) in
    let rest : r.file.rest ≡ all =
      pos.in_file ∙ drop_front (block_size - o) zeros all zeros_length in
    let old : r.buffer ≡ zeros =
      pos.in_buffer ∙ take_front (block_size - o) zeros all zeros_length in
    let short : length r.buffer < 7 = omega (arith, ap length old, zeros_length) in
    let (good, fb, fe, ff, fq) = refill_lem r pos.quiet in
    let whole : 7 ≤ length (take block_size r.file.rest) = omega (
      arith,
      length-take block_size r.file.rest,
      ap length rest,
      length-append (physical type p) t,
      length-physical type p,
    ) in
    let pos' : Positioned (refill r).1 0 all = record {
      in_buffer = fb ∙ ap (λ x. take block_size x) rest;
      in_file = ff ∙ ap (λ x. drop block_size x) rest;
      more = fe ∙ le→ltb_false (length (take block_size r.file.rest)) 7 whole;
      quiet = fq;
    } in
    let (len, parsed, next) = parse-Positioned fragment (refill r).1 0 type p t pos' fits nonzero in
    (
      _,
      loop_refill fragment 1 r short pos.more good
          ∙ loop_parse fragment 0 (refill r).1 len
          ∙ ap ok parsed,
      next,
    )

-- The next record in the log, padding in front of it or not, is read whole.
pub read_physical_record-physical :
    (fragment : Bytes) (r : Reader) (o : ℕ) (type : ℕ) (p t : Bytes)
    → Positioned r o (padding o ++ (physical type p ++ t))
    → o ≤ block_size
    → start_offset o + (7 + length p) ≤ block_size
    → type ≢ 0
    → (r' : Reader) × (read_physical_record fragment r ≡ ok (type, p, r'))
      × Positioned r' (start_offset o + (7 + length p)) t
unfolding read_physical_record
read_physical_record-physical fragment r o type p t pos in_block fits nonzero =
    elim (Bool-cases (ltb (block_size - o) 7)) [
      | inr e ↦
          let pos' = rw e at pos in
          let fits' = rw e at fits in
          let (len, parsed, next) = parse-Positioned fragment r o type p t pos' fits' nonzero in
          rw e (_, loop_parse fragment 1 r len ∙ ap ok parsed, next)
      | inl e ↦
          let pos' = rw e at pos in
          let fits' = rw e at fits in
          rw e
            (behind_padding fragment r o type p t pos' fits' nonzero (ltb→lt (block_size - o) 7 e))
    ]

-- Behind the last record the reader meets the end of the file.
pub read_physical_record-end :
    (fragment : Bytes) (r : Reader) (o : ℕ)
    → Positioned r o []
    → (r' : Reader) × (read_physical_record fragment r ≡ ok (eof_type, fragment, r'))
unfolding read_physical_record
read_physical_record-end fragment r o pos =
    let none_left : r.file.rest ≡ [] = pos.in_file ∙ drop_all (block_size - o) [] (omega arith) in
    let old : r.buffer ≡ [] = pos.in_buffer ∙ take-nil (block_size - o) in
    let (good, fb, fe, ff, fq) = refill_lem r pos.quiet in
    let empty : take block_size r.file.rest ≡ [] =
      ap (λ x. take block_size x) none_left ∙ take-nil block_size in
    let done : (refill r).1.eof ≡ true =
      fe ∙ lt→ltb (length (take block_size r.file.rest)) 7 (omega (arith, ap length empty)) in
    (
      _,
      loop_refill fragment 1 r (omega (arith, ap length old)) pos.more good
          ∙ loop_eof fragment 0 (refill r).1 (omega (arith, ap length fb, ap length empty)) done,
    )
