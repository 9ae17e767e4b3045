-- ===== src/Log/Writing.antt =====
-- `AddRecord` appends the layout of its record.
pub mod Reliable
use am_kv.Prelude.{
  subst, leb_false→lt, leb→le, lt→ltb, lt→leb_false, ne→==_false, le→leb, take_all, drop_all,
  ==_refl, ◌&&◌, min, ℕ, zero, suc, ◌+◌, ◌-◌, ◌≤◌, ◌<◌, ◌≡◌, refl, sym, ap, ◌∙◌, arith, Bool, true,
  false, List, [], ◌∷◌, ◌++◌, Bytes, append_assoc, append-nil, length, length-append,
  length-replicate, length-take, length-drop, take, drop, replicate, ltb, leb, if◌then◌else◌,
  Result, ok, Bool-cases, inl, inr, ltb→lt, ltb_false→le,
}
use am_kv.Status.{Status, status_ok, is_ok}
use am_kv.WritableFile.{WritableFile, Laws, and_then, buffer_size}
use am_kv.Log.{block_size, header_size}
use am_kv.Log.Writer.{
  Writer, header, record_type, emit_physical_record, fill_trailer, add_record_loop, add_record,
}
use am_kv.Log.Layout.{
  place_whole, place_part, start_offset-le, rounds_part, rounds_enough, start_offset, padding,
  avail, physical, rounds, Placed, place, layout,
}

if_min : (a b : ℕ) → (if ltb a b then a else b) ≡ min a b
if_min a b = elim (Bool-cases (ltb a b)) [
  | inl e ↦ rw e (omega (arith, ltb→lt a b e))
  | inr e ↦ rw e (omega (arith, ltb_false→le a b e))
]

min_left : (a b : ℕ) → a ≤ b → min a b ≡ a
min_left a b h = omega arith

min_right : (a b : ℕ) → b < a → min a b ≡ b
min_right a b h = omega arith

&&-false : (b : Bool) → (b && false) ≡ false
&&-false true = refl
&&-false false = refl

&&-true : (b : Bool) → (b && true) ≡ b
&&-true true = refl
&&-true false = refl

module _ (w : WritableFile) (laws : Laws w) where
  open laws use {
    contents, room, append_ok, contents_append, room_append, contents_flush, room_flush,
  }

  -- A writer between two records.
  pub record IsReady (writer : Writer w.State) : Type 0 where
    pub empty_buffer : room writer.dest ≡ buffer_size
    pub in_block : writer.block_offset ≤ block_size

  pub length-header : (type len : ℕ) → length (header type len) ≡ 7
  unfolding header
  length-header type len = refl

  -- The record of one fragment, where there is room for it in the file's buffer.
  emit_lem :
      (type : ℕ) (fragment : Bytes) (writer : Writer w.State)
      → length fragment + 7 ≤ room writer.dest
      → is_ok (emit_physical_record w type fragment writer).0 ≡ true
      → (contents (emit_physical_record w type fragment writer).1.dest
          ≡ contents writer.dest ++ physical type fragment)
        × (room (emit_physical_record w type fragment writer).1.dest ≡ buffer_size)
  unfolding emit_physical_record physical
  emit_lem type fragment writer fits good =
      let f0 = writer.dest in
      let h = header type (length fragment) in
      let f1 = (w.append h f0).1 in
      let hf : length h ≤ room f0 = omega (arith, length-header type (length fragment)) in
      let r1 : room f1 + 7 ≡ room f0 =
        omega (arith, room_append h f0 hf, length-header type (length fragment)) in
      let ff : length fragment ≤ room f1 = omega arith in
      let good' = rw (append_ok h f0 hf, append_ok fragment f1 ff) at good in
      rw (append_ok h f0 hf, append_ok fragment f1 ff)
        (
          contents_flush _ good'
              ∙ contents_append fragment f1 ff
              ∙ ap (λ t. t ++ fragment) (contents_append h f0 hf)
              ∙ append_assoc (contents f0) h fragment,
          room_flush _ good',
        )

  pub emit-block_offset :
      (type : ℕ) (fragment : Bytes) (writer : Writer w.State)
      → (emit_physical_record w type fragment writer).1.block_offset
        ≡ writer.block_offset + (header_size + length fragment)
  unfolding emit_physical_record
  emit-block_offset type fragment writer = refl

  pub fill_trailer_lem :
      (writer : Writer w.State)
      → IsReady writer
      → (contents (fill_trailer w writer).dest
          ≡ contents writer.dest ++ padding writer.block_offset)
        × (buffer_size ≤ room (fill_trailer w writer).dest + 6)
        × ((fill_trailer w writer).block_offset ≡ start_offset writer.block_offset)
  unfolding fill_trailer
  fill_trailer_lem writer ready =
      let leftover = block_size - writer.block_offset in
      let zeros : Bytes = replicate leftover 0 in
      elim (Bool-cases (ltb leftover header_size)) [
        | inr e ↦ rw e (sym (append-nil _), omega (arith, ready.empty_buffer), refl)
        | inl e ↦ elim (Bool-cases (ltb 0 leftover)) [
          | inl p ↦
              let fits : length zeros ≤ room writer.dest = omega (
                arith,
                ltb→lt leftover header_size e,
                length-replicate {A = ℕ} leftover 0,
                ready.empty_buffer,
              ) in
              rw (e, p)
                (
                  contents_append zeros writer.dest fits,
                  omega (
                    arith,
                    ltb→lt leftover header_size e,
                    length-replicate {A = ℕ} leftover 0,
                    ready.empty_buffer,
                    room_append zeros writer.dest fits,
                  ),
                  refl,
                )
          | inr p ↦
              let none_left : leftover ≡ 0 = omega (arith, ltb_false→le 0 leftover p) in
              rw (e, p) (rw none_left (sym (append-nil _)), omega (arith, ready.empty_buffer), refl)
        ]
      ]

  -- One round of the loop, on a record that fits behind the next header and on one that does not.
  pub loop_whole :
      (n : ℕ) (begin : Bool) (s : Bytes) (writer : Writer w.State)
      → (fill_trailer w writer).block_offset ≡ start_offset writer.block_offset
      → length s ≤ avail writer.block_offset
      → add_record_loop w (suc n) begin s writer
        ≡ ok (emit_physical_record w (record_type begin true) s (fill_trailer w writer))
  unfolding add_record_loop
  loop_whole n begin s writer start fits = rw (
    start,
    if_min (length s) (avail writer.block_offset),
    min_left (length s) (avail writer.block_offset) fits,
    ==_refl (length s),
    drop_all (length s) s (omega arith),
    take_all (length s) s (omega arith),
    &&-false,
  )

  pub loop_part :
      (n : ℕ) (begin : Bool) (s : Bytes) (writer : Writer w.State)
      → (fill_trailer w writer).block_offset ≡ start_offset writer.block_offset
      → avail writer.block_offset < length s
      → add_record_loop w (suc n) begin s writer ≡ (
          let a = avail writer.block_offset in
          let r =
            emit_physical_record w (record_type begin false) (take a s) (fill_trailer w writer) in
          if is_ok r.0 then add_record_loop w n false (drop a s) r.1 else ok r)
  unfolding add_record_loop
  loop_part n begin s writer start over =
      let a = avail writer.block_offset in
      rw (
        start,
        if_min (length s) a,
        min_right (length s) a over,
        ne→==_false (length s) a (λ e. omega arith),
        lt→ltb 0 (length (drop a s)) (omega (arith, length-drop a s)),
        &&-true,
      )

  -- What a successful run leaves: `p` appended, and a writer between records.
  abbrev pub Leaves : Writer w.State → Placed → Status × Writer w.State → Type 0
  Leaves writer p (status, written) =
      is_ok status ≡ true
      → (contents written.dest ≡ contents writer.dest ++ p.bytes)
        × (written.block_offset ≡ p.next)
        × IsReady written

  -- One round: padding and one fragment.
  pub round_lem :
      (type : ℕ) (fragment : Bytes) (writer : Writer w.State)
      → IsReady writer
      → length fragment ≤ avail writer.block_offset
      → Leaves writer
          (record {
            bytes = padding writer.block_offset ++ physical type fragment;
            next = start_offset writer.block_offset + (header_size + length fragment);
            last = fragment;
          })
          (emit_physical_record w type fragment (fill_trailer w writer))
  round_lem type fragment writer ready fits good =
      let o = writer.block_offset in
      let (filled, roomy, start) = fill_trailer_lem writer ready in
      let in_block : start_offset o + 7 ≤ block_size = start_offset-le o ready.in_block in
      let (wrote, flushed) = emit_lem type fragment (fill_trailer w writer) (omega arith) good in
      let next =
        emit-block_offset type fragment (fill_trailer w writer)
        ∙ ap (λ t. t + (header_size + length fragment)) start in
      (
        wrote
            ∙ ap (λ t. t ++ physical type fragment) filled
            ∙ append_assoc (contents writer.dest) (padding o) (physical type fragment),
        next,
        record { empty_buffer = flushed; in_block = omega arith },
      )

  abbrev Run : ℕ → Bool → ℕ → Bytes → Writer w.State → Type 0
  Run n begin o s writer =
      (r : Status × Writer w.State) × (add_record_loop w n begin s writer ≡ ok r)
      × Leaves writer (place n begin o s) r

  Run-whole :
      (n : ℕ) (begin : Bool) (s : Bytes) (writer : Writer w.State)
      → IsReady writer
      → length s ≤ avail writer.block_offset
      → Run (suc n) begin writer.block_offset s writer
  Run-whole n begin s writer ready fits = rw (place_whole n begin writer.block_offset s fits) (
    emit_physical_record w (record_type begin true) s (fill_trailer w writer),
    loop_whole n begin s writer (fill_trailer_lem writer ready).2 fits,
    round_lem (record_type begin true) s writer ready fits,
  )

  Run-part :
      (n : ℕ) (begin : Bool) (s : Bytes) (writer : Writer w.State)
      → IsReady writer
      → avail writer.block_offset < length s
      → ((writer' : Writer w.State)
          → IsReady writer'
          → writer'.block_offset ≡ block_size
          → Run n false block_size (drop (avail writer.block_offset) s) writer')
      → Run (suc n) begin writer.block_offset s writer
  Run-part n begin s writer ready over rest_run =
      let a = avail writer.block_offset in
      let fragment = take a s in
      let type = record_type begin false in
      let r = emit_physical_record w type fragment (fill_trailer w writer) in
      let cut : length fragment ≡ a = omega (arith, length-take a s) in
      let step = loop_part n begin s writer (fill_trailer_lem writer ready).2 over in
      rw (place_part n begin writer.block_offset s over) (elim (Bool-cases (is_ok r.0)) [
        | inr bad ↦ (r, step ∙ rw bad, λ good. cc)
        | inl good ↦
            let (wrote, next, ready') = round_lem type fragment writer ready (omega arith) good in
            let full : r.1.block_offset ≡ block_size =
              next ∙ omega (arith, start_offset-le writer.block_offset ready.in_block) in
            let (r', run, leaves) = rest_run r.1 ready' full in
            (
              r',
              step ∙ rw good run,
              λ good'.
                  let (wrote', next', ready'') = leaves good' in
                  (
                    wrote'
                        ∙ ap (λ t. t ++ (place n false block_size (drop a s)).bytes) wrote
                        ∙ append_assoc (contents writer.dest) _ _
                        ∙ ap (λ t. contents writer.dest ++ t)
                            (append_assoc (padding writer.block_offset) _ _),
                    next',
                    ready'',
                  ),
            )
      ])

  add_record_loop-place :
      (n : ℕ) (begin : Bool) (o : ℕ) (s : Bytes) (writer : Writer w.State)
      → IsReady writer
      → writer.block_offset ≡ o
      → rounds o s < n
      → Run n begin o s writer
  add_record_loop-place zero begin o s writer ready at enough = absurd (omega arith)
  add_record_loop-place (suc n) begin o s writer ready at enough =
      subst (λ t. Run (suc n) begin t s writer) at
        (elim (Bool-cases (leb (length s) (avail writer.block_offset))) [
          | inl e ↦
              Run-whole n begin s writer ready (leb→le (length s) (avail writer.block_offset) e)
          | inr e ↦
              let over = leb_false→lt (length s) (avail writer.block_offset) e in
              Run-part n begin s writer ready over (λ writer' ready' at'.
                add_record_loop-place n false block_size (drop (avail writer.block_offset) s)
                  writer' ready' at'
                  (rounds_part writer.block_offset n s over (rw (sym at) at enough)))
        ])

  -- On a file that meets `Laws` and has an empty buffer, `AddRecord` ends. If it reports success, it
  -- has appended the layout of the record from the writer's offset in its block on, it stands at the
  -- offset behind that, and the file's buffer is empty again.
  pub add_record-layout :
      (s : Bytes) (writer : Writer w.State)
      → IsReady writer
      → (r : Status × Writer w.State) × (add_record w s writer ≡ ok r)
        × Leaves writer (layout writer.block_offset s) r
  unfolding add_record layout
  add_record-layout s writer ready =
      add_record_loop-place (length s + 2) true writer.block_offset s writer ready refl
        (rounds_enough writer.block_offset s)
