-- ===== src/Log/Writing/Reliable.antt =====
-- On a file whose flushes succeed, `AddRecord` succeeds.
use am_kv.Prelude.{
  ℕ, zero, suc, ◌+◌, ◌-◌, ◌≤◌, ◌<◌, ◌≡◌, sym, ◌∙◌, subst, arith, Bool, true, false, Bytes, length,
  take, drop, replicate, length-take, length-replicate, Result, ok, Bool-cases, inl, inr, ltb, leb,
  leb→le, leb_false→lt, ltb→lt,
}
use am_kv.Status.{Status, is_ok}
use am_kv.WritableFile.{WritableFile, Laws, Reliable}
use am_kv.Log.{block_size, header_size}
use am_kv.Log.Writer.{
  Writer, header, record_type, emit_physical_record, fill_trailer, add_record_loop, add_record,
}
use am_kv.Log.Layout.{avail, rounds, rounds_part, rounds_enough, start_offset-le}
use am_kv.Log.Writing.{IsReady, length-header, loop_whole, loop_part, round_lem, fill_trailer_lem}

module _ (w : WritableFile) (laws : Laws w) (reliable : Reliable w laws) where
  open reliable use {IsHealthy, append_keeps, flush_keeps, flush_succeeds}

  fill_trailer-IsHealthy :
      (writer : Writer w.State)
      → IsReady w laws writer
      → IsHealthy writer.dest
      → IsHealthy (fill_trailer w writer).dest
  unfolding fill_trailer
  fill_trailer-IsHealthy writer ready h =
      let leftover = block_size - writer.block_offset in
      elim (Bool-cases (ltb leftover header_size)) [
        | inr e ↦ rw e h
        | inl e ↦ elim (Bool-cases (ltb 0 leftover)) [
          | inr p ↦ rw (e, p) h
          | inl p ↦
              rw (e, p)
                (append_keeps (replicate leftover 0) writer.dest
                  (omega (
                    arith,
                    ltb→lt leftover header_size e,
                    length-replicate {A = ℕ} leftover 0,
                    ready.empty_buffer,
                  ))
                  h)
        ]
      ]

  emit_succeeds :
      (type : ℕ) (fragment : Bytes) (writer : Writer w.State)
      → length fragment + 7 ≤ laws.room writer.dest
      → IsHealthy writer.dest
      → (is_ok (emit_physical_record w type fragment writer).0 ≡ true)
        × IsHealthy (emit_physical_record w type fragment writer).1.dest
  unfolding emit_physical_record
  emit_succeeds type fragment writer fits h =
      let f0 = writer.dest in
      let head = header type (length fragment) in
      let hf : length head ≤ laws.room f0 =
        omega (arith, length-header w laws type (length fragment)) in
      let f1 = (w.append head f0).1 in
      let ff : length fragment ≤ laws.room f1 =
        omega (arith, laws.room_append head f0 hf, length-header w laws type (length fragment)) in
      let healthy = append_keeps fragment f1 ff (append_keeps head f0 hf h) in
      rw (laws.append_ok head f0 hf, laws.append_ok fragment f1 ff)
        (flush_succeeds _ healthy, flush_keeps _ healthy)

  -- One round's fragment, behind the padding.
  round_succeeds :
      (type : ℕ) (fragment : Bytes) (writer : Writer w.State)
      → IsReady w laws writer
      → length fragment ≤ avail writer.block_offset
      → IsHealthy writer.dest
      → (is_ok (emit_physical_record w type fragment (fill_trailer w writer)).0 ≡ true)
        × IsHealthy (emit_physical_record w type fragment (fill_trailer w writer)).1.dest
  round_succeeds type fragment writer ready fits h =
      let (filled, roomy, start) = fill_trailer_lem w laws writer ready in
      emit_succeeds type fragment (fill_trailer w writer)
        (omega (arith, start_offset-le writer.block_offset ready.in_block))
        (fill_trailer-IsHealthy writer ready h)

  abbrev Success : Result (Status × Writer w.State) → Type 0
  Success run =
      (r : Status × Writer w.State) × (run ≡ ok r) × (is_ok r.0 ≡ true) × IsHealthy r.1.dest

  add_record_loop_succeeds :
      (n : ℕ) (begin : Bool) (s : Bytes) (writer : Writer w.State)
      → IsReady w laws writer
      → IsHealthy writer.dest
      → rounds writer.block_offset s < n
      → Success (add_record_loop w n begin s writer)
  add_record_loop_succeeds zero begin s writer ready h enough = absurd (omega arith)
  add_record_loop_succeeds (suc n) begin s writer ready h enough =
      let o = writer.block_offset in
      let start = (fill_trailer_lem w laws writer ready).2 in
      elim (Bool-cases (leb (length s) (avail o))) [
        | inl e ↦
            let fits = leb→le (length s) (avail o) e in
            let (good, h') = round_succeeds (record_type begin true) s writer ready fits h in
            (_, loop_whole w laws n begin s writer start fits, good, h')
        | inr e ↦
            let over = leb_false→lt (length s) (avail o) e in
            let type = record_type begin false in
            let p = take (avail o) s in
            let fits : length p ≤ avail o = omega (arith, length-take (avail o) s) in
            let (good, h') = round_succeeds type p writer ready fits h in
            let (wrote, next, ready') = round_lem w laws type p writer ready fits good in
            let full : (emit_physical_record w type p (fill_trailer w writer)).1.block_offset
                ≡ block_size =
              next ∙ omega (arith, length-take (avail o) s, start_offset-le o ready.in_block) in
            let (r, run, good', h'') =
              add_record_loop_succeeds n false (drop (avail o) s) _ ready' h' (
                subst (λ k. rounds k (drop (avail o) s) < n) (sym full)
                  (rounds_part o n s over enough)) in
            (r, loop_part w laws n begin s writer start over ∙ rw good run, good', h'')
      ]

  pub add_record_succeeds :
      (s : Bytes) (writer : Writer w.State)
      → IsReady w laws writer
      → IsHealthy writer.dest
      → Success (add_record w s writer)
  unfolding add_record
  add_record_succeeds s writer ready h =
      add_record_loop_succeeds (length s + 2) true s writer ready h
        (rounds_enough writer.block_offset s)
