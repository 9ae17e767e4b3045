-- ===== src/Log/Layout.antt =====
-- The bytes that a record takes in the log from a given offset in its block on, and what of it a
-- reader finds in its last fragment.
use am_kv.Prelude.{
  length-take, leb_false→lt, length-append, leb→le, ltb→lt, length-drop, inr, inl, Bool-cases,
  le→leb, lt→leb_false, ℕ, zero, suc, ◌+◌, ◌-◌, ◌≤◌, ◌<◌, Bool, true, false, [], ◌++◌, Bytes,
  length, take, drop, replicate, ltb, leb, if◌then◌else◌, arith, ◌≡◌,
}
use am_kv.Log.{block_size, header_size}
use am_kv.Log.Writer.{header, record_type}

-- Where the next header stands, and the zeros in front of it.
abbrev pub start_offset : ℕ → ℕ
start_offset o = if ltb (block_size - o) header_size then 0 else o

abbrev pub padding : ℕ → Bytes
padding o = if ltb (block_size - o) header_size then replicate (block_size - o) 0 else []

-- Room for a fragment behind that header.
abbrev pub avail : ℕ → ℕ
avail o = block_size - start_offset o - header_size

unfoldable pub physical : ℕ → Bytes → Bytes
physical type fragment = header type (length fragment) ++ fragment

-- Rounds that a record needs: one more where the first finds no room behind its header.
abbrev pub rounds : ℕ → Bytes → ℕ
rounds o s = if ltb 0 (avail o) then length s else length s + 1

-- The bytes, the offset behind them and the last fragment.
pub record Placed : Type 0 where
  pub bytes : Bytes
  pub next : ℕ
  pub last : Bytes

unfoldable pub place : ℕ → Bool → ℕ → Bytes → Placed
place zero begin o s = record { bytes = []; next = o; last = [] }
place (suc fuel) begin o s =
    let rest = place fuel false block_size (drop (avail o) s) in
    if leb (length s) (avail o)
    then record {
      bytes = padding o ++ physical (record_type begin true) s;
      next = start_offset o + (header_size + length s);
      last = s;
    }
    else record {
      bytes = padding o ++ (physical (record_type begin false) (take (avail o) s) ++ rest.bytes);
      next = rest.next;
      last = rest.last;
    }

-- A whole record, begun at offset `o`.
unfoldable pub layout : ℕ → Bytes → Placed
layout o s = place (length s + 2) true o s

pub place_whole :
    (n : ℕ) (begin : Bool) (o : ℕ) (s : Bytes)
    → length s ≤ avail o
    → place (suc n) begin o s ≡ record {
      bytes = padding o ++ physical (record_type begin true) s;
      next = start_offset o + (header_size + length s);
      last = s;
    }
unfolding place
place_whole n begin o s h = rw (le→leb (length s) (avail o) h)

pub place_part :
    (n : ℕ) (begin : Bool) (o : ℕ) (s : Bytes)
    → avail o < length s
    → place (suc n) begin o s ≡ (
        let rest = place n false block_size (drop (avail o) s) in
        record {
          bytes =
              padding o ++ (physical (record_type begin false) (take (avail o) s) ++ rest.bytes);
          next = rest.next;
          last = rest.last;
        })
unfolding place
place_part n begin o s h = rw (lt→leb_false (length s) (avail o) h)

pub start_offset-le : (o : ℕ) → o ≤ block_size → start_offset o + 7 ≤ block_size
start_offset-le o h = ground arith

pub rounds_part :
    (o n : ℕ) (s : Bytes)
    → avail o < length s
    → rounds o s < suc n
    → rounds block_size (drop (avail o) s) < n
rounds_part o n s over enough = elim (Bool-cases (ltb 0 (avail o))) [
  | inl e ↦ let k = rw e at enough in omega (arith, length-drop (avail o) s, ltb→lt 0 (avail o) e)
  | inr e ↦ let k = rw e at enough in omega (arith, length-drop (avail o) s)
]

pub rounds_enough : (o : ℕ) (s : Bytes) → rounds o s < length s + 2
rounds_enough o s = elim (Bool-cases (ltb 0 (avail o))) [
  | inl e ↦ rw e (omega arith)
  | inr e ↦ rw e (omega arith)
]

pub length-physical : (type : ℕ) (p : Bytes) → length (physical type p) ≡ 7 + length p
unfolding physical header
length-physical type p = omega arith

-- The layout is longer than the record by a header at least.
pub length-place :
    (n : ℕ) (begin : Bool) (o : ℕ) (s : Bytes)
    → rounds o s < n
    → length s + 7 ≤ length (place n begin o s).bytes
length-place zero begin o s enough = absurd (omega arith)
length-place (suc n) begin o s enough = elim (Bool-cases (leb (length s) (avail o))) [
  | inl e ↦
      let fits = leb→le (length s) (avail o) e in
      let type = record_type begin true in
      rw (place_whole n begin o s fits)
        (omega (arith, length-append (padding o) (physical type s), length-physical type s))
  | inr e ↦
      let over = leb_false→lt (length s) (avail o) e in
      let type = record_type begin false in
      let p = take (avail o) s in
      let rest = place n false block_size (drop (avail o) s) in
      rw (place_part n begin o s over) (
        omega (
          arith,
          length-append (padding o) (physical type p ++ rest.bytes),
          length-append (physical type p) rest.bytes,
          length-physical type p,
          length-take (avail o) s,
          length-drop (avail o) s,
          length-place n false block_size (drop (avail o) s) (rounds_part o n s over enough),
        ))
]

pub place_in_block :
    (n : ℕ) (begin : Bool) (o : ℕ) (s : Bytes)
    → o ≤ block_size
    → rounds o s < n
    → (place n begin o s).next ≤ block_size
place_in_block zero begin o s h enough = absurd (omega arith)
place_in_block (suc n) begin o s h enough = elim (Bool-cases (leb (length s) (avail o))) [
  | inl e ↦
      let fits = leb→le (length s) (avail o) e in
      rw (place_whole n begin o s fits) (omega (arith, start_offset-le o h))
  | inr e ↦
      let over = leb_false→lt (length s) (avail o) e in
      rw (place_part n begin o s over) (
        place_in_block n false block_size (drop (avail o) s) (omega arith)
          (rounds_part o n s over enough))
]

-- The last fragment is no longer than the record.
pub length-last :
    (n : ℕ) (begin : Bool) (o : ℕ) (s : Bytes)
    → rounds o s < n
    → length (place n begin o s).last ≤ length s
length-last zero begin o s enough = absurd (omega arith)
length-last (suc n) begin o s enough = elim (Bool-cases (leb (length s) (avail o))) [
  | inl e ↦ rw (place_whole n begin o s (leb→le (length s) (avail o) e)) (omega arith)
  | inr e ↦
      let over = leb_false→lt (length s) (avail o) e in
      rw (place_part n begin o s over) (
        omega (
          arith,
          length-drop (avail o) s,
          length-last n false block_size (drop (avail o) s) (rounds_part o n s over enough),
        ))
]
