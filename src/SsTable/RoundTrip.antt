-- ===== src/SsTable/RoundTrip.antt =====
-- `Get` on what `Put` has stored.
use am_kv.Prelude.{
  ℕ, ◌+◌, ◌%◌, ◌^◌, ◌<◌, ◌≤◌, ◌≡◌, refl, ap, arith, false, List, [], ◌∷◌, ◌++◌, Bytes, append_assoc,
  append-nil, length, length-append, is_empty, ok, ◌>>=◌, sym, subst, ◌∙◌, true, Returns,
  Returns-map,
}
use am_kv.Codec.{encode_bytes}
use am_kv.Codec.RoundTrip.{length-encode_bytes}
use am_kv.Status.{status_ok, is_ok}
use am_kv.WritableFile.{WritableFile, Laws, Reliable, Syncs, SyncsReliably, and_then, buffer_size}
use am_kv.VersionEdit.{FileMetaData}
use am_kv.AccessFile.{PosixAccessFile}
use am_kv.Block.{new_block_builder}
use am_kv.Block.Seeking.{block_of, size_of, length-block_of, first_with, value_or_over_read}
use am_kv.SsTable.Builder.{new_builder, finish}
use am_kv.SsTable.Builder.Writing.{filling, add-filling}
use am_kv.SsTable.Builder.Finishing.{
  index_of, index_handler, length-index_of, finish-contents, finish-IsHealthy, finish-succeeds,
}
use am_kv.SsTable.Layout.{table_of, length-table_of, length-meta_index}
use am_kv.SsTable.Looking.{get-table}
use am_kv.SsTable.{get, put_loop, put_end, put}

-- The filter block's bytes, the last key, and the number of entries.
keys_of : List (Bytes × Bytes) → Bytes
keys_of [] = []
keys_of ((k, v) ∷ es) = k ++ keys_of es

last_key_of : Bytes → List (Bytes × Bytes) → Bytes
last_key_of lk [] = lk
last_key_of lk ((k, v) ∷ es) = last_key_of k es

count_of : ℕ → List (Bytes × Bytes) → ℕ
count_of n [] = n
count_of n ((k, v) ∷ es) = count_of ((n + 1) % 2 ^ 64) es

length-keys_of : (es : List (Bytes × Bytes)) → length (keys_of es) ≤ size_of es
unfolding keys_of
length-keys_of [] = omega arith
length-keys_of ((k, v) ∷ es) = omega (arith, length-append k (keys_of es), length-keys_of es)

length-last_key_of :
    (n : ℕ) (lk : Bytes) (es : List (Bytes × Bytes))
    → length lk ≤ n
    → size_of es ≤ n
    → length (last_key_of lk es) ≤ n
unfolding last_key_of
length-last_key_of n lk [] h s = h
length-last_key_of n lk ((k, v) ∷ es) h s = length-last_key_of n k es (omega arith) (omega arith)

module _ (w : WritableFile) where
  put_loop-filling :
      (f : w.State) (es : List (Bytes × Bytes)) (lk : Bytes) (n : ℕ) (entries keys : Bytes)
      (meta : FileMetaData)
      → length entries + size_of es < 4096
      → (put_loop w es (filling w f lk n entries keys) meta).0
        ≡ filling w f
            (last_key_of lk es)
            (count_of n es)
            (entries ++ block_of es)
            (keys ++ keys_of es)
  unfolding put_loop keys_of last_key_of count_of
  put_loop-filling f [] lk n entries keys meta h = rw (append-nil entries, append-nil keys)
  put_loop-filling f ((k, v) ∷ es) lk n entries keys meta h =
      let l : length ((entries ++ encode_bytes k) ++ encode_bytes v)
          ≡ length entries + length k + length v + 8 =
        omega (
          arith,
          length-append (entries ++ encode_bytes k) (encode_bytes v),
          length-append entries (encode_bytes k),
          length-encode_bytes k,
          length-encode_bytes v,
        ) in
      rw
        (
          put_loop,
          add-filling w f lk k v n entries keys (omega arith),
          put_loop-filling f es k ((n + 1) % 2 ^ 64) ((entries ++ encode_bytes k) ++ encode_bytes v)
              (keys ++ k) (record meta { largest = k }) (omega arith),
          append_assoc (entries ++ encode_bytes k) (encode_bytes v) (block_of es),
          append_assoc entries (encode_bytes k) (encode_bytes v ++ block_of es),
          append_assoc keys k (keys_of es),
        )
        refl

  new_builder-filling : (f : w.State) → new_builder f ≡ filling w f [] 0 [] []
  unfolding new_builder new_block_builder
  new_builder-filling f = refl

-- The file that a table's builder has written, mapped.
abbrev pub mapped_file : Bytes → PosixAccessFile
mapped_file bytes = record { file_size = length bytes; map = bytes }

is_empty-length : (b : Bytes) → 0 < length b → is_empty b ≡ false
is_empty-length [] h = absurd (omega arith)
is_empty-length (x ∷ xs) h = refl

block_of-nonempty :
    (k v : Bytes) (es : List (Bytes × Bytes)) → is_empty (block_of ((k, v) ∷ es)) ≡ false
block_of-nonempty k v es =
    is_empty-length (block_of ((k, v) ∷ es)) (omega (arith, length-block_of ((k, v) ∷ es)))

-- The table of entries.
abbrev put_table : List (Bytes × Bytes) → Bytes
put_table all =
    table_of (block_of all) (keys_of all) (index_of (last_key_of [] all) (block_of all))
      (index_handler (last_key_of [] all) (block_of all) (keys_of all))

-- `Get` on the table of entries.
get-put_table :
    (key k v : Bytes) (es : List (Bytes × Bytes))
    → size_of ((k, v) ∷ es) < 4096
    → get (mapped_file (put_table ((k, v) ∷ es))) key
      ≡ (value_or_over_read (first_with key ((k, v) ∷ es)) >>= λ out. ok (status_ok, out))
get-put_table key k v es few =
    let all = (k, v) ∷ es in
    let b = block_of all in
    let keys = keys_of all in
    let lk = last_key_of [] all in
    let lb = length-block_of all in
    let n = length-table_of b keys (index_of lk b) (index_handler lk b keys) in
    let li = length-index_of lk b in
    let lkeys = length-keys_of all in
    let llk = length-last_key_of (size_of all) [] all (omega arith) (omega arith) in
    let lm = length-meta_index b keys in
    get-table key k v es keys (index_of lk b) (index_handler lk b keys)
      (mapped_file (put_table all)) (refl, omega arith) refl (omega arith, omega arith)
      (omega arith)

module _ (w : WritableFile) (laws : Laws w) (sure : Reliable w laws) (syncs : Syncs w laws)
    (closes : SyncsReliably w laws sure syncs) (f : w.State) (fresh : laws.room f ≡ buffer_size)
    (healthy : sure.IsHealthy f) (empty : laws.contents f ≡ []) where
  abbrev finished_file : List (Bytes × Bytes) → FileMetaData → w.State
  finished_file all meta = (finish w (put_loop w all (new_builder f) meta).0).1.file

  -- What `Finish` has written, before it is synced.
  finished-table :
      (k v : Bytes) (es : List (Bytes × Bytes)) (meta : FileMetaData)
      → size_of ((k, v) ∷ es) < 4096
      → (sure.IsHealthy (finished_file ((k, v) ∷ es) meta))
        × (laws.contents (finished_file ((k, v) ∷ es) meta) ≡ put_table ((k, v) ∷ es))
  finished-table k v es meta few =
      let all = (k, v) ∷ es in
      let some_data = block_of-nonempty k v es in
      let lb : length (block_of all) < 4096 = omega (arith, length-block_of all) in
      let lkeys : length (keys_of all) < 4096 = omega (arith, length-keys_of all) in
      let llk : length (last_key_of [] all) < 4096 =
        omega (arith, length-last_key_of (size_of all) [] all (omega arith) (omega arith)) in
      let loop : (put_loop w all (new_builder f) meta).0
          ≡ filling w f (last_key_of [] all) (count_of 0 all) (block_of all) (keys_of all) =
        ap (λ rep. (put_loop w all rep meta).0) (new_builder-filling w f)
        ∙ put_loop-filling w f all [] 0 [] [] meta (omega arith) in
      subst
        (λ rep.
          (sure.IsHealthy (finish w rep).1.file)
          × (laws.contents (finish w rep).1.file ≡ put_table all))
        (sym loop)
        (
          finish-IsHealthy w laws sure f fresh healthy (block_of all) (keys_of all)
              (last_key_of [] all) (count_of 0 all) some_data lb lkeys llk,
          finish-contents w laws sure f fresh healthy (block_of all) (keys_of all)
                (last_key_of [] all) (count_of 0 all) some_data lb lkeys llk
              ∙ ap (λ t. t ++ put_table all) empty,
        )

  -- `Sync` and `Close`, after `Finish` has succeeded.
  synced_and_closed :
      (g : w.State)
      → sure.IsHealthy g
      → (is_ok (and_then (and_then (status_ok, g) w.sync) w.close).0 ≡ true)
        × (syncs.stored (and_then (and_then (status_ok, g) w.sync) w.close).1 ≡ laws.contents g)
  synced_and_closed g h =
      let good = closes.sync_succeeds g h in
      let stored = syncs.stored_sync g good in
      let same = stored ∙ sym (syncs.contents_sync g good) in
      let kept = closes.sync_keeps g h in
      rw good (
        closes.close_succeeds (w.sync g).1 kept same,
        closes.stored_close (w.sync g).1 kept same ∙ stored,
      )

  put-stored :
      (k v : Bytes) (es : List (Bytes × Bytes)) (meta : FileMetaData)
      → size_of ((k, v) ∷ es) < 4096
      → Returns
          (λ r. (is_ok r.0 ≡ true) × (syncs.stored r.1.0 ≡ put_table ((k, v) ∷ es)))
          (put w ((k, v) ∷ es) f meta)
  unfolding put put_end
  put-stored k v es meta few =
      let all = (k, v) ∷ es in
      let begun = record meta { smallest = k } in
      let (h, bytes) = finished-table k v es begun few in
      let (good, stored) = synced_and_closed (finished_file all begun) h in
      rw (finish-succeeds w (put_loop w all (new_builder f) begun).0) (good, stored ∙ bytes)

  -- `Put` writes entries to a fresh file, on which no flush fails, and a key is looked up in what is
  -- then stored of the file. If the entries take less than 4096 bytes, each with eight for its
  -- lengths, and there is one at least, `Put` reports success; and `Get` gives the status OK with the
  -- value of the first entry of the key, or, if there is none, reads past the end of the data block.
  pub get-put :
      (key k v : Bytes) (es : List (Bytes × Bytes)) (meta : FileMetaData)
      → size_of ((k, v) ∷ es) < 4096
      → Returns
          (λ r.
            (is_ok r.0 ≡ true)
            × (get (mapped_file (syncs.stored r.1.0)) key ≡ (
                value_or_over_read (first_with key ((k, v) ∷ es)) >>= λ out. ok (status_ok, out))))
          (put w ((k, v) ∷ es) f meta)
  get-put key k v es meta few =
      Returns-map (put w ((k, v) ∷ es) f meta) (put-stored k v es meta few)
        (λ r h. (h.0, ap (λ b. get (mapped_file b) key) h.1 ∙ get-put_table key k v es few))
