-- ===== src/VersionEdit/RoundTrip/Steps.antt =====
-- How the decoding loop takes each part of an edit's record.
use am_kv.Prelude.{
  ℕ, zero, suc, ◌≤◌, ◌<◌, ◌^◌, ◌≡◌, refl, ap, ◌∙◌, arith, Bool, true, false, List, [], ◌∷◌, ◌++◌,
  Bytes, append_assoc, append-nil, length, length-append, All, ok, ◌>>=◌, if◌then◌else◌,
}
use mathlib.Core.List.{map}
use am_kv.Codec.{encode_uint8, encode_uint64, encode_bytes}
use am_kv.Codec.RoundTrip.{length-encode_uint8}
use am_kv.Codec.Cursor.{next_uint8, next_uint8-encode, next_uint64-encode, next_bytes-encode}
use am_kv.VersionEdit.Sets.{PairSet, IsSorted, Below, Below-trans, Below-append, set_insert-Below}
use am_kv.VersionEdit.{
  FileMetaData, VersionEdit, set_log_number, set_prev_log_number, set_next_file, set_last_sequence,
  add_file, remove_file, encode_number, encode_deleted, encode_meta, encode_new, decode_number,
  decode_new_file, decode_deleted_file, decode_tag, decode_loop,
}

abbrev pub IsU64 : ℕ → Type 0
IsU64 n = n < 2 ^ 64

-- The bytes make the loop change the edit by `f`, whatever follows them.
abbrev pub Decodes : Bytes → (VersionEdit → VersionEdit) → Type 0
Decodes enc f =
    (fuel : ℕ) (rest : Bytes) (e : VersionEdit)
    → length (enc ++ rest) ≤ fuel
    → (fuel' : ℕ) × (length rest ≤ fuel')
      × (decode_loop fuel (enc ++ rest) e ≡ decode_loop fuel' rest (f e))

Decodes-nil : Decodes [] (λ e. e)
Decodes-nil fuel rest e h = (fuel, h, refl)

pub Decodes-append :
    (a b : Bytes) (f g : VersionEdit → VersionEdit)
    → Decodes a f
    → Decodes b g
    → Decodes (a ++ b) (λ e. g (f e))
Decodes-append a b f g da db fuel rest e h =
    let same = append_assoc a b rest in
    let (fuel1, h1, run1) = da fuel (b ++ rest) e (omega (arith, ap length same)) in
    let (fuel2, h2, run2) = db fuel1 rest (f e) h1 in
    (fuel2, h2, ap (λ s. decode_loop fuel s e) same ∙ run1 ∙ run2)

decode_loop_step :
    (fuel : ℕ) (src : Bytes) (e : VersionEdit)
    → 0 < length src
    → decode_loop (suc fuel) src e ≡ (do
      (tag, src) ← next_uint8 src
      (e', src') ← decode_tag tag src e
      decode_loop fuel src' e')
unfolding decode_loop
decode_loop_step fuel [] e h = absurd (omega arith)
decode_loop_step fuel (b ∷ bs) e h = refl

Decodes-tag :
    (tag : ℕ) (body : Bytes) (f : VersionEdit → VersionEdit)
    → tag < 2 ^ 8
    → ((rest : Bytes) (e : VersionEdit) → decode_tag tag (body ++ rest) e ≡ ok (f e, rest))
    → Decodes (encode_uint8 tag ++ body) f
Decodes-tag tag body f small step zero rest e h = absurd (
    omega (
      arith,
      length-append (encode_uint8 tag ++ body) rest,
      length-append (encode_uint8 tag) body,
      length-encode_uint8 tag,
    ))
Decodes-tag tag body f small step (suc fuel) rest e h =
    let l1 = length-append (encode_uint8 tag ++ body) rest in
    let l2 = length-append (encode_uint8 tag) body in
    let l3 = length-encode_uint8 tag in
    (
      fuel,
      omega (arith, l1, l2, l3),
      decode_loop_step fuel ((encode_uint8 tag ++ body) ++ rest) e (omega (arith, l1, l2, l3))
          ∙ rw (
            append_assoc (encode_uint8 tag) body rest,
            next_uint8-encode tag (body ++ rest) small,
            step rest e,
          ),
    )

-- The four numbers.
module _ (n : ℕ) (fits : IsU64 n) where
  pub number_body :
      (setter : ℕ → VersionEdit → VersionEdit) (rest : Bytes) (e : VersionEdit)
      → decode_number setter (encode_uint64 n ++ rest) e ≡ ok (setter n e, rest)
  unfolding decode_number
  number_body setter rest e = rw (next_uint64-encode n rest fits)

  pub Decodes-log :
      (has : Bool) → Decodes (encode_number has 2 n) (λ e. if has then set_log_number n e else e)
  unfolding encode_number decode_tag
  Decodes-log false = Decodes-nil
  Decodes-log true =
      Decodes-tag 2 (encode_uint64 n) (set_log_number n) (omega arith) (number_body set_log_number)

  pub Decodes-prev :
      (has : Bool)
      → Decodes (encode_number has 9 n) (λ e. if has then set_prev_log_number n e else e)
  unfolding encode_number decode_tag
  Decodes-prev false = Decodes-nil
  Decodes-prev true =
      Decodes-tag 9 (encode_uint64 n) (set_prev_log_number n) (omega arith)
        (number_body set_prev_log_number)

  pub Decodes-next :
      (has : Bool) → Decodes (encode_number has 3 n) (λ e. if has then set_next_file n e else e)
  unfolding encode_number decode_tag
  Decodes-next false = Decodes-nil
  Decodes-next true =
      Decodes-tag 3 (encode_uint64 n) (set_next_file n) (omega arith) (number_body set_next_file)

  pub Decodes-last :
      (has : Bool) → Decodes (encode_number has 4 n) (λ e. if has then set_last_sequence n e else e)
  unfolding encode_number decode_tag
  Decodes-last false = Decodes-nil
  Decodes-last true =
      Decodes-tag 4 (encode_uint64 n) (set_last_sequence n) (omega arith)
        (number_body set_last_sequence)

-- The deleted files.
abbrev pub PairFits : ℕ × ℕ → Type 0
PairFits (level, number) = IsU64 level × IsU64 number

pub remove_all : PairSet → VersionEdit → VersionEdit
remove_all [] e = e
remove_all ((level, number) ∷ files) e = remove_all files (remove_file level number e)

deleted_body :
    (level number : ℕ) (rest : Bytes) (e : VersionEdit)
    → IsU64 level
    → IsU64 number
    → decode_tag 6 ((encode_uint64 level ++ encode_uint64 number) ++ rest) e
      ≡ ok (remove_file level number e, rest)
unfolding decode_tag decode_deleted_file
deleted_body level number rest e h k = rw (
  append_assoc (encode_uint64 level) (encode_uint64 number) rest,
  next_uint64-encode level (encode_uint64 number ++ rest) h,
  next_uint64-encode number rest k,
)

pub Decodes-deleted :
    (files : PairSet) → All PairFits files → Decodes (encode_deleted files) (remove_all files)
unfolding encode_deleted remove_all
Decodes-deleted [] h = Decodes-nil
Decodes-deleted ((level, number) ∷ files) h =
    Decodes-append _ (encode_deleted files) (remove_file level number) (remove_all files)
      (Decodes-tag 6 _ (remove_file level number) (omega arith)
        (λ rest e. deleted_body level number rest e h.0.0 h.0.1))
      (Decodes-deleted files h.1)

-- The new files. A record does not hold the reference count.
abbrev pub MetaFits : ℕ × FileMetaData → Type 0
MetaFits (level, meta) =
    IsU64 level
    × IsU64 meta.number
    × IsU64 meta.file_size
    × (length meta.smallest < 2 ^ 32)
    × (length meta.largest < 2 ^ 32)

abbrev pub stored_file : ℕ × FileMetaData → ℕ × FileMetaData
stored_file (level, meta) = (level, record meta { refs = 0 })

pub add_all_files : List (ℕ × FileMetaData) → VersionEdit → VersionEdit
add_all_files [] e = e
add_all_files ((level, meta) ∷ files) e =
    add_all_files files (add_file level (record meta { refs = 0 }) e)

meta_body : ℕ → FileMetaData → Bytes
meta_body level meta =
    encode_uint64 level
    ++ (encode_uint64 meta.number
        ++ (encode_uint64 meta.file_size
            ++ (encode_bytes meta.smallest ++ encode_bytes meta.largest)))

new_body :
    (level : ℕ) (meta : FileMetaData) (rest : Bytes) (e : VersionEdit)
    → MetaFits (level, meta)
    → decode_tag 7 (meta_body level meta ++ rest) e
      ≡ ok (add_file level (record meta { refs = 0 }) e, rest)
unfolding decode_tag decode_new_file meta_body
new_body level meta rest e (h0, h1, h2, h3, h4) = rw (
  append_assoc (encode_uint64 level) _ rest,
  append_assoc (encode_uint64 meta.number) _ rest,
  append_assoc (encode_uint64 meta.file_size) _ rest,
  append_assoc (encode_bytes meta.smallest) _ rest,
  next_uint64-encode level _ h0,
  next_uint64-encode meta.number _ h1,
  next_uint64-encode meta.file_size _ h2,
  next_bytes-encode meta.smallest _ h3,
  next_bytes-encode meta.largest rest h4,
)

pub Decodes-new :
    (files : List (ℕ × FileMetaData))
    → All MetaFits files
    → Decodes (encode_new files) (add_all_files files)
unfolding encode_new add_all_files encode_meta meta_body
Decodes-new [] h = Decodes-nil
Decodes-new ((level, meta) ∷ files) h =
    let keep = record meta { refs = 0 } in
    Decodes-append (encode_uint8 7 ++ meta_body level meta) (encode_new files) (add_file level keep)
      (add_all_files files)
      (Decodes-tag 7 (meta_body level meta) (add_file level keep) (omega arith)
        (λ rest e. new_body level meta rest e h.0))
      (Decodes-new files h.1)

-- The loops over the two lists, on an edit that has none of their elements.
abbrev pub FitsBehind : PairSet → PairSet → Type 0
FitsBehind pre [] = Unit
FitsBehind pre (q ∷ qs) = Below pre q

pub remove_all-sorted :
    (files pre : PairSet) (e : VersionEdit)
    → IsSorted files
    → FitsBehind pre files
    → remove_all files (record e { deleted_files = pre })
      ≡ record e { deleted_files = pre ++ files }
unfolding remove_all
remove_all-sorted [] pre e h k = rw (append-nil pre)
remove_all-sorted (q ∷ []) pre e h k = rw (set_insert-Below q pre k)
remove_all-sorted (q ∷ r ∷ qs) pre e h k = rw (set_insert-Below q pre k) (
    remove_all-sorted (r ∷ qs) (pre ++ (q ∷ [])) e h.1
      (Below-append pre (q ∷ []) r (Below-trans pre q r k h.0) (h.0, tt))
    ∙ ap (λ s. record e { deleted_files = s }) (append_assoc pre (q ∷ []) (r ∷ qs)))

pub add_all_files-append :
    (files pre : List (ℕ × FileMetaData)) (e : VersionEdit)
    → add_all_files files (record e { new_files = pre })
      ≡ record e { new_files = pre ++ map stored_file files }
unfolding add_all_files
add_all_files-append [] pre e = rw (append-nil pre)
add_all_files-append ((level, meta) ∷ files) pre e =
    let keep = record meta { refs = 0 } in
    add_all_files-append files (pre ++ ((level, keep) ∷ [])) e
    ∙ ap (λ s. record e { new_files = s })
        (append_assoc pre ((level, keep) ∷ []) (map stored_file files))
