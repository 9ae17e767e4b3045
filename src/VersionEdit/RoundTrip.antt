-- ===== src/VersionEdit/RoundTrip.antt =====
-- `DecodeFrom` reads back what `EncodeTo` wrote, but for what an edit's record does not hold.
mod Steps
use am_kv.VersionEdit.RoundTrip.Steps.{
  Decodes-new, Decodes-deleted, Decodes-last, Decodes-next, Decodes-prev, Decodes-log,
  add_all_files-append, Decodes-append, remove_all-sorted, remove_all, MetaFits, PairFits,
  FitsBehind, stored_file, add_all_files, IsU64, Decodes,
}
use am_kv.Prelude.{
  ℕ, zero, suc, ◌+◌, ◌≤◌, ◌<◌, ◌^◌, ◌≡◌, refl, sym, ap, ◌∙◌, arith, Bool, true, false, List, [],
  ◌∷◌, ◌++◌, Bytes, append_assoc, append-nil, length, length-append, All, Result, ok, ◌>>=◌,
  if◌then◌else◌,
}
use mathlib.Core.List.{map, foldl}
use am_kv.Codec.{encode_uint8, encode_uint64, encode_bytes}
use am_kv.Codec.RoundTrip.{length-encode_uint8}
use am_kv.Codec.Cursor.{next_uint8, next_uint8-encode, next_uint64-encode, next_bytes-encode}
use am_kv.VersionEdit.Sets.{
  PairSet, IsSorted, Below, Below-trans, Below-append, set_insert, set_insert-Below,
}
use am_kv.VersionEdit.{
  FileMetaData, VersionEdit, new_edit, set_log_number, set_prev_log_number, set_next_file,
  set_last_sequence, add_file, remove_file, encode_number, encode_deleted, encode_meta, encode_new,
  encode_to, decode_number, decode_new_file, decode_deleted_file, decode_tag, decode_loop,
  decode_from,
}

-- An edit that fits its record, and what of it the record holds.
pub record Fits (e : VersionEdit) : Type 0 where
  pub log_number : IsU64 e.log_number
  pub prev_log_number : IsU64 e.prev_log_number
  pub next_file_number : IsU64 e.next_file_number
  pub last_sequence : IsU64 e.last_sequence
  pub deleted_files : All PairFits e.deleted_files
  pub sorted : IsSorted e.deleted_files
  pub new_files : All MetaFits e.new_files

abbrev if_set : Bool → ℕ → ℕ
if_set has n = if has then n else 0

unfoldable pub stored : VersionEdit → VersionEdit
stored e = record e {
  new_files = map stored_file e.new_files;
  prev_log_number = if_set e.has_prev_log_number e.prev_log_number;
  log_number = if_set e.has_log_number e.log_number;
  next_file_number = if_set e.has_next_file_number e.next_file_number;
  last_sequence = if_set e.has_last_sequence e.last_sequence;
  has_comparator = false;
}

abbrev with_numbers : Bool → Bool → Bool → Bool → ℕ → ℕ → ℕ → ℕ → VersionEdit
with_numbers a b c d l p n s =
    let e1 = if a then set_log_number l new_edit else new_edit in
    let e2 = if b then set_prev_log_number p e1 else e1 in
    let e3 = if c then set_next_file n e2 else e2 in if d then set_last_sequence s e3 else e3

-- An edit with these numbers and flags and no files.
abbrev numbers_only : Bool → Bool → Bool → Bool → ℕ → ℕ → ℕ → ℕ → VersionEdit
numbers_only a b c d l p n s = record new_edit {
  prev_log_number = if_set b p;
  log_number = if_set a l;
  next_file_number = if_set c n;
  last_sequence = if_set d s;
  has_log_number = a;
  has_prev_log_number = b;
  has_next_file_number = c;
  has_last_sequence = d;
}

numbers_stored :
    (a b c d : Bool) (l p n s : ℕ) → with_numbers a b c d l p n s ≡ numbers_only a b c d l p n s
numbers_stored true true true true l p n s = refl
numbers_stored true true true false l p n s = refl
numbers_stored true true false true l p n s = refl
numbers_stored true true false false l p n s = refl
numbers_stored true false true true l p n s = refl
numbers_stored true false true false l p n s = refl
numbers_stored true false false true l p n s = refl
numbers_stored true false false false l p n s = refl
numbers_stored false true true true l p n s = refl
numbers_stored false true true false l p n s = refl
numbers_stored false true false true l p n s = refl
numbers_stored false true false false l p n s = refl
numbers_stored false false true true l p n s = refl
numbers_stored false false true false l p n s = refl
numbers_stored false false false true l p n s = refl
numbers_stored false false false false l p n s = refl

decode_loop-nil : (fuel : ℕ) (e : VersionEdit) → decode_loop fuel [] e ≡ ok e
unfolding decode_loop
decode_loop-nil zero e = refl
decode_loop-nil (suc fuel) e = refl

decode_from-Decodes :
    (enc : Bytes) (f : VersionEdit → VersionEdit) (e : VersionEdit)
    → Decodes enc f
    → decode_from enc e ≡ ok (f e)
unfolding decode_from
decode_from-Decodes enc f e d =
    let (fuel, enough, run) = d (length enc) [] e (omega (arith, length-append enc [])) in
    ap (λ s. decode_loop (length enc) s e) (sym (append-nil enc)) ∙ run ∙ decode_loop-nil fuel (f e)

decode_from-parts :
    (e : VersionEdit)
    → Fits e
    → decode_from (encode_to e) new_edit
      ≡ ok (
          add_all_files e.new_files (
            remove_all e.deleted_files (
              with_numbers e.has_log_number e.has_prev_log_number e.has_next_file_number
                e.has_last_sequence e.log_number e.prev_log_number e.next_file_number
                e.last_sequence)))
unfolding encode_to
decode_from-parts e fits = decode_from-Decodes _ _ new_edit (
    Decodes-append _ _ _ _ (Decodes-log e.log_number fits.log_number e.has_log_number) (
      Decodes-append _ _ _ _
        (Decodes-prev e.prev_log_number fits.prev_log_number e.has_prev_log_number)
        (Decodes-append _ _ _ _
          (Decodes-next e.next_file_number fits.next_file_number e.has_next_file_number)
          (Decodes-append _ _ _ _
            (Decodes-last e.last_sequence fits.last_sequence e.has_last_sequence)
            (Decodes-append (encode_deleted e.deleted_files) (encode_new e.new_files)
              (remove_all e.deleted_files) (add_all_files e.new_files)
              (Decodes-deleted e.deleted_files fits.deleted_files)
              (Decodes-new e.new_files fits.new_files))))))

FitsBehind-nil : (files : PairSet) → FitsBehind [] files
FitsBehind-nil [] = tt
FitsBehind-nil (q ∷ qs) = tt

-- Decoding the record of an edit into a fresh edit gives the edit back: its numbers where their flags
-- are set (and 0 where not), its flags, its deleted files, and its new files with a reference count
-- of 0. The edit's numbers have to be below 2^64, its strings shorter than 2^32 bytes, and its set
-- of deleted files in ascending order.
pub decode_from-encode_to :
    (e : VersionEdit) → Fits e → decode_from (encode_to e) new_edit ≡ ok (stored e)
unfolding stored
decode_from-encode_to e fits =
    let files = e.deleted_files in
    let base : VersionEdit =
      numbers_only e.has_log_number e.has_prev_log_number e.has_next_file_number e.has_last_sequence
        e.log_number e.prev_log_number e.next_file_number e.last_sequence in
    let numbers =
      numbers_stored e.has_log_number e.has_prev_log_number e.has_next_file_number
        e.has_last_sequence e.log_number e.prev_log_number e.next_file_number e.last_sequence in
    decode_from-parts e fits
    ∙ ap ok (
        ap (λ x. add_all_files e.new_files (remove_all files x)) numbers
        ∙ ap (λ x. add_all_files e.new_files x)
            (remove_all-sorted files [] base fits.sorted (FitsBehind-nil files))
        ∙ add_all_files-append e.new_files [] (record base { deleted_files = files }))
