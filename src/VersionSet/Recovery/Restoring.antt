-- ===== src/VersionSet/Recovery/Restoring.antt =====
-- `Recover` on the records of edits, the last of which `LogAndApply` has completed.
use am_kv.Prelude.{
  ℕ, ◌<◌, length, String, ◌+◌, ◌%◌, ◌^◌, ◌≡◌, refl, true, false, List, [], ◌∷◌, ◌++◌, Bytes,
  is_empty, All, Bool-cases, inl, inr, Returns, Returns-bind,
}
use am_kv.Status.{Status, status_ok, is_ok}
use am_kv.Version.{ref}
use am_kv.Version.Builder.{apply}
use am_kv.Version.Builder.Saving.{InRange, apply-Returns}
use am_kv.VersionEdit.{FileMetaData, VersionEdit, encode_to}
use am_kv.VersionEdit.RoundTrip.{Fits, stored, decode_from-encode_to}
use am_kv.VersionSet.{VersionSet, complete}
use am_kv.Log.Reader.{new_reader}
use am_kv.Log.RoundTrip.{layouts}
use am_kv.VersionSet.Recovery.Reading.{AreWhole, quiet_file, record_outs-views, read_records-log}
use am_kv.VersionSet.Recovery.{
  Recovering, begin_recovery, take_numbers, recovered_status, finish_recovery, recover_record,
  recover_records, recover, recover_from_log,
}

-- The record of the edit holds all of it, and its levels are below `kNumLevels`.
pub record IsLogged (e : VersionEdit) : Type 0 where
  pub fits : Fits e
  pub deleted : InRange e.deleted_files
  pub new : InRange (stored e).new_files

abbrev pub encoded : List VersionEdit → List Bytes
encoded [] = []
encoded (e ∷ es) = encode_to e ∷ encoded es

-- An edit of which every number is set.
pub record HasNumbers (e : VersionEdit) : Type 0 where
  pub log : e.has_log_number ≡ true
  pub prev : e.has_prev_log_number ≡ true
  pub next : e.has_next_file_number ≡ true
  pub last : e.has_last_sequence ≡ true

complete-has_log_number :
    {F : Type 0} (vs : VersionSet F) (e : VersionEdit) → (complete vs e).has_log_number ≡ true
unfolding complete
complete-has_log_number vs e = elim (Bool-cases e.has_log_number) [
  | inl l ↦ elim (Bool-cases e.has_prev_log_number) [ inl p ↦ rw (l, p) | inr p ↦ rw (l, p) ]
  | inr l ↦ elim (Bool-cases e.has_prev_log_number) [ inl p ↦ rw (l, p) | inr p ↦ rw (l, p) ]
]

complete-has_prev_log_number :
    {F : Type 0} (vs : VersionSet F) (e : VersionEdit) → (complete vs e).has_prev_log_number ≡ true
unfolding complete
complete-has_prev_log_number vs e = elim (Bool-cases e.has_log_number) [
  | inl l ↦ elim (Bool-cases e.has_prev_log_number) [ inl p ↦ rw (l, p) | inr p ↦ rw (l, p) ]
  | inr l ↦ elim (Bool-cases e.has_prev_log_number) [ inl p ↦ rw (l, p) | inr p ↦ rw (l, p) ]
]

complete-HasNumbers :
    {F : Type 0} (vs : VersionSet F) (e : VersionEdit) → HasNumbers (complete vs e)
unfolding complete
complete-HasNumbers vs e = record {
  log = complete-has_log_number vs e;
  prev = complete-has_prev_log_number vs e;
  next = refl;
  last = refl;
}

-- The numbers of an edit, as `Recover` holds them.
pub record AreTaken (e : VersionEdit) (st : Recovering) : Type 0 where
  pub have_log_number : st.have_log_number ≡ true
  pub have_prev_log_number : st.have_prev_log_number ≡ true
  pub have_next_file : st.have_next_file ≡ true
  pub have_last_sequence : st.have_last_sequence ≡ true
  pub log_number : st.log_number ≡ e.log_number
  pub prev_log_number : st.prev_log_number ≡ e.prev_log_number
  pub next_file : st.next_file ≡ e.next_file_number
  pub last_sequence : st.last_sequence ≡ e.last_sequence

take_numbers-AreTaken :
    (e : VersionEdit) (st : Recovering) → HasNumbers e → AreTaken e (take_numbers (stored e) st)
unfolding take_numbers stored
take_numbers-AreTaken e st h = record {
  have_log_number = rw (h.log, h.prev, h.next, h.last);
  have_prev_log_number = rw (h.log, h.prev, h.next, h.last);
  have_next_file = rw (h.log, h.prev, h.next, h.last);
  have_last_sequence = rw (h.log, h.prev, h.next, h.last);
  log_number = rw (h.log, h.prev, h.next, h.last);
  prev_log_number = rw (h.log, h.prev, h.next, h.last);
  next_file = rw (h.log, h.prev, h.next, h.last);
  last_sequence = rw (h.log, h.prev, h.next, h.last);
}

-- What a version set is after recovery, told by the one that wrote the last edit.
pub record Restored {F G : Type 0} (vs : VersionSet F) (edit : VersionEdit)
    (r : Status × VersionSet G) : Type 0 where
  pub succeeds : is_ok r.0 ≡ true
  pub manifest_file_number : r.1.manifest_file_number ≡ vs.next_file_number
  pub next_file_number : r.1.next_file_number ≡ (vs.next_file_number + 1) % 2 ^ 64
  pub last_sequence : r.1.last_sequence ≡ vs.last_sequence
  pub log_number : r.1.log_number ≡ (complete vs edit).log_number
  pub prev_log_number : r.1.prev_log_number ≡ (complete vs edit).prev_log_number

is_empty-encoded :
    (es : List VersionEdit) (e : VersionEdit) → is_empty (encoded (es ++ (e ∷ []))) ≡ false
is_empty-encoded [] e = refl
is_empty-encoded (f ∷ es) e = refl

module _ (insert_added : FileMetaData → List FileMetaData → List FileMetaData) where
  recover_record-encode_to :
      (P : Recovering → Type 0) (e : VersionEdit) (st : Recovering)
      → IsLogged e
      → ((st' : Recovering) → P (take_numbers (stored e) st'))
      → Returns P (recover_record insert_added (encode_to e) st)
  unfolding recover_record stored
  recover_record-encode_to P e st h taken = rw (decode_from-encode_to e h.fits) (
      Returns-bind _ P (apply insert_added (stored e) st.builder) _
        (apply-Returns insert_added 0 0 (stored e) st.builder h.deleted h.new)
        (λ b _. taken (record st { builder = b })))

  recover_records-encoded :
      (es : List VersionEdit) (e : VersionEdit) (st : Recovering)
      → All IsLogged es
      → IsLogged e
      → HasNumbers e
      → Returns (AreTaken e) (recover_records insert_added (encoded (es ++ (e ∷ []))) st)
  unfolding recover_records
  recover_records-encoded [] e st h last numbers =
      Returns-bind (AreTaken e) (AreTaken e) (recover_record insert_added (encode_to e) st) _
        (recover_record-encode_to (AreTaken e) e st last
          (λ st'. take_numbers-AreTaken e st' numbers))
        (λ st' t. t)
  recover_records-encoded (f ∷ es) e st h last numbers =
      Returns-bind (λ _. Unit {0}) (AreTaken e) (recover_record insert_added (encode_to f) st) _
        (recover_record-encode_to (λ _. Unit {0}) f st h.0 (λ st'. tt))
        (λ st' _. recover_records-encoded es e st' h.1 last numbers)

  finish_recovery-Restored :
      {F G : Type 0} (vs : VersionSet F) (edit : VersionEdit) (st : Recovering) (old : VersionSet G)
      → AreTaken (complete vs edit) st
      → Restored vs edit (finish_recovery status_ok st old)
  unfolding finish_recovery recovered_status complete
  finish_recovery-Restored vs edit st old t =
      rw (t.have_next_file, t.have_log_number, t.have_last_sequence, t.have_prev_log_number)
        (record {
          succeeds = refl;
          manifest_file_number = t.next_file;
          next_file_number = rw t.next_file;
          last_sequence = t.last_sequence;
          log_number = t.log_number;
          prev_log_number = t.prev_log_number;
        })

  -- `Recover` over the records.
  recover-complete :
      {F G : Type 0} (es : List VersionEdit) (edit : VersionEdit) (vs : VersionSet F)
      (old : VersionSet G) (opened : Status)
      → All IsLogged es
      → IsLogged (complete vs edit)
      → Returns
          (Restored vs edit)
          (recover insert_added opened (encoded (es ++ (complete vs edit ∷ []))) old)
  unfolding recover
  recover-complete es edit vs old opened h last =
      let last_edit = complete vs edit in
      let held = record old { current = ref old.current } in
      rw (is_empty-encoded es last_edit) (
        Returns-bind (AreTaken last_edit) (Restored vs edit)
          (recover_records insert_added (encoded (es ++ (last_edit ∷ [])))
            (begin_recovery held.current))
          _
          (recover_records-encoded es last_edit (begin_recovery held.current) h last
            (complete-HasNumbers vs edit))
          (λ st t. finish_recovery-Restored vs edit st held t))

  -- A log of the records of any edits, the last of which has been completed by `LogAndApply` of a version
  -- set, is read and recovered with success, whatever the version set is that recovers: with the last
  -- sequence number of the one that wrote it, the log numbers of its last edit, and the next file number
  -- as the number of the manifest. Each record is to fit into the rest of the block in which it begins;
  -- the levels of the edits are below `kNumLevels`, and their numbers, strings and deleted files are such
  -- that their records hold them. One round more than there are records is enough, and no read of the
  -- file is short or fails.
  pub recover_from_log-complete :
      {F G : Type 0} (es : List VersionEdit) (edit : VersionEdit) (vs : VersionSet F)
      (old : VersionSet G) (opened : Status) (fuel : ℕ) (name : String)
      → All IsLogged es
      → IsLogged (complete vs edit)
      → AreWhole 0 (encoded (es ++ (complete vs edit ∷ [])))
      → length (encoded (es ++ (complete vs edit ∷ []))) < fuel
      → Returns (Restored vs edit) (
          recover_from_log insert_added fuel opened
            (new_reader false
              (quiet_file name (layouts 0 (encoded (es ++ (complete vs edit ∷ []))))))
            old)
  unfolding recover_from_log
  recover_from_log-complete es edit vs old opened fuel name h last whole enough =
      let records = encoded (es ++ (complete vs edit ∷ [])) in
      rw (read_records-log records fuel name enough, record_outs-views 0 records whole)
        (recover-complete es edit vs old opened h last)
