-- ===== src/WritableFile/Posix/Laws.antt =====
-- What the buffered file keeps and what it loses, for every behaviour of the kernel.
use am_kv.Prelude.{
  ◌⊎◌, ℕ, ◌-◌, ◌≤◌, ◌<◌, min, ◌≡◌, refl, sym, ap, ◌∙◌, subst, arith, true, false, Bytes, List, [],
  ◌∷◌, ◌++◌, append-nil, append_assoc, length, length-append, take, drop, take-append-drop,
  take_all, drop_all, length-drop, is_empty, String, Bool-cases, inl, inr,
}
use am_kv.Status.{Status, status_ok, is_ok}
use am_kv.WritableFile.{Reliable, Laws, Syncs, SyncsReliably, buffer_size}
use am_kv.WritableFile.Posix.{
  PosixWritableFile, WriteEvent, wrote, interrupted, write_failed, write_loop, write_unbuffered,
  flush_buffer, append_rest, append, flush, sync, close, close_descriptor, posix_file,
}

-- Everything that the file has accepted.
abbrev pub contents : PosixWritableFile → Bytes
contents f = f.disk ++ f.buf

-- Free bytes of the buffer.
abbrev pub room : PosixWritableFile → ℕ
room f = buffer_size - length f.buf

-- What of the input is put behind the file, and what is lost.
abbrev Splits : Bytes → Bytes → Status × Bytes × List WriteEvent → Type 0
Splits disk input (status, disk', es) =
    (done : Bytes) × (lost : Bytes) × (disk' ≡ disk ++ done)
    × (input ≡ done ++ lost)
    × (((is_ok status ≡ true) × (lost ≡ [])) ⊎ ((is_ok status ≡ false) × (0 < length lost)))

write_loop_lem :
    (name : String) (es : List WriteEvent) (input disk : Bytes)
    → Splits disk input (write_loop name es input disk)
unfolding write_loop
write_loop_lem name [] input disk = (input, [], refl, sym (append-nil input), inl (refl, refl))
write_loop_lem name (e ∷ es) [] disk = ([], [], sym (append-nil disk), refl, inl (refl, refl))
write_loop_lem name (wrote n ∷ es) (b ∷ bs) disk =
    let (done, lost, put, split, result) =
      write_loop_lem name es (drop n (b ∷ bs)) (disk ++ take n (b ∷ bs)) in
    (
      take n (b ∷ bs) ++ done,
      lost,
      put ∙ append_assoc disk (take n (b ∷ bs)) done,
      sym (take-append-drop n (b ∷ bs))
          ∙ ap (λ t. take n (b ∷ bs) ++ t) split
          ∙ sym (append_assoc (take n (b ∷ bs)) done lost),
      result,
    )
write_loop_lem name (interrupted ∷ es) (b ∷ bs) disk = write_loop_lem name es (b ∷ bs) disk
write_loop_lem name (write_failed ∷ es) (b ∷ bs) disk =
    ([], b ∷ bs, sym (append-nil disk), refl, inr (refl, omega arith))

-- Whatever the kernel answers to the writes, a flush leaves the buffer empty and what was on the disk in
-- place, with a first part of the buffer behind it. If it reports success, that part is the whole
-- buffer; if it does not, at least one byte of the buffer is lost.
pub flush_lem :
    (f : PosixWritableFile)
    → (done : Bytes) × (lost : Bytes) × ((flush f).1.disk ≡ f.disk ++ done)
      × (f.buf ≡ done ++ lost)
      × ((flush f).1.buf ≡ [])
      × (((is_ok (flush f).0 ≡ true) × (lost ≡ []))
          ⊎ ((is_ok (flush f).0 ≡ false) × (0 < length lost)))
unfolding flush flush_buffer write_unbuffered
flush_lem f =
    let (done, lost, put, split, result) = write_loop_lem f.filename f.events f.buf f.disk in
    (done, lost, put, split, refl, result)

-- An append that fits into the buffer.
pub append_fits :
    (d : Bytes) (f : PosixWritableFile)
    → length d ≤ room f
    → append d f ≡ (status_ok, record f { buf = f.buf ++ d })
unfolding append
append_fits d f h =
    let m : min (length d) (room f) ≡ length d = omega arith in
    rw (m, drop_all (length d) d (omega arith), take_all (length d) d (omega arith))

pub flush_stored :
    (f : PosixWritableFile) → is_ok (flush f).0 ≡ true → (flush f).1.disk ≡ contents f
flush_stored f h =
    let (done, lost, put, split, empty, result) = flush_lem f in
    let none_lost : lost ≡ [] = elim result [ inl (good, e) ↦ e | inr (bad, some_lost) ↦ cc ] in
    put ∙ ap (λ t. f.disk ++ t) (sym (split ∙ ap (λ t. done ++ t) none_lost ∙ append-nil done))

flush_empty : (f : PosixWritableFile) → (flush f).1.buf ≡ []
unfolding flush flush_buffer
flush_empty f = refl

pub flush_contents :
    (f : PosixWritableFile) → is_ok (flush f).0 ≡ true → contents (flush f).1 ≡ contents f
flush_contents f h =
    ap (λ t. (flush f).1.disk ++ t) (flush_empty f) ∙ append-nil (flush f).1.disk ∙ flush_stored f h

pub flush_room : (f : PosixWritableFile) → room (flush f).1 ≡ buffer_size
unfolding flush flush_buffer
flush_room f = refl

-- The buffered file meets what the clients of `WritableFile` rely on.
abbrev pub posix_laws : Laws posix_file
posix_laws = record {
  contents = contents;
  room = room;
  append_ok = λ d f h. rw (append_fits d f h);
  contents_append = λ d f h. rw (append_fits d f h) (sym (append_assoc f.disk f.buf d));
  room_append = λ d f h. rw (append_fits d f h) (omega (arith, length-append f.buf d));
  contents_flush = flush_contents;
  room_flush = λ f h. flush_room f;
}

-- `Sync` is a flush, with the same status but for its message.
pub sync-flush :
    (f : PosixWritableFile) → (is_ok (sync f).0 ≡ is_ok (flush f).0) × ((sync f).1 ≡ (flush f).1)
unfolding sync
sync-flush f = elim (Bool-cases (is_ok (flush f).0)) [
  | inl e ↦ rw e (refl, refl)
  | inr e ↦ rw e (e, refl)
]

abbrev pub posix_syncs : Syncs posix_file posix_laws
posix_syncs = record {
  stored = λ f. f.disk;
  stored_sync =
      λ f h. ap (λ g. g.disk) (sync-flush f).1 ∙ flush_stored f (sym (sync-flush f).0 ∙ h);
  contents_sync = λ f h. ap contents (sync-flush f).1 ∙ flush_contents f (sym (sync-flush f).0 ∙ h);
  room_sync = λ f h. ap room (sync-flush f).1 ∙ flush_room f;
}

-- A kernel with no surprise left.
abbrev pub IsQuiet : PosixWritableFile → Type 0
IsQuiet f = (f.events ≡ []) × (f.close_succeeds ≡ true)

pub flush-IsQuiet :
    (f : PosixWritableFile) → IsQuiet f → (is_ok (flush f).0 ≡ true) × IsQuiet (flush f).1
unfolding flush flush_buffer write_unbuffered write_loop
flush-IsQuiet f (e, c) = rw e (refl, (refl, c))

abbrev pub posix_reliable : Reliable posix_file posix_laws
posix_reliable = record {
  IsHealthy = IsQuiet;
  append_keeps = λ d f h e. rw (append_fits d f h) e;
  flush_keeps = λ f e. (flush-IsQuiet f e).1;
  flush_succeeds = λ f e. (flush-IsQuiet f e).0;
}

pub close_quiet :
    (f : PosixWritableFile)
    → IsQuiet f
    → f.disk ≡ contents f
    → (is_ok (close f).0 ≡ true) × ((close f).1.disk ≡ f.disk)
unfolding close close_descriptor flush_buffer write_unbuffered write_loop
close_quiet f (e, c) same = rw (e, c) (refl, sym same)

abbrev pub posix_syncs_reliably : SyncsReliably posix_file posix_laws posix_reliable posix_syncs
posix_syncs_reliably = record {
  sync_succeeds = λ f e. (sync-flush f).0 ∙ (flush-IsQuiet f e).0;
  sync_keeps = λ f e. subst IsQuiet (sym (sync-flush f).1) (flush-IsQuiet f e).1;
  close_succeeds = λ f e same. (close_quiet f e same).0;
  stored_close = λ f e same. (close_quiet f e same).1;
}

module _ (d : Bytes) (f : PosixWritableFile) (over : room f < length d) where
  -- The buffer filled up with as much of `d` as it takes.
  abbrev pub filled : PosixWritableFile
  filled = record f { buf = f.buf ++ take (room f) d }

  rest_left : is_empty (drop (room f) d) ≡ false
  rest_left = nonempty (drop (room f) d) (omega (arith, length-drop (room f) d))
    where
      nonempty : (l : Bytes) → 0 < length l → is_empty l ≡ false
      nonempty [] k = absurd (omega arith)
      nonempty (x ∷ xs) k = refl

  append_over : append d f ≡ append_rest (drop (room f) d) (flush filled)
  unfolding append flush
  append_over = let m : min (length d) (room f) ≡ room f = omega arith in rw (m, rest_left)

  -- An append of more bytes than the buffer has room for, whose flush succeeds, reports success and
  -- has accepted only as many bytes as there was room for: the rest is dropped.
  pub append_drops_rest :
      is_ok (flush filled).0 ≡ true
      → (is_ok (append d f).0 ≡ true) × (contents (append d f).1 ≡ contents f ++ take (room f) d)
  unfolding append_rest
  append_drops_rest h =
      rw (append_over, h)
        (h, flush_contents filled h ∙ sym (append_assoc f.disk f.buf (take (room f) d)))
