-- ===== src/Version/Builder/Saving.antt =====
-- What `Apply` does to the deleted numbers, and what `SaveTo` puts into the new version.
use am_kv.Prelude.{
  Returns-bind, Returns-map, ℕ, ◌+◌, ◌<◌, ◌≡◌, refl, sym, ap, ◌∙◌, arith, Bool, true, false, not,
  ◌&&◌, ◌||◌, List, [], ◌∷◌, ◌++◌, append_assoc, append-nil, ◌==◌, lt→ltb, if◌then◌else◌,
  Bool-cases, inl, inr, Returns,
}
use am_kv.VersionEdit.{FileMetaData, VersionEdit}
use am_kv.DbFormat.{num_levels}
use am_kv.Version.{Version}
use am_kv.Version.Builder.{
  Builder, insert_number, erase_number, has_number, delete_number, apply_deleted, maybe_add_file,
  save_base, save_added, save_level, save_to, add_new, apply_new, apply,
}

-- The files whose number is not deleted, each with one more reference.
abbrev pub kept : List ℕ → List FileMetaData → List FileMetaData
kept deleted [] = []
kept deleted (f ∷ fs) =
    if has_number f.number deleted
    then kept deleted fs
    else record f { refs = f.refs + 1 } ∷ kept deleted fs

kept-append : (d : List ℕ) (fs gs : List FileMetaData) → kept d (fs ++ gs) ≡ kept d fs ++ kept d gs
kept-append d [] gs = refl
kept-append d (f ∷ fs) gs = elim (Bool-cases (has_number f.number d)) [
  | inl e ↦ rw (e, kept-append d fs gs)
  | inr e ↦ rw (e, kept-append d fs gs)
]

maybe_add_file-kept :
    (d : List ℕ) (f : FileMetaData) (fs files : List FileMetaData)
    → maybe_add_file d f files ++ kept d fs ≡ files ++ kept d (f ∷ fs)
unfolding maybe_add_file
maybe_add_file-kept d f fs files = elim (Bool-cases (has_number f.number d)) [
  | inl e ↦ rw e
  | inr e ↦ rw (e, append_assoc files (record f { refs = f.refs + 1 } ∷ []) (kept d fs))
]

save_base-kept :
    (d : List ℕ) (base files : List FileMetaData) → save_base d base files ≡ files ++ kept d base
unfolding save_base
save_base-kept d [] files = sym (append-nil files)
save_base-kept d (f ∷ base) files =
    rw (save_base-kept d base (maybe_add_file d f files), maybe_add_file-kept d f base files)

save_added-kept :
    (d : List ℕ) (added base files : List FileMetaData)
    → save_added d added base files ≡ files ++ kept d (base ++ added)
unfolding save_added
save_added-kept d [] base files = rw (append-nil base) (save_base-kept d base files)
save_added-kept d (f ∷ added) base files = rw (
  save_added-kept d added [] (maybe_add_file d f (save_base d base files)),
  maybe_add_file-kept d f added (save_base d base files),
  save_base-kept d base files,
  append_assoc files (kept d base) (kept d (f ∷ added)),
  kept-append d base (f ∷ added),
)

-- `SaveTo` puts behind the files of each level the base version's and then the added ones, without
-- those whose number is deleted, and counts a reference to each.
pub save_to-kept :
    (b : Builder) (v : Version) (level : ℕ)
    → level < num_levels
    → (save_to b v).files level
      ≡ v.files level
        ++ kept (b.levels level).deleted_files (b.base.files level ++ (b.levels level).added_files)
unfolding save_to save_level
save_to-kept b v level h = rw (lt→ltb level num_levels h) (
    save_added-kept (b.levels level).deleted_files (b.levels level).added_files (b.base.files level)
      (v.files level))

has_number-insert :
    (x n : ℕ) (ms : List ℕ) → has_number x (insert_number n ms) ≡ ((x == n) || has_number x ms)
unfolding has_number insert_number
has_number-insert x n [] = refl
has_number-insert x n (m ∷ ms) = let ih = has_number-insert x n ms in ground (arith, ih)

has_number-erase :
    (x n : ℕ) (ms : List ℕ) → has_number x (erase_number n ms) ≡ (not (x == n) && has_number x ms)
unfolding has_number erase_number
has_number-erase x n [] = ground arith
has_number-erase x n (m ∷ ms) = let ih = has_number-erase x n ms in ground (arith, ih)

==→≡ : (a b : ℕ) → (a == b) ≡ true → a ≡ b
==→≡ a b h = ground arith

or-swap : (x y z : Bool) → (x || (y || z)) ≡ ((y || x) || z)
or-swap true true z = refl
or-swap true false z = refl
or-swap false true z = refl
or-swap false false z = refl

-- Whether an edit deletes, or adds, the file of a number at a level.
abbrev pub deletes : ℕ → ℕ → List (ℕ × ℕ) → Bool
deletes level number [] = false
deletes level number ((l, n) ∷ files) =
    ((level == l) && (number == n)) || deletes level number files

abbrev pub adds : ℕ → ℕ → List (ℕ × FileMetaData) → Bool
adds level number [] = false
adds level number ((l, f) ∷ files) =
    ((level == l) && (number == f.number)) || adds level number files

-- The levels are elements of the array.
abbrev pub InRange {ℓ} : {A : Type ℓ} → List (ℕ × A) → Type 0
InRange [] = Unit
InRange ((l, a) ∷ files) = (l < num_levels) × InRange files

-- Whether a number is among those deleted at a level.
abbrev pub is_deleted : ℕ → ℕ → Builder → Bool
is_deleted level number b = has_number number (b.levels level).deleted_files

is_deleted-delete :
    (level number l n : ℕ) (b : Builder)
    → is_deleted level number (delete_number l n b)
      ≡ (((level == l) && (number == n)) || is_deleted level number b)
unfolding delete_number
is_deleted-delete level number l n b = elim (Bool-cases (level == l)) [
  | inl e ↦
      let q = ==→≡ level l e in rw (e, has_number-insert number n (b.levels l).deleted_files, q)
  | inr e ↦ rw e
]

added_files-delete :
    (level l n : ℕ) (b : Builder)
    → ((delete_number l n b).levels level).added_files ≡ (b.levels level).added_files
unfolding delete_number
added_files-delete level l n b = elim (Bool-cases (level == l)) [
  | inl e ↦ let q = ==→≡ level l e in rw (e, q)
  | inr e ↦ rw e
]

apply_deleted-Returns :
    (level number : ℕ) (files : List (ℕ × ℕ)) (b : Builder)
    → InRange files
    → Returns
        (λ b'.
          (is_deleted level number b' ≡ (deletes level number files || is_deleted level number b))
          × ((b'.levels level).added_files ≡ (b.levels level).added_files))
        (apply_deleted files b)
unfolding apply_deleted
apply_deleted-Returns level number [] b h = (refl, refl)
apply_deleted-Returns level number ((l, n) ∷ files) b h =
    let ih = apply_deleted-Returns level number files (delete_number l n b) h.1 in
    rw (lt→ltb l num_levels h.0) (
      Returns-map (apply_deleted files (delete_number l n b)) ih (λ b' e. (
        rw (e.0, is_deleted-delete level number l n b)
            (or-swap (deletes level number files) ((level == l) && (number == n))
              (is_deleted level number b)),
        e.1 ∙ added_files-delete level l n b,
      )))

and-swap : (x y z : Bool) → (not x && (not y && z)) ≡ (not (y || x) && z)
and-swap true true z = refl
and-swap true false z = refl
and-swap false true z = refl
and-swap false false z = refl

-- The files of a level among the new ones, inserted one after the other.
abbrev pub added_at :
    (FileMetaData → List FileMetaData → List FileMetaData)
    → ℕ
    → List (ℕ × FileMetaData)
    → List FileMetaData
    → List FileMetaData
added_at insert_added level [] added = added
added_at insert_added level ((l, f) ∷ files) added =
    added_at insert_added level files (if level == l then insert_added f added else added)

module _ (insert_added : FileMetaData → List FileMetaData → List FileMetaData) where
  is_deleted-add :
      (level number l : ℕ) (f : FileMetaData) (b : Builder)
      → is_deleted level number (add_new insert_added l f b)
        ≡ (not ((level == l) && (number == f.number)) && is_deleted level number b)
  unfolding add_new
  is_deleted-add level number l f b = elim (Bool-cases (level == l)) [
    | inl e ↦
        let q = ==→≡ level l e in
        rw (e, has_number-erase number f.number (b.levels l).deleted_files, q)
    | inr e ↦ rw e
  ]

  added_files-add :
      (level l : ℕ) (f : FileMetaData) (b : Builder)
      → ((add_new insert_added l f b).levels level).added_files ≡ (
          if level == l
          then insert_added f (b.levels level).added_files
          else (b.levels level).added_files)
  unfolding add_new
  added_files-add level l f b = elim (Bool-cases (level == l)) [
    | inl e ↦ let q = ==→≡ level l e in rw (e, q)
    | inr e ↦ rw e
  ]

  apply_new-Returns :
      (level number : ℕ) (files : List (ℕ × FileMetaData)) (b : Builder)
      → InRange files
      → Returns
          (λ b'.
            (is_deleted level number b'
              ≡ (not (adds level number files) && is_deleted level number b))
            × ((b'.levels level).added_files
                ≡ added_at insert_added level files (b.levels level).added_files))
          (apply_new insert_added files b)
  unfolding apply_new
  apply_new-Returns level number [] b h = (refl, refl)
  apply_new-Returns level number ((l, f) ∷ files) b h =
      let ih = apply_new-Returns level number files (add_new insert_added l f b) h.1 in
      rw (lt→ltb l num_levels h.0) (
        Returns-map (apply_new insert_added files (add_new insert_added l f b)) ih (λ b' e. (
          rw (e.0, is_deleted-add level number l f b)
              (and-swap (adds level number files) ((level == l) && (number == f.number))
                (is_deleted level number b)),
          e.1 ∙ ap (added_at insert_added level files) (added_files-add level l f b),
        )))

  -- `Apply` ends without a fault on an edit whose levels are all below `kNumLevels`. A number is
  -- deleted at a level afterwards exactly if the edit does not add a file of that number there and
  -- it was deleted before or the edit deletes it; and the files added at a level are those that were,
  -- with the edit's files of that level inserted one after the other.
  pub apply-Returns :
      (level number : ℕ) (edit : VersionEdit) (b : Builder)
      → InRange edit.deleted_files
      → InRange edit.new_files
      → Returns
          (λ b'.
            (is_deleted level number b' ≡ (
              not (adds level number edit.new_files)
              && (deletes level number edit.deleted_files || is_deleted level number b)))
            × ((b'.levels level).added_files
                ≡ added_at insert_added level edit.new_files (b.levels level).added_files))
          (apply insert_added edit b)
  unfolding apply
  apply-Returns level number edit b hd hn =
      Returns-bind
        (λ b'.
          (is_deleted level number b'
            ≡ (deletes level number edit.deleted_files || is_deleted level number b))
          × ((b'.levels level).added_files ≡ (b.levels level).added_files))
        _ (apply_deleted edit.deleted_files b) (apply_new insert_added edit.new_files)
        (apply_deleted-Returns level number edit.deleted_files b hd)
        (λ b' e.
          Returns-map (apply_new insert_added edit.new_files b')
            (apply_new-Returns level number edit.new_files b' hn)
            (λ b'' e'.
              (rw (e'.0, e.0), e'.1 ∙ ap (added_at insert_added level edit.new_files) e.1)))
