-- ===== src/FileName/RoundTrip.antt =====
-- The names that are made, parsed without their directory.
use am_kv.Prelude.{
  ℕ, ◌^◌, ◌<◌, ◌≡◌, ◌==◌, refl, ◌∙◌, arith, false, [], ◌∷◌, ◌++◌, Bytes, All, All-append, length,
  drop, none, some, ok, ne→==_false, ==_refl,
}
use am_kv.FileName.{
  FileType, format_number, make_file_name, log_suffix, ldb_suffix, sst_suffix, temp_suffix,
  manifest_prefix, current_name, lock_name, info_log_name, current_file_name, log_file_name,
  table_file_name, sstable_file_name, temp_file_name, descriptor_file_name, split_last, basename,
  starts_with, numbered, parse_suffix, parse_file_name,
}
use am_kv.FileName.Numbers.{
  IsDigit, format_number-IsDigit, length-format_number, stol-format_number,
}

-- The character stands nowhere in the string.
abbrev IsWithout : ℕ → Bytes → Type 0
IsWithout c s = All (λ x. (x == c) ≡ false) s

split_last-IsWithout : (c : ℕ) (s : Bytes) → IsWithout c s → split_last c s ≡ none
unfolding split_last
split_last-IsWithout c [] h = refl
split_last-IsWithout c (x ∷ xs) h = rw (split_last-IsWithout c xs h.1, h.0)

split_last-append :
    (c : ℕ) (a b : Bytes) → IsWithout c b → split_last c (a ++ (c ∷ b)) ≡ some (a, c ∷ b)
unfolding split_last
split_last-append c [] b h = rw (split_last-IsWithout c b h, ==_refl c)
split_last-append c (x ∷ a) b h = rw (split_last-append c a b h)

basename-append :
    (dbname name : Bytes) → IsWithout 47 name → basename (dbname ++ (47 ∷ name)) ≡ name
unfolding basename drop
basename-append dbname name h = rw (basename, split_last-append 47 dbname name h)

digits-IsWithout : (s : Bytes) → All IsDigit s → IsWithout 47 s
digits-IsWithout [] h = tt
digits-IsWithout (x ∷ xs) h =
    (ne→==_false x 47 (λ e. omega (arith, h.0.0)), digits-IsWithout xs h.1)

-- A name that begins with a digit is none of those that are written out.
parse_file_name-digits :
    (s suffix : Bytes)
    → All IsDigit s
    → 0 < length s
    → IsWithout 46 suffix
    → parse_file_name (s ++ (46 ∷ suffix)) ≡ parse_suffix (some (s, 46 ∷ suffix))
unfolding parse_file_name starts_with
parse_file_name-digits [] suffix h some_digit absent = absurd (omega arith)
parse_file_name-digits (c ∷ s) suffix h some_digit absent = rw (
  ne→==_false c 67 (λ e. omega (arith, h.0.1)),
  ne→==_false c 76 (λ e. omega (arith, h.0.1)),
  ne→==_false 77 c (λ e. omega (arith, h.0.1)),
  split_last-append 46 (c ∷ s) suffix absent,
)

parse-made :
    (dbname suffix : Bytes) (n : ℕ)
    → IsWithout 46 suffix
    → IsWithout 47 suffix
    → parse_file_name (basename (make_file_name dbname n suffix))
      ≡ parse_suffix (some (format_number n, 46 ∷ suffix))
unfolding make_file_name
parse-made dbname suffix n no_dot no_slash =
    rw
      (basename-append dbname (format_number n ++ (46 ∷ suffix)) (
        All-append (λ x. (x == 47) ≡ false) (format_number n) (46 ∷ suffix)
          (digits-IsWithout (format_number n) (format_number-IsDigit n)) (refl, no_slash)))
      (parse_file_name-digits (format_number n) suffix (format_number-IsDigit n)
        (length-format_number n) no_dot)

manifest_prefix-IsWithout : IsWithout 47 manifest_prefix
manifest_prefix-IsWithout =
    (refl, (refl, (refl, (refl, (refl, (refl, (refl, (refl, (refl, tt)))))))))

parse-manifest :
    (s : Bytes) → parse_file_name (manifest_prefix ++ s) ≡ numbered FileType.descriptor_file s
unfolding parse_file_name starts_with drop
parse-manifest s = refl

parse-current : parse_file_name current_name ≡ ok (some (0, FileType.current_file))
unfolding parse_file_name
parse-current = refl

-- What a directory lists of itself and of the one above it.
pub parse-own_directory : parse_file_name (46 ∷ []) ≡ ok none
unfolding parse_file_name starts_with parse_suffix split_last
parse-own_directory = refl

pub parse-parent_directory : parse_file_name (46 ∷ 46 ∷ []) ≡ ok none
unfolding parse_file_name starts_with parse_suffix split_last
parse-parent_directory = refl

pub parse-lock : parse_file_name lock_name ≡ ok (some (0, FileType.db_lock_file))
unfolding parse_file_name
parse-lock = refl

pub parse-info_log : parse_file_name info_log_name ≡ ok (some (0, FileType.info_log_file))
unfolding parse_file_name
parse-info_log = refl

-- What the parser makes of the names of one number.
abbrev pub AreParsed : Bytes → ℕ → Type 0
AreParsed dbname n =
    (parse_file_name (basename (log_file_name dbname n)) ≡ ok (some (n, FileType.log_file)))
    × (parse_file_name (basename (table_file_name dbname n)) ≡ ok (some (n, FileType.table_file)))
    × (parse_file_name (basename (sstable_file_name dbname n)) ≡ ok (some (n, FileType.table_file)))
    × (parse_file_name (basename (temp_file_name dbname n)) ≡ ok (some (n, FileType.temp_file)))
    × (parse_file_name (basename (descriptor_file_name dbname n))
        ≡ ok (some (n, FileType.descriptor_file)))
    × (parse_file_name (basename (current_file_name dbname)) ≡ ok (some (0, FileType.current_file)))

-- The name of a log, of a table under either suffix, of a temporary file and of a manifest, in any
-- directory, is parsed to its number and type, if the number is below 2 ^ 63; and so is the
-- name of the file that names the current manifest, with the number 0.
pub parse_file_name-basename : (dbname : Bytes) (n : ℕ) → n < 2 ^ 63 → AreParsed dbname n
unfolding log_file_name table_file_name sstable_file_name temp_file_name descriptor_file_name
    current_file_name parse_suffix numbered
parse_file_name-basename dbname n h =
    let number = stol-format_number n h in
    (
      parse-made dbname log_suffix n (refl, (refl, (refl, tt))) (refl, (refl, (refl, tt)))
          ∙ rw number,
      parse-made dbname ldb_suffix n (refl, (refl, (refl, tt))) (refl, (refl, (refl, tt)))
          ∙ rw number,
      parse-made dbname sst_suffix n (refl, (refl, (refl, tt))) (refl, (refl, (refl, tt)))
          ∙ rw number,
      parse-made dbname temp_suffix n (refl, (refl, (refl, (refl, (refl, tt)))))
            (refl, (refl, (refl, (refl, (refl, tt)))))
          ∙ rw number,
      rw
          (basename-append dbname (manifest_prefix ++ format_number n) (
            All-append (λ x. (x == 47) ≡ false) manifest_prefix (format_number n)
              manifest_prefix-IsWithout
              (digits-IsWithout (format_number n) (format_number-IsDigit n))))
          (parse-manifest (format_number n) ∙ rw number),
      rw
          (basename-append dbname current_name
            (refl, (refl, (refl, (refl, (refl, (refl, (refl, tt))))))))
          parse-current,
    )
