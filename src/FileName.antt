-- ===== src/FileName.antt =====
-- amkv/util/filename.h and filename.cc, amkv/comm/filename.cc and amkv/util/dirname.cc: the names of the
-- database's files. A number is a 64-bit word; `stol` and the `{:06}` of `std::format` are written out.
pub mod Numbers
pub mod RoundTrip
mod Examples
use am_kv.Prelude.{
  ℕ, zero, suc, ◌+◌, ◌-◌, ◌*◌, ◌/◌, ◌%◌, ◌^◌, ◌==◌, Bool, true, false, ◌&&◌, ◌||◌, if◌then◌else◌,
  List, [], ◌∷◌, ◌++◌, Bytes, length, drop, replicate, ltb, leb, bytes_eq, Option, none, some,
  Result, ok, fault, out_of_range, invalid_argument, ◌>>=◌,
}

pub data FileType : Type 0 where
  log_file db_lock_file table_file descriptor_file current_file temp_file info_log_file : FileType

-- The digits of a number in front of others.
pub digits_loop : ℕ → ℕ → Bytes → Bytes
digits_loop zero n rest = rest
digits_loop (suc fuel) n rest =
    let more = digits_loop fuel (n / 10) ((48 + n % 10) ∷ rest) in
    if ltb n 10 then (48 + n) ∷ rest else more

-- A round takes a digit off the number.
pub digits : ℕ → Bytes
digits n = digits_loop (n + 1) n []

-- `{:06}` and `{:06d}`.
pub format_number : ℕ → Bytes
format_number n = replicate (6 - length (digits n)) 48 ++ digits n

pub make_file_name : Bytes → ℕ → Bytes → Bytes
make_file_name dbname number suffix = dbname ++ (47 ∷ (format_number number ++ (46 ∷ suffix)))

-- "log", "ldb", "sst" and "dbtmp".
abbrev pub log_suffix : Bytes
log_suffix = 108 ∷ 111 ∷ 103 ∷ []

abbrev pub ldb_suffix : Bytes
ldb_suffix = 108 ∷ 100 ∷ 98 ∷ []

abbrev pub sst_suffix : Bytes
sst_suffix = 115 ∷ 115 ∷ 116 ∷ []

abbrev pub temp_suffix : Bytes
temp_suffix = 100 ∷ 98 ∷ 116 ∷ 109 ∷ 112 ∷ []

-- "CURRENT", "LOCK", "LOG", "LOG.old" and "MANIFEST-".
abbrev pub current_name : Bytes
current_name = 67 ∷ 85 ∷ 82 ∷ 82 ∷ 69 ∷ 78 ∷ 84 ∷ []

abbrev pub lock_name : Bytes
lock_name = 76 ∷ 79 ∷ 67 ∷ 75 ∷ []

abbrev pub info_log_name : Bytes
info_log_name = 76 ∷ 79 ∷ 71 ∷ []

abbrev pub old_info_log_name : Bytes
old_info_log_name = 76 ∷ 79 ∷ 71 ∷ 46 ∷ 111 ∷ 108 ∷ 100 ∷ []

abbrev pub manifest_prefix : Bytes
manifest_prefix = 77 ∷ 65 ∷ 78 ∷ 73 ∷ 70 ∷ 69 ∷ 83 ∷ 84 ∷ 45 ∷ []

pub log_file_name : Bytes → ℕ → Bytes
log_file_name dbname number = make_file_name dbname number log_suffix

pub table_file_name : Bytes → ℕ → Bytes
table_file_name dbname number = make_file_name dbname number ldb_suffix

pub sstable_file_name : Bytes → ℕ → Bytes
sstable_file_name dbname number = make_file_name dbname number sst_suffix

pub temp_file_name : Bytes → ℕ → Bytes
temp_file_name dbname number = make_file_name dbname number temp_suffix

pub current_file_name : Bytes → Bytes
current_file_name dbname = dbname ++ (47 ∷ current_name)

unfoldable pub descriptor_file_name : Bytes → ℕ → Bytes
descriptor_file_name dbname number = dbname ++ (47 ∷ (manifest_prefix ++ format_number number))

-- `rfind` of a character, with what is before it and the rest from it on.
pub split_last : ℕ → Bytes → Option (Bytes × Bytes)
split_last c [] = none
split_last c (x ∷ xs) = elim (split_last c xs) [
  | some (before, behind) ↦ some (x ∷ before, behind)
  | none ↦ if x == c then some ([], x ∷ xs) else none
]

pub basename : Bytes → Bytes
basename filename = elim (split_last 47 filename) [
  | none ↦ filename
  | some (_, behind) ↦ drop 1 behind
]

pub dirname : Bytes → Bytes
dirname filename = elim (split_last 47 filename) [ none ↦ 46 ∷ [] | some (before, _) ↦ before ]

abbrev pub is_digit : ℕ → Bool
is_digit c = leb 48 c && leb c 57

abbrev pub is_space : ℕ → Bool
is_space c = (c == 32) || (leb 9 c && leb c 13)

pub read_digits : ℕ → Bytes → ℕ
read_digits v [] = v
read_digits v (c ∷ cs) =
    let rest = read_digits (v * 10 + (c - 48)) cs in if is_digit c then rest else v

-- Behind the sign; the limit is that of a `long`.
pub stol_number : ℕ → Bytes → Result ℕ
stol_number limit [] = fault invalid_argument
stol_number limit (c ∷ cs) =
    let n = read_digits 0 (c ∷ cs) in
    if is_digit c
    then (if ltb limit n then fault out_of_range else ok n)
    else fault invalid_argument

pub stol_signed : Bytes → Result ℕ
stol_signed [] = fault invalid_argument
stol_signed (c ∷ cs) =
    if c == 45
    then (stol_number (2 ^ 63) cs >>= λ n. ok ((2 ^ 64 - n) % 2 ^ 64))
    else if c == 43
    then stol_number (2 ^ 63 - 1) cs
    else stol_number (2 ^ 63 - 1) (c ∷ cs)

-- `stol`, its result as the 64-bit word that it is assigned to.
pub stol : Bytes → Result ℕ
stol [] = fault invalid_argument
stol (c ∷ cs) = let rest = stol cs in if is_space c then rest else stol_signed (c ∷ cs)

pub starts_with : Bytes → Bytes → Bool
starts_with [] s = true
starts_with (p ∷ ps) [] = false
starts_with (p ∷ ps) (c ∷ cs) = (p == c) && starts_with ps cs

-- `*number = stol(name)` with a type.
pub numbered : FileType → Bytes → Result (Option (ℕ × FileType))
numbered type name = do n ← stol name; ok (some (n, type))

-- What is before the last dot, and the suffix with it. Without a dot `substr` throws.
pub parse_suffix : Option (Bytes × Bytes) → Result (Option (ℕ × FileType))
parse_suffix none = fault out_of_range
parse_suffix (some (name, suffix)) =
    if bytes_eq suffix (46 ∷ log_suffix)
    then numbered FileType.log_file name
    else if bytes_eq suffix (46 ∷ sst_suffix)
    then numbered FileType.table_file name
    else if bytes_eq suffix (46 ∷ ldb_suffix)
    then numbered FileType.table_file name
    else if bytes_eq suffix (46 ∷ temp_suffix)
    then numbered FileType.temp_file name
    else ok none

-- The number and the type, or nothing where it returns false.
pub parse_file_name : Bytes → Result (Option (ℕ × FileType))
parse_file_name filename =
    if bytes_eq filename current_name
    then ok (some (0, FileType.current_file))
    else if bytes_eq filename lock_name
    then ok (some (0, FileType.db_lock_file))
    else if bytes_eq filename info_log_name || bytes_eq filename old_info_log_name
    then ok (some (0, FileType.info_log_file))
    else if starts_with manifest_prefix filename
    then numbered FileType.descriptor_file (drop 9 filename)
    else parse_suffix (split_last 46 filename)
