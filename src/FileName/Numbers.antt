-- ===== src/FileName/Numbers.antt =====
-- What `stol` reads in the digits that `std::format` writes.
use am_kv.Prelude.{
  ℕ, zero, suc, ◌+◌, ◌-◌, ◌*◌, ◌/◌, ◌%◌, ◌^◌, ◌<◌, ◌≤◌, ◌≡◌, refl, ap, ◌∙◌, arith, true, [], ◌∷◌,
  ◌++◌, inl, inr, Bool-cases, Bytes, All, All-append, length, length-append, length-replicate,
  replicate, ltb, ok, le→leb, lt→leb_false, le→ltb_false, ltb→lt, ltb_false→le, ne→==_false,
}
use am_kv.FileName.{
  digits_loop, digits, format_number, is_digit, read_digits, stol_number, stol_signed, stol,
}

abbrev pub IsDigit : ℕ → Type 0
IsDigit c = (48 ≤ c) × (c ≤ 57)

digit_lem : (c : ℕ) → IsDigit c → is_digit c ≡ true
digit_lem c h = rw (le→leb 48 c h.0, le→leb c 57 h.1)

digits_loop-IsDigit :
    (fuel n : ℕ) (rest : Bytes) → All IsDigit rest → All IsDigit (digits_loop fuel n rest)
unfolding digits_loop
digits_loop-IsDigit zero n rest h = h
digits_loop-IsDigit (suc fuel) n rest h = elim (Bool-cases (ltb n 10)) [
  | inl e ↦ let small = ltb→lt n 10 e in rw e ((omega arith, omega arith), h)
  | inr e ↦
      rw e
        (digits_loop-IsDigit fuel (n / 10) ((48 + n % 10) ∷ rest) ((omega arith, omega arith), h))
]

-- The value of the digits goes in front of what follows.
read_digits-digits_loop :
    (fuel n : ℕ) (rest : Bytes)
    → n < fuel
    → read_digits 0 (digits_loop fuel n rest) ≡ read_digits n rest
unfolding digits_loop read_digits
read_digits-digits_loop zero n rest h = absurd (omega arith)
read_digits-digits_loop (suc fuel) n rest h = elim (Bool-cases (ltb n 10)) [
  | inl e ↦
      let small = ltb→lt n 10 e in
      let value : 0 * 10 + ((48 + n) - 48) ≡ n = omega arith in
      rw (e, digit_lem (48 + n) (omega arith, omega arith)) (ap (λ v. read_digits v rest) value)
  | inr e ↦
      let large = ltb_false→le n 10 e in
      let c = 48 + n % 10 in
      let value : (n / 10) * 10 + (c - 48) ≡ n = omega arith in
      rw
        (
          e,
          read_digits-digits_loop fuel (n / 10) (c ∷ rest) (omega arith),
          digit_lem c (omega arith, omega arith),
        )
        (ap (λ v. read_digits v rest) value)
]

read_digits-zeros :
    (k : ℕ) (rest : Bytes) → read_digits 0 (replicate k 48 ++ rest) ≡ read_digits 0 rest
unfolding read_digits
read_digits-zeros zero rest = refl
read_digits-zeros (suc k) rest = read_digits-zeros k rest

zeros-IsDigit : (k : ℕ) → All IsDigit (replicate k 48)
zeros-IsDigit zero = tt
zeros-IsDigit (suc k) = ((omega arith, omega arith), zeros-IsDigit k)

pub format_number-IsDigit : (n : ℕ) → All IsDigit (format_number n)
unfolding format_number digits
format_number-IsDigit n =
    All-append IsDigit (replicate (6 - length (digits n)) 48) (digits n)
      (zeros-IsDigit (6 - length (digits n))) (digits_loop-IsDigit (n + 1) n [] tt)

read_digits-format_number : (n : ℕ) → read_digits 0 (format_number n) ≡ n
unfolding format_number digits
read_digits-format_number n =
    read_digits-zeros (6 - length (digits n)) (digits n)
    ∙ (read_digits-digits_loop (n + 1) n [] (omega arith) ∙ unfold read_digits in refl)

pub length-format_number : (n : ℕ) → 0 < length (format_number n)
unfolding format_number
length-format_number n = omega (
  arith,
  length-append (replicate (6 - length (digits n)) 48) (digits n),
  length-replicate {A = ℕ} (6 - length (digits n)) 48,
)

stol-digits :
    (s : Bytes)
    → All IsDigit s
    → 0 < length s
    → read_digits 0 s < 2 ^ 63
    → stol s ≡ ok (read_digits 0 s)
unfolding stol stol_signed stol_number
stol-digits [] h some_digit small = absurd (omega arith)
stol-digits (c ∷ cs) h some_digit small = rw (
  ne→==_false c 32 (λ e. omega (arith, h.0.0)),
  le→leb 9 c (omega (arith, h.0.0)),
  lt→leb_false c 13 (omega (arith, h.0.0)),
  ne→==_false c 45 (λ e. omega (arith, h.0.0)),
  ne→==_false c 43 (λ e. omega (arith, h.0.0)),
  digit_lem c h.0,
  le→ltb_false (2 ^ 63 - 1) (read_digits 0 (c ∷ cs)) (omega (arith, small)),
)

-- `stol` reads back the number, if it is a `long`.
pub stol-format_number : (n : ℕ) → n < 2 ^ 63 → stol (format_number n) ≡ ok n
stol-format_number n h =
    let v = read_digits-format_number n in
    stol-digits (format_number n) (format_number-IsDigit n) (length-format_number n)
      (omega (arith, v))
    ∙ ap ok v
