-- ===== src/Prelude/Decimal.antt =====
-- Decimal text as `%d` of package fmt writes it and `strconv.ParseInt(s, 10, 64)` reads it.
use cosnet.Prelude.{
  ℕ, zero, suc, ◌+◌, ◌-◌, ◌*◌, ◌/◌, ◌%◌, ◌^◌, ◌≤◌, ◌<◌, ◌≡◌, refl, Bool, true, false, ◌&&◌, [], ◌∷◌,
  ◌++◌, append_assoc, append-nil, arith, ltb, leb, ◌==◌, if◌then◌else◌, All, All-append, Bool-cases,
  inl, inr, ◌∙◌,
}
use cosnet.Prelude.Int.{ℤ, pos, negsuc}
use cosnet.Prelude.Bytes.{Bytes, codes}

-- Each round divides by ten, so a fuel above `n` is enough.
digits : ℕ → ℕ → Bytes
digits zero n = []
digits (suc fuel) n =
    let front = digits fuel (n / 10) in
    if ltb n 10 then (b'0' + n) ∷ [] else front ++ ((b'0' + n % 10) ∷ [])

unfoldable pub format : ℕ → Bytes
unfolding digits
format n = digits (suc n) n

unfoldable pub format_int : ℤ → Bytes
unfolding format
format_int (pos n) = format n
format_int (negsuc n) = b'-' ∷ format (suc n)

-- The value that ParseInt returns, and its error if there is one. On a syntax error the value is 0;
-- out of range it is the nearest int64.
pub data Parsed : Type 0 where
  parsed : ℤ → Parsed
  syntax_error : Parsed
  range_error : ℤ → Parsed

abbrev pub max_int64 : ℕ
max_int64 = 2 ^ 63 - 1

pub data Unsigned : Type 0 where
  number : ℕ → Unsigned
  bad_digit too_large : Unsigned

abbrev pub is_digit : ℕ → Bool
is_digit c = leb b'0' c && leb c b'9'

-- The loop of ParseUint: it stops at the first byte that is no digit or that passes uint64.
scan : Bytes → ℕ → Unsigned
scan [] n = number n
scan (c ∷ s) n =
    if is_digit c
    then (if ltb (2 ^ 64 - 1) (n * 10 + (c - b'0'))
        then too_large
        else scan s (n * 10 + (c - b'0')))
    else bad_digit

signed : Bool → Unsigned → Parsed
signed neg bad_digit = syntax_error
signed false too_large = range_error (pos max_int64)
signed true too_large = range_error (negsuc max_int64)
signed false (number n) = if leb (2 ^ 63) n then range_error (pos max_int64) else parsed (pos n)
signed true (number zero) = parsed (pos 0)
signed true (number (suc n)) =
    if ltb (2 ^ 63) (suc n) then range_error (negsuc max_int64) else parsed (negsuc n)

parse_uint : Bytes → Unsigned
parse_uint [] = bad_digit
parse_uint (c ∷ s) = scan (c ∷ s) 0

unfoldable pub parse_int : Bytes → Parsed
unfolding scan signed parse_uint
parse_int [] = syntax_error
parse_int (c ∷ s) =
    if c == b'-'
    then signed true (parse_uint s)
    else if c == b'+'
    then signed false (parse_uint s)
    else signed false (scan (c ∷ s) 0)

-- The value that ParseInt's caller is left with, whatever the error.
abbrev pub parsed_value : Parsed → ℤ
parsed_value (parsed z) = z
parsed_value syntax_error = pos 0
parsed_value (range_error z) = z

abbrev pub IsDigit : ℕ → Type 0
IsDigit c = (b'0' ≤ c) × (c ≤ b'9')

scan-digits :
    (fuel n : ℕ) (rest : Bytes)
    → n < fuel
    → n < 2 ^ 64
    → scan (digits fuel n ++ rest) 0 ≡ scan rest n
unfolding digits
scan-digits zero n rest h fits = absurd (omega arith)
scan-digits (suc fuel) n rest h fits = elim (Bool-cases (ltb n 10)) [
  | inl small ↦ rw small (unfold scan in ground arith)
  | inr large ↦
      rw (large, append_assoc (digits fuel (n / 10)) _ rest)
        (scan-digits fuel (n / 10) ((b'0' + n % 10) ∷ rest) (ground arith) (omega arith)
          ∙ unfold scan in ground arith)
]

digits_head : (fuel n : ℕ) → n < fuel → (c : ℕ) × (s : Bytes) × (digits fuel n ≡ c ∷ s) × IsDigit c
unfolding digits
digits_head zero n h = absurd (omega arith)
digits_head (suc fuel) n h = elim (Bool-cases (ltb n 10)) [
  | inl small ↦ (b'0' + n, [], rw small, ground arith)
  | inr large ↦
      let (c, s, e, d) = digits_head fuel (n / 10) (ground arith) in
      (c, s ++ ((b'0' + n % 10) ∷ []), rw (large, e), d)
]

digits-IsDigit : (fuel n : ℕ) → All IsDigit (digits fuel n)
unfolding digits
digits-IsDigit zero n = tt
digits-IsDigit (suc fuel) n = elim (Bool-cases (ltb n 10)) [
  | inl small ↦ rw small (ground arith)
  | inr large ↦
      rw large (All-append _ (digits fuel (n / 10)) _ (digits-IsDigit fuel (n / 10)) (omega arith))
]

pub format-IsDigit : (n : ℕ) → All IsDigit (format n)
unfolding format
format-IsDigit n = digits-IsDigit (suc n) n

-- A printed number is not empty, and begins with a digit.
pub format_head : (n : ℕ) → (c : ℕ) × (s : Bytes) × (format n ≡ c ∷ s) × IsDigit c
unfolding format
format_head n = digits_head (suc n) n (omega arith)

scan-format : (n : ℕ) → n < 2 ^ 64 → scan (format n) 0 ≡ number n
unfolding format
scan-format n h =
    rw (append-nil) at (scan-digits (suc n) n [] (omega arith) h) ∙ unfold scan in refl

-- ParseInt reads back each printed number that fits in an int64.
pub parse_int-format : (n : ℕ) → n < 2 ^ 63 → parse_int (format n) ≡ parsed (pos n)
unfolding parse_int
parse_int-format n h =
    let (c, s, e, d) = format_head n in rw e (ground (arith, rw e at (scan-format n (omega arith))))

parse_format_test : parse_int (codes "9223372036854775808") ≡ range_error (pos max_int64)
unfolding parse_int
parse_format_test = refl

format_test : format_int (negsuc 119) ≡ codes "-120"
unfolding format_int
format_test = refl
