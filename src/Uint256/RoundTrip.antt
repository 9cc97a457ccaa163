-- ===== src/Uint256/RoundTrip.antt =====
-- Reading back what `String()` prints.
use averlock.Prelude.{
  ℕ, zero, suc, ◌+◌, ◌*◌, ◌/◌, ◌%◌, ◌≤◌, ◌<◌, ◌≡◌, refl, true, some, [], ◌∷◌, ◌++◌, Bytes, arith,
  ok, ap, ◌∙◌,
}
use native.Mathlib.Decide.{dec_lt}
use mathlib.Core.List.{append_assoc, append-nil}
use averlock.Uint256.{uint256_size, scan, digits, to_string, parse_uint256, default_zero}

scan_digit :
    (d : ℕ) (rest : Bytes) (n : ℕ) → d < 10 → scan ((b'0' + d) ∷ rest) n ≡ scan rest (n * 10 + d)
unfolding scan
scan_digit d rest n h = ground arith

pub digits_one : (f n : ℕ) → n < 10 → digits (suc f) n ≡ (b'0' + n) ∷ []
unfolding digits
digits_one f n h = ground arith

pub digits_more : (f n : ℕ) → 10 ≤ n → digits (suc f) n ≡ digits f (n / 10) ++ (b'0' + n % 10) ∷ []
unfolding digits
digits_more f n h = ground arith

scan-digits : (f n : ℕ) (rest : Bytes) → n < f → scan (digits f n ++ rest) 0 ≡ scan rest n
scan-digits zero n rest h = elim h [ ]
scan-digits (suc f) n rest h = elim (dec_lt n 10) [
  | yes one ↦ rw (digits_one f n one) (scan_digit n rest 0 one ∙ ap (scan rest) (omega arith))
  | no more ↦
      rw (digits_more f n (omega arith), append_assoc)
        (scan-digits f (n / 10) _ (omega arith)
          ∙ scan_digit (n % 10) rest (n / 10) (omega arith)
          ∙ ap (scan rest) (omega arith))
]

-- the first digit is no sign
unfoldable pub StartsWithDigit : Bytes → Type 0
StartsWithDigit s = (c : ℕ) × (r : Bytes) × (s ≡ c ∷ r) × ((b'0' ≤ c) × (c ≤ b'9'))

digits-StartsWithDigit : (f n : ℕ) → n < f → StartsWithDigit (digits f n)
unfolding StartsWithDigit
digits-StartsWithDigit zero n h = elim h [ ]
digits-StartsWithDigit (suc f) n h = elim (dec_lt n 10) [
  | yes one ↦ (b'0' + n, [], digits_one f n one, (omega arith, omega arith))
  | no more ↦
      let (c, r, e, d) = digits-StartsWithDigit f (n / 10) (omega arith) in
      (c, r ++ (b'0' + n % 10) ∷ [], rw (digits_more f n (omega arith), e), d)
]

pub to_string-StartsWithDigit : (n : ℕ) → StartsWithDigit (to_string n)
unfolding to_string
to_string-StartsWithDigit n = digits-StartsWithDigit (suc n) n (omega arith)

scan-to_string : (n : ℕ) → scan (to_string n) 0 ≡ some n
unfolding to_string
scan-to_string n =
    rw (← append-nil (digits (suc n) n))
      (scan-digits (suc n) n [] (omega arith) ∙ unfold scan in refl)

-- what a text of digits parses to, by its scan
parse_digits :
    (c : ℕ) (r : Bytes) (n : ℕ)
    → (b'0' ≤ c) × (c ≤ b'9')
    → scan (c ∷ r) 0 ≡ some n
    → n < uint256_size
    → parse_uint256 (c ∷ r) true ≡ ok n
unfolding parse_uint256
parse_digits c r n d h fits = ground arith

-- Every number below 2 ^ 256 is read back from its decimal print.
pub parse_uint256-to_string : (n : ℕ) → n < uint256_size → parse_uint256 (to_string n) true ≡ ok n
unfolding StartsWithDigit
parse_uint256-to_string n fits =
    let (c, r, e, d) = to_string-StartsWithDigit n in
    rw e (parse_digits c r n d (rw e at (scan-to_string n)) fits)

pub default_zero-to_string : (n : ℕ) → default_zero (to_string n) ≡ to_string n
unfolding StartsWithDigit default_zero
default_zero-to_string n = let (c, r, e, d) = to_string-StartsWithDigit n in rw e
