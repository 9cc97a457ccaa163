-- ===== src/Uint256.antt =====
-- parseUint256 of packages/fcc-extension/go/internal/extension/engine.go, over what math/big does
-- for `SetString(value, 10)` and `String()`.
pub mod Parse
pub mod RoundTrip
mod Tests
use averlock.Prelude.{
  ℕ, zero, suc, ◌+◌, ◌-◌, ◌*◌, ◌/◌, ◌%◌, ◌^◌, Bool, true, false, ◌||◌, ◌&&◌, not, Option, none,
  some, List, [], ◌∷◌, ◌++◌, Bytes, ltb, leb, ◌==◌, if◌then◌else◌, Result, ok, err, or_err, fail_if,
  ◌>>=◌, ◌>>◌, ℤ, pos, negsuc, is_neg, abs,
}

abbrev pub uint256_size : ℕ
uint256_size = 2 ^ 256

-- `value.BitLen() <= 256`
abbrev pub fits_uint256 : ℤ → Bool
fits_uint256 x = ltb (abs x) uint256_size

-- the digits of a number in base 10, to the end of the text
unfoldable pub scan : Bytes → ℕ → Option ℕ
scan [] n = some n
scan (c ∷ s) n = if ltb c b'0' || ltb b'9' c then none else scan s (n * 10 + (c - b'0'))

-- at least one digit
unfoldable pub scan_nat : Bytes → Option ℕ
unfolding scan
scan_nat [] = none
scan_nat (c ∷ s) = scan (c ∷ s) 0

abbrev pub negate : ℕ → ℤ
negate zero = pos 0
negate (suc n) = negsuc n

abbrev pub signed : Bool → Option ℕ → Option ℤ
signed neg none = none
signed neg (some n) = some (if neg then negate n else pos n)

-- `new(big.Int).SetString(value, 10)`: one optional sign, then digits only
unfoldable pub set_string : Bytes → Option ℤ
unfolding scan_nat
set_string [] = none
set_string (c ∷ s) =
    if c == b'-'
    then signed true (scan_nat s)
    else if c == b'+'
    then signed false (scan_nat s)
    else signed false (scan_nat (c ∷ s))

-- `x.String()`, the decimal digits of a number below the fuel
unfoldable pub digits : ℕ → ℕ → Bytes
digits zero n = []
digits (suc f) n = elim (ltb n 10) [
  | true ↦ (b'0' + n) ∷ []
  | false ↦ digits f (n / 10) ++ (b'0' + n % 10) ∷ []
]

unfoldable pub to_string : ℕ → Bytes
unfolding digits
to_string n = digits (suc n) n

pub data UintError : Type 0 where
  not_decimal : UintError
  not_uint256 : UintError
  not_positive : UintError

-- `parsed.Sign() == 0`
abbrev is_zero : ℤ → Bool
is_zero (pos n) = n == 0
is_zero (negsuc _) = false

unfoldable pub parse_uint256 : Bytes → Bool → Result UintError ℕ
unfolding set_string
parse_uint256 [] allow_zero = err not_decimal
parse_uint256 (c ∷ s) allow_zero = do
  parsed ← or_err not_uint256 (set_string (c ∷ s))
  fail_if (is_neg parsed || not (fits_uint256 parsed)) not_uint256
  fail_if (not allow_zero && is_zero parsed) not_positive
  ok (abs parsed)

-- defaultZero of engine.go
unfoldable pub default_zero : Bytes → Bytes
default_zero [] = b'0' ∷ []
default_zero (c ∷ s) = c ∷ s
