-- ===== src/Uint256/Parse.antt =====
-- What parse_uint256 accepts.
use averlock.Prelude.{
  ℕ, ◌+◌, ◌-◌, ◌*◌, ◌≤◌, ◌<◌, ◌≡◌, refl, ◌↔◌, inl, inr, Bool, true, false, ◌||◌, some, [], ◌∷◌,
  Bytes, arith, ok, ◌==◌, if◌then◌else◌, Option-cases,
}
use averlock.Uint256.{uint256_size, scan, scan_nat, parse_uint256}

abbrev pub IsDigit : ℕ → Type 0
IsDigit c = (b'0' ≤ c) × (c ≤ b'9')

abbrev pub AreDigits : Bytes → Type 0
AreDigits [] = Unit
AreDigits (c ∷ s) = IsDigit c × AreDigits s

-- the number that digits spell behind `n`
abbrev pub value : ℕ → Bytes → ℕ
value n [] = n
value n (c ∷ s) = value (n * 10 + (c - b'0')) s

-- one or more decimal digits that spell `n`
abbrev pub Spells : Bytes → ℕ → Type 0
Spells [] n = ⊥
Spells (c ∷ s) n = IsDigit c × AreDigits s × (n ≡ value 0 (c ∷ s))

-- the text behind an optional sign
abbrev pub body : Bytes → Bytes
body [] = []
body (c ∷ s) = if c == b'-' || c == b'+' then s else c ∷ s

abbrev pub has_minus : Bytes → Bool
has_minus [] = false
has_minus (c ∷ s) = c == b'-'

scan_sound : (s : Bytes) (n : ℕ) {r : ℕ} → scan s n ≡ some r → AreDigits s × (r ≡ value n s)
unfolding scan
scan_sound [] n h = ground arith
scan_sound (c ∷ s) n {r} h = ground (arith, scan_sound s (n * 10 + (c - b'0')) {r = r})

scan_complete : (s : Bytes) (n : ℕ) → AreDigits s → scan s n ≡ some (value n s)
unfolding scan
scan_complete [] n h = refl
scan_complete (c ∷ s) n h = ground (arith, scan_complete s (n * 10 + (c - b'0')) h.1)

scan_nat_sound : (s : Bytes) {n : ℕ} → scan_nat s ≡ some n → Spells s n
unfolding scan_nat
scan_nat_sound [] h = cc
scan_nat_sound (c ∷ s) h =
    let (digits, spelled) = scan_sound (c ∷ s) 0 h in (digits.0, digits.1, spelled)

scan_nat_complete : (s : Bytes) {n : ℕ} → Spells s n → scan_nat s ≡ some n
unfolding scan_nat
scan_nat_complete [] h = elim h [ ]
scan_nat_complete (c ∷ s) h = rw h.2 (scan_complete (c ∷ s) 0 (h.0, h.1))

-- the test of the first byte for a sign
abbrev pub Accepts : Bool → Bytes → ℕ → Type 0
Accepts allow_zero s n =
    Spells (body s) n
    × (n < uint256_size)
    × (has_minus s ≡ true → n ≡ 0)
    × (allow_zero ≡ false → 0 < n)

sound : (s : Bytes) (z : Bool) {n : ℕ} → parse_uint256 s z ≡ ok n → Accepts z s n
unfolding parse_uint256
sound [] z h = cc
sound (c ∷ s) z {n} h = elim (Option-cases (scan_nat (body (c ∷ s)))) [
  | inl e ↦ ground arith
  | inr (m, e) ↦ ground (arith, scan_nat_sound (body (c ∷ s)) {n = m} e)
]

complete : (s : Bytes) (z : Bool) {n : ℕ} → Accepts z s n → parse_uint256 s z ≡ ok n
unfolding parse_uint256
complete [] z h = elim h.0 [ ]
complete (c ∷ s) z {n} h = ground (arith, scan_nat_complete (body (c ∷ s)) {n = n} h.0)

-- parse_uint256 returns `n` exactly when the text is an optional sign followed by one or more
-- decimal digits that spell `n`, `n` is below 2 ^ 256, a minus sign stands only before a zero, and
-- zero is allowed if `n` is zero.
pub parse_uint256_iff :
    (s : Bytes) (allow_zero : Bool) (n : ℕ)
    → (parse_uint256 s allow_zero ≡ ok n) ↔ Accepts allow_zero s n
parse_uint256_iff s allow_zero n = (sound s allow_zero, complete s allow_zero)
