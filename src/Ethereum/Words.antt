-- ===== src/Ethereum/Words.antt =====
-- Big-endian words: big.Int's SetBytes and FillBytes, and common.BytesToHash of 32 bytes.
use averlock.Prelude.{
  ℕ, zero, suc, ◌+◌, ◌*◌, ◌/◌, ◌%◌, ◌<◌, ◌≡◌, refl, ◌∙◌, ap, [], ◌∷◌, ◌++◌, Bytes, length,
  length-append, arith,
}
use mathlib.Core.List.{append_assoc, append-nil}

of_bytes_from : ℕ → Bytes → ℕ
of_bytes_from n [] = n
of_bytes_from n (b ∷ bs) = of_bytes_from (n * 256 + b) bs

-- `new(big.Int).SetBytes(bs)`
unfoldable pub of_bytes : Bytes → ℕ
unfolding of_bytes_from
of_bytes bs = of_bytes_from 0 bs

-- the last `k` bytes of a number
unfoldable pub to_bytes : ℕ → ℕ → Bytes
to_bytes zero n = []
to_bytes (suc k) n = to_bytes k (n / 256) ++ (n % 256) ∷ []

-- 256 ^ k, as a recursion
unfoldable pub bytes_size : ℕ → ℕ
bytes_size zero = 1
bytes_size (suc k) = bytes_size k * 256

pub length-to_bytes : (k n : ℕ) → length (to_bytes k n) ≡ k
unfolding to_bytes
length-to_bytes zero n = refl
length-to_bytes (suc k) n =
    length-append (to_bytes k (n / 256)) (n % 256 ∷ []) ∙ omega (arith, length-to_bytes k (n / 256))

of_bytes_from-to_bytes :
    (k n : ℕ) (rest : Bytes)
    → n < bytes_size k
    → of_bytes_from 0 (to_bytes k n ++ rest) ≡ of_bytes_from n rest
unfolding of_bytes_from to_bytes bytes_size
of_bytes_from-to_bytes zero n rest h = ap (λ m. of_bytes_from m rest) (omega arith)
of_bytes_from-to_bytes (suc k) n rest h = rw append_assoc (
    of_bytes_from-to_bytes k (n / 256) (n % 256 ∷ rest) (omega arith)
    ∙ ap (λ m. of_bytes_from m rest) (omega arith))

-- A number that fits is read back from its bytes.
pub of_bytes-to_bytes : (k n : ℕ) → n < bytes_size k → of_bytes (to_bytes k n) ≡ n
unfolding of_bytes of_bytes_from
of_bytes-to_bytes k n h = rw (← append-nil (to_bytes k n)) (of_bytes_from-to_bytes k n [] h)

abbrev pub AreBytes : Bytes → Type 0
AreBytes [] = Unit
AreBytes (b ∷ bs) = (b < 256) × AreBytes bs

of_bytes_from-lt :
    (bs : Bytes) (n m : ℕ) → AreBytes bs → n < m → of_bytes_from n bs < m * bytes_size (length bs)
unfolding of_bytes_from bytes_size
of_bytes_from-lt [] n m h lt = omega arith
of_bytes_from-lt (b ∷ bs) n m h lt =
    let ih = of_bytes_from-lt bs (n * 256 + b) (m * 256) h.1 (omega arith) in
    let e : m * 256 * bytes_size (length bs) ≡ m * (bytes_size (length bs) * 256) = omega arith in
    rw e at ih

-- A number read from `k` bytes is below 256 ^ k.
pub of_bytes-lt : (bs : Bytes) → AreBytes bs → of_bytes bs < bytes_size (length bs)
unfolding of_bytes
of_bytes-lt bs h = omega (arith, of_bytes_from-lt bs 0 1 h (omega arith))
