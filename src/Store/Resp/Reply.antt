-- ===== src/Store/Resp/Reply.antt =====
-- What doConn makes of a reply.
use averlock.Prelude.{
  ℕ, zero, suc, ◌+◌, ◌*◌, ◌/◌, ◌%◌, ◌^◌, ◌≤◌, ◌<◌, ◌≡◌, refl, ap, ◌∙◌, some, [], ◌∷◌, ◌++◌, Bytes,
  length, length-append, take-append, arith, ok, pos,
}
use native.Mathlib.Decide.{dec_lt}
use mathlib.Core.List.{append_assoc}
use averlock.Text.{trim_left-kept}
use averlock.Uint256.{digits, to_string}
use averlock.Uint256.RoundTrip.{digits_one, digits_more, StartsWithDigit, to_string-StartsWithDigit}
use averlock.Store.Resp.{
  crlf, bulk, read_line, digit_run, scan_length, read_bulk, reply_of, parse_reply,
}

-- no byte is a newline
OneLine : Bytes → Type 0
OneLine [] = Unit
OneLine (c ∷ s) = (10 < c) × OneLine s

OneLine-append : (xs ys : Bytes) → OneLine xs → OneLine ys → OneLine (xs ++ ys)
unfolding OneLine
OneLine-append [] ys p q = q
OneLine-append (x ∷ xs) ys p q = (p.0, OneLine-append xs ys p.1 q)

digits-OneLine : (f n : ℕ) → OneLine (digits f n)
unfolding digits OneLine
digits-OneLine zero n = tt
digits-OneLine (suc f) n = elim (dec_lt n 10) [
  | yes one ↦ rw (digits_one f n one) (omega arith, tt)
  | no more ↦ rw (digits_more f n (omega arith)) (
      OneLine-append (digits f (n / 10)) ((b'0' + n % 10) ∷ []) (digits-OneLine f (n / 10))
        (omega arith, tt))
]

read_line-append :
    (s rest : Bytes)
    → OneLine s
    → read_line (s ++ (13 ∷ 10 ∷ rest)) ≡ some (s ++ (13 ∷ 10 ∷ []), rest)
unfolding read_line OneLine
read_line-append [] rest h = refl
read_line-append (c ∷ s) rest h = ground (arith, read_line-append s rest h.1)

run-digit :
    (d : ℕ) (rest : Bytes) (n : ℕ)
    → d < 10
    → digit_run ((b'0' + d) ∷ rest) n ≡ digit_run rest (n * 10 + d)
unfolding digit_run
run-digit d rest n h = ground arith

run-digits : (f n : ℕ) (rest : Bytes) → n < f → digit_run (digits f n ++ rest) 0 ≡ digit_run rest n
run-digits zero n rest h = elim h [ ]
run-digits (suc f) n rest h = elim (dec_lt n 10) [
  | yes one ↦ rw (digits_one f n one) (run-digit n rest 0 one ∙ ap (digit_run rest) (omega arith))
  | no more ↦
      rw (digits_more f n (omega arith), append_assoc)
        (run-digits f (n / 10) _ (omega arith)
          ∙ run-digit (n % 10) rest (n / 10) (omega arith)
          ∙ ap (digit_run rest) (omega arith))
]

run_end : (n : ℕ) → digit_run crlf n ≡ n
unfolding digit_run
run_end n = refl

run-to_string : (n : ℕ) → digit_run (to_string n ++ crlf) 0 ≡ n
unfolding to_string
run-to_string n = run-digits (suc n) n crlf (omega arith) ∙ run_end n

-- a text that starts with a digit is scanned as its digits
scan_front :
    (c : ℕ) (s : Bytes) (n : ℕ)
    → (b'0' ≤ c) × (c ≤ b'9')
    → digit_run (c ∷ s) 0 ≡ n
    → n < 2 ^ 63
    → scan_length (c ∷ s) ≡ some (pos n)
unfolding scan_length
scan_front c s n d h fits =
    ground (arith, trim_left-kept c s (omega arith) (omega arith), d, h, fits)

scan_length-to_string : (n : ℕ) → n < 2 ^ 63 → scan_length (to_string n ++ crlf) ≡ some (pos n)
unfolding StartsWithDigit
scan_length-to_string n fits =
    let (c, r, e, d) = to_string-StartsWithDigit n in
    rw e (scan_front c (r ++ crlf) n d (rw e at (run-to_string n)) fits)

bulk-line :
    (v rest : Bytes)
    → read_line (bulk v ++ rest) ≡ some (b'$' ∷ (to_string (length v) ++ crlf), (v ++ crlf) ++ rest)
unfolding bulk
bulk-line v rest =
    let t = to_string (length v) in
    ap (λ s. read_line (b'$' ∷ s)) (append_assoc t (crlf ++ (v ++ crlf)) rest)
    ∙ read_line-append (b'$' ∷ t) ((v ++ crlf) ++ rest)
        (unfold OneLine to_string in (omega arith, digits-OneLine (suc (length v)) (length v)))

bulk-body :
    (v rest : Bytes)
    → length v + 2 ≤ 2 ^ 48
    → read_bulk (some (pos (length v))) ((v ++ crlf) ++ rest) ≡ ok v
unfolding read_bulk
bulk-body v rest fits =
    let size = length-append v (crlf ++ rest) in
    let front = take-append v (crlf ++ rest) (length v) refl in
    rw append_assoc (ground (arith, size, front, fits))

-- A value that is sent as a bulk string, and that the client can allocate with the two bytes behind it
-- (2 ^ 48 bytes in all), is received as it is, whatever bytes it holds and whatever follows.
pub parse_reply-bulk :
    (v rest : Bytes) → length v + 2 ≤ 2 ^ 48 → parse_reply (bulk v ++ rest) ≡ ok v
unfolding parse_reply reply_of
parse_reply-bulk v rest fits =
    ground (
      arith,
      bulk-line v rest,
      scan_length-to_string (length v) (omega arith),
      bulk-body v rest fits,
    )
