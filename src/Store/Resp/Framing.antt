-- ===== src/Store/Resp/Framing.antt =====
-- A reader of the Redis protocol, for the commands that doConn writes.
use averlock.Prelude.{
  ℕ, zero, suc, ◌+◌, ◌-◌, ◌*◌, ◌/◌, ◌%◌, ◌<◌, ◌≡◌, refl, ap, ◌∙◌, Option, none, some, List, [], ◌∷◌,
  ◌++◌, Bytes, length, length-append, take, drop, take-append, drop-append, drop-drop, ltb, ◌==◌,
  ◌&&◌, if◌then◌else◌, arith,
}
use native.Mathlib.Decide.{dec_lt}
use mathlib.Core.List.{append_assoc}
use averlock.Uint256.{digits, to_string}
use averlock.Uint256.RoundTrip.{digits_one, digits_more}
use averlock.Store.Resp.{crlf, bulk, bulks, command, is_digit}

-- A reader of the protocol's arrays of bulk strings, by its specification: a decimal number ended by
-- CRLF, and bytes that are counted.
unfoldable pub read_number : Bytes → ℕ → Option (ℕ × Bytes)
read_number [] n = none
read_number (c ∷ s) n =
    let more = read_number s (n * 10 + (c - b'0')) in
    if is_digit c
    then more
    else elim s [ [] ↦ none | d ∷ rest ↦ if c == 13 && d == 10 then some (n, rest) else none ]

unfoldable pub take_bulk : Option (ℕ × Bytes) → Option (Bytes × Bytes)
take_bulk none = none
take_bulk (some (n, rest)) =
    if ltb (length rest) (n + 2) then none else some (take n rest, drop (n + 2) rest)

unfoldable pub read_one : Bytes → Option (Bytes × Bytes)
unfolding take_bulk
read_one [] = none
read_one (c ∷ s) = if c == b'$' then take_bulk (read_number s 0) else none

unfoldable pub read_args : ℕ → Bytes → Option (List Bytes × Bytes)
unfolding read_one
read_args zero s = some ([], s)
read_args (suc n) s = elim (read_one s) [
  | none ↦ none
  | some (x, rest) ↦ elim (read_args n rest) [
    | none ↦ none
    | some (xs, rest') ↦ some (x ∷ xs, rest')
  ]
]

unfoldable pub read_command : Bytes → Option (List Bytes × Bytes)
unfolding read_args read_number
read_command [] = none
read_command (c ∷ s) =
    if c == b'*'
    then elim (read_number s 0) [ none ↦ none | some (n, rest) ↦ read_args n rest ]
    else none

read_number_digit :
    (d : ℕ) (rest : Bytes) (n : ℕ)
    → d < 10
    → read_number ((b'0' + d) ∷ rest) n ≡ read_number rest (n * 10 + d)
unfolding read_number
read_number_digit d rest n h = ground arith

read_number-digits :
    (f n : ℕ) (rest : Bytes) → n < f → read_number (digits f n ++ rest) 0 ≡ read_number rest n
read_number-digits zero n rest h = elim h [ ]
read_number-digits (suc f) n rest h = elim (dec_lt n 10) [
  | yes one ↦
      rw (digits_one f n one) (read_number_digit n rest 0 one ∙ ap (read_number rest) (omega arith))
  | no more ↦
      rw (digits_more f n (omega arith), append_assoc)
        (read_number-digits f (n / 10) _ (omega arith)
          ∙ read_number_digit (n % 10) rest (n / 10) (omega arith)
          ∙ ap (read_number rest) (omega arith))
]

read_number_end : (n : ℕ) (rest : Bytes) → read_number (13 ∷ 10 ∷ rest) n ≡ some (n, rest)
unfolding read_number
read_number_end n rest = refl

read_number-to_string :
    (n : ℕ) (rest : Bytes) → read_number (to_string n ++ (13 ∷ 10 ∷ rest)) 0 ≡ some (n, rest)
unfolding to_string
read_number-to_string n rest =
    read_number-digits (suc n) n (13 ∷ 10 ∷ rest) (omega arith) ∙ read_number_end n rest

-- a number, its end, and what a list goes on with
read_number-front :
    (n : ℕ) (s rest : Bytes)
    → read_number ((to_string n ++ (crlf ++ s)) ++ rest) 0 ≡ some (n, s ++ rest)
read_number-front n s rest = rw append_assoc (read_number-to_string n (s ++ rest))

take_bulk-append :
    (x rest : Bytes) → take_bulk (some (length x, (x ++ crlf) ++ rest)) ≡ some (x, rest)
unfolding take_bulk
take_bulk-append x rest =
    let size = length-append x (crlf ++ rest) in
    let front = take-append x (crlf ++ rest) (length x) refl in
    let back = drop-drop (length x) 2 (x ++ (crlf ++ rest)) in
    let behind = drop-append x (crlf ++ rest) (length x) refl in
    rw append_assoc (ground (arith, size, front, back, behind))

read_one-bulk : (x rest : Bytes) → read_one (bulk x ++ rest) ≡ some (x, rest)
unfolding read_one bulk
read_one-bulk x rest =
    ap take_bulk (read_number-front (length x) (x ++ crlf) rest) ∙ take_bulk-append x rest

read_args-bulks :
    (xs : List Bytes) (rest : Bytes) → read_args (length xs) (bulks xs ++ rest) ≡ some (xs, rest)
unfolding read_args bulks
read_args-bulks [] rest = refl
read_args-bulks (x ∷ xs) rest =
    let split : (bulk x ++ bulks xs) ++ rest ≡ bulk x ++ (bulks xs ++ rest) =
      append_assoc (bulk x) (bulks xs) rest in
    ap (read_args (suc (length xs))) split
    ∙ ground (arith, read_one-bulk x (bulks xs ++ rest), read_args-bulks xs rest)

-- Every command is framed so that the protocol's reader reads exactly its arguments, whatever bytes
-- they hold, and stops at the end of the command.
pub read_command-command :
    (args : List Bytes) (rest : Bytes) → read_command (command args ++ rest) ≡ some (args, rest)
unfolding read_command command
read_command-command args rest =
    ground (arith, read_number-front (length args) (bulks args) rest, read_args-bulks args rest)
