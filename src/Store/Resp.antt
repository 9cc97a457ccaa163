-- ===== src/Store/Resp.antt =====
-- The wire format of the Redis client: redisStore.doConn of
-- packages/fcc-extension/go/internal/extension/state_store.go.
pub mod Framing
pub mod Reply
mod Tests
use averlock.Text.{trim_left}
use averlock.Prelude.{
  ℕ, zero, suc, ◌+◌, ◌-◌, ◌*◌, ◌%◌, ◌^◌, Bool, true, false, ◌&&◌, ◌||◌, Option, none, some, List,
  [], ◌∷◌, ◌++◌, Bytes, length, take, ltb, leb, ◌==◌, if◌then◌else◌, Result, ok, err, ℤ, pos,
  negsuc,
}
use averlock.Uint256.{to_string, negate}
use averlock.Store.{
  StoreError, connection_failed, command_failed, invalid_response, bad_bulk_length, make_panics,
}

abbrev pub crlf : Bytes
crlf = 13 ∷ 10 ∷ []

-- `fmt.Fprintf(c, "$%d\r\n%s\r\n", len(x), x)`
unfoldable pub bulk : Bytes → Bytes
bulk x = b'$' ∷ (to_string (length x) ++ (crlf ++ (x ++ crlf)))

unfoldable pub bulks : List Bytes → Bytes
unfolding bulk
bulks [] = []
bulks (x ∷ xs) = bulk x ++ bulks xs

-- what is written for a command
unfoldable pub command : List Bytes → Bytes
command args = b'*' ∷ (to_string (length args) ++ (crlf ++ bulks args))

-- `r.ReadString('\n')`: the line with its end, and the rest; `none` if the stream ends before
unfoldable pub read_line : Bytes → Option (Bytes × Bytes)
read_line [] = none
read_line (c ∷ s) =
    let rest = read_line s in
    if c == 10
    then some (c ∷ [], s)
    else elim rest [ none ↦ none | some (line, more) ↦ some (c ∷ line, more) ]

abbrev pub is_digit : ℕ → Bool
is_digit c = leb b'0' c && leb c b'9'

-- the number of the digits at the front of a text
unfoldable pub digit_run : Bytes → ℕ → ℕ
digit_run [] n = n
digit_run (c ∷ s) n = let more = digit_run s (n * 10 + (c - b'0')) in if is_digit c then more else n

unfoldable pub scan_digits : Bytes → Option ℕ
unfolding digit_run
scan_digits [] = none
scan_digits (c ∷ s) = if is_digit c then some (digit_run (c ∷ s) 0) else none

-- an int is 64 bits wide
in_int64 : Bool → Option ℕ → Option ℤ
in_int64 neg none = none
in_int64 true (some n) = if leb n (2 ^ 63) then some (negate n) else none
in_int64 false (some n) = if ltb n (2 ^ 63) then some (pos n) else none

signed_int : Bytes → Option ℤ
unfolding in_int64 scan_digits
signed_int [] = none
signed_int (c ∷ s) =
    if c == b'-'
    then in_int64 true (scan_digits s)
    else if c == b'+'
    then in_int64 false (scan_digits s)
    else in_int64 false (scan_digits (c ∷ s))

-- `fmt.Sscanf(line, "$%d", &n)`, behind the `$`; Sscanf skips the white space that TrimSpace removes, and
-- a newline, which it refuses, ends the line
unfoldable pub scan_length : Bytes → Option ℤ
unfolding signed_int
scan_length s = signed_int (trim_left s)

-- the most bytes that make allocates on the 64-bit platforms; beyond that, and for a negative length,
-- it panics
abbrev pub max_alloc : ℕ
max_alloc = 2 ^ 48

-- what follows the length of a bulk string: `n + 2` bytes, an int sum that wraps, of which the first
-- `n` are returned. A negative sum is 2 ^ 63 or more as an unsigned number, as make compares it.
unfoldable pub read_bulk : Option ℤ → Bytes → Result StoreError Bytes
read_bulk none rest = err bad_bulk_length
read_bulk (some (negsuc n)) rest = ok []
read_bulk (some (pos n)) rest =
    if ltb max_alloc ((n + 2) % 2 ^ 64)
    then err make_panics
    else if ltb (length rest) (n + 2)
    then err connection_failed
    else ok (take n rest)

-- the switch on the first byte
unfoldable pub reply_of : Bytes → Bytes → Result StoreError Bytes
unfolding scan_length read_bulk
reply_of [] rest = err connection_failed
reply_of (c ∷ line) rest =
    if c == b'$'
    then read_bulk (scan_length line) rest
    else if c == b'+'
    then ok []
    else if c == b'-'
    then err command_failed
    else err invalid_response

-- from the stream that answers a command
unfoldable pub parse_reply : Bytes → Result StoreError Bytes
unfolding read_line reply_of
parse_reply stream = elim (read_line stream) [
  | none ↦ err connection_failed
  | some (line, rest) ↦ reply_of line rest
]
