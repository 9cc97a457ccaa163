-- ===== src/Ethereum/Static.antt =====
-- A concrete packing of static values, one big-endian word for each, that meets IsGeth. It is not
-- code of the program: it shows that the assumptions can hold, and it runs in tests.
use averlock.Prelude.{
  ℕ, ◌*◌, ◌%◌, ◌^◌, ◌≤◌, ◌<◌, ◌≡◌, refl, true, false, Option, none, some, List, [], ◌∷◌, ◌++◌,
  Bytes, length, length-append, take-append, drop-append, take, drop, arith, ◌==◌, if◌then◌else◌,
  ltb,
}
use native.Mathlib.Nat.{le_trans, pow-le-pow_right}
use averlock.Ethereum.{
  Hash, AbiValue, bytes32, boolean, uint, AbiType, bytes32_type, bool_type, uint_type, type_of,
  types_of, InRange, AllInRange, Geth, IsGeth,
}
use averlock.Ethereum.Words.{of_bytes, to_bytes, length-to_bytes, of_bytes-to_bytes, bytes_size}

unfoldable pub word : AbiValue → ℕ
word (bytes32 h) = h
word (boolean b) = if b then 1 else 0
word (uint w n) = n

unfoldable pub pack_words : List AbiValue → Bytes
pack_words [] = []
pack_words (v ∷ vs) = to_bytes 32 (word v) ++ pack_words vs

unfoldable pub read : AbiType → ℕ → Option AbiValue
read bytes32_type n = some (bytes32 n)
read bool_type n =
    if n == 0 then some (boolean false) else if n == 1 then some (boolean true) else none
read (uint_type w) n = if ltb n (2 ^ w) then some (uint w n) else none

abbrev cons? : Option AbiValue → Option (List AbiValue) → Option (List AbiValue)
cons? (some v) (some vs) = some (v ∷ vs)
cons? _ _ = none

unfoldable pub unpack_words : List AbiType → Bytes → Option (List AbiValue)
unpack_words [] bs = some []
unpack_words (t ∷ ts) bs =
    if ltb (length bs) 32
    then none
    else cons? (read t (of_bytes (take 32 bs))) (unpack_words ts (drop 32 bs))

length-pack_words : (vs : List AbiValue) → length (pack_words vs) ≡ 32 * length vs
unfolding pack_words
length-pack_words [] = refl
length-pack_words (v ∷ vs) = omega (
  arith,
  length-append {0} (to_bytes 32 (word v)) (pack_words vs),
  length-to_bytes 32 (word v),
  length-pack_words vs,
)

pow_bound : (w n : ℕ) → w ≤ 256 → n < 2 ^ w → n < 2 ^ 256
pow_bound w n h lt = le_trans lt (pow-le-pow_right (omega arith) h)

word-lt : (v : AbiValue) → InRange v → word v < bytes_size 32
unfolding word bytes_size
word-lt (bytes32 h) lt = lt
word-lt (boolean b) lt = ground arith
word-lt (uint w n) lt = pow_bound w n lt.0 lt.1

read-word : (v : AbiValue) → InRange v → read (type_of v) (word v) ≡ some v
unfolding read word
read-word (bytes32 h) lt = refl
read-word (boolean true) lt = refl
read-word (boolean false) lt = refl
read-word (uint w n) lt = ground arith

unpack_step :
    (t : AbiType) (ts : List AbiType) (w rest : Bytes)
    → length w ≡ 32
    → unpack_words (t ∷ ts) (w ++ rest) ≡ cons? (read t (of_bytes w)) (unpack_words ts rest)
unfolding unpack_words
unpack_step t ts w rest e =
    rw (take-append w rest 32 e, drop-append w rest 32 e) (ground (arith, length-append w rest))

unpack-pack :
    (vs : List AbiValue) → AllInRange vs → unpack_words (types_of vs) (pack_words vs) ≡ some vs
unfolding pack_words
unpack-pack [] h = unfold unpack_words in refl
unpack-pack (v ∷ vs) (hv, hvs) =
    let n = word v in
    rw
      (
        unpack_step (type_of v) (types_of vs) (to_bytes 32 n) (pack_words vs)
            (length-to_bytes 32 n),
        of_bytes-to_bytes 32 n (word-lt v hv),
        read-word v hv,
        unpack-pack vs hvs,
      )
      refl

-- Not a hash function, but of the right range: the bytes as a number, cut to 32 bytes.
unfoldable pub fold_hash : Bytes → Hash
unfolding of_bytes
fold_hash bs = of_bytes bs % 2 ^ 256

abbrev pub words : Geth
words = record { pack = λ vs. some (pack_words vs); unpack = unpack_words; keccak = fold_hash }

fold_hash-lt : (bs : Bytes) → fold_hash bs < 2 ^ 256
unfolding fold_hash
fold_hash-lt bs = omega arith

pub words-IsGeth : IsGeth words
words-IsGeth = record {
  packed = pack_words;
  pack_total = λ vs h. refl;
  length-packed = length-pack_words;
  unpack-packed = unpack-pack;
  keccak-lt = fold_hash-lt;
}
