-- ===== src/Ethereum.antt =====
-- What the program takes from go-ethereum: common.Hash as a number below 2 ^ 256 (32 bytes, the
-- first the most significant), the static values of accounts/abi, and Keccak-256. The package's code
-- is a parameter: the record Geth, with its documented behaviour in IsGeth.
pub mod Words
pub mod Static
use averlock.Prelude.{
  ℕ, ◌+◌, ◌*◌, ◌^◌, ◌≤◌, ◌<◌, ◌≡◌, Bool, Option, some, List, [], ◌∷◌, Bytes, length,
}

abbrev pub Hash : Type 0
Hash = ℕ

-- a value handed to or returned by abi.Arguments; `uint w n` is a `uint<w>`
pub data AbiValue : Type 0 where
  bytes32 : Hash → AbiValue
  boolean : Bool → AbiValue
  uint : ℕ → ℕ → AbiValue

pub data AbiType : Type 0 where
  bytes32_type : AbiType
  bool_type : AbiType
  uint_type : ℕ → AbiType

abbrev pub type_of : AbiValue → AbiType
type_of (bytes32 _) = bytes32_type
type_of (boolean _) = bool_type
type_of (uint w _) = uint_type w

abbrev pub types_of : List AbiValue → List AbiType
types_of [] = []
types_of (v ∷ vs) = type_of v ∷ types_of vs

-- a value that its Go type can hold
abbrev pub InRange : AbiValue → Type 0
InRange (bytes32 h) = h < 2 ^ 256
InRange (boolean _) = Unit
InRange (uint w n) = (w ≤ 256) × (n < 2 ^ w)

abbrev pub AllInRange : List AbiValue → Type 0
AllInRange [] = Unit
AllInRange (v ∷ vs) = InRange v × AllInRange vs

pub record Geth : Type 0 where
  pub pack : List AbiValue → Option Bytes
  pub unpack : List AbiType → Bytes → Option (List AbiValue)
  pub keccak : Bytes → Hash

-- accounts/abi on static types: packing values in range succeeds with one 32-byte word for each,
-- unpacking returns them, and Keccak-256 has 32 bytes.
pub record IsGeth (g : Geth) : Type 0 where
  pub packed : List AbiValue → Bytes
  pub pack_total : (vs : List AbiValue) → AllInRange vs → g.pack vs ≡ some (packed vs)
  pub length-packed : (vs : List AbiValue) → length (packed vs) ≡ 32 * length vs
  pub unpack-packed :
      (vs : List AbiValue) → AllInRange vs → g.unpack (types_of vs) (packed vs) ≡ some vs
  pub keccak-lt : (b : Bytes) → g.keccak b < 2 ^ 256
