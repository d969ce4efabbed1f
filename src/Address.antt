-- ===== src/Address.antt =====
-- ethereumAddress of internal/adapter/out/blockchain/ethereum/adapter.go, with hex.EncodeToString.
pub mod RoundTrip
pub mod Tests
use sigryx.Base.{
  ℕ, ◌+◌, ◌-◌, ◌/◌, ◌%◌, Bool, true, false, ◌&&◌, List, [], ◌∷◌, ◌++◌, ltb, leb, if◌then◌else◌,
  length, drop,
}
use sigryx.Base.Bytes.{Bytes}
use sigryx.Keccak.{keccak256}

-- A digit of encoding/hex
abbrev pub hex_digit : ℕ → ℕ
hex_digit d = if ltb d 10 then 48 + d else 87 + d

-- hex.EncodeToString
unfoldable pub encode_to_string : Bytes → Bytes
encode_to_string [] = []
encode_to_string (b ∷ bytes) = hex_digit (b / 16) ∷ hex_digit (b % 16) ∷ encode_to_string bytes

-- The nibble of the checksum for each index in turn: `checksum[i/2]`, the upper four bits where `i` is even
unfoldable pub nibbles : Bytes → List ℕ
nibbles [] = []
nibbles (b ∷ bytes) = (b / 16) ∷ (b % 16) ∷ nibbles bytes

-- The body of the loop: `strings.ToUpper` of one of the letters a to f
abbrev pub checksum_case : ℕ → ℕ → ℕ
checksum_case c nibble = if leb 48 c && leb c 57 then c else if leb 8 nibble then c - 32 else c

-- The loop over the digits of the address
unfoldable pub checksum_cases : Bytes → List ℕ → Bytes
checksum_cases [] rest = []
checksum_cases (c ∷ cs) [] = c ∷ cs
checksum_cases (c ∷ cs) (nibble ∷ rest) = checksum_case c nibble ∷ checksum_cases cs rest

-- ethereumAddress
unfoldable pub ethereum_address : Bytes → Bytes
unfolding encode_to_string nibbles checksum_cases
ethereum_address public_key =
    let digest = keccak256 (drop 1 public_key) in
    let lower = encode_to_string (drop (length digest - 20) digest) in
    48 ∷ 120 ∷ checksum_cases lower (nibbles (keccak256 lower))
