-- ===== src/Hex.antt =====
-- The texts of numbers and of bytes in internal/adapter/out/blockchain/ethereum/transaction.go: parseQuantity,
-- decodeAddress, decodeFixedHex and decodeHex, with what they use of math/big (SetString in a given
-- base) and of encoding/hex. `none` stands for an error.
pub mod Laws
pub mod Tests
use sigryx.Base.{
  ℕ, zero, suc, ◌+◌, ◌-◌, ◌*◌, ◌^◌, ◌%◌, Bool, true, false, not, ◌&&◌, ◌||◌, Option, none, some, [],
  ◌∷◌, ltb, leb, ◌==◌, if◌then◌else◌, length, drop,
}
use sigryx.Base.Bytes.{Bytes, number_bytes}

-- A digit of a base up to 36, as SetString reads it, and of base 16, as encoding/hex does
abbrev pub digit_value : ℕ → Option ℕ
digit_value c =
    if leb 48 c && leb c 57
    then some (c - 48)
    else if leb 97 c && leb c 122
    then some (c - 87)
    else if leb 65 c && leb c 90
    then some (c - 55)
    else none

abbrev pub digit : ℕ → ℕ → Option ℕ
digit base c = elim (digit_value c) [ none ↦ none | some d ↦ if ltb d base then some d else none ]

-- The digits behind the number `acc`; every byte has to be a digit.
unfoldable pub read_digits : ℕ → ℕ → Bytes → Option ℕ
read_digits base acc [] = some acc
read_digits base acc (c ∷ cs) = elim (digit base c) [
  | none ↦ none
  | some d ↦ read_digits base (acc * base + d) cs
]

-- At least one digit
unfoldable pub read_magnitude : ℕ → Bytes → Option ℕ
unfolding read_digits
read_magnitude base [] = none
read_magnitude base (c ∷ cs) = read_digits base 0 (c ∷ cs)

-- A negative number is refused, and the negative 0 is 0.
abbrev pub not_negative : Option ℕ → Option ℕ
not_negative none = none
not_negative (some n) = if n == 0 then some n else none

-- `new(big.Int).SetString(text, base)` and the test of the sign
unfoldable pub set_string : ℕ → Bytes → Option ℕ
unfolding read_magnitude
set_string base [] = none
set_string base (c ∷ cs) =
    if c == 45
    then not_negative (read_magnitude base cs)
    else if c == 43
    then read_magnitude base cs
    else read_magnitude base (c ∷ cs)

-- `strings.HasPrefix(value, "0x") || strings.HasPrefix(value, "0X")`
abbrev pub has_hex_prefix : Bytes → Bool
has_hex_prefix (a ∷ b ∷ rest) = (a == 48) && ((b == 120) || (b == 88))
has_hex_prefix _ = false

-- `n.BitLen() > 256`
abbrev pub at_most_256_bits : Option ℕ → Option ℕ
at_most_256_bits none = none
at_most_256_bits (some n) = if ltb n (2 ^ 256) then some n else none

-- parseQuantity
unfoldable pub parse_quantity : Bytes → Option ℕ
unfolding set_string
parse_quantity [] = some 0
parse_quantity value =
    if has_hex_prefix value
    then at_most_256_bits (set_string 16 (drop 2 value))
    else at_most_256_bits (set_string 10 value)

-- hex.DecodeString, of a text of even length
unfoldable pub push_pair : Option ℕ → Option ℕ → Option Bytes → Option Bytes
push_pair (some high) (some low) (some bytes) = some ((high * 16 + low) ∷ bytes)
push_pair (some high) (some low) none = none
push_pair (some high) none _ = none
push_pair none _ _ = none

unfoldable pub decode_pairs : Bytes → Option Bytes
unfolding push_pair
decode_pairs [] = some []
decode_pairs (a ∷ []) = none
decode_pairs (a ∷ b ∷ rest) = push_pair (digit 16 a) (digit 16 b) (decode_pairs rest)

-- The second half of decodeHex, behind the prefix
unfoldable pub decode_even : Bytes → Option Bytes
unfolding decode_pairs
decode_even value = if not (length value % 2 == 0) then none else decode_pairs value

-- decodeHex: the text "0x" alone gives no bytes, as the empty text does.
unfoldable pub decode_hex : Bytes → Option Bytes
unfolding decode_even
decode_hex [] = some []
decode_hex value = if has_hex_prefix value then decode_even (drop 2 value) else decode_even value

-- `len(decoded) != size`
abbrev pub of_size : ℕ → Option Bytes → Option Bytes
of_size size none = none
of_size size (some bytes) = if not (length bytes == size) then none else some bytes

-- decodeFixedHex
unfoldable pub decode_fixed_hex : Bytes → ℕ → Option Bytes
unfolding decode_hex
decode_fixed_hex value size = of_size size (decode_hex value)

-- decodeAddress
unfoldable pub decode_address : Bytes → Bool → Option Bytes
unfolding decode_fixed_hex
decode_address [] true = some []
decode_address value allow_empty = decode_fixed_hex value 20
