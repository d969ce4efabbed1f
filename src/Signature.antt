-- ===== src/Signature.antt =====
-- The encodings of a signature in pkg/hdwallet/signature.go: Compact, Ethereum and their parsers. `none`
-- stands for ErrInvalidSignature.
pub mod Encodings
pub mod Tests
use sigryx.Base.{
  ℕ, ◌+◌, ◌-◌, ◌%◌, ◌≡◌, Bool, true, false, not, ◌&&◌, ◌||◌, Option, none, some, List, [], ◌∷◌,
  ◌++◌, ltb, ◌==◌, if◌then◌else◌, length, take, drop,
}
use sigryx.Base.Bytes.{Bytes, to_number}
use sigryx.Scalar.{curve_n_bytes}

-- Signature
pub record Signature : Type 0 where
  pub r : Bytes
  pub s : Bytes
  pub recovery_id : ℕ

-- Compact
unfoldable pub compact : Signature → Bytes
compact sig = sig.r ++ sig.s

-- Ethereum
unfoldable pub ethereum : Signature → Bytes
ethereum sig = sig.r ++ (sig.s ++ ((sig.recovery_id + 27) % 256 ∷ []))

-- validSignatureScalar
abbrev pub valid_signature_scalar : Bytes → Bool
valid_signature_scalar value =
    (length value == 32)
    && (ltb 0 (to_number value) && ltb (to_number value) (to_number curve_n_bytes))

-- ParseCompactSignature
unfoldable pub parse_compact_signature : Bytes → Option Signature
parse_compact_signature raw =
    if not (length raw == 64)
    then none
    else if not (valid_signature_scalar (take 32 raw)) || not (valid_signature_scalar (drop 32 raw))
    then none
    else some (record { r = take 32 raw; s = drop 32 raw; recovery_id = 0 })

-- The switch of ParseEthereumSignature on the last byte
unfoldable pub with_recovery : Bytes → Option Signature → Option Signature
with_recovery last none = none
with_recovery [] (some sig) = none
with_recovery (v ∷ bytes) (some sig) =
    if (v == 0) || (v == 1)
    then some (record sig { recovery_id = v })
    else if (v == 27) || (v == 28)
    then some (record sig { recovery_id = v - 27 })
    else none

-- ParseEthereumSignature
unfoldable pub parse_ethereum_signature : Bytes → Option Signature
unfolding parse_compact_signature with_recovery
parse_ethereum_signature raw =
    if not (length raw == 65)
    then none
    else with_recovery (drop 64 raw) (parse_compact_signature (take 64 raw))
