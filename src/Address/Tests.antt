-- ===== src/Address/Tests.antt =====
-- The address of the public key of the private key 1, in the letters of its checksum.
use sigryx.Base.{◌≡◌, refl, true, some, ◌∷◌, ◌++◌, drop}
use sigryx.Base.Bytes.{Bytes, fill_bytes}
use sigryx.Base.Text.{codes}
use sigryx.Hex.{decode_address}
use sigryx.Keccak.{keccak256}
use sigryx.Curve.{curve_gx, curve_gy}
use sigryx.Address.{ethereum_address}
use sigryx.Address.RoundTrip.{decode_address-ethereum_address}

abbrev generator_key : Bytes
generator_key = 0x04 ∷ (fill_bytes 32 curve_gx ++ fill_bytes 32 curve_gy)

ethereum_address-generator_key :
    ethereum_address generator_key ≡ codes "0x7E5F4552091A69125d5DfCb7b8C2659029395Bdf"
unfolding ethereum_address keccak256 fill_bytes
ethereum_address-generator_key = refl

decode_address-ethereum_address_example :
    decode_address (ethereum_address generator_key) true
    ≡ some (drop 12 (keccak256 (drop 1 generator_key)))
decode_address-ethereum_address_example = decode_address-ethereum_address generator_key
