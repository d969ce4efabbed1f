-- ===== src/Keccak/Tests.antt =====
-- The digest of no bytes, as internal/adapter/out/blockchain/ethereum/keccak_test.go has it.
use sigryx.Base.{◌≡◌, refl, some, []}
use sigryx.Base.Text.{codes}
use sigryx.Hex.{decode_hex, decode_pairs}
use sigryx.Keccak.{keccak256}

keccak256-nil :
    decode_hex (codes "c5d2460186f7233c927e7db2dcc703c0e500b653ca82273b7bfad8045d85a470")
    ≡ some (keccak256 [])
unfolding keccak256 decode_hex decode_pairs
keccak256-nil = refl
