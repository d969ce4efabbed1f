-- ===== src/Hex/Tests.antt =====
-- Runs of the readers of texts.
use sigryx.Base.{◌≡◌, refl, none, some, [], ◌∷◌, true}
use sigryx.Base.Text.{codes}
use sigryx.Hex.{parse_quantity, decode_hex, decode_address, decode_pairs}

parse_quantity-codes : parse_quantity (codes "20000000000") ≡ some 20000000000
unfolding parse_quantity
parse_quantity-codes = refl

hexadecimal_quantity : parse_quantity (codes "0xFf") ≡ some 255
unfolding parse_quantity
hexadecimal_quantity = refl

negative_quantity : parse_quantity (codes "-1") ≡ none
unfolding parse_quantity
negative_quantity = refl

prefix_quantity : parse_quantity (codes "0x") ≡ none
unfolding parse_quantity
prefix_quantity = refl

decode_hex-codes : decode_hex (codes "0xdAC17F") ≡ some (0xda ∷ 0xc1 ∷ 0x7f ∷ [])
unfolding decode_hex decode_pairs
decode_hex-codes = refl

decode_hex-odd : decode_hex (codes "0xdAC") ≡ none
unfolding decode_hex
decode_hex-odd = refl

short_address : decode_address (codes "0xdAC1") true ≡ none
unfolding decode_address decode_pairs
short_address = refl
