-- ===== src/Scalar.antt =====
-- pkg/hdwallet/hdwallet.go: the private keys of secp256k1 as 32 bytes, validPrivateKey and addScalarsModN.
-- A loop from the last byte to the first is a recursion that takes the bytes behind first; `byte(v)` and
-- `v >> 8` are the remainder and the quotient by 256.
pub mod Bytewise
pub mod Sums
pub mod Fill
pub mod Modular
pub mod Tests
use sigryx.Base.{
  ℕ, ◌+◌, ◌-◌, ◌*◌, ◌/◌, ◌%◌, ◌≡◌, Bool, true, false, not, ◌&&◌, ◌||◌, List, [], ◌∷◌, ◌++◌, ltb,
  ◌==◌, if◌then◌else◌, length, replicate,
}
use sigryx.Base.Bytes.{Bytes}

-- curveNBytes
abbrev pub curve_n_bytes : Bytes
curve_n_bytes =
    replicate 15 0xff
    ++ (0xfe ∷ 0xba ∷ 0xae ∷ 0xdc ∷ 0xe6 ∷ 0xaf ∷ 0x48 ∷ 0xa0 ∷ 0x3b ∷ 0xbf ∷ 0xd2 ∷ 0x5e ∷ 0x8c
        ∷ 0xd0 ∷ 0x36 ∷ 0x41 ∷ 0x41 ∷ [])

-- The loop that looks for a byte that is not 0
unfoldable pub non_zero : Bytes → Bool
non_zero [] = false
non_zero (b ∷ bs) = let rest = non_zero bs in if b == 0 then rest else true

-- The loops that compare two byte strings from the first byte on, with the answer for equal ones
unfoldable pub compare_bytes : Bool → Bool → Bytes → Bytes → Bool
compare_bytes smaller same [] ys = same
compare_bytes smaller same (x ∷ xs) [] = same
compare_bytes smaller same (x ∷ xs) (y ∷ ys) =
    let rest = compare_bytes smaller same xs ys in
    if ltb x y then smaller else if ltb y x then not smaller else rest

-- validPrivateKey
unfoldable pub valid_private_key : Bytes → Bool
unfolding non_zero compare_bytes
valid_private_key key =
    if not (length key == 32)
    then false
    else if not (non_zero key)
    then false
    else compare_bytes true false key curve_n_bytes

-- The loop of addScalarsModN: the sum and the last carry
unfoldable pub add_bytes : Bytes → Bytes → Bytes × ℕ
add_bytes [] ys = ([], 0)
add_bytes (x ∷ xs) [] = ([], 0)
add_bytes (x ∷ xs) (y ∷ ys) =
    let (sum, carry) = add_bytes xs ys in ((x + y + carry) % 256 ∷ sum, (x + y + carry) / 256)

-- The loop that subtracts: the difference and the last borrow
unfoldable pub subtract_bytes : Bytes → Bytes → Bytes × ℕ
subtract_bytes [] ys = ([], 0)
subtract_bytes (x ∷ xs) [] = ([], 0)
subtract_bytes (x ∷ xs) (y ∷ ys) =
    let (difference, borrow) = subtract_bytes xs ys in
    if ltb x (y + borrow)
    then ((x + 256 - (y + borrow)) ∷ difference, 1)
    else ((x - (y + borrow)) ∷ difference, 0)

-- scalar33AtLeastN, on the first byte and the others
unfoldable pub scalar33_at_least_n : ℕ → Bytes → Bool
unfolding compare_bytes
scalar33_at_least_n top bytes =
    if not (top == 0) then true else compare_bytes false true bytes curve_n_bytes

-- addScalarsModN. The byte in front of the sum is not part of the result.
unfoldable pub add_scalars_mod_n : Bytes → Bytes → Bytes
unfolding add_bytes subtract_bytes scalar33_at_least_n
add_scalars_mod_n a b =
    let (sum, carry) = add_bytes a b in
    if scalar33_at_least_n (carry % 256) sum then (subtract_bytes sum curve_n_bytes).0 else sum
