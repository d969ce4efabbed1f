-- ===== src/Curve.antt =====
-- The arithmetic of secp256k1 in pkg/hdwallet/hdwallet.go and pkg/hdwallet/signature.go: curvePoint and the functions
-- on it. A difference modulo p is written with the p that Go's `Mod` adds to a negative number.
pub mod Bounds
pub mod Inverse
pub mod Complete
pub mod Tests
use sigryx.Base.{
  ℕ, zero, suc, ◌+◌, ◌-◌, ◌*◌, ◌/◌, ◌%◌, ◌^◌, Bool, true, false, not, ◌&&◌, ◌||◌, Option, none,
  some, [], ◌∷◌, ◌++◌, ltb, ◌==◌, if◌then◌else◌, length, take, drop,
}
use sigryx.Base.Bytes.{Bytes, to_number, fill_bytes}
use sigryx.Scalar.{valid_private_key}

abbrev pub curve_p : ℕ
curve_p = 0xfffffffffffffffffffffffffffffffffffffffffffffffffffffffefffffc2f

abbrev pub curve_gx : ℕ
curve_gx = 0x79be667ef9dcbbac55a06295ce870b07029bfcdb2dce28d959f2815b16f81798

abbrev pub curve_gy : ℕ
curve_gy = 0x483ada7726a3c4655da4fbfc0e1108a8fd17b448a68554199c47d08ffb10d4b8

-- curvePoint
pub data CurvePoint : Type 0 where
  infinity : CurvePoint
  point : ℕ → ℕ → CurvePoint

-- `z.Sub(a, b)` and `z.Mod(z, n)`
abbrev pub sub_mod : ℕ → ℕ → ℕ → ℕ
sub_mod n a b = (a + (n - b % n)) % n

-- `big.Int.ModInverse`, by Euclid's algorithm: `t` times the number is `r` modulo `n`, for both pairs.
-- The remainders go down, so `n` is fuel enough. There is an inverse if the last remainder is 1.
unfoldable pub euclid : ℕ → ℕ → ℕ → ℕ → ℕ → ℕ → Option ℕ
euclid zero n r0 t0 r1 t1 = none
euclid (suc fuel) n r0 t0 r1 t1 = elim (r1 == 0) [
  | true ↦ if r0 == 1 then some t0 else none
  | false ↦ euclid fuel n r1 t1 (r0 % r1) (sub_mod n t0 (r0 / r1 * t1))
]

unfoldable pub mod_inverse : ℕ → ℕ → Option ℕ
unfolding euclid
mod_inverse g n = euclid (suc n) n n 0 (g % n) 1

-- The end of pointAdd and pointDouble, from `lambda` on: `bx` is the abscissa of the other point.
abbrev pub chord : ℕ → ℕ → ℕ → ℕ → CurvePoint
chord lambda ax ay bx =
    let x = sub_mod curve_p (sub_mod curve_p (lambda * lambda) ax) bx in
    point x (sub_mod curve_p (lambda * sub_mod curve_p ax x) ay)

-- `if inverse == nil { return curvePoint{infinity: true} }` and `lambda`
unfoldable pub with_slope : ℕ → Option ℕ → ℕ → ℕ → ℕ → CurvePoint
with_slope numerator none ax ay bx = infinity
with_slope numerator (some inverse) ax ay bx = chord ((numerator * inverse) % curve_p) ax ay bx

-- pointDouble: `x.Sub(x, twoX)` takes the abscissa off twice.
unfoldable pub point_double : CurvePoint → CurvePoint
unfolding with_slope mod_inverse
point_double infinity = infinity
point_double (point x y) =
    if y == 0
    then infinity
    else with_slope ((x * x * 3) % curve_p) (mod_inverse ((y * 2) % curve_p) curve_p) x y x

-- pointAdd
unfoldable pub point_add : CurvePoint → CurvePoint → CurvePoint
unfolding with_slope mod_inverse point_double
point_add infinity b = b
point_add (point ax ay) infinity = point ax ay
point_add (point ax ay) (point bx by) =
    if ax == bx
    then (if (ay + by) % curve_p == 0 then infinity else point_double (point ax ay))
    else with_slope (sub_mod curve_p by ay) (mod_inverse (sub_mod curve_p bx ax) curve_p) ax ay bx

-- `b&(1<<uint(bit)) != 0`
abbrev pub bit_set : ℕ → ℕ → Bool
bit_set b bit = not ((b / 2 ^ bit) % 2 == 0)

abbrev pub add_if : Bool → CurvePoint → CurvePoint → CurvePoint
unfolding point_add
add_if true result base = point_add result base
add_if false result base = result

-- `for bit := 7; bit >= 0; bit--`: the bits below `bits`
unfoldable pub multiply_bits : CurvePoint → ℕ → ℕ → CurvePoint → CurvePoint
unfolding point_double add_if
multiply_bits base b zero result = result
multiply_bits base b (suc bit) result =
    multiply_bits base b bit (add_if (bit_set b bit) (point_double result) base)

-- The loop over the bytes of the scalar
unfoldable pub multiply_bytes : CurvePoint → Bytes → CurvePoint → CurvePoint
unfolding multiply_bits
multiply_bytes base [] result = result
multiply_bytes base (b ∷ bytes) result = multiply_bytes base bytes (multiply_bits base b 8 result)

-- scalarBaseMult
unfoldable pub scalar_base_mult : Bytes → CurvePoint
unfolding multiply_bytes
scalar_base_mult scalar = multiply_bytes (point curve_gx curve_gy) scalar infinity

-- scalarMult
unfoldable pub scalar_mult : CurvePoint → ℕ → CurvePoint
unfolding multiply_bytes
scalar_mult base scalar = multiply_bytes base (fill_bytes 32 scalar) infinity

-- isOnCurve
unfoldable pub is_on_curve : ℕ → ℕ → Bool
is_on_curve x y = (y * y) % curve_p == (x * x * x + 7) % curve_p

-- publicPoint
unfoldable pub public_point : Bytes → Option CurvePoint
unfolding valid_private_key scalar_base_mult
public_point private_key =
    if not (valid_private_key private_key) then none else some (scalar_base_mult private_key)

-- The bytes of a point. At infinity the coordinates are nil, and FillBytes panics: that is `none` too.
abbrev pub uncompressed : Option CurvePoint → Option Bytes
uncompressed none = none
uncompressed (some infinity) = none
uncompressed (some (point x y)) = some (0x04 ∷ (fill_bytes 32 x ++ fill_bytes 32 y))

-- UncompressedPublicKey
unfoldable pub uncompressed_public_key : Bytes → Option Bytes
unfolding public_point
uncompressed_public_key private_key = uncompressed (public_point private_key)

abbrev pub compressed : Option CurvePoint → Option Bytes
compressed none = none
compressed (some infinity) = none
compressed (some (point x y)) = some ((if y % 2 == 1 then 0x03 else 0x02) ∷ fill_bytes 32 x)

-- compressedPublicKey
unfoldable pub compressed_public_key : Bytes → Option Bytes
unfolding public_point
compressed_public_key private_key = compressed (public_point private_key)

-- parsePublicKey
unfoldable pub parse_coordinates : Bytes → Option CurvePoint
unfolding is_on_curve
parse_coordinates coordinates =
    let x = to_number (take 32 coordinates) in
    let y = to_number (drop 32 coordinates) in
    if not (ltb x curve_p) || (not (ltb y curve_p) || not (is_on_curve x y))
    then none
    else some (point x y)

unfoldable pub parse_public_key : Bytes → Option CurvePoint
unfolding parse_coordinates
parse_public_key [] = none
parse_public_key (first ∷ coordinates) =
    if not (length coordinates == 64) || not (first == 0x04)
    then none
    else parse_coordinates coordinates
