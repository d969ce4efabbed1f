-- ===== src/Curve/Bounds.antt =====
-- The coordinates that the arithmetic computes stay below the prime, so they fit in their 32 bytes.
use sigryx.Base.{
  ℕ, zero, suc, ◌+◌, ◌*◌, ◌%◌, ◌^◌, ◌<◌, ◌≡◌, refl, sym, ap, ◌∙◌, Bool, true, false, not, Option,
  none, some, [], ◌∷◌, ◌++◌, ◌==◌, if◌then◌else◌, length, take, drop, Bool-cases, inl, inr, arith,
  take-append, drop-append, length-append,
}
use sigryx.Base.Bytes.{Bytes, to_number, fill_bytes}
use sigryx.Scalar.{valid_private_key}
use sigryx.Scalar.Fill.{length-fill_bytes, to_number-fill_bytes}
use sigryx.Curve.{
  curve_p, curve_gx, curve_gy, CurvePoint, infinity, point, sub_mod, mod_inverse, chord, with_slope,
  point_double, point_add, bit_set, add_if, multiply_bits, multiply_bytes, scalar_base_mult,
  scalar_mult, public_point, uncompressed, uncompressed_public_key,
}

-- Both coordinates are below the prime.
abbrev pub IsReduced : CurvePoint → Type 0
IsReduced infinity = Unit
IsReduced (point x y) = (x < curve_p) × (y < curve_p)

mod_lt : (n : ℕ) → n % curve_p < curve_p
mod_lt n = omega arith

chord-IsReduced : (lambda ax ay bx : ℕ) → IsReduced (chord lambda ax ay bx)
chord-IsReduced lambda ax ay bx = (mod_lt _, mod_lt _)

with_slope-IsReduced :
    (numerator : ℕ) (inverse : Option ℕ) (ax ay bx : ℕ)
    → IsReduced (with_slope numerator inverse ax ay bx)
unfolding with_slope
with_slope-IsReduced numerator none ax ay bx = tt
with_slope-IsReduced numerator (some i) ax ay bx =
    chord-IsReduced ((numerator * i) % curve_p) ax ay bx

if-IsReduced :
    (b : Bool) (p q : CurvePoint) → IsReduced p → IsReduced q → IsReduced (if b then p else q)
if-IsReduced true p q h k = h
if-IsReduced false p q h k = k

point_double-IsReduced : (p : CurvePoint) → IsReduced (point_double p)
unfolding point_double
point_double-IsReduced infinity = tt
point_double-IsReduced (point x y) =
    if-IsReduced (y == 0) infinity _ tt
      (with_slope-IsReduced ((x * x * 3) % curve_p) (mod_inverse ((y * 2) % curve_p) curve_p) x y x)

-- pointAdd gives back reduced coordinates if it is given some.
pub point_add-IsReduced : (p q : CurvePoint) → IsReduced p → IsReduced q → IsReduced (point_add p q)
unfolding point_add
point_add-IsReduced infinity q h k = k
point_add-IsReduced (point ax ay) infinity h k = h
point_add-IsReduced (point ax ay) (point bx by) h k =
    if-IsReduced (ax == bx) _ _
      (if-IsReduced ((ay + by) % curve_p == 0) infinity (point_double (point ax ay)) tt
        (point_double-IsReduced (point ax ay)))
      (with_slope-IsReduced (sub_mod curve_p by ay) (mod_inverse (sub_mod curve_p bx ax) curve_p) ax
        ay bx)

add_if-IsReduced :
    (b : Bool) (p q : CurvePoint) → IsReduced p → IsReduced q → IsReduced (add_if b p q)
unfolding add_if
add_if-IsReduced true p q h k = point_add-IsReduced p q h k
add_if-IsReduced false p q h k = h

multiply_bits-IsReduced :
    (base : CurvePoint) (b bits : ℕ) (result : CurvePoint)
    → IsReduced base
    → IsReduced result
    → IsReduced (multiply_bits base b bits result)
unfolding multiply_bits
multiply_bits-IsReduced base b zero result h k = k
multiply_bits-IsReduced base b (suc bit) result h k =
    multiply_bits-IsReduced base b bit (add_if (bit_set b bit) (point_double result) base) h (
      add_if-IsReduced (bit_set b bit) (point_double result) base (point_double-IsReduced result) h)

multiply_bytes-IsReduced :
    (base : CurvePoint) (bytes : Bytes) (result : CurvePoint)
    → IsReduced base
    → IsReduced result
    → IsReduced (multiply_bytes base bytes result)
unfolding multiply_bytes
multiply_bytes-IsReduced base [] result h k = k
multiply_bytes-IsReduced base (b ∷ bytes) result h k =
    multiply_bytes-IsReduced base bytes (multiply_bits base b 8 result) h
      (multiply_bits-IsReduced base b 8 result h k)

-- What scalarBaseMult and scalarMult compute has both coordinates below the prime, if the point that is
-- multiplied does.
pub scalar_mult-IsReduced :
    (base : CurvePoint) (scalar : Bytes) (n : ℕ)
    → IsReduced base
    → IsReduced (scalar_base_mult scalar) × IsReduced (scalar_mult base n)
unfolding scalar_base_mult scalar_mult
scalar_mult-IsReduced base scalar n h = (
  multiply_bytes-IsReduced (point curve_gx curve_gy) scalar infinity (omega arith, omega arith) tt,
  multiply_bytes-IsReduced base (fill_bytes 32 n) infinity h tt,
)

fits : (n : ℕ) → n < curve_p → n < 256 ^ 32
fits n h = omega arith

-- What UncompressedPublicKey writes of a point with such coordinates.
uncompressed-number :
    (p : CurvePoint) (bytes : Bytes)
    → IsReduced p
    → uncompressed (some p) ≡ some bytes
    → (x y : ℕ) × (rest : Bytes) × (p ≡ point x y)
      × (bytes ≡ 0x04 ∷ rest)
      × (length rest ≡ 64)
      × (to_number (take 32 rest) ≡ x)
      × (to_number (drop 32 rest) ≡ y)
uncompressed-number infinity bytes h e = cc
uncompressed-number (point x y) bytes (hx, hy) e =
    let a = fill_bytes 32 x in
    let b = fill_bytes 32 y in
    let la : 32 ≡ length a = sym (length-fill_bytes 32 x) in
    let written : 0x04 ∷ (a ++ b) ≡ bytes = cc in
    (
      x,
      y,
      a ++ b,
      refl,
      sym written,
      omega (arith, length-append a b, la, length-fill_bytes 32 y),
      ap to_number (take-append 32 a b la) ∙ to_number-fill_bytes 32 x (fits x hx),
      ap to_number (drop-append 32 a b la) ∙ to_number-fill_bytes 32 y (fits y hy),
    )

-- If UncompressedPublicKey returns bytes, then they are the byte 4 and 64 bytes that write the coordinates
-- of the point that scalarBaseMult computes of the private key.
pub uncompressed_public_key_ok :
    (private_key bytes : Bytes)
    → uncompressed_public_key private_key ≡ some bytes
    → (x y : ℕ) × (rest : Bytes) × (scalar_base_mult private_key ≡ point x y)
      × (bytes ≡ 0x04 ∷ rest)
      × (length rest ≡ 64)
      × (to_number (take 32 rest) ≡ x)
      × (to_number (drop 32 rest) ≡ y)
unfolding uncompressed_public_key public_point
uncompressed_public_key_ok private_key bytes h =
    elim (Bool-cases (not (valid_private_key private_key))) [
      | inl e ↦ absurd (cc (rw e at h))
      | inr e ↦
          uncompressed-number (scalar_base_mult private_key) bytes
            (scalar_mult-IsReduced infinity private_key 0 tt).0 (rw e at h)
    ]
