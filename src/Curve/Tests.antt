-- ===== src/Curve/Tests.antt =====
-- Runs of the arithmetic of the curve.
use sigryx.Base.{ℕ, ◌≡◌, refl, true, some, [], ◌∷◌, ◌++◌, replicate, length, take, drop}
use sigryx.Curve.Bounds.{uncompressed_public_key_ok}
use sigryx.Base.Bytes.{Bytes, to_number, fill_bytes}
use sigryx.Curve.{
  point, curve_gx, curve_gy, is_on_curve, scalar_base_mult, uncompressed_public_key, mod_inverse,
  euclid,
}

generator_on_curve : is_on_curve curve_gx curve_gy ≡ true
unfolding is_on_curve
generator_on_curve = refl

mod_inverse-small : mod_inverse 3 11 ≡ some 4
unfolding mod_inverse euclid
mod_inverse-small = refl

twice :
    scalar_base_mult (replicate 31 0 ++ (2 ∷ []))
    ≡ point 0xc6047f9441ed7d6d3045406e95c07cd85c778e4b8cef3ca7abac09b95c709ee5
        0x1ae168fea63dc339a3c58419466ceaeef7f632653266d0e1236431a950cfe52a
unfolding scalar_base_mult
twice = refl

abbrev one : Bytes
one = replicate 31 0 ++ (1 ∷ [])

abbrev written : Bytes
written = 0x04 ∷ (fill_bytes 32 curve_gx ++ fill_bytes 32 curve_gy)

uncompressed_public_key-one : uncompressed_public_key one ≡ some written
unfolding uncompressed_public_key
uncompressed_public_key-one = refl

uncompressed_public_key_ok_example :
    (x y : ℕ) × (rest : Bytes) × (scalar_base_mult one ≡ point x y)
    × (written ≡ 0x04 ∷ rest)
    × (length rest ≡ 64)
    × (to_number (take 32 rest) ≡ x)
    × (to_number (drop 32 rest) ≡ y)
uncompressed_public_key_ok_example =
    uncompressed_public_key_ok one written uncompressed_public_key-one
