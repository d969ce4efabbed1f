-- ===== src/Scalar/Tests.antt =====
-- Private keys near the order of the curve.
use sigryx.Base.{
  ◌+◌, ◌%◌, ◌≡◌, refl, false, [], ◌∷◌, ◌++◌, ltb, ◌==◌, ◌&&◌, arith, length, replicate, take,
}
use sigryx.Base.Bytes.{Bytes, AreBytes, value_from, to_number}
use sigryx.Scalar.{curve_n_bytes, valid_private_key, add_scalars_mod_n}
use sigryx.Scalar.Modular.{
  curve_n, all_bytes-AreBytes, valid_private_key_lem, add_scalars_mod_n_lem,
}

-- n - 1
abbrev greatest : Bytes
greatest = take 31 curve_n_bytes ++ (0x40 ∷ [])

abbrev two : Bytes
two = replicate 31 0 ++ (2 ∷ [])

order_refused : valid_private_key curve_n_bytes ≡ false
unfolding valid_private_key
order_refused = refl

sum_wraps : add_scalars_mod_n greatest two ≡ replicate 31 0 ++ (1 ∷ [])
unfolding add_scalars_mod_n
sum_wraps = refl

valid_private_key_lem_example :
    valid_private_key greatest
    ≡ (length greatest == 32) && (ltb 0 (to_number greatest) && ltb (to_number greatest) curve_n)
valid_private_key_lem_example = valid_private_key_lem greatest (all_bytes-AreBytes greatest refl)

add_scalars_mod_n_lem_example :
    (to_number (add_scalars_mod_n greatest two) ≡ (to_number greatest + to_number two) % curve_n)
    × (length (add_scalars_mod_n greatest two) ≡ 32)
    × AreBytes (add_scalars_mod_n greatest two)
unfolding value_from
add_scalars_mod_n_lem_example =
    add_scalars_mod_n_lem greatest two (all_bytes-AreBytes greatest refl)
      (all_bytes-AreBytes two refl) refl refl (omega arith) (omega arith)
