-- ===== src/HdKey/Tests.antt =====
-- Derivations with a MAC that always gives the number 2 and a chain code of zeros.
use sigryx.Base.{
  ℕ, ◌+◌, ◌%◌, ◌<◌, ◌≤◌, ◌≡◌, refl, true, false, [], ◌∷◌, ◌++◌, some, none, eqb, if◌then◌else◌,
  take, replicate,
}
use sigryx.Base.Bytes.{Bytes, to_number, fill_bytes}
use sigryx.Base.Outcome.{Outcome, ok, err}
use sigryx.Scalar.{valid_private_key, add_scalars_mod_n}
use sigryx.Scalar.Modular.{curve_n, all_bytes-AreBytes}
use sigryx.Derivation.{Segment, hardened_offset}
use sigryx.HdKey.{
  HdError, ExtendedKey, invalid_seed, nil_callback, callback_failed, child_data, child_index,
  derive_child, derive_private_key,
}
use sigryx.HdKey.Children.{IsKey, GivesBytes, derive_child_ok, derive_private_key_ok}

abbrev number : ℕ → Bytes
number n = replicate 31 0 ++ (n ∷ [])

unfoldable constant_mac : Bytes → Bytes → Bytes
constant_mac key message = number 2 ++ replicate 32 0

constant_mac-GivesBytes : GivesBytes constant_mac
unfolding GivesBytes constant_mac
constant_mac-GivesBytes key message = all_bytes-AreBytes (number 2 ++ replicate 32 0) refl

abbrev hardened : Segment
hardened = record { index = 44; hardened = true }

abbrev parent : ExtendedKey
parent = record { key = number 2; chain_code = replicate 32 0 }

abbrev child : ExtendedKey
child = record { key = number 4; chain_code = replicate 32 0 }

number-IsKey : IsKey (number 2)
unfolding valid_private_key
number-IsKey = record { valid = refl; bytes = all_bytes-AreBytes (number 2) refl }

derive_child-hardened : derive_child constant_mac parent hardened ≡ ok child
unfolding derive_child constant_mac valid_private_key add_scalars_mod_n
derive_child-hardened = refl

abbrev callback : Bytes → Outcome HdError Unit
callback key = if eqb key (number 4) then ok tt else err callback_failed

derive_private_key-hardened :
    derive_private_key constant_mac (replicate 16 7) (hardened ∷ []) (some callback) ≡ ok tt
unfolding derive_private_key constant_mac valid_private_key add_scalars_mod_n
derive_private_key-hardened = refl

-- A child that is not hardened is derived from the public key.
derive_private_key-both :
    derive_private_key constant_mac
      (replicate 16 7)
      (hardened ∷ record { index = 0; hardened = false } ∷ [])
      (some callback)
    ≡ err callback_failed
unfolding derive_private_key constant_mac valid_private_key add_scalars_mod_n
derive_private_key-both = refl

short_seed : derive_private_key constant_mac (replicate 15 7) [] (some callback) ≡ err invalid_seed
unfolding derive_private_key
short_seed = refl

no_callback : derive_private_key constant_mac {A = Unit} (replicate 16 7) [] none ≡ err nil_callback
unfolding derive_private_key
no_callback = refl

derive_child_ok_example :
    (44 < hardened_offset)
    × IsKey (number 4)
    × ((front : Bytes) × (child_data hardened (number 2) ≡ ok front)
        × (to_number (number 4)
            ≡ (to_number (
                  take 32
                    (constant_mac (replicate 32 0) (front ++ fill_bytes 4 (child_index hardened))))
                + to_number (number 2))
              % curve_n))
derive_child_ok_example =
    derive_child_ok constant_mac constant_mac-GivesBytes parent hardened child number-IsKey
      derive_child-hardened

derive_private_key_ok_example :
    (16 ≤ 16) × (16 ≤ 64) × ((key : Bytes) × IsKey key × (callback key ≡ ok tt))
derive_private_key_ok_example =
    derive_private_key_ok constant_mac constant_mac-GivesBytes (replicate 16 7) (hardened ∷ [])
      callback derive_private_key-hardened
