-- ===== src/Ecdsa/Tests.antt =====
-- A signature made with a MAC that always gives the number 2, and what the verifiers say of it.
use sigryx.Base.{ℕ, ◌-◌, ◌%◌, ◌≡◌, refl, true, false, some, [], ◌∷◌, ◌++◌, replicate, length}
use sigryx.Base.Bytes.{Bytes, to_number, value_from, fill_bytes}
use sigryx.Base.Outcome.{ok, err}
use sigryx.Scalar.{valid_private_key}
use sigryx.Scalar.Modular.{curve_n}
use sigryx.Signature.{Signature, compact, parse_compact_signature}
use sigryx.Curve.{CurvePoint, parse_public_key, uncompressed_public_key}
use sigryx.Ecdsa.{
  invalid_digest, sign_digest, verify_digest, verify_signature, verify_digest_with_recovery_id,
}
use sigryx.Ecdsa.Scalars.{IsLow}
use sigryx.Ecdsa.LowS.{sign_digest-IsLow}
use sigryx.Ecdsa.Equation.{IsEcdsa, sign_digest-IsEcdsa}
use sigryx.Ecdsa.Accepts.{IsAccepted, verify_signature_ok}
use sigryx.Ecdsa.Verify.{Checked, verify_digest-Checked, verify_digest_twin}

abbrev number : ℕ → Bytes
number n = replicate 31 0 ++ (n ∷ [])

unfoldable constant_mac : Bytes → Bytes → Bytes
constant_mac key message = number 2

abbrev signature : Signature
signature = record {
  r =
      0xc6 ∷ 0x4 ∷ 0x7f ∷ 0x94 ∷ 0x41 ∷ 0xed ∷ 0x7d ∷ 0x6d ∷ 0x30 ∷ 0x45 ∷ 0x40 ∷ 0x6e ∷ 0x95 ∷ 0xc0
      ∷ 0x7c ∷ 0xd8 ∷ 0x5c ∷ 0x77 ∷ 0x8e ∷ 0x4b ∷ 0x8c ∷ 0xef ∷ 0x3c ∷ 0xa7 ∷ 0xab ∷ 0xac ∷ 0x9
      ∷ 0xb9 ∷ 0x5c ∷ 0x70 ∷ 0x9e ∷ 0xe5 ∷ [];
  s =
      0x29 ∷ 0x6 ∷ 0xbf ∷ 0x5e ∷ 0x62 ∷ 0xe4 ∷ 0x3c ∷ 0x23 ∷ 0xc8 ∷ 0x67 ∷ 0xe0 ∷ 0xa5 ∷ 0xe0 ∷ 0xa0
      ∷ 0xbb ∷ 0x45 ∷ 0xd0 ∷ 0x4 ∷ 0x78 ∷ 0x8a ∷ 0xa4 ∷ 0x1e ∷ 0x3a ∷ 0xbf ∷ 0xc1 ∷ 0xaf ∷ 0xb0
      ∷ 0x9 ∷ 0x3a ∷ 0x72 ∷ 0xad ∷ 0x19 ∷ [];
  recovery_id = 0;
}

sign_digest-number : sign_digest constant_mac 1 1 (number 3) (number 5) ≡ ok signature
unfolding sign_digest constant_mac value_from fill_bytes
sign_digest-number = refl

short_digest : sign_digest constant_mac 1 1 (number 3) [] ≡ err invalid_digest
unfolding sign_digest
short_digest = refl

unfoldable public_key : Bytes
unfolding uncompressed_public_key
public_key = elim (uncompressed_public_key (number 3)) [ some bytes ↦ bytes | _ ↦ [] ]

abbrev twin : Signature
twin = record signature {
  s =
      0xd6 ∷ 0xf9 ∷ 0x40 ∷ 0xa1 ∷ 0x9d ∷ 0x1b ∷ 0xc3 ∷ 0xdc ∷ 0x37 ∷ 0x98 ∷ 0x1f ∷ 0x5a ∷ 0x1f
      ∷ 0x5f ∷ 0x44 ∷ 0xb8 ∷ 0xea ∷ 0xaa ∷ 0x64 ∷ 0x5c ∷ 0xb ∷ 0x2a ∷ 0x65 ∷ 0x7b ∷ 0xfe ∷ 0x22
      ∷ 0xae ∷ 0x83 ∷ 0x95 ∷ 0xc3 ∷ 0x94 ∷ 0x28 ∷ [];
}

compact-parsed : parse_compact_signature (compact signature) ≡ some signature
unfolding parse_compact_signature compact value_from
compact-parsed = refl

twin-parsed : parse_compact_signature (compact twin) ≡ some twin
unfolding parse_compact_signature compact value_from
twin-parsed = refl

twin_scalar : to_number twin.s ≡ curve_n - to_number signature.s
unfolding value_from
twin_scalar = refl

verify_digest-public_key : verify_digest public_key (number 5) (compact signature) ≡ true
unfolding verify_digest public_key compact parse_compact_signature value_from fill_bytes
verify_digest-public_key = refl

other_digest : verify_digest public_key (number 6) (compact signature) ≡ false
unfolding verify_digest public_key compact parse_compact_signature value_from fill_bytes
other_digest = refl

other_parity : verify_digest_with_recovery_id public_key (number 5) (compact signature) 1 ≡ false
unfolding verify_digest_with_recovery_id public_key compact parse_compact_signature value_from
    fill_bytes
other_parity = refl

sign_digest-IsLow_example :
    (valid_private_key (number 3) ≡ true) × (length (number 5) ≡ 32) × IsLow signature
sign_digest-IsLow_example =
    sign_digest-IsLow constant_mac 1 1 (number 3) (number 5) signature sign_digest-number

verify_digest-Checked_example :
    (sig : Signature) × (parse_compact_signature (compact signature) ≡ some sig)
    × Checked public_key (number 5) sig
verify_digest-Checked_example =
    verify_digest-Checked public_key (number 5) (compact signature) verify_digest-public_key

verify_digest_twin_example : verify_digest public_key (number 5) (compact twin) ≡ false
verify_digest_twin_example =
    verify_digest_twin public_key (number 5) (compact signature) public_key (number 5)
      (compact twin) signature twin verify_digest-public_key compact-parsed twin-parsed twin_scalar

sign_digest-IsEcdsa_example :
    IsEcdsa (to_number (number 3)) (to_number (number 5) % curve_n) signature
sign_digest-IsEcdsa_example =
    sign_digest-IsEcdsa constant_mac 1 1 (number 3) (number 5) signature sign_digest-number

signature-verified : verify_signature public_key (number 5) signature true ≡ true
unfolding verify_signature public_key value_from fill_bytes
signature-verified = refl

verify_signature_ok_example :
    (q : CurvePoint) × (parse_public_key public_key ≡ some q)
    × IsAccepted q (to_number (number 5) % curve_n) signature true
verify_signature_ok_example =
    verify_signature_ok public_key (number 5) signature true signature-verified
