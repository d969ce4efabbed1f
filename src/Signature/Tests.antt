-- ===== src/Signature/Tests.antt =====
-- A signature whose scalars are 1 and 2.
use sigryx.Base.{ℕ, ◌+◌, ◌≤◌, ◌≡◌, refl, none, some, [], ◌∷◌, ◌++◌, ◌⊎◌, arith, replicate}
use sigryx.Base.Bytes.{Bytes, value_from}
use sigryx.Signature.{Signature, compact, ethereum, parse_ethereum_signature}
use sigryx.Signature.Encodings.{
  IsValid, parse_ethereum_signature-ethereum, parse_ethereum_signature_ok,
}

abbrev scalar : ℕ → Bytes
scalar n = replicate 31 0 ++ (n ∷ [])

abbrev sample : Signature
sample = record { r = scalar 1; s = scalar 2; recovery_id = 1 }

sample-IsValid : IsValid sample
unfolding value_from
sample-IsValid = record { r_valid = refl; s_valid = refl }

abbrev written : Bytes
written = scalar 1 ++ (scalar 2 ++ (1 ∷ []))

parse_written : parse_ethereum_signature written ≡ some sample
unfolding parse_ethereum_signature value_from
parse_written = refl

parse_other_byte : parse_ethereum_signature (scalar 1 ++ (scalar 2 ++ (2 ∷ []))) ≡ none
unfolding parse_ethereum_signature value_from
parse_other_byte = refl

parse_ethereum_signature-ethereum_example : parse_ethereum_signature (ethereum sample) ≡ some sample
parse_ethereum_signature-ethereum_example =
    parse_ethereum_signature-ethereum sample sample-IsValid (omega arith)

parse_ethereum_signature_ok_example :
    IsValid sample
    × (1 ≤ 1)
    × ((v : ℕ) × (written ≡ compact sample ++ (v ∷ [])) × ((v ≡ 1) ⊎ (v ≡ 1 + 27)))
parse_ethereum_signature_ok_example = parse_ethereum_signature_ok written sample parse_written
