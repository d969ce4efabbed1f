-- ===== src/Transaction/Tests.antt =====
-- The transaction of EIP-155 that internal/adapter/out/blockchain/ethereum/transaction_test.go signs, and an
-- EIP-1559 transaction, with a signer that gives out the signature of the former.
use sigryx.Base.{
  ◌<◌, ◌≤◌, ◌≡◌, refl, true, Option, none, some, [], ◌∷◌, ◌++◌, ◌⊎◌, arith, ◌==◌, eqb, ◌&&◌, length,
  subst,
}
use sigryx.Base.Bytes.{Bytes, AreBytes, value_from, number_bytes, fill_bytes}
use sigryx.Base.Outcome.{ok, err}
use sigryx.Base.Text.{codes}
use sigryx.Scalar.Modular.{all_bytes-AreBytes}
use sigryx.Signature.{Signature, parse_compact_signature}
use sigryx.Signature.Encodings.{IsValid}
use sigryx.Hex.{parse_quantity, decode_hex, decode_address, decode_pairs}
use sigryx.Rlp.{decode_rlp, rlp_bytes, rlp_list_payload, rlp_big, int_bytes, max_int}
use sigryx.Keccak.{keccak256}
use sigryx.Transaction.{
  invalid_transaction, EthereumTransaction, TransactionSignature, Signer, IsSigner,
  transaction_type_legacy, transaction_type_eip1559, sign_transaction,
}
use sigryx.Transaction.Check.{integer, verify_transaction}
use sigryx.Transaction.SignVerify.{AsksFor, verify_transaction-sign_transaction}
use sigryx.Transaction.Accepted.{EncodesList, Asked, verify_transaction_ok}
use sigryx.Transaction.Bounds.{LegacyBounds, Eip1559Bounds, sign_transaction_bounds}

abbrev bytes_of : Option Bytes → Bytes
bytes_of none = []
bytes_of (some bytes) = bytes

unfoldable hex : Bytes → Bytes
unfolding decode_hex
hex text = bytes_of (decode_hex text)

unfoldable sample : Signature
unfolding hex
sample = record {
  r = hex (codes "28ef61340bd939bc2195fe537567866003e1a15d3c71ff63e1590620aa636276");
  s = hex (codes "67cbe9d8997f761aecb703304b3800ccf555c9f3dc64214b297fb1966a3b6d83");
  recovery_id = 0;
}

sample-IsValid : IsValid sample
unfolding sample value_from decode_pairs
sample-IsValid = record { r_valid = refl; s_valid = refl }

sample-AreBytes : AreBytes sample.r × AreBytes sample.s
unfolding sample decode_pairs
sample-AreBytes = (all_bytes-AreBytes sample.r refl, all_bytes-AreBytes sample.s refl)

-- One signature for every digest, and a verifier that knows only this one.
unfoldable toy : Signer
toy = record {
  sign_digest = λ key digest. some sample;
  verify_digest_with_recovery_id =
      λ key digest sig parity. eqb sig (sample.r ++ sample.s) && (parity == sample.recovery_id);
}

toy-IsSigner : IsSigner toy
unfolding toy
toy-IsSigner = record {
  sign_digest-IsValid =
      λ key digest sig h. let e : sample ≡ sig = cc in subst IsValid e sample-IsValid;
  sign_digest-AreBytes = λ key digest sig h.
      let e : sample ≡ sig = cc in
      subst (λ (t : Signature). AreBytes t.r × AreBytes t.s) e sample-AreBytes;
  sign_digest-recovery_id = λ key digest sig h.
      let e : sample ≡ sig = cc in
      let none_set : sample.recovery_id ≤ 1 = (unfold sample in omega arith) in
      subst (λ (t : Signature). t.recovery_id ≤ 1) e none_set;
}

abbrev legacy : EthereumTransaction
legacy = record {
  type = codes "LEGACY";
  chain_id = 1;
  nonce = 9;
  gas_limit = 21000;
  gas_price = codes "20000000000";
  max_priority_fee_per_gas = [];
  max_fee_per_gas = [];
  to = codes "0x3535353535353535353535353535353535353535";
  value = codes "1000000000000000000";
  call_data = [];
  access_list = [];
}

unfoldable vector_raw : Bytes
unfolding hex
vector_raw = hex (
    codes
      "f86c098504a817c800825208943535353535353535353535353535353535353535880de0b6b3a76400008025a028ef61340bd939bc2195fe537567866003e1a15d3c71ff63e1590620aa636276a067cbe9d8997f761aecb703304b3800ccf555c9f3dc64214b297fb1966a3b6d83")

unfoldable legacy_result : TransactionSignature
unfolding sample vector_raw
legacy_result = record {
  raw_transaction = vector_raw;
  hash = keccak256 vector_raw;
  r = sample.r;
  s = sample.s;
  y_parity = 0;
}

sign_transaction-legacy : sign_transaction toy (1 ∷ []) legacy ≡ ok legacy_result
unfolding sign_transaction legacy_result toy parse_quantity decode_address rlp_list_payload rlp_big
    rlp_bytes number_bytes value_from int_bytes
sign_transaction-legacy = refl

vector_raw-AreBytes : AreBytes vector_raw
unfolding vector_raw decode_pairs
vector_raw-AreBytes = all_bytes-AreBytes vector_raw refl

vector_raw-length : length vector_raw ≤ max_int
unfolding vector_raw decode_pairs
vector_raw-length = omega arith

verify_transaction-legacy : verify_transaction toy [] vector_raw ≡ ok true
unfolding verify_transaction toy vector_raw decode_pairs decode_rlp value_from fill_bytes
    parse_compact_signature integer sample
verify_transaction-legacy = refl

trailing_byte : verify_transaction toy [] (vector_raw ++ (0 ∷ [])) ≡ err invalid_transaction
unfolding verify_transaction vector_raw decode_pairs decode_rlp
trailing_byte = refl

no_chain_id : sign_transaction toy [] (record legacy { chain_id = 0 }) ≡ err invalid_transaction
unfolding sign_transaction
no_chain_id = refl

fees_swapped :
    sign_transaction toy [] (record legacy {
      type = codes "EIP1559";
      max_priority_fee_per_gas = codes "2";
      max_fee_per_gas = codes "1";
    })
    ≡ err invalid_transaction
unfolding sign_transaction parse_quantity
fees_swapped = refl

verify_transaction-sign_transaction_example : AsksFor toy (1 ∷ []) (2 ∷ []) legacy legacy_result
verify_transaction-sign_transaction_example =
    verify_transaction-sign_transaction toy toy-IsSigner (1 ∷ []) (2 ∷ []) legacy legacy_result
      sign_transaction-legacy (unfold legacy_result in vector_raw-length)

verify_transaction_ok_example :
    (EncodesList 9 vector_raw ⊎ ((rest : Bytes) × (vector_raw ≡ 0x02 ∷ rest) × EncodesList 12 rest))
    × Asked toy [] true
verify_transaction_ok_example =
    verify_transaction_ok toy [] vector_raw true vector_raw-AreBytes verify_transaction-legacy

sign_transaction_bounds_example :
    (0 < 1)
    × (((eqb legacy.type transaction_type_legacy ≡ true) × LegacyBounds legacy legacy_result)
        ⊎ ((eqb legacy.type transaction_type_eip1559 ≡ true) × Eip1559Bounds legacy legacy_result))
sign_transaction_bounds_example =
    sign_transaction_bounds toy (1 ∷ []) legacy legacy_result sign_transaction-legacy
