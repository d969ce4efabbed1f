-- ===== src/Transaction/SignVerify.antt =====
-- The verifier asks for the very digest and signature that the signing function used.
use sigryx.Base.{
  ℕ, ◌+◌, ◌-◌, ◌*◌, ◌/◌, ◌%◌, ◌<◌, ◌≤◌, ◌≡◌, refl, sym, ap, ◌∙◌, true, false, ◌||◌, some, List, [],
  ◌∷◌, ◌++◌, inl, inr, arith, leb, ltb, ◌==◌, length, append-nil, Bool-cases,
}
use sigryx.Base.Bytes.{Bytes, to_number}
use sigryx.Base.Outcome.{ok}
use sigryx.Signature.{Signature, compact}
use sigryx.Rlp.{
  Node, Nodes, text, list, nil, cons, int_bytes, rlp_bytes, rlp_list, rlp_list_payload, rlp_big,
  encode, encode_nodes, decode_rlp, max_int,
}
use sigryx.Rlp.Steps.{length-byte_loop}
use sigryx.Rlp.RoundTrip.{decode_rlp-encode}
use sigryx.Keccak.{keccak256}
use sigryx.Transaction.{
  EthereumTransaction, TransactionSignature, Signer, IsSigner, LegacyFields, legacy_unsigned,
  legacy_raw, Eip1559Fields, eip1559_unsigned, eip1559_raw, sign_transaction,
}
use sigryx.Transaction.Check.{
  whole, elements, encodings, rlp_list_from_nodes, signature_scalars, legacy_cases, check_legacy,
  verify_legacy_transaction, check_eip1559, verify_eip1559_transaction, verify_transaction,
}
use sigryx.Transaction.AccessList.{encode_access_list-encode}
use sigryx.Transaction.Fields.{
  number_node, rlp_big-encode, integer-number_node, uint64-number_node,
  signature_scalars-number_node,
}
use sigryx.Transaction.Sign.{LegacySigned, Eip1559Signed, sign_transaction_ok}

-- The decoder takes an encoding as a whole.
whole-encode :
    (node : Node)
    → length (encode node) ≤ max_int
    → whole (length (encode node)) (decode_rlp (encode node)) ≡ ok node
unfolding whole
whole-encode node h =
    let decoded = decode_rlp-encode node [] h in
    let same : (length (encode node) == length (encode node)) ≡ true = ground arith in
    ap (λ l. whole (length (encode node)) (decode_rlp l)) (sym (append-nil (encode node)))
    ∙ ap (whole (length (encode node))) decoded
    ∙ rw same refl

-- The encoding of a list does not start with the byte 2.
list_head :
    (payload : Bytes)
    → (b : ℕ) × (rest : Bytes) × (rlp_list_payload payload ≡ b ∷ rest) × ((b == 0x02) ≡ false)
unfolding rlp_list_payload int_bytes
list_head payload = elim (Bool-cases (leb (length payload) 55)) [
  | inl e ↦ ((0xc0 + length payload) % 256, payload, rw e refl, ground arith)
  | inr e ↦ (
    (0xf7 + length (int_bytes (length payload))) % 256,
    int_bytes (length payload) ++ payload,
    rw e refl,
    ground (arith, length-byte_loop 8 (length payload) []),
  )
]

-- What verifyLegacyTransaction makes of the `v` that EIP-155 writes.
legacy_cases_chain :
    (chain_id recovery_id : ℕ) (front : List Node)
    → 0 < chain_id
    → recovery_id ≤ 1
    → legacy_cases (chain_id * 2 + (35 + recovery_id)) front
      ≡ ok (
        rlp_list (encodings front ++ (rlp_big chain_id ∷ rlp_bytes [] ∷ rlp_bytes [] ∷ [])),
        recovery_id,
      )
unfolding legacy_cases
legacy_cases_chain c r front h k =
    let v = c * 2 + (35 + r) in
    let old : ((v == 27) || (v == 28)) ≡ false = ground arith in
    let new : leb 35 v ≡ true = ground arith in
    let parity : (v - 35) % 2 ≡ r = omega arith in
    let chain : (v - 35 - (v - 35) % 2) / 2 ≡ c = omega arith in
    let positive : (c == 0) ≡ false = ground arith in rw (old, new, chain, parity, positive) refl

-- The items of a transaction list as nodes
abbrev legacy_nodes : EthereumTransaction → LegacyFields → Signature → Nodes
legacy_nodes tx f sig = cons (number_node tx.nonce) (
    cons (number_node f.gas_price) (
      cons (number_node tx.gas_limit) (
        cons (text f.to) (
          cons (number_node f.value) (
            cons (text f.call_data) (
              cons (number_node (tx.chain_id * 2 + (35 + sig.recovery_id))) (
                cons (number_node (to_number sig.r))
                  (cons (number_node (to_number sig.s)) nil))))))))

legacy_raw-encode :
    (tx : EthereumTransaction) (f : LegacyFields) (sig : Signature)
    → legacy_raw tx f sig ≡ encode (list (legacy_nodes tx f sig))
unfolding encode
legacy_raw-encode tx f sig =
    rw
      (
        rlp_big-encode tx.nonce,
        rlp_big-encode f.gas_price,
        rlp_big-encode tx.gas_limit,
        rlp_big-encode f.value,
        rlp_big-encode (tx.chain_id * 2 + (35 + sig.recovery_id)),
        rlp_big-encode (to_number sig.r),
        rlp_big-encode (to_number sig.s),
      )
      refl

abbrev legacy_front : EthereumTransaction → LegacyFields → List Node
legacy_front tx f =
    number_node tx.nonce
    ∷ number_node f.gas_price
    ∷ number_node tx.gas_limit
    ∷ text f.to
    ∷ number_node f.value
    ∷ text f.call_data
    ∷ []

legacy_unsigned-encodings :
    (tx : EthereumTransaction) (f : LegacyFields)
    → legacy_unsigned tx f
      ≡ rlp_list (
          encodings (legacy_front tx f) ++ (rlp_big tx.chain_id ∷ rlp_bytes [] ∷ rlp_bytes [] ∷ []))
unfolding encode
legacy_unsigned-encodings tx f =
    rw
      (
        rlp_big-encode tx.nonce,
        rlp_big-encode f.gas_price,
        rlp_big-encode tx.gas_limit,
        rlp_big-encode f.value,
      )
      refl

positive : (n : ℕ) → (n == 0) ≡ false → 0 < n
positive n h = ground (arith, h)

module _ (signer : Signer) (public_key : Bytes) where
  check_legacy-nodes :
      (tx : EthereumTransaction) (f : LegacyFields) (sig : Signature)
      → (tx.chain_id == 0) ≡ false
      → sig.recovery_id ≤ 1
      → signature_scalars (number_node (to_number sig.r)) (number_node (to_number sig.s))
        ≡ ok (compact sig)
      → check_legacy signer public_key (elements (legacy_nodes tx f sig))
        ≡ ok (
            signer.verify_digest_with_recovery_id public_key
              (keccak256 (legacy_unsigned tx f))
              (compact sig)
              sig.recovery_id)
  unfolding check_legacy
  check_legacy-nodes tx f sig chain small scalars =
      rw
        (
          integer-number_node (tx.chain_id * 2 + (35 + sig.recovery_id)),
          scalars,
          legacy_cases_chain tx.chain_id sig.recovery_id (legacy_front tx f)
              (positive tx.chain_id chain) small,
          sym (legacy_unsigned-encodings tx f),
        )
        refl

  untyped :
      (b : ℕ) (rest : Bytes)
      → (b == 0x02) ≡ false
      → verify_transaction signer public_key (b ∷ rest)
        ≡ verify_legacy_transaction signer public_key (b ∷ rest)
  unfolding verify_transaction
  untyped b rest h = rw h refl

  -- A list that is read as a legacy transaction.
  verify-legacy :
      (nodes : Nodes)
      → length (encode (list nodes)) ≤ max_int
      → verify_transaction signer public_key (encode (list nodes))
        ≡ check_legacy signer public_key (elements nodes)
  unfolding verify_legacy_transaction
  verify-legacy nodes h =
      let (b, rest, headed, other) = list_head (encode_nodes nodes) in
      let e : encode (list nodes) ≡ b ∷ rest = (unfold encode in headed) in
      ap (verify_transaction signer public_key) e
      ∙ untyped b rest other
      ∙ ap (verify_legacy_transaction signer public_key) (sym e)
      ∙ rw (whole-encode (list nodes) h) refl

  -- A list behind the byte 2 is read as an EIP-1559 transaction.
  verify-eip1559 :
      (nodes : Nodes)
      → length (encode (list nodes)) ≤ max_int
      → verify_transaction signer public_key (0x02 ∷ encode (list nodes))
        ≡ check_eip1559 signer public_key (elements nodes)
  unfolding verify_transaction verify_eip1559_transaction
  verify-eip1559 nodes h = rw (whole-encode (list nodes) h) refl

-- The items of an EIP-1559 transaction as nodes
abbrev eip1559_front : EthereumTransaction → Eip1559Fields → Node → List Node
eip1559_front tx f entries =
    number_node tx.chain_id
    ∷ number_node tx.nonce
    ∷ number_node f.priority_fee
    ∷ number_node f.max_fee
    ∷ number_node tx.gas_limit
    ∷ text f.to
    ∷ number_node f.value
    ∷ text f.call_data
    ∷ entries
    ∷ []

abbrev eip1559_nodes : EthereumTransaction → Eip1559Fields → Node → Signature → Nodes
eip1559_nodes tx f entries sig = cons (number_node tx.chain_id) (
    cons (number_node tx.nonce) (
      cons (number_node f.priority_fee) (
        cons (number_node f.max_fee) (
          cons (number_node tx.gas_limit) (
            cons (text f.to) (
              cons (number_node f.value) (
                cons (text f.call_data) (
                  cons entries (
                    cons (number_node sig.recovery_id) (
                      cons (number_node (to_number sig.r))
                        (cons (number_node (to_number sig.s)) nil)))))))))))

module _ (tx : EthereumTransaction) (f : Eip1559Fields) (entries : Node)
    (e : f.access_list ≡ encode entries) where
  eip1559_unsigned-encodings :
      eip1559_unsigned tx f ≡ 0x02 ∷ rlp_list_from_nodes (eip1559_front tx f entries)
  unfolding encode
  eip1559_unsigned-encodings =
      rw
        (
          rlp_big-encode tx.chain_id,
          rlp_big-encode tx.nonce,
          rlp_big-encode f.priority_fee,
          rlp_big-encode f.max_fee,
          rlp_big-encode tx.gas_limit,
          rlp_big-encode f.value,
          e,
        )
        refl

  eip1559_raw-encode :
      (sig : Signature)
      → eip1559_raw tx f sig ≡ 0x02 ∷ encode (list (eip1559_nodes tx f entries sig))
  unfolding encode
  eip1559_raw-encode sig =
      rw
        (
          rlp_big-encode tx.chain_id,
          rlp_big-encode tx.nonce,
          rlp_big-encode f.priority_fee,
          rlp_big-encode f.max_fee,
          rlp_big-encode tx.gas_limit,
          rlp_big-encode f.value,
          rlp_big-encode sig.recovery_id,
          rlp_big-encode (to_number sig.r),
          rlp_big-encode (to_number sig.s),
          e,
        )
        refl

  check_eip1559-nodes :
      (signer : Signer) (public_key : Bytes) (sig : Signature)
      → sig.recovery_id ≤ 1
      → signature_scalars (number_node (to_number sig.r)) (number_node (to_number sig.s))
        ≡ ok (compact sig)
      → check_eip1559 signer public_key (elements (eip1559_nodes tx f entries sig))
        ≡ ok (
            signer.verify_digest_with_recovery_id public_key
              (keccak256 (eip1559_unsigned tx f))
              (compact sig)
              sig.recovery_id)
  unfolding check_eip1559
  check_eip1559-nodes signer public_key sig small scalars =
      let one_bit : ltb 1 sig.recovery_id ≡ false = ground arith in
      rw
        (
          uint64-number_node sig.recovery_id (omega arith),
          one_bit,
          scalars,
          sym eip1559_unsigned-encodings,
        )
        refl

-- The verifier asks for the digest that was signed, with the signature that it got.
abbrev pub AsksFor : Signer → Bytes → Bytes → EthereumTransaction → TransactionSignature → Type 0
AsksFor signer private_key public_key tx result =
    (digest : Bytes) × (sig : Signature) × (signer.sign_digest private_key digest ≡ some sig)
    × (verify_transaction signer public_key result.raw_transaction
        ≡ ok
            (signer.verify_digest_with_recovery_id public_key digest (compact sig) sig.recovery_id))

module _ (signer : Signer) (laws : IsSigner signer) (private_key public_key : Bytes) where
  scalars_read :
      (digest : Bytes) (sig : Signature)
      → signer.sign_digest private_key digest ≡ some sig
      → signature_scalars (number_node (to_number sig.r)) (number_node (to_number sig.s))
        ≡ ok (compact sig)
  scalars_read digest sig h =
      signature_scalars-number_node sig (laws.sign_digest-IsValid private_key digest sig h)
        (laws.sign_digest-AreBytes private_key digest sig h)

  legacy_asks :
      (tx : EthereumTransaction) (result : TransactionSignature)
      → LegacySigned signer private_key tx result
      → length result.raw_transaction ≤ max_int
      → AsksFor signer private_key public_key tx result
  legacy_asks tx result (f, accepted, done) h =
      let sig = done.sig in
      let e : result.raw_transaction ≡ encode (list (legacy_nodes tx f sig)) =
        ap (λ (t : TransactionSignature). t.raw_transaction) done.result_lem
        ∙ legacy_raw-encode tx f sig in
      (
        keccak256 (legacy_unsigned tx f),
        sig,
        done.digest_signed,
        ap (verify_transaction signer public_key) e
            ∙ verify-legacy signer public_key (legacy_nodes tx f sig) (rw e at h)
            ∙ check_legacy-nodes signer public_key tx f sig accepted.chain_id_set
                (laws.sign_digest-recovery_id private_key _ sig done.digest_signed)
                (scalars_read _ sig done.digest_signed),
      )

  eip1559_asks :
      (tx : EthereumTransaction) (result : TransactionSignature)
      → Eip1559Signed signer private_key tx result
      → length result.raw_transaction ≤ max_int
      → AsksFor signer private_key public_key tx result
  eip1559_asks tx result (f, accepted, done) h =
      let sig = done.sig in
      let (entries, written) =
        encode_access_list-encode tx.access_list f.access_list accepted.access_list_read in
      let nodes = eip1559_nodes tx f entries sig in
      let e : result.raw_transaction ≡ 0x02 ∷ encode (list nodes) =
        ap (λ (t : TransactionSignature). t.raw_transaction) done.result_lem
        ∙ eip1559_raw-encode tx f entries written sig in
      let size : length (0x02 ∷ encode (list nodes)) ≤ max_int = rw e at h in
      (
        keccak256 (eip1559_unsigned tx f),
        sig,
        done.digest_signed,
        ap (verify_transaction signer public_key) e
            ∙ verify-eip1559 signer public_key nodes (omega arith)
            ∙ check_eip1559-nodes tx f entries written signer public_key sig
                (laws.sign_digest-recovery_id private_key _ sig done.digest_signed)
                (scalars_read _ sig done.digest_signed),
      )

  -- If SignDigest keeps its promises and signTransaction returns a signed transaction whose raw form is at
  -- most the largest `int` long, then there are a digest and the signature that SignDigest returned for
  -- it, and verifyTransaction on the raw form returns, with no error, what VerifyDigestWithRecoveryID
  -- answers on that digest, the compact form of that signature and its recovery id.
  pub verify_transaction-sign_transaction :
      (tx : EthereumTransaction) (result : TransactionSignature)
      → sign_transaction signer private_key tx ≡ ok result
      → length result.raw_transaction ≤ max_int
      → AsksFor signer private_key public_key tx result
  verify_transaction-sign_transaction tx result h size =
      elim (sign_transaction_ok signer private_key tx result h) [
        | inl (e, done) ↦ legacy_asks tx result done size
        | inr (e, done) ↦ eip1559_asks tx result done size
      ]
