-- ===== src/Transaction/Check.antt =====
-- verifyTransaction of internal/adapter/out/blockchain/ethereum/transaction.go and what it calls.
use sigryx.Base.{
  ℕ, ◌-◌, ◌/◌, ◌%◌, ◌^◌, Bool, not, ◌||◌, Option, none, some, List, [], ◌∷◌, ◌++◌, ltb, leb, ◌==◌,
  if◌then◌else◌, length,
}
use sigryx.Base.Bytes.{Bytes, to_number, fill_bytes}
use sigryx.Base.Outcome.{Outcome, ok, err, ◌>>=◌, ◌>>◌, refuse}
use sigryx.Signature.{parse_compact_signature}
use sigryx.Rlp.{
  Decoded, Node, Nodes, text, list, nil, cons, rlp_bytes, rlp_list, rlp_big, encode, decode_rlp,
}
use sigryx.Rlp
use sigryx.Keccak.{keccak256}
use sigryx.Transaction.{
  TransactionError, invalid_transaction, invalid_signature, panics, stuck, Signer,
}

-- rlpNode.integer
unfoldable pub integer : Node → Option ℕ
integer (list nodes) = none
integer (text []) = some 0
integer (text (b ∷ bs)) = if b == 0 then none else some (to_number (b ∷ bs))

-- `err != nil || !value.IsUint64()`
abbrev pub is_uint64 : Option ℕ → Option ℕ
is_uint64 none = none
is_uint64 (some n) = if ltb n (2 ^ 64) then some n else none

-- rlpNode.uint64
unfoldable pub uint64 : Node → Option ℕ
unfolding integer
uint64 node = is_uint64 (integer node)

abbrev pub read : {A : Type 0} → Option A → TransactionError → Outcome TransactionError A
read none e = err e
read (some a) e = ok a

-- The tests of signatureScalars on one node
unfoldable pub signature_scalar : Node → Outcome TransactionError Bytes
unfolding integer fill_bytes
signature_scalar node = do
  n ← read (integer node) invalid_signature
  refuse ((n == 0) || not (ltb n (2 ^ 256))) invalid_signature
  ok (fill_bytes 32 n)

-- signatureScalars, of which the callers use `append(r, s...)`
unfoldable pub signature_scalars : Node → Node → Outcome TransactionError Bytes
unfolding signature_scalar
signature_scalars r_node s_node = do
  r ← signature_scalar r_node
  s ← signature_scalar s_node
  _ ← read (parse_compact_signature (r ++ s)) invalid_signature
  ok (r ++ s)

-- `if err != nil || consumed != len(raw)` behind decodeRLP
unfoldable pub whole : ℕ → Decoded (Node × ℕ) → Outcome TransactionError Node
whole size (Rlp.ok (node, consumed)) = if consumed == size then ok node else err invalid_transaction
whole size (Rlp.err e) = err invalid_transaction
whole size Rlp.panic = err panics
whole size Rlp.stuck = err stuck

-- node.list
abbrev pub elements : Nodes → List Node
elements nil = []
elements (cons node nodes) = node ∷ elements nodes

-- rlpListFromNodes, and the encodings it joins
abbrev pub encodings : List Node → List Bytes
encodings [] = []
encodings (node ∷ nodes) = encode node ∷ encodings nodes

abbrev pub rlp_list_from_nodes : List Node → Bytes
rlp_list_from_nodes nodes = rlp_list (encodings nodes)

-- `!node.isList`
abbrev pub list_of : Node → Outcome TransactionError (List Node)
list_of (text bytes) = err invalid_transaction
list_of (list nodes) = ok (elements nodes)

-- The switch of verifyLegacyTransaction on v: `unsigned` and `parity`
unfoldable pub legacy_cases : ℕ → List Node → Outcome TransactionError (Bytes × ℕ)
legacy_cases v front =
    if (v == 27) || (v == 28)
    then ok (rlp_list_from_nodes front, v - 27)
    else if leb 35 v
    then (if (v - 35 - (v - 35) % 2) / 2 == 0
        then err invalid_transaction
        else ok (
          rlp_list (
              encodings front
              ++ (rlp_big ((v - 35 - (v - 35) % 2) / 2) ∷ rlp_bytes [] ∷ rlp_bytes [] ∷ [])),
          (v - 35) % 2,
        ))
    else err invalid_transaction

-- The body of verifyLegacyTransaction, on the elements of the list
unfoldable pub check_legacy : Signer → Bytes → List Node → Outcome TransactionError Bool
unfolding legacy_cases signature_scalars
check_legacy signer public_key
      (nonce ∷ gas_price ∷ gas ∷ to ∷ value ∷ call_data ∷ v_node ∷ r_node ∷ s_node ∷ []) =
    do
      v ← read (integer v_node) invalid_transaction
      sig ← signature_scalars r_node s_node
      (unsigned, parity) ← legacy_cases v (nonce ∷ gas_price ∷ gas ∷ to ∷ value ∷ call_data ∷ [])
      ok (signer.verify_digest_with_recovery_id public_key (keccak256 unsigned) sig parity)
check_legacy signer public_key _ = err invalid_transaction

-- verifyLegacyTransaction
unfoldable pub verify_legacy_transaction : Signer → Bytes → Bytes → Outcome TransactionError Bool
unfolding whole check_legacy
verify_legacy_transaction signer public_key raw = do
  node ← whole (length raw) (decode_rlp raw)
  nodes ← list_of node
  check_legacy signer public_key nodes

-- The body of verifyEIP1559Transaction, on the elements of the list
unfoldable pub check_eip1559 : Signer → Bytes → List Node → Outcome TransactionError Bool
unfolding uint64 signature_scalars
check_eip1559 signer public_key
      (chain_id ∷ nonce ∷ priority_fee ∷ max_fee ∷ gas ∷ to ∷ value ∷ call_data ∷ access_list
        ∷ parity_node ∷ r_node ∷ s_node ∷ []) =
    do
      parity ← read (uint64 parity_node) invalid_transaction
      refuse (ltb 1 parity) invalid_transaction
      sig ← signature_scalars r_node s_node
      ok (
          signer.verify_digest_with_recovery_id public_key
            (keccak256 (
              0x02
              ∷ rlp_list_from_nodes (
                  chain_id ∷ nonce ∷ priority_fee ∷ max_fee ∷ gas ∷ to ∷ value ∷ call_data
                  ∷ access_list ∷ [])))
            sig parity)
check_eip1559 signer public_key _ = err invalid_transaction

-- verifyEIP1559Transaction, of the bytes behind the first
unfoldable pub verify_eip1559_transaction : Signer → Bytes → Bytes → Outcome TransactionError Bool
unfolding whole check_eip1559
verify_eip1559_transaction signer public_key rest = do
  node ← whole (length rest) (decode_rlp rest)
  nodes ← list_of node
  check_eip1559 signer public_key nodes

-- verifyTransaction
unfoldable pub verify_transaction : Signer → Bytes → Bytes → Outcome TransactionError Bool
unfolding verify_legacy_transaction verify_eip1559_transaction
verify_transaction signer public_key [] = err invalid_transaction
verify_transaction signer public_key (b ∷ rest) =
    if b == 0x02
    then verify_eip1559_transaction signer public_key rest
    else verify_legacy_transaction signer public_key (b ∷ rest)
