-- ===== src/Transaction.antt =====
-- The transactions of internal/adapter/out/blockchain/ethereum/transaction.go: signTransaction,
-- verifyTransaction and what they call. A text is the list of its bytes; of an error the message is
-- left out, and the sentinel it wraps is kept.
pub mod Fields
pub mod Sign
pub mod SignVerify
pub mod AccessList
pub mod Bounds
pub mod Accepted
pub mod Check
pub mod Tests
use sigryx.Base.{
  ℕ, zero, suc, ◌+◌, ◌-◌, ◌*◌, ◌/◌, ◌%◌, ◌^◌, ◌≤◌, ◌≡◌, Bool, true, false, not, ◌&&◌, ◌||◌, Option,
  none, some, List, [], ◌∷◌, ◌++◌, ltb, leb, ◌==◌, eqb, if◌then◌else◌, length, take, drop,
}
use sigryx.Base.Bytes.{Bytes, AreBytes, to_number}
use sigryx.Base.Outcome.{Outcome, ok, err, ◌>>=◌, ◌>>◌, refuse}
use sigryx.Base.Text.{codes}
use sigryx.Signature.{Signature, compact, parse_compact_signature}
use sigryx.Signature.Encodings.{IsValid}
use sigryx.Rlp.{
  Decoded, Node, Nodes, text, list, nil, cons, rlp_bytes, rlp_list, rlp_list_payload, rlp_big,
  encode, encode_nodes, decode_rlp,
}
use sigryx.Rlp
use sigryx.Hex.{parse_quantity, decode_hex, decode_address, decode_fixed_hex}
use sigryx.Keccak.{keccak256}

-- `panics` is a run-time panic of the decoder, and `stuck` says that the decoder's recursion ran out
-- of fuel; neither is an error value of Go. `refused` carries an error of SignDigest.
pub data TransactionError : Type 0 where
  invalid_transaction invalid_signature refused panics stuck : TransactionError

-- domain.AccessListEntry
pub record AccessListEntry : Type 0 where
  pub address : Bytes
  pub storage_keys : List Bytes

-- domain.EthereumTransaction
pub record EthereumTransaction : Type 0 where
  pub type : Bytes
  pub chain_id : ℕ
  pub nonce : ℕ
  pub gas_limit : ℕ
  pub gas_price : Bytes
  pub max_priority_fee_per_gas : Bytes
  pub max_fee_per_gas : Bytes
  pub to : Bytes
  pub value : Bytes
  pub call_data : Bytes
  pub access_list : List AccessListEntry

-- portout.TransactionSignature
pub record TransactionSignature : Type 0 where
  pub raw_transaction : Bytes
  pub hash : Bytes
  pub r : Bytes
  pub s : Bytes
  pub y_parity : ℕ

-- What the code uses of pkg/hdwallet: SignDigest and VerifyDigestWithRecoveryID.
pub record Signer : Type 0 where
  pub sign_digest : Bytes → Bytes → Option Signature
  pub verify_digest_with_recovery_id : Bytes → Bytes → Bytes → ℕ → Bool

-- What SignDigest promises of a signature. Ecdsa fills it.
pub record IsSigner (signer : Signer) : Type 0 where
  pub sign_digest-IsValid :
      (private_key digest : Bytes) (sig : Signature)
      → signer.sign_digest private_key digest ≡ some sig
      → IsValid sig
  pub sign_digest-AreBytes :
      (private_key digest : Bytes) (sig : Signature)
      → signer.sign_digest private_key digest ≡ some sig
      → AreBytes sig.r × AreBytes sig.s
  pub sign_digest-recovery_id :
      (private_key digest : Bytes) (sig : Signature)
      → signer.sign_digest private_key digest ≡ some sig
      → sig.recovery_id ≤ 1

abbrev pub transaction_type_legacy : Bytes
transaction_type_legacy = codes "LEGACY"

abbrev pub transaction_type_eip1559 : Bytes
transaction_type_eip1559 = codes "EIP1559"

-- `if err != nil { return …, fmt.Errorf("%w: …", ErrInvalidTransaction, …) }`
abbrev pub valid : {A : Type 0} → Option A → Outcome TransactionError A
valid none = err invalid_transaction
valid (some a) = ok a

abbrev pub signed : Option Signature → Outcome TransactionError Signature
signed none = err refused
signed (some sig) = ok sig

-- The inner loop of encodeAccessList: the items that `keys` collects
unfoldable pub push_key : Option Bytes → Option (List Bytes) → Option (List Bytes)
push_key (some key) (some keys) = some (rlp_bytes key ∷ keys)
push_key (some key) none = none
push_key none _ = none

unfoldable pub encode_storage_keys : List Bytes → Option (List Bytes)
unfolding push_key
encode_storage_keys [] = some []
encode_storage_keys (value ∷ values) =
    push_key (decode_fixed_hex value 32) (encode_storage_keys values)

-- The outer loop of encodeAccessList: the items that `items` collects
unfoldable pub push_entry :
    Option Bytes → Option (List Bytes) → Option (List Bytes) → Option (List Bytes)
push_entry (some address) (some keys) (some items) =
    some (rlp_list (rlp_bytes address ∷ rlp_list keys ∷ []) ∷ items)
push_entry (some address) (some keys) none = none
push_entry (some address) none _ = none
push_entry none _ _ = none

unfoldable pub encode_entries : List AccessListEntry → Option (List Bytes)
unfolding push_entry encode_storage_keys
encode_entries [] = some []
encode_entries (entry ∷ entries) =
    push_entry (decode_address entry.address false) (encode_storage_keys entry.storage_keys)
      (encode_entries entries)

-- encodeAccessList
abbrev pub as_rlp_list : Option (List Bytes) → Option Bytes
as_rlp_list none = none
as_rlp_list (some items) = some (rlp_list items)

unfoldable pub encode_access_list : List AccessListEntry → Option Bytes
unfolding encode_entries
encode_access_list entries = as_rlp_list (encode_entries entries)

-- transactionSignature
abbrev pub transaction_signature : Bytes → Bytes → Signature → TransactionSignature
transaction_signature raw hash sig = record {
  raw_transaction = raw;
  hash = hash;
  r = sig.r;
  s = sig.s;
  y_parity = sig.recovery_id;
}

-- What signLegacyTransaction reads of the transaction
pub record LegacyFields : Type 0 where
  pub gas_price : ℕ
  pub value : ℕ
  pub to : Bytes
  pub call_data : Bytes

-- The items that its two calls of rlpList share
abbrev pub legacy_items : EthereumTransaction → LegacyFields → List Bytes → Bytes
legacy_items tx f rest = rlp_list (
    rlp_big tx.nonce
    ∷ rlp_big f.gas_price
    ∷ rlp_big tx.gas_limit
    ∷ rlp_bytes f.to
    ∷ rlp_big f.value
    ∷ rlp_bytes f.call_data
    ∷ rest)

-- `unsigned` and `raw` of signLegacyTransaction
abbrev pub legacy_unsigned : EthereumTransaction → LegacyFields → Bytes
legacy_unsigned tx f = legacy_items tx f (rlp_big tx.chain_id ∷ rlp_bytes [] ∷ rlp_bytes [] ∷ [])

abbrev pub legacy_raw : EthereumTransaction → LegacyFields → Signature → Bytes
legacy_raw tx f sig = legacy_items tx f (
    rlp_big (tx.chain_id * 2 + (35 + sig.recovery_id))
    ∷ rlp_big (to_number sig.r)
    ∷ rlp_big (to_number sig.s)
    ∷ [])

-- The tests of signLegacyTransaction
unfoldable pub read_legacy : EthereumTransaction → Outcome TransactionError LegacyFields
read_legacy tx = do
  refuse (tx.chain_id == 0) invalid_transaction
  gas_price ← valid (parse_quantity tx.gas_price)
  value ← valid (parse_quantity tx.value)
  to ← valid (decode_address tx.to true)
  call_data ← valid (decode_hex tx.call_data)
  ok (record { gas_price = gas_price; value = value; to = to; call_data = call_data })

-- From the digest on: SignDigest, and the transaction with the signature
unfoldable pub sign_with :
    Signer → Bytes → Bytes → (Signature → Bytes) → Outcome TransactionError TransactionSignature
sign_with signer private_key unsigned raw = do
  sig ← signed (signer.sign_digest private_key (keccak256 unsigned))
  ok (transaction_signature (raw sig) (keccak256 (raw sig)) sig)

-- signLegacyTransaction
unfoldable pub sign_legacy_transaction :
    Signer → Bytes → EthereumTransaction → Outcome TransactionError TransactionSignature
unfolding read_legacy sign_with
sign_legacy_transaction signer private_key tx = do
  f ← read_legacy tx
  sign_with signer private_key (legacy_unsigned tx f) (legacy_raw tx f)

-- What signEIP1559Transaction reads of the transaction
pub record Eip1559Fields : Type 0 where
  pub priority_fee : ℕ
  pub max_fee : ℕ
  pub value : ℕ
  pub to : Bytes
  pub call_data : Bytes
  pub access_list : Bytes

abbrev pub eip1559_items : EthereumTransaction → Eip1559Fields → List Bytes → Bytes
eip1559_items tx f rest =
    0x02
    ∷ rlp_list (
        rlp_big tx.chain_id
        ∷ rlp_big tx.nonce
        ∷ rlp_big f.priority_fee
        ∷ rlp_big f.max_fee
        ∷ rlp_big tx.gas_limit
        ∷ rlp_bytes f.to
        ∷ rlp_big f.value
        ∷ rlp_bytes f.call_data
        ∷ f.access_list
        ∷ rest)

-- `unsigned` and `raw` of signEIP1559Transaction
abbrev pub eip1559_unsigned : EthereumTransaction → Eip1559Fields → Bytes
eip1559_unsigned tx f = eip1559_items tx f []

abbrev pub eip1559_raw : EthereumTransaction → Eip1559Fields → Signature → Bytes
eip1559_raw tx f sig =
    eip1559_items tx f
      (rlp_big sig.recovery_id ∷ rlp_big (to_number sig.r) ∷ rlp_big (to_number sig.s) ∷ [])

-- The tests of signEIP1559Transaction
unfoldable pub read_eip1559 : EthereumTransaction → Outcome TransactionError Eip1559Fields
read_eip1559 tx = do
  refuse (tx.chain_id == 0) invalid_transaction
  priority_fee ← valid (parse_quantity tx.max_priority_fee_per_gas)
  max_fee ← valid (parse_quantity tx.max_fee_per_gas)
  refuse (ltb max_fee priority_fee) invalid_transaction
  value ← valid (parse_quantity tx.value)
  to ← valid (decode_address tx.to true)
  call_data ← valid (decode_hex tx.call_data)
  access_list ← valid (encode_access_list tx.access_list)
  ok (record {
    priority_fee = priority_fee;
    max_fee = max_fee;
    value = value;
    to = to;
    call_data = call_data;
    access_list = access_list;
  })

-- signEIP1559Transaction
unfoldable pub sign_eip1559_transaction :
    Signer → Bytes → EthereumTransaction → Outcome TransactionError TransactionSignature
unfolding read_eip1559 sign_with
sign_eip1559_transaction signer private_key tx = do
  f ← read_eip1559 tx
  sign_with signer private_key (eip1559_unsigned tx f) (eip1559_raw tx f)

-- signTransaction
unfoldable pub sign_transaction :
    Signer → Bytes → EthereumTransaction → Outcome TransactionError TransactionSignature
unfolding sign_legacy_transaction sign_eip1559_transaction
sign_transaction signer private_key tx =
    if eqb tx.type transaction_type_legacy
    then sign_legacy_transaction signer private_key tx
    else if eqb tx.type transaction_type_eip1559
    then sign_eip1559_transaction signer private_key tx
    else err invalid_transaction
